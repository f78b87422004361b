-- ===== src/Statement/Rows.antt =====
-- What the rows of a parsed statement satisfy.
use stead.Prelude.{
  ℕ, zero, suc, ◌+◌, ◌≤◌, ◌≡◌, refl, sym, ap, ◌∙◌, subst, leb, Bool, true, false, not, ◌&&◌, Option,
  none, some, is_some, is_none, List, [], ◌∷◌, all, map, length, if◌then◌else◌, ok, arith,
  Option-cases, Result-cases, inl, inr,
}
use stead.Statement.Text.{Text, split, is_empty, trim}
use stead.Statement.Csv.{parse_csv_records}
use stead.Statement.Values.{max_safe_integer, parse_amount_kobo, strip_currency, amount_parts}
use stead.Statement.Adapters.{cell_at, normalize_headers, to_canonical_import_csv}
use stead.Statement.Parser.{
  Host, RowError, ImportRow, Cells, Columns, max_rows, max_note, read_cells, canonical_cells,
  import_row, occurrences, set_occurrences, fingerprint_of, read_rows, columns_of, read_records,
  parse_transaction_import,
}

-- Absent, or an amount that JavaScript holds exactly.
abbrev pub is_amount : Option ℕ → Bool
is_amount none = true
is_amount (some k) = leb 1 k && leb k max_safe_integer

abbrev pub no_errors : List RowError → Bool
no_errors [] = true
no_errors (e ∷ es) = false

-- A row is complete and has a fingerprint, or it names its errors and has none.
abbrev pub is_checked : ImportRow → Bool
is_checked r =
    is_amount r.amount_kobo
    && (if no_errors r.errors
        then is_some r.occurred_at
          && is_some r.direction
          && is_some r.amount_kobo
          && is_some r.fingerprint
          && not (is_empty r.note)
          && leb (length r.note) max_note
        else is_none r.fingerprint)

-- Every amount that the parser reads is positive and exact.
pub parse_amount_kobo-is_amount : (value : Text) → is_amount (parse_amount_kobo value) ≡ true
unfolding parse_amount_kobo amount_parts
parse_amount_kobo-is_amount value = cases (split b'.' (strip_currency (trim value)))
  where
    cases : (parts : List Text) → is_amount (amount_parts parts) ≡ true
    cases [] = refl
    cases (w ∷ []) = ground arith
    cases (w ∷ f ∷ []) = ground arith
    cases (w ∷ f ∷ g ∷ rest) = refl

-- `n`, the number after it, and so on, `k` of them.
abbrev pub count_from : ℕ → ℕ → List ℕ
count_from n zero = []
count_from n (suc k) = n ∷ count_from (n + 1) k

length-count_from : (n k : ℕ) → length (count_from n k) ≡ k
length-count_from n zero = refl
length-count_from n (suc k) = ap suc (length-count_from (n + 1) k)

length-map : {A B : Type 0} (f : A → B) (xs : List A) → length (map f xs) ≡ length xs
length-map f [] = refl
length-map f (x ∷ xs) = ap suc (length-map f xs)

module _ (h : Host) where
  invalid-is_checked :
      (n : ℕ) (c : Cells)
      → is_amount c.amount ≡ true
      → canonical_cells h c ≡ none
      → is_checked (import_row n c none) ≡ true
  unfolding canonical_cells
  invalid-is_checked n c k e = ground arith

  valid-is_checked :
      (n : ℕ) (c : Cells) (canonical fingerprint : Text)
      → is_amount c.amount ≡ true
      → canonical_cells h c ≡ some canonical
      → is_checked (import_row n c (some fingerprint)) ≡ true
  unfolding canonical_cells
  valid-is_checked n c canonical fingerprint k e = ground arith

  pub read_rows-invalid :
      (columns : Columns) (n : ℕ) (seen : List (Text × ℕ)) (fields : List Text)
      (lines : List (List Text))
      → canonical_cells h (read_cells h columns fields) ≡ none
      → read_rows h columns n seen (fields ∷ lines)
        ≡ import_row n (read_cells h columns fields) none ∷ read_rows h columns (n + 1) seen lines
  unfolding read_rows
  read_rows-invalid columns n seen fields lines e = rw (e, read_rows) refl

  pub read_rows-valid :
      (columns : Columns) (n : ℕ) (seen : List (Text × ℕ)) (fields : List Text)
      (lines : List (List Text)) (canonical : Text)
      → canonical_cells h (read_cells h columns fields) ≡ some canonical
      → read_rows h columns n seen (fields ∷ lines)
        ≡ import_row n
            (read_cells h columns fields)
            (some (fingerprint_of h canonical (occurrences canonical seen + 1)))
          ∷ read_rows h columns
              (n + 1)
              (set_occurrences canonical (occurrences canonical seen + 1) seen)
              lines
  unfolding read_rows
  read_rows-valid columns n seen fields lines canonical e = rw (e, read_rows) refl

  read_cells-is_amount :
      (columns : Columns) (fields : List Text)
      → is_amount (read_cells h columns fields).amount ≡ true
  unfolding read_cells
  read_cells-is_amount columns fields =
      parse_amount_kobo-is_amount (cell_at fields (some columns.amount))

  read_rows-is_checked :
      (columns : Columns) (n : ℕ) (seen : List (Text × ℕ)) (lines : List (List Text))
      → all is_checked (read_rows h columns n seen lines) ≡ true
  unfolding read_rows
  read_rows-is_checked columns n seen [] = refl
  read_rows-is_checked columns n seen (fields ∷ lines) =
      let c = read_cells h columns fields in
      let k = read_cells-is_amount columns fields in
      elim (Option-cases (canonical_cells h c)) [
        | inl e ↦
            ap (all is_checked) (read_rows-invalid columns n seen fields lines e)
            ∙ rw (invalid-is_checked n c k e) (read_rows-is_checked columns (n + 1) seen lines)
        | inr (canonical, e) ↦
            let m = occurrences canonical seen + 1 in
            ap (all is_checked) (read_rows-valid columns n seen fields lines canonical e)
            ∙ rw (valid-is_checked n c canonical (fingerprint_of h canonical m) k e)
                (read_rows-is_checked columns (n + 1) (set_occurrences canonical m seen) lines)
      ]

  read_rows-numbers :
      (columns : Columns) (n : ℕ) (seen : List (Text × ℕ)) (lines : List (List Text))
      → map (λ r. r.row_number) (read_rows h columns n seen lines) ≡ count_from n (length lines)
  unfolding read_rows
  read_rows-numbers columns n seen [] = refl
  read_rows-numbers columns n seen (fields ∷ lines) =
      elim (Option-cases (canonical_cells h (read_cells h columns fields))) [
        | inl e ↦
            ap (map (λ r. r.row_number)) (read_rows-invalid columns n seen fields lines e)
            ∙ ap (λ ns. n ∷ ns) (read_rows-numbers columns (n + 1) seen lines)
        | inr (canonical, e) ↦
            ap (map (λ r. r.row_number)) (read_rows-valid columns n seen fields lines canonical e)
            ∙ ap (λ ns. n ∷ ns)
                (read_rows-numbers columns (n + 1)
                  (set_occurrences canonical (occurrences canonical seen + 1) seen) lines)
      ]

  length-read_rows :
      (columns : Columns) (n : ℕ) (seen : List (Text × ℕ)) (lines : List (List Text))
      → length (read_rows h columns n seen lines) ≡ length lines
  length-read_rows columns n seen lines =
      sym (length-map (λ r. r.row_number) (read_rows h columns n seen lines))
      ∙ ap length (read_rows-numbers columns n seen lines)
      ∙ length-count_from n (length lines)

  -- What a parse that succeeds gives is what `read_rows` makes of between 1 and 500 lines.
  pub read_records-lines :
      (records : List (List Text)) (rows : List ImportRow)
      → read_records h records ≡ ok rows
      → (columns : Columns) × (lines : List (List Text)) × (1 ≤ length lines)
        × (length lines ≤ max_rows)
        × (rows ≡ read_rows h columns 2 [] lines)
  unfolding read_records
  read_records-lines [] rows e = absurd (cc)
  read_records-lines (header ∷ lines) rows e =
      elim (Option-cases (columns_of h (normalize_headers h.to_lower_case header))) [
        | inl missing ↦ absurd (ground arith)
        | inr (columns, found) ↦ (columns, lines, ground arith, ground arith, ground arith)
      ]

  pub parse_transaction_import-records :
      (csv : Text) (rows : List ImportRow)
      → parse_transaction_import h csv ≡ ok rows
      → (records : List (List Text)) × (read_records h records ≡ ok rows)
  unfolding parse_transaction_import
  parse_transaction_import-records csv rows e =
      elim (Result-cases (to_canonical_import_csv h.to_lower_case csv)) [
        | inr (x, r) ↦ absurd (ground arith)
        | inl (canonical, r) ↦ elim (Result-cases (parse_csv_records canonical)) [
          | inr (x, p) ↦ absurd (ground arith)
          | inl (records, p) ↦ (records, ground arith)
        ]
      ]

  -- A statement that parses has between 1 and 500 rows, numbered from 2; each is complete, with a
  -- positive amount that JavaScript holds exactly, a note of at most 280 units and a fingerprint, or
  -- names its errors and has no fingerprint.
  pub parse_transaction_import-is_checked :
      (csv : Text) (rows : List ImportRow)
      → parse_transaction_import h csv ≡ ok rows
      → (1 ≤ length rows)
        × (length rows ≤ max_rows)
        × (all is_checked rows ≡ true)
        × (map (λ r. r.row_number) rows ≡ count_from 2 (length rows))
  parse_transaction_import-is_checked csv rows e =
      let (records, r) = parse_transaction_import-records csv rows e in
      let (columns, lines, least, most, same) = read_records-lines records rows r in
      let long = length-read_rows columns 2 [] lines in
      subst
        (λ rs.
          (1 ≤ length rs)
          × (length rs ≤ max_rows)
          × (all is_checked rs ≡ true)
          × (map (λ r. r.row_number) rs ≡ count_from 2 (length rs)))
        (sym same)
        (
          omega (arith, long, least),
          omega (arith, long, most),
          read_rows-is_checked columns 2 [] lines,
          read_rows-numbers columns 2 [] lines ∙ ap (count_from 2) (sym long),
        )
