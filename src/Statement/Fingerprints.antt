-- ===== src/Statement/Fingerprints.antt =====
-- The fingerprints of one statement.
use stead.Prelude.{
  ℕ, ◌+◌, ◌≤◌, ◌<◌, ◌≡◌, refl, sym, ap, ◌∙◌, subst, true, false, Bool, ◌&&◌, Option, none, some,
  List, [], ◌∷◌, ◌++◌, all, any, ok, arith, All, Option-cases, inl, inr, Bool-cases,
}
use stead.Store.{distinct}
use stead.Statement.Text.{Text, eq_text, is_digit, show, number_of}
use stead.Statement.Decimal.{number_of-show, show-is_digit}
use stead.Statement.Encoding.{as_utf8, as_utf8-bar}
use stead.Statement.Parser.{
  Host, ImportRow, Columns, read_cells, canonical_cells, occurrences, set_occurrences,
  fingerprint_text, fingerprint_of, import_row, canonical_of, Cells, read_rows,
  parse_transaction_import,
}
use stead.Statement.Rows.{
  read_rows-invalid, read_rows-valid, read_records-lines, parse_transaction_import-records,
}

pub eq_text→≡ : (s t : Text) → eq_text s t ≡ true → s ≡ t
eq_text→≡ [] [] h = refl
eq_text→≡ [] (d ∷ t) h = absurd (cc)
eq_text→≡ (c ∷ s) [] h = absurd (cc)
eq_text→≡ (c ∷ s) (d ∷ t) h = ground (arith, eq_text→≡ s t)

pub eq_text_refl : (s : Text) → eq_text s s ≡ true
eq_text_refl [] = refl
eq_text_refl (c ∷ s) = ground (arith, eq_text_refl s)

&&_left : (a b : Bool) → (a && b) ≡ true → a ≡ true
&&_left a b e = ground arith

&&_right : (a b : Bool) → (a && b) ≡ true → b ≡ true
&&_right a b e = ground arith

-- A bar is no digit: the last bar of a text is where its number begins.
no_bar : (s t : Text) → all is_digit (s ++ (b'|' ∷ t)) ≡ false
no_bar [] t = refl
no_bar (c ∷ s) t = ground (arith, no_bar s t)

last_bar :
    (s t m n : Text)
    → all is_digit m ≡ true
    → all is_digit n ≡ true
    → s ++ (b'|' ∷ m) ≡ t ++ (b'|' ∷ n)
    → (s ≡ t) × (m ≡ n)
last_bar [] [] m n dm dn e = ground arith
last_bar [] (d ∷ t) m n dm dn e = ground (arith, no_bar t n)
last_bar (c ∷ s) [] m n dm dn e = ground (arith, no_bar s m)
last_bar (c ∷ s) (d ∷ t) m n dm dn e = ground (arith, last_bar s t m n dm dn)

show_inj : (m n : ℕ) → show m ≡ show n → m ≡ n
show_inj m n e = sym (number_of-show m) ∙ ap number_of e ∙ number_of-show n

pub fingerprint_text_inj :
    (s t : Text) (m n : ℕ) → fingerprint_text s m ≡ fingerprint_text t n → (s ≡ t) × (m ≡ n)
fingerprint_text_inj s t m n e =
    let (same, numbers) = last_bar s t (show m) (show n) (show-is_digit m) (show-is_digit n) e in
    (same, show_inj m n numbers)

occurrences-set_same :
    (key : Text) (n : ℕ) (seen : List (Text × ℕ)) → occurrences key (set_occurrences key n seen) ≡ n
occurrences-set_same key n [] = rw (eq_text_refl key) refl
occurrences-set_same key n ((k, m) ∷ seen) =
    ground (arith, occurrences-set_same key n seen, eq_text_refl key)

occurrences-set_mono :
    (key other : Text) (n : ℕ) (seen : List (Text × ℕ))
    → occurrences other seen ≤ n
    → occurrences key seen ≤ occurrences key (set_occurrences other n seen)
occurrences-set_mono key other n [] h = omega arith
occurrences-set_mono key other n ((k, m) ∷ seen) h =
    ground (arith, occurrences-set_mono key other n seen)

-- The fingerprints of the rows that have one.
abbrev pub fingerprints : List ImportRow → List Text
fingerprints [] = []
fingerprints (r ∷ rows) = elim r.fingerprint [
  | none ↦ fingerprints rows
  | some f ↦ f ∷ fingerprints rows
]

-- The text that the fingerprint of a row is made of.
abbrev pub canonical_row : Host → ImportRow → Option Text
canonical_row h r = elim r.occurred_at [
  | none ↦ none
  | some date ↦ elim r.direction [
    | none ↦ none
    | some direction ↦ elim r.amount_kobo [
      | none ↦ none
      | some amount ↦ some (canonical_of h date direction amount r.note)
    ]
  ]
]

-- UTF-8 keeps the text that the fingerprint of a row is made of.
abbrev pub is_encodable : Host → ImportRow → Bool
is_encodable h r = elim (canonical_row h r) [
  | none ↦ true
  | some canonical ↦ eq_text (as_utf8 canonical) canonical
]

first_encodable :
    (h : Host) (r : ImportRow) (rows : List ImportRow)
    → all (is_encodable h) (r ∷ rows) ≡ true
    → is_encodable h r ≡ true
first_encodable h r rows e = &&_left (is_encodable h r) (all (is_encodable h) rows) e

rest_encodable :
    (h : Host) (r : ImportRow) (rows : List ImportRow)
    → all (is_encodable h) (r ∷ rows) ≡ true
    → all (is_encodable h) rows ≡ true
rest_encodable h r rows e = &&_right (is_encodable h r) (all (is_encodable h) rows) e

canonical_cells-row :
    (h : Host) (n : ℕ) (c : Cells) (canonical : Text) (f : Option Text)
    → canonical_cells h c ≡ some canonical
    → canonical_row h (import_row n c f) ≡ some canonical
unfolding canonical_cells
canonical_cells-row h n c canonical f e = ground arith

valid_encodable :
    (h : Host) (n : ℕ) (c : Cells) (canonical : Text) (f : Option Text)
    → canonical_cells h c ≡ some canonical
    → is_encodable h (import_row n c f) ≡ true
    → as_utf8 canonical ≡ canonical
valid_encodable h n c canonical f e fine = eq_text→≡ (as_utf8 canonical) canonical (
    ap (λ o. elim o [ none ↦ true | some k ↦ eq_text (as_utf8 k) k ])
      (sym (canonical_cells-row h n c canonical f e))
    ∙ fine)

module _ (h : Host) (sha256_inj : (s t : Text) → h.sha256 s ≡ h.sha256 t → s ≡ t) where
  -- The hash of an occurrence after those in `seen`.
  abbrev IsLater : List (Text × ℕ) → Text → Type 0
  IsLater seen f =
      (canonical : Text) × (n : ℕ) × (f ≡ fingerprint_of h canonical n)
      × (as_utf8 canonical ≡ canonical)
      × (occurrences canonical seen < n)

  earlier :
      (seen : List (Text × ℕ)) (key : Text) (fs : List Text)
      → All (IsLater (set_occurrences key (occurrences key seen + 1) seen)) fs
      → All (IsLater seen) fs
  earlier seen key [] a = tt
  earlier seen key (f ∷ fs) ((canonical, n, e, kept, later), a) =
      let grows =
        occurrences-set_mono canonical key (occurrences key seen + 1) seen (omega arith) in
      ((canonical, n, e, kept, omega (arith, grows, later)), earlier seen key fs a)

  apart :
      (seen : List (Text × ℕ)) (key : Text) (n : ℕ) (fs : List Text)
      → as_utf8 key ≡ key
      → All (IsLater (set_occurrences key n seen)) fs
      → any (eq_text (fingerprint_of h key n)) fs ≡ false
  apart seen key n [] whole a = refl
  apart seen key n (f ∷ fs) whole ((canonical, m, e, kept, later), a) =
      elim (Bool-cases (eq_text (fingerprint_of h key n) f)) [
        | inr other ↦ rw other (apart seen key n fs whole a)
        | inl same ↦
            let hash = eq_text→≡ (fingerprint_of h key n) f same ∙ e in
            let (keys, numbers) = fingerprint_text_inj key canonical n m (
              sym (as_utf8-bar key n whole)
              ∙ sha256_inj (as_utf8 (fingerprint_text key n))
                  (as_utf8 (fingerprint_text canonical m)) hash
              ∙ as_utf8-bar canonical m kept) in
            let set =
              ap (λ k. occurrences k (set_occurrences key n seen)) (sym keys)
              ∙ occurrences-set_same key n seen in
            absurd (omega (arith, later, set, numbers))
      ]

  read_rows-fingerprints :
      (columns : Columns) (n : ℕ) (seen : List (Text × ℕ)) (lines : List (List Text))
      → all (is_encodable h) (read_rows h columns n seen lines) ≡ true
      → All (IsLater seen) (fingerprints (read_rows h columns n seen lines))
        × (distinct eq_text (fingerprints (read_rows h columns n seen lines)) ≡ true)
  unfolding read_rows
  read_rows-fingerprints columns n seen [] fine = (tt, refl)
  read_rows-fingerprints columns n seen (fields ∷ lines) fine =
      elim (Option-cases (canonical_cells h (read_cells h columns fields))) [
        | inl e ↦
            subst
              (λ rows.
                All (IsLater seen) (fingerprints rows)
                × (distinct eq_text (fingerprints rows) ≡ true))
              (sym (read_rows-invalid h columns n seen fields lines e))
              (read_rows-fingerprints columns (n + 1) seen lines (
                rest_encodable h (import_row n (read_cells h columns fields) none)
                  (read_rows h columns (n + 1) seen lines)
                  (ap (all (is_encodable h))
                      (sym (read_rows-invalid h columns n seen fields lines e))
                    ∙ fine)))
        | inr (canonical, e) ↦
            let m = occurrences canonical seen + 1 in
            let here =
              import_row n (read_cells h columns fields) (some (fingerprint_of h canonical m)) in
            let more = read_rows h columns (n + 1) (set_occurrences canonical m seen) lines in
            let fine =
              ap (all (is_encodable h))
                (sym (read_rows-valid h columns n seen fields lines canonical e))
              ∙ fine in
            let whole =
              valid_encodable h n (read_cells h columns fields) canonical
                (some (fingerprint_of h canonical m)) e (first_encodable h here more fine) in
            let (later, others) =
              read_rows-fingerprints columns (n + 1) (set_occurrences canonical m seen) lines
                (rest_encodable h here more fine) in
            subst
              (λ rows.
                All (IsLater seen) (fingerprints rows)
                × (distinct eq_text (fingerprints rows) ≡ true))
              (sym (read_rows-valid h columns n seen fields lines canonical e))
              (
                ((canonical, m, refl, whole, omega arith), earlier seen canonical _ later),
                rw (apart seen canonical m _ whole later) others,
              )
      ]

  -- No two rows of one statement have the same fingerprint, however alike their lines are, where
  -- SHA-256 has no collision and no text that is hashed holds a surrogate without its partner, which
  -- UTF-8 cannot tell from another one.
  pub parse_transaction_import-fingerprints :
      (csv : Text) (rows : List ImportRow)
      → parse_transaction_import h csv ≡ ok rows
      → all (is_encodable h) rows ≡ true
      → distinct eq_text (fingerprints rows) ≡ true
  parse_transaction_import-fingerprints csv rows e fine =
      let (records, r) = parse_transaction_import-records h csv rows e in
      let (columns, lines, least, most, same) = read_records-lines h records rows r in
      subst (λ rs. distinct eq_text (fingerprints rs) ≡ true) (sym same)
        (read_rows-fingerprints columns 2 [] lines (ap (all (is_encodable h)) (sym same) ∙ fine)).1
