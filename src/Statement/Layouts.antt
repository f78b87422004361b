-- ===== src/Statement/Layouts.antt =====
-- What the two layouts come to: reading the records themselves.
use stead.Prelude.{
  ◌≡◌, refl, ap, ◌∙◌, Bool, not, some, List, [], ◌∷◌, map, filter, ok, arith, Result-cases, inl,
  inr,
}
use stead.Statement.Text.{Text, codes, join, trim}
use stead.Statement.Csv.{
  comma, newline, csv_escape, to_csv, is_blank, run, initial, parse_csv_records,
}
use stead.Statement.Adapters.{
  Adapter, stead_canonical, provisional_debit_credit, canonical_headers, normalize_headers,
  adapter_for, converted, converted_line, to_canonical_csv, to_canonical_import_csv,
}
use stead.Statement.RoundTrip.{parse_csv_records-to_csv}
use stead.Statement.Parser.{Host, read_records, parse_transaction_import}

filter_twice : {A : Type 0} (p : A → Bool) (xs : List A) → filter p (filter p xs) ≡ filter p xs
filter_twice p [] = refl
filter_twice p (x ∷ xs) = ground (arith, filter_twice p xs)

-- Records that were read hold no blank one.
read-filter :
    (csv : Text) (records : List (List Text))
    → parse_csv_records csv ≡ ok records
    → filter (λ r. not (is_blank r)) records ≡ records
unfolding parse_csv_records
read-filter csv records e = elim (Result-cases (run initial csv)) [
  | inl (rs, r) ↦ ground (arith, filter_twice (λ r. not (is_blank r)) rs)
  | inr (x, r) ↦ ground arith
]

-- The converted lines below the canonical header line are those lines, written as CSV.
to_csv-converted :
    (headers : List Text) (lines : List (List Text))
    → join newline (codes "date,description,amount,type" ∷ map (converted_line headers) lines)
      ≡ to_csv (canonical_headers ∷ map (converted headers) lines)
unfolding to_csv join csv_escape
to_csv-converted headers lines =
    ap (λ ls. join newline (codes "date,description,amount,type" ∷ ls)) (map_twice headers lines)
  where
    map_twice :
        (headers : List Text) (lines : List (List Text))
        → map (converted_line headers) lines
          ≡ map (λ r. join comma (map csv_escape r)) (map (converted headers) lines)
    map_twice headers [] = refl
    map_twice headers (l ∷ lines) =
        ap (λ ls. converted_line headers l ∷ ls) (map_twice headers lines)

module _ (h : Host) where
  by_adapter :
      (csv : Text) (header : List Text) (lines records : List (List Text)) (a : Adapter)
      → parse_csv_records csv ≡ ok (header ∷ lines)
      → adapter_for (normalize_headers h.to_lower_case header) ≡ some a
      → parse_csv_records (to_canonical_csv h.to_lower_case a header lines) ≡ ok records
      → parse_transaction_import h csv ≡ read_records h records
  unfolding parse_transaction_import to_canonical_import_csv
  by_adapter csv header lines records a e found back = rw (e, found, back)

  -- A statement in the canonical layout is read as its records are: writing the records as CSV and
  -- reading them again, as the import does, changes nothing.
  pub parse_transaction_import-canonical :
      (csv : Text) (header : List Text) (lines : List (List Text))
      → parse_csv_records csv ≡ ok (header ∷ lines)
      → adapter_for (normalize_headers h.to_lower_case header) ≡ some stead_canonical
      → parse_transaction_import h csv ≡ read_records h (header ∷ lines)
  unfolding to_canonical_csv
  parse_transaction_import-canonical csv header lines e a =
      by_adapter csv header lines (header ∷ lines) stead_canonical e a
        (parse_csv_records-to_csv (header ∷ lines) ∙ ap ok (read-filter csv (header ∷ lines) e))

  -- A statement with debit and credit columns is read as its converted lines are, below the canonical
  -- header line; a line that is blank after the conversion is left out.
  pub parse_transaction_import-debit_credit :
      (csv : Text) (header : List Text) (lines : List (List Text))
      → parse_csv_records csv ≡ ok (header ∷ lines)
      → adapter_for (normalize_headers h.to_lower_case header) ≡ some provisional_debit_credit
      → parse_transaction_import h csv
        ≡ read_records h (
            canonical_headers
            ∷ filter
                (λ r. not (is_blank r))
                (map (converted (normalize_headers h.to_lower_case header)) lines))
  unfolding to_canonical_csv trim
  parse_transaction_import-debit_credit csv header lines e a =
      let headers = normalize_headers h.to_lower_case header in
      let records = canonical_headers ∷ map (converted headers) lines in
      by_adapter csv header lines
        (canonical_headers ∷ filter (λ r. not (is_blank r)) (map (converted headers) lines))
        provisional_debit_credit e a
        (ap parse_csv_records (to_csv-converted headers lines)
          ∙ parse_csv_records-to_csv records
          ∙ refl)
