-- ===== src/Statement/Parser.antt =====
-- `parseTransactionImport`: the rows of a statement, each with its value or its errors.
use stead.Prelude.{
  ℕ, ◌+◌, ◌==◌, ltb, Bool, false, not, ◌&&◌, ◌||◌, Option, none, some, is_none, List, [], ◌∷◌, ◌++◌,
  any, length, if◌then◌else◌, Result, ok, err, bad_request, ◌>>=◌, ◌>>◌, require, guard,
}
use stead.Transactions.{Direction, «in», out}
use stead.Statement.Text.{
  Text, codes, trim, is_empty, eq_text, index_of, join, collapse_spaces, show,
}
use stead.Statement.Encoding.{as_utf8}
use stead.Statement.Csv.{parse_csv_records}
use stead.Statement.Values.{parse_date, parse_direction, parse_amount_kobo}
use stead.Statement.Adapters.{normalize_headers, cell_at, to_canonical_import_csv}

-- What the parser takes from its host: `toLowerCase`, `toLocaleLowerCase('en-NG')`, and SHA-256.
pub record Host : Type 0 where
  pub to_lower_case : Text → Text
  pub to_locale_lower_case : Text → Text
  pub sha256 : Text → Text

pub data RowError : Type 0 where
  bad_date bad_type bad_amount no_description long_description : RowError

pub record ImportRow : Type 0 where
  pub row_number : ℕ
  pub occurred_at : Option Text
  pub direction : Option Direction
  pub amount_kobo : Option ℕ
  pub note : Text
  pub fingerprint : Option Text
  pub errors : List RowError

abbrev pub max_rows : ℕ
max_rows = 500

abbrev pub max_note : ℕ
max_note = 280

-- The values of a line before its fingerprint.
pub record Cells : Type 0 where
  pub date : Option Text
  pub direction : Option Direction
  pub amount : Option ℕ
  pub note : Text

pub record Columns : Type 0 where
  pub date : ℕ
  pub description : ℕ
  pub amount : ℕ
  pub type : ℕ

unfoldable pub read_cells : Host → Columns → List Text → Cells
read_cells h columns fields = record {
  date = parse_date (cell_at fields (some columns.date));
  direction = parse_direction h.to_lower_case (cell_at fields (some columns.type));
  amount = parse_amount_kobo (cell_at fields (some columns.amount));
  note = collapse_spaces false (trim (cell_at fields (some columns.description)));
}

abbrev when : Bool → RowError → List RowError
when b e = if b then e ∷ [] else []

abbrev pub errors_of : Cells → List RowError
errors_of c =
    when (is_none c.date) bad_date
    ++ (when (is_none c.direction) bad_type
        ++ (when (is_none c.amount) bad_amount
            ++ (when (is_empty c.note) no_description
                ++ when (ltb max_note (length c.note)) long_description)))

abbrev pub direction_text : Direction → Text
direction_text «in» = codes "in"
direction_text out = codes "out"

-- The text of a valid line that its fingerprint is made of, without the occurrence.
abbrev pub canonical_of : Host → Text → Direction → ℕ → Text → Text
canonical_of h date direction amount note =
    join b'|' (date ∷ direction_text direction ∷ show amount ∷ h.to_locale_lower_case note ∷ [])

-- `none` for a line with an error.
unfoldable pub canonical_cells : Host → Cells → Option Text
canonical_cells h c = elim (errors_of c) [
  | e ∷ es ↦ none
  | [] ↦ elim c.date [
    | none ↦ none
    | some date ↦ elim c.direction [
      | none ↦ none
      | some direction ↦ elim c.amount [
        | none ↦ none
        | some amount ↦ some (canonical_of h date direction amount c.note)
      ]
    ]
  ]
]

-- The map of the occurrences so far.
abbrev pub occurrences : Text → List (Text × ℕ) → ℕ
occurrences key [] = 0
occurrences key ((k, n) ∷ rest) = if eq_text k key then n else occurrences key rest

abbrev pub set_occurrences : Text → ℕ → List (Text × ℕ) → List (Text × ℕ)
set_occurrences key n [] = (key, n) ∷ []
set_occurrences key n ((k, m) ∷ rest) =
    if eq_text k key then (k, n) ∷ rest else (k, m) ∷ set_occurrences key n rest

abbrev pub fingerprint_text : Text → ℕ → Text
fingerprint_text canonical occurrence = canonical ++ (b'|' ∷ show occurrence)

-- The hash is that of the UTF-8 form.
abbrev pub fingerprint_of : Host → Text → ℕ → Text
fingerprint_of h canonical occurrence = h.sha256 (as_utf8 (fingerprint_text canonical occurrence))

abbrev pub import_row : ℕ → Cells → Option Text → ImportRow
import_row number c fingerprint = record {
  row_number = number;
  occurred_at = c.date;
  direction = c.direction;
  amount_kobo = c.amount;
  note = c.note;
  fingerprint = fingerprint;
  errors = errors_of c;
}

module _ (h : Host) where
  -- The rows from the line number `number`, with the occurrences before it.
  unfoldable pub read_rows : Columns → ℕ → List (Text × ℕ) → List (List Text) → List ImportRow
  read_rows columns number seen [] = []
  read_rows columns number seen (fields ∷ lines) =
      let c = read_cells h columns fields in
      elim (canonical_cells h c) [
        | none ↦ import_row number c none ∷ read_rows columns (number + 1) seen lines
        | some canonical ↦
            let occurrence = occurrences canonical seen + 1 in
            import_row number c (some (fingerprint_of h canonical occurrence))
            ∷ read_rows columns (number + 1) (set_occurrences canonical occurrence seen) lines
      ]

  unfoldable pub columns_of : List Text → Option Columns
  columns_of headers = elim (index_of (codes "date") headers) [
    | none ↦ none
    | some date ↦ elim (index_of (codes "description") headers) [
      | none ↦ none
      | some description ↦ elim (index_of (codes "amount") headers) [
        | none ↦ none
        | some amount ↦ elim (index_of (codes "type") headers) [
          | none ↦ none
          | some type ↦
              some (record { date = date; description = description; amount = amount; type = type })
        ]
      ]
    ]
  ]

  -- A name that is not empty stands once.
  abbrev pub repeats : List Text → Bool
  repeats [] = false
  repeats (name ∷ names) = (not (is_empty name) && any (λ n. eq_text n name) names) || repeats names

  unfoldable pub read_records : List (List Text) → Result (List ImportRow)
  unfolding columns_of
  read_records [] = err bad_request
  read_records (header ∷ lines) = do
    let headers = normalize_headers h.to_lower_case header
    guard (not (repeats headers)) bad_request
    columns ← require (columns_of headers) bad_request
    guard (not (length lines == 0)) bad_request
    guard (not (ltb max_rows (length lines))) bad_request
    ok (read_rows columns 2 [] lines)

  unfoldable pub parse_transaction_import : Text → Result (List ImportRow)
  parse_transaction_import csv = do
    canonical ← to_canonical_import_csv h.to_lower_case csv
    records ← parse_csv_records canonical
    read_records records
