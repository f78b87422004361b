-- ===== src/Statement/Tests.antt =====
-- Runs of the statement parser, and its theorems at concrete statements.
use Prim.Native.String.{String}
use stead.Prelude.{
  ℕ, zero, suc, ◌≤◌, ◌+◌, ◌*◌, ◌≡◌, refl, ap, leb, true, ◌&&◌, none, some, List, [], ◌∷◌, ◌++◌, all,
  map, length, if◌then◌else◌, ok, err, arith,
}
use stead.Store.{Table, distinct}
use stead.Store.Memory.{memory}
use stead.Goals.{Goal}
use stead.Goals
use stead.Transactions.{
  Transaction, transaction_clash, ImportPreview, ImportResult, preview_import, confirm_import,
  create_many, ensure_goal_belongs_to_user, is_duplicate,
}
use stead.Statement.Text.{
  Text, codes, eq_text, trim, split, show, number_from, digits, join, collapse_spaces, trim_start,
  trim_end,
}
use stead.Statement.Csv.{parse_csv_records, to_csv, run, step, csv_escape, double_quotes}
use stead.Statement.Values.{
  parse_date, parse_amount_kobo, amount_parts, iso_date, to_iso_date, parse_direction,
  is_whole_part, amount_present,
}
use stead.Statement.Adapters.{
  canonical_headers, is_canonical, is_debit_credit, to_canonical_csv, to_canonical_import_csv,
}
use stead.Statement.Encoding.{encode}
use stead.Statement.Parser.{
  Host, ImportRow, read_cells, read_records, read_rows, columns_of, canonical_cells, max_rows,
  parse_transaction_import,
}
use stead.Statement.RoundTrip.{parse_csv_records-to_csv}
use stead.Statement.Layouts.{
  parse_transaction_import-canonical, parse_transaction_import-debit_credit,
}
use stead.Statement.Rows.{is_checked, parse_transaction_import-is_checked}
use stead.Statement.Fingerprints.{fingerprints, parse_transaction_import-fingerprints}
use stead.Statement.Preview.{import_request, preview_import-parsed}
use stead.Statement.FirstImport.{confirm_import-first}

-- A host: the lower case of ASCII, and texts as their own hashes.
abbrev lower : Text → Text
lower [] = []
lower (c ∷ s) = (if leb 65 c && leb c 90 then c + 32 else c) ∷ lower s

abbrev host : Host
host = record { to_lower_case = lower; to_locale_lower_case = lower; sha256 = λ s. s }

abbrev lines : List String → Text
lines [] = []
lines (s ∷ []) = codes s
lines (s ∷ t ∷ ss) = codes s ++ (10 ∷ lines (t ∷ ss))

-- Two lines that are alike, and one whose amount is not read.
abbrev statement : Text
statement = lines (
    "Date,Description,Amount,Type" ∷ "2024-01-05,Airtime,500.50,debit"
    ∷ "2024-01-05,Airtime,500.50,debit" ∷ "2024-02-30,\"Rent, May\",1,debit" ∷ [])

abbrev bank : Text
bank = lines (
    "Value Date,Narration,Debit,Credit" ∷ "5/1/2024,Airtime,\"NGN 1,500\"," ∷ ""
    ∷ "6/1/2024,Both,1,2" ∷ [])

abbrev rows_of : Text → List ImportRow
rows_of csv = elim (parse_transaction_import host csv) [ ok rows ↦ rows | err e ↦ [] ]

reads_three : map (λ r. r.amount_kobo) (rows_of statement) ≡ some 50050 ∷ some 50050 ∷ some 100 ∷ []
unfolding parse_transaction_import to_canonical_import_csv parse_csv_records run step
    to_canonical_csv is_canonical is_debit_credit trim trim_start trim_end to_csv csv_escape
    double_quotes join read_records columns_of read_rows read_cells parse_date iso_date split
    parse_direction parse_amount_kobo amount_parts is_whole_part number_from collapse_spaces
    canonical_cells show digits encode
reads_three = refl

abbrev records : List (List Text)
records = (codes "a,\"b\"" ∷ [] ∷ []) ∷ ([] ∷ codes "  " ∷ []) ∷ (codes "c" ∷ []) ∷ []

parse_csv_records-to_csv_example :
    parse_csv_records (to_csv records) ≡ ok ((codes "a,\"b\"" ∷ [] ∷ []) ∷ (codes "c" ∷ []) ∷ [])
unfolding trim trim_start trim_end
parse_csv_records-to_csv_example = parse_csv_records-to_csv records

abbrev records_of : Text → List (List Text)
records_of csv = elim (parse_csv_records csv) [ ok records ↦ records | err e ↦ [] ]

abbrev header : List Text
header = codes "Date" ∷ codes "Description" ∷ codes "Amount" ∷ codes "Type" ∷ []

abbrev body : List (List Text)
body =
    (codes "2024-01-05" ∷ codes "Airtime" ∷ codes "500.50" ∷ codes "debit" ∷ [])
    ∷ (codes "2024-01-05" ∷ codes "Airtime" ∷ codes "500.50" ∷ codes "debit" ∷ [])
    ∷ (codes "2024-02-30" ∷ codes "Rent, May" ∷ codes "1" ∷ codes "debit" ∷ [])
    ∷ []

parse_transaction_import-canonical_example :
    parse_transaction_import host statement ≡ read_records host (header ∷ body)
unfolding parse_csv_records run step is_canonical trim trim_start trim_end
parse_transaction_import-canonical_example =
    parse_transaction_import-canonical host statement header body refl refl

abbrev bank_header : List Text
bank_header = codes "Value Date" ∷ codes "Narration" ∷ codes "Debit" ∷ codes "Credit" ∷ []

abbrev bank_body : List (List Text)
bank_body =
    (codes "5/1/2024" ∷ codes "Airtime" ∷ codes "NGN 1,500" ∷ [] ∷ [])
    ∷ (codes "6/1/2024" ∷ codes "Both" ∷ codes "1" ∷ codes "2" ∷ [])
    ∷ []

parse_transaction_import-debit_credit_example :
    parse_transaction_import host bank
    ≡ read_records host (
        canonical_headers
        ∷ (codes "2024-01-05" ∷ codes "Airtime" ∷ codes "NGN 1,500" ∷ codes "debit" ∷ [])
        ∷ (codes "2024-01-06" ∷ codes "Both" ∷ [] ∷ [] ∷ [])
        ∷ [])
unfolding parse_csv_records run step is_canonical is_debit_credit trim trim_start trim_end
    to_iso_date iso_date split amount_present
parse_transaction_import-debit_credit_example =
    parse_transaction_import-debit_credit host bank bank_header bank_body refl refl

parse_transaction_import-is_checked_example :
    (1 ≤ 3)
    × (3 ≤ max_rows)
    × (all is_checked (rows_of statement) ≡ true)
    × (map (λ r. r.row_number) (rows_of statement) ≡ 2 ∷ 3 ∷ 4 ∷ [])
unfolding parse_transaction_import to_canonical_import_csv parse_csv_records run step
    to_canonical_csv is_canonical is_debit_credit trim trim_start trim_end to_csv csv_escape
    double_quotes join read_records columns_of read_rows read_cells parse_date iso_date split
    parse_direction parse_amount_kobo amount_parts is_whole_part number_from collapse_spaces
    canonical_cells show digits encode
parse_transaction_import-is_checked_example =
    parse_transaction_import-is_checked host statement (rows_of statement) refl

parse_transaction_import-fingerprints_example :
    distinct eq_text (fingerprints (rows_of statement)) ≡ true
unfolding parse_transaction_import to_canonical_import_csv parse_csv_records run step
    to_canonical_csv is_canonical is_debit_credit trim trim_start trim_end to_csv csv_escape
    double_quotes join read_records columns_of read_rows read_cells parse_date iso_date split
    parse_direction parse_amount_kobo amount_parts is_whole_part number_from collapse_spaces
    canonical_cells show digits encode
parse_transaction_import-fingerprints_example =
    parse_transaction_import-fingerprints host (λ s t e. e) statement (rows_of statement) refl refl

abbrev goals : Table Goal Goals.clash
goals = memory Goals.clash

abbrev table : Table Transaction transaction_clash
table = memory transaction_clash

-- A number for each text.
abbrev pair : ℕ → ℕ → ℕ
pair zero k = 2 * k + 1
pair (suc c) k = 2 * pair c k

abbrev key : Text → ℕ
key [] = 0
key (c ∷ s) = pair c (key s)

pair_pos : (c k : ℕ) → 1 ≤ pair c k
pair_pos zero k = omega arith
pair_pos (suc c) k = omega (arith, pair_pos c k)

pair_inj : (c d k m : ℕ) → pair c k ≡ pair d m → (c ≡ d) × (k ≡ m)
pair_inj zero zero k m e = (refl, omega (arith, e))
pair_inj zero (suc d) k m e = absurd (omega (arith, e))
pair_inj (suc c) zero k m e = absurd (omega (arith, e))
pair_inj (suc c) (suc d) k m e = let (a, b) = pair_inj c d k m (omega (arith, e)) in (ap suc a, b)

key_inj : (s t : Text) → key s ≡ key t → s ≡ t
key_inj [] [] e = refl
key_inj [] (d ∷ t) e = absurd (omega (arith, e, pair_pos d (key t)))
key_inj (c ∷ s) [] e = absurd (omega (arith, e, pair_pos c (key s)))
key_inj (c ∷ s) (d ∷ t) e = let (a, b) = pair_inj c d (key s) (key t) e in cc (a, key_inj s t b)

abbrev preview : ImportPreview
preview = record { ready = 2; duplicates = 0; invalid = 1 }

preview_import-parsed_example : 2 + 0 + 1 ≡ length (rows_of statement)
unfolding parse_transaction_import to_canonical_import_csv parse_csv_records run step
    to_canonical_csv is_canonical is_debit_credit trim trim_start trim_end to_csv csv_escape
    double_quotes join read_records columns_of read_rows read_cells parse_date iso_date split
    parse_direction parse_amount_kobo amount_parts is_whole_part number_from collapse_spaces
    canonical_cells show digits encode preview_import is_duplicate ensure_goal_belongs_to_user
    memory
preview_import-parsed_example =
    preview_import-parsed host key goals table 7 none statement [] [] [] (rows_of statement) preview
      refl refl

abbrev outcome : ImportResult × List Transaction
outcome =
    elim (confirm_import goals table 7 (import_request host key none statement (2 ∷ 3 ∷ []))
      (λ n. n) 9 [] []) [ ok o ↦ o | err e ↦ (record { imported = 0; duplicates = 9 }, []) ]

confirm_import-first_example : (outcome.0.imported ≡ 2) × (outcome.0.duplicates ≡ 0)
unfolding parse_transaction_import to_canonical_import_csv parse_csv_records run step
    to_canonical_csv is_canonical is_debit_credit trim trim_start trim_end to_csv csv_escape
    double_quotes join read_records columns_of read_rows read_cells parse_date iso_date split
    parse_direction parse_amount_kobo amount_parts is_whole_part number_from collapse_spaces
    canonical_cells show digits encode confirm_import create_many ensure_goal_belongs_to_user memory
confirm_import-first_example =
    confirm_import-first host key key_inj (λ s t e. e) goals table 7 9 (λ n. n) none statement
      (2 ∷ 3 ∷ []) [] [] outcome.1 (rows_of statement) outcome.0 refl refl refl refl
