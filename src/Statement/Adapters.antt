-- ===== src/Statement/Adapters.antt =====
-- The layouts of transaction-import.adapters.ts, and the canonical form that they are brought to.
use stead.Prelude.{
  ℕ, ◌==◌, Bool, not, ◌&&◌, Option, none, some, is_some, List, [], ◌∷◌, all, map, if◌then◌else◌,
  Result, ok, err, bad_request, ◌>>=◌, require,
}
use stead.Statement.Text.{Text, codes, trim, index_of, cell, join}
use stead.Statement.Csv.{comma, newline, csv_escape, to_csv, parse_csv_records}
use stead.Statement.Values.{to_iso_date, amount_present}

abbrev pub canonical_headers : List Text
canonical_headers = codes "date" ∷ codes "description" ∷ codes "amount" ∷ codes "type" ∷ []

abbrev pub date_aliases : List Text
date_aliases =
    codes "date" ∷ codes "transaction date" ∷ codes "value date" ∷ codes "posting date" ∷ []

abbrev pub description_aliases : List Text
description_aliases =
    codes "description" ∷ codes "narration" ∷ codes "particulars" ∷ codes "details" ∷ []

pub data Adapter : Type 0 where
  stead_canonical provisional_debit_credit : Adapter

-- The mark that a file may start with.
abbrev strip_mark : Text → Text
strip_mark [] = []
strip_mark (c ∷ s) = if c == 65279 then s else c ∷ s

abbrev pub normalize_rest : (Text → Text) → List Text → List Text
normalize_rest lower [] = []
normalize_rest lower (h ∷ hs) = lower (trim h) ∷ normalize_rest lower hs

-- `normalizeHeader` at every index.
abbrev pub normalize_headers : (Text → Text) → List Text → List Text
normalize_headers lower [] = []
normalize_headers lower (h ∷ hs) = lower (trim (strip_mark h)) ∷ normalize_rest lower hs

-- The first alias that is a header; a header that is there twice counts at its first place.
abbrev pub find_header_index : List Text → List Text → Option ℕ
find_header_index headers [] = none
find_header_index headers (alias ∷ aliases) = elim (index_of alias headers) [
  | some i ↦ some i
  | none ↦ find_header_index headers aliases
]

unfoldable pub is_canonical : List Text → Bool
is_canonical headers = all (λ h. is_some (index_of h headers)) canonical_headers

unfoldable pub is_debit_credit : List Text → Bool
is_debit_credit headers =
    not (is_canonical headers)
    && is_some (find_header_index headers date_aliases)
    && is_some (find_header_index headers description_aliases)
    && is_some (index_of (codes "debit") headers)
    && is_some (index_of (codes "credit") headers)

-- The first adapter that matches.
abbrev pub adapter_for : List Text → Option Adapter
adapter_for headers =
    if is_canonical headers
    then some stead_canonical
    else if is_debit_credit headers
    then some provisional_debit_credit
    else none

-- `record[index] ?? ''`, where -1 is no index.
abbrev pub cell_at : List Text → Option ℕ → Text
cell_at fields none = []
cell_at fields (some i) = cell fields i

-- The amount and the type that a line with two amount columns stands for.
abbrev pub amount_and_type : Text → Text → Text × Text
amount_and_type credit debit =
    if amount_present credit
    then (if amount_present debit then ([], []) else (trim credit, codes "credit"))
    else (if amount_present debit then (trim debit, codes "debit") else ([], []))

abbrev pub converted : List Text → List Text → List Text
converted headers fields =
    let credit = cell_at fields (index_of (codes "credit") headers) in
    let debit = cell_at fields (index_of (codes "debit") headers) in
    let (amount, type) = amount_and_type credit debit in
    to_iso_date (cell_at fields (find_header_index headers date_aliases))
    ∷ cell_at fields (find_header_index headers description_aliases)
    ∷ amount
    ∷ type
    ∷ []

abbrev pub converted_line : List Text → List Text → Text
converted_line headers fields = join comma (map csv_escape (converted headers fields))

-- `toCanonicalCsv` of the adapter, for a header line and the lines after it.
unfoldable pub to_canonical_csv : (Text → Text) → Adapter → List Text → List (List Text) → Text
to_canonical_csv lower stead_canonical header lines = to_csv (header ∷ lines)
to_canonical_csv lower provisional_debit_credit header lines = join newline (
    codes "date,description,amount,type"
    ∷ map (converted_line (normalize_headers lower header)) lines)

to_canonical : (Text → Text) → List (List Text) → Result Text
to_canonical lower [] = err bad_request
to_canonical lower (header ∷ lines) = do
  adapter ← require (adapter_for (normalize_headers lower header)) bad_request
  ok (to_canonical_csv lower adapter header lines)

unfoldable pub to_canonical_import_csv : (Text → Text) → Text → Result Text
unfolding to_canonical
to_canonical_import_csv lower csv = do records ← parse_csv_records csv; to_canonical lower records
