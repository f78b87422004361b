-- ===== src/Statement/Csv.antt =====
-- `parseCsvRecords` and `csvEscape`.
use stead.Prelude.{
  ℕ, ◌==◌, Bool, true, false, not, ◌&&◌, ◌||◌, Option, none, some, some_eq, List, [], ◌∷◌, ◌++◌,
  any, filter, map, if◌then◌else◌, Result, ok, err, bad_request, ◌>>=◌,
}
use stead.Statement.Text.{Text, is_space, is_empty, trim, join}

abbrev pub quote : ℕ
quote = b'"'

abbrev pub comma : ℕ
comma = b','

abbrev pub newline : ℕ
newline = 10

abbrev pub return : ℕ
return = 13

-- The variables of the loop; `skip` stands for `index += 1`, which passes over the next unit.
pub record Scanner : Type 0 where
  pub records : List (List Text)
  pub fields : List Text
  pub field : Text
  pub quoted : Bool
  pub closed_quote : Bool
  pub skip : Bool

abbrev pub initial : Scanner
initial = record {
  records = [];
  fields = [];
  field = [];
  quoted = false;
  closed_quote = false;
  skip = false;
}

abbrev pub push : ℕ → Scanner → Scanner
push c s = record s { field = s.field ++ (c ∷ []) }

abbrev pub end_field : Scanner → Scanner
end_field s = record s { fields = s.fields ++ (s.field ∷ []); field = []; closed_quote = false }

-- A line ends at a return, a newline, or both.
abbrev pub end_record : ℕ → Option ℕ → Scanner → Scanner
end_record c next s = record s {
  records = s.records ++ ((s.fields ++ (s.field ∷ [])) ∷ []);
  fields = [];
  field = [];
  closed_quote = false;
  skip = c == return && some_eq next newline;
}

abbrev pub ends_line : ℕ → Bool
ends_line c = c == newline || c == return

step_quoted : Scanner → ℕ → Option ℕ → Scanner
step_quoted s c next =
    if c == quote
    then (if some_eq next quote
        then record (push quote s) { skip = true }
        else record s { quoted = false; closed_quote = true })
    else push c s

step_closed : Scanner → ℕ → Option ℕ → Result Scanner
step_closed s c next =
    if c == comma
    then ok (end_field s)
    else if ends_line c
    then ok (end_record c next s)
    else if is_space c
    then ok s
    else err bad_request

step_plain : Scanner → ℕ → Option ℕ → Result Scanner
step_plain s c next =
    if c == quote
    then (if is_empty s.field then ok (record s { quoted = true }) else err bad_request)
    else if c == comma
    then ok (end_field s)
    else if ends_line c
    then ok (end_record c next s)
    else ok (push c s)

-- One round of the loop, at the unit `c` with `next` after it.
unfoldable pub step : Scanner → ℕ → Option ℕ → Result Scanner
unfolding step_quoted step_closed step_plain
step s c next =
    if s.skip
    then ok (record s { skip = false })
    else if s.quoted
    then ok (step_quoted s c next)
    else if s.closed_quote
    then step_closed s c next
    else step_plain s c next

abbrev pub first : Text → Option ℕ
first [] = none
first (c ∷ rest) = some c

abbrev pub no_fields : List Text → Bool
no_fields [] = true
no_fields (f ∷ fs) = false

abbrev pub finish : Scanner → Result (List (List Text))
finish s =
    if s.quoted
    then err bad_request
    else if not (is_empty s.field) || not (no_fields s.fields)
    then ok (s.records ++ ((s.fields ++ (s.field ∷ [])) ∷ []))
    else ok s.records

unfoldable pub run : Scanner → Text → Result (List (List Text))
run s [] = finish s
run s (c ∷ rest) = do s ← step s c (first rest); run s rest

abbrev pub is_blank : List Text → Bool
is_blank fields = not (any (λ f. not (is_empty (trim f))) fields)

unfoldable pub parse_csv_records : Text → Result (List (List Text))
parse_csv_records csv = do records ← run initial csv; ok (filter (λ r. not (is_blank r)) records)

abbrev pub is_special : ℕ → Bool
is_special c = c == quote || c == comma || c == return || c == newline

-- `value.replace(/"/g, '""')`
unfoldable pub double_quotes : Text → Text
double_quotes [] = []
double_quotes (c ∷ s) =
    let rest = double_quotes s in if c == quote then quote ∷ quote ∷ rest else c ∷ rest

unfoldable pub csv_escape : Text → Text
csv_escape value =
    if any is_special value then (quote ∷ double_quotes value) ++ (quote ∷ []) else value

-- `records.map((record) => record.map(csvEscape).join(',')).join('\n')`
unfoldable pub to_csv : List (List Text) → Text
to_csv records = join newline (map (λ r. join comma (map csv_escape r)) records)
