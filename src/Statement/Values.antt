-- ===== src/Statement/Values.antt =====
-- The values of a cell: `parseDate`, `parseDirection` and `parseAmountKobo`, with `toIsoDate` and
-- `amountPresent` of the adapters.
use stead.Prelude.{
  ℕ, ◌+◌, ◌*◌, ◌%◌, ◌==◌, leb, ltb, Bool, false, not, ◌&&◌, ◌||◌, Option, none, some, List, [], ◌∷◌,
  ◌++◌, any, all, length, if◌then◌else◌,
}
use stead.Transactions.{Direction, «in», out}
use stead.Statement.Text.{
  Text, codes, is_digit, is_empty, trim, trim_start, eq_text, split, without, number_of,
}

-- `/^\d{n}$/` for a part of a text
abbrev pub has_digits : ℕ → Text → Bool
has_digits n s = length s == n && all is_digit s

-- `\d{1,2}`
abbrev pub one_or_two : Text → Bool
one_or_two s = has_digits 1 s || has_digits 2 s

abbrev pub is_leap : ℕ → Bool
is_leap y = (y % 4 == 0 && not (y % 100 == 0)) || y % 400 == 0

abbrev pub days_in_month : ℕ → ℕ → ℕ
days_in_month y m =
    if m == 2
    then (if is_leap y then 29 else 28)
    else if m == 4 || m == 6 || m == 9 || m == 11
    then 30
    else 31

-- The dates that `Date` gives back as they were written.
abbrev pub is_calendar_date : ℕ → ℕ → ℕ → Bool
is_calendar_date y m d = leb 1 m && leb m 12 && leb 1 d && leb d (days_in_month y m)

unfoldable pub iso_parts : List Text → Option (ℕ × (ℕ × ℕ))
iso_parts (y ∷ m ∷ d ∷ []) =
    if has_digits 4 y && has_digits 2 m && has_digits 2 d
    then some (number_of y, (number_of m, number_of d))
    else none
iso_parts _ = none

-- `/^\d{4}-\d{2}-\d{2}$/`, with the year, the month and the day
unfoldable pub iso_date : Text → Option (ℕ × (ℕ × ℕ))
unfolding iso_parts
iso_date s = iso_parts (split b'-' s)

-- The instant of a date is its noon in UTC, as `toISOString` writes it.
unfoldable pub parse_date : Text → Option Text
parse_date value =
    let normalized = trim value in
    elim (iso_date normalized) [
      | none ↦ none
      | some (y, (m, d)) ↦
          if is_calendar_date y m d then some (normalized ++ codes "T12:00:00.000Z") else none
    ]

-- `part.padStart(2, '0')` for a part of one or two units
pad_two : Text → Text
pad_two (c ∷ []) = b'0' ∷ c ∷ []
pad_two s = s

day_first : List Text → Option Text
day_first (d ∷ m ∷ y ∷ []) =
    if one_or_two d && one_or_two m && has_digits 4 y
    then some (y ++ (b'-' ∷ (pad_two m ++ (b'-' ∷ pad_two d))))
    else none
day_first _ = none

unfoldable pub to_iso_date : Text → Text
unfolding day_first pad_two
to_iso_date value =
    let trimmed = trim value in
    elim (iso_date trimmed) [
      | some date ↦ trimmed
      | none ↦ elim (day_first (split b'/' trimmed)) [
        | some iso ↦ iso
        | none ↦ elim (day_first (split b'-' trimmed)) [ some iso ↦ iso | none ↦ trimmed ]
      ]
    ]

abbrev pub among : Text → List Text → Bool
among s words = any (λ w. eq_text w s) words

-- The lower case of the language is an argument.
unfoldable pub parse_direction : (Text → Text) → Text → Option Direction
parse_direction lower value =
    let normalized = lower (trim value) in
    if among normalized (codes "income" ∷ codes "in" ∷ codes "credit" ∷ [])
    then some «in»
    else if among normalized (codes "expense" ∷ codes "out" ∷ codes "debit" ∷ [])
    then some out
    else none

abbrev is_letter : ℕ → ℕ → ℕ → Bool
is_letter upper lower c = c == upper || c == lower

-- `value.replace(/^(?:NGN|₦)\s*/i, '')`
pub strip_currency : Text → Text
strip_currency [] = []
strip_currency (a ∷ []) = if a == 8358 then [] else a ∷ []
strip_currency (a ∷ b ∷ []) = if a == 8358 then trim_start (b ∷ []) else a ∷ b ∷ []
strip_currency (a ∷ b ∷ c ∷ rest) =
    if a == 8358
    then trim_start (b ∷ c ∷ rest)
    else if is_letter b'N' b'n' a && is_letter b'G' b'g' b && is_letter b'N' b'n' c
    then trim_start rest
    else a ∷ b ∷ c ∷ rest

unfoldable pub amount_present : Text → Bool
unfolding strip_currency
amount_present value = not (is_empty (strip_currency (trim value)))

-- `\d+` or `\d{1,3}(?:,\d{3})+`
grouped_digits : List Text → Bool
grouped_digits [] = false
grouped_digits (whole ∷ []) = not (is_empty whole) && all is_digit whole
grouped_digits (first ∷ second ∷ groups) =
    (has_digits 1 first || has_digits 2 first || has_digits 3 first)
    && has_digits 3 second
    && all (has_digits 3) groups

unfoldable pub is_whole_part : Text → Bool
unfolding grouped_digits
is_whole_part s = grouped_digits (split b',' s)

-- Number.MAX_SAFE_INTEGER
abbrev pub max_safe_integer : ℕ
max_safe_integer = 9_007_199_254_740_991

-- `fraction.padEnd(2, '0')` for a fraction of two units at most
abbrev pub pad_end_two : Text → Text
pad_end_two [] = b'0' ∷ b'0' ∷ []
pad_end_two (c ∷ []) = c ∷ b'0' ∷ []
pad_end_two (c ∷ d ∷ s) = c ∷ d ∷ s

abbrev pub kobo_of : Text → Text → Option ℕ
kobo_of whole fraction =
    let kobo = number_of (without b',' whole) * 100 + number_of (pad_end_two fraction) in
    if leb kobo 0 || ltb max_safe_integer kobo then none else some kobo

unfoldable pub amount_parts : List Text → Option ℕ
amount_parts (whole ∷ []) = if is_whole_part whole then kobo_of whole [] else none
amount_parts (whole ∷ fraction ∷ []) =
    if is_whole_part whole && one_or_two fraction then kobo_of whole fraction else none
amount_parts _ = none

unfoldable pub parse_amount_kobo : Text → Option ℕ
unfolding amount_parts strip_currency
parse_amount_kobo value = amount_parts (split b'.' (strip_currency (trim value)))
