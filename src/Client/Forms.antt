-- ===== src/Client/Forms.antt =====
-- transactions.ts and goal-form.ts: what is typed, what is sent, and what is shown for editing.
use stead.Prelude.{
  ℕ, ◌+◌, ◌*◌, ◌/◌, ◌%◌, ◌==◌, leb, ltb, not, ◌&&◌, ◌||◌, Option, none, some, is_none, List, [],
  ◌∷◌, ◌++◌, all, take, if◌then◌else◌,
}
use stead.Statement.Text.{Text, codes, is_digit, is_empty, trim, split, without, number_of, show}
use stead.Statement.Values.{one_or_two, pad_end_two, max_safe_integer, iso_date, is_calendar_date}

-- `padStart(2, '0')`
abbrev pub pad_start_two : Text → Text
pad_start_two [] = b'0' ∷ b'0' ∷ []
pad_start_two (c ∷ []) = b'0' ∷ c ∷ []
pad_start_two (c ∷ d ∷ s) = c ∷ d ∷ s

-- `koboToNairaInput` for an amount that is not negative.
unfoldable pub kobo_to_naira_input : ℕ → Text
kobo_to_naira_input amount =
    if amount % 100 == 0
    then show (amount / 100)
    else show (amount / 100) ++ (b'.' ∷ pad_start_two (show (amount % 100)))

-- The amount in kobo of a text without commas, where the expression `/^\d+(?:\.\d{1,2})?$/` matches.
abbrev pub amount_of_parts : List Text → Option ℕ
amount_of_parts (whole ∷ []) =
    if not (is_empty whole) && all is_digit whole
    then some (number_of whole * 100 + number_of (pad_end_two []))
    else none
amount_of_parts (whole ∷ fraction ∷ []) =
    if not (is_empty whole) && all is_digit whole && one_or_two fraction
    then some (number_of whole * 100 + number_of (pad_end_two fraction))
    else none
amount_of_parts _ = none

-- `value.trim().replace(/,/g, '')`
unfoldable pub normalized : Text → Text
normalized value = without b',' (trim value)

abbrev pub positive_amount : ℕ → Option ℕ
positive_amount amount = if leb amount 0 || ltb max_safe_integer amount then none else some amount

abbrev pub then_amount : Option ℕ → (ℕ → Option ℕ) → Option ℕ
then_amount none f = none
then_amount (some k) f = f k

unfoldable pub naira_input_to_kobo : Text → Option ℕ
naira_input_to_kobo value =
    then_amount (amount_of_parts (split b'.' (normalized value))) positive_amount

-- `null` is `none`, `undefined` is `some none`.
unfoldable pub optional_naira_input_to_kobo : Text → Option (Option ℕ)
optional_naira_input_to_kobo value =
    if is_empty (normalized value)
    then some none
    else elim (amount_of_parts (split b'.' (normalized value))) [
      | none ↦ none
      | some amount ↦ if ltb max_safe_integer amount then none else some (some amount)
    ]

unfoldable pub date_input_to_iso : Text → Option Text
date_input_to_iso value = elim (iso_date value) [
  | none ↦ none
  | some (y, (m, d)) ↦
      if is_calendar_date y m d then some (value ++ codes "T12:00:00.000Z") else none
]

abbrev pub iso_to_date_input : Text → Text
iso_to_date_input occurred_at = take 10 occurred_at

pub record GoalFormFields : Type 0 where
  pub name : Text
  pub amount_naira : Text
  pub due_on : Text
  pub monthly_income_naira : Text

-- The values of a goal in a request and in an answer; an absent income is `none`.
pub record GoalValues : Type 0 where
  pub name : Text
  pub amount_total_kobo : ℕ
  pub due_date : Text
  pub monthly_income_kobo : Option ℕ

-- Which message the form shows; none is the empty text.
pub data FormError : Type 0 where
  name_missing bad_amount bad_due_date bad_income : FormError

unfoldable pub goal_form_validation_error : GoalFormFields → Option FormError
goal_form_validation_error fields =
    if is_empty (trim fields.name)
    then some name_missing
    else if is_none (naira_input_to_kobo fields.amount_naira)
    then some bad_amount
    else if is_none (date_input_to_iso fields.due_on)
    then some bad_due_date
    else if is_none (optional_naira_input_to_kobo fields.monthly_income_naira)
    then some bad_income
    else none

abbrev pub values_of : Text → Option ℕ → Option Text → Option (Option ℕ) → Option GoalValues
values_of name (some amount) (some due) (some income) = some (record {
  name = name;
  amount_total_kobo = amount;
  due_date = due;
  monthly_income_kobo = income;
})
values_of name _ _ _ = none

unfoldable pub build_goal_fields : GoalFormFields → Option GoalValues
build_goal_fields fields = elim (goal_form_validation_error fields) [
  | some e ↦ none
  | none ↦
      values_of (trim fields.name) (naira_input_to_kobo fields.amount_naira)
        (date_input_to_iso fields.due_on) (optional_naira_input_to_kobo fields.monthly_income_naira)
]

-- Both payloads hold the same values; they write an absent income as an absent field and as null.
abbrev pub build_create_goal_payload : GoalFormFields → Option GoalValues
build_create_goal_payload fields = build_goal_fields fields

abbrev pub build_update_goal_payload : GoalFormFields → Option GoalValues
build_update_goal_payload fields = build_goal_fields fields

abbrev pub income_text : Option ℕ → Text
income_text none = []
income_text (some kobo) = kobo_to_naira_input kobo

unfoldable pub goal_to_form_fields : GoalValues → GoalFormFields
goal_to_form_fields goal = record {
  name = goal.name;
  amount_naira = kobo_to_naira_input goal.amount_total_kobo;
  due_on = iso_to_date_input goal.due_date;
  monthly_income_naira = income_text goal.monthly_income_kobo;
}
