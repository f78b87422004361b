-- ===== src/Client/Saved.antt =====
-- A goal that was made with the form is shown in the form as it was saved.
use stead.Prelude.{
  ℕ, zero, suc, ◌+◌, ◌≤◌, ◌≡◌, refl, sym, ap, ◌∙◌, false, Option, none, some, List, [], ◌∷◌, ◌++◌,
  length, take, arith, Bool-cases, Option-cases, inl, inr,
}
use stead.Statement.Text.{
  Text, codes, is_space, is_empty, trim, trim_start, trim_end, prepend, split,
}
use stead.Statement.Values.{max_safe_integer, iso_date, iso_parts}
use stead.Client.Forms.{
  amount_of_parts, normalized, naira_input_to_kobo, optional_naira_input_to_kobo, date_input_to_iso,
  iso_to_date_input, GoalFormFields, GoalValues, goal_form_validation_error, build_goal_fields,
  build_create_goal_payload, build_update_goal_payload, income_text, goal_to_form_fields,
}
use stead.Client.RoundTrip.{naira_input_to_kobo-shown, optional-shown}

trim_end_idem : (s : Text) → trim_end (trim_end s) ≡ trim_end s
unfolding trim_end
trim_end_idem [] = refl
trim_end_idem (c ∷ s) = ground (arith, trim_end_idem s)

trim_start-kept :
    (c : ℕ) (s : Text) → is_space c ≡ false → trim_start (trim_end (c ∷ s)) ≡ trim_end (c ∷ s)
unfolding trim_end trim_start
trim_start-kept c s h = ground arith

trim_start-end : (s : Text) → trim_start (trim_end (trim_start s)) ≡ trim_end (trim_start s)
unfolding trim_start trim_end
trim_start-end [] = refl
trim_start-end (c ∷ s) = elim (Bool-cases (is_space c)) [
  | inl space ↦ rw space (trim_start-end s)
  | inr solid ↦ rw solid (trim_start-kept c s solid)
]

trim_idem : (s : Text) → trim (trim s) ≡ trim s
unfolding trim
trim_idem s = ap trim_end (trim_start-end s) ∙ trim_end_idem (trim_start s)

-- The lengths of the parts, each with one more for its separator.
abbrev total : List Text → ℕ
total [] = 0
total (part ∷ parts) = suc (length part) + total parts

total-prepend :
    (c : ℕ) (parts : List Text) → 1 ≤ total parts → total (prepend c parts) ≡ suc (total parts)
unfolding prepend
total-prepend c [] h = absurd (omega (arith, h))
total-prepend c (part ∷ parts) h = omega arith

total-split : (c : ℕ) (s : Text) → total (split c s) ≡ suc (length s)
unfolding split
total-split c [] = refl
total-split c (d ∷ s) =
    let rest = total-split c s in
    let more = total-prepend d (split c s) (omega (arith, rest)) in ground (arith, rest, more)

-- A date that matches the expression has ten characters.
total-iso_parts :
    (parts : List Text) (d : ℕ × (ℕ × ℕ)) → iso_parts parts ≡ some d → total parts ≡ 11
unfolding iso_parts
total-iso_parts [] d e = absurd (ground arith)
total-iso_parts (y ∷ []) d e = absurd (ground arith)
total-iso_parts (y ∷ m ∷ []) d e = absurd (ground arith)
total-iso_parts (y ∷ m ∷ n ∷ []) d e = ground arith
total-iso_parts (y ∷ m ∷ n ∷ x ∷ parts) d e = absurd (ground arith)

length-iso_date : (s : Text) (d : ℕ × (ℕ × ℕ)) → iso_date s ≡ some d → length s ≡ 10
unfolding iso_date
length-iso_date s d e = omega (arith, total-iso_parts (split b'-' s) d e, total-split b'-' s)

take-append : (n : ℕ) (s t : Text) → length s ≡ n → take n (s ++ t) ≡ s
take-append zero [] t h = refl
take-append zero (c ∷ s) t h = absurd (omega (arith, h))
take-append (suc n) [] t h = absurd (omega (arith, h))
take-append (suc n) (c ∷ s) t h = ap (λ r. c ∷ r) (take-append n s t (omega (arith, h)))

-- The form shows a date that it sent as it was typed.
pub iso_to_date_input-sent :
    (value iso : Text) → date_input_to_iso value ≡ some iso → iso_to_date_input iso ≡ value
unfolding date_input_to_iso
iso_to_date_input-sent value iso e = elim (Option-cases (iso_date value)) [
  | inl bad ↦ absurd (ground arith)
  | inr (d, good) ↦
      let long = length-iso_date value d good in
      let same : iso ≡ value ++ codes "T12:00:00.000Z" = ground arith in
      ap iso_to_date_input same ∙ take-append 10 value (codes "T12:00:00.000Z") long
]

-- The amounts that the form sends can be shown again.
amount_in_range :
    (value : Text) (k : ℕ) → naira_input_to_kobo value ≡ some k → (1 ≤ k) × (k ≤ max_safe_integer)
unfolding naira_input_to_kobo
amount_in_range value k e = elim (Option-cases (amount_of_parts (split b'.' (normalized value)))) [
  | inl none_read ↦ absurd (ground arith)
  | inr (n, read) ↦ (ground arith, ground arith)
]

income_in_range :
    (value : Text) (k : ℕ)
    → optional_naira_input_to_kobo value ≡ some (some k)
    → k ≤ max_safe_integer
unfolding optional_naira_input_to_kobo
income_in_range value k e = elim (Option-cases (amount_of_parts (split b'.' (normalized value)))) [
  | inl none_read ↦ absurd (ground arith)
  | inr (n, read) ↦ ground arith
]

income_kept :
    (value : Text) (income : Option ℕ)
    → optional_naira_input_to_kobo value ≡ some income
    → optional_naira_input_to_kobo (income_text income) ≡ some income
unfolding optional_naira_input_to_kobo normalized trim trim_start trim_end
income_kept value none e = refl
income_kept value (some k) e = optional-shown k (income_in_range value k e)

-- What the form makes of four readable texts, and what readable texts it was made of.
built :
    (fields : GoalFormFields) (amount : ℕ) (due : Text) (income : Option ℕ)
    → is_empty (trim fields.name) ≡ false
    → naira_input_to_kobo fields.amount_naira ≡ some amount
    → date_input_to_iso fields.due_on ≡ some due
    → optional_naira_input_to_kobo fields.monthly_income_naira ≡ some income
    → build_goal_fields fields
      ≡ some (record {
        name = trim fields.name;
        amount_total_kobo = amount;
        due_date = due;
        monthly_income_kobo = income;
      })
unfolding build_goal_fields goal_form_validation_error
built fields amount due income a b c d = ground arith

read_texts :
    (fields : GoalFormFields) (goal : GoalValues)
    → build_goal_fields fields ≡ some goal
    → (is_empty (trim fields.name) ≡ false)
      × (trim fields.name ≡ goal.name)
      × (naira_input_to_kobo fields.amount_naira ≡ some goal.amount_total_kobo)
      × (date_input_to_iso fields.due_on ≡ some goal.due_date)
      × (optional_naira_input_to_kobo fields.monthly_income_naira ≡ some goal.monthly_income_kobo)
unfolding build_goal_fields goal_form_validation_error
read_texts fields goal e = (ground arith, ground arith, ground arith, ground arith, ground arith)

-- A goal that was made with the form is read from the form as it was saved: opening it for editing and
-- sending it unchanged sends the same name, amount, due date and income.
pub build_update_goal_payload-saved :
    (fields : GoalFormFields) (goal : GoalValues)
    → build_create_goal_payload fields ≡ some goal
    → build_update_goal_payload (goal_to_form_fields goal) ≡ some goal
unfolding goal_to_form_fields
build_update_goal_payload-saved fields goal e =
    let (filled, name, amount, due, income) = read_texts fields goal e in
    let (least, most) = amount_in_range fields.amount_naira goal.amount_total_kobo amount in
    let same : trim goal.name ≡ goal.name = ap trim (sym name) ∙ trim_idem fields.name ∙ name in
    let day = ap date_input_to_iso (iso_to_date_input-sent fields.due_on goal.due_date due) ∙ due in
    built (goal_to_form_fields goal) goal.amount_total_kobo goal.due_date goal.monthly_income_kobo
      (ap is_empty (same ∙ sym name) ∙ filled)
      (naira_input_to_kobo-shown goal.amount_total_kobo least most) day
      (income_kept fields.monthly_income_naira goal.monthly_income_kobo income)
    ∙ ap (λ n. some (record goal { name = n })) same
