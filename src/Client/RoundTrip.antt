-- ===== src/Client/RoundTrip.antt =====
-- Amounts and dates that the client shows are read back.
use stead.Prelude.{
  ℕ, zero, suc, ◌+◌, ◌/◌, ◌%◌, ◌≤◌, ◌<◌, ◌==◌, ◌≡◌, refl, ap, ◌∙◌, Bool, true, false, ◌&&◌, ◌||◌,
  none, some, [], ◌∷◌, ◌++◌, all, arith, Bool-cases, inl, inr, ==_iff,
}
use stead.Statement.Text.{
  Text, is_digit, is_empty, trim, trim_start, trim_end, split, without, number_of, number_from,
  digits, show,
}
use stead.Statement.Decimal.{number_of-show, show-is_digit}
use stead.Statement.Values.{one_or_two, pad_end_two, max_safe_integer}
use stead.Client.Forms.{
  pad_start_two, kobo_to_naira_input, amount_of_parts, normalized, naira_input_to_kobo,
  optional_naira_input_to_kobo,
}

-- A text of digits and points.
abbrev plain : Text → Bool
plain s = all (λ c. is_digit c || c == b'.') s

trim_end-plain : (s : Text) → plain s ≡ true → trim_end s ≡ s
unfolding trim_end
trim_end-plain [] h = refl
trim_end-plain (c ∷ s) h = ground (arith, trim_end-plain s)

trim_start-plain : (s : Text) → plain s ≡ true → trim_start s ≡ s
unfolding trim_start
trim_start-plain [] h = refl
trim_start-plain (c ∷ s) h = ground arith

without-plain : (s : Text) → plain s ≡ true → without b',' s ≡ s
without-plain [] h = refl
without-plain (c ∷ s) h = ground (arith, without-plain s)

normalized-plain : (s : Text) → plain s ≡ true → normalized s ≡ s
unfolding normalized trim
normalized-plain s h =
    ap (λ t. without b',' (trim_end t)) (trim_start-plain s h)
    ∙ ap (without b',') (trim_end-plain s h)
    ∙ without-plain s h

digits-plain : (s : Text) → all is_digit s ≡ true → plain s ≡ true
digits-plain [] h = refl
digits-plain (c ∷ s) h = ground (arith, digits-plain s)

append-plain :
    (s t : Text) → all is_digit s ≡ true → all is_digit t ≡ true → plain (s ++ (b'.' ∷ t)) ≡ true
append-plain [] t h k = ground (arith, digits-plain t k)
append-plain (c ∷ s) t h k = ground (arith, append-plain s t)

split-digits : (s : Text) → all is_digit s ≡ true → split b'.' s ≡ s ∷ []
unfolding split
split-digits [] h = refl
split-digits (c ∷ s) h = ground (arith, split-digits s)

split-point :
    (s t : Text)
    → all is_digit s ≡ true
    → all is_digit t ≡ true
    → split b'.' (s ++ (b'.' ∷ t)) ≡ s ∷ t ∷ []
unfolding split
split-point [] t h k = ground (arith, split-digits t k)
split-point (c ∷ s) t h k = ground (arith, split-point s t)

-- What the fractions below 100 are written as.
abbrev good_fraction : ℕ → Bool
good_fraction f =
    let s = pad_start_two (show f) in
    all is_digit s && one_or_two s && number_of (pad_end_two s) == f

abbrev all_below : ℕ → (ℕ → Bool) → Bool
all_below zero p = true
all_below (suc n) p = p n && all_below n p

below : (p : ℕ → Bool) (n k : ℕ) → all_below n p ≡ true → k < n → p k ≡ true
below p zero k h less = absurd (omega (arith, less))
below p (suc n) k h less = elim (Bool-cases (k == n)) [
  | inl same ↦ ap p ((==_iff k n).0 same) ∙ ground arith
  | inr other ↦ below p n k (ground arith) (ground arith)
]

fractions : all_below 100 good_fraction ≡ true
unfolding show digits number_from
fractions = refl

digits-kept :
    (fuel n : ℕ) (out : Text) → is_empty out ≡ false → is_empty (digits fuel n out) ≡ false
unfolding digits
digits-kept zero n out h = h
digits-kept (suc fuel) n out h =
    ground (arith, digits-kept fuel (n / 10) ((b'0' + n % 10) ∷ out) refl)

digits-filled : (fuel n : ℕ) → is_empty (digits (suc fuel) n []) ≡ false
unfolding digits
digits-filled fuel n = ground (arith, digits-kept fuel (n / 10) ((b'0' + n % 10) ∷ []) refl)

show-filled : (n : ℕ) → is_empty (show n) ≡ false
unfolding show digits
show-filled n = ap (λ fuel. is_empty (digits fuel n [])) (succ n) ∙ digits-filled n n
  where
    succ : (n : ℕ) → n + 1 ≡ suc n
    succ n = omega arith

zero_fraction : number_of (pad_end_two []) ≡ 0
unfolding number_from
zero_fraction = refl

empty_none : (s : Text) → is_empty s ≡ true → amount_of_parts (split b'.' s) ≡ none
unfolding split
empty_none [] h = refl
empty_none (c ∷ s) h = absurd (cc)

-- What is shown for an amount is read as that amount, without regard to the bounds.
read-shown : (k : ℕ) → amount_of_parts (split b'.' (normalized (kobo_to_naira_input k))) ≡ some k
unfolding kobo_to_naira_input
read-shown k =
    let whole = show (k / 100) in
    let fraction = pad_start_two (show (k % 100)) in
    let good = below good_fraction 100 (k % 100) fractions (omega arith) in
    let w = show-is_digit (k / 100) in
    let back = number_of-show (k / 100) in
    let filled = show-filled (k / 100) in
    elim (Bool-cases (k % 100 == 0)) [
      | inl even ↦ rw even (
          ap (λ t. amount_of_parts (split b'.' t)) (normalized-plain whole (digits-plain whole w))
          ∙ ap amount_of_parts (split-digits whole w)
          ∙ ground (arith, w, back, filled, even, zero_fraction))
      | inr odd ↦
          let f : all is_digit fraction ≡ true = ground (arith, good) in
          rw odd (
            ap (λ t. amount_of_parts (split b'.' t))
              (normalized-plain (whole ++ (b'.' ∷ fraction)) (append-plain whole fraction w f))
            ∙ ap amount_of_parts (split-point whole fraction w f)
            ∙ ground (arith, w, back, filled, good))
    ]

-- Every amount that the client can hold is shown for editing as a text that it reads as that amount.
pub naira_input_to_kobo-shown :
    (k : ℕ) → 1 ≤ k → k ≤ max_safe_integer → naira_input_to_kobo (kobo_to_naira_input k) ≡ some k
unfolding naira_input_to_kobo
naira_input_to_kobo-shown k least most = let back = read-shown k in ground (arith, back)

shown-filled : (k : ℕ) → is_empty (normalized (kobo_to_naira_input k)) ≡ false
shown-filled k =
    let read = read-shown k in
    let nothing = empty_none (normalized (kobo_to_naira_input k)) in ground (arith, read, nothing)

pub optional-shown :
    (k : ℕ)
    → k ≤ max_safe_integer
    → optional_naira_input_to_kobo (kobo_to_naira_input k) ≡ some (some k)
unfolding optional_naira_input_to_kobo
optional-shown k most =
    let back = read-shown k in let filled = shown-filled k in ground (arith, back, filled)
