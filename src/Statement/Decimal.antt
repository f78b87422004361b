-- ===== src/Statement/Decimal.antt =====
-- Numbers written in decimal are read back.
use stead.Prelude.{ℕ, zero, suc, ◌+◌, ◌*◌, ◌-◌, ◌/◌, ◌%◌, ◌<◌, ◌≡◌, refl, true, [], ◌∷◌, all, arith}
use stead.Statement.Text.{Text, is_digit, number_from, number_of, digits, show}

last_digit : (n : ℕ) → n / 10 * 10 + (b'0' + n % 10 - b'0') ≡ n
last_digit n = omega arith

rest_digit : (n : ℕ) → is_digit (b'0' + n % 10) ≡ true
rest_digit n = ground arith

read_digits :
    (fuel n : ℕ) (out : Text) → n < fuel → number_from 0 (digits fuel n out) ≡ number_from n out
unfolding digits number_from
read_digits zero n out h = absurd (omega (arith, h))
read_digits (suc fuel) n out h =
    ground (arith, read_digits fuel (n / 10) ((b'0' + n % 10) ∷ out), last_digit n)

digits-is_digit :
    (fuel n : ℕ) (out : Text) → all is_digit out ≡ true → all is_digit (digits fuel n out) ≡ true
unfolding digits
digits-is_digit zero n out h = h
digits-is_digit (suc fuel) n out h =
    ground (arith, digits-is_digit fuel (n / 10) ((b'0' + n % 10) ∷ out), rest_digit n)

pub number_of-show : (n : ℕ) → number_of (show n) ≡ n
unfolding show number_from
number_of-show n = read_digits (n + 1) n [] (omega arith)

pub show-is_digit : (n : ℕ) → all is_digit (show n) ≡ true
unfolding show
show-is_digit n = digits-is_digit (n + 1) n [] refl
