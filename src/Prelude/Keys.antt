-- ===== src/Prelude/Keys.antt =====
-- Distinct keys in their order of appearance, least values, and the stable sort of `Array.sort`.
use Prim.Native.Nat.{ℕ, suc, ◌+◌, ◌≤◌, min}
use mathlib.Core.Path.{◌≡◌, refl, sym, ap, ◌∙◌}
use mathlib.Core.Logic.{inl, inr}
use mathlib.Core.Bool.{Bool, true, false, not, ◌&&◌}
use mathlib.Core.List.{List, [], ◌∷◌, ◌++◌}
use native.Mathlib.Omega.{arith}
use stead.Prelude.Tests.{◌==◌, leb, if◌then◌else◌, Bool-cases}
use stead.Prelude.Lists.{filter, filter_comm, any, count, length}

abbrev pub dedup : List ℕ → List ℕ
dedup [] = []
dedup (k ∷ ks) = k ∷ filter (λ j. not (j == k)) (dedup ks)

abbrev pub least : List ℕ → ℕ
least [] = 0
least (n ∷ []) = n
least (n ∷ m ∷ ns) = min n (least (m ∷ ns))

abbrev pub insert_by {ℓ} : {A : Type ℓ} → (A → ℕ) → A → List A → List A
insert_by key x [] = x ∷ []
insert_by key x (y ∷ ys) = if leb (key x) (key y) then x ∷ y ∷ ys else y ∷ insert_by key x ys

abbrev pub sort_by {ℓ} : {A : Type ℓ} → (A → ℕ) → List A → List A
sort_by key [] = []
sort_by key (x ∷ xs) = insert_by key x (sort_by key xs)

-- `includes`
abbrev pub member : ℕ → List ℕ → Bool
member k ks = any (λ j. j == k) ks

count-insert_by {ℓ} :
    {A : Type ℓ} (key : A → ℕ) (p : A → Bool) (x : A) (ys : List A)
    → count p (insert_by key x ys) ≡ count p (x ∷ ys)
count-insert_by key p x [] = refl
count-insert_by key p x (y ∷ ys) = ground (arith, count-insert_by key p x ys)

pub count-sort_by {ℓ} :
    {A : Type ℓ} (key : A → ℕ) (p : A → Bool) (xs : List A) → count p (sort_by key xs) ≡ count p xs
count-sort_by key p [] = refl
count-sort_by key p (x ∷ xs) =
    ground (arith, count-insert_by key p x (sort_by key xs), count-sort_by key p xs)

dropped_twice :
    (k : ℕ) (q : ℕ → Bool) (ks : List ℕ)
    → q k ≡ false
    → filter (λ j. not (j == k)) (filter q ks) ≡ filter q ks
dropped_twice k q [] h = refl
dropped_twice k q (j ∷ ks) h = elim (Bool-cases (j == k)) [
  | inl same ↦
      let e : j ≡ k = ground arith in
      let off : q j ≡ false = ap q e ∙ h in ground (arith, dropped_twice k q ks h)
  | inr other ↦ ground (arith, dropped_twice k q ks h)
]

-- Dropping rows by their key drops the key.
pub dedup-filter : (q : ℕ → Bool) (ks : List ℕ) → dedup (filter q ks) ≡ filter q (dedup ks)
dedup-filter q [] = refl
dedup-filter q (k ∷ ks) = elim (Bool-cases (q k)) [
  | inl kept ↦ rw kept (
      ap (λ rest. k ∷ filter (λ j. not (j == k)) rest) (dedup-filter q ks)
      ∙ ap (λ rest. k ∷ rest) (filter_comm (λ j. not (j == k)) q (dedup ks)))
  | inr gone ↦ rw gone (dedup-filter q ks ∙ (filter_comm_back q k (dedup ks) gone))
]
  where
    filter_comm_back :
        (q : ℕ → Bool) (k : ℕ) (ks : List ℕ)
        → q k ≡ false
        → filter q ks ≡ filter q (filter (λ j. not (j == k)) ks)
    filter_comm_back q k ks h = sym (dropped_twice k q ks h) ∙ filter_comm (λ j. not (j == k)) q ks

pub count-filter_and {ℓ} :
    {A : Type ℓ} (p q : A → Bool) (xs : List A) → count p (filter q xs) ≡ count (λ x. q x && p x) xs
count-filter_and p q [] = refl
count-filter_and p q (x ∷ xs) = ground (arith, count-filter_and p q xs)

dedup-snoc_count :
    (p : ℕ → Bool) (ks : List ℕ) (k : ℕ) → count p (dedup (ks ++ k ∷ [])) ≤ count p (dedup ks) + 1
dedup-snoc_count p [] k = ground arith
dedup-snoc_count p (j ∷ ks) k = ground (
  arith,
  count-filter_and p (λ i. not (i == j)) (dedup (ks ++ k ∷ [])),
  count-filter_and p (λ i. not (i == j)) (dedup ks),
  dedup-snoc_count (λ i. not (i == j) && p i) ks k,
)

count-true {ℓ} : {A : Type ℓ} (xs : List A) → count (λ (x : A). true) xs ≡ length xs
count-true [] = refl
count-true (x ∷ xs) = ap suc (count-true xs)

-- One more key adds one distinct key at most.
pub length-dedup-snoc :
    (ks : List ℕ) (k : ℕ) → length (dedup (ks ++ k ∷ [])) ≤ length (dedup ks) + 1
length-dedup-snoc ks k = omega (
  arith,
  dedup-snoc_count (λ i. true) ks k,
  count-true (dedup (ks ++ k ∷ [])),
  count-true (dedup ks),
)

member-filter :
    (k j : ℕ) (ks : List ℕ)
    → (k == j) ≡ false
    → member k (filter (λ i. not (i == j)) ks) ≡ member k ks
member-filter k j [] h = refl
member-filter k j (i ∷ ks) h = ground (arith, member-filter k j ks h)

pub member-dedup : (k : ℕ) (ks : List ℕ) → member k (dedup ks) ≡ member k ks
member-dedup k [] = refl
member-dedup k (j ∷ ks) = elim (Bool-cases (k == j)) [
  | inl same ↦ ground arith
  | inr other ↦ ground (arith, member-filter k j (dedup ks) other, member-dedup k ks)
]
