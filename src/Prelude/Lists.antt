-- ===== src/Prelude/Lists.antt =====
-- Lists measured by native numbers and searched by Boolean tests, under the library's names.
use Prim.Native.Nat.{ℕ, zero, suc, ◌+◌, ◌-◌, ◌≤◌}
use mathlib.Core.Path.{◌≡◌, refl, sym, ap, subst, ◌∙◌}
use mathlib.Core.Logic.{inl, inr}
use mathlib.Core.Bool.{Bool, true, false, not, ◌&&◌, ◌||◌}
use mathlib.Core.List.{Memᴰ, List, [], ◌∷◌, ◌++◌}
use mathlib.Core.Option.{Option, none, some}
use native.Mathlib.Omega.{arith}
use stead.Prelude.Tests.{if◌then◌else◌, Bool-cases}

module _ {ℓ} {A : Type ℓ} where
  abbrev pub length : List A → ℕ
  length [] = 0
  length (x ∷ xs) = suc (length xs)

  abbrev pub filter : (A → Bool) → List A → List A
  filter p [] = []
  filter p (x ∷ xs) = if p x then x ∷ filter p xs else filter p xs

  abbrev pub find : (A → Bool) → List A → Option A
  find p [] = none
  find p (x ∷ xs) = if p x then some x else find p xs

  abbrev pub any : (A → Bool) → List A → Bool
  any p [] = false
  any p (x ∷ xs) = p x || any p xs

  abbrev pub all : (A → Bool) → List A → Bool
  all p [] = true
  all p (x ∷ xs) = p x && all p xs

  abbrev pub count : (A → Bool) → List A → ℕ
  count p [] = 0
  count p (x ∷ xs) = if p x then suc (count p xs) else count p xs

  -- The rows that satisfy the test are changed, the others stay.
  abbrev pub modify : (A → Bool) → (A → A) → List A → List A
  modify p f [] = []
  modify p f (x ∷ xs) = (if p x then f x else x) ∷ modify p f xs

  abbrev pub All {κ} : (A → Type κ) → List A → Type κ
  All P [] = Unit
  All P (x ∷ xs) = P x × All P xs

  pub length-append : (xs ys : List A) → length (xs ++ ys) ≡ length xs + length ys
  length-append [] ys = omega arith
  length-append (x ∷ xs) ys = omega (arith, length-append xs ys)

  pub count-append : (p : A → Bool) (xs ys : List A) → count p (xs ++ ys) ≡ count p xs + count p ys
  count-append p [] ys = omega arith
  count-append p (x ∷ xs) ys = ground (arith, count-append p xs ys)

  pub count-le-length : (p : A → Bool) (xs : List A) → count p xs ≤ length xs
  count-le-length p [] = omega arith
  count-le-length p (x ∷ xs) = ground (arith, count-le-length p xs)

module _ {ℓ} {A : Type ℓ} (p : A → Bool) where
  pub find_holds : (xs : List A) (x : A) → find p xs ≡ some x → p x ≡ true
  find_holds [] x e = absurd (cc)
  find_holds (y ∷ xs) x e = ground (arith, find_holds xs x)

  pub All_of_find {κ} : (P : A → Type κ) (xs : List A) (x : A) → All P xs → find p xs ≡ some x → P x
  All_of_find P [] x h e = absurd (cc)
  All_of_find P (y ∷ xs) x (h, hs) e = elim (Bool-cases (p y)) [
    | inl found ↦ let same : y ≡ x = ground arith in subst P same h
    | inr later ↦ All_of_find P xs x hs (ground arith)
  ]

  pub count_pos_of_find :
      (q : A → Bool) (xs : List A) (x : A) → find p xs ≡ some x → q x ≡ true → 1 ≤ count q xs
  count_pos_of_find q [] x e h = absurd (cc)
  count_pos_of_find q (y ∷ xs) x e h = elim (Bool-cases (p y)) [
    | inl found ↦
        let same : y ≡ x = ground arith in let hit : q y ≡ true = ap q same ∙ h in ground arith
    | inr later ↦
        let more : find p xs ≡ some x = ground arith in
        ground (arith, count_pos_of_find q xs x more h)
  ]

  pub count_mono :
      (q : A → Bool) → ((x : A) → q x ≡ true → p x ≡ true) → (xs : List A) → count q xs ≤ count p xs
  count_mono q h [] = omega arith
  count_mono q h (x ∷ xs) = ground (arith, h x, count_mono q h xs)

  -- The row that is found is found again after its own update.
  pub find-modify_hit :
      (q : A → Bool) (f : A → A)
      → ((x : A) → p (f x) ≡ p x)
      → (xs : List A) (x : A) → find p xs ≡ some x
      → q x ≡ true
      → find p (modify q f xs) ≡ some (f x)
  find-modify_hit q f same [] x e h = absurd (cc)
  find-modify_hit q f same (y ∷ xs) x e h = elim (Bool-cases (p y)) [
    | inl found ↦
        let here : y ≡ x = ground arith in
        let hit : q y ≡ true = ap q here ∙ h in ground (arith, same y)
    | inr later ↦
        let more : find p xs ≡ some x = ground arith in
        ground (arith, same y, find-modify_hit q f same xs x more h)
  ]

  -- An update of other rows is not seen.
  pub find-modify_miss :
      (q : A → Bool) (f : A → A)
      → ((x : A) → p (f x) ≡ p x)
      → ((x : A) → p x ≡ true → q x ≡ false)
      → (xs : List A) → find p (modify q f xs) ≡ find p xs
  find-modify_miss q f same apart [] = refl
  find-modify_miss q f same apart (x ∷ xs) =
      ground (arith, same x, apart x, find-modify_miss q f same apart xs)

module _ {ℓ κ} {A : Type ℓ} (P : A → Type κ) where
  pub All_of_mem : (xs : List A) (x : A) → All P xs → Memᴰ x xs → P x
  All_of_mem [] x h m = elim m [ ]
  All_of_mem (y ∷ xs) x (h, hs) (Memᴰ.head e) = subst P (sym e) h
  All_of_mem (y ∷ xs) x (h, hs) (Memᴰ.tail m) = All_of_mem xs x hs m

  pub All-append : (xs ys : List A) → All P xs → All P ys → All P (xs ++ ys)
  All-append [] ys h k = k
  All-append (x ∷ xs) ys (h, hs) k = (h, All-append xs ys hs k)

  pub All-append_right : (xs ys : List A) → All P (xs ++ ys) → All P ys
  All-append_right [] ys h = h
  All-append_right (x ∷ xs) ys (h, hs) = All-append_right xs ys hs

module _ {ℓ} {A : Type ℓ} where
  abbrev pub take : ℕ → List A → List A
  take zero xs = []
  take (suc n) [] = []
  take (suc n) (x ∷ xs) = x ∷ take n xs

  abbrev pub drop : ℕ → List A → List A
  drop zero xs = xs
  drop (suc n) [] = []
  drop (suc n) (x ∷ xs) = drop n xs

  pub take-append-drop : (n : ℕ) (xs : List A) → take n xs ++ drop n xs ≡ xs
  take-append-drop zero xs = refl
  take-append-drop (suc n) [] = refl
  take-append-drop (suc n) (x ∷ xs) = rw (take-append-drop n xs)

  pub length-drop : (n : ℕ) (xs : List A) → length (drop n xs) ≡ length xs - n
  length-drop zero xs = omega arith
  length-drop (suc n) [] = omega arith
  length-drop (suc n) (x ∷ xs) = omega (arith, length-drop n xs)

  -- Filters commute, and one that follows from another changes nothing after it.
  pub filter_comm : (p q : A → Bool) (xs : List A) → filter p (filter q xs) ≡ filter q (filter p xs)
  filter_comm p q [] = refl
  filter_comm p q (x ∷ xs) = ground (arith, filter_comm p q xs)

  pub filter-All : (p : A → Bool) (xs : List A) → All (λ x. p x ≡ true) xs → filter p xs ≡ xs
  filter-All p [] h = refl
  filter-All p (x ∷ xs) (h, hs) = ground (arith, filter-All p xs hs)

  pub count-filter : (p : A → Bool) (xs : List A) → length (filter p xs) ≡ count p xs
  count-filter p [] = refl
  count-filter p (x ∷ xs) = ground (arith, count-filter p xs)

module _ {ℓ} {A : Type ℓ} where
  pub find-append_left :
      (p : A → Bool) (xs ys : List A) (x : A) → find p xs ≡ some x → find p (xs ++ ys) ≡ some x
  find-append_left p [] ys x e = absurd (cc)
  find-append_left p (y ∷ xs) ys x e = ground (arith, find-append_left p xs ys x)

  pub find-append_right :
      (p : A → Bool) (xs ys : List A) → find p xs ≡ none → find p (xs ++ ys) ≡ find p ys
  find-append_right p [] ys e = refl
  find-append_right p (x ∷ xs) ys e = ground (arith, find-append_right p xs ys)

  pub count-split :
      (p q : A → Bool) (xs : List A)
      → count p xs ≡ count (λ x. p x && q x) xs + count (λ x. p x && not (q x)) xs
  count-split p q [] = omega arith
  count-split p q (x ∷ xs) = ground (arith, count-split p q xs)

  -- Where one row at most has a key, and a test that implies the key holds once, it holds of the
  -- row that is found with the key.
  pub only_hit :
      (p key q : A → Bool)
      → ((x : A) → q x ≡ true → key x ≡ true)
      → (xs : List A) (x : A) → find p xs ≡ some x
      → key x ≡ true
      → count key xs ≤ 1
      → count q xs ≡ 1
      → q x ≡ true
  only_hit p key q h [] x e k one hit = absurd (cc)
  only_hit p key q h (y ∷ xs) x e k one hit = elim (Bool-cases (p y)) [
    | inl found ↦
        let same : y ≡ x = ground arith in
        let ky : key y ≡ true = ap key same ∙ k in
        let qy : q y ≡ true = ground (arith, count_mono key q h xs) in sym (ap q same) ∙ qy
    | inr later ↦
        let more : find p xs ≡ some x = ground arith in
        let there = count_pos_of_find p key xs x more k in
        let ky : key y ≡ false = ground (arith, there) in
        let qy : q y ≡ false = ground (arith, h y) in
        only_hit p key q h xs x more k (ground arith) (ground arith)
  ]

module _ {ℓ} {A : Type ℓ} where
  pub modify_none : (q : A → Bool) (f : A → A) (xs : List A) → count q xs ≡ 0 → modify q f xs ≡ xs
  modify_none q f [] h = refl
  modify_none q f (x ∷ xs) h = ground (arith, modify_none q f xs)

module _ {ℓ κ} {A : Type ℓ} (P : A → Type κ) where
  pub All-modify :
      (q : A → Bool) (f : A → A)
      → ((x : A) → P x → P (f x))
      → (xs : List A) → All P xs
      → All P (modify q f xs)
  All-modify q f h [] a = tt
  All-modify q f h (x ∷ xs) (p, ps) = elim (Bool-cases (q x)) [
    | inl hit ↦ rw hit (h x p, All-modify q f h xs ps)
    | inr miss ↦ rw miss (p, All-modify q f h xs ps)
  ]
