-- ===== src/Goals/Rows.antt =====
-- Facts about lists of goals: what the updates of goals.service.ts do to the rows.
use stead.Prelude.{
  ℕ, ◌≤◌, ◌==◌, ◌≡◌, ◌≢◌, refl, Bool, true, false, not, ◌&&◌, none, some, List, [], ◌∷◌, arith, any,
  count, find, modify, All, if◌then◌else◌, Bool-cases, inl, inr,
}
use stead.Store.{distinct}
use stead.Goals.{Goal, UpdateGoal, clash, active_of, owns, replace_goal, updated_goal, activates}

-- Replacing the active goals of a user makes room in the index for another one; only its identifier
-- can be in use.
pub replaced_room :
    (g : Goal) (now : ℕ) (rows : List Goal)
    → any (clash g) (modify (active_of g.user_id) (replace_goal now) rows)
      ≡ any (λ r. g.id == r.id) rows
replaced_room g now [] = refl
replaced_room g now (r ∷ rows) = ground (arith, replaced_room g now rows)

pub replaced_none :
    (u now : ℕ) (rows : List Goal)
    → count (active_of u) (modify (active_of u) (replace_goal now) rows) ≡ 0
replaced_none u now [] = refl
replaced_none u now (r ∷ rows) = ground (arith, replaced_none u now rows)

pub replaced_le :
    (u v now : ℕ) (rows : List Goal)
    → count (active_of v) (modify (active_of u) (replace_goal now) rows) ≤ count (active_of v) rows
replaced_le u v now [] = omega arith
replaced_le u v now (r ∷ rows) = ground (arith, replaced_le u v now rows)

pub modify_keyed :
    (p : Goal → Bool) (f : Goal → Goal) (same : (g : Goal) → (f g).id ≡ g.id) (i : ℕ)
    (rows : List Goal)
    → count (λ g. g.id == i) (modify p f rows) ≡ count (λ g. g.id == i) rows
modify_keyed p f same i [] = refl
modify_keyed p f same i (r ∷ rows) = ground (arith, same r, modify_keyed p f same i rows)

-- Where identifiers are unique, the row that is found is the only one with its identifier.
pub absent_key :
    (i : ℕ) (rows : List Goal)
    → count (λ g. g.id == i) rows ≡ 0
    → All (λ g. (g.id == i) ≡ false) rows
absent_key i [] h = tt
absent_key i (r ∷ rows) h = (ground arith, absent_key i rows (ground arith))

-- What an update by identifier may take for granted of the rows that it touches.
abbrev pub IsTarget : ℕ → ℕ → Goal → Goal → Type 0
IsTarget u i x g = (g.id == i) ≡ true → (g.user_id ≡ u) × (g.is_active ≡ x.is_active)

absent-IsTarget :
    (u i : ℕ) (x : Goal) (rows : List Goal)
    → All (λ g. (g.id == i) ≡ false) rows
    → All (IsTarget u i x) rows
absent-IsTarget u i x [] h = tt
absent-IsTarget u i x (r ∷ rows) (e, h) = ((λ t. ground arith), absent-IsTarget u i x rows h)

absent_find :
    (u i : ℕ) (rows : List Goal) → All (λ g. (g.id == i) ≡ false) rows → find (owns u i) rows ≡ none
absent_find u i [] h = refl
absent_find u i (r ∷ rows) (e, h) = ground (arith, absent_find u i rows h)

pub found-IsTarget :
    (u i : ℕ) (rows : List Goal) (x : Goal)
    → count (λ g. g.id == i) rows ≤ 1
    → find (owns u i) rows ≡ some x
    → All (IsTarget u i x) rows
found-IsTarget u i [] x h e = tt
found-IsTarget u i (r ∷ rows) x h e = elim (Bool-cases (r.id == i)) [
  | inl same ↦
      let absent = absent_key i rows (ground arith) in
      (
        (λ t. (
          ground (arith, absent_find u i rows absent),
          ground (arith, absent_find u i rows absent),
        )),
        absent-IsTarget u i x rows absent,
      )
  | inr other ↦ ((λ t. absurd (cc)), found-IsTarget u i rows x (ground arith) (ground arith))
]

-- The rows after `update`, with the flag `was` of the goal before it.
abbrev pub updated_rows : ℕ → ℕ → UpdateGoal → Bool → ℕ → List Goal → List Goal
updated_rows u i dto was now rows =
    modify (λ g. g.id == i) (updated_goal dto was now)
      (if activates dto
        then modify (λ g. active_of u g && not (g.id == i)) (replace_goal now) rows
        else rows)

-- Turning a goal on leaves no other active goal of its user, and no more of anybody else's.
pub activated_own :
    (u i : ℕ) (dto : UpdateGoal) (was : Bool) (now : ℕ) (rows : List Goal)
    → count (active_of u) (
        modify
          (λ g. g.id == i)
          (updated_goal dto was now)
          (modify (λ g. active_of u g && not (g.id == i)) (replace_goal now) rows))
      ≤ count (λ g. g.id == i) rows
activated_own u i dto was now [] = omega arith
activated_own u i dto was now (r ∷ rows) = ground (arith, activated_own u i dto was now rows)

pub activated_other :
    (u v i : ℕ) (x : Goal) (dto : UpdateGoal) (was : Bool) (now : ℕ) (rows : List Goal)
    → All (IsTarget u i x) rows
    → u ≢ v
    → count (active_of v) (
        modify
          (λ g. g.id == i)
          (updated_goal dto was now)
          (modify (λ g. active_of u g && not (g.id == i)) (replace_goal now) rows))
      ≤ count (active_of v) rows
activated_other u v i x dto was now [] t h = omega arith
activated_other u v i x dto was now (r ∷ rows) (t, ts) h =
    ground (arith, t, activated_other u v i x dto was now rows ts h)

pub edited_le :
    (v i : ℕ) (dto : UpdateGoal) (was : Bool) (now : ℕ) (rows : List Goal)
    → activates dto ≡ false
    → count (active_of v) (modify (λ g. g.id == i) (updated_goal dto was now) rows)
      ≤ count (active_of v) rows
edited_le v i dto was now [] h = omega arith
edited_le v i dto was now (r ∷ rows) h = ground (arith, edited_le v i dto was now rows h)

no_clash :
    (r : Goal) (rows : List Goal)
    → count (λ g. g.id == r.id) rows ≡ 0
    → (r.is_active ≡ true → count (active_of r.user_id) rows ≡ 0)
    → any (clash r) rows ≡ false
no_clash r [] k h = refl
no_clash r (s ∷ rows) k h = elim (Bool-cases r.is_active) [
  | inl on ↦ ground (arith, h on, no_clash r rows (ground arith) (λ t. ground (arith, h on)))
  | inr off ↦ ground (arith, no_clash r rows (ground arith) (λ t. absurd (cc)))
]

-- The indexes forbid nothing but two rows of one identifier and two active goals of one user.
pub one_active-distinct :
    (rows : List Goal)
    → ((i : ℕ) → count (λ g. g.id == i) rows ≤ 1)
    → ((u : ℕ) → count (active_of u) rows ≤ 1)
    → distinct clash rows ≡ true
one_active-distinct [] k h = refl
one_active-distinct (r ∷ rows) k h = ground (
  arith,
  no_clash r rows (ground (arith, k r.id)) (λ t. ground (arith, h r.user_id)),
  one_active-distinct rows (λ i. ground (arith, k i)) (λ u. ground (arith, h u)),
)

pub found_by_key :
    (u i : ℕ) (rows : List Goal) (x : Goal)
    → count (λ g. g.id == i) rows ≤ 1
    → find (owns u i) rows ≡ some x
    → find (λ g. g.id == i) rows ≡ some x
found_by_key u i [] x h e = e
found_by_key u i (r ∷ rows) x h e = elim (Bool-cases (r.id == i)) [
  | inl same ↦
      let absent = absent_key i rows (ground arith) in ground (arith, absent_find u i rows absent)
  | inr other ↦ ground (arith, found_by_key u i rows x)
]
