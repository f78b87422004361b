-- ===== src/Goals/Invariant.antt =====
-- The well-formedness of the goal table, and the requests of goals.service.ts that keep it.
use stead.Prelude.{
  ℕ, ◌≤◌, ◌==◌, ◌≡◌, refl, Bool, not, ◌&&◌, some, List, [], ◌∷◌, ◌++◌, arith, count, find, modify,
  All, Bool-cases, inl, inr, count-append, is_none,
}
use stead.Goals.{
  Goal, CreateGoal, UpdateGoal, EndStatus, active_of, owns, replace_goal, new_goal, updated_goal,
  ended_goal, activates, is_active_status,
}
use stead.Goals.Rows.{
  replaced_none, replaced_le, modify_keyed, found-IsTarget, IsTarget, updated_rows, activated_own,
  activated_other, edited_le,
}

-- The flag, the status and the end date of a goal agree.
abbrev pub IsConsistent : Goal → Type 0
IsConsistent g = (is_active_status g.status ≡ g.is_active) × (is_none g.ended_at ≡ g.is_active)

pub record Inv (rows : List Goal) : Type 0 where
  pub keyed : (i : ℕ) → count (λ g. g.id == i) rows ≤ 1
  pub one_active : (u : ℕ) → count (active_of u) rows ≤ 1
  pub consistent : All IsConsistent rows

replaced-IsConsistent :
    (p : Goal → Bool) (now : ℕ) (rows : List Goal)
    → All IsConsistent rows
    → All IsConsistent (modify p (replace_goal now) rows)
replaced-IsConsistent p now [] h = tt
replaced-IsConsistent p now (r ∷ rows) (h, hs) = (ground arith, replaced-IsConsistent p now rows hs)

ended-IsConsistent :
    (p : Goal → Bool) (status : EndStatus) (now : ℕ) (rows : List Goal)
    → All IsConsistent rows
    → All IsConsistent (modify p (ended_goal status now) rows)
ended-IsConsistent p status now [] h = tt
ended-IsConsistent p status now (r ∷ rows) (h, hs) =
    (ground arith, ended-IsConsistent p status now rows hs)

All-snoc :
    (xs : List Goal) (x : Goal)
    → All IsConsistent xs
    → IsConsistent x
    → All IsConsistent (xs ++ x ∷ [])
All-snoc [] x h k = (k, tt)
All-snoc (y ∷ ys) x (h, hs) k = (h, All-snoc ys x hs k)

-- What `create` leaves in the table.
abbrev pub created_rows : Goal → ℕ → List Goal → List Goal
created_rows g now rows = modify (active_of g.user_id) (replace_goal now) rows ++ g ∷ []

pub created-Inv :
    (u id now : ℕ) (dto : CreateGoal) (rows : List Goal)
    → count (λ g. g.id == id) rows ≡ 0
    → Inv rows
    → Inv (created_rows (new_goal id u now dto) now rows)
created-Inv u id now dto rows fresh v = record {
  keyed = λ i.
      let same = modify_keyed (active_of u) (replace_goal now) (λ g. refl) i rows in
      let split =
        count-append (λ (g : Goal). g.id == i) (modify (active_of u) (replace_goal now) rows)
          (new_goal id u now dto ∷ []) in
      ground (arith, v.keyed i, fresh, same, split);
  one_active = λ w.
      let split =
        count-append (active_of w) (modify (active_of u) (replace_goal now) rows)
          (new_goal id u now dto ∷ []) in
      ground (arith, v.one_active w, split, replaced_none u now rows, replaced_le u w now rows);
  consistent =
      All-snoc _ (new_goal id u now dto) (replaced-IsConsistent (active_of u) now rows v.consistent)
        (refl, refl);
}

ended_le :
    (p : Goal → Bool) (status : EndStatus) (now v : ℕ) (rows : List Goal)
    → count (active_of v) (modify p (ended_goal status now) rows) ≤ count (active_of v) rows
ended_le p status now v [] = omega arith
ended_le p status now v (r ∷ rows) = ground (arith, ended_le p status now v rows)

pub ended-Inv :
    (p : Goal → Bool) (status : EndStatus) (now : ℕ) (rows : List Goal)
    → Inv rows
    → Inv (modify p (ended_goal status now) rows)
ended-Inv p status now rows v = record {
  keyed = λ i. omega (arith, v.keyed i, modify_keyed p (ended_goal status now) (λ g. refl) i rows);
  one_active = λ w. omega (arith, v.one_active w, ended_le p status now w rows);
  consistent = ended-IsConsistent p status now rows v.consistent;
}

edited-IsConsistent :
    (u i : ℕ) (x : Goal) (dto : UpdateGoal) (now : ℕ) (rows : List Goal)
    → All (IsTarget u i x) rows
    → All IsConsistent rows
    → All IsConsistent (modify (λ g. g.id == i) (updated_goal dto x.is_active now) rows)
edited-IsConsistent u i x dto now [] t h = tt
edited-IsConsistent u i x dto now (r ∷ rows) (t, ts) (h, hs) =
    (ground (arith, t), edited-IsConsistent u i x dto now rows ts hs)

replaced-targets :
    (u i : ℕ) (x : Goal) (now : ℕ) (rows : List Goal)
    → All (IsTarget u i x) rows
    → All (IsTarget u i x) (modify (λ g. active_of u g && not (g.id == i)) (replace_goal now) rows)
replaced-targets u i x now [] t = tt
replaced-targets u i x now (r ∷ rows) (t, ts) =
    ((λ e. (ground (arith, t), ground (arith, t))), replaced-targets u i x now rows ts)

module _ (u i : ℕ) (x : Goal) (dto : UpdateGoal) (now : ℕ) (rows : List Goal) where
  updated_one_active :
      All (IsTarget u i x) rows
      → Inv rows
      → (w : ℕ) → count (active_of w) (updated_rows u i dto x.is_active now rows) ≤ 1
  updated_one_active t v w = elim (Bool-cases (activates dto)) [
    | inl on ↦ rw on (elim (Bool-cases (u == w)) [
      | inl same ↦
          let e : u ≡ w = ground arith in
          rw (← e) (omega (arith, v.keyed i, activated_own u i dto x.is_active now rows))
      | inr other ↦
          omega (
            arith,
            v.one_active w,
            activated_other u w i x dto x.is_active now rows t (ground arith),
          )
    ])
    | inr off ↦ rw off (omega (arith, v.one_active w, edited_le w i dto x.is_active now rows off))
  ]

  pub updated-Inv :
      find (owns u i) rows ≡ some x → Inv rows → Inv (updated_rows u i dto x.is_active now rows)
  updated-Inv e v =
      let t = found-IsTarget u i rows x (v.keyed i) e in
      record {
        keyed = λ j. elim (Bool-cases (activates dto)) [
          | inl on ↦ rw on (
              omega (
                arith,
                v.keyed j,
                modify_keyed (λ g. active_of u g && not (g.id == i)) (replace_goal now) (λ g. refl)
                    j rows,
                modify_keyed (λ g. g.id == i) (updated_goal dto x.is_active now) (λ g. refl) j
                    (modify (λ g. active_of u g && not (g.id == i)) (replace_goal now) rows),
              ))
          | inr off ↦ rw off (
              omega (
                arith,
                v.keyed j,
                modify_keyed (λ g. g.id == i) (updated_goal dto x.is_active now) (λ g. refl) j rows,
              ))
        ];
        one_active = updated_one_active t v;
        consistent = elim (Bool-cases (activates dto)) [
          | inl on ↦ rw on (
              edited-IsConsistent u i x dto now _ (replaced-targets u i x now rows t)
                (replaced-IsConsistent _ now rows v.consistent))
          | inr off ↦ rw off (edited-IsConsistent u i x dto now rows t v.consistent)
        ];
      }
