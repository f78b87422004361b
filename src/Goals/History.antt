-- ===== src/Goals/History.antt =====
-- Any sequence of requests of any users: the invariant of the goal table, and who sees which change.
use stead.Prelude.{
  ℕ, ◌==◌, ◌≡◌, ◌≢◌, refl, Bool, true, not, ◌&&◌, some, List, [], ◌∷◌, ◌++◌, arith, count, find,
  modify, All, Bool-cases, inl, inr, ok, Option-cases, filter, sym, ◌∙◌,
}
use stead.Store.{Table}
use stead.Goals.{
  Goal, CreateGoal, UpdateGoal, EndStatus, clash, active_of, owns, endable, replace_goal, new_goal,
  updated_goal, ended_goal, activates, create, update, end,
}
use stead.Goals.Rows.{found-IsTarget, IsTarget, updated_rows}
use stead.Goals.Invariant.{Inv, created_rows, created-Inv, updated-Inv, ended-Inv}
use stead.Goals.Lifecycle.{create_lem, update_lem, end_lem}

-- A request of the user that succeeds; a request that throws leaves the rows as they were.
pub data Step (goals : Table Goal clash) (user : ℕ) (rows after : List Goal) : Type 0 where
  creates :
      (dto : CreateGoal) (id now : ℕ) (g : Goal)
      → count (λ g. g.id == id) rows ≡ 0
      → create goals user dto id now rows ≡ ok (g, after)
      → Step goals user rows after
  updates :
      (id : ℕ) (dto : UpdateGoal) (now : ℕ) (g : Goal)
      → update goals user id dto now rows ≡ ok (g, after)
      → Step goals user rows after
  ends :
      (id : ℕ) (status : EndStatus) (now : ℕ) (g : Goal)
      → end goals user id status now rows ≡ ok (g, after)
      → Step goals user rows after

pub data Reach (goals : Table Goal clash) : List Goal → Type 0 where
  start : Reach goals []
  next :
      {rows after : List Goal} {user : ℕ}
      → Reach goals rows
      → Step goals user rows after
      → Reach goals after

module _ (goals : Table Goal clash) where
  create_after :
      (user : ℕ) (dto : CreateGoal) (id now : ℕ) (rows after : List Goal) (g : Goal)
      → create goals user dto id now rows ≡ ok (g, after)
      → created_rows (new_goal id user now dto) now rows ≡ after
  create_after user dto id now rows after g e =
      let l = create_lem goals user dto id now rows in ground arith

  -- The rows after a request that edits a goal, by the goal that was found.
  update_after :
      (user id : ℕ) (dto : UpdateGoal) (now : ℕ) (rows after : List Goal) (g : Goal)
      → Inv rows
      → update goals user id dto now rows ≡ ok (g, after)
      → (x : Goal) × (find (owns user id) rows ≡ some x)
        × (updated_rows user id dto x.is_active now rows ≡ after)
  update_after user id dto now rows after g v e =
      let l = update_lem goals user id dto now rows v in
      elim (Option-cases (find (owns user id) rows)) [
        | inl missing ↦ absurd (ground (arith, l))
        | inr (x, found) ↦ (x, found, ground (arith, l))
      ]

  end_after :
      (user id : ℕ) (status : EndStatus) (now : ℕ) (rows after : List Goal) (g : Goal)
      → Inv rows
      → end goals user id status now rows ≡ ok (g, after)
      → modify (endable user id) (ended_goal status now) rows ≡ after
  end_after user id status now rows after g v e =
      let l = end_lem goals user id status now rows v in
      elim (Option-cases (find (owns user id) rows)) [
        | inl missing ↦ absurd (ground (arith, l))
        | inr (x, found) ↦ ground (arith, l)
      ]

  Step-Inv : {user : ℕ} {rows after : List Goal} → Step goals user rows after → Inv rows → Inv after
  Step-Inv {user} {rows} {after} (creates dto id now g fresh e) v =
      rw (← create_after user dto id now rows after g e) (created-Inv user id now dto rows fresh v)
  Step-Inv {user} {rows} {after} (updates id dto now g e) v =
      let (x, found, same) = update_after user id dto now rows after g v e in
      rw (← same) (updated-Inv user id x dto now rows found v)
  Step-Inv {user} {rows} {after} (ends id status now g e) v =
      rw (← end_after user id status now rows after g v e)
        (ended-Inv (endable user id) status now rows v)

  empty-Inv : Inv []
  empty-Inv = record { keyed = λ i. omega arith; one_active = λ u. omega arith; consistent = tt }

  -- After any requests of any users, identifiers are unique, every user has at most one active
  -- goal, and the flag, the status and the end date of every goal agree.
  pub Reach-Inv : {rows : List Goal} → Reach goals rows → Inv rows
  Reach-Inv start = empty-Inv
  Reach-Inv (next r s) = Step-Inv s (Reach-Inv r)

-- The goals of one user, as `list` reads them.
abbrev pub goals_of : ℕ → List Goal → List Goal
goals_of v rows = filter (λ g. g.user_id == v) rows

-- An edit that touches only rows of other users is not seen by `v`.
unseen :
    (v : ℕ) (p : Goal → Bool) (f : Goal → Goal) (rows : List Goal)
    → ((g : Goal) → (f g).user_id ≡ g.user_id)
    → All (λ g. p g ≡ true → g.user_id ≢ v) rows
    → goals_of v (modify p f rows) ≡ goals_of v rows
unseen v p f [] same h = refl
unseen v p f (r ∷ rows) same (h, hs) = ground (arith, same r, h, unseen v p f rows same hs)

goals_of-snoc :
    (v : ℕ) (g : Goal) (rows : List Goal)
    → g.user_id ≢ v
    → goals_of v (rows ++ g ∷ []) ≡ goals_of v rows
goals_of-snoc v g [] h = ground arith
goals_of-snoc v g (r ∷ rows) h = ground (arith, goals_of-snoc v g rows h)

by_owner :
    (u v : ℕ) (p : Goal → Bool) (rows : List Goal)
    → u ≢ v
    → ((g : Goal) → p g ≡ true → g.user_id ≡ u)
    → All (λ g. p g ≡ true → g.user_id ≢ v) rows
by_owner u v p [] apart h = tt
by_owner u v p (r ∷ rows) apart h = ((λ t e. apart (sym (h r t) ∙ e)), by_owner u v p rows apart h)

by_target :
    (u v i : ℕ) (x : Goal) (rows : List Goal)
    → u ≢ v
    → All (IsTarget u i x) rows
    → All (λ g. (g.id == i) ≡ true → g.user_id ≢ v) rows
by_target u v i x [] apart t = tt
by_target u v i x (r ∷ rows) apart (t, ts) =
    ((λ h e. apart (sym (t h).0 ∙ e)), by_target u v i x rows apart ts)

by_target_replaced :
    (u v i now : ℕ) (x : Goal) (p : Goal → Bool) (rows : List Goal)
    → u ≢ v
    → All (IsTarget u i x) rows
    → All (λ g. (g.id == i) ≡ true → g.user_id ≢ v) (modify p (replace_goal now) rows)
by_target_replaced u v i now x p [] apart t = tt
by_target_replaced u v i now x p (r ∷ rows) apart (t, ts) = (
  (λ h e. apart (sym (t (ground arith)).0 ∙ ground arith)),
  by_target_replaced u v i now x p rows apart ts,
)

updated_unseen :
    (u v i : ℕ) (x : Goal) (dto : UpdateGoal) (now : ℕ) (rows : List Goal)
    → u ≢ v
    → Inv rows
    → find (owns u i) rows ≡ some x
    → goals_of v (updated_rows u i dto x.is_active now rows) ≡ goals_of v rows
updated_unseen u v i x dto now rows apart w e =
    let t = found-IsTarget u i rows x (w.keyed i) e in
    elim (Bool-cases (activates dto)) [
      | inl on ↦ rw on (
          unseen v (λ g. g.id == i) (updated_goal dto x.is_active now) _ (λ g. refl)
            (by_target_replaced u v i now x (λ g. active_of u g && not (g.id == i)) rows apart t)
          ∙ unseen v (λ g. active_of u g && not (g.id == i)) (replace_goal now) rows (λ g. refl)
              (by_owner u v (λ g. active_of u g && not (g.id == i)) rows apart
                (λ g h. ground arith)))
      | inr off ↦ rw off (
          unseen v (λ g. g.id == i) (updated_goal dto x.is_active now) rows (λ g. refl)
            (by_target u v i x rows apart t))
    ]

module _ (goals : Table Goal clash) where
  -- A request of one user changes no goal of another one.
  pub Step-goals_of :
      {user : ℕ} {rows after : List Goal} (v : ℕ)
      → Inv rows
      → Step goals user rows after
      → user ≢ v
      → goals_of v after ≡ goals_of v rows
  Step-goals_of {user} {rows} {after} v w (creates dto id now g fresh e) apart =
      rw (← create_after goals user dto id now rows after g e) (
        goals_of-snoc v (new_goal id user now dto) (modify (active_of user) (replace_goal now) rows)
          apart
        ∙ unseen v (active_of user) (replace_goal now) rows (λ g. refl)
            (by_owner user v (active_of user) rows apart (λ g h. ground arith)))
  Step-goals_of {user} {rows} {after} v w (updates id dto now g e) apart =
      let (x, found, same) = update_after goals user id dto now rows after g w e in
      rw (← same) (updated_unseen user v id x dto now rows apart w found)
  Step-goals_of {user} {rows} {after} v w (ends id status now g e) apart =
      rw (← end_after goals user id status now rows after g w e) (
        unseen v (endable user id) (ended_goal status now) rows (λ g. refl)
          (by_owner user v (endable user id) rows apart (λ g h. ground arith)))
