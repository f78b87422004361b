-- ===== src/Goals/Lifecycle.antt =====
-- What the requests of goals.service.ts answer, and that every one keeps the table well formed.
use stead.Prelude.{
  ℕ, ◌≤◌, ◌==◌, ◌≡◌, refl, Bool, true, false, not, ◌&&◌, Option, none, some, List, [], ◌∷◌, arith,
  count, find, modify, All, if◌then◌else◌, Bool-cases, inl, inr, Result, ok, err, Option-cases,
  not_found, internal, any, bad_request, require, ◌∙◌, All_of_find, find_holds, count_pos_of_find,
  count_mono, find-modify_hit, find-modify_miss, All_of_mem, All-append_right, sym, ap,
}
use stead.Store.{Table, Picks}
use stead.Goals.{
  Goal, CreateGoal, UpdateGoal, EndStatus, clash, active_of, owns, endable, replace_goal, new_goal,
  updated_goal, ended_goal, activates, create_fits, update_fits, is_active_status, create, update,
  end, get_active,
}
use stead.Goals.Rows.{replaced_room, updated_rows, one_active-distinct, found_by_key}
use stead.Goals.Invariant.{Inv, IsConsistent, created_rows, updated-Inv}

-- The rows that `update` edits by identifier still hold the goal that was found.
chosen_by_key :
    (user id now : ℕ) (on : Bool) (rows : List Goal) (x : Goal)
    → find (λ g. g.id == id) rows ≡ some x
    → find
        (λ g. g.id == id)
        (if on
          then modify (λ g. active_of user g && not (g.id == id)) (replace_goal now) rows
          else rows)
      ≡ some x
chosen_by_key user id now true rows x e =
    find-modify_miss (λ (g : Goal). g.id == id) (λ g. active_of user g && not (g.id == id))
      (replace_goal now) (λ g. refl) (λ g h. ground arith) rows
    ∙ e
chosen_by_key user id now false rows x e = e

module _ (goals : Table Goal clash) where
  created :
      (user : ℕ) (dto : CreateGoal) (id now : ℕ) (rows : List Goal)
      → goals.create
          (new_goal id user now dto)
          (goals.update_many (active_of user) (replace_goal now) rows).0
        ≡ (if any (λ r. id == r.id) rows
            then none
            else some (created_rows (new_goal id user now dto) now rows))
  created user dto id now rows =
      rw
        (
          goals.update_many_lem (active_of user) (replace_goal now) rows,
          goals.create_lem (new_goal id user now dto)
              (modify (active_of user) (replace_goal now) rows),
          replaced_room (new_goal id user now dto) now rows,
        )
        refl

  pub create_lem :
      (user : ℕ) (dto : CreateGoal) (id now : ℕ) (rows : List Goal)
      → create goals user dto id now rows ≡ (
          if create_fits dto && not (any (λ r. id == r.id) rows)
          then ok (new_goal id user now dto, created_rows (new_goal id user now dto) now rows)
          else err internal)
  unfolding create
  create_lem user dto id now rows = elim (Bool-cases (create_fits dto)) [
    | inr large ↦ rw large refl
    | inl fits ↦ elim (Bool-cases (any (λ (r : Goal). id == r.id) rows)) [
      | inl used ↦ rw (created user dto id now rows, fits, used) refl
      | inr free ↦ rw (created user dto id now rows, fits, free) refl
    ]
  ]

  -- What the update of an owned goal answers.
  abbrev pub Updated : ℕ → ℕ → UpdateGoal → ℕ → List Goal → Option Goal → Result (Goal × List Goal)
  Updated user id dto now rows none = err not_found
  Updated user id dto now rows (some x) =
      if update_fits dto
      then ok (updated_goal dto x.is_active now x, updated_rows user id dto x.is_active now rows)
      else err internal

  -- An update answers "not found" exactly when the caller has no goal with the identifier. Otherwise
  -- it ends with an internal error where an amount does not fit its column, and succeeds with the
  -- edited goal where they do: no unique index stops it.
  pub update_lem :
      (user id : ℕ) (dto : UpdateGoal) (now : ℕ) (rows : List Goal)
      → Inv rows
      → update goals user id dto now rows ≡ Updated user id dto now rows (find (owns user id) rows)
  unfolding update
  update_lem user id dto now rows v = elim (Option-cases (find (owns user id) rows)) [
    | inl e ↦ rw (goals.find_first_lem (owns user id) rows, e)
    | inr (x, e) ↦ elim (Bool-cases (update_fits dto)) [
      | inr large ↦ rw (goals.find_first_lem (owns user id) rows, e, large) refl
      | inl fits ↦ rw (
        goals.find_first_lem (owns user id) rows,
        e,
        fits,
        goals.update_many_lem (λ g. active_of user g && not (g.id == id)) (replace_goal now) rows,
        goals.update_lem (λ g. g.id == id) (updated_goal dto x.is_active now) _,
        chosen_by_key user id now (activates dto) rows x
            (found_by_key user id rows x (v.keyed id) e),
        one_active-distinct _ (updated-Inv user id x dto now rows e v).keyed
            (updated-Inv user id x dto now rows e v).one_active,
      )
    ]
  ]

  -- What ending the goal that was found answers.
  abbrev pub Ended : ℕ → ℕ → EndStatus → ℕ → List Goal → Option Goal → Result (Goal × List Goal)
  Ended user id status now rows none = err not_found
  Ended user id status now rows (some x) =
      if x.is_active
      then ok (ended_goal status now x, modify (endable user id) (ended_goal status now) rows)
      else err bad_request

  -- Ending a goal answers "not found" for a goal that is not the caller's, a bad request for one
  -- that is no longer active, and otherwise succeeds with the goal under the asked status.
  pub end_lem :
      (user id : ℕ) (status : EndStatus) (now : ℕ) (rows : List Goal)
      → Inv rows
      → end goals user id status now rows ≡ Ended user id status now rows (find (owns user id) rows)
  unfolding end
  end_lem user id status now rows v = elim (Option-cases (find (owns user id) rows)) [
    | inl e ↦ rw (goals.find_first_lem (owns user id) rows, e)
    | inr (x, e) ↦
        rw (goals.find_first_lem (owns user id) rows, e)
          (elim (Bool-cases x.is_active) [
            | inl on ↦
                let fine = All_of_find (owns user id) IsConsistent rows x v.consistent e in
                let status_on : is_active_status x.status ≡ true = fine.0 ∙ on in
                let owned = find_holds (owns user id) rows x e in
                let one : count (endable user id) rows ≡ 1 = omega (
                  arith,
                  v.keyed id,
                  count_mono (λ (g : Goal). g.id == id) (endable user id) (λ g h. ground arith)
                      rows,
                  count_pos_of_find (owns user id) (endable user id) rows x e (ground arith),
                ) in
                let again =
                  find-modify_hit (owns user id) (endable user id) (ended_goal status now)
                    (λ g. refl) rows x e (ground arith) in
                rw (
                  on,
                  status_on,
                  goals.update_many_lem (endable user id) (ended_goal status now) rows,
                  one,
                  goals.find_first_lem (owns user id) _,
                  again,
                )
            | inr off ↦ rw off
          ])
  ]

  only_new :
      (user id now : ℕ) (dto : CreateGoal) (rows : List Goal)
      → All
          (λ r.
            (active_of user r && is_active_status r.status) ≡ true → r ≡ new_goal id user now dto)
          (created_rows (new_goal id user now dto) now rows)
  only_new user id now dto [] = ((λ t. refl), tt)
  only_new user id now dto (r ∷ rows) =
      ((λ t. absurd (ground arith)), only_new user id now dto rows)

  -- After a user creates a goal, the active goal that the service reads back is that goal.
  pub get_active-create :
      (user : ℕ) (dto : CreateGoal) (id now : ℕ) (rows after : List Goal) (g : Goal)
      → create goals user dto id now rows ≡ ok (g, after)
      → (g ≡ new_goal id user now dto) × (get_active goals user after ≡ ok g)
  unfolding get_active
  get_active-create user dto id now rows after g e =
      let l = create_lem user dto id now rows in
      let same : new_goal id user now dto ≡ g = ground arith in
      let left : created_rows (new_goal id user now dto) now rows ≡ after = ground arith in
      (sym same, rw (← same, ← left) (newest _ (goals.find_latest_lem _ _ _)))
    where
      newest :
          (o : Option Goal)
          → Picks
              (λ g. active_of user g && is_active_status g.status)
              (λ best r. r.created_at ≤ best.created_at)
              (created_rows (new_goal id user now dto) now rows)
              o
          → require o not_found ≡ ok (new_goal id user now dto)
      newest none k =
          absurd (
            ground
              (arith, All-append_right _ (modify (active_of user) (replace_goal now) rows) _ k))
      newest (some b) (m, t, _) = ap ok (All_of_mem _ _ b (only_new user id now dto rows) m t)
