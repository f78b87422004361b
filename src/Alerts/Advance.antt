-- ===== src/Alerts/Advance.antt =====
-- What an evaluation keeps for the next one.
use stead.Prelude.{
  ℕ, ◌+◌, ◌<◌, ◌≡◌, refl, sym, subst, Bool, true, false, Option, none, some, is_none, get_or, List,
  [], ◌∷◌, any, find, arith, Option-cases, inl, inr, Result, ok, find-modify_hit, find_holds,
  find-append_right,
}
use stead.Store.{Table}
use stead.Alerts.{
  AlertState, state_clash, Decision, risk, recovery, risk_decision, risk_cooldown_ms, LocalTime,
}
use stead.Alerts.Evaluation.{
  AlertPreference, Snapshot, Alert, is_state_of, weekly_due, decide, advance, new_state,
  upsert_state, evaluate_goal,
}

abbrev pub is_risk_alert : Alert → Bool
is_risk_alert a = elim a.kind [ none ↦ false | some d ↦ elim d [ risk ↦ true | recovery ↦ false ] ]

abbrev pub is_recovery_alert : Alert → Bool
is_recovery_alert a = elim a.kind [
  | none ↦ false
  | some d ↦ elim d [ risk ↦ false | recovery ↦ true ]
]

abbrev pub is_weekly_alert : Alert → Bool
is_weekly_alert a = is_none a.kind

-- The state that an evaluation starts from.
abbrev pub found_state : AlertPreference → Snapshot → List AlertState → Option AlertState
found_state p s states = find (is_state_of p.user_id s.goal_id) states

abbrev pub next_state :
    AlertPreference → (ℕ → LocalTime) → Snapshot → ℕ → List AlertState → AlertState
next_state p local s now states =
    let state = found_state p s states in
    advance p s state (weekly_due p local state) (decide p s state now) now
      (get_or state (new_state p.user_id s))

pub advance-is_state_of :
    (p : AlertPreference) (s : Snapshot) (state : Option AlertState) (week : Option ℕ)
    (d : Option Decision) (now user goal : ℕ) (a : AlertState)
    → is_state_of user goal (advance p s state week d now a) ≡ is_state_of user goal a
advance-is_state_of p s state none none now user goal a = ground arith
advance-is_state_of p s state none (some risk) now user goal a = refl
advance-is_state_of p s state none (some recovery) now user goal a = refl
advance-is_state_of p s state (some w) none now user goal a = ground arith
advance-is_state_of p s state (some w) (some risk) now user goal a = refl
advance-is_state_of p s state (some w) (some recovery) now user goal a = refl

pub cooled :
    (p p' : AlertPreference) (s s' : Snapshot) (now later : ℕ) (states after : List AlertState)
    (a : AlertState)
    → find (is_state_of p.user_id s.goal_id) after ≡ some a
    → a.last_risk_alert_at ≡ some now
    → p'.user_id ≡ p.user_id
    → s'.goal_id ≡ s.goal_id
    → later < now + risk_cooldown_ms
    → ¬ (decide p' s' (found_state p' s' after) later ≡ some risk)
unfolding decide risk_decision
cooled p p' s s' now later states after a kept dated user goal soon e =
    let here : found_state p' s' after ≡ some a = rw (user, goal) kept in ground arith

pub settled :
    (p p' : AlertPreference) (s s' : Snapshot) (now later : ℕ) (states after : List AlertState)
    (a : AlertState)
    → decide p s (found_state p s states) now ≡ some recovery
    → find (is_state_of p.user_id s.goal_id) after ≡ some a
    → a.last_notified_status ≡ some s.status
    → p'.user_id ≡ p.user_id
    → s'.goal_id ≡ s.goal_id
    → ¬ (decide p' s' (found_state p' s' after) later ≡ some recovery)
unfolding decide risk_decision
settled p p' s s' now later states after a first kept status user goal e =
    let here : found_state p' s' after ≡ some a = rw (user, goal) kept in ground arith

pub advance_week :
    (p : AlertPreference) (s : Snapshot) (state : Option AlertState) (d : Option Decision)
    (now week : ℕ) (a : AlertState)
    → (advance p s state (some week) d now a).last_weekly_summary_key ≡ some week
advance_week p s state none now week a = ground arith
advance_week p s state (some risk) now week a = refl
advance_week p s state (some recovery) now week a = refl

pub summed :
    (p p' : AlertPreference) (local local' : ℕ → LocalTime) (s s' : Snapshot)
    (after : List AlertState) (a : AlertState)
    → find (is_state_of p.user_id s.goal_id) after ≡ some a
    → a.last_weekly_summary_key ≡ some (local p.time_zone).week_start
    → p'.user_id ≡ p.user_id
    → s'.goal_id ≡ s.goal_id
    → (local' p'.time_zone).week_start ≡ (local p.time_zone).week_start
    → ¬ (weekly_due p' local' (found_state p' s' after) ≡ some (local' p'.time_zone).week_start)
unfolding weekly_due
summed p p' local local' s s' after a kept seen user goal week e =
    let here : found_state p' s' after ≡ some a = rw (user, goal) kept in ground arith

module _ (t : Table AlertState state_clash) (publish : Alert → Result Bool) where
  upserted_find :
      (user : ℕ) (s : Snapshot) (f : AlertState → AlertState) (states after : List AlertState)
      → ((a : AlertState) → is_state_of user s.goal_id (f a) ≡ is_state_of user s.goal_id a)
      → upsert_state t publish user s f states ≡ some after
      → find (is_state_of user s.goal_id) after
        ≡ some (f (get_or (find (is_state_of user s.goal_id) states) (new_state user s)))
  unfolding upsert_state
  upserted_find user s f states after same e =
      elim (Option-cases (find (is_state_of user s.goal_id) states)) [
        | inl missing ↦
            let law = t.find_first_lem (is_state_of user s.goal_id) states in
            let law2 = t.create_lem (f (new_state user s)) states in
            let appended =
              find-append_right (is_state_of user s.goal_id) states (f (new_state user s) ∷ [])
                missing in
            let mine = same (new_state user s) in ground (arith, law, law2, appended, mine)
        | inr (a, hit) ↦
            let law = t.find_first_lem (is_state_of user s.goal_id) states in
            let law2 = t.update_many_lem (is_state_of user s.goal_id) f states in
            let changed =
              find-modify_hit (is_state_of user s.goal_id) (is_state_of user s.goal_id) f same
                states a hit (find_holds (is_state_of user s.goal_id) states a hit) in
            ground (arith, law, law2, changed)
      ]

  -- An evaluation that succeeds leaves the advanced state of the goal.
  pub evaluated_find :
      (p : AlertPreference) (local : ℕ → LocalTime) (s : Snapshot) (now : ℕ)
      (states : List AlertState)
      → (evaluate_goal t publish p local s now states).result ≡ ok tt
      → find (is_state_of p.user_id s.goal_id) (evaluate_goal t publish p local s now states).states
        ≡ some (next_state p local s now states)
  unfolding evaluate_goal
  evaluated_find p local s now states e =
      let law = t.find_first_lem (is_state_of p.user_id s.goal_id) states in
      let state = t.find_first (is_state_of p.user_id s.goal_id) states in
      let week = weekly_due p local state in
      let d = decide p s state now in
      elim (Option-cases
        (upsert_state t publish p.user_id s (advance p s state week d now) states)) [
          | inl failed ↦ absurd (ground arith)
          | inr (after, done) ↦
              let row =
                upserted_find p.user_id s (advance p s state week d now) states after
                  (advance-is_state_of p s state week d now p.user_id s.goal_id) done in
              let same : (evaluate_goal t publish p local s now states).states ≡ after =
                ground arith in
              let kept =
                subst
                  (λ x.
                    find (is_state_of p.user_id s.goal_id) after
                    ≡ some (
                        advance p s x (weekly_due p local x) (decide p s x now) now
                          (get_or (found_state p s states) (new_state p.user_id s))))
                  law row in
              subst
                (λ w.
                  find (is_state_of p.user_id s.goal_id) w ≡ some (next_state p local s now states))
                (sym same) kept
        ]

  -- What an evaluation publishes, from the state that it finds.
  pub published_risk :
      (p : AlertPreference) (local : ℕ → LocalTime) (s : Snapshot) (now : ℕ)
      (states : List AlertState)
      → any is_risk_alert (evaluate_goal t publish p local s now states).published ≡ true
      → decide p s (found_state p s states) now ≡ some risk
  unfolding evaluate_goal
  published_risk p local s now states e =
      let law = t.find_first_lem (is_state_of p.user_id s.goal_id) states in ground (arith, law)

  pub published_recovery :
      (p : AlertPreference) (local : ℕ → LocalTime) (s : Snapshot) (now : ℕ)
      (states : List AlertState)
      → any is_recovery_alert (evaluate_goal t publish p local s now states).published ≡ true
      → decide p s (found_state p s states) now ≡ some recovery
  unfolding evaluate_goal
  published_recovery p local s now states e =
      let law = t.find_first_lem (is_state_of p.user_id s.goal_id) states in ground (arith, law)

  pub published_weekly :
      (p : AlertPreference) (local : ℕ → LocalTime) (s : Snapshot) (now : ℕ)
      (states : List AlertState)
      → any is_weekly_alert (evaluate_goal t publish p local s now states).published ≡ true
      → weekly_due p local (found_state p s states) ≡ some (local p.time_zone).week_start
  unfolding evaluate_goal weekly_due
  published_weekly p local s now states e =
      let law = t.find_first_lem (is_state_of p.user_id s.goal_id) states in ground (arith, law)
