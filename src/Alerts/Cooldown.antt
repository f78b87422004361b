-- ===== src/Alerts/Cooldown.antt =====
-- What the evaluations between two alerts keep of a goal: the time of its last risk alert.
use stead.Prelude.{
  ℕ, ◌+◌, ◌<◌, ◌==◌, ◌≡◌, refl, sym, ap, ◌∙◌, subst, Bool, true, false, ◌&&◌, Option, none, some,
  get_or, List, [], ◌∷◌, ◌++◌, modify, find, All, arith, Bool-cases, Option-cases, Result-cases,
  inl, inr, Result, ok, err, Error, find-modify_miss, find-append_left,
}
use stead.Store.{Table}
use stead.Alerts.{AlertState, state_clash, Decision, risk, recovery, risk_cooldown_ms, LocalTime}
use stead.Alerts.Evaluation.{
  AlertPreference, Snapshot, Alert, is_state_of, weekly_due, decide, advance, new_state,
  upsert_state, evaluate_goal,
}
use stead.Alerts.Advance.{found_state, next_state, advance-is_state_of, cooled, evaluated_find}

-- One evaluation of a goal: its preference, the local time, the dashboard's answer and the time.
pub record Visit : Type 0 where
  pub preference : AlertPreference
  pub local : ℕ → LocalTime
  pub snapshot : Snapshot
  pub now : ℕ

-- The state of a goal says that its last risk alert was at the time `at`.
abbrev pub Dated : ℕ → ℕ → ℕ → List AlertState → Type 0
Dated user goal at states =
    (a : AlertState) × (find (is_state_of user goal) states ≡ some a)
    × (a.last_risk_alert_at ≡ some at)

advance-dated :
    (p : AlertPreference) (s : Snapshot) (state : Option AlertState) (week : Option ℕ)
    (d : Option Decision) (now : ℕ) (a : AlertState)
    → ¬ (d ≡ some risk)
    → (advance p s state week d now a).last_risk_alert_at ≡ a.last_risk_alert_at
advance-dated p s state none none now a h = ground arith
advance-dated p s state (some w) none now a h = ground arith
advance-dated p s state week (some risk) now a h = absurd (h refl)
advance-dated p s state none (some recovery) now a h = refl
advance-dated p s state (some w) (some recovery) now a h = refl

-- Two goals, or two users, have their own states.
apart_states :
    (user goal user' goal' : ℕ) (a : AlertState)
    → (user == user' && goal == goal') ≡ false
    → is_state_of user goal a ≡ true
    → is_state_of user' goal' a ≡ false
apart_states user goal user' goal' a apart mine = ground arith

module _ (t : Table AlertState state_clash) (publish : Alert → Result Bool) where
  -- The states after the evaluations, in their order.
  abbrev pub after_visits : List Visit → List AlertState → List AlertState
  after_visits [] states = states
  after_visits (v ∷ vs) states =
      after_visits vs (evaluate_goal t publish v.preference v.local v.snapshot v.now states).states

  upserted_other :
      (p : AlertPreference) (s : Snapshot) (state : Option AlertState) (week : Option ℕ)
      (d : Option Decision) (now user goal : ℕ) (a : AlertState) (states after : List AlertState)
      → (user == p.user_id && goal == s.goal_id) ≡ false
      → find (is_state_of user goal) states ≡ some a
      → upsert_state t publish p.user_id s (advance p s state week d now) states ≡ some after
      → find (is_state_of user goal) after ≡ some a
  unfolding upsert_state
  upserted_other p s state week d now user goal a states after apart here e =
      let law = t.find_first_lem (is_state_of p.user_id s.goal_id) states in
      let law2 = t.create_lem (advance p s state week d now (new_state p.user_id s)) states in
      let law3 =
        t.update_many_lem (is_state_of p.user_id s.goal_id) (advance p s state week d now) states in
      let kept =
        find-modify_miss (is_state_of user goal) (is_state_of p.user_id s.goal_id)
          (advance p s state week d now) (advance-is_state_of p s state week d now user goal)
          (λ x mine. apart_states user goal p.user_id s.goal_id x apart mine) states in
      let longer =
        find-append_left (is_state_of user goal) states
          (advance p s state week d now (new_state p.user_id s) ∷ []) a here in
      elim (Option-cases (find (is_state_of p.user_id s.goal_id) states)) [
        | inl missing ↦
            let same : after
                ≡ states ++ (advance p s state week d now (new_state p.user_id s) ∷ []) =
              ground (arith, law, law2) in
            ap (find (is_state_of user goal)) same ∙ longer
        | inr (x, hit) ↦
            let same : after
                ≡ modify (is_state_of p.user_id s.goal_id) (advance p s state week d now) states =
              ground (arith, law, law3) in
            ap (find (is_state_of user goal)) same ∙ kept ∙ here
      ]

  evaluated_error :
      (p : AlertPreference) (local : ℕ → LocalTime) (s : Snapshot) (now : ℕ)
      (states : List AlertState) (x : Error)
      → (evaluate_goal t publish p local s now states).result ≡ err x
      → (evaluate_goal t publish p local s now states).states ≡ states
  unfolding evaluate_goal
  evaluated_error p local s now states x e = ground arith

  evaluated_other :
      (p : AlertPreference) (local : ℕ → LocalTime) (s : Snapshot) (now user goal : ℕ)
      (a : AlertState) (states : List AlertState)
      → (user == p.user_id && goal == s.goal_id) ≡ false
      → find (is_state_of user goal) states ≡ some a
      → (evaluate_goal t publish p local s now states).result ≡ ok tt
      → find (is_state_of user goal) (evaluate_goal t publish p local s now states).states ≡ some a
  unfolding evaluate_goal
  evaluated_other p local s now user goal a states apart here e =
      let state = t.find_first (is_state_of p.user_id s.goal_id) states in
      let week = weekly_due p local state in
      let d = decide p s state now in
      elim (Option-cases
        (upsert_state t publish p.user_id s (advance p s state week d now) states)) [
          | inl failed ↦ absurd (ground arith)
          | inr (after, done) ↦
              let same : (evaluate_goal t publish p local s now states).states ≡ after =
                ground arith in
              ap (find (is_state_of user goal)) same
              ∙ upserted_other p s state week d now user goal a states after apart here done
        ]

  evaluated_own :
      (p : AlertPreference) (local : ℕ → LocalTime) (s : Snapshot) (now at : ℕ)
      (states : List AlertState)
      → Dated p.user_id s.goal_id at states
      → now < at + risk_cooldown_ms
      → (evaluate_goal t publish p local s now states).result ≡ ok tt
      → Dated p.user_id s.goal_id at (evaluate_goal t publish p local s now states).states
  evaluated_own p local s now at states (a, here, dated) soon e =
      let quiet = cooled p p s s at now states states a here dated refl refl soon in
      let state = found_state p s states in
      (
        next_state p local s now states,
        evaluated_find t publish p local s now states e,
        advance-dated p s state (weekly_due p local state) (decide p s state now) now
              (get_or state (new_state p.user_id s)) quiet
            ∙ ap (λ o. (get_or o (new_state p.user_id s)).last_risk_alert_at) here
            ∙ dated,
      )

  visited :
      (v : Visit) (user goal at : ℕ) (states : List AlertState)
      → Dated user goal at states
      → v.now < at + risk_cooldown_ms
      → Dated user goal at
          (evaluate_goal t publish v.preference v.local v.snapshot v.now states).states
  visited v user goal at states dated soon =
      elim (Result-cases
        (evaluate_goal t publish v.preference v.local v.snapshot v.now states).result) [
          | inr (x, failed) ↦
              subst (Dated user goal at)
                (sym (evaluated_error v.preference v.local v.snapshot v.now states x failed)) dated
          | inl (tt, fine) ↦
              elim (Bool-cases (user == v.preference.user_id && goal == v.snapshot.goal_id)) [
                | inr apart ↦ (
                  dated.0,
                  evaluated_other v.preference v.local v.snapshot v.now user goal dated.0 states
                      apart dated.1 fine,
                  dated.2,
                )
                | inl same ↦
                    let user_same : v.preference.user_id ≡ user = ground arith in
                    let goal_same : v.snapshot.goal_id ≡ goal = ground arith in
                    let mine : Dated v.preference.user_id v.snapshot.goal_id at states =
                      rw (user_same, goal_same) dated in
                    rw (← user_same, ← goal_same)
                      (evaluated_own v.preference v.local v.snapshot v.now at states mine soon fine)
              ]
        ]

  pub visits-Dated :
      (vs : List Visit) (user goal at : ℕ) (states : List AlertState)
      → Dated user goal at states
      → All (λ v. v.now < at + risk_cooldown_ms) vs
      → Dated user goal at (after_visits vs states)
  visits-Dated [] user goal at states dated soon = dated
  visits-Dated (v ∷ vs) user goal at states dated (soon, more) =
      visits-Dated vs user goal at
        (evaluate_goal t publish v.preference v.local v.snapshot v.now states).states
        (visited v user goal at states dated soon) more
