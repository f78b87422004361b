-- ===== src/Alerts/Evaluation.antt =====
-- `evaluateUser` of alerts.service.ts: what is published, and the state that is kept.
use stead.Prelude.{
  ℕ, ◌==◌, Bool, false, not, ◌&&◌, Option, none, some, is_none, some_eq, List, [], ◌∷◌, ◌++◌,
  Result, ok, err, internal, if◌then◌else◌,
}
use stead.Store.{Table}
use stead.Alerts.{
  StabilityStatus, is_stable, AlertState, state_clash, Decision, risk, recovery, risk_decision,
  DedupeKey, weekly_key, alert_occurrence_key, LocalTime, is_due,
}

pub record AlertPreference : Type 0 where
  pub user_id : ℕ
  pub phone : ℕ
  pub weekly_summary_enabled : Bool
  pub risk_alerts_enabled : Bool
  pub time_zone : ℕ
  pub weekly_day : ℕ
  pub weekly_hour_local : ℕ

abbrev pub preference_clash : AlertPreference → AlertPreference → Bool
preference_clash a b = a.user_id == b.user_id

-- What the dashboard says of the active goal.
pub record Snapshot : Type 0 where
  pub goal_id : ℕ
  pub goal_name : ℕ
  pub readiness_pct : ℕ
  pub pace : ℕ
  pub status : StabilityStatus
  pub score : ℕ

pub data AlertBody : Type 0 where
  weekly_summary_body : (name readiness : ℕ) (status : StabilityStatus) (score pace : ℕ) → AlertBody
  risk_body : (name : ℕ) (status : StabilityStatus) (score : ℕ) → AlertBody
  recovery_body : (name score : ℕ) → AlertBody

pub record Alert : Type 0 where
  pub kind : Option Decision
  pub dedupe_key : DedupeKey
  pub phone : ℕ
  pub body : AlertBody

-- What an evaluation ends with: its result, the alerts that were published, and the states.
pub record Evaluated : Type 0 where
  pub result : Result (Unit {0})
  pub published : List Alert
  pub states : List AlertState

abbrev pub is_state_of : ℕ → ℕ → AlertState → Bool
is_state_of user goal s = s.user_id == user && s.goal_id == goal

abbrev pub weekly_alert : AlertPreference → Snapshot → ℕ → Alert
weekly_alert p s week = record {
  kind = none;
  dedupe_key = weekly_key p.user_id s.goal_id week;
  phone = p.phone;
  body = weekly_summary_body s.goal_name s.readiness_pct s.status s.score s.pace;
}

abbrev pub decision_body : Decision → Snapshot → AlertBody
decision_body risk s = risk_body s.goal_name s.status s.score
decision_body recovery s = recovery_body s.goal_name s.score

abbrev pub decision_alert : AlertPreference → Snapshot → Option AlertState → Decision → Alert
decision_alert p s state d = record {
  kind = some d;
  dedupe_key = alert_occurrence_key d p.user_id s.goal_id state s.status s.score;
  phone = p.phone;
  body = decision_body d s;
}

abbrev pub weekly_seen : Option AlertState → ℕ → Bool
weekly_seen none week = false
weekly_seen (some s) week = some_eq s.last_weekly_summary_key week

-- The week whose summary is due.
unfoldable pub weekly_due : AlertPreference → (ℕ → LocalTime) → Option AlertState → Option ℕ
weekly_due p local state =
    let l = local p.time_zone in
    if p.weekly_summary_enabled
      && is_due l p.weekly_day p.weekly_hour_local
      && not (weekly_seen state l.week_start)
    then some l.week_start
    else none

-- `none` where risk alerts are off.
unfoldable pub decide : AlertPreference → Snapshot → Option AlertState → ℕ → Option Decision
decide p s state now =
    if p.risk_alerts_enabled then risk_decision s.status s.score state now else none

abbrev pub observed : Snapshot → AlertState → AlertState
observed s a = record a { last_observed_status = s.status; last_observed_score = s.score }

abbrev pub summarised : Option ℕ → ℕ → AlertState → AlertState
summarised none now a = a
summarised (some week) now a = record a {
  last_weekly_summary_at = some now;
  last_weekly_summary_key = some week;
}

abbrev pub notified : Snapshot → AlertState → AlertState
notified s a = record a { last_notified_status = some s.status; last_notified_score = some s.score }

abbrev pub decided : Option Decision → Bool → Snapshot → ℕ → AlertState → AlertState
decided (some risk) baseline s now a = record (notified s a) { last_risk_alert_at = some now }
decided (some recovery) baseline s now a = record (notified s a) {
  last_recovery_alert_at = some now;
}
decided none baseline s now a = if baseline then notified s a else a

abbrev pub new_state : ℕ → Snapshot → AlertState
new_state user s = record {
  user_id = user;
  goal_id = s.goal_id;
  last_observed_status = s.status;
  last_observed_score = s.score;
  last_notified_status = none;
  last_notified_score = none;
  last_risk_alert_at = none;
  last_recovery_alert_at = none;
  last_weekly_summary_at = none;
  last_weekly_summary_key = none;
}

-- A first observation of a stable goal is the baseline of later ones.
abbrev pub is_baseline : AlertPreference → Snapshot → Option AlertState → Bool
is_baseline p s state = p.risk_alerts_enabled && is_none state && is_stable s.status

abbrev pub advance :
    AlertPreference
    → Snapshot
    → Option AlertState
    → Option ℕ
    → Option Decision
    → ℕ
    → AlertState
    → AlertState
advance p s state week d now a =
    decided d (is_baseline p s state) s now (summarised week now (observed s a))

-- Publishes an alert where there is one; the publisher may throw.
abbrev pub publish_some : (Alert → Result Bool) → Option Alert → Result (List Alert)
publish_some publish none = ok []
publish_some publish (some a) = elim (publish a) [ err e ↦ err e | ok new ↦ ok (a ∷ []) ]

abbrev pub weekly_of : AlertPreference → Snapshot → Option ℕ → Option Alert
weekly_of p s none = none
weekly_of p s (some week) = some (weekly_alert p s week)

abbrev pub decision_of :
    AlertPreference → Snapshot → Option AlertState → Option Decision → Option Alert
decision_of p s state none = none
decision_of p s state (some d) = some (decision_alert p s state d)

module _ (t : Table AlertState state_clash) (publish : Alert → Result Bool) where
  -- Prisma's upsert on the unique index.
  unfoldable pub upsert_state :
      ℕ → Snapshot → (AlertState → AlertState) → List AlertState → Option (List AlertState)
  upsert_state user s f states = elim (t.find_first (is_state_of user s.goal_id) states) [
    | none ↦ t.create (f (new_state user s)) states
    | some a ↦ some (t.update_many (is_state_of user s.goal_id) f states).0
  ]

  -- Each alert is published before the state advances, the weekly one first.
  unfoldable pub evaluate_goal :
      AlertPreference → (ℕ → LocalTime) → Snapshot → ℕ → List AlertState → Evaluated
  evaluate_goal p local s now states =
      let state = t.find_first (is_state_of p.user_id s.goal_id) states in
      let week = weekly_due p local state in
      let d = decide p s state now in
      elim (publish_some publish (weekly_of p s week)) [
        | err e ↦ record { result = err e; published = []; states = states }
        | ok first ↦ elim (publish_some publish (decision_of p s state d)) [
          | err e ↦ record { result = err e; published = first; states = states }
          | ok second ↦ elim (upsert_state p.user_id s (advance p s state week d now) states) [
            | none ↦ record { result = err internal; published = first ++ second; states = states }
            | some after ↦ record { result = ok tt; published = first ++ second; states = after }
          ]
        ]
      ]

  -- `stability` is the answer of the dashboard, `none` without an active goal.
  unfoldable pub evaluate_user :
      Option AlertPreference → (ℕ → LocalTime) → Option Snapshot → ℕ → List AlertState → Evaluated
  evaluate_user none local stability now states = record {
    result = ok tt;
    published = [];
    states = states;
  }
  evaluate_user (some p) local none now states = record {
    result = ok tt;
    published = [];
    states = states;
  }
  evaluate_user (some p) local (some s) now states =
      if not p.weekly_summary_enabled && not p.risk_alerts_enabled
      then record { result = ok tt; published = []; states = states }
      else evaluate_goal p local s now states
