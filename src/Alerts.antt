-- ===== src/Alerts.antt =====
-- Readiness alerts: alert-rules.ts and alerts.service.ts of api/src/alerts.
pub mod Evaluation
pub mod Decisions
pub mod Advance
pub mod Cooldown
pub mod Repeats
mod Tests
use stead.Prelude.{
  ℕ, ◌+◌, ◌==◌, String, leb, ltb, Bool, true, false, not, ◌&&◌, ◌||◌, Option, none, some, is_some,
  or_else, some_eq, if◌then◌else◌,
}

-- dashboard/engine.ts
pub data StabilityStatus : Type 0 where
  stable warning critical : StabilityStatus

abbrev pub severity : StabilityStatus → ℕ
severity stable = 0
severity warning = 1
severity critical = 2

abbrev pub is_stable : StabilityStatus → Bool
is_stable stable = true
is_stable _ = false

pub record AlertState : Type 0 where
  pub user_id : ℕ
  pub goal_id : ℕ
  pub last_observed_status : StabilityStatus
  pub last_observed_score : ℕ
  pub last_notified_status : Option StabilityStatus
  pub last_notified_score : Option ℕ
  pub last_risk_alert_at : Option ℕ
  pub last_recovery_alert_at : Option ℕ
  pub last_weekly_summary_at : Option ℕ
  pub last_weekly_summary_key : Option ℕ

-- The unique index on userId and goalId.
abbrev pub state_clash : AlertState → AlertState → Bool
state_clash a b = a.user_id == b.user_id && a.goal_id == b.goal_id

pub data Decision : Type 0 where
  risk recovery : Decision

abbrev pub risk_score_drop : ℕ
risk_score_drop = 15

abbrev pub risk_cooldown_ms : ℕ
risk_cooldown_ms = 86_400_000

abbrev pub cooling : Option ℕ → ℕ → Bool
cooling none now = false
cooling (some last) now = ltb now (last + risk_cooldown_ms)

-- The decision for a status that is not stable, outside the cooldown.
abbrev pub worsened : StabilityStatus → ℕ → Option StabilityStatus → Option ℕ → Option Decision
worsened status score none last = some risk
worsened status score (some previous) none = some risk
worsened status score (some previous) (some last) =
    if ltb (severity previous) (severity status)
    then some risk
    else if leb (score + risk_score_drop) last
    then some risk
    else none

abbrev pub recovered : Option StabilityStatus → Option Decision
recovered none = none
recovered (some stable) = none
recovered (some _) = some recovery

abbrev pub notified_status : Option AlertState → Option StabilityStatus
notified_status none = none
notified_status (some s) = s.last_notified_status

abbrev pub notified_score : Option AlertState → Option ℕ
notified_score none = none
notified_score (some s) = s.last_notified_score

abbrev pub risk_alerted : Option AlertState → Option ℕ
risk_alerted none = none
risk_alerted (some s) = s.last_risk_alert_at

abbrev pub recovery_alerted : Option AlertState → Option ℕ
recovery_alerted none = none
recovery_alerted (some s) = s.last_recovery_alert_at

unfoldable pub risk_decision : StabilityStatus → ℕ → Option AlertState → ℕ → Option Decision
risk_decision status score baseline now =
    if is_stable status
    then recovered (notified_status baseline)
    else if cooling (risk_alerted baseline) now
    then none
    else worsened status score (notified_status baseline) (notified_score baseline)

-- The parts of the text that identifies an occurrence, where the anchor is `none` for `initial`.
pub data DedupeKey : Type 0 where
  weekly_key : (user goal week : ℕ) → DedupeKey
  occurrence_key :
      (kind : Decision) (user goal : ℕ) (anchor : Option ℕ) (previous : Option StabilityStatus)
      (previous_score : Option ℕ) (status : StabilityStatus) (score : ℕ)
      → DedupeKey

unfoldable pub alert_occurrence_key :
    Decision → ℕ → ℕ → Option AlertState → StabilityStatus → ℕ → DedupeKey
alert_occurrence_key risk user goal state status score =
    occurrence_key risk user goal (or_else (recovery_alerted state) (risk_alerted state))
      (notified_status state) (notified_score state) status score
alert_occurrence_key recovery user goal state status score =
    occurrence_key recovery user goal (or_else (risk_alerted state) (recovery_alerted state))
      (notified_status state) (notified_score state) status score

-- What `Intl.DateTimeFormat` says of a time in a time zone: the day of the week from Sunday, the
-- hour, and the date that the week started on.
pub record LocalTime : Type 0 where
  pub day : ℕ
  pub hour : ℕ
  pub week_start : ℕ

unfoldable pub is_due : LocalTime → ℕ → ℕ → Bool
is_due local day hour = ltb day local.day || local.day == day && leb hour local.hour
