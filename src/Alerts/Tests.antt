-- ===== src/Alerts/Tests.antt =====
-- Runs of the alerts, and their theorems at concrete states.
use stead.Prelude.{
  List, ℕ, ◌≡◌, ◌⊎◌, ◌↔◌, refl, Bool, true, false, none, some, [], ◌∷◌, any, arith, Result, ok, err,
  service_unavailable,
}
use stead.Store.{Table}
use stead.Store.Memory.{memory}
use stead.Alerts.{
  stable, warning, critical, AlertState, state_clash, risk, recovery, risk_decision, is_stable,
  LocalTime, is_due, notified_status,
}
use stead.Alerts.Evaluation.{
  AlertPreference, Snapshot, Alert, evaluate_goal, evaluate_user, weekly_due, decide, upsert_state,
}
use stead.Alerts.Decisions.{Worse, Rested, risk_decision-Worse, risk_decision-recovery}
use stead.Alerts.Cooldown.{Visit, after_visits}
use stead.Alerts.Advance.{is_risk_alert, is_recovery_alert, is_weekly_alert}
use stead.Alerts.Repeats.{
  evaluate_goal_cooldown, evaluate_goal_recovered, evaluate_goal_weekly, evaluate_user_error,
}

abbrev states_table : Table AlertState state_clash
states_table = memory state_clash

abbrev accepts : Alert → Result Bool
accepts a = ok true

abbrev refuses : Alert → Result Bool
refuses a = err service_unavailable

abbrev preference : AlertPreference
preference = record {
  user_id = 7;
  phone = 555;
  weekly_summary_enabled = true;
  risk_alerts_enabled = true;
  time_zone = 1;
  weekly_day = 1;
  weekly_hour_local = 9;
}

-- A Tuesday at ten.
abbrev tuesday : ℕ → LocalTime
tuesday zone = record { day = 2; hour = 10; week_start = 20000 }

abbrev at_risk : Snapshot
at_risk = record {
  goal_id = 3;
  goal_name = 8;
  readiness_pct = 40;
  pace = 100;
  status = warning;
  score = 50;
}

abbrev worse_risk : Snapshot
worse_risk = record at_risk { status = critical; score = 20 }

abbrev safe : Snapshot
safe = record at_risk { status = stable; score = 80 }

abbrev warned : AlertState
warned = record {
  user_id = 7;
  goal_id = 3;
  last_observed_status = warning;
  last_observed_score = 50;
  last_notified_status = some warning;
  last_notified_score = some 50;
  last_risk_alert_at = some 100;
  last_recovery_alert_at = none;
  last_weekly_summary_at = some 100;
  last_weekly_summary_key = some 20000;
}

decides : risk_decision critical 48 (some warned) 86_400_100 ≡ some risk
unfolding risk_decision
decides = refl

risk_decision-Worse_example : (risk_decision critical 48 (some warned) 86_400_100 ≡ some risk) ↔ (
    (is_stable critical ≡ false)
    × Rested (some warned) 86_400_100
    × Worse critical 48 (some warned))
risk_decision-Worse_example = risk_decision-Worse critical 48 86_400_100 (some warned)

risk_decision-recovery_example : (risk_decision stable 80 (some warned) 200 ≡ some recovery) ↔ (
    (stable ≡ stable)
    × ((notified_status (some warned) ≡ some warning)
        ⊎ (notified_status (some warned) ≡ some critical)))
risk_decision-recovery_example = risk_decision-recovery stable 80 200 (some warned)

first_fine : (evaluate_goal states_table accepts preference tuesday at_risk 100 []).result ≡ ok tt
unfolding evaluate_goal upsert_state weekly_due decide risk_decision is_due memory
first_fine = refl

first_risk :
    any is_risk_alert
      (evaluate_goal states_table accepts preference tuesday at_risk 100 []).published
    ≡ true
unfolding evaluate_goal upsert_state weekly_due decide risk_decision is_due memory
first_risk = refl

first_weekly :
    any is_weekly_alert
      (evaluate_goal states_table accepts preference tuesday at_risk 100 []).published
    ≡ true
unfolding evaluate_goal upsert_state weekly_due decide risk_decision is_due memory
first_weekly = refl

first_state :
    (evaluate_goal states_table accepts preference tuesday at_risk 100 []).states ≡ warned ∷ []
unfolding evaluate_goal upsert_state weekly_due decide risk_decision is_due memory
first_state = refl

-- The goal recovers in between.
abbrev recovery_visit : List Visit
recovery_visit =
    record { preference = preference; local = tuesday; snapshot = safe; now = 3000 } ∷ []

evaluate_goal_cooldown_example :
    any is_risk_alert
      (evaluate_goal states_table accepts preference tuesday worse_risk 5000 (
        after_visits states_table accepts recovery_visit
          (evaluate_goal states_table accepts preference tuesday at_risk 100 []).states)).published
    ≡ false
evaluate_goal_cooldown_example =
    evaluate_goal_cooldown states_table accepts preference preference tuesday tuesday at_risk
      worse_risk 100 5000 recovery_visit [] first_fine first_risk (omega arith, tt) refl refl
      (omega arith)

evaluate_goal_weekly_example :
    any is_weekly_alert
      (evaluate_goal states_table accepts preference tuesday safe 5000
        (evaluate_goal states_table accepts preference tuesday at_risk 100 []).states).published
    ≡ false
evaluate_goal_weekly_example =
    evaluate_goal_weekly states_table accepts preference preference tuesday tuesday at_risk safe 100
      5000 [] first_fine first_weekly refl refl refl

recovers_fine :
    (evaluate_goal states_table accepts preference tuesday safe 200 (warned ∷ [])).result ≡ ok tt
unfolding evaluate_goal upsert_state weekly_due decide risk_decision is_due memory
recovers_fine = refl

recovers :
    any is_recovery_alert
      (evaluate_goal states_table accepts preference tuesday safe 200 (warned ∷ [])).published
    ≡ true
unfolding evaluate_goal upsert_state weekly_due decide risk_decision is_due memory
recovers = refl

evaluate_goal_recovered_example :
    any is_recovery_alert
      (evaluate_goal states_table accepts preference tuesday safe 300
        (evaluate_goal states_table accepts preference tuesday safe 200
          (warned ∷ [])).states).published
    ≡ false
evaluate_goal_recovered_example =
    evaluate_goal_recovered states_table accepts preference preference tuesday tuesday safe safe 200
      300 (warned ∷ []) recovers_fine recovers refl refl

fails :
    (evaluate_user states_table refuses
      (some preference)
      tuesday
      (some safe)
      200
      (warned ∷ [])).result
    ≡ err service_unavailable
unfolding evaluate_user evaluate_goal upsert_state weekly_due decide risk_decision is_due memory
fails = refl

evaluate_user_error_example :
    (evaluate_user states_table refuses
      (some preference)
      tuesday
      (some safe)
      200
      (warned ∷ [])).states
    ≡ warned ∷ []
evaluate_user_error_example =
    evaluate_user_error states_table refuses (some preference) tuesday (some safe) 200 (warned ∷ [])
      service_unavailable fails
