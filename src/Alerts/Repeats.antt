-- ===== src/Alerts/Repeats.antt =====
-- What the next evaluation does not publish again.
use stead.Prelude.{
  ℕ, ◌+◌, ◌<◌, ◌≡◌, refl, ap, Bool, true, false, Option, none, some, get_or, List, All, any, arith,
  Bool-cases, inl, inr, Result, ok, err, Error,
}
use stead.Store.{Table}
use stead.Alerts.{AlertState, state_clash, risk_cooldown_ms, LocalTime}
use stead.Alerts.Evaluation.{
  AlertPreference, Snapshot, Alert, weekly_due, decide, new_state, evaluate_goal, evaluate_user,
  decided, is_baseline, summarised, observed,
}
use stead.Alerts.Cooldown.{Visit, after_visits, visits-Dated}
use stead.Alerts.Advance.{
  is_risk_alert, is_recovery_alert, is_weekly_alert, found_state, next_state, cooled, settled,
  advance_week, summed, evaluated_find, published_risk, published_recovery, published_weekly,
}

module _ (t : Table AlertState state_clash) (publish : Alert → Result Bool) where
  -- After an evaluation that succeeds and publishes a risk alert, no evaluation of the same goal
  -- within the next 24 hours publishes another, whatever evaluations of this goal and of others are
  -- made in those hours before it, and whatever the dashboards, the preferences and the clocks say.
  pub evaluate_goal_cooldown :
      (p p' : AlertPreference) (local local' : ℕ → LocalTime) (s s' : Snapshot) (now later : ℕ)
      (between : List Visit) (states : List AlertState)
      → (evaluate_goal t publish p local s now states).result ≡ ok tt
      → any is_risk_alert (evaluate_goal t publish p local s now states).published ≡ true
      → All (λ v. v.now < now + risk_cooldown_ms) between
      → p'.user_id ≡ p.user_id
      → s'.goal_id ≡ s.goal_id
      → later < now + risk_cooldown_ms
      → any is_risk_alert
          (evaluate_goal t publish p' local' s' later (
            after_visits t publish between
              (evaluate_goal t publish p local s now states).states)).published
        ≡ false
  evaluate_goal_cooldown p p' local local' s s' now later between states fine sent times user goal
        soon =
      let first = (evaluate_goal t publish p local s now states).states in
      let after = after_visits t publish between first in
      let kept = evaluated_find t publish p local s now states fine in
      let risky = published_risk t publish p local s now states sent in
      let dated =
        ap
          (λ d.
            (decided d (is_baseline p s (found_state p s states)) s now (
              summarised (weekly_due p local (found_state p s states)) now (
                observed s
                  (get_or (found_state p s states) (new_state p.user_id s))))).last_risk_alert_at)
          risky in
      let (a, here, still) =
        visits-Dated t publish between p.user_id s.goal_id now first
          (next_state p local s now states, kept, dated) times in
      elim (Bool-cases
        (any is_risk_alert (evaluate_goal t publish p' local' s' later after).published)) [
          | inr quiet ↦ quiet
          | inl again ↦
              let second = published_risk t publish p' local' s' later after again in
              absurd (cooled p p' s s' now later first after a here still user goal soon second)
        ]

  -- After an evaluation that succeeds and publishes a recovery alert, the next evaluation of the goal
  -- publishes no second one.
  pub evaluate_goal_recovered :
      (p p' : AlertPreference) (local local' : ℕ → LocalTime) (s s' : Snapshot) (now later : ℕ)
      (states : List AlertState)
      → (evaluate_goal t publish p local s now states).result ≡ ok tt
      → any is_recovery_alert (evaluate_goal t publish p local s now states).published ≡ true
      → p'.user_id ≡ p.user_id
      → s'.goal_id ≡ s.goal_id
      → any is_recovery_alert
          (evaluate_goal t publish p' local' s' later
            (evaluate_goal t publish p local s now states).states).published
        ≡ false
  evaluate_goal_recovered p p' local local' s s' now later states fine sent user goal =
      let after = (evaluate_goal t publish p local s now states).states in
      let kept = evaluated_find t publish p local s now states fine in
      let first = published_recovery t publish p local s now states sent in
      let status =
        ap
          (λ d.
            (decided d (is_baseline p s (found_state p s states)) s now (
              summarised (weekly_due p local (found_state p s states)) now (
                observed s
                  (get_or (found_state p s states) (new_state p.user_id s))))).last_notified_status)
          first in
      elim (Bool-cases
        (any is_recovery_alert (evaluate_goal t publish p' local' s' later after).published)) [
          | inr quiet ↦ quiet
          | inl again ↦
              let second = published_recovery t publish p' local' s' later after again in
              absurd (
                settled p p' s s' now later states after (next_state p local s now states) first
                  kept status user goal second)
        ]

  -- After an evaluation that succeeds and publishes the summary of a week, no evaluation of the goal
  -- in the same week publishes a summary.
  pub evaluate_goal_weekly :
      (p p' : AlertPreference) (local local' : ℕ → LocalTime) (s s' : Snapshot) (now later : ℕ)
      (states : List AlertState)
      → (evaluate_goal t publish p local s now states).result ≡ ok tt
      → any is_weekly_alert (evaluate_goal t publish p local s now states).published ≡ true
      → p'.user_id ≡ p.user_id
      → s'.goal_id ≡ s.goal_id
      → (local' p'.time_zone).week_start ≡ (local p.time_zone).week_start
      → any is_weekly_alert
          (evaluate_goal t publish p' local' s' later
            (evaluate_goal t publish p local s now states).states).published
        ≡ false
  evaluate_goal_weekly p p' local local' s s' now later states fine sent user goal week =
      let after = (evaluate_goal t publish p local s now states).states in
      let kept = evaluated_find t publish p local s now states fine in
      let first = published_weekly t publish p local s now states sent in
      let seen =
        advance_week p s (found_state p s states) (decide p s (found_state p s states) now) now
          (local p.time_zone).week_start
          (get_or (found_state p s states) (new_state p.user_id s)) in
      let seen : (next_state p local s now states).last_weekly_summary_key
          ≡ some (local p.time_zone).week_start =
        rw first seen in
      elim (Bool-cases
        (any is_weekly_alert (evaluate_goal t publish p' local' s' later after).published)) [
          | inr quiet ↦ quiet
          | inl again ↦
              let second = published_weekly t publish p' local' s' later after again in
              absurd (
                summed p p' local local' s s' after (next_state p local s now states) kept seen user
                  goal week second)
        ]

  -- An evaluation that fails, at whichever alert, leaves the states as they were, so the next one
  -- decides the same way.
  pub evaluate_user_error :
      (pref : Option AlertPreference) (local : ℕ → LocalTime) (stability : Option Snapshot)
      (now : ℕ) (states : List AlertState) (x : Error)
      → (evaluate_user t publish pref local stability now states).result ≡ err x
      → (evaluate_user t publish pref local stability now states).states ≡ states
  unfolding evaluate_user evaluate_goal
  evaluate_user_error none local stability now states x e = refl
  evaluate_user_error (some p) local none now states x e = refl
  evaluate_user_error (some p) local (some s) now states x e = ground arith
