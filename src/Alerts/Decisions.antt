-- ===== src/Alerts/Decisions.antt =====
-- When an alert about a risk or a recovery is due.
use stead.Prelude.{
  ℕ, ◌+◌, ◌≤◌, ◌<◌, ◌≡◌, ◌↔◌, ◌⊎◌, inl, inr, refl, true, false, Option, none, some, arith,
  Option-cases,
}
use stead.Alerts.{
  StabilityStatus, stable, warning, critical, severity, is_stable, AlertState, risk, recovery,
  risk_decision, cooling, worsened, recovered, notified_status, notified_score, risk_alerted,
}

-- Why a risk alert is due: nothing was notified before, the status is worse than the one notified,
-- or the score has dropped.
pub data Worse (status : StabilityStatus) (score : ℕ) (a : Option AlertState) : Type 0 where
  no_status : notified_status a ≡ none → Worse status score a
  no_score : notified_score a ≡ none → Worse status score a
  severer :
      (previous : StabilityStatus)
      → notified_status a ≡ some previous
      → severity previous < severity status
      → Worse status score a
  dropped : (last : ℕ) → notified_score a ≡ some last → score + 15 ≤ last → Worse status score a

worse :
    (status : StabilityStatus) (score : ℕ) (a : Option AlertState)
    → worsened status score (notified_status a) (notified_score a) ≡ some risk
    → Worse status score a
worse status score a e = elim (Option-cases (notified_status a)) [
  | inl nothing ↦ no_status nothing
  | inr (previous, before) ↦ elim (Option-cases (notified_score a)) [
    | inl nothing ↦ no_score nothing
    | inr (last, scored) ↦
        let reason : (severity previous < severity status) ⊎ (score + 15 ≤ last) = ground arith in
        elim reason [
          | inl more ↦ severer previous before more
          | inr less ↦ dropped last scored less
        ]
  ]
]

recovered_stable : (status : StabilityStatus) → is_stable status ≡ true → status ≡ stable
recovered_stable stable e = refl
recovered_stable warning e = absurd (ground arith)
recovered_stable critical e = absurd (ground arith)

recovered_from :
    (previous : Option StabilityStatus)
    → recovered previous ≡ some recovery
    → (previous ≡ some warning) ⊎ (previous ≡ some critical)
recovered_from none e = absurd (ground arith)
recovered_from (some stable) e = absurd (ground arith)
recovered_from (some warning) e = inl refl
recovered_from (some critical) e = inr refl

worsens :
    (status : StabilityStatus) (score : ℕ) (a : Option AlertState)
    → Worse status score a
    → worsened status score (notified_status a) (notified_score a) ≡ some risk
worsens status score a (no_status e) = ground arith
worsens status score a (no_score e) = elim (Option-cases (notified_status a)) [
  | inl nothing ↦ ground arith
  | inr (previous, before) ↦ ground arith
]
worsens status score a (severer previous e more) = elim (Option-cases (notified_score a)) [
  | inl nothing ↦ ground arith
  | inr (last, scored) ↦ ground arith
]
worsens status score a (dropped last e less) = elim (Option-cases (notified_status a)) [
  | inl nothing ↦ ground arith
  | inr (previous, before) ↦ ground arith
]

-- There was no risk alert, or the last one is 24 hours old.
pub data Rested (a : Option AlertState) (now : ℕ) : Type 0 where
  never : risk_alerted a ≡ none → Rested a now
  over : (last : ℕ) → risk_alerted a ≡ some last → last + 86_400_000 ≤ now → Rested a now

rested : (a : Option AlertState) (now : ℕ) → Rested a now → cooling (risk_alerted a) now ≡ false
rested a now (never e) = ground arith
rested a now (over last e old) = ground arith

cooled_down :
    (a : Option AlertState) (now : ℕ) → cooling (risk_alerted a) now ≡ false → Rested a now
cooled_down a now e = elim (Option-cases (risk_alerted a)) [
  | inl nothing ↦ never nothing
  | inr (last, dated) ↦ over last dated (ground arith)
]

-- A risk alert is due exactly for a status that is not stable, when the last one is 24 hours old or
-- there was none, with a reason: no notified status or score, a worse status than the notified one,
-- or a score that is 15 points lower.
pub risk_decision-Worse :
    (status : StabilityStatus) (score now : ℕ) (a : Option AlertState)
    → (risk_decision status score a now ≡ some risk)
      ↔ ((is_stable status ≡ false) × Rested a now × Worse status score a)
unfolding risk_decision
risk_decision-Worse status score now a = (
  λ e. (ground arith, cooled_down a now (ground arith), worse status score a (ground arith)),
  λ h. ground (arith, h.0, rested a now h.1, worsens status score a h.2),
)

-- A recovery alert is due exactly for a stable status after a notified warning or critical one.
pub risk_decision-recovery :
    (status : StabilityStatus) (score now : ℕ) (a : Option AlertState)
    → (risk_decision status score a now ≡ some recovery) ↔ (
        (status ≡ stable)
        × ((notified_status a ≡ some warning) ⊎ (notified_status a ≡ some critical)))
unfolding risk_decision
risk_decision-recovery status score now a = (
  λ e. (recovered_stable status (ground arith), recovered_from (notified_status a) (ground arith)),
  λ h. ground arith,
)
