-- ===== src/Notifications/Requests.antt =====
-- What the requests to the queue keep of its rows.
use stead.Prelude.{
  ◌==◌, refl, not, ◌&&◌, [], ◌∷◌, arith, Option-cases, Result-cases, inl, inr, All-modify,
  All-append,
}
use stead.Notifications.{
  JobRow, PayloadJson, Queue, Tables, Cipher, is_terminal, is_redacted, encrypt_payload, redact,
}
use stead.Notifications.Enqueue.{
  OtpRequest, AlertRequest, LegacyRequest, otp_job, alert_job, adopt, is_legacy, is_legacy_for,
  enqueue_otp_requested, enqueue_readiness_alert, adopt_legacy_otp_request,
}
use stead.Notifications.Delivery.{redact_terminal_payloads}
use stead.Notifications.Invariant.{Sound, Inv, redacted-Sound, adopt-Sound}

module _ (t : Tables) (c : Cipher) where
  enqueued_otp-Sound : (r : OtpRequest) (payload : PayloadJson) → Sound (otp_job r payload)
  enqueued_otp-Sound r payload = record {
    limit = refl;
    attempts = omega arith;
    left = refl;
    secret = refl;
  }

  enqueued_alert-Sound : (r : AlertRequest) (payload : PayloadJson) → Sound (alert_job r payload)
  enqueued_alert-Sound r payload = record {
    limit = refl;
    attempts = omega arith;
    left = refl;
    secret = refl;
  }

  pub enqueue_otp_requested-Inv :
      (r : OtpRequest) (q : Queue) → Inv q → Inv (enqueue_otp_requested t c r q).1
  unfolding enqueue_otp_requested
  enqueue_otp_requested-Inv r q h = elim (Result-cases (encrypt_payload c r.iv r.payload)) [
    | inr (x, e) ↦ ground arith
    | inl (payload, e) ↦
        let law = t.jobs.create_lem (otp_job r payload) q.jobs in
        let all =
          All-append Sound q.jobs (otp_job r payload ∷ []) h (enqueued_otp-Sound r payload, tt) in
        ground (arith, law, all)
  ]

  enqueue_readiness_alert-Inv :
      (r : AlertRequest) (q : Queue) → Inv q → Inv (enqueue_readiness_alert t c r q).1
  unfolding enqueue_readiness_alert
  enqueue_readiness_alert-Inv r q h = elim (Result-cases (encrypt_payload c r.iv r.payload)) [
    | inr (x, e) ↦ ground arith
    | inl (payload, e) ↦
        let law = t.jobs.create_lem (alert_job r payload) q.jobs in
        let all =
          All-append Sound q.jobs (alert_job r payload ∷ []) h
            (enqueued_alert-Sound r payload, tt) in
        ground (arith, law, all)
  ]

  adopt_legacy_otp_request-Inv :
      (r : LegacyRequest) (q : Queue) → Inv q → Inv (adopt_legacy_otp_request t r q).1
  unfolding adopt_legacy_otp_request
  adopt_legacy_otp_request-Inv r q h =
      elim (Option-cases (t.jobs.find_oldest (is_legacy_for r) (λ j. j.created_at) q.jobs)) [
        | inl nothing ↦ ground arith
        | inr (legacy, e) ↦
            let law =
              t.jobs.update_lem (λ j. j.id == legacy.id && is_legacy r.user_id j) (adopt r)
                q.jobs in
            let all =
              All-modify Sound (λ j. j.id == legacy.id && is_legacy r.user_id j) (adopt r)
                (adopt-Sound r) q.jobs h in
            ground (arith, law, all)
      ]

  redact_terminal_payloads-Inv : (q : Queue) → Inv q → Inv (redact_terminal_payloads t c q)
  unfolding redact_terminal_payloads
  redact_terminal_payloads-Inv q h =
      let p = λ (j : JobRow). is_terminal j.status && not (is_redacted j.payload_json) in
      let law = t.jobs.update_many_lem p redact q.jobs in
      let all = All-modify Sound p redact redacted-Sound q.jobs h in ground (arith, law, all)

  -- What the service offers beside a poll keeps the rows sound too: new jobs of both kinds, the
  -- adoption of an old job, and the redaction of finished ones.
  pub queue-Inv :
      (q : Queue)
      → Inv q
      → ((r : OtpRequest) → Inv (enqueue_otp_requested t c r q).1)
        × ((r : AlertRequest) → Inv (enqueue_readiness_alert t c r q).1)
        × ((r : LegacyRequest) → Inv (adopt_legacy_otp_request t r q).1)
        × Inv (redact_terminal_payloads t c q)
  queue-Inv q h = (
    λ r. enqueue_otp_requested-Inv r q h,
    λ r. enqueue_readiness_alert-Inv r q h,
    λ r. adopt_legacy_otp_request-Inv r q h,
    redact_terminal_payloads-Inv q h,
  )
