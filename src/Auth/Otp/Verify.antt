-- ===== src/Auth/Otp/Verify.antt =====
-- The handler `verifyOtp` of auth.service.ts: limits, the choice of the code, and its outcome.
use stead.Prelude.{
  ℕ, ◌+◌, ◌==◌, leb, Bool, ◌&&◌, Option, none, some, some_eq, Result, ok, err, bad_request,
  too_many_requests, if◌then◌else◌,
}
use stead.Auth.Sessions.{Session}
use stead.Auth.Otp.{
  User, OtpCode, otp_verify_failed, otp_verify_locked, AuthEvent, Db, Tables, Crypto, Limits,
  Verification, is_failure, is_unconsumed, is_live_code, consume, has_code_id, event_of, missed,
  record_event, replay_otp_verification, issue_rows,
}

module _ (t : Tables) (c : Crypto) (l : Limits) where
  -- `countRecentEvents` of failures since the start of the window.
  failures : (AuthEvent → Bool) → Verification → Db → ℕ
  failures from q db =
      t.events.count_where
        (λ e. is_failure e.kind && leb q.now (e.created_at + l.failure_window_ms) && from e)
        db.events

  -- Whether a limit on a network address or a device is reached, with the failures counted.
  unfoldable pub limited : Option ℕ → ℕ → (AuthEvent → Option ℕ) → Verification → Db → Option ℕ
  unfolding failures
  limited none limit field q db = none
  limited (some source) limit field q db =
      let n = failures (λ e. some_eq (field e) source) q db in if leb limit n then some n else none

  -- A transaction that throws is undone; a stored response of the same key is returned instead.
  unfoldable pub issue_verified_session : Verification → User → OtpCode → Db → Result Session × Db
  issue_verified_session q user code db = elim (issue_rows t c l q user code db) [
    | ok (session, after) ↦ (ok session, after)
    | err e ↦ elim (replay_otp_verification t c l q db) [
      | ok (some session) ↦ (ok session, db)
      | ok none ↦ (err e, db)
      | err f ↦ (err f, db)
    ]
  ]

  -- A code that does not match.
  unfoldable pub wrong_code : Verification → User → OtpCode → Db → Result Session × Db
  wrong_code q user code db =
      let attempts = code.verify_attempts + 1 in
      let otps = (t.otps.update_many (has_code_id code.id) (missed l attempts q.now) db.otps).0 in
      if leb l.max_verify_attempts attempts
      then (
        err too_many_requests,
        record_event t c l
            (event_of q otp_verify_locked (some user.id) (some code.id) (some attempts))
            (record db {
              otps = (t.otps.update_many (is_unconsumed user.id) (consume q.now) otps).0;
            }),
      )
      else (
        err bad_request,
        record_event t c l
            (event_of q otp_verify_failed (some user.id) (some code.id) (some attempts))
            (record db { otps = otps }),
      )

  -- The latest live code of the user decides.
  unfoldable pub judge : Verification → User → OtpCode → Db → Result Session × Db
  judge q user code db =
      if leb l.max_verify_attempts code.verify_attempts
      then (
        err too_many_requests,
        record_event t c l
            (event_of q otp_verify_locked (some user.id) (some code.id) (some code.verify_attempts))
            db,
      )
      else if c.compare q.otp code.code_hash
      then issue_verified_session q user code db
      else wrong_code q user code db

  unfoldable pub settle_replay : Result (Option Session) → Db → Result Session × Db
  settle_replay (ok (some session)) db = (ok session, db)
  settle_replay (ok none) db = (err bad_request, db)
  settle_replay (err e) db = (err e, db)

  unfoldable pub find_and_judge : Verification → Db → Result Session × Db
  find_and_judge q db = elim (t.users.find_first (λ u. u.phone == q.phone) db.users) [
    | none ↦ (err bad_request, db)
    | some user ↦
        elim (t.otps.find_latest (is_live_code user.id q.now) (λ o. o.created_at) db.otps) [
          | none ↦ settle_replay (replay_otp_verification t c l q db) db
          | some code ↦ judge q user code db
        ]
  ]

  refuse_limited : Verification → ℕ → Db → Result Session × Db
  refuse_limited q n db = (
    err too_many_requests,
    record_event t c l (event_of q otp_verify_locked none none (some n)) db,
  )

  -- The limits come before the user is looked up.
  unfoldable pub attempt : Verification → Db → Result Session × Db
  unfolding refuse_limited
  attempt q db = elim (limited q.ip l.failures_per_ip (λ e. e.ip) q db) [
    | some n ↦ refuse_limited q n db
    | none ↦ elim (limited q.device l.failures_per_device (λ e. e.device_hash) q db) [
      | some n ↦ refuse_limited q n db
      | none ↦ find_and_judge q db
    ]
  ]

  -- `others` is what other requests do between the first lookup of the key and the attempt.
  unfoldable pub verify_otp : (Db → Db) → Result Verification → Db → Result Session × Db
  verify_otp others (err e) db = (err e, db)
  verify_otp others (ok q) db = elim (replay_otp_verification t c l q db) [
    | err e ↦ (err e, db)
    | ok (some session) ↦ (ok session, db)
    | ok none ↦ attempt q (others db)
  ]
