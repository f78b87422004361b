-- ===== src/Notifications/Enqueue.antt =====
-- What enqueues jobs: `enqueueOtpRequested`, `isOtpRequestEnqueued`, `adoptLegacyOtpRequest` and
-- `enqueueReadinessAlert`.
use stead.Prelude.{
  ℕ, ◌==◌, leb, Bool, true, false, ◌&&◌, Option, none, some, List, is_none, some_eq, Result, ok,
  err, internal, if◌then◌else◌,
}
use stead.Notifications.{
  pending, JobType, otp_requested, Payload, PayloadJson, JobRow, Queue, Tables, Cipher,
  encrypt_payload,
}

-- An OTP delivery: the new row's identifier, initialisation vector, correlation and time come with it.
pub record OtpRequest : Type 0 where
  pub payload : Payload
  pub user_id : Option ℕ
  pub otp_code_id : ℕ
  pub dedupe_key : ℕ
  pub new_id : ℕ
  pub iv : ℕ
  pub correlation_id : ℕ
  pub now : ℕ

pub record AlertRequest : Type 0 where
  pub type : JobType
  pub payload : Payload
  pub user_id : ℕ
  pub goal_id : ℕ
  pub dedupe_key : ℕ
  pub new_id : ℕ
  pub iv : ℕ
  pub correlation_id : ℕ
  pub now : ℕ

pub record LegacyRequest : Type 0 where
  pub user_id : ℕ
  pub otp_code_id : ℕ
  pub dedupe_key : ℕ
  pub requested_at : ℕ
  pub expires_at : ℕ
  pub correlation_id : ℕ

abbrev pub max_attempts : ℕ
max_attempts = 3

abbrev pub otp_job : OtpRequest → PayloadJson → JobRow
otp_job r payload = record {
  id = r.new_id;
  type = otp_requested;
  payload_json = payload;
  status = pending;
  attempts = 0;
  max_attempts = max_attempts;
  next_run_at = r.now;
  locked_at = none;
  sent_at = none;
  failed_at = none;
  last_error = none;
  provider = none;
  provider_message_id = none;
  correlation_id = r.correlation_id;
  user_id = r.user_id;
  otp_code_id = some r.otp_code_id;
  goal_id = none;
  dedupe_key = some r.dedupe_key;
  created_at = r.now;
}

abbrev pub alert_job : AlertRequest → PayloadJson → JobRow
alert_job r payload = record {
  id = r.new_id;
  type = r.type;
  payload_json = payload;
  status = pending;
  attempts = 0;
  max_attempts = max_attempts;
  next_run_at = r.now;
  locked_at = none;
  sent_at = none;
  failed_at = none;
  last_error = none;
  provider = none;
  provider_message_id = none;
  correlation_id = r.correlation_id;
  user_id = some r.user_id;
  otp_code_id = none;
  goal_id = some r.goal_id;
  dedupe_key = some r.dedupe_key;
  created_at = r.now;
}

abbrev pub is_otp_job : JobType → Bool
is_otp_job otp_requested = true
is_otp_job _ = false

abbrev pub has_dedupe_key : ℕ → JobRow → Bool
has_dedupe_key k j = some_eq j.dedupe_key k

-- A job of the user from before jobs were linked to codes.
abbrev pub is_legacy : ℕ → JobRow → Bool
is_legacy user j =
    is_otp_job j.type && some_eq j.user_id user && is_none j.otp_code_id && is_none j.dedupe_key

abbrev pub is_legacy_for : LegacyRequest → JobRow → Bool
is_legacy_for r j =
    is_legacy r.user_id j && leb r.requested_at j.created_at && leb j.created_at r.expires_at

abbrev pub adopt : LegacyRequest → JobRow → JobRow
adopt r j = record j {
  otp_code_id = some r.otp_code_id;
  dedupe_key = some r.dedupe_key;
  correlation_id = r.correlation_id;
}

abbrev pub serves : ℕ → JobRow → Bool
serves code j = is_otp_job j.type && some_eq j.otp_code_id code

module _ (t : Tables) (c : Cipher) where
  -- The job that a clash on the dedupe key leads to.
  existing_id : OtpRequest → List JobRow → Result ℕ
  existing_id r jobs = elim (t.jobs.find_first (has_dedupe_key r.dedupe_key) jobs) [
    | none ↦ err internal
    | some j ↦ if serves r.otp_code_id j then ok j.id else err internal
  ]

  unfoldable pub enqueue_otp_requested : OtpRequest → Queue → Result ℕ × Queue
  unfolding existing_id
  enqueue_otp_requested r q = elim (encrypt_payload c r.iv r.payload) [
    | err e ↦ (err e, q)
    | ok payload ↦ elim (t.jobs.create (otp_job r payload) q.jobs) [
      | some jobs ↦ (ok r.new_id, record q { jobs = jobs })
      | none ↦ (existing_id r q.jobs, q)
    ]
  ]

  unfoldable pub enqueue_readiness_alert : AlertRequest → Queue → Result Bool × Queue
  enqueue_readiness_alert r q = elim (encrypt_payload c r.iv r.payload) [
    | err e ↦ (err e, q)
    | ok payload ↦ elim (t.jobs.create (alert_job r payload) q.jobs) [
      | some jobs ↦ (ok true, record q { jobs = jobs })
      | none ↦ (ok false, q)
    ]
  ]

module _ (t : Tables) where
  unfoldable pub is_otp_request_enqueued : ℕ → ℕ → List JobRow → Bool
  is_otp_request_enqueued key code jobs = elim (t.jobs.find_first (has_dedupe_key key) jobs) [
    | none ↦ false
    | some j ↦ serves code j
  ]

  -- The update gives nothing where the row is gone or the new keys clash.
  unfoldable pub adopt_legacy_otp_request : LegacyRequest → Queue → Bool × Queue
  adopt_legacy_otp_request r q =
      elim (t.jobs.find_oldest (is_legacy_for r) (λ j. j.created_at) q.jobs) [
        | none ↦ (false, q)
        | some legacy ↦
            elim (t.jobs.update (λ j. j.id == legacy.id && is_legacy r.user_id j) (adopt r)
              q.jobs) [
                | some (adopted, jobs) ↦ (true, record q { jobs = jobs })
                | none ↦ (is_otp_request_enqueued r.dedupe_key r.otp_code_id q.jobs, q)
              ]
      ]
