-- ===== src/Auth/Request.antt =====
-- The requests for one-time codes: `requestOtp` and `replayOtpRequest` of auth.service.ts, with the
-- publisher of api/src/notifications that they call.
pub mod Replay
pub mod Handler
pub mod Answered
pub mod Idempotent
pub mod Recovery
pub mod Verified
mod Tests
use stead.Prelude.{
  ℕ, ◌+◌, ◌==◌, ◌≡◌, leb, ltb, Bool, true, false, not, ◌&&◌, ◌||◌, Option, none, some, List, [],
  ◌∷◌, any, is_none, is_some, some_eq, Result, ok, err, Error, bad_request, conflict, internal,
  too_many_requests, service_unavailable, ◌>>=◌, ◌>>◌, require, guard, if◌then◌else◌,
}
use stead.Auth.Otp.{
  User, OtpCode, EventType, otp_requested, otp_request_rate_limited, otp_resend_blocked, AuthEvent,
  Db, Crypto, Limits, phone_of, has_code_id,
}
use stead.Auth.Otp
use stead.Notifications.{JobRow, Payload, otp, Queue, Cipher}
use stead.Notifications
use stead.Notifications.Enqueue.{
  OtpRequest, LegacyRequest, enqueue_otp_requested, is_otp_request_enqueued,
  adopt_legacy_otp_request,
}

-- `dedupe_key` is otpNotificationDedupeKey, `expose_otp` the setting DEV_EXPOSE_OTP.
pub record RequestSettings : Type 0 where
  pub per_hour : ℕ
  pub per_ip_per_hour : ℕ
  pub per_device_per_hour : ℕ
  pub cooldown_ms : ℕ
  pub expose_otp : Bool
  pub dedupe_key : ℕ → ℕ

-- OTP_REQUEST_PROCESSING_TIMEOUT_MS, an hour, and the life of a code
abbrev pub processing_timeout_ms : ℕ
processing_timeout_ms = 30_000

abbrev pub hour_ms : ℕ
hour_ms = 3_600_000

abbrev pub code_life_ms : ℕ
code_life_ms = 600_000

-- A request whose country, phone number and idempotency key passed their checks,
-- with what the server makes for it: identifiers, the code and its hash, and whether the database
-- takes the event of the request.
pub record CodeRequest : Type 0 where
  pub phone : ℕ
  pub ip : Option ℕ
  pub device : Option ℕ
  -- what is thrown where the device header does not pass its check
  pub device_error : Option Error
  pub key_hash : ℕ
  pub now : ℕ
  pub new_user : ℕ
  pub new_code : ℕ
  pub otp : ℕ
  pub code_hash : ℕ
  pub event_stored : Bool
  pub job_id : ℕ
  pub iv : ℕ
  pub correlation_id : ℕ

-- `ok: true`, with the code where it is exposed.
pub record Response : Type 0 where
  pub otp : Option ℕ

pub record World : Type 0 where
  pub db : Db
  pub queue : Queue

pub record Stores : Type 0 where
  pub auth : Otp.Tables
  pub jobs : Notifications.Tables

abbrev pub build_otp_request_response : RequestSettings → Option ℕ → Response
build_otp_request_response s development_otp = record {
  otp = if s.expose_otp then development_otp else none;
}

abbrev pub has_request_key : ℕ → OtpCode → Bool
has_request_key k o = o.request_key_hash == k

abbrev pub complete_request : ℕ → OtpCode → OtpCode
complete_request now o = record o { request_completed_at = some now }

abbrev pub is_incomplete : ℕ → OtpCode → Bool
is_incomplete id o = o.id == id && is_none o.request_completed_at

-- An incomplete request that is not processed any more.
abbrev pub is_abandoned : ℕ → ℕ → OtpCode → Bool
is_abandoned id now o = is_incomplete id o && leb (o.created_at + processing_timeout_ms) now

-- The foreign key of a job forbids the deletion of its code; the one of an event is set to null.
abbrev pub is_job_of_any : List OtpCode → JobRow → Bool
is_job_of_any codes j = any (λ o. some_eq j.otp_code_id o.id) codes

abbrev pub is_event_of_any : List OtpCode → AuthEvent → Bool
is_event_of_any codes e = any (λ o. some_eq e.otp_code_id o.id) codes

abbrev pub without_code : AuthEvent → AuthEvent
without_code e = record e { otp_code_id = none }

abbrev pub request_event : CodeRequest → EventType → Option ℕ → Option ℕ → AuthEvent
request_event q kind user code = record {
  kind = kind;
  phone = q.phone;
  ip = q.ip;
  device_hash = q.device;
  user_id = user;
  otp_code_id = code;
  attempt_number = none;
  created_at = q.now;
}

abbrev pub is_request : EventType → Bool
is_request otp_requested = true
is_request _ = false

abbrev pub new_code_row : RequestSettings → CodeRequest → ℕ → OtpCode
new_code_row s q user = record {
  id = q.new_code;
  user_id = user;
  code_hash = q.code_hash;
  request_key_hash = q.key_hash;
  request_completed_at = none;
  development_otp = if s.expose_otp then some q.otp else none;
  verification_key_hash = none;
  verification_request_hash = none;
  verification_response = none;
  verified_at = none;
  verify_attempts = 0;
  expires_at = q.now + code_life_ms;
  consumed_at = none;
  created_at = q.now;
}

abbrev pub publication : RequestSettings → CodeRequest → ℕ → OtpRequest
publication s q user = record {
  payload = record { phone = q.phone; content = otp q.otp };
  user_id = some user;
  otp_code_id = q.new_code;
  dedupe_key = s.dedupe_key q.key_hash;
  new_id = q.job_id;
  iv = q.iv;
  correlation_id = q.correlation_id;
  now = q.now;
}

abbrev pub legacy_request : RequestSettings → CodeRequest → OtpCode → LegacyRequest
legacy_request s q existing = record {
  user_id = existing.user_id;
  otp_code_id = existing.id;
  dedupe_key = s.dedupe_key q.key_hash;
  requested_at = existing.created_at;
  expires_at = existing.expires_at;
  correlation_id = q.correlation_id;
}

module _ (t : Stores) (c : Crypto) (l : Limits) (cipher : Cipher) (s : RequestSettings) where
  abbrev pub set_otps : List OtpCode → World → World
  set_otps otps w = record w { db = record w.db { otps = otps } }

  abbrev pub add_event : AuthEvent → World → World
  add_event e w = record w { db = Otp.record_event t.auth c l e w.db }

  -- deleteMany; `none` is the error P2003.
  unfoldable pub delete_codes : (OtpCode → Bool) → World → Option (ℕ × World)
  delete_codes p w =
      let doomed = t.auth.otps.find_many p w.db.otps in
      let (left, n) = t.auth.otps.delete_many p w.db.otps in
      let (events, _) =
        t.auth.events.update_many (is_event_of_any doomed) without_code w.db.events in
      if t.jobs.jobs.count_where (is_job_of_any doomed) w.queue.jobs == 0
      then some (n, record w { db = record w.db { otps = left; events = events } })
      else none

  unfoldable pub finish : CodeRequest → ℕ → Option ℕ → World → Result Response × World
  finish q id development_otp w =
      elim (t.auth.otps.update (has_code_id id) (complete_request q.now) w.db.otps) [
        | none ↦ (err internal, w)
        | some (row, otps) ↦ (ok (build_otp_request_response s development_otp), set_otps otps w)
      ]
