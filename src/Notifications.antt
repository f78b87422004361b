-- ===== src/Notifications.antt =====
-- The notification queue: notification-queue.service.ts and notification-consumer.service.ts of
-- api/src/notifications, on the tables NotificationJob and NotificationFailureAttempt.
pub mod Delivery
pub mod Deletion
pub mod Consumer
pub mod Invariant
pub mod Requests
pub mod Claims
pub mod Budget
pub mod Attempts
pub mod Enqueue
pub mod Publish
pub mod Blocked
mod Tests
use stead.Prelude.{
  ℕ, ◌+◌, ◌*◌, ◌^◌, ◌==◌, min, leb, ltb, Bool, true, false, not, ◌&&◌, ◌||◌, Option, none, some,
  List, [], ◌∷◌, ◌≡◌, is_none, some_eq, or_else, Result, ok, err, internal, require, ◌>>=◌,
  if◌then◌else◌,
}
use stead.Store.{Table}

pub data JobStatus : Type 0 where
  pending processing sent failed dead_letter : JobStatus

-- NotificationEventType
pub data JobType : Type 0 where
  otp_requested weekly_summary risk_alert risk_recovery : JobType

-- OtpRequestedPayload and ReadinessAlertPayload
pub data Content : Type 0 where
  otp body : ℕ → Content

pub record Payload : Type 0 where
  pub phone : ℕ
  pub content : Content

-- The texts of `payloadJson` that `decryptPayload` tells apart.
pub data PayloadJson : Type 0 where
  redacted : PayloadJson
  plain : Payload → PayloadJson
  envelope : (iv tag : ℕ) → List ℕ → PayloadJson
  invalid : PayloadJson

pub record JobRow : Type 0 where
  pub id : ℕ
  pub type : JobType
  pub payload_json : PayloadJson
  pub status : JobStatus
  pub attempts : ℕ
  pub max_attempts : ℕ
  pub next_run_at : ℕ
  pub locked_at : Option ℕ
  pub sent_at : Option ℕ
  pub failed_at : Option ℕ
  pub last_error : Option ℕ
  pub provider : Option ℕ
  pub provider_message_id : Option ℕ
  pub correlation_id : ℕ
  pub user_id : Option ℕ
  pub otp_code_id : Option ℕ
  pub goal_id : Option ℕ
  pub dedupe_key : Option ℕ
  pub created_at : ℕ

pub record FailureAttempt : Type 0 where
  pub job_id : ℕ
  pub attempt_number : ℕ
  pub terminal : Bool
  pub failed_at : ℕ

abbrev pub same_value : Option ℕ → Option ℕ → Bool
same_value none k = false
same_value (some j) k = some_eq k j

-- The unique indexes on dedupeKey and otpCodeId.
abbrev pub job_clash : JobRow → JobRow → Bool
job_clash a b = same_value a.dedupe_key b.dedupe_key || same_value a.otp_code_id b.otp_code_id

abbrev pub attempt_clash : FailureAttempt → FailureAttempt → Bool
attempt_clash a b = false

pub record Queue : Type 0 where
  pub jobs : List JobRow
  pub failures : List FailureAttempt

pub record Tables : Type 0 where
  pub jobs : Table JobRow job_clash
  pub failures : Table FailureAttempt attempt_clash

-- AES-256-GCM under the configured key, with the initialisation vector first; `none` without a key,
-- and where the text does not authenticate or is not a payload.
pub record Cipher : Type 0 where
  pub seal : ℕ → Payload → Option (ℕ × List ℕ)
  pub unseal : ℕ → ℕ → List ℕ → Option Payload
  pub unseal-seal :
      (iv tag : ℕ) (p : Payload) (text : List ℕ)
      → seal iv p ≡ some (tag, text)
      → unseal iv tag text ≡ some p

-- What the consumer sees of a payload.
pub data JobPayload : Type 0 where
  hidden : JobPayload
  shown : Payload → JobPayload

-- A job in memory: the row, with its payload read.
pub record Job : Type 0 where
  pub row : JobRow
  pub payload : JobPayload

-- JOB_LOCK_TIMEOUT_MS
abbrev pub lock_timeout_ms : ℕ
lock_timeout_ms = 300_000

abbrev pub backoff_ms : ℕ → ℕ
backoff_ms attempt = min 30_000 (1_000 * 2 ^ attempt)

abbrev pub is_pending : JobStatus → Bool
is_pending pending = true
is_pending _ = false

abbrev pub is_processing : JobStatus → Bool
is_processing processing = true
is_processing _ = false

abbrev pub is_dead_letter : JobStatus → Bool
is_dead_letter dead_letter = true
is_dead_letter _ = false

abbrev pub is_sent : JobStatus → Bool
is_sent sent = true
is_sent _ = false

abbrev pub is_terminal : JobStatus → Bool
is_terminal s = is_sent s || is_dead_letter s

-- A lock that was never dated, or one from before the timeout.
abbrev pub is_stale : ℕ → Option ℕ → Bool
is_stale now none = true
is_stale now (some locked) = leb (locked + lock_timeout_ms) now

abbrev pub is_ready : ℕ → JobRow → Bool
is_ready now j =
    is_pending j.status && leb j.next_run_at now
    || is_processing j.status && is_stale now j.locked_at

abbrev pub has_job_id : ℕ → JobRow → Bool
has_job_id i j = j.id == i

abbrev pub lock_job : ℕ → JobRow → JobRow
lock_job now j = record j { status = processing; locked_at = some now }

abbrev pub succeeded : ℕ → Option ℕ → Option ℕ → JobRow → JobRow
succeeded now provider message j = record j {
  payload_json = redacted;
  status = sent;
  sent_at = some now;
  provider = or_else provider j.provider;
  provider_message_id = or_else message j.provider_message_id;
  last_error = none;
  failed_at = none;
  locked_at = none;
}

-- `job` is the job in memory, `j` the stored row, and `later` the time that the backoff counts from.
abbrev pub failed_row : JobRow → ℕ → ℕ → ℕ → JobRow → JobRow
failed_row job now later error j =
    let attempts = job.attempts + 1 in
    let terminal = leb job.max_attempts attempts in
    record j {
      payload_json = if terminal then redacted else j.payload_json;
      attempts = attempts;
      status = if terminal then dead_letter else pending;
      next_run_at = if terminal then job.next_run_at else later + backoff_ms attempts;
      failed_at = some now;
      last_error = some error;
      locked_at = none;
    }

abbrev pub redact : JobRow → JobRow
redact j = record j { payload_json = redacted }

abbrev pub is_redacted : PayloadJson → Bool
is_redacted redacted = true
is_redacted _ = false

module _ (c : Cipher) where
  unfoldable pub encrypt_payload : ℕ → Payload → Result PayloadJson
  encrypt_payload iv p = do (tag, text) ← require (c.seal iv p) internal; ok (envelope iv tag text)

  unfoldable pub decrypt_payload : PayloadJson → Result JobPayload
  decrypt_payload redacted = ok hidden
  decrypt_payload (plain p) = ok (shown p)
  decrypt_payload (envelope iv tag text) = do
    p ← require (c.unseal iv tag text) internal
    ok (shown p)
  decrypt_payload invalid = err internal
