-- ===== src/Auth/Request/Tests.antt =====
-- Runs of the requests for one-time codes, and their theorems at concrete rows.
use stead.Prelude.{
  zero, suc, subst, Option, ℕ, ◌+◌, ◌==◌, ◌≡◌, refl, true, none, some, List, [], ◌∷◌, Result, ok,
  err, find, arith, too_many_requests, internal,
}
use stead.Store.Memory.{memory}
use stead.Auth.Sessions.{Session}
use stead.Auth.Sessions
use stead.Auth.Otp.{
  Db, event_of, otp_verify_failed, User, OtpCode, Crypto, Limits, Verification, user_clash,
  otp_clash, no_clash, phone_of,
}
use stead.Auth.Otp.Verify.{judge, verify_otp, limited}
use stead.Notifications.{
  Payload, Content, otp, body, Cipher, encrypt_payload, job_clash, attempt_clash,
}
use stead.Notifications.Enqueue.{
  enqueue_otp_requested, is_otp_request_enqueued, adopt_legacy_otp_request,
}
use stead.Auth.Request.{
  RequestSettings, CodeRequest, World, Stores, has_request_key, complete_request, new_code_row,
  finish,
}
use stead.Auth.Request.Replay.{replay_otp_request, resume, remove_abandoned}
use stead.Auth.Request.Handler.{
  recent_requests, request_limited, recent_codes, upsert_user, latest_code, publish, answer_early,
  create_code, issue_code, is_refused, request_otp,
}
use stead.Auth.Request.Idempotent.{quiet, request_otp_again}
use stead.Auth.Request.Recovery.{request_otp-recovers}
use stead.Auth.Request.Verified.{verify_otp-requested}

abbrev stores : Stores
stores = record {
  auth = record {
    users = memory user_clash;
    otps = memory otp_clash;
    events = memory no_clash;
    tokens = memory Sessions.clash;
  };
  jobs = record { jobs = memory job_clash; failures = memory attempt_clash };
}

abbrev crypto : Crypto
crypto = record {
  compare = λ otp hash. otp + 1000 == hash;
  encrypt = λ key request s. s.token ∷ s.refresh_token ∷ s.expires_in ∷ [];
  decrypt = λ key request text. opened text;
  decrypt-encrypt = λ key request s least most. refl;
}
  where
    opened : List ℕ → Result Session
    opened (t ∷ f ∷ e ∷ []) = ok (record { token = t; refresh_token = f; expires_in = e })
    opened _ = err internal

abbrev limits : Limits
limits = record {
  max_verify_attempts = 2;
  failures_per_ip = 3;
  failures_per_device = 3;
  failure_window_ms = 1000;
  sessions = record {
    max_families_setting = none;
    refresh_token_ms = 1000;
    family_max_age_ms = 5000;
    access_token_seconds = 900;
  };
}

abbrev bytes_of : ℕ → Content → List ℕ
bytes_of phone (otp x) = phone ∷ 0 ∷ x ∷ []
bytes_of phone (body x) = phone ∷ 1 ∷ x ∷ []

abbrev seal : ℕ → Payload → Option (ℕ × List ℕ)
seal iv p = some (iv, bytes_of p.phone p.content)

abbrev payload_of : List ℕ → Option Payload
payload_of (phone ∷ zero ∷ x ∷ []) = some (record { phone = phone; content = otp x })
payload_of (phone ∷ suc k ∷ x ∷ []) = some (record { phone = phone; content = body x })
payload_of _ = none

read_back :
    (phone : ℕ) (x : Content)
    → payload_of (bytes_of phone x) ≡ some (record { phone = phone; content = x })
read_back phone (otp x) = refl
read_back phone (body x) = refl

unseal-seal :
    (iv tag : ℕ) (p : Payload) (text : List ℕ)
    → seal iv p ≡ some (tag, text)
    → payload_of text ≡ some p
unseal-seal iv tag p text e =
    let same : bytes_of p.phone p.content ≡ text = ground arith in
    subst (λ w. payload_of w ≡ some p) same (read_back p.phone p.content)

abbrev cipher : Cipher
cipher = record { seal = seal; unseal = λ iv tag text. payload_of text; unseal-seal = unseal-seal }

abbrev settings : RequestSettings
settings = record {
  per_hour = 5;
  per_ip_per_hour = 20;
  per_device_per_hour = 5;
  cooldown_ms = 60_000;
  expose_otp = true;
  dedupe_key = λ k. k + 500;
}

abbrev request : CodeRequest
request = record {
  phone = 555;
  ip = some 1;
  device = some 9;
  device_error = none;
  key_hash = 61;
  now = 1_000;
  new_user = 7;
  new_code = 31;
  otp = 234;
  code_hash = 1234;
  event_stored = true;
  job_id = 41;
  iv = 51;
  correlation_id = 71;
}

abbrev nothing : World
nothing = record {
  db = record { users = []; otps = []; events = []; tokens = [] };
  queue = record { jobs = []; failures = [] };
}

abbrev after : World
after = (request_otp stores crypto limits cipher settings quiet quiet (ok request) nothing).1

abbrev retry : CodeRequest
retry = record request { ip = none; now = 9_000_000; new_code = 32; otp = 777; job_id = 42 }

-- The row as it is when the server stops after the message is enqueued.
abbrev open_row : OtpCode
open_row = new_code_row settings request 7

abbrev interrupted : World
interrupted = record after { db = record after.db { otps = open_row ∷ [] } }

abbrev verification : Verification
verification = record {
  phone = 555;
  otp = 234;
  ip = some 1;
  device = some 9;
  key_hash = 81;
  request_hash = 82;
  now = 2_000;
  family = 31;
  new_id = 43;
  raw = 51;
  raw_hash = 52;
  sign = λ user. ok (user + 9000);
}

blocked :
    (request_otp stores crypto limits cipher settings quiet quiet
      (ok (record retry { key_hash = 62; now = 2_000 }))
      after).0
    ≡ err too_many_requests
unfolding request_otp replay_otp_request resume remove_abandoned is_refused request_limited
    recent_requests recent_codes phone_of issue_code upsert_user latest_code answer_early
    create_code publish finish enqueue_otp_requested encrypt_payload is_otp_request_enqueued
    adopt_legacy_otp_request memory
blocked = refl

request_otp_again_example :
    request_otp stores crypto limits cipher settings quiet quiet (ok retry) after
    ≡ (ok (record { otp = some 234 }), after)
unfolding request_otp replay_otp_request resume remove_abandoned is_refused request_limited
    recent_requests recent_codes phone_of issue_code upsert_user latest_code answer_early
    create_code publish finish enqueue_otp_requested encrypt_payload is_otp_request_enqueued
    adopt_legacy_otp_request memory
request_otp_again_example =
    request_otp_again stores crypto limits cipher settings request retry nothing after
      (record { otp = some 234 }) refl refl refl refl refl refl

request_otp-recovers_example :
    (done : World) × (request_otp stores crypto limits cipher settings quiet quiet
        (ok retry)
        interrupted
      ≡ (ok (record { otp = some 234 }), done))
    × (done.queue ≡ interrupted.queue)
    × (find (has_request_key 61) done.db.otps ≡ some (complete_request 9_000_000 open_row))
unfolding request_otp replay_otp_request resume remove_abandoned is_refused request_limited
    recent_requests recent_codes phone_of issue_code upsert_user latest_code answer_early
    create_code publish finish enqueue_otp_requested encrypt_payload is_otp_request_enqueued
    adopt_legacy_otp_request memory
request_otp-recovers_example =
    request_otp-recovers stores crypto limits cipher settings quiet quiet retry open_row interrupted
      refl refl refl refl refl refl

-- What else is in the tables changes: an attempt at another number failed.
abbrev later_db : Db
later_db = record after.db {
  events =
      event_of (record verification { phone = 556 }) otp_verify_failed none none none
      ∷ after.db.events;
}

verify_otp-requested_example :
    (user : User) × (verify_otp stores.auth crypto limits (λ x. x) (ok verification) later_db
      ≡ judge stores.auth crypto limits verification user
          (complete_request 1_000 (new_code_row settings request user.id))
          later_db)
    × (user.phone ≡ 555)
unfolding request_otp replay_otp_request resume remove_abandoned is_refused request_limited
    recent_requests recent_codes phone_of issue_code upsert_user latest_code answer_early
    create_code publish finish enqueue_otp_requested encrypt_payload is_otp_request_enqueued
    adopt_legacy_otp_request memory limited
verify_otp-requested_example =
    verify_otp-requested stores crypto limits cipher settings request nothing after
      (record { otp = some 234 }) verification later_db refl refl refl refl refl (omega arith) refl
      (omega arith) refl refl refl refl refl
