-- ===== src/Auth/Otp.antt =====
-- One-time codes: `verifyOtp`, `replayOtpVerification` and `issueVerifiedSession` of
-- auth.service.ts, with the events of auth-telemetry.service.ts that they count and record.
pub mod Verify
pub mod Issue
pub mod Lockout
pub mod Replay
pub mod Safety
mod Tests
use stead.Prelude.{
  ℕ, suc, ◌+◌, ◌≤◌, ◌==◌, ◌≡◌, leb, ltb, Bool, true, false, not, ◌&&◌, ◌||◌, Option, none, some,
  List, [], ◌∷◌, is_none, is_some, some_eq, Result, ok, err, Error, bad_request, conflict,
  too_many_requests, internal, ◌>>=◌, ◌>>◌, require, guard, if◌then◌else◌,
}
use stead.Store.{Table}
use stead.Auth.Sessions.{RefreshToken, Session, Settings}
use stead.Auth.Sessions

pub record User : Type 0 where
  pub id : ℕ
  pub phone : ℕ
  pub display_name : Option ℕ

abbrev pub user_clash : User → User → Bool
user_clash u v = u.phone == v.phone

pub record OtpCode : Type 0 where
  pub id : ℕ
  pub user_id : ℕ
  pub code_hash : ℕ
  pub request_key_hash : ℕ
  pub request_completed_at : Option ℕ
  pub development_otp : Option ℕ
  pub verification_key_hash : Option ℕ
  pub verification_request_hash : Option ℕ
  pub verification_response : Option (List ℕ)
  pub verified_at : Option ℕ
  pub verify_attempts : ℕ
  pub expires_at : ℕ
  pub consumed_at : Option ℕ
  pub created_at : ℕ

abbrev pub same_key : Option ℕ → Option ℕ → Bool
same_key none k = false
same_key (some j) k = some_eq k j

-- The unique indexes on requestKeyHash and verificationKeyHash.
abbrev pub otp_clash : OtpCode → OtpCode → Bool
otp_clash a b =
    a.request_key_hash == b.request_key_hash
    || same_key a.verification_key_hash b.verification_key_hash

pub data EventType : Type 0 where
  otp_requested otp_request_rate_limited otp_resend_blocked otp_verify_failed otp_verify_locked
        otp_verify_succeeded :
      EventType

pub record AuthEvent : Type 0 where
  pub kind : EventType
  pub phone : ℕ
  pub ip : Option ℕ
  pub device_hash : Option ℕ
  pub user_id : Option ℕ
  pub otp_code_id : Option ℕ
  pub attempt_number : Option ℕ
  pub created_at : ℕ

abbrev pub no_clash : AuthEvent → AuthEvent → Bool
no_clash a b = false

pub record Db : Type 0 where
  pub users : List User
  pub otps : List OtpCode
  pub events : List AuthEvent
  pub tokens : List RefreshToken

pub record Tables : Type 0 where
  pub users : Table User user_clash
  pub otps : Table OtpCode otp_clash
  pub events : Table AuthEvent no_clash
  pub tokens : Table RefreshToken Sessions.clash

abbrev pub max_safe_integer : ℕ
max_safe_integer = 9_007_199_254_740_991

-- bcrypt, and the encrypted copy of a response under the key and request digests. The decryption
-- refuses a response whose `expiresIn` is not a positive safe integer.
pub record Crypto : Type 0 where
  pub compare : ℕ → ℕ → Bool
  pub encrypt : ℕ → ℕ → Session → List ℕ
  pub decrypt : ℕ → ℕ → List ℕ → Result Session
  pub decrypt-encrypt :
      (key request : ℕ) (s : Session)
      → 1 ≤ s.expires_in
      → s.expires_in ≤ max_safe_integer
      → decrypt key request (encrypt key request s) ≡ ok s

-- The limits that the settings give, and their windows in milliseconds.
pub record Limits : Type 0 where
  pub max_verify_attempts : ℕ
  pub failures_per_ip : ℕ
  pub failures_per_device : ℕ
  pub failure_window_ms : ℕ
  pub sessions : Settings

-- OTP_VERIFICATION_REPLAY_WINDOW_MS
abbrev pub replay_window_ms : ℕ
replay_window_ms = 600_000

-- A verification whose country, phone number, device header and idempotency key passed their
-- checks, with what the server makes for it: identifiers, the new refresh token and its digest, and
-- the outcome of signing an access token.
pub record Verification : Type 0 where
  pub phone : ℕ
  pub otp : ℕ
  pub ip : Option ℕ
  pub device : Option ℕ
  pub key_hash : ℕ
  pub request_hash : ℕ
  pub now : ℕ
  pub family : ℕ
  pub new_id : ℕ
  pub raw : ℕ
  pub raw_hash : ℕ
  pub sign : ℕ → Result ℕ

abbrev pub is_failure : EventType → Bool
is_failure otp_verify_failed = true
is_failure otp_verify_locked = true
is_failure _ = false

abbrev pub is_unconsumed : ℕ → OtpCode → Bool
is_unconsumed user o = o.user_id == user && is_none o.consumed_at

-- A code that can still be verified at the time `now`.
abbrev pub is_live_code : ℕ → ℕ → OtpCode → Bool
is_live_code user now o = is_unconsumed user o && ltb now o.expires_at

abbrev pub consume : ℕ → OtpCode → OtpCode
consume now o = record o { consumed_at = some now }

abbrev pub has_code_id : ℕ → OtpCode → Bool
has_code_id i o = o.id == i

abbrev pub has_key : ℕ → OtpCode → Bool
has_key k o = some_eq o.verification_key_hash k

abbrev pub event_of : Verification → EventType → Option ℕ → Option ℕ → Option ℕ → AuthEvent
event_of q kind user code attempt = record {
  kind = kind;
  phone = q.phone;
  ip = q.ip;
  device_hash = q.device;
  user_id = user;
  otp_code_id = code;
  attempt_number = attempt;
  created_at = q.now;
}

-- The row after a wrong code; the attempt that reaches the limit also consumes it.
abbrev pub missed : Limits → ℕ → ℕ → OtpCode → OtpCode
missed l attempts now o = record o {
  verify_attempts = attempts;
  consumed_at = if leb l.max_verify_attempts attempts then some now else o.consumed_at;
}

-- The filter of the conditional write that consumes the code.
abbrev pub claimable_code : ℕ → ℕ → OtpCode → Bool
claimable_code id now o = has_code_id id o && is_none o.consumed_at && ltb now o.expires_at

abbrev pub store_response : Verification → List ℕ → OtpCode → OtpCode
store_response q response o = record o {
  verification_key_hash = some q.key_hash;
  verification_request_hash = some q.request_hash;
  verification_response = some response;
  verified_at = some q.now;
}

module _ (t : Tables) (c : Crypto) (l : Limits) where
  abbrev pub record_event : AuthEvent → Db → Db
  record_event e db = record db { events = t.events.insert e db.events }

  -- The phone of the row's user; the foreign key makes sure that there is one.
  unfoldable pub phone_of : ℕ → Db → Option ℕ
  phone_of user db = elim (t.users.find_first (λ u. u.id == user) db.users) [
    | none ↦ none
    | some u ↦ some u.phone
  ]

  stored_response : Verification → Option ℕ → Option (List ℕ) → Result (Option Session)
  stored_response q none response = err conflict
  stored_response q (some verified) none = err conflict
  stored_response q (some verified) (some response) =
      if ltb (verified + replay_window_ms) q.now
      then err conflict
      else (do s ← c.decrypt q.key_hash q.request_hash response; ok (some s))

  -- `none` where the idempotency key is new.
  unfoldable pub replay_otp_verification : Verification → Db → Result (Option Session)
  unfolding phone_of stored_response
  replay_otp_verification q db = elim (t.otps.find_first (has_key q.key_hash) db.otps) [
    | none ↦ ok none
    | some existing ↦ do
      guard (some_eq (phone_of existing.user_id db) q.phone) conflict
      guard (some_eq existing.verification_request_hash q.request_hash) conflict
      guard (c.compare q.otp existing.code_hash) conflict
      stored_response q existing.verified_at existing.verification_response
  ]

  -- The transaction of `issueVerifiedSession`.
  unfoldable pub issue_rows : Verification → User → OtpCode → Db → Result (Session × Db)
  issue_rows q user code db = do
    let (claimed, n) = t.otps.update_many (claimable_code code.id q.now) (consume q.now) db.otps
    guard (not (n == 0)) bad_request
    let (retired, _) = t.otps.update_many (is_unconsumed user.id) (consume q.now) claimed
    let events =
        t.events.insert
          (event_of q otp_verify_succeeded (some user.id) (some code.id)
            (some code.verify_attempts))
          db.events
    tokens ←
        Sessions.issue_family t.tokens l.sessions q.new_id q.raw_hash user.id q.family q.device
          q.now db.tokens
    token ← q.sign user.id
    let session : Session = record {
      token = token;
      refresh_token = q.raw;
      expires_in = l.sessions.access_token_seconds;
    }
    (_, otps) ←
        require
          (t.otps.update (has_code_id code.id)
            (store_response q (c.encrypt q.key_hash q.request_hash session)) retired)
          internal
    ok (session, record db { otps = otps; events = events; tokens = tokens })
