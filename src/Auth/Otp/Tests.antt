-- ===== src/Auth/Otp/Tests.antt =====
-- Runs of the verification of one-time codes, and its theorems at concrete rows.
use stead.Prelude.{
  ℕ, ◌+◌, ◌==◌, ◌≡◌, refl, none, some, List, [], ◌∷◌, Result, ok, err, count, find, arith,
  bad_request, too_many_requests, internal, ◌⊎◌,
}
use stead.Store.Memory.{memory}
use stead.Auth.Sessions.{Session, Settings}
use stead.Auth.Sessions
use stead.Auth.Otp.{
  event_of, otp_verify_failed, User, OtpCode, Db, Tables, Crypto, Limits, Verification,
  is_unconsumed, has_code_id, user_clash, otp_clash, no_clash, issue_rows, replay_otp_verification,
}
use stead.Auth.Otp.Verify.{
  verify_otp, judge, attempt, find_and_judge, limited, issue_verified_session, wrong_code,
}
use stead.Auth.Otp.Lockout.{Bounded, verify_otp-Bounded, judge_wrong_code, judge_last_code}
use stead.Auth.Otp.Replay.{issue_rows-replay}
use stead.Auth.Otp.Safety.{Replayed, Fresh, verify_otp-Verified}

abbrev tables : Tables
tables = record {
  users = memory user_clash;
  otps = memory otp_clash;
  events = memory no_clash;
  tokens = memory Sessions.clash;
}

-- A cipher that authenticates its text by the digests in front of it.
abbrev seal : ℕ → ℕ → Session → List ℕ
seal key request s = key ∷ request ∷ s.token ∷ s.refresh_token ∷ s.expires_in ∷ []

abbrev unseal : ℕ → ℕ → List ℕ → Result Session
unseal key request (k ∷ r ∷ t ∷ f ∷ e ∷ []) =
    ok (record { token = t; refresh_token = f; expires_in = e })
unseal key request _ = err internal

abbrev crypto : Crypto
crypto = record {
  compare = λ otp hash. otp + 1000 == hash;
  encrypt = seal;
  decrypt = unseal;
  decrypt-encrypt = λ key request s least most. refl;
}

abbrev limits : Limits
limits = record {
  max_verify_attempts = 2;
  failures_per_ip = 3;
  failures_per_device = 3;
  failure_window_ms = 1000;
  sessions = record {
    max_families_setting = none;
    refresh_token_ms = 1000;
    family_max_age_ms = 5000;
    access_token_seconds = 900;
  };
}

abbrev ada : User
ada = record { id = 7; phone = 555; display_name = none }

abbrev code : OtpCode
code = record {
  id = 1;
  user_id = 7;
  code_hash = 1234;
  request_key_hash = 61;
  request_completed_at = some 11;
  development_otp = none;
  verification_key_hash = none;
  verification_request_hash = none;
  verification_response = none;
  verified_at = none;
  verify_attempts = 0;
  expires_at = 600;
  consumed_at = none;
  created_at = 10;
}

abbrev older : OtpCode
older = record code { id = 2; request_key_hash = 62; code_hash = 1235; created_at = 5 }

abbrev database : Db
database = record { users = ada ∷ []; otps = older ∷ code ∷ []; events = []; tokens = [] }

abbrev request : Verification
request = record {
  phone = 555;
  otp = 234;
  ip = some 1;
  device = some 9;
  key_hash = 71;
  request_hash = 81;
  now = 100;
  family = 31;
  new_id = 41;
  raw = 51;
  raw_hash = 52;
  sign = λ user. ok (user + 9000);
}

abbrev wrong : Verification
wrong = record request { otp = 1 }

abbrev given : Session
given = record { token = 9007; refresh_token = 51; expires_in = 900 }

abbrev issued : Db
issued = (verify_otp tables crypto limits (λ d. d) (ok request) database).1

abbrev missed_once : Db
missed_once = (verify_otp tables crypto limits (λ d. d) (ok wrong) database).1

issues : issue_rows tables crypto limits request ada code database ≡ ok (given, issued)
unfolding issue_rows verify_otp attempt limited find_and_judge judge issue_verified_session
    replay_otp_verification memory Sessions.issue_family Sessions.prepare_refresh_family_slot
    Sessions.revoke_slots
issues = refl

verifies : verify_otp tables crypto limits (λ d. d) (ok request) database ≡ (ok given, issued)
unfolding issue_rows verify_otp attempt limited find_and_judge judge issue_verified_session
    replay_otp_verification memory Sessions.issue_family Sessions.prepare_refresh_family_slot
    Sessions.revoke_slots
verifies = refl

abbrev missed_code : OtpCode
missed_code = record code { verify_attempts = 1 }

misses : (verify_otp tables crypto limits (λ d. d) (ok wrong) database).0 ≡ err bad_request
unfolding verify_otp attempt limited find_and_judge judge wrong_code replay_otp_verification memory
misses = refl

locks : (verify_otp tables crypto limits (λ d. d) (ok wrong) missed_once).0 ≡ err too_many_requests
unfolding verify_otp attempt limited find_and_judge judge wrong_code replay_otp_verification memory
locks = refl

verify_otp-Verified_example :
    Replayed crypto request database given
    ⊎ Replayed crypto request database given
    ⊎ Fresh crypto limits request database issued given
verify_otp-Verified_example =
    verify_otp-Verified tables crypto limits request (λ d. d) database issued given verifies

verify_otp-Bounded_example : Bounded limits missed_once
verify_otp-Bounded_example =
    verify_otp-Bounded tables crypto limits (ok wrong) (λ d. d) database (λ d h. h)
      (omega arith, (omega arith, tt))

judge_wrong_code_example :
    ((judge tables crypto limits wrong ada code database).0 ≡ err bad_request)
    × (find (has_code_id code.id) (judge tables crypto limits wrong ada code database).1.otps
        ≡ some (record code { verify_attempts = code.verify_attempts + 1 }))
judge_wrong_code_example =
    judge_wrong_code tables crypto limits wrong ada code database refl refl (omega arith)

judge_last_code_example :
    ((judge tables crypto limits wrong ada missed_code missed_once).0 ≡ err too_many_requests)
    × (count
          (is_unconsumed ada.id)
          (judge tables crypto limits wrong ada missed_code missed_once).1.otps
        ≡ 0)
judge_last_code_example =
    judge_last_code tables crypto limits wrong ada missed_code missed_once refl refl

-- The rows after other requests have added an event.
abbrev crowded : Db
crowded = record issued {
  events = event_of request otp_verify_failed none none (some 1) ∷ issued.events;
}

issue_rows-replay_example :
    verify_otp tables crypto limits
      (λ d. d)
      (ok (record request { now = 500; raw = 53; new_id = 42 }))
      crowded
    ≡ (ok given, crowded)
unfolding verify_otp replay_otp_verification memory attempt limited find_and_judge judge
    issue_verified_session issue_rows Sessions.issue_family Sessions.prepare_refresh_family_slot
    Sessions.revoke_slots
issue_rows-replay_example =
    issue_rows-replay tables crypto limits request
      (record request { now = 500; raw = 53; new_id = 42 }) (λ d. d) ada code database issued
      crowded given issues refl refl refl refl refl refl refl refl refl (omega arith) (omega arith)
      (omega arith)
