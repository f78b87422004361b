-- ===== src/Auth/Otp/Safety.antt =====
-- Who receives a session from `verifyOtp`.
use stead.Prelude.{
  ℕ, ◌+◌, ◌≤◌, ◌<◌, ◌==◌, ◌≡◌, sym, ap, ◌≢◌, ◌∙◌, subst, true, none, some, List, ok, count, modify,
  All, find, arith, ◌⊎◌, inl, inr, find_holds, Option-cases,
}
use stead.Store.{Picks}
use stead.Auth.Sessions.{Session}
use stead.Auth.Otp.{
  User, OtpCode, Db, Tables, Crypto, Limits, Verification, is_unconsumed, is_live_code, consume,
  has_key, replay_window_ms, claimable_code, replay_otp_verification, issue_rows,
}
use stead.Auth.Otp.Verify.{
  verify_otp, attempt, find_and_judge, judge, wrong_code, issue_verified_session, settle_replay,
}
use stead.Auth.Otp.Issue.{retired_codes, issue_rows-Issued, all_consumed, count-stored}
use mathlib.Core.List.{Memᴰ}

-- A session that the latest live code of the user gave.
pub record Fresh (c : Crypto) (l : Limits) (q : Verification) (db after : Db) (session : Session)
    : Type 0 where
  pub user : User
  pub code : OtpCode
  pub phone : user.phone == q.phone ≡ true
  pub stored : Memᴰ code db.otps
  pub live : is_live_code user.id q.now code ≡ true
  pub latest :
      All (λ o. is_live_code user.id q.now o ≡ true → o.created_at ≤ code.created_at) db.otps
  pub attempts : code.verify_attempts < l.max_verify_attempts
  pub matches : c.compare q.otp code.code_hash ≡ true
  pub signed : q.sign user.id ≡ ok session.token
  pub consumed : count (is_unconsumed user.id) after.otps ≡ 0

-- A session that an earlier verification with the same key, request and code gave.
pub record Replayed (c : Crypto) (q : Verification) (db : Db) (session : Session) : Type 0 where
  pub user : User
  pub code : OtpCode
  pub response : List ℕ
  pub verified : ℕ
  pub stored : find (has_key q.key_hash) db.otps ≡ some code
  pub owner : find (λ u. u.id == code.user_id) db.users ≡ some user
  pub phone : user.phone == q.phone ≡ true
  pub request : code.verification_request_hash ≡ some q.request_hash
  pub matches : c.compare q.otp code.code_hash ≡ true
  pub at : code.verified_at ≡ some verified
  pub recent : q.now ≤ verified + replay_window_ms
  pub answer : code.verification_response ≡ some response
  pub opens : c.decrypt q.key_hash q.request_hash response ≡ ok session

module _ (t : Tables) (c : Crypto) (l : Limits) where
  judge-ok :
      (q : Verification) (user : User) (code : OtpCode) (db after : Db) (session : Session)
      → judge t c l q user code db ≡ (ok session, after)
      → (replay_otp_verification t c l q db ≡ ok (some session))
        ⊎ ((code.verify_attempts < l.max_verify_attempts)
            × (c.compare q.otp code.code_hash ≡ true)
            × (issue_rows t c l q user code db ≡ ok (session, after)))
  unfolding judge issue_verified_session wrong_code
  judge-ok q user code db after session e = ground arith

  chosen :
      (q : Verification) (user : User) (code : OtpCode) (db after : Db) (session : Session)
      → t.users.find_first (λ u. u.phone == q.phone) db.users ≡ some user
      → t.otps.find_latest (is_live_code user.id q.now) (λ o. o.created_at) db.otps ≡ some code
      → find_and_judge t c l q db ≡ (ok session, after)
      → (replay_otp_verification t c l q db ≡ ok (some session)) ⊎ Fresh c l q db after session
  unfolding find_and_judge
  chosen q user code db after session who which e =
      let same : judge t c l q user code db ≡ (ok session, after) = ground arith in
      elim (judge-ok q user code db after session same) [
        | inl replayed ↦ inl replayed
        | inr (low, matches, issued) ↦
            let picks =
              subst
                (Picks (is_live_code user.id q.now) (λ best r. r.created_at ≤ best.created_at)
                  db.otps)
                which
                (t.otps.find_latest_lem (is_live_code user.id q.now) (λ o. o.created_at) db.otps) in
            let done = issue_rows-Issued t c l q user code db after session issued in
            let law = t.users.find_first_lem (λ u. u.phone == q.phone) db.users in
            inr (record {
              user = user;
              code = code;
              phone = find_holds (λ u. u.phone == q.phone) db.users user (sym law ∙ who);
              stored = picks.0;
              live = picks.1;
              latest = picks.2;
              attempts = low;
              matches = matches;
              signed = done.signed;
              consumed = rw (done.codes) (
                  count-stored q user.id code.id (c.encrypt q.key_hash q.request_hash session)
                    (retired_codes q user.id code.id db.otps)
                  ∙ all_consumed q user.id
                      (modify (claimable_code code.id q.now) (consume q.now) db.otps));
            })
      ]

  none_chosen :
      (q : Verification) (user : User) (db after : Db) (session : Session)
      → t.users.find_first (λ u. u.phone == q.phone) db.users ≡ some user
      → t.otps.find_latest (is_live_code user.id q.now) (λ o. o.created_at) db.otps ≡ none
      → find_and_judge t c l q db ≡ (ok session, after)
      → replay_otp_verification t c l q db ≡ ok (some session)
  unfolding find_and_judge settle_replay
  none_chosen q user db after session who which e = ground arith

  no_user :
      (q : Verification) (db after : Db) (session : Session)
      → t.users.find_first (λ u. u.phone == q.phone) db.users ≡ none
      → (find_and_judge t c l q db).0 ≢ ok session
  unfolding find_and_judge
  no_user q db after session who e = ground arith

  find_and_judge-ok :
      (q : Verification) (db after : Db) (session : Session)
      → find_and_judge t c l q db ≡ (ok session, after)
      → (replay_otp_verification t c l q db ≡ ok (some session)) ⊎ Fresh c l q db after session
  find_and_judge-ok q db after session e =
      elim (Option-cases (t.users.find_first (λ u. u.phone == q.phone) db.users)) [
        | inl who ↦ absurd (no_user q db after session who (ap (λ p. p.0) e))
        | inr (user, who) ↦
            elim (Option-cases
              (t.otps.find_latest (is_live_code user.id q.now) (λ o. o.created_at) db.otps)) [
                | inl which ↦ inl (none_chosen q user db after session who which e)
                | inr (code, which) ↦ chosen q user code db after session who which e
              ]
      ]

  attempt-ok :
      (q : Verification) (db after : Db) (session : Session)
      → attempt t c l q db ≡ (ok session, after)
      → find_and_judge t c l q db ≡ (ok session, after)
  unfolding attempt
  attempt-ok q db after session e = ground arith

  first :
      (q : Verification) (others : Db → Db) (db after : Db) (session : Session)
      → verify_otp t c l others (ok q) db ≡ (ok session, after)
      → (replay_otp_verification t c l q db ≡ ok (some session))
        ⊎ (attempt t c l q (others db) ≡ (ok session, after))
  unfolding verify_otp
  first q others db after session e = ground arith

  replay_hit :
      (q : Verification) (db : Db) (session : Session) (code : OtpCode)
      → find (has_key q.key_hash) db.otps ≡ some code
      → replay_otp_verification t c l q db ≡ ok (some session)
      → Replayed c q db session
  unfolding replay_otp_verification
  replay_hit q db session code hit e =
      let law = t.otps.find_first_lem (has_key q.key_hash) db.otps in
      let law2 = t.users.find_first_lem (λ u. u.id == code.user_id) db.users in
      elim (Option-cases (find (λ u. u.id == code.user_id) db.users)) [
        | inl a ↦ absurd (ground (arith, law, law2))
        | inr (user, a) ↦ elim (Option-cases code.verified_at) [
          | inl b ↦ absurd (ground (arith, law, law2))
          | inr (verified, b) ↦ elim (Option-cases code.verification_response) [
            | inl d ↦ absurd (ground (arith, law, law2))
            | inr (response, d) ↦ record {
              user = user;
              code = code;
              response = response;
              verified = verified;
              stored = hit;
              owner = a;
              phone = ground (arith, law, law2);
              request = ground (arith, law, law2);
              matches = ground (arith, law, law2);
              at = b;
              recent = ground (arith, law, law2);
              answer = d;
              opens = ground (arith, law, law2);
            }
          ]
        ]
      ]

  replay-Replayed :
      (q : Verification) (db : Db) (session : Session)
      → replay_otp_verification t c l q db ≡ ok (some session)
      → Replayed c q db session
  unfolding replay_otp_verification
  replay-Replayed q db session e = elim (Option-cases (find (has_key q.key_hash) db.otps)) [
    | inl miss ↦ absurd (ground (arith, t.otps.find_first_lem (has_key q.key_hash) db.otps))
    | inr (code, hit) ↦ replay_hit q db session code hit e
  ]

  -- A session is handed out only for a matching code of the phone number's user: a stored one that
  -- an earlier verification with the same key and the same request digest recorded within the replay
  -- window, whose stored answer it is, or the latest of the live ones, with attempts left, after
  -- which the user has no code that is not consumed. The access token of the second case is the one
  -- signed for that user.
  pub verify_otp-Verified :
      (q : Verification) (others : Db → Db) (db after : Db) (session : Session)
      → verify_otp t c l others (ok q) db ≡ (ok session, after)
      → Replayed c q db session
        ⊎ Replayed c q (others db) session
        ⊎ Fresh c l q (others db) after session
  unfolding verify_otp
  verify_otp-Verified q others db after session e = elim (first q others db after session e) [
    | inl replayed ↦ inl (replay-Replayed q db session replayed)
    | inr tried ↦
        elim (find_and_judge-ok q (others db) after session
          (attempt-ok q (others db) after session tried)) [
            | inl replayed ↦ inr (inl (replay-Replayed q (others db) session replayed))
            | inr fresh ↦ inr (inr fresh)
          ]
  ]
