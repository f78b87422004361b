-- ===== src/Auth/Otp/Lockout.antt =====
-- How many wrong codes `verifyOtp` takes before it locks a code.
use stead.Prelude.{
  ℕ, ◌+◌, ◌≤◌, ◌<◌, ◌==◌, ◌≡◌, refl, true, false, some, List, Result, ok, err, count, modify, find,
  arith, All, All-modify, find-modify_hit, find_holds, Option-cases, inl, inr, Result-cases,
  too_many_requests, bad_request,
}
use stead.Auth.Sessions.{Session}
use stead.Auth.Otp.{
  User, OtpCode, Db, Tables, Crypto, Limits, Verification, is_unconsumed, is_live_code, consume,
  has_code_id, claimable_code, store_response, missed, issue_rows,
}
use stead.Auth.Otp.Verify.{
  verify_otp, attempt, find_and_judge, judge, wrong_code, issue_verified_session, settle_replay,
}
use stead.Auth.Otp.Issue.{issued_codes, retired_codes, issue_rows-Issued, all_consumed}

-- No stored code has more wrong attempts than the limit.
abbrev pub Bounded : Limits → Db → Type 0
Bounded l db = All (λ o. o.verify_attempts ≤ l.max_verify_attempts) db.otps

abbrev Within : Limits → OtpCode → Type 0
Within l o = o.verify_attempts ≤ l.max_verify_attempts

issued_Bounded :
    (c : Crypto) (l : Limits) (q : Verification) (user code : ℕ) (session : Session)
    (otps : List OtpCode)
    → All (Within l) otps
    → All (Within l) (issued_codes c q user code session otps)
issued_Bounded c l q user code session otps h =
    All-modify (Within l) (has_code_id code)
      (store_response q (c.encrypt q.key_hash q.request_hash session)) (λ o p. p)
      (retired_codes q user code otps)
      (All-modify (Within l) (is_unconsumed user) (consume q.now) (λ o p. p)
        (modify (claimable_code code q.now) (consume q.now) otps)
        (All-modify (Within l) (claimable_code code q.now) (consume q.now) (λ o p. p) otps h))

-- The codes of the table after a wrong code for `code`.
abbrev missed_codes : Limits → Verification → OtpCode → List OtpCode → List OtpCode
missed_codes l q code otps =
    modify (has_code_id code.id) (missed l (code.verify_attempts + 1) q.now) otps

missed_Bounded :
    (l : Limits) (q : Verification) (code : OtpCode) (otps : List OtpCode)
    → code.verify_attempts < l.max_verify_attempts
    → All (Within l) otps
    → All (Within l) (missed_codes l q code otps)
missed_Bounded l q code otps low h =
    All-modify (Within l) (has_code_id code.id) (missed l (code.verify_attempts + 1) q.now)
      (λ o p. omega arith) otps h

locked_Bounded :
    (l : Limits) (q : Verification) (user : ℕ) (otps : List OtpCode)
    → All (Within l) otps
    → All (Within l) (modify (is_unconsumed user) (consume q.now) otps)
locked_Bounded l q user otps h =
    All-modify (Within l) (is_unconsumed user) (consume q.now) (λ o p. p) otps h

module _ (t : Tables) (c : Crypto) (l : Limits) where
  issue_Bounded :
      (q : Verification) (user : User) (code : OtpCode) (db : Db)
      → Bounded l db
      → Bounded l (issue_verified_session t c l q user code db).1
  unfolding issue_verified_session
  issue_Bounded q user code db h = elim (Result-cases (issue_rows t c l q user code db)) [
    | inl (out, e) ↦
        let done = issue_rows-Issued t c l q user code db out.1 out.0 e in
        let same : (issue_verified_session t c l q user code db).1 ≡ out.1 = ground arith in
        rw (same, done.codes) (issued_Bounded c l q user.id code.id out.0 db.otps h)
    | inr (x, e) ↦
        let same : (issue_verified_session t c l q user code db).1 ≡ db = ground arith in rw same h
  ]

  wrong_code-Bounded :
      (q : Verification) (user : User) (code : OtpCode) (db : Db)
      → code.verify_attempts < l.max_verify_attempts
      → Bounded l db
      → Bounded l (wrong_code t c l q user code db).1
  unfolding wrong_code
  wrong_code-Bounded q user code db low h =
      let law =
        t.otps.update_many_lem (has_code_id code.id) (missed l (code.verify_attempts + 1) q.now)
          db.otps in
      let law2 =
        t.otps.update_many_lem (is_unconsumed user.id) (consume q.now)
          (missed_codes l q code db.otps) in
      let one = missed_Bounded l q code db.otps low h in
      let all = locked_Bounded l q user.id (missed_codes l q code db.otps) one in
      ground (arith, law, law2, one, all)

  judge-Bounded :
      (q : Verification) (user : User) (code : OtpCode) (db : Db)
      → Bounded l db
      → Bounded l (judge t c l q user code db).1
  unfolding judge
  judge-Bounded q user code db h =
      let issued = issue_Bounded q user code db h in
      let wrong = wrong_code-Bounded q user code db in ground (arith, issued, wrong)

  judged_Bounded :
      (q : Verification) (db : Db) → Bounded l db → Bounded l (find_and_judge t c l q db).1
  unfolding find_and_judge settle_replay
  judged_Bounded q db h =
      elim (Option-cases (t.users.find_first (λ u. u.phone == q.phone) db.users)) [
        | inl who ↦ ground arith
        | inr (user, who) ↦
            elim (Option-cases
              (t.otps.find_latest (is_live_code user.id q.now) (λ o. o.created_at) db.otps)) [
                | inl which ↦ ground arith
                | inr (code, which) ↦ ground (arith, judge-Bounded q user code db h)
              ]
      ]

  attempt-Bounded : (q : Verification) (db : Db) → Bounded l db → Bounded l (attempt t c l q db).1
  unfolding attempt
  attempt-Bounded q db h = let judged = judged_Bounded q db h in ground (arith, judged)

  -- A verification keeps the wrong attempts of every stored code within the limit, where the
  -- requests that run in between keep them.
  pub verify_otp-Bounded :
      (r : Result Verification) (others : Db → Db) (db : Db)
      → ((d : Db) → Bounded l d → Bounded l (others d))
      → Bounded l db
      → Bounded l (verify_otp t c l others r db).1
  unfolding verify_otp
  verify_otp-Bounded (err e) others db keeps h = h
  verify_otp-Bounded (ok q) others db keeps h =
      let tried = attempt-Bounded q (others db) (keeps db h) in ground (arith, tried)

  -- A code that does not match is refused and counted on the stored code, where attempts are left
  -- after it.
  pub judge_wrong_code :
      (q : Verification) (user : User) (code : OtpCode) (db : Db)
      → find (has_code_id code.id) db.otps ≡ some code
      → c.compare q.otp code.code_hash ≡ false
      → code.verify_attempts + 1 < l.max_verify_attempts
      → ((judge t c l q user code db).0 ≡ err bad_request)
        × (find (has_code_id code.id) (judge t c l q user code db).1.otps
            ≡ some (record code { verify_attempts = code.verify_attempts + 1 }))
  unfolding judge wrong_code
  judge_wrong_code q user code db stored wrong early =
      let law =
        t.otps.update_many_lem (has_code_id code.id) (missed l (code.verify_attempts + 1) q.now)
          db.otps in
      let same_id : has_code_id code.id code ≡ true =
        find_holds (has_code_id code.id) db.otps code stored in
      let hit =
        find-modify_hit (has_code_id code.id) (has_code_id code.id)
          (missed l (code.verify_attempts + 1) q.now) (λ o. refl) db.otps code stored same_id in
      ground (arith, law, hit)

  -- The wrong attempt that reaches the limit locks the user out of every code: none is left that is
  -- not consumed.
  pub judge_last_code :
      (q : Verification) (user : User) (code : OtpCode) (db : Db)
      → c.compare q.otp code.code_hash ≡ false
      → code.verify_attempts + 1 ≡ l.max_verify_attempts
      → ((judge t c l q user code db).0 ≡ err too_many_requests)
        × (count (is_unconsumed user.id) (judge t c l q user code db).1.otps ≡ 0)
  unfolding judge wrong_code
  judge_last_code q user code db wrong last =
      let law =
        t.otps.update_many_lem (has_code_id code.id) (missed l (code.verify_attempts + 1) q.now)
          db.otps in
      let law2 =
        t.otps.update_many_lem (is_unconsumed user.id) (consume q.now)
          (missed_codes l q code db.otps) in
      let gone = all_consumed q user.id (missed_codes l q code db.otps) in
      ground (arith, law, law2, gone)
