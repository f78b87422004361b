-- ===== src/Auth/Otp/Replay.antt =====
-- A repeated verification with the same idempotency key.
use stead.Prelude.{
  ℕ, ◌+◌, ◌≤◌, ◌==◌, ◌≡◌, subst, Bool, true, some, List, [], ◌∷◌, ok, modify, find, any, arith,
  if◌then◌else◌,
}
use stead.Store.{distinct}
use stead.Auth.Sessions.{Session}
use stead.Auth.Otp.{
  User, OtpCode, Db, Tables, Crypto, Limits, Verification, is_unconsumed, consume, otp_clash,
  has_code_id, has_key, claimable_code, store_response, replay_otp_verification, issue_rows,
  replay_window_ms, max_safe_integer,
}
use stead.Auth.Otp.Verify.{verify_otp}
use stead.Auth.Otp.Issue.{issued_codes, retired_codes, issue_rows-Issued}

stored_clash :
    (q : Verification) (i : ℕ) (response : List ℕ) (b x : OtpCode) (otps : List OtpCode)
    → find (has_code_id i) otps ≡ some x
    → has_key q.key_hash b ≡ true
    → any (otp_clash b) (modify (has_code_id i) (store_response q response) otps) ≡ true
stored_clash q i response b x [] e h = absurd (ground arith)
stored_clash q i response b x (o ∷ otps) e h = ground (arith, stored_clash q i response b x otps)

-- With the unique index, the row that stores the response is the one with its key.
stored_find :
    (q : Verification) (i : ℕ) (response : List ℕ) (x : OtpCode) (otps : List OtpCode)
    → find (has_code_id i) otps ≡ some x
    → distinct otp_clash (modify (has_code_id i) (store_response q response) otps) ≡ true
    → find (has_key q.key_hash) (modify (has_code_id i) (store_response q response) otps)
      ≡ some (store_response q response x)
stored_find q i response x [] e d = absurd (ground arith)
stored_find q i response x (o ∷ otps) e d =
    ground (arith, stored_find q i response x otps, stored_clash q i response o x otps)

consumed_find :
    (q : Verification) (p : OtpCode → Bool) (i : ℕ) (x : OtpCode) (otps : List OtpCode)
    → find (has_code_id i) otps ≡ some x
    → find (has_code_id i) (modify p (consume q.now) otps)
      ≡ some (if p x then consume q.now x else x)
consumed_find q p i x [] e = absurd (ground arith)
consumed_find q p i x (o ∷ otps) e = ground (arith, consumed_find q p i x otps)

-- The row of the code after the codes of its user are retired.
abbrev retired : Verification → ℕ → OtpCode → OtpCode
retired q user x =
    let y = if claimable_code x.id q.now x then consume q.now x else x in
    if is_unconsumed user y then consume q.now y else y

find-retired :
    (q : Verification) (user : ℕ) (x : OtpCode) (otps : List OtpCode)
    → find (has_code_id x.id) otps ≡ some x
    → find (has_code_id x.id) (retired_codes q user x.id otps) ≡ some (retired q user x)
find-retired q user x otps e =
    consumed_find q (is_unconsumed user) x.id
      (if claimable_code x.id q.now x then consume q.now x else x)
      (modify (claimable_code x.id q.now) (consume q.now) otps)
      (consumed_find q (claimable_code x.id q.now) x.id x otps e)

module _ (t : Tables) (c : Crypto) (l : Limits) where
  -- A verification that gave a session gives the same session, and changes nothing, when it is
  -- repeated within the replay window with the same phone number, code, key and request, whatever
  -- else the repetition brings and whatever has become of the other rows in between, the events that
  -- the limits count included: the row with the key and the user of the code are as they were. The
  -- lifetime of an access token is a positive safe integer of seconds.
  pub issue_rows-replay :
      (q again : Verification) (others : Db → Db) (user : User) (x : OtpCode) (db after later : Db)
      (session : Session)
      → issue_rows t c l q user x db ≡ ok (session, after)
      → find (has_code_id x.id) db.otps ≡ some x
      → find (has_key q.key_hash) later.otps ≡ find (has_key q.key_hash) after.otps
      → find (λ u. u.id == x.user_id) later.users ≡ some user
      → user.phone ≡ q.phone
      → c.compare q.otp x.code_hash ≡ true
      → again.phone ≡ q.phone
      → again.otp ≡ q.otp
      → again.key_hash ≡ q.key_hash
      → again.request_hash ≡ q.request_hash
      → again.now ≤ q.now + replay_window_ms
      → 1 ≤ l.sessions.access_token_seconds
      → l.sessions.access_token_seconds ≤ max_safe_integer
      → verify_otp t c l others (ok again) later ≡ (ok session, later)
  unfolding verify_otp replay_otp_verification
  issue_rows-replay q again others user x db after later session e stored kept owner phone matches p
        o k r recent some_life safe_life =
      let done = issue_rows-Issued t c l q user x db after session e in
      let response = c.encrypt q.key_hash q.request_hash session in
      let unique : distinct otp_clash (issued_codes c q user.id x.id session db.otps) ≡ true =
        subst (λ w. distinct otp_clash w ≡ true) done.codes done.unique in
      let here = find-retired q user.id x db.otps stored in
      let row =
        stored_find q x.id response (retired q user.id x) (retired_codes q user.id x.id db.otps)
          here unique in
      let row2 : find (has_key again.key_hash) later.otps
          ≡ some (store_response q response (retired q user.id x)) =
        rw (k, kept, done.codes) row in
      let law = t.otps.find_first_lem (has_key again.key_hash) later.otps in
      let law2 = t.users.find_first_lem (λ u. u.id == x.user_id) later.users in
      let opens =
        c.decrypt-encrypt q.key_hash q.request_hash session (omega (arith, done.expires, some_life))
          (omega (arith, done.expires, safe_life)) in
      ground (arith, law, law2, row2, opens)
