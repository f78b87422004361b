-- ===== src/Auth/Otp/Issue.antt =====
-- What the transaction of `issueVerifiedSession` writes when it commits.
use stead.Prelude.{ℕ, ◌≤◌, ◌≡◌, refl, true, List, [], ◌∷◌, ok, count, modify, arith}
use stead.Store.{distinct}
use stead.Auth.Sessions.{Session}
use stead.Auth.Sessions
use stead.Auth.Otp.{
  User, OtpCode, Db, Tables, Crypto, Limits, Verification, is_unconsumed, consume, has_code_id,
  otp_clash, claimable_code, store_response, issue_rows,
}

-- The codes of the user, all consumed.
abbrev pub retired_codes : Verification → ℕ → ℕ → List OtpCode → List OtpCode
retired_codes q user code otps =
    modify (is_unconsumed user) (consume q.now)
      (modify (claimable_code code q.now) (consume q.now) otps)

abbrev pub issued_codes : Crypto → Verification → ℕ → ℕ → Session → List OtpCode → List OtpCode
issued_codes c q user code session otps =
    modify (has_code_id code) (store_response q (c.encrypt q.key_hash q.request_hash session))
      (retired_codes q user code otps)

pub all_consumed :
    (q : Verification) (user : ℕ) (otps : List OtpCode)
    → count (is_unconsumed user) (modify (is_unconsumed user) (consume q.now) otps) ≡ 0
all_consumed q user [] = refl
all_consumed q user (o ∷ otps) = ground (arith, all_consumed q user otps)

pub count-stored :
    (q : Verification) (user code : ℕ) (response : List ℕ) (otps : List OtpCode)
    → count (is_unconsumed user) (modify (has_code_id code) (store_response q response) otps)
      ≡ count (is_unconsumed user) otps
count-stored q user code response [] = refl
count-stored q user code response (o ∷ otps) =
    ground (arith, count-stored q user code response otps)

module _ (t : Tables) (c : Crypto) (l : Limits) where
  pub record Issued (q : Verification) (user : User) (code : OtpCode) (db after : Db)
      (session : Session) : Type 0 where
    pub claimed : 1 ≤ count (claimable_code code.id q.now) db.otps
    pub codes : after.otps ≡ issued_codes c q user.id code.id session db.otps
    pub unique : distinct otp_clash after.otps ≡ true
    pub family :
        Sessions.issue_family t.tokens l.sessions q.new_id q.raw_hash user.id q.family q.device
          q.now db.tokens
        ≡ ok after.tokens
    pub users : after.users ≡ db.users
    pub signed : q.sign user.id ≡ ok session.token
    pub refresh : session.refresh_token ≡ q.raw
    pub expires : session.expires_in ≡ l.sessions.access_token_seconds

  pub issue_rows-Issued :
      (q : Verification) (user : User) (code : OtpCode) (db after : Db) (session : Session)
      → issue_rows t c l q user code db ≡ ok (session, after)
      → Issued q user code db after session
  unfolding issue_rows
  issue_rows-Issued q user code db after session e =
      let law = t.otps.update_many_lem (claimable_code code.id q.now) (consume q.now) db.otps in
      let law2 =
        t.otps.update_many_lem (is_unconsumed user.id) (consume q.now)
          (modify (claimable_code code.id q.now) (consume q.now) db.otps) in
      let law3 =
        t.otps.update_lem (has_code_id code.id)
          (store_response q (c.encrypt q.key_hash q.request_hash session))
          (retired_codes q user.id code.id db.otps) in
      record {
        claimed = ground (arith, law, law2, law3);
        codes = ground (arith, law, law2, law3);
        unique = ground (arith, law, law2, law3);
        family = ground (arith, law, law2, law3);
        users = ground (arith, law, law2, law3);
        signed = ground (arith, law, law2, law3);
        refresh = ground (arith, law, law2, law3);
        expires = ground (arith, law, law2, law3);
      }
