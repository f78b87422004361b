-- ===== src/Auth/Request/Verified.antt =====
-- The code that was requested is the one that decides a verification.
use stead.Prelude.{
  ℕ, ◌+◌, ◌==◌, ◌≡◌, refl, sym, ap, ◌∙◌, subst, ltb, Bool, true, false, ◌&&◌, none, some, List, [],
  ◌∷◌, ◌++◌, find, any, modify, All, ok, arith, inl, inr, Bool-cases, Option-cases,
  find-append_right, find_holds, ◌≤◌, ◌<◌,
}
use stead.Store.{Picks, distinct}
use stead.Auth.Otp.{
  Db, has_key, replay_otp_verification, User, OtpCode, otp_clash, Crypto, Limits, has_code_id,
}
use stead.Notifications.{Cipher}
use stead.Auth.Request.{
  RequestSettings, CodeRequest, Response, World, Stores, has_request_key, complete_request,
  new_code_row, code_life_ms, finish, set_otps,
}
use stead.Auth.Request.Replay.{replay_otp_request}
use stead.Auth.Request.Handler.{
  upsert_user, latest_code, publish, create_code, issue_code, request_otp,
}
use mathlib.Core.List.{Memᴰ}
use stead.Auth.Otp.{Verification, is_live_code}
use stead.Auth.Otp.Verify.{verify_otp, attempt, limited, judge, find_and_judge}
use stead.Auth.Request.Idempotent.{same_id, upserted, early, quiet}

modify-append :
    (p : OtpCode → Bool) (now : ℕ) (rows : List OtpCode) (row : OtpCode)
    → any p rows ≡ false
    → p row ≡ true
    → modify p (complete_request now) (rows ++ row ∷ []) ≡ rows ++ complete_request now row ∷ []
modify-append p now [] row free hit = ground arith
modify-append p now (o ∷ rows) row free hit = ground (arith, modify-append p now rows row)

-- Among rows that are older than the last one, the latest that is live is the last.
latest_is_last :
    (p : OtpCode → Bool) (now : ℕ) (rows : List OtpCode) (row best : OtpCode)
    → All (λ o. p o ≡ true → o.created_at < now) rows
    → Memᴰ best (rows ++ row ∷ [])
    → p best ≡ true
    → now ≤ best.created_at
    → best ≡ row
latest_is_last p now [] row best a (Memᴰ.head e) h late = e
latest_is_last p now [] row best a (Memᴰ.tail m) h late = elim m [ ]
latest_is_last p now (o ∷ rows) row best (older, a) (Memᴰ.head e) h late =
    absurd (ground (arith, older (sym (ap p e) ∙ h), ap (λ x. x.created_at) e))
latest_is_last p now (o ∷ rows) row best (older, a) (Memᴰ.tail m) h late =
    latest_is_last p now rows row best a m h late

last_of {κ} :
    (P : OtpCode → Type κ) (rows : List OtpCode) (row : OtpCode) → All P (rows ++ row ∷ []) → P row
last_of P [] row (h, _) = h
last_of P (o ∷ rows) row (_, h) = last_of P rows row h

module _ (t : Stores) (c : Crypto) (l : Limits) (cipher : Cipher) (s : RequestSettings) where
  -- What an answered request with a new key has done.
  published :
      (q : CodeRequest) (user : User) (w after : World) (r : Response)
      → publish t c l cipher s q user w ≡ (ok r, after)
      → (after.db.users ≡ w.db.users)
        × (after.db.otps ≡ modify (has_code_id q.new_code) (complete_request q.now) w.db.otps)
  unfolding publish finish
  published q user w after r e =
      let law =
        t.auth.otps.update_lem (has_code_id q.new_code) (complete_request q.now) w.db.otps in
      (ground (arith, law), ground (arith, law))

  created :
      (q : CodeRequest) (user : User) (w after : World) (r : Response)
      → create_code t c l cipher s quiet quiet q user w ≡ (ok r, after)
      → find (has_request_key q.key_hash) w.db.otps ≡ none
      → any (has_code_id q.new_code) w.db.otps ≡ false
      → (after.db.users ≡ w.db.users)
        × (after.db.otps ≡ w.db.otps ++ complete_request q.now (new_code_row s q user.id) ∷ [])
  unfolding create_code replay_otp_request
  created q user w after r e missing fresh =
      let row = new_code_row s q user.id in
      let law = t.auth.otps.create_lem row w.db.otps in
      let looked = t.auth.otps.find_first_lem (has_request_key q.key_hash) w.db.otps in
      elim (Bool-cases (any (otp_clash row) w.db.otps)) [
        | inl clash ↦ absurd (ground (arith, law, looked))
        | inr free ↦
            let (users, otps) =
              published q user (set_otps t c l cipher s (w.db.otps ++ row ∷ []) w) after r
                (ground (arith, law)) in
            (
              users,
              otps
                  ∙ modify-append (has_code_id q.new_code) q.now w.db.otps row fresh (ground arith),
            )
      ]

  -- The codes of a user whom the cooldown lets pass are older than the request.
  older_codes :
      (q : CodeRequest) (user : ℕ) (rows : List OtpCode)
      → 1 ≤ s.cooldown_ms
      → All (λ o. (o.user_id == user && ltb q.now (o.created_at + s.cooldown_ms)) ≡ false) rows
      → (v : ℕ) → All (λ o. is_live_code user v o ≡ true → o.created_at < q.now) rows
  older_codes q user [] cool h v = tt
  older_codes q user (o ∷ rows) cool (h, hs) v =
      ((λ live. ground arith), older_codes q user rows cool hs v)

  -- The latest live code behind older ones.
  requested_code :
      (q : CodeRequest) (user v : ℕ) (rows : List OtpCode) (row : OtpCode)
      → All (λ o. is_live_code user v o ≡ true → o.created_at < q.now) rows
      → row.created_at ≡ q.now
      → is_live_code user v row ≡ true
      → t.auth.otps.find_latest (is_live_code user v) (λ o. o.created_at) (rows ++ row ∷ [])
        ≡ some row
  requested_code q user v rows row older made live =
      let law =
        t.auth.otps.find_latest_lem (is_live_code user v) (λ o. o.created_at) (rows ++ row ∷ []) in
      elim (Option-cases
        (t.auth.otps.find_latest (is_live_code user v) (λ o. o.created_at) (rows ++ row ∷ []))) [
          | inl missing ↦
              let all =
                subst
                  (Picks (is_live_code user v) (λ best o. o.created_at ≤ best.created_at)
                    (rows ++ row ∷ []))
                  missing law in
              let off = last_of (λ o. is_live_code user v o ≡ false) rows row all in
              absurd (ground arith)
          | inr (best, found) ↦
              let (here, live_best, latest) =
                subst
                  (Picks (is_live_code user v) (λ best o. o.created_at ≤ best.created_at)
                    (rows ++ row ∷ []))
                  found law in
              let late =
                last_of (λ o. is_live_code user v o ≡ true → o.created_at ≤ best.created_at) rows
                  row latest live in
              found
              ∙ ap some (
                  latest_is_last (is_live_code user v) q.now rows row best older here live_best
                    (omega (arith, late, made)))
        ]

  abbrev is_warm : CodeRequest → ℕ → OtpCode → Bool
  is_warm q user o = o.user_id == user && ltb q.now (o.created_at + s.cooldown_ms)

  upserted-phone :
      (q : CodeRequest) (user : User) (w known : World)
      → upsert_user t c l cipher s q w ≡ some (user, known)
      → (find (λ u. u.phone == q.phone) known.db.users ≡ some user) × (user.phone ≡ q.phone)
  unfolding upsert_user
  upserted-phone q user w known e =
      let by_phone = t.auth.users.find_first_lem (λ u. u.phone == q.phone) w.db.users in
      elim (Option-cases (find (λ u. u.phone == q.phone) w.db.users)) [
        | inr (u, found) ↦
            let phone = find_holds (λ u. u.phone == q.phone) w.db.users u found in
            (ground (arith, by_phone), ground (arith, by_phone, phone))
        | inl missing ↦
            let new : User = record { id = q.new_user; phone = q.phone; display_name = none } in
            let law = t.auth.users.create_lem new w.db.users in
            let there = find-append_right (λ u. u.phone == q.phone) w.db.users (new ∷ []) missing in
            (ground (arith, by_phone, law, there), ground (arith, by_phone, law))
      ]

  -- The verification that follows a request judges the code that was requested.
  find_and_judge-requested :
      (q : CodeRequest) (w after : World) (r : Response) (v : Verification) (d : Db)
      → request_otp t c l cipher s quiet quiet (ok q) w ≡ (ok r, after)
      → find (has_request_key q.key_hash) w.db.otps ≡ none
      → distinct same_id w.db.users ≡ true
      → any (λ u. u.id == q.new_user) w.db.users ≡ false
      → any (has_code_id q.new_code) w.db.otps ≡ false
      → 1 ≤ s.cooldown_ms
      → v.phone ≡ q.phone
      → v.now < q.now + code_life_ms
      → d.users ≡ after.db.users
      → d.otps ≡ after.db.otps
      → (user : User) × (find_and_judge t.auth c l v d
          ≡ judge t.auth c l v user (complete_request q.now (new_code_row s q user.id)) d)
        × (user.phone ≡ q.phone)
  unfolding request_otp replay_otp_request issue_code latest_code find_and_judge
  find_and_judge-requested q w after r v d e missing ids fresh_user fresh_code cool phone soon
        kept_users kept_otps =
      let looked = t.auth.otps.find_first_lem (has_request_key q.key_hash) w.db.otps in
      elim (Option-cases (upsert_user t c l cipher s q w)) [
        | inl failed ↦ absurd (ground (arith, looked))
        | inr ((user, known), made) ↦
            let (owner, same) = upserted t c l cipher s q user w known made ids fresh_user in
            let (by_phone, called) = upserted-phone q user w known made in
            let missing' =
              subst (λ rows. find (has_request_key q.key_hash) rows ≡ none) (sym same) missing in
            let fresh' =
              subst (λ rows. any (has_code_id q.new_code) rows ≡ false) (sym same) fresh_code in
            let law =
              t.auth.otps.find_latest_lem (is_warm q user.id) (λ o. o.created_at) known.db.otps in
            elim (Option-cases
              (t.auth.otps.find_latest (is_warm q user.id) (λ o. o.created_at) known.db.otps)) [
                | inr (latest, found) ↦
                    let (here, warm, newest) =
                      subst
                        (Picks (is_warm q user.id) (λ best o. o.created_at ≤ best.created_at)
                          known.db.otps)
                        found law in
                    let bad : false ≡ true =
                      early t c l cipher s q user latest known after r (ground (arith, looked))
                        missing' here in
                    absurd (cc)
                | inl cold ↦
                    let off =
                      subst
                        (Picks (is_warm q user.id) (λ best o. o.created_at ≤ best.created_at)
                          known.db.otps)
                        cold law in
                    let (users, otps) =
                      created q user known after r (ground (arith, looked)) missing' fresh' in
                    let row = complete_request q.now (new_code_row s q user.id) in
                    let next =
                      subst
                        (λ rows.
                          t.auth.otps.find_latest (is_live_code user.id v.now) (λ o. o.created_at)
                            rows
                          ≡ some row)
                        (sym (kept_otps ∙ otps))
                        (requested_code q user.id v.now known.db.otps row
                          (older_codes q user.id known.db.otps cool off v.now) refl
                          (ground arith)) in
                    let seen = t.auth.users.find_first_lem (λ u. u.phone == v.phone) d.users in
                    let who =
                      subst (λ us. find (λ u. u.phone == q.phone) us ≡ some user)
                        (sym (kept_users ∙ users)) by_phone in
                    let who' =
                      subst (λ p. find (λ u. u.phone == p) d.users ≡ some user) (sym phone) who in
                    (user, ground (arith, seen, who', next), called)
              ]
      ]

  -- A code that was requested under a new key decides the verification of its phone number that
  -- follows before it expires, as long as the users and the codes stay as the request left them: no
  -- later request, verification or lockout came in between. The request runs alone, the cooldown is
  -- positive and its new identifiers are not in use; the verification has a new key, meets no limit
  -- on its network address or its device, and runs alone.
  pub verify_otp-requested :
      (q : CodeRequest) (w after : World) (r : Response) (v : Verification) (d : Db)
      → request_otp t c l cipher s quiet quiet (ok q) w ≡ (ok r, after)
      → find (has_request_key q.key_hash) w.db.otps ≡ none
      → distinct same_id w.db.users ≡ true
      → any (λ u. u.id == q.new_user) w.db.users ≡ false
      → any (has_code_id q.new_code) w.db.otps ≡ false
      → 1 ≤ s.cooldown_ms
      → v.phone ≡ q.phone
      → v.now < q.now + code_life_ms
      → d.users ≡ after.db.users
      → d.otps ≡ after.db.otps
      → find (has_key v.key_hash) d.otps ≡ none
      → limited t.auth c l v.ip l.failures_per_ip (λ e. e.ip) v d ≡ none
      → limited t.auth c l v.device l.failures_per_device (λ e. e.device_hash) v d ≡ none
      → (user : User) × (verify_otp t.auth c l (λ x. x) (ok v) d
          ≡ judge t.auth c l v user (complete_request q.now (new_code_row s q user.id)) d)
        × (user.phone ≡ q.phone)
  unfolding verify_otp attempt replay_otp_verification
  verify_otp-requested q w after r v d e missing ids fresh_user fresh_code cool phone soon
        kept_users kept_otps new_key by_ip by_device =
      let (user, judged, called) =
        find_and_judge-requested q w after r v d e missing ids fresh_user fresh_code cool phone soon
          kept_users kept_otps in
      let law = t.auth.otps.find_first_lem (has_key v.key_hash) d.otps in
      (user, ground (arith, law, new_key, by_ip, by_device, judged), called)
