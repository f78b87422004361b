-- ===== src/Auth/Request/Idempotent.antt =====
-- A request that is made twice leaves one code and one message.
use stead.Prelude.{
  ℕ, ◌+◌, ◌==◌, ◌≡◌, refl, sym, ap, ◌∙◌, subst, ltb, Bool, true, false, ◌&&◌, none, some, List, [],
  ◌∷◌, ◌++◌, find, any, ok, arith, inl, inr, Bool-cases, Option-cases, Result-cases,
  find-append_right, find_holds, ◌≤◌,
}
use stead.Store.{Picks, distinct}
use stead.Auth.Otp.{otp_requested, User, OtpCode, otp_clash, Crypto, Limits, phone_of}
use stead.Notifications.{Cipher}
use stead.Notifications.Enqueue.{enqueue_otp_requested}
use stead.Auth.Request.{
  RequestSettings, CodeRequest, Response, World, Stores, has_request_key, new_code_row, set_otps,
  add_event, request_event, publication,
}
use stead.Auth.Request.Replay.{replay_otp_request}
use stead.Auth.Request.Handler.{
  upsert_user, latest_code, publish, answer_early, create_code, issue_code, request_otp,
}
use mathlib.Core.List.{Memᴰ}
use stead.Auth.Request.Answered.{Answered, finish-Answered, replay-Answered, replay-none}

-- Nothing else happens meanwhile.
abbrev pub quiet : World → World
quiet w = w

abbrev pub same_id : User → User → Bool
same_id u v = u.id == v.id

any_found :
    (p q : User → Bool) (users : List User) (u : User)
    → find p users ≡ some u
    → any q users ≡ false
    → q u ≡ false
any_found p q [] u e h = absurd (cc)
any_found p q (v ∷ users) u e h = elim (Bool-cases (p v)) [
  | inl here ↦ let same : v ≡ u = ground arith in sym (ap q same) ∙ ground arith
  | inr other ↦ any_found p q users u (ground arith) (ground arith)
]

none_found : (p : User → Bool) (users : List User) → any p users ≡ false → find p users ≡ none
none_found p [] h = refl
none_found p (u ∷ users) h = ground (arith, none_found p users)

found_by_id :
    (phone : ℕ) (u : User) (users : List User)
    → distinct same_id users ≡ true
    → find (λ v. v.phone == phone) users ≡ some u
    → find (λ v. v.id == u.id) users ≡ some u
found_by_id phone u [] d e = absurd (cc)
found_by_id phone u (v ∷ users) d e = elim (Bool-cases (v.phone == phone)) [
  | inl here ↦ let same : v ≡ u = ground arith in ground (arith, ap (λ x. x.id) same)
  | inr other ↦
      let apart = any_found (λ x. x.phone == phone) (same_id v) users u (ground arith) in
      ground (arith, found_by_id phone u users, apart)
]

-- A row that satisfies the test is found, or another before it.
member_found :
    (p : OtpCode → Bool) (rows : List OtpCode) (x : OtpCode)
    → Memᴰ x rows
    → p x ≡ true
    → find p rows ≡ none
    → false ≡ true
member_found p [] x m h missing = elim m [ ]
member_found p (o ∷ rows) x (Memᴰ.head e) h missing = let hit = sym (ap p e) ∙ h in ground arith
member_found p (o ∷ rows) x (Memᴰ.tail m) h missing = member_found p rows x m h (ground arith)

pub unused_key :
    (row : OtpCode) (rows : List OtpCode)
    → any (otp_clash row) rows ≡ false
    → find (has_request_key row.request_key_hash) rows ≡ none
unused_key row [] h = refl
unused_key row (o ∷ rows) h = ground (arith, unused_key row rows)

module _ (t : Stores) (c : Crypto) (l : Limits) (cipher : Cipher) (s : RequestSettings) where
  publish-Answered :
      (q : CodeRequest) (user : User) (w after : World) (r : Response)
      → publish t c l cipher s q user w ≡ (ok r, after)
      → find (has_request_key q.key_hash) w.db.otps ≡ some (new_code_row s q user.id)
      → phone_of t.auth c l user.id w.db ≡ some q.phone
      → Answered t c l cipher s q r after
  unfolding publish phone_of
  publish-Answered q user w after r e found owner =
      let recorded =
        add_event t c l cipher s (request_event q otp_requested (some user.id) (some q.new_code))
          w in
      let queue =
        (enqueue_otp_requested t.jobs cipher (publication s q user.id) recorded.queue).1 in
      finish-Answered t c l cipher s q (new_code_row s q user.id)
        (record recorded { queue = queue }) after r (ground arith) found owner

  create_code-Answered :
      (q : CodeRequest) (user : User) (w after : World) (r : Response)
      → create_code t c l cipher s quiet quiet q user w ≡ (ok r, after)
      → phone_of t.auth c l user.id w.db ≡ some q.phone
      → Answered t c l cipher s q r after
  unfolding create_code phone_of
  create_code-Answered q user w after r e owner =
      let row = new_code_row s q user.id in
      let law = t.auth.otps.create_lem row w.db.otps in
      elim (Bool-cases (any (otp_clash row) w.db.otps)) [
        | inl clash ↦ replay-Answered t c l cipher s q w after r (ground (arith, law))
        | inr free ↦
            publish-Answered q user (set_otps t c l cipher s (w.db.otps ++ row ∷ []) w) after r
              (ground (arith, law))
              (find-append_right (has_request_key q.key_hash) w.db.otps (row ∷ [])
                  (unused_key row w.db.otps free)
                ∙ ground arith)
              owner
      ]

  -- The user of the phone number, with rows of users as the tables keep them.
  pub upserted :
      (q : CodeRequest) (user : User) (w known : World)
      → upsert_user t c l cipher s q w ≡ some (user, known)
      → distinct same_id w.db.users ≡ true
      → any (λ u. u.id == q.new_user) w.db.users ≡ false
      → (phone_of t.auth c l user.id known.db ≡ some q.phone) × (known.db.otps ≡ w.db.otps)
  unfolding upsert_user phone_of
  upserted q user w known e d fresh =
      let by_phone = t.auth.users.find_first_lem (λ u. u.phone == q.phone) w.db.users in
      elim (Option-cases (find (λ u. u.phone == q.phone) w.db.users)) [
        | inr (u, found) ↦
            let same : u ≡ user = ground (arith, by_phone) in
            let phone = find_holds (λ u. u.phone == q.phone) w.db.users u found in
            let there = found_by_id q.phone u w.db.users d found in
            let by_id = t.auth.users.find_first_lem (λ v. v.id == u.id) w.db.users in
            (ground (arith, by_phone, phone, there, by_id), ground (arith, by_phone))
        | inl missing ↦
            let new : User = record { id = q.new_user; phone = q.phone; display_name = none } in
            let law = t.auth.users.create_lem new w.db.users in
            let by_id =
              t.auth.users.find_first_lem (λ u. u.id == q.new_user) (w.db.users ++ new ∷ []) in
            let there =
              find-append_right (λ u. u.id == q.new_user) w.db.users (new ∷ [])
                (none_found (λ u. u.id == q.new_user) w.db.users fresh) in
            (ground (arith, by_phone, law, by_id, there), ground (arith, by_phone, law))
      ]

  -- The cooldown has no answer for a key that no row has.
  pub early :
      (q : CodeRequest) (user : User) (latest : OtpCode) (w after : World) (r : Response)
      → answer_early t c l cipher s q user latest w ≡ (ok r, after)
      → find (has_request_key q.key_hash) w.db.otps ≡ none
      → Memᴰ latest w.db.otps
      → false ≡ true
  unfolding answer_early
  early q user latest w after r e missing m =
      member_found (has_request_key q.key_hash) w.db.otps latest m (ground arith) missing

  issue_code-Answered :
      (q : CodeRequest) (w after : World) (r : Response)
      → issue_code t c l cipher s quiet quiet q w ≡ (ok r, after)
      → find (has_request_key q.key_hash) w.db.otps ≡ none
      → distinct same_id w.db.users ≡ true
      → any (λ u. u.id == q.new_user) w.db.users ≡ false
      → Answered t c l cipher s q r after
  unfolding issue_code latest_code
  issue_code-Answered q w after r e missing d fresh =
      elim (Option-cases (upsert_user t c l cipher s q w)) [
        | inl failed ↦ absurd (ground arith)
        | inr ((user, known), made) ↦
            let (owner, same) = upserted q user w known made d fresh in
            elim (Option-cases (latest_code t c l cipher s q user.id known)) [
              | inl cold ↦ create_code-Answered q user known after r (ground arith) owner
              | inr (latest, found) ↦
                  let law =
                    t.auth.otps.find_latest_lem
                      (λ o. o.user_id == user.id && ltb q.now (o.created_at + s.cooldown_ms))
                      (λ o. o.created_at) known.db.otps in
                  let bad : false ≡ true =
                    (early q user latest known after r (ground arith)
                      (subst (λ rows. find (has_request_key q.key_hash) rows ≡ none) (sym same)
                        missing)
                      (subst
                        (Picks
                          (λ o. o.user_id == user.id && ltb q.now (o.created_at + s.cooldown_ms))
                          (λ best o. o.created_at ≤ best.created_at) known.db.otps)
                        found law).0) in
                  absurd (cc)
            ]
      ]

  answered :
      (q : CodeRequest) (w after : World) (r : Response)
      → request_otp t c l cipher s quiet quiet (ok q) w ≡ (ok r, after)
      → distinct otp_clash w.db.otps ≡ true
      → distinct same_id w.db.users ≡ true
      → any (λ u. u.id == q.new_user) w.db.users ≡ false
      → Answered t c l cipher s q r after
  unfolding request_otp
  answered q w after r e unique ids fresh =
      let (result, between) = replay_otp_request t c l cipher s quiet q w in
      elim (Result-cases (replay_otp_request t c l cipher s quiet q w).0) [
        | inr (x, thrown) ↦ absurd (ground arith)
        | inl (some earlier, replayed) ↦ replay-Answered t c l cipher s q w after r (ground arith)
        | inl (none, new_key) ↦
            let (missing, users) = replay-none t c l cipher s q w between (ground arith) unique in
            issue_code-Answered q between after r (ground arith) missing
              (subst (λ us. distinct same_id us ≡ true) (sym users) ids)
              (subst (λ us. any (λ u. u.id == q.new_user) us ≡ false) (sym users) fresh)
      ]

  replayed :
      (q again : CodeRequest) (w : World) (r : Response)
      → Answered t c l cipher s q r w
      → again.key_hash ≡ q.key_hash
      → again.phone ≡ q.phone
      → request_otp t c l cipher s quiet quiet (ok again) w ≡ (ok r, w)
  unfolding request_otp replay_otp_request
  replayed q again w r (row, found, owner, done, same) key phone =
      let law = t.auth.otps.find_first_lem (has_request_key again.key_hash) w.db.otps in
      let there = subst (λ k. find (has_request_key k) w.db.otps ≡ some row) (sym key) found in
      ground (arith, law, there)

  -- A request that was answered is answered the same way when it comes again with its key and phone
  -- number, at whatever time and from wherever, and the repetition changes nothing. The requests run
  -- alone, in tables with their unique indexes, and a new identifier for a user is not in use.
  pub request_otp_again :
      (q again : CodeRequest) (w after : World) (r : Response)
      → request_otp t c l cipher s quiet quiet (ok q) w ≡ (ok r, after)
      → distinct otp_clash w.db.otps ≡ true
      → distinct same_id w.db.users ≡ true
      → any (λ u. u.id == q.new_user) w.db.users ≡ false
      → again.key_hash ≡ q.key_hash
      → again.phone ≡ q.phone
      → request_otp t c l cipher s quiet quiet (ok again) after ≡ (ok r, after)
  unfolding request_otp
  request_otp_again q again w after r e unique ids fresh key phone =
      replayed q again after r (answered q w after r e unique ids fresh) key phone
