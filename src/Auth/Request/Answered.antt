-- ===== src/Auth/Request/Answered.antt =====
-- A request that was answered is answered in the same way again.
use stead.Prelude.{
  ℕ, ◌≡◌, refl, ap, ◌∙◌, subst, Bool, true, false, not, none, some, List, [], ◌∷◌, is_some, find,
  any, filter, ok, arith, inl, inr, Bool-cases, Option-cases, find-modify_hit,
}
use stead.Store.{distinct}
use stead.Auth.Otp.{OtpCode, otp_clash, Crypto, Limits, phone_of, has_code_id}
use stead.Notifications.{Cipher}
use stead.Notifications.Enqueue.{adopt_legacy_otp_request}
use stead.Auth.Request.{
  RequestSettings, CodeRequest, Response, World, Stores, build_otp_request_response,
  has_request_key, complete_request, legacy_request, is_abandoned, finish, delete_codes,
}
use stead.Auth.Request.Replay.{enqueued, replay_otp_request, resume, remove_abandoned}

module _ (t : Stores) (c : Crypto) (l : Limits) (cipher : Cipher) (s : RequestSettings) where
  -- The row of the key belongs to the phone number, is completed, and holds the answer.
  abbrev pub Answered : CodeRequest → Response → World → Type 0
  Answered q r w =
      (row : OtpCode) × (find (has_request_key q.key_hash) w.db.otps ≡ some row)
      × (phone_of t.auth c l row.user_id w.db ≡ some q.phone)
      × (is_some row.request_completed_at ≡ true)
      × (build_otp_request_response s row.development_otp ≡ r)

  pub finish-Answered :
      (q : CodeRequest) (row : OtpCode) (w after : World) (r : Response)
      → finish t c l cipher s q row.id row.development_otp w ≡ (ok r, after)
      → find (has_request_key q.key_hash) w.db.otps ≡ some row
      → phone_of t.auth c l row.user_id w.db ≡ some q.phone
      → Answered q r after
  unfolding finish phone_of
  finish-Answered q row w after r e found owner =
      let law = t.auth.otps.update_lem (has_code_id row.id) (complete_request q.now) w.db.otps in
      let hit =
        find-modify_hit (has_request_key q.key_hash) (has_code_id row.id) (complete_request q.now)
          (λ x. refl) w.db.otps row found (ground arith) in
      (
        complete_request q.now row,
        ground (arith, law, hit),
        ground (arith, law),
        refl,
        ground (arith, law),
      )

  adopted_world : CodeRequest → OtpCode → World → World
  adopted_world q row w = record w {
    queue = (adopt_legacy_otp_request t.jobs (legacy_request s q row) w.queue).1;
  }

  removed-Answered :
      (q : CodeRequest) (row : OtpCode) (w after : World) (r : Response)
      → remove_abandoned t c l cipher s (λ w. w) q row w ≡ (ok (some r), after)
      → finish t c l cipher s q row.id row.development_otp w ≡ (ok r, after)
  unfolding remove_abandoned
  removed-Answered q row w after r e = ground arith

  resume-Answered :
      (q : CodeRequest) (row : OtpCode) (w after : World) (r : Response)
      → resume t c l cipher s (λ w. w) q row w ≡ (ok (some r), after)
      → find (has_request_key q.key_hash) w.db.otps ≡ some row
      → phone_of t.auth c l row.user_id w.db ≡ some q.phone
      → Answered q r after
  unfolding resume adopted_world
  resume-Answered q row w after r e found owner =
      elim (Bool-cases (enqueued t c l cipher s (λ w. w) q row w)) [
        | inl there ↦ finish-Answered q row w after r (ground arith) found owner
        | inr absent ↦
            elim (Bool-cases (adopt_legacy_otp_request t.jobs (legacy_request s q row) w.queue).0) [
              | inl linked ↦
                  finish-Answered q row (adopted_world q row w) after r (ground arith) found owner
              | inr unlinked ↦
                  finish-Answered q row (adopted_world q row w) after r
                    (removed-Answered q row (adopted_world q row w) after r (ground arith)) found
                    owner
            ]
      ]

  pub replay-Answered :
      (q : CodeRequest) (w after : World) (r : Response)
      → replay_otp_request t c l cipher s (λ w. w) q w ≡ (ok (some r), after)
      → Answered q r after
  unfolding replay_otp_request
  replay-Answered q w after r e =
      let law = t.auth.otps.find_first_lem (has_request_key q.key_hash) w.db.otps in
      elim (Option-cases (find (has_request_key q.key_hash) w.db.otps)) [
        | inl missing ↦ absurd (ground (arith, law))
        | inr (row, found) ↦
            let owner : phone_of t.auth c l row.user_id w.db ≡ some q.phone = ground (arith, law) in
            elim (Option-cases row.request_completed_at) [
              | inl unfinished ↦ resume-Answered q row w after r (ground (arith, law)) found owner
              | inr (at, done) ↦
                  (row, ground (arith, law), ground (arith, law), ground arith, ground (arith, law))
            ]
      ]

no_key_left :
    (k : ℕ) (row : OtpCode) (p : OtpCode → Bool) (rows : List OtpCode)
    → has_request_key k row ≡ true
    → any (otp_clash row) rows ≡ false
    → find (has_request_key k) (filter p rows) ≡ none
no_key_left k row p [] h free = refl
no_key_left k row p (o ∷ rows) h free = ground (arith, no_key_left k row p rows h)

-- Where keys are unique, the removal of the row takes its key out of the table.
removed_key :
    (k now : ℕ) (row : OtpCode) (rows : List OtpCode)
    → distinct otp_clash rows ≡ true
    → find (has_request_key k) rows ≡ some row
    → is_abandoned row.id now row ≡ true
    → find (has_request_key k) (filter (λ o. not (is_abandoned row.id now o)) rows) ≡ none
removed_key k now row [] d found gone = refl
removed_key k now row (o ∷ rows) d found gone = elim (Bool-cases (has_request_key k o)) [
  | inl here ↦
      let same : o ≡ row = ground arith in
      let free = subst (λ x. any (otp_clash x) rows ≡ false) same (ground arith) in
      let off = ap (is_abandoned row.id now) same ∙ gone in
      ground (arith, no_key_left k row (λ o. not (is_abandoned row.id now o)) rows, same)
  | inr other ↦ ground (arith, removed_key k now row rows)
]

module _ (t : Stores) (c : Crypto) (l : Limits) (cipher : Cipher) (s : RequestSettings) where
  delete_codes-none :
      (k now : ℕ) (row : OtpCode) (n : ℕ) (w after : World)
      → delete_codes t c l cipher s (is_abandoned row.id now) w ≡ some (n, after)
      → distinct otp_clash w.db.otps ≡ true
      → find (has_request_key k) w.db.otps ≡ some row
      → is_abandoned row.id now row ≡ true
      → (find (has_request_key k) after.db.otps ≡ none) × (after.db.users ≡ w.db.users)
  unfolding delete_codes
  delete_codes-none k now row n w after e d found gone =
      let law = t.auth.otps.delete_many_lem (is_abandoned row.id now) w.db.otps in
      (ground (arith, law, removed_key k now row w.db.otps d found gone), ground (arith, law))

  removed-none :
      (q : CodeRequest) (row : OtpCode) (w after : World)
      → remove_abandoned t c l cipher s (λ w. w) q row w ≡ (ok none, after)
      → distinct otp_clash w.db.otps ≡ true
      → find (has_request_key q.key_hash) w.db.otps ≡ some row
      → is_abandoned row.id q.now row ≡ true
      → (find (has_request_key q.key_hash) after.db.otps ≡ none) × (after.db.users ≡ w.db.users)
  unfolding remove_abandoned
  removed-none q row w after e d found gone =
      elim (Option-cases (delete_codes t c l cipher s (is_abandoned row.id q.now) w)) [
        | inl refused ↦ absurd (ground arith)
        | inr ((n, left), deleted) ↦
            delete_codes-none q.key_hash q.now row n w after (ground arith) d found gone
      ]

  resume-none :
      (q : CodeRequest) (row : OtpCode) (w after : World)
      → resume t c l cipher s (λ w. w) q row w ≡ (ok none, after)
      → row.request_completed_at ≡ none
      → (remove_abandoned t c l cipher s (λ w. w) q row (adopted_world t c l cipher s q row w)
          ≡ (ok none, after))
        × (is_abandoned row.id q.now row ≡ true)
  unfolding resume adopted_world
  resume-none q row w after e open_row = (ground arith, ground arith)

  pub replay-none :
      (q : CodeRequest) (w after : World)
      → replay_otp_request t c l cipher s (λ w. w) q w ≡ (ok none, after)
      → distinct otp_clash w.db.otps ≡ true
      → (find (has_request_key q.key_hash) after.db.otps ≡ none) × (after.db.users ≡ w.db.users)
  unfolding replay_otp_request adopted_world
  replay-none q w after e d =
      let law = t.auth.otps.find_first_lem (has_request_key q.key_hash) w.db.otps in
      elim (Option-cases (find (has_request_key q.key_hash) w.db.otps)) [
        | inl missing ↦ (ground (arith, law), ground (arith, law))
        | inr (row, found) ↦ elim (Option-cases row.request_completed_at) [
          | inr (at, done) ↦ absurd (ground (arith, law))
          | inl unfinished ↦
              let (removed, gone) = resume-none q row w after (ground (arith, law)) unfinished in
              removed-none q row (adopted_world t c l cipher s q row w) after removed d found gone
        ]
      ]
