-- ===== src/Auth/Request/Recovery.antt =====
-- Requests that were interrupted, and what a verification makes of a requested code.
use stead.Prelude.{
  ℕ, ◌≡◌, refl, Bool, true, none, some, List, [], ◌∷◌, find, any, modify, ok, arith,
  find-modify_hit,
}
use stead.Store.{distinct}
use stead.Auth.Otp.{OtpCode, otp_clash, Crypto, Limits, phone_of, has_code_id}
use stead.Notifications.{Cipher}
use stead.Notifications.Enqueue.{is_otp_request_enqueued}
use stead.Auth.Request.{
  RequestSettings, CodeRequest, World, Stores, build_otp_request_response, has_request_key,
  complete_request, set_otps, finish,
}
use stead.Auth.Request.Replay.{replay_otp_request, resume}
use stead.Auth.Request.Handler.{request_otp}

-- The completion of a request touches no unique column.
any-completed :
    (p : OtpCode → Bool) (now : ℕ) (o : OtpCode) (rows : List OtpCode)
    → any (otp_clash o) (modify p (complete_request now) rows) ≡ any (otp_clash o) rows
any-completed p now o [] = refl
any-completed p now o (r ∷ rows) = ground (arith, any-completed p now o rows)

distinct-completed :
    (p : OtpCode → Bool) (now : ℕ) (rows : List OtpCode)
    → distinct otp_clash (modify p (complete_request now) rows) ≡ distinct otp_clash rows
distinct-completed p now [] = refl
distinct-completed p now (r ∷ rows) =
    ground (arith, any-completed p now r rows, distinct-completed p now rows)

module _ (t : Stores) (c : Crypto) (l : Limits) (cipher : Cipher) (s : RequestSettings)
    (before_delete before_create : World → World) where
  -- A request that was interrupted after its message was enqueued is completed when it comes again,
  -- however much later: it is answered, its row is completed, and no further message is enqueued.
  pub request_otp-recovers :
      (q : CodeRequest) (row : OtpCode) (w : World)
      → find (has_request_key q.key_hash) w.db.otps ≡ some row
      → find (has_code_id row.id) w.db.otps ≡ some row
      → phone_of t.auth c l row.user_id w.db ≡ some q.phone
      → row.request_completed_at ≡ none
      → is_otp_request_enqueued t.jobs (s.dedupe_key q.key_hash) row.id w.queue.jobs ≡ true
      → distinct otp_clash w.db.otps ≡ true
      → (after : World) × (request_otp t c l cipher s before_delete before_create (ok q) w
          ≡ (ok (build_otp_request_response s row.development_otp), after))
        × (after.queue ≡ w.queue)
        × (find (has_request_key q.key_hash) after.db.otps ≡ some (complete_request q.now row))
  unfolding request_otp replay_otp_request resume finish
  request_otp-recovers q row w found by_id owner unfinished there unique =
      let law = t.auth.otps.find_first_lem (has_request_key q.key_hash) w.db.otps in
      let write = t.auth.otps.update_lem (has_code_id row.id) (complete_request q.now) w.db.otps in
      let kept = distinct-completed (has_code_id row.id) q.now w.db.otps in
      let otps = modify (has_code_id row.id) (complete_request q.now) w.db.otps in
      let hit =
        find-modify_hit (has_request_key q.key_hash) (has_code_id row.id) (complete_request q.now)
          (λ x. refl) w.db.otps row found (ground arith) in
      (set_otps t c l cipher s otps w, ground (arith, law, write, kept), refl, hit)
