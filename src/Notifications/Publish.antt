-- ===== src/Notifications/Publish.antt =====
-- A published message is delivered from one job, and comes out of the queue as it went in.
use stead.Prelude.{
  ℕ, ◌≤◌, ◌==◌, ◌≡◌, refl, sym, ap, ◌∙◌, subst, Bool, true, false, ◌&&◌, none, some, List, [], ◌∷◌,
  ◌++◌, ok, err, internal, find, any, count, modify, All, arith, if◌then◌else◌, Bool-cases,
  Option-cases, Result-cases, inl, inr, find-append_right, count_pos_of_find,
}
use stead.Store.{Picks}
use stead.Notifications.{
  JobRow, Job, shown, Payload, PayloadJson, Queue, Tables, Cipher, encrypt_payload, decrypt_payload,
  is_ready, has_job_id, lock_job, job_clash,
}
use stead.Notifications.Enqueue.{
  OtpRequest, otp_job, enqueue_otp_requested, is_otp_request_enqueued, has_dedupe_key,
}
use stead.Notifications.Delivery.{claim_ready_job}
use mathlib.Core.List.{Memᴰ}

no_clash-find :
    (r : OtpRequest) (payload : PayloadJson) (jobs : List JobRow)
    → any (job_clash (otp_job r payload)) jobs ≡ false
    → find (has_dedupe_key r.dedupe_key) jobs ≡ none
no_clash-find r payload [] e = refl
no_clash-find r payload (j ∷ jobs) e = ground (arith, no_clash-find r payload jobs)

clash-append :
    (r r' : OtpRequest) (payload payload' : PayloadJson) (jobs : List JobRow)
    → r'.dedupe_key ≡ r.dedupe_key
    → any (job_clash (otp_job r' payload')) (jobs ++ otp_job r payload ∷ []) ≡ true
clash-append r r' payload payload' [] e = ground arith
clash-append r r' payload payload' (j ∷ jobs) e =
    ground (arith, clash-append r r' payload payload' jobs)

not_ready_mem :
    (now : ℕ) (jobs : List JobRow) (x y : JobRow)
    → count (is_ready now) jobs ≡ 0
    → Memᴰ x (jobs ++ y ∷ [])
    → is_ready now x ≡ true
    → x ≡ y
not_ready_mem now [] x y none_ready (Memᴰ.head e) ready = e
not_ready_mem now [] x y none_ready (Memᴰ.tail m) ready = elim m [ ]
not_ready_mem now (j ∷ jobs) x y none_ready (Memᴰ.head e) ready =
    let hit : is_ready now j ≡ true = sym (ap (is_ready now) e) ∙ ready in absurd (ground arith)
not_ready_mem now (j ∷ jobs) x y none_ready (Memᴰ.tail m) ready =
    not_ready_mem now jobs x y (ground arith) m ready

find-only :
    (i now : ℕ) (jobs : List JobRow) (y : JobRow)
    → count (has_job_id i) jobs ≡ 0
    → has_job_id i y ≡ true
    → is_ready now y ≡ true
    → find
        (has_job_id i)
        (modify (λ j. has_job_id i j && is_ready now j) (lock_job now) (jobs ++ y ∷ []))
      ≡ some (lock_job now y)
find-only i now [] y none_there same ready = ground arith
find-only i now (j ∷ jobs) y none_there same ready = ground (arith, find-only i now jobs y)

count-only :
    (i now : ℕ) (jobs : List JobRow) (y : JobRow)
    → has_job_id i y ≡ true
    → is_ready now y ≡ true
    → 1 ≤ count (λ j. has_job_id i j && is_ready now j) (jobs ++ y ∷ [])
count-only i now [] y same ready = ground arith
count-only i now (j ∷ jobs) y same ready = ground (arith, count-only i now jobs y)

All-last :
    (p : JobRow → Bool) (jobs : List JobRow) (y : JobRow)
    → All (λ j. p j ≡ false) (jobs ++ y ∷ [])
    → p y ≡ false
All-last p [] y (h, _) = h
All-last p (j ∷ jobs) y (_, h) = All-last p jobs y h

module _ (t : Tables) (c : Cipher) where
  -- What an enqueue that made a new job has done.
  enqueued :
      (r : OtpRequest) (q after : Queue)
      → enqueue_otp_requested t c r q ≡ (ok r.new_id, after)
      → count (has_job_id r.new_id) q.jobs ≡ 0
      → (payload : PayloadJson) × (encrypt_payload c r.iv r.payload ≡ ok payload)
        × (any (job_clash (otp_job r payload)) q.jobs ≡ false)
        × (after.jobs ≡ q.jobs ++ otp_job r payload ∷ [])
  unfolding enqueue_otp_requested
  enqueued r q after e fresh = elim (Result-cases (encrypt_payload c r.iv r.payload)) [
    | inr (x, bad) ↦ absurd (ground arith)
    | inl (payload, good) ↦
        let law = t.jobs.create_lem (otp_job r payload) q.jobs in
        elim (Bool-cases (any (job_clash (otp_job r payload)) q.jobs)) [
          | inr free ↦ (payload, good, free, ground (arith, law))
          | inl taken ↦ elim (Option-cases (find (has_dedupe_key r.dedupe_key) q.jobs)) [
            | inl missing ↦
                absurd
                  (ground (arith, law, t.jobs.find_first_lem (has_dedupe_key r.dedupe_key) q.jobs))
            | inr (j, found) ↦
                let looked = t.jobs.find_first_lem (has_dedupe_key r.dedupe_key) q.jobs in
                let same : has_job_id r.new_id j ≡ true = ground (arith, law, looked) in
                let there =
                  count_pos_of_find (has_dedupe_key r.dedupe_key) (has_job_id r.new_id) q.jobs j
                    found same in
                absurd (omega arith)
          ]
        ]
  ]

  decrypt-encrypt :
      (iv : ℕ) (p : Payload) (text : PayloadJson)
      → encrypt_payload c iv p ≡ ok text
      → decrypt_payload c text ≡ ok (shown p)
  unfolding encrypt_payload decrypt_payload
  decrypt-encrypt iv p text e = elim (Option-cases (c.seal iv p)) [
    | inl no_key ↦ absurd (ground arith)
    | inr ((tag, bytes), sealed) ↦ ground (arith, c.unseal-seal iv tag p bytes)
  ]

  -- The job that is next for a queue with no other ready one.
  chosen :
      (now : ℕ) (jobs : List JobRow) (y : JobRow)
      → count (is_ready now) jobs ≡ 0
      → is_ready now y ≡ true
      → t.jobs.find_oldest (is_ready now) (λ j. j.created_at) (jobs ++ y ∷ []) ≡ some y
  chosen now jobs y none_ready ready =
      let law = t.jobs.find_oldest_lem (is_ready now) (λ j. j.created_at) (jobs ++ y ∷ []) in
      elim (Option-cases (t.jobs.find_oldest (is_ready now) (λ j. j.created_at) (jobs ++ y ∷ []))) [
        | inl none_found ↦
            let all =
              subst
                (Picks (is_ready now) (λ best r. best.created_at ≤ r.created_at) (jobs ++ y ∷ []))
                none_found law in
            let off = All-last (is_ready now) jobs y all in absurd (ground arith)
        | inr (x, found) ↦
            let (here, ready_x, _) =
              subst
                (Picks (is_ready now) (λ best r. best.created_at ≤ r.created_at) (jobs ++ y ∷ []))
                found law in
            found ∙ ap some (not_ready_mem now jobs x y none_ready here ready_x)
      ]

  -- A one-time code that is published to a queue with no other ready job is the next one that is
  -- claimed, with the phone number and the code as they were given.
  pub claim_ready_job-enqueue :
      (r : OtpRequest) (now : ℕ) (q after : Queue)
      → enqueue_otp_requested t c r q ≡ (ok r.new_id, after)
      → count (has_job_id r.new_id) q.jobs ≡ 0
      → count (is_ready now) q.jobs ≡ 0
      → r.now ≤ now
      → (job : Job) × ((claim_ready_job t c (λ d. d) now after).0 ≡ ok (some job))
        × (job.row.id ≡ r.new_id)
        × (job.payload ≡ shown r.payload)
  unfolding claim_ready_job
  claim_ready_job-enqueue r now q after e fresh none_ready time =
      let (payload, encrypted, free, jobs) = enqueued r q after e fresh in
      let y = otp_job r payload in
      let ready : is_ready now y ≡ true = ground arith in
      let next =
        subst (λ w. t.jobs.find_oldest (is_ready now) (λ j. j.created_at) w ≡ some y) (sym jobs)
          (chosen now q.jobs y none_ready ready) in
      let law =
        t.jobs.update_many_lem (λ j. has_job_id r.new_id j && is_ready now j) (lock_job now)
          after.jobs in
      let law2 =
        t.jobs.find_first_lem (has_job_id r.new_id)
          (modify (λ j. has_job_id r.new_id j && is_ready now j) (lock_job now) after.jobs) in
      let row =
        subst
          (λ w.
            find (has_job_id r.new_id)
              (modify (λ j. has_job_id r.new_id j && is_ready now j) (lock_job now) w)
            ≡ some (lock_job now y))
          (sym jobs) (find-only r.new_id now q.jobs y fresh (ground arith) ready) in
      let hit =
        subst (λ w. 1 ≤ count (λ j. has_job_id r.new_id j && is_ready now j) w) (sym jobs)
          (count-only r.new_id now q.jobs y (ground arith) ready) in
      let read = decrypt-encrypt r.iv r.payload payload encrypted in
      (
        record { row = lock_job now y; payload = shown r.payload },
        ground (arith, next, law, law2, row, hit, read),
        refl,
        refl,
      )

  -- Publishing once more under the same dedupe key makes no second job: for the same code it
  -- returns the first one, for another code it fails, and only the first code is known to be
  -- enqueued. The second payload can be encrypted.
  pub enqueue_otp_requested_once :
      (r again : OtpRequest) (q after : Queue) (payload : PayloadJson)
      → enqueue_otp_requested t c r q ≡ (ok r.new_id, after)
      → count (has_job_id r.new_id) q.jobs ≡ 0
      → again.dedupe_key ≡ r.dedupe_key
      → encrypt_payload c again.iv again.payload ≡ ok payload
      → (enqueue_otp_requested t c again after
          ≡ ((if again.otp_code_id == r.otp_code_id then ok r.new_id else err internal), after))
        × (is_otp_request_enqueued t again.dedupe_key again.otp_code_id after.jobs
            ≡ (again.otp_code_id == r.otp_code_id))
  unfolding enqueue_otp_requested is_otp_request_enqueued
  enqueue_otp_requested_once r again q after payload e fresh key sealed =
      let (first, encrypted, free, jobs) = enqueued r q after e fresh in
      let law = t.jobs.create_lem (otp_job again payload) after.jobs in
      let taken =
        subst (λ w. any (job_clash (otp_job again payload)) w ≡ true) (sym jobs)
          (clash-append r again first payload q.jobs key) in
      let looked = t.jobs.find_first_lem (has_dedupe_key again.dedupe_key) after.jobs in
      let missing = no_clash-find r first q.jobs free in
      let there : find (has_dedupe_key r.dedupe_key) after.jobs ≡ some (otp_job r first) =
        subst (λ w. find (has_dedupe_key r.dedupe_key) w ≡ some (otp_job r first)) (sym jobs)
          (find-append_right (has_dedupe_key r.dedupe_key) q.jobs (otp_job r first ∷ []) missing
            ∙ ground arith) in
      (ground (arith, law, taken, looked, there), ground (arith, looked, there))
