-- ===== src/Notifications/Claims.antt =====
-- A claim takes one ready job, and no other claim takes it until its lock times out.
use stead.Prelude.{
  ℕ, true, Bool-cases, ◌+◌, ◌≤◌, ◌<◌, ◌≡◌, ◌≢◌, refl, sym, ap, subst, ◌&&◌, some, List, [], ◌∷◌, ok,
  find, count, modify, arith, Option-cases, inl, inr, find_holds, count_mono,
}
use stead.Notifications.{
  processing, JobRow, Job, Queue, Tables, Cipher, decrypt_payload, is_ready, has_job_id, lock_job,
  lock_timeout_ms,
}
use stead.Notifications.Delivery.{claim_ready_job}

abbrev pub locked_jobs : ℕ → ℕ → List JobRow → List JobRow
locked_jobs i now jobs = modify (λ j. has_job_id i j && is_ready now j) (lock_job now) jobs

-- What is locked is not ready before the lock times out.
held :
    (i later : ℕ) (jobs : List JobRow) (row : JobRow) {since : ℕ}
    → find (has_job_id i) jobs ≡ some row
    → count (has_job_id i) jobs ≤ 1
    → row.status ≡ processing
    → row.locked_at ≡ some since
    → later < since + lock_timeout_ms
    → count (λ j. has_job_id i j && is_ready later j) jobs ≡ 0
held i later [] row e u s l t = refl
held i later (j ∷ jobs) row {since = since} e u s l t = elim (Bool-cases (has_job_id i j)) [
  | inl here ↦
      let same : j ≡ row = ground arith in
      ground (
        arith,
        same,
        count_mono (has_job_id i) (λ x. has_job_id i x && is_ready later x) (λ x h. ground arith)
            jobs,
      )
  | inr other ↦
      let rest = held i later jobs row {since = since} (ground arith) (ground arith) s l t in
      ground (arith, rest)
]

-- Where an identifier is unique, its row is the locked one after a claim.
locked_row :
    (i now : ℕ) (jobs : List JobRow) (row : JobRow)
    → find (has_job_id i) (locked_jobs i now jobs) ≡ some row
    → count (has_job_id i) jobs ≤ 1
    → 1 ≤ count (λ j. has_job_id i j && is_ready now j) jobs
    → (row.status ≡ processing) × (row.locked_at ≡ some now)
locked_row i now [] row e u h = absurd (omega (arith, h))
locked_row i now (j ∷ jobs) row e u h = elim (Bool-cases (has_job_id i j)) [
  | inl here ↦
      let none_else =
        count_mono (has_job_id i) (λ x. has_job_id i x && is_ready now x) (λ x h. ground arith)
          jobs in
      let ready : is_ready now j ≡ true = ground (arith, none_else) in
      let same : lock_job now j ≡ row = ground arith in
      (ap (λ r. r.status) (sym same), ap (λ r. r.locked_at) (sym same))
  | inr other ↦ locked_row i now jobs row (ground arith) (ground arith) (ground arith)
]

module _ (t : Tables) (c : Cipher) where
  -- What a claim that returns a job has done.
  pub record Claimed (now : ℕ) (found after : Queue) (job : Job) : Type 0 where
    pub ready : 1 ≤ count (λ j. has_job_id job.row.id j && is_ready now j) found.jobs
    pub jobs : after.jobs ≡ locked_jobs job.row.id now found.jobs
    pub failures : after.failures ≡ found.failures
    pub row : find (has_job_id job.row.id) after.jobs ≡ some job.row
    pub payload : decrypt_payload c job.row.payload_json ≡ ok job.payload

  claim_from :
      (others : Queue → Queue) (now : ℕ) (q after : Queue) (job : Job) (x : JobRow)
      → t.jobs.find_oldest (is_ready now) (λ j. j.created_at) q.jobs ≡ some x
      → claim_ready_job t c others now q ≡ (ok (some job), after)
      → (1 ≤ count (λ j. has_job_id x.id j && is_ready now j) (others q).jobs)
        × (after.jobs ≡ locked_jobs x.id now (others q).jobs)
        × (after.failures ≡ (others q).failures)
        × (find (has_job_id x.id) after.jobs ≡ some job.row)
        × (decrypt_payload c job.row.payload_json ≡ ok job.payload)
  unfolding claim_ready_job
  claim_from others now q after job x found e =
      let law =
        t.jobs.update_many_lem (λ j. has_job_id x.id j && is_ready now j) (lock_job now)
          (others q).jobs in
      let law2 = t.jobs.find_first_lem (has_job_id x.id) (locked_jobs x.id now (others q).jobs) in
      ground (arith, law, law2)

  pub claim-Claimed :
      (others : Queue → Queue) (now : ℕ) (q after : Queue) (job : Job)
      → claim_ready_job t c others now q ≡ (ok (some job), after)
      → Claimed now (others q) after job
  unfolding claim_ready_job
  claim-Claimed others now q after job e =
      elim (Option-cases (t.jobs.find_oldest (is_ready now) (λ j. j.created_at) q.jobs)) [
        | inl empty ↦ absurd (ground arith)
        | inr (x, found) ↦
            let (ready, jobs, failures, row, payload) =
              claim_from others now q after job x found e in
            let same : job.row.id ≡ x.id =
              ground (arith, find_holds (has_job_id x.id) after.jobs job.row row) in
            record {
              ready = rw same ready;
              jobs = rw same jobs;
              failures = failures;
              row = subst (λ i. find (has_job_id i) after.jobs ≡ some job.row) (sym same) row;
              payload = payload;
            }
      ]

  -- While the row of a claimed job stays as its claim locked it, whatever else other requests do to
  -- the queue, no claim that writes before the lock times out returns the same job, also one that
  -- chose its candidate before the first claim; the identifier is unique.
  pub claim_ready_job_once :
      (others again : Queue → Queue) (now later : ℕ) (q before first second : Queue)
      (job other : Job)
      → claim_ready_job t c others now q ≡ (ok (some job), first)
      → count (has_job_id job.row.id) (others q).jobs ≤ 1
      → find (has_job_id job.row.id) (again before).jobs ≡ some job.row
      → count (has_job_id job.row.id) (again before).jobs ≤ 1
      → claim_ready_job t c again later before ≡ (ok (some other), second)
      → later < now + lock_timeout_ms
      → job.row.id ≢ other.row.id
  claim_ready_job_once others again now later q before first second job other e unique kept one e2
        soon eq =
      let a = claim-Claimed others now q first job e in
      let b = claim-Claimed again later before second other e2 in
      let (locked, since) =
        locked_row job.row.id now (others q).jobs job.row
          (subst (λ rows. find (has_job_id job.row.id) rows ≡ some job.row) a.jobs a.row) unique
          a.ready in
      let none_left =
        held job.row.id later (again before).jobs job.row kept one locked since soon in
      let ready : 1 ≤ count (λ j. has_job_id job.row.id j && is_ready later j) (again before).jobs =
        subst (λ i. 1 ≤ count (λ j. has_job_id i j && is_ready later j) (again before).jobs)
          (sym eq) b.ready in
      omega arith
