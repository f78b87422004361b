-- ===== src/Notifications/Invariant.antt =====
-- What holds of every row of the queue.
use stead.Prelude.{
  ◌||◌, not, ltb, ℕ, ◌≤◌, ◌<◌, ◌==◌, ◌≡◌, refl, subst, true, false, ◌&&◌, Option, some, List, [],
  ◌∷◌, ok, find, count, modify, All, arith, Bool-cases, Option-cases, Result-cases, inl, inr, ◌⊎◌,
  All-modify, count_mono,
}
use stead.Notifications.{
  JobRow, Job, JobPayload, hidden, Queue, Tables, Cipher, is_ready, is_terminal, is_redacted,
  has_job_id, lock_job, failed_row, succeeded, redact,
}
use stead.Notifications.Enqueue.{LegacyRequest, max_attempts, adopt}
use stead.Notifications.Delivery.{
  claim_ready_job, mark_failed, mark_succeeded, Receipt, Sms, process_job, unreadable_error,
}
use stead.Notifications.Claims.{locked_jobs, claim-Claimed}
use stead.Notifications.Consumer.{Poll, settle_job, process_claimed_job, tick}

-- A row is allowed three attempts; it has some left unless it is sent or dead, and then its payload is
-- redacted.
pub record Sound (j : JobRow) : Type 0 where
  pub limit : j.max_attempts ≡ max_attempts
  pub attempts : j.attempts ≤ max_attempts
  pub left : (is_terminal j.status || ltb j.attempts max_attempts) ≡ true
  pub secret : (not (is_terminal j.status) || is_redacted j.payload_json) ≡ true

abbrev pub Inv : Queue → Type 0
Inv q = All Sound q.jobs

-- What a job in memory keeps of a sound row that was not finished.
pub record Open (job : Job) : Type 0 where
  pub limit : job.row.max_attempts ≡ max_attempts
  pub left : job.row.attempts < max_attempts

failed-Sound :
    (job : Job) (now later error : ℕ) (j : JobRow)
    → Open job
    → Sound j
    → Sound (failed_row job.row now later error j)
failed-Sound job now later error j o s = record {
  limit = s.limit;
  attempts = ground (arith, o.left);
  left = ground (arith, o.left, o.limit);
  secret = ground (arith, o.left, o.limit);
}

succeeded-Sound : (now : ℕ) (p m : Option ℕ) (j : JobRow) → Sound j → Sound (succeeded now p m j)
succeeded-Sound now p m j s = record {
  limit = s.limit;
  attempts = s.attempts;
  left = refl;
  secret = refl;
}

pub redacted-Sound : (j : JobRow) → Sound j → Sound (redact j)
redacted-Sound j s = record {
  limit = s.limit;
  attempts = s.attempts;
  left = s.left;
  secret = ground arith;
}

pub adopt-Sound : (r : LegacyRequest) (j : JobRow) → Sound j → Sound (adopt r j)
adopt-Sound r j s = record {
  limit = s.limit;
  attempts = s.attempts;
  left = s.left;
  secret = s.secret;
}

-- A lock is put on rows that are ready, so on unfinished ones.
locked-Sound :
    (i now : ℕ) (jobs : List JobRow)
    → All Sound jobs
    → All Sound (modify (λ j. has_job_id i j && is_ready now j) (lock_job now) jobs)
locked-Sound i now [] h = tt
locked-Sound i now (j ∷ jobs) (s, ss) = elim (Bool-cases (has_job_id i j && is_ready now j)) [
  | inl hit ↦
      let fresh : Sound (lock_job now j) = record {
        limit = s.limit;
        attempts = s.attempts;
        left = ground (arith, s.left);
        secret = refl;
      } in
      rw hit (fresh, locked-Sound i now jobs ss)
  | inr miss ↦ rw miss (s, locked-Sound i now jobs ss)
]

-- A row that was just locked is not finished.
locked-Open :
    (i now : ℕ) (payload : JobPayload) (jobs : List JobRow) (row : JobRow)
    → All Sound jobs
    → count (has_job_id i) jobs ≤ 1
    → 1 ≤ count (λ j. has_job_id i j && is_ready now j) jobs
    → find (has_job_id i) (locked_jobs i now jobs) ≡ some row
    → Open (record { row = row; payload = payload })
locked-Open i now payload [] row h u r e = absurd (ground arith)
locked-Open i now payload (j ∷ jobs) row (s, ss) u r e =
    elim (Bool-cases (has_job_id i j && is_ready now j)) [
      | inl hit ↦
          let same : lock_job now j ≡ row = ground arith in
          record { limit = ground (arith, s.limit); left = ground (arith, s.left) }
      | inr miss ↦
          let some_id =
            count_mono (has_job_id i) (λ x. has_job_id i x && is_ready now x) (λ x h. ground arith)
              jobs in
          let off : has_job_id i j ≡ false = ground (arith, some_id) in
          let later : find (has_job_id i) (locked_jobs i now jobs) ≡ some row = ground arith in
          locked-Open i now payload jobs row ss (ground arith) (ground arith) later
    ]

module _ (t : Tables) (c : Cipher) where
  pub mark_failed-Inv :
      (job : Job) (error now : ℕ) (q : Queue)
      → Open job
      → Inv q
      → Inv (mark_failed t c job error now q)
  unfolding mark_failed
  mark_failed-Inv job error now q o h =
      let law =
        t.jobs.update_many_lem (has_job_id job.row.id) (failed_row job.row now now error) q.jobs in
      let all =
        All-modify Sound (has_job_id job.row.id) (failed_row job.row now now error)
          (λ j s. failed-Sound job now now error j o s) q.jobs h in
      ground (arith, law, all)

  mark_succeeded-Inv :
      (job : Job) (r : Receipt) (now : ℕ) (q : Queue) → Inv q → Inv (mark_succeeded t c job r now q)
  unfolding mark_succeeded
  mark_succeeded-Inv job r now q h =
      let law =
        t.jobs.update_many_lem (has_job_id job.row.id) (succeeded now r.provider r.message_id)
          q.jobs in
      let all =
        All-modify Sound (has_job_id job.row.id) (succeeded now r.provider r.message_id)
          (λ j s. succeeded-Sound now r.provider r.message_id j s) q.jobs h in
      ground (arith, law, all)

  settle_job-Inv :
      (sms : Sms) (p : Poll) (job : Job) (r : Receipt ⊎ ℕ) (q : Queue)
      → Open job
      → Inv q
      → Inv (settle_job t c sms p job r q).1
  unfolding settle_job
  settle_job-Inv sms p job (inl r) q o h = mark_succeeded-Inv job r p.later q h
  settle_job-Inv sms p job (inr e) q o h = mark_failed-Inv job e p.later q o h

  process_claimed_job-Inv :
      (sms : Sms) (p : Poll) (job : Job) (q : Queue)
      → ((d : Queue) → Inv d → Inv (p.while_sending d))
      → Open job
      → Inv q
      → Inv (process_claimed_job t c sms p job q).1
  unfolding process_claimed_job
  process_claimed_job-Inv sms p job q keeps o h =
      let settled =
        settle_job-Inv sms p job (process_job sms job.row.type job.payload) (p.while_sending q) o
          (keeps q h) in
      ground (arith, settled)

  -- A claim whose payload cannot be read counts as a failure.
  claim-from :
      (others : Queue → Queue) (now : ℕ) (q : Queue) (x : JobRow)
      → t.jobs.find_oldest (is_ready now) (λ j. j.created_at) q.jobs ≡ some x
      → ((i : ℕ) → count (has_job_id i) (others q).jobs ≤ 1)
      → Inv (others q)
      → Inv (claim_ready_job t c others now q).1
  unfolding claim_ready_job
  claim-from others now q x found unique h =
      let law =
        t.jobs.update_many_lem (λ j. has_job_id x.id j && is_ready now j) (lock_job now)
          (others q).jobs in
      let law2 = t.jobs.find_first_lem (has_job_id x.id) (locked_jobs x.id now (others q).jobs) in
      let kept = locked-Sound x.id now (others q).jobs h in
      let locked : Queue = record (others q) { jobs = locked_jobs x.id now (others q).jobs } in
      elim (Option-cases (find (has_job_id x.id) (locked_jobs x.id now (others q).jobs))) [
        | inl gone ↦ ground (arith, law, law2, kept)
        | inr (row, here) ↦
            elim (Bool-cases
              (count (λ j. has_job_id x.id j && is_ready now j) (others q).jobs == 0)) [
                | inl zero ↦ ground (arith, law, law2, kept)
                | inr hit ↦
                    let o =
                      locked-Open x.id now hidden (others q).jobs row h (unique x.id) (ground arith)
                        here in
                    let failed =
                      mark_failed-Inv (record { row = row; payload = hidden }) unreadable_error now
                        locked o kept in
                    ground (arith, law, law2, kept, failed)
              ]
      ]

  claim-Inv :
      (others : Queue → Queue) (now : ℕ) (q : Queue)
      → ((i : ℕ) → count (has_job_id i) (others q).jobs ≤ 1)
      → ((d : Queue) → Inv d → Inv (others d))
      → Inv q
      → Inv (claim_ready_job t c others now q).1
  unfolding claim_ready_job
  claim-Inv others now q unique keeps h =
      elim (Option-cases (t.jobs.find_oldest (is_ready now) (λ j. j.created_at) q.jobs)) [
        | inl none_ready ↦ ground arith
        | inr (x, found) ↦ claim-from others now q x found unique (keeps q h)
      ]

  claimed-Open :
      (others : Queue → Queue) (now : ℕ) (q after : Queue) (job : Job)
      → claim_ready_job t c others now q ≡ (ok (some job), after)
      → count (has_job_id job.row.id) (others q).jobs ≤ 1
      → Inv (others q)
      → Open job
  claimed-Open others now q after job e one h =
      let done = claim-Claimed t c others now q after job e in
      let row : find (has_job_id job.row.id) (locked_jobs job.row.id now (others q).jobs)
          ≡ some job.row =
        subst (λ w. find (has_job_id job.row.id) w ≡ some job.row) done.jobs done.row in
      let o = locked-Open job.row.id now job.payload (others q).jobs job.row h one done.ready row in
      record { limit = o.limit; left = o.left }

  -- One poll keeps every row within its three attempts, with some left unless it is finished, and the
  -- payload of every finished row redacted, where what happens in between keeps this and
  -- identifiers are unique.
  pub tick-Inv :
      (sms : Sms) (p : Poll) (q : Queue)
      → ((i : ℕ) → count (has_job_id i) (p.before_claim q).jobs ≤ 1)
      → ((d : Queue) → Inv d → Inv (p.before_claim d))
      → ((d : Queue) → Inv d → Inv (p.before_check d))
      → ((d : Queue) → Inv d → Inv (p.while_sending d))
      → Inv q
      → Inv (tick t c sms p q).1
  unfolding tick
  tick-Inv sms p q unique k1 k2 k3 h =
      let claimed = claim-Inv p.before_claim p.now q unique k1 h in
      elim (Result-cases (claim_ready_job t c p.before_claim p.now q).0) [
        | inr (x, e) ↦ ground (arith, claimed)
        | inl (o, e) ↦ elim (Option-cases o) [
          | inl nothing ↦ ground (arith, claimed)
          | inr (job, it) ↦
              let open_job =
                claimed-Open p.before_claim p.now q (claim_ready_job t c p.before_claim p.now q).1
                  job (ground arith) (unique job.row.id) (k1 q h) in
              let done =
                process_claimed_job-Inv sms p job
                  (p.before_check (claim_ready_job t c p.before_claim p.now q).1) k3 open_job
                  (k2 (claim_ready_job t c p.before_claim p.now q).1 claimed) in
              ground (arith, done)
        ]
      ]
