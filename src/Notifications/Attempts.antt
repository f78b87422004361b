-- ===== src/Notifications/Attempts.antt =====
-- What becomes of a job that fails, and of its payload.
use stead.Prelude.{
  ℕ, ◌+◌, ◌≤◌, ◌<◌, ◌≡◌, refl, ap, leb, true, false, not, ◌&&◌, ◌||◌, some, List, [], ◌∷◌, ◌++◌,
  find, modify, All, arith, find_holds, find-modify_hit, count_pos_of_find,
}
use stead.Notifications.{
  pending, dead_letter, JobRow, Job, FailureAttempt, Queue, Tables, Cipher, is_ready, is_terminal,
  is_redacted, has_job_id, failed_row, redact, redacted,
}
use stead.Notifications.Delivery.{mark_failed, redact_terminal_payloads}

abbrev pub failure_of : Job → ℕ → FailureAttempt
failure_of job now = record {
  job_id = job.row.id;
  attempt_number = job.row.attempts + 1;
  terminal = leb job.row.max_attempts (job.row.attempts + 1);
  failed_at = now;
}

-- The row of a job that may be tried again.
pub record Retried (job : Job) (now : ℕ) (j : JobRow) : Type 0 where
  pub status : j.status ≡ pending
  pub attempts : j.attempts ≡ job.row.attempts + 1
  pub payload : j.payload_json ≡ job.row.payload_json
  pub waits : now ≤ j.next_run_at
  pub bounded : j.next_run_at ≤ now + 30_000

-- The row of a job that is given up.
pub record Dead (j : JobRow) : Type 0 where
  pub status : j.status ≡ dead_letter
  pub payload : j.payload_json ≡ redacted
  pub never : (now : ℕ) → is_ready now j ≡ false

All-redacted :
    (jobs : List JobRow)
    → All
        (λ j. (not (is_terminal j.status) || is_redacted j.payload_json) ≡ true)
        (modify (λ j. is_terminal j.status && not (is_redacted j.payload_json)) redact jobs)
All-redacted [] = tt
All-redacted (j ∷ jobs) = (ground arith, All-redacted jobs)

module _ (t : Tables) (c : Cipher) where
  failed_find :
      (job : Job) (error now : ℕ) (q : Queue)
      → find (has_job_id job.row.id) q.jobs ≡ some job.row
      → ((mark_failed t c job error now q).failures ≡ q.failures ++ failure_of job now ∷ [])
        × (find (has_job_id job.row.id) (mark_failed t c job error now q).jobs
            ≡ some (failed_row job.row now now error job.row))
  unfolding mark_failed
  failed_find job error now q stored =
      let law =
        t.jobs.update_many_lem (has_job_id job.row.id) (failed_row job.row now now error) q.jobs in
      let law2 = t.failures.insert_lem (failure_of job now) q.failures in
      let same_id = find_holds (has_job_id job.row.id) q.jobs job.row stored in
      let one =
        count_pos_of_find (has_job_id job.row.id) (has_job_id job.row.id) q.jobs job.row stored
          same_id in
      let hit =
        find-modify_hit (has_job_id job.row.id) (has_job_id job.row.id)
          (failed_row job.row now now error) (λ j. refl) q.jobs job.row stored same_id in
      (ground (arith, law, law2, one), ground (arith, law, one, hit))

  -- A failed delivery of a stored job with attempts left is recorded, and the job waits, with its
  -- payload, for at most thirty seconds.
  pub mark_failed-Retried :
      (job : Job) (error now : ℕ) (q : Queue)
      → find (has_job_id job.row.id) q.jobs ≡ some job.row
      → job.row.attempts + 1 < job.row.max_attempts
      → ((mark_failed t c job error now q).failures ≡ q.failures ++ failure_of job now ∷ [])
        × (j : JobRow) × (find (has_job_id job.row.id) (mark_failed t c job error now q).jobs
            ≡ some j)
        × Retried job now j
  mark_failed-Retried job error now q stored low =
      let (failures, row) = failed_find job error now q stored in
      (
        failures,
        failed_row job.row now now error job.row,
        row,
        record {
          status = ground arith;
          attempts = refl;
          payload = ground arith;
          waits = ground arith;
          bounded = ground arith;
        },
      )

  -- A failed delivery at the last attempt is recorded, and the job is dead: its payload is redacted,
  -- and it is never ready to be claimed.
  pub mark_failed-Dead :
      (job : Job) (error now : ℕ) (q : Queue)
      → find (has_job_id job.row.id) q.jobs ≡ some job.row
      → job.row.max_attempts ≤ job.row.attempts + 1
      → ((mark_failed t c job error now q).failures ≡ q.failures ++ failure_of job now ∷ [])
        × (j : JobRow) × (find (has_job_id job.row.id) (mark_failed t c job error now q).jobs
            ≡ some j)
        × Dead j
  mark_failed-Dead job error now q stored high =
      let (failures, row) = failed_find job error now q stored in
      (
        failures,
        failed_row job.row now now error job.row,
        row,
        record { status = ground arith; payload = ground arith; never = λ n. ground arith },
      )

  -- The redaction at start leaves no finished job with a readable payload, whatever the rows were.
  pub redact_terminal_payloads_lem :
      (q : Queue)
      → All
          (λ j. (not (is_terminal j.status) || is_redacted j.payload_json) ≡ true)
          (redact_terminal_payloads t c q).jobs
  unfolding redact_terminal_payloads
  redact_terminal_payloads_lem q =
      let p = λ (j : JobRow). is_terminal j.status && not (is_redacted j.payload_json) in
      rw (ap (λ r. r.0) (t.jobs.update_many_lem p redact q.jobs)) (All-redacted q.jobs)
