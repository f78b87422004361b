-- ===== src/Notifications/Delivery.antt =====
-- What takes a job through the queue: `claimReadyJob`, `markSucceeded`, `markFailed`,
-- `redactTerminalPayloads` and the queue depths, then the consumer's `processClaimedJob` and `tick`.
use stead.Prelude.{
  ℕ, ◌+◌, ◌==◌, leb, not, ◌&&◌, ◌||◌, Option, none, some, ◌⊎◌, inr, Result, ok, err, internal,
  if◌then◌else◌,
}
use stead.Notifications.{
  JobType, otp_requested, weekly_summary, risk_alert, risk_recovery, Content, otp, body, JobRow,
  Job, JobPayload, hidden, shown, Queue, Tables, Cipher, decrypt_payload, is_ready, is_pending,
  is_processing, is_dead_letter, is_terminal, is_redacted, has_job_id, lock_job, succeeded,
  failed_row, redact,
}

-- A message that a provider accepted.
pub record Receipt : Type 0 where
  pub provider : Option ℕ
  pub message_id : Option ℕ

-- sms.service.ts and the provider behind it: a message to a phone, or an error number.
pub record Sms : Type 0 where
  pub send_otp : ℕ → Option ℕ → Receipt ⊎ ℕ
  pub send_message : ℕ → Option ℕ → Receipt ⊎ ℕ

-- The errors of a payload that is redacted or cannot be read.
abbrev pub redacted_error : ℕ
redacted_error = 1

abbrev pub unreadable_error : ℕ
unreadable_error = 2

module _ (t : Tables) (c : Cipher) where
  unfoldable pub mark_succeeded : Job → Receipt → ℕ → Queue → Queue
  mark_succeeded job r now q = record q {
    jobs =
        (t.jobs.update_many (has_job_id job.row.id) (succeeded now r.provider r.message_id)
          q.jobs).0;
  }

  -- The nested create of the failure comes with the update of the row: no row, no failure.
  unfoldable pub mark_failed : Job → ℕ → ℕ → Queue → Queue
  mark_failed job error now q =
      let (jobs, n) =
        t.jobs.update_many (has_job_id job.row.id) (failed_row job.row now now error) q.jobs in
      if n == 0 then q else record q {
        jobs = jobs;
        failures =
            t.failures.insert
              (record {
                job_id = job.row.id;
                attempt_number = job.row.attempts + 1;
                terminal = leb job.row.max_attempts (job.row.attempts + 1);
                failed_at = now;
              })
              q.failures;
      }

  -- A job whose payload cannot be read fails at once.
  read_claimed : JobRow → ℕ → Queue → Option Job × Queue
  read_claimed row now q = elim (decrypt_payload c row.payload_json) [
    | ok payload ↦ (some (record { row = row; payload = payload }), q)
    | err e ↦ (none, mark_failed (record { row = row; payload = hidden }) unreadable_error now q)
  ]

  -- `others` is what other consumers and requests do between the choice of a candidate and the
  -- conditional write. A row that is gone after it is an error (findUniqueOrThrow).
  unfoldable pub claim_ready_job : (Queue → Queue) → ℕ → Queue → Result (Option Job) × Queue
  unfolding read_claimed
  claim_ready_job others now q =
      elim (t.jobs.find_oldest (is_ready now) (λ j. j.created_at) q.jobs) [
        | none ↦ (ok none, q)
        | some candidate ↦
            let q = others q in
            let (jobs, n) =
              t.jobs.update_many (λ j. has_job_id candidate.id j && is_ready now j) (lock_job now)
                q.jobs in
            if n == 0
            then (ok none, record q { jobs = jobs })
            else elim (t.jobs.find_first (has_job_id candidate.id) jobs) [
              | none ↦ (err internal, record q { jobs = jobs })
              | some row ↦
                  let (job, after) = read_claimed row now (record q { jobs = jobs }) in
                  (ok job, after)
            ]
      ]

  unfoldable pub redact_terminal_payloads : Queue → Queue
  redact_terminal_payloads q = record q {
    jobs =
        (t.jobs.update_many (λ j. is_terminal j.status && not (is_redacted j.payload_json)) redact
          q.jobs).0;
  }

  unfoldable pub get_queue_depth : Queue → ℕ
  get_queue_depth q = t.jobs.count_where (λ j. is_pending j.status || is_processing j.status) q.jobs

  unfoldable pub get_dead_letter_depth : Queue → ℕ
  get_dead_letter_depth q = t.jobs.count_where (λ j. is_dead_letter j.status) q.jobs

-- A payload of the other shape has no such field.
abbrev pub otp_of : Content → Option ℕ
otp_of (otp code) = some code
otp_of (body text) = none

abbrev pub body_of : Content → Option ℕ
body_of (otp code) = none
body_of (body text) = some text

unfoldable pub process_job : Sms → JobType → JobPayload → Receipt ⊎ ℕ
process_job sms type hidden = inr redacted_error
process_job sms otp_requested (shown p) = sms.send_otp p.phone (otp_of p.content)
process_job sms weekly_summary (shown p) = sms.send_message p.phone (body_of p.content)
process_job sms risk_alert (shown p) = sms.send_message p.phone (body_of p.content)
process_job sms risk_recovery (shown p) = sms.send_message p.phone (body_of p.content)
