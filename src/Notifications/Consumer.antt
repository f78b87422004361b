-- ===== src/Notifications/Consumer.antt =====
-- notification-consumer.service.ts: one poll of the queue.
use stead.Prelude.{ℕ, ◌+◌, leb, Option, none, some, ◌⊎◌, inl, inr, Result, ok, err, if◌then◌else◌}
use stead.Notifications.{Job, Queue, Tables, Cipher}
use stead.Notifications.Delivery.{
  Receipt, Sms, process_job, mark_succeeded, mark_failed, claim_ready_job,
}
use stead.Notifications.Deletion.{Blocks, can_deliver}

pub data Outcome : Type 0 where
  empty cancelled delivered retry dead_lettered error : Outcome

-- What one poll finds: the times of the claim and of the result, what others do before the
-- conditional write of the claim, before the check for deletion and while the message is sent, and
-- the sets of the queue at the check.
pub record Poll : Type 0 where
  pub now : ℕ
  pub later : ℕ
  pub before_claim : Queue → Queue
  pub before_check : Queue → Queue
  pub while_sending : Queue → Queue
  pub blocks : Blocks

module _ (t : Tables) (c : Cipher) (sms : Sms) where
  unfoldable pub settle_job : Poll → Job → Receipt ⊎ ℕ → Queue → Outcome × Queue
  settle_job p job (inl receipt) q = (delivered, mark_succeeded t c job receipt p.later q)
  settle_job p job (inr e) q = (
    if leb job.row.max_attempts (job.row.attempts + 1) then dead_lettered else retry,
    mark_failed t c job e p.later q,
  )

  unfoldable pub process_claimed_job : Poll → Job → Queue → Outcome × Queue
  process_claimed_job p job q =
      if can_deliver t job q p.blocks
      then settle_job p job (process_job sms job.row.type job.payload) (p.while_sending q)
      else (cancelled, q)

  process_claim : Poll → Result (Option Job) → Queue → Outcome × Queue
  process_claim p (err e) after = (error, after)
  process_claim p (ok none) after = (empty, after)
  process_claim p (ok (some job)) after = process_claimed_job p job (p.before_check after)

  -- `tick`, where no other poll of this process is running.
  unfoldable pub tick : Poll → Queue → Outcome × Queue
  unfolding process_claim
  tick p q =
      let (claimed, after) = claim_ready_job t c p.before_claim p.now q in
      process_claim p claimed after
