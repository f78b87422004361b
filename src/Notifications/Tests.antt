-- ===== src/Notifications/Tests.antt =====
-- Runs of the notification queue, and its theorems at concrete rows.
use stead.Prelude.{
  ◌+◌, ℕ, zero, suc, ◌≤◌, ◌==◌, ◌≡◌, ◌≢◌, subst, refl, true, false, not, ◌&&◌, ◌||◌, Option, none,
  some, is_none, List, [], ◌∷◌, ok, count, find, any, All, arith, inr,
}
use stead.Store.Memory.{memory}
use stead.Notifications.{
  JobRow, Job, shown, Payload, Content, plain, envelope, otp, body, sent, Queue, Tables, Cipher,
  job_clash, attempt_clash, has_job_id, is_terminal, is_redacted, decrypt_payload, encrypt_payload,
  lock_job,
}
use stead.Notifications.Enqueue.{
  OtpRequest, AlertRequest, LegacyRequest, otp_job, enqueue_otp_requested, enqueue_readiness_alert,
  adopt_legacy_otp_request, is_otp_request_enqueued,
}
use stead.Notifications.Delivery.{
  Sms, claim_ready_job, mark_failed, redact_terminal_payloads, process_job,
}
use stead.Notifications.Deletion.{
  Blocks, begin_account_deletion, can_deliver, clear_account_deletion_block, belongs,
}
use stead.Notifications.Consumer.{Poll, tick, retry, settle_job, process_claimed_job}
use stead.Notifications.Claims.{claim_ready_job_once}
use stead.Notifications.Invariant.{Inv, Sound, tick-Inv}
use stead.Notifications.Requests.{queue-Inv}
use stead.Notifications.Budget.{budget, run_ticks, run_ticks-budget}
use stead.Notifications.Attempts.{
  failure_of, Retried, Dead, mark_failed-Retried, mark_failed-Dead, redact_terminal_payloads_lem,
}
use stead.Notifications.Publish.{claim_ready_job-enqueue, enqueue_otp_requested_once}
use stead.Notifications.Blocked.{
  can_deliver-account, can_deliver-phone, clear_account_deletion_block-begin,
}

abbrev tables : Tables
tables = record { jobs = memory job_clash; failures = memory attempt_clash }

abbrev bytes_of : ℕ → Content → List ℕ
bytes_of phone (otp x) = phone ∷ 0 ∷ x ∷ []
bytes_of phone (body x) = phone ∷ 1 ∷ x ∷ []

abbrev seal : ℕ → Payload → Option (ℕ × List ℕ)
seal iv p = some (iv, bytes_of p.phone p.content)

abbrev payload_of : List ℕ → Option Payload
payload_of (phone ∷ zero ∷ x ∷ []) = some (record { phone = phone; content = otp x })
payload_of (phone ∷ suc k ∷ x ∷ []) = some (record { phone = phone; content = body x })
payload_of _ = none

read_back :
    (phone : ℕ) (x : Content)
    → payload_of (bytes_of phone x) ≡ some (record { phone = phone; content = x })
read_back phone (otp x) = refl
read_back phone (body x) = refl

unseal-seal :
    (iv tag : ℕ) (p : Payload) (text : List ℕ)
    → seal iv p ≡ some (tag, text)
    → payload_of text ≡ some p
unseal-seal iv tag p text e =
    let same : bytes_of p.phone p.content ≡ text = ground arith in
    subst (λ w. payload_of w ≡ some p) same (read_back p.phone p.content)

abbrev cipher : Cipher
cipher = record { seal = seal; unseal = λ iv tag text. payload_of text; unseal-seal = unseal-seal }

abbrev request : OtpRequest
request = record {
  payload = record { phone = 555; content = otp 1234 };
  user_id = some 7;
  otp_code_id = 31;
  dedupe_key = 41;
  new_id = 1;
  iv = 91;
  correlation_id = 61;
  now = 100;
}

abbrev empty : Queue
empty = record { jobs = []; failures = [] }

abbrev row : JobRow
row = otp_job request (envelope 91 91 (555 ∷ 0 ∷ 1234 ∷ []))

abbrev queued : Queue
queued = record { jobs = row ∷ []; failures = [] }

enqueues : enqueue_otp_requested tables cipher request empty ≡ (ok 1, queued)
unfolding enqueue_otp_requested encrypt_payload memory
enqueues = refl

abbrev job : Job
job = record { row = lock_job 200 row; payload = shown request.payload }

abbrev claimed : Queue
claimed = record { jobs = lock_job 200 row ∷ []; failures = [] }

claims : claim_ready_job tables cipher (λ q. q) 200 queued ≡ (ok (some job), claimed)
unfolding claim_ready_job decrypt_payload memory
claims = refl

abbrev other_row : JobRow
other_row = record row { id = 2; otp_code_id = some 32; dedupe_key = some 42; created_at = 110 }

abbrev second : Job
second = record { row = lock_job 300 other_row; payload = shown request.payload }

abbrev two : Queue
two = record { jobs = row ∷ other_row ∷ []; failures = [] }

abbrev two_claimed : Queue
two_claimed = record { jobs = lock_job 200 row ∷ other_row ∷ []; failures = [] }

abbrev both_claimed : Queue
both_claimed = record { jobs = lock_job 200 row ∷ lock_job 300 other_row ∷ []; failures = [] }

claims_first : claim_ready_job tables cipher (λ q. q) 200 two ≡ (ok (some job), two_claimed)
unfolding claim_ready_job decrypt_payload memory
claims_first = refl

claims_second :
    claim_ready_job tables cipher (λ q. q) 300 two_claimed ≡ (ok (some second), both_claimed)
unfolding claim_ready_job decrypt_payload memory
claims_second = refl

encrypts : encrypt_payload cipher 92 request.payload ≡ ok (envelope 92 92 (555 ∷ 0 ∷ 1234 ∷ []))
unfolding encrypt_payload
encrypts = refl

claim_ready_job_once_example : job.row.id ≢ second.row.id
claim_ready_job_once_example =
    claim_ready_job_once tables cipher (λ q. q) (λ q. q) 200 300 two two_claimed two_claimed
      both_claimed job second claims_first (omega arith) refl (omega arith) claims_second
      (omega arith)

-- A finished job whose payload was never redacted.
abbrev leaked : Queue
leaked = record {
  jobs = record row { status = sent; payload_json = plain request.payload } ∷ [];
  failures = [];
}

redact_terminal_payloads_lem_example :
    All
      (λ j. (not (is_terminal j.status) || is_redacted j.payload_json) ≡ true)
      (redact_terminal_payloads tables cipher leaked).jobs
redact_terminal_payloads_lem_example = redact_terminal_payloads_lem tables cipher leaked

mark_failed-Retried_example :
    ((mark_failed tables cipher job 9 300 claimed).failures ≡ failure_of job 300 ∷ [])
    × (j : JobRow) × (find (has_job_id 1) (mark_failed tables cipher job 9 300 claimed).jobs
        ≡ some j)
    × Retried job 300 j
mark_failed-Retried_example = mark_failed-Retried tables cipher job 9 300 claimed refl (omega arith)

abbrev last_job : Job
last_job = record {
  row = record (lock_job 200 row) { attempts = 2 };
  payload = shown request.payload;
}

abbrev last_claimed : Queue
last_claimed = record { jobs = last_job.row ∷ []; failures = [] }

mark_failed-Dead_example :
    ((mark_failed tables cipher last_job 9 300 last_claimed).failures
      ≡ failure_of last_job 300 ∷ [])
    × (j : JobRow) × (find
          (has_job_id 1)
          (mark_failed tables cipher last_job 9 300 last_claimed).jobs
        ≡ some j)
    × Dead j
mark_failed-Dead_example =
    mark_failed-Dead tables cipher last_job 9 300 last_claimed refl (omega arith)

row-Sound : Sound row
row-Sound = record { limit = refl; attempts = omega arith; left = refl; secret = refl }

abbrev no_blocks : Blocks
no_blocks = record { accounts = []; phones = []; ids = []; by_account = [] }

abbrev poll : Poll
poll = record {
  now = 200;
  later = 300;
  before_claim = λ q. q;
  before_check = λ q. q;
  while_sending = λ q. q;
  blocks = no_blocks;
}

abbrev offline : Sms
offline = record { send_otp = λ phone code. inr 9; send_message = λ phone text. inr 9 }

polls : (tick tables cipher offline poll queued).0 ≡ retry
unfolding tick claim_ready_job decrypt_payload process_claimed_job settle_job process_job
    can_deliver memory
polls = refl

only_row : (i : ℕ) → count (has_job_id i) queued.jobs ≤ 1
only_row i = ground arith

tick-Inv_example : Inv (tick tables cipher offline poll queued).1
tick-Inv_example =
    tick-Inv tables cipher offline poll queued only_row (λ d h. h) (λ d h. h) (λ d h. h)
      (row-Sound, tt)

queue-Inv_example :
    ((r : OtpRequest) → Inv (enqueue_otp_requested tables cipher r queued).1)
    × ((r : AlertRequest) → Inv (enqueue_readiness_alert tables cipher r queued).1)
    × ((r : LegacyRequest) → Inv (adopt_legacy_otp_request tables r queued).1)
    × Inv (redact_terminal_payloads tables cipher queued)
queue-Inv_example = queue-Inv tables cipher queued (row-Sound, tt)

claim_ready_job-enqueue_example :
    (claimed_job : Job) × ((claim_ready_job tables cipher (λ d. d) 200 queued).0
      ≡ ok (some claimed_job))
    × (claimed_job.row.id ≡ 1)
    × (claimed_job.payload ≡ shown request.payload)
claim_ready_job-enqueue_example =
    claim_ready_job-enqueue tables cipher request 200 empty queued enqueues refl refl (omega arith)

abbrev same_request : OtpRequest
same_request = record request { new_id = 2; iv = 92 }

enqueue_otp_requested_once_example :
    (enqueue_otp_requested tables cipher same_request queued ≡ (ok 1, queued))
    × (is_otp_request_enqueued tables 41 31 queued.jobs ≡ true)
enqueue_otp_requested_once_example =
    enqueue_otp_requested_once tables cipher request same_request empty queued
      (envelope 92 92 (555 ∷ 0 ∷ 1234 ∷ [])) enqueues refl refl (encrypts)

can_deliver-account_example :
    (can_deliver tables job claimed (begin_account_deletion tables cipher 7 555 queued no_blocks).1
      ≡ false)
    × (can_deliver tables job claimed (
          clear_account_deletion_block 8
            (begin_account_deletion tables cipher 7 555 queued no_blocks).1)
        ≡ false)
can_deliver-account_example =
    can_deliver-account tables cipher 7 555 8 queued claimed no_blocks job refl refl

-- A job from before jobs had users.
abbrev unowned : Queue
unowned = record { jobs = record row { user_id = none } ∷ []; failures = [] }

belongs_to_phone :
    any (λ j. has_job_id 1 j && is_none j.user_id && belongs cipher 7 555 j) unowned.jobs ≡ true
unfolding belongs decrypt_payload
belongs_to_phone = refl

can_deliver-phone_example :
    can_deliver tables job unowned (begin_account_deletion tables cipher 7 555 unowned no_blocks).1
    ≡ false
can_deliver-phone_example =
    can_deliver-phone tables cipher 7 555 unowned unowned no_blocks job belongs_to_phone

blocks_row :
    any (λ y. y == 1) (begin_account_deletion tables cipher 7 555 queued no_blocks).0 ≡ true
unfolding begin_account_deletion belongs memory
blocks_row = refl

clear_account_deletion_block-begin_example :
    (any
        (λ y. y == 7)
        (clear_account_deletion_block 7
          (begin_account_deletion tables cipher 7 555 queued no_blocks).1).accounts
      ≡ false)
    × (any
          (λ y. y == 1)
          (clear_account_deletion_block 7
            (begin_account_deletion tables cipher 7 555 queued no_blocks).1).ids
        ≡ false)
clear_account_deletion_block-begin_example =
    clear_account_deletion_block-begin tables cipher 7 555 queued no_blocks 1 blocks_row

-- Four polls at an offline service: three tries, and then the row is dead.
abbrev four_polls : List Poll
four_polls =
    record poll { now = 1_000; later = 1_000 }
    ∷ record poll { now = 100_000; later = 100_000 }
    ∷ record poll { now = 200_000; later = 200_000 }
    ∷ record poll { now = 300_000; later = 300_000 }
    ∷ []

gives_up :
    ((run_ticks tables cipher offline four_polls queued).0 ≡ 3)
    × (budget (run_ticks tables cipher offline four_polls queued).1.jobs ≡ 0)
unfolding tick claim_ready_job decrypt_payload process_claimed_job settle_job process_job
    mark_failed can_deliver memory
gives_up = (refl, refl)

run_ticks-budget_example :
    (run_ticks tables cipher offline four_polls queued).0
      + budget (run_ticks tables cipher offline four_polls queued).1.jobs
    ≤ 3
run_ticks-budget_example = run_ticks-budget tables cipher offline four_polls queued only_row
