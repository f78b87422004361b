-- ===== src/Notifications/Budget.antt =====
-- How many deliveries a queue can still cost.
use stead.Prelude.{
  ℕ, suc, ◌+◌, ◌-◌, ◌≤◌, ◌==◌, ◌≡◌, refl, sym, ap, subst, Bool, false, ◌&&◌, some, List, [], ◌∷◌,
  find, count, modify, arith, Bool-cases, Option-cases, Result-cases, inl, inr, ◌⊎◌, count_mono,
  count_pos_of_find, find_holds, if◌then◌else◌,
}
use stead.Notifications.{
  JobRow, Job, hidden, Queue, Tables, Cipher, is_ready, is_terminal, has_job_id, lock_job,
  failed_row, succeeded,
}
use stead.Notifications.Delivery.{
  claim_ready_job, mark_failed, mark_succeeded, Receipt, Sms, process_job, unreadable_error,
}
use stead.Notifications.Claims.{locked_jobs, claim-Claimed}
use stead.Notifications.Consumer.{
  Outcome, delivered, retry, dead_lettered, Poll, settle_job, process_claimed_job, tick,
}

-- The deliveries that a row still allows.
abbrev pub weight : JobRow → ℕ
weight j = if is_terminal j.status then 0 else suc (j.max_attempts - (j.attempts + 1))

abbrev pub budget : List JobRow → ℕ
budget [] = 0
budget (j ∷ jobs) = weight j + budget jobs

-- Whether a poll tried to deliver a message.
abbrev pub tries : Outcome → ℕ
tries delivered = 1
tries retry = 1
tries dead_lettered = 1
tries _ = 0

abbrev pub UniqueIds : Queue → Type 0
UniqueIds q = (i : ℕ) → count (has_job_id i) q.jobs ≤ 1

budget-locked : (i now : ℕ) (jobs : List JobRow) → budget (locked_jobs i now jobs) ≡ budget jobs
budget-locked i now [] = refl
budget-locked i now (j ∷ jobs) = ground (arith, budget-locked i now jobs)

count-locked :
    (i k now : ℕ) (jobs : List JobRow)
    → count (has_job_id k) (locked_jobs i now jobs) ≡ count (has_job_id k) jobs
count-locked i k now [] = refl
count-locked i k now (j ∷ jobs) = ground (arith, count-locked i k now jobs)

count-modify :
    (k : ℕ) (p : JobRow → Bool) (f : JobRow → JobRow)
    → ((j : JobRow) → (f j).id ≡ j.id)
    → (jobs : List JobRow) → count (has_job_id k) (modify p f jobs) ≡ count (has_job_id k) jobs
count-modify k p f same [] = refl
count-modify k p f same (j ∷ jobs) = ground (arith, same j, count-modify k p f same jobs)

untouched :
    (i : ℕ) (f : JobRow → JobRow) (jobs : List JobRow)
    → count (has_job_id i) jobs ≡ 0
    → budget (modify (has_job_id i) f jobs) ≡ budget jobs
untouched i f [] h = refl
untouched i f (j ∷ jobs) h = ground (arith, untouched i f jobs)

-- An update of one row changes the budget by the weight of the row.
budget-modify :
    (i : ℕ) (f : JobRow → JobRow) (jobs : List JobRow) (row : JobRow)
    → count (has_job_id i) jobs ≤ 1
    → find (has_job_id i) jobs ≡ some row
    → budget (modify (has_job_id i) f jobs) + weight row ≡ budget jobs + weight (f row)
budget-modify i f [] row u e = absurd (cc)
budget-modify i f (j ∷ jobs) row u e = elim (Bool-cases (has_job_id i j)) [
  | inl here ↦
      let same : j ≡ row = ground arith in
      let rest = untouched i f jobs (ground arith) in
      subst
        (λ r.
          budget (modify (has_job_id i) f (j ∷ jobs)) + weight r ≡ budget (j ∷ jobs) + weight (f r))
        same (rw here (omega (arith, rest)))
  | inr other ↦
      let rest = budget-modify i f jobs row (ground arith) (ground arith) in
      rw other (omega (arith, rest))
]

-- A row that was just locked is not finished.
locked_open :
    (i now : ℕ) (jobs : List JobRow) (row : JobRow)
    → count (has_job_id i) jobs ≤ 1
    → 1 ≤ count (λ j. has_job_id i j && is_ready now j) jobs
    → find (has_job_id i) (locked_jobs i now jobs) ≡ some row
    → is_terminal row.status ≡ false
locked_open i now [] row u r e = absurd (ground arith)
locked_open i now (j ∷ jobs) row u r e = elim (Bool-cases (has_job_id i j && is_ready now j)) [
  | inl hit ↦
      let same : lock_job now j ≡ row = ground arith in
      subst (λ x. is_terminal x.status ≡ false) same refl
  | inr miss ↦
      let some_id =
        count_mono (has_job_id i) (λ x. has_job_id i x && is_ready now x) (λ x h. ground arith)
          jobs in
      let off : has_job_id i j ≡ false = ground (arith, some_id) in
      locked_open i now jobs row (ground arith) (ground arith) (ground arith)
]

-- A failed delivery uses one attempt up, and a successful one ends the row.
failed_weight :
    (row : JobRow) (now error : ℕ)
    → is_terminal row.status ≡ false
    → weight (failed_row row now now error row) + 1 ≤ weight row
failed_weight row now error open_row = ground arith

-- A poll during which nothing else touches the queue.
abbrev pub alone : Poll → Poll
alone p = record p { before_claim = λ d. d; before_check = λ d. d; while_sending = λ d. d }

module _ (t : Tables) (c : Cipher) where
  mark_failed-budget :
      (job : Job) (error now : ℕ) (q : Queue)
      → count (has_job_id job.row.id) q.jobs ≤ 1
      → find (has_job_id job.row.id) q.jobs ≡ some job.row
      → is_terminal job.row.status ≡ false
      → budget (mark_failed t c job error now q).jobs + 1 ≤ budget q.jobs
  unfolding mark_failed
  mark_failed-budget job error now q one found open_row =
      let law =
        t.jobs.update_many_lem (has_job_id job.row.id) (failed_row job.row now now error) q.jobs in
      let there =
        count_pos_of_find (has_job_id job.row.id) (has_job_id job.row.id) q.jobs job.row found
          (ground arith) in
      let change =
        budget-modify job.row.id (failed_row job.row now now error) q.jobs job.row one found in
      let less = failed_weight job.row now error open_row in
      ground (arith, law, there, change, less)

  mark_succeeded-budget :
      (job : Job) (r : Receipt) (now : ℕ) (q : Queue)
      → count (has_job_id job.row.id) q.jobs ≤ 1
      → find (has_job_id job.row.id) q.jobs ≡ some job.row
      → is_terminal job.row.status ≡ false
      → budget (mark_succeeded t c job r now q).jobs + 1 ≤ budget q.jobs
  unfolding mark_succeeded
  mark_succeeded-budget job r now q one found open_row =
      let law =
        t.jobs.update_many_lem (has_job_id job.row.id) (succeeded now r.provider r.message_id)
          q.jobs in
      let change =
        budget-modify job.row.id (succeeded now r.provider r.message_id) q.jobs job.row one found in
      ground (arith, law, change)

  settle_job-budget :
      (sms : Sms) (p : Poll) (job : Job) (r : Receipt ⊎ ℕ) (q : Queue)
      → count (has_job_id job.row.id) q.jobs ≤ 1
      → find (has_job_id job.row.id) q.jobs ≡ some job.row
      → is_terminal job.row.status ≡ false
      → tries (settle_job t c sms p job r q).0 + budget (settle_job t c sms p job r q).1.jobs
        ≤ budget q.jobs
  unfolding settle_job
  settle_job-budget sms p job (inl r) q one found open_row =
      omega (arith, mark_succeeded-budget job r p.later q one found open_row)
  settle_job-budget sms p job (inr e) q one found open_row =
      let less = mark_failed-budget job e p.later q one found open_row in ground (arith, less)

  -- A claim alone costs nothing, or one attempt where the payload cannot be read.
  claim-budget :
      (now : ℕ) (q : Queue)
      → UniqueIds q
      → budget (claim_ready_job t c (λ d. d) now q).1.jobs ≤ budget q.jobs
  unfolding claim_ready_job
  claim-budget now q unique =
      elim (Option-cases (t.jobs.find_oldest (is_ready now) (λ j. j.created_at) q.jobs)) [
        | inl nothing ↦ ground arith
        | inr (x, found) ↦
            let law =
              t.jobs.update_many_lem (λ j. has_job_id x.id j && is_ready now j) (lock_job now)
                q.jobs in
            let law2 = t.jobs.find_first_lem (has_job_id x.id) (locked_jobs x.id now q.jobs) in
            let same = budget-locked x.id now q.jobs in
            let locked : Queue = record q { jobs = locked_jobs x.id now q.jobs } in
            elim (Option-cases (find (has_job_id x.id) (locked_jobs x.id now q.jobs))) [
              | inl gone ↦ ground (arith, law, law2, same)
              | inr (row, here) ↦
                  elim (Bool-cases (count (λ j. has_job_id x.id j && is_ready now j) q.jobs == 0)) [
                    | inl none_ready ↦ ground (arith, law, law2, same)
                    | inr hit ↦
                        let open_row =
                          locked_open x.id now q.jobs row (unique x.id) (ground arith) here in
                        let id : row.id ≡ x.id =
                          ground (arith, find_holds (has_job_id x.id) locked.jobs row here) in
                        let less =
                          mark_failed-budget (record { row = row; payload = hidden })
                            unreadable_error now locked
                            (omega (arith, count-locked x.id row.id now q.jobs, unique row.id))
                            (subst (λ i. find (has_job_id i) locked.jobs ≡ some row) (sym id) here)
                            open_row in
                        ground (arith, law, law2, same, less)
                  ]
            ]
      ]

  tick-budget :
      (sms : Sms) (p : Poll) (q : Queue)
      → UniqueIds q
      → tries (tick t c sms (alone p) q).0 + budget (tick t c sms (alone p) q).1.jobs
        ≤ budget q.jobs
  unfolding tick process_claimed_job
  tick-budget sms p q unique =
      let claimed = claim-budget p.now q unique in
      elim (Result-cases (claim_ready_job t c (λ d. d) p.now q).0) [
        | inr (x, e) ↦ ground (arith, claimed)
        | inl (o, e) ↦ elim (Option-cases o) [
          | inl nothing ↦ ground (arith, claimed)
          | inr (job, it) ↦
              let after = (claim_ready_job t c (λ d. d) p.now q).1 in
              let done = claim-Claimed t c (λ d. d) p.now q after job (ground arith) in
              let locked = done.jobs in
              let one : count (has_job_id job.row.id) after.jobs ≤ 1 = omega (
                arith,
                ap (count (has_job_id job.row.id)) locked,
                count-locked job.row.id job.row.id p.now q.jobs,
                unique job.row.id,
              ) in
              let open_row =
                locked_open job.row.id p.now q.jobs job.row (unique job.row.id) done.ready
                  (subst (λ js. find (has_job_id job.row.id) js ≡ some job.row) locked done.row) in
              let settled =
                settle_job-budget sms (alone p) job (process_job sms job.row.type job.payload) after
                  one done.row open_row in
              ground (arith, claimed, settled)
        ]
      ]

  mark_failed-ids :
      (k : ℕ) (job : Job) (e now : ℕ) (q : Queue)
      → count (has_job_id k) (mark_failed t c job e now q).jobs ≡ count (has_job_id k) q.jobs
  unfolding mark_failed
  mark_failed-ids k job e now q =
      let law =
        t.jobs.update_many_lem (has_job_id job.row.id) (failed_row job.row now now e) q.jobs in
      let same =
        count-modify k (has_job_id job.row.id) (failed_row job.row now now e) (λ j. refl) q.jobs in
      ground (arith, law, same)

  claim-ids :
      (k now : ℕ) (q : Queue)
      → count (has_job_id k) (claim_ready_job t c (λ d. d) now q).1.jobs
        ≡ count (has_job_id k) q.jobs
  unfolding claim_ready_job
  claim-ids k now q =
      elim (Option-cases (t.jobs.find_oldest (is_ready now) (λ j. j.created_at) q.jobs)) [
        | inl nothing ↦ ground arith
        | inr (x, found) ↦
            let law =
              t.jobs.update_many_lem (λ j. has_job_id x.id j && is_ready now j) (lock_job now)
                q.jobs in
            let locked : Queue = record q { jobs = locked_jobs x.id now q.jobs } in
            elim (Option-cases (t.jobs.find_first (has_job_id x.id) locked.jobs)) [
              | inl gone ↦ ground (arith, law, gone, count-locked x.id k now q.jobs)
              | inr (row, here) ↦
                  let failed =
                    mark_failed-ids k (record { row = row; payload = hidden }) unreadable_error now
                      locked in
                  ground (arith, law, here, failed, count-locked x.id k now q.jobs)
            ]
      ]

  settle_job-ids :
      (k : ℕ) (sms : Sms) (p : Poll) (job : Job) (r : Receipt ⊎ ℕ) (q : Queue)
      → count (has_job_id k) (settle_job t c sms p job r q).1.jobs ≡ count (has_job_id k) q.jobs
  unfolding settle_job mark_succeeded
  settle_job-ids k sms p job (inl r) q =
      let law =
        t.jobs.update_many_lem (has_job_id job.row.id) (succeeded p.later r.provider r.message_id)
          q.jobs in
      let same =
        count-modify k (has_job_id job.row.id) (succeeded p.later r.provider r.message_id)
          (λ j. refl) q.jobs in
      ground (arith, law, same)
  settle_job-ids k sms p job (inr e) q = mark_failed-ids k job e p.later q

  tick-ids :
      (k : ℕ) (sms : Sms) (p : Poll) (q : Queue)
      → count (has_job_id k) (tick t c sms (alone p) q).1.jobs ≡ count (has_job_id k) q.jobs
  unfolding tick process_claimed_job
  tick-ids k sms p q =
      let claimed = claim-ids k p.now q in
      let after = (claim_ready_job t c (λ d. d) p.now q).1 in
      elim (Result-cases (claim_ready_job t c (λ d. d) p.now q).0) [
        | inr (x, e) ↦ ground (arith, claimed)
        | inl (o, e) ↦ elim (Option-cases o) [
          | inl nothing ↦ ground (arith, claimed)
          | inr (job, it) ↦
              let settled =
                settle_job-ids k sms (alone p) job (process_job sms job.row.type job.payload)
                  after in
              ground (arith, claimed, settled)
        ]
      ]

  -- Polls one after the other, with the number of deliveries that they tried.
  abbrev pub run_ticks : Sms → List Poll → Queue → ℕ × Queue
  run_ticks sms [] q = (0, q)
  run_ticks sms (p ∷ ps) q =
      let first = tick t c sms (alone p) q in
      let rest = run_ticks sms ps first.1 in (tries first.0 + rest.0, rest.1)

  -- However many polls follow, a queue costs no more deliveries than its unfinished rows allow
  -- attempts: each try uses one up, and what is left bounds the tries to come. The polls run alone
  -- and the identifiers of the rows are unique.
  pub run_ticks-budget :
      (sms : Sms) (ps : List Poll) (q : Queue)
      → UniqueIds q
      → (run_ticks sms ps q).0 + budget (run_ticks sms ps q).1.jobs ≤ budget q.jobs
  run_ticks-budget sms [] q unique = omega arith
  run_ticks-budget sms (p ∷ ps) q unique =
      let after = (tick t c sms (alone p) q).1 in
      let rest = run_ticks-budget sms ps after (λ i. omega (arith, tick-ids i sms p q, unique i)) in
      omega (arith, rest, tick-budget sms p q unique)
