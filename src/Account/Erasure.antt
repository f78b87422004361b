-- ===== src/Account/Erasure.antt =====
-- What is left of an account after its deletion.
use stead.Prelude.{
  ℕ, ◌⊎◌, ◌==◌, ◌≡◌, refl, sym, ap, ◌∙◌, subst, Bool, true, false, not, ◌&&◌, ◌||◌, none, some,
  is_none, some_eq, List, [], ◌∷◌, any, find, filter, modify, ok, err, Error, arith, Bool-cases,
  Result-cases, inl, inr, ==_iff,
}
use stead.Auth.Otp.{User, OtpCode, AuthEvent}
use stead.Auth.Request.{is_event_of_any, without_code}
use stead.Notifications.{JobRow, Job, Queue, Cipher, has_job_id}
use stead.Notifications.Delivery.{Sms}
use stead.Notifications.Consumer.{cancelled, Poll, process_claimed_job}
use stead.Notifications.Blocked.{has_belonging}
use stead.Notifications.Deletion.{Blocks, has, belongs, begin_account_deletion, can_deliver}
use stead.Account.{has_user_id}
use stead.Account.Deletion.{
  Vault, VaultTables, erased_job, erased_event, is_failure_of_any, erase_jobs, erase_rows, erase,
  delete_account,
}

any-filter-not :
    {A : Type 0} (p : A → Bool) (rows : List A) → any p (filter (λ r. not (p r)) rows) ≡ false
any-filter-not p [] = refl
any-filter-not p (r ∷ rows) = ground (arith, any-filter-not p rows)

-- No row of the vault is the user's or names the phone number.
abbrev pub is_erased : ℕ → ℕ → Vault → Bool
is_erased user phone v =
    not (any (has_user_id user) v.account.users)
    && not (any (λ p. p.user_id == user) v.account.preferences)
    && not (any (λ r. r.user_id == user) v.account.records)
    && not (any (λ o. o.user_id == user) v.otps)
    && not (any (erased_event user phone) v.events)
    && not (any (λ r. r.user_id == user) v.tokens)
    && not (any (λ g. g.user_id == user) v.goals)
    && not (any (λ r. r.user_id == user) v.transactions)
    && not (any (λ s. s.user_id == user) v.states)
    && not (any (λ p. p.user_id == user) v.alert_preferences)
    && not (any (λ j. some_eq j.user_id user) v.queue.jobs)

jobs_gone :
    (user : ℕ) (ids : List ℕ) (jobs : List JobRow)
    → any (λ j. some_eq j.user_id user) (filter (λ j. not (erased_job user ids j)) jobs) ≡ false
jobs_gone user ids [] = refl
jobs_gone user ids (j ∷ jobs) = ground (arith, jobs_gone user ids jobs)

events_gone :
    (user phone : ℕ) (codes : List OtpCode) (events : List AuthEvent)
    → any (erased_event user phone) (
        modify
          (is_event_of_any codes)
          without_code
          (filter (λ e. not (erased_event user phone e)) events))
      ≡ false
events_gone user phone codes [] = refl
events_gone user phone codes (e ∷ events) = ground (arith, events_gone user phone codes events)

gone_by_id :
    (user i : ℕ) (ids : List ℕ) (jobs : List JobRow)
    → has i ids ≡ true
    → find (has_job_id i) (filter (λ j. not (erased_job user ids j)) jobs) ≡ none
gone_by_id user i ids [] h = refl
gone_by_id user i ids (j ∷ jobs) h = elim (Bool-cases (has_job_id i j)) [
  | inl here ↦
      let out = subst (λ k. has k ids ≡ true) (sym ((==_iff j.id i).0 here)) h in
      ground (arith, out, gone_by_id user i ids jobs)
  | inr other ↦ ground (arith, gone_by_id user i ids jobs)
]

abbrev erased_vault : ℕ → ℕ → List ℕ → Vault → Vault
erased_vault user phone ids v =
    let doomed = filter (λ o. o.user_id == user) v.otps in
    let jobs = filter (erased_job user ids) v.queue.jobs in
    record {
      account = record {
        users = filter (λ u. not (has_user_id user u)) v.account.users;
        preferences = filter (λ p. not (p.user_id == user)) v.account.preferences;
        records = filter (λ r. not (r.user_id == user)) v.account.records;
      };
      otps = filter (λ o. not (o.user_id == user)) v.otps;
      events =
          modify (is_event_of_any doomed) without_code
            (filter (λ e. not (erased_event user phone e)) v.events);
      tokens = filter (λ r. not (r.user_id == user)) v.tokens;
      goals = filter (λ g. not (g.user_id == user)) v.goals;
      transactions = filter (λ r. not (r.user_id == user)) v.transactions;
      states = filter (λ s. not (s.user_id == user)) v.states;
      alert_preferences = filter (λ p. not (p.user_id == user)) v.alert_preferences;
      queue = record {
        jobs = filter (λ j. not (erased_job user ids j)) v.queue.jobs;
        failures = filter (λ f. not (is_failure_of_any jobs f)) v.queue.failures;
      };
    }

erased_vault-is_erased :
    (user phone : ℕ) (ids : List ℕ) (v : Vault)
    → is_erased user phone (erased_vault user phone ids v) ≡ true
erased_vault-is_erased user phone ids v =
    rw
      (
        any-filter-not (has_user_id user) v.account.users,
        any-filter-not (λ p. p.user_id == user) v.account.preferences,
        any-filter-not (λ r. r.user_id == user) v.account.records,
        any-filter-not (λ o. o.user_id == user) v.otps,
        events_gone user phone (filter (λ o. o.user_id == user) v.otps) v.events,
        any-filter-not (λ r. r.user_id == user) v.tokens,
        any-filter-not (λ g. g.user_id == user) v.goals,
        any-filter-not (λ r. r.user_id == user) v.transactions,
        any-filter-not (λ s. s.user_id == user) v.states,
        any-filter-not (λ p. p.user_id == user) v.alert_preferences,
        jobs_gone user ids v.queue.jobs,
      )
      refl

module _ (t : VaultTables) (c : Cipher) where
  left_rows :
      (user phone : ℕ) (ids : List ℕ) (v : Vault)
      → erase_rows t c user phone ids
          (t.account.users.delete_many (has_user_id user) v.account.users).0
          v
        ≡ erased_vault user phone ids v
  unfolding erase_rows erase_jobs
  left_rows user phone ids v =
      let doomed = filter (λ o. o.user_id == user) v.otps in
      rw
        (
          t.account.users.delete_many_lem (has_user_id user) v.account.users,
          t.account.preferences.delete_many_lem (λ p. p.user_id == user) v.account.preferences,
          t.account.records.delete_many_lem (λ r. r.user_id == user) v.account.records,
          t.otps.delete_many_lem (λ o. o.user_id == user) v.otps,
          t.otps.find_many_lem (λ o. o.user_id == user) v.otps,
          t.events.delete_many_lem (erased_event user phone) v.events,
          t.events.update_many_lem (is_event_of_any doomed) without_code
              (filter (λ e. not (erased_event user phone e)) v.events),
          t.tokens.delete_many_lem (λ r. r.user_id == user) v.tokens,
          t.goals.delete_many_lem (λ g. g.user_id == user) v.goals,
          t.transactions.delete_many_lem (λ r. r.user_id == user) v.transactions,
          t.states.delete_many_lem (λ s. s.user_id == user) v.states,
          t.alert_preferences.delete_many_lem (λ p. p.user_id == user) v.alert_preferences,
          t.jobs.jobs.find_many_lem (erased_job user ids) v.queue.jobs,
          t.jobs.jobs.delete_many_lem (erased_job user ids) v.queue.jobs,
          t.jobs.failures.delete_many_lem
              (is_failure_of_any (filter (erased_job user ids) v.queue.jobs)) v.queue.failures,
        )
        refl

  erase_lem :
      (user phone : ℕ) (ids : List ℕ) (v after : Vault)
      → erase t c user phone ids v ≡ ok after
      → after ≡ erased_vault user phone ids v
  unfolding erase
  erase_lem user phone ids v after e =
      let rows : after
          ≡ erase_rows t c user phone ids
              (t.account.users.delete_many (has_user_id user) v.account.users).0 v =
        ground arith in
      rows ∙ left_rows user phone ids v

  erase-is_erased :
      (user phone : ℕ) (ids : List ℕ) (v after : Vault)
      → erase t c user phone ids v ≡ ok after
      → is_erased user phone after ≡ true
  unfolding erase
  erase-is_erased user phone ids v after e =
      ap (is_erased user phone) (erase_lem user phone ids v after e)
      ∙ erased_vault-is_erased user phone ids v

  -- A deletion that succeeds leaves no row of the user in any table, and no sign-in event of the
  -- phone number; one that fails leaves every row as it was.
  pub delete_account-is_erased :
      (user : ℕ) (v : Vault) (b : Blocks) (row : User)
      → find (has_user_id user) v.account.users ≡ some row
      → (((delete_account t c user v b).0 ≡ ok tt)
          × (is_erased user row.phone (delete_account t c user v b).1.0 ≡ true))
        ⊎ ((x : Error) × ((delete_account t c user v b).0 ≡ err x)
            × ((delete_account t c user v b).1.0 ≡ v))
  unfolding delete_account
  delete_account-is_erased user v b row found =
      let law = t.account.users.find_first_lem (has_user_id user) v.account.users in
      let ids = (begin_account_deletion t.jobs c user row.phone v.queue b).0 in
      elim (Result-cases (erase t c user row.phone ids v)) [
        | inl (after, done) ↦ inl (
          ground (arith, law, done),
          ground (arith, law, done, erase-is_erased user row.phone ids v after done),
        )
        | inr (x, failed) ↦ inr (x, ground (arith, law, failed), ground (arith, law, failed))
      ]

  -- A job of the account that a consumer checks after a deletion that succeeded is cancelled without
  -- being sent, also where the consumer had claimed it before, and whatever becomes of the blocks and
  -- of the other jobs in between: the jobs of the user, and those without a user to the phone number. A
  -- consumer that checked before the deletion is not held back.
  pub delete_account-silent :
      (sms : Sms) (p : Poll) (user : ℕ) (v after : Vault) (b kept : Blocks) (row : User) (job : Job)
      (q : Queue)
      → find (has_user_id user) v.account.users ≡ some row
      → delete_account t c user v b ≡ (ok tt, (after, kept))
      → any
          (λ j.
            has_job_id job.row.id j
            && (some_eq j.user_id user || is_none j.user_id)
            && belongs c user row.phone j)
          v.queue.jobs
        ≡ true
      → find (has_job_id job.row.id) q.jobs ≡ find (has_job_id job.row.id) after.queue.jobs
      → process_claimed_job t.jobs c sms p job q ≡ (cancelled, q)
  unfolding delete_account begin_account_deletion can_deliver process_claimed_job
  delete_account-silent sms p user v after b kept row job q found e there same =
      let keep = λ (j : JobRow). some_eq j.user_id user || is_none j.user_id in
      let ids = (begin_account_deletion t.jobs c user row.phone v.queue b).0 in
      let law = t.account.users.find_first_lem (has_user_id user) v.account.users in
      let listed : has job.row.id ids ≡ true =
        rw (t.jobs.jobs.find_many_lem keep v.queue.jobs)
          (has_belonging c user row.phone job.row.id keep v.queue.jobs there) in
      let erased : erase t c user row.phone ids v ≡ ok after = ground (arith, law) in
      let jobs = ap (λ w. w.queue.jobs) (erase_lem user row.phone ids v after erased) in
      let looked = t.jobs.jobs.find_first_lem (has_job_id job.row.id) q.jobs in
      let gone =
        same
        ∙ ap (find (has_job_id job.row.id)) jobs
        ∙ gone_by_id user job.row.id ids v.queue.jobs listed in
      ground (arith, looked, gone)
