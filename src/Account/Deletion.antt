-- ===== src/Account/Deletion.antt =====
-- `deleteAccount` of account.service.ts, over the tables of the other components. No transaction and no
-- alert state of another user refers to a goal of this one (Transactions.Ownership), so the deletion
-- of the goals changes no other row.
use stead.Prelude.{
  ℕ, ◌==◌, Bool, ◌||◌, none, some, some_eq, List, any, Result, ok, err, not_found, internal, ◌>>◌,
  guard,
}
use stead.Store.{Table}
use stead.Auth.Sessions.{RefreshToken}
use stead.Auth.Sessions
use stead.Auth.Otp.{User, OtpCode, otp_clash, AuthEvent, no_clash}
use stead.Auth.Request.{is_job_of_any, is_event_of_any, without_code}
use stead.Goals.{Goal}
use stead.Goals
use stead.Transactions.{Transaction, transaction_clash}
use stead.Alerts.{AlertState, state_clash}
use stead.Alerts.Evaluation.{AlertPreference}
use stead.Alerts.Evaluation
use stead.Notifications.{JobRow, Job, FailureAttempt, Queue, Cipher, has_job_id}
use stead.Notifications
use stead.Notifications.Deletion.{Blocks, has, begin_account_deletion, clear_account_deletion_block}
use stead.Account.{AccountDb, AccountTables, has_user_id}

-- Every table with rows of a user.
pub record Vault : Type 0 where
  pub account : AccountDb
  pub otps : List OtpCode
  pub events : List AuthEvent
  pub tokens : List RefreshToken
  pub goals : List Goal
  pub transactions : List Transaction
  pub states : List AlertState
  pub alert_preferences : List AlertPreference
  pub queue : Queue

pub record VaultTables : Type 0 where
  pub account : AccountTables
  pub otps : Table OtpCode otp_clash
  pub events : Table AuthEvent no_clash
  pub tokens : Table RefreshToken Sessions.clash
  pub goals : Table Goal Goals.clash
  pub transactions : Table Transaction transaction_clash
  pub states : Table AlertState state_clash
  pub alert_preferences : Table AlertPreference Evaluation.preference_clash
  pub jobs : Notifications.Tables

abbrev pub erased_job : ℕ → List ℕ → JobRow → Bool
erased_job user ids j = some_eq j.user_id user || has j.id ids

abbrev pub erased_event : ℕ → ℕ → AuthEvent → Bool
erased_event user phone e = some_eq e.user_id user || e.phone == phone

abbrev pub is_failure_of_any : List JobRow → FailureAttempt → Bool
is_failure_of_any jobs f = any (λ j. j.id == f.job_id) jobs

module _ (t : VaultTables) (c : Cipher) where
  -- The queue without the jobs, and without their failures by the cascade.
  unfoldable pub erase_jobs : ℕ → List ℕ → Queue → Queue
  erase_jobs user ids q =
      let doomed = t.jobs.jobs.find_many (erased_job user ids) q.jobs in
      record {
        jobs = (t.jobs.jobs.delete_many (erased_job user ids) q.jobs).0;
        failures = (t.jobs.failures.delete_many (is_failure_of_any doomed) q.failures).0;
      }

  -- The deletions of the transaction. The refresh tokens go with the user by the cascade.
  unfoldable pub erase_rows : ℕ → ℕ → List ℕ → List User → Vault → Vault
  unfolding erase_jobs
  erase_rows user phone ids users v = record {
    account = record {
      users = users;
      preferences =
          (t.account.preferences.delete_many (λ p. p.user_id == user) v.account.preferences).0;
      records = (t.account.records.delete_many (λ r. r.user_id == user) v.account.records).0;
    };
    otps = (t.otps.delete_many (λ o. o.user_id == user) v.otps).0;
    events =
        (t.events.update_many (is_event_of_any (t.otps.find_many (λ o. o.user_id == user) v.otps))
          without_code (t.events.delete_many (erased_event user phone) v.events).0).0;
    tokens = (t.tokens.delete_many (λ r. r.user_id == user) v.tokens).0;
    goals = (t.goals.delete_many (λ g. g.user_id == user) v.goals).0;
    transactions = (t.transactions.delete_many (λ r. r.user_id == user) v.transactions).0;
    states = (t.states.delete_many (λ s. s.user_id == user) v.states).0;
    alert_preferences =
        (t.alert_preferences.delete_many (λ p. p.user_id == user) v.alert_preferences).0;
    queue = erase_jobs user ids v.queue;
  }

  -- The transaction; a job that is left forbids the deletion of its code.
  unfoldable pub erase : ℕ → ℕ → List ℕ → Vault → Result Vault
  unfolding erase_jobs
  erase user phone ids v = do
    let doomed = t.otps.find_many (λ o. o.user_id == user) v.otps
    guard (t.jobs.jobs.count_where (is_job_of_any doomed) (erase_jobs user ids v.queue).jobs == 0)
        internal
    let (users, n) = t.account.users.delete_many (has_user_id user) v.account.users
    guard (n == 1) not_found
    ok (erase_rows user phone ids users v)

  -- The blocks stay after a deletion, until `clear_account_deletion_block` runs on its timer; a failure
  -- takes them away at once, and the transaction is undone.
  unfoldable pub delete_account : ℕ → Vault → Blocks → Result (Unit {0}) × (Vault × Blocks)
  delete_account user v b = elim (t.account.users.find_first (has_user_id user) v.account.users) [
    | none ↦ (err not_found, (v, b))
    | some row ↦
        let (ids, blocked) = begin_account_deletion t.jobs c user row.phone v.queue b in
        elim (erase user row.phone ids v) [
          | ok after ↦ (ok tt, (after, blocked))
          | err e ↦ (err e, (v, clear_account_deletion_block user blocked))
        ]
  ]
