-- ===== src/Notifications/Deletion.antt =====
-- What keeps messages from an account that is being deleted: `beginAccountDeletion`, `canDeliver`,
-- `restoreForAccount` and `finalizeAccountDeletion`, with the sets in the memory of the service.
use stead.Prelude.{
  ℕ, ◌==◌, Bool, true, false, not, ◌||◌, Option, none, some, is_some, List, [], ◌∷◌, is_none,
  some_eq, Result, ok, err, filter, map, any, if◌then◌else◌,
}
use stead.Notifications.{
  JobRow, Job, JobPayload, hidden, shown, Queue, Tables, Cipher, decrypt_payload, has_job_id,
}

-- deletingAccountIds, discoveringAccountPhones, deletingNotificationIds and
-- deletingNotificationIdsByAccount
pub record Blocks : Type 0 where
  pub accounts : List ℕ
  pub phones : List ℕ
  pub ids : List ℕ
  pub by_account : List (ℕ × List ℕ)

-- `Set.add` and `Set.delete`
abbrev pub add : ℕ → List ℕ → List ℕ
add x xs = if any (λ y. y == x) xs then xs else x ∷ xs

abbrev pub remove : ℕ → List ℕ → List ℕ
remove x xs = filter (λ y. not (y == x)) xs

abbrev pub add_all : List ℕ → List ℕ → List ℕ
add_all [] ys = ys
add_all (x ∷ xs) ys = add_all xs (add x ys)

abbrev pub remove_all : List ℕ → List ℕ → List ℕ
remove_all [] ys = ys
remove_all (x ∷ xs) ys = remove_all xs (remove x ys)

abbrev pub has : ℕ → List ℕ → Bool
has x xs = any (λ y. y == x) xs

abbrev pub ids_of : ℕ → List (ℕ × List ℕ) → List ℕ
ids_of account [] = []
ids_of account ((a, ids) ∷ rest) = if a == account then ids else ids_of account rest

abbrev pub without : ℕ → List (ℕ × List ℕ) → List (ℕ × List ℕ)
without account entries = filter (λ e. not (e.0 == account)) entries

abbrev pub blocks_phone : JobPayload → List ℕ → Bool
blocks_phone hidden phones = false
blocks_phone (shown p) phones = has p.phone phones

abbrev pub blocks_user : Option ℕ → List ℕ → Bool
blocks_user none accounts = false
blocks_user (some user) accounts = has user accounts

module _ (c : Cipher) where
  to_phone : ℕ → Result JobPayload → Bool
  to_phone phone (ok (shown p)) = p.phone == phone
  to_phone phone (ok hidden) = false
  to_phone phone (err e) = false

  -- A job of the user, or one of no user that goes to the phone number.
  unfoldable pub belongs : ℕ → ℕ → JobRow → Bool
  unfolding to_phone
  belongs user phone j =
      if some_eq j.user_id user then true else to_phone phone (decrypt_payload c j.payload_json)

module _ (t : Tables) (c : Cipher) where
  -- The identifiers of the jobs that are blocked, where the query succeeds.
  unfoldable pub begin_account_deletion : ℕ → ℕ → Queue → Blocks → List ℕ × Blocks
  begin_account_deletion user phone q b =
      let candidates = t.jobs.find_many (λ j. some_eq j.user_id user || is_none j.user_id) q.jobs in
      let ids = map (λ j. j.id) (filter (belongs c user phone) candidates) in
      (
        ids,
        record {
          accounts = add user b.accounts;
          phones = remove phone (add phone b.phones);
          ids = add_all ids b.ids;
          by_account = (user, ids) ∷ without user b.by_account;
        },
      )

module _ (t : Tables) where
  unfoldable pub can_deliver : Job → Queue → Blocks → Bool
  can_deliver job q b =
      if has job.row.id b.ids
        || blocks_user job.row.user_id b.accounts
        || blocks_phone job.payload b.phones
      then false
      else is_some (t.jobs.find_first (has_job_id job.row.id) q.jobs)

-- Restores an account whose deletion failed; after a deletion the same runs on a timer.
unfoldable pub clear_account_deletion_block : ℕ → Blocks → Blocks
clear_account_deletion_block user b = record {
  accounts = remove user b.accounts;
  phones = b.phones;
  ids = remove_all (ids_of user b.by_account) b.ids;
  by_account = without user b.by_account;
}
