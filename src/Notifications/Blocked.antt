-- ===== src/Notifications/Blocked.antt =====
-- An account that is being deleted receives no message.
use stead.Prelude.{
  ℕ, ◌==◌, ◌≡◌, refl, ◌∙◌, Bool, true, false, ◌&&◌, ◌||◌, some, is_none, some_eq, List, [], ◌∷◌,
  filter, map, any, arith,
}
use stead.Notifications.{JobRow, Job, Queue, Tables, Cipher, has_job_id}
use stead.Notifications.Deletion.{
  Blocks, add, remove, add_all, remove_all, has, ids_of, without, belongs, begin_account_deletion,
  can_deliver, clear_account_deletion_block,
}

has-add : (x : ℕ) (xs : List ℕ) → has x (add x xs) ≡ true
has-add x xs = ground arith

has-add_other : (x y : ℕ) (xs : List ℕ) → has x xs ≡ true → has x (add y xs) ≡ true
has-add_other x y xs h = ground arith

has-add_all_old : (x : ℕ) (ys xs : List ℕ) → has x xs ≡ true → has x (add_all ys xs) ≡ true
has-add_all_old x [] xs h = h
has-add_all_old x (y ∷ ys) xs h = has-add_all_old x ys (add y xs) (has-add_other x y xs h)

has-add_all : (x : ℕ) (ys xs : List ℕ) → has x ys ≡ true → has x (add_all ys xs) ≡ true
has-add_all x [] xs h = absurd (ground arith)
has-add_all x (y ∷ ys) xs h =
    let first : has x (add x xs) ≡ true = has-add x xs in
    let later = has-add_all x ys (add y xs) in
    let kept = has-add_all_old x ys (add y xs) in ground (arith, first, later, kept)

has-remove : (x y : ℕ) (xs : List ℕ) → (x == y) ≡ false → has x (remove y xs) ≡ has x xs
has-remove x y [] off = refl
has-remove x y (z ∷ xs) off = ground (arith, has-remove x y xs)

has-remove_same : (x : ℕ) (xs : List ℕ) → has x (remove x xs) ≡ false
has-remove_same x [] = refl
has-remove_same x (z ∷ xs) = ground (arith, has-remove_same x xs)

has-remove_gone : (x y : ℕ) (xs : List ℕ) → has x xs ≡ false → has x (remove y xs) ≡ false
has-remove_gone x y [] h = h
has-remove_gone x y (z ∷ xs) h = ground (arith, has-remove_gone x y xs)

has-remove_all_gone : (x : ℕ) (ys xs : List ℕ) → has x xs ≡ false → has x (remove_all ys xs) ≡ false
has-remove_all_gone x [] xs h = h
has-remove_all_gone x (y ∷ ys) xs h =
    has-remove_all_gone x ys (remove y xs) (has-remove_gone x y xs h)

has-remove_all : (x : ℕ) (ys xs : List ℕ) → has x ys ≡ true → has x (remove_all ys xs) ≡ false
has-remove_all x [] xs h = absurd (ground arith)
has-remove_all x (y ∷ ys) xs h =
    let here = has-remove_same x xs in
    let gone = has-remove_all_gone x ys (remove y xs) in
    let later = has-remove_all x ys (remove y xs) in ground (arith, here, gone, later)

no_user :
    (c : Cipher) (user phone i : ℕ) (jobs : List JobRow)
    → any (λ j. has_job_id i j && is_none j.user_id && belongs c user phone j) jobs ≡ true
    → any
        (λ j.
          has_job_id i j && (some_eq j.user_id user || is_none j.user_id) && belongs c user phone j)
        jobs
      ≡ true
no_user c user phone i [] h = h
no_user c user phone i (j ∷ jobs) h = ground (arith, no_user c user phone i jobs)

pub has_belonging :
    (c : Cipher) (user phone i : ℕ) (keep : JobRow → Bool) (jobs : List JobRow)
    → any (λ j. has_job_id i j && keep j && belongs c user phone j) jobs ≡ true
    → has i (map (λ j. j.id) (filter (belongs c user phone) (filter keep jobs))) ≡ true
has_belonging c user phone i keep [] h = absurd (ground arith)
has_belonging c user phone i keep (j ∷ jobs) h =
    ground (arith, has_belonging c user phone i keep jobs)

module _ (t : Tables) (c : Cipher) where
  blocked_by_account :
      (job : Job) (user : ℕ) (q : Queue) (b : Blocks)
      → job.row.user_id ≡ some user
      → has user b.accounts ≡ true
      → can_deliver t job q b ≡ false
  unfolding can_deliver
  blocked_by_account job user q b mine blocked = ground arith

  blocked_by_id :
      (job : Job) (q : Queue) (b : Blocks)
      → has job.row.id b.ids ≡ true
      → can_deliver t job q b ≡ false
  unfolding can_deliver
  blocked_by_id job q b blocked = ground arith

  -- Once the deletion of an account has begun, no claimed job of the user is delivered, whatever
  -- the queue holds by then, also after the end of another account's deletion.
  pub can_deliver-account :
      (user phone other : ℕ) (q now : Queue) (b : Blocks) (job : Job)
      → job.row.user_id ≡ some user
      → (user == other) ≡ false
      → (can_deliver t job now (begin_account_deletion t c user phone q b).1 ≡ false)
        × (can_deliver t job now
              (clear_account_deletion_block other (begin_account_deletion t c user phone q b).1)
            ≡ false)
  unfolding begin_account_deletion clear_account_deletion_block
  can_deliver-account user phone other q now b job mine apart =
      let begun = (begin_account_deletion t c user phone q b).1 in
      let added = has-add user b.accounts in
      (
        blocked_by_account job user now begun mine added,
        blocked_by_account job user now (clear_account_deletion_block other begun) mine
            (has-remove user other (add user b.accounts) apart ∙ added),
      )

  -- Nor is a job that was stored without a user, when the deletion began, and that goes to the
  -- phone number of the account.
  pub can_deliver-phone :
      (user phone : ℕ) (q now : Queue) (b : Blocks) (job : Job)
      → any (λ j. has_job_id job.row.id j && is_none j.user_id && belongs c user phone j) q.jobs
        ≡ true
      → can_deliver t job now (begin_account_deletion t c user phone q b).1 ≡ false
  unfolding begin_account_deletion
  can_deliver-phone user phone q now b job there =
      let keep = λ (j : JobRow). some_eq j.user_id user || is_none j.user_id in
      let ids = map (λ j. j.id) (filter (belongs c user phone) (t.jobs.find_many keep q.jobs)) in
      let found : has job.row.id ids ≡ true = rw (t.jobs.find_many_lem keep q.jobs) (
        has_belonging c user phone job.row.id keep q.jobs
          (no_user c user phone job.row.id q.jobs there)) in
      blocked_by_id job now (begin_account_deletion t c user phone q b).1
        (has-add_all job.row.id ids b.ids found)

  -- Restoring an account lifts the block from it and from every job that its deletion blocked.
  pub clear_account_deletion_block-begin :
      (user phone : ℕ) (q : Queue) (b : Blocks) (i : ℕ)
      → has i (begin_account_deletion t c user phone q b).0 ≡ true
      → (has user
            (clear_account_deletion_block user
              (begin_account_deletion t c user phone q b).1).accounts
          ≡ false)
        × (has i
              (clear_account_deletion_block user (begin_account_deletion t c user phone q b).1).ids
            ≡ false)
  unfolding begin_account_deletion clear_account_deletion_block
  clear_account_deletion_block-begin user phone q b i blocked =
      let ids = (begin_account_deletion t c user phone q b).0 in
      let mine : ids_of user ((user, ids) ∷ without user b.by_account) ≡ ids = ground arith in
      (
        has-remove_same user (add user b.accounts),
        rw mine (has-remove_all i ids (add_all ids b.ids) blocked),
      )
