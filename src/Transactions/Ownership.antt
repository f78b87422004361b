-- ===== src/Transactions/Ownership.antt =====
-- Whose rows a request changes, and whose goals its rows name.
use stead.Prelude.{
  ℕ, ◌≤◌, ◌==◌, ◌≡◌, refl, ap, subst, Bool, true, not, ◌&&◌, Option, none, some, is_some, List, [],
  ◌∷◌, ◌++◌, map, filter, all, count, find, modify, ok, arith, Bool-cases, Option-cases, inl, inr,
}
use stead.Store.{Table}
use stead.Goals.{Goal, owns}
use stead.Goals
use stead.Transactions.{
  Transaction, transaction_clash, CreateTransaction, UpdateTransaction, new_transaction, edited,
  owned, given_goal, ParsedRow, ConfirmImport, ImportResult, imported_row,
  ensure_goal_belongs_to_user, create, update, remove, create_many, confirm_import,
}
use stead.Transactions.Import.{chosen_rows, confirmed}

abbrev has_id : ℕ → Transaction → Bool
has_id i x = x.id == i

abbrev pub is_foreign : ℕ → Transaction → Bool
is_foreign user x = not (x.user_id == user)

-- The goal that a row names, if it names one, is a goal of the row's user.
abbrev goal_of : List Goal → ℕ → Option ℕ → Bool
goal_of all_goals user none = true
goal_of all_goals user (some g) = is_some (find (owns user g) all_goals)

abbrev pub is_linked : List Goal → Transaction → Bool
is_linked all_goals x = goal_of all_goals x.user_id x.goal_id

foreign-none :
    (user id : ℕ) (f : Transaction → Transaction) (rows : List Transaction)
    → count (has_id id) rows ≡ 0
    → (filter (is_foreign user) (modify (has_id id) f rows) ≡ filter (is_foreign user) rows)
      × (filter (is_foreign user) (filter (λ x. not (has_id id x)) rows)
          ≡ filter (is_foreign user) rows)
foreign-none user id f [] h = (refl, refl)
foreign-none user id f (x ∷ rows) h =
    let (a, b) = foreign-none user id f rows (ground arith) in
    (ground (arith, a), ground (arith, b))

absent-find :
    (user id : ℕ) (rows : List Transaction)
    → count (has_id id) rows ≡ 0
    → find (owned user id) rows ≡ none
absent-find user id [] h = refl
absent-find user id (x ∷ rows) h = ground (arith, absent-find user id rows)

removed_find :
    (user id : ℕ) (rows : List Transaction)
    → find (owned user id) (filter (λ x. not (has_id id x)) rows) ≡ none
removed_find user id [] = refl
removed_find user id (x ∷ rows) = ground (arith, removed_find user id rows)

all-snoc :
    (all_goals : List Goal) (rows : List Transaction) (r : Transaction)
    → all (is_linked all_goals) (rows ++ r ∷ [])
      ≡ (all (is_linked all_goals) rows && is_linked all_goals r)
all-snoc all_goals [] r = ground arith
all-snoc all_goals (x ∷ rows) r = ground (arith, all-snoc all_goals rows r)

unmatched :
    (id : ℕ) (f : Transaction → Transaction) (all_goals : List Goal) (rows : List Transaction)
    → count (has_id id) rows ≡ 0
    → all (is_linked all_goals) (modify (has_id id) f rows) ≡ all (is_linked all_goals) rows
unmatched id f all_goals [] h = refl
unmatched id f all_goals (x ∷ rows) h = ground (arith, unmatched id f all_goals rows)

-- The goal of an edited row is the one that was checked, or the one it had.
edit_linked :
    (dto : UpdateTransaction) (all_goals : List Goal) (x : Transaction)
    → goal_of all_goals x.user_id (given_goal dto.goal_id) ≡ true
    → is_linked all_goals x ≡ true
    → is_linked all_goals (edited dto x) ≡ true
edit_linked dto all_goals x given old = elim (Option-cases dto.goal_id) [
  | inl kept ↦ ground arith
  | inr (g, new) ↦ ground arith
]

edited-linked :
    (user id : ℕ) (dto : UpdateTransaction) (all_goals : List Goal) (rows : List Transaction)
    (y : Transaction)
    → find (owned user id) rows ≡ some y
    → count (has_id id) rows ≤ 1
    → goal_of all_goals user (given_goal dto.goal_id) ≡ true
    → all (is_linked all_goals) rows ≡ true
    → all (is_linked all_goals) (modify (has_id id) (edited dto) rows) ≡ true
edited-linked user id dto all_goals [] y e one mine h = refl
edited-linked user id dto all_goals (x ∷ rows) y e one mine h = elim (Bool-cases (has_id id x)) [
  | inl hit ↦
      let gone = absent-find user id rows (ground arith) in
      let who : x.user_id ≡ user = ground (arith, gone) in
      let given : goal_of all_goals x.user_id (given_goal dto.goal_id) ≡ true = rw who mine in
      let head = edit_linked dto all_goals x given in
      ground (arith, head, unmatched id (edited dto) all_goals rows)
  | inr miss ↦ ground (arith, edited-linked user id dto all_goals rows y)
]

-- With unique identifiers, a change of the row that the user owns leaves the rows of others.
foreign_kept :
    (user id : ℕ) (f : Transaction → Transaction) (rows : List Transaction) (y : Transaction)
    → ((x : Transaction) → (f x).user_id ≡ x.user_id)
    → find (owned user id) rows ≡ some y
    → count (has_id id) rows ≤ 1
    → (filter (is_foreign user) (modify (has_id id) f rows) ≡ filter (is_foreign user) rows)
      × (filter (is_foreign user) (filter (λ x. not (has_id id x)) rows)
          ≡ filter (is_foreign user) rows)
foreign_kept user id f [] y keeps e one = absurd (ground arith)
foreign_kept user id f (x ∷ rows) y keeps e one = elim (Bool-cases (has_id id x)) [
  | inl hit ↦
      let (a, b) = foreign-none user id f rows (ground arith) in
      let gone = absent-find user id rows (ground arith) in
      (ground (arith, a, gone, keeps x), ground (arith, b, gone))
  | inr miss ↦
      let (a, b) = foreign_kept user id f rows y keeps (ground arith) (ground arith) in
      (ground (arith, a), ground (arith, b))
]

module _ (goals : Table Goal Goals.clash) (t : Table Transaction transaction_clash) where
  -- A user's edit of a transaction, where identifiers are unique, leaves the transactions of every
  -- other user as they were.
  pub update-foreign :
      (user id : ℕ) (dto : UpdateTransaction) (all_goals : List Goal)
      (rows after : List Transaction) (x : Transaction)
      → count (λ r. r.id == id) rows ≤ 1
      → update goals t user id dto all_goals rows ≡ ok (x, after)
      → filter (is_foreign user) after ≡ filter (is_foreign user) rows
  unfolding update
  update-foreign user id dto all_goals rows after x one e =
      let looked = t.find_first_lem (owned user id) rows in
      let law = t.update_lem (has_id id) (edited dto) rows in
      elim (Option-cases (find (owned user id) rows)) [
        | inl missing ↦ absurd (ground (arith, looked))
        | inr (y, mine) ↦
            let same : modify (has_id id) (edited dto) rows ≡ after = ground (arith, looked, law) in
            subst (λ w. filter (is_foreign user) w ≡ filter (is_foreign user) rows) same
              (foreign_kept user id (edited dto) rows y (λ r. refl) mine one).0
      ]

  -- So does the removal of a transaction, after which the user has no transaction with the
  -- identifier.
  pub remove-foreign :
      (user id : ℕ) (rows after : List Transaction)
      → count (λ r. r.id == id) rows ≤ 1
      → remove goals t user id rows ≡ ok after
      → (filter (is_foreign user) after ≡ filter (is_foreign user) rows)
        × (find (owned user id) after ≡ none)
  unfolding remove
  remove-foreign user id rows after one e =
      let looked = t.find_first_lem (owned user id) rows in
      let law = t.delete_many_lem (has_id id) rows in
      elim (Option-cases (find (owned user id) rows)) [
        | inl missing ↦ absurd (ground (arith, looked))
        | inr (y, mine) ↦
            let same : filter (λ x. not (has_id id x)) rows ≡ after = ground (arith, looked, law) in
            subst
              (λ w.
                (filter (is_foreign user) w ≡ filter (is_foreign user) rows)
                × (find (owned user id) w ≡ none))
              same
              (
                (foreign_kept user id (λ r. r) rows y (λ r. refl) mine one).1,
                removed_find user id rows,
              )
      ]

  created-linked :
      (user : ℕ) (goal : Option ℕ) (all_goals : List Goal)
      → ensure_goal_belongs_to_user goals t user goal all_goals ≡ ok tt
      → goal_of all_goals user goal ≡ true
  unfolding ensure_goal_belongs_to_user
  created-linked user none all_goals e = refl
  created-linked user (some g) all_goals e =
      ground (arith, goals.find_first_lem (owns user g) all_goals)

  many-linked :
      (user now : ℕ) (ids : ℕ → ℕ) (goal : Option ℕ) (all_goals : List Goal) (ps : List ParsedRow)
      (rows : List Transaction)
      → goal_of all_goals user goal ≡ true
      → all (is_linked all_goals) rows ≡ true
      → all
          (is_linked all_goals)
          (create_many goals t (map (imported_row ids user now goal) ps) rows).1
        ≡ true
  unfolding create_many
  many-linked user now ids goal all_goals [] rows mine h = h
  many-linked user now ids goal all_goals (p ∷ ps) rows mine h =
      let r = imported_row ids user now goal p in
      let law = t.create_lem r rows in
      let skipped = many-linked user now ids goal all_goals ps rows mine h in
      let grown : all (is_linked all_goals) (rows ++ r ∷ []) ≡ true =
        ground (arith, all-snoc all_goals rows r) in
      let made = many-linked user now ids goal all_goals ps (rows ++ r ∷ []) mine grown in
      ground (arith, law, skipped, made)

  -- A new transaction that succeeds keeps the rule that a row names only a goal of its own user.
  pub create-is_linked :
      (user : ℕ) (dto : CreateTransaction) (id now : ℕ) (all_goals : List Goal)
      (rows after : List Transaction) (x : Transaction)
      → create goals t user dto id now all_goals rows ≡ ok (x, after)
      → all (is_linked all_goals) rows ≡ true
      → all (is_linked all_goals) after ≡ true
  unfolding create
  create-is_linked user dto id now all_goals rows after x e h =
      let law = t.create_lem (new_transaction id user now dto) rows in
      let mine = created-linked user dto.goal_id all_goals in
      ground (arith, law, mine, all-snoc all_goals rows (new_transaction id user now dto))

  -- So does an import.
  pub confirm_import-is_linked :
      (user : ℕ) (dto : ConfirmImport) (ids : ℕ → ℕ) (now : ℕ) (all_goals : List Goal)
      (rows after : List Transaction) (res : ImportResult)
      → confirm_import goals t user dto ids now all_goals rows ≡ ok (res, after)
      → all (is_linked all_goals) rows ≡ true
      → all (is_linked all_goals) after ≡ true
  confirm_import-is_linked user dto ids now all_goals rows after res e h =
      let (parsed, read, owned, found, valid, ran, dups) =
        confirmed goals t user now dto ids all_goals rows after res e in
      let mine = created-linked user dto.goal_id all_goals owned in
      subst (λ w. all (is_linked all_goals) w ≡ true) (ap (λ r. r.1) ran)
        (many-linked user now ids dto.goal_id all_goals (chosen_rows dto parsed) rows mine h)

  -- So does an edit, where identifiers are unique.
  pub update-is_linked :
      (user id : ℕ) (dto : UpdateTransaction) (all_goals : List Goal)
      (rows after : List Transaction) (x : Transaction)
      → count (λ r. r.id == id) rows ≤ 1
      → update goals t user id dto all_goals rows ≡ ok (x, after)
      → all (is_linked all_goals) rows ≡ true
      → all (is_linked all_goals) after ≡ true
  unfolding update
  update-is_linked user id dto all_goals rows after x one e h =
      let looked = t.find_first_lem (owned user id) rows in
      let law = t.update_lem (has_id id) (edited dto) rows in
      let mine = created-linked user (given_goal dto.goal_id) all_goals in
      elim (Option-cases (find (owned user id) rows)) [
        | inl missing ↦ absurd (ground (arith, looked))
        | inr (y, found) ↦
            let same : modify (has_id id) (edited dto) rows ≡ after = ground (arith, looked, law) in
            let checked : ensure_goal_belongs_to_user goals t user (given_goal dto.goal_id)
                  all_goals
                ≡ ok tt =
              ground (arith, looked) in
            subst (λ w. all (is_linked all_goals) w ≡ true) same
              (edited-linked user id dto all_goals rows y found one (mine checked) h)
      ]
