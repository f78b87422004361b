-- ===== src/Transactions.antt =====
-- api/src/transactions/transactions.service.ts: the transactions of a user, written one by one or
-- imported from a bank statement. The rows that the parser reads from a statement are an input.
pub mod Import
pub mod Union
pub mod Ownership
mod Tests
use stead.Prelude.{
  ℕ, ◌+◌, ◌-◌, ◌==◌, String, Bool, true, false, not, ◌&&◌, ◌||◌, Option, none, some, is_none,
  is_some, some_eq, get_or, List, [], ◌∷◌, ◌++◌, map, length, filter, any, all, count, Result, ok,
  err, Error, bad_request, not_found, internal, ◌>>=◌, ◌>>◌, guard, require, if◌then◌else◌,
}
use stead.Store.{Table}
use stead.Goals.{Goal, owns}
use stead.Goals

-- TransactionDirection
pub data Direction : Type 0 where
  «in» out : Direction

pub record Transaction : Type 0 where
  pub id : ℕ
  pub user_id : ℕ
  pub goal_id : Option ℕ
  pub amount_kobo : ℕ
  pub direction : Direction
  pub occurred_at : ℕ
  pub note : Option ℕ
  pub import_fingerprint : Option ℕ
  pub created_at : ℕ

abbrev pub same_fingerprint : Option ℕ → Option ℕ → Bool
same_fingerprint none f = false
same_fingerprint (some e) f = some_eq f e

-- The unique index on userId and importFingerprint.
abbrev pub transaction_clash : Transaction → Transaction → Bool
transaction_clash a b =
    a.user_id == b.user_id && same_fingerprint a.import_fingerprint b.import_fingerprint

pub record CreateTransaction : Type 0 where
  pub goal_id : Option ℕ
  pub direction : Direction
  pub amount_kobo : ℕ
  pub occurred_at : ℕ
  pub note : Option ℕ

-- An absent field is `none`; the goal and the note may also be null.
pub record UpdateTransaction : Type 0 where
  pub goal_id : Option (Option ℕ)
  pub direction : Option Direction
  pub amount_kobo : Option ℕ
  pub occurred_at : Option ℕ
  pub note : Option (Option ℕ)

-- A row that the parser read, with what it could not read as `none`.
pub record ParsedRow : Type 0 where
  pub row_number : ℕ
  pub occurred_at : Option ℕ
  pub direction : Option Direction
  pub amount_kobo : Option ℕ
  pub note : Option ℕ
  pub fingerprint : Option ℕ
  pub error : Bool

-- The statement is what the parser makes of the text, an error where it refuses the text.
pub record ConfirmImport : Type 0 where
  pub goal_id : Option ℕ
  pub statement : Result (List ParsedRow)
  pub row_numbers : List ℕ

pub record ImportResult : Type 0 where
  pub imported : ℕ
  pub duplicates : ℕ

pub record ImportPreview : Type 0 where
  pub ready : ℕ
  pub duplicates : ℕ
  pub invalid : ℕ

abbrev pub new_transaction : ℕ → ℕ → ℕ → CreateTransaction → Transaction
new_transaction id user now dto = record {
  id = id;
  user_id = user;
  goal_id = dto.goal_id;
  amount_kobo = dto.amount_kobo;
  direction = dto.direction;
  occurred_at = dto.occurred_at;
  note = dto.note;
  import_fingerprint = none;
  created_at = now;
}

abbrev pub edited : UpdateTransaction → Transaction → Transaction
edited dto t = record t {
  goal_id = get_or dto.goal_id t.goal_id;
  direction = get_or dto.direction t.direction;
  amount_kobo = get_or dto.amount_kobo t.amount_kobo;
  occurred_at = get_or dto.occurred_at t.occurred_at;
  note = get_or dto.note t.note;
}

abbrev pub owned : ℕ → ℕ → Transaction → Bool
owned user id t = t.id == id && t.user_id == user

abbrev pub is_valid : ParsedRow → Bool
is_valid r =
    not r.error
    && is_some r.fingerprint
    && is_some r.occurred_at
    && is_some r.direction
    && is_some r.amount_kobo

-- The row of a valid line; the other cases are refused before.
abbrev pub imported_row : (ℕ → ℕ) → ℕ → ℕ → Option ℕ → ParsedRow → Transaction
imported_row ids user now goal r = record {
  id = ids r.row_number;
  user_id = user;
  goal_id = goal;
  amount_kobo = get_or r.amount_kobo 0;
  direction = get_or r.direction out;
  occurred_at = get_or r.occurred_at 0;
  note = r.note;
  import_fingerprint = r.fingerprint;
  created_at = now;
}

abbrev pub is_selected : List ℕ → ParsedRow → Bool
is_selected numbers r = any (λ n. n == r.row_number) numbers

abbrev pub given_goal : Option (Option ℕ) → Option ℕ
given_goal none = none
given_goal (some goal) = goal

module _ (goals : Table Goal Goals.clash) (t : Table Transaction transaction_clash) where
  unfoldable pub ensure_goal_belongs_to_user : ℕ → Option ℕ → List Goal → Result (Unit {0})
  ensure_goal_belongs_to_user user none rows = ok tt
  ensure_goal_belongs_to_user user (some goal) rows = do
    _ ← require (goals.find_first (owns user goal) rows) not_found
    ok tt

  unfoldable pub create :
      ℕ
      → CreateTransaction
      → ℕ
      → ℕ
      → List Goal
      → List Transaction
      → Result (Transaction × List Transaction)
  create user dto id now all_goals rows = do
    ensure_goal_belongs_to_user user dto.goal_id all_goals
    after ← require (t.create (new_transaction id user now dto) rows) internal
    ok (new_transaction id user now dto, after)

  unfoldable pub update :
      ℕ
      → ℕ
      → UpdateTransaction
      → List Goal
      → List Transaction
      → Result (Transaction × List Transaction)
  update user id dto all_goals rows = do
    _ ← require (t.find_first (owned user id) rows) not_found
    ensure_goal_belongs_to_user user (given_goal dto.goal_id) all_goals
    require (t.update (λ r. r.id == id) (edited dto) rows) internal

  unfoldable pub remove : ℕ → ℕ → List Transaction → Result (List Transaction)
  remove user id rows = do
    _ ← require (t.find_first (owned user id) rows) not_found
    ok (t.delete_many (λ r. r.id == id) rows).0

  -- createMany with skipDuplicates: a row that clashes is left out. The number is `count`.
  unfoldable pub create_many : List Transaction → List Transaction → ℕ × List Transaction
  create_many [] rows = (0, rows)
  create_many (r ∷ rest) rows =
      let skipped = create_many rest rows in
      elim (t.create r rows) [
        | none ↦ skipped
        | some after ↦ let (n, done) = create_many rest after in (n + 1, done)
      ]

  unfoldable pub confirm_import :
      ℕ
      → ConfirmImport
      → (ℕ → ℕ)
      → ℕ
      → List Goal
      → List Transaction
      → Result (ImportResult × List Transaction)
  confirm_import user dto ids now all_goals rows = do
    ensure_goal_belongs_to_user user dto.goal_id all_goals
    parsed ← dto.statement
    let chosen = filter (is_selected dto.row_numbers) parsed
    guard (all (λ n. any (λ r. r.row_number == n) chosen) dto.row_numbers) bad_request
    guard (all is_valid chosen) bad_request
    let (n, after) = create_many (map (imported_row ids user now dto.goal_id) chosen) rows
    ok (record { imported = n; duplicates = length chosen - n }, after)

  -- A row whose fingerprint the user has imported.
  unfoldable pub is_duplicate : ℕ → List Transaction → ParsedRow → Bool
  is_duplicate user rows r = elim r.fingerprint [
    | none ↦ false
    | some f ↦
        any (λ x. some_eq x.import_fingerprint f)
          (t.find_many (λ x. x.user_id == user && is_some x.import_fingerprint) rows)
  ]

  unfoldable pub preview_import :
      ℕ → ConfirmImport → List Goal → List Transaction → Result ImportPreview
  unfolding is_duplicate
  preview_import user dto all_goals rows = do
    ensure_goal_belongs_to_user user dto.goal_id all_goals
    parsed ← dto.statement
    ok (record {
      ready = count (λ r. not r.error && not (is_duplicate user rows r)) parsed;
      duplicates = count (is_duplicate user rows) parsed;
      invalid = count (λ r. r.error) parsed;
    })
