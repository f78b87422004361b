-- ===== src/Transactions/Tests.antt =====
-- Runs of the transactions, and their theorems at concrete rows.
use stead.Prelude.{
  ℕ, ◌+◌, ◌≡◌, refl, true, false, none, some, List, [], ◌∷◌, length, filter, all, find, arith, ok,
}
use stead.Store.{Table}
use stead.Store.Memory.{memory}
use stead.Goals.{Goal, active}
use stead.Goals
use stead.Transactions.{
  «in», out, Transaction, transaction_clash, CreateTransaction, UpdateTransaction, ParsedRow,
  ConfirmImport, ImportResult, is_valid, owned, create, update, remove, confirm_import, create_many,
  ensure_goal_belongs_to_user, preview_import,
}
use stead.Transactions.Import.{chosen_rows, present, confirm_import_lem, confirm_import_again}
use stead.Transactions.Union.{view, import_lines, confirm_import-view}
use stead.Transactions.Ownership.{
  is_foreign, is_linked, update-foreign, remove-foreign, create-is_linked, confirm_import-is_linked,
  update-is_linked,
}

abbrev goals : Table Goal Goals.clash
goals = memory Goals.clash

abbrev table : Table Transaction transaction_clash
table = memory transaction_clash

abbrev house : Goal
house = record {
  id = 3;
  user_id = 7;
  name = "house";
  amount_total_kobo = 1000;
  due_date = 5000;
  monthly_income_kobo = none;
  is_active = true;
  status = active;
  ended_at = none;
  created_at = 1;
}

abbrev salary : Transaction
salary = record {
  id = 1;
  user_id = 7;
  goal_id = some 3;
  amount_kobo = 500;
  direction = «in»;
  occurred_at = 10;
  note = none;
  import_fingerprint = some 901;
  created_at = 20;
}

abbrev foreign : Transaction
foreign = record salary { id = 2; user_id = 8; goal_id = none }

abbrev rows : List Transaction
rows = salary ∷ foreign ∷ []

abbrev line : ParsedRow
line = record {
  row_number = 2;
  occurred_at = some 10;
  direction = some «in»;
  amount_kobo = some 500;
  note = none;
  fingerprint = some 901;
  error = false;
}

abbrev rent : ParsedRow
rent = record line { row_number = 3; direction = some out; fingerprint = some 902 }

abbrev broken : ParsedRow
broken = record line { row_number = 4; amount_kobo = none; fingerprint = none; error = true }

abbrev statement : List ParsedRow
statement = line ∷ rent ∷ broken ∷ []

abbrev request : ConfirmImport
request = record { goal_id = some 3; statement = ok statement; row_numbers = 2 ∷ 3 ∷ [] }

abbrev ids : ℕ → ℕ
ids n = n + 100

abbrev rent_row : Transaction
rent_row = record {
  id = 103;
  user_id = 7;
  goal_id = some 3;
  amount_kobo = 500;
  direction = out;
  occurred_at = 10;
  note = none;
  import_fingerprint = some 902;
  created_at = 30;
}

abbrev imported : List Transaction
imported = salary ∷ foreign ∷ rent_row ∷ []

abbrev one_new : ImportResult
one_new = record { imported = 1; duplicates = 1 }

imports : confirm_import goals table 7 request ids 30 (house ∷ []) rows ≡ ok (one_new, imported)
unfolding confirm_import create_many ensure_goal_belongs_to_user memory
imports = refl

previews :
    preview_import goals table 7 request (house ∷ []) rows
    ≡ ok (record { ready = 1; duplicates = 1; invalid = 1 })
unfolding preview_import ensure_goal_belongs_to_user memory
previews = refl

confirm_import_lem_example :
    (one_new.imported + one_new.duplicates ≡ length (chosen_rows request statement))
    × (length imported ≡ length rows + one_new.imported)
    × (all is_valid (chosen_rows request statement) ≡ true)
    × (all (present 7 imported) (chosen_rows request statement) ≡ true)
confirm_import_lem_example =
    confirm_import_lem goals table 7 30 request ids (house ∷ []) rows imported one_new statement
      imports refl

confirm_import_again_example :
    confirm_import goals table 7 request (λ n. n + 200) 40 (house ∷ []) imported
    ≡ ok (record { imported = 0; duplicates = 2 }, imported)
confirm_import_again_example =
    confirm_import_again goals table 7 30 40 request ids (λ n. n + 200) (house ∷ []) rows imported
      one_new imports

abbrev dto : UpdateTransaction
dto = record {
  goal_id = some none;
  direction = none;
  amount_kobo = some 600;
  occurred_at = none;
  note = none;
}

abbrev raised : Transaction
raised = record salary { goal_id = none; amount_kobo = 600 }

edits : update goals table 7 1 dto (house ∷ []) rows ≡ ok (raised, raised ∷ foreign ∷ [])
unfolding update ensure_goal_belongs_to_user memory
edits = refl

update-foreign_example : filter (is_foreign 7) (raised ∷ foreign ∷ []) ≡ filter (is_foreign 7) rows
update-foreign_example =
    update-foreign goals table 7 1 dto (house ∷ []) rows (raised ∷ foreign ∷ []) raised
      (omega arith) edits

removes : remove goals table 7 1 rows ≡ ok (foreign ∷ [])
unfolding remove memory
removes = refl

remove-foreign_example :
    (filter (is_foreign 7) (foreign ∷ []) ≡ filter (is_foreign 7) rows)
    × (find (owned 7 1) (foreign ∷ []) ≡ none)
remove-foreign_example = remove-foreign goals table 7 1 rows (foreign ∷ []) (omega arith) removes

update-is_linked_example : all (is_linked (house ∷ [])) (raised ∷ foreign ∷ []) ≡ true
update-is_linked_example =
    update-is_linked goals table 7 1 dto (house ∷ []) rows (raised ∷ foreign ∷ []) raised
      (omega arith) edits refl

abbrev gift : CreateTransaction
gift = record {
  goal_id = some 3;
  direction = «in»;
  amount_kobo = 50;
  occurred_at = 15;
  note = none;
}

abbrev gift_row : Transaction
gift_row = record {
  id = 9;
  user_id = 7;
  goal_id = some 3;
  amount_kobo = 50;
  direction = «in»;
  occurred_at = 15;
  note = none;
  import_fingerprint = none;
  created_at = 40;
}

creates :
    create goals table 7 gift 9 40 (house ∷ []) rows
    ≡ ok (gift_row, salary ∷ foreign ∷ gift_row ∷ [])
unfolding create ensure_goal_belongs_to_user memory
creates = refl

create-is_linked_example : all (is_linked (house ∷ [])) (salary ∷ foreign ∷ gift_row ∷ []) ≡ true
create-is_linked_example =
    create-is_linked goals table 7 gift 9 40 (house ∷ []) rows (salary ∷ foreign ∷ gift_row ∷ [])
      gift_row creates refl

confirm_import-is_linked_example : all (is_linked (house ∷ [])) imported ≡ true
confirm_import-is_linked_example =
    confirm_import-is_linked goals table 7 request ids 30 (house ∷ []) rows imported one_new imports
      refl

confirm_import-view_example :
    view imported 7 902 ≡ import_lines 7 (chosen_rows request statement) (view rows) 7 902
confirm_import-view_example =
    confirm_import-view goals table 7 30 request ids (house ∷ []) rows imported one_new statement
      imports refl 7 902
