-- ===== src/Statement/Preview.antt =====
-- A parsed statement in `previewImport` and `confirmImport` of transactions.service.ts, whose models
-- hold instants, notes and fingerprints as numbers.
use stead.Prelude.{
  ℕ, ◌+◌, ◌≡◌, Bool, true, false, not, ◌&&◌, Option, none, some, List, [], ◌∷◌, all, map, count,
  length, if◌then◌else◌, ok, ◌>>=◌, arith, inl, inr, Result-cases,
}
use stead.Store.{Table}
use stead.Goals.{Goal}
use stead.Goals
use stead.Transactions.{
  Transaction, transaction_clash, ParsedRow, ConfirmImport, ImportPreview, preview_import,
  ensure_goal_belongs_to_user, is_duplicate,
}
use stead.Statement.Text.{Text, is_empty}
use stead.Statement.Parser.{Host, ImportRow, parse_transaction_import}
use stead.Statement.Rows.{no_errors, is_checked, parse_transaction_import-is_checked}

abbrev numbered : (Text → ℕ) → Option Text → Option ℕ
numbered key none = none
numbered key (some s) = some (key s)

-- A row of the parser as the service reads it; `key` numbers the texts.
abbrev pub as_parsed : (Text → ℕ) → ImportRow → ParsedRow
as_parsed key r = record {
  row_number = r.row_number;
  occurred_at = numbered key r.occurred_at;
  direction = r.direction;
  amount_kobo = r.amount_kobo;
  note = if is_empty r.note then none else some (key r.note);
  fingerprint = numbered key r.fingerprint;
  error = not (no_errors r.errors);
}

-- The request whose text is `csv`.
abbrev pub import_request : Host → (Text → ℕ) → Option ℕ → Text → List ℕ → ConfirmImport
import_request h key goal csv numbers = record {
  goal_id = goal;
  statement = (do rows ← parse_transaction_import h csv; ok (map (as_parsed key) rows));
  row_numbers = numbers;
}

flagged :
    (key : Text → ℕ) (r : ImportRow)
    → is_checked r ≡ true
    → no_errors r.errors ≡ false
    → (as_parsed key r).fingerprint ≡ none
flagged key r c e = ground arith

module _ (h : Host) (key : Text → ℕ) (goals : Table Goal Goals.clash)
    (t : Table Transaction transaction_clash) where
  -- The tests of the preview split checked rows.
  three_kinds :
      (user : ℕ) (rows : List Transaction) (f : ParsedRow → Bool) (parsed : List ImportRow)
      → ((r : ParsedRow) → r.fingerprint ≡ none → f r ≡ false)
      → all is_checked parsed ≡ true
      → count (λ r. not r.error && not (f r)) (map (as_parsed key) parsed)
          + count f (map (as_parsed key) parsed)
          + count (λ r. r.error) (map (as_parsed key) parsed)
        ≡ length parsed
  three_kinds user rows f [] none_off c = omega arith
  three_kinds user rows f (r ∷ parsed) none_off c =
      let off = flagged key r in
      ground (arith, off, none_off (as_parsed key r), three_kinds user rows f parsed none_off)

  no_fingerprint :
      (user : ℕ) (table : List Transaction) (r : ParsedRow)
      → r.fingerprint ≡ none
      → is_duplicate goals t user table r ≡ false
  unfolding is_duplicate
  no_fingerprint user table r e = ground arith

  -- The preview of a statement counts each of its rows once: as ready, as a duplicate, or as invalid.
  pub preview_import-parsed :
      (user : ℕ) (goal : Option ℕ) (csv : Text) (numbers : List ℕ) (all_goals : List Goal)
      (table : List Transaction) (rows : List ImportRow) (p : ImportPreview)
      → parse_transaction_import h csv ≡ ok rows
      → preview_import goals t user (import_request h key goal csv numbers) all_goals table ≡ ok p
      → p.ready + p.duplicates + p.invalid ≡ length rows
  unfolding preview_import
  preview_import-parsed user goal csv numbers all_goals table rows p e r =
      let (ones, ready, checked, numbered) = parse_transaction_import-is_checked h csv rows e in
      let split =
        three_kinds user table (is_duplicate goals t user table) rows (no_fingerprint user table)
          checked in
      elim (Result-cases (ensure_goal_belongs_to_user goals t user goal all_goals)) [
        | inl (unit, o) ↦ ground (arith, split)
        | inr (x, o) ↦ absurd (ground arith)
      ]
