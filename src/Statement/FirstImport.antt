-- ===== src/Statement/FirstImport.antt =====
-- A first import of a statement: the lines of one statement are never each other's duplicates.
use stead.Prelude.{
  ℕ, ◌==◌, ◌≡◌, refl, sym, ap, ◌∙◌, Bool, true, false, not, ◌&&◌, Option, none, some, is_some, List,
  [], ◌∷◌, ◌++◌, all, any, map, filter, length, ok, arith, inl, inr, Bool-cases, Option-cases,
  ==_iff,
}
use stead.Store.{Table, distinct}
use stead.Goals.{Goal}
use stead.Goals
use stead.Transactions.{
  Transaction, transaction_clash, ParsedRow, ImportResult, is_selected, imported_row, create_many,
  confirm_import, same_fingerprint,
}
use stead.Transactions.Import.{run, present, any-snoc, confirmed}
use stead.Statement.Text.{Text, eq_text}
use stead.Statement.Parser.{Host, ImportRow, parse_transaction_import}
use stead.Statement.Fingerprints.{
  is_encodable, fingerprints, eq_text_refl, parse_transaction_import-fingerprints,
}
use stead.Statement.Preview.{as_parsed, import_request}

-- Two lines with one fingerprint.
abbrev same_line : ParsedRow → ParsedRow → Bool
same_line p q = same_fingerprint p.fingerprint q.fingerprint

-- The user has no row from an import.
abbrev pub imported_nothing : ℕ → List Transaction → Bool
imported_nothing user table =
    not (any (λ x. x.user_id == user && is_some x.import_fingerprint) table)

any-filter :
    {A : Type 0} (p q : A → Bool) (xs : List A) → any p xs ≡ false → any p (filter q xs) ≡ false
any-filter p q [] h = refl
any-filter p q (x ∷ xs) h = ground (arith, any-filter p q xs)

distinct-filter :
    {A : Type 0} (clash : A → A → Bool) (q : A → Bool) (xs : List A)
    → distinct clash xs ≡ true
    → distinct clash (filter q xs) ≡ true
distinct-filter clash q [] h = refl
distinct-filter clash q (x ∷ xs) h =
    ground (arith, distinct-filter clash q xs, any-filter (clash x) q xs)

not_same : (p q : ParsedRow) → same_line p q ≡ false → same_line q p ≡ false
not_same p q h = ground arith

module _ (goals : Table Goal Goals.clash) (t : Table Transaction transaction_clash) (user now : ℕ)
    (ids : ℕ → ℕ) (goal : Option ℕ) where
  -- A line that is new stays new behind another line.
  still_new :
      (p : ParsedRow) (ps : List ParsedRow) (table : List Transaction)
      → any (same_line p) ps ≡ false
      → all (λ q. not (present user table q)) ps ≡ true
      → all (λ q. not (present user (table ++ imported_row ids user now goal p ∷ []) q)) ps ≡ true
  still_new p [] table a b = refl
  still_new p (q ∷ ps) table a b = ground (
    arith,
    any-snoc (λ x. user == x.user_id && same_fingerprint q.fingerprint x.import_fingerprint) table
        (imported_row ids user now goal p),
    not_same p q,
    still_new p ps table,
  )

  -- Valid lines that are new and have different fingerprints are all imported.
  all_imported :
      (ps : List ParsedRow) (table : List Transaction)
      → distinct same_line ps ≡ true
      → all (λ q. not (present user table q)) ps ≡ true
      → (run goals t user now ids goal ps table).0 ≡ length ps
  unfolding create_many
  all_imported [] table d n = refl
  all_imported (p ∷ ps) table d n =
      let r = imported_row ids user now goal p in
      let law = t.create_lem r table in
      let more = still_new p ps table in
      ground (arith, law, more, all_imported ps (table ++ r ∷ []))

-- The rows of a statement keep their different fingerprints as the service reads them.
module _ (key : Text → ℕ) (key_inj : (s t : Text) → key s ≡ key t → s ≡ t) where
  other_keys : (f g : Text) → eq_text f g ≡ false → (key f == key g) ≡ false
  other_keys f g other = elim (Bool-cases (key f == key g)) [
    | inr apart ↦ apart
    | inl same ↦
        let texts = key_inj f g ((==_iff (key f) (key g)).0 same) in
        absurd (cc (other, ap (eq_text f) (sym texts), eq_text_refl f))
  ]

  other_lines :
      (r : ImportRow) (f : Text) (rows : List ImportRow)
      → r.fingerprint ≡ some f
      → any (eq_text f) (fingerprints rows) ≡ false
      → any (same_line (as_parsed key r)) (map (as_parsed key) rows) ≡ false
  other_lines r f [] e d = refl
  other_lines r f (q ∷ rows) e d = elim (Option-cases q.fingerprint) [
    | inl missing ↦ ground (arith, other_lines r f rows e)
    | inr (g, found) ↦ ground (arith, other_keys f g, other_lines r f rows e)
  ]

  no_line :
      (r : ImportRow)
      → r.fingerprint ≡ none
      → (rows : List ImportRow)
      → any (same_line (as_parsed key r)) (map (as_parsed key) rows) ≡ false
  no_line r e [] = refl
  no_line r e (q ∷ rows) = ground (arith, no_line r e rows)

  distinct-parsed :
      (rows : List ImportRow)
      → distinct eq_text (fingerprints rows) ≡ true
      → distinct same_line (map (as_parsed key) rows) ≡ true
  distinct-parsed [] d = refl
  distinct-parsed (r ∷ rows) d = elim (Option-cases r.fingerprint) [
    | inl missing ↦ ground (arith, no_line r missing rows, distinct-parsed rows)
    | inr (f, found) ↦ ground (arith, other_lines r f rows found, distinct-parsed rows)
  ]

fresh :
    (user : ℕ) (table : List Transaction) (p : ParsedRow)
    → imported_nothing user table ≡ true
    → present user table p ≡ false
fresh user [] p h = refl
fresh user (x ∷ table) p h = ground (arith, fresh user table p)

all_fresh :
    (user : ℕ) (table : List Transaction) (ps : List ParsedRow)
    → imported_nothing user table ≡ true
    → all (λ q. not (present user table q)) ps ≡ true
all_fresh user table [] h = refl
all_fresh user table (p ∷ ps) h = ground (arith, fresh user table p h, all_fresh user table ps h)

module _ (h : Host) (key : Text → ℕ) (key_inj : (s t : Text) → key s ≡ key t → s ≡ t)
    (sha256_inj : (s t : Text) → h.sha256 s ≡ h.sha256 t → s ≡ t) (goals : Table Goal Goals.clash)
    (t : Table Transaction transaction_clash) where
  -- A user who has imported nothing before has every chosen line of a statement imported and none
  -- counted as a duplicate, even where lines are alike. SHA-256 has no collision, and no text that
  -- is hashed holds a surrogate without its partner, which UTF-8 cannot tell from another one.
  pub confirm_import-first :
      (user now : ℕ) (ids : ℕ → ℕ) (goal : Option ℕ) (csv : Text) (numbers : List ℕ)
      (all_goals : List Goal) (table after : List Transaction) (rows : List ImportRow)
      (res : ImportResult)
      → parse_transaction_import h csv ≡ ok rows
      → all (is_encodable h) rows ≡ true
      → imported_nothing user table ≡ true
      → confirm_import goals t user (import_request h key goal csv numbers) ids now all_goals table
        ≡ ok (res, after)
      → (res.imported ≡ length (filter (is_selected numbers) (map (as_parsed key) rows)))
        × (res.duplicates ≡ 0)
  confirm_import-first user now ids goal csv numbers all_goals table after rows res e whole new r =
      let parsed = map (as_parsed key) rows in
      let chosen = filter (is_selected numbers) parsed in
      let (parsed', read, owned, found, valid, ran, dups) =
        confirmed goals t user now (import_request h key goal csv numbers) ids all_goals table after
          res r in
      let same : parsed ≡ parsed' = ground arith in
      let differ =
        distinct-parsed key key_inj rows
          (parse_transaction_import-fingerprints h sha256_inj csv rows e whole) in
      let every =
        all_imported goals t user now ids goal chosen table
          (distinct-filter same_line (is_selected numbers) parsed differ)
          (all_fresh user table chosen new) in
      let n =
        ap (λ w. (run goals t user now ids goal (filter (is_selected numbers) w) table).0) same
        ∙ ap (λ w. w.0) ran in
      let imported = sym n ∙ every in
      let long = ap (λ w. length (filter (is_selected numbers) w)) same in
      (imported, omega (arith, dups, imported, long))
