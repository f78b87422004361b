-- ===== src/Transactions/Union.antt =====
-- What an import is on the abstract view of the table: the set of the fingerprints that each user has.
use stead.Prelude.{
  ℕ, ◌==◌, ◌≡◌, refl, sym, ap, ◌∙◌, Bool, true, false, ◌&&◌, ◌||◌, Option, none, some, some_eq,
  List, [], ◌∷◌, ◌++◌, any, ok, arith, ==_iff, Bool-cases, Option-cases, inl, inr,
}
use stead.Store.{Table}
use stead.Goals.{Goal}
use stead.Goals
use stead.Transactions.{
  Transaction, transaction_clash, ParsedRow, ConfirmImport, ImportResult, imported_row, create_many,
  confirm_import,
}
use stead.Transactions.Import.{run, chosen_rows, any-snoc, confirmed}

-- A user with a fingerprint.
abbrev pub View : Type 0
View = ℕ → ℕ → Bool

abbrev pub view : List Transaction → View
view rows user f = any (λ x. x.user_id == user && some_eq x.import_fingerprint f) rows

-- The abstract import adds the fingerprints of the lines to those of the user.
abbrev pub import_lines : ℕ → List ParsedRow → View → View
import_lines user lines before v f =
    before v f || (user == v && any (λ p. some_eq p.fingerprint f) lines)

clash-view :
    (r : Transaction) (f : ℕ) (rows : List Transaction)
    → r.import_fingerprint ≡ some f
    → any (transaction_clash r) rows ≡ view rows r.user_id f
clash-view r f [] e = refl
clash-view r f (x ∷ rows) e = ground (arith, clash-view r f rows e)

no_clash :
    (r : Transaction) (rows : List Transaction)
    → r.import_fingerprint ≡ none
    → any (transaction_clash r) rows ≡ false
no_clash r [] e = refl
no_clash r (x ∷ rows) e = ground (arith, no_clash r rows e)

same_view :
    (rows : List Transaction) (u v g f : ℕ)
    → (u == v && g == f) ≡ true
    → view rows u g ≡ view rows v f
same_view rows u v g f e =
    ap (λ k. view rows k g) ((==_iff u v).0 (ground arith))
    ∙ ap (view rows v) ((==_iff g f).0 (ground arith))

module _ (goals : Table Goal Goals.clash) (t : Table Transaction transaction_clash) (user now : ℕ)
    (ids : ℕ → ℕ) (goal : Option ℕ) where
  run-view :
      (ps : List ParsedRow) (rows : List Transaction) (v f : ℕ)
      → view (run goals t user now ids goal ps rows).1 v f ≡ import_lines user ps (view rows) v f
  unfolding create_many
  run-view [] rows v f = ground arith
  run-view (p ∷ ps) rows v f =
      let r = imported_row ids user now goal p in
      let law = t.create_lem r rows in
      let grown = any-snoc (λ x. x.user_id == v && some_eq x.import_fingerprint f) rows r in
      let skipped = run-view ps rows v f in
      let made = run-view ps (rows ++ r ∷ []) v f in
      elim (Option-cases p.fingerprint) [
        | inl missing ↦ ground (arith, law, no_clash r rows missing, grown, made)
        | inr (g, given) ↦
            let hit = clash-view r g rows given in
            elim (Bool-cases (user == v && g == f)) [
              | inl both ↦
                  let there = same_view rows user v g f both in
                  ground (arith, law, hit, there, given, grown, skipped, made)
              | inr other ↦ ground (arith, law, hit, given, grown, skipped, made)
            ]
      ]

module _ (goals : Table Goal Goals.clash) (t : Table Transaction transaction_clash) where
  -- A confirmed import is, on the fingerprints that each user has, the union with those of the chosen
  -- lines: whatever the table skips as a duplicate was there, and other users keep theirs.
  pub confirm_import-view :
      (user now : ℕ) (dto : ConfirmImport) (ids : ℕ → ℕ) (all_goals : List Goal)
      (rows after : List Transaction) (res : ImportResult) (parsed : List ParsedRow)
      → confirm_import goals t user dto ids now all_goals rows ≡ ok (res, after)
      → dto.statement ≡ ok parsed
      → (v f : ℕ) → view after v f ≡ import_lines user (chosen_rows dto parsed) (view rows) v f
  confirm_import-view user now dto ids all_goals rows after res parsed e read v f =
      let (parsed', read', owned, found, valid, ran, dups) =
        confirmed goals t user now dto ids all_goals rows after res e in
      let same : parsed' ≡ parsed = ground arith in
      let end = ap (λ w. view w.1 v f) ran in
      sym end
      ∙ run-view goals t user now ids dto.goal_id (chosen_rows dto parsed') rows v f
      ∙ ap (λ w. import_lines user (chosen_rows dto w) (view rows) v f) same
