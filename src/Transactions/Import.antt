-- ===== src/Transactions/Import.antt =====
-- The import of a bank statement: all of its chosen rows or none, and each of them once.
use stead.Prelude.{
  ℕ, ◌+◌, ◌-◌, ◌≤◌, ◌==◌, ◌≡◌, refl, sym, ap, ◌∙◌, subst, Bool, true, ◌&&◌, ◌||◌, Option, List, [],
  ◌∷◌, ◌++◌, map, length, filter, any, all, ok, arith, Bool-cases, Result-cases, inl, inr,
  length-append,
}
use stead.Store.{Table}
use stead.Goals.{Goal}
use stead.Goals
use stead.Transactions.{
  Transaction, transaction_clash, same_fingerprint, ParsedRow, ConfirmImport, ImportResult,
  is_valid, imported_row, is_selected, ensure_goal_belongs_to_user, create_many, confirm_import,
}

pub any-snoc :
    (p : Transaction → Bool) (rows : List Transaction) (r : Transaction)
    → any p (rows ++ r ∷ []) ≡ (any p rows || p r)
any-snoc p [] r = ground arith
any-snoc p (x ∷ rows) r = ground (arith, any-snoc p rows r)

abbrev pub chosen_rows : ConfirmImport → List ParsedRow → List ParsedRow
chosen_rows dto parsed = filter (is_selected dto.row_numbers) parsed

both : (a b : Bool) → a ≡ true → b ≡ true → (a && b) ≡ true
both a b h k = ground arith

-- The row of the parsed line `p` for the user, and whether the user has one with its fingerprint.
abbrev pub present : ℕ → List Transaction → ParsedRow → Bool
present user rows p =
    any (λ x. user == x.user_id && same_fingerprint p.fingerprint x.import_fingerprint) rows

module _ (goals : Table Goal Goals.clash) (t : Table Transaction transaction_clash) (user now : ℕ)
    (ids : ℕ → ℕ) (goal : Option ℕ) where
  -- What an import of the lines makes of the rows.
  abbrev pub run : List ParsedRow → List Transaction → ℕ × List Transaction
  run ps rows = create_many goals t (map (imported_row ids user now goal) ps) rows

  present_kept :
      (p : ParsedRow) (ps : List ParsedRow) (rows : List Transaction)
      → present user rows p ≡ true
      → present user (run ps rows).1 p ≡ true
  unfolding create_many
  present_kept p [] rows h = h
  present_kept p (q ∷ ps) rows h =
      let r = imported_row ids user now goal q in
      let law = t.create_lem r rows in
      let skipped = present_kept p ps rows h in
      let grown : present user (rows ++ r ∷ []) p ≡ true = ground (
        arith,
        any-snoc (λ x. user == x.user_id && same_fingerprint p.fingerprint x.import_fingerprint)
            rows r,
      ) in
      let made = present_kept p ps (rows ++ r ∷ []) grown in ground (arith, law, skipped, made)

  all-present :
      (ps : List ParsedRow) (rows : List Transaction)
      → all is_valid ps ≡ true
      → all (present user (run ps rows).1) ps ≡ true
  unfolding create_many
  all-present [] rows h = refl
  all-present (p ∷ ps) rows h =
      let r = imported_row ids user now goal p in
      let law = t.create_lem r rows in
      let rest : all is_valid ps ≡ true = ground arith in
      elim (Bool-cases (any (transaction_clash r) rows)) [
        | inl taken ↦
            let same : (run (p ∷ ps) rows).1 ≡ (run ps rows).1 = ground (arith, law) in
            let here = present_kept p ps rows taken in
            let others = all-present ps rows rest in
            subst (λ w. (present user w p && all (present user w) ps) ≡ true) (sym same)
              (both (present user (run ps rows).1 p) (all (present user (run ps rows).1) ps) here
                others)
        | inr free ↦
            let same : (run (p ∷ ps) rows).1 ≡ (run ps (rows ++ r ∷ [])).1 = ground (arith, law) in
            let own : same_fingerprint p.fingerprint p.fingerprint ≡ true = ground arith in
            let added : present user (rows ++ r ∷ []) p ≡ true = ground (
              arith,
              own,
              any-snoc
                  (λ x. user == x.user_id && same_fingerprint p.fingerprint x.import_fingerprint)
                  rows r,
            ) in
            let here = present_kept p ps (rows ++ r ∷ []) added in
            let others = all-present ps (rows ++ r ∷ []) rest in
            subst (λ w. (present user w p && all (present user w) ps) ≡ true) (sym same)
              (both (present user (run ps (rows ++ r ∷ [])).1 p)
                (all (present user (run ps (rows ++ r ∷ [])).1) ps) here others)
      ]

  -- Lines that are all there leave the rows as they are.
  pub idle :
      (ps : List ParsedRow) (rows : List Transaction)
      → all (present user rows) ps ≡ true
      → run ps rows ≡ (0, rows)
  unfolding create_many
  idle [] rows h = refl
  idle (p ∷ ps) rows h =
      let law = t.create_lem (imported_row ids user now goal p) rows in
      ground (arith, law, idle ps rows)

  counted :
      (ps : List ParsedRow) (rows : List Transaction)
      → (length (run ps rows).1 ≡ length rows + (run ps rows).0) × ((run ps rows).0 ≤ length ps)
  unfolding create_many
  counted [] rows = (omega arith, omega arith)
  counted (p ∷ ps) rows =
      let r = imported_row ids user now goal p in
      let law = t.create_lem r rows in
      let (a, b) = counted ps rows in
      let (c, d) = counted ps (rows ++ r ∷ []) in
      let more = length-append rows (r ∷ []) in ground (arith, law, a, b, c, d, more)

module _ (goals : Table Goal Goals.clash) (t : Table Transaction transaction_clash) where
  -- What a confirmed import has done.
  pub confirmed :
      (user now : ℕ) (dto : ConfirmImport) (ids : ℕ → ℕ) (all_goals : List Goal)
      (rows after : List Transaction) (res : ImportResult)
      → confirm_import goals t user dto ids now all_goals rows ≡ ok (res, after)
      → (parsed : List ParsedRow) × (dto.statement ≡ ok parsed)
        × (ensure_goal_belongs_to_user goals t user dto.goal_id all_goals ≡ ok tt)
        × (all (λ n. any (λ r. r.row_number == n) (chosen_rows dto parsed)) dto.row_numbers ≡ true)
        × (all is_valid (chosen_rows dto parsed) ≡ true)
        × (run goals t user now ids dto.goal_id (chosen_rows dto parsed) rows
            ≡ (res.imported, after))
        × (res.duplicates ≡ length (chosen_rows dto parsed) - res.imported)
  unfolding confirm_import
  confirmed user now dto ids all_goals rows after res e = elim (Result-cases dto.statement) [
    | inr (x, bad) ↦ absurd (ground arith)
    | inl (parsed, read) ↦
        (parsed, read, ground arith, ground arith, ground arith, ground arith, ground arith)
  ]

  -- A confirmed import keeps the account of its chosen lines: each is imported or a duplicate, the
  -- rows grow by the imported ones, and all the lines are valid and there afterwards.
  pub confirm_import_lem :
      (user now : ℕ) (dto : ConfirmImport) (ids : ℕ → ℕ) (all_goals : List Goal)
      (rows after : List Transaction) (res : ImportResult) (parsed : List ParsedRow)
      → confirm_import goals t user dto ids now all_goals rows ≡ ok (res, after)
      → dto.statement ≡ ok parsed
      → (res.imported + res.duplicates ≡ length (chosen_rows dto parsed))
        × (length after ≡ length rows + res.imported)
        × (all is_valid (chosen_rows dto parsed) ≡ true)
        × (all (present user after) (chosen_rows dto parsed) ≡ true)
  confirm_import_lem user now dto ids all_goals rows after res parsed e read =
      let (parsed', read', owned, found, valid, ran, dups) =
        confirmed user now dto ids all_goals rows after res e in
      let same : parsed' ≡ parsed = ground arith in
      let valid = subst (λ w. all is_valid (chosen_rows dto w) ≡ true) same valid in
      let ran =
        subst
          (λ w.
            run goals t user now ids dto.goal_id (chosen_rows dto w) rows ≡ (res.imported, after))
          same ran in
      let dups =
        subst (λ w. res.duplicates ≡ length (chosen_rows dto w) - res.imported) same dups in
      let (grown, most) = counted goals t user now ids dto.goal_id (chosen_rows dto parsed) rows in
      let there =
        all-present goals t user now ids dto.goal_id (chosen_rows dto parsed) rows valid in
      let n : (run goals t user now ids dto.goal_id (chosen_rows dto parsed) rows).0
          ≡ res.imported =
        ap (λ r. r.0) ran in
      let rows' : (run goals t user now ids dto.goal_id (chosen_rows dto parsed) rows).1 ≡ after =
        ap (λ r. r.1) ran in
      (
        ground (arith, n, most, dups),
        subst (λ w. length w ≡ length rows + res.imported) rows'
            (grown ∙ ap (λ k. length rows + k) n),
        valid,
        subst (λ w. all (present user w) (chosen_rows dto parsed) ≡ true) rows' there,
      )

  -- Confirming the same import again, at another time and with other identifiers, imports nothing,
  -- counts every chosen line as a duplicate, and leaves the rows as they are.
  pub confirm_import_again :
      (user now later : ℕ) (dto : ConfirmImport) (ids ids' : ℕ → ℕ) (all_goals : List Goal)
      (rows after : List Transaction) (res : ImportResult)
      → confirm_import goals t user dto ids now all_goals rows ≡ ok (res, after)
      → confirm_import goals t user dto ids' later all_goals after
        ≡ ok (record { imported = 0; duplicates = res.imported + res.duplicates }, after)
  unfolding confirm_import
  confirm_import_again user now later dto ids ids' all_goals rows after res e =
      let (parsed, read, owned, found, valid, ran, dups) =
        confirmed user now dto ids all_goals rows after res e in
      let (total, _, _, there) =
        confirm_import_lem user now dto ids all_goals rows after res parsed e read in
      let again = idle goals t user later ids' dto.goal_id (chosen_rows dto parsed) after there in
      ground (arith, total, again)
