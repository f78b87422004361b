-- ===== src/Store.antt =====
-- The database tables behind api/src/prisma/prisma.service.ts.
--
-- A table is the list of its rows. The Prisma client and PostgreSQL are not part of the
-- repository: the services take them as a value of `Table`, whose laws state the documented meaning
-- of the queries that the services make. `Store.Memory` fills the interface.
pub mod Memory
use stead.Prelude.{
  ℕ, ◌≤◌, ◌≡◌, Bool, true, false, not, ◌&&◌, ◌==◌, map, least, dedup, List, [], ◌∷◌, ◌++◌, Option,
  none, some, All, filter, find, any, count, modify, if◌then◌else◌,
}
use mathlib.Core.List.{Memᴰ}

-- What an ordered `findFirst` promises: no row satisfies the filter, or the row that is returned
-- does and none that does has a key beyond its own.
abbrev pub Picks :
    {Row : Type 0} → (Row → Bool) → (Row → Row → Type 0) → List Row → Option Row → Type 0
Picks keep before rows none = All (λ r. keep r ≡ false) rows
Picks keep before rows (some best) =
    Memᴰ best rows × (keep best ≡ true) × All (λ r. keep r ≡ true → before best r) rows

-- No two rows of the list clash.
abbrev pub distinct : {Row : Type 0} → (Row → Row → Bool) → List Row → Bool
distinct clash [] = true
distinct clash (r ∷ rows) = not (any (clash r) rows) && distinct clash rows

abbrev pub updated :
    {Row : Type 0}
    → (Row → Row → Bool)
    → (Row → Row)
    → List Row
    → Option Row
    → Option (Row × List Row)
updated clash f rows none = none
updated clash f rows (some r) = if distinct clash rows then some (f r, rows) else none

-- One entry for each key, with the least value of the second column.
abbrev pub grouped :
    {Row : Type 0} → (Row → Bool) → (Row → ℕ) → (Row → ℕ) → List Row → List ℕ → List (ℕ × ℕ)
grouped p by of rows [] = []
grouped p by of rows (k ∷ ks) =
    (k, least (map of (filter (λ r. p r && by r == k) rows))) ∷ grouped p by of rows ks

-- `clash r s` holds when a unique index forbids the rows `r` and `s` side by side.
pub record Table (Row : Type 0) (clash : Row → Row → Bool) : Type 0 where
  -- findUnique, and findFirst without an order
  pub find_first : (Row → Bool) → List Row → Option Row
  -- findFirst with orderBy desc and asc on a column
  pub find_latest : (Row → Bool) → (Row → ℕ) → List Row → Option Row
  pub find_oldest : (Row → Bool) → (Row → ℕ) → List Row → Option Row
  pub find_many : (Row → Bool) → List Row → List Row
  pub count_where : (Row → Bool) → List Row → ℕ
  -- findMany with `distinct` on one column, and groupBy with `_min` of another
  pub distinct_by : (Row → Bool) → (Row → ℕ) → List Row → List ℕ
  pub group_min : (Row → Bool) → (Row → ℕ) → (Row → ℕ) → List Row → List (ℕ × ℕ)
  -- `none` is the error P2002 of a unique index
  pub create : Row → List Row → Option (List Row)
  -- create in a table without a unique index but its identifier
  pub insert : Row → List Row → List Row
  -- update of one row; `none` is P2025 or P2002, and the row is the updated one
  pub update : (Row → Bool) → (Row → Row) → List Row → Option (Row × List Row)
  -- updateMany, and update without its result, of columns that no unique index reads or that only
  -- take rows out of a partial index; the number is `count`
  pub update_many : (Row → Bool) → (Row → Row) → List Row → List Row × ℕ
  pub delete_many : (Row → Bool) → List Row → List Row × ℕ
  pub find_first_lem : (p : Row → Bool) (rows : List Row) → find_first p rows ≡ find p rows
  pub find_latest_lem :
      (p : Row → Bool) (key : Row → ℕ) (rows : List Row)
      → Picks p (λ best r. key r ≤ key best) rows (find_latest p key rows)
  pub find_oldest_lem :
      (p : Row → Bool) (key : Row → ℕ) (rows : List Row)
      → Picks p (λ best r. key best ≤ key r) rows (find_oldest p key rows)
  pub find_many_lem : (p : Row → Bool) (rows : List Row) → find_many p rows ≡ filter p rows
  pub count_where_lem : (p : Row → Bool) (rows : List Row) → count_where p rows ≡ count p rows
  pub distinct_by_lem :
      (p : Row → Bool) (by : Row → ℕ) (rows : List Row)
      → distinct_by p by rows ≡ dedup (map by (filter p rows))
  pub group_min_lem :
      (p : Row → Bool) (by of : Row → ℕ) (rows : List Row)
      → group_min p by of rows ≡ grouped p by of rows (dedup (map by (filter p rows)))
  pub create_lem :
      (r : Row) (rows : List Row)
      → create r rows ≡ (if any (clash r) rows then none else some (rows ++ r ∷ []))
  pub insert_lem : (r : Row) (rows : List Row) → insert r rows ≡ rows ++ r ∷ []
  pub update_lem :
      (p : Row → Bool) (f : Row → Row) (rows : List Row)
      → update p f rows ≡ updated clash f (modify p f rows) (find p rows)
  pub update_many_lem :
      (p : Row → Bool) (f : Row → Row) (rows : List Row)
      → update_many p f rows ≡ (modify p f rows, count p rows)
  pub delete_many_lem :
      (p : Row → Bool) (rows : List Row)
      → delete_many p rows ≡ (filter (λ r. not (p r)) rows, count p rows)
