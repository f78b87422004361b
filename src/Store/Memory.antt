-- ===== src/Store/Memory.antt =====
-- A table held in memory: a value of the interface of Store.antt, which shows that its laws can hold.
use mathlib.Core.List.{Memᴰ}
use stead.Prelude.{
  ℕ, ◌≤◌, ◌≡◌, refl, inl, inr, Bool, true, false, not, List, [], ◌∷◌, ◌++◌, Option, none, some, All,
  filter, find, any, count, modify, arith, leb, if◌then◌else◌, Bool-cases, map, dedup,
}
use stead.Store.{Table, Picks, updated, grouped}

module _ {Row : Type 0} (p : Row → Bool) (key : Row → ℕ) (up : Bool) where
  abbrev Beyond : Row → Row → Type 0
  Beyond best r = if up then key r ≤ key best else key best ≤ key r

  -- Whether `r` beats the best row so far.
  abbrev beats : Row → Row → Bool
  beats r best = if up then leb (key best) (key r) else leb (key r) (key best)

  abbrev better : Row → Option Row → Option Row
  better r none = some r
  better r (some best) = if beats r best then some r else some best

  pub extreme : List Row → Option Row
  extreme [] = none
  extreme (r ∷ rs) = if p r then better r (extreme rs) else extreme rs

  pub skipped :
      (r : Row) (rs : List Row) (o : Option Row)
      → p r ≡ false
      → Picks p Beyond rs o
      → Picks p Beyond (r ∷ rs) o
  skipped r rs none h k = (h, k)
  skipped r rs (some b) h (m, e, a) = (Memᴰ.tail m, e, ((λ t. cc), a))

  no_rival :
      (best : Row) (rs : List Row)
      → All (λ r. p r ≡ false) rs
      → All (λ r. p r ≡ true → Beyond best r) rs
  no_rival best [] h = tt
  no_rival best (r ∷ rs) (e, h) = ((λ t. cc), no_rival best rs h)

  outdone :
      (best old : Row) (rs : List Row)
      → beats best old ≡ true
      → All (λ r. p r ≡ true → Beyond old r) rs
      → All (λ r. p r ≡ true → Beyond best r) rs
  outdone best old [] b h = tt
  outdone best old (r ∷ rs) b (e, h) = ((λ t. further (e t)), outdone best old rs b h)
    where
      further : Beyond old r → Beyond best r
      further k = ground arith

  pub taken :
      (r : Row) (rs : List Row) (o : Option Row)
      → p r ≡ true
      → Picks p Beyond rs o
      → Picks p Beyond (r ∷ rs) (better r o)
  taken r rs none h k = (Memᴰ.head refl, h, ((λ t. ground arith), no_rival r rs k))
  taken r rs (some b) h (m, e, a) = elim (Bool-cases (beats r b)) [
    | inl wins ↦ rw wins (Memᴰ.head refl, h, ((λ t. ground arith), outdone r b rs wins a))
    | inr loses ↦ rw loses (Memᴰ.tail m, e, ((λ t. ground arith), a))
  ]

  pub extreme-Picks : (rs : List Row) → Picks p Beyond rs (extreme rs)
  unfolding extreme
  extreme-Picks [] = tt
  extreme-Picks (r ∷ rs) = elim (Bool-cases (p r)) [
    | inl e ↦ rw e (taken r rs (extreme rs) e (extreme-Picks rs))
    | inr e ↦ rw e (skipped r rs (extreme rs) e (extreme-Picks rs))
  ]

unfoldable pub memory : {Row : Type 0} (clash : Row → Row → Bool) → Table Row clash
unfolding extreme
memory clash = record {
  find_first = find;
  find_latest = λ p key rows. extreme p key true rows;
  find_oldest = λ p key rows. extreme p key false rows;
  find_many = filter;
  count_where = count;
  distinct_by = λ p by rows. dedup (map by (filter p rows));
  group_min = λ p by of rows. grouped p by of rows (dedup (map by (filter p rows)));
  create = λ r rows. if any (clash r) rows then none else some (rows ++ r ∷ []);
  insert = λ r rows. rows ++ r ∷ [];
  update = λ p f rows. updated clash f (modify p f rows) (find p rows);
  update_many = λ p f rows. (modify p f rows, count p rows);
  delete_many = λ p rows. (filter (λ r. not (p r)) rows, count p rows);
  find_first_lem = λ p rows. refl;
  find_latest_lem = λ p key rows. extreme-Picks p key true rows;
  find_oldest_lem = λ p key rows. extreme-Picks p key false rows;
  find_many_lem = λ p rows. refl;
  count_where_lem = λ p rows. refl;
  distinct_by_lem = λ p by rows. refl;
  group_min_lem = λ p by of rows. refl;
  create_lem = λ r rows. refl;
  insert_lem = λ r rows. refl;
  update_lem = λ p f rows. refl;
  update_many_lem = λ p f rows. refl;
  delete_many_lem = λ p rows. refl;
}
