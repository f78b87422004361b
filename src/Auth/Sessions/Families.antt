-- ===== src/Auth/Sessions/Families.antt =====
-- How many refresh families of a user stay live after a sign-in.
use stead.Prelude.{
  ℕ, ◌-◌, ◌≤◌, ◌==◌, ◌≡◌, refl, ap, ◌∙◌, subst, suc, Bool, true, not, ◌&&◌, Option, some, List, [],
  ◌∷◌, ◌++◌, map, length, take, drop, sort_by, count-sort_by, member, ok, filter, count, modify,
  arith, dedup, dedup-filter, length-drop, take-append-drop, count-append, count-le-length,
  Bool-cases, inl, inr, length-dedup-snoc, member-dedup, count_mono,
}
use stead.Store.{Table, grouped}
use stead.Auth.Sessions.{
  RefreshToken, clash, Settings, max_refresh_families, live_of, live_on, live_in_slot, revoke,
  new_token, revoke_slots, replace_device, evict_oldest, prepare_refresh_family_slot, issue_family,
}

-- The distinct families of the user that hold a live token.
abbrev pub live_families : ℕ → List RefreshToken → List ℕ
live_families user rows =
    dedup (map (λ (r : RefreshToken). r.family_id) (filter (live_of user) rows))

abbrev families_among : ℕ → List RefreshToken → List ℕ
families_among user rows = map (λ (r : RefreshToken). r.family_id) (filter (live_of user) rows)

slot_revoked :
    (user family now : ℕ) (rows : List RefreshToken)
    → families_among user (modify (live_in_slot user family) (revoke now) rows)
      ≡ filter (λ f. not (f == family)) (families_among user rows)
slot_revoked user family now [] = refl
slot_revoked user family now (r ∷ rows) = ground (arith, slot_revoked user family now rows)

not-member_nil : (ks : List ℕ) → ks ≡ filter (λ f. not (member f [])) ks
not-member_nil [] = refl
not-member_nil (k ∷ ks) = ap (λ rest. k ∷ rest) (not-member_nil ks)

not-member_cons :
    (family : ℕ) (families ks : List ℕ)
    → filter (λ f. not (member f families)) (filter (λ f. not (f == family)) ks)
      ≡ filter (λ f. not (member f (family ∷ families))) ks
not-member_cons family families [] = refl
not-member_cons family families (k ∷ ks) = ground (arith, not-member_cons family families ks)

count-map_fst :
    (p : ℕ → Bool) (fs : List (ℕ × ℕ))
    → length (filter p (map (λ (f : ℕ × ℕ). f.0) fs)) ≡ count (λ (f : ℕ × ℕ). p f.0) fs
count-map_fst p [] = refl
count-map_fst p (f ∷ fs) = ground (arith, count-map_fst p fs)

count_revoked :
    (es : List (ℕ × ℕ)) (ks : List ℕ)
    → ((k : ℕ) → member k (map (λ (f : ℕ × ℕ). f.0) es) ≡ true → member k ks ≡ true)
    → count (λ (f : ℕ × ℕ). not (member f.0 ks)) es ≡ 0
count_revoked [] ks h = refl
count_revoked (e ∷ es) ks h =
    let here : member e.0 ks ≡ true = h e.0 (ground arith) in
    ground (arith, here, count_revoked es ks (λ k m. h k (ground arith)))

count-true : (fs : List (ℕ × ℕ)) → count (λ (f : ℕ × ℕ). true) fs ≡ length fs
count-true [] = refl
count-true (f ∷ fs) = ap suc (count-true fs)

abbrev firsts : List (ℕ × ℕ) → List ℕ
firsts fs = map (λ (f : ℕ × ℕ). f.0) fs

abbrev oldest : ℕ → List (ℕ × ℕ) → List (ℕ × ℕ)
oldest n fs = take n (sort_by (λ (f : ℕ × ℕ). f.1) fs)

-- How many keys are left when those of the first `n` entries, after sorting, are revoked.
survivors_le :
    (n : ℕ) (fs : List (ℕ × ℕ))
    → length (filter (λ f. not (member f (firsts (oldest n fs)))) (firsts fs)) ≤ length fs - n
survivors_le n fs =
    let ks = firsts (oldest n fs) in
    let sorted = sort_by (λ (f : ℕ × ℕ). f.1) fs in
    let left : ℕ × ℕ → Bool = λ f. not (member f.0 ks) in
    let split = ap (count left) (take-append-drop n sorted) in
    omega (
      arith,
      count-map_fst (λ f. not (member f ks)) fs,
      count-sort_by (λ (f : ℕ × ℕ). f.1) left fs,
      split,
      count-append left (take n sorted) (drop n sorted),
      count_revoked (oldest n fs) ks (λ k m. m),
      count-le-length left (drop n sorted),
      length-drop n sorted,
      count-sort_by (λ (f : ℕ × ℕ). f.1) (λ (f : ℕ × ℕ). true) fs,
      count-true fs,
      count-true sorted,
    )

families-snoc :
    (user : ℕ) (r : RefreshToken) (rows : List RefreshToken)
    → live_of user r ≡ true
    → families_among user (rows ++ r ∷ []) ≡ families_among user rows ++ r.family_id ∷ []
families-snoc user r [] h = ground arith
families-snoc user r (t ∷ rows) h = ground (arith, families-snoc user r rows h)

max_pos : (s : Settings) → 1 ≤ max_refresh_families s
max_pos s = ground arith

module _ (tokens : Table RefreshToken clash) where
  -- Revoking families takes exactly those out of the live ones.
  slots_revoked :
      (user now : ℕ) (families : List ℕ) (rows : List RefreshToken)
      → live_families user (revoke_slots tokens user now families rows)
        ≡ filter (λ f. not (member f families)) (live_families user rows)
  unfolding revoke_slots
  slots_revoked user now [] rows = not-member_nil (live_families user rows)
  slots_revoked user now (family ∷ families) rows =
      rw (tokens.update_many_lem (live_in_slot user family) (revoke now) rows) (
        slots_revoked user now families (modify (live_in_slot user family) (revoke now) rows)
        ∙ ap (filter (λ f. not (member f families))) (
            ap dedup (slot_revoked user family now rows)
            ∙ dedup-filter (λ f. not (f == family)) (families_among user rows))
        ∙ not-member_cons family families (live_families user rows))

  keys-grouped :
      (p : RefreshToken → Bool) (by of : RefreshToken → ℕ) (rows : List RefreshToken) (ks : List ℕ)
      → map (λ (f : ℕ × ℕ). f.0) (grouped p by of rows ks) ≡ ks
  keys-grouped p by of rows [] = refl
  keys-grouped p by of rows (k ∷ ks) = ap (λ rest. k ∷ rest) (keys-grouped p by of rows ks)

  -- Before a sign-in adds its family, there is room for it.
  evicted_room :
      (s : Settings) (user now : ℕ) (rows : List RefreshToken)
      → length (live_families user (evict_oldest tokens s user now rows))
        ≤ max_refresh_families s - 1
  unfolding evict_oldest
  evicted_room s user now rows =
      let fs =
        grouped (live_of user) (λ (r : RefreshToken). r.family_id)
          (λ (r : RefreshToken). r.family_created_at) rows (live_families user rows) in
      let n = length fs - (max_refresh_families s - 1) in
      let kept : length
            (filter (λ f. not (member f (firsts (oldest n fs)))) (live_families user rows))
          ≤ length fs - n =
        subst
          (λ ks. length (filter (λ f. not (member f (firsts (oldest n fs)))) ks) ≤ length fs - n)
          (keys-grouped (live_of user) (λ r. r.family_id) (λ r. r.family_created_at) rows
            (live_families user rows))
          (survivors_le n fs) in
      rw
        (tokens.group_min_lem (live_of user) (λ (r : RefreshToken). r.family_id)
          (λ (r : RefreshToken). r.family_created_at) rows)
        (rw (slots_revoked user now (firsts (oldest n fs)) rows) (omega arith))

  -- A sign-in leaves its user with no more live families than the settings allow, one at least.
  pub issue_family-cap :
      (s : Settings) (id hash user family : ℕ) (device : Option ℕ) (now : ℕ)
      (rows after : List RefreshToken)
      → issue_family tokens s id hash user family device now rows ≡ ok after
      → length (live_families user after) ≤ max_refresh_families s
  unfolding issue_family prepare_refresh_family_slot
  issue_family-cap s id hash user family device now rows after e =
      let ready = evict_oldest tokens s user now (replace_device tokens user device now rows) in
      let row = new_token s id hash user family now device now in
      let made = tokens.create_lem row ready in
      let same : ready ++ row ∷ [] ≡ after = ground (arith, made) in
      rw (← same, families-snoc user row ready (ground arith))
        (omega (
          arith,
          evicted_room s user now (replace_device tokens user device now rows),
          length-dedup-snoc (families_among user ready) family,
          max_pos s,
        ))

slot_count :
    (user device family now : ℕ) (families : List ℕ) (rows : List RefreshToken)
    → count
        (λ r. live_on user device r && not (member r.family_id families))
        (modify (live_in_slot user family) (revoke now) rows)
      ≡ count (λ r. live_on user device r && not (member r.family_id (family ∷ families))) rows
slot_count user device family now families [] = refl
slot_count user device family now families (r ∷ rows) =
    ground (arith, slot_count user device family now families rows)

no_slot :
    (user device : ℕ) (rows : List RefreshToken)
    → count (live_on user device) rows
      ≡ count (λ r. live_on user device r && not (member r.family_id [])) rows
no_slot user device [] = refl
no_slot user device (r ∷ rows) = ground (arith, no_slot user device rows)

uncovered :
    (user device : ℕ) (rows : List RefreshToken) (ks : List ℕ)
    → ((k : ℕ)
        → member k (map (λ (r : RefreshToken). r.family_id) (filter (live_on user device) rows))
          ≡ true
        → member k ks ≡ true)
    → count (λ r. live_on user device r && not (member r.family_id ks)) rows ≡ 0
uncovered user device [] ks h = refl
uncovered user device (r ∷ rows) ks h = elim (Bool-cases (live_on user device r)) [
  | inl on ↦
      let here : member r.family_id ks ≡ true = h r.family_id (ground arith) in
      ground (arith, here, uncovered user device rows ks (λ k m. h k (ground arith)))
  | inr off ↦ ground (arith, uncovered user device rows ks (λ k m. h k (ground arith)))
]

module _ (tokens : Table RefreshToken clash) where
  slots_count :
      (user device now : ℕ) (families : List ℕ) (rows : List RefreshToken)
      → count (live_on user device) (revoke_slots tokens user now families rows)
        ≡ count (λ r. live_on user device r && not (member r.family_id families)) rows
  unfolding revoke_slots
  slots_count user device now [] rows = no_slot user device rows
  slots_count user device now (family ∷ families) rows =
      rw (tokens.update_many_lem (live_in_slot user family) (revoke now) rows) (
        slots_count user device now families (modify (live_in_slot user family) (revoke now) rows)
        ∙ slot_count user device family now families rows)

  slots_le :
      (user device now : ℕ) (families : List ℕ) (rows : List RefreshToken)
      → count (live_on user device) (revoke_slots tokens user now families rows)
        ≤ count (live_on user device) rows
  slots_le user device now families rows = rw (slots_count user device now families rows) (
      count_mono (live_on user device)
        (λ r. live_on user device r && not (member r.family_id families)) (λ r h. ground arith)
        rows)

  device_cleared :
      (user device now : ℕ) (rows : List RefreshToken)
      → count (live_on user device) (replace_device tokens user (some device) now rows) ≡ 0
  unfolding replace_device
  device_cleared user device now rows =
      rw (tokens.distinct_by_lem (live_on user device) (λ (r : RefreshToken). r.family_id) rows) (
        slots_count user device now _ rows
        ∙ uncovered user device rows _ (λ k m. member-dedup k _ ∙ m))

  evicted_le :
      (s : Settings) (user device now : ℕ) (rows : List RefreshToken)
      → count (live_on user device) (evict_oldest tokens s user now rows)
        ≤ count (live_on user device) rows
  unfolding evict_oldest
  evicted_le s user device now rows = slots_le user device now _ rows

  -- A sign-in on a known device replaces the sessions of that device: exactly one live token of
  -- the user is bound to it afterwards, that of the new family.
  pub issue_family-device :
      (s : Settings) (id hash user family device now : ℕ) (rows after : List RefreshToken)
      → issue_family tokens s id hash user family (some device) now rows ≡ ok after
      → (count (live_on user device) after ≡ 1)
        × (count (λ r. live_on user device r && r.family_id == family) after ≡ 1)
  unfolding issue_family prepare_refresh_family_slot
  issue_family-device s id hash user family device now rows after e =
      let cleared = replace_device tokens user (some device) now rows in
      let ready = evict_oldest tokens s user now cleared in
      let row = new_token s id hash user family now (some device) now in
      let made = tokens.create_lem row ready in
      let same : ready ++ row ∷ [] ≡ after = ground (arith, made) in
      let none_left : count (live_on user device) ready ≡ 0 =
        omega (arith, device_cleared user device now rows, evicted_le s user device now cleared) in
      rw (← same) (
        ground (arith, count-append (live_on user device) ready (row ∷ []), none_left),
        ground (
          arith,
          count-append (λ (r : RefreshToken). live_on user device r && r.family_id == family) ready
              (row ∷ []),
          none_left,
          count_mono (live_on user device)
              (λ (r : RefreshToken). live_on user device r && r.family_id == family)
              (λ r h. ground arith) ready,
        ),
      )
