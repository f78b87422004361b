-- ===== src/Account/Consents.antt =====
-- The consent history and the consents that are in force.
use stead.Prelude.{
  ℕ, ◌⊎◌, ◌==◌, ◌≡◌, refl, sym, ap, ◌∙◌, subst, Bool, true, false, ◌&&◌, Option, none, some, List,
  [], ◌∷◌, ◌++◌, find, modify, ok, if◌then◌else◌, arith, Bool-cases, Option-cases, inl, inr,
  Result-cases, find-append_right, find-modify_hit, find-modify_miss, find_holds, ==_iff,
}
use stead.Account.{
  ConsentCategory, analytics, product_research, ConsentPreference, ConsentRecord, UpdateConsents,
  AccountDb, AccountTables, AccountResponse, analytics_of, product_research_of, preference_of_user,
  changes, edited_preference, new_preference, insert_all, upsert_preference, record_consents,
  update_consents, get_account,
}
use mathlib.Core.List.{append_assoc, append-nil}

abbrev pub same_category : ConsentCategory → ConsentCategory → Bool
same_category analytics analytics = true
same_category product_research product_research = true
same_category _ _ = false

-- What the history says of a user's category: the last record counts, and none is a refusal.
abbrev pub last_granted : ℕ → ConsentCategory → Bool → List ConsentRecord → Bool
last_granted user k before [] = before
last_granted user k before (r ∷ rs) =
    last_granted user k
      (if r.user_id == user && same_category r.category k then r.granted else before) rs

-- What is in force.
abbrev pub enabled : ConsentCategory → Option ConsentPreference → Bool
enabled analytics p = analytics_of p
enabled product_research p = product_research_of p

-- The consents in force are those of the history, for every user and category.
abbrev pub Ledger : AccountDb → Type 0
Ledger w =
    (user : ℕ) (k : ConsentCategory)
    → enabled k (find (preference_of_user user) w.preferences) ≡ last_granted user k false w.records

last_granted-append :
    (user : ℕ) (k : ConsentCategory) (before : Bool) (rs ss : List ConsentRecord)
    → last_granted user k before (rs ++ ss) ≡ last_granted user k (last_granted user k before rs) ss
last_granted-append user k before [] ss = refl
last_granted-append user k before (r ∷ rs) ss =
    last_granted-append user k
      (if r.user_id == user && same_category r.category k then r.granted else before) rs ss

-- The new records of a request, on the consents before it.
changes-own :
    (user : ℕ) (k : ConsentCategory) (input : UpdateConsents) (current : Option ConsentPreference)
    → last_granted user k (enabled k current) (changes user input current)
      ≡ enabled k (some (new_preference user input current))
changes-own user analytics input current = ground arith
changes-own user product_research input current = ground arith

changes-other :
    (user other : ℕ) (k : ConsentCategory) (before : Bool) (input : UpdateConsents)
    (current : Option ConsentPreference)
    → (user == other) ≡ false
    → last_granted other k before (changes user input current) ≡ before
changes-other user other k before input current apart = ground arith

same_values :
    (user : ℕ) (k : ConsentCategory) (input : UpdateConsents) (p : ConsentPreference)
    → enabled k (some (edited_preference input p))
      ≡ enabled k (some (new_preference user input (some p)))
same_values user analytics input p = refl
same_values user product_research input p = refl

find-snoc_miss :
    (p : ConsentPreference → Bool) (rows : List ConsentPreference) (x : ConsentPreference)
    → p x ≡ false
    → find p (rows ++ x ∷ []) ≡ find p rows
find-snoc_miss p [] x h = ground arith
find-snoc_miss p (r ∷ rows) x h = ground (arith, find-snoc_miss p rows x h)

abbrev upserted_rows :
    ℕ → UpdateConsents → Option ConsentPreference → List ConsentPreference → List ConsentPreference
upserted_rows user input none rows = rows ++ new_preference user input none ∷ []
upserted_rows user input (some p) rows =
    modify (preference_of_user user) (edited_preference input) rows

module _ (t : AccountTables) where
  insert_all_lem : (rs records : List ConsentRecord) → insert_all t rs records ≡ records ++ rs
  unfolding insert_all
  insert_all_lem [] records = sym (append-nil records)
  insert_all_lem (r ∷ rs) records =
      ap (insert_all t rs) (t.records.insert_lem r records)
      ∙ insert_all_lem rs (records ++ r ∷ [])
      ∙ append_assoc records (r ∷ []) rs

  -- The preferences after an upsert.
  upserted :
      (user : ℕ) (input : UpdateConsents) (rows after : List ConsentPreference)
      → upsert_preference t user input (find (preference_of_user user) rows) rows ≡ some after
      → after ≡ upserted_rows user input (find (preference_of_user user) rows) rows
  unfolding upsert_preference
  upserted user input rows after e = elim (Option-cases (find (preference_of_user user) rows)) [
    | inl missing ↦
        let law = t.preferences.create_lem (new_preference user input none) rows in
        ground (arith, law)
    | inr (p, found) ↦
        let law =
          t.preferences.update_lem (preference_of_user user) (edited_preference input) rows in
        ground (arith, law)
  ]

upserted-own :
    (user : ℕ) (k : ConsentCategory) (input : UpdateConsents) (rows : List ConsentPreference)
    → enabled k (
        find
          (preference_of_user user)
          (upserted_rows user input (find (preference_of_user user) rows) rows))
      ≡ enabled k (some (new_preference user input (find (preference_of_user user) rows)))
upserted-own user k input rows = elim (Option-cases (find (preference_of_user user) rows)) [
  | inl missing ↦
      let there =
        find-append_right (preference_of_user user) rows (new_preference user input none ∷ [])
          missing in
      rw missing (ap (enabled k) (there ∙ ground arith))
  | inr (p, found) ↦
      let hit =
        find-modify_hit (preference_of_user user) (preference_of_user user)
          (edited_preference input) (λ x. refl) rows p found
          (find_holds (preference_of_user user) rows p found) in
      rw found (ap (enabled k) hit ∙ same_values user k input p)
]

upserted-other :
    (user other : ℕ) (input : UpdateConsents) (rows : List ConsentPreference)
    → (user == other) ≡ false
    → find
        (preference_of_user other)
        (upserted_rows user input (find (preference_of_user user) rows) rows)
      ≡ find (preference_of_user other) rows
upserted-other user other input rows apart =
    elim (Option-cases (find (preference_of_user user) rows)) [
      | inl missing ↦
          rw missing
            (find-snoc_miss (preference_of_user other) rows (new_preference user input none) apart)
      | inr (p, found) ↦ rw found (
          find-modify_miss (preference_of_user other) (preference_of_user user)
            (edited_preference input) (λ x. refl) (λ x h. ground arith) rows)
    ]

-- The new preferences are what the new records make of the history.
followed :
    (user other : ℕ) (k : ConsentCategory) (input : UpdateConsents) (w : AccountDb)
    → Ledger w
    → enabled k (
        find
          (preference_of_user other)
          (upserted_rows user input (find (preference_of_user user) w.preferences) w.preferences))
      ≡ last_granted other k
          (last_granted other k false w.records)
          (changes user input (find (preference_of_user user) w.preferences))
followed user other k input w ledger = elim (Bool-cases (user == other)) [
  | inl same ↦
      subst
        (λ o.
          enabled k (
            find (preference_of_user o) (
              upserted_rows user input (find (preference_of_user user) w.preferences)
                w.preferences))
          ≡ last_granted o k (last_granted o k false w.records)
              (changes user input (find (preference_of_user user) w.preferences)))
        ((==_iff user other).0 same)
        (upserted-own user k input w.preferences
          ∙ sym (changes-own user k input (find (preference_of_user user) w.preferences))
          ∙ ap
              (λ b.
                last_granted user k b
                  (changes user input (find (preference_of_user user) w.preferences)))
              (ledger user k))
  | inr apart ↦
      ap (enabled k) (upserted-other user other input w.preferences apart)
      ∙ ledger other k
      ∙ sym (
          changes-other user other k (last_granted other k false w.records) input
            (find (preference_of_user user) w.preferences) apart)
]

module _ (t : AccountTables) where
  recorded :
      (user : ℕ) (input : UpdateConsents) (w after : AccountDb)
      → record_consents t user input w ≡ ok after
      → (after ≡ w)
        ⊎ ((after.preferences
              ≡ upserted_rows user input
                  (find (preference_of_user user) w.preferences)
                  w.preferences)
            × (after.records
                ≡ w.records ++ changes user input (find (preference_of_user user) w.preferences)))
  unfolding record_consents
  recorded user input w after e =
      let law = t.preferences.find_first_lem (preference_of_user user) w.preferences in
      let before = find (preference_of_user user) w.preferences in
      let all = insert_all_lem t (changes user input before) w.records in
      elim (Option-cases (upsert_preference t user input before w.preferences)) [
        | inl refused ↦ ground (arith, law, refused)
        | inr (rows, made) ↦
            let same = upserted t user input w.preferences rows made in
            ground (arith, law, made, same, all)
      ]

  -- The consents in force stay those of the history, whatever a user asks for.
  pub record_consents-Ledger :
      (user : ℕ) (input : UpdateConsents) (w after : AccountDb)
      → record_consents t user input w ≡ ok after
      → Ledger w
      → Ledger after
  unfolding record_consents
  record_consents-Ledger user input w after e ledger other k =
      let before = find (preference_of_user user) w.preferences in
      elim (recorded user input w after e) [
        | inl same ↦
            subst
              (λ d.
                enabled k (find (preference_of_user other) d.preferences)
                ≡ last_granted other k false d.records)
              (sym same) (ledger other k)
        | inr (rows, records) ↦
            ap (λ ps. enabled k (find (preference_of_user other) ps)) rows
            ∙ followed user other k input w ledger
            ∙ sym (last_granted-append other k false w.records (changes user input before))
            ∙ sym (ap (last_granted other k false) records)
      ]

  -- After a request to change consents, the consents in force are for every user those that the
  -- history of consent records gives, and the answer shows the user's.
  pub update_consents-Ledger :
      (user : ℕ) (input : UpdateConsents) (w after : AccountDb) (answer : AccountResponse)
      → update_consents t user input w ≡ ok (answer, after)
      → Ledger w
      → Ledger after
        × (answer.analytics_enabled ≡ last_granted user analytics false after.records)
        × (answer.product_research_enabled ≡ last_granted user product_research false after.records)
  unfolding update_consents get_account
  update_consents-Ledger user input w after answer e ledger =
      elim (Result-cases (record_consents t user input w)) [
        | inr (x, refused) ↦ absurd (ground arith)
        | inl (d, done) ↦
            let law = t.preferences.find_first_lem (preference_of_user user) d.preferences in
            let same : d ≡ after = ground arith in
            let kept = record_consents-Ledger user input w d done ledger in
            let kept' = subst Ledger same kept in
            let read =
              subst
                (λ x.
                  t.preferences.find_first (preference_of_user user) x.preferences
                  ≡ find (preference_of_user user) x.preferences)
                same law in
            (
              kept',
              ground (arith, kept' user analytics, read),
              ground (arith, kept' user product_research, read),
            )
      ]
