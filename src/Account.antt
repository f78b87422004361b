-- ===== src/Account.antt =====
-- api/src/account/account.service.ts: the profile, the consents, and (in Deletion) the deletion of an
-- account. Names and phone numbers stand as numbers; the data export only reads.
pub mod Consents
pub mod Deletion
pub mod Erasure
mod Tests
use stead.Prelude.{
  ℕ, ◌==◌, ◌≡◌, Bool, true, false, not, ◌&&◌, ◌||◌, Option, none, some, is_some, get_or, List, [],
  ◌∷◌, ◌++◌, Result, ok, err, bad_request, not_found, internal, ◌>>=◌, ◌>>◌, require, guard,
  if◌then◌else◌,
}
use stead.Store.{Table}
use stead.Auth.Otp.{User, user_clash}

pub data ConsentCategory : Type 0 where
  analytics product_research : ConsentCategory

pub record ConsentPreference : Type 0 where
  pub user_id : ℕ
  pub analytics_enabled : Bool
  pub product_research_enabled : Bool

pub record ConsentRecord : Type 0 where
  pub user_id : ℕ
  pub category : ConsentCategory
  pub granted : Bool

-- The unique index on userId.
abbrev pub preference_clash : ConsentPreference → ConsentPreference → Bool
preference_clash a b = a.user_id == b.user_id

abbrev pub record_clash : ConsentRecord → ConsentRecord → Bool
record_clash a b = false

-- An absent field is `none`.
pub record UpdateConsents : Type 0 where
  pub analytics_enabled : Option Bool
  pub product_research_enabled : Option Bool

-- The display name is absent, null, or a text with its trimmed form, `none` where that is empty.
pub data DisplayName : Type 0 where
  absent null : DisplayName
  text : Option ℕ → DisplayName

pub record AccountDb : Type 0 where
  pub users : List User
  pub preferences : List ConsentPreference
  pub records : List ConsentRecord

pub record AccountTables : Type 0 where
  pub users : Table User user_clash
  pub preferences : Table ConsentPreference preference_clash
  pub records : Table ConsentRecord record_clash

pub record AccountResponse : Type 0 where
  pub profile : User
  pub analytics_enabled : Bool
  pub product_research_enabled : Bool

abbrev pub same_bool : Bool → Bool → Bool
same_bool true b = b
same_bool false b = not b

abbrev pub analytics_of : Option ConsentPreference → Bool
analytics_of none = false
analytics_of (some p) = p.analytics_enabled

abbrev pub product_research_of : Option ConsentPreference → Bool
product_research_of none = false
product_research_of (some p) = p.product_research_enabled

abbrev pub has_user_id : ℕ → User → Bool
has_user_id i u = u.id == i

abbrev pub preference_of_user : ℕ → ConsentPreference → Bool
preference_of_user i p = p.user_id == i

-- The record of a category that the request changes.
abbrev pub changed : ℕ → ConsentCategory → Option Bool → Bool → List ConsentRecord
changed user category none current = []
changed user category (some granted) current =
    if same_bool current granted
    then []
    else record { user_id = user; category = category; granted = granted } ∷ []

abbrev pub changes : ℕ → UpdateConsents → Option ConsentPreference → List ConsentRecord
changes user input current =
    changed user analytics input.analytics_enabled (analytics_of current)
    ++ changed user product_research input.product_research_enabled (product_research_of current)

-- The data of the upsert, for a row that is there and for a new one.
abbrev pub edited_preference : UpdateConsents → ConsentPreference → ConsentPreference
edited_preference input p = record p {
  analytics_enabled = get_or input.analytics_enabled p.analytics_enabled;
  product_research_enabled = get_or input.product_research_enabled p.product_research_enabled;
}

abbrev pub new_preference : ℕ → UpdateConsents → Option ConsentPreference → ConsentPreference
new_preference user input current = record {
  user_id = user;
  analytics_enabled = get_or input.analytics_enabled (analytics_of current);
  product_research_enabled = get_or input.product_research_enabled (product_research_of current);
}

module _ (t : AccountTables) where
  unfoldable pub get_account : ℕ → AccountDb → Result AccountResponse
  get_account user w = do
    profile ← require (t.users.find_first (has_user_id user) w.users) not_found
    let preference = t.preferences.find_first (preference_of_user user) w.preferences
    ok (record {
      profile = profile;
      analytics_enabled = analytics_of preference;
      product_research_enabled = product_research_of preference;
    })

  set_name : ℕ → Option ℕ → AccountDb → Result (AccountResponse × AccountDb)
  set_name user name w = do
    let (users, n) =
        t.users.update_many (has_user_id user) (λ u. record u { display_name = name }) w.users
    guard (n == 1) not_found
    let after : AccountDb = record w { users = users }
    account ← get_account user after
    ok (account, after)

  unfoldable pub update_profile : ℕ → DisplayName → AccountDb → Result (AccountResponse × AccountDb)
  unfolding set_name
  update_profile user absent w = err bad_request
  update_profile user null w = set_name user none w
  update_profile user (text none) w = err bad_request
  update_profile user (text (some name)) w = set_name user (some name) w

  unfoldable pub insert_all : List ConsentRecord → List ConsentRecord → List ConsentRecord
  insert_all [] records = records
  insert_all (r ∷ rs) records = insert_all rs (t.records.insert r records)

  unfoldable pub upsert_preference :
      ℕ
      → UpdateConsents
      → Option ConsentPreference
      → List ConsentPreference
      → Option (List ConsentPreference)
  upsert_preference user input (some p) rows =
      elim (t.preferences.update (preference_of_user user) (edited_preference input) rows) [
        | none ↦ none
        | some (row, after) ↦ some after
      ]
  upsert_preference user input none rows =
      t.preferences.create (new_preference user input none) rows

  -- The transaction of `updateConsents`.
  unfoldable pub record_consents : ℕ → UpdateConsents → AccountDb → Result AccountDb
  record_consents user input w = do
    _ ← require (t.users.find_first (has_user_id user) w.users) not_found
    let current = t.preferences.find_first (preference_of_user user) w.preferences
    let records = changes user input current
    elim records [
      | [] ↦ ok w
      | r ∷ rs ↦ do
        preferences ← require (upsert_preference user input current w.preferences) internal
        ok (record w { preferences = preferences; records = insert_all (r ∷ rs) w.records })
    ]

  unfoldable pub update_consents :
      ℕ → UpdateConsents → AccountDb → Result (AccountResponse × AccountDb)
  update_consents user input w = do
    guard (is_some input.analytics_enabled || is_some input.product_research_enabled) bad_request
    after ← record_consents user input w
    account ← get_account user after
    ok (account, after)
