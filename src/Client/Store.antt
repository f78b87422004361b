-- ===== src/Client/Store.antt =====
-- token-store.ts: where the client keeps its tokens.
--
-- Each of the two tokens has a value in memory, one in the SecureStore of the platform, and one in
-- the fallback. A call of the SecureStore works or fails; a failure is caught and the fallback is used
-- instead, as where there is no SecureStore; localStorage and the map behind it count as one place.
use stead.Prelude.{ℕ, Bool, true, false, Option, none, some}

pub record Slot : Type 0 where
  pub memory : Option ℕ
  pub secure : Option ℕ
  pub fallback : Option ℕ

pub record SessionTokens : Type 0 where
  pub token : ℕ
  pub refresh_token : ℕ

pub record TokenStore : Type 0 where
  pub access : Slot
  pub refresh : Slot

-- `readValue`, where the flag says whether the call works.
abbrev pub read_value : Bool → Slot → Option ℕ
read_value true s = s.secure
read_value false s = s.fallback

abbrev pub write_value : Bool → ℕ → Slot → Slot
write_value true v s = record s { secure = some v }
write_value false v s = record s { fallback = some v }

abbrev pub delete_value : Bool → Slot → Slot
delete_value true s = record s { secure = none }
delete_value false s = record s { fallback = none }

-- `getToken` and `getRefreshToken`
abbrev pub get_value : Bool → Slot → Option ℕ
get_value works s = elim s.memory [ some v ↦ some v | none ↦ read_value works s ]

abbrev pub set_value : Bool → ℕ → Slot → Slot
set_value works v s = write_value works v (record s { memory = some v })

abbrev pub clear_value : Bool → Slot → Slot
clear_value works s = delete_value works (record s { memory = none })

abbrev pub set_session : Bool → Bool → SessionTokens → TokenStore → TokenStore
set_session access refresh session s = record {
  access = set_value access session.token s.access;
  refresh = set_value refresh session.refresh_token s.refresh;
}

abbrev pub clear_token : Bool → Bool → TokenStore → TokenStore
clear_token access refresh s = record {
  access = clear_value access s.access;
  refresh = clear_value refresh s.refresh;
}
