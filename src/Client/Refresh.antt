-- ===== src/Client/Refresh.antt =====
-- api.ts: the refresh of the access token, `rotateAccessToken`, with what a logout and a sign-in of
-- auth-state.tsx do to it. The refresh waits three times: for the store, for the server, and for the
-- store again. Each wait ends with a step of its own, and any other steps can come first.
use stead.Prelude.{
  ℕ, ◌+◌, ◌==◌, ◌≡◌, ◌⊎◌, Bool, true, false, not, ◌||◌, Option, none, some, if◌then◌else◌,
}
use stead.Client.Store.{SessionTokens, TokenStore, set_session, clear_token}
pub mod Epochs
pub mod Silence
mod Tests

-- What the refresh in flight waits for.
pub data Phase : Type 0 where
  reading : Phase
  posting : (refresh_token : ℕ) → Phase
  persisting : (session : SessionTokens) → Phase

pub record Flight : Type 0 where
  pub epoch : ℕ
  pub phase : Phase

-- The variables of the module, and the tokens that the store holds.
pub record Client : Type 0 where
  pub refresh_in_flight : Option Flight
  pub refresh_epoch : ℕ
  pub refresh_allowed : Bool
  pub stored : TokenStore

-- `abandonInFlightRefresh`
unfoldable pub abandon_in_flight_refresh : Client → Client
abandon_in_flight_refresh c = record c {
  refresh_epoch = c.refresh_epoch + 1;
  refresh_allowed = false;
}

-- `allowTokenRefresh`
abbrev pub allow_token_refresh : Client → Client
allow_token_refresh c = record c { refresh_allowed = true }

-- `!refreshAllowed || epoch !== refreshEpoch`
abbrev pub is_outdated : Client → Flight → Bool
is_outdated c f = not c.refresh_allowed || not (f.epoch == c.refresh_epoch)

-- `finally`
abbrev pub finish_refresh : Client → Client
finish_refresh c = record c { refresh_in_flight = none }

abbrev pub wait_for : Phase → Flight → Client → Client
wait_for phase f c = record c { refresh_in_flight = some (record f { phase = phase }) }

abbrev pub start_unless : Option Flight → Client → Client
start_unless (some f) c = c
start_unless none c = record c {
  refresh_in_flight = some (record { epoch = c.refresh_epoch; phase = reading });
}

-- `rotateAccessToken`, up to its first wait.
unfoldable pub rotate_access_token : Client → Client
rotate_access_token c = if not c.refresh_allowed then c else start_unless c.refresh_in_flight c

-- After `getRefreshTokenFn`.
abbrev pub token_was_read : Option ℕ → Flight → Client → Client
token_was_read none f c = finish_refresh c
token_was_read (some t) f c = if is_outdated c f then finish_refresh c else wait_for (posting t) f c

-- After `apiClient.post`; `none` is an answer that does not parse.
abbrev pub session_was_answered : Option SessionTokens → Flight → Client → Client
session_was_answered none f c = finish_refresh c
session_was_answered (some s) f c =
    if is_outdated c f then finish_refresh c else wait_for (persisting s) f c

-- After `persistSessionFn`: the token that the callers of the refresh are given.
unfoldable pub session_was_persisted : SessionTokens → Flight → Client → Option ℕ × Client
session_was_persisted s f c = (if is_outdated c f then none else some s.token, finish_refresh c)

-- `clearLocalSession`, as far as the store goes. The flags say whether the two deletions work.
abbrev pub clear_local_session : Bool → Bool → Client → Client
clear_local_session access refresh c = record c { stored = clear_token access refresh c.stored }

-- `completeAuth`, as far as the store and the refresh go.
abbrev pub complete_auth : Bool → Bool → SessionTokens → Client → Client
complete_auth access refresh s c =
    allow_token_refresh (record c { stored = set_session access refresh s c.stored })

-- What happens to a client between a logout and the next sign-in: a request starts or joins the
-- refresh, a wait of the refresh ends or throws, `setSession` writes, or a further logout begins or
-- clears the store. Nothing is assumed of what the store and the server answer.
pub data Step (c after : Client) : Type 0 where
  rotates : rotate_access_token c ≡ after → Step c after
  reads :
      (f : Flight) (t : Option ℕ)
      → c.refresh_in_flight ≡ some f
      → f.phase ≡ reading
      → token_was_read t f c ≡ after
      → Step c after
  answers :
      (f : Flight) (t : ℕ) (s : Option SessionTokens)
      → c.refresh_in_flight ≡ some f
      → f.phase ≡ posting t
      → session_was_answered s f c ≡ after
      → Step c after
  writes :
      (f : Flight) (s : SessionTokens) (access refresh : Bool)
      → c.refresh_in_flight ≡ some f
      → f.phase ≡ persisting s
      → record c { stored = set_session access refresh s c.stored } ≡ after
      → Step c after
  persists :
      (f : Flight) (s : SessionTokens) (token : Option ℕ)
      → c.refresh_in_flight ≡ some f
      → f.phase ≡ persisting s
      → session_was_persisted s f c ≡ (token, after)
      → Step c after
  throws : (f : Flight) → c.refresh_in_flight ≡ some f → finish_refresh c ≡ after → Step c after
  abandons : abandon_in_flight_refresh c ≡ after → Step c after
  clears : (access refresh : Bool) → clear_local_session access refresh c ≡ after → Step c after

pub data Steps (c : Client) : Client → Type 0 where
  stay : Steps c c
  next : {d e : Client} → Steps c d → Step d e → Steps c e

-- `logout` up to the end of its clearing: the refresh is abandoned; where one was in flight, its end is
-- awaited; then the store is cleared. Other steps can come before that.
pub record Logout (access refresh : Bool) (c after : Client) : Type 0 where
  pub waited : Client
  pub before : Steps (abandon_in_flight_refresh c) waited
  pub awaited : (c.refresh_in_flight ≡ none) ⊎ (waited.refresh_in_flight ≡ none)
  pub cleared : clear_local_session access refresh waited ≡ after

-- Sign-ins included.
pub data Move (c after : Client) : Type 0 where
  steps : Step c after → Move c after
  signs_in :
      (access refresh : Bool) (s : SessionTokens)
      → complete_auth access refresh s c ≡ after
      → Move c after

pub data Moves (c : Client) : Client → Type 0 where
  rest : Moves c c
  move : {d e : Client} → Moves c d → Move d e → Moves c e
