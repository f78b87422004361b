-- ===== src/Auth/Sessions.antt =====
-- The refresh tokens of auth.service.ts: families, rotation, reuse detection and logout.
pub mod Families
pub mod Rotation
pub mod Race
pub mod Logout
mod Tests
use stead.Prelude.{
  ℕ, ◌+◌, ◌-◌, ◌==◌, leb, ltb, Bool, true, false, not, ◌&&◌, Option, none, some, List, [], ◌∷◌, map,
  is_none, is_some, some_eq, or_else, get_or, length, take, sort_by, Result, ok, err, Error,
  unauthorized, internal, ◌>>=◌, ◌>>◌, require, guard, if◌then◌else◌,
}
use stead.Store.{Table}

pub record RefreshToken : Type 0 where
  pub id : ℕ
  pub user_id : ℕ
  pub token_hash : ℕ
  pub family_id : ℕ
  pub family_created_at : ℕ
  pub device_hash : Option ℕ
  pub expires_at : ℕ
  pub revoked_at : Option ℕ
  pub replaced_by_id : Option ℕ

-- The unique index on tokenHash.
abbrev pub clash : RefreshToken → RefreshToken → Bool
clash r s = r.token_hash == s.token_hash

-- The settings that the sessions read, in milliseconds and seconds.
pub record Settings : Type 0 where
  -- the number that AUTH_REFRESH_MAX_FAMILIES_PER_USER stands for, rounded down
  pub max_families_setting : Option ℕ
  pub refresh_token_ms : ℕ
  pub family_max_age_ms : ℕ
  pub access_token_seconds : ℕ

pub record Session : Type 0 where
  pub token : ℕ
  pub refresh_token : ℕ
  pub expires_in : ℕ

abbrev pub max_refresh_families : Settings → ℕ
max_refresh_families s = elim s.max_families_setting [
  | none ↦ 5
  | some n ↦ if leb 1 n then n else 5
]

abbrev pub is_live : RefreshToken → Bool
is_live r = is_none r.revoked_at

abbrev pub live_of : ℕ → RefreshToken → Bool
live_of user r = r.user_id == user && is_live r

abbrev pub live_on : ℕ → ℕ → RefreshToken → Bool
live_on user device r = r.user_id == user && some_eq r.device_hash device && is_live r

-- The filter by which a sign-in revokes a family of the user.
abbrev pub live_in_slot : ℕ → ℕ → RefreshToken → Bool
live_in_slot user family r = r.family_id == family && r.user_id == user && is_live r

-- The filter by which a refresh or a logout revokes a family.
abbrev pub live_in : ℕ → RefreshToken → Bool
live_in family r = r.family_id == family && is_live r

abbrev pub revoke : ℕ → RefreshToken → RefreshToken
revoke now r = record r { revoked_at = some now }

abbrev pub new_token : Settings → ℕ → ℕ → ℕ → ℕ → ℕ → Option ℕ → ℕ → RefreshToken
new_token s id hash user family created device now = record {
  id = id;
  user_id = user;
  token_hash = hash;
  family_id = family;
  family_created_at = created;
  device_hash = device;
  expires_at = now + s.refresh_token_ms;
  revoked_at = none;
  replaced_by_id = none;
}

-- What a refresh reads and makes besides the rows: the digest of the presented token, the outcome of
-- the device header, the new row's identifier, the new token with its digest, and the outcome of
-- signing an access token for a user.
pub record Refresh : Type 0 where
  pub hash : ℕ
  pub device : Result (Option ℕ)
  pub new_id : ℕ
  pub raw : ℕ
  pub raw_hash : ℕ
  pub sign : ℕ → Result ℕ

abbrev pub has_hash : ℕ → RefreshToken → Bool
has_hash h r = r.token_hash == h

abbrev pub has_id : ℕ → RefreshToken → Bool
has_id i r = r.id == i

-- A token that is bound to a device is accepted from that device only.
abbrev pub device_matches : Option ℕ → Option ℕ → Bool
device_matches none given = true
device_matches (some bound) given = some_eq given bound

-- The conditional write that claims the predecessor.
abbrev pub claimable : Settings → ℕ → ℕ → RefreshToken → Bool
claimable s id now r =
    r.id == id
    && is_live r
    && ltb now r.expires_at
    && ltb now (r.family_created_at + s.family_max_age_ms)

abbrev pub replaced_by : ℕ → RefreshToken → RefreshToken
replaced_by id r = record r { replaced_by_id = some id }

-- What a logout presents: the digest of a refresh token, and an access token as the outcome of its
-- check, which gives the subject if it names one, and `none` for a token that is refused; a check
-- wants JWT_SECRET to be set.
pub record LogoutRequest : Type 0 where
  pub refresh_hash : Option ℕ
  pub has_secret : Bool
  pub access : Option (Option (Option ℕ))
  pub all_devices : Bool

module _ (tokens : Table RefreshToken clash) where
  unfoldable pub revoke_refresh_family : ℕ → ℕ → List RefreshToken → List RefreshToken
  revoke_refresh_family family now rows = (tokens.update_many (live_in family) (revoke now) rows).0

  -- The loops of `prepareRefreshFamilySlot`.
  unfoldable pub revoke_slots : ℕ → ℕ → List ℕ → List RefreshToken → List RefreshToken
  revoke_slots user now [] rows = rows
  revoke_slots user now (family ∷ families) rows =
      revoke_slots user now families
        (tokens.update_many (live_in_slot user family) (revoke now) rows).0

  unfoldable pub replace_device : ℕ → Option ℕ → ℕ → List RefreshToken → List RefreshToken
  replace_device user none now rows = rows
  replace_device user (some device) now rows =
      revoke_slots user now (tokens.distinct_by (live_on user device) (λ r. r.family_id) rows) rows

  -- `overflow` is 0 where the difference in the source is negative: neither revokes anything.
  unfoldable pub evict_oldest : Settings → ℕ → ℕ → List RefreshToken → List RefreshToken
  evict_oldest s user now rows =
      let families =
        tokens.group_min (live_of user) (λ r. r.family_id) (λ r. r.family_created_at) rows in
      let overflow = length families - (max_refresh_families s - 1) in
      revoke_slots user now
        (map (λ (f : ℕ × ℕ). f.0) (take overflow (sort_by (λ (f : ℕ × ℕ). f.1) families))) rows

  unfoldable pub prepare_refresh_family_slot :
      Settings → ℕ → Option ℕ → ℕ → List RefreshToken → List RefreshToken
  unfolding replace_device evict_oldest
  prepare_refresh_family_slot s user device now rows =
      evict_oldest s user now (replace_device user device now rows)

  unfoldable pub create_refresh_token_row :
      RefreshToken → List RefreshToken → Result (List RefreshToken)
  create_refresh_token_row row rows = require (tokens.create row rows) internal

  -- What `issueVerifiedSession` does to the refresh tokens, inside its transaction.
  unfoldable pub issue_family :
      Settings → ℕ → ℕ → ℕ → ℕ → Option ℕ → ℕ → List RefreshToken → Result (List RefreshToken)
  unfolding create_refresh_token_row
  issue_family s id hash user family device now rows =
      create_refresh_token_row (new_token s id hash user family now device now)
        (prepare_refresh_family_slot s user device now rows)

module _ (tokens : Table RefreshToken clash) (s : Settings) (q : Refresh) where
  -- The refusal after a claim that failed: a token that is revoked by now has been used twice.
  refuse_claim : ℕ → RefreshToken → List RefreshToken → Result Session × List RefreshToken
  refuse_claim later existing rows = elim (tokens.find_first (has_hash q.hash) rows) [
    | none ↦ (err unauthorized, rows)
    | some current ↦
        if is_live current
        then (err unauthorized, rows)
        else (err unauthorized, revoke_refresh_family tokens existing.family_id later rows)
  ]

  -- The rest of the transaction once the predecessor is claimed.
  grant : ℕ → RefreshToken → Option ℕ → List RefreshToken → Result (Session × List RefreshToken)
  grant later existing device claimed = do
    made ←
        create_refresh_token_row tokens
          (new_token s q.new_id q.raw_hash existing.user_id existing.family_id
            existing.family_created_at (or_else device existing.device_hash) later)
          claimed
    let (linked, _) = tokens.update_many (has_id existing.id) (replaced_by q.new_id) made
    token ← q.sign existing.user_id
    ok (
      record { token = token; refresh_token = q.raw; expires_in = s.access_token_seconds },
      linked,
    )

  -- A throw undoes the writes of the transaction.
  settle :
      List RefreshToken → Result (Session × List RefreshToken) → Result Session × List RefreshToken
  settle before (ok (session, rows)) = (ok session, rows)
  settle before (err e) = (err e, before)

  -- The transaction of a refresh, on the rows that it finds at the time `later`.
  unfoldable pub rotate :
      ℕ → RefreshToken → Option ℕ → List RefreshToken → Result Session × List RefreshToken
  unfolding refuse_claim grant settle create_refresh_token_row
  rotate later existing device rows =
      let (claimed, n) = tokens.update_many (claimable s existing.id later) (revoke later) rows in
      if n == 1
      then settle rows (grant later existing device claimed)
      else refuse_claim later existing claimed

  -- The checks before the transaction; `others` is what other requests do in between.
  unfoldable pub check_existing :
      ℕ
      → ℕ
      → (List RefreshToken → List RefreshToken)
      → RefreshToken
      → List RefreshToken
      → Result Session × List RefreshToken
  check_existing now later others existing rows =
      if not (is_live existing)
      then (err unauthorized, revoke_refresh_family tokens existing.family_id now rows)
      else if leb existing.expires_at now
      then (err unauthorized, (tokens.update_many (has_id existing.id) (revoke now) rows).0)
      else if leb (existing.family_created_at + s.family_max_age_ms) now
      then (err unauthorized, revoke_refresh_family tokens existing.family_id now rows)
      else elim q.device [
        | err e ↦ (err e, rows)
        | ok device ↦
            if device_matches existing.device_hash device
            then rotate later existing device (others rows)
            else (err unauthorized, rows)
      ]

  unfoldable pub refresh_session :
      ℕ
      → ℕ
      → (List RefreshToken → List RefreshToken)
      → List RefreshToken
      → Result Session × List RefreshToken
  refresh_session now later others rows = elim (tokens.find_first (has_hash q.hash) rows) [
    | none ↦ (err unauthorized, rows)
    | some existing ↦ check_existing now later others existing rows
  ]

module _ (tokens : Table RefreshToken clash) where
  user_of_refresh : Option ℕ → List RefreshToken → Option ℕ
  user_of_refresh none rows = none
  user_of_refresh (some h) rows = elim (tokens.find_first (has_hash h) rows) [
    | none ↦ none
    | some existing ↦ some existing.user_id
  ]

  -- The access token's subject comes first; a token that is refused falls through.
  unfoldable pub resolve_user_id_for_logout : LogoutRequest → List RefreshToken → Option ℕ
  unfolding user_of_refresh
  resolve_user_id_for_logout q rows = elim q.access [
    | none ↦ user_of_refresh q.refresh_hash rows
    | some checked ↦
        if q.has_secret
        then elim checked [ some (some user) ↦ some user | _ ↦ user_of_refresh q.refresh_hash rows ]
        else none
  ]

  unfoldable pub revoke_all_devices : Option ℕ → ℕ → List RefreshToken → List RefreshToken
  revoke_all_devices none now rows = rows
  revoke_all_devices (some user) now rows = (tokens.update_many (live_of user) (revoke now) rows).0

  unfoldable pub revoke_by_refresh : ℕ → ℕ → List RefreshToken → List RefreshToken
  revoke_by_refresh h now rows = elim (tokens.find_first (has_hash h) rows) [
    | none ↦ rows
    | some existing ↦ revoke_refresh_family tokens existing.family_id now rows
  ]

  unfoldable pub revoke_session : LogoutRequest → ℕ → List RefreshToken → Result (List RefreshToken)
  unfolding revoke_all_devices revoke_by_refresh revoke_refresh_family
  revoke_session q now rows =
      if q.all_devices
      then ok (revoke_all_devices (resolve_user_id_for_logout q rows) now rows)
      else elim q.refresh_hash [
        | some h ↦ ok (revoke_by_refresh h now rows)
        | none ↦ if is_some q.access then ok rows else err unauthorized
      ]
