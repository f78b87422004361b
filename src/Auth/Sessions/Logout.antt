-- ===== src/Auth/Sessions/Logout.antt =====
-- What `revokeSession` ends.
use stead.Prelude.{
  ℕ, ◌==◌, ◌≡◌, refl, Bool, true, false, not, some, List, [], ◌∷◌, ok, filter, find, count, modify,
  arith,
}
use stead.Store.{Table}
use stead.Auth.Sessions.{
  RefreshToken, clash, LogoutRequest, live_of, live_in, revoke, has_hash,
  resolve_user_id_for_logout, revoke_session,
}

-- The revocation of the rows that satisfy `p`, as the list of the rows after it.
abbrev pub revoked : (RefreshToken → Bool) → ℕ → List RefreshToken → List RefreshToken
revoked p now rows = modify p (revoke now) rows

user_ended :
    (user now : ℕ) (rows : List RefreshToken)
    → count (live_of user) (revoked (live_of user) now rows) ≡ 0
user_ended user now [] = refl
user_ended user now (r ∷ rows) = ground (arith, user_ended user now rows)

other_users :
    (user now : ℕ) (rows : List RefreshToken)
    → filter (λ r. not (r.user_id == user)) (revoked (live_of user) now rows)
      ≡ filter (λ r. not (r.user_id == user)) rows
other_users user now [] = refl
other_users user now (r ∷ rows) = ground (arith, other_users user now rows)

family_ended :
    (family now : ℕ) (rows : List RefreshToken)
    → count (live_in family) (revoked (live_in family) now rows) ≡ 0
family_ended family now [] = refl
family_ended family now (r ∷ rows) = ground (arith, family_ended family now rows)

other_families :
    (family now : ℕ) (rows : List RefreshToken)
    → filter (λ r. not (r.family_id == family)) (revoked (live_in family) now rows)
      ≡ filter (λ r. not (r.family_id == family)) rows
other_families family now [] = refl
other_families family now (r ∷ rows) = ground (arith, other_families family now rows)

module _ (tokens : Table RefreshToken clash) where
  -- A logout from all devices, once it has resolved the user, leaves the user no live token and
  -- every token of other users as it was.
  pub revoke_session-user :
      (q : LogoutRequest) (now user : ℕ) (rows after : List RefreshToken)
      → q.all_devices ≡ true
      → resolve_user_id_for_logout tokens q rows ≡ some user
      → revoke_session tokens q now rows ≡ ok after
      → (count (live_of user) after ≡ 0)
        × (filter (λ r. not (r.user_id == user)) after ≡ filter (λ r. not (r.user_id == user)) rows)
  unfolding revoke_session
  revoke_session-user q now user rows after everywhere who e =
      let law = tokens.update_many_lem (live_of user) (revoke now) rows in
      let same : revoked (live_of user) now rows ≡ after = ground (arith, law, who) in
      rw (← same) (user_ended user now rows, other_users user now rows)

  -- A logout with a stored refresh token ends the family of that token and no other one.
  pub revoke_session-family :
      (q : LogoutRequest) (now h : ℕ) (x : RefreshToken) (rows after : List RefreshToken)
      → q.all_devices ≡ false
      → q.refresh_hash ≡ some h
      → find (has_hash h) rows ≡ some x
      → revoke_session tokens q now rows ≡ ok after
      → (count (live_in x.family_id) after ≡ 0)
        × (filter (λ r. not (r.family_id == x.family_id)) after
            ≡ filter (λ r. not (r.family_id == x.family_id)) rows)
  unfolding revoke_session
  revoke_session-family q now h x rows after one given found e =
      let law = tokens.update_many_lem (live_in x.family_id) (revoke now) rows in
      let looked = tokens.find_first_lem (has_hash h) rows in
      let same : revoked (live_in x.family_id) now rows ≡ after = ground (arith, law, looked) in
      rw (← same) (family_ended x.family_id now rows, other_families x.family_id now rows)
