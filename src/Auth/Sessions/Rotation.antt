-- ===== src/Auth/Sessions/Rotation.antt =====
-- Rotation of refresh tokens: who is given a new token, and what a second use of the old one does.
use stead.Prelude.{
  ℕ, ◌+◌, ◌≤◌, ◌<◌, ◌≡◌, refl, sym, ap, ◌∙◌, subst, true, false, Option, none, some, List, [], ◌∷◌,
  ◌++◌, or_else, Result, ok, err, find, count, modify, any, unauthorized, arith, Bool-cases,
  Option-cases, inl, inr, find-modify_hit, only_hit, find-append_left,
}
use mathlib.Core.Option.{some-injective}
use stead.Store.{Table}
use stead.Auth.Sessions.{
  RefreshToken, clash, Settings, Session, Refresh, is_live, live_in, revoke, new_token,
  revoke_refresh_family, has_hash, has_id, device_matches, claimable, replaced_by, rotate,
  check_existing, refresh_session,
}

-- The rows after a rotation.
abbrev pub claimed_rows : Settings → ℕ → ℕ → List RefreshToken → List RefreshToken
claimed_rows s id later rows = modify (claimable s id later) (revoke later) rows

abbrev pub successor : Settings → Refresh → ℕ → RefreshToken → Option ℕ → RefreshToken
successor s q later x device =
    new_token s q.new_id q.raw_hash x.user_id x.family_id x.family_created_at
      (or_else device x.device_hash) later

abbrev pub rotated :
    Settings → Refresh → ℕ → RefreshToken → Option ℕ → List RefreshToken → List RefreshToken
rotated s q later x device rows =
    modify (has_id x.id) (replaced_by q.new_id)
      (claimed_rows s x.id later rows ++ successor s q later x device ∷ [])

pub no_clash-find :
    (r : RefreshToken) (rows : List RefreshToken)
    → any (clash r) rows ≡ false
    → find (has_hash r.token_hash) rows ≡ none
no_clash-find r [] h = refl
no_clash-find r (t ∷ rows) h = ground (arith, no_clash-find r rows)

-- Linking the predecessor does not touch the successor.
pub linked_find :
    (h i id : ℕ) (rows : List RefreshToken) (r : RefreshToken)
    → find (has_hash h) rows ≡ some r
    → has_id i r ≡ false
    → find (has_hash h) (modify (has_id i) (replaced_by id) rows) ≡ some r
linked_find h i id [] r e off = e
linked_find h i id (t ∷ rows) r e off = elim (Bool-cases (has_hash h t)) [
  | inl hit ↦
      let same : t ≡ r = ground arith in
      let apart : has_id i t ≡ false = ap (has_id i) same ∙ off in ground arith
  | inr miss ↦ ground (arith, linked_find h i id rows r)
]

module _ (tokens : Table RefreshToken clash) (s : Settings) where
  -- A rotation succeeds only where its conditional write claims one row.
  pub rotate_ok :
      (q : Refresh) (later : ℕ) (x : RefreshToken) (device : Option ℕ)
      (rows after : List RefreshToken) (session : Session)
      → rotate tokens s q later x device rows ≡ (ok session, after)
      → (count (claimable s x.id later) rows ≡ 1)
        × (any (clash (successor s q later x device)) (claimed_rows s x.id later rows) ≡ false)
        × (rotated s q later x device rows ≡ after)
        × (session.refresh_token ≡ q.raw)
  unfolding rotate
  rotate_ok q later x device rows after session e =
      let claim = tokens.update_many_lem (claimable s x.id later) (revoke later) rows in
      let made =
        tokens.create_lem (successor s q later x device) (claimed_rows s x.id later rows) in
      let link =
        tokens.update_many_lem (has_id x.id) (replaced_by q.new_id)
          (claimed_rows s x.id later rows ++ successor s q later x device ∷ []) in
      ground (arith, claim, made, link)

  claimed_has_id :
      (i later : ℕ) (r : RefreshToken) → claimable s i later r ≡ true → has_id i r ≡ true
  claimed_has_id i later r h = ground arith

  -- The presented token is found again after the rotation, revoked.
  pub spent :
      (q : Refresh) (later : ℕ) (x r : RefreshToken) (device : Option ℕ) (rows : List RefreshToken)
      → find (has_hash q.hash) rows ≡ some r
      → r.id ≡ x.id
      → count (has_id x.id) rows ≤ 1
      → count (claimable s x.id later) rows ≡ 1
      → find (has_hash q.hash) (rotated s q later x device rows)
        ≡ some (replaced_by q.new_id (revoke later r))
  spent q later x r device rows e same unique claim =
      let hit =
        only_hit (has_hash q.hash) (has_id x.id) (claimable s x.id later)
          (claimed_has_id x.id later) rows r e (ground arith) unique claim in
      let revoked =
        find-modify_hit (has_hash q.hash) (claimable s x.id later) (revoke later) (λ r. refl) rows r
          e hit in
      find-modify_hit (has_hash q.hash) (has_id x.id) (replaced_by q.new_id) (λ r. refl) _
        (revoke later r)
        (find-append_left (has_hash q.hash) (claimed_rows s x.id later rows)
          (successor s q later x device ∷ []) (revoke later r) revoked)
        (ground arith)

  pub revoked_none :
      (family now : ℕ) (rows : List RefreshToken)
      → count (live_in family) (revoke_refresh_family tokens family now rows) ≡ 0
  unfolding revoke_refresh_family
  revoked_none family now rows =
      rw (tokens.update_many_lem (live_in family) (revoke now) rows, revoke_refresh_family)
        (gone rows)
    where
      gone :
          (rows : List RefreshToken)
          → count (live_in family) (modify (live_in family) (revoke now) rows) ≡ 0
      gone [] = refl
      gone (r ∷ rows) = ground (arith, gone rows)

  -- Presenting a token whose row is revoked is refused, and ends its family.
  reused :
      (q : Refresh) (now later : ℕ) (others : List RefreshToken → List RefreshToken)
      (rows : List RefreshToken) (r : RefreshToken)
      → find (has_hash q.hash) rows ≡ some r
      → is_live r ≡ false
      → ((refresh_session tokens s q now later others rows).0 ≡ err unauthorized)
        × (count (live_in r.family_id) (refresh_session tokens s q now later others rows).1 ≡ 0)
  unfolding refresh_session check_existing
  reused q now later others rows r e dead =
      rw (tokens.find_first_lem (has_hash q.hash) rows, refresh_session, e, dead, check_existing)
        (refl, revoked_none r.family_id now rows)

  -- What a successful refresh went through: the row that it found and the transaction that it ran.
  pub record Granted (q : Refresh) (now later : ℕ) (others : List RefreshToken → List RefreshToken)
      (rows after : List RefreshToken) (session : Session) : Type 0 where
    pub existing : RefreshToken
    pub device : Option ℕ
    pub found : find (has_hash q.hash) rows ≡ some existing
    pub live : is_live existing ≡ true
    pub unexpired : now < existing.expires_at
    pub young : now < existing.family_created_at + s.family_max_age_ms
    pub presented : q.device ≡ ok device
    pub bound : device_matches existing.device_hash device ≡ true
    pub rotation : rotate tokens s q later existing device (others rows) ≡ (ok session, after)

  checked :
      (q : Refresh) (now later : ℕ) (others : List RefreshToken → List RefreshToken)
      (rows after : List RefreshToken) (session : Session) (x : RefreshToken)
      → find (has_hash q.hash) rows ≡ some x
      → check_existing tokens s q now later others x rows ≡ (ok session, after)
      → (d : Result (Option ℕ)) → q.device ≡ d
      → Granted q now later others rows after session
  unfolding check_existing
  checked q now later others rows after session x found c (err f) p = absurd (ground arith)
  checked q now later others rows after session x found c (ok d) p = record {
    existing = x;
    device = d;
    found = found;
    live = ground arith;
    unexpired = ground arith;
    young = ground arith;
    presented = p;
    bound = ground arith;
    rotation = ground arith;
  }

  -- A refresh succeeds only for a stored token that is not revoked, has not expired, whose family
  -- is young enough and whose device, if it has one, is the one that the request presents.
  pub refresh_session-Granted :
      (q : Refresh) (now later : ℕ) (others : List RefreshToken → List RefreshToken)
      (rows after : List RefreshToken) (session : Session)
      → refresh_session tokens s q now later others rows ≡ (ok session, after)
      → Granted q now later others rows after session
  unfolding refresh_session
  refresh_session-Granted q now later others rows after session e =
      elim (Option-cases (find (has_hash q.hash) rows)) [
        | inl missing ↦ absurd (ground (arith, tokens.find_first_lem (has_hash q.hash) rows))
        | inr (x, found) ↦
            checked q now later others rows after session x found
              (ground (arith, tokens.find_first_lem (has_hash q.hash) rows)) (q.device) refl
      ]

  -- A refresh token serves once. After a refresh that succeeded, presenting the same token again is
  -- refused at any time, and leaves no live token in its family, the successor included. It is
  -- assumed of the requests that ran between the lookup and the transaction that they kept the row
  -- of the token, and of the table that identifiers are unique.
  pub refresh_session_once :
      (q r : Refresh) (now later now' later' : ℕ)
      (others others' : List RefreshToken → List RefreshToken) (rows after : List RefreshToken)
      (session : Session) (x y : RefreshToken)
      → refresh_session tokens s q now later others rows ≡ (ok session, after)
      → find (has_hash q.hash) rows ≡ some x
      → find (has_hash q.hash) (others rows) ≡ some y
      → y.id ≡ x.id
      → count (has_id x.id) (others rows) ≤ 1
      → r.hash ≡ q.hash
      → ((refresh_session tokens s r now' later' others' after).0 ≡ err unauthorized)
        × (count (live_in y.family_id) (refresh_session tokens s r now' later' others' after).1 ≡ 0)
  refresh_session_once q r now later now' later' others others' rows after session x y e found kept
        same unique again =
      let g = refresh_session-Granted q now later others rows after session e in
      let here : g.existing ≡ x = some-injective _ _ (sym g.found ∙ found) in
      let ran =
        subst (λ z. rotate tokens s q later z g.device (others rows) ≡ (ok session, after)) here
          g.rotation in
      let done = rotate_ok q later x g.device (others rows) after session ran in
      let left = spent q later x y g.device (others rows) kept same unique done.0 in
      let stored : find (has_hash r.hash) after ≡ some (replaced_by q.new_id (revoke later y)) =
        subst (λ t. find (has_hash r.hash) t ≡ some (replaced_by q.new_id (revoke later y))) done.2
          (subst
            (λ h.
              find (has_hash h) (rotated s q later x g.device (others rows))
              ≡ some (replaced_by q.new_id (revoke later y)))
            (sym again) left) in
      reused r now' later' others' after (replaced_by q.new_id (revoke later y)) stored refl
