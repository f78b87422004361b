-- ===== src/Auth/Sessions/Race.antt =====
-- Two refreshes of one token at a time, and the token that a refresh hands out.
use stead.Prelude.{
  ℕ, ◌≤◌, ◌≡◌, ◌≢◌, refl, sym, ◌∙◌, subst, Bool, false, not, ◌&&◌, Option, some, List, [], ◌∷◌,
  ◌++◌, ok, err, find, count, modify, unauthorized, arith, count-append, count_mono, modify_none,
  find-append_right, count-split,
}
use stead.Store.{Table}
use stead.Auth.Sessions.{
  RefreshToken, clash, Settings, Session, Refresh, is_live, live_in, revoke, has_hash, has_id,
  claimable, replaced_by, rotate,
}
use stead.Auth.Sessions.Rotation.{
  no_clash-find, linked_find, rotate_ok, spent, revoked_none, claimed_rows, successor, rotated,
}

module _ (tokens : Table RefreshToken clash) (s : Settings) where
  linked_count :
      (i id later : ℕ) (rows : List RefreshToken)
      → count (claimable s i later) (modify (has_id i) (replaced_by id) rows)
        ≡ count (claimable s i later) rows
  linked_count i id later [] = refl
  linked_count i id later (r ∷ rows) = ground (arith, linked_count i id later rows)

  claimed_le :
      (i later later' : ℕ) (rows : List RefreshToken)
      → count (claimable s i later') (claimed_rows s i later rows)
        ≤ count (λ r. has_id i r && not (claimable s i later r)) rows
  claimed_le i later later' [] = omega arith
  claimed_le i later later' (r ∷ rows) = ground (arith, claimed_le i later later' rows)

  -- Nothing is left to claim after a rotation.
  spent_count :
      (q : Refresh) (later later' : ℕ) (x : RefreshToken) (device : Option ℕ)
      (rows : List RefreshToken)
      → count (has_id x.id) rows ≤ 1
      → count (claimable s x.id later) rows ≡ 1
      → q.new_id ≢ x.id
      → count (claimable s x.id later') (rotated s q later x device rows) ≡ 0
  spent_count q later later' x device rows unique claim fresh =
      let new = successor s q later x device in
      let test : RefreshToken → Bool = claimable s x.id later' in
      let added : count test (new ∷ []) ≡ 0 = ground arith in
      omega (
        arith,
        linked_count x.id q.new_id later' (claimed_rows s x.id later rows ++ new ∷ []),
        count-append test (claimed_rows s x.id later rows) (new ∷ []),
        added,
        claimed_le x.id later later' rows,
        count-split (has_id x.id) (claimable s x.id later) rows,
        count_mono (λ (r : RefreshToken). has_id x.id r && claimable s x.id later r)
            (claimable s x.id later) (λ r h. ground arith) rows,
      )

  refused :
      (r : Refresh) (later : ℕ) (x y : RefreshToken) (device : Option ℕ) (rows : List RefreshToken)
      → count (claimable s x.id later) rows ≡ 0
      → find (has_hash r.hash) rows ≡ some y
      → is_live y ≡ false
      → ((rotate tokens s r later x device rows).0 ≡ err unauthorized)
        × (count (live_in x.family_id) (rotate tokens s r later x device rows).1 ≡ 0)
  unfolding rotate
  refused r later x y device rows none_left found dead =
      let kept = modify_none (claimable s x.id later) (revoke later) rows none_left in
      let same : tokens.update_many (claimable s x.id later) (revoke later) rows ≡ (rows, 0) =
        ground (arith, kept, tokens.update_many_lem (claimable s x.id later) (revoke later) rows) in
      let looked = tokens.find_first_lem (has_hash r.hash) rows in
      (
        ground (arith, same, looked),
        ground (arith, same, looked, revoked_none tokens s x.family_id later rows),
      )

  -- Of two concurrent refreshes that read the same row before either ran its transaction, the one
  -- that comes second is refused, and the family has no live token left: the token that the first
  -- one handed out is revoked too.
  pub rotate_race :
      (q r : Refresh) (later later' : ℕ) (x y : RefreshToken) (device device' : Option ℕ)
      (rows after : List RefreshToken) (session : Session)
      → rotate tokens s q later x device rows ≡ (ok session, after)
      → find (has_hash q.hash) rows ≡ some y
      → y.id ≡ x.id
      → count (has_id x.id) rows ≤ 1
      → q.new_id ≢ x.id
      → r.hash ≡ q.hash
      → ((rotate tokens s r later' x device' after).0 ≡ err unauthorized)
        × (count (live_in x.family_id) (rotate tokens s r later' x device' after).1 ≡ 0)
  rotate_race q r later later' x y device device' rows after session e found same unique fresh
        again =
      let done = rotate_ok tokens s q later x device rows after session e in
      let used = replaced_by q.new_id (revoke later y) in
      let spent_now : find (has_hash r.hash) (rotated s q later x device rows) ≡ some used =
        subst (λ h. find (has_hash h) (rotated s q later x device rows) ≡ some used) (sym again)
          (spent tokens s q later x y device rows found same unique done.0) in
      subst
        (λ t.
          ((rotate tokens s r later' x device' t).0 ≡ err unauthorized)
          × (count (live_in x.family_id) (rotate tokens s r later' x device' t).1 ≡ 0))
        done.2
        (refused r later' x used device' _
          (spent_count q later later' x device rows unique done.0 fresh) spent_now refl)

  -- A successful rotation hands out a token whose row is live, belongs to the same user and family,
  -- keeps the family's age, and expires one token lifetime after the transaction.
  pub rotate-successor :
      (q : Refresh) (later : ℕ) (x : RefreshToken) (device : Option ℕ)
      (rows after : List RefreshToken) (session : Session)
      → rotate tokens s q later x device rows ≡ (ok session, after)
      → q.new_id ≢ x.id
      → (session.refresh_token ≡ q.raw)
        × (find (has_hash q.raw_hash) after ≡ some (successor s q later x device))
  rotate-successor q later x device rows after session e fresh =
      let done = rotate_ok tokens s q later x device rows after session e in
      let new = successor s q later x device in
      let unseen = no_clash-find new (claimed_rows s x.id later rows) done.1 in
      let made : find (has_hash q.raw_hash) (claimed_rows s x.id later rows ++ new ∷ [])
          ≡ some new =
        find-append_right (has_hash q.raw_hash) (claimed_rows s x.id later rows) (new ∷ []) unseen
        ∙ ground arith in
      (
        done.3,
        subst (λ t. find (has_hash q.raw_hash) t ≡ some new) done.2
            (linked_find q.raw_hash x.id q.new_id _ new made (ground arith)),
      )
