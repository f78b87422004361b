-- ===== src/Client/Refresh/Epochs.antt =====
-- The refresh that was in flight at a logout does not write over the tokens of a later sign-in.
use stead.Prelude.{ℕ, ◌<◌, ◌≡◌, Bool, true, false, Option, none, some, arith, ltb, not, ◌||◌}
use stead.Client.Store.{SessionTokens}
use stead.Client.Refresh.{
  Client, Flight, Phase, reading, posting, persisting, Step, Moves, abandon_in_flight_refresh,
  rotate_access_token, session_was_persisted, rotates, reads, answers, writes, persists, throws,
  abandons, clears, steps, signs_in, rest, move,
}

-- A refresh that writes its tokens.
abbrev pub is_persisting : Phase → Bool
is_persisting reading = false
is_persisting (posting t) = false
is_persisting (persisting s) = true

abbrev pub in_persisting : Option Flight → Bool
in_persisting none = false
in_persisting (some f) = is_persisting f.phase

-- Only a refresh that began after the epoch writes.
abbrev writes_since : ℕ → Option Flight → Bool
writes_since epoch none = true
writes_since epoch (some f) = not (is_persisting f.phase) || ltb epoch f.epoch

abbrev Since : ℕ → Client → Type 0
Since epoch c = (epoch < c.refresh_epoch) × (writes_since epoch c.refresh_in_flight ≡ true)

Step-Since : (epoch : ℕ) (c d : Client) → Step c d → Since epoch c → Since epoch d
unfolding abandon_in_flight_refresh rotate_access_token session_was_persisted
Step-Since epoch c d (rotates e) (later, since) = (ground arith, ground arith)
Step-Since epoch c d (reads f none in_flight phase e) (later, since) = (ground arith, ground arith)
Step-Since epoch c d (reads f (some t) in_flight phase e) (later, since) =
    (ground arith, ground arith)
Step-Since epoch c d (answers f t none in_flight phase e) (later, since) =
    (ground arith, ground arith)
Step-Since epoch c d (answers f t (some s) in_flight phase e) (later, since) =
    (ground arith, ground arith)
Step-Since epoch c d (writes f s access refresh in_flight phase e) (later, since) =
    (ground arith, ground arith)
Step-Since epoch c d (persists f s token in_flight phase e) (later, since) =
    (ground arith, ground arith)
Step-Since epoch c d (throws f in_flight e) (later, since) = (ground arith, ground arith)
Step-Since epoch c d (abandons e) (later, since) = (ground arith, ground arith)
Step-Since epoch c d (clears access refresh e) (later, since) = (ground arith, ground arith)

Moves-Since : (epoch : ℕ) (c d : Client) → Moves c d → Since epoch c → Since epoch d
Moves-Since epoch c d rest since = since
Moves-Since epoch c e (move {d} moves (steps step)) since =
    Step-Since epoch d e step (Moves-Since epoch c d moves since)
Moves-Since epoch c e (move {d} moves (signs_in access refresh s same)) since =
    let (later, written) = Moves-Since epoch c d moves since in (ground arith, ground arith)

-- A refresh that writes tokens after a logout began after it: one that was in flight at the logout and
-- had not begun to write never does, whatever sign-ins and further logouts follow.
pub abandon_in_flight_refresh-epoch :
    (c d : Client) (f : Flight) (s : SessionTokens)
    → in_persisting c.refresh_in_flight ≡ false
    → Moves (abandon_in_flight_refresh c) d
    → d.refresh_in_flight ≡ some f
    → f.phase ≡ persisting s
    → c.refresh_epoch < f.epoch
unfolding abandon_in_flight_refresh
abandon_in_flight_refresh-epoch c d f s waits moves in_flight phase =
    let unwritten : writes_since c.refresh_epoch c.refresh_in_flight ≡ true = ground arith in
    let (_, since) =
      Moves-Since c.refresh_epoch (abandon_in_flight_refresh c) d moves (omega arith, unwritten) in
    ground arith
