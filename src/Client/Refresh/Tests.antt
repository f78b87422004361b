-- ===== src/Client/Refresh/Tests.antt =====
-- Runs of the refresh, and its theorems at concrete runs.
use stead.Prelude.{ℕ, ◌<◌, ◌≡◌, refl, true, false, none, some, inr}
use stead.Client.Store.{Slot, SessionTokens, TokenStore, get_value}
use stead.Client.Refresh.{
  Client, Flight, Logout, reading, posting, persisting, Steps, Moves, stay, next, rotates, reads,
  answers, writes, persists, steps, signs_in, rest, move, abandon_in_flight_refresh,
  rotate_access_token, session_was_persisted, clear_local_session,
}
use stead.Client.Refresh.Silence.{NoMore, Logout-NoMore}
use stead.Client.Refresh.Epochs.{abandon_in_flight_refresh-epoch}

abbrev old_tokens : SessionTokens
old_tokens = record { token = 10; refresh_token = 11 }

abbrev new_tokens : SessionTokens
new_tokens = record { token = 20; refresh_token = 21 }

abbrev slot : ℕ → Slot
slot v = record { memory = some v; secure = some v; fallback = none }

abbrev holding : SessionTokens → TokenStore
holding s = record { access = slot s.token; refresh = slot s.refresh_token }

abbrev idle : Client
idle = record {
  refresh_in_flight = none;
  refresh_epoch = 0;
  refresh_allowed = true;
  stored = holding old_tokens;
}

abbrev flight_at : Flight
flight_at = record { epoch = 0; phase = persisting new_tokens }

-- A client whose refresh writes the tokens that the server answered.
abbrev writing : Client
writing = record idle { refresh_in_flight = some flight_at }

rotates_once : rotate_access_token (rotate_access_token idle) ≡ rotate_access_token idle
unfolding rotate_access_token
rotates_once = refl

abandoned_gives_none :
    (session_was_persisted new_tokens flight_at (abandon_in_flight_refresh writing)).0 ≡ none
unfolding session_was_persisted abandon_in_flight_refresh
abandoned_gives_none = refl

-- The write that the logout waits for.
abbrev written : Client
written = record {
  refresh_in_flight = none;
  refresh_epoch = 1;
  refresh_allowed = false;
  stored = holding new_tokens;
}

write_finishes : Steps (abandon_in_flight_refresh writing) written
unfolding abandon_in_flight_refresh session_was_persisted
write_finishes =
    next (next stay (writes flight_at new_tokens true true refl refl refl))
      (persists flight_at new_tokens none refl refl refl)

-- The first deletion works, the second one fails.
abbrev logged_out : Client
logged_out = clear_local_session true false written

logs_out : Logout true false writing logged_out
logs_out = record { waited = written; before = write_finishes; awaited = inr refl; cleared = refl }

late_request : Steps logged_out logged_out
unfolding rotate_access_token
late_request = next stay (rotates refl)

left_behind : get_value true logged_out.stored.refresh ≡ some 21
left_behind = refl

Logout-NoMore_example :
    NoMore logged_out.stored.access logged_out.stored.access
    × NoMore logged_out.stored.refresh logged_out.stored.refresh
    × (get_value true logged_out.stored.access ≡ none)
    × (get_value false logged_out.stored.refresh ≡ none)
    × (logged_out.refresh_in_flight ≡ none)
Logout-NoMore_example = Logout-NoMore true false writing logged_out logged_out logs_out late_request

abbrev asking : Client
asking = record idle { refresh_in_flight = some (record { epoch = 0; phase = posting 11 }) }

abbrev later_flight : Flight
later_flight = record { epoch = 1; phase = persisting new_tokens }

abbrev renewed : Client
renewed = record {
  refresh_in_flight = some later_flight;
  refresh_epoch = 1;
  refresh_allowed = true;
  stored = holding old_tokens;
}

-- The old refresh settles after the sign-in, and a new one takes its place.
sign_in_and_refresh : Moves (abandon_in_flight_refresh asking) renewed
unfolding abandon_in_flight_refresh rotate_access_token
sign_in_and_refresh =
    move
      (move
        (move
          (move (move rest (signs_in true true old_tokens refl)) (
            steps (
              answers (record { epoch = 0; phase = posting 11 }) 11 (some new_tokens) refl refl
                refl)))
          (steps (rotates refl)))
        (steps (reads (record { epoch = 1; phase = reading }) (some 11) refl refl refl)))
      (steps
        (answers (record { epoch = 1; phase = posting 11 }) 11 (some new_tokens) refl refl refl))

abandon_in_flight_refresh-epoch_example : asking.refresh_epoch < later_flight.epoch
abandon_in_flight_refresh-epoch_example =
    abandon_in_flight_refresh-epoch asking renewed later_flight new_tokens refl sign_in_and_refresh
      refl refl
