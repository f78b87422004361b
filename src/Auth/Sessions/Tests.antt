-- ===== src/Auth/Sessions/Tests.antt =====
-- Runs of the refresh sessions, and their theorems at concrete rows.
use stead.Prelude.{
  ◌+◌, ◌≤◌, ◌==◌, ◌≡◌, refl, true, false, not, ◌&&◌, none, some, List, [], ◌∷◌, ok, err, filter,
  find, count, length, unauthorized, arith,
}
use stead.Store.{Table}
use stead.Store.Memory.{memory}
use stead.Auth.Sessions.{
  RefreshToken, clash, Settings, Session, Refresh, LogoutRequest, max_refresh_families, live_of,
  live_on, live_in, revoke, replaced_by, new_token, has_hash, issue_family,
  prepare_refresh_family_slot, revoke_slots, check_existing, rotate, refresh_session,
  resolve_user_id_for_logout, revoke_session,
}
use stead.Auth.Sessions.Families.{live_families, issue_family-cap, issue_family-device}
use stead.Auth.Sessions.Rotation.{successor, Granted, refresh_session-Granted, refresh_session_once}
use stead.Auth.Sessions.Race.{rotate_race, rotate-successor}
use stead.Auth.Sessions.Logout.{revoke_session-user, revoke_session-family}

abbrev tokens : Table RefreshToken clash
tokens = memory clash

abbrev settings : Settings
settings = record {
  max_families_setting = some 2;
  refresh_token_ms = 1000;
  family_max_age_ms = 5000;
  access_token_seconds = 900;
}

-- The user 7 has a session on the device 5 and one on no device; the user 8 has one.
abbrev on_device : RefreshToken
on_device = new_token settings 1 101 7 11 0 (some 5) 0

abbrev anywhere : RefreshToken
anywhere = new_token settings 2 102 7 12 10 none 10

abbrev foreign : RefreshToken
foreign = new_token settings 3 103 8 13 10 none 10

abbrev rows : List RefreshToken
rows = on_device ∷ anywhere ∷ foreign ∷ []

-- A sign-in on the device 5 replaces the family 11; one on the device 6 evicts it as the oldest.
abbrev same_device : List RefreshToken
same_device =
    revoke 20 on_device ∷ anywhere ∷ foreign ∷ new_token settings 4 104 7 14 20 (some 5) 20 ∷ []

abbrev new_device : List RefreshToken
new_device =
    revoke 20 on_device ∷ anywhere ∷ foreign ∷ new_token settings 4 104 7 14 20 (some 6) 20 ∷ []

signed_in_again : issue_family tokens settings 4 104 7 14 (some 5) 20 rows ≡ ok same_device
unfolding issue_family prepare_refresh_family_slot revoke_slots memory
signed_in_again = refl

signed_in_elsewhere : issue_family tokens settings 4 104 7 14 (some 6) 20 rows ≡ ok new_device
unfolding issue_family prepare_refresh_family_slot revoke_slots memory
signed_in_elsewhere = refl

issue_family-cap_example : length (live_families 7 new_device) ≤ max_refresh_families settings
issue_family-cap_example =
    issue_family-cap tokens settings 4 104 7 14 (some 6) 20 rows new_device signed_in_elsewhere

issue_family-device_example :
    (count (live_on 7 5) same_device ≡ 1)
    × (count (λ r. live_on 7 5 r && r.family_id == 14) same_device ≡ 1)
issue_family-device_example =
    issue_family-device tokens settings 4 104 7 14 5 20 rows same_device signed_in_again

abbrev request : Refresh
request = record {
  hash = 101;
  device = ok (some 5);
  new_id = 4;
  raw = 55;
  raw_hash = 104;
  sign = λ user. ok (user + 1000);
}

abbrev granted : Session
granted = record { token = 1007; refresh_token = 55; expires_in = 900 }

abbrev refreshed : List RefreshToken
refreshed =
    replaced_by 4 (revoke 21 on_device)
    ∷ anywhere
    ∷ foreign
    ∷ successor settings request 21 on_device (some 5)
    ∷ []

rotates : rotate tokens settings request 21 on_device (some 5) rows ≡ (ok granted, refreshed)
unfolding rotate memory
rotates = refl

refreshes : refresh_session tokens settings request 20 21 (λ t. t) rows ≡ (ok granted, refreshed)
unfolding refresh_session check_existing rotate memory
refreshes = refl

wrong_device :
    refresh_session tokens settings (record request { device = ok none }) 20 21 (λ t. t) rows
    ≡ (err unauthorized, rows)
unfolding refresh_session check_existing memory
wrong_device = refl

refresh_session-Granted_example :
    Granted tokens settings request 20 21 (λ t. t) rows refreshed granted
refresh_session-Granted_example =
    refresh_session-Granted tokens settings request 20 21 (λ t. t) rows refreshed granted refreshes

refresh_session_once_example :
    ((refresh_session tokens settings request 30 31 (λ t. t) refreshed).0 ≡ err unauthorized)
    × (count (live_in 11) (refresh_session tokens settings request 30 31 (λ t. t) refreshed).1 ≡ 0)
refresh_session_once_example =
    refresh_session_once tokens settings request request 20 21 30 31 (λ t. t) (λ t. t) rows
      refreshed granted on_device on_device refreshes refl refl refl (omega arith) refl

rotate_race_example :
    ((rotate tokens settings request 22 on_device (some 5) refreshed).0 ≡ err unauthorized)
    × (count (live_in 11) (rotate tokens settings request 22 on_device (some 5) refreshed).1 ≡ 0)
rotate_race_example =
    rotate_race tokens settings request request 21 22 on_device on_device (some 5) (some 5) rows
      refreshed granted rotates refl refl (omega arith) (omega arith) refl

rotate-successor_example :
    (granted.refresh_token ≡ 55)
    × (find (has_hash 104) refreshed ≡ some (successor settings request 21 on_device (some 5)))
rotate-successor_example =
    rotate-successor tokens settings request 21 on_device (some 5) rows refreshed granted rotates
      (omega arith)

abbrev logout_all : LogoutRequest
logout_all = record {
  refresh_hash = some 102;
  has_secret = true;
  access = some none;
  all_devices = true;
}

abbrev logout_one : LogoutRequest
logout_one = record {
  refresh_hash = some 102;
  has_secret = true;
  access = none;
  all_devices = false;
}

abbrev after_all : List RefreshToken
after_all = revoke 30 on_device ∷ revoke 30 anywhere ∷ foreign ∷ []

abbrev after_one : List RefreshToken
after_one = on_device ∷ revoke 30 anywhere ∷ foreign ∷ []

logs_out_all : revoke_session tokens logout_all 30 rows ≡ ok after_all
unfolding revoke_session resolve_user_id_for_logout memory
logs_out_all = refl

logs_out_one : revoke_session tokens logout_one 30 rows ≡ ok after_one
unfolding revoke_session memory
logs_out_one = refl

resolves : resolve_user_id_for_logout tokens logout_all rows ≡ some 7
unfolding resolve_user_id_for_logout memory
resolves = refl

revoke_session-user_example :
    (count (live_of 7) after_all ≡ 0)
    × (filter (λ r. not (r.user_id == 7)) after_all ≡ filter (λ r. not (r.user_id == 7)) rows)
revoke_session-user_example =
    revoke_session-user tokens logout_all 30 7 rows after_all refl resolves logs_out_all

revoke_session-family_example :
    (count (live_in 12) after_one ≡ 0)
    × (filter (λ r. not (r.family_id == 12)) after_one ≡ filter (λ r. not (r.family_id == 12)) rows)
revoke_session-family_example =
    revoke_session-family tokens logout_one 30 102 anywhere rows after_one refl refl refl
      logs_out_one
