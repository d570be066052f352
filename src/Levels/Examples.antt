-- ===== src/Levels/Examples.antt =====
-- A level finished without a network and with an expired session, and the stored levels.
use usbi.Prelude.{◌≡◌, refl, ℕ, suc, true, false, Option, none, some, List, [], ◌∷◌, if◌then◌else◌}
use usbi.Prelude.Int.{pos}
use usbi.Prelude.Text.{Text, eq_text}
use usbi.Session.{
  App, AuthResponse, File, Network, StoredSession, User, active, player, refused, unreachable,
  logged_out, api_client, finish, sign_out, clear_secure_session, logout,
}
use usbi.Sync.{SyncStore}
use usbi.Levels.Official.{LevelPage, Drawn, Device, finish_level}
use usbi.Levels.Finished.{expired_attempt_is_lost}
use usbi.Levels.Local.{Level, load_level, process_imported_json, save_local, handle_delete}
use usbi.Levels.Kept.{stored_levels_are_a_map}

abbrev nobody : ℕ → Option AuthResponse
nobody n = none

abbrev offline : Network ℕ ℕ
offline = record {
  send = λ r n. (unreachable, suc n);
  post_refresh = λ t n. (unreachable, suc n);
  parse_auth = nobody;
}

abbrev expired : Network ℕ ℕ
expired = record {
  send = λ r n. (refused 401, suc n);
  post_refresh = λ t n. (refused 401, suc n);
  parse_auth = nobody;
}

abbrev file : File StoredSession
file = record { to_raw = λ s. s; safe_parse = λ s. some s }

abbrev user : User
user = record {
  id = b'u' ∷ [];
  full_name = b'A' ∷ [];
  is_adult = true;
  role = player;
  status = active;
  created_at = [];
}

abbrev app : App StoredSession
app = record {
  in_desktop = true;
  auth = record {
    user = some user;
    token = some (b't' ∷ []);
    refresh_token = some (b'r' ∷ []);
    is_authenticated = true;
  };
  device_id = some (b'd' ∷ []);
  stored = none;
  notified = 0;
}

abbrev store : SyncStore
store = record {
  is_online = true;
  is_syncing = false;
  pending_items_count = 0;
  device_id = some (b'd' ∷ []);
}

abbrev device : Device StoredSession ℕ
device = record { app = app; store = store; rows = []; network = 0 }

abbrev page : LevelPage ℕ
page = record {
  level_id = some (b'1' ∷ []);
  is_published = true;
  submitted = false;
  result = none;
  save_error = false;
}

abbrev drawn : Drawn
drawn = record { uuid = b'x' ∷ []; now = b'9' ∷ []; today = b'9' ∷ [] }

abbrev parse_completed : ℕ → Option ℕ
parse_completed n = some n

abbrev complete_url : Text → Text
complete_url id = b'/' ∷ id

abbrev left_out : App StoredSession
left_out = record app { auth = logged_out; stored = none; notified = 2 }

expired_attempt_is_lost_example :
    (o : LevelPage ℕ × Device StoredSession ℕ) × (finish_level expired file parse_completed
        complete_url drawn
        (pos 80)
        page
        device
      ≡ some o)
    × (o.1.rows ≡ [])
    × (o.0.save_error ≡ true)
    × (o.0.submitted ≡ true)
unfolding api_client finish sign_out clear_secure_session logout
expired_attempt_is_lost_example =
    expired_attempt_is_lost expired file parse_completed complete_url drawn (b'1' ∷ []) (pos 80)
      page device (refused 401, (left_out, 2)) 401
      (record { loaded = refl; published = refl; fresh = refl }) refl refl refl refl

abbrev level : Level ℕ
level = record { id = b'1' ∷ []; title = b'T' ∷ []; content = 7 }

abbrev kept : List (Level ℕ)
kept = record level { content = 5 } ∷ record level { id = b'2' ∷ [] } ∷ []

abbrev parse_level : Text → Option (Level ℕ)
parse_level json = some level

stored_levels_are_a_map_example :
    (load_level (b'1' ∷ []) (process_imported_json parse_level [] (some kept)) ≡ (
      if eq_text (b'1' ∷ []) (b'1' ∷ []) then some level else load_level (b'1' ∷ []) (some kept)))
    × (load_level (b'1' ∷ []) (save_local false level (some kept)).1 ≡ (
        if eq_text (b'1' ∷ []) (b'1' ∷ []) then some level else load_level (b'1' ∷ []) (some kept)))
    × (load_level (b'1' ∷ []) (handle_delete true (b'2' ∷ []) kept (some kept))
        ≡ (if eq_text (b'2' ∷ []) (b'1' ∷ []) then none else load_level (b'1' ∷ []) (some kept)))
stored_levels_are_a_map_example =
    stored_levels_are_a_map parse_level [] level (some kept) (b'2' ∷ []) (b'1' ∷ []) refl refl refl
