-- ===== src/Sync/Queue.antt =====
-- frontend/src/lib/localSyncQueue.ts: the events that wait in the table `sync_queue`. The table is its
-- rows in the order of insertion and is part of the state of the environment, since the purge deletes
-- it; a missing table is an empty one, and its own calls are taken not to fail. A row keeps the payload
-- that its JSON text stands for. The id that `randomUUID` draws and the time are arguments.
use usbi.Prelude.{
  Bool, true, false, ◌||◌, not, Option, none, some, List, [], ◌∷◌, ◌++◌, map, ◌==◌, if◌then◌else◌,
  length, take,
}
use usbi.Prelude.Int.{ℤ, pos, negsuc}
use usbi.Prelude.Sets.{keep}
use usbi.Prelude.Text.{Text, eq_text}
use usbi.Prelude.TextOrder.{sort_by_text}
use usbi.Sync.{
  SyncPayload, SyncEventRequest, Environment, SyncStore, Outcome, set_pending_count,
  sync_local_progress,
}

pub record Row : Type 0 where
  pub id : Text
  pub user_id : Text
  pub device_id : Text
  pub payload : SyncPayload
  pub created_at : Text

-- What the queue reads of the window and the stores: whether it runs in the desktop shell, and the id
-- of the user that is logged in.
pub record Client : Type 0 where
  pub in_desktop : Bool
  pub user : Option Text
  pub store : SyncStore

-- `!user || !deviceId`: an empty device id is no device id.
abbrev pub identity : Option Text → Option Text → Option (Text × Text)
identity (some u) (some (c ∷ cs)) = some (u, c ∷ cs)
identity (some u) (some []) = none
identity (some u) none = none
identity none d = none

unfoldable pub count_rows : List Row → Client → Client
count_rows rows c = record c { store = set_pending_count (length rows) c.store }

unfoldable pub init_local_sync_queue : List Row → Client → Client
init_local_sync_queue rows c = if c.in_desktop then count_rows rows c else c

abbrev pub enqueue_for :
    Option (Text × Text) → Text → Text → SyncPayload → Client → List Row → Client × List Row
enqueue_for none uuid now payload c rows = (c, rows)
enqueue_for (some (u, d)) uuid now payload c rows =
    let row : Row = record {
      id = uuid;
      user_id = u;
      device_id = d;
      payload = payload;
      created_at = now;
    } in
    let rows' = rows ++ row ∷ [] in (count_rows rows' (init_local_sync_queue rows c), rows')

unfoldable pub enqueue_progress : Text → Text → SyncPayload → Client → List Row → Client × List Row
enqueue_progress uuid now payload c rows =
    if c.in_desktop
    then enqueue_for (identity c.user c.store.device_id) uuid now payload c rows
    else (c, rows)

-- `Math.max(0, Math.trunc(score))` of an integer.
abbrev pub max_zero : ℤ → ℤ
max_zero (pos n) = pos n
max_zero (negsuc n) = pos 0

unfoldable pub build_attempt_payload : Text → Text → Bool → ℤ → SyncPayload
build_attempt_payload today level_id completed score = record {
  level_attempts =
      record {
        level_id = level_id;
        attempt_date = today;
        attempt_number = pos 1;
        xp_awarded = pos 0;
        score = max_zero score;
        completed = completed;
      }
      ∷ [];
  daily_streak_dates = some (if completed then today ∷ [] else []);
  badge_ids_earned = none;
}

-- `SELECT ... ORDER BY created_at ASC LIMIT 50`
unfoldable pub select_oldest : List Row → List Row
select_oldest rows = take 50 (sort_by_text (λ (r : Row). r.created_at) rows)

abbrev pub request_of : Text → Text → Row → SyncEventRequest
request_of u d row = record {
  sync_event_id = row.id;
  user_id = u;
  device_id = d;
  crypto_key_version = pos 1;
  payload = row.payload;
  hmac_signature = [];
}

-- `confirmedIDs.has(id)`
unfoldable pub has : List Text → Text → Bool
has [] x = false
has (i ∷ is) x = eq_text i x || has is x

-- `DELETE FROM sync_queue WHERE id = $1`
unfoldable pub delete_row : Text → List Row → List Row
delete_row x rows = keep (λ (r : Row). not (eq_text r.id x)) rows

unfoldable pub delete_confirmed : List Text → List Row → List Row → List Row
unfolding has delete_row
delete_confirmed ids [] rows = rows
delete_confirmed ids (r ∷ rs) rows =
    delete_confirmed ids rs (if has ids r.id then delete_row r.id rows else rows)

abbrev pub still_in : Bool → Option Text → Option Text
still_in true u = u
still_in false u = none

module _ {V : Type 0} where
  -- What follows the run: the confirmed rows are deleted and the rest is counted.
  abbrev pub conclude : Client → List Row → Outcome (List Row × V) → Client × (List Row × V)
  conclude c selected o =
      let c' : Client = record {
        in_desktop = c.in_desktop;
        user = still_in o.logged_in c.user;
        store = o.store;
      } in
      let (rows, v) = o.after in
      if length o.result.confirmed_ids == 0
      then (count_rows rows c', (rows, v))
      else let rows' = delete_confirmed o.result.confirmed_ids selected rows in
        (count_rows rows' c', (rows', v))

  abbrev pub send_selected :
      Environment (List Row × V)
      → Text
      → Text
      → List Row
      → Client
      → List Row × V
      → Client × (List Row × V)
  send_selected env u d [] c w = (c, w)
  send_selected env u d (r ∷ rs) c w =
      conclude c (r ∷ rs) (sync_local_progress env (map (request_of u d) (r ∷ rs)) c.store true w)

  abbrev pub sync_for :
      Environment (List Row × V)
      → Option (Text × Text)
      → Client
      → List Row × V
      → Client × (List Row × V)
  sync_for env none c w = (c, w)
  sync_for env (some (u, d)) c w =
      send_selected env u d (select_oldest w.0) (init_local_sync_queue w.0 c) w

  unfoldable pub sync_local_queue :
      Environment (List Row × V) → Client → List Row × V → Client × (List Row × V)
  sync_local_queue env c w =
      if c.in_desktop then sync_for env (identity c.user c.store.device_id) c w else (c, w)
