-- ===== src/Sync.antt =====
-- frontend/src/lib/syncEngine.ts (syncLocalProgress and fetchWithRetry) with the stores that it changes
-- (frontend/src/stores/useSyncStore.ts; of useAuthStore.ts, whether the user is logged in). What lies
-- outside the client - the desktop process, the server and the network - is an environment: functions
-- on a state `W` of its own. The delays between attempts and the time of the last success are left out.
mod Examples
pub mod Confirmed
pub mod Signing
pub mod Queue
pub mod Rows
pub mod Removal
pub mod Ordered
pub mod Draining
pub mod Blocking
use usbi.Prelude.{
  ℕ, zero, suc, Bool, true, false, ◌&&◌, ◌||◌, not, Option, none, some, List, [], ◌∷◌, ◌==◌,
  if◌then◌else◌, length, map,
}
use usbi.Prelude.Int.{ℤ, pos, negsuc, ltb_ℤ}
use usbi.Prelude.Text.{Text, join, digits}
use usbi.Prelude.TextOrder.{sort_texts}

pub record LevelAttemptItem : Type 0 where
  pub level_id : Text
  pub attempt_date : Text
  pub attempt_number : ℤ
  pub xp_awarded : ℤ
  pub score : ℤ
  pub completed : Bool

pub record SyncPayload : Type 0 where
  pub level_attempts : List LevelAttemptItem
  pub daily_streak_dates : Option (List Text)
  pub badge_ids_earned : Option (List Text)

pub record SyncEventRequest : Type 0 where
  pub sync_event_id : Text
  pub user_id : Text
  pub device_id : Text
  pub crypto_key_version : ℤ
  pub payload : SyncPayload
  pub hmac_signature : Text

pub data Status : Type 0 where
  synced already_processed unknown : Status

pub record SyncEventResponse : Type 0 where
  pub status : Status
  pub wipe_local_data : Bool

-- What a call that may throw leaves: `unauthorized` is the axios error with status 401.
pub data Failure : Type 0 where
  unauthorized failed : Failure

pub data Reply : Type 0 where
  got : SyncEventResponse → Reply
  threw : Failure → Reply

pub record Environment (W : Type 0) : Type 0 where
  pub get_game_status : W → Option Bool × W
  pub sign_payload : Text → W → Option Text × W
  pub post : SyncEventRequest → W → Reply × W
  pub wipe_local_data : W → Bool × W

pub record SyncStore : Type 0 where
  pub is_online : Bool
  pub is_syncing : Bool
  pub pending_items_count : ℕ
  pub device_id : Option Text

unfoldable pub set_online_status : Bool → SyncStore → SyncStore
set_online_status b s = record s { is_online = b }

unfoldable pub set_pending_count : ℕ → SyncStore → SyncStore
set_pending_count n s = record s { pending_items_count = n }

unfoldable pub set_device_id : Option Text → SyncStore → SyncStore
set_device_id id s = record s { device_id = id }

unfoldable pub set_syncing : Bool → SyncStore → SyncStore
set_syncing b s = record s { is_syncing = b }

unfoldable pub record_sync_success : SyncStore → SyncStore
record_sync_success s = record s { is_syncing = false; pending_items_count = 0 }

-- `String(n)` of an integer below 10 ^ 17 in absolute value.
unfoldable pub string_of_ℤ : ℤ → Text
string_of_ℤ (pos n) = digits 17 n
string_of_ℤ (negsuc n) = b'-' ∷ digits 17 (suc n)

abbrev pub string_of_Bool : Bool → Text
string_of_Bool true = b't' ∷ b'r' ∷ b'u' ∷ b'e' ∷ []
string_of_Bool false = b'f' ∷ b'a' ∷ b'l' ∷ b's' ∷ b'e' ∷ []

-- `list ?? []`
abbrev pub given : Option (List Text) → List Text
given none = []
given (some ts) = ts

unfoldable pub attempt_line : LevelAttemptItem → Text
attempt_line a = join b',' (
    a.level_id
    ∷ a.attempt_date
    ∷ string_of_ℤ a.attempt_number
    ∷ string_of_ℤ a.xp_awarded
    ∷ string_of_ℤ a.score
    ∷ string_of_Bool a.completed
    ∷ [])

unfoldable pub build_canonical_signing_payload : SyncEventRequest → Text
build_canonical_signing_payload r = join b'|' (
    r.sync_event_id
    ∷ r.user_id
    ∷ r.device_id
    ∷ string_of_ℤ r.crypto_key_version
    ∷ join b';' (sort_texts (map attempt_line r.payload.level_attempts))
    ∷ join b';' (sort_texts (given r.payload.daily_streak_dates))
    ∷ join b';' (sort_texts (given r.payload.badge_ids_earned))
    ∷ [])

unfoldable pub some_negative : List LevelAttemptItem → Bool
some_negative [] = false
some_negative (a ∷ as') = ltb_ℤ a.xp_awarded (pos 0) || some_negative as'

unfoldable pub has_invalid_xp : SyncEventRequest → Bool
has_invalid_xp r = some_negative r.payload.level_attempts

abbrev pub is_confirmed : Status → Bool
is_confirmed synced = true
is_confirmed already_processed = true
is_confirmed unknown = false

pub record SyncProgressResult : Type 0 where
  pub completed : Bool
  pub confirmed_ids : List Text

-- The end of the loop: the ids confirmed from a point on, and what was thrown if anything.
pub record Ended (W : Type 0) : Type 0 where
  pub confirmed : List Text
  pub thrown : Option Failure
  pub world : W

pub record Outcome (W : Type 0) : Type 0 where
  pub result : SyncProgressResult
  pub store : SyncStore
  pub logged_in : Bool
  pub after : W

abbrev pub stays : Option Failure → Bool → Bool
stays (some unauthorized) logged_in = false
stays (some failed) logged_in = logged_in
stays none logged_in = logged_in

abbrev pub result_of : Option Failure → List Text → List SyncEventRequest → SyncProgressResult
result_of none confirmed requests = record {
  completed = length confirmed == length requests;
  confirmed_ids = confirmed;
}
result_of (some f) confirmed requests = record { completed = false; confirmed_ids = confirmed }

abbrev pub store_of : Option Failure → SyncStore → SyncStore
store_of none s = record_sync_success s
store_of (some f) s = s

abbrev pub is_active : Option Bool → Bool
is_active none = false
is_active (some b) = b

module _ {W : Type 0} where
  -- `left` attempts may follow this one.
  abbrev pub retry : ℕ → Reply × W → (W → Reply × W) → Reply × W
  retry left (got r, w) again = (got r, w)
  retry left (threw unauthorized, w) again = (threw unauthorized, w)
  retry zero (threw failed, w) again = (threw failed, w)
  retry (suc left) (threw failed, w) again = again w

  unfoldable pub fetch_with_retry : Environment W → ℕ → SyncEventRequest → W → Reply × W
  fetch_with_retry env zero r w = retry zero (env.post r w) (λ w'. (threw failed, w'))
  fetch_with_retry env (suc left) r w =
      retry (suc left) (env.post r w) (fetch_with_retry env left r)

  abbrev pub confirm : Bool → Text → Ended W → Ended W
  confirm true id e = record e { confirmed = id ∷ e.confirmed }
  confirm false id e = e

  -- The purge ends the loop.
  abbrev pub purged : Bool × W → Ended W
  purged (true, w) = record { confirmed = []; thrown = none; world = w }
  purged (false, w) = record { confirmed = []; thrown = some failed; world = w }

  abbrev pub after_reply : Environment W → SyncEventRequest → Reply × W → (W → Ended W) → Ended W
  after_reply env r (threw f, w) next = record { confirmed = []; thrown = some f; world = w }
  after_reply env r (got response, w) next =
      confirm (is_confirmed response.status) r.sync_event_id
        (if response.wipe_local_data then purged (env.wipe_local_data w) else next w)

  abbrev pub after_signature :
      Environment W → SyncEventRequest → Option Text × W → (W → Ended W) → Ended W
  after_signature env r (none, w) next = record { confirmed = []; thrown = some failed; world = w }
  after_signature env r (some signature, w) next =
      after_reply env r (fetch_with_retry env 2 (record r { hmac_signature = signature }) w) next

  -- The signature that `buildSignedRequest` adds, or what the desktop process throws.
  unfoldable pub build_signed_request : Environment W → SyncEventRequest → W → Option Text × W
  build_signed_request env r w =
      env.sign_payload (build_canonical_signing_payload (record r { hmac_signature = [] })) w

  unfoldable pub send_all : Environment W → List SyncEventRequest → W → Ended W
  send_all env [] w = record { confirmed = []; thrown = none; world = w }
  send_all env (r ∷ rs) w =
      if has_invalid_xp r
      then send_all env rs w
      else after_signature env r (build_signed_request env r w) (send_all env rs)

  -- The `try`, `catch` and `finally` around the loop.
  abbrev pub settle : List SyncEventRequest → SyncStore → Bool → Ended W → Outcome W
  settle requests s logged_in e = record {
    result = result_of e.thrown e.confirmed requests;
    store = set_syncing false (store_of e.thrown s);
    logged_in = stays e.thrown logged_in;
    after = e.world;
  }

  abbrev pub idle : SyncStore → Bool → W → Outcome W
  idle s logged_in w = record {
    result = record { completed = false; confirmed_ids = [] };
    store = s;
    logged_in = logged_in;
    after = w;
  }

  unfoldable pub sync_local_progress :
      Environment W → List SyncEventRequest → SyncStore → Bool → W → Outcome W
  sync_local_progress env requests s logged_in w =
      let asked = env.get_game_status w in
      if s.is_syncing || not s.is_online
      then idle s logged_in w
      else if is_active asked.0
      then idle s logged_in asked.1
      else settle requests (set_syncing true s) logged_in (send_all env requests asked.1)
