-- ===== src/Sync/Examples.antt =====
-- syncEngine.ts and localSyncQueue.ts: events sent to a server that confirms all, or all but one.
use mathlib.Core.List.Perm
use usbi.Prelude.{
  ℕ, Bool, true, false, ◌≡◌, inr, refl, arith, none, some, List, [], ◌∷◌, if◌then◌else◌,
}
use usbi.Prelude.Text.{Text, eq_text}
use usbi.Prelude.TextOrder.{sort_by_text, insert_by_text, leb_text}
use usbi.Sync.Signing.{build_canonical_signing_payload-perm}
use usbi.Sync.Queue.{Row, Client, select_oldest, sync_local_queue}
use usbi.Sync.Rows.{KeepsRows}
use usbi.Sync.Removal.{Settled, sent, sync_local_queue-Settled}
use usbi.Sync.Draining.{IsConfirmed, Drained, sync_local_queue-Drained}
use usbi.Sync.Blocking.{oldest_refused-blocks}
use usbi.Prelude.Int.{pos}
use usbi.Sync.{
  LevelAttemptItem, SyncPayload, build_canonical_signing_payload, threw, failed, some_negative,
  Environment, SyncEventRequest, SyncStore, Outcome, got, synced, already_processed,
  SyncEventResponse, sync_local_progress,
}

abbrev kind_server : Environment Bool
kind_server = record {
  get_game_status = λ w. (some false, w);
  sign_payload = λ r w. (some (b'x' ∷ []), w);
  post = λ r w. (got (record { status = synced; wipe_local_data = false }), w);
  wipe_local_data = λ w. (true, w);
}

abbrev event : SyncEventRequest
event = record {
  sync_event_id = b'1' ∷ [];
  user_id = b'u' ∷ [];
  device_id = b'd' ∷ [];
  crypto_key_version = pos 1;
  payload = record { level_attempts = []; daily_streak_dates = none; badge_ids_earned = none };
  hmac_signature = [];
}

abbrev online : SyncStore
online = record {
  is_online = true;
  is_syncing = false;
  pending_items_count = 1;
  device_id = some (b'd' ∷ []);
}

abbrev done : Outcome Bool
done = sync_local_progress kind_server (event ∷ []) online true true

abbrev attempt : ℕ → LevelAttemptItem
attempt n = record {
  level_id = n ∷ [];
  attempt_date = b'9' ∷ [];
  attempt_number = pos 1;
  xp_awarded = pos 0;
  score = pos 10;
  completed = true;
}

abbrev attempts : List LevelAttemptItem → SyncPayload
attempts as' = record { level_attempts = as'; daily_streak_dates = none; badge_ids_earned = none }

abbrev two_levels : SyncEventRequest
two_levels = record event { payload = attempts (attempt b'b' ∷ attempt b'a' ∷ []) }

build_canonical_signing_payload-perm_example :
    build_canonical_signing_payload (record two_levels {
      payload = attempts (attempt b'a' ∷ attempt b'b' ∷ []);
      hmac_signature = b'x' ∷ [];
    })
    ≡ build_canonical_signing_payload two_levels
build_canonical_signing_payload-perm_example =
    build_canonical_signing_payload-perm two_levels (attempts (attempt b'a' ∷ attempt b'b' ∷ []))
      (b'x' ∷ []) (Perm.swap (attempt b'a') (attempt b'b') []) (Perm.refl []) (Perm.refl [])

-- The table is the state.
abbrev table_server : Environment (List Row × Bool)
table_server = record {
  get_game_status = λ w. (some false, w);
  sign_payload = λ r w. (some (b'x' ∷ []), w);
  post = λ r w. (got (record { status = synced; wipe_local_data = false }), w);
  wipe_local_data = λ w. (true, ([], w.1));
}

abbrev waiting : Text → Text → Row
waiting id time = record {
  id = id;
  user_id = b'u' ∷ [];
  device_id = b'd' ∷ [];
  payload = attempts (attempt b'a' ∷ []);
  created_at = time;
}

abbrev rows : List Row
rows = waiting (b'2' ∷ []) (b'8' ∷ []) ∷ waiting (b'1' ∷ []) (b'7' ∷ []) ∷ []

abbrev client : Client
client = record { in_desktop = true; user = some (b'u' ∷ []); store = online }

abbrev table_server-KeepsRows : KeepsRows table_server
table_server-KeepsRows = record {
  status = λ w. refl;
  sign = λ t w. refl;
  posts = λ r w. refl;
  wipe = λ w. inr refl;
}

sync_local_queue-Settled_example :
    Settled
      (b'u' ∷ [])
      (b'd' ∷ [])
      (select_oldest rows)
      rows
      (sent table_server (b'u' ∷ []) (b'd' ∷ []) client (rows, true))
      (sync_local_queue table_server client (rows, true))
sync_local_queue-Settled_example =
    sync_local_queue-Settled table_server table_server-KeepsRows client (rows, true) (b'u' ∷ [])
      (b'd' ∷ []) refl refl

-- A signature that depends on the text, and a status that depends on the signature.
abbrev varied : Text → SyncEventResponse
varied [] = record { status = already_processed; wipe_local_data = false }
varied (c ∷ cs) = record { status = synced; wipe_local_data = false }

varied_reply : (t : Text) → IsConfirmed (got (varied t))
varied_reply [] = (refl, refl)
varied_reply (c ∷ cs) = (refl, refl)

abbrev varied_server : Environment (List Row × Bool)
varied_server = record table_server {
  sign_payload = λ t w. (some (b'x' ∷ t), w);
  post = λ r w. (got (varied r.hmac_signature), w);
}

abbrev varied_server-KeepsRows : KeepsRows varied_server
varied_server-KeepsRows = record {
  status = λ w. refl;
  sign = λ t w. refl;
  posts = λ r w. refl;
  wipe = λ w. inr refl;
}

sync_local_queue-Drained_example : Drained (sync_local_queue varied_server client (rows, true))
unfolding some_negative
sync_local_queue-Drained_example =
    sync_local_queue-Drained varied_server varied_server-KeepsRows
      (record {
        status = λ w. refl;
        sign = λ t w. (b'x' ∷ t, refl);
        posts = λ r w. varied_reply r.hmac_signature;
      })
      client (rows, true) (b'u' ∷ []) (b'd' ∷ []) refl refl refl refl (omega arith)
      (refl, (refl, tt))

-- A server that refuses the event `1` and confirms the others.
abbrev choosy_server : Environment (List Row × Bool)
choosy_server = record table_server {
  post = λ r w. (
    if eq_text r.sync_event_id (b'1' ∷ [])
        then threw failed
        else got (record { status = synced; wipe_local_data = false }),
    w,
  );
}

refuses_first :
    (q : SyncEventRequest) (w : List Row × Bool)
    → q.sync_event_id ≡ b'1' ∷ []
    → (choosy_server.post q w).0 ≡ threw failed
unfolding eq_text
refuses_first q w e = rw (e) refl

oldest_refused-blocks_example : (sync_local_queue choosy_server client (rows, true)).1.0 ≡ rows
unfolding select_oldest sort_by_text insert_by_text leb_text some_negative
oldest_refused-blocks_example =
    oldest_refused-blocks choosy_server
      (record { status = λ w. refl; sign = λ t w. refl; posts = λ r w. refl; wipe = λ w. inr refl })
      client (rows, true) (waiting (b'1' ∷ []) (b'7' ∷ [])) (waiting (b'2' ∷ []) (b'8' ∷ []) ∷ [])
      refl refl refuses_first
