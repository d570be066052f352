-- ===== src/Sync/Blocking.antt =====
-- localSyncQueue.ts and syncEngine.ts: an event that the server keeps refusing holds up the others.
use usbi.Prelude.{
  ◌≡◌, refl, ℕ, zero, suc, true, false, ◌||◌, not, Option, none, some, List, [], ◌∷◌, map, if_cases,
  ◌∙◌,
}
use usbi.Prelude.Text.{Text}
use usbi.Sync.{
  SyncEventRequest, Environment, Reply, got, threw, Ended, Outcome, Failure, failed, unauthorized,
  has_invalid_xp, some_negative, retry, after_reply, after_signature, fetch_with_retry,
  build_signed_request, send_all, result_of, is_active, sync_local_progress,
}
use usbi.Sync.Queue.{
  Row, Client, identity, init_local_sync_queue, select_oldest, request_of, conclude, send_selected,
  sync_for, sync_local_queue,
}
use usbi.Sync.Rows.{KeepsRows, fetch_with_retry-rows}

result_of-ids :
    (t : Option Failure) (ids : List Text) (requests : List SyncEventRequest)
    → (result_of t ids requests).confirmed_ids ≡ ids
result_of-ids none ids requests = refl
result_of-ids (some f) ids requests = refl

module _ {V : Type 0} (env : Environment (List Row × V)) (k : KeepsRows env) (id : Text)
    (refuses : (r : SyncEventRequest) (w : List Row × V)
      → r.sync_event_id ≡ id
      → (env.post r w).0 ≡ threw failed) where
  retry-failed :
      (left : ℕ) (reply : Reply × (List Row × V)) (again : List Row × V → Reply × (List Row × V))
      → reply.0 ≡ threw failed
      → ((w : List Row × V) → (again w).0 ≡ threw failed)
      → (retry left reply again).0 ≡ threw failed
  retry-failed left (got r, w) again h n = absurd cc
  retry-failed left (threw unauthorized, w) again h n = h
  retry-failed zero (threw failed, w) again h n = refl
  retry-failed (suc left) (threw failed, w) again h n = n w

  fetch_with_retry-failed :
      (left : ℕ) (r : SyncEventRequest) (w : List Row × V)
      → r.sync_event_id ≡ id
      → (fetch_with_retry env left r w).0 ≡ threw failed
  unfolding fetch_with_retry
  fetch_with_retry-failed zero r w e =
      retry-failed zero (env.post r w) (λ w'. (threw failed, w')) (refuses r w e) (λ w'. refl)
  fetch_with_retry-failed (suc left) r w e =
      retry-failed (suc left) (env.post r w) (fetch_with_retry env left r) (refuses r w e)
        (λ w'. fetch_with_retry-failed left r w' e)

  -- The run ends with nothing confirmed and the table as it was.
  abbrev StopsAt : List Row → Ended (List Row × V) → Type 0
  StopsAt rows e = (e.confirmed ≡ []) × (e.world.0 ≡ rows)

  after_reply-StopsAt :
      (rows : List Row) (r : SyncEventRequest) (reply : Reply × (List Row × V))
      (next : List Row × V → Ended (List Row × V))
      → reply.0 ≡ threw failed
      → reply.1.0 ≡ rows
      → StopsAt rows (after_reply env r reply next)
  after_reply-StopsAt rows r (got response, w) next h e = absurd cc
  after_reply-StopsAt rows r (threw f, w) next h e = (refl, e)

  after_signature-StopsAt :
      (rows : List Row) (r : SyncEventRequest) (signed : Option Text × (List Row × V))
      (next : List Row × V → Ended (List Row × V))
      → r.sync_event_id ≡ id
      → signed.1.0 ≡ rows
      → StopsAt rows (after_signature env r signed next)
  after_signature-StopsAt rows r (none, w) next same e = (refl, e)
  after_signature-StopsAt rows r (some t, w) next same e =
      let q : SyncEventRequest = record r { hmac_signature = t } in
      after_reply-StopsAt rows r (fetch_with_retry env 2 q w) next
        (fetch_with_retry-failed 2 q w same) (fetch_with_retry-rows env k 2 q w ∙ e)

  send_all-StopsAt :
      (r : SyncEventRequest) (rs : List SyncEventRequest) (w : List Row × V)
      → r.sync_event_id ≡ id
      → has_invalid_xp r ≡ false
      → StopsAt w.0 (send_all env (r ∷ rs) w)
  unfolding send_all build_signed_request
  send_all-StopsAt r rs w same v = rw (v) (
      after_signature-StopsAt w.0 r (build_signed_request env r w) (send_all env rs) same
        (k.sign _ w))

  abbrev NothingDone : List Row → Outcome (List Row × V) → Type 0
  NothingDone rows o = (o.result.confirmed_ids ≡ []) × (o.after.0 ≡ rows)

  conclude-unchanged :
      (c : Client) (selected rows : List Row) (o : Outcome (List Row × V))
      → NothingDone rows o
      → (conclude c selected o).1.0 ≡ rows
  conclude-unchanged c selected rows o (ids, same) = rw (ids) same

  send_selected-unchanged :
      (u d : Text) (c : Client) (r : Row) (rs : List Row) (w : List Row × V)
      → r.id ≡ id
      → some_negative r.payload.level_attempts ≡ false
      → (send_selected env u d (r ∷ rs) c w).1.0 ≡ w.0
  unfolding sync_local_progress has_invalid_xp
  send_selected-unchanged u d c r rs w same v =
      let P = NothingDone w.0 in
      let asked = env.get_game_status w in
      let requests = map (request_of u d) rs in
      let stops = send_all-StopsAt (request_of u d r) requests asked.1 same v in
      conclude-unchanged c (r ∷ rs) w.0
        (sync_local_progress env (map (request_of u d) (r ∷ rs)) c.store true w)
        (if_cases P (c.store.is_syncing || not c.store.is_online) (λ _. (refl, refl))
          (λ _.
            if_cases P (is_active asked.0) (λ _. (refl, k.status w))
              (λ _. (
                result_of-ids (send_all env (request_of u d r ∷ requests) asked.1).thrown _ _
                    ∙ stops.0,
                stops.1 ∙ k.status w,
              ))))

  sync_for-unchanged :
      (x : Option (Text × Text)) (c : Client) (r : Row) (rs : List Row) (w : List Row × V)
      → select_oldest w.0 ≡ r ∷ rs
      → r.id ≡ id
      → some_negative r.payload.level_attempts ≡ false
      → (sync_for env x c w).1.0 ≡ w.0
  sync_for-unchanged none c r rs w first same v = refl
  sync_for-unchanged (some (u, d)) c r rs w first same v =
      rw (first) (send_selected-unchanged u d (init_local_sync_queue w.0 c) r rs w same v)

-- When only a purge touches the table, the oldest waiting event has no negative XP and every post of
-- it fails other than by a 401, a run of `syncLocalQueue` leaves the table as it was: no other event
-- is confirmed either.
pub oldest_refused-blocks :
    {V : Type 0} (env : Environment (List Row × V)) (k : KeepsRows env) (c : Client)
    (w : List Row × V) (r : Row) (rs : List Row)
    → select_oldest w.0 ≡ r ∷ rs
    → some_negative r.payload.level_attempts ≡ false
    → ((q : SyncEventRequest) (w' : List Row × V)
        → q.sync_event_id ≡ r.id
        → (env.post q w').0 ≡ threw failed)
    → (sync_local_queue env c w).1.0 ≡ w.0
unfolding sync_local_queue
oldest_refused-blocks env k c w r rs first v refuses =
    if_cases (λ (o : Client × (List Row × _)). o.1.0 ≡ w.0) c.in_desktop
      (λ _.
        sync_for-unchanged env k r.id refuses (identity c.user c.store.device_id) c r rs w first
          refl v)
      (λ _. refl)
