-- ===== src/Sync/Draining.antt =====
-- localSyncQueue.ts, syncLocalQueue: a queue that a server confirms is emptied.
use usbi.Prelude.{
  ◌≡◌, ◌≤◌, ◌<◌, refl, ℕ, zero, suc, Bool, true, false, ◌||◌, ==_iff, not, Option, none, some, List,
  [], ◌∷◌, map, ◌==◌, length, length-map, arith, inl, inr, if_cases, ◌∙◌, ap, sym,
}
use usbi.Prelude.Sets.{keep}
use usbi.Prelude.Text.{Text, eq_text_self}
use usbi.Prelude.TextOrder.{sort_by_text}
use usbi.Sync.{
  SyncEventRequest, Environment, SyncStore, Reply, got, threw, Ended, Outcome, failed,
  has_invalid_xp, is_confirmed, retry, after_reply, after_signature, set_pending_count,
  fetch_with_retry, build_signed_request, send_all, is_active, sync_local_progress,
}
use usbi.Sync.Queue.{
  Row, Client, identity, count_rows, init_local_sync_queue, request_of, has, delete_confirmed,
  conclude, send_selected, sync_local_queue,
}
use usbi.Sync.Rows.{KeepsRows, Kept, sync_local_progress-Kept}
use usbi.Sync.Ordered.{
  ids_of, NoneNegative, sort_by_text-has, length-sort_by_text, sort_by_text-NoneNegative,
  select_oldest_all,
}
use usbi.Sync.Removal.{delete_confirmed-keep, remains, init-counts, nothing}

-- The reply of a server that has confirmed the event and orders no purge.
abbrev pub IsConfirmed : Reply → Type 0
IsConfirmed (got x) = (is_confirmed x.status ≡ true) × (x.wipe_local_data ≡ false)
IsConfirmed (threw f) = ⊥

-- No game is running, the desktop process signs every text, and the server confirms each event, with
-- whatever status that confirms it, and orders no purge.
pub record Confirms {W : Type 0} (env : Environment W) : Type 0 where
  pub status : (w : W) → is_active (env.get_game_status w).0 ≡ false
  pub sign : (t : Text) (w : W) → (s : Text) × ((env.sign_payload t w).0 ≡ some s)
  pub posts : (r : SyncEventRequest) (w : W) → IsConfirmed (env.post r w).0

module _ {W : Type 0} (env : Environment W) (c : Confirms env) (u d : Text) where
  retry-IsConfirmed :
      (left : ℕ) (reply : Reply × W) (again : W → Reply × W)
      → IsConfirmed reply.0
      → IsConfirmed (retry left reply again).0
  retry-IsConfirmed left (got r, w) again h = h
  retry-IsConfirmed left (threw f, w) again h = elim h [ ]

  fetch_with_retry-IsConfirmed :
      (left : ℕ) (r : SyncEventRequest) (w : W) → IsConfirmed (fetch_with_retry env left r w).0
  unfolding fetch_with_retry
  fetch_with_retry-IsConfirmed zero r w =
      retry-IsConfirmed zero (env.post r w) (λ w'. (threw failed, w')) (c.posts r w)
  fetch_with_retry-IsConfirmed (suc left) r w =
      retry-IsConfirmed (suc left) (env.post r w) (fetch_with_retry env left r) (c.posts r w)

  -- One more id is confirmed, and nothing more is thrown.
  abbrev OneMore : SyncEventRequest → Ended W → Ended W → Type 0
  OneMore r e e' = (e.confirmed ≡ r.sync_event_id ∷ e'.confirmed) × (e.thrown ≡ e'.thrown)

  after_reply-OneMore :
      (r : SyncEventRequest) (reply : Reply × W) (next : W → Ended W)
      → IsConfirmed reply.0
      → OneMore r (after_reply env r reply next) (next reply.1)
  after_reply-OneMore r (threw f, w) next h = elim h [ ]
  after_reply-OneMore r (got response, w) next (confirmed, keeps) =
      rw (confirmed, keeps) (refl, refl)

  after_signature-OneMore :
      (r : SyncEventRequest) (signed : Option Text × W) (next : W → Ended W) (s : Text)
      → signed.0 ≡ some s
      → (w : W) × OneMore r (after_signature env r signed next) (next w)
  after_signature-OneMore r (none, w) next s h = absurd cc
  after_signature-OneMore r (some t, w) next s h =
      let reply = fetch_with_retry env 2 (record r { hmac_signature = t }) w in
      (reply.1, after_reply-OneMore r reply next (fetch_with_retry-IsConfirmed 2 _ w))

  send_all-all :
      (rows : List Row) (w : W)
      → NoneNegative rows
      → let e = send_all env (map (request_of u d) rows) w in
        (e.confirmed ≡ ids_of rows) × (e.thrown ≡ none)
  unfolding send_all has_invalid_xp build_signed_request
  send_all-all [] w v = (refl, refl)
  send_all-all (r ∷ rows) w (v, vs) =
      let next = send_all env (map (request_of u d) rows) in
      let signed = build_signed_request env (request_of u d r) w in
      let (s, is_signed) = c.sign _ w in
      let (w', (ids, thrown)) =
        after_signature-OneMore (request_of u d r) signed next s is_signed in
      let (ids', thrown') = send_all-all rows w' vs in
      rw (v) (ids ∙ ap (◌∷◌ r.id) ids', thrown ∙ thrown')

  sync_local_progress-all :
      (rows : List Row) (s : SyncStore) (w : W)
      → s.is_online ≡ true
      → s.is_syncing ≡ false
      → NoneNegative rows
      → (sync_local_progress env (map (request_of u d) rows) s true w).result.confirmed_ids
        ≡ ids_of rows
  unfolding sync_local_progress
  sync_local_progress-all rows s w online free v =
      let sent = send_all-all rows (env.get_game_status w).1 v in
      let P : Outcome W → Type 0 = λ o. o.result.confirmed_ids ≡ ids_of rows in
      if_cases P (s.is_syncing || not s.is_online) (λ busy. absurd (ground arith))
        (λ _.
          if_cases P (is_active (env.get_game_status w).0)
            (λ active. let idle = c.status w in absurd cc) (λ _. rw (sent.1) sent.0))

keep_nothing :
    (p : Row → Bool) (rows : List Row)
    → ((r : Row) → has (ids_of rows) r.id ≡ true → p r ≡ false)
    → keep p rows ≡ []
unfolding keep has
keep_nothing p [] h = refl
keep_nothing p (r ∷ rows) h =
    rw (h r (ground (arith, eq_text_self r.id))) (keep_nothing p rows (λ q e. h q (ground arith)))

delete_confirmed_all :
    (selected rows rows' : List Row)
    → ((x : Text) → has (ids_of selected) x ≡ has (ids_of rows) x)
    → Kept rows rows'
    → delete_confirmed (ids_of selected) selected rows' ≡ []
unfolding keep
delete_confirmed_all selected rows rows' e (inl same) =
    rw (same, delete_confirmed-keep (ids_of selected) selected rows)
      (keep_nothing (remains (ids_of selected) selected) rows (λ r h. ground (arith, e r.id)))
delete_confirmed_all selected rows rows' e (inr gone) =
    rw (gone, delete_confirmed-keep (ids_of selected) selected []) refl

module _ {V : Type 0} where
  -- Nothing waits, and the count shown says so.
  abbrev pub Drained : Client × (List Row × V) → Type 0
  Drained o = (o.1.0 ≡ []) × (o.0.store.pending_items_count ≡ 0)

  conclude-Drained :
      (c : Client) (selected rows : List Row) (o : Outcome (List Row × V))
      → ((x : Text) → has (ids_of selected) x ≡ has (ids_of rows) x)
      → 0 < length selected
      → o.result.confirmed_ids ≡ ids_of selected
      → Kept rows o.after.0
      → Drained (conclude c selected o)
  unfolding count_rows set_pending_count
  conclude-Drained c selected rows o e n ids k =
      if_cases Drained (length o.result.confirmed_ids == 0)
        (λ empty.
          let l : length o.result.confirmed_ids ≡ length selected =
            rw (ids) (length-map selected (λ (r : Row). r.id)) in
          absurd (omega (arith, (==_iff (length o.result.confirmed_ids) 0).0 empty)))
        (λ _.
          let gone = delete_confirmed_all selected rows o.after.0 e k in
          rw (ids, gone) (refl, refl))

  send_selected-Drained :
      (env : Environment (List Row × V)) (k : KeepsRows env) (confirms : Confirms env) (u d : Text)
      (c : Client) (selected : List Row) (w : List Row × V)
      → ((x : Text) → has (ids_of selected) x ≡ has (ids_of w.0) x)
      → length selected ≡ length w.0
      → c.store.pending_items_count ≡ length w.0
      → c.store.is_online ≡ true
      → c.store.is_syncing ≡ false
      → NoneNegative selected
      → Drained (send_selected env u d selected c w)
  send_selected-Drained env k confirms u d c [] w e l n online free v =
      (nothing w.0 (sym l), n ∙ sym l)
  send_selected-Drained env k confirms u d c (r ∷ rs) w e l n online free v =
      let requests = map (request_of u d) (r ∷ rs) in
      conclude-Drained c (r ∷ rs) w.0 (sync_local_progress env requests c.store true w) e
        (omega arith) (sync_local_progress-all env confirms u d (r ∷ rs) c.store w online free v)
        (sync_local_progress-Kept env k requests c.store true w)

init_flags :
    (rows : List Row) (c : Client)
    → ((init_local_sync_queue rows c).store.is_online ≡ c.store.is_online)
      × ((init_local_sync_queue rows c).store.is_syncing ≡ c.store.is_syncing)
unfolding init_local_sync_queue count_rows set_pending_count
init_flags rows c =
    if_cases
      (λ (c' : Client).
        (c'.store.is_online ≡ c.store.is_online) × (c'.store.is_syncing ≡ c.store.is_syncing))
      c.in_desktop (λ _. (refl, refl)) (λ _. (refl, refl))

-- When at most fifty events wait, none with negative XP, the shell is online and idle with no game
-- running, a user is logged in and the device has an id, every text is signed, the server confirms
-- every event that it is sent and orders no purge, and nothing but a purge touches the table: one run
-- of `syncLocalQueue` empties the table and shows that nothing waits.
pub sync_local_queue-Drained :
    {V : Type 0} (env : Environment (List Row × V)) (k : KeepsRows env) (confirms : Confirms env)
    (c : Client) (w : List Row × V) (u d : Text)
    → c.in_desktop ≡ true
    → identity c.user c.store.device_id ≡ some (u, d)
    → c.store.is_online ≡ true
    → c.store.is_syncing ≡ false
    → length w.0 ≤ 50
    → NoneNegative w.0
    → Drained (sync_local_queue env c w)
unfolding sync_local_queue
sync_local_queue-Drained env k confirms c w u d desktop known online free few v =
    let key = λ (r : Row). r.created_at in
    let sorted = select_oldest_all w.0 few in
    let flags = init_flags w.0 c in
    if_cases Drained c.in_desktop
      (λ _.
        rw (known, sorted)
          (send_selected-Drained env k confirms u d (init_local_sync_queue w.0 c)
            (sort_by_text key w.0) w (sort_by_text-has key w.0) (length-sort_by_text key w.0)
            (init-counts w.0 c desktop) (flags.0 ∙ online) (flags.1 ∙ free)
            (sort_by_text-NoneNegative key w.0 v)))
      (λ off. absurd cc)
