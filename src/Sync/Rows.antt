-- ===== src/Sync/Rows.antt =====
-- localSyncQueue.ts: what a run of syncLocalProgress does to the table of waiting events.
use usbi.Prelude.{
  ◌≡◌, refl, ℕ, zero, suc, Bool, true, false, ◌||◌, not, Option, none, some, List, [], ◌∷◌,
  if◌then◌else◌, inl, inr, ◌⊎◌, if_cases, ◌∙◌,
}
use usbi.Prelude.Text.{Text}
use usbi.Sync.{
  SyncEventRequest, Environment, SyncStore, Reply, got, threw, Ended, Outcome, unauthorized, failed,
  has_invalid_xp, is_confirmed, confirm, purged, retry, after_reply, after_signature,
  fetch_with_retry, build_signed_request, send_all, is_active, sync_local_progress,
}
use usbi.Sync.Queue.{Row}

-- What the calls of the environment do to the table: only the purge changes it, and it empties it.
pub record KeepsRows {V : Type 0} (env : Environment (List Row × V)) : Type 0 where
  pub status : (w : List Row × V) → (env.get_game_status w).1.0 ≡ w.0
  pub sign : (t : Text) (w : List Row × V) → (env.sign_payload t w).1.0 ≡ w.0
  pub posts : (r : SyncEventRequest) (w : List Row × V) → (env.post r w).1.0 ≡ w.0
  pub wipe :
      (w : List Row × V) → ((env.wipe_local_data w).1.0 ≡ w.0) ⊎ ((env.wipe_local_data w).1.0 ≡ [])

-- The table is as it was, or the purge has emptied it.
abbrev pub Kept : List Row → List Row → Type 0
Kept rows rows' = (rows' ≡ rows) ⊎ (rows' ≡ [])

module _ {V : Type 0} (env : Environment (List Row × V)) (k : KeepsRows env) where
  retry-rows :
      (left : ℕ) (reply : Reply × (List Row × V)) (again : List Row × V → Reply × (List Row × V))
      → ((w : List Row × V) → (again w).1.0 ≡ w.0)
      → (retry left reply again).1.0 ≡ reply.1.0
  retry-rows left (got r, w) again h = refl
  retry-rows left (threw unauthorized, w) again h = refl
  retry-rows zero (threw failed, w) again h = refl
  retry-rows (suc left) (threw failed, w) again h = h w

  pub fetch_with_retry-rows :
      (left : ℕ) (r : SyncEventRequest) (w : List Row × V)
      → (fetch_with_retry env left r w).1.0 ≡ w.0
  unfolding fetch_with_retry
  fetch_with_retry-rows zero r w =
      retry-rows zero (env.post r w) (λ w'. (threw failed, w')) (λ w'. refl) ∙ k.posts r w
  fetch_with_retry-rows (suc left) r w =
      retry-rows (suc left) (env.post r w) (fetch_with_retry env left r)
        (fetch_with_retry-rows left r)
      ∙ k.posts r w

  confirm-world : (b : Bool) (t : Text) (e : Ended (List Row × V)) → (confirm b t e).world ≡ e.world
  confirm-world true t e = refl
  confirm-world false t e = refl

  purged-world : (o : Bool × (List Row × V)) → (purged o).world ≡ o.1
  purged-world (true, w) = refl
  purged-world (false, w) = refl

  abbrev KeptFrom : List Row → (List Row × V → Ended (List Row × V)) → Type 0
  KeptFrom rows next = (w : List Row × V) → w.0 ≡ rows → Kept rows (next w).world.0

  after_reply-Kept :
      (rows : List Row) (r : SyncEventRequest) (reply : Reply × (List Row × V))
      (next : List Row × V → Ended (List Row × V))
      → reply.1.0 ≡ rows
      → KeptFrom rows next
      → Kept rows (after_reply env r reply next).world.0
  after_reply-Kept rows r (threw f, w) next e h = inl e
  after_reply-Kept rows r (got response, w) next e h =
      rw
        (confirm-world (is_confirmed response.status) r.sync_event_id
          (if response.wipe_local_data then purged (env.wipe_local_data w) else next w))
        (if_cases (λ (x : Ended (List Row × V)). Kept rows x.world.0) response.wipe_local_data
          (λ _.
            rw (purged-world (env.wipe_local_data w))
              (elim (k.wipe w) [ inl same ↦ inl (same ∙ e) | inr gone ↦ inr gone ]))
          (λ _. h w e))

  after_signature-Kept :
      (rows : List Row) (r : SyncEventRequest) (signed : Option Text × (List Row × V))
      (next : List Row × V → Ended (List Row × V))
      → signed.1.0 ≡ rows
      → KeptFrom rows next
      → Kept rows (after_signature env r signed next).world.0
  after_signature-Kept rows r (none, w) next e h = inl e
  after_signature-Kept rows r (some t, w) next e h =
      let signed : SyncEventRequest = record r { hmac_signature = t } in
      after_reply-Kept rows r (fetch_with_retry env 2 signed w) next
        (fetch_with_retry-rows 2 signed w ∙ e) h

  send_all-Kept : (rows : List Row) (rs : List SyncEventRequest) → KeptFrom rows (send_all env rs)
  unfolding send_all build_signed_request
  send_all-Kept rows [] w e = inl e
  send_all-Kept rows (r ∷ rs) w e =
      if_cases (λ (x : Ended (List Row × V)). Kept rows x.world.0) (has_invalid_xp r)
        (λ _. send_all-Kept rows rs w e)
        (λ _.
          after_signature-Kept rows r (build_signed_request env r w) (send_all env rs)
            (k.sign _ w ∙ e) (send_all-Kept rows rs))

  pub sync_local_progress-Kept :
      (rs : List SyncEventRequest) (s : SyncStore) (l : Bool) (w : List Row × V)
      → Kept w.0 (sync_local_progress env rs s l w).after.0
  unfolding sync_local_progress
  sync_local_progress-Kept rs s l w =
      let P : Outcome (List Row × V) → Type 0 = λ o. Kept w.0 o.after.0 in
      let asked = env.get_game_status w in
      if_cases P (s.is_syncing || not s.is_online) (λ _. inl refl)
        (λ _.
          if_cases P (is_active asked.0) (λ _. inl (k.status w))
            (λ _. send_all-Kept w.0 rs asked.1 (k.status w)))
