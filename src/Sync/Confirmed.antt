-- ===== src/Sync/Confirmed.antt =====
-- syncEngine.ts, syncLocalProgress: which events count as confirmed, and that the flag is cleared.
use usbi.Prelude.{
  ◌≡◌, ◌≤◌, refl, Bool, true, false, ◌||◌, not, Option, none, some, List, [], ◌∷◌, map, ==_iff,
  if◌then◌else◌, length, arith, inl, inr, ◌⊎◌, if_cases, Bool-cases,
}
use usbi.Prelude.Text.{Text}
use usbi.Sync.{
  SyncEventRequest, Environment, SyncStore, Reply, got, threw, Ended, Outcome, Failure, idle,
  set_syncing, has_invalid_xp, is_confirmed, confirm, purged, after_reply, after_signature,
  fetch_with_retry, build_signed_request, send_all, settle, is_active, sync_local_progress,
}

abbrev pub id_of : SyncEventRequest → Text
id_of r = r.sync_event_id

-- The ids belong to some of the requests, in their order, and none of these has negative XP.
abbrev pub Among : List Text → List SyncEventRequest → Type 0
Among [] rs = Unit {0}
Among (i ∷ is) [] = ⊥
Among (i ∷ is) (r ∷ rs) =
    ((i ≡ r.sync_event_id) × (has_invalid_xp r ≡ false) × Among is rs) ⊎ Among (i ∷ is) rs

Among-skip :
    (is : List Text) (r : SyncEventRequest) (rs : List SyncEventRequest)
    → Among is rs
    → Among is (r ∷ rs)
Among-skip [] r rs a = tt
Among-skip (i ∷ is) r rs a = inr a

Among-le : (is : List Text) (rs : List SyncEventRequest) → Among is rs → length is ≤ length rs
Among-le [] rs a = omega arith
Among-le (i ∷ is) [] a = elim a [ ]
Among-le (i ∷ is) (r ∷ rs) (inl (e, v, a)) = omega (arith, Among-le is rs a)
Among-le (i ∷ is) (r ∷ rs) (inr a) = omega (arith, Among-le (i ∷ is) rs a)

-- As many ids as requests are all of them.
Among-all :
    (is : List Text) (rs : List SyncEventRequest)
    → Among is rs
    → length is ≡ length rs
    → is ≡ map id_of rs
Among-all [] [] a h = refl
Among-all [] (r ∷ rs) a h = absurd (omega arith)
Among-all (i ∷ is) [] a h = elim a [ ]
Among-all (i ∷ is) (r ∷ rs) (inl (e, v, a)) h = rw (e, Among-all is rs a (omega arith)) refl
Among-all (i ∷ is) (r ∷ rs) (inr a) h = absurd (omega (arith, Among-le (i ∷ is) rs a))

module _ {W : Type 0} (env : Environment W) where
  confirm-Among :
      (b : Bool) (r : SyncEventRequest) (rs : List SyncEventRequest) (e : Ended W)
      → has_invalid_xp r ≡ false
      → Among e.confirmed rs
      → Among (confirm b r.sync_event_id e).confirmed (r ∷ rs)
  confirm-Among true r rs e v a = inl (refl, v, a)
  confirm-Among false r rs e v a = Among-skip e.confirmed r rs a

  purged-Among : (o : Bool × W) (rs : List SyncEventRequest) → Among (purged o).confirmed rs
  purged-Among (true, w) rs = tt
  purged-Among (false, w) rs = tt

  after_reply-Among :
      (r : SyncEventRequest) (rs : List SyncEventRequest) (reply : Reply × W) (next : W → Ended W)
      → has_invalid_xp r ≡ false
      → ((w : W) → Among (next w).confirmed rs)
      → Among (after_reply env r reply next).confirmed (r ∷ rs)
  after_reply-Among r rs (threw f, w) next v a = tt
  after_reply-Among r rs (got response, w) next v a =
      confirm-Among (is_confirmed response.status) r rs
        (if response.wipe_local_data then purged (env.wipe_local_data w) else next w) v
        (if_cases (λ (e : Ended W). Among e.confirmed rs) response.wipe_local_data
          (λ _. purged-Among (env.wipe_local_data w) rs) (λ _. a w))

  after_signature-Among :
      (r : SyncEventRequest) (rs : List SyncEventRequest) (signed : Option Text × W)
      (next : W → Ended W)
      → has_invalid_xp r ≡ false
      → ((w : W) → Among (next w).confirmed rs)
      → Among (after_signature env r signed next).confirmed (r ∷ rs)
  after_signature-Among r rs (none, w) next v a = tt
  after_signature-Among r rs (some signature, w) next v a =
      after_reply-Among r rs (fetch_with_retry env 2 (record r { hmac_signature = signature }) w)
        next v a

  send_all-Among : (rs : List SyncEventRequest) (w : W) → Among (send_all env rs w).confirmed rs
  unfolding send_all
  send_all-Among [] w = tt
  send_all-Among (r ∷ rs) w =
      if_cases (λ (e : Ended W). Among e.confirmed (r ∷ rs)) (has_invalid_xp r)
        (λ _. Among-skip (send_all env rs w).confirmed r rs (send_all-Among rs w))
        (λ v.
          after_signature-Among r rs (build_signed_request env r w) (send_all env rs) v
            (λ w'. send_all-Among rs w'))

-- What a run promises of its outcome: the ids confirmed belong to requests without negative XP, in
-- their order; a run that says that it is complete has confirmed every request.
pub record Promises {W : Type 0} (rs : List SyncEventRequest) (o : Outcome W) : Type 0 where
  pub among : Among o.result.confirmed_ids rs
  pub complete : o.result.completed ≡ true → o.result.confirmed_ids ≡ map id_of rs

thrown-Promises :
    {W : Type 0} (rs : List SyncEventRequest) (s : SyncStore) (logged_in : Bool) (ids : List Text)
    (t : Option Failure) (w : W)
    → Among ids rs
    → Promises rs (settle rs s logged_in (record { confirmed = ids; thrown = t; world = w }))
thrown-Promises rs s logged_in ids none w a = record {
  among = a;
  complete = λ h. Among-all ids rs a ((==_iff (length ids) (length rs)).0 h);
}
thrown-Promises rs s logged_in ids (some f) w a = record { among = a; complete = λ h. cc }

pub sync_local_progress-Promises :
    {W : Type 0} (env : Environment W) (requests : List SyncEventRequest) (s : SyncStore)
    (logged_in : Bool) (w : W)
    → let o = sync_local_progress env requests s logged_in w in
      Promises requests o
      × ((o.store.is_syncing ≡ false)
          ⊎ ((s.is_syncing ≡ true) × (o.store ≡ s) × (o.result.confirmed_ids ≡ [])))
unfolding sync_local_progress set_syncing
sync_local_progress-Promises {W} env requests s logged_in w =
    let P : Outcome W → Type 0 = λ o.
      Promises requests o
      × ((o.store.is_syncing ≡ false)
          ⊎ ((s.is_syncing ≡ true) × (o.store ≡ s) × (o.result.confirmed_ids ≡ []))) in
    let nothing : (l : W) → Promises requests (idle s logged_in l) =
      λ l. record { among = tt; complete = λ h. cc } in
    let asked = env.get_game_status w in
    let stopped : (l : W) → P (idle s logged_in l) = λ l. (
      nothing l,
      elim (Bool-cases s.is_syncing) [ inl busy ↦ inr (busy, refl, refl) | inr free ↦ inl free ],
    ) in
    let sent = send_all env requests asked.1 in
    if_cases P (s.is_syncing || not s.is_online) (λ _. stopped w)
      (λ _.
        if_cases P (is_active asked.0) (λ _. stopped asked.1)
          (λ _. (
            thrown-Promises requests (set_syncing true s) logged_in sent.confirmed sent.thrown
                sent.world (send_all-Among env requests asked.1),
            inl refl,
          )))
