-- ===== src/Sync/Removal.antt =====
-- localSyncQueue.ts, syncLocalQueue: which rows leave the table, and the count that is shown.
use usbi.Prelude.{
  ◌≡◌, refl, Bool, true, false, ◌&&◌, ==_iff, not, some, List, [], ◌∷◌, map, ◌==◌, length, take,
  arith, inl, inr, ◌⊎◌, if_cases, Bool-cases, ◌∙◌, ap, sym,
}
use usbi.Prelude.Sets.{keep}
use usbi.Prelude.Text.{Text, eq_text, eq_text→eq, eq_text-sym}
use usbi.Sync.{Environment, Outcome, set_pending_count, sync_local_progress}
use usbi.Sync.Confirmed.{Among, sync_local_progress-Promises}
use usbi.Sync.Queue.{
  Row, Client, identity, count_rows, init_local_sync_queue, select_oldest, request_of, has,
  delete_row, delete_confirmed, conclude, send_selected, sync_local_queue,
}
use usbi.Prelude.TextOrder.{sort_by_text}
use usbi.Sync.Ordered.{ids_of, length-sort_by_text}
use usbi.Sync.Rows.{KeepsRows, Kept, sync_local_progress-Kept}

abbrev pub unconfirmed : List Text → Row → Bool
unconfirmed ids r = not (has ids r.id)

keep-keep :
    (p q : Row → Bool) (rows : List Row) → keep p (keep q rows) ≡ keep (λ r. q r && p r) rows
unfolding keep
keep-keep p q [] = refl
keep-keep p q (r ∷ rows) = ground (arith, keep-keep p q rows)

keep_congr :
    (p q : Row → Bool) (rows : List Row) → ((r : Row) → p r ≡ q r) → keep p rows ≡ keep q rows
unfolding keep
keep_congr p q [] h = refl
keep_congr p q (r ∷ rows) h = ground (arith, keep_congr p q rows h, h r)

keep_all : (p : Row → Bool) (rows : List Row) → ((r : Row) → p r ≡ true) → keep p rows ≡ rows
unfolding keep
keep_all p [] h = refl
keep_all p (r ∷ rows) h = ground (arith, keep_all p rows h, h r)

has_congr : (ids : List Text) (s t : Text) → eq_text s t ≡ true → has ids s ≡ has ids t
has_congr ids s t h = ap (has ids) (eq_text→eq s t h)

abbrev pub remains : List Text → List Row → Row → Bool
remains ids selected r = not (has ids r.id && has (ids_of selected) r.id)

remains-deleted :
    (ids : List Text) (s : Row) (selected : List Row) (r : Row)
    → has ids s.id ≡ true
    → (not (eq_text r.id s.id) && remains ids selected r) ≡ remains ids (s ∷ selected) r
unfolding has
remains-deleted ids s selected r h = ground (arith, has_congr ids s.id r.id, eq_text-sym r.id s.id)

remains_kept :
    (ids : List Text) (s : Row) (selected : List Row) (r : Row)
    → has ids s.id ≡ false
    → remains ids selected r ≡ remains ids (s ∷ selected) r
unfolding has
remains_kept ids s selected r h = ground (arith, has_congr ids s.id r.id)

pub delete_confirmed-keep :
    (ids : List Text) (selected rows : List Row)
    → delete_confirmed ids selected rows ≡ keep (remains ids selected) rows
unfolding delete_confirmed has delete_row
delete_confirmed-keep ids [] rows = sym (keep_all (remains ids []) rows (λ r. ground arith))
delete_confirmed-keep ids (s ∷ selected) rows = elim (Bool-cases (has ids s.id)) [
  | inl h ↦
      rw
        (
          h,
          delete_confirmed-keep ids selected (delete_row s.id rows),
          keep-keep (remains ids selected) (λ r. not (eq_text r.id s.id)) rows,
        )
        (keep_congr (λ r. not (eq_text r.id s.id) && remains ids selected r)
          (remains ids (s ∷ selected)) rows (λ r. remains-deleted ids s selected r h))
  | inr h ↦
      rw (h, delete_confirmed-keep ids selected rows)
        (keep_congr (remains ids selected) (remains ids (s ∷ selected)) rows
          (λ r. remains_kept ids s selected r h))
]

module _ (u d : Text) where
  Among-has :
      (ids : List Text) (selected : List Row) (x : Text)
      → Among ids (map (request_of u d) selected)
      → has ids x ≡ true
      → has (ids_of selected) x ≡ true
  unfolding has
  Among-has [] selected x a h = cc
  Among-has (i ∷ ids) [] x a h = elim a [ ]
  Among-has (i ∷ ids) (s ∷ selected) x (inl (e, v, a)) h =
      let same : eq_text i x ≡ eq_text s.id x = ap (λ t. eq_text t x) e in
      ground (arith, Among-has ids selected x a)
  Among-has (i ∷ ids) (s ∷ selected) x (inr a) h =
      ground (arith, Among-has (i ∷ ids) selected x a h)

  -- The loop of deletions removes the confirmed rows and no other.
  delete_confirmed-unconfirmed :
      (ids : List Text) (selected rows : List Row)
      → Among ids (map (request_of u d) selected)
      → delete_confirmed ids selected rows ≡ keep (unconfirmed ids) rows
  delete_confirmed-unconfirmed ids selected rows a =
      delete_confirmed-keep ids selected rows
      ∙ keep_congr (remains ids selected) (unconfirmed ids) rows
          (λ r. ground (arith, Among-has ids selected r.id a))

-- What a run leaves of the table `rows`, when `sync_local_progress` has returned `ran`: the rows
-- with the ids that it returned are gone, unless its purge has emptied the table; the returned ids
-- are those of some of the rows sent, without negative XP; and the count that is shown is that of
-- the rows left.
pub record Settled {V : Type 0} (u d : Text) (selected rows : List Row)
    (ran : Outcome (List Row × V)) (o : Client × (List Row × V)) : Type 0 where
  pub among : Among ran.result.confirmed_ids (map (request_of u d) selected)
  pub remaining :
      ((ran.after.0 ≡ rows) × (o.1.0 ≡ keep (unconfirmed ran.result.confirmed_ids) rows))
      ⊎ ((ran.after.0 ≡ []) × (o.1.0 ≡ []))
  pub counted : o.0.store.pending_items_count ≡ length o.1.0

-- What the run of `sync_local_progress` within `sync_local_queue` returns.
abbrev pub sent :
    {V : Type 0}
    → Environment (List Row × V)
    → Text
    → Text
    → Client
    → List Row × V
    → Outcome (List Row × V)
sent env u d c w =
    sync_local_progress env (map (request_of u d) (select_oldest w.0))
      (init_local_sync_queue w.0 c).store true w

keep_none :
    (ids : List Text) (rows : List Row) → length ids ≡ 0 → keep (unconfirmed ids) rows ≡ rows
unfolding has
keep_none [] rows h = keep_all (unconfirmed []) rows (λ r. refl)
keep_none (i ∷ ids) rows h = absurd (omega arith)

take-nil : (rows : List Row) → length (take 50 rows) ≡ 0 → length rows ≡ 0
take-nil [] h = refl
take-nil (r ∷ rows) h = absurd (omega arith)

pub nothing : (rows : List Row) → length rows ≡ 0 → rows ≡ []
nothing [] h = refl
nothing (r ∷ rows) h = absurd (omega arith)

select_oldest-nil : (rows : List Row) → length (select_oldest rows) ≡ 0 → rows ≡ []
unfolding select_oldest
select_oldest-nil rows h =
    let key = λ (r : Row). r.created_at in
    nothing rows (sym (length-sort_by_text key rows) ∙ take-nil (sort_by_text key rows) h)

module _ {V : Type 0} (u d : Text) where
  conclude-Settled :
      (c : Client) (selected rows : List Row) (o : Outcome (List Row × V))
      → Among o.result.confirmed_ids (map (request_of u d) selected)
      → Kept rows o.after.0
      → Settled u d selected rows o (conclude c selected o)
  unfolding count_rows set_pending_count keep
  conclude-Settled c selected rows o a k =
      let ids = o.result.confirmed_ids in
      if_cases (Settled u d selected rows o) (length ids == 0)
        (λ e. record {
          among = a;
          remaining = elim k [
            | inl same ↦ inl (same, same ∙ sym (keep_none ids rows ((==_iff (length ids) 0).0 e)))
            | inr gone ↦ inr (gone, gone)
          ];
          counted = refl;
        })
        (λ _. record {
          among = a;
          remaining = rw (delete_confirmed-unconfirmed u d ids selected o.after.0 a) (elim k [
            | inl same ↦ inl (same, ap (keep (unconfirmed ids)) same)
            | inr gone ↦ inr (gone, ap (keep (unconfirmed ids)) gone)
          ]);
          counted = refl;
        })

  send_selected-Settled :
      (env : Environment (List Row × V)) (k : KeepsRows env) (c : Client) (selected : List Row)
      (w : List Row × V)
      → (length selected ≡ 0 → w.0 ≡ [])
      → c.store.pending_items_count ≡ length w.0
      → Settled u d selected w.0
          (sync_local_progress env (map (request_of u d) selected) c.store true w)
          (send_selected env u d selected c w)
  unfolding keep
  send_selected-Settled env k c [] w none_waits n =
      let empty = none_waits refl in
      let ids = (sync_local_progress env [] c.store true w).result.confirmed_ids in
      record {
        among = (sync_local_progress-Promises env [] c.store true w).0.among;
        remaining = elim (sync_local_progress-Kept env k [] c.store true w) [
          | inl same ↦ inl (same, empty ∙ sym (ap (keep (unconfirmed ids)) empty))
          | inr gone ↦ inr (gone, empty)
        ];
        counted = n;
      }
  send_selected-Settled env k c (r ∷ rs) w none_waits n =
      let requests = map (request_of u d) (r ∷ rs) in
      conclude-Settled c (r ∷ rs) w.0 (sync_local_progress env requests c.store true w)
        (sync_local_progress-Promises env requests c.store true w).0.among
        (sync_local_progress-Kept env k requests c.store true w)

pub init-counts :
    (rows : List Row) (c : Client)
    → c.in_desktop ≡ true
    → (init_local_sync_queue rows c).store.pending_items_count ≡ length rows
unfolding init_local_sync_queue count_rows set_pending_count
init-counts rows c desktop =
    if_cases (λ (c' : Client). c'.store.pending_items_count ≡ length rows) c.in_desktop (λ _. refl)
      (λ off. absurd cc)

-- In the desktop shell, with a user logged in and a device id, and when only the purge touches the
-- table: a run of `syncLocalQueue` removes from the table the rows whose ids `syncLocalProgress`
-- returned as confirmed and no other, keeping the others in their order, or the purge has emptied the
-- table; the returned ids are those of rows among the fifty oldest, without negative XP; and the
-- count shown is that of the rows left.
pub sync_local_queue-Settled :
    {V : Type 0} (env : Environment (List Row × V)) (k : KeepsRows env) (c : Client)
    (w : List Row × V) (u d : Text)
    → c.in_desktop ≡ true
    → identity c.user c.store.device_id ≡ some (u, d)
    → Settled u d (select_oldest w.0) w.0 (sent env u d c w) (sync_local_queue env c w)
unfolding sync_local_queue
sync_local_queue-Settled env k c w u d desktop known =
    if_cases (Settled u d (select_oldest w.0) w.0 (sent env u d c w)) c.in_desktop
      (λ _. rw (known) (
        send_selected-Settled u d env k (init_local_sync_queue w.0 c) (select_oldest w.0) w
          (select_oldest-nil w.0) (init-counts w.0 c desktop)))
      (λ off. absurd cc)
