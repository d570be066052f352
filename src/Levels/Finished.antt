-- ===== src/Levels/Finished.antt =====
-- OfficialLevelPage.tsx, finishLevel: what becomes of an attempt, together with the session and the queue.
use usbi.Prelude.{
  ◌≡◌, refl, ap, ◌∙◌, ℕ, Bool, true, false, ◌||◌, not, Option, none, some, List, ◌==◌, if_cases,
  arith,
}
use usbi.Prelude.Int.{ℤ}
use usbi.Prelude.Text.{Text}
use usbi.Session.{File, Network, Response, ok, refused, unreachable, Answer, api_client}
use usbi.Session.Pages.{request}
use usbi.Session.Rejected.{rejected-SignedOut}
use usbi.Sync.{SyncPayload}
use usbi.Sync.Queue.{Row, Client, identity, enqueue_progress, build_attempt_payload}
use usbi.Levels.Official.{
  LevelPage, Drawn, Device, user_id, client_of, keep_attempt, save_answer, finish_as, finish_level,
}

-- The row that keeps the attempt.
abbrev pub row_of : Drawn → Text → Text → Text → ℤ → Row
row_of drawn user device id score = record {
  id = drawn.uuid;
  user_id = user;
  device_id = device;
  payload = build_attempt_payload drawn.today id true score;
  created_at = drawn.now;
}

enqueue-drops :
    (uuid now : Text) (payload : SyncPayload) (c : Client) (rows : List Row)
    → c.user ≡ none
    → (enqueue_progress uuid now payload c rows).1 ≡ rows
unfolding enqueue_progress
enqueue-drops uuid now payload c rows out =
    let nobody : identity c.user c.store.device_id ≡ none =
      ap (λ u. identity u c.store.device_id) out in
    if_cases (λ (o : Client × List Row). o.1 ≡ rows) c.in_desktop (λ _. rw (nobody) refl)
      (λ _. refl)

abbrev pub is_ok : {B : Type 0} → Response B → Bool
is_ok (ok b) = true
is_ok (refused s) = false
is_ok unreachable = false

-- A page that has not submitted yet, on a published level.
pub record Ready {R : Type 0} (id : Text) (page : LevelPage R) : Type 0 where
  pub loaded : page.level_id ≡ some id
  pub published : page.is_published ≡ true
  pub fresh : page.submitted ≡ false

module _ {B N Raw R : Type 0} (network : Network B N) (file : File Raw)
    (parse_completed : B → Option R) (complete_url : Text → Text) where
  save_answer-failed :
      (a : Answer network file) (drawn : Drawn) (id : Text) (score : ℤ) (page : LevelPage R)
      (dev : Device Raw N)
      → is_ok a.0 ≡ false
      → save_answer network file parse_completed complete_url (some a) drawn id score page dev
        ≡ some (
            keep_attempt network file parse_completed complete_url drawn id score page a.1.0 dev
              a.1.1)
  save_answer-failed (ok b, (app, n)) drawn id score page dev h = absurd cc
  save_answer-failed (refused s, (app, n)) drawn id score page dev h = refl
  save_answer-failed (unreachable, (app, n)) drawn id score page dev h = refl

  finish_level-failed :
      (drawn : Drawn) (id : Text) (score : ℤ) (page : LevelPage R) (dev : Device Raw N)
      (a : Answer network file)
      → Ready id page
      → api_client network file 2 false (request (complete_url id)) dev.app dev.network ≡ some a
      → is_ok a.0 ≡ false
      → finish_level network file parse_completed complete_url drawn score page dev
        ≡ some (
            keep_attempt network file parse_completed complete_url drawn id score
              (record page { submitted = true; save_error = false })
              a.1.0
              dev
              a.1.1)
  unfolding finish_level
  finish_level-failed drawn id score page dev a ready returned failed =
      let page' = record page { submitted = true; save_error = false } in
      let kept =
        keep_attempt network file parse_completed complete_url drawn id score page' a.1.0 dev
          a.1.1 in
      let saved = λ (x : Option (Answer network file)).
        save_answer network file parse_completed complete_url x drawn id score page' dev in
      ap (λ l. finish_as network file parse_completed complete_url l drawn score page dev)
        ready.loaded
      ∙ if_cases (λ (o : Option (LevelPage R × Device Raw N)). o ≡ some kept)
          (page.submitted || not page.is_published)
          (λ h. absurd (ground (arith, ready.fresh, ready.published)))
          (λ _. ap saved returned ∙ save_answer-failed a drawn id score page' dev failed)

-- On a published level, in the desktop shell, when the request of `finishLevel` ends with a 401 or a 403:
-- the page reports the error, but the attempt is not put into the local queue, since the user has been
-- logged out by then.
pub expired_attempt_is_lost :
    {B N Raw R : Type 0} (network : Network B N) (file : File Raw) (parse_completed : B → Option R)
    (complete_url : Text → Text) (drawn : Drawn) (id : Text) (score : ℤ) (page : LevelPage R)
    (dev : Device Raw N) (a : Answer network file) (status : ℕ)
    → Ready id page
    → api_client network file 2 false (request (complete_url id)) dev.app dev.network ≡ some a
    → a.0 ≡ refused status
    → (status == 401 || status == 403) ≡ true
    → dev.app.in_desktop ≡ true
    → (o : LevelPage R × Device Raw N) × (finish_level network file parse_completed complete_url
          drawn score page dev
        ≡ some o)
      × (o.1.rows ≡ dev.rows)
      × (o.0.save_error ≡ true)
      × (o.0.submitted ≡ true)
unfolding keep_attempt
expired_attempt_is_lost network file parse_completed complete_url drawn id score page dev a status
      ready returned e h desktop =
    let out =
      rejected-SignedOut network file 0 (request (complete_url id)) dev.app dev.network a status
        returned e h desktop in
    (
      keep_attempt network file parse_completed complete_url drawn id score
          (record page { submitted = true; save_error = false }) a.1.0 dev a.1.1,
      finish_level-failed network file parse_completed complete_url drawn id score page dev a ready
          returned (ap is_ok e),
      enqueue-drops drawn.uuid drawn.now (build_attempt_payload drawn.today id true score)
          (client_of a.1.0 dev.store) dev.rows (ap (λ x. user_id x.user) out.0),
      refl,
      refl,
    )
