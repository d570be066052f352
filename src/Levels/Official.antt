-- ===== src/Levels/Official.antt =====
-- frontend/src/features/content/OfficialLevelPage.tsx, finishLevel: an attempt is posted, and kept in the
-- local queue when that fails. `parse_completed` is `CompleteLevelResponseSchema.parse`; the id that
-- `randomUUID` draws and the two readings of the clock are arguments. The queue sees the stores of the
-- session through `client_of`.
use usbi.Prelude.{Bool, true, false, ◌||◌, not, Option, none, some, List, if◌then◌else◌}
use usbi.Prelude.Int.{ℤ}
use usbi.Prelude.Text.{Text}
use usbi.Session.{App, User, File, Network, ok, refused, unreachable, Answer, api_client}
use usbi.Session.Pages.{request}
use usbi.Sync.{SyncStore, set_device_id}
use usbi.Sync.Queue.{Row, Client, enqueue_progress, build_attempt_payload}

-- The page, with the level that it has loaded.
pub record LevelPage (R : Type 0) : Type 0 where
  pub level_id : Option Text
  pub is_published : Bool
  pub submitted : Bool
  pub result : Option R
  pub save_error : Bool

-- What a call of `crypto.randomUUID` and two of `new Date` give.
pub record Drawn : Type 0 where
  pub uuid : Text
  pub now : Text
  pub today : Text

pub record Device (Raw N : Type 0) : Type 0 where
  pub app : App Raw
  pub store : SyncStore
  pub rows : List Row
  pub network : N

abbrev pub user_id : Option User → Option Text
user_id none = none
user_id (some user) = some user.id

abbrev pub client_of : {Raw : Type 0} → App Raw → SyncStore → Client
client_of app store = record {
  in_desktop = app.in_desktop;
  user = user_id app.auth.user;
  store = set_device_id app.device_id store;
}

module _ {B N Raw R : Type 0} (network : Network B N) (file : File Raw)
    (parse_completed : B → Option R) (complete_url : Text → Text) where
  -- The `catch` block.
  unfoldable pub keep_attempt :
      Drawn → Text → ℤ → LevelPage R → App Raw → Device Raw N → N → LevelPage R × Device Raw N
  keep_attempt drawn id score page app dev n =
      let queued =
        enqueue_progress drawn.uuid drawn.now (build_attempt_payload drawn.today id true score)
          (client_of app dev.store) dev.rows in
      (
        record page { save_error = true },
        record { app = app; store = queued.0.store; rows = queued.1; network = n },
      )

  abbrev pub save_parsed :
      Option R
      → Drawn
      → Text
      → ℤ
      → LevelPage R
      → App Raw
      → Device Raw N
      → N
      → LevelPage R × Device Raw N
  save_parsed none drawn id score page app dev n = keep_attempt drawn id score page app dev n
  save_parsed (some r) drawn id score page app dev n =
      (record page { result = some r }, record dev { app = app; network = n })

  abbrev pub save_answer :
      Option (Answer network file)
      → Drawn
      → Text
      → ℤ
      → LevelPage R
      → Device Raw N
      → Option (LevelPage R × Device Raw N)
  save_answer none drawn id score page dev = none
  save_answer (some (ok body, (app, n))) drawn id score page dev =
      some (save_parsed (parse_completed body) drawn id score page app dev n)
  save_answer (some (refused status, (app, n))) drawn id score page dev =
      some (keep_attempt drawn id score page app dev n)
  save_answer (some (unreachable, (app, n))) drawn id score page dev =
      some (keep_attempt drawn id score page app dev n)

  abbrev pub finish_as :
      Option Text → Drawn → ℤ → LevelPage R → Device Raw N → Option (LevelPage R × Device Raw N)
  finish_as none drawn score page dev = some (page, dev)
  finish_as (some id) drawn score page dev =
      if page.submitted || not page.is_published
      then some (page, dev)
      else save_answer
          (api_client network file 2 false (request (complete_url id)) dev.app dev.network) drawn id
          score (record page { submitted = true; save_error = false }) dev

  unfoldable pub finish_level :
      Drawn → ℤ → LevelPage R → Device Raw N → Option (LevelPage R × Device Raw N)
  finish_level drawn score page dev = finish_as page.level_id drawn score page dev
