-- ===== src/Session.antt =====
-- frontend/src/stores/useAuthStore.ts, frontend/src/lib/secureSession.ts and
-- frontend/src/lib/apiClient.ts: who is logged in, the session that the desktop shell keeps in the file
-- usbi-session.json, and the requests that renew it. The file's calls are taken not to fail; `Raw` is
-- what it holds and `safe_parse` is `StoredSessionSchema.safeParse`. A body `B` and a state `N` of the
-- network belong to the server, as does `parse_auth`, which is `AuthResponseSchema.parse`.
mod Examples
pub mod Pages
pub mod Retry
pub mod Rejected
pub mod Agreement
pub mod Runs
pub mod Stale
use usbi.Prelude.{
  ℕ, zero, suc, ◌+◌, Bool, true, false, ◌&&◌, ◌||◌, not, Option, none, some, List, [], ◌∷◌, ◌==◌,
  if◌then◌else◌,
}
use usbi.Prelude.Text.{Text}

pub data UserRole : Type 0 where
  admin operator director player : UserRole

pub data UserStatus : Type 0 where
  active suspended pending_tutor_consent deleted : UserStatus

pub record User : Type 0 where
  pub id : Text
  pub full_name : Text
  pub is_adult : Bool
  pub role : UserRole
  pub status : UserStatus
  pub created_at : Text

pub record AuthState : Type 0 where
  pub user : Option User
  pub token : Option Text
  pub refresh_token : Option Text
  pub is_authenticated : Bool

abbrev pub logged_out : AuthState
logged_out = record { user = none; token = none; refresh_token = none; is_authenticated = false }

unfoldable pub login : User → Text → Option Text → AuthState → AuthState
login user token refresh_token a = record {
  user = some user;
  token = some token;
  refresh_token = refresh_token;
  is_authenticated = true;
}

unfoldable pub update_user : User → AuthState → AuthState
update_user user a = record a { user = some user }

unfoldable pub logout : AuthState → AuthState
logout a = logged_out

pub record StoredSession : Type 0 where
  pub user : User
  pub token : Text
  pub refresh_token : Option Text
  pub device_id : Option Text

-- `notified` counts the events `auth:unauthorized`.
pub record App (Raw : Type 0) : Type 0 where
  pub in_desktop : Bool
  pub auth : AuthState
  pub device_id : Option Text
  pub stored : Option Raw
  pub notified : ℕ

pub record File (Raw : Type 0) : Type 0 where
  pub to_raw : StoredSession → Raw
  pub safe_parse : Raw → Option StoredSession

pub record AuthResponse : Type 0 where
  pub access_token : Text
  pub refresh_token : Text
  pub user : User

pub record Request : Type 0 where
  pub url : Text
  pub authorization : Option Text

-- An answer, an axios error with a status, or one without a response.
pub data Response (B : Type 0) : Type 0 where
  ok : B → Response B
  refused : ℕ → Response B
  unreachable : Response B

pub record Network (B N : Type 0) : Type 0 where
  pub send : Request → N → Response B × N
  pub post_refresh : Text → N → Response B × N
  pub parse_auth : B → Option AuthResponse

-- An empty text is falsy.
abbrev pub truthy : Option Text → Option Text
truthy none = none
truthy (some []) = none
truthy (some (c ∷ cs)) = some (c ∷ cs)

abbrev pub with_token : Option Text → Request → Request
with_token none r = r
with_token (some token) r = record r { authorization = some token }

module _ {Raw : Type 0} (file : File Raw) where
  unfoldable pub persist_secure_session : StoredSession → App Raw → App Raw
  persist_secure_session s app =
      if app.in_desktop then record app { stored = some (file.to_raw s) } else app

module _ {Raw : Type 0} where
  unfoldable pub clear_secure_session : App Raw → App Raw
  clear_secure_session app = if app.in_desktop then record app { stored = none } else app

  -- Logging out, clearing the file and dispatching the event, as the interceptor does at two places.
  unfoldable pub sign_out : App Raw → App Raw
  sign_out app =
      let left = clear_secure_session (record app { auth = logout app.auth }) in
      record left { notified = left.notified + 1 }

  unfoldable pub finish : ℕ → App Raw → App Raw
  finish status app = if status == 401 || status == 403 then sign_out app else app

module _ {Raw : Type 0} (file : File Raw) where
  abbrev pub restore_parsed : Option StoredSession → App Raw → App Raw
  restore_parsed none app = clear_secure_session app
  restore_parsed (some s) app = record app {
    auth = login s.user s.token s.refresh_token app.auth;
    device_id = s.device_id;
  }

  abbrev pub restore_raw : Option Raw → App Raw → App Raw
  restore_raw none app = app
  restore_raw (some raw) app = restore_parsed (file.safe_parse raw) app

  unfoldable pub restore_secure_session : App Raw → App Raw
  restore_secure_session app = if app.in_desktop then restore_raw app.stored app else app

  unfoldable pub accept : AuthResponse → App Raw → App Raw
  accept data_ app =
      persist_secure_session file
        (record {
          user = data_.user;
          token = data_.access_token;
          refresh_token = some data_.refresh_token;
          device_id = app.device_id;
        })
        (record app {
          auth = login data_.user data_.access_token (some data_.refresh_token) app.auth;
        })

module _ {B N Raw : Type 0} (network : Network B N) (file : File Raw) where
  abbrev pub Answer : Type 0
  Answer = Response B × (App Raw × N)

  -- What `AuthResponseSchema.parse` makes of the response of the refresh.
  abbrev pub parse_refresh : Response B → Option AuthResponse
  parse_refresh (ok body) = network.parse_auth body
  parse_refresh (refused status) = none
  parse_refresh unreachable = none

  abbrev pub refreshed :
      (Request → App Raw → N → Option Answer)
      → Request
      → ℕ
      → App Raw
      → Option AuthResponse
      → N
      → Option Answer
  refreshed again r status app none n = some (refused status, (finish status (sign_out app), n))
  refreshed again r status app (some data_) n =
      again (record r { authorization = some data_.access_token }) (accept file data_ app) n

  abbrev pub recover :
      (Request → App Raw → N → Option Answer)
      → Request
      → ℕ
      → App Raw
      → Option Text
      → N
      → Option Answer
  recover again r status app none n = some (refused status, (finish status app, n))
  recover again r status app (some token) n =
      let (response, n') = network.post_refresh token n in
      refreshed again r status app (parse_refresh response) n'

  abbrev pub respond :
      (Request → App Raw → N → Option Answer)
      → Bool
      → Request
      → App Raw
      → Response B × N
      → Option Answer
  respond again retried r app (ok body, n) = some (ok body, (app, n))
  respond again retried r app (unreachable, n) = some (unreachable, (app, n))
  respond again retried r app (refused status, n) =
      recover again r status app
        (if status == 401 && not retried then truthy app.auth.refresh_token else none) n

  -- `retried` is the field `_retry` of the request, which axios keeps; `none` is fuel run out.
  unfoldable pub api_client : ℕ → Bool → Request → App Raw → N → Option Answer
  api_client zero retried r app n = none
  api_client (suc fuel) retried r app n =
      let r' = with_token (truthy app.auth.token) r in
      respond (api_client fuel true) retried r' app (network.send r' n)
