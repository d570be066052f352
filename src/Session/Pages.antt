-- ===== src/Session/Pages.antt =====
-- The pages that change the session: frontend/src/features/auth/LoginPage.tsx (handleSubmit),
-- frontend/src/features/dashboard/DashboardPage.tsx (handleLogout) and
-- frontend/src/features/profile/ProfilePage.tsx (handleAgeUp). Their messages and navigation are left
-- out; `device_of` reads the id of the new device from a body, and two nested calls of the API client
-- are enough for a request.
use usbi.Prelude.{true, false, Option, none, some}
use usbi.Prelude.Text.{Text}
use usbi.Session.{
  App, User, active, AuthResponse, File, Network, Request, ok, refused, unreachable, Answer, login,
  logout, update_user, truthy, persist_secure_session, clear_secure_session, api_client,
}

abbrev pub request : Text → Request
request url = record { url = url; authorization = none }

module _ {B N Raw : Type 0} (network : Network B N) (file : File Raw) where
  abbrev pub Result : Type 0
  Result = Option (App Raw × N)

  -- What `finally` leads to, whether the request was answered or not.
  abbrev pub after_logout : Option (Answer network file) → Result
  after_logout none = none
  after_logout (some (x, (app, n))) =
      some (clear_secure_session (record app { auth = logout app.auth; device_id = none }), n)

  unfoldable pub handle_logout : Text → App Raw → N → Result
  handle_logout url app n = after_logout (api_client network file 2 false (request url) app n)

  -- `user`, `token`, `refresh_token` and `device_id` are those that the page was drawn with.
  abbrev pub after_age_up :
      User → Text → Option Text → Option Text → Option (Answer network file) → Result
  after_age_up user token refresh_token device_id none = none
  after_age_up user token refresh_token device_id (some (ok body, (app, n))) =
      let updated : User = record user { is_adult = true; status = active } in
      some (
        persist_secure_session file
            (record {
              user = updated;
              token = token;
              refresh_token = refresh_token;
              device_id = device_id;
            })
            (record app { auth = update_user updated app.auth }),
        n,
      )
  after_age_up user token refresh_token device_id (some (refused status, (app, n))) = some (app, n)
  after_age_up user token refresh_token device_id (some (unreachable, (app, n))) = some (app, n)

  abbrev pub age_up_as :
      Option User → Option Text → Option Text → Option Text → Text → App Raw → N → Result
  age_up_as none token refresh_token device_id url app n = some (app, n)
  age_up_as (some user) none refresh_token device_id url app n = some (app, n)
  age_up_as (some user) (some token) refresh_token device_id url app n =
      after_age_up user token refresh_token device_id
        (api_client network file 2 false (request url) app n)

  unfoldable pub handle_age_up : Text → App Raw → N → Result
  handle_age_up url app n =
      age_up_as app.auth.user (truthy app.auth.token) app.auth.refresh_token app.device_id url app n

  module _ (device_of : B → Option Text) where
    abbrev pub after_device : AuthResponse → Option (Answer network file) → Result
    after_device a none = none
    after_device a (some (ok body, (app, n))) = some (
      persist_secure_session file
          (record {
            user = a.user;
            token = a.access_token;
            refresh_token = some a.refresh_token;
            device_id = device_of body;
          })
          (record app { device_id = device_of body }),
      n,
    )
    after_device a (some (refused status, (app, n))) = some (app, n)
    after_device a (some (unreachable, (app, n))) = some (app, n)

    abbrev pub after_auth : Text → Option AuthResponse → App Raw → N → Result
    after_auth devices none app n = some (app, n)
    after_auth devices (some a) app n = after_device a (
        api_client network file 2 false (request devices)
          (record app { auth = login a.user a.access_token (some a.refresh_token) app.auth }) n)

    abbrev pub after_login : Text → Option (Answer network file) → Result
    after_login devices none = none
    after_login devices (some (ok body, (app, n))) =
        after_auth devices (network.parse_auth body) app n
    after_login devices (some (refused status, (app, n))) = some (app, n)
    after_login devices (some (unreachable, (app, n))) = some (app, n)

    unfoldable pub handle_login : Text → Text → App Raw → N → Result
    handle_login url devices app n =
        after_login devices (api_client network file 2 false (request url) app n)
