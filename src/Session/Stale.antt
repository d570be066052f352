-- ===== src/Session/Stale.antt =====
-- ProfilePage.tsx, handleAgeUp: the session that it writes when its own request renewed the tokens.
use usbi.Prelude.{◌≡◌, refl, ap, sym, ◌∙◌, true, Option, none, some, if_cases}
use mathlib.Core.Path.{subst}
use mathlib.Core.Option.{some_inj}
use usbi.Prelude.Text.{Text}
use usbi.Session.{
  App, User, active, File, Network, Response, ok, refused, unreachable, AuthResponse, Answer,
  StoredSession, truthy, with_token, accept, login, update_user, persist_secure_session,
  parse_refresh,
}
use usbi.Session.Pages.{request, after_age_up, age_up_as, handle_age_up}
use usbi.Session.Rejected.{accept-desktop}
use usbi.Session.Retry.{
  settled, after_refresh, after_recovery, after_first, requested, api_client-requested,
}

-- The request with the first token is refused by a 401, its refresh token is exchanged for the session
-- `a`, and the request with the new token is answered.
pub record Renews {B N : Type 0} (network : Network B N) (url token refresh_token : Text)
    (a : AuthResponse) : Type 0 where
  pub body : B
  pub answer : B
  pub expired : (n : N) → (network.send (with_token (some token) (request url)) n).0 ≡ refused 401
  pub renewed : (n : N) → (network.post_refresh refresh_token n).0 ≡ ok body
  pub parsed : network.parse_auth body ≡ some a
  pub answered :
      (n : N) → (network.send (with_token (some a.access_token) (request url)) n).0 ≡ ok answer
  pub fresh : truthy (some a.access_token) ≡ some a.access_token

module _ {B N Raw : Type 0} (network : Network B N) (file : File Raw) where
  -- The request ended well and left this state.
  abbrev Leaves : App Raw → B → Answer network file → Type 0
  Leaves app b x = (x.0 ≡ ok b) × (x.1.0 ≡ app)

  settled-Leaves :
      (app : App Raw) (x : Response B × N) (b : B)
      → x.0 ≡ ok b
      → Leaves app b (settled network file app x)
  settled-Leaves app (ok b', n) b e = (e, refl)
  settled-Leaves app (refused s, n) b e = absurd cc
  settled-Leaves app (unreachable, n) b e = absurd cc

  persist-token :
      (s : StoredSession) (app : App Raw)
      → (persist_secure_session file s app).auth.token ≡ app.auth.token
  unfolding persist_secure_session
  persist-token s app =
      if_cases (λ (app' : App Raw). app'.auth.token ≡ app.auth.token) app.in_desktop (λ _. refl)
        (λ _. refl)

  persist-stored :
      (s : StoredSession) (app : App Raw)
      → app.in_desktop ≡ true
      → (persist_secure_session file s app).stored ≡ some (file.to_raw s)
  unfolding persist_secure_session
  persist-stored s app desktop =
      if_cases (λ (app' : App Raw). app'.stored ≡ some (file.to_raw s)) app.in_desktop (λ _. refl)
        (λ off. absurd cc)

  module _ (url token refresh_token : Text) (a : AuthResponse)
      (h : Renews network url token refresh_token a) where
    accept-token : (app : App Raw) → (accept file a app).auth.token ≡ some a.access_token
    unfolding accept persist_secure_session login
    accept-token app =
        if_cases (λ (app' : App Raw). app'.auth.token ≡ some a.access_token) app.in_desktop
          (λ _. refl) (λ _. refl)

    after_refresh-Leaves :
        (app : App Raw) (o : Option AuthResponse) (n : N)
        → o ≡ some a
        → Leaves
            (accept file a app)
            h.answer
            (after_refresh network file (with_token (some token) (request url)) 401 app o n)
    unfolding accept persist_secure_session
    after_refresh-Leaves app none n e = absurd cc
    after_refresh-Leaves app (some a') n e =
        let same : a' ≡ a = some_inj.0 e in
        let app' = accept file a app in
        rw (same, accept-token app, h.fresh)
          (settled-Leaves app' (network.send (with_token (some a.access_token) (request url)) n)
            h.answer (h.answered n))

    after_recovery-Leaves :
        (app : App Raw) (n : N)
        → Leaves (accept file a app) h.answer (
            after_recovery network file
              (with_token (some token) (request url))
              401
              app
              (some refresh_token)
              n)
    after_recovery-Leaves app n =
        after_refresh-Leaves app
          (parse_refresh network file (network.post_refresh refresh_token n).0)
          (network.post_refresh refresh_token n).1 (rw (h.renewed n) h.parsed)

    after_first-Leaves :
        (app : App Raw) (x : Response B × N)
        → x.0 ≡ refused 401
        → truthy app.auth.refresh_token ≡ some refresh_token
        → Leaves
            (accept file a app)
            h.answer
            (after_first network file (with_token (some token) (request url)) app x)
    after_first-Leaves app (ok b, n) e r = absurd cc
    after_first-Leaves app (unreachable, n) e r = absurd cc
    after_first-Leaves app (refused s, n) e r =
        let same : s ≡ 401 = cc in rw (same, r) (after_recovery-Leaves app n)

    after_age_up-stored :
        (user : User) (refresh device : Option Text) (app : App Raw) (x : Answer network file)
        → app.in_desktop ≡ true
        → Leaves (accept file a app) h.answer x
        → (o : App Raw × N) × (after_age_up network file user token refresh device (some x)
            ≡ some o)
          × (o.0.auth.token ≡ some a.access_token)
          × (o.0.stored
              ≡ some (
                  file.to_raw (record {
                    user = record user { is_adult = true; status = active };
                    token = token;
                    refresh_token = refresh;
                    device_id = device;
                  })))
    unfolding update_user
    after_age_up-stored user refresh device app (ok b, (app', n)) desktop (e, same) =
        let updated : User = record user { is_adult = true; status = active } in
        let s : StoredSession = record {
          user = updated;
          token = token;
          refresh_token = refresh;
          device_id = device;
        } in
        let app'' = record app' { auth = update_user updated app'.auth } in
        (
          (persist_secure_session file s app'', n),
          refl,
          persist-token s app'' ∙ ap (λ (x : App Raw). x.auth.token) same ∙ accept-token app,
          persist-stored s app'' (
              ap (λ (x : App Raw). x.in_desktop) same
              ∙ accept-desktop network file a app
              ∙ desktop),
        )
    after_age_up-stored user refresh device app (refused s, (app', n)) desktop (e, same) = absurd cc
    after_age_up-stored user refresh device app (unreachable, (app', n)) desktop (e, same) =
        absurd cc

-- When the request of `handleAgeUp` finds the access token expired and renews it, and is then answered:
-- the store holds the new token, but the file is written with the access and the refresh token that the
-- page was drawn with, which the refresh has replaced.
pub age_up_keeps_old_tokens :
    {B N Raw : Type 0} (network : Network B N) (file : File Raw) (app : App Raw) (n : N)
    (url : Text) (user : User) (token refresh_token : Text) (a : AuthResponse)
    → Renews network url token refresh_token a
    → app.in_desktop ≡ true
    → app.auth.user ≡ some user
    → truthy app.auth.token ≡ some token
    → truthy app.auth.refresh_token ≡ some refresh_token
    → (o : App Raw × N) × (handle_age_up network file url app n ≡ some o)
      × (o.0.auth.token ≡ some a.access_token)
      × (o.0.stored
          ≡ some (
              file.to_raw (record {
                user = record user { is_adult = true; status = active };
                token = token;
                refresh_token = app.auth.refresh_token;
                device_id = app.device_id;
              })))
unfolding handle_age_up
age_up_keeps_old_tokens network file app n url user token refresh_token a h desktop u t r =
    let x = requested network file (request url) app n in
    let leaves =
      subst
        (λ (tok : Option Text).
          let r' = with_token tok (request url) in
          Leaves network file (accept file a app) h.answer
            (after_first network file r' app (network.send r' n)))
        (sym t)
        (after_first-Leaves network file url token refresh_token a h app
          (network.send (with_token (some token) (request url)) n) (h.expired n) r) in
    let as_user = λ (u' : Option User) (t' : Option Text).
      age_up_as network file u' t' app.auth.refresh_token app.device_id url app n in
    let (o, ended, new, old) =
      after_age_up-stored network file url token refresh_token a h user app.auth.refresh_token
        app.device_id app x desktop leaves in
    (
      o,
      ap (λ u'. as_user u' (truthy app.auth.token)) u
          ∙ ap (as_user (some user)) t
          ∙ ap (after_age_up network file user token app.auth.refresh_token app.device_id)
              (api_client-requested network file 0 (request url) app n)
          ∙ ended,
      new,
      old,
    )
