-- ===== src/Session/Runs.antt =====
-- The life of the desktop shell: requests, logouts and restarts in any order.
use mathlib.Core.Path.{subst}
use mathlib.Core.Option.{some_inj}
use usbi.Prelude.{
  ◌≡◌, refl, ap, ◌∙◌, sym, ℕ, suc, Bool, true, false, Option, none, some, if_cases, inl,
}
use usbi.Prelude.Text.{Text}
use usbi.Session.{
  App, StoredSession, File, Network, Request, Answer, logged_out, login, logout,
  clear_secure_session, restore_parsed, restore_raw, restore_secure_session, api_client,
}
use usbi.Session.Pages.{after_logout, handle_logout, request}
use usbi.Session.Retry.{requested, api_client-requested}
use usbi.Session.Rejected.{SignedOut}
use usbi.Session.Agreement.{
  IsValid, Faithful, Validates, loaded, SignedOut-IsValid, api_client-IsValid,
}

-- A restart forgets the stores, which live in memory in the desktop shell, and reads the file.
unfoldable pub restart : {Raw : Type 0} → File Raw → App Raw → App Raw
restart file app = restore_secure_session file (record {
  in_desktop = app.in_desktop;
  auth = logged_out;
  device_id = none;
  stored = app.stored;
  notified = 0;
})

module _ {Raw : Type 0} (file : File Raw) where
  clear-SignedOut :
      (app : App Raw)
      → app.in_desktop ≡ true
      → app.auth ≡ logged_out
      → IsValid file (clear_secure_session app)
  unfolding clear_secure_session
  clear-SignedOut app desktop out =
      if_cases (IsValid file) app.in_desktop
        (λ on. SignedOut-IsValid file (record app { stored = none }) desktop (out, refl))
        (λ off. absurd cc)

  restore_parsed-IsValid :
      (s : Option StoredSession) (app : App Raw)
      → loaded file app.stored ≡ s
      → app.in_desktop ≡ true
      → app.auth ≡ logged_out
      → IsValid file (restore_parsed file s app)
  unfolding login
  restore_parsed-IsValid none app e desktop out = clear-SignedOut app desktop out
  restore_parsed-IsValid (some s) app e desktop out = record {
    desktop = desktop;
    coherent = inl (s.user, s.token, s.refresh_token, refl);
    agrees = e;
  }

  restore_raw-IsValid :
      (raw : Option Raw) (app : App Raw)
      → app.stored ≡ raw
      → app.in_desktop ≡ true
      → app.auth ≡ logged_out
      → IsValid file (restore_raw file raw app)
  restore_raw-IsValid none app e desktop out = SignedOut-IsValid file app desktop (out, e)
  restore_raw-IsValid (some raw) app e desktop out =
      restore_parsed-IsValid (file.safe_parse raw) app (ap (loaded file) e) desktop out

  -- Whatever the file holds.
  pub restart-IsValid : (app : App Raw) → app.in_desktop ≡ true → IsValid file (restart file app)
  unfolding restart restore_secure_session
  restart-IsValid app desktop =
      if_cases (IsValid file) app.in_desktop
        (λ on.
          restore_raw-IsValid app.stored
            (record {
              in_desktop = app.in_desktop;
              auth = logged_out;
              device_id = none;
              stored = app.stored;
              notified = 0;
            })
            refl desktop refl)
        (λ off. absurd cc)

module _ {B N Raw : Type 0} (network : Network B N) (file : File Raw) where
  -- What can happen after the shell has started.
  pub data Step : App Raw × N → App Raw × N → Type 0 where
    calls :
        (k : ℕ) (r : Request) (app : App Raw) (n : N) (a : Answer network file)
        → api_client network file (suc (suc k)) false r app n ≡ some a
        → Step (app, n) a.1
    logs_out :
        (url : Text) (app : App Raw) (n : N) (o : App Raw × N)
        → handle_logout network file url app n ≡ some o
        → Step (app, n) o
    restarts : (app : App Raw) (n : N) → Step (app, n) (restart file app, n)

  pub data Run : App Raw × N → App Raw × N → Type 0 where
    stays : (w : App Raw × N) → Run w w
    then_ : {w w' w'' : App Raw × N} → Run w w' → Step w' w'' → Run w w''

  -- The page's state after a logout, given what the request left.
  logged_out-SignedOut :
      (app : App Raw)
      → app.in_desktop ≡ true
      → let app' = clear_secure_session (record app { auth = logout app.auth; device_id = none }) in
        SignedOut app' × (app'.device_id ≡ none)
  unfolding clear_secure_session logout
  logged_out-SignedOut app desktop =
      if_cases (λ (app' : App Raw). SignedOut app' × (app'.device_id ≡ none)) app.in_desktop
        (λ on. ((refl, refl), refl)) (λ off. absurd cc)

  -- In the desktop shell, from a valid state, `handleLogout` ends, and whether its request is answered or
  -- not it leaves a valid state with nobody logged in, no device id and no session in the file. The
  -- schemas are taken to read back a session with a uuid and a token, and to accept no response without.
  pub handle_logout-result :
      (is_uuid : Text → Bool) (f : Faithful is_uuid file) (g : Validates is_uuid network)
      (url : Text) (app : App Raw) (n : N)
      → IsValid file app
      → (o : App Raw × N) × (handle_logout network file url app n ≡ some o)
        × (IsValid file o.0 × SignedOut o.0 × (o.0.device_id ≡ none))
  unfolding handle_logout logout
  handle_logout-result is_uuid f g url app n v =
      let a = requested network file (request url) app n in
      let returned = api_client-requested network file 0 (request url) app n in
      let desktop =
        (api_client-IsValid network file is_uuid f g 0 (request url) app n a returned v).desktop in
      let left =
        clear_secure_session (record a.1.0 { auth = logout a.1.0.auth; device_id = none }) in
      let out = logged_out-SignedOut a.1.0 desktop in
      (
        (left, a.1.1),
        ap (after_logout network file) returned,
        (
          clear-SignedOut file (record a.1.0 { auth = logout a.1.0.auth; device_id = none }) desktop
              refl,
          out.0,
          out.1,
        ),
      )

  Step-IsValid :
      (is_uuid : Text → Bool) (f : Faithful is_uuid file) (g : Validates is_uuid network)
      {w w' : App Raw × N}
      → Step w w'
      → IsValid file w.0
      → IsValid file w'.0
  Step-IsValid is_uuid f g (calls k r app n a returned) v =
      api_client-IsValid network file is_uuid f g k r app n a returned v
  Step-IsValid is_uuid f g (logs_out url app n o returned) v =
      let result = handle_logout-result is_uuid f g url app n v in
      subst (λ (o' : App Raw × N). IsValid file o'.0) (some_inj.0 (sym result.1 ∙ returned))
        result.2.0
  Step-IsValid is_uuid f g (restarts app n) v = restart-IsValid file app v.desktop

  Run-IsValid :
      (is_uuid : Text → Bool) (f : Faithful is_uuid file) (g : Validates is_uuid network)
      {w w' : App Raw × N}
      → Run w w'
      → IsValid file w.0
      → IsValid file w'.0
  Run-IsValid is_uuid f g (stays w) v = v
  Run-IsValid is_uuid f g (then_ run step) v =
      Step-IsValid is_uuid f g step (Run-IsValid is_uuid f g run v)

-- From a start of the desktop shell on, whatever its file holds, and through any requests, logouts and
-- restarts: a user is logged in with a token or nobody is, and what a restart would read from the file
-- is the session of the store. The schemas are taken to read back a session whose user has a uuid and
-- whose token is not empty, and to accept no response without these.
pub run-IsValid :
    {B N Raw : Type 0} (network : Network B N) (file : File Raw) (is_uuid : Text → Bool)
    (f : Faithful is_uuid file) (g : Validates is_uuid network) (app : App Raw) (n : N)
    (w : App Raw × N)
    → app.in_desktop ≡ true
    → Run network file (restart file app, n) w
    → IsValid file w.0
run-IsValid network file is_uuid f g app n w desktop run =
    Run-IsValid network file is_uuid f g run (restart-IsValid file app desktop)
