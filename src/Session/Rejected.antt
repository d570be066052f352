-- ===== src/Session/Rejected.antt =====
-- apiClient.ts: a request that is answered by a 401 or a 403 logs the user out.
use usbi.Prelude.{
  ◌≡◌, refl, ◌∙◌, ℕ, suc, true, false, ◌&&◌, ◌||◌, Option, none, some, ◌==◌, if◌then◌else◌,
  if_cases, sym,
}
use mathlib.Core.Path.{subst}
use mathlib.Core.Option.{some_inj}
use usbi.Prelude.Text.{Text}
use usbi.Session.{
  App, File, Network, Request, Response, ok, refused, unreachable, AuthResponse, Answer, truthy,
  logged_out, logout, with_token, accept, finish, sign_out, clear_secure_session,
  persist_secure_session, parse_refresh, api_client,
}
use usbi.Session.Retry.{
  settled, after_refresh, after_recovery, after_first, requested, api_client-requested,
}

-- Nobody is logged in, and the file holds no session.
abbrev pub SignedOut : {Raw : Type 0} → App Raw → Type 0
SignedOut app = (app.auth ≡ logged_out) × (app.stored ≡ none)

module _ {Raw : Type 0} where
  pub sign_out-SignedOut : (app : App Raw) → app.in_desktop ≡ true → SignedOut (sign_out app)
  unfolding sign_out clear_secure_session logout
  sign_out-SignedOut app desktop =
      if_cases (λ (app' : App Raw). SignedOut app') app.in_desktop (λ _. (refl, refl))
        (λ off. absurd cc)

  pub sign_out-desktop : (app : App Raw) → (sign_out app).in_desktop ≡ app.in_desktop
  unfolding sign_out clear_secure_session
  sign_out-desktop app =
      if_cases (λ (app' : App Raw). app'.in_desktop ≡ app.in_desktop) app.in_desktop (λ _. refl)
        (λ _. refl)

  finish-SignedOut :
      (status : ℕ) (app : App Raw)
      → app.in_desktop ≡ true
      → (status == 401 || status == 403) ≡ true
      → SignedOut (finish status app)
  unfolding finish
  finish-SignedOut status app desktop h = rw (h) (sign_out-SignedOut app desktop)

module _ {B N Raw : Type 0} (network : Network B N) (file : File Raw) where
  pub accept-desktop :
      (a : AuthResponse) (app : App Raw) → (accept file a app).in_desktop ≡ app.in_desktop
  unfolding accept persist_secure_session
  accept-desktop a app =
      if_cases (λ (app' : App Raw). app'.in_desktop ≡ app.in_desktop) app.in_desktop (λ _. refl)
        (λ _. refl)

  -- An answer with this status leaves nobody logged in.
  abbrev LeavesOut : ℕ → Answer network file → Type 0
  LeavesOut status a = a.0 ≡ refused status → SignedOut a.1.0

  module _ (status : ℕ) (h : (status == 401 || status == 403) ≡ true) where
    refused-LeavesOut :
        (s : ℕ) (app : App Raw) (n : N)
        → app.in_desktop ≡ true
        → LeavesOut status (refused s, (finish s app, n))
    refused-LeavesOut s app n desktop e =
        let same : s ≡ status = cc in finish-SignedOut s app desktop (rw (same) h)

    settled-LeavesOut :
        (app : App Raw) (x : Response B × N)
        → app.in_desktop ≡ true
        → LeavesOut status (settled network file app x)
    settled-LeavesOut app (ok body, n) desktop e = absurd cc
    settled-LeavesOut app (unreachable, n) desktop e = absurd cc
    settled-LeavesOut app (refused s, n) desktop e = refused-LeavesOut s app n desktop e

    after_refresh-LeavesOut :
        (r : Request) (s : ℕ) (app : App Raw) (a : Option AuthResponse) (n : N)
        → app.in_desktop ≡ true
        → LeavesOut status (after_refresh network file r s app a n)
    after_refresh-LeavesOut r s app none n desktop =
        refused-LeavesOut s (sign_out app) n (sign_out-desktop app ∙ desktop)
    after_refresh-LeavesOut r s app (some a) n desktop =
        let app' = accept file a app in
        let r' =
          with_token (truthy app'.auth.token) (record r { authorization = some a.access_token }) in
        settled-LeavesOut app' (network.send r' n) (accept-desktop a app ∙ desktop)

    after_recovery-LeavesOut :
        (r : Request) (s : ℕ) (app : App Raw) (token : Option Text) (n : N)
        → app.in_desktop ≡ true
        → LeavesOut status (after_recovery network file r s app token n)
    after_recovery-LeavesOut r s app none n desktop = refused-LeavesOut s app n desktop
    after_recovery-LeavesOut r s app (some token) n desktop =
        let x = network.post_refresh token n in
        after_refresh-LeavesOut r s app (parse_refresh network file x.0) x.1 desktop

    after_first-LeavesOut :
        (r : Request) (app : App Raw) (x : Response B × N)
        → app.in_desktop ≡ true
        → LeavesOut status (after_first network file r app x)
    after_first-LeavesOut r app (ok body, n) desktop e = absurd cc
    after_first-LeavesOut r app (unreachable, n) desktop e = absurd cc
    after_first-LeavesOut r app (refused s, n) desktop e =
        after_recovery-LeavesOut r s app
          (if s == 401 && true then truthy app.auth.refresh_token else none) n desktop e

-- In the desktop shell, a request whose last answer is a 401 or a 403, whether it was repeated after a
-- refresh or not, leaves nobody logged in and no session in the file.
pub rejected-SignedOut :
    {B N Raw : Type 0} (network : Network B N) (file : File Raw) (k : ℕ) (r : Request)
    (app : App Raw) (n : N) (a : Answer network file) (status : ℕ)
    → api_client network file (suc (suc k)) false r app n ≡ some a
    → a.0 ≡ refused status
    → (status == 401 || status == 403) ≡ true
    → app.in_desktop ≡ true
    → SignedOut a.1.0
rejected-SignedOut network file k r app n a status returned e h desktop =
    let r' = with_token (truthy app.auth.token) r in
    let same : requested network file r app n ≡ a =
      some_inj.0 (sym (api_client-requested network file k r app n) ∙ returned) in
    subst (LeavesOut network file status) same
      (after_first-LeavesOut network file status h r' app (network.send r' n) desktop) e
