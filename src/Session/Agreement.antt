-- ===== src/Session/Agreement.antt =====
-- secureSession.ts and apiClient.ts: the file holds the session of the user that is logged in.
use mathlib.Core.Path.{subst}
use mathlib.Core.Option.{some_inj}
use usbi.Prelude.{
  ◌≡◌, refl, ◌∙◌, sym, ℕ, suc, Bool, true, false, ◌&&◌, ◌||◌, Option, none, some, ◌==◌,
  if◌then◌else◌, if_cases, inl, inr, ◌⊎◌,
}
use usbi.Prelude.Text.{Text}
use usbi.Session.{
  App, AuthState, User, StoredSession, File, Network, Request, Response, ok, refused, unreachable,
  AuthResponse, Answer, truthy, logged_out, login, with_token, accept, finish, sign_out,
  persist_secure_session, parse_refresh, api_client,
}
use usbi.Session.Retry.{settled, after_refresh, after_recovery, after_first, api_client-requested}
use usbi.Session.Rejected.{SignedOut, sign_out-SignedOut, sign_out-desktop}

-- The session of a state of the store, when a user is logged in.
abbrev pub session_from :
    Option User → Option Text → Option Text → Option Text → Option StoredSession
session_from (some user) (some token) refresh_token device_id =
    some
      (record { user = user; token = token; refresh_token = refresh_token; device_id = device_id })
session_from (some user) none refresh_token device_id = none
session_from none token refresh_token device_id = none

abbrev pub loaded : {Raw : Type 0} → File Raw → Option Raw → Option StoredSession
loaded file none = none
loaded file (some raw) = file.safe_parse raw

-- Someone is logged in with a token, or nobody is.
abbrev pub Coherent : AuthState → Type 0
Coherent a =
    ((user : User) × (token : Text) × (refresh_token : Option Text) × (a
        ≡ login user token refresh_token a))
    ⊎ (a ≡ logged_out)

-- In the desktop shell: the store is coherent, and what a restart would read from the file is the
-- session of the store, or nothing when nobody is logged in.
pub record IsValid {Raw : Type 0} (file : File Raw) (app : App Raw) : Type 0 where
  pub desktop : app.in_desktop ≡ true
  pub coherent : Coherent app.auth
  pub agrees :
      loaded file app.stored
      ≡ session_from app.auth.user app.auth.token app.auth.refresh_token app.device_id

-- What the schemas promise, where `is_uuid` is the library's test of a uuid: a session whose user has a
-- uuid and whose token is not empty is read back as it was written, and a response that is accepted
-- has such a user and token.
pub record Faithful {Raw : Type 0} (is_uuid : Text → Bool) (file : File Raw) : Type 0 where
  pub reads_back :
      (s : StoredSession)
      → is_uuid s.user.id ≡ true
      → truthy (some s.token) ≡ some s.token
      → file.safe_parse (file.to_raw s) ≡ some s

abbrev pub IsAccepted : (Text → Bool) → AuthResponse → Type 0
IsAccepted is_uuid a =
    (is_uuid a.user.id ≡ true) × (truthy (some a.access_token) ≡ some a.access_token)

pub record Validates {B N : Type 0} (is_uuid : Text → Bool) (network : Network B N) : Type 0 where
  pub accepted :
      (body : B) (a : AuthResponse) → network.parse_auth body ≡ some a → IsAccepted is_uuid a

module _ {Raw : Type 0} (file : File Raw) where
  pub SignedOut-IsValid : (app : App Raw) → app.in_desktop ≡ true → SignedOut app → IsValid file app
  SignedOut-IsValid app desktop (auth, stored) = record {
    desktop = desktop;
    coherent = inr auth;
    agrees = rw (auth, stored) refl;
  }

  pub sign_out-IsValid : (app : App Raw) → app.in_desktop ≡ true → IsValid file (sign_out app)
  sign_out-IsValid app desktop =
      SignedOut-IsValid (sign_out app) (sign_out-desktop app ∙ desktop)
        (sign_out-SignedOut app desktop)

  finish-IsValid :
      (status : ℕ) (app : App Raw) → IsValid file app → IsValid file (finish status app)
  unfolding finish
  finish-IsValid status app v =
      if_cases (IsValid file) (status == 401 || status == 403) (λ _. sign_out-IsValid app v.desktop)
        (λ _. v)

  accept-IsValid :
      (is_uuid : Text → Bool) (f : Faithful is_uuid file) (a : AuthResponse) (app : App Raw)
      → IsAccepted is_uuid a
      → app.in_desktop ≡ true
      → IsValid file (accept file a app)
  unfolding accept persist_secure_session login
  accept-IsValid is_uuid f a app (uuid, token) desktop =
      if_cases (IsValid file) app.in_desktop
        (λ on. record {
          desktop = on;
          coherent = inl (a.user, a.access_token, some a.refresh_token, refl);
          agrees = f.reads_back _ uuid token;
        })
        (λ off. absurd cc)

module _ {B N Raw : Type 0} (network : Network B N) (file : File Raw) (is_uuid : Text → Bool)
    (f : Faithful is_uuid file) (g : Validates is_uuid network) where
  settled-IsValid :
      (app : App Raw) (x : Response B × N)
      → IsValid file app
      → IsValid file (settled network file app x).1.0
  settled-IsValid app (ok body, n) v = v
  settled-IsValid app (unreachable, n) v = v
  settled-IsValid app (refused s, n) v = finish-IsValid file s app v

  parse_refresh-IsAccepted :
      (x : Response B) (a : AuthResponse)
      → parse_refresh network file x ≡ some a
      → IsAccepted is_uuid a
  parse_refresh-IsAccepted (ok body) a e = g.accepted body a e
  parse_refresh-IsAccepted (refused s) a e = absurd cc
  parse_refresh-IsAccepted unreachable a e = absurd cc

  after_refresh-IsValid :
      (r : Request) (s : ℕ) (app : App Raw) (a : Option AuthResponse) (n : N)
      → ((b : AuthResponse) → a ≡ some b → IsAccepted is_uuid b)
      → IsValid file app
      → IsValid file (after_refresh network file r s app a n).1.0
  after_refresh-IsValid r s app none n good v =
      finish-IsValid file s (sign_out app) (sign_out-IsValid file app v.desktop)
  after_refresh-IsValid r s app (some a) n good v =
      let app' = accept file a app in
      let r' =
        with_token (truthy app'.auth.token) (record r { authorization = some a.access_token }) in
      settled-IsValid app' (network.send r' n)
        (accept-IsValid file is_uuid f a app (good a refl) v.desktop)

  after_recovery-IsValid :
      (r : Request) (s : ℕ) (app : App Raw) (token : Option Text) (n : N)
      → IsValid file app
      → IsValid file (after_recovery network file r s app token n).1.0
  after_recovery-IsValid r s app none n v = finish-IsValid file s app v
  after_recovery-IsValid r s app (some token) n v =
      let x = network.post_refresh token n in
      after_refresh-IsValid r s app (parse_refresh network file x.0) x.1
        (λ b e. parse_refresh-IsAccepted x.0 b e) v

  after_first-IsValid :
      (r : Request) (app : App Raw) (x : Response B × N)
      → IsValid file app
      → IsValid file (after_first network file r app x).1.0
  after_first-IsValid r app (ok body, n) v = v
  after_first-IsValid r app (unreachable, n) v = v
  after_first-IsValid r app (refused s, n) v =
      after_recovery-IsValid r s app
        (if s == 401 && true then truthy app.auth.refresh_token else none) n v

  pub api_client-IsValid :
      (k : ℕ) (r : Request) (app : App Raw) (n : N) (a : Answer network file)
      → api_client network file (suc (suc k)) false r app n ≡ some a
      → IsValid file app
      → IsValid file a.1.0
  api_client-IsValid k r app n a returned v =
      let r' = with_token (truthy app.auth.token) r in
      subst (λ (b : Answer network file). IsValid file b.1.0)
        (some_inj.0 (sym (api_client-requested network file k r app n) ∙ returned))
        (after_first-IsValid r' app (network.send r' n) v)
