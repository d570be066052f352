-- ===== src/Session/Retry.antt =====
-- apiClient.ts: a request is repeated at most once, so every request ends.
use usbi.Prelude.{
  ◌≡◌, refl, ℕ, suc, true, false, ◌&&◌, Option, none, some, ◌==◌, if◌then◌else◌, inl, inr,
  Bool-cases,
}
use usbi.Prelude.Text.{Text}
use usbi.Session.{
  App, File, Network, Request, Response, ok, refused, unreachable, AuthResponse, Answer, truthy,
  with_token, accept, finish, sign_out, parse_refresh, refreshed, recover, respond, api_client,
}

module _ {B N Raw : Type 0} (network : Network B N) (file : File Raw) where
  -- A response that is not followed by a refresh.
  abbrev pub settled : App Raw → Response B × N → Answer network file
  settled app (ok body, n) = (ok body, (app, n))
  settled app (unreachable, n) = (unreachable, (app, n))
  settled app (refused status, n) = (refused status, (finish status app, n))

  respond-retried :
      (again : Request → App Raw → N → Option (Answer network file)) (r : Request) (app : App Raw)
      (x : Response B × N)
      → respond network file again true r app x ≡ some (settled app x)
  respond-retried again r app (ok body, n) = refl
  respond-retried again r app (unreachable, n) = refl
  respond-retried again r app (refused status, n) = elim (Bool-cases (status == 401)) [
    | inl e ↦ rw (e) refl
    | inr e ↦ rw (e) refl
  ]

  abbrev pub repeated : Request → App Raw → N → Answer network file
  repeated r app n = settled app (network.send (with_token (truthy app.auth.token) r) n)

  pub api_client_retried :
      (k : ℕ) (r : Request) (app : App Raw) (n : N)
      → api_client network file (suc k) true r app n ≡ some (repeated r app n)
  unfolding api_client
  api_client_retried k r app n =
      let r' = with_token (truthy app.auth.token) r in
      respond-retried (api_client network file k true) r' app (network.send r' n)

  -- Each of the steps after a first response, with the repetition written out.
  abbrev pub after_refresh : Request → ℕ → App Raw → Option AuthResponse → N → Answer network file
  after_refresh r status app none n = (refused status, (finish status (sign_out app), n))
  after_refresh r status app (some a) n =
      repeated (record r { authorization = some a.access_token }) (accept file a app) n

  abbrev pub after_recovery : Request → ℕ → App Raw → Option Text → N → Answer network file
  after_recovery r status app none n = (refused status, (finish status app, n))
  after_recovery r status app (some token) n =
      let x = network.post_refresh token n in
      after_refresh r status app (parse_refresh network file x.0) x.1

  abbrev pub after_first : Request → App Raw → Response B × N → Answer network file
  after_first r app (ok body, n) = (ok body, (app, n))
  after_first r app (unreachable, n) = (unreachable, (app, n))
  after_first r app (refused status, n) =
      after_recovery r status app
        (if status == 401 && true then truthy app.auth.refresh_token else none) n

  abbrev pub requested : Request → App Raw → N → Answer network file
  requested r app n =
      let r' = with_token (truthy app.auth.token) r in after_first r' app (network.send r' n)

  refreshed-repeated :
      (k : ℕ) (r : Request) (status : ℕ) (app : App Raw) (a : Option AuthResponse) (n : N)
      → refreshed network file (api_client network file (suc k) true) r status app a n
        ≡ some (after_refresh r status app a n)
  refreshed-repeated k r status app none n = refl
  refreshed-repeated k r status app (some a) n =
      api_client_retried k (record r { authorization = some a.access_token }) (accept file a app) n

  recover-repeated :
      (k : ℕ) (r : Request) (status : ℕ) (app : App Raw) (token : Option Text) (n : N)
      → recover network file (api_client network file (suc k) true) r status app token n
        ≡ some (after_recovery r status app token n)
  recover-repeated k r status app none n = refl
  recover-repeated k r status app (some token) n =
      let x = network.post_refresh token n in
      refreshed-repeated k r status app (parse_refresh network file x.0) x.1

  respond-repeated :
      (k : ℕ) (r : Request) (app : App Raw) (x : Response B × N)
      → respond network file (api_client network file (suc k) true) false r app x
        ≡ some (after_first r app x)
  respond-repeated k r app (ok body, n) = refl
  respond-repeated k r app (unreachable, n) = refl
  respond-repeated k r app (refused status, n) =
      recover-repeated k r status app
        (if status == 401 && true then truthy app.auth.refresh_token else none) n

  pub api_client-requested :
      (k : ℕ) (r : Request) (app : App Raw) (n : N)
      → api_client network file (suc (suc k)) false r app n ≡ some (requested r app n)
  unfolding api_client
  api_client-requested k r app n =
      let r' = with_token (truthy app.auth.token) r in respond-repeated k r' app (network.send r' n)

-- Whatever the server answers, a request ends: from two nested calls on, every bound on them gives the
-- same answer, since a request that is repeated after a refresh is not repeated again.
pub api_client_terminates :
    {B N Raw : Type 0} (network : Network B N) (file : File Raw) (r : Request) (app : App Raw)
    (n : N)
    → (a : Answer network file) × ((k : ℕ)
        → api_client network file (suc (suc k)) false r app n ≡ some a)
api_client_terminates network file r app n =
    (requested network file r app n, λ k. api_client-requested network file k r app n)
