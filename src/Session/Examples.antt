-- ===== src/Session/Examples.antt =====
-- The session against a server that accepts only the token `n`, which a refresh gives.
use usbi.Prelude.{
  ◌≡◌, refl, ℕ, suc, Bool, true, false, Option, none, some, List, [], ◌∷◌, if◌then◌else◌,
}
use usbi.Prelude.Text.{Text, eq_text}
use usbi.Session.{
  App, AuthResponse, File, Network, Request, StoredSession, User, Answer, active, logged_out, ok,
  player, pending_tutor_consent, refused, api_client, finish, sign_out, clear_secure_session,
  logout, login, truthy, accept, persist_secure_session, restore_secure_session,
}
use usbi.Session.Pages.{request, handle_age_up, handle_logout}
use usbi.Session.Retry.{api_client_terminates}
use usbi.Session.Rejected.{SignedOut, rejected-SignedOut}
use usbi.Session.Agreement.{IsValid, Faithful, Validates}
use usbi.Session.Runs.{stays, then_, calls, restarts, logs_out, restart, run-IsValid}
use usbi.Session.Stale.{Renews, age_up_keeps_old_tokens}

abbrev child : User
child = record {
  id = b'7' ∷ [];
  full_name = b'A' ∷ [];
  is_adult = false;
  role = player;
  status = pending_tutor_consent;
  created_at = [];
}

abbrev renewal : AuthResponse
renewal = record { access_token = b'n' ∷ []; refresh_token = b'm' ∷ []; user = child }

abbrev is_new : Option Text → Bool
is_new none = false
is_new (some t) = eq_text t (b'n' ∷ [])

-- A body is a session or nothing.
abbrev parse_body : Option (List ℕ) → Option AuthResponse
parse_body none = none
parse_body (some t) = some renewal

abbrev server : Network (Option (List ℕ)) ℕ
server = record {
  send = λ r n. (if is_new r.authorization then ok none else refused 401, suc n);
  post_refresh = λ t n. (ok (some t), suc n);
  parse_auth = parse_body;
}

-- A server that refuses whoever asks.
abbrev forbidding : Network (Option (List ℕ)) ℕ
forbidding = record server { send = λ r n. (refused 403, suc n) }

abbrev plain_file : File StoredSession
plain_file = record { to_raw = λ s. s; safe_parse = λ s. some s }

abbrev at_work : App StoredSession
at_work = record {
  in_desktop = true;
  auth = record {
    user = some child;
    token = some (b'o' ∷ []);
    refresh_token = some (b'r' ∷ []);
    is_authenticated = true;
  };
  device_id = none;
  stored = some (record {
    user = child;
    token = b'o' ∷ [];
    refresh_token = some (b'r' ∷ []);
    device_id = none;
  });
  notified = 0;
}

abbrev progress : Request
progress = request (b'/' ∷ b'p' ∷ [])

-- A test of ids, and a file that holds only sessions of users with such an id and with a token.
abbrev is_seven : Text → Bool
is_seven t = eq_text t (b'7' ∷ [])

abbrev checked : Bool → Option Text → StoredSession → Option StoredSession
checked false token s = none
checked true none s = none
checked true (some t) s = some s

abbrev strict_file : File StoredSession
strict_file = record {
  to_raw = λ s. s;
  safe_parse = λ s. checked (is_seven s.user.id) (truthy (some s.token)) s;
}

strict_file-Faithful : Faithful is_seven strict_file
strict_file-Faithful = record { reads_back = λ s uuid token. rw (uuid, token) refl }

parse_body-renewal :
    (body : Option (List ℕ)) (a : AuthResponse) → parse_body body ≡ some a → a ≡ renewal
parse_body-renewal none a e = absurd cc
parse_body-renewal (some t) a e = cc

server-Validates : Validates is_seven server
unfolding eq_text
server-Validates = record { accepted = λ body a e. rw (parse_body-renewal body a e) (refl, refl) }

api_client_terminates_example :
    (a : Answer server plain_file) × ((k : ℕ)
      → api_client server plain_file (suc (suc k)) false progress at_work 0 ≡ some a)
api_client_terminates_example = api_client_terminates server plain_file progress at_work 0

rejected-SignedOut_example :
    SignedOut (record at_work { auth = logged_out; stored = none; notified = 1 })
unfolding api_client finish sign_out clear_secure_session logout
rejected-SignedOut_example =
    rejected-SignedOut forbidding plain_file 0 progress at_work 0
      (refused 403, (record at_work { auth = logged_out; stored = none; notified = 1 }, 1)) 403 refl
      refl refl refl

-- The shell after the request of an expired token has renewed the session.
abbrev renewed_app : App StoredSession
renewed_app = record (restart strict_file at_work) {
  auth = record {
    user = some child;
    token = some renewal.access_token;
    refresh_token = some renewal.refresh_token;
    is_authenticated = true;
  };
  stored = some (record {
    user = child;
    token = renewal.access_token;
    refresh_token = some renewal.refresh_token;
    device_id = none;
  });
}

-- A request that renews the session, a restart and a logout.
run-IsValid_example :
    IsValid strict_file (record renewed_app { auth = logged_out; device_id = none; stored = none })
unfolding api_client finish accept persist_secure_session clear_secure_session logout login
    handle_logout restart restore_secure_session eq_text
run-IsValid_example =
    run-IsValid server strict_file is_seven strict_file-Faithful server-Validates at_work 0
      (record renewed_app { auth = logged_out; device_id = none; stored = none }, 4) refl
      (then_
        (then_
          (then_ (stays (restart strict_file at_work, 0))
            (calls 0 progress (restart strict_file at_work) 0 (ok none, (renewed_app, 3)) refl))
          (restarts renewed_app 3))
        (logs_out (b'/' ∷ []) (restart strict_file renewed_app) 3
          (record renewed_app { auth = logged_out; device_id = none; stored = none }, 4) refl))

server-Renews : Renews server (b'/' ∷ b'a' ∷ []) (b'o' ∷ []) (b'r' ∷ []) renewal
unfolding eq_text
server-Renews = record {
  body = some (b'r' ∷ []);
  answer = none;
  expired = λ n. refl;
  renewed = λ n. refl;
  parsed = refl;
  answered = λ n. refl;
  fresh = refl;
}

age_up_keeps_old_tokens_example :
    (o : App StoredSession × ℕ) × (handle_age_up server plain_file (b'/' ∷ b'a' ∷ []) at_work 0
      ≡ some o)
    × (o.0.auth.token ≡ some renewal.access_token)
    × (o.0.stored
        ≡ some (record {
          user = record child { is_adult = true; status = active };
          token = b'o' ∷ [];
          refresh_token = some (b'r' ∷ []);
          device_id = none;
        }))
age_up_keeps_old_tokens_example =
    age_up_keeps_old_tokens server plain_file at_work 0 (b'/' ∷ b'a' ∷ []) child (b'o' ∷ [])
      (b'r' ∷ []) renewal server-Renews refl refl refl refl
