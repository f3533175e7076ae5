-- ===== src/Auth/DepsTests.antt =====
-- app/auth/deps.py: a request with a cookie.
use restream_plus.Repositories.HttpSessions.{HttpSessionRow}
use restream_plus.Auth.Sessions.{Providers}
use restream_plus.Auth.KeyMaterial.{ready, DerivedKeys}
use restream_plus.Repositories.Users.{UserRow}
use restream_plus.Auth.Deps.{
  AuthState, Tables, GuardedRequest, AuthenticatedRequest, authenticate, by_cookie,
}
use restream_plus.Auth.Deps.Identity.{Proves, authenticate-Proves}
use restream_plus.Auth.Deps.{
  require_unlocked_keys, require_authenticated, get_current_user_via_cookie,
  get_current_user_via_bearer, require_reprompt_grant,
}
use restream_plus.Auth.KeyMaterial.{require_ready}
use restream_plus.Auth.ApiTokens.{extract_bearer_from_authorization}
use restream_plus.Auth.Sessions.{verify_cookie, compute_session_token_hash}
use restream_plus.Repositories.HttpSessions.{get_by_token_hash, delete}
use restream_plus.Repositories.Users.{get_by_id}
use restream_plus.Base.Dict.{get, remove}
use restream_plus.Auth.Reprompts.{consume, delete_target}
use restream_plus.Base.{ℕ, [], ◌∷◌, string_eq, refl, some, ◌≡◌, ◌==◌, none, ok, false, ◌++◌}

abbrev test_keys : DerivedKeys
test_keys = record { stream_key_kek = []; api_token_mac_key = []; session_token_mac_key = 7 ∷ [] }

abbrev pub test_providers : Providers
test_providers = record {
  normalize = λ name. name;
  argon2_accepts = λ stored password. stored == password;
  check_needs_rehash = λ stored. false;
  hmac_sha256 = λ key cookie. key ++ cookie;
  dummy_password_hash = "no password";
  keys = test_keys;
  cookie_lifetime = 100;
}

abbrev admin_row : UserRow
admin_row = record {
  username = "admin";
  password_hash = "secret";
  created_at = 0;
  last_login_at = none;
}

abbrev session_row : HttpSessionRow
session_row = record {
  user_id = "u1";
  created_at = 10;
  expires_at = 110;
  last_seen_at = 10;
  user_agent = none;
  ip = none;
}

abbrev pub tables : Tables
tables = record {
  users = ("u1", admin_row) ∷ [];
  sessions = (7 ∷ 1 ∷ [], session_row) ∷ [];
  tokens = [];
}

abbrev pub state : AuthState
state = record {
  key_material = record {
    kdf_salt = [];
    state = ready;
    keys = some test_keys;
    holder = none;
    waiting = [];
  };
  rate_limiter = record { limit = 5; window = 60; by_ip = []; by_username = [] };
  reprompts = record {
    ttl = 60;
    grants = ("g1", record { user_id = "u1"; scope = delete_target; issued_at = 40 }) ∷ [];
  };
}

abbrev request_at : ℕ → GuardedRequest
request_at now = record {
  cookie = some (1 ∷ []);
  authorization = none;
  x_reprompt_grant = some "g1";
  now = now;
  monotonic = 50;
}

abbrev admin_by_cookie : AuthenticatedRequest
admin_by_cookie = record {
  user = record { id = "u1"; columns = admin_row };
  artefact = by_cookie (record { token_hash = 7 ∷ 1 ∷ []; columns = session_row });
}

authenticates : (authenticate test_providers (request_at 50) state tables).1 ≡ ok admin_by_cookie
unfolding authenticate require_unlocked_keys require_ready require_authenticated
    get_current_user_via_cookie verify_cookie compute_session_token_hash get_by_token_hash get
    get_by_id require_reprompt_grant consume get_current_user_via_bearer
    extract_bearer_from_authorization delete remove
authenticates = refl

authenticate-Proves_example : Proves (request_at 50) tables admin_by_cookie
authenticate-Proves_example =
    authenticate-Proves test_providers (request_at 50) state tables admin_by_cookie tt authenticates
