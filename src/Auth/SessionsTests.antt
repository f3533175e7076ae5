-- ===== src/Auth/SessionsTests.antt =====
-- app/auth/sessions.py: logins and cookies, with small functions in the place of the hasher and the MAC.
use restream_plus.Auth.RateLimit.Buckets.{recent}
use restream_plus.Base.Dict.{get, IsUnique}
use restream_plus.Auth.RateLimit.{new, LoginRateLimiter}
use restream_plus.Repositories.HttpSessions.{HttpSessionRow}
use restream_plus.Repositories.Users.{UserRow, UserDto}
use restream_plus.Auth.Sessions.Limits.{is_limited}
use restream_plus.Auth.KeyMaterial.{DerivedKeys}
use restream_plus.Auth.Sessions.{
  LoginRequest, login, verify_cookie, revoke, revoke_all_for_user, Providers, SessionAuthService,
  LoginOutcome, invalid_credentials,
}
use restream_plus.Auth.RateLimit.{check, decide, bucket, prune, record_failure}
use restream_plus.Auth.Sessions.{
  note_failure, login_body, admit, verify_login, open_session, compute_session_token_hash,
}
use restream_plus.Auth.Passwords.{verify_password}
use restream_plus.Repositories.HttpSessions.{create, delete_all_for_user, delete_where}
use restream_plus.Repositories.Users.{get_by_username}
use restream_plus.Base.Dict.{put}
use restream_plus.Base.Texts.{text_eq}
use restream_plus.Auth.Sessions.Cookies.{login-verify_cookie}
use restream_plus.Auth.Sessions.Lockout.{login-limited, wrong_by_name, run_logins, wrong_by_ip}
use restream_plus.Base.{
  ℕ, [], ◌∷◌, string_eq, refl, String, ◌≡◌, ◌<◌, List, ◌==◌, none, some, false, ok, err, ◌+◌, ◌++◌,
  ◌≤◌, ◌↔◌, length, arith,
}

abbrev test_keys : DerivedKeys
test_keys = record { stream_key_kek = []; api_token_mac_key = []; session_token_mac_key = 7 ∷ [] }

abbrev test_providers : Providers
test_providers = record {
  normalize = λ name. name;
  argon2_accepts = λ stored password. stored == password;
  check_needs_rehash = λ stored. false;
  hmac_sha256 = λ key cookie. key ++ cookie;
  dummy_password_hash = "no password";
  keys = test_keys;
  cookie_lifetime = 100;
}

abbrev admin_row : UserRow
admin_row = record {
  username = "admin";
  password_hash = "secret";
  created_at = 0;
  last_login_at = none;
}

abbrev new_limiter : LoginRateLimiter
new_limiter = record { limit = 2; window = 60; by_ip = []; by_username = [] }

abbrev service : SessionAuthService
service = record { users = ("u1", admin_row) ∷ []; sessions = []; rate_limiter = new_limiter }

abbrev attempt : String → ℕ → LoginRequest
attempt password at = record {
  username = "admin";
  password = password;
  ip = "10.0.0.1";
  user_agent = none;
  cookie = 1 ∷ 2 ∷ [];
  checked_at = at;
  failed_at = at;
  now = at;
  created_at = at;
}

abbrev admin : UserDto
admin = record { id = "u1"; columns = record admin_row { last_login_at = some 10 } }

abbrev session_row : HttpSessionRow
session_row = record {
  user_id = "u1";
  created_at = 10;
  expires_at = 110;
  last_seen_at = 10;
  user_agent = none;
  ip = some "10.0.0.1";
}

abbrev outcome : LoginOutcome
outcome = record {
  cookie_value = 1 ∷ 2 ∷ [];
  session = record { token_hash = 7 ∷ 1 ∷ 2 ∷ []; columns = session_row };
  user = admin;
  needs_rehash = false;
}

logs_in : (login test_providers (attempt "secret" 10) service).1 ≡ ok outcome
unfolding login check decide bucket get put prune note_failure login_body admit get_by_username
    verify_login verify_password open_session compute_session_token_hash create
logs_in = refl

wrong_password : (login test_providers (attempt "guess" 10) service).1 ≡ err invalid_credentials
unfolding login check decide bucket get put prune note_failure login_body admit get_by_username
    verify_login verify_password open_session compute_session_token_hash create
wrong_password = refl

users-IsUnique : IsUnique service.users
unfolding get
users-IsUnique = (refl, tt)

login-verify_cookie_example :
    (50 < 10 + 100
      → (verify_cookie test_providers
          (1 ∷ 2 ∷ [])
          50
          (login test_providers (attempt "secret" 10) service).0).1
        ≡ ok (some (admin, outcome.session)))
    × (10 + 100 ≤ 50
        → (verify_cookie test_providers
            (1 ∷ 2 ∷ [])
            50
            (login test_providers (attempt "secret" 10) service).0).1
          ≡ ok none)
    × ((verify_cookie test_providers
          (1 ∷ 2 ∷ [])
          50
          (revoke test_providers
            (1 ∷ 2 ∷ [])
            (login test_providers (attempt "secret" 10) service).0).0).1
        ≡ ok none)
login-verify_cookie_example =
    login-verify_cookie test_providers (attempt "secret" 10) outcome service 50 users-IsUnique
      logs_in

limiter_new : new 2 60 ≡ ok new_limiter
unfolding new
limiter_new = refl

-- Two wrong passwords, and the right one behind them.
abbrev guesses : List LoginRequest
guesses = attempt "guess" 10 ∷ attempt "other" 20 ∷ []

login-limited_example :
    (is_limited
        (login test_providers (attempt "secret" 30) (run_logins test_providers service guesses)).1
      ≡ false)
    ↔ ((length (recent 60 30 (wrong_by_ip test_providers (λ k. []) service guesses "10.0.0.1")) < 2)
        × (length (recent 60 30 (wrong_by_name test_providers (λ k. []) service guesses "admin"))
            < 2))
login-limited_example =
    login-limited test_providers 2 60 service guesses (attempt "secret" 30) limiter_new
      (omega arith, omega arith, (omega arith, omega arith, omega arith))

guessed_wrong : wrong_by_name test_providers (λ k. []) service guesses "admin" ≡ 10 ∷ 20 ∷ []
unfolding wrong_by_name record_failure login check decide bucket get put prune note_failure
    login_body admit get_by_username verify_login verify_password open_session
    compute_session_token_hash create
guessed_wrong = refl

abbrev signed_in : SessionAuthService
signed_in = record service { sessions = (7 ∷ 1 ∷ 2 ∷ [], session_row) ∷ [] }

sessions-IsUnique : IsUnique signed_in.sessions
unfolding get
sessions-IsUnique = (refl, tt)

revoked_one : (revoke_all_for_user "u1" signed_in).1 ≡ 1
unfolding revoke_all_for_user delete_all_for_user delete_where
revoked_one = refl
