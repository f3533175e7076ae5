-- ===== src/Auth/Sessions.antt =====
-- app/auth/sessions.py: `SessionAuthService`. The name's normalization, the password hasher, the MAC and
-- the dummy hash are parameters; the fresh cookie value and the readings of the clocks come with the
-- request. The pad of a failed login to a floor of time has no counterpart.
use restream_plus.Auth.Passwords.{PasswordVerificationResult, verify_password}
use restream_plus.Repositories.HttpSessions.{
  delete_all_for_user, HttpSessions, HttpSessionDto, create, delete, get_by_token_hash,
  touch_last_seen,
}
use restream_plus.Base.Texts.{Text}
use restream_plus.Repositories.Users.{UserDto, Users, get_by_username, touch_last_login, get_by_id}
pub mod Opened
pub mod Cookies
pub mod Limits
pub mod Lockout
pub mod Everywhere
use restream_plus.Auth.KeyMaterial.{Bytes, DerivedKeys, is_empty}
use restream_plus.Auth.RateLimit.{LoginRateLimiter, check, record_failure}
use restream_plus.Base.{
  ℕ, string_eq, String, Option, Result, Bool, if◌then◌else◌, err, ok, none, some, ◌+◌, leb,
}

pub data LoginError : Type 0 where
  rate_limited : ℕ → LoginError
  invalid_credentials empty_cookie_value session_exists : LoginError

pub record LoginOutcome : Type 0 where
  pub cookie_value : Text
  pub session : HttpSessionDto
  pub user : UserDto
  pub needs_rehash : Bool

-- The arguments of `login`, and what the clocks and the random source give during it.
pub record LoginRequest : Type 0 where
  pub username : String
  pub password : String
  pub ip : String
  pub user_agent : Option String
  pub cookie : Text
  pub checked_at : ℕ
  pub failed_at : ℕ
  pub now : ℕ
  pub created_at : ℕ

pub record SessionAuthService : Type 0 where
  pub users : Users
  pub sessions : HttpSessions
  pub rate_limiter : LoginRateLimiter

-- 30 days
abbrev pub session_cookie_lifetime : ℕ
session_cookie_lifetime = 2_592_000_000_000

-- What the service takes from outside this file.
pub record Providers : Type 0 where
  pub normalize : String → String
  pub argon2_accepts : String → String → Bool
  pub check_needs_rehash : String → Bool
  pub hmac_sha256 : Bytes → Text → Bytes
  pub dummy_password_hash : String
  pub keys : DerivedKeys
  pub cookie_lifetime : ℕ

module _ (p : Providers) where
  unfoldable pub compute_session_token_hash : Text → Result LoginError Bytes
  compute_session_token_hash cookie_value =
      if is_empty cookie_value
      then err empty_cookie_value
      else ok (p.hmac_sha256 p.keys.session_token_mac_key cookie_value)

  -- Always one verification, against the dummy hash where there is no user.
  unfoldable pub verify_login : Option UserDto → String → PasswordVerificationResult
  verify_login none password =
      verify_password p.argon2_accepts p.check_needs_rehash p.dummy_password_hash password
  verify_login (some user) password =
      verify_password p.argon2_accepts p.check_needs_rehash user.columns.password_hash password

  -- `_login_body` behind the verification: the row of the session, and the time of the login. When the
  -- row is refused, nothing is written.
  unfoldable pub open_session :
      LoginRequest
      → UserDto
      → Bool
      → SessionAuthService
      → SessionAuthService × Result LoginError LoginOutcome
  open_session r user needs_rehash s = elim (compute_session_token_hash r.cookie) [
    | err e ↦ (s, err e)
    | ok token_hash ↦
        elim (create token_hash user.id (r.now + p.cookie_lifetime) r.user_agent (some r.ip)
          r.created_at s.sessions) [
            | err e ↦ (s, err session_exists)
            | ok (sessions, session) ↦ (
              record s { users = touch_last_login user.id r.now s.users; sessions = sessions },
              ok (record {
                cookie_value = r.cookie;
                session = session;
                user = record user { columns = record user.columns { last_login_at = some r.now } };
                needs_rehash = needs_rehash;
              }),
            )
          ]
  ]

  -- `if user is None or not verify_result.ok`, and what follows.
  unfoldable pub admit :
      LoginRequest
      → Option UserDto
      → PasswordVerificationResult
      → SessionAuthService
      → SessionAuthService × Result LoginError LoginOutcome
  admit r none verified s = (s, err invalid_credentials)
  admit r (some user) verified s =
      if verified.accepted
      then open_session r user verified.needs_rehash s
      else (s, err invalid_credentials)

  unfoldable pub login_body :
      String
      → LoginRequest
      → SessionAuthService
      → SessionAuthService × Result LoginError LoginOutcome
  login_body normalized_username r s =
      let found = get_by_username normalized_username s.users in
      admit r found (verify_login found r.password) s

  -- The handler: only wrong credentials count for the limiter.
  unfoldable pub note_failure :
      LoginRequest
      → SessionAuthService × Result LoginError LoginOutcome
      → SessionAuthService × Result LoginError LoginOutcome
  note_failure r (s, err invalid_credentials) = (
    record s {
      rate_limiter =
          record_failure p.normalize s.rate_limiter r.ip (p.normalize r.username) r.failed_at;
    },
    err invalid_credentials,
  )
  note_failure r (s, err (rate_limited n)) = (s, err (rate_limited n))
  note_failure r (s, err empty_cookie_value) = (s, err empty_cookie_value)
  note_failure r (s, err session_exists) = (s, err session_exists)
  note_failure r (s, ok outcome) = (s, ok outcome)

  -- A call that no other call interrupts.
  unfoldable pub login :
      LoginRequest → SessionAuthService → SessionAuthService × Result LoginError LoginOutcome
  login r s =
      let username = p.normalize r.username in
      let (limiter, decision) = check p.normalize s.rate_limiter r.ip username r.checked_at in
      let s1 : SessionAuthService = record s { rate_limiter = limiter } in
      if decision.allowed
      then note_failure r (login_body username r s1)
      else (s1, err (rate_limited decision.retry_after_seconds))

  unfoldable pub verify_cookie :
      Text
      → ℕ
      → SessionAuthService
      → SessionAuthService × Result LoginError (Option (UserDto × HttpSessionDto))
  verify_cookie cookie_value now s = elim (compute_session_token_hash cookie_value) [
    | err e ↦ (s, err e)
    | ok token_hash ↦
        let dropped : SessionAuthService = record s { sessions = delete token_hash s.sessions } in
        elim (get_by_token_hash token_hash s.sessions) [
          | none ↦ (s, ok none)
          | some session ↦
              if leb session.columns.expires_at now
              then (dropped, ok none)
              else elim (get_by_id session.columns.user_id s.users) [
                | none ↦ (dropped, ok none)
                | some user ↦ (
                  record s { sessions = touch_last_seen token_hash now s.sessions },
                  ok (some (user, session)),
                )
              ]
        ]
  ]

  unfoldable pub revoke :
      Text → SessionAuthService → SessionAuthService × Result LoginError (Unit {0})
  revoke cookie_value s = elim (compute_session_token_hash cookie_value) [
    | err e ↦ (s, err e)
    | ok token_hash ↦ (record s { sessions = delete token_hash s.sessions }, ok tt)
  ]

unfoldable pub revoke_all_for_user : String → SessionAuthService → SessionAuthService × ℕ
revoke_all_for_user user_id s =
    let (sessions, count) = delete_all_for_user user_id s.sessions in
    (record s { sessions = sessions }, count)
