-- ===== src/Auth/Sessions/Opened.antt =====
-- app/auth/sessions.py: what a login that succeeds has done.
use restream_plus.Auth.RateLimit.{check}
use restream_plus.Auth.KeyMaterial.{Bytes}
use restream_plus.Repositories.Users.{UserDto, get_by_username, touch_last_login, Users}
use restream_plus.Base.Dict.{contains, put}
use restream_plus.Repositories.HttpSessions.{HttpSessionRow, create, HttpSessions}
use restream_plus.Auth.Sessions.{
  LoginRequest, Providers, LoginOutcome, open_session, note_failure, SessionAuthService, LoginError,
  verify_login, compute_session_token_hash, rate_limited, login_body, login, invalid_credentials,
  empty_cookie_value, session_exists, admit,
}
use restream_plus.Base.Texts.{text_eq}
use restream_plus.Base.{
  string_eq, ◌+◌, ◌≡◌, true, false, some, Result, ok, err, Result-cases, Option-cases, inr, inl,
  Bool-cases, refl, Bool,
}

abbrev pub touched : LoginRequest → UserDto → UserDto
touched r user = record user { columns = record user.columns { last_login_at = some r.now } }

module _ (p : Providers) where
  abbrev pub opened_row : LoginRequest → UserDto → HttpSessionRow
  opened_row r user = record {
    user_id = user.id;
    created_at = r.created_at;
    expires_at = r.now + p.cookie_lifetime;
    last_seen_at = r.created_at;
    user_agent = r.user_agent;
    ip = some r.ip;
  }

  -- The row and the outcome of an opened session, between the states before and after.
  pub record Opened (r : LoginRequest) (outcome : LoginOutcome) (users : Users)
      (sessions : HttpSessions) (s' : SessionAuthService) : Type 0 where
    pub user : UserDto
    pub token_hash : Bytes
    pub found : get_by_username (p.normalize r.username) users ≡ some user
    pub accepted : (verify_login p (some user) r.password).accepted ≡ true
    pub hashed : compute_session_token_hash p r.cookie ≡ ok token_hash
    pub unused : contains token_hash sessions ≡ false
    pub users_after : s'.users ≡ touch_last_login user.id r.now users
    pub sessions_after : s'.sessions ≡ put token_hash (opened_row r user) sessions
    pub cookie_is : outcome.cookie_value ≡ r.cookie
    pub session_is :
        outcome.session ≡ record { token_hash = token_hash; columns = opened_row r user }
    pub user_is : outcome.user ≡ touched r user

  open_session-Opened :
      (r : LoginRequest) (user : UserDto) (needs_rehash : Bool) (outcome : LoginOutcome)
      (s : SessionAuthService)
      → get_by_username (p.normalize r.username) s.users ≡ some user
      → (verify_login p (some user) r.password).accepted ≡ true
      → (open_session p r user needs_rehash s).1 ≡ ok outcome
      → Opened r outcome s.users s.sessions (open_session p r user needs_rehash s).0
  unfolding open_session create
  open_session-Opened r user needs_rehash outcome s found accepted h =
      elim (Result-cases (compute_session_token_hash p r.cookie)) [
        | inr (e, q) ↦ cc (rw (q, open_session) at h)
        | inl (token_hash, q) ↦ elim (Bool-cases (contains token_hash s.sessions)) [
          | inl used ↦ cc (rw (q, used, open_session) at h)
          | inr unused ↦
              let made : LoginOutcome = record {
                cookie_value = r.cookie;
                session = record { token_hash = token_hash; columns = opened_row r user };
                user = touched r user;
                needs_rehash = needs_rehash;
              } in
              let e : made ≡ outcome = cc (rw (q, unused, open_session) at h) in
              rw (q, unused, open_session, ← e)
                (record {
                  user = user;
                  token_hash = token_hash;
                  found = found;
                  accepted = accepted;
                  hashed = q;
                  unused = unused;
                  users_after = refl;
                  sessions_after = refl;
                  cookie_is = refl;
                  session_is = refl;
                  user_is = refl;
                })
        ]
      ]

  note_failure-ok :
      (r : LoginRequest) (x : SessionAuthService × Result LoginError LoginOutcome)
      (outcome : LoginOutcome)
      → (note_failure p r x).1 ≡ ok outcome
      → (x.1 ≡ ok outcome) × ((note_failure p r x).0 ≡ x.0)
  unfolding note_failure
  note_failure-ok r (s, err invalid_credentials) outcome h = cc
  note_failure-ok r (s, err (rate_limited n)) outcome h = cc
  note_failure-ok r (s, err empty_cookie_value) outcome h = cc
  note_failure-ok r (s, err session_exists) outcome h = cc
  note_failure-ok r (s, ok o) outcome h = (h, refl)

  login_body-Opened :
      (r : LoginRequest) (outcome : LoginOutcome) (s : SessionAuthService)
      → (login_body p (p.normalize r.username) r s).1 ≡ ok outcome
      → Opened r outcome s.users s.sessions (login_body p (p.normalize r.username) r s).0
  unfolding login_body admit
  login_body-Opened r outcome s h =
      elim (Option-cases (get_by_username (p.normalize r.username) s.users)) [
        | inl n ↦ cc (rw (n, login_body, admit) at h)
        | inr (user, q) ↦
            let verified = verify_login p (some user) r.password in
            elim (Bool-cases verified.accepted) [
              | inr refused ↦ cc (rw (q, refused, login_body, admit) at h)
              | inl accepted ↦
                  rw (q, accepted, login_body, admit)
                    (open_session-Opened r user verified.needs_rehash outcome s q accepted
                      (rw (q, accepted, login_body, admit) at h))
            ]
      ]

  -- What a successful login has behind it.
  pub login-Opened :
      (r : LoginRequest) (outcome : LoginOutcome) (s : SessionAuthService)
      → (login p r s).1 ≡ ok outcome
      → Opened r outcome s.users s.sessions (login p r s).0
  unfolding login
  login-Opened r outcome s h =
      let username = p.normalize r.username in
      let (limiter, decision) = check p.normalize s.rate_limiter r.ip username r.checked_at in
      let s1 : SessionAuthService = record s { rate_limiter = limiter } in
      elim (Bool-cases decision.allowed) [
        | inr denied ↦ cc (rw (denied, login) at h)
        | inl allowed ↦
            let (done, same) =
              note_failure-ok r (login_body p username r s1) outcome (rw (allowed, login) at h) in
            rw (allowed, login, same) (login_body-Opened r outcome s1 done)
      ]
