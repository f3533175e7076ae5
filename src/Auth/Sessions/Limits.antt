-- ===== src/Auth/Sessions/Limits.antt =====
-- app/auth/sessions.py: what a login does to the limiter.
use restream_plus.Auth.KeyMaterial.{is_empty}
use restream_plus.Base.Dict.{contains}
use restream_plus.Repositories.Users.{get_by_username, UserDto}
use restream_plus.Auth.RateLimit.{record_failure, LoginRateLimiter, check}
use restream_plus.Repositories.HttpSessions.{create}
use restream_plus.Auth.Sessions.{
  LoginRequest, login, note_failure, login_body, admit, open_session, SessionAuthService, Providers,
  LoginError, LoginOutcome, compute_session_token_hash, rate_limited, invalid_credentials,
  empty_cookie_value, verify_login, session_exists,
}
use restream_plus.Base.Texts.{text_eq}
use restream_plus.Auth.RateLimit.Policy.{Call, checked, failed, run, apply}
use restream_plus.Base.{
  [], ◌∷◌, string_eq, refl, if◌then◌else◌, ◌≡◌, false, Option-cases, true, inl, inr, Bool-cases,
  Result, String, Bool, err, ok, some, not, ◌∙◌, ap,
}

abbrev pub is_limited : Result LoginError LoginOutcome → Bool
is_limited (err (rate_limited n)) = true
is_limited (err invalid_credentials) = false
is_limited (err empty_cookie_value) = false
is_limited (err session_exists) = false
is_limited (ok outcome) = false

abbrev pub is_wrong : Result LoginError LoginOutcome → Bool
is_wrong (err invalid_credentials) = true
is_wrong (err (rate_limited n)) = false
is_wrong (err empty_cookie_value) = false
is_wrong (err session_exists) = false
is_wrong (ok outcome) = false

module _ (p : Providers) where
  -- The limiter behind the handler, and what the handler and the body leave alone.
  note_failure-limiter :
      (r : LoginRequest) (x : SessionAuthService × Result LoginError LoginOutcome)
      → is_limited x.1 ≡ false
      → ((note_failure p r x).0.rate_limiter ≡ (
          if is_wrong (note_failure p r x).1
          then record_failure p.normalize x.0.rate_limiter r.ip (p.normalize r.username) r.failed_at
          else x.0.rate_limiter))
        × (is_limited (note_failure p r x).1 ≡ false)
  unfolding note_failure
  note_failure-limiter r (s, err invalid_credentials) h = (refl, refl)
  note_failure-limiter r (s, err (rate_limited n)) h = cc
  note_failure-limiter r (s, err empty_cookie_value) h = (refl, refl)
  note_failure-limiter r (s, err session_exists) h = (refl, refl)
  note_failure-limiter r (s, ok o) h = (refl, refl)

  open_session-limiter :
      (r : LoginRequest) (user : UserDto) (b : Bool) (s : SessionAuthService)
      → ((open_session p r user b s).0.rate_limiter ≡ s.rate_limiter)
        × (is_limited (open_session p r user b s).1 ≡ false)
  unfolding open_session create compute_session_token_hash
  open_session-limiter r user b s = elim (Bool-cases (is_empty r.cookie)) [
    | inl empty ↦ rw (empty, open_session, compute_session_token_hash) (refl, refl)
    | inr filled ↦
        let token_hash = p.hmac_sha256 p.keys.session_token_mac_key r.cookie in
        elim (Bool-cases (contains token_hash s.sessions)) [
          | inl used ↦
              rw (filled, used, open_session, compute_session_token_hash, create) (refl, refl)
          | inr unused ↦
              rw (filled, unused, open_session, compute_session_token_hash, create) (refl, refl)
        ]
  ]

  login_body-limiter :
      (n : String) (r : LoginRequest) (s : SessionAuthService)
      → ((login_body p n r s).0.rate_limiter ≡ s.rate_limiter)
        × (is_limited (login_body p n r s).1 ≡ false)
  unfolding login_body admit
  login_body-limiter n r s = elim (Option-cases (get_by_username n s.users)) [
    | inl none_there ↦ rw (none_there, login_body, admit) (refl, refl)
    | inr (user, q) ↦ elim (Bool-cases (verify_login p (some user) r.password).accepted) [
      | inl accepted ↦
          rw (q, accepted, login_body, admit)
            (open_session-limiter r user (verify_login p (some user) r.password).needs_rehash s)
      | inr refused ↦ rw (q, refused, login_body, admit) (refl, refl)
    ]
  ]

  -- One login, from the limiter's side.
  pub record Limits (r : LoginRequest) (s : SessionAuthService) : Type 0 where
    pub limiter :
        (login p r s).0.rate_limiter
        ≡ run p.normalize s.rate_limiter (
            checked r.ip (p.normalize r.username) r.checked_at
            ∷ (if is_wrong (login p r s).1
                then failed r.ip (p.normalize r.username) r.failed_at ∷ []
                else []))
    pub limited :
        is_limited (login p r s).1
        ≡ not
            (check p.normalize s.rate_limiter r.ip (p.normalize r.username) r.checked_at).1.allowed

  if_run :
      (b : Bool) (l : LoginRateLimiter) (c : Call)
      → (if b then apply p.normalize l c else l) ≡ run p.normalize l (if b then c ∷ [] else [])
  unfolding run
  if_run true l c = refl
  if_run false l c = refl

  pub login-Limits : (r : LoginRequest) (s : SessionAuthService) → Limits r s
  unfolding login run
  login-Limits r s =
      let username = p.normalize r.username in
      let (l, decision) = check p.normalize s.rate_limiter r.ip username r.checked_at in
      let s1 : SessionAuthService = record s { rate_limiter = l } in
      elim (Bool-cases decision.allowed) [
        | inr denied ↦ record {
          limiter = rw (denied, login) refl;
          limited = rw (denied, login) refl;
        }
        | inl allowed ↦
            let body = login_body-limiter username r s1 in
            let noted = note_failure-limiter r (login_body p username r s1) body.1 in
            let wrong = is_wrong (note_failure p r (login_body p username r s1)).1 in
            let counted = failed r.ip username r.failed_at in
            record {
              limiter =
                  rw (allowed, login)
                    (noted.0
                      ∙ ap (λ x. if wrong then apply p.normalize x counted else x) body.0
                      ∙ if_run wrong l counted);
              limited = rw (allowed, login) noted.1;
            }
      ]
