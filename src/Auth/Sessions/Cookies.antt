-- ===== src/Auth/Sessions/Cookies.antt =====
-- app/auth/sessions.py: the cookie of a login, from then on.
use restream_plus.Auth.KeyMaterial.{Bytes}
use restream_plus.Base.Dict.{get, IsUnique, get-remove, get-put_self}
use restream_plus.Auth.Sessions.{
  LoginRequest, verify_cookie, Providers, LoginOutcome, SessionAuthService, revoke,
  compute_session_token_hash, login,
}
use restream_plus.Auth.Sessions.Opened.{login-Opened, touched, opened_row}
use restream_plus.Repositories.Users.{
  get_by_id, touch_last_login, get_by_username-get, UserDto, Users,
}
use restream_plus.Repositories.HttpSessions.{get_by_token_hash, delete, HttpSessionRow}
use restream_plus.Base.Texts.{text_eq, Text}
use restream_plus.Base.{
  ℕ, string_eq, refl, ◌≡◌, ◌∙◌, ◌<◌, same_refl, ◌≤◌, ◌+◌, le→leb, false, arith, ap, some, ok, none,
  leb,
}

get_by_id-touched :
    (r : LoginRequest) (user : UserDto) (users : Users)
    → get user.id users ≡ some user.columns
    → get_by_id user.id (touch_last_login user.id r.now users) ≡ some (touched r user)
unfolding get_by_id touch_last_login
get_by_id-touched r user users h =
    rw
      (
        h,
        touch_last_login,
        get_by_id,
        get-put_self user.id (record user.columns { last_login_at = some r.now }) users,
      )
      refl

module _ (p : Providers) (c : Text) (now : ℕ) (s : SessionAuthService) (token_hash : Bytes)
    (hashed : compute_session_token_hash p c ≡ ok token_hash) where
  verify_cookie-absent : get token_hash s.sessions ≡ none → (verify_cookie p c now s).1 ≡ ok none
  unfolding verify_cookie get_by_token_hash
  verify_cookie-absent h = rw (hashed, verify_cookie, h) refl

  revoke-absent : get token_hash (revoke p c s).0.sessions ≡ none
  unfolding revoke delete
  revoke-absent =
      rw (hashed, revoke)
        (get-remove token_hash token_hash s.sessions ∙ rw (same_refl text_eq token_hash) refl)

  verify_cookie-expired :
      (row : HttpSessionRow)
      → get token_hash s.sessions ≡ some row
      → row.expires_at ≤ now
      → (verify_cookie p c now s).1 ≡ ok none
  unfolding verify_cookie get_by_token_hash
  verify_cookie-expired row h late =
      rw (hashed, verify_cookie, h, le→leb row.expires_at now late) refl

  verify_cookie-valid :
      (row : HttpSessionRow) (user : UserDto)
      → get token_hash s.sessions ≡ some row
      → now < row.expires_at
      → get_by_id row.user_id s.users ≡ some user
      → (verify_cookie p c now s).1
        ≡ ok (some (user, record { token_hash = token_hash; columns = row }))
  unfolding verify_cookie get_by_token_hash
  verify_cookie-valid row user h early known =
      let open_still : leb row.expires_at now ≡ false = ground arith in
      rw (hashed, verify_cookie, h, open_still, known) refl

module _ (p : Providers) (r : LoginRequest) (outcome : LoginOutcome) (s : SessionAuthService) where
  -- The cookie value of a login that succeeds gives back its user and its session until the lifetime is
  -- over, and nobody from then on, and nobody once it is revoked, where no user id is listed twice.
  pub login-verify_cookie :
      (now : ℕ)
      → IsUnique s.users
      → (login p r s).1 ≡ ok outcome
      → (now < r.now + p.cookie_lifetime
          → (verify_cookie p outcome.cookie_value now (login p r s).0).1
            ≡ ok (some (outcome.user, outcome.session)))
        × (r.now + p.cookie_lifetime ≤ now
            → (verify_cookie p outcome.cookie_value now (login p r s).0).1 ≡ ok none)
        × ((verify_cookie p outcome.cookie_value now
              (revoke p outcome.cookie_value (login p r s).0).0).1
            ≡ ok none)
  login-verify_cookie now unique success =
      let o = login-Opened p r outcome s success in
      let s' = (login p r s).0 in
      let row = opened_row p r o.user in
      let stored : get o.token_hash s'.sessions ≡ some row =
        ap (get o.token_hash) o.sessions_after ∙ get-put_self o.token_hash row s.sessions in
      let known : get_by_id o.user.id s'.users ≡ some (touched r o.user) =
        ap (get_by_id o.user.id) o.users_after
        ∙ get_by_id-touched r o.user s.users
            (get_by_username-get (p.normalize r.username) s.users o.user unique o.found) in
      rw (o.cookie_is, o.session_is, o.user_is)
        (
          λ early.
              verify_cookie-valid p r.cookie now s' o.token_hash o.hashed row (touched r o.user)
                stored early known,
          λ late. verify_cookie-expired p r.cookie now s' o.token_hash o.hashed row stored late,
          verify_cookie-absent p r.cookie now (revoke p r.cookie s').0 o.token_hash o.hashed
              (revoke-absent p r.cookie now s' o.token_hash o.hashed),
        )
