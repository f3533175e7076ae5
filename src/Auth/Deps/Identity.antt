-- ===== src/Auth/Deps/Identity.antt =====
-- app/auth/deps.py: for whom a request is authenticated.
use restream_plus.Repositories.Users.{get_by_id}
use restream_plus.Auth.RateLimit.{LoginRateLimiter}
use restream_plus.Base.Texts.{text_eq}
use restream_plus.Base.Dict.{IsUnique, get}
use restream_plus.Repositories.HttpSessions.{HttpSessionRow}
use restream_plus.Auth.KeyMaterial.{Bytes, DerivedKeys, is_empty}
use restream_plus.Auth.Deps.{
  AuthenticatedRequest, get_current_user_via_cookie, get_current_user_via_bearer, by_cookie,
  by_bearer, GuardedRequest, Tables, AuthState, authenticate, require_authenticated,
  require_unlocked_keys,
}
use restream_plus.Auth.Sessions.{verify_cookie, SessionAuthService, Providers}
use restream_plus.Auth.Sessions.Everywhere.{verify_cookie-row, get_by_id-id}
use restream_plus.Auth.ApiTokens.{
  verify_bearer, extract_bearer_from_authorization, has_token_shape, compute_api_token_hash,
}
use restream_plus.Repositories.ApiTokens.{
  get_active-Found, ApiTokenRow, is_active, get_active_by_token_hash,
}
use restream_plus.Base.{
  string_eq, refl, ◌≡◌, Option-cases, inl, ◌<◌, inr, Bool-cases, Result-cases, ◌∙◌, ap, some,
  String, true, ok, sym,
}

-- A session of the user that has not expired, or an active token of the user.
pub data Proves (r : GuardedRequest) (t : Tables) (auth : AuthenticatedRequest) : Type 0 where
  session :
      (token_hash : Bytes) (row : HttpSessionRow)
      → get token_hash t.sessions ≡ some row
      → row.user_id ≡ auth.user.id
      → r.now < row.expires_at
      → Proves r t auth
  token :
      (id : String) (row : ApiTokenRow)
      → get id t.tokens ≡ some row
      → row.user_id ≡ auth.user.id
      → is_active row ≡ true
      → Proves r t auth

module _ (p : Providers) (r : GuardedRequest) (limiter : LoginRateLimiter) (t : Tables) where
  abbrev service : SessionAuthService
  service = record { users = t.users; sessions = t.sessions; rate_limiter = limiter }

  cookie_keeps_tokens : (get_current_user_via_cookie p r limiter t).0.tokens ≡ t.tokens
  unfolding get_current_user_via_cookie
  cookie_keeps_tokens = elim (Option-cases r.cookie) [
    | inl n ↦ rw (n, get_current_user_via_cookie) refl
    | inr (c, q) ↦ elim (Bool-cases (is_empty c)) [
      | inl empty ↦ rw (q, empty, get_current_user_via_cookie) refl
      | inr filled ↦ elim (Result-cases (verify_cookie p c r.now service).1) [
        | inr (e, v) ↦ rw (q, filled, v, get_current_user_via_cookie) refl
        | inl (o, v) ↦ elim (Option-cases o) [
          | inl n ↦ rw (q, filled, v, n, get_current_user_via_cookie) refl
          | inr (found, w) ↦ rw (q, filled, v, w, get_current_user_via_cookie) refl
        ]
      ]
    ]
  ]

  cookie-Proves :
      (auth : AuthenticatedRequest)
      → (get_current_user_via_cookie p r limiter t).1 ≡ some auth
      → Proves r t auth
  unfolding get_current_user_via_cookie
  cookie-Proves auth h = elim (Option-cases r.cookie) [
    | inl n ↦ cc (rw (n, get_current_user_via_cookie) at h)
    | inr (c, q) ↦ elim (Bool-cases (is_empty c)) [
      | inl empty ↦ cc (rw (q, empty, get_current_user_via_cookie) at h)
      | inr filled ↦ elim (Result-cases (verify_cookie p c r.now service).1) [
        | inr (e, v) ↦ cc (rw (q, filled, v, get_current_user_via_cookie) at h)
        | inl (o, v) ↦ elim (Option-cases o) [
          | inl n ↦ cc (rw (q, filled, v, n, get_current_user_via_cookie) at h)
          | inr ((user, row_dto), w) ↦
              let made : AuthenticatedRequest = record {
                user = user;
                artefact = by_cookie row_dto;
              } in
              let e : made ≡ auth = cc (rw (q, filled, v, w, get_current_user_via_cookie) at h) in
              let (token_hash, row, stored, same, early) =
                verify_cookie-row p c r.now service user row_dto (v ∙ ap ok w) in
              rw (← e) (session token_hash row stored same early)
        ]
      ]
    ]
  ]

  bearer-Proves :
      (keys : DerivedKeys) (auth : AuthenticatedRequest) (t0 : Tables)
      → t.tokens ≡ t0.tokens
      → IsUnique t.tokens
      → (get_current_user_via_bearer p r keys t).1 ≡ some auth
      → Proves r t0 auth
  unfolding get_current_user_via_bearer verify_bearer
  bearer-Proves keys auth t0 kept unique h =
      elim (Option-cases (extract_bearer_from_authorization r.authorization)) [
        | inl n ↦ cc (rw (n, get_current_user_via_bearer) at h)
        | inr (plaintext, q) ↦ elim (Bool-cases (has_token_shape plaintext)) [
          | inr odd ↦ cc (rw (q, verify_bearer, odd, get_current_user_via_bearer) at h)
          | inl shaped ↦
              let token_hash = compute_api_token_hash p.hmac_sha256 keys plaintext in
              elim (Option-cases (get_active_by_token_hash token_hash t.tokens)) [
                | inl n ↦ cc (rw (q, verify_bearer, shaped, n, get_current_user_via_bearer) at h)
                | inr (dto, w) ↦ elim (Option-cases (get_by_id dto.user_id t.users)) [
                  | inl n ↦
                      cc (rw (q, verify_bearer, shaped, w, n, get_current_user_via_bearer) at h)
                  | inr (user, known) ↦
                      let made : AuthenticatedRequest = record {
                        user = user;
                        artefact = by_bearer dto;
                      } in
                      let e : made ≡ auth = cc (
                        rw (q, verify_bearer, shaped, w, known, get_current_user_via_bearer) at
                          h) in
                      let f = get_active-Found token_hash t.tokens dto unique w in
                      let of_row : dto.user_id ≡ f.row.user_id = ap (λ d. d.user_id) f.dto_is in
                      rw (← e) (
                        token dto.id f.row (ap (get dto.id) (sym kept) ∙ f.stored)
                          (sym of_row ∙ sym (get_by_id-id dto.user_id t.users user known)) f.active)
                ]
              ]
        ]
      ]

module _ (p : Providers) (r : GuardedRequest) (a : AuthState) (t : Tables)
    (auth : AuthenticatedRequest) where
  -- A request is authenticated for a user only if the table of the sessions has a row of this user that has
  -- not expired, or that of the tokens has a row of this user that is not revoked; where no token id is
  -- listed twice.
  pub authenticate-Proves : IsUnique t.tokens → (authenticate p r a t).1 ≡ ok auth → Proves r t auth
  unfolding authenticate require_authenticated
  authenticate-Proves unique h = elim (Result-cases (require_unlocked_keys a.key_material)) [
    | inr (e, q) ↦ cc (rw (q, authenticate) at h)
    | inl (keys, q) ↦
        let with_keys : Providers = record p { keys = keys } in
        let by_cookie_done = get_current_user_via_cookie with_keys r a.rate_limiter t in
        let kept = cookie_keeps_tokens with_keys r a.rate_limiter t in
        elim (Option-cases by_cookie_done.1) [
          | inr (found, c) ↦
              let e : found ≡ auth = cc (rw (q, c, authenticate, require_authenticated) at h) in
              cookie-Proves with_keys r a.rate_limiter t auth (c ∙ ap some e)
          | inl n ↦
              let by_bearer_done = get_current_user_via_bearer with_keys r keys by_cookie_done.0 in
              elim (Option-cases by_bearer_done.1) [
                | inl m ↦ cc (rw (q, n, m, authenticate, require_authenticated) at h)
                | inr (found, b) ↦
                    let e : found ≡ auth =
                      cc (rw (q, n, b, authenticate, require_authenticated) at h) in
                    bearer-Proves with_keys r a.rate_limiter by_cookie_done.0 keys auth t kept
                      (rw kept unique) (b ∙ ap some e)
              ]
        ]
  ]
