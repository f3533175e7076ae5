-- ===== src/Api/Ws/Handshake.antt =====
-- app/api/ws.py: `ws_endpoint` up to its forward loop, next to the guards of the HTTP handlers
-- (app/auth/deps.py).
use restream_plus.Auth.Deps
use restream_plus.Api.Ws.{WsRegistry, add}
use restream_plus.Repositories.HttpSessions.{
  HttpSessionDto, HttpSessions, get_by_token_hash, delete, touch_last_seen,
}
use restream_plus.Auth.KeyMaterial.{Bytes, KeyMaterial, require_ready, is_empty, is_ready}
use restream_plus.Repositories.Users.{UserDto, Users, get_by_id}
use restream_plus.Base.Texts.{Text}
use restream_plus.Auth.Sessions.{Providers, compute_session_token_hash}
use restream_plus.Base.{
  Option, Result, Bool, none, err, ok, if◌then◌else◌, ◌≡◌, ◌⊎◌, some, leb, not, [], false,
}
use restream_plus.Auth.Deps.{HttpError, GuardedRequest, AuthenticatedRequest, by_cookie, Tables}
use restream_plus.Auth.Deps
use Prim.Native.Nat.{ℕ}

abbrev pub ws_close_auth_fail : ℕ
ws_close_auth_fail = 4401

abbrev pub ws_close_locked : ℕ
ws_close_locked = 4503

-- A handshake that comes to nothing: the code that the socket is closed with, or an exception.
pub data WsEnd : Type 0 where
  ws_closed : ℕ → WsEnd
  ws_raised : WsEnd

module _ (p : Providers) where
  -- The look-up of the session; what is not committed is rolled back.
  unfoldable pub ws_session :
      Bytes → ℕ → Users → HttpSessions → HttpSessions × Result WsEnd (UserDto × HttpSessionDto)
  ws_session token_hash now users sessions = elim (get_by_token_hash token_hash sessions) [
    | none ↦ (sessions, err (ws_closed ws_close_auth_fail))
    | some session ↦
        if leb session.columns.expires_at now
        then (delete token_hash sessions, err (ws_closed ws_close_auth_fail))
        else elim (get_by_id session.columns.user_id users) [
          | none ↦ (sessions, err (ws_closed ws_close_auth_fail))
          | some user ↦ (touch_last_seen token_hash now sessions, ok (user, session))
        ]
  ]

  unfoldable pub ws_unlocked :
      Text
      → ℕ
      → KeyMaterial
      → Users
      → HttpSessions
      → HttpSessions × Result WsEnd (UserDto × HttpSessionDto)
  ws_unlocked cookie_value now key_material users sessions = elim (require_ready key_material) [
    | err e ↦ (sessions, err ws_raised)
    | ok keys ↦
        let with_keys : Providers = record p { keys = keys } in
        elim (compute_session_token_hash with_keys cookie_value) [
          | err e ↦ (sessions, err ws_raised)
          | ok token_hash ↦ ws_session token_hash now users sessions
        ]
  ]

  unfoldable pub ws_handshake :
      Option Text
      → ℕ
      → KeyMaterial
      → Users
      → HttpSessions
      → HttpSessions × Result WsEnd (UserDto × HttpSessionDto)
  ws_handshake none now key_material users sessions = (sessions, err (ws_closed ws_close_auth_fail))
  ws_handshake (some cookie_value) now key_material users sessions =
      if is_empty cookie_value
      then (sessions, err (ws_closed ws_close_auth_fail))
      else if not (is_ready key_material)
      then (sessions, err (ws_closed ws_close_locked))
      else ws_unlocked cookie_value now key_material users sessions

-- A client that is let in stands in the registry with an empty queue once the socket accepts, and
-- not before.
unfoldable pub connect {ℓ} :
    {A : Type ℓ} → ℕ → Bool → Result WsEnd (UserDto × HttpSessionDto) → WsRegistry A → WsRegistry A
connect i accepts (err e) registry = registry
connect i accepts (ok who) registry =
    if accepts then add i (record { queue = []; overflowed = false }) registry else registry

-- The HTTP request of the same cookie, without a bearer token.
abbrev pub ws_request : Option Text → ℕ → GuardedRequest
ws_request cookie now = record {
  cookie = cookie;
  authorization = none;
  x_reprompt_grant = none;
  now = now;
  monotonic = 0;
}

-- A client that is let in, as the guards of a handler give it.
abbrev pub as_request : Result WsEnd (UserDto × HttpSessionDto) → Result WsEnd AuthenticatedRequest
as_request (err e) = err e
as_request (ok (user, session)) = ok (record { user = user; artefact = by_cookie session })

-- The close codes for the answers of the guards.
abbrev pub as_close : Result HttpError AuthenticatedRequest → Result WsEnd AuthenticatedRequest
as_close (ok auth) = ok auth
as_close (err Deps.service_unlocking) = err (ws_closed ws_close_locked)
as_close (err Deps.service_locked) = err (ws_closed ws_close_locked)
as_close (err Deps.unauthorized) = err (ws_closed ws_close_auth_fail)
as_close (err Deps.reprompt_required) = err ws_raised
as_close (err Deps.reprompt_invalid_or_expired) = err ws_raised

-- The socket and the guards agree, but that a socket closed with 4401 may leave the rows alone.
abbrev pub Agree :
    Tables
    → HttpSessions × Result WsEnd (UserDto × HttpSessionDto)
    → Tables × Result HttpError AuthenticatedRequest
    → Type 0
Agree t ws http =
    (as_request ws.1 ≡ as_close http.1)
    × ((ws.0 ≡ http.0.sessions)
        ⊎ ((ws.0 ≡ t.sessions) × (ws.1 ≡ err (ws_closed ws_close_auth_fail))))
