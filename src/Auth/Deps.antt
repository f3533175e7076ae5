-- ===== src/Auth/Deps.antt =====
-- app/auth/deps.py: the dependencies in front of a guarded handler, in the order in which they are resolved,
-- and the transaction around them.
pub mod Guards
pub mod Identity
use restream_plus.Base.Texts.{Text}
use restream_plus.Repositories.ApiTokens.{ApiTokenDto, ApiTokens}
use restream_plus.Repositories.HttpSessions.{HttpSessionDto, HttpSessions}
use restream_plus.Auth.RateLimit.{LoginRateLimiter}
use restream_plus.Repositories.Users.{UserDto, Users, get_by_id}
use restream_plus.Auth.KeyMaterial.{
  KeyMaterial, DerivedKeys, require_ready, unlocking, is_empty, KeyMaterialState, locked, ready,
}
use restream_plus.Auth.Sessions.{Providers, SessionAuthService, verify_cookie}
use restream_plus.Auth.ApiTokens.{verify_bearer, extract_bearer_from_authorization}
use restream_plus.Auth.Reprompts.{RepromptStore, RepromptScope, consume}
use restream_plus.Base.{
  ℕ, string_eq, Option, Result, some, err, none, String, ok, if◌then◌else◌, ◌==◌, is_ok, Bool,
  false, true,
}

pub data HttpError : Type 0 where
  service_unlocking service_locked unauthorized reprompt_required reprompt_invalid_or_expired :
      HttpError

-- `via` with the row that proved it.
pub data AuthArtefact : Type 0 where
  by_cookie : HttpSessionDto → AuthArtefact
  by_bearer : ApiTokenDto → AuthArtefact

pub record AuthenticatedRequest : Type 0 where
  pub user : UserDto
  pub artefact : AuthArtefact

-- The tables, which the session of a request may change.
pub record Tables : Type 0 where
  pub users : Users
  pub sessions : HttpSessions
  pub tokens : ApiTokens

-- The parts of the process-wide state that the guards use; the keys of the providers are replaced by those that are unlocked.
pub record AuthState : Type 0 where
  pub key_material : KeyMaterial
  pub rate_limiter : LoginRateLimiter
  pub reprompts : RepromptStore

-- What a request brings, and the readings of the clocks.
pub record GuardedRequest : Type 0 where
  pub cookie : Option Text
  pub authorization : Option Text
  pub x_reprompt_grant : Option String
  pub now : ℕ
  pub monotonic : ℕ

abbrev pub is_unlocking : KeyMaterialState → Bool
is_unlocking locked = false
is_unlocking unlocking = true
is_unlocking ready = false

unfoldable pub require_unlocked_keys : KeyMaterial → Result HttpError DerivedKeys
require_unlocked_keys k =
    if is_unlocking k.state
    then err service_unlocking
    else elim (require_ready k) [ ok keys ↦ ok keys | err e ↦ err service_locked ]

unfoldable pub require_authenticated :
    Option AuthenticatedRequest
    → Option AuthenticatedRequest
    → Result HttpError AuthenticatedRequest
require_authenticated (some auth) via_bearer = ok auth
require_authenticated none (some auth) = ok auth
require_authenticated none none = err unauthorized

unfoldable pub require_reprompt_grant :
    RepromptScope
    → AuthenticatedRequest
    → GuardedRequest
    → RepromptStore
    → RepromptStore × Result HttpError AuthenticatedRequest
require_reprompt_grant scope auth r store = elim r.x_reprompt_grant [
  | none ↦ (store, err reprompt_required)
  | some grant_id ↦
      let (after, granted) = consume store grant_id r.monotonic auth.user.id scope in
      if grant_id == ""
      then (store, err reprompt_required)
      else if granted
      then (after, ok auth)
      else (after, err reprompt_invalid_or_expired)
]

module _ (p : Providers) where
  unfoldable pub get_current_user_via_cookie :
      GuardedRequest → LoginRateLimiter → Tables → Tables × Option AuthenticatedRequest
  get_current_user_via_cookie r limiter t = elim r.cookie [
    | none ↦ (t, none)
    | some cookie_value ↦
        let service : SessionAuthService = record {
          users = t.users;
          sessions = t.sessions;
          rate_limiter = limiter;
        } in
        let (after, result) = verify_cookie p cookie_value r.now service in
        let t' : Tables = record t { users = after.users; sessions = after.sessions } in
        if is_empty cookie_value then (t, none) else elim result [
          | err e ↦ (t', none)
          | ok none ↦ (t', none)
          | ok (some (user, session)) ↦
              (t', some (record { user = user; artefact = by_cookie session }))
        ]
  ]

  unfoldable pub get_current_user_via_bearer :
      GuardedRequest → DerivedKeys → Tables → Tables × Option AuthenticatedRequest
  get_current_user_via_bearer r keys t = elim (extract_bearer_from_authorization r.authorization) [
    | none ↦ (t, none)
    | some plaintext ↦
        let (tokens, found) = verify_bearer p.hmac_sha256 keys (some plaintext) r.now t.tokens in
        let t' : Tables = record t { tokens = tokens } in
        elim found [
          | none ↦ (t', none)
          | some dto ↦ elim (get_by_id dto.user_id t.users) [
            | none ↦ (t', none)
            | some user ↦ (t', some (record { user = user; artefact = by_bearer dto }))
          ]
        ]
  ]

-- The services are built with the keys that are unlocked.
module _ (p : Providers) where
  -- Both ways are tried, the cookie first, whatever it gives.
  unfoldable pub authenticate :
      GuardedRequest → AuthState → Tables → Tables × Result HttpError AuthenticatedRequest
  authenticate r a t = elim (require_unlocked_keys a.key_material) [
    | err e ↦ (t, err e)
    | ok keys ↦
        let with_keys : Providers = record p { keys = keys } in
        let (t1, via_cookie) = get_current_user_via_cookie with_keys r a.rate_limiter t in
        let (t2, via_bearer) = get_current_user_via_bearer with_keys r keys t1 in
        (t2, require_authenticated via_cookie via_bearer)
  ]
