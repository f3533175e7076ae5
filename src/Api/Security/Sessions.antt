-- ===== src/Api/Security/Sessions.antt =====
-- app/api/security_api.py: the list of the caller's sessions and the revocation of one of them. The
-- hash of a fingerprint is the parameter `fingerprint`.
use restream_plus.Base.Texts.{text_eq, same_text}
use restream_plus.Base.{◌∷◌, String, string_eq}
use restream_plus.Base.Texts.{same_text}
use restream_plus.Base.{
  Bool, List, Option, false, map, none, Result, if◌then◌else◌, err, ◌==◌, some, [], ok,
}
use Prim.Native.Nat.{ℕ}
use restream_plus.Auth.Deps.{AuthArtefact, AuthenticatedRequest, by_bearer, by_cookie}
use restream_plus.Auth.KeyMaterial.{Bytes}
use restream_plus.Repositories.HttpSessions.{
  HttpSessionDto, list_active_for_user, HttpSessions, delete,
}

pub record HttpSessionView : Type 0 where
  pub id_fingerprint : String
  pub created_at : ℕ
  pub last_seen_at : ℕ
  pub ip : Option String
  pub user_agent : Option String
  pub is_current : Bool

pub data RevokeError : Type 0 where
  session_not_found audit_failed : RevokeError

-- Whether the request came with this very session.
unfoldable pub is_current_session : AuthArtefact → Bytes → Bool
is_current_session (by_bearer token) token_hash = false
is_current_session (by_cookie session) token_hash = same_text token_hash session.token_hash

module _ (fingerprint : Bytes → String) where
  unfoldable pub session_view : AuthenticatedRequest → HttpSessionDto → HttpSessionView
  session_view auth session = record {
    id_fingerprint = fingerprint session.token_hash;
    created_at = session.columns.created_at;
    last_seen_at = session.columns.last_seen_at;
    ip = session.columns.ip;
    user_agent = session.columns.user_agent;
    is_current = is_current_session auth.artefact session.token_hash;
  }

  unfoldable pub list_http_sessions : AuthenticatedRequest → ℕ → HttpSessions → List HttpSessionView
  list_http_sessions auth now sessions =
      map (session_view auth) (list_active_for_user auth.user.id now sessions)

  -- `next(... for row in rows if ...)`
  unfoldable pub find_session : String → List HttpSessionDto → Option HttpSessionDto
  find_session id_fingerprint [] = none
  find_session id_fingerprint (row ∷ rows) =
      let rest = find_session id_fingerprint rows in
      if fingerprint row.token_hash == id_fingerprint then some row else rest

  -- Behind the search. The answer tells whether the cookie is deleted; the audit entry comes after the
  -- commit.
  unfoldable pub revoke_found :
      AuthenticatedRequest
      → Bool
      → HttpSessions
      → Option HttpSessionDto
      → HttpSessions × Result RevokeError Bool
  revoke_found auth appends sessions none = (sessions, err session_not_found)
  revoke_found auth appends sessions (some session) =
      let clears = is_current_session auth.artefact session.token_hash in
      (delete session.token_hash sessions, if appends then ok clears else err audit_failed)

  unfoldable pub revoke_http_session :
      String
      → AuthenticatedRequest
      → ℕ
      → Bool
      → HttpSessions
      → HttpSessions × Result RevokeError Bool
  revoke_http_session id_fingerprint auth now appends sessions =
      revoke_found auth appends sessions
        (find_session id_fingerprint (list_active_for_user auth.user.id now sessions))
