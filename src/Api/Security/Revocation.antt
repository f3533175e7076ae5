-- ===== src/Api/Security/Revocation.antt =====
-- app/api/security_api.py: what the revocation of one session does to the others.
use restream_plus.Repositories.HttpSessions.Active.{IsActive, list_active_for_user-IsActive}
use restream_plus.Api.Security.Sessions.{
  find_session, revoke_found, RevokeError, session_view, revoke_http_session, is_current_session,
  list_http_sessions, audit_failed, session_not_found,
}
use restream_plus.Base.Texts.{text_eq, same_text}
use restream_plus.Base.{◌∷◌, String, string_eq, ◌≢◌, ◌⊎◌, refl, true}
use restream_plus.Base.Texts.{same_text}
use restream_plus.Base.Dict.{get, IsUnique, get-remove}
use restream_plus.Base.{
  Bool, List, Option, All, false, map, none, Result, if◌then◌else◌, err, Bool-cases, ◌≡◌, ◌==◌,
  some, inl, ◌<◌, [], ok, inr,
}
use Prim.Native.Nat.{ℕ}
use restream_plus.Auth.Deps.{AuthenticatedRequest}
use restream_plus.Auth.KeyMaterial.{Bytes}
use restream_plus.Repositories.HttpSessions.{
  HttpSessionDto, list_active_for_user, HttpSessions, delete, HttpSessionRow,
}

module _ (fingerprint : Bytes → String) where
  -- The first row of the fingerprint, or none of them has it.
  abbrev IsFound :
      (HttpSessionDto → Type 0)
      → AuthenticatedRequest
      → String
      → List HttpSessionDto
      → Option HttpSessionDto
      → Type 0
  IsFound P auth id_fingerprint rows none =
      All (λ view. view.id_fingerprint ≢ id_fingerprint) (map (session_view fingerprint auth) rows)
  IsFound P auth id_fingerprint rows (some session) =
      P session × (fingerprint session.token_hash ≡ id_fingerprint)

  -- A row in front that has another fingerprint.
  passed :
      (P : HttpSessionDto → Type 0) (auth : AuthenticatedRequest) (id_fingerprint : String)
      (row : HttpSessionDto) (rows : List HttpSessionDto) (found : Option HttpSessionDto)
      → fingerprint row.token_hash ≢ id_fingerprint
      → IsFound P auth id_fingerprint rows found
      → IsFound P auth id_fingerprint (row ∷ rows) found
  unfolding session_view
  passed P auth id_fingerprint row rows none differs h = (differs, h)
  passed P auth id_fingerprint row rows (some session) differs h = h

  find_session-IsFound :
      (P : HttpSessionDto → Type 0) (auth : AuthenticatedRequest) (id_fingerprint : String)
      (rows : List HttpSessionDto)
      → All P rows
      → IsFound P auth id_fingerprint rows (find_session fingerprint id_fingerprint rows)
  unfolding find_session
  find_session-IsFound P auth id_fingerprint [] h = tt
  find_session-IsFound P auth id_fingerprint (row ∷ rows) h =
      let ih = find_session-IsFound P auth id_fingerprint rows h.1 in
      let same = string_eq.same_iff (fingerprint row.token_hash) id_fingerprint in
      elim (Bool-cases (fingerprint row.token_hash == id_fingerprint)) [
        | inl hit ↦ rw hit (h.0, same.0 hit)
        | inr miss ↦ rw miss (
            passed P auth id_fingerprint row rows (find_session fingerprint id_fingerprint rows)
              (λ e. cc (miss, same.1 e)) ih)
      ]

  -- One session of the caller is gone, and nothing else is.
  pub record IsRevoked (id_fingerprint : String) (auth : AuthenticatedRequest) (now : ℕ)
      (sessions left : HttpSessions) (answer : Result RevokeError Bool) : Type 0 where
    pub token_hash : Bytes
    pub row : HttpSessionRow
    pub listed : get token_hash sessions ≡ some row
    pub own : row.user_id ≡ auth.user.id
    pub active : now < row.expires_at
    pub named : fingerprint token_hash ≡ id_fingerprint
    pub others :
        (other : Bytes)
        → get other left ≡ (if same_text token_hash other then none else get other sessions)
    pub told :
        (answer ≡ ok (is_current_session auth.artefact token_hash)) ⊎ (answer ≡ err audit_failed)

  -- What the handler promises on each answer.
  abbrev pub RevokePromise :
      String
      → AuthenticatedRequest
      → ℕ
      → HttpSessions
      → HttpSessions
      → Result RevokeError Bool
      → Type 0
  RevokePromise id_fingerprint auth now sessions left (err session_not_found) =
      (left ≡ sessions)
      × All (λ view. view.id_fingerprint ≢ id_fingerprint)
          (list_http_sessions fingerprint auth now sessions)
  RevokePromise id_fingerprint auth now sessions left (err audit_failed) =
      IsRevoked id_fingerprint auth now sessions left (err audit_failed)
  RevokePromise id_fingerprint auth now sessions left (ok clears) =
      IsRevoked id_fingerprint auth now sessions left (ok clears)

  IsFound-IsRevoked :
      (id_fingerprint : String) (auth : AuthenticatedRequest) (now : ℕ) (sessions : HttpSessions)
      (session : HttpSessionDto) {answer : Result RevokeError Bool}
      → IsFound
          (IsActive auth.user.id now sessions)
          auth
          id_fingerprint
          (list_active_for_user auth.user.id now sessions)
          (some session)
      → (answer ≡ ok (is_current_session auth.artefact session.token_hash))
        ⊎ (answer ≡ err audit_failed)
      → IsRevoked id_fingerprint auth now sessions (delete session.token_hash sessions) answer
  unfolding delete
  IsFound-IsRevoked id_fingerprint auth now sessions session ((listed, own, active), named) told =
      record {
        token_hash = session.token_hash;
        row = session.columns;
        listed = listed;
        own = own;
        active = active;
        named = named;
        others = λ other. get-remove session.token_hash other sessions;
        told = told;
      }

  revoke_found-Promise :
      (id_fingerprint : String) (auth : AuthenticatedRequest) (now : ℕ) (appends : Bool)
      (sessions : HttpSessions) (found : Option HttpSessionDto)
      → IsFound
          (IsActive auth.user.id now sessions)
          auth
          id_fingerprint
          (list_active_for_user auth.user.id now sessions)
          found
      → let done = revoke_found fingerprint auth appends sessions found in
        RevokePromise id_fingerprint auth now sessions done.0 done.1
  unfolding revoke_found list_http_sessions delete
  revoke_found-Promise id_fingerprint auth now appends sessions none h = (refl, h)
  revoke_found-Promise id_fingerprint auth now true sessions (some session) h =
      IsFound-IsRevoked id_fingerprint auth now sessions session h (inl refl)
  revoke_found-Promise id_fingerprint auth now false sessions (some session) h =
      IsFound-IsRevoked id_fingerprint auth now sessions session h (inr refl)

  -- Where no session is listed twice: on 404 nothing changes, and no session in the caller's list has
  -- the fingerprint. On any other answer, also when the audit entry fails, one session of the
  -- caller's own that has not expired and has the fingerprint is gone, and every other session of
  -- anybody is as before; on success the cookie is cleared exactly when it is the session of the
  -- request.
  pub revoke_http_session-Promise :
      (id_fingerprint : String) (auth : AuthenticatedRequest) (now : ℕ) (appends : Bool)
      (sessions : HttpSessions)
      → IsUnique sessions
      → let done = revoke_http_session fingerprint id_fingerprint auth now appends sessions in
        RevokePromise id_fingerprint auth now sessions done.0 done.1
  unfolding revoke_http_session
  revoke_http_session-Promise id_fingerprint auth now appends sessions u =
      let rows = list_active_for_user auth.user.id now sessions in
      revoke_found-Promise id_fingerprint auth now appends sessions
        (find_session fingerprint id_fingerprint rows)
        (find_session-IsFound (IsActive auth.user.id now sessions) auth id_fingerprint rows
          (list_active_for_user-IsActive auth.user.id now sessions u))
