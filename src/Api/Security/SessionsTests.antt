-- ===== src/Api/Security/SessionsTests.antt =====
-- The revocation of a session at concrete inputs.
use restream_plus.Base.Texts.{text_eq}
use restream_plus.Base.{true, none, if◌then◌else◌, eqb, ◌≡◌, ok, err, refl, [], ◌∷◌, String}
use restream_plus.Api.Security.Revocation.{RevokePromise, revoke_http_session-Promise}
use restream_plus.Auth.Deps.{AuthenticatedRequest, by_cookie}
use restream_plus.Base.Dict.{get, IsUnique}
use restream_plus.Auth.KeyMaterial.{Bytes}
use restream_plus.Api.Security.Sessions.{
  revoke_http_session, revoke_found, find_session, is_current_session, session_not_found,
}
use restream_plus.Repositories.HttpSessions.{
  HttpSessions, HttpSessionRow, list_active_for_user, newest_first,
}

abbrev print_of : Bytes → String
print_of [] = "none"
print_of (c ∷ s) = if eqb c 7 then "seven" else "other"

abbrev row_of : String → HttpSessionRow
row_of user_id = record {
  user_id = user_id;
  created_at = 10;
  expires_at = 110;
  last_seen_at = 10;
  user_agent = none;
  ip = none;
}

abbrev two_sessions : HttpSessions
two_sessions = (7 ∷ [], row_of "u1") ∷ (8 ∷ [], row_of "u2") ∷ []

two_sessions-IsUnique : IsUnique two_sessions
unfolding get
two_sessions-IsUnique = (refl, (refl, tt))

abbrev admin : AuthenticatedRequest
admin = record {
  user = record {
    id = "u1";
    columns = record {
      username = "admin";
      password_hash = "";
      created_at = 0;
      last_login_at = none;
    };
  };
  artefact = by_cookie (record { token_hash = 7 ∷ []; columns = row_of "u1" });
}

-- The caller's own session is revoked, and the cookie cleared; another user's is not found.
revoked_own : (revoke_http_session print_of "seven" admin 50 true two_sessions).1 ≡ ok true
unfolding revoke_http_session revoke_found find_session list_active_for_user newest_first
    is_current_session
revoked_own = refl

revoked_other :
    (revoke_http_session print_of "other" admin 50 true two_sessions).1 ≡ err session_not_found
unfolding revoke_http_session revoke_found find_session list_active_for_user newest_first
revoked_other = refl

revoke_http_session-Promise_example :
    RevokePromise print_of "seven" admin 50 two_sessions
      (revoke_http_session print_of "seven" admin 50 true two_sessions).0
      (revoke_http_session print_of "seven" admin 50 true two_sessions).1
revoke_http_session-Promise_example =
    revoke_http_session-Promise print_of "seven" admin 50 true two_sessions two_sessions-IsUnique
