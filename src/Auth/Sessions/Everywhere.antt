-- ===== src/Auth/Sessions/Everywhere.antt =====
-- app/auth/sessions.py: `revoke_all_for_user`.
use restream_plus.Auth.KeyMaterial.{Bytes}
use restream_plus.Base.Dict.{IsUnique, get}
use restream_plus.Auth.Sessions.{
  verify_cookie, revoke_all_for_user, Providers, SessionAuthService, compute_session_token_hash,
}
use restream_plus.Repositories.Users.{get_by_id, Users, UserDto}
use restream_plus.Repositories.HttpSessions.{
  get_by_token_hash, delete_where, delete_all_for_user, spared, get-delete_where, HttpSessionRow,
  HttpSessions, HttpSessionDto,
}
use restream_plus.Base.Texts.{text_eq, Text}
use restream_plus.Base.{
  ℕ, [], ◌∷◌, string_eq, refl, ◌==◌, length, ◌≡◌, ◌+◌, arith, Option-cases, ◌≢◌, Bool-cases, inl,
  Result-cases, inr, sym, ◌∙◌, ap, String, Bool, Option, some, ok, leb, none, ◌<◌,
}

length-delete_where :
    (f : HttpSessionRow → Bool) (sessions : HttpSessions)
    → length (delete_where f sessions).0 + (delete_where f sessions).1 ≡ length sessions
unfolding delete_where
length-delete_where f [] = omega arith
length-delete_where f ((k, row) ∷ sessions) = ground (arith, length-delete_where f sessions)

pub get_by_id-id :
    (user_id : String) (users : Users) (user : UserDto)
    → get_by_id user_id users ≡ some user
    → user.id ≡ user_id
unfolding get_by_id
get_by_id-id user_id users user h = elim (Option-cases (get user_id users)) [
  | inl n ↦ cc (rw (n, get_by_id) at h)
  | inr (row, q) ↦
      let found : UserDto = record { id = user_id; columns = row } in
      let e : found ≡ user = cc (rw (q, get_by_id) at h) in rw (← e) refl
]

-- A cookie that is accepted stands for the user of its row.
pub verify_cookie-row :
    (p : Providers) (c : Text) (now : ℕ) (s : SessionAuthService) (user : UserDto)
    (session : HttpSessionDto)
    → (verify_cookie p c now s).1 ≡ ok (some (user, session))
    → (token_hash : Bytes) × (row : HttpSessionRow) × (get token_hash s.sessions ≡ some row)
      × (row.user_id ≡ user.id)
      × (now < row.expires_at)
unfolding verify_cookie get_by_token_hash
verify_cookie-row p c now s user session h = elim (Result-cases (compute_session_token_hash p c)) [
  | inr (e, q) ↦ cc (rw (q, verify_cookie) at h)
  | inl (token_hash, q) ↦ elim (Option-cases (get token_hash s.sessions)) [
    | inl n ↦ cc (rw (q, verify_cookie, n) at h)
    | inr (row, stored) ↦ elim (Bool-cases (leb row.expires_at now)) [
      | inl late ↦ cc (rw (q, verify_cookie, stored, late) at h)
      | inr early ↦ elim (Option-cases (get_by_id row.user_id s.users)) [
        | inl n ↦ cc (rw (q, verify_cookie, stored, early, n) at h)
        | inr (found, known) ↦
            let e : found ≡ user = cc (rw (q, verify_cookie, stored, early, known) at h) in
            (
              token_hash,
              row,
              stored,
              sym (get_by_id-id row.user_id s.users found known) ∙ ap (λ u. u.id) e,
              ground (arith, early),
            )
      ]
    ]
  ]
]

not_spared :
    (user_id : String) (o : Option HttpSessionRow) (row : HttpSessionRow)
    → spared (λ r. r.user_id == user_id) o ≡ some row
    → row.user_id ≢ user_id
not_spared user_id none row h same = cc
not_spared user_id (some r) row h same = elim (Bool-cases (r.user_id == user_id)) [
  | inl hit ↦ cc (rw hit at h)
  | inr miss ↦
      let e : r ≡ row = cc (rw miss at h) in
      cc (miss, (string_eq.same_iff r.user_id user_id).1 (ap (λ x. x.user_id) e ∙ same))
]

others_spared :
    (user_id : String) (row : HttpSessionRow)
    → row.user_id ≢ user_id
    → spared (λ r. r.user_id == user_id) (some row) ≡ some row
others_spared user_id row other = elim (Bool-cases (row.user_id == user_id)) [
  | inl hit ↦ absurd (other ((string_eq.same_iff row.user_id user_id).0 hit))
  | inr miss ↦ rw miss refl
]

-- Logging a user out everywhere: from then on no cookie is accepted for this user, the sessions of every
-- other user are as before, and the count is that of the rows that went; where no row is listed twice.
pub revoke_all-ends :
    (p : Providers) (user_id : String) (s : SessionAuthService)
    → IsUnique s.sessions
    → ((c : Text) (now : ℕ) (user : UserDto) (session : HttpSessionDto)
        → (verify_cookie p c now (revoke_all_for_user user_id s).0).1 ≡ ok (some (user, session))
        → user.id ≢ user_id)
      × ((token_hash : Bytes) (row : HttpSessionRow)
          → row.user_id ≢ user_id
          → get token_hash s.sessions ≡ some row
          → get token_hash (revoke_all_for_user user_id s).0.sessions ≡ some row)
      × (length (revoke_all_for_user user_id s).0.sessions + (revoke_all_for_user user_id s).1
          ≡ length s.sessions)
unfolding revoke_all_for_user delete_all_for_user
revoke_all-ends p user_id s unique =
    let mine : HttpSessionRow → Bool = λ r. r.user_id == user_id in
    let s' = (revoke_all_for_user user_id s).0 in
    (
      λ c now user session accepted.
          let (token_hash, row, stored, same, early) =
            verify_cookie-row p c now s' user session accepted in
          λ is.
            not_spared user_id (get token_hash s.sessions) row
              (sym (get-delete_where mine token_hash s.sessions unique) ∙ stored) (same ∙ is),
      λ token_hash row other stored.
          get-delete_where mine token_hash s.sessions unique
          ∙ ap (spared mine) stored
          ∙ others_spared user_id row other,
      length-delete_where mine s.sessions,
    )
