-- ===== src/Repositories/HttpSessions.antt =====
-- app/repositories/sessions.py, over the table `sessions`: the primary key, with the other columns.
pub mod Active
use restream_plus.Auth.KeyMaterial.{Bytes}
use restream_plus.Base.Dict.{Dict, get, put, remove, IsUnique, contains}
use restream_plus.Base.Texts.{text_eq, same_text, same_text_iff}
use restream_plus.Base.{
  [], ◌∷◌, string_eq, ℕ, String, Bool, leb, true, Option, ◌==◌, none, Result, some, ◌≡◌, string_eq,
  if◌then◌else◌, err, ok, ◌+◌, refl, Bool-cases, inl, ◌∙◌, ap, inr, List, ◌&&◌, ltb,
}

pub record HttpSessionRow : Type 0 where
  pub user_id : String
  pub created_at : ℕ
  pub expires_at : ℕ
  pub last_seen_at : ℕ
  pub user_agent : Option String
  pub ip : Option String

pub record HttpSessionDto : Type 0 where
  pub token_hash : Bytes
  pub columns : HttpSessionRow

abbrev pub HttpSessions : Type 0
HttpSessions = Dict Bytes HttpSessionRow

-- A second row under the same key is refused by the database.
pub data CreateError : Type 0 where
  integrity_error : CreateError

unfoldable pub create :
    Bytes
    → String
    → ℕ
    → Option String
    → Option String
    → ℕ
    → HttpSessions
    → Result CreateError (HttpSessions × HttpSessionDto)
create token_hash user_id expires_at user_agent ip now sessions =
    let row : HttpSessionRow = record {
      user_id = user_id;
      created_at = now;
      expires_at = expires_at;
      last_seen_at = now;
      user_agent = user_agent;
      ip = ip;
    } in
    if contains token_hash sessions
    then err integrity_error
    else ok (put token_hash row sessions, record { token_hash = token_hash; columns = row })

unfoldable pub get_by_token_hash : Bytes → HttpSessions → Option HttpSessionDto
get_by_token_hash token_hash sessions = elim (get token_hash sessions) [
  | none ↦ none
  | some row ↦ some (record { token_hash = token_hash; columns = row })
]

unfoldable pub touch_last_seen : Bytes → ℕ → HttpSessions → HttpSessions
touch_last_seen token_hash at sessions = elim (get token_hash sessions) [
  | none ↦ sessions
  | some row ↦ put token_hash (record row { last_seen_at = at }) sessions
]

unfoldable pub delete : Bytes → HttpSessions → HttpSessions
delete token_hash sessions = remove token_hash sessions

-- `DELETE ... WHERE`: the rows that are left, and how many were not.
unfoldable pub delete_where : (HttpSessionRow → Bool) → HttpSessions → HttpSessions × ℕ
delete_where p [] = ([], 0)
delete_where p ((token_hash, row) ∷ sessions) =
    let (left, count) = delete_where p sessions in
    if p row then (left, count + 1) else ((token_hash, row) ∷ left, count)

unfoldable pub delete_all_for_user : String → HttpSessions → HttpSessions × ℕ
delete_all_for_user user_id = delete_where (λ row. row.user_id == user_id)

unfoldable pub delete_expired : ℕ → HttpSessions → HttpSessions × ℕ
delete_expired now = delete_where (λ row. leb row.expires_at now)

unfoldable pub delete_all : HttpSessions → HttpSessions × ℕ
delete_all = delete_where (λ row. true)

abbrev pub spared : (HttpSessionRow → Bool) → Option HttpSessionRow → Option HttpSessionRow
spared p none = none
spared p (some row) = if p row then none else some row

-- What a deletion leaves under each key.
pub get-delete_where :
    (p : HttpSessionRow → Bool) (token_hash : Bytes) (sessions : HttpSessions)
    → IsUnique sessions
    → get token_hash (delete_where p sessions).0 ≡ spared p (get token_hash sessions)
unfolding delete_where get
get-delete_where p token_hash [] u = refl
get-delete_where p token_hash ((k, row) ∷ sessions) u =
    let ih = get-delete_where p token_hash sessions u.1 in
    elim (Bool-cases (same_text k token_hash)) [
      | inl hit ↦
          let absent = rw ((same_text_iff k token_hash).0 hit) at u.0 in
          elim (Bool-cases (p row)) [
            | inl gone ↦ rw (hit, gone) (ih ∙ ap (spared p) absent)
            | inr kept ↦ rw (hit, kept) (rw hit refl)
          ]
      | inr miss ↦ elim (Bool-cases (p row)) [
        | inl gone ↦ rw (miss, gone) ih
        | inr kept ↦ rw (miss, kept) (rw miss ih)
      ]
    ]

-- Rows in the order of their last use, the newest first; of two used at once, the one listed first.
unfoldable pub newest_first : HttpSessionDto → List HttpSessionDto → List HttpSessionDto
newest_first session [] = session ∷ []
newest_first session (other ∷ rest) =
    let behind = newest_first session rest in
    if leb other.columns.last_seen_at session.columns.last_seen_at
    then session ∷ other ∷ rest
    else other ∷ behind

unfoldable pub list_active_for_user : String → ℕ → HttpSessions → List HttpSessionDto
list_active_for_user user_id now [] = []
list_active_for_user user_id now ((token_hash, row) ∷ sessions) =
    let rest = list_active_for_user user_id now sessions in
    if (row.user_id == user_id) && ltb now row.expires_at
    then newest_first (record { token_hash = token_hash; columns = row }) rest
    else rest
