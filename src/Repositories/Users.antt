-- ===== src/Repositories/Users.antt =====
-- app/repositories/users.py, over the table `users`: the primary key, with the other columns. The check
-- that a time is aware has no counterpart, since a time is a number.
use restream_plus.Base.Dict.{Dict, get, put, IsUnique}
use restream_plus.Base.{
  [], ◌∷◌, string_eq, ℕ, String, Option, none, some, ◌≡◌, string_eq, if◌then◌else◌, Bool-cases,
  ◌==◌, inl, inr, same_refl, arith, refl,
}

pub record UserRow : Type 0 where
  pub username : String
  pub password_hash : String
  pub created_at : ℕ
  pub last_login_at : Option ℕ

pub record UserDto : Type 0 where
  pub id : String
  pub columns : UserRow

abbrev pub Users : Type 0
Users = Dict String UserRow

unfoldable pub get_by_username : String → Users → Option UserDto
get_by_username username [] = none
get_by_username username ((id, row) ∷ users) =
    let rest = get_by_username username users in
    if row.username == username then some (record { id = id; columns = row }) else rest

unfoldable pub get_by_id : String → Users → Option UserDto
get_by_id user_id users = elim (get user_id users) [
  | none ↦ none
  | some row ↦ some (record { id = user_id; columns = row })
]

unfoldable pub update_password_hash : String → String → Users → Users
update_password_hash user_id hash users = elim (get user_id users) [
  | none ↦ users
  | some row ↦ put user_id (record row { password_hash = hash }) users
]

unfoldable pub touch_last_login : String → ℕ → Users → Users
touch_last_login user_id at users = elim (get user_id users) [
  | none ↦ users
  | some row ↦ put user_id (record row { last_login_at = some at }) users
]

-- A user found under a name is the one of its id, where no id is listed twice.
pub get_by_username-get :
    (username : String) (users : Users) (user : UserDto)
    → IsUnique users
    → get_by_username username users ≡ some user
    → get user.id users ≡ some user.columns
unfolding get_by_username get
get_by_username-get username [] user u h = cc
get_by_username-get username ((id, row) ∷ users) user u h =
    elim (Bool-cases (row.username == username)) [
      | inl here ↦
          let found : UserDto = record { id = id; columns = row } in
          let e : found ≡ user = cc (rw (here, get_by_username) at h) in
          rw (← e) (rw (same_refl string_eq id) refl)
      | inr there ↦
          let ih = get_by_username-get username users user u.1 (rw (there, get_by_username) at h) in
          ground (arith, ih, u.0, string_eq.same_iff id user.id)
    ]
