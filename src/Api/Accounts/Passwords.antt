-- ===== src/Api/Accounts/Passwords.antt =====
-- app/api/auth.py: a changed password.
use restream_plus.Api.Accounts.{Accounts, Asker, AccountError, change_password, change_granted}
use restream_plus.Auth.Passwords.{verify_password, hash_password}
use restream_plus.Auth.Reprompts as Grants
use restream_plus.Auth.Reprompts.{consume}
use restream_plus.Auth.Sessions.{Providers, verify_cookie, revoke_all_for_user}
use restream_plus.Auth.Sessions.Everywhere.{revoke_all-ends}
use restream_plus.Repositories.Users.{UserDto, UserRow, update_password_hash, Users}
use restream_plus.Repositories.HttpSessions.{HttpSessionDto}
use restream_plus.Base.Dict.{get, get-put_self, IsUnique}
use restream_plus.Base.Texts.{Text, text_eq}
use restream_plus.Base.{
  ℕ, String, true, false, some, ok, err, ◌≡◌, ◌≢◌, refl, string_eq, Bool-cases, Option-cases, ◌==◌,
  inr, inl,
}

password_stored :
    (user_id hash : String) (row : UserRow) (users : Users)
    → get user_id users ≡ some row
    → get user_id (update_password_hash user_id hash users)
      ≡ some (record row { password_hash = hash })
unfolding update_password_hash
password_stored user_id hash row users stored =
    rw (update_password_hash, stored)
      (get-put_self user_id (record row { password_hash = hash }) users)

pub record HasGrant (who : Asker) (s : Accounts) : Type 0 where
  pub grant_id : String
  pub brought : who.x_reprompt_grant ≡ some grant_id
  pub valid :
      (consume s.reprompts grant_id who.monotonic who.user.id Grants.change_password).1 ≡ true

module _ (p : Providers) (argon2_hash : String → String) where
  -- The new password is the one that the user's row accepts, and no cookie is accepted for the user.
  pub record IsChanged (who : Asker) (current_password new_password : String) (s' : Accounts)
      : Type 0 where
    pub hash : String
    pub proved :
        (verify_password p.argon2_accepts p.check_needs_rehash who.user.columns.password_hash
          current_password).accepted
        ≡ true
    pub stored :
        get who.user.id s'.service.users ≡ some (record who.user.columns { password_hash = hash })
    pub accepts :
        (verify_password p.argon2_accepts p.check_needs_rehash hash new_password).accepted ≡ true
    pub logged_out :
        (c : Text) (now : ℕ) (user : UserDto) (session : HttpSessionDto)
        → (verify_cookie p c now s'.service).1 ≡ ok (some (user, session))
        → user.id ≢ who.user.id

  module _ (who : Asker) (current_password new_password : String)
      (accepts_own : (w : String) → p.argon2_accepts (argon2_hash w) w ≡ true) where
    accepted_own :
        (new_password == "") ≡ false
        → (verify_password p.argon2_accepts p.check_needs_rehash
            (argon2_hash new_password)
            new_password).accepted
          ≡ true
    unfolding verify_password
    accepted_own given = rw (verify_password, given, accepts_own new_password) refl

    granted_lem :
        (s : Accounts)
        → IsUnique s.service.sessions
        → get who.user.id s.service.users ≡ some who.user.columns
        → let (s', answer) = change_granted p argon2_hash who current_password new_password s in
          ((answer ≡ ok tt → IsChanged who current_password new_password s')
            × ((e : AccountError) → answer ≡ err e → s'.service ≡ s.service))
    unfolding change_granted hash_password revoke_all_for_user
    granted_lem s unique stored =
        let right =
          (verify_password p.argon2_accepts p.check_needs_rehash who.user.columns.password_hash
            current_password).accepted in
        elim (Bool-cases right) [
          | inr wrong ↦ rw (change_granted, wrong) (λ e. cc e, λ e q. refl)
          | inl matches ↦ elim (Bool-cases (new_password == "")) [
            | inl blank ↦
                rw (change_granted, matches, hash_password, blank) (λ e. cc e, λ e q. refl)
            | inr given ↦
                let hash = argon2_hash new_password in
                let users = update_password_hash who.user.id hash s.service.users in
                rw (change_granted, matches, hash_password, given)
                  (
                    λ e. record {
                      hash = hash;
                      proved = matches;
                      stored =
                          password_stored who.user.id hash who.user.columns s.service.users stored;
                      accepts = accepted_own given;
                      logged_out =
                          (revoke_all-ends p who.user.id (record s.service { users = users })
                            unique).0;
                    },
                    λ e q. cc q,
                  )
          ]
        ]

    -- After success, the caller brought a grant for it of its own and the current password, its row has a hash that the new
    -- password verifies against, and no cookie is accepted for the user afterwards; after an answer
    -- that is an error, users, sessions and the login limiter are as before. The user's row is the one that the
    -- request came with, no session is listed twice, and Argon2 accepts a password against its own hash.
    pub change_password_changes :
        (s : Accounts)
        → IsUnique s.service.sessions
        → get who.user.id s.service.users ≡ some who.user.columns
        → let (s', answer) = change_password p argon2_hash who current_password new_password s in
          (answer ≡ ok tt → HasGrant who s × IsChanged who current_password new_password s')
          × ((e : AccountError) → answer ≡ err e → s'.service ≡ s.service)
    unfolding change_password change_granted
    change_password_changes s unique stored = elim (Option-cases who.x_reprompt_grant) [
      | inl missing ↦ rw (change_password, missing) (λ e. cc e, λ e q. refl)
      | inr (grant_id, asks) ↦
          let (store, granted) =
            consume s.reprompts grant_id who.monotonic who.user.id Grants.change_password in
          let s1 : Accounts = record s { reprompts = store } in
          elim (Bool-cases (grant_id == "")) [
            | inl blank ↦ rw (change_password, asks, blank) (λ e. cc e, λ e q. refl)
            | inr given ↦ elim (Bool-cases granted) [
              | inr invalid ↦ rw (change_password, asks, given, invalid) (λ e. cc e, λ e q. refl)
              | inl valid ↦
                  let goes_on : change_password p argon2_hash who current_password new_password s
                      ≡ change_granted p argon2_hash who current_password new_password s1 =
                    rw (change_password, asks, given, valid) refl in
                  let (done, kept) = granted_lem s1 unique stored in
                  rw goes_on (
                    λ e. (record { grant_id = grant_id; brought = asks; valid = valid }, done e),
                    kept,
                  )
            ]
          ]
    ]
