-- ===== src/Api/Accounts.antt =====
-- app/api/auth.py. A request comes with the clocks and the random values. A request to unlock is cut where it awaits the
-- derivation; the cookie that the client is told to drop is not modelled.
pub mod Passwords
pub mod Unlocking
mod Tests
use restream_plus.Auth.KeyMaterial.{
  KeyMaterial, KeyError, Outcome, suspends, returns, raises, ready, finish, Bytes, is_ready,
}
use restream_plus.Auth.KeyMaterial as Keys
use restream_plus.Auth.Passwords.{verify_password, hash_password}
use restream_plus.Auth.RateLimit as Limits
use restream_plus.Auth.RateLimit.{LoginRateLimiter}
use restream_plus.Auth.Reprompts as Grants
use restream_plus.Auth.Reprompts.{RepromptStore, RepromptScope, consume, issue}
use restream_plus.Auth.Sessions.{
  SessionAuthService, Providers, LoginRequest, LoginError, LoginOutcome, rate_limited,
  invalid_credentials, login, revoke, revoke_all_for_user,
}
use restream_plus.Repositories.Users.{UserDto, UserRow, update_password_hash}
use restream_plus.Base.Texts.{Text, is_empty}
use restream_plus.Base.{
  ℕ, String, Bool, true, false, Option, none, some, ok, err, string_eq, if◌then◌else◌, Result, ◌==◌,
  not,
}

-- The answers that are errors; `failed` is an exception that ends as 500.
pub data AccountError : Type 0 where
  wrong_credentials reprompt_required reprompt_invalid_or_expired bad_request unlock_failed failed :
      AccountError
  login_limited unlock_limited : ℕ → AccountError

pub record Accounts : Type 0 where
  pub service : SessionAuthService
  pub reprompts : RepromptStore
  pub unlock_rate_limiter : LoginRateLimiter
  pub key_material : KeyMaterial

-- A user who is logged in, with a grant in the header, and the monotonic clock.
pub record Asker : Type 0 where
  pub user : UserDto
  pub monotonic : ℕ
  pub x_reprompt_grant : Option String

-- `RepromptScope(scope)`
unfoldable pub scope_of : String → Option RepromptScope
scope_of name =
    if name == "reveal_stream_key"
    then some Grants.reveal_stream_key
    else if name == "regenerate_ingest_key"
    then some Grants.regenerate_ingest_key
    else if name == "rotate_passphrase"
    then some Grants.rotate_passphrase
    else if name == "change_password"
    then some Grants.change_password
    else if name == "delete_target"
    then some Grants.delete_target
    else if name == "revoke_api_token"
    then some Grants.revoke_api_token
    else if name == "clear_credential"
    then some Grants.clear_credential
    else if name == "reveal_ingest_key"
    then some Grants.reveal_ingest_key
    else none

-- The name under which every attempt to unlock is counted.
abbrev pub unlock_name : String
unlock_name = "__unlock__"

module _ (p : Providers) where
  -- With the user whose password is hashed anew behind the response, if any.
  unfoldable pub login_handler :
      LoginRequest
      → Accounts
      → Accounts × Result AccountError (LoginOutcome × Option (String × String))
  login_handler r s =
      let (service, answer) = login p r s.service in
      let s1 : Accounts = record s { service = service } in
      elim answer [
        | err e ↦ elim e [
          | rate_limited n ↦ (s1, err (login_limited n))
          | invalid_credentials ↦ (s1, err wrong_credentials)
          | _ ↦ (s1, err failed)
        ]
        | ok outcome ↦ (
          s1,
          ok (outcome, if outcome.needs_rehash then some (outcome.user.id, r.password) else none),
        )
      ]

  -- A cookie that is missing or empty revokes nothing.
  unfoldable pub logout : Text → Accounts → Accounts
  logout cookie_value s =
      if is_empty cookie_value
      then s
      else record s { service = (revoke p cookie_value s.service).0 }

  abbrev pub logout_all : Asker → Accounts → Accounts
  logout_all who s = record s { service = (revoke_all_for_user who.user.id s.service).0 }

  module _ (argon2_hash : String → String) where
    -- The background task of a login.
    unfoldable pub rehash_admin_password : String → String → Accounts → Accounts
    rehash_admin_password user_id plaintext s = elim (hash_password argon2_hash plaintext) [
      | err e ↦ s
      | ok new_hash ↦ record s {
        service = record s.service {
          users = update_password_hash user_id new_hash s.service.users;
        };
      }
    ]

    -- Behind the grant.
    unfoldable pub change_granted :
        Asker → String → String → Accounts → Accounts × Result AccountError (Unit {0})
    change_granted who current_password new_password s =
        if not
          (verify_password p.argon2_accepts p.check_needs_rehash who.user.columns.password_hash
            current_password).accepted
        then (s, err wrong_credentials)
        else elim (hash_password argon2_hash new_password) [
          | err e ↦ (s, err failed)
          | ok new_hash ↦
              let users = update_password_hash who.user.id new_hash s.service.users in
              let (service, count) =
                revoke_all_for_user who.user.id (record s.service { users = users }) in
              (record s { service = service }, ok tt)
        ]

    unfoldable pub change_password :
        Asker → String → String → Accounts → Accounts × Result AccountError (Unit {0})
    change_password who current_password new_password s = elim who.x_reprompt_grant [
      | none ↦ (s, err reprompt_required)
      | some grant_id ↦
          let (store, granted) =
            consume s.reprompts grant_id who.monotonic who.user.id Grants.change_password in
          let s1 : Accounts = record s { reprompts = store } in
          if grant_id == ""
          then (s, err reprompt_required)
          else if granted
          then change_granted who current_password new_password s1
          else (s1, err reprompt_invalid_or_expired)
    ]

  -- The id of the grant is drawn.
  unfoldable pub issue_reprompt_grant :
      Asker → String → String → String → Accounts → Accounts × Result AccountError String
  issue_reprompt_grant who scope_name password grant_id s = elim (scope_of scope_name) [
    | none ↦ (s, err bad_request)
    | some scope ↦
        if not
          (verify_password p.argon2_accepts p.check_needs_rehash who.user.columns.password_hash
            password).accepted
        then (s, err wrong_credentials)
        else elim (issue s.reprompts grant_id who.monotonic who.user.id scope) [
          | err e ↦ (s, err failed)
          | ok store ↦ (record s { reprompts = store }, ok grant_id)
        ]
  ]

  abbrev pub count_failure : String → ℕ → Accounts → Accounts
  count_failure ip now s = record s {
    unlock_rate_limiter =
        Limits.record_failure p.normalize s.unlock_rate_limiter ip unlock_name now;
  }

  -- What the handler makes of a step of the key material: an answer, or none while it waits.
  unfoldable pub answered :
      String
      → ℕ
      → Outcome
      → KeyMaterial
      → Accounts
      → Accounts × Option (Result AccountError (Unit {0}))
  answered ip failed_at outcome k s =
      let s1 : Accounts = record s { key_material = k } in
      elim outcome [
        | suspends ↦ (s1, none)
        | returns ↦ (s1, some (ok tt))
        | raises e ↦ (count_failure ip failed_at s1, some (err unlock_failed))
      ]

  -- Up to the lock or the derivation.
  unfoldable pub begin_unlock :
      String → Bytes → ℕ → ℕ → Accounts → Accounts × Option (Result AccountError (Unit {0}))
  begin_unlock ip passphrase checked_at failed_at s =
      let (limiter, decision) =
        Limits.check p.normalize s.unlock_rate_limiter ip unlock_name checked_at in
      let s1 : Accounts = record s { unlock_rate_limiter = limiter } in
      let (outcome, k) = Keys.unlock passphrase s.key_material in
      if not decision.allowed
      then (s1, some (err (unlock_limited decision.retry_after_seconds)))
      else if is_ready s.key_material
      then (s1, some (ok tt))
      else answered ip failed_at outcome k s1

  -- The first request that waits for the lock, once it is free.
  unfoldable pub resume_unlock :
      String → ℕ → Accounts → Accounts × Option (Result AccountError (Unit {0}))
  resume_unlock ip failed_at s =
      let (outcome, k) = Keys.resume s.key_material s.key_material.holder s.key_material.waiting in
      answered ip failed_at outcome k s

  -- From the end of the derivation, which came out or raised.
  module _ (derive_root_key : Bytes → Bytes → Bytes) (derive_subkey : Bytes → String → Bytes) where
    unfoldable pub end_unlock :
        String → Bool → ℕ → Accounts → Accounts × Option (Result AccountError (Unit {0}))
    end_unlock ip derives failed_at s =
        let (outcome, k) =
          finish derive_root_key derive_subkey derives s.key_material s.key_material.holder in
        answered ip failed_at outcome k s
