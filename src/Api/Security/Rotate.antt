-- ===== src/Api/Security/Rotate.antt =====
-- app/api/security_api.py: the handler `rotate_passphrase`, phase by phase.
use restream_plus.Api.Security.{rewrap_all}
use restream_plus.Auth.KeyMaterial.{
  Bytes, DerivedKeys, KeyMaterial, derive_sync, verify_passphrase, rotate_in_place, compare_digest,
  is_empty, kdf_salt_length,
}
use restream_plus.Auth.Reprompts.{consume, RepromptStore, rotate_passphrase}
use restream_plus.Crypto.Aead.{Aes, AeadError}
use restream_plus.Repositories.Credentials.{Credentials}
use restream_plus.Repositories.HttpSessions as Http
use restream_plus.Repositories.HttpSessions.{HttpSessions}
use restream_plus.Repositories.ApiTokens as Bearers
use restream_plus.Repositories.ApiTokens.{ApiTokens}
use restream_plus.Domain.RunState.{RunState, offline, state_eq}
use restream_plus.Base.{
  ℕ, string_eq, ok, err, length, eqb, not, none, some, Option, Bool, if◌then◌else◌, ◌==◌, String,
  Result,
}

-- The answers of the handler that are errors; the last eight are exceptions that end as 500.
pub data RotateError : Type 0 where
  reprompt_required reprompt_invalid_or_expired run_active same_passphrase invalid_credentials
        empty_passphrase bad_salt_file write_failed commit_failed rename_failed swap_failed
        audit_lost :
      RotateError
  rewrap_failed : AeadError → RotateError

-- `.kdf_salt`, `.kdf_salt.previous` and the staging file `.kdf_salt.new`.
pub record SaltFiles : Type 0 where
  pub kdf_salt : Bytes
  pub previous : Option Bytes
  pub staged : Option Bytes

pub record Appliance : Type 0 where
  pub files : SaltFiles
  pub credentials : Credentials
  pub sessions : HttpSessions
  pub tokens : ApiTokens
  pub key_material : KeyMaterial
  pub reprompts : RepromptStore
  pub run_state : RunState
  pub rotation_locked : Bool

pub record RotatePassphraseRequest : Type 0 where
  pub old_passphrase : Bytes
  pub new_passphrase : Bytes
  pub x_reprompt_grant : Option String
  pub user_id : String

-- The random values and the clock, and which of the calls on the disk, the database and the audit log succeed.
pub record RotateEnvironment : Type 0 where
  pub new_salt : Bytes
  pub draws : String → Bytes × Bytes
  pub monotonic : ℕ
  pub writes_previous : Bool
  pub writes_staged : Bool
  pub commits : Bool
  pub renames : Bool
  pub audits : Bool

pub record RotationCounts : Type 0 where
  pub credentials_rewrapped : ℕ
  pub sessions_revoked : ℕ
  pub api_tokens_revoked : ℕ

-- The guards that stand in front of the lock; the grant is consumed whatever they say.
unfoldable pub rotate_guards :
    RotatePassphraseRequest → ℕ → Appliance → RepromptStore × Option RotateError
rotate_guards r now s = elim r.x_reprompt_grant [
  | none ↦ (s.reprompts, some reprompt_required)
  | some grant_id ↦
      let (store, granted) = consume s.reprompts grant_id now r.user_id rotate_passphrase in
      if grant_id == ""
      then (s.reprompts, some reprompt_required)
      else if not granted
      then (store, some reprompt_invalid_or_expired)
      else if not (s.run_state == offline)
      then (store, some run_active)
      else if compare_digest r.old_passphrase r.new_passphrase
      then (store, some same_passphrase)
      else if s.rotation_locked
      then (store, some run_active)
      else (store, none)
]

-- The handler of the inner `try`: the staging file goes.
abbrev pub unstage : SaltFiles → SaltFiles
unstage files = record files { staged = none }

module _ (aes : Aes) (derive_root_key : Bytes → Bytes → Bytes)
    (derive_subkey : Bytes → String → Bytes) where
  -- The work of the transaction.
  unfoldable pub rewrap_tables :
      Bytes
      → Bytes
      → RotateEnvironment
      → Appliance
      → Result RotateError (Appliance × RotationCounts)
  rewrap_tables old_kek new_kek env s =
      let (sessions, sessions_revoked) = Http.delete_all s.sessions in
      let (tokens, api_tokens_revoked) = Bearers.delete_all s.tokens in
      elim (rewrap_all aes old_kek new_kek env.draws s.credentials s.credentials) [
        | err e ↦ err (rewrap_failed e)
        | ok credentials ↦
            if env.commits
            then ok (
              record s { credentials = credentials; sessions = sessions; tokens = tokens },
              record {
                credentials_rewrapped = length s.credentials;
                sessions_revoked = sessions_revoked;
                api_tokens_revoked = api_tokens_revoked;
              },
            )
            else err commit_failed
      ]

  -- Phases 2 to 4. The rename moves the staging file; a failure behind it leaves no staging file.
  unfoldable pub rotate_phases :
      DerivedKeys
      → DerivedKeys
      → RotateEnvironment
      → Appliance
      → Appliance × Result RotateError RotationCounts
  rotate_phases old_keys new_keys env s =
      elim (rewrap_tables old_keys.stream_key_kek new_keys.stream_key_kek env s) [
        | err e ↦ (record s { files = unstage s.files }, err e)
        | ok (s1, counts) ↦
            let renamed : SaltFiles = record s1.files { kdf_salt = env.new_salt; staged = none } in
            if not env.renames
            then (record s1 { files = unstage s1.files }, err rename_failed)
            else elim (rotate_in_place env.new_salt new_keys s1.key_material) [
              | err e ↦ (record s1 { files = renamed }, err swap_failed)
              | ok k ↦ (
                record s1 { files = renamed; key_material = k },
                if env.audits then ok counts else err audit_lost,
              )
            ]
      ]

  -- Phase 1, with the two auxiliary files.
  unfoldable pub rotate_files :
      DerivedKeys
      → DerivedKeys
      → RotateEnvironment
      → Appliance
      → Appliance × Result RotateError RotationCounts
  rotate_files old_keys new_keys env s =
      let with_previous : SaltFiles = record s.files { previous = some s.files.kdf_salt } in
      let with_staged : SaltFiles = record with_previous { staged = some env.new_salt } in
      if not (eqb (length s.files.kdf_salt) kdf_salt_length)
      then (s, err bad_salt_file)
      else if not env.writes_previous
      then (s, err write_failed)
      else if not env.writes_staged
      then (record s { files = with_previous }, err write_failed)
      else rotate_phases old_keys new_keys env (record s { files = with_staged })

  -- Inside the lock, which is free again behind it. `old_keys` are the keys that the request came with.
  unfoldable pub rotate_locked :
      DerivedKeys
      → RotatePassphraseRequest
      → RotateEnvironment
      → Appliance
      → Appliance × Result RotateError RotationCounts
  rotate_locked old_keys r env s =
      if not (s.run_state == offline)
      then (s, err run_active)
      else if not (verify_passphrase derive_root_key derive_subkey r.old_passphrase s.key_material)
      then (s, err invalid_credentials)
      else if is_empty r.new_passphrase
      then (s, err empty_passphrase)
      else rotate_files old_keys
          (derive_sync derive_root_key derive_subkey env.new_salt r.new_passphrase) env s

  unfoldable pub rotate_passphrase_handler :
      DerivedKeys
      → RotatePassphraseRequest
      → RotateEnvironment
      → Appliance
      → Appliance × Result RotateError RotationCounts
  rotate_passphrase_handler old_keys r env s =
      let (store, refused) = rotate_guards r env.monotonic s in
      let s1 : Appliance = record s { reprompts = store } in
      elim refused [ some e ↦ (s1, err e) | none ↦ rotate_locked old_keys r env s1 ]
