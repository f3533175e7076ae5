-- ===== src/Api/Targets.antt =====
-- app/api/targets.py. The supervisor is an argument with its two operations; a request comes with the clock and the
-- random values that it draws. The commits, the audit log and the supervisor do what they are called for.
pub mod Handlers
pub mod Reveal
pub mod Gates
pub mod Removal
mod Tests
use restream_plus.Base.Dict.{Dict}
use restream_plus.Auth.KeyMaterial.{Bytes}
use restream_plus.Auth.Reprompts as Grants
use restream_plus.Auth.Reprompts.{RepromptStore, RepromptScope, consume}
use restream_plus.Crypto.Aead.{Aes, encrypt, decrypt, build_credential_aad, AeadError}
use restream_plus.Domain.TargetTypes.{
  CredentialLifetime, persistent, per_session, refresh_token, TargetType, custom, lifetime_for,
}
use restream_plus.Repositories.Credentials.{
  Credentials, CredentialRow, upsert, get_for_target, delete_for_target,
}
use restream_plus.Repositories.Rows.{SettingValue, target_type_of}
use restream_plus.Repositories.Targets as Rows
use restream_plus.Repositories.Targets.{Targets, TargetRow, TargetUpdate, get_by_id}
use restream_plus.Base.Texts.{Text}
use restream_plus.Base.{
  ℕ, String, Bool, true, false, Option, none, some, ok, err, List, [], ◌∷◌, string_eq, is_some,
  if◌then◌else◌, Result, ◌++◌, leb, ◌==◌, ◌&&◌, not, length, drop, ◌-◌,
}

-- The answers that are errors; the last three are exceptions that end as 500.
pub data TargetApiError : Type 0 where
  reprompt_required reprompt_invalid_or_expired target_not_found credential_not_found unknown_type
        not_text bad_row :
      TargetApiError
  aead_failed : AeadError → TargetApiError

-- `event_type`, and the target that it is about.
abbrev pub AuditEvent : Type 0
AuditEvent = String × String

pub record Desk (Workers : Type 0) : Type 0 where
  pub targets : Targets
  pub credentials : Credentials
  pub reprompts : RepromptStore
  pub workers : Workers
  pub audit : List AuditEvent

-- Who asks, when, and with which grant.
pub record Caller : Type 0 where
  pub user_id : String
  pub now : ℕ
  pub monotonic : ℕ
  pub x_reprompt_grant : Option String

pub record TargetView : Type 0 where
  pub id : String
  pub target_type : TargetType
  pub row : TargetRow
  pub has_credential : Bool
  pub credential_last4 : Option Text

-- `_project_target`: an unknown type is shown as custom.
unfoldable pub project_target : String → TargetRow → Option (String × CredentialRow) → TargetView
project_target id row cred = record {
  id = id;
  target_type = elim (target_type_of row.type_name) [ none ↦ custom | some t ↦ t ];
  row = row;
  has_credential = is_some cred;
  credential_last4 = elim cred [ none ↦ none | some (_, c) ↦ some c.last4 ];
}

abbrev pub lifetime_value : CredentialLifetime → String
lifetime_value persistent = "persistent"
lifetime_value per_session = "per_session"
lifetime_value refresh_token = "refresh_token"

-- `plaintext[-4:] if len(plaintext) >= 4 else plaintext`
abbrev pub last4_of : Text → Text
last4_of s = if leb 4 (length s) then drop (length s - 4) s else s

-- The random values of `set_credential`.
pub record Drawn : Type 0 where
  pub credential_id : String
  pub salt : Bytes
  pub nonce : Bytes

pub record CredentialSummary : Type 0 where
  pub last4 : Text
  pub lifetime : String
  pub created_at : ℕ
  pub expires_at : Option ℕ

abbrev pub summary_of : CredentialRow → CredentialSummary
summary_of row = record {
  last4 = row.last4;
  lifetime = row.lifetime;
  created_at = row.created_at;
  expires_at = row.expires_at;
}

module _ (aes : Aes) (kek : Bytes) (encode_utf8 : Text → Bytes)
    (decode_utf8 : Bytes → Option Text) where
  -- The row of the credential, or the exception of the cipher.
  unfoldable pub seal_key :
      String → CredentialLifetime → Text → Caller → Drawn → Result TargetApiError CredentialRow
  seal_key target_id lifetime plaintext who drawn = elim (build_credential_aad drawn.salt) [
    | err e ↦ err (aead_failed e)
    | ok aad ↦ elim (encrypt aes kek drawn.nonce (encode_utf8 plaintext) aad) [
      | err e ↦ err (aead_failed e)
      | ok (nonce, ciphertext) ↦ ok (record {
        target_id = target_id;
        lifetime = lifetime_value lifetime;
        ciphertext = ciphertext;
        nonce = nonce;
        salt = drawn.salt;
        last4 = last4_of plaintext;
        created_at = who.now;
        expires_at = none;
      })
    ]
  ]

  -- The plaintext of a row, with what the handler makes of each exception.
  unfoldable pub open_key : CredentialRow → Result TargetApiError Text
  open_key cred = elim (build_credential_aad cred.salt) [
    | err e ↦ err (aead_failed e)
    | ok aad ↦ elim (decrypt aes kek cred.nonce cred.ciphertext aad) [
      | err e ↦ err (aead_failed e)
      | ok bytes ↦ elim (decode_utf8 bytes) [ none ↦ err not_text | some plaintext ↦ ok plaintext ]
    ]
  ]
