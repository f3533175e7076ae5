-- ===== src/Repositories/Credentials.antt =====
-- app/repositories/credentials.py, over the table `credentials`: the primary key, with the other columns.
pub mod Lookup
use restream_plus.Base.Texts.{Text}
use restream_plus.Auth.KeyMaterial.{Bytes}
use restream_plus.Base.Dict.{Dict, get, put}
use restream_plus.Base.{
  ℕ, string_eq, [], ◌∷◌, String, filter, Result, Option, Bool, none, not, if◌then◌else◌, any, some,
  ◌==◌, ltb, length, err, ok,
}

pub record CredentialRow : Type 0 where
  pub target_id : String
  pub lifetime : String
  pub ciphertext : Bytes
  pub nonce : Bytes
  pub salt : Bytes
  pub last4 : Text
  pub created_at : ℕ
  pub expires_at : Option ℕ

abbrev pub Credentials : Type 0
Credentials = Dict String CredentialRow

pub data CredentialError : Type 0 where
  last4_too_long : CredentialError

-- `DELETE ... WHERE target_id == target_id`
unfoldable pub without_target : String → Credentials → Credentials
without_target target_id = filter (λ e. not (e.1.target_id == target_id))

-- The new row comes under a fresh id.
unfoldable pub upsert : String → CredentialRow → Credentials → Result CredentialError Credentials
upsert credential_id row credentials =
    if ltb 4 (length row.last4)
    then err last4_too_long
    else ok (put credential_id row (without_target row.target_id credentials))

unfoldable pub get_for_target : String → Credentials → Option (String × CredentialRow)
get_for_target target_id [] = none
get_for_target target_id ((id, row) ∷ credentials) =
    let rest = get_for_target target_id credentials in
    if row.target_id == target_id then some (id, row) else rest

unfoldable pub delete_for_target : String → Credentials → Credentials × Bool
delete_for_target target_id credentials =
    (without_target target_id credentials, any (λ e. e.1.target_id == target_id) credentials)

-- The wrapping is replaced; the other columns stay.
abbrev pub rewrapped : Bytes → Bytes → Bytes → CredentialRow → CredentialRow
rewrapped ciphertext nonce salt row = record row {
  ciphertext = ciphertext;
  nonce = nonce;
  salt = salt;
}

unfoldable pub rewrap : String → Bytes → Bytes → Bytes → Credentials → Credentials
rewrap credential_id ciphertext nonce salt credentials = elim (get credential_id credentials) [
  | none ↦ credentials
  | some row ↦ put credential_id (rewrapped ciphertext nonce salt row) credentials
]
