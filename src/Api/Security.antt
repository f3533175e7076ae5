-- ===== src/Api/Security.antt =====
-- app/api/security_api.py: the rotation of the master passphrase. The handler is one step: while it awaits, a
-- start and a second rotation are refused by the lock. What the disk and the database do comes with the
-- environment, and so do the random values, which are drawn for each row.
pub mod Rewrap
pub mod Rotate
pub mod Rotated
pub mod Phases
pub mod Rotation
pub mod Sessions
pub mod Revocation
pub mod Tests
pub mod SessionsTests
use restream_plus.Auth.KeyMaterial.{
  Bytes, DerivedKeys, KeyMaterial, derive_sync, verify_passphrase, rotate_in_place, compare_digest,
}
use restream_plus.Auth.Reprompts.{consume}
use restream_plus.Crypto.Aead.{Aes, encrypt, decrypt, build_credential_aad, AeadError}
use restream_plus.Repositories.Credentials.{Credentials, CredentialRow, rewrap, rewrapped}
use restream_plus.Base.{ℕ, string_eq, [], ◌∷◌, Result, String, List, err, ok, ◌+◌}

-- The two calls with which a row is read.
unfoldable pub unwrap : Aes → Bytes → CredentialRow → Result AeadError Bytes
unwrap aes kek row = elim (build_credential_aad row.salt) [
  | err e ↦ err e
  | ok aad ↦ decrypt aes kek row.nonce row.ciphertext aad
]

module _ (aes : Aes) (old_kek new_kek : Bytes) (draws : String → Bytes × Bytes) where
  -- The row's plaintext under the new key, with a fresh salt and nonce.
  unfoldable pub rewrap_row : String → CredentialRow → Result AeadError CredentialRow
  rewrap_row id row = elim (unwrap aes old_kek row) [
    | err e ↦ err e
    | ok plaintext ↦
        let (salt, nonce) = draws id in
        elim (build_credential_aad salt) [
          | err e ↦ err e
          | ok aad ↦ elim (encrypt aes new_kek nonce plaintext aad) [
            | err e ↦ err e
            | ok (nonce', ciphertext) ↦ ok (rewrapped ciphertext nonce' salt row)
          ]
        ]
  ]

  -- The loop of the transaction over the rows that were listed.
  unfoldable pub rewrap_all :
      List (String × CredentialRow) → Credentials → Result AeadError Credentials
  rewrap_all [] table = ok table
  rewrap_all ((id, row) ∷ rows) table = elim (rewrap_row id row) [
    | err e ↦ err e
    | ok row' ↦ rewrap_all rows (rewrap id row'.ciphertext row'.nonce row'.salt table)
  ]
