-- ===== src/Crypto/Aead.antt =====
-- app/crypto/aead.py. AES-GCM is a library: its two operations come with the two facts that the code relies on,
-- that what was encrypted is decrypted under the same key, nonce and data, and that the tag has 16 bytes.
-- The random nonce is an argument of `encrypt`.
use restream_plus.Base.Texts.{codes}
use restream_plus.Auth.KeyMaterial.{Bytes, kdf_salt_length}
use restream_plus.Base.{
  ℕ, Option, Result, Bool, length, ◌≡◌, if◌then◌else◌, eqb, some, ok, not, ◌+◌, ◌++◌, err,
  Bool-cases, ltb, inr, inl, none, true, arith, false, refl,
}

pub record Aes : Type 0 where
  pub seal : Bytes → Bytes → Bytes → Bytes → Bytes
  pub unseal : Bytes → Bytes → Bytes → Bytes → Option Bytes
  pub unseal-seal :
      (key nonce plaintext aad : Bytes)
      → unseal key nonce (seal key nonce plaintext aad) aad ≡ some plaintext
  pub length-seal :
      (key nonce plaintext aad : Bytes)
      → length (seal key nonce plaintext aad) ≡ length plaintext + 16

abbrev pub derived_key_length : ℕ
derived_key_length = 32

abbrev pub aead_nonce_length : ℕ
aead_nonce_length = 12

abbrev pub gcm_tag_length : ℕ
gcm_tag_length = 16

-- The `ValueError`s, and `AEADDecryptionError`.
pub data AeadError : Type 0 where
  bad_salt bad_key bad_nonce short_ciphertext decryption_failed : AeadError

abbrev pub aad_credential_stream_key_v1 : Bytes
aad_credential_stream_key_v1 = codes "credential:stream_key:v1"

unfoldable pub build_credential_aad : Bytes → Result AeadError Bytes
build_credential_aad salt =
    if eqb (length salt) kdf_salt_length
    then ok (aad_credential_stream_key_v1 ++ salt)
    else err bad_salt

abbrev pub valid_key : Bytes → Bool
valid_key key = eqb (length key) derived_key_length

module _ (aes : Aes) where
  -- The nonce, which has the right length by its making, and the ciphertext.
  unfoldable pub encrypt : Bytes → Bytes → Bytes → Bytes → Result AeadError (Bytes × Bytes)
  encrypt key nonce plaintext aad =
      if valid_key key then ok (nonce, aes.seal key nonce plaintext aad) else err bad_key

  unfoldable pub decrypt : Bytes → Bytes → Bytes → Bytes → Result AeadError Bytes
  decrypt key nonce ciphertext aad =
      if not (valid_key key)
      then err bad_key
      else if not (eqb (length nonce) aead_nonce_length)
      then err bad_nonce
      else if ltb (length ciphertext) gcm_tag_length
      then err short_ciphertext
      else elim (aes.unseal key nonce ciphertext aad) [
        | none ↦ err decryption_failed
        | some plaintext ↦ ok plaintext
      ]

  -- What `encrypt` returns, `decrypt` takes back to the plaintext, when the nonce has its 12 bytes.
  pub decrypt-encrypt :
      (key nonce plaintext aad : Bytes) (sealed : Bytes × Bytes)
      → length nonce ≡ aead_nonce_length
      → encrypt key nonce plaintext aad ≡ ok sealed
      → decrypt key sealed.0 sealed.1 aad ≡ ok plaintext
  unfolding encrypt decrypt
  decrypt-encrypt key nonce plaintext aad sealed twelve h = elim (Bool-cases (valid_key key)) [
    | inr invalid ↦ cc (rw (invalid, encrypt) at h)
    | inl valid ↦
        let made : Bytes × Bytes = (nonce, aes.seal key nonce plaintext aad) in
        let e : made ≡ sealed = cc (rw (valid, encrypt) at h) in
        let nonce_fits : eqb (length nonce) aead_nonce_length ≡ true = ground (arith, twelve) in
        let tag_fits : ltb (length (aes.seal key nonce plaintext aad)) gcm_tag_length ≡ false =
          ground (arith, aes.length-seal key nonce plaintext aad) in
        rw (← e, valid, nonce_fits, tag_fits, aes.unseal-seal key nonce plaintext aad) refl
  ]
