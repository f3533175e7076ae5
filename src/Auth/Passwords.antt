-- ===== src/Auth/Passwords.antt =====
-- app/crypto/passwords.py. The hasher is a library: whether it accepts a password against a stored hash
-- (an exception of its `verify` counts as no), whether a hash wants renewal, and the hash it makes are
-- parameters.
use restream_plus.Base.{Bool, String, if◌then◌else◌, Result, ◌==◌, false, err, true, ok, string_eq}

pub record PasswordVerificationResult : Type 0 where
  pub accepted : Bool
  pub needs_rehash : Bool

pub data PasswordError : Type 0 where
  empty_password : PasswordError

module _ (argon2_accepts : String → String → Bool) (check_needs_rehash : String → Bool) where
  unfoldable pub verify_password : String → String → PasswordVerificationResult
  verify_password stored_hash password =
      if password == ""
      then record { accepted = false; needs_rehash = false }
      else if argon2_accepts stored_hash password
      then record { accepted = true; needs_rehash = check_needs_rehash stored_hash }
      else record { accepted = false; needs_rehash = false }

unfoldable pub hash_password : (String → String) → String → Result PasswordError String
hash_password argon2_hash password =
    if password == "" then err empty_password else ok (argon2_hash password)
