-- ===== src/Api/Security/Tests.antt =====
-- app/api/security_api.py and app/crypto/aead.py at concrete inputs.
use restream_plus.Api.Security.{unwrap}
use restream_plus.Api.Security.Rewrap.{IsDrawn}
use restream_plus.Api.Security.Rotated.{Promise}
use restream_plus.Api.Security.Rotation.{rotate_passphrase_handler-Promise}
use restream_plus.Api.Security.Rotate.{
  Appliance, RotatePassphraseRequest, RotateEnvironment, rewrap_tables, rotate_phases, rotate_files,
  rotate_locked, rotate_passphrase_handler, rotate_guards, run_active, rename_failed,
}
use restream_plus.Auth.KeyMaterial.{Bytes, DerivedKeys, derive_sync, ready}
use restream_plus.Auth.Reprompts.{RepromptGrant, rotate_passphrase}
use restream_plus.Crypto.Aead.{Aes, bad_key, decryption_failed, encrypt, decrypt}
use restream_plus.Repositories.Credentials.{CredentialRow}
use restream_plus.Repositories.HttpSessions.{HttpSessionRow}
use restream_plus.Repositories.ApiTokens.{ApiTokenRow}
use restream_plus.Domain.RunState.{offline, live}
use restream_plus.Base.{
  [], ◌∷◌, refl, ◌≡◌, ok, err, ◌++◌, none, some, true, false, eqb, if◌then◌else◌, ◌+◌, arith, drop,
  ℕ, String,
}

abbrev pub first_of : Bytes → ℕ
first_of [] = 0
first_of (c ∷ s) = c

abbrev pub total : Bytes → ℕ
total [] = 0
total (c ∷ s) = c + total s

abbrev pub twelve : Bytes
twelve = 0 ∷ 0 ∷ 0 ∷ 0 ∷ 0 ∷ 0 ∷ 0 ∷ 0 ∷ 0 ∷ 0 ∷ 0 ∷ 0 ∷ []

abbrev pub sixteen : ℕ → Bytes
sixteen c = c ∷ 0 ∷ 0 ∷ 0 ∷ twelve

pub first_is : (c : ℕ) → eqb c c ≡ true
first_is c = ground arith

-- The tag holds the first byte of the key.
abbrev pub toy : Aes
toy = record {
  seal = λ k n p a. sixteen (first_of k) ++ p;
  unseal = λ k n c a. if eqb (first_of c) (first_of k) then some (drop 16 c) else none;
  unseal-seal = λ k n p a. rw (first_is (first_of k)) refl;
  length-seal = λ k n p a. omega arith;
}

abbrev pub root : Bytes → Bytes → Bytes
root passphrase salt = passphrase ++ salt

-- A key of 32 bytes.
abbrev pub subkey : Bytes → String → Bytes
subkey k info = total k ∷ 0 ∷ 0 ∷ 0 ∷ twelve ++ sixteen 0

abbrev pub old_salt : Bytes
old_salt = sixteen 5

abbrev pub held : DerivedKeys
held = record {
  stream_key_kek = subkey (root (1 ∷ []) old_salt) "stream-key-wrap-v1";
  api_token_mac_key = subkey (root (1 ∷ []) old_salt) "api-token-mac-v1";
  session_token_mac_key = subkey (root (1 ∷ []) old_salt) "session-token-mac-v1";
}

held-derive_sync : derive_sync root subkey old_salt (1 ∷ []) ≡ held
unfolding derive_sync
held-derive_sync = refl

abbrev stored : CredentialRow
stored = record {
  target_id = "t1";
  lifetime = "persistent";
  ciphertext = sixteen 6 ++ 70 ∷ 71 ∷ [];
  nonce = twelve;
  salt = sixteen 9;
  last4 = [];
  created_at = 3;
  expires_at = none;
}

abbrev browser : HttpSessionRow
browser = record {
  user_id = "root";
  created_at = 1;
  expires_at = 90;
  last_seen_at = 4;
  user_agent = none;
  ip = none;
}

abbrev script : ApiTokenRow
script = record {
  token_hash = 8 ∷ [];
  user_id = "root";
  label = [];
  created_at = 2;
  last_used_at = none;
  revoked_at = none;
}

abbrev rotate_grant : RepromptGrant
rotate_grant = record { user_id = "root"; scope = rotate_passphrase; issued_at = 5 }

abbrev appliance : Appliance
appliance = record {
  files = record { kdf_salt = old_salt; previous = none; staged = none };
  credentials = ("c1", stored) ∷ [];
  sessions = (4 ∷ [], browser) ∷ [];
  tokens = ("a1", script) ∷ [];
  key_material = record {
    kdf_salt = old_salt;
    state = ready;
    keys = some held;
    holder = none;
    waiting = [];
  };
  reprompts = record { ttl = 60; grants = ("g1", rotate_grant) ∷ [] };
  run_state = offline;
  rotation_locked = false;
}

abbrev asked : RotatePassphraseRequest
asked = record {
  old_passphrase = 1 ∷ [];
  new_passphrase = 2 ∷ [];
  x_reprompt_grant = some "g1";
  user_id = "root";
}

abbrev calm : RotateEnvironment
calm = record {
  new_salt = sixteen 7;
  draws = λ id. (sixteen 3, twelve);
  monotonic = 20;
  writes_previous = true;
  writes_staged = true;
  commits = true;
  renames = true;
  audits = true;
}

calm-IsDrawn : IsDrawn calm.draws
calm-IsDrawn id = (refl, refl)

decrypt_ok : decrypt toy held.stream_key_kek twelve stored.ciphertext [] ≡ ok (70 ∷ 71 ∷ [])
unfolding decrypt
decrypt_ok = refl

decrypt_wrong : decrypt toy (subkey (2 ∷ []) "") twelve stored.ciphertext [] ≡ err decryption_failed
unfolding decrypt
decrypt_wrong = refl

encrypt_short : encrypt toy (2 ∷ []) twelve (7 ∷ []) [] ≡ err bad_key
unfolding encrypt
encrypt_short = refl

rotates :
    (rotate_passphrase_handler toy root subkey held asked calm appliance).1
    ≡ ok (record { credentials_rewrapped = 1; sessions_revoked = 1; api_tokens_revoked = 1 })
unfolding rotate_passphrase_handler rotate_guards restream_plus.Auth.Reprompts.consume
    restream_plus.Base.Dict.get rotate_locked restream_plus.Auth.KeyMaterial.verify_passphrase
    rotate_files rotate_phases rewrap_tables restream_plus.Api.Security.rewrap_all
    restream_plus.Api.Security.rewrap_row unwrap restream_plus.Crypto.Aead.build_credential_aad
    decrypt encrypt restream_plus.Auth.KeyMaterial.rotate_in_place
    restream_plus.Repositories.HttpSessions.delete_all
    restream_plus.Repositories.ApiTokens.delete_all derive_sync restream_plus.Auth.Reprompts.answers
    restream_plus.Base.Dict.put restream_plus.Base.Dict.remove
    restream_plus.Repositories.Credentials.rewrap
    restream_plus.Repositories.HttpSessions.delete_where
rotates = refl

rotates_not :
    (rotate_passphrase_handler toy root subkey held asked calm
      (record appliance { run_state = live })).1
    ≡ err run_active
unfolding rotate_passphrase_handler rotate_guards restream_plus.Auth.Reprompts.consume
    restream_plus.Base.Dict.get rotate_locked restream_plus.Auth.KeyMaterial.verify_passphrase
    rotate_files rotate_phases rewrap_tables restream_plus.Api.Security.rewrap_all
    restream_plus.Api.Security.rewrap_row unwrap restream_plus.Crypto.Aead.build_credential_aad
    decrypt encrypt restream_plus.Auth.KeyMaterial.rotate_in_place
    restream_plus.Repositories.HttpSessions.delete_all
    restream_plus.Repositories.ApiTokens.delete_all derive_sync restream_plus.Auth.Reprompts.answers
    restream_plus.Base.Dict.put restream_plus.Base.Dict.remove
    restream_plus.Repositories.Credentials.rewrap
    restream_plus.Repositories.HttpSessions.delete_where
rotates_not = refl

rename_fails :
    (rotate_passphrase_handler toy root subkey held asked
      (record calm { renames = false })
      appliance).1
    ≡ err rename_failed
unfolding rotate_passphrase_handler rotate_guards restream_plus.Auth.Reprompts.consume
    restream_plus.Base.Dict.get rotate_locked restream_plus.Auth.KeyMaterial.verify_passphrase
    rotate_files rotate_phases rewrap_tables restream_plus.Api.Security.rewrap_all
    restream_plus.Api.Security.rewrap_row unwrap restream_plus.Crypto.Aead.build_credential_aad
    decrypt encrypt restream_plus.Auth.KeyMaterial.rotate_in_place
    restream_plus.Repositories.HttpSessions.delete_all
    restream_plus.Repositories.ApiTokens.delete_all derive_sync restream_plus.Auth.Reprompts.answers
    restream_plus.Base.Dict.put restream_plus.Base.Dict.remove
    restream_plus.Repositories.Credentials.rewrap
    restream_plus.Repositories.HttpSessions.delete_where
rename_fails = refl

rotate_passphrase_handler-Promise_example :
    let (s', answer) = rotate_passphrase_handler toy root subkey held asked calm appliance in
    Promise toy root subkey held (2 ∷ []) calm appliance s' answer
unfolding restream_plus.Base.Dict.get
rotate_passphrase_handler-Promise_example =
    rotate_passphrase_handler-Promise toy root subkey held asked calm appliance calm-IsDrawn
      (refl, tt) refl
