-- ===== src/Api/Security/Rotated.antt =====
-- app/api/security_api.py: what a rotation leaves in the tables, the files and the key material.
use restream_plus.Domain.RunState.{state_eq}
use restream_plus.Api.Security.{rewrap_all}
use restream_plus.Api.Security.Rewrap.{IsRekeyed, IsDrawn, rewrap_all-IsRekeyed}
use restream_plus.Api.Security.Rotate.{
  audit_lost, swap_failed, rename_failed, swap_failed, rename_failed, commit_failed, rewrap_failed,
  RotateError, Appliance, RotateEnvironment, RotationCounts, rewrap_tables, rewrap_failed,
  swap_failed, rename_failed, commit_failed, SaltFiles,
}
use restream_plus.Auth.KeyMaterial.{
  Bytes, DerivedKeys, KeyMaterial, derive_sync, verify_passphrase, rotate_in_place, is_ready,
  require_ready, is_empty, kdf_salt_length,
}
use restream_plus.Auth.KeyMaterial.Verify.{verify_passphrase_iff}
use restream_plus.Crypto.Aead.{Aes}
use restream_plus.Repositories.Credentials.{CredentialRow}
use restream_plus.Repositories.ApiTokens as Bearers
use restream_plus.Repositories.HttpSessions as Http
use restream_plus.Repositories.HttpSessions.{HttpSessions}
use restream_plus.Base.Dict.{get, IsUnique}
use restream_plus.Base.{
  [], ◌∷◌, refl, ◌≡◌, ok, err, inl, inr, some, string_eq, true, none, String, Result, Result-cases,
  eqb, Bool-cases, length, false, ap,
}

-- Every credential holds its plaintext under the new key, and nobody is logged in.
pub record IsRewrapped (aes : Aes) (old_kek new_kek : Bytes) (s s' : Appliance) : Type 0 where
  pub rekeyed :
      (id : String) (row : CredentialRow)
      → get id s.credentials ≡ some row
      → (row' : CredentialRow) × (get id s'.credentials ≡ some row')
        × IsRekeyed aes old_kek new_kek row row'
  pub no_session : s'.sessions ≡ []
  pub no_token : s'.tokens ≡ []

-- The salt on the disk and the keys in memory are the new ones.
pub record IsSwapped (derive_root_key : Bytes → Bytes → Bytes)
    (derive_subkey : Bytes → String → Bytes) (salt passphrase : Bytes) (s s' : Appliance)
    : Type 0 where
  pub held :
      require_ready s'.key_material ≡ ok (derive_sync derive_root_key derive_subkey salt passphrase)
  pub held_salt : s'.key_material.kdf_salt ≡ salt
  pub on_disk : s'.files.kdf_salt ≡ salt
  pub previous : s'.files.previous ≡ some s.files.kdf_salt
  pub verifies : verify_passphrase derive_root_key derive_subkey passphrase s'.key_material ≡ true

-- The salt on the disk and the keys in memory are the old ones.
pub record IsUnswapped (s s' : Appliance) : Type 0 where
  pub same_salt : s'.files.kdf_salt ≡ s.files.kdf_salt
  pub same_keys_held : s'.key_material ≡ s.key_material

pub record IsUntouched (s s' : Appliance) : Type 0 where
  pub same_credentials : s'.credentials ≡ s.credentials
  pub same_sessions : s'.sessions ≡ s.sessions
  pub same_tokens : s'.tokens ≡ s.tokens
  pub unswapped : IsUnswapped s s'

module _ (aes : Aes) (derive_root_key : Bytes → Bytes → Bytes)
    (derive_subkey : Bytes → String → Bytes) (old_keys : DerivedKeys) (passphrase : Bytes)
    (env : RotateEnvironment) where
  abbrev pub new_keys : DerivedKeys
  new_keys = derive_sync derive_root_key derive_subkey env.new_salt passphrase

  abbrev pub IsRotated : Appliance → Appliance → Type 0
  IsRotated s s' =
      IsRewrapped aes old_keys.stream_key_kek new_keys.stream_key_kek s s'
      × IsSwapped derive_root_key derive_subkey env.new_salt passphrase s s'

  -- What the answer says of the state.
  unfoldable pub Promise : Appliance → Appliance → Result RotateError RotationCounts → Type 0
  Promise s s' (ok counts) = IsRotated s s'
  Promise s s' (err audit_lost) = IsRotated s s'
  Promise s s' (err swap_failed) = ⊥
  Promise s s' (err rename_failed) =
      IsRewrapped aes old_keys.stream_key_kek new_keys.stream_key_kek s s'
      × IsUnswapped s s'
      × (s'.files.staged ≡ none)
  Promise s s' (err e) = IsUntouched s s'

  no_rows : (sessions : HttpSessions) → (Http.delete_all sessions).0 ≡ []
  unfolding Http.delete_all Http.delete_where
  no_rows [] = refl
  no_rows (row ∷ sessions) = no_rows sessions

  pub rewrap_tables-IsRewrapped :
      (s s' : Appliance) (counts : RotationCounts)
      → IsDrawn env.draws
      → IsUnique s.credentials
      → rewrap_tables aes derive_root_key derive_subkey old_keys.stream_key_kek
          new_keys.stream_key_kek env s
        ≡ ok (s', counts)
      → IsRewrapped aes old_keys.stream_key_kek new_keys.stream_key_kek s s'
        × (s'.files ≡ s.files)
        × (s'.key_material ≡ s.key_material)
  unfolding rewrap_tables Bearers.delete_all
  rewrap_tables-IsRewrapped s s' counts drawn unique h =
      elim (Result-cases (
        rewrap_all aes old_keys.stream_key_kek new_keys.stream_key_kek env.draws s.credentials
          s.credentials)) [
            | inr (e, q) ↦ cc (rw (rewrap_tables, q) at h)
            | inl (table, q) ↦ elim (Bool-cases env.commits) [
              | inr fails ↦ cc (rw (rewrap_tables, q, fails) at h)
              | inl commits ↦
                  let made : Appliance × RotationCounts = (
                    record s {
                      credentials = table;
                      sessions = (Http.delete_all s.sessions).0;
                      tokens = [];
                    },
                    record {
                      credentials_rewrapped = length s.credentials;
                      sessions_revoked = (Http.delete_all s.sessions).1;
                      api_tokens_revoked = length s.tokens;
                    },
                  ) in
                  let e : made ≡ (s', counts) = cc (rw (rewrap_tables, q, commits) at h) in
                  let e0 : made.0 ≡ s' = ap (λ x. x.0) e in
                  rw (← e0) (
                    record {
                      rekeyed =
                          rewrap_all-IsRekeyed aes old_keys.stream_key_kek new_keys.stream_key_kek
                            env.draws drawn s.credentials s.credentials table unique
                            (λ j row found. found) q;
                      no_session = no_rows s.sessions;
                      no_token = refl;
                    },
                    refl,
                    refl,
                  )
            ]
          ]

  pub rewrap_tables-err :
      (s0 s s' : Appliance) (e : RotateError)
      → rewrap_tables aes derive_root_key derive_subkey old_keys.stream_key_kek
          new_keys.stream_key_kek env s0
        ≡ err e
      → IsUntouched s s'
      → Promise s s' (err e)
  unfolding rewrap_tables Promise
  rewrap_tables-err s0 s s' e h untouched =
      elim (Result-cases (
        rewrap_all aes old_keys.stream_key_kek new_keys.stream_key_kek env.draws s0.credentials
          s0.credentials)) [
            | inr (e', q) ↦
                let is : rewrap_failed e' ≡ e = cc (rw (rewrap_tables, q) at h) in
                rw (← is) untouched
            | inl (table, q) ↦ elim (Bool-cases env.commits) [
              | inr fails ↦
                  let is : commit_failed ≡ e = cc (rw (rewrap_tables, q, fails) at h) in
                  rw (← is) untouched
              | inl commits ↦ cc (rw (rewrap_tables, q, commits) at h)
            ]
          ]

  -- The keys of a rotation in memory.
  pub rotate_in_place-ready :
      (k : KeyMaterial)
      → is_ready k ≡ true
      → eqb (length env.new_salt) kdf_salt_length ≡ true
      → rotate_in_place env.new_salt new_keys k
        ≡ ok (record k { kdf_salt = env.new_salt; keys = some new_keys })
  unfolding rotate_in_place
  rotate_in_place-ready k ready fits = rw (rotate_in_place, ready, fits) refl

  -- The files behind the rename.
  abbrev pub after_rename : SaltFiles → SaltFiles
  after_rename files = record files { kdf_salt = env.new_salt; staged = none }

  pub after_rename-IsSwapped :
      (s s1 : Appliance)
      → is_ready s1.key_material ≡ true
      → is_empty passphrase ≡ false
      → s1.files.previous ≡ some s.files.kdf_salt
      → IsSwapped derive_root_key derive_subkey env.new_salt passphrase s (record s1 {
        files = after_rename s1.files;
        key_material = record s1.key_material { kdf_salt = env.new_salt; keys = some new_keys };
      })
  unfolding require_ready
  after_rename-IsSwapped s s1 ready typed before =
      let k : KeyMaterial = record s1.key_material {
        kdf_salt = env.new_salt;
        keys = some new_keys;
      } in
      let held : require_ready k ≡ ok new_keys = rw (require_ready, ready) refl in
      record {
        held = held;
        held_salt = refl;
        on_disk = refl;
        previous = before;
        verifies =
            (verify_passphrase_iff derive_root_key derive_subkey passphrase k).1 (typed, held);
      }
