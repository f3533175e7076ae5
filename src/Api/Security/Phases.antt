-- ===== src/Api/Security/Phases.antt =====
-- app/api/security_api.py: what the phases of a rotation leave behind.
use restream_plus.Domain.RunState.{offline, state_eq}
use restream_plus.Auth.Reprompts.{RepromptStore}
use restream_plus.Api.Security.Rotated.{
  IsUntouched, new_keys, IsRotated, Promise, rewrap_tables-IsRewrapped, rewrap_tables-err,
  rotate_in_place-ready, after_rename-IsSwapped, after_rename,
}
use restream_plus.Api.Security.Rewrap.{IsDrawn}
use restream_plus.Api.Security.Rotate.{
  RotateError, Appliance, RotateEnvironment, RotationCounts, rewrap_tables, rotate_phases, unstage,
  SaltFiles, rotate_files, rotate_locked, RotatePassphraseRequest,
}
use restream_plus.Auth.KeyMaterial.{
  Bytes, DerivedKeys, verify_passphrase, is_ready, is_empty, kdf_salt_length,
}
use restream_plus.Auth.KeyMaterial.Verify.{verify_needs}
use restream_plus.Crypto.Aead.{Aes}
use restream_plus.Base.Dict.{IsUnique}
use restream_plus.Base.{
  refl, ◌≡◌, inl, inr, some, string_eq, true, String, Result, Result-cases, eqb, Bool-cases, length,
  false, ap, ◌∙◌, ◌==◌,
}

module _ (aes : Aes) (derive_root_key : Bytes → Bytes → Bytes)
    (derive_subkey : Bytes → String → Bytes) (old_keys : DerivedKeys) (passphrase : Bytes)
    (env : RotateEnvironment) where
  abbrev Promised : Appliance → Appliance → Result RotateError RotationCounts → Type 0
  Promised = Promise aes derive_root_key derive_subkey old_keys passphrase env

  rotate_phases-Promise :
      (s : Appliance) (files : SaltFiles) (store : RepromptStore)
      → IsDrawn env.draws
      → IsUnique s.credentials
      → is_ready s.key_material ≡ true
      → eqb (length env.new_salt) kdf_salt_length ≡ true
      → is_empty passphrase ≡ false
      → files.kdf_salt ≡ s.files.kdf_salt
      → files.previous ≡ some s.files.kdf_salt
      → let (s', answer) =
          rotate_phases aes derive_root_key derive_subkey old_keys
            (new_keys aes derive_root_key derive_subkey old_keys passphrase env)
            env
            (record s { files = files; reprompts = store }) in
        Promised s s' answer
  unfolding rotate_phases Promise
  rotate_phases-Promise s files store drawn unique ready fits typed same_salt before =
      let s0 : Appliance = record s { files = files; reprompts = store } in
      elim (Result-cases (
        rewrap_tables aes derive_root_key derive_subkey old_keys.stream_key_kek
          (new_keys aes derive_root_key derive_subkey old_keys passphrase env).stream_key_kek env
          s0)) [
            | inr (e, q) ↦
                rw (rotate_phases, q)
                  (rewrap_tables-err aes derive_root_key derive_subkey old_keys passphrase env s0 s
                    (record s0 { files = unstage files }) e q
                    (record {
                      same_credentials = refl;
                      same_sessions = refl;
                      same_tokens = refl;
                      unswapped = record { same_salt = same_salt; same_keys_held = refl };
                    }))
            | inl ((s1, counts), q) ↦
                let (rewrapped_all, files_stay, keys_stay) =
                  rewrap_tables-IsRewrapped aes derive_root_key derive_subkey old_keys passphrase
                    env s0 s1 counts drawn unique q in
                elim (Bool-cases env.renames) [
                  | inr fails ↦
                      rw (rotate_phases, q, fails)
                        (
                          record {
                            rekeyed = rewrapped_all.rekeyed;
                            no_session = rewrapped_all.no_session;
                            no_token = rewrapped_all.no_token;
                          },
                          record {
                            same_salt = ap (λ x. x.kdf_salt) files_stay ∙ same_salt;
                            same_keys_held = keys_stay;
                          },
                          refl,
                        )
                  | inl renames ↦
                      let still_ready : is_ready s1.key_material ≡ true = rw keys_stay ready in
                      let k =
                        rotate_in_place-ready aes derive_root_key derive_subkey old_keys passphrase
                          env s1.key_material still_ready fits in
                      let rotated : IsRotated aes derive_root_key derive_subkey old_keys passphrase
                          env s
                          (record s1 {
                            files =
                                after_rename aes derive_root_key derive_subkey old_keys passphrase
                                  env s1.files;
                            key_material = record s1.key_material {
                              kdf_salt = env.new_salt;
                              keys = some (
                                  new_keys aes derive_root_key derive_subkey old_keys passphrase
                                    env);
                            };
                          }) =
                        (
                          record {
                            rekeyed = rewrapped_all.rekeyed;
                            no_session = rewrapped_all.no_session;
                            no_token = rewrapped_all.no_token;
                          },
                          after_rename-IsSwapped aes derive_root_key derive_subkey old_keys
                              passphrase env s s1 still_ready typed
                              (ap (λ x. x.previous) files_stay ∙ before),
                        ) in
                      elim (Bool-cases env.audits) [
                        | inl logged ↦ rw (rotate_phases, q, renames, k, logged) rotated
                        | inr unlogged ↦ rw (rotate_phases, q, renames, k, unlogged) rotated
                      ]
                ]
          ]

  -- Where only the other files and the grants differ.
  pub spared_record :
      (s : Appliance) (files : SaltFiles) (store : RepromptStore)
      → files.kdf_salt ≡ s.files.kdf_salt
      → IsUntouched s (record s { files = files; reprompts = store })
  spared_record s files store same = record {
    same_credentials = refl;
    same_sessions = refl;
    same_tokens = refl;
    unswapped = record { same_salt = same; same_keys_held = refl };
  }

  rotate_files-Promise :
      (s : Appliance) (store : RepromptStore)
      → IsDrawn env.draws
      → IsUnique s.credentials
      → is_ready s.key_material ≡ true
      → eqb (length env.new_salt) kdf_salt_length ≡ true
      → is_empty passphrase ≡ false
      → let (s', answer) =
          rotate_files aes derive_root_key derive_subkey old_keys
            (new_keys aes derive_root_key derive_subkey old_keys passphrase env)
            env
            (record s { reprompts = store }) in
        Promised s s' answer
  unfolding rotate_files Promise
  rotate_files-Promise s store drawn unique ready fits typed =
      let with_previous : SaltFiles = record s.files { previous = some s.files.kdf_salt } in
      let with_staged : SaltFiles = record with_previous { staged = some env.new_salt } in
      elim (Bool-cases (eqb (length s.files.kdf_salt) kdf_salt_length)) [
        | inr bad ↦ rw (rotate_files, bad) (spared_record s s.files store refl)
        | inl good ↦ elim (Bool-cases env.writes_previous) [
          | inr fails ↦ rw (rotate_files, good, fails) (spared_record s s.files store refl)
          | inl first ↦ elim (Bool-cases env.writes_staged) [
            | inr fails ↦
                rw (rotate_files, good, first, fails) (spared_record s with_previous store refl)
            | inl second ↦
                simp (rotate_files, good, first, second)
                  (rotate_phases-Promise s with_staged store drawn unique ready fits typed refl
                    refl)
          ]
        ]
      ]

  -- The request's passphrase is the one that the keys are derived from.
  pub rotate_locked-Promise :
      (r : RotatePassphraseRequest) (s : Appliance) (store : RepromptStore)
      → r.new_passphrase ≡ passphrase
      → IsDrawn env.draws
      → IsUnique s.credentials
      → eqb (length env.new_salt) kdf_salt_length ≡ true
      → let (s', answer) =
          rotate_locked aes derive_root_key derive_subkey old_keys r env
            (record s { reprompts = store }) in
        Promised s s' answer
  unfolding rotate_locked Promise
  rotate_locked-Promise r s store typed drawn unique fits =
      elim (Bool-cases (s.run_state == offline)) [
        | inr running ↦ rw (rotate_locked, running) (spared_record s s.files store refl)
        | inl idle ↦
            elim (Bool-cases
              (verify_passphrase derive_root_key derive_subkey r.old_passphrase s.key_material)) [
                | inr wrong ↦ rw (rotate_locked, idle, wrong) (spared_record s s.files store refl)
                | inl right ↦ elim (Bool-cases (is_empty r.new_passphrase)) [
                  | inl blank ↦
                      rw (rotate_locked, idle, right, blank) (spared_record s s.files store refl)
                  | inr some_text ↦
                      let ready =
                        (verify_needs derive_root_key derive_subkey r.old_passphrase s.key_material
                          right).0 in
                      let derived =
                        rotate_files-Promise s store drawn unique ready fits
                          (rw (← typed) some_text) in
                      rw (rotate_locked, idle, right, some_text, typed) derived
                ]
              ]
      ]
