-- ===== src/Api/Security/Rotation.antt =====
-- app/api/security_api.py: what a rotation leaves behind, whichever way it ends.
use restream_plus.Domain.RunState.{offline, state_eq}
use restream_plus.Auth.Reprompts.{rotate_passphrase, consume}
use restream_plus.Api.Security.Phases.{rotate_locked-Promise, spared_record}
use restream_plus.Api.Security.Rotated.{IsUntouched, Promise}
use restream_plus.Api.Security.Rewrap.{IsDrawn}
use restream_plus.Api.Security.Rotate.{
  RotateError, Appliance, RotateEnvironment, RotationCounts, RotatePassphraseRequest, rotate_guards,
  rotate_passphrase_handler, reprompt_required, reprompt_invalid_or_expired, run_active,
  same_passphrase,
}
use restream_plus.Auth.KeyMaterial.{Bytes, DerivedKeys, kdf_salt_length, compare_digest}
use restream_plus.Crypto.Aead.{Aes}
use restream_plus.Base.Dict.{IsUnique}
use restream_plus.Base.{
  refl, ◌≡◌, err, inl, inr, some, string_eq, String, Result, Bool-cases, length, ◌==◌, Option-cases,
  arith,
}

module _ (aes : Aes) (derive_root_key : Bytes → Bytes → Bytes)
    (derive_subkey : Bytes → String → Bytes) (old_keys : DerivedKeys) (passphrase : Bytes)
    (env : RotateEnvironment) where
  abbrev Promised : Appliance → Appliance → Result RotateError RotationCounts → Type 0
  Promised = Promise aes derive_root_key derive_subkey old_keys passphrase env

  known_answer :
      (s s' : Appliance) (e0 e : RotateError)
      → some e0 ≡ some e
      → Promised s s' (err e0)
      → Promised s s' (err e)
  known_answer s s' e0 e h p = let is : e0 ≡ e = cc h in rw (← is) p

  guards_lem :
      (r : RotatePassphraseRequest) (s s' : Appliance) (e : RotateError)
      → (rotate_guards r env.monotonic s).1 ≡ some e
      → IsUntouched s s'
      → Promised s s' (err e)
  unfolding rotate_guards Promise
  guards_lem r s s' e h untouched = elim (Option-cases r.x_reprompt_grant) [
    | inl missing ↦
        known_answer s s' reprompt_required e (rw (rotate_guards, missing) at h) untouched
    | inr (grant_id, given) ↦
        let granted = (consume s.reprompts grant_id env.monotonic r.user_id rotate_passphrase).1 in
        elim (Bool-cases (grant_id == "")) [
          | inl blank ↦
              known_answer s s' reprompt_required e (rw (rotate_guards, given, blank) at h)
                untouched
          | inr typed ↦ elim (Bool-cases granted) [
            | inr refused ↦
                known_answer s s' reprompt_invalid_or_expired e
                  (rw (rotate_guards, given, typed, refused) at h) untouched
            | inl valid ↦ elim (Bool-cases (s.run_state == offline)) [
              | inr running ↦
                  known_answer s s' run_active e
                    (rw (rotate_guards, given, typed, valid, running) at h) untouched
              | inl idle ↦ elim (Bool-cases (compare_digest r.old_passphrase r.new_passphrase)) [
                | inl same ↦
                    known_answer s s' same_passphrase e
                      (rw (rotate_guards, given, typed, valid, idle, same) at h) untouched
                | inr other ↦ elim (Bool-cases s.rotation_locked) [
                  | inl busy ↦
                      known_answer s s' run_active e
                        (rw (rotate_guards, given, typed, valid, idle, other, busy) at h) untouched
                  | inr free ↦ cc (rw (rotate_guards, given, typed, valid, idle, other, free) at h)
                ]
              ]
            ]
          ]
        ]
  ]

  handler_lem :
      (r : RotatePassphraseRequest) (s : Appliance)
      → r.new_passphrase ≡ passphrase
      → IsDrawn env.draws
      → IsUnique s.credentials
      → length env.new_salt ≡ kdf_salt_length
      → let (s', answer) =
          rotate_passphrase_handler aes derive_root_key derive_subkey old_keys r env s in
        Promised s s' answer
  unfolding rotate_passphrase_handler
  handler_lem r s typed drawn unique sixteen =
      let (store, refused) = rotate_guards r env.monotonic s in
      elim (Option-cases refused) [
        | inr (e, q) ↦
            rw (rotate_passphrase_handler, q)
              (guards_lem r s (record s { reprompts = store }) e q
                (spared_record aes derive_root_key derive_subkey old_keys passphrase env s s.files
                  store refl))
        | inl passes ↦
            rw (rotate_passphrase_handler, passes)
              (rotate_locked-Promise aes derive_root_key derive_subkey old_keys passphrase env r s
                store typed drawn unique (ground (arith, sixteen)))
      ]

-- After the handler, on every answer: after 204 every credential can be read under the keys that the new
-- passphrase and the new salt give, with its plaintext, and these keys are in memory, the salt on the disk, and the
-- new passphrase verifies; no session and no API token is left. A failed rename leaves the credentials under the
-- new key, and the keys and the salt as they were. A failed entry in the audit log leaves what a success
-- leaves, the swap of the keys never fails, and any other error changes no credential, session, token, key or salt.
-- It holds when the random values have their lengths and no credential's id is listed twice.
pub rotate_passphrase_handler-Promise :
    (aes : Aes) (derive_root_key : Bytes → Bytes → Bytes) (derive_subkey : Bytes → String → Bytes)
    (old_keys : DerivedKeys) (r : RotatePassphraseRequest) (env : RotateEnvironment) (s : Appliance)
    → IsDrawn env.draws
    → IsUnique s.credentials
    → length env.new_salt ≡ kdf_salt_length
    → let (s', answer) =
        rotate_passphrase_handler aes derive_root_key derive_subkey old_keys r env s in
      Promise aes derive_root_key derive_subkey old_keys r.new_passphrase env s s' answer
rotate_passphrase_handler-Promise aes derive_root_key derive_subkey old_keys r env s =
    handler_lem aes derive_root_key derive_subkey old_keys r.new_passphrase env r s refl
