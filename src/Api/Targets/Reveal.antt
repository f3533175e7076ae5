-- ===== src/Api/Targets/Reveal.antt =====
-- app/api/targets.py: a stream key that was set is the one that is revealed.
use restream_plus.Domain.TargetTypes.Catalogue.{spec_for-consistent}
use restream_plus.Api.Targets.{Desk, Caller, Drawn, seal_key, open_key, last4_of, lifetime_value}
use restream_plus.Api.Targets.Handlers.{reveal_granted, set_credential, reveal_credential}
use restream_plus.Auth.KeyMaterial.{Bytes, kdf_salt_length}
use restream_plus.Api.Targets.Gates.{take_grant-granted}
use restream_plus.Auth.Reprompts as Grants
use restream_plus.Auth.Reprompts.{consume}
use restream_plus.Crypto.Aead.{
  Aes, encrypt, decrypt-encrypt, build_credential_aad, aad_credential_stream_key_v1,
  aead_nonce_length, derived_key_length,
}
use restream_plus.Domain.TargetTypes.{CredentialLifetime, TargetType}
use restream_plus.Repositories.Credentials.Lookup.{
  without_target-clears, get-without_target, get_for_target-put,
}
use restream_plus.Repositories.Credentials.{CredentialRow, upsert, get_for_target, without_target}
use restream_plus.Repositories.Rows.{target_type_of}
use restream_plus.Repositories.Targets.{TargetRow, get_by_id}
use restream_plus.Base.Dict.{get}
use restream_plus.Base.Texts.{Text}
use restream_plus.Base.{
  String, true, false, Option, none, some, ok, string_eq, ◌≡◌, refl, Bool-cases, ltb, ◌==◌, inl,
  inr, arith, length-drop, ◌-◌, length, leb, ◌++◌, ap,
}

last4_fits : (s : Text) → ltb 4 (length (last4_of s)) ≡ false
last4_fits s = elim (Bool-cases (leb 4 (length s))) [
  | inl long ↦ rw long (ground (arith, long, length-drop (length s - 4) s))
  | inr short ↦ rw short (ground (arith, short))
]

module _ (aes : Aes) (kek : Bytes) (encode_utf8 : Text → Bytes) (decode_utf8 : Bytes → Option Text)
    (long : length kek ≡ derived_key_length) (key : Text)
    (decodes : decode_utf8 (encode_utf8 key) ≡ some key) where
  -- A row that opens to the key.
  record IsSealed (target_id : String) (row : CredentialRow) : Type 0 where
    of_target : row.target_id ≡ target_id
    opens : open_key aes kek encode_utf8 decode_utf8 row ≡ ok key
    last4_is : row.last4 ≡ last4_of key

  aad_fits :
      (salt : Bytes)
      → length salt ≡ kdf_salt_length
      → build_credential_aad salt ≡ ok (aad_credential_stream_key_v1 ++ salt)
  unfolding build_credential_aad
  aad_fits salt sixteen = rw (build_credential_aad, sixteen) refl

  encrypted :
      (nonce aad : Bytes)
      → encrypt aes kek nonce (encode_utf8 key) aad
        ≡ ok (nonce, aes.seal kek nonce (encode_utf8 key) aad)
  unfolding encrypt
  encrypted nonce aad = rw (encrypt, long) refl

  abbrev sealed_row : String → CredentialLifetime → Caller → Drawn → CredentialRow
  sealed_row target_id l who drawn = record {
    target_id = target_id;
    lifetime = lifetime_value l;
    ciphertext =
        aes.seal kek drawn.nonce (encode_utf8 key) (aad_credential_stream_key_v1 ++ drawn.salt);
    nonce = drawn.nonce;
    salt = drawn.salt;
    last4 = last4_of key;
    created_at = who.now;
    expires_at = none;
  }

  seal_key-IsSealed :
      (target_id : String) (l : CredentialLifetime) (who : Caller) (drawn : Drawn)
      → length drawn.salt ≡ kdf_salt_length
      → length drawn.nonce ≡ aead_nonce_length
      → (seal_key aes kek encode_utf8 decode_utf8 target_id l key who drawn
          ≡ ok (sealed_row target_id l who drawn))
        × IsSealed target_id (sealed_row target_id l who drawn)
  unfolding seal_key open_key
  seal_key-IsSealed target_id l who drawn sixteen twelve =
      let aad = aad_credential_stream_key_v1 ++ drawn.salt in
      let aad_is : build_credential_aad drawn.salt ≡ ok aad = aad_fits drawn.salt sixteen in
      let sealed = encrypted drawn.nonce aad in
      let back =
        decrypt-encrypt aes kek drawn.nonce (encode_utf8 key) aad
          (drawn.nonce, aes.seal kek drawn.nonce (encode_utf8 key) aad) twelve sealed in
      (
        rw (seal_key, aad_is, sealed) refl,
        record {
          of_target = refl;
          opens = rw (open_key, aad_is, back, decodes) refl;
          last4_is = refl;
        },
      )

  module _ {Workers : Type 0} (enable_target disable_target : String → Workers → Workers) where
    -- What setting the key leaves, for the one who reveals it.
    record IsStored (target_id : String) (s s' : Desk Workers) : Type 0 where
      id : String
      row : CredentialRow
      stored : get_for_target target_id s'.credentials ≡ some (id, row)
      sealed : IsSealed target_id row
      same_targets : s'.targets ≡ s.targets
      same_reprompts : s'.reprompts ≡ s.reprompts

    set_credential-IsStored :
        (target_id : String) (who : Caller) (drawn : Drawn) (s : Desk Workers) (target : TargetRow)
        (t : TargetType)
        → get_by_id target_id s.targets ≡ some target
        → target_type_of target.type_name ≡ some t
        → length drawn.salt ≡ kdf_salt_length
        → length drawn.nonce ≡ aead_nonce_length
        → get drawn.credential_id s.credentials ≡ none
        → let (s', answer) =
            set_credential enable_target disable_target aes kek encode_utf8 decode_utf8 target_id
              key who drawn s in
          IsStored target_id s s'
    unfolding set_credential upsert
    set_credential-IsStored target_id who drawn s target t found known sixteen twelve fresh =
        let (spec, _, _, lifetime_is, _, _, _, _) = spec_for-consistent t in
        let (seals, sealed) =
          seal_key-IsSealed target_id spec.credential_lifetime who drawn sixteen twelve in
        let row = sealed_row target_id spec.credential_lifetime who drawn in
        let here =
          get_for_target-put drawn.credential_id row (without_target target_id s.credentials)
            (get-without_target drawn.credential_id target_id s.credentials fresh)
            (without_target-clears target_id s.credentials) in
        elim (Bool-cases target.enabled) [
          | inl on ↦
              rw (set_credential, found, known, lifetime_is, seals, upsert, last4_fits key, on)
                (record {
                  id = drawn.credential_id;
                  row = row;
                  stored = here;
                  sealed = sealed;
                  same_targets = refl;
                  same_reprompts = refl;
                })
          | inr off ↦
              rw (set_credential, found, known, lifetime_is, seals, upsert, last4_fits key, off)
                (record {
                  id = drawn.credential_id;
                  row = row;
                  stored = here;
                  sealed = sealed;
                  same_targets = refl;
                  same_reprompts = refl;
                })
        ]

    reveal_granted_stored :
        (target_id : String) (s s1 : Desk Workers) (target : TargetRow)
        (kept : IsStored target_id s s1) (store : Grants.RepromptStore)
        → get_by_id target_id s1.targets ≡ some target
        → (reveal_granted enable_target disable_target aes kek encode_utf8 decode_utf8 target_id
            (record s1 { reprompts = store })).1
          ≡ ok (key, last4_of key)
    unfolding reveal_granted
    reveal_granted_stored target_id s s1 target kept store found =
        rw (reveal_granted, found, kept.stored, kept.sealed.opens)
          (ap (λ l. ok (key, l)) kept.sealed.last4_is)

    reveal_stored :
        (target_id grant_id : String) (asker : Caller) (s s' : Desk Workers) (target : TargetRow)
        → IsStored target_id s s'
        → get_by_id target_id s.targets ≡ some target
        → asker.x_reprompt_grant ≡ some grant_id
        → (grant_id == "") ≡ false
        → (consume s.reprompts grant_id asker.monotonic asker.user_id Grants.reveal_stream_key).1
          ≡ true
        → (reveal_credential enable_target disable_target aes kek encode_utf8 decode_utf8 target_id
            asker s').1
          ≡ ok (key, last4_of key)
    unfolding reveal_credential
    reveal_stored target_id grant_id asker s s' target kept found asks given granted =
        let granted1 : (consume s'.reprompts grant_id asker.monotonic asker.user_id
              Grants.reveal_stream_key).1
            ≡ true =
          rw (kept.same_reprompts) granted in
        let found1 : get_by_id target_id s'.targets ≡ some target = rw (kept.same_targets) found in
        let granted2 =
          take_grant-granted enable_target disable_target Grants.reveal_stream_key grant_id asker s'
            asks given granted1 in
        rw (reveal_credential, granted2, granted2)
          (reveal_granted_stored target_id s s' target kept _ found1)

    -- A stream key that is set for a target of a known type is the plaintext, with its last four characters, that a
    -- caller with a grant for it is then shown. The key encryption key has 32 bytes, the salt and the
    -- nonce have their lengths, the id of the credential is a fresh one, and the key is text that
    -- UTF-8 gives back.
    pub set_credential-reveal_credential :
        (target_id grant_id : String) (who asker : Caller) (drawn : Drawn) (s : Desk Workers)
        (target : TargetRow) (t : TargetType)
        → get_by_id target_id s.targets ≡ some target
        → target_type_of target.type_name ≡ some t
        → length drawn.salt ≡ kdf_salt_length
        → length drawn.nonce ≡ aead_nonce_length
        → get drawn.credential_id s.credentials ≡ none
        → asker.x_reprompt_grant ≡ some grant_id
        → (grant_id == "") ≡ false
        → (consume s.reprompts grant_id asker.monotonic asker.user_id Grants.reveal_stream_key).1
          ≡ true
        → let (s', answer) =
            set_credential enable_target disable_target aes kek encode_utf8 decode_utf8 target_id
              key who drawn s in
          (reveal_credential enable_target disable_target aes kek encode_utf8 decode_utf8 target_id
            asker s').1
          ≡ ok (key, last4_of key)
    set_credential-reveal_credential target_id grant_id who asker drawn s target t found known
          sixteen twelve fresh asks given granted =
        let kept =
          set_credential-IsStored target_id who drawn s target t found known sixteen twelve fresh in
        reveal_stored target_id grant_id asker s _ target kept found asks given granted
