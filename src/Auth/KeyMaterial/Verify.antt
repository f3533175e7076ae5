-- ===== src/Auth/KeyMaterial/Verify.antt =====
-- app/auth/key_material.py: `verify_passphrase`.
use restream_plus.Auth.KeyMaterial.{
  Bytes, DerivedKeys, KeyMaterial, is_ready, require_ready, is_empty, derive_sync,
  verify_passphrase, compare_digest, same_keys,
}
use restream_plus.Base.{
  String, [], ◌∷◌, true, false, some, ok, ◌≡◌, ◌↔◌, refl, inl, inr, arith, Bool-cases, Option-cases,
  ap, sym, ◌∙◌,
}

digest_sound : (xs ys : Bytes) → compare_digest xs ys ≡ true → xs ≡ ys
digest_sound [] [] h = refl
digest_sound [] (y ∷ ys) h = ground arith
digest_sound (x ∷ xs) [] h = ground arith
digest_sound (x ∷ xs) (y ∷ ys) h = ground (arith, digest_sound xs ys (ground arith))

digest_refl : (xs : Bytes) → compare_digest xs xs ≡ true
digest_refl [] = refl
digest_refl (x ∷ xs) = ground (arith, digest_refl xs)

keys_sound : (s t : DerivedKeys) → same_keys s t ≡ true → s ≡ t
keys_sound s t h =
    let a = digest_sound s.stream_key_kek t.stream_key_kek (ground arith) in
    let b = digest_sound s.api_token_mac_key t.api_token_mac_key (ground arith) in
    let c = digest_sound s.session_token_mac_key t.session_token_mac_key (ground arith) in
    λ i. record { stream_key_kek = a i; api_token_mac_key = b i; session_token_mac_key = c i }

keys_refl : (s : DerivedKeys) → same_keys s s ≡ true
keys_refl s =
    rw
      (
        digest_refl s.stream_key_kek,
        digest_refl s.api_token_mac_key,
        digest_refl s.session_token_mac_key,
      )
      refl

module _ (derive_root_key : Bytes → Bytes → Bytes) (derive_subkey : Bytes → String → Bytes) where
  verify_held :
      (p : Bytes) (k : KeyMaterial) (held : DerivedKeys)
      → is_ready k ≡ true
      → k.keys ≡ some held
      → is_empty p ≡ false
      → (verify_passphrase derive_root_key derive_subkey p k
          ≡ same_keys (derive_sync derive_root_key derive_subkey k.kdf_salt p) held)
        × (require_ready k ≡ ok held)
  unfolding verify_passphrase require_ready
  verify_held p k held r q hp = (rw (r, q, hp) refl, rw (r, q) refl)

  pub verify_needs :
      (p : Bytes) (k : KeyMaterial)
      → verify_passphrase derive_root_key derive_subkey p k ≡ true
      → (is_ready k ≡ true) × (is_empty p ≡ false) × ((held : DerivedKeys) × (k.keys ≡ some held))
  unfolding verify_passphrase
  verify_needs p k h = elim (Bool-cases (is_ready k)) [
    | inr n ↦ ground arith
    | inl r ↦ elim (Option-cases k.keys) [
      | inl bare ↦ ground arith
      | inr (held, q) ↦ elim (Bool-cases (is_empty p)) [
        | inl blank ↦ ground arith
        | inr hp ↦ (r, hp, (held, q))
      ]
    ]
  ]

  require_held :
      (k : KeyMaterial) (keys : DerivedKeys)
      → require_ready k ≡ ok keys
      → (is_ready k ≡ true) × (k.keys ≡ some keys)
  unfolding require_ready
  require_held k keys h = ground arith

  -- A passphrase is confirmed exactly when it is not empty and the keys that `require_ready` gives out
  -- are those derived from it, in all three parts.
  pub verify_passphrase_iff :
      (p : Bytes) (k : KeyMaterial)
      → (verify_passphrase derive_root_key derive_subkey p k ≡ true) ↔ (
          (is_empty p ≡ false)
          × (require_ready k ≡ ok (derive_sync derive_root_key derive_subkey k.kdf_salt p)))
  verify_passphrase_iff p k = (
    λ h.
        let (r, hp, (held, q)) = verify_needs p k h in
        let (v, w) = verify_held p k held r q hp in
        (hp, w ∙ ap ok (sym (keys_sound _ held (sym v ∙ h)))),
    λ (hp, h).
        let (r, q) = require_held k _ h in
        let (v, w) = verify_held p k _ r q hp in
        v ∙ keys_refl (derive_sync derive_root_key derive_subkey k.kdf_salt p),
  )
