-- ===== src/Auth/KeyMaterial/Unlock.antt =====
-- app/auth/key_material.py: calls of `unlock` from any number of tasks, in any order.
use restream_plus.Auth.KeyMaterial.Steps.{
  IsConsistent, IsPassphrase, Op, run, run-IsConsistent, run_keeps, step, step-IsStep,
}
use restream_plus.Auth.KeyMaterial.{
  locked, Bytes, KeyMaterial, is_ready, returns, derive_sync, require_ready, service_locked, new,
  kdf_salt_length,
}
use restream_plus.Base.{
  String, List, [], true, false, none, ◌≡◌, refl, ◌⊎◌, inl, inr, arith, Bool-cases, ok, err, length,
}

module _ (derive_root_key : Bytes → Bytes → Bytes) (derive_subkey : Bytes → String → Bytes)
    (salt : Bytes) where
  ready_keys :
      (k : KeyMaterial)
      → IsConsistent derive_root_key derive_subkey salt k
      → is_ready k ≡ true
      → (p : Bytes) × IsPassphrase p
        × (require_ready k ≡ ok (derive_sync derive_root_key derive_subkey salt p))
  unfolding require_ready
  ready_keys k h r = elim (h.phase) [
    | inl (s, n, free) ↦ ground arith
    | inr (inl (s, n, held)) ↦ ground arith
    | inr (inr (s, free, (p, hp, q))) ↦ (p, hp, rw (r, q) refl)
  ]

  not_ready_locked : (k : KeyMaterial) → is_ready k ≡ false → require_ready k ≡ err service_locked
  unfolding require_ready
  not_ready_locked k n = rw n refl

  same_require :
      (k k' : KeyMaterial)
      → is_ready k ≡ true
      → is_ready k' ≡ true
      → k'.keys ≡ k.keys
      → require_ready k' ≡ require_ready k
  unfolding require_ready
  same_require k k' r r' q = rw (r, r', q) refl

  abbrev pub fresh : KeyMaterial
  fresh = record { kdf_salt = salt; state = locked; keys = none; holder = none; waiting = [] }

  fresh-IsConsistent : IsConsistent derive_root_key derive_subkey salt fresh
  fresh-IsConsistent = record { same_salt = refl; phase = inl (refl, refl, refl); queued = tt }

  require_settled :
      (k : KeyMaterial) (later : List Op)
      → IsConsistent derive_root_key derive_subkey salt k
      → (require_ready k ≡ err service_locked)
        ⊎ ((p : Bytes) × IsPassphrase p
            × (require_ready k ≡ ok (derive_sync derive_root_key derive_subkey salt p))
            × (require_ready (run derive_root_key derive_subkey salt k later) ≡ require_ready k))
  require_settled k later h = elim (Bool-cases (is_ready k)) [
    | inr n ↦ inl (not_ready_locked k n)
    | inl r ↦
        let (p, hp, q) = ready_keys k h r in
        let (r', same) = run_keeps derive_root_key derive_subkey salt k later h r in
        inr (p, hp, q, same_require k (run derive_root_key derive_subkey salt k later) r r' same)
  ]

  -- With a salt of the right length, under any interleaving of calls of `unlock` whose derivations may
  -- fail: either the keys are refused as locked, or they are those derived from a passphrase that is
  -- not empty, and they are the same whatever follows. A call that returns leaves the keys ready.
  pub unlock_once :
      (ops later : List Op) (op : Op)
      → length salt ≡ kdf_salt_length
      → (initial : KeyMaterial) × (new salt ≡ ok initial)
        × ((require_ready (run derive_root_key derive_subkey salt initial ops) ≡ err service_locked)
            ⊎ ((p : Bytes) × IsPassphrase p
                × (require_ready (run derive_root_key derive_subkey salt initial ops)
                    ≡ ok (derive_sync derive_root_key derive_subkey salt p))
                × (require_ready (
                      run derive_root_key derive_subkey salt
                        (run derive_root_key derive_subkey salt initial ops)
                        later)
                    ≡ require_ready (run derive_root_key derive_subkey salt initial ops))))
        × ((step derive_root_key derive_subkey salt op
                (run derive_root_key derive_subkey salt initial ops)).0
              ≡ returns
            → is_ready
                (step derive_root_key derive_subkey salt op
                  (run derive_root_key derive_subkey salt initial ops)).1
              ≡ true)
  unfolding new
  unlock_once ops later op sized =
      let h = run-IsConsistent derive_root_key derive_subkey salt fresh ops fresh-IsConsistent in
      (
        fresh,
        ground arith,
        require_settled (run derive_root_key derive_subkey salt fresh ops) later h,
        (step-IsStep derive_root_key derive_subkey salt op
            (run derive_root_key derive_subkey salt fresh ops) h).returned,
      )
