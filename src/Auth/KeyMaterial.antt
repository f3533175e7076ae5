-- ===== src/Auth/KeyMaterial.antt =====
-- app/auth/key_material.py: the holder of the derived keys. Bytes are lists of numbers, a
-- passphrase is its UTF-8 encoding; Argon2 and HKDF are the parameters `derive_root_key` and `derive_subkey`.
pub mod Steps
pub mod Unlock
pub mod Verify
use restream_plus.Base.{
  ℕ, String, ◌++◌, List, [], ◌∷◌, Bool, true, false, ◌&&◌, not, eqb, length, Option, none, some,
  Result, ok, err, if◌then◌else◌,
}

pub data KeyMaterialState : Type 0 where
  locked unlocking ready : KeyMaterialState

abbrev pub Bytes : Type 0
Bytes = List ℕ

pub record DerivedKeys : Type 0 where
  pub stream_key_kek : Bytes
  pub api_token_mac_key : Bytes
  pub session_token_mac_key : Bytes

-- The instance with its `asyncio.Lock`: the passphrase that the lock's holder derives from, and those
-- of the calls that wait for the lock, first come first.
pub record KeyMaterial : Type 0 where
  pub kdf_salt : Bytes
  pub state : KeyMaterialState
  pub keys : Option DerivedKeys
  pub holder : Option Bytes
  pub waiting : List Bytes

abbrev pub kdf_salt_length : ℕ
kdf_salt_length = 16

-- `ValueError` of the constructor and of `rotate_in_place`, its `RuntimeError`, `ServiceLockedError`,
-- and what `unlock` raises: `ValueError`, or the exception of the derivation.
pub data KeyError : Type 0 where
  bad_salt not_ready service_locked empty_passphrase derivation_failed : KeyError

unfoldable pub new : Bytes → Result KeyError KeyMaterial
new salt =
    if eqb (length salt) kdf_salt_length
    then ok (record { kdf_salt = salt; state = locked; keys = none; holder = none; waiting = [] })
    else err bad_salt

abbrev pub is_ready : KeyMaterial → Bool
is_ready k = elim k.state [ locked ↦ false | unlocking ↦ false | ready ↦ true ]

unfoldable pub require_ready : KeyMaterial → Result KeyError DerivedKeys
require_ready k =
    if is_ready k
    then elim k.keys [ none ↦ err service_locked | some keys ↦ ok keys ]
    else err service_locked

abbrev pub is_empty : Bytes → Bool
is_empty [] = true
is_empty (c ∷ s) = false

-- `secrets.compare_digest`
abbrev pub compare_digest : Bytes → Bytes → Bool
compare_digest [] [] = true
compare_digest [] (y ∷ ys) = false
compare_digest (x ∷ xs) [] = false
compare_digest (x ∷ xs) (y ∷ ys) = eqb x y && compare_digest xs ys

abbrev pub same_keys : DerivedKeys → DerivedKeys → Bool
same_keys trial held =
    compare_digest trial.stream_key_kek held.stream_key_kek
    && (compare_digest trial.api_token_mac_key held.api_token_mac_key
        && compare_digest trial.session_token_mac_key held.session_token_mac_key)

-- What a step does to the call that takes it.
pub data Outcome : Type 0 where
  suspends returns : Outcome
  raises : KeyError → Outcome

-- Inside the lock: the second test, then the derivation starts in a thread.
unfoldable pub enter : Bytes → KeyMaterial → Outcome × KeyMaterial
enter passphrase k =
    if is_ready k
    then (returns, k)
    else (suspends, record k { state = unlocking; holder = some passphrase })

-- `asyncio.Lock.acquire` goes on at once when the lock is free and nobody waits.
unfoldable pub acquire : Bytes → KeyMaterial → Option Bytes → List Bytes → Outcome × KeyMaterial
unfolding enter
acquire passphrase k none [] = enter passphrase k
acquire passphrase k none (w ∷ ws) = (suspends, record k { waiting = k.waiting ++ passphrase ∷ [] })
acquire passphrase k (some d) ws = (suspends, record k { waiting = k.waiting ++ passphrase ∷ [] })

unfoldable pub unlock : Bytes → KeyMaterial → Outcome × KeyMaterial
unfolding acquire
unlock passphrase k =
    if is_empty passphrase
    then (raises empty_passphrase, k)
    else if is_ready k
    then (returns, k)
    else acquire passphrase k k.holder k.waiting

-- The first call that waits gets the lock once it is free.
unfoldable pub resume : KeyMaterial → Option Bytes → List Bytes → Outcome × KeyMaterial
unfolding enter
resume k none [] = (suspends, k)
resume k none (w ∷ ws) = enter w (record k { waiting = ws })
resume k (some d) ws = (suspends, k)

-- `_derive_sync`
module _ (derive_root_key : Bytes → Bytes → Bytes) (derive_subkey : Bytes → String → Bytes) where
  unfoldable pub derive_sync : Bytes → Bytes → DerivedKeys
  derive_sync salt passphrase =
      let root = derive_root_key passphrase salt in
      record {
        stream_key_kek = derive_subkey root "stream-key-wrap-v1";
        api_token_mac_key = derive_subkey root "api-token-mac-v1";
        session_token_mac_key = derive_subkey root "session-token-mac-v1";
      }

  -- With a derivation that does not raise.
  unfoldable pub verify_passphrase : Bytes → KeyMaterial → Bool
  unfolding derive_sync
  verify_passphrase passphrase k = if not (is_ready k) then false else elim k.keys [
    | none ↦ false
    | some held ↦
        if is_empty passphrase then false else same_keys (derive_sync k.kdf_salt passphrase) held
  ]

  -- The end of the derivation, with or without an exception; the lock is released.
  unfoldable pub finish : Bool → KeyMaterial → Option Bytes → Outcome × KeyMaterial
  unfolding derive_sync
  finish derives k none = (suspends, k)
  finish derives k (some passphrase) =
      if derives
      then (
        returns,
        record k { state = ready; keys = some (derive_sync k.kdf_salt passphrase); holder = none },
      )
      else (raises derivation_failed, record k { state = locked; holder = none })

-- `rotate_in_place`
unfoldable pub rotate_in_place : Bytes → DerivedKeys → KeyMaterial → Result KeyError KeyMaterial
rotate_in_place new_kdf_salt new_keys k =
    if not (is_ready k)
    then err not_ready
    else if eqb (length new_kdf_salt) kdf_salt_length
    then ok (record k { kdf_salt = new_kdf_salt; keys = some new_keys })
    else err bad_salt
