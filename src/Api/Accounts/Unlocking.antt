-- ===== src/Api/Accounts/Unlocking.antt =====
-- app/api/auth.py: a request to unlock, alone at the key material.
use restream_plus.Auth.Reprompts.{RepromptStore}
use restream_plus.Api.Accounts.{
  Accounts, AccountError, begin_unlock, end_unlock, answered, unlock_name, count_failure,
  unlock_failed,
}
use restream_plus.Auth.KeyMaterial.{
  Bytes, KeyMaterial, is_ready, is_empty, require_ready, derive_sync, finish, enter, acquire,
  locked, unlocking,
}
use restream_plus.Auth.KeyMaterial as Keys
use restream_plus.Auth.RateLimit as Limits
use restream_plus.Auth.Sessions.{Providers, SessionAuthService}
use restream_plus.Base.{
  ℕ, String, Bool, true, false, Option, none, some, ok, err, [], ◌∷◌, ◌≡◌, refl, if◌then◌else◌,
  ◌&&◌, Result, not,
}

module _ (p : Providers) (derive_root_key : Bytes → Bytes → Bytes)
    (derive_subkey : Bytes → String → Bytes) where
  -- The whole of a request that waits for no other.
  unfoldable pub unlock_alone :
      String → Bytes → Bool → ℕ → ℕ → Accounts → Accounts × Option (Result AccountError (Unit {0}))
  unlock_alone ip passphrase derives checked_at failed_at s =
      let (s1, answer) = begin_unlock p ip passphrase checked_at failed_at s in
      elim answer [
        | some a ↦ (s1, some a)
        | none ↦ end_unlock p derive_root_key derive_subkey ip derives failed_at s1
      ]

  -- Locked, with nobody at the lock.
  abbrev pub locked_key_material : Bytes → KeyMaterial
  locked_key_material salt = record {
    kdf_salt = salt;
    state = locked;
    keys = none;
    holder = none;
    waiting = [];
  }

  answered_at_once :
      (ip : String) (passphrase : Bytes) (derives : Bool) (checked_at failed_at : ℕ)
      (s s1 : Accounts) (answer : Result AccountError (Unit {0}))
      → begin_unlock p ip passphrase checked_at failed_at s ≡ (s1, some answer)
      → unlock_alone ip passphrase derives checked_at failed_at s ≡ (s1, some answer)
  unfolding unlock_alone
  answered_at_once ip passphrase derives checked_at failed_at s s1 answer q =
      rw (unlock_alone, q, q) refl

  answered_later :
      (ip : String) (passphrase : Bytes) (derives : Bool) (checked_at failed_at : ℕ)
      (s s1 : Accounts)
      → begin_unlock p ip passphrase checked_at failed_at s ≡ (s1, none)
      → unlock_alone ip passphrase derives checked_at failed_at s
        ≡ end_unlock p derive_root_key derive_subkey ip derives failed_at s1
  unfolding unlock_alone
  answered_later ip passphrase derives checked_at failed_at s s1 q = rw (unlock_alone, q, q) refl

  module _ (service : SessionAuthService) (reprompts : RepromptStore)
      (limiter : Limits.LoginRateLimiter) (salt : Bytes) (ip : String)
      (checked_at failed_at : ℕ) where
    abbrev pub checked : Limits.LoginRateLimiter × Limits.RateLimitDecision
    checked = Limits.check p.normalize limiter ip unlock_name checked_at

    abbrev pub locked_accounts : Accounts
    locked_accounts = record {
      service = service;
      reprompts = reprompts;
      unlock_rate_limiter = limiter;
      key_material = locked_key_material salt;
    }

    begun_empty :
        checked.1.allowed ≡ true
        → begin_unlock p ip [] checked_at failed_at locked_accounts ≡ (
          count_failure p ip failed_at (record locked_accounts { unlock_rate_limiter = checked.0 }),
          some (err unlock_failed),
        )
    unfolding begin_unlock answered Keys.unlock
    begun_empty allowed = rw (begin_unlock, allowed) refl

    begun :
        (c : ℕ) (s : Bytes)
        → checked.1.allowed ≡ true
        → begin_unlock p ip (c ∷ s) checked_at failed_at locked_accounts ≡ (
          record locked_accounts {
            unlock_rate_limiter = checked.0;
            key_material = record (locked_key_material salt) {
              state = unlocking;
              holder = some (c ∷ s);
            };
          },
          none,
        )
    unfolding begin_unlock answered Keys.unlock acquire enter
    begun c s allowed = rw (begin_unlock, allowed) refl

    -- A call of the handler that the limiter allows, on a locked key material with nobody at its lock: a
    -- passphrase whose derivation does not fail leaves the keys that it gives together with the salt, the
    -- answer is a success and the limiter stays as its check left it; otherwise the key material is not
    -- ready, the answer is an error and a failure is counted. The empty passphrase is among the latter
    -- for the handler, but UnlockRequest of app/api/schemas.py turns it away in front of it.
    unlock_alone_lem :
        (passphrase : Bytes) (derives : Bool)
        → checked.1.allowed ≡ true
        → let (s', answer) =
            unlock_alone ip passphrase derives checked_at failed_at locked_accounts in
          if derives && not (is_empty passphrase)
          then (answer ≡ some (ok tt))
            × (require_ready s'.key_material
                ≡ ok (derive_sync derive_root_key derive_subkey salt passphrase))
            × (s'.unlock_rate_limiter ≡ checked.0)
          else (answer ≡ some (err unlock_failed))
            × (is_ready s'.key_material ≡ false)
            × (s'.unlock_rate_limiter
                ≡ Limits.record_failure p.normalize checked.0 ip unlock_name failed_at)
    unfolding end_unlock answered finish require_ready
    unlock_alone_lem [] true allowed =
        rw
          (answered_at_once ip [] true checked_at failed_at locked_accounts _ _
            (begun_empty allowed))
          (refl, refl, refl)
    unlock_alone_lem [] false allowed =
        rw
          (answered_at_once ip [] false checked_at failed_at locked_accounts _ _
            (begun_empty allowed))
          (refl, refl, refl)
    unlock_alone_lem (c ∷ s) true allowed =
        rw
          (answered_later ip (c ∷ s) true checked_at failed_at locked_accounts _
            (begun c s allowed))
          (refl, refl, refl)
    unlock_alone_lem (c ∷ s) false allowed =
        rw
          (answered_later ip (c ∷ s) false checked_at failed_at locked_accounts _
            (begun c s allowed))
          (refl, refl, refl)
