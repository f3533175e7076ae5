-- ===== src/Auth/Tests.antt =====
-- The limiter and the reprompt store at concrete inputs.
use restream_plus.Auth.KeyMaterial.Steps.{Op, unlocks, resumes, finishes, step, run, IsPassphrase}
use restream_plus.Auth.Reprompts.SingleUse.{grant_single_use}
use restream_plus.Auth.RateLimit.Policy.{check_policy}
use restream_plus.Auth.RateLimit.Buckets.{recent}
use restream_plus.Auth.RateLimit.{reset}
use restream_plus.Auth.RateLimit.Retry.{retry_after_suffices}
use restream_plus.Auth.KeyMaterial.{
  Bytes, KeyMaterial, DerivedKeys, require_ready, derive_sync, rotate_in_place, not_ready,
  service_locked, unlock, enter, acquire, finish, resume, returns, is_ready, new as new_material,
}
use restream_plus.Auth.KeyMaterial.Unlock.{fresh, unlock_once}
use restream_plus.Base.Dict.{put}
use restream_plus.Base.{
  ℕ, [], List, ◌≡◌, ◌∷◌, ok, true, ◌+◌, ◌↔◌, ◌*◌, refl, length, String, arith, ◌<◌, ◌++◌, false,
  err, ◌⊎◌,
}
use restream_plus.Auth.RateLimit
use restream_plus.Auth.RateLimit.Policy
use restream_plus.Auth.Reprompts
use restream_plus.Auth.Reprompts.Calls

-- Two failures are allowed in ten microseconds; names are compared as they are.
abbrev strict : RateLimit.LoginRateLimiter
strict = record { limit = 2; window = 10; by_ip = []; by_username = [] }

abbrev guesses : List Policy.Call
guesses =
    Policy.failed "10.0.0.1" "admin" 1
    ∷ Policy.failed "10.0.0.2" "admin" 4
    ∷ Policy.checked "10.0.0.3" "admin" 5
    ∷ []

strict-new : RateLimit.new 2 10 ≡ ok strict
unfolding RateLimit.new
strict-new = refl

check_policy_example :
    ((RateLimit.check (λ u. u) (Policy.run (λ u. u) strict guesses) "10.0.0.3" "admin" 6).1.allowed
      ≡ true)
    ↔ ((length (recent 10 6 (Policy.ip_log (λ k. []) guesses "10.0.0.3")) < 2)
        × (length (recent 10 6 (Policy.user_log (λ u. u) (λ k. []) guesses "admin")) < 2))
check_policy_example =
    check_policy (λ u. u) 2 10 strict guesses 6 "10.0.0.3" "admin" strict-new (omega arith)

abbrev full_ip : List ℕ
full_ip = 3 ∷ 7 ∷ []

retry_after_suffices_example :
    let d = RateLimit.decide 2 10 8 full_ip (7 ∷ []) in
    let later = 8 + d.retry_after_seconds * 1_000_000 in
    ((d.allowed ≡ true) ↔ (d.retry_after_seconds ≡ 0))
    × ((RateLimit.decide 2 10 later
          (RateLimit.prune 10 later full_ip)
          (RateLimit.prune 10 later (7 ∷ []))).allowed
        ≡ true)
retry_after_suffices_example =
    retry_after_suffices 2 10 8 full_ip (7 ∷ []) (omega arith) (omega arith) (omega arith)

abbrev empty_store : Reprompts.RepromptStore
empty_store = record { ttl = 60; grants = [] }

abbrev delete_grant : Reprompts.RepromptGrant
delete_grant = record { user_id = "root"; scope = Reprompts.delete_target; issued_at = 5 }

abbrev one_grant : Reprompts.RepromptStore
one_grant = record { ttl = 60; grants = ("g1", delete_grant) ∷ [] }

abbrev probes : List Calls.Call
probes =
    Calls.issued "g2" 6 "root" Reprompts.change_password
    ∷ Calls.prunes 20
    ∷ Calls.consumed "g2" 21 "root" Reprompts.delete_target
    ∷ []

empty_store-new : Reprompts.new 60 ≡ ok empty_store
unfolding Reprompts.new
empty_store-new = refl

one_grant-issue :
    Reprompts.issue (Calls.run empty_store []) "g1" 5 "root" Reprompts.delete_target ≡ ok one_grant
unfolding Reprompts.issue Calls.run put
one_grant-issue = refl

grant_single_use_example :
    ((Reprompts.consume (Calls.run one_grant probes) "g1" 30 "root" Reprompts.delete_target).1
      ≡ true)
    ↔ ((Calls.untouched "g1" probes ≡ true)
        × (◌≡◌ {A = String} "root" "root")
        × (Reprompts.delete_target ≡ Reprompts.delete_target)
        × (30 < 5 + 60))
grant_single_use_example =
    grant_single_use 60 empty_store one_grant [] probes "g1" 5 30 "root" "root"
      Reprompts.delete_target Reprompts.delete_target empty_store-new one_grant-issue ((refl, tt))
      (omega arith)

-- Functions in the place of the key derivation.
abbrev root_of : Bytes → Bytes → Bytes
root_of passphrase salt = passphrase ++ salt

abbrev subkey_of : Bytes → String → Bytes
subkey_of root info = root

abbrev zero_salt : Bytes
zero_salt = 0 ∷ 0 ∷ 0 ∷ 0 ∷ 0 ∷ 0 ∷ 0 ∷ 0 ∷ 0 ∷ 0 ∷ 0 ∷ 0 ∷ 0 ∷ 0 ∷ 0 ∷ 0 ∷ []

-- The first derivation fails, so the second call derives.
abbrev race : List Op
race = unlocks (1 ∷ []) ∷ unlocks (2 ∷ []) ∷ finishes false ∷ resumes ∷ finishes true ∷ []

abbrev after_race : KeyMaterial
after_race = run root_of subkey_of zero_salt (fresh root_of subkey_of zero_salt) race

second_call_derives :
    require_ready after_race ≡ ok (derive_sync root_of subkey_of zero_salt (2 ∷ []))
unfolding require_ready run step unlock enter acquire finish resume
second_call_derives = refl

rotation_needs_ready :
    (keys : DerivedKeys)
    → rotate_in_place zero_salt keys (fresh root_of subkey_of zero_salt) ≡ err not_ready
unfolding rotate_in_place
rotation_needs_ready keys = refl

unlock_once_example :
    (initial : KeyMaterial) × (new_material zero_salt ≡ ok initial)
    × ((require_ready (run root_of subkey_of zero_salt initial race) ≡ err service_locked)
        ⊎ ((p : Bytes) × IsPassphrase p
            × (require_ready (run root_of subkey_of zero_salt initial race)
                ≡ ok (derive_sync root_of subkey_of zero_salt p))
            × (require_ready (
                  run root_of subkey_of zero_salt
                    (run root_of subkey_of zero_salt initial race)
                    race)
                ≡ require_ready (run root_of subkey_of zero_salt initial race))))
    × ((step root_of subkey_of zero_salt
            (unlocks (3 ∷ []))
            (run root_of subkey_of zero_salt initial race)).0
          ≡ returns
        → is_ready
            (step root_of subkey_of zero_salt
              (unlocks (3 ∷ []))
              (run root_of subkey_of zero_salt initial race)).1
          ≡ true)
unlock_once_example = unlock_once root_of subkey_of zero_salt race race (unlocks (3 ∷ [])) refl
