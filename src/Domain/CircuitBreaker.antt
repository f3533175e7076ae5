-- ===== src/Domain/CircuitBreaker.antt =====
-- app/domain/circuit_breaker.py. A datetime is a number of microseconds and a timedelta a length in
-- microseconds; `t < now - window` is written `t + window < now`, which is the same comparison and
-- needs no negative numbers. A method that mutates the breaker returns the new one.
pub mod Calls
pub mod Tracks
pub mod Window
pub mod Healthy
use restream_plus.Base.Window.{pop_while}
use restream_plus.Base.{
  ℕ, ◌+◌, List, [], ◌∷◌, ◌++◌, Option, none, some, ltb, leb, if◌then◌else◌, length,
}

pub data BreakerVerdict : Type 0 where
  closed open_verdict : BreakerVerdict

pub record CircuitBreakerPolicy : Type 0 where
  pub max_failures : ℕ
  pub window : ℕ
  pub healthy_reset_after : ℕ

-- The defaults: 30 failures, 5 minutes, 60 seconds.
abbrev pub default_policy : CircuitBreakerPolicy
default_policy = record {
  max_failures = 30;
  window = 300_000_000;
  healthy_reset_after = 60_000_000;
}

-- `failures` is the deque, its left end first.
pub record CircuitBreaker : Type 0 where
  pub policy : CircuitBreakerPolicy
  pub failures : List ℕ
  pub last_healthy_since : Option ℕ

unfoldable pub new : CircuitBreakerPolicy → CircuitBreaker
new p = record { policy = p; failures = []; last_healthy_since = none }

-- Pop from the left while the first failure is before the cutoff.
unfoldable pub evict_old : CircuitBreaker → ℕ → CircuitBreaker
evict_old b now = record b { failures = pop_while (λ t. ltb (t + b.policy.window) now) b.failures }

unfoldable pub record_failure : CircuitBreaker → ℕ → CircuitBreaker
unfolding evict_old
record_failure b now =
    let b' = evict_old b now in
    record b' { failures = b'.failures ++ now ∷ []; last_healthy_since = none }

unfoldable pub record_healthy : CircuitBreaker → ℕ → CircuitBreaker
record_healthy b now = elim b.last_healthy_since [
  | none ↦ record b { last_healthy_since = some now }
  | some since ↦
      if leb (since + b.policy.healthy_reset_after) now then record b { failures = [] } else b
]

unfoldable pub should_open : CircuitBreaker → ℕ → CircuitBreaker × BreakerVerdict
unfolding evict_old
should_open b now =
    let b' = evict_old b now in
    (b', if leb b'.policy.max_failures (length b'.failures) then open_verdict else closed)

unfoldable pub failure_count_in_window : CircuitBreaker → ℕ → CircuitBreaker × ℕ
unfolding evict_old
failure_count_in_window b now = let b' = evict_old b now in (b', length b'.failures)

unfoldable pub reset : CircuitBreaker → CircuitBreaker
reset b = record b { failures = []; last_healthy_since = none }
