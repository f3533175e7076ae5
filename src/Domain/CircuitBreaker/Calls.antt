-- ===== src/Domain/CircuitBreaker/Calls.antt =====
-- app/domain/circuit_breaker.py: sequences of calls of a breaker, and the log of failures that
-- ADR-0003's contract speaks of.
use restream_plus.Base.{
  ℕ, ◌+◌, ◌≤◌, List, [], ◌∷◌, ◌++◌, Option, none, some, leb, if◌then◌else◌, filter,
}
use restream_plus.Domain.CircuitBreaker.{
  CircuitBreaker, CircuitBreakerPolicy, record_failure, record_healthy, should_open, reset,
}

-- The calls of a breaker, each at its time. `asked` is `should_open` or `failure_count_in_window`.
pub data Call : Type 0 where
  failed healthy asked : ℕ → Call
  retried : Call

unfoldable pub apply : CircuitBreaker → Call → CircuitBreaker
apply b (failed now) = record_failure b now
apply b (healthy now) = record_healthy b now
apply b (asked now) = (should_open b now).0
apply b retried = reset b

unfoldable pub run : CircuitBreaker → List Call → CircuitBreaker
run b [] = b
run b (c ∷ cs) = run (apply b c) cs

-- The specification: it forgets no failure until a clear.
pub record Log : Type 0 where
  pub failures : List ℕ
  pub healthy_since : Option ℕ

unfoldable pub note : CircuitBreakerPolicy → Log → Call → Log
note p l (failed now) = record { failures = l.failures ++ now ∷ []; healthy_since = none }
note p l (healthy now) = elim l.healthy_since [
  | none ↦ record l { healthy_since = some now }
  | some since ↦ if leb (since + p.healthy_reset_after) now then record l { failures = [] } else l
]
note p l (asked now) = l
note p l retried = record { failures = []; healthy_since = none }

unfoldable pub log : CircuitBreakerPolicy → Log → List Call → Log
unfolding note
log p l [] = l
log p l (c ∷ cs) = log p (note p l c) cs

abbrev pub no_calls : Log
no_calls = record { failures = []; healthy_since = none }

-- How many of the logged failures are at most `window` old.
abbrev pub recent : CircuitBreakerPolicy → ℕ → List ℕ → List ℕ
recent p now = filter (λ t. leb now (t + p.window))

-- The calls come in the order of their times, the first not before `start` and the last not after
-- `end`.
abbrev pub InOrder : ℕ → List Call → ℕ → Type 0
InOrder start [] end = start ≤ end
InOrder start (failed now ∷ cs) end = (start ≤ now) × InOrder now cs end
InOrder start (healthy now ∷ cs) end = (start ≤ now) × InOrder now cs end
InOrder start (asked now ∷ cs) end = (start ≤ now) × InOrder now cs end
InOrder start (retried ∷ cs) end = InOrder start cs end
