-- ===== src/Domain/CircuitBreaker/Healthy.antt =====
-- app/domain/circuit_breaker.py: the reset after an uninterrupted healthy time.
use restream_plus.Base.{ℕ, ◌+◌, ◌≤◌, ◌<◌, ◌≡◌, List, [], ◌∷◌, ◌++◌, none, some, arith, map}
use restream_plus.Domain.CircuitBreaker.{
  CircuitBreaker, closed, record_healthy, should_open, failure_count_in_window,
}
use restream_plus.Domain.CircuitBreaker.Calls.{healthy, apply, run}

heartbeats_clear :
    (b : CircuitBreaker) (since last : ℕ) (ts : List ℕ)
    → b.last_healthy_since ≡ some since
    → since + b.policy.healthy_reset_after ≤ last
    → (run b (map healthy ts ++ healthy last ∷ [])).failures ≡ []
unfolding run apply record_healthy
heartbeats_clear b since last [] e h = ground arith
heartbeats_clear b since last (t ∷ ts) e h =
    heartbeats_clear (record_healthy b t) since last ts (ground arith) (ground arith)

first_heartbeat :
    (b : CircuitBreaker) (t : ℕ)
    → b.last_healthy_since ≡ none
    → record_healthy b t ≡ record b { last_healthy_since = some t }
unfolding record_healthy
first_heartbeat b t e = ground arith

-- Healthy observations with no other call between them, the first after a failure, a reset or the
-- start, and the last at least `healthy_reset_after` later: then no failure counts any more and the
-- breaker is CLOSED at any time, if the policy tolerates a failure at all.
heartbeats_close :
    (b : CircuitBreaker) (first last now : ℕ) (ts : List ℕ)
    → b.last_healthy_since ≡ none
    → first + b.policy.healthy_reset_after ≤ last
    → let b' = run b (healthy first ∷ map healthy ts ++ healthy last ∷ []) in
      ((failure_count_in_window b' now).1 ≡ 0)
      × (0 < b'.policy.max_failures → (should_open b' now).1 ≡ closed)
unfolding failure_count_in_window should_open run apply
heartbeats_close b first last now ts e h =
    let q =
      heartbeats_clear (record_healthy b first) first last ts (rw (first_heartbeat b first e))
        (rw (first_heartbeat b first e) h) in
    (ground (arith, q), λ p. ground (arith, q))
