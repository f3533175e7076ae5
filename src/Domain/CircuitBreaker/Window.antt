-- ===== src/Domain/CircuitBreaker/Window.antt =====
-- app/domain/circuit_breaker.py against its contract: the deque answers like a log of every failure
-- since the last clear.
use restream_plus.Domain.CircuitBreaker.Tracks.{run-recent, new-Tracks, run-policy}
use restream_plus.Domain.CircuitBreaker.Calls.{Call, InOrder, recent, log, no_calls, run}
use restream_plus.Base.{ℕ, ◌≤◌, ◌≡◌, ap, ◌↔◌, List, arith, length}
use restream_plus.Domain.CircuitBreaker.{
  CircuitBreakerPolicy, open_verdict, new, should_open, failure_count_in_window,
}

-- After any calls whose times do not fall, a breaker reports as many failures as happened within
-- the last `window` since the last clear, and is OPEN exactly when these are `max_failures` or more.
pub breaker_counts :
    (p : CircuitBreakerPolicy) (cs : List Call) (now : ℕ)
    → InOrder 0 cs now
    → let n = length (recent p now (log p no_calls cs).failures) in
      ((failure_count_in_window (run (new p) cs) now).1 ≡ n)
      × (((should_open (run (new p) cs) now).1 ≡ open_verdict) ↔ (p.max_failures ≤ n))
unfolding failure_count_in_window should_open new
breaker_counts p cs now o =
    let e = run-recent p (new p) no_calls 0 now cs (new-Tracks p) o in
    (ap length e, ground (arith, ap length e, ap (λ q. q.max_failures) (run-policy (new p) cs)))
