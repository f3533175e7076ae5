-- ===== src/Fanout/Retries/Pace.antt =====
-- app/domain/circuit_breaker.py under failures as far apart as app/fanout/backoff.py keeps them.
use restream_plus.Domain.CircuitBreaker.{
  CircuitBreaker, default_policy, should_open, record_failure, evict_old, closed,
}
use restream_plus.Base.Window.{pop_while}
use restream_plus.Base.{
  List, Bool, ◌∷◌, length, ◌≤◌, arith, ltb, ◌+◌, ◌++◌, ◌*◌, [], length-append, ◌≡◌, refl,
}
use Prim.Native.Nat.{ℕ, suc}

-- Failures that come 48 seconds apart, but for a credit `c` that the first ones have used up; the next
-- one comes at `clock` or later.
abbrev pub IsSlow : ℕ → List ℕ → ℕ → Type 0
IsSlow c [] clock = Unit {0}
IsSlow c (t ∷ ts) clock = (t + 48_000_000 * suc (length ts) ≤ clock + c) × IsSlow c ts clock

pop_while-IsSlow :
    (stale : ℕ → Bool) (c clock : ℕ) (ts : List ℕ)
    → IsSlow c ts clock
    → IsSlow c (pop_while stale ts) clock
pop_while-IsSlow stale c clock [] h = tt
pop_while-IsSlow stale c clock (t ∷ ts) h = ground (arith, pop_while-IsSlow stale c clock ts h.1)

length-pop_while : (stale : ℕ → Bool) (ts : List ℕ) → length (pop_while stale ts) ≤ length ts
length-pop_while stale [] = omega arith
length-pop_while stale (t ∷ ts) = ground (arith, length-pop_while stale ts)

-- Five minutes hold twelve of them.
IsSlow-few :
    (c clock now : ℕ) (ts : List ℕ)
    → c ≤ 288_000_000
    → clock ≤ now
    → IsSlow c ts clock
    → length (pop_while (λ t. ltb (t + 300_000_000) now) ts) ≤ 12
IsSlow-few c clock now [] hc hn h = omega arith
IsSlow-few c clock now (t ∷ ts) hc hn h = ground (arith, IsSlow-few c clock now ts hc hn h.1)

IsSlow-snoc :
    (c c' clock now delay : ℕ) (ts : List ℕ)
    → clock ≤ now
    → c + 48_000_000 ≤ delay + c'
    → IsSlow c ts clock
    → IsSlow c' (ts ++ now ∷ []) (now + delay)
IsSlow-snoc c c' clock now delay [] hn hc h = (omega (arith, hc), tt)
IsSlow-snoc c c' clock now delay (t ∷ ts) hn hc h = (
  omega (arith, h.0, hn, hc, length-append ts (now ∷ [])),
  IsSlow-snoc c c' clock now delay ts hn hc h.1,
)

-- The verdict on one more failure, and the deque behind it.
module _ (c clock now : ℕ) (b : CircuitBreaker) (policy : b.policy ≡ default_policy)
    (hc : c ≤ 288_000_000) (hn : clock ≤ now) (slow : IsSlow c b.failures clock) where
  kept : List ℕ
  kept = pop_while (λ t. ltb (t + 300_000_000) now) b.failures

  deque-kept :
      (should_open (record_failure b now) now).0.failures
      ≡ pop_while (λ t. ltb (t + 300_000_000) now) (kept ++ now ∷ [])
  unfolding should_open record_failure evict_old kept
  deque-kept = rw policy refl

  pub stays_closed : (should_open (record_failure b now) now).1 ≡ closed
  unfolding should_open record_failure evict_old kept
  stays_closed =
      let few = IsSlow-few c clock now b.failures hc hn slow in
      let fewer = length-pop_while (λ t. ltb (t + 300_000_000) now) (kept ++ now ∷ []) in
      rw policy (ground (arith, few, fewer, length-append kept (now ∷ [])))

  pub stays-IsSlow :
      (c' delay : ℕ)
      → c + 48_000_000 ≤ delay + c'
      → IsSlow c' (should_open (record_failure b now) now).0.failures (now + delay)
  unfolding kept
  stays-IsSlow c' delay h = rw deque-kept (
      pop_while-IsSlow (λ t. ltb (t + 300_000_000) now) c' (now + delay) (kept ++ now ∷ [])
        (IsSlow-snoc c c' clock now delay kept hn h
          (pop_while-IsSlow (λ t. ltb (t + 300_000_000) now) c clock b.failures slow)))
