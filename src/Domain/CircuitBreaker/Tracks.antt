-- ===== src/Domain/CircuitBreaker/Tracks.antt =====
-- app/domain/circuit_breaker.py: the deque is the recent part of the log, call by call.
use restream_plus.Domain.CircuitBreaker.Calls.{
  note, no_calls, Log, recent, run, failed, healthy, retried, asked, log, apply, Call, InOrder,
}
use restream_plus.Base.Window.{
  pop_while-filter, filter-filter, filter-IsSorted, IsSorted-snoc, All-le, All-le_snoc,
}
use restream_plus.Base.{
  ℕ, ◌+◌, ◌≤◌, ◌≡◌, refl, sym, ◌∙◌, ◌⊎◌, inl, inr, true, false, List, [], ◌∷◌, ◌++◌, some, arith,
  ltb, leb, if◌then◌else◌, filter-append, All, IsSorted,
}
use restream_plus.Domain.CircuitBreaker.{
  CircuitBreaker, CircuitBreakerPolicy, new, evict_old, record_failure, record_healthy, should_open,
  reset,
}

keep_later : (w now t u : ℕ) → t ≤ u → leb now (t + w) ≡ true → leb now (u + w) ≡ true
keep_later w now t u h k = ground arith

keep_earlier : (w c now t : ℕ) → c ≤ now → leb now (t + w) ≡ true → leb c (t + w) ≡ true
keep_earlier w c now t h k = ground arith

stale_iff : (w now t : ℕ) → ltb (t + w) now ≡ (if leb now (t + w) then false else true)
stale_iff w now t = ground arith

-- The deque is the part of the log that was recent at some time `cutoff` that has passed.
pub record Tracks (p : CircuitBreakerPolicy) (b : CircuitBreaker) (l : Log) (clock : ℕ)
    : Type 0 where
  cutoff : ℕ
  passed : cutoff ≤ clock
  same_policy : b.policy ≡ p
  held : b.failures ≡ recent p cutoff l.failures
  since : b.last_healthy_since ≡ l.healthy_since
  sorted : IsSorted l.failures
  before : All (λ t. t ≤ clock) l.failures

-- The eviction at `now` leaves the part of the log that is recent at `now`.
evict_old-recent :
    (p : CircuitBreakerPolicy) (b : CircuitBreaker) (l : Log) (clock now : ℕ)
    → Tracks p b l clock
    → clock ≤ now
    → (evict_old b now).failures ≡ recent p now l.failures
unfolding evict_old
evict_old-recent p b l clock now h le =
    rw (h.held, h.same_policy)
      (pop_while-filter (λ n t. leb n (t + p.window)) (keep_later p.window) (keep_earlier p.window)
          (λ n t. ltb (t + p.window) n) now (recent p h.cutoff l.failures) (stale_iff p.window now)
          (filter-IsSorted (λ t. leb h.cutoff (t + p.window)) l.failures h.sorted)
        ∙ filter-filter (λ n t. leb n (t + p.window)) (keep_later p.window) (keep_earlier p.window)
            h.cutoff now l.failures (omega (arith, h.passed)))

recent-snoc :
    (p : CircuitBreakerPolicy) (now : ℕ) (ts : List ℕ)
    → recent p now (ts ++ now ∷ []) ≡ recent p now ts ++ now ∷ []
recent-snoc p now ts = rw (filter-append (λ t. leb now (t + p.window)) ts) (ground arith)

failed-Tracks :
    (p : CircuitBreakerPolicy) (b : CircuitBreaker) (l : Log) (clock now : ℕ)
    → Tracks p b l clock
    → clock ≤ now
    → Tracks p (record_failure b now) (note p l (failed now)) now
unfolding record_failure note
failed-Tracks p b l clock now h le = record {
  cutoff = now;
  passed = omega arith;
  same_policy = h.same_policy;
  held = rw (evict_old-recent p b l clock now h le) (sym (recent-snoc p now l.failures));
  since = refl;
  sorted = IsSorted-snoc now l.failures h.sorted (All-le clock now l.failures le h.before);
  before = All-le_snoc clock now l.failures le h.before;
}

asked-Tracks :
    (p : CircuitBreakerPolicy) (b : CircuitBreaker) (l : Log) (clock now : ℕ)
    → Tracks p b l clock
    → clock ≤ now
    → Tracks p (should_open b now).0 l now
unfolding should_open
asked-Tracks p b l clock now h le = record {
  cutoff = now;
  passed = omega arith;
  same_policy = h.same_policy;
  held = evict_old-recent p b l clock now h le;
  since = h.since;
  sorted = h.sorted;
  before = All-le clock now l.failures le h.before;
}

-- `record_healthy` by its three outcomes, on the breaker and on the log.
healthy_cases :
    (p : CircuitBreakerPolicy) (b : CircuitBreaker) (l : Log) (now : ℕ)
    → b.policy ≡ p
    → b.last_healthy_since ≡ l.healthy_since
    → ((record_healthy b now ≡ record b { last_healthy_since = some now })
        × (note p l (healthy now) ≡ record l { healthy_since = some now }))
      ⊎ ((record_healthy b now ≡ record b { failures = [] })
          × (note p l (healthy now) ≡ record l { failures = [] }))
      ⊎ ((record_healthy b now ≡ b) × (note p l (healthy now) ≡ l))
unfolding record_healthy note
healthy_cases p b l now q e = ground arith

healthy-Tracks :
    (p : CircuitBreakerPolicy) (b : CircuitBreaker) (l : Log) (clock now : ℕ)
    → Tracks p b l clock
    → clock ≤ now
    → Tracks p (record_healthy b now) (note p l (healthy now)) now
healthy-Tracks p b l clock now h le = elim (healthy_cases p b l now h.same_policy h.since) [
  | inl (e, f) ↦
      rw (e, f)
        (record {
          cutoff = h.cutoff;
          passed = omega (arith, h.passed);
          same_policy = h.same_policy;
          held = h.held;
          since = refl;
          sorted = h.sorted;
          before = All-le clock now l.failures le h.before;
        })
  | inr (inl (e, f)) ↦
      rw (e, f)
        (record {
          cutoff = h.cutoff;
          passed = omega (arith, h.passed);
          same_policy = h.same_policy;
          held = refl;
          since = h.since;
          sorted = tt;
          before = tt;
        })
  | inr (inr (e, f)) ↦
      rw (e, f)
        (record {
          cutoff = h.cutoff;
          passed = omega (arith, h.passed);
          same_policy = h.same_policy;
          held = h.held;
          since = h.since;
          sorted = h.sorted;
          before = All-le clock now l.failures le h.before;
        })
]

retried-Tracks :
    (p : CircuitBreakerPolicy) (b : CircuitBreaker) (l : Log) (clock : ℕ)
    → Tracks p b l clock
    → Tracks p (reset b) (note p l retried) clock
unfolding reset note
retried-Tracks p b l clock h = record {
  cutoff = h.cutoff;
  passed = h.passed;
  same_policy = h.same_policy;
  held = refl;
  since = refl;
  sorted = tt;
  before = tt;
}

asked-note : (p : CircuitBreakerPolicy) (l : Log) (now : ℕ) → note p l (asked now) ≡ l
unfolding note
asked-note p l now = refl

-- The breaker that made some calls in order, and the log of them, at a time not before the last.
pub run-recent :
    (p : CircuitBreakerPolicy) (b : CircuitBreaker) (l : Log) (clock now : ℕ) (cs : List Call)
    → Tracks p b l clock
    → InOrder clock cs now
    → (evict_old (run b cs) now).failures ≡ recent p now (log p l cs).failures
unfolding run log apply
run-recent p b l clock now [] h o = evict_old-recent p b l clock now h o
run-recent p b l clock now (failed t ∷ cs) h o =
    run-recent p (record_failure b t) (note p l (failed t)) t now cs
      (failed-Tracks p b l clock t h o.0) o.1
run-recent p b l clock now (healthy t ∷ cs) h o =
    run-recent p (record_healthy b t) (note p l (healthy t)) t now cs
      (healthy-Tracks p b l clock t h o.0) o.1
run-recent p b l clock now (asked t ∷ cs) h o =
    run-recent p (should_open b t).0 (note p l (asked t)) t now cs
      (rw (asked-note p l t) (asked-Tracks p b l clock t h o.0)) o.1
run-recent p b l clock now (retried ∷ cs) h o =
    run-recent p (reset b) (note p l retried) clock now cs (retried-Tracks p b l clock h) o

pub run-policy : (b : CircuitBreaker) (cs : List Call) → (run b cs).policy ≡ b.policy
unfolding run apply record_failure record_healthy should_open reset evict_old
run-policy b [] = refl
run-policy b (failed t ∷ cs) = run-policy (record_failure b t) cs
run-policy b (healthy t ∷ cs) = run-policy (record_healthy b t) cs ∙ ground arith
run-policy b (asked t ∷ cs) = run-policy (should_open b t).0 cs
run-policy b (retried ∷ cs) = run-policy (reset b) cs

pub new-Tracks : (p : CircuitBreakerPolicy) → Tracks p (new p) no_calls 0
unfolding new
new-Tracks p = record {
  cutoff = 0;
  passed = omega arith;
  same_policy = refl;
  held = refl;
  since = refl;
  sorted = tt;
  before = tt;
}
