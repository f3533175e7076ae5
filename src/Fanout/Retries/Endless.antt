-- ===== src/Fanout/Retries/Endless.antt =====
-- app/fanout/ffmpeg_worker.py, backoff.py and app/domain/circuit_breaker.py together: a worker whose
-- process never sends a frame.
use restream_plus.Domain.CircuitBreaker
use restream_plus.Fanout.FfmpegWorker
use restream_plus.Fanout.Retries.{failed_round, wait_out, failed_rounds}
use restream_plus.Fanout.FfmpegWorker.Outcome.{IsUp, verdict_at, settle, exit_outcome}
use restream_plus.Domain.WorkerState.{starting, reconnecting, transition}
use restream_plus.Fanout.Retries.Pace.{IsSlow, stays_closed, stays-IsSlow}
use restream_plus.Domain.CircuitBreaker.{
  default_policy, closed, should_open, record_failure, evict_old,
}
use restream_plus.Fanout.Backoff.{backoff, OverflowError, backoff-steady, backoff-IsOnTime}
use restream_plus.Base.{
  Result, ◌≡◌, err, ok, false, ◌+◌, ◌<◌, ◌≤◌, ◌⊎◌, Bool-cases, leb, inl, arith, leb→le, inr, refl,
  ◌∙◌, List, ap, length, ◌∷◌, [],
}
use restream_plus.Fanout.FfmpegWorker.{
  exited, FfmpegWorker, resume, route_exit, set_state, spawning, emit, apply_verdict, after_verdict,
  sent, proceed, delay_over, loop_head, backing_off, Phase, start_task, no_task,
}
use Prim.Native.Nat.{ℕ, ◌*◌, min, suc}

-- The worker between two spawns, behind `n` rounds.
pub record IsRetrying (n : ℕ) (w : FfmpegWorker) : Type 0 where
  pub at_spawn : w.phase ≡ spawning
  pub not_stopped : w.stop_requested_set ≡ false
  pub not_failed : (w.state ≡ starting) ⊎ (w.state ≡ reconnecting)
  pub counted : w.attempt ≡ n

-- Each of the first six failures uses up a credit of 48 seconds.
credit : ℕ → ℕ
credit n = 48_000_000 * min n 6

record IsPaced (n clock : ℕ) (w : FfmpegWorker) : Type 0 where
  retrying : IsRetrying n w
  policy : w.breaker.policy ≡ default_policy
  slow : IsSlow (credit n) w.breaker.failures clock

-- The rounds end the task with an exception, or the worker is about to spawn once more.
abbrev pub IsRetried : ℕ → Result OverflowError (FfmpegWorker × ℕ) → Type 0
IsRetried n (err e) = 1024 < n
IsRetried n (ok (w, clock)) = (n ≤ 1024) × IsRetrying n w

bounded : (n : ℕ) → credit n ≤ 288_000_000
unfolding credit
bounded n = omega arith

credit-grows :
    (n random delay : ℕ)
    → backoff n random ≡ ok delay
    → credit n + 48_000_000 ≤ delay + credit (n + 1)
unfolding credit
credit-grows n random delay e = elim (Bool-cases (leb 6 n)) [
  | inl late ↦ omega (arith, leb→le 6 n late, backoff-steady n random delay (leb→le 6 n late) e)
  | inr early ↦ ground (arith, early)
]

-- Behind the exit, with its events sent.
exited-behind :
    (now : ℕ) (w : FfmpegWorker)
    → w.phase ≡ spawning
    → w.stop_requested_set ≡ false
    → IsUp w.state
    → verdict_at now w ≡ closed
    → let w' = settle (exited now w.phase w) in
      (w'.breaker ≡ (should_open (record_failure w.breaker now) now).0)
      × (w'.stop_requested_set ≡ false)
unfolding exited route_exit set_state emit apply_verdict after_verdict resume sent proceed
    transition
exited-behind now w p s u v = ground arith

-- One round.
abbrev IsNext : ℕ → Result OverflowError (FfmpegWorker × ℕ) → Type 0
IsNext n (err e) = 1024 ≤ n
IsNext n (ok (w, clock)) = (n < 1024) × IsPaced (n + 1) clock w

-- The head of the loop behind the backoff.
spawns_again :
    (w : FfmpegWorker)
    → w.stop_requested_set ≡ false
    → delay_over backing_off w ≡ record w { phase = spawning }
unfolding delay_over loop_head
spawns_again w s = ground (arith, s)

-- The backoff, where the breaker has let the worker go on.
waited :
    (n k random now : ℕ) (w : FfmpegWorker) (p : Phase) (r : Result OverflowError ℕ)
    → backoff n random ≡ r
    → p ≡ backing_off
    → k ≡ n
    → w.stop_requested_set ≡ false
    → w.state ≡ reconnecting
    → w.attempt ≡ n + 1
    → w.breaker.policy ≡ default_policy
    → ((delay : ℕ)
        → credit n + 48_000_000 ≤ delay + credit (n + 1)
        → IsSlow (credit (n + 1)) w.breaker.failures (now + delay))
    → IsNext n (wait_out p k random now w)
unfolding wait_out
waited n k random now w p (err e) q e_p e_k s u a b slow =
    let on_time = backoff-IsOnTime n random in rw (e_p, e_k, wait_out, q) (rw q at on_time)
waited n k random now w p (ok delay) q e_p e_k s u a b slow =
    let on_time = backoff-IsOnTime n random in
    rw (e_p, e_k, wait_out, q, spawns_again w s)
      (
        rw q at on_time,
        record {
          retrying = record { at_spawn = refl; not_stopped = s; not_failed = inr u; counted = a };
          policy = b;
          slow = slow delay (credit-grows n random delay q);
        },
      )

failed_round-IsNext :
    (n clock : ℕ) (round : ℕ × ℕ) (w : FfmpegWorker)
    → IsPaced n clock w
    → IsNext n (failed_round round w clock)
unfolding failed_round should_open record_failure evict_old
failed_round-IsNext n clock (ran, random) w h =
    let r = h.retrying in
    let now = clock + ran in
    let up : IsUp w.state = elim r.not_failed [ inl s ↦ inl s | inr s ↦ inr (inr s) ] in
    let le : clock ≤ now = omega arith in
    let hc : credit n ≤ 288_000_000 = bounded n in
    let shut = stays_closed (credit n) clock now w.breaker h.policy hc le h.slow in
    let out = (exit_outcome now w r.at_spawn r.not_stopped up).1 shut in
    let behind = exited-behind now w r.at_spawn r.not_stopped up shut in
    waited n w.attempt random now (settle (exited now w.phase w))
      (settle (exited now w.phase w)).phase (backoff n random) refl out.1 r.counted behind.1 out.0
      (out.2 ∙ ap (λ k. k + 1) r.counted) (rw behind.0 h.policy)
      (λ delay hd. rw behind.0 (
        stays-IsSlow (credit n) clock now w.breaker h.policy hc le h.slow (credit (n + 1)) delay
          hd))

then-IsRetried :
    (n : ℕ) (rounds : List (ℕ × ℕ)) (r : Result OverflowError (FfmpegWorker × ℕ))
    → IsNext n r
    → ((clock : ℕ) (w : FfmpegWorker)
        → n + 1 ≤ 1024
        → IsPaced (n + 1) clock w
        → IsRetried (n + 1 + length rounds) (failed_rounds rounds w clock))
    → IsRetried
        (n + suc (length rounds))
        (elim r [ err e ↦ err e | ok (w, clock) ↦ failed_rounds rounds w clock ])
then-IsRetried n rounds (err e) h rest = omega (arith, h)
then-IsRetried n rounds (ok (w, clock)) h rest =
    let same : n + suc (length rounds) ≡ n + 1 + length rounds = omega arith in
    rw same (rest clock w (omega (arith, h.0)) h.1)

rounds-IsRetried :
    (n clock : ℕ) (rounds : List (ℕ × ℕ)) (w : FfmpegWorker)
    → n ≤ 1024
    → IsPaced n clock w
    → IsRetried (n + length rounds) (failed_rounds rounds w clock)
unfolding failed_rounds
rounds-IsRetried n clock [] w le h = let same : n + 0 ≡ n = omega arith in rw same (le, h.retrying)
rounds-IsRetried n clock (round ∷ rounds) w le h =
    then-IsRetried n rounds (failed_round round w clock) (failed_round-IsNext n clock round w h)
      (λ clock' w' le' h'. rounds-IsRetried (n + 1) clock' rounds w' le' h')

-- A new worker of the default policy that has just been started.
abbrev pub started_worker : FfmpegWorker
started_worker = resume (start_task no_task (FfmpegWorker.new (CircuitBreaker.new default_policy)))

-- From a new worker of the default policy that has just been started, whenever its process exits
-- before its first frame, and whatever the jitter: the breaker never opens, the worker is about to
-- spawn again with one attempt counted for each round, and behind round 1,025 the task ends with an
-- OverflowError.
pub failed_rounds-IsRetried :
    (rounds : List (ℕ × ℕ)) (clock : ℕ)
    → IsRetried (length rounds) (failed_rounds rounds started_worker clock)
unfolding CircuitBreaker.new FfmpegWorker.new start_task resume set_state emit sent proceed
    loop_head transition
failed_rounds-IsRetried rounds clock =
    let same : 0 + length rounds ≡ length rounds = omega arith in
    let start : IsPaced 0 clock started_worker = record {
      retrying = record {
        at_spawn = refl;
        not_stopped = refl;
        not_failed = inl refl;
        counted = refl;
      };
      policy = refl;
      slow = tt;
    } in
    let done = rounds-IsRetried 0 clock rounds started_worker (omega arith) start in rw same at done
