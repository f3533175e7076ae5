-- ===== src/Fanout/FfmpegWorker/Outcome.antt =====
-- app/fanout/ffmpeg_worker.py: what follows the exit of a process.
use restream_plus.Fanout.FfmpegWorker.{
  FfmpegWorker, spawning, waiting, backing_off, emit, set_state, after_verdict, apply_verdict,
  proceed, sent, resume, route_exit, exited,
}
use restream_plus.Domain.CircuitBreaker.{
  BreakerVerdict, open_verdict, closed, record_failure, should_open,
}
use restream_plus.Domain.WorkerState.{
  WorkerState, starting, running, reconnecting, failed_open, transition, state_eq,
}
use restream_plus.Base.{ℕ, ◌+◌, false, ◌≡◌, ◌⊎◌, arith}

-- The states in which a worker's process runs.
abbrev pub IsUp : WorkerState → Type 0
IsUp s = (s ≡ starting) ⊎ (s ≡ running) ⊎ (s ≡ reconnecting)

-- The breaker's verdict at the exit of a process at `now`.
abbrev pub verdict_at : ℕ → FfmpegWorker → BreakerVerdict
verdict_at now w = (should_open (record_failure w.breaker now) now).1

-- Two emissions are under way at most.
abbrev pub settle : FfmpegWorker → FfmpegWorker
settle w = resume (resume w)

-- A worker whose process exits while no stop is requested, once its state events are sent: on an OPEN
-- verdict of the breaker, which counts this exit, it waits in FAILED_OPEN with the reset event cleared;
-- on a CLOSED one it backs off in RECONNECTING, and the next delay is one attempt longer.
pub exit_outcome :
    (now : ℕ) (w : FfmpegWorker)
    → w.phase ≡ spawning
    → w.stop_requested_set ≡ false
    → IsUp w.state
    → let w' = settle (exited now w.phase w) in
      (verdict_at now w ≡ open_verdict
        → (w'.state ≡ failed_open)
          × (w'.phase ≡ waiting)
          × (w'.user_reset_set ≡ false)
          × (w'.attempt ≡ w.attempt))
      × (verdict_at now w ≡ closed
          → (w'.state ≡ reconnecting) × (w'.phase ≡ backing_off) × (w'.attempt ≡ w.attempt + 1))
unfolding exited route_exit set_state emit apply_verdict after_verdict resume sent proceed
    transition
exit_outcome now w p s u = ground arith
