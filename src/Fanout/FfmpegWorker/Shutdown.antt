-- ===== src/Fanout/FfmpegWorker/Shutdown.antt =====
-- app/fanout/ffmpeg_worker.py: how the lifecycle task ends once a stop is requested.
use restream_plus.Fanout.FfmpegWorker.{
  FfmpegWorker, no_task, spawning, waiting, backing_off, emitting, to_wait, set_state, emit,
  finish_task, end_idle, leave_loop, loop_head, after_verdict, proceed, sent, resume, exited, woken,
  delay_over, stop_wakes,
}
use restream_plus.Fanout.FfmpegWorker.Outcome.{IsUp, settle}
use restream_plus.Domain.WorkerState.{
  idle, reconnecting, failed_open, transition, state_eq, stopping,
}
use restream_plus.Base.{ℕ, true, ◌≡◌, arith, ◌∷◌}

-- The worker behind, against the one before: the task is over in IDLE, and the two events that were
-- sent last, and nothing but these, lead to STOPPING and to IDLE.
abbrev pub Ended : FfmpegWorker → FfmpegWorker → Type 0
Ended w w' =
    (w'.phase ≡ no_task)
    × (w'.state ≡ idle)
    × (w'.log ≡ (stopping, idle) ∷ (w.state, stopping) ∷ w.log)

-- A worker with a stop requested, wherever its task stands: behind the exit of its process, the backoff
-- or the wait for a reset that `stop` ends, the task sends STOPPING and IDLE and is over. But where
-- `stop` sets the reset event while the event FAILED_OPEN is being sent, the task clears it and waits,
-- and nothing that `stop` still does but the cancellation ends this: the state stays FAILED_OPEN.
pub stop_winds_down :
    (now : ℕ) (w : FfmpegWorker)
    → w.stop_requested_set ≡ true
    → (w.phase ≡ spawning → IsUp w.state → Ended w (settle (exited now w.phase w)))
      × (w.phase ≡ backing_off → w.state ≡ reconnecting → Ended w (settle (delay_over w.phase w)))
      × (w.phase ≡ waiting
          → w.state ≡ failed_open
          → w.user_reset_set ≡ true
          → Ended w (settle (woken w.phase w)))
      × (w.phase ≡ emitting failed_open to_wait
          → let w' = resume (stop_wakes w) in
            (w'.phase ≡ waiting) × (w'.state ≡ failed_open) × (woken w'.phase w' ≡ w'))
unfolding exited delay_over woken loop_head leave_loop end_idle finish_task set_state emit resume
    sent proceed after_verdict stop_wakes transition
stop_winds_down now w s =
    (λ p u. ground arith, λ p r. ground arith, λ p r q. ground arith, λ p. ground arith)
