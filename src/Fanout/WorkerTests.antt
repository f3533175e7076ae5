-- ===== src/Fanout/WorkerTests.antt =====
-- The lifecycle of a worker at concrete inputs.
use restream_plus.Fanout.Retries.Endless.{IsRetried, started_worker, failed_rounds-IsRetried}
use restream_plus.Fanout.Backoff.{backoff, compute_backoff, rounded}
use restream_plus.Fanout.Retries.{failed_rounds, failed_round, wait_out}
use restream_plus.Fanout.FfmpegWorker.{
  FfmpegWorker, spawning, waiting, backing_off, emitting, to_wait, new, resume, exited, frame,
  woken, delay_over, start_task, stop_wakes, stop_begins,
}
use restream_plus.Fanout.FfmpegWorker.Calls.{
  Op, emitted, starts, stops, frames, exits, run, step, events_follow_table,
}
use restream_plus.Fanout.FfmpegWorker.Trace.{IsChain, announced}
use restream_plus.Fanout.FfmpegWorker.Outcome.{IsUp, settle, verdict_at, exit_outcome}
use restream_plus.Fanout.FfmpegWorker.Shutdown.{Ended, stop_winds_down}
use restream_plus.Domain.CircuitBreaker.{
  CircuitBreaker, open_verdict, closed, default_policy, should_open, record_failure, record_healthy,
}
use restream_plus.Domain.WorkerState.{
  idle, starting, running, reconnecting, failed_open, state_eq, transition,
}
use restream_plus.Base.{◌+◌, List, [], ◌∷◌, true, false, none, ◌≡◌, refl, inl, inr, ℕ, err, ok}

abbrev quiet_breaker : CircuitBreaker
quiet_breaker = record { policy = default_policy; failures = []; last_healthy_since = none }

-- Up, lost, and stopped in the backoff.
abbrev session : List Op
session = starts ∷ emitted ∷ frames 1_000_000 ∷ exits 2_000_000 ∷ emitted ∷ stops ∷ []

session_events :
    (run (new quiet_breaker) session).log
    ≡ (running, reconnecting) ∷ (starting, running) ∷ (idle, starting) ∷ []
unfolding run step new start_task resume frame exited stop_begins transition should_open
    record_failure record_healthy
session_events = refl

events_follow_table_example :
    let w = run (new quiet_breaker) session in IsChain (announced w.phase w.state) w.log
events_follow_table_example = events_follow_table quiet_breaker session

abbrev up : FfmpegWorker
up = record {
  state = running;
  attempt = 0;
  breaker = quiet_breaker;
  stop_requested_set = false;
  user_reset_set = false;
  phase = spawning;
  log = [];
}

exit_outcome_example :
    let w' = settle (exited 5 up.phase up) in
    (verdict_at 5 up ≡ open_verdict
      → (w'.state ≡ failed_open)
        × (w'.phase ≡ waiting)
        × (w'.user_reset_set ≡ false)
        × (w'.attempt ≡ up.attempt))
    × (verdict_at 5 up ≡ closed
        → (w'.state ≡ reconnecting) × (w'.phase ≡ backing_off) × (w'.attempt ≡ up.attempt + 1))
exit_outcome_example = exit_outcome 5 up refl refl (inr (inl refl))

abbrev stopped_up : FfmpegWorker
stopped_up = record up { stop_requested_set = true }

stop_winds_down_example :
    (stopped_up.phase ≡ spawning
      → IsUp stopped_up.state
      → Ended stopped_up (settle (exited 5 stopped_up.phase stopped_up)))
    × (stopped_up.phase ≡ backing_off
        → stopped_up.state ≡ reconnecting
        → Ended stopped_up (settle (delay_over stopped_up.phase stopped_up)))
    × (stopped_up.phase ≡ waiting
        → stopped_up.state ≡ failed_open
        → stopped_up.user_reset_set ≡ true
        → Ended stopped_up (settle (woken stopped_up.phase stopped_up)))
    × (stopped_up.phase ≡ emitting failed_open to_wait
        → let w' = resume (stop_wakes stopped_up) in
          (w'.phase ≡ waiting) × (w'.state ≡ failed_open) × (woken w'.phase w' ≡ w'))
stop_winds_down_example = stop_winds_down 5 stopped_up refl

-- Two quick exits, with the shortest delays.
abbrev two_rounds : List (ℕ × ℕ)
two_rounds = (0, 0) ∷ (5_000_000, 0) ∷ []

two_rounds_clock :
    (elim (failed_rounds two_rounds started_worker 7) [ err e ↦ 0 | ok r ↦ r.1 ]) ≡ 7_400_007
unfolding failed_rounds failed_round wait_out backoff compute_backoff rounded resume exited
    start_task transition new should_open record_failure restream_plus.Domain.CircuitBreaker.new
    delay_over
two_rounds_clock = refl

failed_rounds-IsRetried_example : IsRetried 2 (failed_rounds two_rounds started_worker 7)
failed_rounds-IsRetried_example = failed_rounds-IsRetried two_rounds 7
