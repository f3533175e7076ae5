-- ===== src/Fanout/FfmpegWorker.antt =====
-- app/fanout/ffmpeg_worker.py: the lifecycle loop of one worker, cut at every await. An emission may
-- wait for room on the channel, so the state is assigned in a later step than the event is sent.
pub mod Trace
pub mod Calls
pub mod Outcome
pub mod Shutdown
use restream_plus.Domain.CircuitBreaker.{
  CircuitBreaker, BreakerVerdict, record_failure, record_healthy, should_open, reset,
}
use restream_plus.Domain.WorkerState.{
  WorkerState, WorkerAction, idle, starting, running, reconnecting, failed_open, stopping, start,
  process_healthy, process_exited, reconnect, stop_requested, stopped, user_reset, transition,
  state_eq,
}
use restream_plus.Base.{
  ℕ, ◌+◌, List, [], ◌∷◌, Bool, true, false, ◌||◌, Option, none, some, ok, err, if◌then◌else◌, ◌==◌,
}

-- What follows an emission: the head of the loop, the verdict, the test for FAILED_OPEN, the last
-- transition, the end.
pub data Next : Type 0 where
  to_loop to_wait to_idle to_end : Next
  to_verdict : BreakerVerdict → Next

-- Where the lifecycle task stands: not started or over, inside `_run_one_spawn`, in an emission of
-- `_set_state`, in the wait for a reset, in the backoff.
pub data Phase : Type 0 where
  no_task spawning waiting backing_off : Phase
  emitting : WorkerState → Next → Phase

-- `log` holds the state events, the last one first, as previous and new state.
pub record FfmpegWorker : Type 0 where
  pub state : WorkerState
  pub attempt : ℕ
  pub breaker : CircuitBreaker
  pub stop_requested_set : Bool
  pub user_reset_set : Bool
  pub phase : Phase
  pub log : List (WorkerState × WorkerState)

unfoldable pub new : CircuitBreaker → FfmpegWorker
new breaker = record {
  state = idle;
  attempt = 0;
  breaker = breaker;
  stop_requested_set = false;
  user_reset_set = false;
  phase = no_task;
  log = [];
}

-- `_emit_state_change`, with what comes when the event is sent.
unfoldable pub emit : WorkerState → Next → FfmpegWorker → FfmpegWorker
emit target next w = record w { phase = emitting target next; log = (w.state, target) ∷ w.log }

-- `_set_state`: an action that the table refuses is logged and passed over, which leads to `skipped`.
unfoldable pub set_state :
    WorkerAction → Next → (FfmpegWorker → FfmpegWorker) → FfmpegWorker → FfmpegWorker
set_state action next skipped w = elim (transition w.state action none) [
  | err e ↦ skipped w
  | ok verified ↦ emit verified next w
]

unfoldable pub finish_task : FfmpegWorker → FfmpegWorker
finish_task w = record w { phase = no_task }

-- Behind the loop: `if self._state is STOPPING`.
unfoldable pub end_idle : FfmpegWorker → FfmpegWorker
unfolding set_state emit finish_task
end_idle w = if w.state == stopping then set_state stopped to_end finish_task w else finish_task w

-- The exit of the loop.
unfoldable pub leave_loop : FfmpegWorker → FfmpegWorker
unfolding end_idle
leave_loop w =
    if (w.state == stopping) || (w.state == idle)
    then end_idle w
    else set_state stop_requested to_idle end_idle w

-- `while not self._stop_requested.is_set()`
unfoldable pub loop_head : FfmpegWorker → FfmpegWorker
unfolding leave_loop
loop_head w = if w.stop_requested_set then leave_loop w else record w { phase = spawning }

-- Behind the verdict: clear the event and wait, or back off.
unfoldable pub after_verdict : FfmpegWorker → FfmpegWorker
after_verdict w =
    if w.state == failed_open
    then record w { user_reset_set = false; phase = waiting }
    else record w { attempt = w.attempt + 1; phase = backing_off }

-- `_apply_reconnect_verdict`
unfoldable pub apply_verdict : BreakerVerdict → FfmpegWorker → FfmpegWorker
unfolding emit after_verdict
apply_verdict verdict w = elim (transition w.state reconnect (some verdict)) [
  | err e ↦ after_verdict w
  | ok next ↦ if next == w.state then after_verdict w else emit next to_wait w
]

-- The statement behind an emission.
unfoldable pub proceed : Next → FfmpegWorker → FfmpegWorker
unfolding loop_head after_verdict apply_verdict end_idle finish_task
proceed to_loop w = loop_head w
proceed to_wait w = after_verdict w
proceed to_idle w = end_idle w
proceed to_end w = finish_task w
proceed (to_verdict v) w = apply_verdict v w

-- An emission comes to its end: the state is assigned.
unfoldable pub sent : Phase → FfmpegWorker → FfmpegWorker
unfolding proceed
sent (emitting target next) w = proceed next (record w { state = target })
sent no_task w = w
sent spawning w = w
sent waiting w = w
sent backing_off w = w

unfoldable pub resume : FfmpegWorker → FfmpegWorker
unfolding sent
resume w = sent w.phase w

-- Behind a failure that is recorded.
unfoldable pub route_exit : BreakerVerdict → FfmpegWorker → FfmpegWorker
unfolding set_state emit apply_verdict
route_exit v w =
    if (w.state == starting) || (w.state == running)
    then set_state process_exited (to_verdict v) (apply_verdict v) w
    else apply_verdict v w

-- `_run_one_spawn` returns at `now`, since the process has exited or could not be started.
unfoldable pub exited : ℕ → Phase → FfmpegWorker → FfmpegWorker
unfolding leave_loop route_exit
exited now spawning w =
    if w.stop_requested_set
    then leave_loop w
    else let (breaker, verdict) = should_open (record_failure w.breaker now) now in
      route_exit verdict (record w { breaker = breaker })
exited now no_task w = w
exited now waiting w = w
exited now backing_off w = w
exited now (emitting target next) w = w

-- A progress frame in `_stdout_pump`, which `_run_one_spawn` awaits, up to `_emit_progress`.
unfoldable pub healthy : ℕ → FfmpegWorker → FfmpegWorker
healthy now w =
    if w.state == running then record w { breaker = record_healthy w.breaker now } else w

-- `_set_state` in the pump of the output, whose own emission is one step here.
unfoldable pub pump_set_state : WorkerAction → FfmpegWorker → FfmpegWorker
pump_set_state action w = elim (transition w.state action none) [
  | err e ↦ w
  | ok verified ↦ record w { state = verified; log = (w.state, verified) ∷ w.log }
]

unfoldable pub frame : ℕ → Phase → FfmpegWorker → FfmpegWorker
unfolding healthy pump_set_state
frame now spawning w = healthy now (
    if w.state == starting
    then pump_set_state process_healthy w
    else if w.state == reconnecting
    then record (pump_set_state process_healthy w) { attempt = 0 }
    else w)
frame now no_task w = w
frame now waiting w = w
frame now backing_off w = w
frame now (emitting target next) w = w

-- The wait in FAILED_OPEN ends once the event is set.
unfoldable pub woken : Phase → FfmpegWorker → FfmpegWorker
unfolding leave_loop loop_head set_state emit
woken waiting w =
    if w.user_reset_set
    then if w.stop_requested_set then leave_loop w else set_state user_reset to_loop loop_head w
    else w
woken no_task w = w
woken spawning w = w
woken backing_off w = w
woken (emitting target next) w = w

-- The backoff is over, by its delay or by a stop.
unfoldable pub delay_over : Phase → FfmpegWorker → FfmpegWorker
unfolding loop_head
delay_over backing_off w = loop_head w
delay_over no_task w = w
delay_over spawning w = w
delay_over waiting w = w
delay_over (emitting target next) w = w

-- `start`: a second call while the task runs is a no-op.
unfoldable pub start_task : Phase → FfmpegWorker → FfmpegWorker
unfolding set_state emit loop_head
start_task no_task w =
    set_state start to_loop loop_head
      (record w { stop_requested_set = false; user_reset_set = false })
start_task spawning w = w
start_task waiting w = w
start_task backing_off w = w
start_task (emitting target next) w = w

-- `stop` sets the one event at its beginning, and the other once the process is gone.
unfoldable pub stop_begins : FfmpegWorker → FfmpegWorker
stop_begins w = record w { stop_requested_set = true }

unfoldable pub stop_wakes : FfmpegWorker → FfmpegWorker
stop_wakes w = if w.stop_requested_set then record w { user_reset_set = true } else w

-- `stop` cancels a task that has not ended in time.
unfoldable pub cancel : FfmpegWorker → FfmpegWorker
cancel w = record w { phase = no_task }

-- `user_reset`
unfoldable pub reset_by_user : FfmpegWorker → FfmpegWorker
reset_by_user w =
    if w.state == failed_open
    then record w { breaker = reset w.breaker; attempt = 0; user_reset_set = true }
    else w
