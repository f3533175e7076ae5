-- ===== src/Fanout/FfmpegWorker/Calls.antt =====
-- app/fanout/ffmpeg_worker.py: any interleaving of the lifecycle task with calls from outside.
use restream_plus.Fanout.FfmpegWorker.{
  FfmpegWorker, new, resume, exited, frame, woken, delay_over, start_task, stop_begins, stop_wakes,
  reset_by_user,
}
use restream_plus.Fanout.FfmpegWorker.Trace.{
  IsChain, announced, Traced, sent-Traced, exited-Traced, frame-Traced, woken-Traced,
  delay_over-Traced, start_task-Traced,
}
use restream_plus.Domain.CircuitBreaker.{CircuitBreaker}
use restream_plus.Domain.WorkerState.{failed_open, state_eq}
use restream_plus.Base.{ℕ, List, [], ◌∷◌, ◌==◌, refl, if_both}

-- An emission ends; the process exits; a frame comes; the wait for a reset or the backoff ends; `start`,
-- the two halves of `stop`, `user_reset`. The cancellation of the task is not among them.
pub data Op : Type 0 where
  emitted wakes delayed starts stops nudges resets : Op
  exits frames : ℕ → Op

unfoldable pub step : Op → FfmpegWorker → FfmpegWorker
step emitted w = resume w
step wakes w = woken w.phase w
step delayed w = delay_over w.phase w
step starts w = start_task w.phase w
step stops w = stop_begins w
step nudges w = stop_wakes w
step resets w = reset_by_user w
step (exits now) w = exited now w.phase w
step (frames now) w = frame now w.phase w

unfoldable pub run : FfmpegWorker → List Op → FfmpegWorker
run w [] = w
run w (op ∷ ops) = run (step op w) ops

step-Traced : (op : Op) (w : FfmpegWorker) → Traced w → Traced (step op w)
unfolding step resume stop_begins stop_wakes reset_by_user
step-Traced emitted w h = sent-Traced w.phase w h h
step-Traced wakes w h = woken-Traced w.phase w h h
step-Traced delayed w h = delay_over-Traced w.phase w h h
step-Traced starts w h = start_task-Traced w.phase w h h
step-Traced stops w h = h
step-Traced nudges w h = if_both Traced w.stop_requested_set _ w (λ q. h) (λ q. h)
step-Traced resets w h = if_both Traced (w.state == failed_open) _ w (λ q. h) (λ q. h)
step-Traced (exits now) w h = exited-Traced now w.phase w h h
step-Traced (frames now) w h = frame-Traced now w.phase w refl h

run-Traced : (w : FfmpegWorker) (ops : List Op) → Traced w → Traced (run w ops)
unfolding run
run-Traced w [] h = h
run-Traced w (op ∷ ops) h = run-Traced (step op w) ops (step-Traced op w h)

new-Traced : (breaker : CircuitBreaker) → Traced (new breaker)
unfolding new
new-Traced breaker = refl

-- A new worker under any interleaving of its task with `start`, `stop` and `user_reset`, until the task
-- is cancelled: the state events lead from IDLE by transitions of the worker's table, each from the
-- state that the one before it announced, to the state announced last, which is the worker's own unless
-- an emission is under way.
pub events_follow_table :
    (breaker : CircuitBreaker) (ops : List Op)
    → let w = run (new breaker) ops in IsChain (announced w.phase w.state) w.log
events_follow_table breaker ops = run-Traced (new breaker) ops (new-Traced breaker)
