-- ===== src/Fanout/FfmpegWorker/Trace.antt =====
-- app/fanout/ffmpeg_worker.py: the state events of a worker follow the table of app/domain/worker_state.py.
use restream_plus.Fanout.FfmpegWorker.{
  FfmpegWorker, Phase, no_task, spawning, waiting, backing_off, emitting, Next, to_loop, to_wait,
  to_idle, to_end, to_verdict, emit, set_state, finish_task, end_idle, leave_loop, loop_head,
  after_verdict, apply_verdict, proceed, sent, route_exit, exited, healthy, frame, woken,
  pump_set_state, delay_over, start_task,
}
use restream_plus.Domain.CircuitBreaker.{BreakerVerdict, should_open, record_failure}
use restream_plus.Domain.WorkerState.{
  WorkerState, WorkerAction, idle, failed_open, stopping, reconnect, stop_requested, stopped,
  transition, state_eq, running, starting, reconnecting, process_exited, user_reset,
  process_healthy, start,
}
use restream_plus.Base.{
  if_both, List, [], ◌∷◌, Option, none, some, ok, ◌≡◌, refl, ◌==◌, ◌||◌, Bool-cases, Result-cases,
  inl, inr, ℕ, false,
}

abbrev pub IsLegal : WorkerState → WorkerState → Type 0
IsLegal s t = (a : WorkerAction) × (v : Option BreakerVerdict) × (transition s a v ≡ ok t)

-- From IDLE to `s` by transitions of the table, each from where the one before it led.
abbrev pub IsChain : WorkerState → List (WorkerState × WorkerState) → Type 0
IsChain s [] = s ≡ idle
IsChain s ((p, t) ∷ log) = (t ≡ s) × IsLegal p t × IsChain p log

-- The state of the last event, which an emission assigns only when it ends.
abbrev pub announced : Phase → WorkerState → WorkerState
announced (emitting target next) s = target
announced no_task s = s
announced spawning s = s
announced waiting s = s
announced backing_off s = s

abbrev pub Traced : FfmpegWorker → Type 0
Traced w = IsChain (announced w.phase w.state) w.log

-- As the code sees it between two statements.
abbrev pub Settled : FfmpegWorker → Type 0
Settled w = IsChain w.state w.log

emit-Traced :
    (target : WorkerState) (next : Next) (w : FfmpegWorker)
    → IsLegal w.state target
    → Settled w
    → Traced (emit target next w)
unfolding emit
emit-Traced target next w legal h = (refl, legal, h)

set_state-Traced :
    (action : WorkerAction) (next : Next) (skipped : FfmpegWorker → FfmpegWorker) (w : FfmpegWorker)
    → Settled w
    → Traced (skipped w)
    → Traced (set_state action next skipped w)
unfolding set_state
set_state-Traced action next skipped w h k = elim (Result-cases (transition w.state action none)) [
  | inl (t, q) ↦ rw (q, set_state) (emit-Traced t next w (action, none, q) h)
  | inr (e, q) ↦ rw (q, set_state) k
]

end_idle-Traced : (w : FfmpegWorker) → Settled w → Traced (end_idle w)
unfolding end_idle finish_task
end_idle-Traced w h = elim (Bool-cases (w.state == stopping)) [
  | inl q ↦ rw (q, end_idle) (set_state-Traced stopped to_end finish_task w h h)
  | inr q ↦ rw (q, end_idle) h
]

leave_loop-Traced : (w : FfmpegWorker) → Settled w → Traced (leave_loop w)
unfolding leave_loop
leave_loop-Traced w h = elim (Bool-cases ((w.state == stopping) || (w.state == idle))) [
  | inl q ↦ rw (q, leave_loop) (end_idle-Traced w h)
  | inr q ↦
      rw (q, leave_loop)
        (set_state-Traced stop_requested to_idle end_idle w h (end_idle-Traced w h))
]

loop_head-Traced : (w : FfmpegWorker) → Settled w → Traced (loop_head w)
unfolding loop_head
loop_head-Traced w h =
    if_both Traced w.stop_requested_set (leave_loop w) (record w { phase = spawning })
      (λ q. leave_loop-Traced w h) (λ q. h)

after_verdict-Traced : (w : FfmpegWorker) → Settled w → Traced (after_verdict w)
unfolding after_verdict
after_verdict-Traced w h = elim (Bool-cases (w.state == failed_open)) [
  | inl q ↦ rw (q, after_verdict) h
  | inr q ↦ rw (q, after_verdict) h
]

apply_verdict-Traced :
    (v : BreakerVerdict) (w : FfmpegWorker) → Settled w → Traced (apply_verdict v w)
unfolding apply_verdict
apply_verdict-Traced v w h = elim (Result-cases (transition w.state reconnect (some v))) [
  | inr (e, q) ↦ rw (q, apply_verdict) (after_verdict-Traced w h)
  | inl (t, q) ↦ elim (Bool-cases (t == w.state)) [
    | inl same ↦ rw (q, same, apply_verdict) (after_verdict-Traced w h)
    | inr other ↦ rw (q, other, apply_verdict) (emit-Traced t to_wait w (reconnect, some v, q) h)
  ]
]

proceed-Traced : (next : Next) (w : FfmpegWorker) → Settled w → Traced (proceed next w)
unfolding proceed finish_task
proceed-Traced to_loop w h = loop_head-Traced w h
proceed-Traced to_wait w h = after_verdict-Traced w h
proceed-Traced to_idle w h = end_idle-Traced w h
proceed-Traced to_end w h = h
proceed-Traced (to_verdict v) w h = apply_verdict-Traced v w h

pub sent-Traced :
    (p : Phase) (w : FfmpegWorker)
    → IsChain (announced p w.state) w.log
    → Traced w
    → Traced (sent p w)
unfolding sent
sent-Traced (emitting target next) w h k = proceed-Traced next (record w { state = target }) h
sent-Traced no_task w h k = k
sent-Traced spawning w h k = k
sent-Traced waiting w h k = k
sent-Traced backing_off w h k = k

route_exit-Traced : (v : BreakerVerdict) (w : FfmpegWorker) → Settled w → Traced (route_exit v w)
unfolding route_exit
route_exit-Traced v w h =
    if_both Traced ((w.state == starting) || (w.state == running)) _ _
      (λ q.
        set_state-Traced process_exited (to_verdict v) (apply_verdict v) w h
          (apply_verdict-Traced v w h))
      (λ q. apply_verdict-Traced v w h)

pub exited-Traced :
    (now : ℕ) (p : Phase) (w : FfmpegWorker)
    → IsChain (announced p w.state) w.log
    → Traced w
    → Traced (exited now p w)
unfolding exited
exited-Traced now spawning w h k =
    let judged = should_open (record_failure w.breaker now) now in
    if_both Traced w.stop_requested_set (leave_loop w)
      (route_exit judged.1 (record w { breaker = judged.0 })) (λ q. leave_loop-Traced w h)
      (λ q. route_exit-Traced judged.1 (record w { breaker = judged.0 }) h)
exited-Traced now no_task w h k = k
exited-Traced now waiting w h k = k
exited-Traced now backing_off w h k = k
exited-Traced now (emitting target next) w h k = k

healthy-Traced : (now : ℕ) (w : FfmpegWorker) → Traced w → Traced (healthy now w)
unfolding healthy
healthy-Traced now w h = if_both Traced (w.state == running) _ w (λ q. h) (λ q. h)

pump_set_state-Traced :
    (action : WorkerAction) (k : ℕ) (w : FfmpegWorker)
    → spawning ≡ w.phase
    → Settled w
    → Traced (pump_set_state action w) × Traced (record (pump_set_state action w) { attempt = k })
unfolding pump_set_state
pump_set_state-Traced action k w e h = elim (Result-cases (transition w.state action none)) [
  | inl (t, q) ↦
      rw (q, pump_set_state, ← e) ((refl, (action, none, q), h), (refl, (action, none, q), h))
  | inr (x, q) ↦ rw (q, pump_set_state, ← e) (h, h)
]

-- The worker with its phase written out, as `frame` reads it.
pub frame-Traced :
    (now : ℕ) (p : Phase) (w : FfmpegWorker) → p ≡ w.phase → Traced w → Traced (frame now p w)
unfolding frame
frame-Traced now no_task w e k = k
frame-Traced now waiting w e k = k
frame-Traced now backing_off w e k = k
frame-Traced now (emitting target next) w e k = k
frame-Traced now spawning w e k = healthy-Traced now _ (
    let settled = rw (← e) at k in
    let both = pump_set_state-Traced process_healthy 0 w e settled in
    if_both Traced (w.state == starting) _ _ (λ q. both.0)
      (λ q. if_both Traced (w.state == reconnecting) _ w (λ r. both.1) (λ r. k)))

pub woken-Traced :
    (p : Phase) (w : FfmpegWorker)
    → IsChain (announced p w.state) w.log
    → Traced w
    → Traced (woken p w)
unfolding woken
woken-Traced waiting w h k =
    if_both Traced w.user_reset_set _ w
      (λ r.
        if_both Traced w.stop_requested_set (leave_loop w)
          (set_state user_reset to_loop loop_head w) (λ q. leave_loop-Traced w h)
          (λ q. set_state-Traced user_reset to_loop loop_head w h (loop_head-Traced w h)))
      (λ r. k)
woken-Traced no_task w h k = k
woken-Traced spawning w h k = k
woken-Traced backing_off w h k = k
woken-Traced (emitting target next) w h k = k

pub delay_over-Traced :
    (p : Phase) (w : FfmpegWorker)
    → IsChain (announced p w.state) w.log
    → Traced w
    → Traced (delay_over p w)
unfolding delay_over
delay_over-Traced backing_off w h k = loop_head-Traced w h
delay_over-Traced no_task w h k = k
delay_over-Traced spawning w h k = k
delay_over-Traced waiting w h k = k
delay_over-Traced (emitting target next) w h k = k

pub start_task-Traced :
    (p : Phase) (w : FfmpegWorker)
    → IsChain (announced p w.state) w.log
    → Traced w
    → Traced (start_task p w)
unfolding start_task
start_task-Traced no_task w h k =
    let w' = record w { stop_requested_set = false; user_reset_set = false } in
    set_state-Traced start to_loop loop_head w' h (loop_head-Traced w' h)
start_task-Traced spawning w h k = k
start_task-Traced waiting w h k = k
start_task-Traced backing_off w h k = k
start_task-Traced (emitting target next) w h k = k
