-- ===== src/Fanout/Supervisor/Calls.antt =====
-- app/fanout/supervisor.py: any sequence of calls and signals.
use restream_plus.Fanout.Supervisor.Stopping.{stop_run_settles, stop_run_returns}
use restream_plus.Fanout.Supervisor.Control.{start_run_settles}
use restream_plus.Base.Dict.{get-put, get, put}
use restream_plus.Repositories.Rows.{CredentialDto}
use restream_plus.Auth.KeyMaterial.{Bytes}
use restream_plus.Fanout.Supervisor.Signals.{
  handle_worker_event, publish_ended, publish_began, drop_alert_tick,
}
use restream_plus.Fanout.Supervisor.{fresh, teardown_failed, Supervisor, Payload, workers_of}
use restream_plus.Fanout.Supervisor.Clearing.{tear_down-IsCleared}
use restream_plus.Fanout.Supervisor.Load.{Row, Decrypted, reload_target}
use restream_plus.Fanout.Supervisor.Roster.{spawn_entry-IsSpawned}
use restream_plus.Fanout.Supervisor.Runs.{
  Environment, start_run, stop_run, enable_locked, disable_target, may_enable,
}
use restream_plus.Fanout.Worker.{WorkerId, worker_id_eq}
use restream_plus.Domain.RunState.{offline, state_eq}
use restream_plus.Domain.WorkerState.{WorkerSnapshot}
use restream_plus.Base.Sets.{member}
use restream_plus.Base.Texts.{Text}
use restream_plus.Fanout.EventBus.{EventBus}
use restream_plus.Base.{
  string_eq, ◌≢◌, String, true, false, Option, ◌≡◌, refl, arith, ◌∙◌, Bool-cases, Option-cases, inl,
  ◌==◌, inr, some, List, ◌∷◌, string_eq, [], Result-cases, ap, sym,
}
use restream_plus.Fanout.Supervisor.Effects.{
  publish_began-IsSignal, publish_ended-IsSignal, drop_alert_tick-IsSignal,
  handle_worker_event-IsSignal, IsSignal-IsSupervised, IsSupervised, is_quiet, IsSupervised,
  IsSignal-IsSupervised,
}

-- `enables` is the part of `enable_target` behind the lock.
pub data Call : Type 0 where
  starts stops : Environment → Call
  enables : Environment → Option Row → Call
  disables : String → Call
  began ended ticks : Call
  reports : WorkerId → WorkerSnapshot → Call

module _ (decrypt : Bytes → CredentialDto → Decrypted) where
  unfoldable pub step : Call → Supervisor → Supervisor
  step (starts env) s = (start_run decrypt env s).0
  step (stops env) s = (stop_run env s).0.0
  step (enables env row) s = (enable_locked decrypt env row s).0
  step (disables t) s = disable_target t s
  step began s = publish_began s
  step ended s = publish_ended s
  step ticks s = drop_alert_tick s
  step (reports id snapshot) s = handle_worker_event id snapshot s

  unfoldable pub run : Supervisor → List Call → Supervisor
  run s [] = s
  run s (c ∷ cs) = run (step c s) cs

  -- What a sequence of calls must meet: no `stop` of a worker raises, and when an `enable_target` that
  -- waited for the lock gets it, a run is still under way.
  unfoldable pub IsCalm : Supervisor → List Call → Type 0
  IsCalm s [] = Unit {0}
  IsCalm s (starts env ∷ cs) =
      ((j : WorkerId) → env.stops j ≡ true) × IsCalm (step (starts env) s) cs
  IsCalm s (stops env ∷ cs) = ((j : WorkerId) → env.stops j ≡ true) × IsCalm (step (stops env) s) cs
  IsCalm s (enables env row ∷ cs) = (may_enable s ≡ true) × IsCalm (step (enables env row) s) cs
  IsCalm s (disables t ∷ cs) = IsCalm (step (disables t) s) cs
  IsCalm s (began ∷ cs) = IsCalm (step began s) cs
  IsCalm s (ended ∷ cs) = IsCalm (step ended s) cs
  IsCalm s (ticks ∷ cs) = IsCalm (step ticks s) cs
  IsCalm s (reports id snapshot ∷ cs) = IsCalm (step (reports id snapshot) s) cs

  not_offline :
      (env : Environment) (s : Supervisor)
      → (s.run_state == offline) ≡ false
      → (start_run decrypt env s).0 ≡ s
  unfolding start_run
  not_offline env s other = rw (other, start_run) refl

  started :
      (env : Environment) (s : Supervisor)
      → ((j : WorkerId) → env.stops j ≡ true)
      → IsSupervised s
      → IsSupervised (start_run decrypt env s).0
  started env s works h = elim (Bool-cases (s.run_state == offline)) [
    | inr other ↦ rw (not_offline env s other) h
    | inl here ↦
        let off = (state_eq.same_iff s.run_state offline).0 here in
        let (a, ending) =
          start_run_settles decrypt env s off h.agreed (h.resting (rw off refl)) works in
        record {
          agreed = a;
          resting = λ q. elim ending [
            | inl (r, armed_now, rest) ↦ ground (arith, armed_now, q)
            | inr (f, r, failed, bare) ↦ bare
          ];
        }
  ]

  -- The environments in which the second outcome of `stop_run` is ruled out.
  stop_raises :
      (env : Environment) (s : Supervisor)
      → ((j : WorkerId) → env.stops j ≡ true)
      → may_enable s ≡ true
      → (stop_run env s).0.1 ≢ some teardown_failed
  stop_raises env s works active raised = cc (stop_run_returns env s works active, raised)

  stopped :
      (env : Environment) (s : Supervisor)
      → ((j : WorkerId) → env.stops j ≡ true)
      → IsSupervised s
      → IsSupervised (stop_run env s).0.0
  stopped env s works h = elim (Bool-cases (may_enable s)) [
    | inr idle ↦ rw ((stop_run_settles env s h.agreed).1 idle) h
    | inl active ↦
        let (a, off, session, ending) = (stop_run_settles env s h.agreed).0 active in
        record {
          agreed = a;
          resting = λ q. elim ending [
            | inl (returned, bare) ↦ bare
            | inr (raised, same) ↦ absurd (stop_raises env s works active raised)
          ];
        }
  ]

  busy : (s : Supervisor) → may_enable s ≡ true → is_quiet s.run_state ≡ false
  unfolding may_enable
  busy s h = ground arith

  pub same_tracking :
      (t u : String) (j : WorkerId) (s : Supervisor)
      → member j (workers_of u (put t (workers_of t s.target_to_workers) s.target_to_workers))
        ≡ member j (workers_of u s.target_to_workers)
  unfolding workers_of
  same_tracking t u j s = ground (
    arith,
    get-put t u (workers_of t s.target_to_workers) s.target_to_workers,
    string_eq.same_iff t u,
  )

  enabled :
      (env : Environment) (row : Option Row) (s : Supervisor)
      → may_enable s ≡ true
      → IsSupervised s
      → IsSupervised (enable_locked decrypt env row s).0
  unfolding enable_locked
  enabled env row s active h = elim (Result-cases (reload_target decrypt env.keys row)) [
    | inr (f, q) ↦ rw (q, enable_locked) h
    | inl (found, q) ↦ elim (Option-cases found) [
      | inl n ↦ rw (q, n, enable_locked) h
      | inr (r, p) ↦
          let known = record s {
            targets = put r.dom.id r.dom s.targets;
            target_to_workers =
                put r.dom.id (workers_of r.dom.id s.target_to_workers) s.target_to_workers;
          } in
          let i = spawn_entry-IsSpawned env.starts r known in
          rw (q, p, enable_locked)
            (record {
              agreed = i.agreed (record {
                secrets = h.agreed.secrets;
                tracking = λ t j. same_tracking r.dom.id t j s ∙ h.agreed.tracking t j;
              });
              resting = λ quiet. ground (arith, i.state, busy s active, quiet);
            })
    ]
  ]

  disabled : (t : String) (s : Supervisor) → IsSupervised s → IsSupervised (disable_target t s)
  unfolding disable_target
  disabled t s h =
      let c = tear_down-IsCleared t s h.agreed in
      record {
        agreed = c.agreed;
        resting = λ q j. ground (arith, c.workers j, h.resting (ap is_quiet (sym c.state) ∙ q) j);
      }

  run-IsSupervised :
      (s : Supervisor) (cs : List Call) → IsCalm s cs → IsSupervised s → IsSupervised (run s cs)
  unfolding IsCalm run step
  run-IsSupervised s [] calm h = h
  run-IsSupervised s (starts env ∷ cs) (works, calm) h =
      run-IsSupervised (step (starts env) s) cs calm (started env s works h)
  run-IsSupervised s (stops env ∷ cs) (works, calm) h =
      run-IsSupervised (step (stops env) s) cs calm (stopped env s works h)
  run-IsSupervised s (enables env row ∷ cs) (active, calm) h =
      run-IsSupervised (step (enables env row) s) cs calm (enabled env row s active h)
  run-IsSupervised s (disables t ∷ cs) calm h =
      run-IsSupervised (step (disables t) s) cs calm (disabled t s h)
  run-IsSupervised s (began ∷ cs) calm h =
      run-IsSupervised (step began s) cs calm
        (IsSignal-IsSupervised s (publish_began s) (publish_began-IsSignal s) h)
  run-IsSupervised s (ended ∷ cs) calm h =
      run-IsSupervised (step ended s) cs calm
        (IsSignal-IsSupervised s (publish_ended s) (publish_ended-IsSignal s) h)
  run-IsSupervised s (ticks ∷ cs) calm h =
      run-IsSupervised (step ticks s) cs calm
        (IsSignal-IsSupervised s (drop_alert_tick s) (drop_alert_tick-IsSignal s) h)
  run-IsSupervised s (reports id snapshot ∷ cs) calm h =
      run-IsSupervised (step (reports id snapshot) s) cs calm (
        IsSignal-IsSupervised s (handle_worker_event id snapshot s)
          (handle_worker_event-IsSignal id snapshot s) h)

  fresh-IsSupervised : (url : Text) (bus : Option (EventBus Payload)) → IsSupervised (fresh url bus)
  unfolding fresh get workers_of member
  fresh-IsSupervised url bus = record {
    agreed = record { secrets = λ j. refl; tracking = λ t j. refl };
    resting = λ q j. refl;
  }

  -- From a new supervisor, after any calls and signals in which no `stop` of a worker raises and no
  -- `enable_target` gets the lock when the run is already over: a worker runs exactly when
  -- the supervisor's own table of secrets has an entry for it, and the set of each target holds exactly
  -- its running workers. No worker runs in the states OFFLINE and ERROR.
  pub supervised :
      (url : Text) (bus : Option (EventBus Payload)) (cs : List Call)
      → IsCalm (fresh url bus) cs
      → IsSupervised (run (fresh url bus) cs)
  supervised url bus cs calm = run-IsSupervised (fresh url bus) cs calm (fresh-IsSupervised url bus)
