-- ===== src/Fanout/Supervisor/Errors.antt =====
-- app/fanout/supervisor.py: the state ERROR.
use restream_plus.Fanout.Supervisor.{
  forget, tear_down_id, tear_down_ids, tear_down_workers_for_target, workers_of, Supervisor,
}
use restream_plus.Fanout.Supervisor.Load.{Decrypted, Row, reload_target}
use restream_plus.Fanout.Supervisor.Roster.{publish-SameTables, spawn_entry-IsSpawned}
use restream_plus.Fanout.Supervisor.Runs.{
  Environment, start_run, stop_run, enable_locked, disable_target,
}
use restream_plus.Fanout.Supervisor.Signals.{
  publish_began, publish_ended, handle_worker_event, drop_alert_tick,
}
use restream_plus.Fanout.Supervisor.Calls.{
  Call, starts, stops, enables, disables, began, ended, ticks, reports, step, run,
}
use restream_plus.Auth.KeyMaterial.{Bytes}
use restream_plus.Repositories.Rows.{CredentialDto}
use restream_plus.Domain.RunState.{error, state_eq}
use restream_plus.Fanout.Supervisor.Effects.{tick_cases, event_cases}
use restream_plus.Fanout.Worker.{WorkerId}
use restream_plus.Fanout.Supervisor.Tables.{forget-Forgets}
use restream_plus.Domain.WorkerState.{WorkerSnapshot}
use restream_plus.Base.{
  ap, String, List, [], ◌∷◌, Option, Result-cases, ◌≡◌, refl, arith, ◌∙◌, Option-cases, inl, inr,
}

tear_down_keeps :
    (t : String) (ids : List WorkerId) (s : Supervisor)
    → (tear_down_ids t ids s).run_state ≡ s.run_state
unfolding tear_down_ids tear_down_id
tear_down_keeps t [] s = refl
tear_down_keeps t (id ∷ ids) s = ground (
  arith,
  tear_down_keeps t ids (forget t id s),
  tear_down_keeps t ids s,
  (forget-Forgets t id s).state,
)

disable_keeps : (t : String) (s : Supervisor) → (disable_target t s).run_state ≡ s.run_state
unfolding disable_target tear_down_workers_for_target
disable_keeps t s = tear_down_keeps t (workers_of t s.target_to_workers) s

tick_keeps : (s : Supervisor) → (drop_alert_tick s).run_state ≡ s.run_state
tick_keeps s = elim (tick_cases s) [
  | inl q ↦ ap (λ (u : Supervisor). u.run_state) q
  | inr (payload, total, q) ↦
      ap (λ (u : Supervisor). u.run_state) q
      ∙ (publish-SameTables payload (record s { last_drop_alert_total = total })).1
]

event_keeps :
    (id : WorkerId) (snapshot : WorkerSnapshot) (s : Supervisor)
    → (handle_worker_event id snapshot s).run_state ≡ s.run_state
event_keeps id snapshot s = elim (event_cases id snapshot s) [
  | inl q ↦ ap (λ (u : Supervisor). u.run_state) q
  | inr (payload, seen, q) ↦
      ap (λ (u : Supervisor). u.run_state) q
      ∙ (publish-SameTables payload (record s { targets = seen })).1
]

module _ (decrypt : Bytes → CredentialDto → Decrypted) where
  enable_keeps :
      (env : Environment) (row : Option Row) (s : Supervisor)
      → (enable_locked decrypt env row s).0.run_state ≡ s.run_state
  unfolding enable_locked
  enable_keeps env row s = elim (Result-cases (reload_target decrypt env.keys row)) [
    | inr (f, q) ↦ rw (q, enable_locked) refl
    | inl (found, q) ↦ elim (Option-cases found) [
      | inl n ↦ rw (q, n, enable_locked) refl
      | inr (r, p) ↦ rw (q, p, enable_locked) ((spawn_entry-IsSpawned env.starts r _).state)
    ]
  ]

  step_keeps :
      (c : Call) (s : Supervisor) → s.run_state ≡ error → (step decrypt c s).run_state ≡ error
  unfolding step start_run stop_run publish_began publish_ended
  step_keeps (starts env) s h = ground (arith, h)
  step_keeps (stops env) s h = ground (arith, h)
  step_keeps (enables env row) s h = enable_keeps env row s ∙ h
  step_keeps (disables t) s h = disable_keeps t s ∙ h
  step_keeps began s h = ground (arith, h)
  step_keeps ended s h = ground (arith, h)
  step_keeps ticks s h = tick_keeps s ∙ h
  step_keeps (reports id snapshot) s h = event_keeps id snapshot s ∙ h

  -- In ERROR no call and no signal changes the run state, whatever the environment does: nothing clears
  -- the error.
  pub error_stays :
      (s : Supervisor) (cs : List Call) → s.run_state ≡ error → (run decrypt s cs).run_state ≡ error
  unfolding run
  error_stays s [] h = h
  error_stays s (c ∷ cs) h = error_stays (step decrypt c s) cs (step_keeps c s h)
