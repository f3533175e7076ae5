-- ===== src/Fanout/Supervisor/Signals.antt =====
-- app/fanout/supervisor.py: what arrives from outside a call: signals of nginx-rtmp, events of
-- workers, the ticks of the drop alert.
use restream_plus.Fanout.Supervisor.{
  Supervisor, publish, run_state_changed, target_snapshot, drop_alert,
}
use restream_plus.Fanout.Worker.{WorkerId, worker_id_eq}
use restream_plus.Domain.RunState.{
  armed, live, obs_publish_began, obs_publish_ended, transition, state_eq,
}
use restream_plus.Domain.Target.{
  ingest_snapshot, compute_ui_state, expected_worker_roles, role_snapshot, WorkerSet,
}
use restream_plus.Domain.WorkerState.{WorkerRole, WorkerSnapshot}
use restream_plus.Base.Dict.{get, put, contains}
use restream_plus.Base.{string_eq, List, [], ◌∷◌, none, some, ok, err, if◌then◌else◌, ◌==◌, ltb}

-- `notify_obs_publish_began`
unfoldable pub publish_began : Supervisor → Supervisor
publish_began s =
    if s.run_state == armed
    then elim (transition s.run_state obs_publish_began) [
      | err e ↦ s
      | ok next ↦ publish (run_state_changed next armed) (record s { run_state = next })
    ]
    else s

-- `notify_obs_publish_ended`
unfoldable pub publish_ended : Supervisor → Supervisor
publish_ended s =
    if s.run_state == live
    then elim (transition s.run_state obs_publish_ended) [
      | err e ↦ s
      | ok next ↦ publish (run_state_changed next live) (record s { run_state = next })
    ]
    else s

-- The snapshots of the expected roles that have one, in their order.
unfoldable pub known_snapshots : WorkerSet → List WorkerRole → List WorkerSnapshot
known_snapshots w [] = []
known_snapshots w (r ∷ rs) =
    let rest = known_snapshots w rs in
    elim (role_snapshot w r) [ none ↦ rest | some snapshot ↦ snapshot ∷ rest ]

-- `_handle_worker_event`: `snapshot` is what the worker reports of itself.
unfoldable pub handle_worker_event : WorkerId → WorkerSnapshot → Supervisor → Supervisor
handle_worker_event id snapshot s =
    if contains id s.workers
    then elim (get id.target_id s.targets) [
      | none ↦ s
      | some target ↦
          let seen = ingest_snapshot target snapshot in
          publish
            (target_snapshot seen.id (compute_ui_state seen)
              (known_snapshots seen.worker_set (expected_worker_roles seen)))
            (record s { targets = put id.target_id seen s.targets })
    ]
    else s

-- One tick of `_drop_alert_loop`.
unfoldable pub drop_alert_tick : Supervisor → Supervisor
drop_alert_tick s = elim s.bus [
  | none ↦ s
  | some bus ↦
      if ltb s.last_drop_alert_total bus.dropped_total
      then publish (drop_alert bus.dropped_total)
          (record s { last_drop_alert_total = bus.dropped_total })
      else s
]
