-- ===== src/Fanout/Supervisor.antt =====
-- app/fanout/supervisor.py: the supervisor's tables and the operations on them. What the environment
-- decides (the database, the start and the stop of a process, an audit row) is an argument of the call.
pub mod Load
pub mod Runs
pub mod Signals
pub mod Tables
pub mod Agreement
pub mod Clearing
pub mod Roster
pub mod Control
pub mod Stopping
pub mod Effects
pub mod Calls
pub mod Targets
pub mod Errors
use restream_plus.Base.Dict.{Dict, get, put, remove, contains}
use restream_plus.Base.Sets.{insert, discard}
use restream_plus.Base.Texts.{Text, codes}
use restream_plus.Domain.RunState.{RunState, IllegalRunStateTransition, offline}
use restream_plus.Domain.Target.{Target, TargetUiState}
use restream_plus.Domain.TargetTypes.{youtube, type_eq}
use restream_plus.Domain.WorkerState.{WorkerRole, WorkerSnapshot, primary, backup}
use restream_plus.Fanout.EventBus.{EventBus, put_event}
use restream_plus.Fanout.OutUrl.{UrlError, compose_out_url}
use restream_plus.Fanout.Worker.{WorkerId, WorkerSpec, worker_id_eq}
use restream_plus.Logging.Registry.{CredentialRegistry, register, unregister}
use restream_plus.Repositories.Rows.{TargetDto}
use restream_plus.Base.{
  ℕ, String, string_eq, List, [], ◌∷◌, map, Bool, true, false, ◌&&◌, Option, none, some, ok, err,
  if◌then◌else◌, ◌==◌, all,
}

-- The payloads that the supervisor puts on the bus. A cause is a text for the log; it is left out.
pub data Payload : Type 0 where
  run_state_changed : RunState → RunState → Payload
  target_snapshot : String → TargetUiState → List WorkerSnapshot → Payload
  drop_alert : ℕ → Payload

-- A worker is its spec: what runs inside it is the worker's own state. `open_runs` are the rows of
-- sessions_history that have no end.
pub record Supervisor : Type 0 where
  pub run_state : RunState
  pub targets : Dict String Target
  pub workers : Dict WorkerId WorkerSpec
  pub registered_secrets : Dict WorkerId Text
  pub target_to_workers : Dict String (List WorkerId)
  pub current_run_id : Option String
  pub open_runs : List String
  pub registry : CredentialRegistry
  pub bus : Option (EventBus Payload)
  pub last_drop_alert_total : ℕ
  pub ingest_loopback_url : Text

-- `__init__`, and the bus that `run` sets.
unfoldable pub fresh : Text → Option (EventBus Payload) → Supervisor
fresh url bus = record {
  run_state = offline;
  targets = [];
  workers = [];
  registered_secrets = [];
  target_to_workers = [];
  current_run_id = none;
  open_runs = [];
  registry = record { secrets = [] };
  bus = bus;
  last_drop_alert_total = 0;
  ingest_loopback_url = url;
}

-- What a call may raise.
pub data Failure : Type 0 where
  illegal_run_state : IllegalRunStateTransition → Failure
  service_locked session_failed undecodable_key unknown_target_type : Failure
  bad_url : UrlError → Failure
  secret_rejected spawn_failed audit_failed teardown_failed : Failure

-- The state after the call, and what it raised.
abbrev pub Done : Type 0
Done = Supervisor × Option Failure

-- A statement and the ones behind it: an exception passes them by.
abbrev pub and_then : Done → (Supervisor → Done) → Done
and_then (s, none) rest = rest s
and_then (s, some f) rest = (s, some f)

-- `_bus.put`, where there is a bus.
unfoldable pub publish : Payload → Supervisor → Supervisor
publish payload s = elim s.bus [
  | none ↦ s
  | some bus ↦ record s { bus = some (put_event bus payload) }
]

unfoldable pub roles_for : Target → List WorkerRole
roles_for t =
    if (t.target_type == youtube) && t.backup_enabled then primary ∷ backup ∷ [] else primary ∷ []

-- `_target_to_workers.get(target_id, set())`
unfoldable pub workers_of : String → Dict String (List WorkerId) → List WorkerId
workers_of target_id d = elim (get target_id d) [ none ↦ [] | some ids ↦ ids ]

-- `_target_to_workers.setdefault(target_id, set()).add(worker_id)`
unfoldable pub track : WorkerId → Dict String (List WorkerId) → Dict String (List WorkerId)
track id d = put id.target_id (insert id (workers_of id.target_id d)) d

-- `_target_to_workers.get(target_id, set()).discard(worker_id)`
unfoldable pub untrack :
    String → WorkerId → Dict String (List WorkerId) → Dict String (List WorkerId)
untrack target_id id d = elim (get target_id d) [
  | none ↦ d
  | some ids ↦ put target_id (discard id ids) d
]

-- `for ws in _target_to_workers.values(): ws.discard(worker_id)`
unfoldable pub untrack_everywhere :
    WorkerId → Dict String (List WorkerId) → Dict String (List WorkerId)
untrack_everywhere id [] = []
untrack_everywhere id ((t, ids) ∷ d) = (t, discard id ids) ∷ untrack_everywhere id d

unfoldable pub unregister_secret : WorkerId → Supervisor → Supervisor
unregister_secret id s = elim (get id s.registered_secrets) [
  | none ↦ s
  | some secret ↦ record s {
    registered_secrets = remove id s.registered_secrets;
    registry = unregister secret s.registry;
  }
]

-- The three steps with which a worker leaves the tables.
unfoldable pub forget : String → WorkerId → Supervisor → Supervisor
forget target_id id s =
    let s' = unregister_secret id s in
    record s' {
      workers = remove id s'.workers;
      target_to_workers = untrack target_id id s'.target_to_workers;
    }

-- The tables with a worker that is about to start.
unfoldable pub enter : WorkerSpec → Text → CredentialRegistry → Supervisor → Supervisor
enter spec key registry s = record s {
  registry = registry;
  registered_secrets = put spec.worker_id key s.registered_secrets;
  workers = put spec.worker_id spec s.workers;
  target_to_workers = track spec.worker_id s.target_to_workers;
}

-- One round of the loop in `_spawn_workers_for_target`. `starts` says whether the factory, `start` and
-- the task of the event pump go through.
unfoldable pub spawn_role :
    (WorkerId → Bool) → TargetDto → Target → Text → WorkerRole → Supervisor → Done
spawn_role starts dto dom key role s =
    let id : WorkerId = record { target_id = dom.id; role = role } in
    if contains id s.workers
    then (s, none)
    else elim (compose_out_url dom.target_type (codes dto.url) key role) [
      | err e ↦ (s, some (bad_url e))
      | ok url ↦ elim (register key s.registry) [
        | err e ↦ (s, some secret_rejected)
        | ok registry ↦
            let spec : WorkerSpec = record {
              worker_id = id;
              target_type = dom.target_type;
              input_url = s.ingest_loopback_url;
              output_url = url;
            } in
            let entered = enter spec key registry s in
            if starts id then (entered, none) else (forget dom.id id entered, some spawn_failed)
      ]
    ]

-- An exception ends the loop.
unfoldable pub spawn_roles :
    (WorkerId → Bool) → TargetDto → Target → Text → List WorkerRole → Supervisor → Done
spawn_roles starts dto dom key [] s = (s, none)
spawn_roles starts dto dom key (role ∷ roles) s =
    and_then (spawn_role starts dto dom key role s) (spawn_roles starts dto dom key roles)

unfoldable pub spawn_workers_for_target :
    (WorkerId → Bool) → TargetDto → Target → Text → Supervisor → Done
spawn_workers_for_target starts dto dom key s = spawn_roles starts dto dom key (roles_for dom) s

-- One round of `_tear_down_workers_for_target`; an exception of `stop` is suppressed.
unfoldable pub tear_down_id : String → WorkerId → Supervisor → Supervisor
tear_down_id target_id id s = if contains id s.workers then forget target_id id s else s

unfoldable pub tear_down_ids : String → List WorkerId → Supervisor → Supervisor
tear_down_ids target_id [] s = s
tear_down_ids target_id (id ∷ ids) s = tear_down_ids target_id ids (tear_down_id target_id id s)

unfoldable pub tear_down_workers_for_target : String → Supervisor → Supervisor
tear_down_workers_for_target target_id s =
    tear_down_ids target_id (workers_of target_id s.target_to_workers) s

-- The second loop of `_tear_down_all_workers`.
unfoldable pub forget_all : List WorkerId → Supervisor → Supervisor
forget_all [] s = s
forget_all (id ∷ ids) s =
    let s' = unregister_secret id s in
    forget_all ids (record s' {
      workers = remove id s'.workers;
      target_to_workers = untrack_everywhere id s'.target_to_workers;
    })

abbrev pub ids_of : Dict WorkerId WorkerSpec → List WorkerId
ids_of workers = map (λ e. e.0) workers

-- The group of `stop` tasks raises when one of them does, before the second loop.
unfoldable pub tear_down_all_workers : (WorkerId → Bool) → Supervisor → Done
tear_down_all_workers stops s =
    if all stops (ids_of s.workers)
    then (forget_all (ids_of s.workers) s, none)
    else (s, some teardown_failed)
