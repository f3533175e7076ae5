-- ===== src/Domain/Target.antt =====
-- app/domain/target.py: the Target aggregate and the state that its tile shows. A frozenset of roles
-- is a list with no order: two are compared by inclusion both ways.

use restream_plus.Domain.TargetTypes.{TargetType, youtube, type_eq}
use restream_plus.Base.Dict.{Dict, get, put}
use restream_plus.Domain.WorkerState.{
  WorkerRole, WorkerSnapshot, WorkerState, idle, running, primary, failed_open, backup, starting,
  state_eq, role_eq,
}
use restream_plus.Base.{
  String, List, Bool, Option, if◌then◌else◌, ◌==◌, all, true, not, any, ◌∷◌, filter, is_some, ◌&&◌,
  false, some, [], none,
}

pub data TargetUiState : Type 0 where
  disabled disabled_misconfigured ui_idle ui_starting ui_running degraded errored ui_failed_open :
      TargetUiState

pub record WorkerSet : Type 0 where
  pub snapshots : Dict WorkerRole WorkerSnapshot

-- `WorkerSet.role`
unfoldable pub role_snapshot : WorkerSet → WorkerRole → Option WorkerSnapshot
role_snapshot w r = get r w.snapshots

pub record Target : Type 0 where
  pub id : String
  pub target_type : TargetType
  pub label : String
  pub target_url : String
  pub enabled : Bool
  pub backup_enabled : Bool
  pub has_active_credential : Bool
  pub worker_set : WorkerSet

unfoldable pub ingest_snapshot : Target → WorkerSnapshot → Target
ingest_snapshot t s = record t {
  worker_set = record { snapshots = put s.role s t.worker_set.snapshots };
}

unfoldable pub expected_worker_roles : Target → List WorkerRole
expected_worker_roles t =
    if (t.target_type == youtube) && t.backup_enabled then primary ∷ backup ∷ [] else primary ∷ []

-- `==` of two frozensets
abbrev pub same_roles : List WorkerRole → List WorkerRole → Bool
same_roles xs ys = all (λ x. any (λ y. x == y) ys) xs && all (λ y. any (λ x. x == y) xs) ys

abbrev pub is_empty {ℓ} : {A : Type ℓ} → List A → Bool
is_empty [] = true
is_empty (x ∷ xs) = false

credentials_satisfied : Target → Bool
credentials_satisfied t = t.has_active_credential

-- `states[r]`: IDLE where no snapshot has come.
state_or_idle : Option WorkerSnapshot → WorkerState
state_or_idle none = idle
state_or_idle (some s) = s.state

-- The rungs of the ladder below the first snapshot, over the states of the expected workers.
ladder : Target → List WorkerRole → (WorkerRole → WorkerState) → TargetUiState
ladder t expected state =
    let healthy = filter (λ r. state r == running) expected in
    if any (λ r. state r == failed_open) expected
    then ui_failed_open
    else if any (λ r. state r == starting) expected
    then ui_starting
    else if same_roles healthy expected
    then ui_running
    else if (t.target_type == youtube) && (t.backup_enabled && not (is_empty healthy))
    then degraded
    else errored

unfoldable pub compute_ui_state : Target → TargetUiState
unfolding role_snapshot expected_worker_roles credentials_satisfied state_or_idle ladder
compute_ui_state t =
    let expected = expected_worker_roles t in
    let snapshot = role_snapshot t.worker_set in
    if not t.enabled
    then disabled
    else if not (credentials_satisfied t)
    then disabled_misconfigured
    else if all (λ r. not (is_some (snapshot r))) expected
    then ui_idle
    else ladder t expected (λ r. state_or_idle (snapshot r))
