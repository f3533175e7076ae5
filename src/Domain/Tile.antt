-- ===== src/Domain/Tile.antt =====
-- app/domain/target.py and app/domain/health.py: what a target's tile says of its health.
use restream_plus.Base.Dict.{get-put}
use restream_plus.Domain.WorkerState.{
  WorkerSnapshot, running, WorkerRole, primary, backup, role_eq, WorkerState, failed_open, starting,
  state_eq,
}
use restream_plus.Domain.Health.{
  aggregate_target_health, is_live, healthy_level, degraded_level, unhealthy_level,
}
use restream_plus.Domain.Target.{
  compute_ui_state, Target, ingest_snapshot, disabled, expected_worker_roles,
  disabled_misconfigured, ui_running, degraded, ui_failed_open, ui_starting, ui_idle, errored,
  role_snapshot,
}
use restream_plus.Base.{
  ◌≡◌, false, any, ◌==◌, true, arith, ◌↔◌, ◌≢◌, ◌⊎◌, if◌then◌else◌, Bool, none, some,
}

-- The latest snapshot of a worker is in a state.
abbrev is_in : WorkerState → Target → WorkerRole → Bool
is_in state t role = elim (role_snapshot t.worker_set role) [
  | none ↦ false
  | some s ↦ s.state == state
]

-- For an enabled target with a credential, the tile and the health agree: RUNNING exactly when the
-- health is HEALTHY; a DEGRADED tile only on DEGRADED health, and on that health FAILED_OPEN if an
-- expected worker has failed open, else STARTING if one is starting, else DEGRADED; on UNHEALTHY
-- health one of IDLE, STARTING, FAILED_OPEN and ERRORED. A target that is disabled or lacks its
-- credential shows that instead.
pub tile_health :
    (t : Target)
    → let ui = compute_ui_state t in
      let level = (aggregate_target_health t).level in
      (t.enabled ≡ false → ui ≡ disabled)
      × (t.enabled ≡ true → t.has_active_credential ≡ false → ui ≡ disabled_misconfigured)
      × (t.enabled ≡ true
          → t.has_active_credential ≡ true
          → ((ui ≡ ui_running) ↔ (level ≡ healthy_level))
            × (ui ≡ degraded → level ≡ degraded_level)
            × (level ≡ degraded_level
                → ui ≡ (
                    if any (is_in failed_open t) (expected_worker_roles t)
                    then ui_failed_open
                    else if any (is_in starting t) (expected_worker_roles t)
                    then ui_starting
                    else degraded))
            × (level ≡ unhealthy_level
                → (ui ≡ ui_idle) ⊎ (ui ≡ ui_starting) ⊎ (ui ≡ ui_failed_open) ⊎ (ui ≡ errored)))
unfolding compute_ui_state aggregate_target_health
tile_health t = ground arith

-- A snapshot for a role that the target does not expect, as a late one after a change of
-- configuration, changes neither its tile nor its health.
pub ingest_unexpected :
    (t : Target) (s : WorkerSnapshot)
    → any (λ r. r == s.role) (expected_worker_roles t) ≡ false
    → (compute_ui_state (ingest_snapshot t s) ≡ compute_ui_state t)
      × (aggregate_target_health (ingest_snapshot t s) ≡ aggregate_target_health t)
unfolding compute_ui_state aggregate_target_health ingest_snapshot
ingest_unexpected t s h = ground (arith, get-put s.role primary s t.worker_set.snapshots)

-- A target is live exactly when the latest snapshot of some expected worker is RUNNING. A RUNNING
-- snapshot for an expected role makes it live, and the role is then listed as healthy and no other
-- role's listing changes.
pub ingest_running :
    (t : Target) (s : WorkerSnapshot)
    → any (λ r. r == s.role) (expected_worker_roles t) ≡ true
    → s.state ≡ running
    → let h = aggregate_target_health t in
      let h' = aggregate_target_health (ingest_snapshot t s) in
      (is_live h' ≡ true)
      × (any (λ r. r == s.role) h'.healthy_roles ≡ true)
      × ((r : WorkerRole)
          → r ≢ s.role
          → any (λ x. x == r) h'.healthy_roles ≡ any (λ x. x == r) h.healthy_roles)
unfolding aggregate_target_health is_live ingest_snapshot
ingest_running t s e h = (
  ground (
    arith,
    get-put s.role primary s t.worker_set.snapshots,
    get-put s.role backup s t.worker_set.snapshots,
  ),
  ground (
    arith,
    get-put s.role primary s t.worker_set.snapshots,
    get-put s.role backup s t.worker_set.snapshots,
  ),
  λ r n. ground (
    arith,
    get-put s.role primary s t.worker_set.snapshots,
    get-put s.role backup s t.worker_set.snapshots,
  ),
)
