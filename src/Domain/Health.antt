-- ===== src/Domain/Health.antt =====
-- app/domain/health.py: whether data flows to a target.
use restream_plus.Domain.WorkerState.{WorkerSnapshot, WorkerRole, running, role_eq, state_eq}
use restream_plus.Domain.Target.{role_snapshot, expected_worker_roles, Target, is_empty, same_roles}
use restream_plus.Base.{
  List, Bool, Option, false, true, some, ◌==◌, filter, if◌then◌else◌, not, any, none,
}

pub data TargetHealthLevel : Type 0 where
  healthy_level degraded_level unhealthy_level : TargetHealthLevel

pub record TargetHealth : Type 0 where
  pub level : TargetHealthLevel
  pub healthy_roles : List WorkerRole
  pub unhealthy_roles : List WorkerRole

unfoldable pub is_live : TargetHealth → Bool
is_live h = elim h.level [ unhealthy_level ↦ false | _ ↦ true ]

runs : Option WorkerSnapshot → Bool
runs none = false
runs (some s) = s.state == running

unfoldable pub aggregate_target_health : Target → TargetHealth
unfolding runs role_snapshot expected_worker_roles
aggregate_target_health t =
    let expected = expected_worker_roles t in
    let healthy = filter (λ r. runs (role_snapshot t.worker_set r)) expected in
    record {
      level =
          if is_empty healthy
          then unhealthy_level
          else if same_roles healthy expected
          then healthy_level
          else degraded_level;
      healthy_roles = healthy;
      unhealthy_roles = filter (λ r. not (any (λ x. x == r) healthy)) expected;
    }
