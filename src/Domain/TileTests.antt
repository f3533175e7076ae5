-- ===== src/Domain/TileTests.antt =====
-- A YouTube target with a backup, and the theorems on tiles and the catalogue at it.
use restream_plus.Domain.Tile.{tile_health}
use restream_plus.Base.Dict.{get}
use restream_plus.Domain.TargetTypes.{TargetType, youtube, field_eq}
use restream_plus.Domain.WorkerState.{WorkerRole, WorkerSnapshot, primary, backup}
use restream_plus.Base.{true, ◌≡◌, none, ◌∷◌, refl, []}
use restream_plus.Domain.Target
use restream_plus.Domain.Health
use restream_plus.Domain.WorkerState

abbrev snapshot_of : WorkerRole → WorkerState.WorkerState → WorkerSnapshot
snapshot_of r s = record {
  role = r;
  state = s;
  last_event_at = 0;
  last_error = none;
  breaker_failures_in_window = 0;
  last_progress = none;
}

abbrev channel : TargetType → Target.Target
channel t = record {
  id = "t1";
  target_type = t;
  label = "main";
  target_url = "rtmps://a.rtmps.youtube.com:443/live2";
  enabled = true;
  backup_enabled = true;
  has_active_credential = true;
  worker_set = record {
    snapshots =
        (primary, snapshot_of primary WorkerState.reconnecting)
        ∷ (backup, snapshot_of backup WorkerState.running)
        ∷ [];
  };
}

lost_redundancy : Target.compute_ui_state (channel youtube) ≡ Target.degraded
unfolding Target.compute_ui_state get
lost_redundancy = refl

tile_health_example :
    (Health.aggregate_target_health (channel youtube)).level ≡ Health.degraded_level
tile_health_example = ((tile_health (channel youtube)).2 refl refl).1 lost_redundancy
