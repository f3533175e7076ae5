-- ===== src/Fanout/SupervisorTests.antt =====
-- The supervisor at concrete inputs: a YouTube target with a backup and a Twitch target.
use restream_plus.Fanout.Supervisor.Targets.{enable-disable}
use restream_plus.Fanout.Supervisor.Roster.{wanted}
use restream_plus.Fanout.Supervisor.Tables.{runs}
use restream_plus.Fanout.Supervisor.Stopping.{Stopped, stop_run_settles}
use restream_plus.Fanout.Supervisor.Errors.{error_stays}
use restream_plus.Fanout.Worker.{WorkerId}
use restream_plus.Fanout.Supervisor.Control.{Started, loaded_in, Failed, start_run_settles}
use restream_plus.Fanout.Supervisor.Agreement.{IsAgreed, NoWorkers}
use restream_plus.Fanout.Supervisor.Clearing.{IsCleared}
use restream_plus.Domain.RunState.{transition, error, offline}
use restream_plus.Fanout.Supervisor.{
  spawn_workers_for_target, spawn_roles, roles_for, spawn_role, enter, publish, track, Supervisor,
  fresh, ids_of, workers_of, Done,
}
use restream_plus.Fanout.Supervisor.Load.{
  load_rows, load_row, open_credential, Decrypted, plaintext, Row, load_runnable_targets, Runnable,
  reload_target,
}
use restream_plus.Fanout.Supervisor.Effects.{IsSupervised}
use restream_plus.Fanout.Supervisor.Calls.{
  Call, starts, stops, disables, began, run, supervised, IsCalm,
}
use restream_plus.Fanout.Supervisor.Runs.{
  set_run_state, recover, attempt, open_run_session, load, install, spawn_entries, spawn_entry,
  audit_run_started, targets_of, untracked, Environment, start_run, may_enable, enable_locked,
  stop_run, disable_target,
}
use restream_plus.Logging.Registry.{register}
use restream_plus.Fanout.OutUrl.{compose_out_url, compose_accepted, rstrip_slash, replace_first}
use restream_plus.Auth.KeyMaterial.{require_ready, KeyMaterial, Bytes, ready}
use restream_plus.Repositories.Rows.{
  target_dto_to_domain, target_type_of, backup_setting, CredentialDto, flag,
}
use restream_plus.Domain.WorkerState.{primary, backup}
use restream_plus.Domain.TargetTypes.{twitch}
use restream_plus.Base.Dict.{put, get}
use restream_plus.Base.Sets.{insert, member}
use restream_plus.Base.Texts.{codes}
use restream_plus.Base.{
  List, [], ◌∷◌, true, none, some, ◌≡◌, refl, false, ok, ◌⊎◌, if◌then◌else◌, ◌==◌, string_eq,
}

abbrev pub opened_keys : KeyMaterial
opened_keys = record {
  kdf_salt = [];
  state = ready;
  keys = some (record { stream_key_kek = []; api_token_mac_key = []; session_token_mac_key = [] });
  holder = none;
  waiting = [];
}

-- The ciphertext is the key itself.
abbrev pub open_box : Bytes → CredentialDto → Decrypted
open_box kek cred = plaintext cred.ciphertext

abbrev pub youtube_row : Row
youtube_row = (
  record {
    id = "yt";
    type_name = "youtube";
    label = "YouTube";
    url = "rtmps://a.rtmps.youtube.com:443/live2";
    enabled = true;
    settings = ("backup_enabled", flag true) ∷ [];
  },
  some (record { target_id = "yt"; ciphertext = codes "abcd-efgh-ijkl"; nonce = []; salt = [] }),
)

abbrev pub twitch_row : Row
twitch_row = (
  record {
    id = "tw";
    type_name = "twitch";
    label = "Twitch";
    url = "rtmp://live.twitch.tv/app";
    enabled = true;
    settings = [];
  },
  some (record { target_id = "tw"; ciphertext = codes "live_12345678"; nonce = []; salt = [] }),
)

-- Everything succeeds.
abbrev pub fair : Environment
fair = record {
  keys = opened_keys;
  rows = youtube_row ∷ twitch_row ∷ [];
  run_id = some "run-1";
  ends = true;
  starts = λ id. true;
  stops = λ id. true;
  audits = true;
}

abbrev pub idle : Supervisor
idle = fresh (codes "rtmp://127.0.0.1/live") none

abbrev first_run : List Call
first_run = starts fair ∷ began ∷ disables "tw" ∷ stops fair ∷ []

abbrev pub running : Supervisor
running = (start_run open_box fair idle).0

three_workers_start :
    ids_of running.workers
    ≡ record { target_id = "yt"; role = primary }
      ∷ record { target_id = "yt"; role = backup }
      ∷ record { target_id = "tw"; role = primary }
      ∷ []
unfolding start_run fresh load_runnable_targets set_run_state transition recover attempt
    open_run_session load load_rows install targets_of untracked spawn_entries publish
    audit_run_started load_row open_credential target_dto_to_domain target_type_of backup_setting
    spawn_entry spawn_workers_for_target spawn_roles roles_for spawn_role enter track workers_of
    compose_out_url compose_accepted rstrip_slash replace_first register require_ready get put
    insert member
three_workers_start = refl

pub idle-IsAgreed : IsAgreed idle
unfolding fresh get workers_of member
idle-IsAgreed = record { secrets = λ j. refl; tracking = λ t j. refl }

pub idle_bare : NoWorkers idle
unfolding fresh get
idle_bare j = refl

pub idle_offline : idle.run_state ≡ offline
unfolding fresh
idle_offline = refl

start_run_settles_example :
    IsAgreed (start_run open_box fair idle).0
    × (Started (loaded_in open_box fair) (start_run open_box fair idle)
        ⊎ Failed (start_run open_box fair idle))
start_run_settles_example =
    start_run_settles open_box fair idle idle_offline idle-IsAgreed idle_bare (λ j. refl)

stop_run_settles_example :
    ((may_enable running ≡ true) → Stopped true running (stop_run fair running).0)
    × ((may_enable running ≡ false) → stop_run fair running ≡ ((running, none), []))
stop_run_settles_example = stop_run_settles fair running start_run_settles_example.0

-- A call of `enable_target` that got the lock after the run was over: the worker starts in OFFLINE.
abbrev late : Done
late = enable_locked open_box fair (some twitch_row) idle

late_worker_in_offline :
    (late.0.run_state ≡ offline)
    × (ids_of late.0.workers ≡ record { target_id = "tw"; role = primary } ∷ [])
unfolding enable_locked fresh reload_target load_row open_credential target_dto_to_domain
    target_type_of backup_setting spawn_entry spawn_workers_for_target spawn_roles roles_for
    spawn_role enter track workers_of compose_out_url compose_accepted rstrip_slash replace_first
    register require_ready get put insert member
late_worker_in_offline = (refl, refl)

abbrev twitch_entry : Runnable
twitch_entry = record {
  dto = twitch_row.0;
  dom = record {
    id = "tw";
    target_type = twitch;
    label = "Twitch";
    target_url = "rtmp://live.twitch.tv/app";
    enabled = true;
    backup_enabled = false;
    has_active_credential = true;
    worker_set = record { snapshots = [] };
  };
  key = some (codes "live_12345678");
}

twitch_loads : reload_target open_box fair.keys (some twitch_row) ≡ ok (some twitch_entry)
unfolding reload_target load_row open_credential target_dto_to_domain target_type_of backup_setting
    require_ready get
twitch_loads = refl

enable-disable_example :
    let (s1, raised) = enable_locked open_box fair (some twitch_row) idle in
    IsAgreed s1
    × (s1.run_state ≡ idle.run_state)
    × (raised ≡ none
        → (j : WorkerId) → runs j s1 ≡ (if wanted twitch_entry j then true else runs j idle))
    × IsCleared (λ j. j.target_id == "tw") s1 (disable_target "tw" s1)
enable-disable_example =
    enable-disable open_box fair (some twitch_row) idle twitch_entry "tw" twitch_loads idle-IsAgreed

error_stays_example : (run open_box (record idle { run_state = error }) first_run).run_state ≡ error
error_stays_example = error_stays open_box (record idle { run_state = error }) first_run refl

supervised_example :
    IsSupervised (run open_box (fresh (codes "rtmp://127.0.0.1/live") none) first_run)
unfolding IsCalm
supervised_example =
    supervised open_box (codes "rtmp://127.0.0.1/live") none first_run (λ j. refl, (λ j. refl, tt))
