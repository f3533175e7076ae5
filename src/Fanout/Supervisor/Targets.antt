-- ===== src/Fanout/Supervisor/Targets.antt =====
-- app/fanout/supervisor.py: `enable_target` behind the lock, and `disable_target`.
use restream_plus.Fanout.Supervisor.{Supervisor, workers_of}
use restream_plus.Fanout.Supervisor.Tables.{runs}
use restream_plus.Fanout.Supervisor.Agreement.{IsAgreed}
use restream_plus.Fanout.Supervisor.Clearing.{IsCleared, tear_down-IsCleared}
use restream_plus.Fanout.Supervisor.Load.{Decrypted, Row, Runnable, reload_target}
use restream_plus.Fanout.Supervisor.Roster.{wanted, spawn_entry-IsSpawned}
use restream_plus.Fanout.Supervisor.Runs.{Environment, enable_locked, disable_target}
use restream_plus.Fanout.Supervisor.Calls.{same_tracking}
use restream_plus.Fanout.Worker.{WorkerId}
use restream_plus.Auth.KeyMaterial.{Bytes}
use restream_plus.Repositories.Rows.{CredentialDto}
use restream_plus.Base.Dict.{put}
use restream_plus.Base.{
  String, string_eq, true, Option, none, some, ok, ◌≡◌, ◌==◌, ◌∙◌, if◌then◌else◌,
}

module _ (decrypt : Bytes → CredentialDto → Decrypted) (env : Environment) (row : Option Row)
    (s : Supervisor) (r : Runnable) where
  enable_spawns :
      reload_target decrypt env.keys row ≡ ok (some r)
      → IsAgreed s
      → IsAgreed (enable_locked decrypt env row s).0
        × ((enable_locked decrypt env row s).0.run_state ≡ s.run_state)
        × ((enable_locked decrypt env row s).1 ≡ none
            → (j : WorkerId)
            → runs j (enable_locked decrypt env row s).0 ≡ (if wanted r j then true else runs j s))
  unfolding enable_locked
  enable_spawns q h =
      let known : Supervisor = record s {
        targets = put r.dom.id r.dom s.targets;
        target_to_workers =
            put r.dom.id (workers_of r.dom.id s.target_to_workers) s.target_to_workers;
      } in
      let i = spawn_entry-IsSpawned env.starts r known in
      rw (q, enable_locked)
        (
          i.agreed (record {
            secrets = h.secrets;
            tracking = λ t j. same_tracking decrypt r.dom.id t j s ∙ h.tracking t j;
          }),
          i.state,
          i.workers,
        )

  -- With tables that agree, and a row that can be loaded: whatever the run state, `enable_target` keeps it
  -- once it holds the lock, and if it returns, the workers that the row calls for run and all others are
  -- as before. `disable_target` after that, for any target, stops exactly the workers of that target. The
  -- tables agree after both, also where the first call raises.
  pub enable-disable :
      (t : String)
      → reload_target decrypt env.keys row ≡ ok (some r)
      → IsAgreed s
      → let (s1, raised) = enable_locked decrypt env row s in
        IsAgreed s1
        × (s1.run_state ≡ s.run_state)
        × (raised ≡ none → (j : WorkerId) → runs j s1 ≡ (if wanted r j then true else runs j s))
        × IsCleared (λ j. j.target_id == t) s1 (disable_target t s1)
  unfolding disable_target
  enable-disable t q h =
      let (a, state, workers) = enable_spawns q h in
      (a, state, workers, tear_down-IsCleared t (enable_locked decrypt env row s).0 a)
