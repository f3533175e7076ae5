-- ===== src/Fanout/Supervisor/Runs.antt =====
-- app/fanout/supervisor.py: run control and control of one target. Each call holds the lock, so it is
-- one step; `enable_target` tests the run state before it waits for the lock, so it is two.
use restream_plus.Base.Sets.{insert, discard}
use restream_plus.Fanout.Supervisor.{
  Supervisor, illegal_run_state, session_failed, audit_failed, Done, and_then, publish,
  run_state_changed, spawn_workers_for_target, tear_down_workers_for_target, tear_down_all_workers,
  workers_of,
}
use restream_plus.Fanout.Supervisor.Load.{
  Decrypted, Row, Runnable, load_runnable_targets, reload_target,
}
use restream_plus.Fanout.Worker.{WorkerId}
use restream_plus.Auth.KeyMaterial.{KeyMaterial, Bytes}
use restream_plus.Repositories.Rows.{CredentialDto}
use restream_plus.Domain.RunState.{
  RunAction, offline, starting, armed, live, stopping, error, start_requested, workers_spawned,
  stop_requested, workers_drained, unrecoverable_failed, transition, state_eq,
}
use restream_plus.Domain.TargetTypes.{CredentialLifetime, per_session, lifetime_for}
use restream_plus.Domain.Target.{Target}
use restream_plus.Base.Dict.{Dict, put}
use restream_plus.Base.{
  String, string_eq, List, [], ◌∷◌, Bool, true, false, ◌||◌, not, Option, none, some, ok, err,
  if◌then◌else◌, ◌==◌, filter, map,
}

-- What the environment decides for one call: the keys and the rows that it finds, the id of a new row
-- of sessions_history, whether the end of that row is written, which workers start and which stop
-- without an exception, and whether the last audit row is written.
pub record Environment : Type 0 where
  pub keys : KeyMaterial
  pub rows : List Row
  pub run_id : Option String
  pub ends : Bool
  pub starts : WorkerId → Bool
  pub stops : WorkerId → Bool
  pub audits : Bool

-- `_set_run_state`: the table decides the new state.
unfoldable pub set_run_state : RunAction → Supervisor → Done
set_run_state action s = elim (transition s.run_state action) [
  | err e ↦ (s, some (illegal_run_state e))
  | ok next ↦ (publish (run_state_changed next s.run_state) (record s { run_state = next }), none)
]

-- `contextlib.suppress(Exception)` around a call
abbrev pub suppress : Done → Supervisor
suppress d = d.0

unfoldable pub open_run_session : Option String → Supervisor → Done
open_run_session none s = (s, some session_failed)
open_run_session (some id) s =
    (record s { current_run_id = some id; open_runs = insert id s.open_runs }, none)

-- `_close_run_session` clears the id before `history.end` writes the row, which may raise.
unfoldable pub close_run_session : Bool → Supervisor → Done
close_run_session ends s = elim s.current_run_id [
  | none ↦ (s, none)
  | some run_id ↦
      if ends
      then (record s { current_run_id = none; open_runs = discard run_id s.open_runs }, none)
      else (record s { current_run_id = none }, some session_failed)
]

-- `{t.id: dom for (t, dom, _) in pairs}`
unfoldable pub targets_of : List Runnable → Dict String Target → Dict String Target
targets_of [] d = d
targets_of (r ∷ rs) d = targets_of rs (put r.dto.id r.dom d)

-- `{t.id: set() for (t, _, _) in pairs}`
unfoldable pub untracked : List Runnable → Dict String (List WorkerId) → Dict String (List WorkerId)
untracked [] d = d
untracked (r ∷ rs) d = untracked rs (put r.dto.id [] d)

-- One entry of the loop in `start_run`.
unfoldable pub spawn_entry : (WorkerId → Bool) → Runnable → Supervisor → Done
spawn_entry starts r s = elim r.key [
  | none ↦ (s, none)
  | some key ↦
      if not r.dom.enabled then (s, none) else spawn_workers_for_target starts r.dto r.dom key s
]

unfoldable pub spawn_entries : (WorkerId → Bool) → List Runnable → Supervisor → Done
spawn_entries starts [] s = (s, none)
spawn_entries starts (r ∷ rs) s = and_then (spawn_entry starts r s) (spawn_entries starts rs)

unfoldable pub audit_run_started : Bool → Supervisor → Done
audit_run_started audits s = (s, if audits then none else some audit_failed)

-- The handler of `start_run`: tear down, ERROR, close the row; each is tried whatever the others do.
unfoldable pub recover : (WorkerId → Bool) → Bool → Done → Done
recover stops ends (s, none) = (s, none)
recover stops ends (s, some f) = (
  suppress (
      close_run_session ends
        (suppress (set_run_state unrecoverable_failed (suppress (tear_down_all_workers stops s))))),
  some f,
)

-- The tables are filled anew, then the workers are spawned.
unfoldable pub install : (WorkerId → Bool) → List Runnable → Supervisor → Done
install starts entries s =
    spawn_entries starts entries
      (record s { targets = targets_of entries []; target_to_workers = untracked entries [] })

module _ (decrypt : Bytes → CredentialDto → Decrypted) where
  unfoldable pub load : Environment → Supervisor → (List Runnable → Supervisor → Done) → Done
  load env s rest = elim (load_runnable_targets decrypt env.keys env.rows) [
    | err f ↦ (s, some f)
    | ok (entries, failed) ↦ rest entries s
  ]

  -- The `try` block of `start_run`. The audit rows of failed decryptions are written best-effort.
  unfoldable pub attempt : Environment → Supervisor → Done
  attempt env s = and_then (open_run_session env.run_id s) λ s1.
      and_then (load env s1 (install env.starts))
        λ s2. and_then (set_run_state workers_spawned s2) (audit_run_started env.audits)

  unfoldable pub start_run : Environment → Supervisor → Done
  start_run env s =
      if s.run_state == offline
      then and_then (set_run_state start_requested s)
          (λ s1. recover env.stops env.ends (attempt env s1))
      else (s, some (illegal_run_state (record { state = s.run_state; action = start_requested })))

  -- What `enable_target` does once it holds the lock; `row` is the target's, if it is there.
  unfoldable pub enable_locked : Environment → Option Row → Supervisor → Done
  enable_locked env row s = elim (reload_target decrypt env.keys row) [
    | err f ↦ (s, some f)
    | ok none ↦ (s, none)
    | ok (some r) ↦ spawn_entry env.starts r (record s {
      targets = put r.dom.id r.dom s.targets;
      target_to_workers =
          put r.dom.id (workers_of r.dom.id s.target_to_workers) s.target_to_workers;
    })
  ]

-- The test of `enable_target`, made before it waits for the lock.
unfoldable pub may_enable : Supervisor → Bool
may_enable s = (s.run_state == starting) || ((s.run_state == armed) || (s.run_state == live))

unfoldable pub disable_target : String → Supervisor → Supervisor
disable_target target_id s = tear_down_workers_for_target target_id s

-- `_wipe_per_session_credentials`: the targets whose credentials are deleted.
abbrev pub is_per_session : Option CredentialLifetime → Bool
is_per_session none = false
is_per_session (some l) = elim l [ per_session ↦ true | _ ↦ false ]

unfoldable pub per_session_ids : Supervisor → List String
per_session_ids s =
    map (λ e. e.1.id) (filter (λ e. is_per_session (lifetime_for e.1.target_type)) s.targets)

-- With the ids whose credentials were wiped.
unfoldable pub stop_run : Environment → Supervisor → Done × List String
stop_run env s =
    if (s.run_state == offline) || ((s.run_state == stopping) || (s.run_state == error))
    then ((s, none), [])
    else let (s1, refused) = set_run_state stop_requested s in
      elim refused [
        | some f ↦ ((s1, some f), [])
        | none ↦
            let (s2, raised) = tear_down_all_workers env.stops s1 in
            (
              (
                suppress (set_run_state workers_drained (suppress (close_run_session env.ends s2))),
                raised,
              ),
              per_session_ids s2,
            )
      ]

-- `stop`, up to the event that ends `run`.
unfoldable pub stop : Environment → Supervisor → Supervisor
stop env s =
    if (s.run_state == offline) || (s.run_state == error) then s else suppress (stop_run env s).0
