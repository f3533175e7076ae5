-- ===== src/Fanout/Supervisor/Stopping.antt =====
-- app/fanout/supervisor.py: how `stop_run` ends.
use restream_plus.Fanout.Supervisor.Control.{close_run_session-Keeps, closed-IsAgreed, closed-runs}
use restream_plus.Base.Sets.{member, member-discard}
use restream_plus.Domain.WorkerState.{starting}
use restream_plus.Fanout.Supervisor.{Supervisor, Done, teardown_failed, tear_down_all_workers}
use restream_plus.Fanout.Supervisor.Tables.{runs}
use restream_plus.Fanout.Supervisor.Agreement.{IsAgreed, NoWorkers}
use restream_plus.Fanout.Supervisor.Clearing.{tear_down_all_cases, tear_down_all_stopped}
use restream_plus.Fanout.Supervisor.Roster.{
  SameTables-IsAgreed, SameTables-runs, set_run_state-Moves, Moves,
}
use restream_plus.Fanout.Supervisor.Runs.{
  Environment, set_run_state, suppress, close_run_session, stop_run, may_enable, per_session_ids,
}
use restream_plus.Fanout.Worker.{WorkerId}
use restream_plus.Domain.RunState.{
  offline, stopping, stop_requested, workers_drained, transition, state_eq, RunState, error,
  starting, armed, live,
}
use restream_plus.Base.{
  String, List, true, none, some, ok, ◌≡◌, refl, arith, ◌⊎◌, false, Bool, [], inl, inr, ◌==◌, ◌∙◌,
  ◌||◌, Option, Option-cases, ap, Bool-cases, if◌then◌else◌, string_eq, ◌&&◌,
}

to_stopping :
    (s : Supervisor) → may_enable s ≡ true → transition s.run_state stop_requested ≡ ok stopping
unfolding may_enable transition
to_stopping s h = ground arith

to_offline : transition stopping workers_drained ≡ ok offline
unfolding transition
to_offline = refl

active_state : RunState → Bool
active_state r = (r == starting) || ((r == armed) || (r == live))

at_rest :
    (env : Environment) (s : Supervisor) (r : RunState)
    → s.run_state ≡ r
    → active_state r ≡ false
    → stop_run env s ≡ ((s, none), [])
unfolding stop_run active_state
at_rest env s offline e h = ground (arith, e)
at_rest env s stopping e h = ground (arith, e)
at_rest env s error e h = ground (arith, e)
at_rest env s starting e h = cc
at_rest env s armed e h = cc
at_rest env s live e h = cc

-- Everything behind the change to STOPPING.
unfoldable drain : Environment → Supervisor → Done × List String
drain env s =
    let (s2, raised) = tear_down_all_workers env.stops s in
    (
      (suppress (set_run_state workers_drained (suppress (close_run_session env.ends s2))), raised),
      per_session_ids s2,
    )

stop_run_active :
    (env : Environment) (s s1 : Supervisor)
    → may_enable s ≡ true
    → set_run_state stop_requested s ≡ (s1, none)
    → stop_run env s ≡ drain env s1
unfolding stop_run may_enable drain
stop_run_active env s s1 h q = ground (arith, q)

-- The rows without an end, when the current run's is to be closed: it is gone if the database wrote the
-- end, and every other row is as before.
abbrev pub is_run : Option String → String → Bool
is_run none id = false
is_run (some run_id) id = run_id == id

abbrev pub Closes : Bool → Supervisor → Supervisor → Type 0
Closes ends s s' =
    (s'.current_run_id ≡ none)
    × ((id : String)
        → member id s'.open_runs
          ≡ (if ends && is_run s.current_run_id id then false else member id s.open_runs))

close_run_session-Closes :
    (ends : Bool) (s : Supervisor) → Closes ends s (suppress (close_run_session ends s))
unfolding close_run_session
close_run_session-Closes ends s = elim (Option-cases s.current_run_id) [
  | inl n ↦ rw (n, close_run_session) (n, λ id. rw n (ground arith))
  | inr (run_id, q) ↦ elim (Bool-cases ends) [
    | inl y ↦ rw (q, y, close_run_session) (refl, λ id. member-discard id run_id s.open_runs)
    | inr n ↦ rw (q, n, close_run_session) (refl, λ id. refl)
  ]
]

-- The state is OFFLINE and the row of the run closed as far as the database writes its end. Either every
-- worker was stopped, or a `stop` raised, which the call raises too, and all workers are still in the
-- tables.
abbrev pub Stopped : Bool → Supervisor → Done → Type 0
Stopped ends s d =
    IsAgreed d.0
    × (d.0.run_state ≡ offline)
    × Closes ends s d.0
    × (((d.1 ≡ none) × NoWorkers d.0)
        ⊎ ((d.1 ≡ some teardown_failed) × ((j : WorkerId) → runs j d.0 ≡ runs j s)))

closed_offline :
    (ends : Bool) (s : Supervisor)
    → IsAgreed s
    → s.run_state ≡ stopping
    → let s' = suppress (set_run_state workers_drained (suppress (close_run_session ends s))) in
      IsAgreed s'
      × (s'.run_state ≡ offline)
      × Closes ends s s'
      × ((j : WorkerId) → runs j s' ≡ runs j s)
closed_offline ends s h st =
    let closed = suppress (close_run_session ends s) in
    let (workers, secrets, tracking, state) = close_run_session-Keeps ends s in
    let m =
      set_run_state-Moves workers_drained closed offline
        (ap (λ r. transition r workers_drained) (state ∙ st) ∙ to_offline) in
    let (gone, rows) = close_run_session-Closes ends s in
    (
      SameTables-IsAgreed closed _ m.same (closed-IsAgreed ends s h),
      m.state,
      (m.same.session ∙ gone, λ id. ap (member id) (m.same.history) ∙ rows id),
      λ j. SameTables-runs closed _ m.same j ∙ closed-runs ends s j,
    )

-- The rows of a supervisor are those of another that has the same.
Closes-same :
    (ends : Bool) (s s1 s' : Supervisor)
    → s1.current_run_id ≡ s.current_run_id
    → s1.open_runs ≡ s.open_runs
    → Closes ends s1 s'
    → Closes ends s s'
Closes-same ends s s1 s' q r (gone, rows) =
    (gone, λ id. ground (arith, rows id, ap (λ o. is_run o id) q, ap (member id) r))

drain_settles :
    (env : Environment) (s : Supervisor)
    → IsAgreed s
    → s.run_state ≡ stopping
    → Stopped env.ends s (drain env s).0
unfolding drain
drain_settles env s h st = elim (tear_down_all_cases env.stops s) [
  | inl q ↦
      let (a, off, closes, same) = closed_offline env.ends s h st in
      rw (q, drain) (a, off, closes, inr (refl, same))
  | inr (returned, agreed, bare, state, session, history) ↦
      let s2 = (tear_down_all_workers env.stops s).0 in
      let (a, off, closes, same) = closed_offline env.ends s2 (agreed h) (state ∙ st) in
      (
        a,
        off,
        Closes-same env.ends s s2 (drain env s).0.0 session history closes,
        inl (returned, λ j. same j ∙ bare j),
      )
]

stop_run-Stopped :
    (env : Environment) (s : Supervisor) (d : Done)
    → set_run_state stop_requested s ≡ d
    → Moves stopping s d
    → may_enable s ≡ true
    → IsAgreed s
    → Stopped env.ends s (stop_run env s).0
stop_run-Stopped env s (s1, some f) q m active h = cc (m.returned)
stop_run-Stopped env s (s1, none) q m active h =
    let (a, off, closes, ending) =
      drain_settles env s1 (SameTables-IsAgreed s s1 m.same h) m.state in
    rw (stop_run_active env s s1 active q) (
      a,
      off,
      Closes-same env.ends s s1 (drain env s1).0.0 m.same.session m.same.history closes,
      elim ending [
        | inl (returned, bare) ↦ inl (returned, bare)
        | inr (raised, same) ↦ inr (raised, λ j. same j ∙ SameTables-runs s s1 m.same j)
      ],
    )

-- `stop_run` from STARTING, ARMED or LIVE, with tables that agree, whatever the workers' `stop` did: the
-- state is OFFLINE afterwards and the supervisor has no current run. The row of the run in
-- sessions_history has its end if the database wrote it, is still open if that write failed, which the
-- call does not raise, and no other row changes. Either the call returns and no worker is left, or a
-- `stop` raised, which the call raises too, and all workers are still in the tables. In any other state
-- the call changes nothing and deletes no credential.
pub stop_run_settles :
    (env : Environment) (s : Supervisor)
    → IsAgreed s
    → ((may_enable s ≡ true) → Stopped env.ends s (stop_run env s).0)
      × ((may_enable s ≡ false) → stop_run env s ≡ ((s, none), []))
unfolding may_enable active_state
stop_run_settles env s h = (
  λ active.
      let m = set_run_state-Moves stop_requested s stopping (to_stopping s active) in
      stop_run-Stopped env s (set_run_state stop_requested s) refl m active h,
  λ idle. at_rest env s s.run_state refl idle,
)

drain_returns :
    (env : Environment) (s : Supervisor)
    → ((j : WorkerId) → env.stops j ≡ true)
    → (drain env s).0.1 ≡ none
unfolding drain
drain_returns env s works = tear_down_all_stopped env.stops s works

returns_from :
    (env : Environment) (s : Supervisor) (d : Done)
    → set_run_state stop_requested s ≡ d
    → Moves stopping s d
    → may_enable s ≡ true
    → ((j : WorkerId) → env.stops j ≡ true)
    → (stop_run env s).0.1 ≡ none
returns_from env s (s1, some f) q m active works = cc (m.returned)
returns_from env s (s1, none) q m active works =
    rw (stop_run_active env s s1 active q) (drain_returns env s1 works)

pub stop_run_returns :
    (env : Environment) (s : Supervisor)
    → ((j : WorkerId) → env.stops j ≡ true)
    → may_enable s ≡ true
    → (stop_run env s).0.1 ≡ none
stop_run_returns env s works active =
    let m = set_run_state-Moves stop_requested s stopping (to_stopping s active) in
    returns_from env s (set_run_state stop_requested s) refl m active works
