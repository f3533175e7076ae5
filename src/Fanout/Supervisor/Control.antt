-- ===== src/Fanout/Supervisor/Control.antt =====
-- app/fanout/supervisor.py: how `start_run` and `stop_run` end.
use restream_plus.Fanout.Worker.{worker_id_eq}
use restream_plus.Base.Dict.{contains}
use restream_plus.Base.Sets.{insert}
use restream_plus.Fanout.Supervisor.{
  Supervisor, Done, and_then, Failure, session_failed, audit_failed, tear_down_all_workers,
}
use restream_plus.Fanout.Supervisor.Tables.{runs}
use restream_plus.Fanout.Supervisor.Agreement.{IsAgreed, NoWorkers}
use restream_plus.Fanout.Supervisor.Clearing.{tear_down_all_cases, tear_down_all_stopped}
use restream_plus.Fanout.Supervisor.Load.{Decrypted, Runnable, load_runnable_targets}
use restream_plus.Fanout.Supervisor.Roster.{
  SameTables-IsAgreed, SameTables-runs, Moves, set_run_state-Moves, wanted_entries,
  install-IsSpawned,
}
use restream_plus.Fanout.Supervisor.Runs.{
  Environment, set_run_state, open_run_session, audit_run_started, load, install, attempt,
  close_run_session, recover, start_run, suppress,
}
use restream_plus.Fanout.Worker.{WorkerId}
use restream_plus.Auth.KeyMaterial.{Bytes}
use restream_plus.Repositories.Rows.{CredentialDto}
use restream_plus.Domain.RunState.{
  starting, armed, workers_spawned, transition, state_eq, error, unrecoverable_failed, offline,
  start_requested,
}
use restream_plus.Base.{
  String, List, Bool, true, false, none, some, ok, Result, Result-cases, ◌≡◌, refl, Option-cases,
  inl, inr, ◌⊎◌, ◌∙◌, arith, ap, string_eq,
}

-- A call of `start_run` or of its `try` block that returned: the loaded entries have their workers, and
-- no others run.
abbrev pub Started : Result Failure (List Runnable × List String) → Done → Type 0
Started loaded d =
    (d.1 ≡ none)
    × (d.0.run_state ≡ armed)
    × ((entries : List Runnable) × (failed : List String) × (loaded ≡ ok (entries, failed))
        × ((j : WorkerId) → runs j d.0 ≡ wanted_entries entries j))

abbrev Interrupted : Done → Type 0
Interrupted d =
    (f : Failure) × (d.1 ≡ some f) × ((d.0.run_state ≡ starting) ⊎ (d.0.run_state ≡ armed))

record Tried (loaded : Result Failure (List Runnable × List String)) (d : Done) : Type 0 where
  agreed : IsAgreed d.0
  ending : Started loaded d ⊎ Interrupted d

to_armed : transition starting workers_spawned ≡ ok armed
unfolding transition
to_armed = refl

audit-Tried :
    (loaded : Result Failure (List Runnable × List String)) (s2 : Supervisor) (d3 : Done)
    (audits : Bool) (entries : List Runnable) (failed : List String)
    → IsAgreed s2
    → loaded ≡ ok (entries, failed)
    → ((j : WorkerId) → runs j s2 ≡ wanted_entries entries j)
    → Moves armed s2 d3
    → Tried loaded (and_then d3 (audit_run_started audits))
unfolding audit_run_started
audit-Tried loaded s2 (s3, some f) audits entries failed h l w m = cc (m.returned)
audit-Tried loaded s2 (s3, none) true entries failed h l w m = record {
  agreed = SameTables-IsAgreed s2 s3 m.same h;
  ending = inl (refl, m.state, (entries, failed, l, λ j. SameTables-runs s2 s3 m.same j ∙ w j));
}
audit-Tried loaded s2 (s3, none) false entries failed h l w m = record {
  agreed = SameTables-IsAgreed s2 s3 m.same h;
  ending = inr (audit_failed, refl, inr m.state);
}

spawned-Tried :
    (loaded : Result Failure (List Runnable × List String)) (d2 : Done) (audits : Bool)
    (entries : List Runnable) (failed : List String)
    → IsAgreed d2.0
    → d2.0.run_state ≡ starting
    → loaded ≡ ok (entries, failed)
    → (d2.1 ≡ none → (j : WorkerId) → runs j d2.0 ≡ wanted_entries entries j)
    → Tried loaded
        (and_then d2 (λ s2. and_then (set_run_state workers_spawned s2) (audit_run_started audits)))
spawned-Tried loaded (s2, some f) audits entries failed h st l w = record {
  agreed = h;
  ending = inr (f, refl, inl st);
}
spawned-Tried loaded (s2, none) audits entries failed h st l w =
    audit-Tried loaded s2 (set_run_state workers_spawned s2) audits entries failed h l (w refl)
      (set_run_state-Moves workers_spawned s2 armed (rw st to_armed))

module _ (decrypt : Bytes → CredentialDto → Decrypted) where
  abbrev pub loaded_in : Environment → Result Failure (List Runnable × List String)
  loaded_in env = load_runnable_targets decrypt env.keys env.rows

  load-Tried :
      (env : Environment) (s : Supervisor)
      → IsAgreed s
      → NoWorkers s
      → s.run_state ≡ starting
      → Tried (loaded_in env) (
          and_then
            (load decrypt env s (install env.starts))
            (λ s2. and_then (set_run_state workers_spawned s2) (audit_run_started env.audits)))
  unfolding load
  load-Tried env s h bare st = elim (Result-cases (loaded_in env)) [
    | inr (f, q) ↦ rw (q, load) (record { agreed = h; ending = inr (f, refl, inl st) })
    | inl ((entries, failed), q) ↦
        let (a, same, w) = install-IsSpawned env.starts entries s h bare in
        rw (q, load)
          (spawned-Tried (ok (entries, failed)) (install env.starts entries s) env.audits entries
            failed a (same ∙ st) refl w)
  ]

  attempt-Tried :
      (env : Environment) (s : Supervisor)
      → IsAgreed s
      → NoWorkers s
      → s.run_state ≡ starting
      → Tried (loaded_in env) (attempt decrypt env s)
  unfolding attempt open_run_session load
  attempt-Tried env s h bare st = elim (Option-cases env.run_id) [
    | inl n ↦
        rw (n, attempt, open_run_session)
          (record { agreed = h; ending = inr (session_failed, refl, inl st) })
    | inr (id, p) ↦
        rw (p, attempt, open_run_session)
          (load-Tried env (record s { current_run_id = some id; open_runs = insert id s.open_runs })
            (record { secrets = h.secrets; tracking = h.tracking }) bare st)
  ]

-- What the handler of `start_run` leaves behind.
abbrev pub Failed : Done → Type 0
Failed d = (f : Failure) × (d.1 ≡ some f) × (d.0.run_state ≡ error) × NoWorkers d.0

fails_from :
    (s : Supervisor)
    → ((s.run_state ≡ starting) ⊎ (s.run_state ≡ armed))
    → transition s.run_state unrecoverable_failed ≡ ok error
unfolding transition
fails_from s (inl st) = rw st refl
fails_from s (inr st) = rw st refl

-- The close of a row touches no table of workers, nor the state.
pub close_run_session-Keeps :
    (ends : Bool) (s : Supervisor)
    → ((suppress (close_run_session ends s)).workers ≡ s.workers)
      × ((suppress (close_run_session ends s)).registered_secrets ≡ s.registered_secrets)
      × ((suppress (close_run_session ends s)).target_to_workers ≡ s.target_to_workers)
      × ((suppress (close_run_session ends s)).run_state ≡ s.run_state)
unfolding close_run_session
close_run_session-Keeps ends s = ground arith

pub closed-IsAgreed :
    (ends : Bool) (s : Supervisor) → IsAgreed s → IsAgreed (suppress (close_run_session ends s))
closed-IsAgreed ends s h =
    let (workers, secrets, tracking, state) = close_run_session-Keeps ends s in
    record {
      secrets = λ j. ground (arith, workers, secrets, h.secrets j);
      tracking = λ t j. ground (arith, workers, tracking, h.tracking t j);
    }

pub closed-runs :
    (ends : Bool) (s : Supervisor) (j : WorkerId)
    → runs j (suppress (close_run_session ends s)) ≡ runs j s
closed-runs ends s j = ap (contains j) (close_run_session-Keeps ends s).0

-- The state of `recover` once the workers are torn down.
recovered :
    (ends : Bool) (f : Failure) (s : Supervisor)
    → IsAgreed s
    → NoWorkers s
    → ((s.run_state ≡ starting) ⊎ (s.run_state ≡ armed))
    → let s' =
        suppress (close_run_session ends (suppress (set_run_state unrecoverable_failed s))) in
      IsAgreed s' × Failed (s', some f)
recovered ends f s h bare st =
    let m = set_run_state-Moves unrecoverable_failed s error (fails_from s st) in
    let s1 = suppress (set_run_state unrecoverable_failed s) in
    let (workers, secrets, tracking, state) = close_run_session-Keeps ends s1 in
    (
      closed-IsAgreed ends s1 (SameTables-IsAgreed s s1 m.same h),
      (
        f,
        refl,
        state ∙ m.state,
        λ j. closed-runs ends s1 j ∙ (SameTables-runs s s1 m.same j ∙ bare j),
      ),
    )

same_phase :
    (s s' : Supervisor)
    → s'.run_state ≡ s.run_state
    → ((s.run_state ≡ starting) ⊎ (s.run_state ≡ armed))
    → (s'.run_state ≡ starting) ⊎ (s'.run_state ≡ armed)
same_phase s s' q (inl st) = inl (q ∙ st)
same_phase s s' q (inr st) = inr (q ∙ st)

recover-Failed :
    (stops : WorkerId → Bool) (ends : Bool) (s : Supervisor) (f : Failure)
    → ((j : WorkerId) → stops j ≡ true)
    → IsAgreed s
    → ((s.run_state ≡ starting) ⊎ (s.run_state ≡ armed))
    → IsAgreed (recover stops ends (s, some f)).0 × Failed (recover stops ends (s, some f))
unfolding recover
recover-Failed stops ends s f stopping_works h st = elim (tear_down_all_cases stops s) [
  | inl q ↦ cc (q, tear_down_all_stopped stops s stopping_works)
  | inr (returned, agreed, bare, same, session, history) ↦
      recovered ends f (tear_down_all_workers stops s).0 (agreed h) bare
        (same_phase s (tear_down_all_workers stops s).0 same st)
]

recover-Tried :
    (stops : WorkerId → Bool) (ends : Bool) (loaded : Result Failure (List Runnable × List String))
    (d : Done)
    → ((j : WorkerId) → stops j ≡ true)
    → Tried loaded d
    → IsAgreed (recover stops ends d).0
      × (Started loaded (recover stops ends d) ⊎ Failed (recover stops ends d))
unfolding recover
recover-Tried stops ends loaded (s, none) works t = elim (t.ending) [
  | inl started ↦ (t.agreed, inl started)
  | inr (f, q, st) ↦ cc
]
recover-Tried stops ends loaded (s, some f) works t = elim (t.ending) [
  | inl started ↦ cc (started.0)
  | inr (g, q, st) ↦
      let (a, failed) = recover-Failed stops ends s f works t.agreed st in (a, inr failed)
]

to_starting : transition offline start_requested ≡ ok starting
unfolding transition
to_starting = refl

module _ (decrypt : Bytes → CredentialDto → Decrypted) (env : Environment) (s : Supervisor) where
  begun :
      (d1 : Done)
      → Moves starting s d1
      → IsAgreed s
      → NoWorkers s
      → ((j : WorkerId) → env.stops j ≡ true)
      → let d = and_then d1 (λ s1. recover env.stops env.ends (attempt decrypt env s1)) in
        IsAgreed d.0 × (Started (loaded_in decrypt env) d ⊎ Failed d)
  begun (s1, some f) m h bare works = cc (m.returned)
  begun (s1, none) m h bare works =
      recover-Tried env.stops env.ends (loaded_in decrypt env) (attempt decrypt env s1) works (
        attempt-Tried decrypt env s1 (SameTables-IsAgreed s s1 m.same h)
          (λ j. SameTables-runs s s1 m.same j ∙ bare j) m.state)

  start_at_rest :
      s.run_state ≡ offline
      → start_run decrypt env s
        ≡ and_then
            (set_run_state start_requested s)
            (λ s1. recover env.stops env.ends (attempt decrypt env s1))
  unfolding start_run
  start_at_rest off = ground (arith, off)

  -- `start_run` on a supervisor that is OFFLINE, with tables that agree and no worker left over, where no
  -- `stop` of a worker raises. Either it returns, ARMED, and exactly the workers of the enabled targets
  -- with a readable credential run; or it raises, and then the state is ERROR and no worker runs. The
  -- tables agree afterwards.
  pub start_run_settles :
      s.run_state ≡ offline
      → IsAgreed s
      → NoWorkers s
      → ((j : WorkerId) → env.stops j ≡ true)
      → IsAgreed (start_run decrypt env s).0
        × (Started (loaded_in decrypt env) (start_run decrypt env s)
            ⊎ Failed (start_run decrypt env s))
  start_run_settles off h bare works =
      let m = set_run_state-Moves start_requested s starting (rw off to_starting) in
      let result = begun (set_run_state start_requested s) m h bare works in
      rw (start_at_rest off) result
