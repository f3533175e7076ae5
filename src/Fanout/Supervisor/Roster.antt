-- ===== src/Fanout/Supervisor/Roster.antt =====
-- app/fanout/supervisor.py: which workers run once `start_run` and `stop_run` are over.
use restream_plus.Fanout.Supervisor.{
  Supervisor, Done, publish, Payload, roles_for, workers_of, run_state_changed,
  spawn_workers_for_target,
}
use restream_plus.Fanout.Supervisor.Tables.{runs}
use restream_plus.Fanout.Supervisor.Agreement.{
  IsAgreed, IsSpawned, and_then-IsSpawned, wanted_roles, spawn_workers_for_target-IsSpawned,
  NoWorkers,
}
use restream_plus.Fanout.Supervisor.Load.{Runnable}
use restream_plus.Fanout.Supervisor.Runs.{
  set_run_state, untracked, spawn_entry, spawn_entries, install, targets_of,
}
use restream_plus.Fanout.Worker.{WorkerId, worker_id_eq}
use restream_plus.Domain.RunState.{RunState, RunAction, transition, state_eq}
use restream_plus.Base.Dict.{Dict, put, contains, get-put, get}
use restream_plus.Base.Sets.{member}
use restream_plus.Base.Texts.{Text}
use restream_plus.Base.{
  String, string_eq, List, [], ◌∷◌, Bool, true, false, none, some, ok, ◌≡◌, refl, if◌then◌else◌,
  arith, Bool-cases, Option-cases, inl, inr, ap, ◌⊎◌,
}

-- Only the run state, the bus and other columns that no table of workers shows may differ.
pub record SameTables (s s' : Supervisor) : Type 0 where
  pub workers : s'.workers ≡ s.workers
  pub secrets : s'.registered_secrets ≡ s.registered_secrets
  pub tracking : s'.target_to_workers ≡ s.target_to_workers
  pub session : s'.current_run_id ≡ s.current_run_id
  pub history : s'.open_runs ≡ s.open_runs

pub SameTables-IsAgreed : (s s' : Supervisor) → SameTables s s' → IsAgreed s → IsAgreed s'
SameTables-IsAgreed s s' same h = record {
  secrets = λ j. ground (arith, same.workers, same.secrets, h.secrets j);
  tracking = λ t j. ground (arith, same.workers, same.tracking, h.tracking t j);
}

pub SameTables-runs : (s s' : Supervisor) → SameTables s s' → (j : WorkerId) → runs j s' ≡ runs j s
SameTables-runs s s' same j = ap (contains j) (same.workers)

pub publish-SameTables :
    (payload : Payload) (s : Supervisor)
    → SameTables s (publish payload s) × ((publish payload s).run_state ≡ s.run_state)
unfolding publish
publish-SameTables payload s = elim (Option-cases s.bus) [
  | inl n ↦
      rw (n, publish)
        (
          record {
            workers = refl;
            secrets = refl;
            tracking = refl;
            session = refl;
            history = refl;
          },
          refl,
        )
  | inr (bus, p) ↦
      rw (p, publish)
        (
          record {
            workers = refl;
            secrets = refl;
            tracking = refl;
            session = refl;
            history = refl;
          },
          refl,
        )
]

-- A transition that the table allows.
pub record Moves (next : RunState) (s : Supervisor) (d : Done) : Type 0 where
  pub returned : d.1 ≡ none
  pub state : d.0.run_state ≡ next
  pub same : SameTables s d.0

pub set_run_state-Moves :
    (action : RunAction) (s : Supervisor) (next : RunState)
    → transition s.run_state action ≡ ok next
    → Moves next s (set_run_state action s)
unfolding set_run_state
set_run_state-Moves action s next q =
    let moved = record s { run_state = next } in
    let (same, state) = publish-SameTables (run_state_changed next s.run_state) moved in
    rw (q, set_run_state)
      (record {
        returned = refl;
        state = state;
        same = record {
          workers = same.workers;
          secrets = same.secrets;
          tracking = same.tracking;
          session = same.session;
          history = same.history;
        };
      })

-- The workers that an entry, or a list of entries, is to get.
unfoldable pub wanted : Runnable → WorkerId → Bool
wanted r j = elim r.key [
  | none ↦ false
  | some key ↦ if r.dom.enabled then wanted_roles r.dom (roles_for r.dom) j else false
]

unfoldable pub wanted_entries : List Runnable → WorkerId → Bool
wanted_entries [] j = false
wanted_entries (r ∷ rs) j = if wanted r j then true else wanted_entries rs j

nothing-IsSpawned : (s : Supervisor) → IsSpawned (λ j. false) s (s, none)
nothing-IsSpawned s = record { agreed = λ h. h; state = refl; workers = λ q j. refl }

same_added :
    (f g : WorkerId → Bool) (s : Supervisor) (d : Done)
    → ((j : WorkerId) → g j ≡ f j)
    → IsSpawned f s d
    → IsSpawned g s d
same_added f g s d same h = record {
  agreed = h.agreed;
  state = h.state;
  workers = λ q j. ground (arith, h.workers q j, same j);
}

-- An entry is skipped, or it is spawned and wanted.
entry_cases :
    (starts : WorkerId → Bool) (r : Runnable) (s : Supervisor)
    → ((spawn_entry starts r s ≡ (s, none)) × ((j : WorkerId) → wanted r j ≡ false))
      ⊎ ((key : Text) × (spawn_entry starts r s ≡ spawn_workers_for_target starts r.dto r.dom key s)
          × ((j : WorkerId) → wanted r j ≡ wanted_roles r.dom (roles_for r.dom) j))
unfolding spawn_entry wanted
entry_cases starts r s = elim (Option-cases r.key) [
  | inl n ↦ inl (ground (arith, n), λ j. ground (arith, n))
  | inr (key, p) ↦ elim (Bool-cases r.dom.enabled) [
    | inl on ↦ inr (key, ground (arith, p, on), λ j. ground (arith, p, on))
    | inr off ↦ inl (ground (arith, p, off), λ j. ground (arith, p, off))
  ]
]

pub spawn_entry-IsSpawned :
    (starts : WorkerId → Bool) (r : Runnable) (s : Supervisor)
    → IsSpawned (wanted r) s (spawn_entry starts r s)
spawn_entry-IsSpawned starts r s = elim (entry_cases starts r s) [
  | inl (q, w) ↦ rw q (same_added (λ j. false) (wanted r) s (s, none) w (nothing-IsSpawned s))
  | inr (key, q, w) ↦
      rw q (
        same_added _ (wanted r) s _ w (spawn_workers_for_target-IsSpawned starts r.dto r.dom key s))
]

spawn_entries-IsSpawned :
    (starts : WorkerId → Bool) (rs : List Runnable) (s : Supervisor)
    → IsSpawned (wanted_entries rs) s (spawn_entries starts rs s)
unfolding spawn_entries wanted_entries
spawn_entries-IsSpawned starts [] s = nothing-IsSpawned s
spawn_entries-IsSpawned starts (r ∷ rs) s =
    let d = spawn_entry starts r s in
    and_then-IsSpawned (wanted r) (wanted_entries rs) s d (spawn_entries starts rs)
      (spawn_entry-IsSpawned starts r s) (spawn_entries-IsSpawned starts rs d.0)

put_empty :
    (u t : String) (j : WorkerId) (d : Dict String (List WorkerId))
    → member j (workers_of t d) ≡ false
    → member j (workers_of t (put u [] d)) ≡ false
unfolding workers_of member
put_empty u t j d h = ground (arith, get-put u t [] d, h)

no_one : (t : String) (j : WorkerId) → member j (workers_of t []) ≡ false
unfolding workers_of get member
no_one t j = refl

untracked_empty :
    (rs : List Runnable) (t : String) (j : WorkerId) (d : Dict String (List WorkerId))
    → member j (workers_of t d) ≡ false
    → member j (workers_of t (untracked rs d)) ≡ false
unfolding untracked
untracked_empty [] t j d h = h
untracked_empty (r ∷ rs) t j d h =
    untracked_empty rs t j (put r.dto.id [] d) (put_empty r.dto.id t j d h)

pub install-IsSpawned :
    (starts : WorkerId → Bool) (rs : List Runnable) (s : Supervisor)
    → IsAgreed s
    → NoWorkers s
    → IsAgreed (install starts rs s).0
      × ((install starts rs s).0.run_state ≡ s.run_state)
      × ((install starts rs s).1 ≡ none
          → (j : WorkerId) → runs j (install starts rs s).0 ≡ wanted_entries rs j)
unfolding install
install-IsSpawned starts rs s h bare =
    let clean : Supervisor = record s {
      targets = targets_of rs [];
      target_to_workers = untracked rs [];
    } in
    let i = spawn_entries-IsSpawned starts rs clean in
    (
      i.agreed (record {
        secrets = h.secrets;
        tracking = λ t j. ground (arith, untracked_empty rs t j [] (no_one t j), bare j);
      }),
      i.state,
      λ q j. ground (arith, i.workers q j, bare j),
    )
