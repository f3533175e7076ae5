-- ===== src/Fanout/Supervisor/Agreement.antt =====
-- app/fanout/supervisor.py: the tables of workers, secrets and targets agree.
use restream_plus.Fanout.Supervisor.{
  Supervisor, Done, Failure, bad_url, secret_rejected, spawn_failed, enter, forget, spawn_role,
  spawn_roles, spawn_workers_for_target, and_then, roles_for,
}
use restream_plus.Fanout.Supervisor.Tables.{
  runs, holds_secret, tracks, workers_of-track, forget-Forgets, tracks-forget,
}
use restream_plus.Fanout.OutUrl.{compose_out_url}
use restream_plus.Fanout.Worker.{WorkerId, WorkerSpec, worker_id_eq}
use restream_plus.Domain.Target.{Target}
use restream_plus.Domain.WorkerState.{WorkerRole, role_eq}
use restream_plus.Logging.Registry.{CredentialRegistry, register}
use restream_plus.Repositories.Rows.{TargetDto}
use restream_plus.Base.Dict.{contains-put}
use restream_plus.Base.Texts.{Text, codes}
use restream_plus.Base.{
  String, string_eq, Bool, true, false, ◌&&◌, none, some, Result-cases, ◌≡◌, refl, ◌==◌, arith,
  Bool-cases, inl, inr, List, if◌then◌else◌, ◌∷◌, ◌∙◌, [],
}

pub record IsAgreed (s : Supervisor) : Type 0 where
  pub secrets : (j : WorkerId) → holds_secret j s ≡ runs j s
  pub tracking : (t : String) (j : WorkerId) → tracks t j s ≡ (runs j s && (j.target_id == t))

abbrev pub NoWorkers : Supervisor → Type 0
NoWorkers s = (j : WorkerId) → runs j s ≡ false

pub forget-IsAgreed :
    (id : WorkerId) (s : Supervisor) → IsAgreed s → IsAgreed (forget id.target_id id s)
forget-IsAgreed id s h =
    let f = forget-Forgets id.target_id id s in
    record {
      secrets = λ j. ground (arith, f.secrets j, f.workers j, h.secrets j);
      tracking = λ t j. ground (
        arith,
        f.workers j,
        tracks-forget id.target_id t id j s,
        h.tracking t j,
        worker_id_eq.same_iff id j,
      );
    }

pub enter-IsAgreed :
    (spec : WorkerSpec) (key : Text) (registry : CredentialRegistry) (s : Supervisor)
    → IsAgreed s
    → IsAgreed (enter spec key registry s)
unfolding enter
enter-IsAgreed spec key registry s h = record {
  secrets = λ j. ground (
    arith,
    contains-put spec.worker_id j key s.registered_secrets,
    contains-put spec.worker_id j spec s.workers,
    h.secrets j,
  );
  tracking = λ t j. ground (
    arith,
    contains-put spec.worker_id j spec s.workers,
    workers_of-track spec.worker_id j t s.target_to_workers,
    h.tracking t j,
    worker_id_eq.same_iff spec.worker_id j,
  );
}

abbrev pub worker_id : Target → WorkerRole → WorkerId
worker_id dom role = record { target_id = dom.id; role = role }

-- What a round of the spawning loop may do: nothing, raise with nothing done, raise with the worker
-- taken back, or leave one more worker.
data Spawns (dom : Target) (role : WorkerRole) (s : Supervisor) : Done → Type 0 where
  present : runs (worker_id dom role) s ≡ true → Spawns dom role s (s, none)
  refuses : (f : Failure) → Spawns dom role s (s, some f)
  takes_back :
      (spec : WorkerSpec) (key : Text) (registry : CredentialRegistry)
      → spec.worker_id ≡ worker_id dom role
      → Spawns dom role s
          (forget dom.id (worker_id dom role) (enter spec key registry s), some spawn_failed)
  adds :
      (spec : WorkerSpec) (key : Text) (registry : CredentialRegistry)
      → spec.worker_id ≡ worker_id dom role
      → Spawns dom role s (enter spec key registry s, none)

spawn_role-Spawns :
    (starts : WorkerId → Bool) (dto : TargetDto) (dom : Target) (key : Text) (role : WorkerRole)
    (s : Supervisor)
    → Spawns dom role s (spawn_role starts dto dom key role s)
unfolding spawn_role
spawn_role-Spawns starts dto dom key role s = elim (Bool-cases (runs (worker_id dom role) s)) [
  | inl there ↦ rw (there, spawn_role) (present there)
  | inr new ↦ elim (Result-cases (compose_out_url dom.target_type (codes dto.url) key role)) [
    | inr (e, q) ↦ rw (new, q, spawn_role) (refuses (bad_url e))
    | inl (url, q) ↦ elim (Result-cases (register key s.registry)) [
      | inr (e, p) ↦ rw (new, q, p, spawn_role) (refuses secret_rejected)
      | inl (registry, p) ↦ elim (Bool-cases (starts (worker_id dom role))) [
        | inl up ↦ rw (new, q, p, up, spawn_role) (adds _ key registry refl)
        | inr down ↦ rw (new, q, p, down, spawn_role) (takes_back _ key registry refl)
      ]
    ]
  ]
]

-- What spawning keeps, and what it adds: `added` is known once it has returned.
pub record IsSpawned (added : WorkerId → Bool) (s : Supervisor) (d : Done) : Type 0 where
  pub agreed : IsAgreed s → IsAgreed d.0
  pub state : d.0.run_state ≡ s.run_state
  pub workers : d.1 ≡ none → (j : WorkerId) → runs j d.0 ≡ (if added j then true else runs j s)

forget_new :
    (spec : WorkerSpec) (key : Text) (registry : CredentialRegistry) (dom : Target)
    (role : WorkerRole) (s : Supervisor)
    → spec.worker_id ≡ worker_id dom role
    → IsAgreed s
    → IsAgreed (forget dom.id (worker_id dom role) (enter spec key registry s))
forget_new spec key registry dom role s p h =
    forget-IsAgreed (worker_id dom role) (enter spec key registry s)
      (enter-IsAgreed spec key registry s h)

Spawns-IsSpawned :
    {dom : Target} {role : WorkerRole} {s : Supervisor} {d : Done}
    → Spawns dom role s d
    → IsSpawned (λ j. worker_id dom role == j) s d
unfolding enter
Spawns-IsSpawned {dom} {role} {s} (present there) = record {
  agreed = λ h. h;
  state = refl;
  workers = λ q j. ground (arith, worker_id_eq.same_iff (worker_id dom role) j, there);
}
Spawns-IsSpawned (refuses f) = record { agreed = λ h. h; state = refl; workers = λ q j. cc }
Spawns-IsSpawned {dom} {role} {s} (takes_back spec key registry p) = record {
  agreed = forget_new spec key registry dom role s p;
  state = (forget-Forgets dom.id (worker_id dom role) (enter spec key registry s)).state;
  workers = λ q j. cc;
}
Spawns-IsSpawned {dom} {role} {s} (adds spec key registry p) = record {
  agreed = enter-IsAgreed spec key registry s;
  state = refl;
  workers = λ q j. ground (arith, contains-put spec.worker_id j spec s.workers, p);
}

-- One block after another.
pub and_then-IsSpawned :
    (f g : WorkerId → Bool) (s : Supervisor) (d : Done) (rest : Supervisor → Done)
    → IsSpawned f s d
    → IsSpawned g d.0 (rest d.0)
    → IsSpawned (λ j. if f j then true else g j) s (and_then d rest)
and_then-IsSpawned f g s (s', some failure) rest h k = record {
  agreed = h.agreed;
  state = h.state;
  workers = λ q j. cc;
}
and_then-IsSpawned f g s (s', none) rest h k = record {
  agreed = λ a. k.agreed (h.agreed a);
  state = k.state ∙ h.state;
  workers = λ q j. ground (arith, k.workers q j, h.workers refl j);
}

-- The workers that `_spawn_workers_for_target` is to start.
unfoldable pub wanted_roles : Target → List WorkerRole → WorkerId → Bool
wanted_roles dom [] j = false
wanted_roles dom (role ∷ roles) j =
    if worker_id dom role == j then true else wanted_roles dom roles j

spawn_roles-IsSpawned :
    (starts : WorkerId → Bool) (dto : TargetDto) (dom : Target) (key : Text)
    (roles : List WorkerRole) (s : Supervisor)
    → IsSpawned (wanted_roles dom roles) s (spawn_roles starts dto dom key roles s)
unfolding spawn_roles wanted_roles
spawn_roles-IsSpawned starts dto dom key [] s = record {
  agreed = λ h. h;
  state = refl;
  workers = λ q j. refl;
}
spawn_roles-IsSpawned starts dto dom key (role ∷ roles) s =
    let d = spawn_role starts dto dom key role s in
    and_then-IsSpawned _ _ s d (spawn_roles starts dto dom key roles)
      (Spawns-IsSpawned (spawn_role-Spawns starts dto dom key role s))
      (spawn_roles-IsSpawned starts dto dom key roles d.0)

pub spawn_workers_for_target-IsSpawned :
    (starts : WorkerId → Bool) (dto : TargetDto) (dom : Target) (key : Text) (s : Supervisor)
    → IsSpawned (wanted_roles dom (roles_for dom)) s (spawn_workers_for_target starts dto dom key s)
unfolding spawn_workers_for_target
spawn_workers_for_target-IsSpawned starts dto dom key s =
    spawn_roles-IsSpawned starts dto dom key (roles_for dom) s
