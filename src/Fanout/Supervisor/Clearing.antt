-- ===== src/Fanout/Supervisor/Clearing.antt =====
-- app/fanout/supervisor.py: the agreement of the tables when workers are torn down.
use restream_plus.Fanout.Supervisor.Agreement.{IsAgreed, forget-IsAgreed, NoWorkers}
use restream_plus.Base.Sets.{member}
use restream_plus.Fanout.Supervisor.{
  Supervisor, tear_down_ids, tear_down_id, tear_down_workers_for_target, tear_down_all_workers,
  workers_of, teardown_failed, ids_of,
}
use restream_plus.Fanout.Supervisor.Tables.{
  runs, forget-Forgets, forget_all-Forgets, tracks-forget_all, member-ids_of,
}
use restream_plus.Fanout.Worker.{WorkerId, worker_id_eq}
use restream_plus.Domain.WorkerState.{role_eq}
use restream_plus.Base.{
  String, string_eq, Bool, true, false, none, some, ◌≡◌, refl, ◌==◌, arith, Bool-cases, inl, inr,
  List, if◌then◌else◌, ◌∷◌, all, ◌∙◌, ◌⊎◌, [],
}

-- The workers that are gone, and what is kept.
pub record IsCleared (gone : WorkerId → Bool) (s s' : Supervisor) : Type 0 where
  pub agreed : IsAgreed s'
  pub state : s'.run_state ≡ s.run_state
  pub workers : (j : WorkerId) → runs j s' ≡ (if gone j then false else runs j s)

tear_down_id-IsCleared :
    (t : String) (id : WorkerId) (s : Supervisor)
    → id.target_id ≡ t
    → IsAgreed s
    → IsCleared (λ j. id == j) s (tear_down_id t id s)
unfolding tear_down_id
tear_down_id-IsCleared t id s e h = elim (Bool-cases (runs id s)) [
  | inl here ↦
      let f = forget-Forgets t id s in
      rw (here, tear_down_id)
        (record {
          agreed = rw (← e) (forget-IsAgreed id s h);
          state = f.state;
          workers = f.workers;
        })
  | inr gone ↦
      rw (gone, tear_down_id)
        (record {
          agreed = h;
          state = refl;
          workers = λ j. ground (arith, gone, worker_id_eq.same_iff id j);
        })
]

tear_down_ids-IsCleared :
    (t : String) (ids : List WorkerId) (s : Supervisor)
    → ((j : WorkerId) → member j ids ≡ true → j.target_id ≡ t)
    → IsAgreed s
    → IsCleared (λ j. member j ids) s (tear_down_ids t ids s)
unfolding tear_down_ids member
tear_down_ids-IsCleared t [] s own h = record { agreed = h; state = refl; workers = λ j. refl }
tear_down_ids-IsCleared t (id ∷ ids) s own h =
    let e = own id (ground (arith, worker_id_eq.same_iff id id)) in
    let c = tear_down_id-IsCleared t id s e h in
    let r =
      tear_down_ids-IsCleared t ids (tear_down_id t id s) (λ j m. own j (ground (arith, m)))
        c.agreed in
    record {
      agreed = r.agreed;
      state = r.state ∙ c.state;
      workers = λ j. ground (arith, r.workers j, c.workers j);
    }

pub tear_down-IsCleared :
    (t : String) (s : Supervisor)
    → IsAgreed s
    → IsCleared (λ j. j.target_id == t) s (tear_down_workers_for_target t s)
unfolding tear_down_workers_for_target
tear_down-IsCleared t s h =
    let r =
      tear_down_ids-IsCleared t (workers_of t s.target_to_workers) s
        (λ j m. ground (arith, h.tracking t j, m, string_eq.same_iff j.target_id t)) h in
    record {
      agreed = r.agreed;
      state = r.state;
      workers = λ j. ground (arith, r.workers j, h.tracking t j);
    }

all_stop :
    (stops : WorkerId → Bool) (ids : List WorkerId)
    → ((j : WorkerId) → stops j ≡ true)
    → all stops ids ≡ true
all_stop stops [] h = refl
all_stop stops (id ∷ ids) h = ground (arith, all_stop stops ids h, h id)

-- Either a `stop` raised and nothing changed, or no worker is left.
pub tear_down_all_cases :
    (stops : WorkerId → Bool) (s : Supervisor)
    → (tear_down_all_workers stops s ≡ (s, some teardown_failed))
      ⊎ (((tear_down_all_workers stops s).1 ≡ none)
          × (IsAgreed s → IsAgreed (tear_down_all_workers stops s).0)
          × NoWorkers (tear_down_all_workers stops s).0
          × ((tear_down_all_workers stops s).0.run_state ≡ s.run_state)
          × ((tear_down_all_workers stops s).0.current_run_id ≡ s.current_run_id)
          × ((tear_down_all_workers stops s).0.open_runs ≡ s.open_runs))
unfolding tear_down_all_workers
tear_down_all_cases stops s = elim (Bool-cases (all stops (ids_of s.workers))) [
  | inr raised ↦ inl (rw raised refl)
  | inl stopped ↦
      let ids = ids_of s.workers in
      let f = forget_all-Forgets ids s in
      inr (
        rw stopped (
          refl,
          λ h. record {
            secrets = λ j. ground (arith, f.secrets j, f.workers j, h.secrets j);
            tracking =
                λ t j. ground (arith, f.workers j, tracks-forget_all t ids j s, h.tracking t j);
          },
          λ j. ground (arith, f.workers j, member-ids_of j s.workers),
          f.state,
          f.session.0,
          f.session.1,
        ))
]

pub tear_down_all_stopped :
    (stops : WorkerId → Bool) (s : Supervisor)
    → ((j : WorkerId) → stops j ≡ true)
    → (tear_down_all_workers stops s).1 ≡ none
unfolding tear_down_all_workers
tear_down_all_stopped stops s h = rw (all_stop stops (ids_of s.workers) h) refl
