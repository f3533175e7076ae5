-- ===== src/Fanout/Supervisor/Tables.antt =====
-- app/fanout/supervisor.py: what each step reads back from the tables afterwards.
use restream_plus.Fanout.Supervisor.{
  Supervisor, workers_of, track, untrack, untrack_everywhere, unregister_secret, forget, forget_all,
  ids_of,
}
use restream_plus.Fanout.Worker.{WorkerId, worker_id_eq, WorkerSpec}
use restream_plus.Base.Dict.{
  Dict, get, put, contains, get-put, contains-remove, contains-put, remove,
}
use restream_plus.Base.Sets.{member, insert, discard, member-insert, member-discard}
use restream_plus.Base.{
  String, string_eq, List, [], ◌∷◌, Bool, true, false, ◌&&◌, ◌≡◌, refl, ◌==◌, if◌then◌else◌, arith,
  Option-cases, ◌∙◌, inl, inr, none, some,
}

abbrev pub runs : WorkerId → Supervisor → Bool
runs id s = contains id s.workers

abbrev pub holds_secret : WorkerId → Supervisor → Bool
holds_secret id s = contains id s.registered_secrets

abbrev pub tracks : String → WorkerId → Supervisor → Bool
tracks target_id id s = member id (workers_of target_id s.target_to_workers)

workers_of-put :
    (t u : String) (ids : List WorkerId) (d : Dict String (List WorkerId))
    → workers_of u (put t ids d) ≡ (if t == u then ids else workers_of u d)
unfolding workers_of
workers_of-put t u ids d = ground (arith, get-put t u ids d)

pub workers_of-track :
    (id j : WorkerId) (t : String) (d : Dict String (List WorkerId))
    → member j (workers_of t (track id d))
      ≡ (if (id.target_id == t) && (id == j) then true else member j (workers_of t d))
unfolding track
workers_of-track id j t d = ground (
  arith,
  workers_of-put id.target_id t (insert id (workers_of id.target_id d)) d,
  member-insert j id (workers_of id.target_id d),
  string_eq.same_iff id.target_id t,
)

untrack_absent :
    (u : String) (id : WorkerId) (d : Dict String (List WorkerId))
    → get u d ≡ none
    → untrack u id d ≡ d
unfolding untrack
untrack_absent u id d n = rw (n, untrack) refl

untrack_present :
    (u : String) (id : WorkerId) (d : Dict String (List WorkerId)) {ids : List WorkerId}
    → get u d ≡ some ids
    → untrack u id d ≡ put u (discard id ids) d
unfolding untrack
untrack_present u id d p = rw (p, untrack) refl

pub workers_of-untrack :
    (u : String) (id j : WorkerId) (t : String) (d : Dict String (List WorkerId))
    → member j (workers_of t (untrack u id d))
      ≡ (if (u == t) && (id == j) then false else member j (workers_of t d))
unfolding workers_of member
workers_of-untrack u id j t d = elim (Option-cases (get u d)) [
  | inl n ↦ rw (untrack_absent u id d n) (ground (arith, string_eq.same_iff u t, n))
  | inr (ids, p) ↦ rw (untrack_present u id d p) (
      ground
        (arith, get-put u t (discard id ids) d, member-discard j id ids, string_eq.same_iff u t, p))
]

pub workers_of-untrack_everywhere :
    (id j : WorkerId) (t : String) (d : Dict String (List WorkerId))
    → member j (workers_of t (untrack_everywhere id d))
      ≡ (if id == j then false else member j (workers_of t d))
unfolding untrack_everywhere workers_of get member
workers_of-untrack_everywhere id j t [] = ground arith
workers_of-untrack_everywhere id j t ((u, ids) ∷ d) =
    ground (arith, workers_of-untrack_everywhere id j t d, member-discard j id ids)

-- Only the secret of one worker, and the registry, change.
pub record Unregisters (id : WorkerId) (s s' : Supervisor) : Type 0 where
  pub secrets : (j : WorkerId) → holds_secret j s' ≡ (if id == j then false else holds_secret j s)
  pub same_workers : s'.workers ≡ s.workers
  pub same_tracking : s'.target_to_workers ≡ s.target_to_workers
  pub same_state : s'.run_state ≡ s.run_state
  pub same_session : (s'.current_run_id ≡ s.current_run_id) × (s'.open_runs ≡ s.open_runs)

pub unregister_secret-Unregisters :
    (id : WorkerId) (s : Supervisor) → Unregisters id s (unregister_secret id s)
unfolding unregister_secret
unregister_secret-Unregisters id s = elim (Option-cases (get id s.registered_secrets)) [
  | inl n ↦
      rw (n, unregister_secret)
        (record {
          secrets = λ j. ground (arith, worker_id_eq.same_iff id j, n);
          same_workers = refl;
          same_tracking = refl;
          same_state = refl;
          same_session = (refl, refl);
        })
  | inr (secret, p) ↦
      rw (p, unregister_secret)
        (record {
          secrets = λ j. contains-remove id j s.registered_secrets;
          same_workers = refl;
          same_tracking = refl;
          same_state = refl;
          same_session = (refl, refl);
        })
]

-- What the tables say of `j` after a worker has left, by `forget` or by `forget_all`.
pub record Forgets (gone : WorkerId → Bool) (s s' : Supervisor) : Type 0 where
  pub secrets : (j : WorkerId) → holds_secret j s' ≡ (if gone j then false else holds_secret j s)
  pub workers : (j : WorkerId) → runs j s' ≡ (if gone j then false else runs j s)
  pub state : s'.run_state ≡ s.run_state
  pub session : (s'.current_run_id ≡ s.current_run_id) × (s'.open_runs ≡ s.open_runs)

pub forget-Forgets :
    (t : String) (id : WorkerId) (s : Supervisor) → Forgets (λ j. id == j) s (forget t id s)
unfolding forget
forget-Forgets t id s =
    let u = unregister_secret-Unregisters id s in
    record {
      secrets = u.secrets;
      workers = λ j. rw (u.same_workers) (contains-remove id j s.workers);
      state = u.same_state;
      session = u.same_session;
    }

pub tracks-forget :
    (t u : String) (id j : WorkerId) (s : Supervisor)
    → tracks u j (forget t id s) ≡ (if (t == u) && (id == j) then false else tracks u j s)
unfolding forget
tracks-forget t u id j s =
    rw ((unregister_secret-Unregisters id s).same_tracking)
      (workers_of-untrack t id j u s.target_to_workers)

pub forget_all-Forgets :
    (ids : List WorkerId) (s : Supervisor) → Forgets (λ j. member j ids) s (forget_all ids s)
unfolding forget_all member
forget_all-Forgets [] s = record {
  secrets = λ j. refl;
  workers = λ j. refl;
  state = refl;
  session = (refl, refl);
}
forget_all-Forgets (id ∷ ids) s =
    let u = unregister_secret-Unregisters id s in
    let s' = unregister_secret id s in
    let rest = forget_all-Forgets ids (record s' {
      workers = remove id s'.workers;
      target_to_workers = untrack_everywhere id s'.target_to_workers;
    }) in
    record {
      secrets = λ j. ground (arith, rest.secrets j, u.secrets j);
      workers = λ j. ground (arith, rest.workers j, u.same_workers, contains-remove id j s.workers);
      state = rest.state ∙ u.same_state;
      session = (rest.session.0 ∙ u.same_session.0, rest.session.1 ∙ u.same_session.1);
    }

pub tracks-forget_all :
    (t : String) (ids : List WorkerId) (j : WorkerId) (s : Supervisor)
    → tracks t j (forget_all ids s) ≡ (if member j ids then false else tracks t j s)
unfolding forget_all member
tracks-forget_all t [] j s = refl
tracks-forget_all t (id ∷ ids) j s =
    let u = unregister_secret-Unregisters id s in
    let s' = unregister_secret id s in
    ground (
      arith,
      tracks-forget_all t ids j (record s' {
        workers = remove id s'.workers;
        target_to_workers = untrack_everywhere id s'.target_to_workers;
      }),
      u.same_tracking,
      workers_of-untrack_everywhere id j t s.target_to_workers,
    )

pub member-ids_of :
    (j : WorkerId) (d : Dict WorkerId WorkerSpec) → member j (ids_of d) ≡ contains j d
unfolding member get
member-ids_of j [] = refl
member-ids_of j ((id, spec) ∷ d) = ground (arith, member-ids_of j d)

pub ruleset tables = (arith, contains-put, contains-remove, workers_of-track)
