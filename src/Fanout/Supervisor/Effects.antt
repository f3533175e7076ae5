-- ===== src/Fanout/Supervisor/Effects.antt =====
-- app/fanout/supervisor.py: the signals keep the workers and their tables.
use restream_plus.Fanout.Supervisor.{target_snapshot}
use restream_plus.Fanout.Supervisor.Signals.{known_snapshots}
use restream_plus.Domain.Target.{ingest_snapshot, compute_ui_state, expected_worker_roles}
use restream_plus.Base.Dict.{put, get, contains, Dict}
use restream_plus.Domain.Target.{Target}
use restream_plus.Fanout.Supervisor.Signals.{
  handle_worker_event, publish_ended, publish_began, drop_alert_tick,
}
use restream_plus.Fanout.Supervisor.{Supervisor, Payload, publish, drop_alert}
use restream_plus.Fanout.Supervisor.Agreement.{IsAgreed, NoWorkers}
use restream_plus.Fanout.Supervisor.Roster.{
  SameTables, SameTables-IsAgreed, SameTables-runs, publish-SameTables,
}
use restream_plus.Fanout.Worker.{WorkerId, worker_id_eq}
use restream_plus.Domain.RunState.{
  RunState, offline, armed, live, error, transition, obs_publish_began, obs_publish_ended, state_eq,
}
use restream_plus.Domain.WorkerState.{WorkerSnapshot}
use restream_plus.Base.{
  string_eq, String, Bool, true, false, ok, ◌≡◌, refl, arith, ◌∙◌, Bool-cases, Option-cases, inl,
  ◌==◌, inr, ltb, string_eq, ◌⊎◌, ℕ,
}

-- OFFLINE and ERROR: no run is under way.
abbrev pub is_quiet : RunState → Bool
is_quiet r = elim r [ offline ↦ true | error ↦ true | _ ↦ false ]

-- The tables agree, and no worker runs outside a run.
pub record IsSupervised (s : Supervisor) : Type 0 where
  pub agreed : IsAgreed s
  pub resting : is_quiet s.run_state ≡ true → NoWorkers s

-- A signal: workers and tables stay, and a run that is quiet stays so.
pub record IsSignal (s s' : Supervisor) : Type 0 where
  pub same : SameTables s s'
  pub quiet : is_quiet s'.run_state ≡ true → is_quiet s.run_state ≡ true

pub IsSignal-IsSupervised : (s s' : Supervisor) → IsSignal s s' → IsSupervised s → IsSupervised s'
IsSignal-IsSupervised s s' g h = record {
  agreed = SameTables-IsAgreed s s' g.same h.agreed;
  resting = λ q j. SameTables-runs s s' g.same j ∙ h.resting (g.quiet q) j;
}

unchanged : (s : Supervisor) → IsSignal s s
unchanged s = record {
  same = record { workers = refl; secrets = refl; tracking = refl; session = refl; history = refl };
  quiet = λ q. q;
}

-- A new run state on the bus.
announced :
    (payload : Payload) (s : Supervisor) (next : RunState)
    → is_quiet next ≡ false
    → IsSignal s (publish payload (record s { run_state = next }))
announced payload s next busy =
    let (same, state) = publish-SameTables payload (record s { run_state = next }) in
    record {
      same = record {
        workers = same.workers;
        secrets = same.secrets;
        tracking = same.tracking;
        session = same.session;
        history = same.history;
      };
      quiet = λ q. ground (arith, state, busy, q);
    }

began_live :
    (s : Supervisor) → s.run_state ≡ armed → transition s.run_state obs_publish_began ≡ ok live
unfolding transition
began_live s q = rw q refl

ended_armed :
    (s : Supervisor) → s.run_state ≡ live → transition s.run_state obs_publish_ended ≡ ok armed
unfolding transition
ended_armed s q = rw q refl

pub publish_began-IsSignal : (s : Supervisor) → IsSignal s (publish_began s)
unfolding publish_began
publish_began-IsSignal s = elim (Bool-cases (s.run_state == armed)) [
  | inr other ↦ rw (other, publish_began) (unchanged s)
  | inl here ↦
      rw (here, began_live s ((state_eq.same_iff s.run_state armed).0 here), publish_began)
        (announced _ s live refl)
]

pub publish_ended-IsSignal : (s : Supervisor) → IsSignal s (publish_ended s)
unfolding publish_ended
publish_ended-IsSignal s = elim (Bool-cases (s.run_state == live)) [
  | inr other ↦ rw (other, publish_ended) (unchanged s)
  | inl here ↦
      rw (here, ended_armed s ((state_eq.same_iff s.run_state live).0 here), publish_ended)
        (announced _ s armed refl)
]

-- A payload on the bus behind a change that no table of workers shows.
quietly :
    (payload : Payload) (s s' : Supervisor)
    → SameTables s s'
    → s'.run_state ≡ s.run_state
    → IsSignal s (publish payload s')
quietly payload s s' first same_state =
    let (same, state) = publish-SameTables payload s' in
    record {
      same = record {
        workers = same.workers ∙ first.workers;
        secrets = same.secrets ∙ first.secrets;
        tracking = same.tracking ∙ first.tracking;
        session = same.session ∙ first.session;
        history = same.history ∙ first.history;
      };
      quiet = λ q. ground (arith, state, same_state, q);
    }

pub event_cases :
    (id : WorkerId) (snapshot : WorkerSnapshot) (s : Supervisor)
    → (handle_worker_event id snapshot s ≡ s)
      ⊎ ((payload : Payload) × (seen : Dict String Target) × (handle_worker_event id snapshot s
            ≡ publish payload (record s { targets = seen })))
unfolding handle_worker_event
event_cases id snapshot s = elim (Bool-cases (contains id s.workers)) [
  | inr gone ↦ inl (ground (arith, gone))
  | inl here ↦ elim (Option-cases (get id.target_id s.targets)) [
    | inl n ↦ inl (ground (arith, here, n))
    | inr (target, p) ↦
        let seen = ingest_snapshot target snapshot in
        inr (
          target_snapshot seen.id (compute_ui_state seen)
              (known_snapshots seen.worker_set (expected_worker_roles seen)),
          put id.target_id seen s.targets,
          ground (arith, here, p),
        )
  ]
]

pub handle_worker_event-IsSignal :
    (id : WorkerId) (snapshot : WorkerSnapshot) (s : Supervisor)
    → IsSignal s (handle_worker_event id snapshot s)
handle_worker_event-IsSignal id snapshot s = elim (event_cases id snapshot s) [
  | inl q ↦ rw q (unchanged s)
  | inr (payload, seen, q) ↦ rw q (
      quietly payload s _
        (record { workers = refl; secrets = refl; tracking = refl; session = refl; history = refl })
        refl)
]

pub tick_cases :
    (s : Supervisor)
    → (drop_alert_tick s ≡ s)
      ⊎ ((payload : Payload) × (total : ℕ) × (drop_alert_tick s
            ≡ publish payload (record s { last_drop_alert_total = total })))
unfolding drop_alert_tick
tick_cases s = elim (Option-cases s.bus) [
  | inl n ↦ inl (ground (arith, n))
  | inr (bus, p) ↦ elim (Bool-cases (ltb s.last_drop_alert_total bus.dropped_total)) [
    | inr few ↦ inl (ground (arith, p, few))
    | inl more ↦ inr (drop_alert bus.dropped_total, bus.dropped_total, ground (arith, p, more))
  ]
]

pub drop_alert_tick-IsSignal : (s : Supervisor) → IsSignal s (drop_alert_tick s)
drop_alert_tick-IsSignal s = elim (tick_cases s) [
  | inl q ↦ rw q (unchanged s)
  | inr (payload, total, q) ↦ rw q (
      quietly payload s _
        (record { workers = refl; secrets = refl; tracking = refl; session = refl; history = refl })
        refl)
]
