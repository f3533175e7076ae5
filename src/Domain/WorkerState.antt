-- ===== src/Domain/WorkerState.antt =====
-- app/domain/worker_state.py: the state machine of one worker, its table entry by entry, and the
-- snapshots. A float is a number in thousandths: it is carried and never computed with.
pub mod Verdicts
use restream_plus.Base.{
  ℕ, String, ◌≡◌, ◌↔◌, Bool, true, false, ◌&&◌, Option, none, some, List, [], ◌∷◌, ◌++◌, map, arith,
  eqb, is_some, if◌then◌else◌, Result, ok, err, Eq, ◌==◌, filter,
}
use restream_plus.Base.Dict.{Dict, get, contains}
use restream_plus.Domain.CircuitBreaker.{BreakerVerdict, closed, open_verdict}

pub data WorkerRole : Type 0 where
  primary backup : WorkerRole

pub data WorkerState : Type 0 where
  idle starting running reconnecting failed_open stopping : WorkerState

pub data WorkerAction : Type 0 where
  start process_healthy process_exited reconnect stop_requested stopped user_reset : WorkerAction

-- Enum members are compared by identity: by their place in the enum.
abbrev role_index : WorkerRole → ℕ
role_index primary = 0
role_index backup = 1

abbrev state_index : WorkerState → ℕ
state_index idle = 0
state_index starting = 1
state_index running = 2
state_index reconnecting = 3
state_index failed_open = 4
state_index stopping = 5

abbrev action_index : WorkerAction → ℕ
action_index start = 0
action_index process_healthy = 1
action_index process_exited = 2
action_index reconnect = 3
action_index stop_requested = 4
action_index stopped = 5
action_index user_reset = 6

pub role_same_iff : (r s : WorkerRole) → (eqb (role_index r) (role_index s) ≡ true) ↔ (r ≡ s)
role_same_iff r s = ground arith

pub state_same_iff : (s t : WorkerState) → (eqb (state_index s) (state_index t) ≡ true) ↔ (s ≡ t)
state_same_iff s t = ground arith

pub action_same_iff :
    (a b : WorkerAction) → (eqb (action_index a) (action_index b) ≡ true) ↔ (a ≡ b)
action_same_iff a b = ground arith

instance abbrev pub role_eq : Eq WorkerRole
role_eq = record { same = λ r s. eqb (role_index r) (role_index s); same_iff = role_same_iff }

instance abbrev pub state_eq : Eq WorkerState
state_eq = record { same = λ s t. eqb (state_index s) (state_index t); same_iff = state_same_iff }

instance abbrev pub action_eq : Eq WorkerAction
action_eq = record {
  same = λ a b. eqb (action_index a) (action_index b);
  same_iff = action_same_iff;
}

abbrev key_same : WorkerState × WorkerAction → WorkerState × WorkerAction → Bool
key_same (s, a) (t, b) =
    eqb (state_index s) (state_index t) && eqb (action_index a) (action_index b)

key_same_iff : (k l : WorkerState × WorkerAction) → (key_same k l ≡ true) ↔ (k ≡ l)
key_same_iff (s, a) (t, b) = ground (arith, state_same_iff s t, action_same_iff a b)

instance abbrev key_eq : Eq (WorkerState × WorkerAction)
key_eq = record { same = key_same; same_iff = key_same_iff }

-- `_TRANSITIONS`
abbrev transitions : Dict (WorkerState × WorkerAction) WorkerState
transitions =
    ((idle, start), starting)
    ∷ ((starting, process_healthy), running)
    ∷ ((starting, process_exited), reconnecting)
    ∷ ((starting, stop_requested), stopping)
    ∷ ((running, process_exited), reconnecting)
    ∷ ((running, stop_requested), stopping)
    ∷ ((reconnecting, process_healthy), running)
    ∷ ((reconnecting, stop_requested), stopping)
    ∷ ((stopping, stopped), idle)
    ∷ ((failed_open, user_reset), starting)
    ∷ ((failed_open, stop_requested), stopping)
    ∷ []

-- `IllegalWorkerStateTransitionError`, with the two fields that it carries.
pub record IllegalWorkerStateTransition : Type 0 where
  pub state : WorkerState
  pub action : WorkerAction

or_illegal :
    WorkerState
    → WorkerAction
    → Option WorkerState
    → Result IllegalWorkerStateTransition WorkerState
or_illegal s a none = err (record { state = s; action = a })
or_illegal s a (some t) = ok t

-- The branch of RECONNECT, which needs a verdict.
reconnect_by : WorkerState → Option BreakerVerdict → Result IllegalWorkerStateTransition WorkerState
reconnect_by s none = err (record { state = s; action = reconnect })
reconnect_by s (some verdict) =
    if s == reconnecting
    then elim verdict [ open_verdict ↦ ok failed_open | closed ↦ ok reconnecting ]
    else err (record { state = s; action = reconnect })

unfoldable pub transition :
    WorkerState
    → WorkerAction
    → Option BreakerVerdict
    → Result IllegalWorkerStateTransition WorkerState
unfolding or_illegal reconnect_by get
transition s a verdict =
    if a == reconnect then reconnect_by s verdict else or_illegal s a (get (s, a) transitions)

pub is_legal : WorkerState → WorkerAction → Bool
unfolding get
is_legal s a = if a == reconnect then s == reconnecting else contains (s, a) transitions

-- The set comprehension of `legal_actions`, in the order of the table, and `actions.add`.
pub legal_actions : WorkerState → List WorkerAction
legal_actions s =
    let actions = map (λ e. e.0.1) (filter (λ e. e.0.0 == s) transitions) in
    if s == reconnecting then actions ++ reconnect ∷ [] else actions

pub record WorkerProgressSnapshot : Type 0 where
  pub bitrate_kbps : ℕ
  pub fps : ℕ
  pub drop_frames : ℕ
  pub speed : ℕ
  pub at : ℕ

pub record WorkerSnapshot : Type 0 where
  pub role : WorkerRole
  pub state : WorkerState
  pub last_event_at : ℕ
  pub last_error : Option String
  pub breaker_failures_in_window : ℕ
  pub last_progress : Option WorkerProgressSnapshot
