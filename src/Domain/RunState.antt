-- ===== src/Domain/RunState.antt =====
-- app/domain/run_state.py: the system-wide RunState machine, and its exception of
-- app/domain/errors.py. The transition table is the source's dict, entry by entry.
pub mod Reach
use restream_plus.Base.{
  ℕ, ◌≡◌, ◌↔◌, Bool, true, ◌&&◌, Option, none, some, List, [], ◌∷◌, map, arith, eqb, is_some,
  Result, ok, err, Eq, ◌==◌, filter,
}
use restream_plus.Base.Dict.{Dict, get, contains}

pub data RunState : Type 0 where
  offline starting armed live stopping error : RunState

pub data RunAction : Type 0 where
  start_requested workers_spawned obs_publish_began obs_publish_ended stop_requested workers_drained
        unrecoverable_failed error_cleared :
      RunAction

-- Enum members are compared by identity: by their place in the enum.
abbrev state_index : RunState → ℕ
state_index offline = 0
state_index starting = 1
state_index armed = 2
state_index live = 3
state_index stopping = 4
state_index error = 5

abbrev action_index : RunAction → ℕ
action_index start_requested = 0
action_index workers_spawned = 1
action_index obs_publish_began = 2
action_index obs_publish_ended = 3
action_index stop_requested = 4
action_index workers_drained = 5
action_index unrecoverable_failed = 6
action_index error_cleared = 7

pub state_same_iff : (s t : RunState) → (eqb (state_index s) (state_index t) ≡ true) ↔ (s ≡ t)
state_same_iff s t = ground arith

pub action_same_iff : (a b : RunAction) → (eqb (action_index a) (action_index b) ≡ true) ↔ (a ≡ b)
action_same_iff a b = ground arith

instance abbrev pub state_eq : Eq RunState
state_eq = record { same = λ s t. eqb (state_index s) (state_index t); same_iff = state_same_iff }

instance abbrev pub action_eq : Eq RunAction
action_eq = record {
  same = λ a b. eqb (action_index a) (action_index b);
  same_iff = action_same_iff;
}

abbrev key_same : RunState × RunAction → RunState × RunAction → Bool
key_same (s, a) (t, b) =
    eqb (state_index s) (state_index t) && eqb (action_index a) (action_index b)

key_same_iff : (k l : RunState × RunAction) → (key_same k l ≡ true) ↔ (k ≡ l)
key_same_iff (s, a) (t, b) = ground (arith, state_same_iff s t, action_same_iff a b)

instance abbrev key_eq : Eq (RunState × RunAction)
key_eq = record { same = key_same; same_iff = key_same_iff }

-- `_TRANSITIONS`
abbrev transitions : Dict (RunState × RunAction) RunState
transitions =
    ((offline, start_requested), starting)
    ∷ ((starting, workers_spawned), armed)
    ∷ ((armed, obs_publish_began), live)
    ∷ ((live, obs_publish_ended), armed)
    ∷ ((starting, stop_requested), stopping)
    ∷ ((armed, stop_requested), stopping)
    ∷ ((live, stop_requested), stopping)
    ∷ ((stopping, workers_drained), offline)
    ∷ ((error, error_cleared), offline)
    ∷ ((starting, unrecoverable_failed), error)
    ∷ ((armed, unrecoverable_failed), error)
    ∷ ((live, unrecoverable_failed), error)
    ∷ ((stopping, unrecoverable_failed), error)
    ∷ []

-- `IllegalRunStateTransitionError`, with the two fields that it carries.
pub record IllegalRunStateTransition : Type 0 where
  pub state : RunState
  pub action : RunAction

-- `except KeyError`: a missing key becomes the machine's own error.
or_illegal : RunState → RunAction → Option RunState → Result IllegalRunStateTransition RunState
or_illegal s a none = err (record { state = s; action = a })
or_illegal s a (some t) = ok t

unfoldable pub transition : RunState → RunAction → Result IllegalRunStateTransition RunState
unfolding or_illegal get
transition s a = or_illegal s a (get (s, a) transitions)

pub is_legal : RunState → RunAction → Bool
unfolding get
is_legal s a = contains (s, a) transitions

-- The comprehension of `legal_actions`, in the order of the table.
pub legal_actions : RunState → List RunAction
legal_actions s = map (λ e. e.0.1) (filter (λ e. e.0.0 == s) transitions)
