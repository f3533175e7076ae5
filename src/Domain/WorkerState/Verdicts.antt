-- ===== src/Domain/WorkerState/Verdicts.antt =====
-- app/domain/worker_state.py: the pre-checks against the transition, and the part of the breaker.
use restream_plus.Base.{
  ◌≡◌, ◌≢◌, ◌⊎◌, true, false, none, some, Option, arith, ok, err, is_ok, any, ◌==◌, ◌↔◌,
}
use restream_plus.Domain.CircuitBreaker.{BreakerVerdict, open_verdict}
use restream_plus.Domain.WorkerState.{
  WorkerState, WorkerAction, action_eq, reconnecting, failed_open, reconnect, stop_requested,
  user_reset, transition, is_legal, legal_actions,
}

-- With a verdict at hand, the pre-check, the list of legal actions and the transition agree on every
-- pair. Without one RECONNECT is refused in every state; every other action ignores the verdict.
-- A refusal carries the state and the action.
pub legal_verdict :
    (s : WorkerState) (a : WorkerAction) (v : BreakerVerdict)
    → (is_legal s a ≡ is_ok (transition s a (some v)))
      × (any (λ b. b == a) (legal_actions s) ≡ is_legal s a)
      × (a ≡ reconnect → transition s a none ≡ err (record { state = s; action = a }))
      × (a ≢ reconnect → transition s a none ≡ transition s a (some v))
      × (is_legal s a ≡ false → transition s a (some v) ≡ err (record { state = s; action = a }))
unfolding transition is_legal legal_actions
legal_verdict s a v = ground arith

-- A worker enters FAILED_OPEN only from RECONNECTING on an OPEN verdict, always then, and leaves it
-- only on a user's reset or a stop.
pub failed_open_iff :
    (s : WorkerState) (a : WorkerAction) (v : Option BreakerVerdict)
    → ((transition s a v ≡ ok failed_open)
        ↔ ((s ≡ reconnecting) × (a ≡ reconnect) × (v ≡ some open_verdict)))
      × (is_ok (transition failed_open a v) ≡ true → (a ≡ user_reset) ⊎ (a ≡ stop_requested))
unfolding transition
failed_open_iff s a v = ground arith
