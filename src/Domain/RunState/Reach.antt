-- ===== src/Domain/RunState/Reach.antt =====
-- app/domain/run_state.py: what sequences of actions can do.
use mathlib.Core.Path.{subst}
use restream_plus.Base.{
  ℕ, zero, suc, ◌-◌, ◌≡◌, sym, ◌⊎◌, inl, inr, true, false, List, [], ◌∷◌, arith, Result, ok, err,
  is_ok, Result-cases, length, drop, any, ◌==◌,
}
use restream_plus.Domain.RunState.{
  RunState, RunAction, offline, starting, armed, live, stopping, error, start_requested,
  workers_spawned, obs_publish_began, stop_requested, workers_drained, error_cleared,
  IllegalRunStateTransition, transition, is_legal, legal_actions, action_eq,
}

-- The pre-check, the list of legal actions and the transition agree on every pair, and a refusal
-- carries the state and the action that were refused.
pub legal_agrees :
    (s : RunState) (a : RunAction)
    → (is_legal s a ≡ is_ok (transition s a))
      × (any (λ b. b == a) (legal_actions s) ≡ is_legal s a)
      × (is_legal s a ≡ false → transition s a ≡ err (record { state = s; action = a }))
unfolding transition is_legal legal_actions
legal_agrees s a = ground arith

-- A sequence of actions, each of them accepted.
unfoldable pub drive : RunState → List RunAction → Result IllegalRunStateTransition RunState
drive s [] = ok s
drive s (a ∷ acts) = elim (transition s a) [ ok t ↦ drive t acts | err e ↦ err e ]

-- The first list occurs in the second, in order.
pub data Embeds : List RunAction → List RunAction → Type 0 where
  done : {acts : List RunAction} → Embeds [] acts
  skip : {bs acts : List RunAction} (a : RunAction) → Embeds bs acts → Embeds bs (a ∷ acts)
  keep : {bs acts : List RunAction} (a : RunAction) → Embeds bs acts → Embeds (a ∷ bs) (a ∷ acts)

Embeds-tail : {b : RunAction} {bs acts : List RunAction} → Embeds (b ∷ bs) acts → Embeds bs acts
Embeds-tail (skip a e) = skip a (Embeds-tail e)
Embeds-tail (keep a e) = skip a e

Embeds-drop :
    (n : ℕ) (bs : List RunAction) {acts : List RunAction} → Embeds bs acts → Embeds (drop n bs) acts
Embeds-drop zero bs e = e
Embeds-drop (suc n) [] e = e
Embeds-drop (suc n) (b ∷ bs) e = Embeds-drop n bs (Embeds-tail e)

-- The actions that a state is still short of before it can be live.
abbrev pub missing : RunState → List RunAction
missing offline = start_requested ∷ workers_spawned ∷ obs_publish_began ∷ []
missing starting = workers_spawned ∷ obs_publish_began ∷ []
missing armed = obs_publish_began ∷ []
missing live = []
missing stopping = start_requested ∷ workers_spawned ∷ obs_publish_began ∷ []
missing error = start_requested ∷ workers_spawned ∷ obs_publish_began ∷ []

transition-missing :
    (s : RunState) (a : RunAction) (t : RunState)
    → transition s a ≡ ok t
    → (missing s ≡ a ∷ missing t)
      ⊎ (missing s ≡ drop (length (missing t) - length (missing s)) (missing t))
unfolding transition
transition-missing s a t h = ground arith

transition-Embeds :
    (s : RunState) (a : RunAction) (t : RunState) {acts : List RunAction}
    → transition s a ≡ ok t
    → Embeds (missing t) acts
    → Embeds (missing s) (a ∷ acts)
transition-Embeds s a t {acts} h e = elim (transition-missing s a t h) [
  | inl p ↦ subst (λ bs. Embeds bs (a ∷ acts)) (sym p) (keep a e)
  | inr p ↦ subst (λ bs. Embeds bs (a ∷ acts)) (sym p) (skip a (Embeds-drop _ (missing t) e))
]

-- Whatever accepted actions lead to LIVE hold, in this order, those that the first state lacks:
-- from OFFLINE, STOPPING and ERROR a start request, the workers' spawn and an OBS publish.
pub drive-live :
    (s : RunState) (acts : List RunAction) → drive s acts ≡ ok live → Embeds (missing s) acts
unfolding drive
drive-live offline [] h = cc
drive-live starting [] h = cc
drive-live armed [] h = cc
drive-live live [] h = done
drive-live stopping [] h = cc
drive-live error [] h = cc
drive-live s (a ∷ acts) h = elim (Result-cases (transition s a)) [
  | inl (t, e) ↦ transition-Embeds s a t e (drive-live t acts (rw (e, drive) at h))
  | inr (x, e) ↦ cc (rw (e, drive) at h)
]

-- The shortest accepted way back to OFFLINE.
abbrev pub way_back : RunState → List RunAction
way_back offline = []
way_back starting = stop_requested ∷ workers_drained ∷ []
way_back armed = stop_requested ∷ workers_drained ∷ []
way_back live = stop_requested ∷ workers_drained ∷ []
way_back stopping = workers_drained ∷ []
way_back error = error_cleared ∷ []

-- From every state the accepted actions of `way_back` lead to OFFLINE, and ERROR accepts nothing
-- but ERROR_CLEARED.
pub way_back-offline :
    (s : RunState)
    → (drive s (way_back s) ≡ ok offline)
      × ((a : RunAction) → is_legal error a ≡ true → a ≡ error_cleared)
unfolding drive transition is_legal
way_back-offline s = (ground arith, λ a h. ground arith)
