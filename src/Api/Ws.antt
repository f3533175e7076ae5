-- ===== src/Api/Ws.antt =====
-- app/api/ws.py: the broadcaster and the per-client forward loop. `WsEnvelope` and its rendering are
-- the parameter `render`, `none` where the event has no envelope. The socket's sends succeed or fail
-- as the environment decides.
pub mod Follows
pub mod Forward
pub mod Handshake
use restream_plus.Base.Dict.{put, remove}
use restream_plus.Base.{
  ℕ, List, if◌then◌else◌, Option, Bool, leb, none, length, true, false, some, ◌∷◌, nat_eq, ◌++◌, [],
  not,
}

abbrev pub ws_per_client_queue_capacity : ℕ
ws_per_client_queue_capacity = 256

pub record WsSubscriber {ℓ} (A : Type ℓ) : Type ℓ where
  pub queue : List A
  pub overflowed : Bool

-- A subscriber's queue is `asyncio.Queue(maxsize=capacity)`: `put_nowait` raises when it is full.
unfoldable pub put_nowait {ℓ} : {A : Type ℓ} → ℕ → List A → A → Option (List A)
put_nowait capacity queue event =
    if leb capacity (length queue) then none else some (queue ++ event ∷ [])

-- The body of the inner loop of `ws_broadcaster`.
unfoldable pub offer {ℓ} : {A : Type ℓ} → ℕ → A → WsSubscriber A → WsSubscriber A
unfolding put_nowait
offer capacity event sub =
    if sub.overflowed then sub else elim (put_nowait capacity sub.queue event) [
      | none ↦ record sub { overflowed = true }
      | some queue ↦ record sub { queue = queue }
    ]

-- `WsRegistry`: subscribers by identity.
abbrev pub WsRegistry {ℓ} : Type ℓ → Type ℓ
WsRegistry A = List (ℕ × WsSubscriber A)

-- What the handler of one client has handed to `send_json`, whether it waits in `queue.get()`, past
-- the test of `overflowed`, and whether its loop has ended.
pub record Client {ℓ} (A B : Type ℓ) : Type ℓ where
  pub sent : List B
  pub sub : WsSubscriber A
  pub waiting : Bool
  pub ended : Bool

module _ {ℓ} {A : Type ℓ} where
  unfoldable pub add : ℕ → WsSubscriber A → WsRegistry A → WsRegistry A
  add i sub registry = put i sub registry

  unfoldable pub discard : ℕ → WsRegistry A → WsRegistry A
  discard i registry = remove i registry

  -- One event of `ws_broadcaster`: every subscriber in the registry is offered it.
  unfoldable pub broadcast : ℕ → A → WsRegistry A → WsRegistry A
  broadcast capacity event [] = []
  broadcast capacity event ((i, sub) ∷ registry) =
      (i, offer capacity event sub) ∷ broadcast capacity event registry

  -- The envelope of an event, if it has one, goes behind those sent before; a failed send ends the
  -- loop.
  deliver : {B : Type ℓ} → Client A B → List A → Option B → Bool → Client A B
  deliver c rest none sends = record c {
    sub = record { queue = rest; overflowed = c.sub.overflowed };
    waiting = false;
  }
  deliver c rest (some envelope) sends = record {
    sent = c.sent ++ envelope ∷ [];
    sub = record { queue = rest; overflowed = c.sub.overflowed };
    waiting = false;
    ended = not sends;
  }

  -- `queue.get()` waits on an empty queue.
  get_event : {B : Type ℓ} → (A → Option B) → Client A B → List A → Bool → Client A B
  unfolding deliver
  get_event render c [] sends = record c { waiting = true }
  get_event render c (event ∷ rest) sends = deliver c rest (render event) sends

  -- A handler that is resumed from `queue.get()` does not test `overflowed` again.
  unfoldable pub sees_overflow : {B : Type ℓ} → Client A B → Bool
  sees_overflow c = if c.waiting then false else c.sub.overflowed

  -- One round of `_forward_loop`, or what is left of it after a wait.
  unfoldable pub forward : {B : Type ℓ} → (A → Option B) → Client A B → Bool → Client A B
  unfolding get_event sees_overflow
  forward render c sends =
      if c.ended
      then c
      else if sees_overflow c
      then record c { ended = true }
      else get_event render c c.sub.queue sends
