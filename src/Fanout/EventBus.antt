-- ===== src/Fanout/EventBus.antt =====
-- app/fanout/event_bus.py: the bounded queue between the supervisor and the API. An event is only
-- moved, so its type is a parameter. `drain` yields one batch at a time; its wait for a non-empty
-- buffer is the caller's choice of when to take the next batch.
pub mod Delivery
use restream_plus.Base.{
  ℕ, List, Result, if◌then◌else◌, ◌++◌, leb, [], ◌∷◌, err, length, ltb, ok, ◌+◌, drop,
}

-- `deque(maxlen=capacity)`: an append to a full deque discards from the left.
unfoldable pub append_bounded {ℓ} : {A : Type ℓ} → ℕ → List A → A → List A
append_bounded capacity buf e =
    let longer = buf ++ e ∷ [] in if ltb capacity (length longer) then drop 1 longer else longer

pub record EventBus {ℓ} (A : Type ℓ) : Type ℓ where
  pub buf : List A
  pub capacity : ℕ
  pub dropped_total : ℕ

abbrev pub event_bus_capacity : ℕ
event_bus_capacity = 10_000

pub data CapacityError : Type 0 where
  capacity_not_positive : CapacityError

module _ {ℓ} {A : Type ℓ} where
  -- `EventBus(capacity=…)`
  unfoldable pub new : ℕ → Result CapacityError (EventBus A)
  new capacity =
      if leb capacity 0
      then err capacity_not_positive
      else ok (record { buf = []; capacity = capacity; dropped_total = 0 })

  unfoldable pub put_event : EventBus A → A → EventBus A
  unfolding append_bounded
  put_event bus event = record {
    buf = append_bounded bus.capacity bus.buf event;
    capacity = bus.capacity;
    dropped_total =
        if leb bus.capacity (length bus.buf) then bus.dropped_total + 1 else bus.dropped_total;
  }

  -- One round of the loop in `drain`: the whole buffer as a batch, and a cleared buffer.
  unfoldable pub drain_batch : EventBus A → List A × EventBus A
  drain_batch bus = (bus.buf, record bus { buf = [] })
