-- ===== src/Fanout/EventBus/Delivery.antt =====
-- app/fanout/event_bus.py: what the single drainer receives of what the supervisor put.
use native.Mathlib.Numerals.{add-one}
use mathlib.Core.List.{append_assoc, append-nil}
use mathlib.Core.Path.{subst}
use restream_plus.Fanout.EventBus.{EventBus, put_event, drain_batch, append_bounded, new}
use restream_plus.Base.{
  ℕ, List, [], ◌∷◌, ◌++◌, suc, ◌≡◌, length, ◌≤◌, ◌<◌, arith, ltb, Bool-cases, true, false, leb, ok,
  lt→ltb, inl, leb→le, inr, length-append, refl,
}

pub data Op {ℓ} (A : Type ℓ) : Type ℓ where
  puts : A → Op A
  drains : Op A

-- The first list is the second with the counted number of entries left out.
pub data Loses {ℓ} {A : Type ℓ} : List A → List A → ℕ → Type ℓ where
  none_left : Loses [] [] 0
  lost : {xs ys : List A} {n : ℕ} (y : A) → Loses xs ys n → Loses xs (y ∷ ys) (suc n)
  kept : {xs ys : List A} {n : ℕ} (y : A) → Loses xs ys n → Loses (y ∷ xs) (y ∷ ys) n

module _ {ℓ} {A : Type ℓ} where
  -- What the drainer has received, and the bus.
  unfoldable pub run : List A → EventBus A → List (Op A) → List A × EventBus A
  run got bus [] = (got, bus)
  run got bus (puts e ∷ ops) = run got (put_event bus e) ops
  run got bus (drains ∷ ops) = run (got ++ (drain_batch bus).0) (drain_batch bus).1 ops

  abbrev pub put_of : List (Op A) → List A
  put_of [] = []
  put_of (puts e ∷ ops) = e ∷ put_of ops
  put_of (drains ∷ ops) = put_of ops

  Loses-refl : (xs : List A) → Loses xs xs 0
  Loses-refl [] = none_left
  Loses-refl (x ∷ xs) = kept x (Loses-refl xs)

  Loses-snoc :
      {xs ys : List A} {n : ℕ} (e : A) → Loses xs ys n → Loses (xs ++ e ∷ []) (ys ++ e ∷ []) n
  Loses-snoc e none_left = kept e none_left
  Loses-snoc e (lost y h) = lost y (Loses-snoc e h)
  Loses-snoc e (kept y h) = kept y (Loses-snoc e h)

  -- One more entry is lost: the first behind a part that stays.
  Loses-behind :
      (got : List A) (x : A) (xs : List A) {zs ys : List A} {n : ℕ}
      → zs ≡ got ++ x ∷ xs
      → Loses zs ys n
      → Loses (got ++ xs) ys (suc n)
  Loses-behind [] x xs e none_left = cc
  Loses-behind (g ∷ got) x xs e none_left = cc
  Loses-behind [] x xs e (lost y h) = lost y (Loses-behind [] x xs e h)
  Loses-behind (g ∷ got) x xs e (lost y h) = lost y (Loses-behind (g ∷ got) x xs e h)
  Loses-behind [] x xs e (kept {xs = zs} {ys = ys} {n = n} y h) =
      let p : zs ≡ xs = cc in lost y (subst (λ l. Loses l ys n) p h)
  Loses-behind (g ∷ got) x xs e (kept {xs = zs} {ys = ys} {n = n} y h) =
      let p : y ≡ g = cc in
      let q : zs ≡ got ++ x ∷ xs = cc in
      subst (λ z. Loses (z ∷ (got ++ xs)) (y ∷ ys) (suc n)) p (kept y (Loses-behind got x xs q h))

  -- What was received and what is buffered are the events put so far less those dropped.
  pub record Accounts (got ys : List A) (bus : EventBus A) : Type ℓ where
    pub bounded : length bus.buf ≤ bus.capacity
    pub positive : 0 < bus.capacity
    pub accounted : Loses (got ++ bus.buf) ys bus.dropped_total

  put_full :
      (got ys buf : List A) (limit n : ℕ) (e : A)
      → length buf ≤ limit
      → limit ≤ length buf
      → 0 < limit
      → Loses (got ++ buf) ys n
      → Loses (got ++ append_bounded limit buf e) (ys ++ e ∷ []) (suc n)
  unfolding append_bounded
  put_full got ys [] limit n e b f p h = absurd (omega arith)
  put_full got ys (x ∷ buf) limit n e b f p h =
      let t : ltb limit (length (x ∷ buf ++ e ∷ [])) ≡ true =
        lt→ltb _ _ (omega (arith, length-append buf (e ∷ []))) in
      rw t (rw (← append_assoc got buf (e ∷ [])) (Loses-snoc e (Loses-behind got x buf refl h)))

  put_room :
      (got ys buf : List A) (limit n : ℕ) (e : A)
      → length buf < limit
      → Loses (got ++ buf) ys n
      → Loses (got ++ append_bounded limit buf e) (ys ++ e ∷ []) n
  unfolding append_bounded
  put_room got ys buf limit n e b h =
      rw (not_full limit buf e b) (rw (← append_assoc got buf (e ∷ [])) (Loses-snoc e h))
    where
      not_full :
          (limit : ℕ) (buf : List A) (e : A)
          → length buf < limit
          → ltb limit (length (buf ++ e ∷ [])) ≡ false
      not_full limit buf e b = ground (arith, length-append buf (e ∷ []))

  append_bounded-le :
      (buf : List A) (limit : ℕ) (e : A)
      → length buf ≤ limit
      → length (append_bounded limit buf e) ≤ limit
  unfolding append_bounded
  append_bounded-le [] limit e b = ground arith
  append_bounded-le (x ∷ buf) limit e b = ground (arith, length-append buf (e ∷ []))

  put-Accounts :
      (got ys : List A) (bus : EventBus A) (e : A)
      → Accounts got ys bus
      → Accounts got (ys ++ e ∷ []) (put_event bus e)
  unfolding put_event
  put-Accounts got ys bus e h = record {
    bounded = append_bounded-le bus.buf bus.capacity e h.bounded;
    positive = h.positive;
    accounted = elim (Bool-cases (leb bus.capacity (length bus.buf))) [
      | inl full ↦
          rw (full, add-one)
            (put_full got ys bus.buf bus.capacity bus.dropped_total e h.bounded (leb→le _ _ full)
              h.positive h.accounted)
      | inr room ↦
          rw room
            (put_room got ys bus.buf bus.capacity bus.dropped_total e (ground arith) h.accounted)
    ];
  }

  drain-Accounts :
      (got ys : List A) (bus : EventBus A)
      → Accounts got ys bus
      → Accounts (got ++ (drain_batch bus).0) ys (drain_batch bus).1
  unfolding drain_batch
  drain-Accounts got ys bus h = record {
    bounded = omega arith;
    positive = h.positive;
    accounted = rw append-nil h.accounted;
  }

  run-Accounts :
      (got ys : List A) (bus : EventBus A) (ops : List (Op A))
      → Accounts got ys bus
      → Accounts (run got bus ops).0 (ys ++ put_of ops) (run got bus ops).1
  unfolding run
  run-Accounts got ys bus [] h = rw append-nil h
  run-Accounts got ys bus (puts e ∷ ops) h =
      rw (← append_assoc ys (e ∷ []) (put_of ops))
        (run-Accounts got (ys ++ e ∷ []) (put_event bus e) ops (put-Accounts got ys bus e h))
  run-Accounts got ys bus (drains ∷ ops) h =
      run-Accounts (got ++ (drain_batch bus).0) ys (drain_batch bus).1 ops
        (drain-Accounts got ys bus h)

  run-capacity :
      (got : List A) (bus : EventBus A) (ops : List (Op A))
      → (run got bus ops).1.capacity ≡ bus.capacity
  unfolding run put_event drain_batch
  run-capacity got bus [] = refl
  run-capacity got bus (puts e ∷ ops) = run-capacity got (put_event bus e) ops
  run-capacity got bus (drains ∷ ops) =
      run-capacity (got ++ (drain_batch bus).0) (drain_batch bus).1 ops

  -- A bus of positive capacity, after any puts and batches: the buffer is within the capacity, and
  -- what the drainer received followed by the buffer is every event put, in order, less exactly
  -- `dropped_total` of them.
  pub delivery :
      (capacity : ℕ) (ops : List (Op A))
      → 0 < capacity
      → (bus : EventBus A) × (new capacity ≡ ok bus)
        × (length (run [] bus ops).1.buf ≤ capacity)
        × Loses
            ((run [] bus ops).0 ++ (run [] bus ops).1.buf)
            (put_of ops)
            (run [] bus ops).1.dropped_total
  unfolding new
  delivery capacity ops p =
      let bus : EventBus A = record { buf = []; capacity = capacity; dropped_total = 0 } in
      let h =
        run-Accounts [] [] bus ops
          (record { bounded = omega arith; positive = p; accounted = none_left }) in
      (bus, ground arith, omega (arith, h.bounded, run-capacity [] bus ops), h.accounted)
