-- ===== src/Api/Ws/Forward.antt =====
-- app/api/ws.py: what one client receives of what was broadcast while it was subscribed.
use restream_plus.Api.Ws.Follows.{
  Follows, Op, Takes, arrived, arrives, forward_cases, forwards, run, run-Follows,
}
use restream_plus.Api.Ws.{Client, offer, forward, WsSubscriber, sees_overflow}
use restream_plus.Base.{
  ℕ, suc, Bool, Option, List, ◌≡◌, false, arith, inl, refl, ◌≤◌, inr, length-append, ◌∷◌, true, [],
  length, Bool-cases, ap, ◌∙◌,
}

module _ {ℓ} {A B : Type ℓ} (capacity : ℕ) (render : A → Option B) where
  still_overflowed :
      (e : A) (s : WsSubscriber A) → s.overflowed ≡ true → (offer capacity e s).overflowed ≡ true
  unfolding offer
  still_overflowed e s h = ground arith

  -- Once overflowed: at most one more envelope, and that only from a handler which was waiting.
  record Closing (c c' : Client A B) : Type ℓ where
    still : c'.sub.overflowed ≡ true
    settled : c.waiting ≡ false → (c'.sent ≡ c.sent) × (c'.waiting ≡ false)
    last : length c'.sent ≤ suc (length c.sent)
    not_last : c'.waiting ≡ true → c'.sent ≡ c.sent

  sees_settled :
      (c : Client A B) → c.sub.overflowed ≡ true → sees_overflow c ≡ false → c.waiting ≡ true
  unfolding sees_overflow
  sees_settled c over blind = ground arith

  Takes-Closing :
      (c c' : Client A B)
      → Takes capacity render c c'
      → c.sub.overflowed ≡ true
      → c.waiting ≡ true
      → Closing c c'
  unfolding Takes
  Takes-Closing c c' (inl (e, rest, q, n, p)) over w = rw p (record {
    still = over;
    settled = λ f. ground arith;
    last = omega arith;
    not_last = λ f. refl;
  })
  Takes-Closing c c' (inr (e, rest, b, o, q, y, p)) over w = rw p (record {
    still = over;
    settled = λ f. ground arith;
    last = omega (arith, length-append c.sent (b ∷ []));
    not_last = λ f. ground arith;
  })

  forward-Closing :
      (c : Client A B) (sends : Bool) → c.sub.overflowed ≡ true → Closing c (forward render c sends)
  forward-Closing c sends over = elim (forward_cases capacity render c sends) [
    | inl p ↦ rw p (record {
      still = over;
      settled = λ f. (refl, f);
      last = omega arith;
      not_last = λ f. refl;
    })
    | inr (inl p) ↦ rw p (record {
      still = over;
      settled = λ f. (refl, f);
      last = omega arith;
      not_last = λ f. refl;
    })
    | inr (inr (blind, inl p)) ↦
        let w = sees_settled c over blind in
        rw p (record {
          still = over;
          settled = λ f. ground arith;
          last = omega arith;
          not_last = λ f. refl;
        })
    | inr (inr (blind, inr takes)) ↦
        Takes-Closing c (forward render c sends) takes over (sees_settled c over blind)
  ]

  settled_sends :
      (c : Client A B) (ops : List (Op A))
      → c.sub.overflowed ≡ true
      → c.waiting ≡ false
      → (run capacity render c ops).sent ≡ c.sent
  unfolding run
  settled_sends c [] over w = refl
  settled_sends c (arrives e ∷ ops) over w =
      settled_sends (record c { sub = offer capacity e c.sub }) ops (still_overflowed e c.sub over)
        w
  settled_sends c (forwards sends ∷ ops) over w =
      let h = forward-Closing c sends over in
      let (same, awake) = h.settled w in
      settled_sends (forward render c sends) ops h.still awake ∙ same

  overflowed_sends :
      (c : Client A B) (ops : List (Op A))
      → c.sub.overflowed ≡ true
      → length (run capacity render c ops).sent ≤ suc (length c.sent)
  unfolding run
  overflowed_sends c [] over = omega arith
  overflowed_sends c (arrives e ∷ ops) over =
      overflowed_sends (record c { sub = offer capacity e c.sub }) ops
        (still_overflowed e c.sub over)
  overflowed_sends c (forwards sends ∷ ops) over =
      let h = forward-Closing c sends over in
      elim (Bool-cases (forward render c sends).waiting) [
        | inl w ↦
            let rest = overflowed_sends (forward render c sends) ops h.still in
            rw (← ap length (h.not_last w)) rest
        | inr w ↦ rw (settled_sends (forward render c sends) ops h.still w) h.last
      ]

  abbrev pub fresh : Client A B
  fresh = record {
    sent = [];
    sub = record { queue = []; overflowed = false };
    waiting = false;
    ended = false;
  }

  -- A client that has just subscribed, under any interleaving of broadcasts and rounds of its forward
  -- loop: what it has been sent is the rendering of the first events broadcast, in order and with no
  -- gap, and its queue holds the next ones, at most `capacity`. No event is missing behind these
  -- unless the client has overflowed. After an overflow it is sent at most one more envelope, and
  -- none when its handler was not waiting on the queue.
  pub client_receives :
      (ops later : List (Op A))
      → Follows capacity render (arrived capacity render ops) (run capacity render fresh ops)
        × ((run capacity render fresh ops).sub.overflowed ≡ true
            → (length (run capacity render (run capacity render fresh ops) later).sent
                ≤ suc (length (run capacity render fresh ops).sent))
              × ((run capacity render fresh ops).waiting ≡ false
                  → (run capacity render (run capacity render fresh ops) later).sent
                    ≡ (run capacity render fresh ops).sent))
  client_receives ops later = (
    run-Follows capacity render [] fresh ops (record {
      taken = [];
      refused = [];
      in_order = refl;
      sent_taken = refl;
      lossless = λ f. refl;
      bounded = omega arith;
    }),
    λ over. (
      overflowed_sends (run capacity render fresh ops) later over,
      settled_sends (run capacity render fresh ops) later over,
    ),
  )
