-- ===== src/Api/Ws/Follows.antt =====
-- app/api/ws.py: what a client has been sent is a prefix of what was broadcast.
use mathlib.Core.List.{append_assoc, append-nil}
use restream_plus.Api.Ws.{Client, offer, forward, WsSubscriber, sees_overflow, get_event, deliver}
use restream_plus.Base.{
  ℕ, Bool, Option, List, ◌≡◌, ◌++◌, false, arith, none, ◌⊎◌, inl, refl, ◌≤◌, ◌<◌, inr,
  length-append, ◌∷◌, true, [], some, length, not, Bool-cases, ap, Option-cases, sym,
}

pub data Op {ℓ} (A : Type ℓ) : Type ℓ where
  arrives : A → Op A
  forwards : Bool → Op A

module _ {ℓ} {A B : Type ℓ} (capacity : ℕ) (render : A → Option B) where
  unfoldable pub run : Client A B → List (Op A) → Client A B
  run c [] = c
  run c (arrives e ∷ ops) = run (record c { sub = offer capacity e c.sub }) ops
  run c (forwards sends ∷ ops) = run (forward render c sends) ops

  abbrev pub rendered : List A → List B
  rendered [] = []
  rendered (e ∷ es) = elim (render e) [ none ↦ rendered es | some b ↦ b ∷ rendered es ]

  -- The first `taken` of the events were taken from the queue, the queue follows, and what comes
  -- after it was refused.
  pub record Follows (events : List A) (c : Client A B) : Type ℓ where
    pub taken : List A
    pub refused : List A
    pub in_order : events ≡ (taken ++ c.sub.queue) ++ refused
    pub sent_taken : c.sent ≡ rendered taken
    pub lossless : c.sub.overflowed ≡ false → refused ≡ []
    pub bounded : length c.sub.queue ≤ capacity

  rendered-append : (xs ys : List A) → rendered (xs ++ ys) ≡ rendered xs ++ rendered ys
  rendered-append [] ys = refl
  rendered-append (x ∷ xs) ys = ground (arith, rendered-append xs ys)

  offer_cases :
      (e : A) (s : WsSubscriber A)
      → ((s.overflowed ≡ true) × (offer capacity e s ≡ s))
        ⊎ ((s.overflowed ≡ false) × (offer capacity e s ≡ record s { overflowed = true }))
        ⊎ ((s.overflowed ≡ false)
            × (length s.queue < capacity)
            × (offer capacity e s ≡ record s { queue = s.queue ++ e ∷ [] }))
  unfolding offer
  offer_cases e s = ground arith

  arrives-Follows :
      (events : List A) (e : A) (c : Client A B)
      → Follows events c
      → Follows (events ++ e ∷ []) (record c { sub = offer capacity e c.sub })
  arrives-Follows events e c h = elim (offer_cases e c.sub) [
    | inl (over, q) ↦ rw q (record {
      taken = h.taken;
      refused = h.refused ++ e ∷ [];
      in_order = rw (h.in_order) (append_assoc (h.taken ++ c.sub.queue) h.refused (e ∷ []));
      sent_taken = h.sent_taken;
      lossless = λ f. cc;
      bounded = h.bounded;
    })
    | inr (inl (clear, q)) ↦ rw q (record {
      taken = h.taken;
      refused = h.refused ++ e ∷ [];
      in_order = rw (h.in_order) (append_assoc (h.taken ++ c.sub.queue) h.refused (e ∷ []));
      sent_taken = h.sent_taken;
      lossless = λ f. cc;
      bounded = h.bounded;
    })
    | inr (inr (clear, room, q)) ↦ rw q (record {
      taken = h.taken;
      refused = [];
      in_order = rw (h.in_order, h.lossless clear, append-nil, append-nil, append_assoc);
      sent_taken = h.sent_taken;
      lossless = λ f. refl;
      bounded = omega (arith, length-append c.sub.queue (e ∷ []));
    })
  ]

  -- What one round of the forward loop takes from the queue, and what it sends.
  unfoldable pub Takes : Client A B → Client A B → Type ℓ
  Takes c c' =
      ((e : A) × (rest : List A) × (c.sub.queue ≡ e ∷ rest)
        × (render e ≡ none)
        × (c' ≡ record c {
          sub = record { queue = rest; overflowed = c.sub.overflowed };
          waiting = false;
        }))
      ⊎ ((e : A) × (rest : List A) × (b : B) × (over : Bool) × (c.sub.queue ≡ e ∷ rest)
          × (render e ≡ some b)
          × (c' ≡ record {
            sent = c.sent ++ b ∷ [];
            sub = record { queue = rest; overflowed = c.sub.overflowed };
            waiting = false;
            ended = over;
          }))

  get_cases :
      (c : Client A B) (q : List A) (sends : Bool)
      → c.sub.queue ≡ q
      → (get_event render c q sends ≡ record c { waiting = true })
        ⊎ Takes c (get_event render c q sends)
  unfolding get_event Takes
  get_cases c [] sends h = inl refl
  get_cases c (e ∷ rest) sends h = elim (Option-cases (render e)) [
    | inl n ↦ inr (inl (e, rest, h, n, rw (n, deliver)))
    | inr (b, y) ↦ inr (inr (e, rest, b, not sends, h, y, rw (y, deliver)))
  ]

  forward_active :
      (c : Client A B) (sends : Bool)
      → c.ended ≡ false
      → sees_overflow c ≡ false
      → forward render c sends ≡ get_event render c c.sub.queue sends
  unfolding forward
  forward_active c sends runs clear = ground arith

  pub forward_cases :
      (c : Client A B) (sends : Bool)
      → (forward render c sends ≡ c)
        ⊎ (forward render c sends ≡ record c { ended = true })
        ⊎ ((sees_overflow c ≡ false)
            × ((forward render c sends ≡ record c { waiting = true })
                ⊎ Takes c (forward render c sends)))
  unfolding forward
  forward_cases c sends = elim (Bool-cases c.ended) [
    | inl over ↦ inl (ground arith)
    | inr runs ↦ elim (Bool-cases (sees_overflow c)) [
      | inl full ↦ inr (inl (ground arith))
      | inr clear ↦
          rw (forward_active c sends runs clear)
            (inr (inr (clear, get_cases c c.sub.queue sends refl)))
    ]
  ]

  rendered-none : (e : A) → render e ≡ none → rendered (e ∷ []) ≡ []
  rendered-none e n = ground arith

  rendered-some : (e : A) (b : B) → render e ≡ some b → rendered (e ∷ []) ≡ b ∷ []
  rendered-some e b y = ground arith

  Takes-Follows :
      (events : List A) (c c' : Client A B) → Takes c c' → Follows events c → Follows events c'
  unfolding Takes
  Takes-Follows events c c' (inl (e, rest, q, n, p)) h = rw p (record {
    taken = h.taken ++ e ∷ [];
    refused = h.refused;
    in_order =
        rw (h.in_order, q) (ap (λ l. l ++ h.refused) (sym (append_assoc h.taken (e ∷ []) rest)));
    sent_taken = rw (h.sent_taken, rendered-append h.taken (e ∷ []), rendered-none e n, append-nil);
    lossless = h.lossless;
    bounded = ground (arith, ap length q, h.bounded);
  })
  Takes-Follows events c c' (inr (e, rest, b, over, q, y, p)) h = rw p (record {
    taken = h.taken ++ e ∷ [];
    refused = h.refused;
    in_order =
        rw (h.in_order, q) (ap (λ l. l ++ h.refused) (sym (append_assoc h.taken (e ∷ []) rest)));
    sent_taken = rw (h.sent_taken, rendered-append h.taken (e ∷ []), rendered-some e b y);
    lossless = h.lossless;
    bounded = ground (arith, ap length q, h.bounded);
  })

  forward-Follows :
      (events : List A) (c : Client A B) (sends : Bool)
      → Follows events c
      → Follows events (forward render c sends)
  forward-Follows events c sends h = elim (forward_cases c sends) [
    | inl p ↦ rw p h
    | inr (inl p) ↦ rw p (record {
      taken = h.taken;
      refused = h.refused;
      in_order = h.in_order;
      sent_taken = h.sent_taken;
      lossless = h.lossless;
      bounded = h.bounded;
    })
    | inr (inr (clear, inl p)) ↦ rw p (record {
      taken = h.taken;
      refused = h.refused;
      in_order = h.in_order;
      sent_taken = h.sent_taken;
      lossless = h.lossless;
      bounded = h.bounded;
    })
    | inr (inr (clear, inr takes)) ↦ Takes-Follows events c (forward render c sends) takes h
  ]

  abbrev pub arrived : List (Op A) → List A
  arrived [] = []
  arrived (arrives e ∷ ops) = e ∷ arrived ops
  arrived (forwards sends ∷ ops) = arrived ops

  pub run-Follows :
      (events : List A) (c : Client A B) (ops : List (Op A))
      → Follows events c
      → Follows (events ++ arrived ops) (run c ops)
  unfolding run
  run-Follows events c [] h = rw append-nil h
  run-Follows events c (arrives e ∷ ops) h = rw (← append_assoc events (e ∷ []) (arrived ops)) (
      run-Follows (events ++ e ∷ []) (record c { sub = offer capacity e c.sub }) ops
        (arrives-Follows events e c h))
  run-Follows events c (forwards sends ∷ ops) h =
      run-Follows events (forward render c sends) ops (forward-Follows events c sends h)
