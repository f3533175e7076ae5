-- ===== src/Auth/RateLimit/Buckets.antt =====
-- app/auth/rate_limit.py: each bucket is the recent part of all failures logged under its key.
use mathlib.Core.Path.{subst}
use text.Mathlib.TextEquality.{eq_iff}
use restream_plus.Base.Window.{
  All-le, pop_while-filter, filter-IsSorted, filter-filter, IsSorted-snoc, All-le_snoc,
}
use restream_plus.Auth.RateLimit.{bucket, prune}
use restream_plus.Base.Dict.{Dict, get-put, put, get}
use restream_plus.Base.{
  ℕ, List, ◌≤◌, leb, String, filter, ◌≡◌, arith, ◌<◌, ◌+◌, IsSorted, Bool-cases, ◌++◌, All, ◌==◌,
  ◌∷◌, ◌∙◌, inl, filter-append, string_eq, sym, inr, same_refl, if◌then◌else◌, ltb, true, [], false,
  refl,
}

-- The logged failures that are still inside the window at `now`.
abbrev pub recent : ℕ → ℕ → List ℕ → List ℕ
recent w now = filter (λ t. ltb now (t + w))

keep_later : (w now t u : ℕ) → t ≤ u → ltb now (t + w) ≡ true → ltb now (u + w) ≡ true
keep_later w now t u h k = ground arith

keep_earlier : (w c now t : ℕ) → c ≤ now → ltb now (t + w) ≡ true → ltb c (t + w) ≡ true
keep_earlier w c now t h k = ground arith

stale_iff : (w now t : ℕ) → leb (t + w) now ≡ (if ltb now (t + w) then false else true)
stale_iff w now t = ground arith

pub record Tracks (w : ℕ) (b log : List ℕ) (clock : ℕ) : Type 0 where
  pub cutoff : ℕ
  pub passed : cutoff ≤ clock
  pub held : b ≡ recent w cutoff log
  pub sorted : IsSorted log
  pub before : All (λ t. t ≤ clock) log

pub prune-recent :
    (w : ℕ) (b log : List ℕ) (clock now : ℕ)
    → Tracks w b log clock
    → clock ≤ now
    → prune w now b ≡ recent w now log
unfolding prune
prune-recent w b log clock now h le = rw h.held (
    pop_while-filter (λ n t. ltb n (t + w)) (keep_later w) (keep_earlier w) (λ n t. leb (t + w) n)
      now (recent w h.cutoff log) (stale_iff w now)
      (filter-IsSorted (λ t. ltb h.cutoff (t + w)) log h.sorted)
    ∙ filter-filter (λ n t. ltb n (t + w)) (keep_later w) (keep_earlier w) h.cutoff now log
        (omega (arith, h.passed)))

wait-Tracks :
    (w : ℕ) (b log : List ℕ) (clock now : ℕ)
    → Tracks w b log clock
    → clock ≤ now
    → Tracks w b log now
wait-Tracks w b log clock now h le = record {
  cutoff = h.cutoff;
  passed = omega (arith, h.passed);
  held = h.held;
  sorted = h.sorted;
  before = All-le clock now log le h.before;
}

prune-Tracks :
    (w : ℕ) (b log : List ℕ) (clock now : ℕ)
    → Tracks w b log clock
    → clock ≤ now
    → Tracks w (prune w now b) log now
prune-Tracks w b log clock now h le = record {
  cutoff = now;
  passed = omega arith;
  held = prune-recent w b log clock now h le;
  sorted = h.sorted;
  before = All-le clock now log le h.before;
}

append-Tracks :
    (w : ℕ) (b log : List ℕ) (clock now : ℕ)
    → 0 < w
    → Tracks w b log clock
    → clock ≤ now
    → Tracks w (prune w now b ++ now ∷ []) (log ++ now ∷ []) now
append-Tracks w b log clock now p h le = record {
  cutoff = now;
  passed = omega arith;
  held =
      rw (prune-recent w b log clock now h le, filter-append (λ t. ltb now (t + w)) log (now ∷ []))
        (ground arith);
  sorted = IsSorted-snoc now log h.sorted (All-le clock now log le h.before);
  before = All-le_snoc clock now log le h.before;
}

pub bucket-put :
    (k j : String) (b : List ℕ) (d : Dict String (List ℕ))
    → bucket j (put k b d) ≡ (if k == j then b else bucket j d)
unfolding bucket
bucket-put k j b d = ground (arith, get-put k j b d)

-- A dict of buckets against a log for every key.
abbrev pub Holds : ℕ → Dict String (List ℕ) → (String → List ℕ) → ℕ → Type 0
Holds w d log clock = (k : String) → Tracks w (bucket k d) (log k) clock

-- The log with one more failure under `k`.
abbrev pub logged : String → ℕ → (String → List ℕ) → String → List ℕ
logged k now log j = if k == j then log j ++ now ∷ [] else log j

pub prune-Holds :
    (w : ℕ) (d : Dict String (List ℕ)) (log : String → List ℕ) (clock now : ℕ) (k : String)
    → Holds w d log clock
    → clock ≤ now
    → Holds w (put k (prune w now (bucket k d)) d) log now
prune-Holds w d log clock now k h le j = elim (Bool-cases (k == j)) [
  | inl same ↦
      let e = (eq_iff k j).0 same in
      rw (bucket-put k j (prune w now (bucket k d)) d, same)
        (subst (λ i. Tracks w (prune w now (bucket i d)) (log j) now) (sym e)
          (prune-Tracks w (bucket j d) (log j) clock now (h j) le))
  | inr other ↦
      rw (bucket-put k j (prune w now (bucket k d)) d, other)
        (wait-Tracks w (bucket j d) (log j) clock now (h j) le)
]

pub append-Holds :
    (w : ℕ) (d : Dict String (List ℕ)) (log : String → List ℕ) (clock now : ℕ) (k : String)
    → 0 < w
    → Holds w d log clock
    → clock ≤ now
    → let d' = put k (prune w now (bucket k d)) d in
      Holds w (put k (bucket k d' ++ now ∷ []) d') (logged k now log) now
append-Holds w d log clock now k p h le j =
    let d' = put k (prune w now (bucket k d)) d in
    let self : bucket k d' ≡ prune w now (bucket k d) =
      rw (bucket-put k k (prune w now (bucket k d)) d, same_refl string_eq k) in
    elim (Bool-cases (k == j)) [
      | inl same ↦
          rw (bucket-put k j (bucket k d' ++ now ∷ []) d', same, self)
            (subst (λ i. Tracks w (prune w now (bucket i d) ++ now ∷ []) (log j ++ now ∷ []) now)
              (sym ((eq_iff k j).0 same))
              (append-Tracks w (bucket j d) (log j) clock now p (h j) le))
      | inr other ↦
          rw (bucket-put k j (bucket k d' ++ now ∷ []) d', other)
            (prune-Holds w d log clock now k h le j)
    ]

pub bucket-prune :
    (w : ℕ) (d : Dict String (List ℕ)) (log : String → List ℕ) (clock now : ℕ) (k : String)
    → Holds w d log clock
    → clock ≤ now
    → bucket k (put k (prune w now (bucket k d)) d) ≡ recent w now (log k)
bucket-prune w d log clock now k h le =
    rw (bucket-put k k (prune w now (bucket k d)) d, same_refl string_eq k)
      (prune-recent w (bucket k d) (log k) clock now (h k) le)

pub bucket-empty : (k : String) → bucket k [] ≡ []
unfolding bucket get
bucket-empty k = refl
