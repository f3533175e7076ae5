-- ===== src/Base/Window.antt =====
-- Deques of times, oldest first, of which a sliding window keeps the end.
use Prim.Native.Nat.{ℕ, ◌≤◌}
use mathlib.Core.Path.{◌≡◌, refl}
use mathlib.Core.Bool.{Bool, true, false}
use mathlib.Core.List.{List, [], ◌∷◌, ◌++◌}
use native.Mathlib.Omega.{arith}
use restream_plus.Base.Tests.{if◌then◌else◌}
use restream_plus.Base.Lists.{filter, All, IsSorted}

-- `while times and stale(times[0]): times.popleft()`
abbrev pub pop_while : (ℕ → Bool) → List ℕ → List ℕ
pop_while stale [] = []
pop_while stale (t ∷ ts) = let rest = pop_while stale ts in if stale t then rest else t ∷ ts

All-snoc : (t u : ℕ) (ts : List ℕ) → t ≤ u → All (λ v. t ≤ v) ts → All (λ v. t ≤ v) (ts ++ u ∷ [])
All-snoc t u [] h a = (h, tt)
All-snoc t u (v ∷ ts) h a = (a.0, All-snoc t u ts h a.1)

pub IsSorted-snoc :
    (t : ℕ) (ts : List ℕ) → IsSorted ts → All (λ u. u ≤ t) ts → IsSorted (ts ++ t ∷ [])
IsSorted-snoc t [] s a = (tt, tt)
IsSorted-snoc t (u ∷ ts) s a = (All-snoc u t ts a.0 s.0, IsSorted-snoc t ts s.1 a.1)

pub All-le : (t u : ℕ) (ts : List ℕ) → t ≤ u → All (λ v. v ≤ t) ts → All (λ v. v ≤ u) ts
All-le t u [] h a = tt
All-le t u (v ∷ ts) h a = (omega arith, All-le t u ts h a.1)

pub All-le_snoc :
    (t u : ℕ) (ts : List ℕ) → t ≤ u → All (λ v. v ≤ t) ts → All (λ v. v ≤ u) (ts ++ u ∷ [])
All-le_snoc t u [] h a = (omega arith, tt)
All-le_snoc t u (v ∷ ts) h a = (omega arith, All-le_snoc t u ts h a.1)

-- `keep now t`: a time `t` is still inside the window at `now`.
module _ (keep : ℕ → ℕ → Bool)
    (later : (now t u : ℕ) → t ≤ u → keep now t ≡ true → keep now u ≡ true)
    (earlier : (c now t : ℕ) → c ≤ now → keep now t ≡ true → keep c t ≡ true) where
  filter-All :
      (now t : ℕ) (ts : List ℕ)
      → keep now t ≡ true
      → All (λ u. t ≤ u) ts
      → filter (keep now) ts ≡ ts
  filter-All now t [] h a = refl
  filter-All now t (u ∷ ts) h a = ground (arith, later now t u a.0 h, filter-All now t ts h a.1)

  -- On sorted times, popping what is stale from the left is filtering.
  pub pop_while-filter :
      (stale : ℕ → ℕ → Bool) (now : ℕ) (ts : List ℕ)
      → ((t : ℕ) → stale now t ≡ (if keep now t then false else true))
      → IsSorted ts
      → pop_while (stale now) ts ≡ filter (keep now) ts
  pop_while-filter stale now [] n s = refl
  pop_while-filter stale now (t ∷ ts) n s = ground (
    arith,
    n t,
    pop_while-filter stale now ts n s.1,
    λ (h : keep now t ≡ true). filter-All now t ts h s.0,
  )

  pub filter-filter :
      (c now : ℕ) (ts : List ℕ)
      → c ≤ now
      → filter (keep now) (filter (keep c) ts) ≡ filter (keep now) ts
  filter-filter c now [] h = refl
  filter-filter c now (t ∷ ts) h = ground (arith, earlier c now t h, filter-filter c now ts h)

module _ (p : ℕ → Bool) where
  All-filter : (b : ℕ) (ts : List ℕ) → All (λ u. b ≤ u) ts → All (λ u. b ≤ u) (filter p ts)
  All-filter b [] h = tt
  All-filter b (t ∷ ts) h = ground (arith, All-filter b ts h.1)

  pub filter-IsSorted : (ts : List ℕ) → IsSorted ts → IsSorted (filter p ts)
  filter-IsSorted [] s = tt
  filter-IsSorted (t ∷ ts) s = ground (arith, filter-IsSorted ts s.1, All-filter t ts s.0)
