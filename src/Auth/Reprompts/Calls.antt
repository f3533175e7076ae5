-- ===== src/Auth/Reprompts/Calls.antt =====
-- app/auth/reprompts.py: sequences of calls on the store, and what each does to one grant.
use text.Mathlib.TextEquality.{eq_iff}
use restream_plus.Base.Dict.{
  IsUnique, get-put, put-IsUnique, get-remove, remove-IsUnique, get, Dict, remove,
}
use restream_plus.Auth.Reprompts.{
  prune_expired, expired, issue, pop_all, RepromptStore, consume, RepromptScope, RepromptGrant,
  RepromptError,
}
use restream_plus.Base.{
  ℕ, String, List, ◌≤◌, ◌==◌, ◌≡◌, if◌then◌else◌, [], any, none, string_eq, refl, ◌+◌, Result, ◌∷◌,
  Bool, false, true, arith, ok, err, some, leb,
}

-- `any` over the ids that `prune_expired` collects finds exactly the grants that have run out.
expired-mem :
    (ttl now : ℕ) (k : String) (d : Dict String RepromptGrant)
    → IsUnique d
    → any (λ j. j == k) (expired ttl now d)
      ≡ (elim (get k d) [ none ↦ false | some g ↦ leb (g.issued_at + ttl) now ])
unfolding expired get
expired-mem ttl now k [] u = refl
expired-mem ttl now k ((j, g) ∷ d) u = ground (arith, expired-mem ttl now k d u.1, eq_iff j k)

get-pop_all :
    (k : String) (ks : List String) (d : Dict String RepromptGrant)
    → get k (pop_all ks d) ≡ (if any (λ j. j == k) ks then none else get k d)
unfolding pop_all
get-pop_all k [] d = refl
get-pop_all k (j ∷ ks) d = ground (arith, get-pop_all k ks (remove j d), get-remove j k d)

pop_all-IsUnique :
    (ks : List String) (d : Dict String RepromptGrant) → IsUnique d → IsUnique (pop_all ks d)
unfolding pop_all
pop_all-IsUnique [] d u = u
pop_all-IsUnique (k ∷ ks) d u = pop_all-IsUnique ks (remove k d) (remove-IsUnique k d u)

-- The calls on the store. Other grants may be issued, consumed or pruned between.
pub data Call : Type 0 where
  issued consumed : String → ℕ → String → RepromptScope → Call
  prunes : ℕ → Call

-- A call that raises leaves the store as it was.
after : RepromptStore → Result RepromptError RepromptStore → RepromptStore
after s (ok s') = s'
after s (err e) = s

unfoldable pub apply : RepromptStore → Call → RepromptStore
unfolding after
apply s (issued id now user scope) = after s (issue s id now user scope)
apply s (consumed id now user scope) = (consume s id now user scope).0
apply s (prunes now) = (prune_expired s now).0

unfoldable pub run : RepromptStore → List Call → RepromptStore
run s [] = s
run s (c ∷ cs) = run (apply s c) cs

abbrev pub Between : ℕ → List Call → ℕ → Type 0
Between start [] end = start ≤ end
Between start (issued id now user scope ∷ cs) end = (start ≤ now) × Between now cs end
Between start (consumed id now user scope ∷ cs) end = (start ≤ now) × Between now cs end
Between start (prunes now ∷ cs) end = (start ≤ now) × Between now cs end

-- No other grant gets the same random id.
abbrev pub IsFresh : String → List Call → Type 0
IsFresh k [] = Unit {0}
IsFresh k (issued id now user scope ∷ cs) = ((id == k) ≡ false) × IsFresh k cs
IsFresh k (consumed id now user scope ∷ cs) = IsFresh k cs
IsFresh k (prunes now ∷ cs) = IsFresh k cs

-- Nobody has tried to consume the grant, with the right user and scope or others.
abbrev pub untouched : String → List Call → Bool
untouched k [] = true
untouched k (issued id now user scope ∷ cs) = untouched k cs
untouched k (consumed id now user scope ∷ cs) =
    let rest = untouched k cs in if id == k then false else rest
untouched k (prunes now ∷ cs) = untouched k cs

-- What the store holds under `k` after one call.
pub get-issued :
    (s : RepromptStore) (k id : String) (now : ℕ) (user : String) (scope : RepromptScope)
    → (id == k) ≡ false
    → get k (apply s (issued id now user scope)).grants ≡ get k s.grants
unfolding apply issue
get-issued s k id now user scope h =
    ground
      (arith, h, get-put id k (record { user_id = user; scope = scope; issued_at = now }) s.grants)

pub get-consumed :
    (s : RepromptStore) (k id : String) (now : ℕ) (user : String) (scope : RepromptScope)
    → get k (apply s (consumed id now user scope)).grants
      ≡ (if id == k then none else get k s.grants)
unfolding apply consume
get-consumed s k id now user scope = get-remove id k s.grants

pub get-prunes :
    (s : RepromptStore) (k : String) (now : ℕ)
    → IsUnique s.grants
    → get k (apply s (prunes now)).grants ≡ (
        if elim (get k s.grants) [ none ↦ false | some g ↦ leb (g.issued_at + s.ttl) now ]
        then none
        else get k s.grants)
unfolding apply prune_expired
get-prunes s k now u =
    rw (get-pop_all k (expired s.ttl now s.grants) s.grants, expired-mem s.ttl now k s.grants u)

pub apply-IsUnique :
    (s : RepromptStore) (c : Call) → IsUnique s.grants → IsUnique (apply s c).grants
unfolding apply issue consume prune_expired
apply-IsUnique s (issued id now user scope) u =
    ground (
      arith,
      put-IsUnique id (record { user_id = user; scope = scope; issued_at = now }) s.grants u,
    )
apply-IsUnique s (consumed id now user scope) u = remove-IsUnique id s.grants u
apply-IsUnique s (prunes now) u = pop_all-IsUnique (expired s.ttl now s.grants) s.grants u

pub apply-ttl : (s : RepromptStore) (c : Call) → (apply s c).ttl ≡ s.ttl
unfolding apply issue consume prune_expired
apply-ttl s (issued id now user scope) = ground arith
apply-ttl s (consumed id now user scope) = refl
apply-ttl s (prunes now) = refl

pub Between-le : (start : ℕ) (cs : List Call) (end : ℕ) → Between start cs end → start ≤ end
Between-le start [] end b = b
Between-le start (issued id now user scope ∷ cs) end b =
    omega (arith, b.0, Between-le now cs end b.1)
Between-le start (consumed id now user scope ∷ cs) end b =
    omega (arith, b.0, Between-le now cs end b.1)
Between-le start (prunes now ∷ cs) end b = omega (arith, b.0, Between-le now cs end b.1)
