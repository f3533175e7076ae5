-- ===== src/Auth/Reprompts/SingleUse.antt =====
-- app/auth/reprompts.py: a grant is good once, for its user and scope, and for its time.
use text.Mathlib.TextEquality.{eq_iff}
use mathlib.Core.Path.{subst}
use restream_plus.Base.Dict.{IsUnique, get, get-put, put-IsUnique, put}
use restream_plus.Auth.Reprompts.{
  issue, RepromptStore, RepromptGrant, RepromptScope, new, answers, consume, scope_same_iff,
}
use restream_plus.Auth.Reprompts.Calls.{
  run, Call, IsFresh, apply, issued, untouched, apply-IsUnique, get-issued, apply-ttl, consumed,
  Between, get-consumed, prunes, get-prunes, Between-le,
}
use restream_plus.Base.{
  ℕ, ◌≡◌, string_eq, ◌⊎◌, ◌∙◌, [], inr, refl, ◌<◌, Bool-cases, ◌==◌, ◌+◌, inl, String, List, none,
  some, ◌∷◌, ok, true, arith, leb, ◌↔◌, sym, same_refl,
}

stays_gone :
    (s : RepromptStore) (k : String) (cs : List Call)
    → get k s.grants ≡ none
    → IsFresh k cs
    → IsUnique s.grants
    → get k (run s cs).grants ≡ none
unfolding run
stays_gone s k [] e f u = e
stays_gone s k (issued id now user scope ∷ cs) e f u =
    stays_gone (apply s (issued id now user scope)) k cs (get-issued s k id now user scope f.0 ∙ e)
      f.1 (apply-IsUnique s (issued id now user scope) u)
stays_gone s k (consumed id now user scope ∷ cs) e f u =
    stays_gone (apply s (consumed id now user scope)) k cs
      (ground (arith, get-consumed s k id now user scope)) f
      (apply-IsUnique s (consumed id now user scope) u)
stays_gone s k (prunes now ∷ cs) e f u =
    stays_gone (apply s (prunes now)) k cs (ground (arith, get-prunes s k now u)) f
      (apply-IsUnique s (prunes now) u)

-- A grant that nobody has tried to consume is held while it has not run out.
stays_held :
    (s : RepromptStore) (k : String) (g : RepromptGrant) (cs : List Call) (start end : ℕ)
    → get k s.grants ≡ some g
    → IsFresh k cs
    → IsUnique s.grants
    → untouched k cs ≡ true
    → Between start cs end
    → end < g.issued_at + s.ttl
    → get k (run s cs).grants ≡ some g
unfolding run
stays_held s k g [] start end e f u t b h = e
stays_held s k g (issued id now user scope ∷ cs) start end e f u t b h =
    stays_held (apply s (issued id now user scope)) k g cs now end
      (get-issued s k id now user scope f.0 ∙ e) f.1 (apply-IsUnique s (issued id now user scope) u)
      t b.1 (rw (apply-ttl s (issued id now user scope)) h)
stays_held s k g (consumed id now user scope ∷ cs) start end e f u t b h =
    stays_held (apply s (consumed id now user scope)) k g cs now end
      (ground (arith, get-consumed s k id now user scope)) f
      (apply-IsUnique s (consumed id now user scope) u) (ground arith) b.1
      (rw (apply-ttl s (consumed id now user scope)) h)
stays_held s k g (prunes now ∷ cs) start end e f u t b h =
    stays_held (apply s (prunes now)) k g cs now end
      (ground (arith, get-prunes s k now u, Between-le now cs end b.1)) f
      (apply-IsUnique s (prunes now) u) t b.1 (rw (apply-ttl s (prunes now)) h)

-- Otherwise it is held as it was issued, or gone; and gone after any attempt to consume it.
held_or_gone :
    (s : RepromptStore) (k : String) (g : RepromptGrant) (cs : List Call)
    → get k s.grants ≡ some g
    → IsFresh k cs
    → IsUnique s.grants
    → (get k (run s cs).grants ≡ none)
      ⊎ ((get k (run s cs).grants ≡ some g) × (untouched k cs ≡ true))
unfolding run
held_or_gone s k g [] e f u = inr (e, refl)
held_or_gone s k g (issued id now user scope ∷ cs) e f u =
    held_or_gone (apply s (issued id now user scope)) k g cs
      (get-issued s k id now user scope f.0 ∙ e) f.1 (apply-IsUnique s (issued id now user scope) u)
held_or_gone s k g (consumed id now user scope ∷ cs) e f u = elim (Bool-cases (id == k)) [
  | inl same ↦ inl (
      stays_gone (apply s (consumed id now user scope)) k cs
        (ground (arith, get-consumed s k id now user scope)) f
        (apply-IsUnique s (consumed id now user scope) u))
  | inr other ↦ rw other (
      held_or_gone (apply s (consumed id now user scope)) k g cs
        (ground (arith, get-consumed s k id now user scope)) f
        (apply-IsUnique s (consumed id now user scope) u))
]
held_or_gone s k g (prunes now ∷ cs) e f u = elim (Bool-cases (leb (g.issued_at + s.ttl) now)) [
  | inl over ↦ inl (
      stays_gone (apply s (prunes now)) k cs (ground (arith, get-prunes s k now u)) f
        (apply-IsUnique s (prunes now) u))
  | inr live ↦
      held_or_gone (apply s (prunes now)) k g cs (ground (arith, get-prunes s k now u)) f
        (apply-IsUnique s (prunes now) u)
]

run-IsUnique : (s : RepromptStore) (cs : List Call) → IsUnique s.grants → IsUnique (run s cs).grants
unfolding run
run-IsUnique s [] u = u
run-IsUnique s (c ∷ cs) u = run-IsUnique (apply s c) cs (apply-IsUnique s c u)

run-ttl : (s : RepromptStore) (cs : List Call) → (run s cs).ttl ≡ s.ttl
unfolding run
run-ttl s [] = refl
run-ttl s (c ∷ cs) = run-ttl (apply s c) cs ∙ apply-ttl s c

grants_empty : (ttl : ℕ) (s : RepromptStore) → new ttl ≡ ok s → s.grants ≡ []
unfolding new
grants_empty ttl s e = ground arith

new_effect : (ttl : ℕ) (s : RepromptStore) → new ttl ≡ ok s → (s.ttl ≡ ttl) × IsUnique s.grants
unfolding new
new_effect ttl s e = (ground arith, subst IsUnique (sym (grants_empty ttl s e)) tt)

issue_effect :
    (s t : RepromptStore) (k : String) (now : ℕ) (user : String) (scope : RepromptScope)
    → issue s k now user scope ≡ ok t
    → (t.ttl ≡ s.ttl)
      × (get k t.grants ≡ some (record { user_id = user; scope = scope; issued_at = now }))
      × (IsUnique s.grants → IsUnique t.grants)
unfolding issue
issue_effect s t k now user scope e =
    let g : RepromptGrant = record { user_id = user; scope = scope; issued_at = now } in
    let q : t.grants ≡ put k g s.grants = ground arith in
    (
      ground arith,
      rw (q, get-put k k g s.grants, same_refl string_eq k),
      λ u. rw q (put-IsUnique k g s.grants u),
    )

-- The answer of `consume` to a grant that the store still holds.
answers_held :
    (ttl now : ℕ) (user : String) (scope : RepromptScope) (g : RepromptGrant)
    → (answers ttl now user scope (some g) ≡ true)
      ↔ ((g.user_id ≡ user) × (g.scope ≡ scope) × (now < g.issued_at + ttl))
unfolding answers
answers_held ttl now user scope g =
    ground (arith, eq_iff g.user_id user, scope_same_iff g.scope scope)

consume_after :
    (s : RepromptStore) (k : String) (g : RepromptGrant) (cs : List Call) (start now : ℕ)
    (user : String) (scope : RepromptScope)
    → get k s.grants ≡ some g
    → IsFresh k cs
    → IsUnique s.grants
    → Between start cs now
    → ((consume (run s cs) k now user scope).1 ≡ true) ↔ (
        (untouched k cs ≡ true)
        × (g.user_id ≡ user)
        × (g.scope ≡ scope)
        × (now < g.issued_at + s.ttl))
unfolding consume
consume_after s k g cs start now user scope e f u b =
    let h = answers_held s.ttl now user scope g in
    let same = run-ttl s cs in
    elim (held_or_gone s k g cs e f u) [
      | inl gone ↦
          (λ a. cc (rw gone at a), λ a. cc (stays_held s k g cs start now e f u a.0 b a.3, gone))
      | inr (held, clean) ↦
          rw (held, same) (λ a. (clean, (h.0 a).0, (h.0 a).1, (h.0 a).2), λ a. h.1 (a.1, a.2, a.3))
    ]

-- A grant is issued on a store that any calls have led to, and others follow, none of which draws
-- the same random id. Then consuming it succeeds exactly when nobody has tried to consume it before,
-- with whatever user or scope, the user and the scope are those that it was issued for, and less
-- than the time to live has passed. Pruning never takes it away too early.
pub grant_single_use :
    (ttl : ℕ) (s0 t : RepromptStore) (before cs : List Call) (k : String) (at now : ℕ)
    (user user' : String) (scope scope' : RepromptScope)
    → new ttl ≡ ok s0
    → issue (run s0 before) k at user scope ≡ ok t
    → IsFresh k cs
    → Between at cs now
    → ((consume (run t cs) k now user' scope').1 ≡ true)
      ↔ ((untouched k cs ≡ true) × (user ≡ user') × (scope ≡ scope') × (now < at + ttl))
grant_single_use ttl s0 t before cs k at now user user' scope scope' e i f b =
    let start = new_effect ttl s0 e in
    let (same, held, unique) = issue_effect (run s0 before) t k at user scope i in
    let r =
      consume_after t k (record { user_id = user; scope = scope; issued_at = at }) cs at now user'
        scope' held f (unique (run-IsUnique s0 before start.1)) b in
    let q : t.ttl ≡ ttl = same ∙ run-ttl s0 before ∙ start.0 in
    (
      λ a. ((r.0 a).0, (r.0 a).1, (r.0 a).2, omega (arith, (r.0 a).3, q)),
      λ a. r.1 (a.0, a.1, a.2, omega (arith, a.3, q)),
    )
