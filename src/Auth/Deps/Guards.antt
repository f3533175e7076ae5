-- ===== src/Auth/Deps/Guards.antt =====
-- app/auth/deps.py: what its guards ask for.
use restream_plus.Auth.Sessions.{Providers}
use restream_plus.Base.Dict.{get, get-remove}
use restream_plus.Auth.Deps.{
  AuthenticatedRequest, authenticate, require_reprompt_grant, require_unlocked_keys, GuardedRequest,
  Tables, AuthState, is_unlocking,
}
use restream_plus.Auth.KeyMaterial.{require_ready, KeyMaterial, DerivedKeys}
use restream_plus.Auth.Reprompts.{
  consume, answers, scope_eq, RepromptGrant, RepromptScope, RepromptStore,
}
use restream_plus.Base.{
  ℕ, string_eq, refl, ◌≡◌, true, Option-cases, ◌<◌, inl, ◌+◌, inr, Bool-cases, ◌==◌, String, some,
  ok, none, arith, ◌∙◌, Result-cases, same_refl, Option,
}

-- A grant that is in the store for this user and scope, still valid, and gone afterwards.
record Granted (scope : RepromptScope) (user_id : String) (header : Option String) (now : ℕ)
    (before after : RepromptStore) : Type 0 where
  grant_id : String
  grant : RepromptGrant
  given : header ≡ some grant_id
  held : get grant_id before.grants ≡ some grant
  of_user : grant.user_id ≡ user_id
  of_scope : grant.scope ≡ scope
  in_time : now < grant.issued_at + before.ttl
  used_up : get grant_id after.grants ≡ none

consume-Granted :
    (scope : RepromptScope) (user_id grant_id : String) (now : ℕ) (store : RepromptStore)
    → (consume store grant_id now user_id scope).1 ≡ true
    → Granted scope user_id (some grant_id) now store (consume store grant_id now user_id scope).0
unfolding consume answers
consume-Granted scope user_id grant_id now store h =
    elim (Option-cases (get grant_id store.grants)) [
      | inl n ↦ cc (rw (n, consume) at h)
      | inr (g, q) ↦
          let fits = rw (q, consume) at h in
          record {
            grant_id = grant_id;
            grant = g;
            given = refl;
            held = q;
            of_user = (string_eq.same_iff g.user_id user_id).0 (ground (arith, fits));
            of_scope = (scope_eq.same_iff g.scope scope).0 (ground (arith, fits));
            in_time = ground (arith, fits);
            used_up =
                get-remove grant_id grant_id store.grants ∙ rw (same_refl string_eq grant_id) refl;
          }
    ]

require_reprompt_grant-Granted :
    (scope : RepromptScope) (auth auth' : AuthenticatedRequest) (r : GuardedRequest)
    (store : RepromptStore)
    → (require_reprompt_grant scope auth r store).1 ≡ ok auth'
    → Granted scope auth.user.id r.x_reprompt_grant r.monotonic store
        (require_reprompt_grant scope auth r store).0
unfolding require_reprompt_grant
require_reprompt_grant-Granted scope auth auth' r store h = elim (Option-cases r.x_reprompt_grant) [
  | inl n ↦ cc (rw (n, require_reprompt_grant) at h)
  | inr (grant_id, q) ↦ elim (Bool-cases (grant_id == "")) [
    | inl empty ↦ cc (rw (q, empty, require_reprompt_grant) at h)
    | inr named ↦ elim (Bool-cases (consume store grant_id r.monotonic auth.user.id scope).1) [
      | inl granted ↦
          rw (q, named, granted, require_reprompt_grant)
            (consume-Granted scope auth.user.id grant_id r.monotonic store granted)
      | inr refused ↦ cc (rw (q, named, refused, require_reprompt_grant) at h)
    ]
  ]
]

require_unlocked_keys-ready :
    (k : KeyMaterial) (keys : DerivedKeys)
    → require_unlocked_keys k ≡ ok keys
    → require_ready k ≡ ok keys
unfolding require_unlocked_keys
require_unlocked_keys-ready k keys h = elim (Bool-cases (is_unlocking k.state)) [
  | inl busy ↦ cc (rw (busy, require_unlocked_keys) at h)
  | inr idle ↦ elim (Result-cases (require_ready k)) [
    | inl (found, q) ↦ cc (q, rw (idle, q, require_unlocked_keys) at h)
    | inr (e, q) ↦ cc (rw (idle, q, require_unlocked_keys) at h)
  ]
]

authenticate-unlocked :
    (p : Providers) (r : GuardedRequest) (a : AuthState) (t : Tables) (auth : AuthenticatedRequest)
    → (authenticate p r a t).1 ≡ ok auth
    → (keys : DerivedKeys) × (require_ready a.key_material ≡ ok keys)
unfolding authenticate
authenticate-unlocked p r a t auth h = elim (Result-cases (require_unlocked_keys a.key_material)) [
  | inl (keys, q) ↦ (keys, require_unlocked_keys-ready a.key_material keys q)
  | inr (e, q) ↦ cc (rw (q, authenticate) at h)
]
