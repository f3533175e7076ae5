-- ===== src/Auth/Reprompts.antt =====
-- app/auth/reprompts.py: `RepromptStore`, the single-use grants for sensitive actions. The random
-- grant id of `secrets.token_urlsafe` and the reading of the monotonic clock, a number of
-- microseconds, are arguments of `issue`.
pub mod Calls
pub mod SingleUse
use restream_plus.Base.Dict.{Dict, remove, get, put}
use restream_plus.Base.{
  ℕ, eqb, Eq, String, Result, List, length, [], ◌≡◌, if◌then◌else◌, Option, Bool, ◌∷◌, true, leb,
  ◌==◌, false, ◌↔◌, err, some, ◌+◌, arith, ok, ◌&&◌, string_eq, none,
}

pub data RepromptScope : Type 0 where
  reveal_stream_key regenerate_ingest_key rotate_passphrase change_password delete_target
        revoke_api_token clear_credential reveal_ingest_key :
      RepromptScope

abbrev scope_index : RepromptScope → ℕ
scope_index reveal_stream_key = 0
scope_index regenerate_ingest_key = 1
scope_index rotate_passphrase = 2
scope_index change_password = 3
scope_index delete_target = 4
scope_index revoke_api_token = 5
scope_index clear_credential = 6
scope_index reveal_ingest_key = 7

pub scope_same_iff : (s t : RepromptScope) → (eqb (scope_index s) (scope_index t) ≡ true) ↔ (s ≡ t)
scope_same_iff s t = ground arith

instance abbrev pub scope_eq : Eq RepromptScope
scope_eq = record { same = λ s t. eqb (scope_index s) (scope_index t); same_iff = scope_same_iff }

pub record RepromptGrant : Type 0 where
  pub user_id : String
  pub scope : RepromptScope
  pub issued_at : ℕ

pub record RepromptStore : Type 0 where
  pub ttl : ℕ
  pub grants : Dict String RepromptGrant

abbrev pub reprompt_grant_ttl : ℕ
reprompt_grant_ttl = 60_000_000

pub data RepromptError : Type 0 where
  bad_ttl empty_user_id : RepromptError

unfoldable pub new : ℕ → Result RepromptError RepromptStore
new ttl = if leb ttl 0 then err bad_ttl else ok (record { ttl = ttl; grants = [] })

unfoldable pub issue :
    RepromptStore → String → ℕ → String → RepromptScope → Result RepromptError RepromptStore
issue s grant_id now user_id scope =
    if user_id == ""
    then err empty_user_id
    else ok (record s {
      grants = put grant_id (record { user_id = user_id; scope = scope; issued_at = now }) s.grants;
    })

-- `now - issued_at >= ttl` is written with no subtraction. The grant is popped whatever the answer.
unfoldable pub answers : ℕ → ℕ → String → RepromptScope → Option RepromptGrant → Bool
answers ttl now user_id scope none = false
answers ttl now user_id scope (some g) =
    if leb (g.issued_at + ttl) now then false else (g.user_id == user_id) && (g.scope == scope)

unfoldable pub consume : RepromptStore → String → ℕ → String → RepromptScope → RepromptStore × Bool
unfolding answers
consume s grant_id now user_id scope = (
  record s { grants = remove grant_id s.grants },
  answers s.ttl now user_id scope (get grant_id s.grants),
)

-- The ids of the grants that have run out.
unfoldable pub expired : ℕ → ℕ → Dict String RepromptGrant → List String
expired ttl now [] = []
expired ttl now ((k, g) ∷ d) =
    let rest = expired ttl now d in if leb (g.issued_at + ttl) now then k ∷ rest else rest

unfoldable pub pop_all : List String → Dict String RepromptGrant → Dict String RepromptGrant
pop_all [] d = d
pop_all (k ∷ ks) d = pop_all ks (remove k d)

unfoldable pub prune_expired : RepromptStore → ℕ → RepromptStore × ℕ
unfolding expired pop_all
prune_expired s now =
    let gone = expired s.ttl now s.grants in
    (record s { grants = pop_all gone s.grants }, length gone)

unfoldable pub reset : RepromptStore → RepromptStore
reset s = record s { grants = [] }
