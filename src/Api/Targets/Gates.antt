-- ===== src/Api/Targets/Gates.antt =====
-- app/api/targets.py: what the handlers that need a grant do without one.
use restream_plus.Api.Targets.{
  Desk, Caller, TargetApiError, open_key, reprompt_required, reprompt_invalid_or_expired,
}
use restream_plus.Api.Targets.Handlers.{
  delete_granted, reveal_granted, clear_granted, take_grant, delete_target, reveal_credential,
  clear_credential,
}
use restream_plus.Auth.KeyMaterial.{Bytes}
use restream_plus.Auth.Reprompts as Grants
use restream_plus.Auth.Reprompts.{RepromptScope, consume, answers}
use restream_plus.Crypto.Aead.{Aes}
use restream_plus.Repositories.Credentials.{get_for_target, delete_for_target}
use restream_plus.Repositories.Targets as Rows
use restream_plus.Repositories.Targets.{get_by_id}
use restream_plus.Base.Dict.{get-remove}
use restream_plus.Base.Texts.{Text}
use restream_plus.Base.{
  ℕ, String, true, false, Option, none, some, err, string_eq, ◌≡◌, refl, same_refl, ◌==◌, Result,
  Option-cases, inl, inr, Bool-cases, Result-cases,
}

-- Only the grants differ.
pub record IsReserved {Workers : Type 0} (s s' : Desk Workers) : Type 0 where
  pub same_targets : s'.targets ≡ s.targets
  pub same_credentials : s'.credentials ≡ s.credentials
  pub same_workers : s'.workers ≡ s.workers
  pub same_audit : s'.audit ≡ s.audit

-- The caller brings a grant of the scope that has not run out and is its own.
pub record HasGrant {Workers : Type 0} (scope : RepromptScope) (who : Caller) (s : Desk Workers)
    : Type 0 where
  pub grant_id : String
  pub brought : who.x_reprompt_grant ≡ some grant_id
  pub valid : (consume s.reprompts grant_id who.monotonic who.user_id scope).1 ≡ true

-- A handler behind a guard: refused with nothing done, or done on a grant that no later call is granted.
pub data IsGated {Workers A : Type 0} (scope : RepromptScope) (who : Caller) (s s' : Desk Workers)
    : Result TargetApiError A → Type 0 where
  unasked : IsReserved s s' → IsGated scope who s s' (err reprompt_required)
  refused : IsReserved s s' → IsGated scope who s s' (err reprompt_invalid_or_expired)
  granted :
      {answer : Result TargetApiError A} (grant : HasGrant scope who s)
      → ((now : ℕ) (user_id : String) (other : RepromptScope)
          → (consume s'.reprompts grant.grant_id now user_id other).1 ≡ false)
      → IsGated scope who s s' answer

consume_again :
    (store : Grants.RepromptStore) (grant_id user user' : String) (now now' : ℕ)
    (scope scope' : RepromptScope)
    → (consume (consume store grant_id now user scope).0 grant_id now' user' scope').1 ≡ false
unfolding consume answers
consume_again store grant_id user user' now now' scope scope' =
    rw (get-remove grant_id grant_id store.grants, same_refl string_eq grant_id) refl

module _ {Workers : Type 0} (enable_target disable_target : String → Workers → Workers) where
  pub take_grant-granted :
      (scope : RepromptScope) (grant_id : String) (who : Caller) (s : Desk Workers)
      → who.x_reprompt_grant ≡ some grant_id
      → (grant_id == "") ≡ false
      → (consume s.reprompts grant_id who.monotonic who.user_id scope).1 ≡ true
      → take_grant enable_target disable_target scope who s ≡ (
        record s { reprompts = (consume s.reprompts grant_id who.monotonic who.user_id scope).0 },
        none,
      )
  unfolding take_grant
  take_grant-granted scope grant_id who s asks given valid =
      rw (take_grant, asks, given, valid) refl

  delete_store :
      (target_id : String) (s : Desk Workers)
      → (delete_granted enable_target disable_target target_id s).0.reprompts ≡ s.reprompts
  unfolding delete_granted
  delete_store target_id s = elim (Option-cases (get_by_id target_id s.targets)) [
    | inl gone ↦ rw (delete_granted, gone) refl
    | inr (row, here) ↦ elim (Bool-cases (Rows.delete target_id s.targets s.credentials).2) [
      | inl deleted ↦ rw (delete_granted, here, deleted) refl
      | inr raced ↦ rw (delete_granted, here, raced) refl
    ]
  ]

  clear_store :
      (target_id : String) (s : Desk Workers)
      → (clear_granted enable_target disable_target target_id s).0.reprompts ≡ s.reprompts
  unfolding clear_granted
  clear_store target_id s = elim (Option-cases (get_by_id target_id s.targets)) [
    | inl gone ↦ rw (clear_granted, gone) refl
    | inr (row, here) ↦ elim (Bool-cases (delete_for_target target_id s.credentials).1) [
      | inl removed ↦ rw (clear_granted, here, removed) refl
      | inr absent ↦ rw (clear_granted, here, absent) refl
    ]
  ]

  reveal_store :
      (aes : Aes) (kek : Bytes) (encode_utf8 : Text → Bytes) (decode_utf8 : Bytes → Option Text)
      (target_id : String) (s : Desk Workers)
      → (reveal_granted enable_target disable_target aes kek encode_utf8 decode_utf8 target_id
          s).0.reprompts
        ≡ s.reprompts
  unfolding reveal_granted
  reveal_store aes kek encode_utf8 decode_utf8 target_id s =
      elim (Option-cases (get_by_id target_id s.targets)) [
        | inl gone ↦ rw (reveal_granted, gone) refl
        | inr (row, here) ↦ elim (Option-cases (get_for_target target_id s.credentials)) [
          | inl bare ↦ rw (reveal_granted, here, bare) refl
          | inr ((id, cred), there) ↦
              elim (Result-cases (open_key aes kek encode_utf8 decode_utf8 cred)) [
                | inl (plaintext, opens) ↦ rw (reveal_granted, here, there, opens) refl
                | inr (e, fails) ↦ rw (reveal_granted, here, there, fails) refl
              ]
        ]
      ]

  -- A handler that does what it does behind the guard only.
  handler-IsGated :
      {A : Type 0} (scope : RepromptScope) (who : Caller) (s : Desk Workers)
      (done : Desk Workers × Result TargetApiError A)
      → ((s1 : Desk Workers) (e : TargetApiError)
          → take_grant enable_target disable_target scope who s ≡ (s1, some e)
          → done ≡ (s1, err e))
      → ((s1 : Desk Workers)
          → take_grant enable_target disable_target scope who s ≡ (s1, none)
          → done.0.reprompts ≡ s1.reprompts)
      → IsGated scope who s done.0 done.1
  unfolding take_grant
  handler-IsGated scope who s done stops keeps = elim (Option-cases who.x_reprompt_grant) [
    | inl missing ↦ rw (stops s reprompt_required (rw (take_grant, missing) refl)) (
        unasked (record {
          same_targets = refl;
          same_credentials = refl;
          same_workers = refl;
          same_audit = refl;
        }))
    | inr (grant_id, asks) ↦
        let (store, valid) = consume s.reprompts grant_id who.monotonic who.user_id scope in
        let s1 : Desk Workers = record s { reprompts = store } in
        elim (Bool-cases (grant_id == "")) [
          | inl blank ↦ rw (stops s reprompt_required (rw (take_grant, asks, blank) refl)) (
              unasked (record {
                same_targets = refl;
                same_credentials = refl;
                same_workers = refl;
                same_audit = refl;
              }))
          | inr given ↦ elim (Bool-cases valid) [
            | inr invalid ↦
                rw
                  (stops s1 reprompt_invalid_or_expired
                    (rw (take_grant, asks, given, invalid) refl))
                  (refused (record {
                    same_targets = refl;
                    same_credentials = refl;
                    same_workers = refl;
                    same_audit = refl;
                  }))
            | inl ok_grant ↦
                let same = keeps s1 (take_grant-granted scope grant_id who s asks given ok_grant) in
                granted (record { grant_id = grant_id; brought = asks; valid = ok_grant })
                  (λ now user_id other. rw same (
                    consume_again s.reprompts grant_id who.user_id user_id who.monotonic now scope
                      other))
          ]
        ]
  ]

  -- Deleting a target, revealing its stream key and clearing it each need a grant for that very action that is the
  -- caller's own and has not run out: without one, the answer is an error and no target, credential,
  -- worker or entry of the audit log changes; with one, no later call is granted anything on it.
  pub protected_handlers :
      (aes : Aes) (kek : Bytes) (encode_utf8 : Text → Bytes) (decode_utf8 : Bytes → Option Text)
      (target_id : String) (who : Caller) (s : Desk Workers)
      → let (s1, deleted) = delete_target enable_target disable_target target_id who s in
        let (s2, revealed) =
          reveal_credential enable_target disable_target aes kek encode_utf8 decode_utf8 target_id
            who s in
        let (s3, cleared) = clear_credential enable_target disable_target target_id who s in
        IsGated Grants.delete_target who s s1 deleted
        × IsGated Grants.reveal_stream_key who s s2 revealed
        × IsGated Grants.clear_credential who s s3 cleared
  unfolding delete_target reveal_credential clear_credential
  protected_handlers aes kek encode_utf8 decode_utf8 target_id who s = (
    handler-IsGated Grants.delete_target who s
        (delete_target enable_target disable_target target_id who s)
        (λ s1 e q. rw (delete_target, q, q) refl)
        (λ s1 q. rw (delete_target, q, q) (delete_store target_id s1)),
    handler-IsGated Grants.reveal_stream_key who s
        (reveal_credential enable_target disable_target aes kek encode_utf8 decode_utf8 target_id
          who s)
        (λ s1 e q. rw (reveal_credential, q, q) refl)
        (λ s1 q.
          rw (reveal_credential, q, q) (reveal_store aes kek encode_utf8 decode_utf8 target_id s1)),
    handler-IsGated Grants.clear_credential who s
        (clear_credential enable_target disable_target target_id who s)
        (λ s1 e q. rw (clear_credential, q, q) refl)
        (λ s1 q. rw (clear_credential, q, q) (clear_store target_id s1)),
  )
