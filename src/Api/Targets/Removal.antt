-- ===== src/Api/Targets/Removal.antt =====
-- app/api/targets.py with app/fanout/supervisor.py: a target that is deleted.
use restream_plus.Api.Targets.{Desk, Caller}
use restream_plus.Api.Targets.Handlers.{take_grant, delete_target, delete_granted}
use restream_plus.Auth.Reprompts as Grants
use restream_plus.Fanout.Supervisor.{Supervisor}
use restream_plus.Fanout.Supervisor.Agreement.{IsAgreed}
use restream_plus.Fanout.Supervisor.Clearing.{IsCleared, tear_down-IsCleared}
use restream_plus.Fanout.Supervisor.Runs as Control
use restream_plus.Repositories.Credentials.{get_for_target}
use restream_plus.Repositories.Credentials.Lookup.{without_target-clears}
use restream_plus.Repositories.Targets as Rows
use restream_plus.Repositories.Targets.{get_by_id}
use restream_plus.Base.Dict.{get-remove}
use restream_plus.Base.{
  String, true, false, none, ok, ◌≡◌, refl, string_eq, Option-cases, ◌==◌, inl, inr, ◌∙◌, same_refl,
  ap, Bool-cases,
}

-- Nothing of the target is left, and nothing of any other is touched.
pub record IsRemoved (target_id : String) (s s' : Desk Supervisor) : Type 0 where
  pub no_target : get_by_id target_id s'.targets ≡ none
  pub no_credential : get_for_target target_id s'.credentials ≡ none
  pub other_targets :
      (id : String) → (target_id == id) ≡ false → get_by_id id s'.targets ≡ get_by_id id s.targets
  pub cleared : IsCleared (λ j. j.target_id == target_id) s.workers s'.workers

module _ (enable_target : String → Supervisor → Supervisor) where
  take_grant_keeps :
      (scope : Grants.RepromptScope) (who : Caller) (s : Desk Supervisor)
      → let s1 = (take_grant enable_target Control.disable_target scope who s).0 in
        (s1.targets ≡ s.targets) × (s1.workers ≡ s.workers)
  unfolding take_grant
  take_grant_keeps scope who s = elim (Option-cases who.x_reprompt_grant) [
    | inl missing ↦ rw (take_grant, missing) (refl, refl)
    | inr (grant_id, asks) ↦ elim (Bool-cases (grant_id == "")) [
      | inl blank ↦ rw (take_grant, asks, blank) (refl, refl)
      | inr given ↦
          elim (Bool-cases
            (Grants.consume s.reprompts grant_id who.monotonic who.user_id scope).1) [
              | inl valid ↦ rw (take_grant, asks, given, valid) (refl, refl)
              | inr invalid ↦ rw (take_grant, asks, given, invalid) (refl, refl)
            ]
    ]
  ]

  delete_granted-IsRemoved :
      (target_id : String) (s s0 : Desk Supervisor)
      → s.targets ≡ s0.targets
      → s.workers ≡ s0.workers
      → IsAgreed s0.workers
      → (delete_granted enable_target Control.disable_target target_id s).1 ≡ ok tt
      → IsRemoved target_id s0 (delete_granted enable_target Control.disable_target target_id s).0
  unfolding delete_granted Rows.delete Control.disable_target
  delete_granted-IsRemoved target_id s s0 targets_are workers_are agreed done =
      elim (Option-cases (get_by_id target_id s.targets)) [
        | inl gone ↦ cc (rw (delete_granted, gone) at done)
        | inr (row, here) ↦
            let deleted : (Rows.delete target_id s.targets s.credentials).2 ≡ true = rw here refl in
            rw (delete_granted, here, deleted)
              (record {
                no_target =
                    get-remove target_id target_id s.targets
                    ∙ rw (same_refl string_eq target_id) refl;
                no_credential = without_target-clears target_id s.credentials;
                other_targets = λ id other.
                    get-remove target_id id s.targets ∙ (rw other (ap (get_by_id id) targets_are));
                cleared = rw workers_are (tear_down-IsCleared target_id s0.workers agreed);
              })
      ]

  -- When a deletion succeeds, on a supervisor whose tables agree, the target's row and its credential are gone and so are
  -- exactly the workers of this target; the rows of other targets are as before.
  pub delete_target-IsRemoved :
      (target_id : String) (who : Caller) (s : Desk Supervisor)
      → IsAgreed s.workers
      → let (s', answer) = delete_target enable_target Control.disable_target target_id who s in
        answer ≡ ok tt → IsRemoved target_id s s'
  unfolding delete_target
  delete_target-IsRemoved target_id who s agreed =
      elim (Option-cases
        (take_grant enable_target Control.disable_target Grants.delete_target who s).1) [
          | inr (e, q) ↦ λ done. cc (rw (delete_target, q) at done)
          | inl passes ↦ λ done.
              let (targets_are, workers_are) = take_grant_keeps Grants.delete_target who s in
              rw (delete_target, passes)
                (delete_granted-IsRemoved target_id _ s targets_are workers_are agreed
                  (rw (delete_target, passes) at done))
        ]
