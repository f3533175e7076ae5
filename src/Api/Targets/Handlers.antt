-- ===== src/Api/Targets/Handlers.antt =====
-- app/api/targets.py: the handlers.
use restream_plus.Api.Targets.{
  unknown_type, TargetApiError, Desk, Caller, TargetView, Drawn, CredentialSummary, project_target,
  summary_of, seal_key, open_key, reprompt_required, reprompt_invalid_or_expired, target_not_found,
  credential_not_found, bad_row,
}
use restream_plus.Base.Dict.{Dict}
use restream_plus.Auth.KeyMaterial.{Bytes}
use restream_plus.Auth.Reprompts as Grants
use restream_plus.Auth.Reprompts.{RepromptStore, RepromptScope, consume}
use restream_plus.Crypto.Aead.{Aes}
use restream_plus.Domain.TargetTypes.{lifetime_for}
use restream_plus.Repositories.Credentials.{upsert, get_for_target, delete_for_target}
use restream_plus.Repositories.Rows.{SettingValue, target_type_of}
use restream_plus.Repositories.Targets as Rows
use restream_plus.Repositories.Targets.{Targets, TargetRow, TargetUpdate, get_by_id}
use restream_plus.Base.Texts.{Text}
use restream_plus.Base.{
  String, Bool, Option, none, some, ok, err, [], ◌∷◌, string_eq, if◌then◌else◌, Result, ◌++◌, ◌==◌,
  ◌&&◌, not,
}

module _ {Workers : Type 0} (enable_target disable_target : String → Workers → Workers) where
  abbrev pub Answer : Type 0 → Type 0
  Answer A = Desk Workers × Result TargetApiError A

  -- `audit.append`
  abbrev pub noted : String → String → Desk Workers → Desk Workers
  noted event_type target_id s = record s { audit = s.audit ++ (event_type, target_id) ∷ [] }

  abbrev pub enabling : String → Desk Workers → Desk Workers
  enabling target_id s = record s { workers = enable_target target_id s.workers }

  abbrev pub disabling : String → Desk Workers → Desk Workers
  disabling target_id s = record s { workers = disable_target target_id s.workers }

  -- The guard of the handlers that need a grant: the grants that are left, and the error.
  unfoldable pub take_grant :
      RepromptScope → Caller → Desk Workers → Desk Workers × Option TargetApiError
  take_grant scope who s = elim who.x_reprompt_grant [
    | none ↦ (s, some reprompt_required)
    | some grant_id ↦
        let (store, granted) = consume s.reprompts grant_id who.monotonic who.user_id scope in
        if grant_id == ""
        then (s, some reprompt_required)
        else if granted
        then (record s { reprompts = store }, none)
        else (record s { reprompts = store }, some reprompt_invalid_or_expired)
  ]

  unfoldable pub get_target : String → Desk Workers → Result TargetApiError TargetView
  get_target target_id s = elim (get_by_id target_id s.targets) [
    | none ↦ err target_not_found
    | some row ↦ ok (project_target target_id row (get_for_target target_id s.credentials))
  ]

  unfoldable pub create_target :
      String
      → String
      → String
      → String
      → Bool
      → Dict String SettingValue
      → Caller
      → Desk Workers
      → Desk Workers × TargetView
  create_target target_id type_name label url enabled settings who s =
      let (targets, row) =
        Rows.create target_id type_name label url enabled settings who.now s.targets in
      let s1 = noted "target_created" target_id (record s { targets = targets }) in
      (if enabled then enabling target_id s1 else s1, project_target target_id row none)

  -- What `update_target` asks of the supervisor.
  unfoldable pub follow_update : TargetUpdate → TargetRow → String → Desk Workers → Desk Workers
  follow_update body existing target_id s = elim body.enabled [
    | some enabled ↦
        if enabled && not existing.enabled
        then enabling target_id s
        else if not enabled && existing.enabled
        then disabling target_id s
        else s
    | none ↦ if existing.enabled then enabling target_id (disabling target_id s) else s
  ]

  unfoldable pub update_target : String → TargetUpdate → Caller → Desk Workers → Answer TargetView
  update_target target_id body who s = elim (get_by_id target_id s.targets) [
    | none ↦ (s, err target_not_found)
    | some existing ↦
        let (targets, updated) = Rows.update target_id body who.now s.targets in
        elim updated [
          | none ↦ (s, err target_not_found)
          | some row ↦
              let s1 = noted "target_updated" target_id (record s { targets = targets }) in
              let s2 = follow_update body existing target_id s1 in
              (s2, ok (project_target target_id row (get_for_target target_id s2.credentials)))
        ]
  ]

  -- Behind the grant.
  unfoldable pub delete_granted : String → Desk Workers → Answer Unit
  delete_granted target_id s = elim (get_by_id target_id s.targets) [
    | none ↦ (s, err target_not_found)
    | some existing ↦
        let s' = disabling target_id s in
        let (targets, credentials, deleted) = Rows.delete target_id s'.targets s'.credentials in
        if not deleted then (s', err target_not_found) else (
          noted "target_deleted" target_id
              (record s' { targets = targets; credentials = credentials }),
          ok tt,
        )
  ]

  unfoldable pub delete_target : String → Caller → Desk Workers → Answer Unit
  delete_target target_id who s =
      let (s1, refused) = take_grant Grants.delete_target who s in
      elim refused [ some e ↦ (s1, err e) | none ↦ delete_granted target_id s1 ]

  module _ (aes : Aes) (kek : Bytes) (encode_utf8 : Text → Bytes)
      (decode_utf8 : Bytes → Option Text) where
    unfoldable pub set_credential :
        String → Text → Caller → Drawn → Desk Workers → Answer CredentialSummary
    set_credential target_id stream_key who drawn s = elim (get_by_id target_id s.targets) [
      | none ↦ (s, err target_not_found)
      | some target ↦ elim (target_type_of target.type_name) [
        | none ↦ (s, err unknown_type)
        | some target_type ↦ elim (lifetime_for target_type) [
          | none ↦ (s, err unknown_type)
          | some lifetime ↦
              elim (seal_key aes kek encode_utf8 decode_utf8 target_id lifetime stream_key who
                drawn) [
                  | err e ↦ (s, err e)
                  | ok row ↦ elim (upsert drawn.credential_id row s.credentials) [
                    | err e ↦ (s, err bad_row)
                    | ok credentials ↦
                        let s1 =
                          noted "credential_set" target_id
                            (record s { credentials = credentials }) in
                        (if target.enabled then enabling target_id s1 else s1, ok (summary_of row))
                  ]
                ]
        ]
      ]
    ]

    -- Behind the grant.
    unfoldable pub reveal_granted : String → Desk Workers → Answer (Text × Text)
    reveal_granted target_id s = elim (get_by_id target_id s.targets) [
      | none ↦ (s, err target_not_found)
      | some target ↦ elim (get_for_target target_id s.credentials) [
        | none ↦ (s, err credential_not_found)
        | some (_, cred) ↦ elim (open_key aes kek encode_utf8 decode_utf8 cred) [
          | err e ↦ (s, err e)
          | ok plaintext ↦ (noted "credential_revealed" target_id s, ok (plaintext, cred.last4))
        ]
      ]
    ]

    unfoldable pub reveal_credential : String → Caller → Desk Workers → Answer (Text × Text)
    reveal_credential target_id who s =
        let (s1, refused) = take_grant Grants.reveal_stream_key who s in
        elim refused [ some e ↦ (s1, err e) | none ↦ reveal_granted target_id s1 ]

  -- Behind the grant.
  unfoldable pub clear_granted : String → Desk Workers → Answer Unit
  clear_granted target_id s = elim (get_by_id target_id s.targets) [
    | none ↦ (s, err target_not_found)
    | some target ↦
        let (credentials, removed) = delete_for_target target_id s.credentials in
        if not removed then (s, ok tt) else (
          disabling target_id
              (noted "credential_cleared" target_id (record s { credentials = credentials })),
          ok tt,
        )
  ]

  unfoldable pub clear_credential : String → Caller → Desk Workers → Answer Unit
  clear_credential target_id who s =
      let (s1, refused) = take_grant Grants.clear_credential who s in
      elim refused [ some e ↦ (s1, err e) | none ↦ clear_granted target_id s1 ]
