-- ===== src/Fanout/Supervisor/Load.antt =====
-- app/fanout/supervisor.py: `_load_runnable_targets` and `_reload_target`. The AEAD is a parameter.
use restream_plus.Fanout.Supervisor.{Failure, service_locked, undecodable_key, unknown_target_type}
use restream_plus.Auth.KeyMaterial.{KeyMaterial, require_ready, Bytes}
use restream_plus.Repositories.Rows.{TargetDto, CredentialDto, target_dto_to_domain}
use restream_plus.Domain.Target.{Target}
use restream_plus.Base.Texts.{Text}
use restream_plus.Base.{
  String, List, [], ◌∷◌, ◌++◌, Bool, Option, none, some, Result, ok, err, filter, false,
  if◌then◌else◌, true,
}

-- `decrypt` under a key: it raises, or gives bytes that are no UTF-8, or a text.
pub data Decrypted : Type 0 where
  rejected undecodable : Decrypted
  plaintext : Text → Decrypted

-- A target's row with its credential's.
abbrev pub Row : Type 0
Row = TargetDto × Option CredentialDto

pub record Runnable : Type 0 where
  pub dto : TargetDto
  pub dom : Target
  pub key : Option Text

module _ (decrypt : Bytes → CredentialDto → Decrypted) where
  -- The plaintext of one row's credential, and whether the failure goes to the audit.
  unfoldable pub open_credential :
      Bytes → Option CredentialDto → Result Failure (Option Text × Bool)
  open_credential kek none = ok (none, false)
  open_credential kek (some cred) = elim (decrypt kek cred) [
    | rejected ↦ ok (none, true)
    | undecodable ↦ err undecodable_key
    | plaintext key ↦ ok (some key, false)
  ]

  -- One row of the loop: the entry, with the ids of the failures so far.
  unfoldable pub load_row : Bytes → Row → Result Failure (Runnable × List String)
  load_row kek (dto, cred) = elim (target_dto_to_domain dto cred) [
    | none ↦ err unknown_target_type
    | some dom ↦ elim (open_credential kek cred) [
      | err e ↦ err e
      | ok (key, failed) ↦
          ok (record { dto = dto; dom = dom; key = key }, if failed then dto.id ∷ [] else [])
    ]
  ]

  -- `push`: what one row adds to the results of the others.
  abbrev pub gather :
      Runnable × List String
      → Result Failure (List Runnable × List String)
      → Result Failure (List Runnable × List String)
  gather (r, failed) (err e) = err e
  gather (r, failed) (ok (rs, more)) = ok (r ∷ rs, failed ++ more)

  unfoldable pub load_rows : Bytes → List Row → Result Failure (List Runnable × List String)
  load_rows kek [] = ok ([], [])
  load_rows kek (row ∷ rows) =
      let rest = load_rows kek rows in
      elim (load_row kek row) [ err e ↦ err e | ok entry ↦ gather entry rest ]

  -- The rows are those of the `targets` table; `list_enabled` keeps the enabled ones.
  unfoldable pub load_runnable_targets :
      KeyMaterial → List Row → Result Failure (List Runnable × List String)
  load_runnable_targets keys rows = elim (require_ready keys) [
    | err e ↦ err service_locked
    | ok derived ↦ load_rows derived.stream_key_kek (filter (λ row. row.0.enabled) rows)
  ]

  -- `_reload_target` finds the row by its id; a credential that is rejected is only logged.
  unfoldable pub reload_target : KeyMaterial → Option Row → Result Failure (Option Runnable)
  reload_target keys row = elim (require_ready keys) [
    | err e ↦ err service_locked
    | ok derived ↦ elim row [
      | none ↦ ok none
      | some r ↦ elim (load_row derived.stream_key_kek r) [
        | err e ↦ err e
        | ok (entry, failed) ↦ ok (some entry)
      ]
    ]
  ]
