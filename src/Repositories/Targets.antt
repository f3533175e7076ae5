-- ===== src/Repositories/Targets.antt =====
-- app/repositories/targets.py, over the table `targets`: the primary key, with the other columns. The JSON text of the
-- settings stands as the object that it is written from.
use restream_plus.Base.Dict.{Dict, get, put, remove, contains}
use restream_plus.Repositories.Rows.{SettingValue}
use restream_plus.Repositories.Credentials.{Credentials, without_target}
use restream_plus.Base.{ℕ, String, Bool, Option, none, some, string_eq}

pub record TargetRow : Type 0 where
  pub type_name : String
  pub label : String
  pub url : String
  pub enabled : Bool
  pub settings : Dict String SettingValue
  pub created_at : ℕ
  pub updated_at : ℕ

abbrev pub Targets : Type 0
Targets = Dict String TargetRow

-- The fields that an update gives; the others are None.
pub record TargetUpdate : Type 0 where
  pub label : Option String
  pub url : Option String
  pub enabled : Option Bool
  pub settings : Option (Dict String SettingValue)

unfoldable pub create :
    String
    → String
    → String
    → String
    → Bool
    → Dict String SettingValue
    → ℕ
    → Targets
    → Targets × TargetRow
create target_id type_name label url enabled settings now targets =
    let row : TargetRow = record {
      type_name = type_name;
      label = label;
      url = url;
      enabled = enabled;
      settings = settings;
      created_at = now;
      updated_at = now;
    } in
    (put target_id row targets, row)

abbrev pub get_by_id : String → Targets → Option TargetRow
get_by_id = get

abbrev pub default {ℓ} : {A : Type ℓ} → A → Option A → A
default x none = x
default x (some y) = y

-- The columns that are written, and `updated_at`.
abbrev pub written : TargetUpdate → ℕ → TargetRow → TargetRow
written body now row = record row {
  label = default row.label body.label;
  url = default row.url body.url;
  enabled = default row.enabled body.enabled;
  settings = default row.settings body.settings;
  updated_at = now;
}

unfoldable pub update : String → TargetUpdate → ℕ → Targets → Targets × Option TargetRow
update target_id body now targets = elim (get target_id targets) [
  | none ↦ (targets, none)
  | some row ↦
      let targets' = put target_id (written body now row) targets in
      (targets', get_by_id target_id targets')
]

-- The foreign key of the credentials deletes them with their target.
unfoldable pub delete : String → Targets → Credentials → Targets × Credentials × Bool
delete target_id targets credentials =
    (remove target_id targets, without_target target_id credentials, contains target_id targets)
