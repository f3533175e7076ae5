-- ===== src/Repositories/Rows.antt =====
-- app/repositories/_converters.py, with the fields that it and the supervisor read of TargetDTO
-- (app/repositories/targets.py) and CredentialDTO (app/repositories/credentials.py).
use restream_plus.Domain.TargetTypes.{TargetType, twitch, youtube, kick, vk_live, custom}
use restream_plus.Domain.Target.{Target}
use restream_plus.Base.Dict.{Dict, get}
use restream_plus.Base.{
  ℕ, String, Bool, false, Option, none, some, List, [], not, eqb, ◌==◌, string_eq, is_some,
  if◌then◌else◌,
}

-- A value in the JSON object `settings`; of a list or an object only the length is read.
pub data SettingValue : Type 0 where
  flag : Bool → SettingValue
  number : ℕ → SettingValue
  text : String → SettingValue
  sized : ℕ → SettingValue
  null_value : SettingValue

pub record TargetDto : Type 0 where
  pub id : String
  pub type_name : String
  pub label : String
  pub url : String
  pub enabled : Bool
  pub settings : Dict String SettingValue

pub record CredentialDto : Type 0 where
  pub target_id : String
  pub ciphertext : List ℕ
  pub nonce : List ℕ
  pub salt : List ℕ

-- `bool(value)`
abbrev pub truthy : SettingValue → Bool
truthy (flag b) = b
truthy (number n) = not (eqb n 0)
truthy (text s) = not (s == "")
truthy (sized n) = not (eqb n 0)
truthy null_value = false

-- `TargetType(value)`, which raises for a name that is no member.
unfoldable pub target_type_of : String → Option TargetType
target_type_of name =
    if name == "twitch"
    then some twitch
    else if name == "youtube"
    then some youtube
    else if name == "kick"
    then some kick
    else if name == "vk_live"
    then some vk_live
    else if name == "custom"
    then some custom
    else none

-- `settings.get("backup_enabled", False)`, as a Boolean.
unfoldable pub backup_setting : Dict String SettingValue → Bool
backup_setting settings = elim (get "backup_enabled" settings) [ none ↦ false | some v ↦ truthy v ]

-- `none` where `TargetType` raises `ValueError`.
unfoldable pub target_dto_to_domain : TargetDto → Option CredentialDto → Option Target
unfolding target_type_of backup_setting
target_dto_to_domain dto credential = elim (target_type_of dto.type_name) [
  | none ↦ none
  | some type ↦ some (record {
    id = dto.id;
    target_type = type;
    label = dto.label;
    target_url = dto.url;
    enabled = dto.enabled;
    backup_enabled = backup_setting dto.settings;
    has_active_credential = is_some credential;
    worker_set = record { snapshots = [] };
  })
]
