-- ===== src/Domain/TargetTypes.antt =====
-- app/domain/target_types.py and app/domain/credential_policy.py: the catalogue of platforms.
pub mod Catalogue
use restream_plus.Base.{
  ℕ, String, ◌≡◌, ◌↔◌, Bool, true, false, Option, none, some, List, [], ◌∷◌, arith, eqb, Eq,
}
use restream_plus.Base.Dict.{Dict, get}

pub data CredentialLifetime : Type 0 where
  persistent per_session refresh_token : CredentialLifetime

pub data TargetType : Type 0 where
  twitch youtube kick vk_live custom : TargetType

pub data FormField : Type 0 where
  url label stream_key backup_field region : FormField

abbrev type_index : TargetType → ℕ
type_index twitch = 0
type_index youtube = 1
type_index kick = 2
type_index vk_live = 3
type_index custom = 4

abbrev field_index : FormField → ℕ
field_index url = 0
field_index label = 1
field_index stream_key = 2
field_index backup_field = 3
field_index region = 4

pub type_same_iff : (s t : TargetType) → (eqb (type_index s) (type_index t) ≡ true) ↔ (s ≡ t)
type_same_iff s t = ground arith

pub field_same_iff : (s t : FormField) → (eqb (field_index s) (field_index t) ≡ true) ↔ (s ≡ t)
field_same_iff s t = ground arith

instance abbrev pub type_eq : Eq TargetType
type_eq = record { same = λ s t. eqb (type_index s) (type_index t); same_iff = type_same_iff }

instance abbrev pub field_eq : Eq FormField
field_eq = record { same = λ s t. eqb (field_index s) (field_index t); same_iff = field_same_iff }

-- `type` is a field of the source's record; `notes`, a text that nothing reads, is left out.
pub record TargetTypeSpec : Type 0 where
  pub target_type : TargetType
  pub display_label : String
  pub default_url : String
  pub backup_supported : Bool
  pub credential_lifetime : CredentialLifetime
  pub settings_fields : List FormField

-- `TARGET_TYPE_SPECS`
abbrev target_type_specs : Dict TargetType TargetTypeSpec
target_type_specs =
    (
      twitch,
      record {
        target_type = twitch;
        display_label = "Twitch";
        default_url = "rtmp://live.twitch.tv/app";
        backup_supported = false;
        credential_lifetime = persistent;
        settings_fields = url ∷ label ∷ stream_key ∷ region ∷ [];
      },
    )
    ∷ (
      youtube,
      record {
        target_type = youtube;
        display_label = "YouTube Live";
        default_url = "rtmps://a.rtmps.youtube.com:443/live2";
        backup_supported = true;
        credential_lifetime = persistent;
        settings_fields = url ∷ label ∷ stream_key ∷ backup_field ∷ [];
      },
    )
    ∷ (
      kick,
      record {
        target_type = kick;
        display_label = "Kick";
        default_url = "rtmps://fa723fc1b171.global-contribute.live-video.net:443/app";
        backup_supported = false;
        credential_lifetime = persistent;
        settings_fields = url ∷ label ∷ stream_key ∷ [];
      },
    )
    ∷ (
      vk_live,
      record {
        target_type = vk_live;
        display_label = "VK Video Live";
        default_url = "rtmp://ovsu.okcdn.ru/input/";
        backup_supported = false;
        credential_lifetime = per_session;
        settings_fields = url ∷ label ∷ [];
      },
    )
    ∷ (
      custom,
      record {
        target_type = custom;
        display_label = "Custom RTMP";
        default_url = "";
        backup_supported = false;
        credential_lifetime = persistent;
        settings_fields = url ∷ label ∷ stream_key ∷ [];
      },
    )
    ∷ []

-- A missing key would be a KeyError, `none`.
pub spec_for : TargetType → Option TargetTypeSpec
unfolding get
spec_for t = get t target_type_specs

pub lifetime_for : TargetType → Option CredentialLifetime
unfolding spec_for
lifetime_for t = elim (spec_for t) [ none ↦ none | some spec ↦ some spec.credential_lifetime ]
