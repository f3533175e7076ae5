-- ===== src/Domain/TargetTypes/Catalogue.antt =====
-- app/domain/target_types.py: what the catalogue's entries have in common.
use restream_plus.Domain.TargetTypes.{
  spec_for, lifetime_for, TargetType, TargetTypeSpec, stream_key, vk_live, per_session, persistent,
  backup_field, youtube, field_eq, type_eq, twitch, kick, custom,
}
use restream_plus.Base.{◌≡◌, some, any, ◌==◌, if◌then◌else◌, false, true, refl}

-- Every target type has an entry under its own key, so neither lookup can raise. The form asks for a
-- stream key exactly when the credential is kept between runs, which fails for VK Live only, and
-- offers a backup exactly when the type supports one, which holds for YouTube only.
pub spec_for-consistent :
    (t : TargetType)
    → (spec : TargetTypeSpec) × (spec_for t ≡ some spec)
      × (spec.target_type ≡ t)
      × (lifetime_for t ≡ some spec.credential_lifetime)
      × (any (λ f. f == stream_key) spec.settings_fields ≡ (if t == vk_live then false else true))
      × (spec.credential_lifetime ≡ (if t == vk_live then per_session else persistent))
      × (any (λ f. f == backup_field) spec.settings_fields ≡ spec.backup_supported)
      × (spec.backup_supported ≡ t == youtube)
unfolding spec_for lifetime_for
spec_for-consistent twitch = (_, refl, refl, refl, refl, refl, refl, refl)
spec_for-consistent youtube = (_, refl, refl, refl, refl, refl, refl, refl)
spec_for-consistent kick = (_, refl, refl, refl, refl, refl, refl, refl)
spec_for-consistent vk_live = (_, refl, refl, refl, refl, refl, refl, refl)
spec_for-consistent custom = (_, refl, refl, refl, refl, refl, refl, refl)
