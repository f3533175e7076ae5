-- ===== src/Logging/Registry.antt =====
-- app/logging_setup.py: the class CredentialRegistry.
use restream_plus.Base.Sets.{insert, discard}
use restream_plus.Base.Texts.{Text, text_eq}
use restream_plus.Base.{ℕ, List, [], Result, ok, err, ltb, length, if◌then◌else◌}

abbrev pub min_redactable_secret_length : ℕ
min_redactable_secret_length = 12

pub record CredentialRegistry : Type 0 where
  pub secrets : List Text

pub data RegistryError : Type 0 where
  secret_too_short : RegistryError

unfoldable pub register : Text → CredentialRegistry → Result RegistryError CredentialRegistry
register secret r =
    if ltb (length secret) min_redactable_secret_length
    then err secret_too_short
    else ok (record { secrets = insert secret r.secrets })

unfoldable pub unregister : Text → CredentialRegistry → CredentialRegistry
unregister secret r = record { secrets = discard secret r.secrets }

unfoldable pub clear : CredentialRegistry → CredentialRegistry
clear r = record { secrets = [] }
