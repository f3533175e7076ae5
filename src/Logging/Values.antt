-- ===== src/Logging/Values.antt =====
-- app/logging_setup.py: `_redact_value` and the processor. Bytes are given by the text that they decode
-- to, if they are UTF-8; of a value of another type only its presence counts.
use restream_plus.Logging.Redact.{occurs, redact_string}
use restream_plus.Logging.Registry.{CredentialRegistry}
use restream_plus.Logging.Removal.{IsPlain, redact_string-removes}
use restream_plus.Base.Sets.{member}
use restream_plus.Base.Texts.{Text, text_eq}
use restream_plus.Base.{ℕ, List, [], ◌∷◌, true, false, All, ◌≡◌}

mutual
  pub data Value : Type 0 where
    text : Text → Value
    utf8 : Text → Value
    raw : List ℕ → Value
    mapping : Entries → Value
    sequence : Items → Value
    other : Value

  pub data Items : Type 0 where
    nil : Items
    cons : Value → Items → Items

  pub data Entries : Type 0 where
    end : Entries
    entry : Text → Value → Entries → Entries

unfoldable mutual
  pub redact_value : List Text → Value → Value
  redact_value secrets (text t) = text (redact_string t secrets)
  redact_value secrets (utf8 t) = utf8 (redact_string t secrets)
  redact_value secrets (raw bytes) = raw bytes
  redact_value secrets (mapping es) = mapping (redact_entries secrets es)
  redact_value secrets (sequence xs) = sequence (redact_items secrets xs)
  redact_value secrets other = other

  pub redact_items : List Text → Items → Items
  redact_items secrets nil = nil
  redact_items secrets (cons x xs) = cons (redact_value secrets x) (redact_items secrets xs)

  -- The keys are kept.
  pub redact_entries : List Text → Entries → Entries
  redact_entries secrets end = end
  redact_entries secrets (entry k x es) =
      entry k (redact_value secrets x) (redact_entries secrets es)

unfoldable redact_event : List Text → Entries → Entries
redact_event [] event = event
redact_event (s ∷ ss) event = redact_entries (s ∷ ss) event

-- `processor`: an event is a dict.
unfoldable pub process : CredentialRegistry → Entries → Entries
unfolding redact_event
process registry event = redact_event registry.secrets event

-- No text in a value, however deep, and no bytes that are UTF-8 hold `x`; keys are not looked at.
unfoldable mutual
  pub Hides : Text → Value → Type 0
  Hides x (text t) = occurs x t ≡ false
  Hides x (utf8 t) = occurs x t ≡ false
  Hides x (raw bytes) = Unit {0}
  Hides x (mapping es) = HidesEntries x es
  Hides x (sequence xs) = HidesItems x xs
  Hides x other = Unit {0}

  pub HidesItems : Text → Items → Type 0
  HidesItems x nil = Unit {0}
  HidesItems x (cons y ys) = Hides x y × HidesItems x ys

  pub HidesEntries : Text → Entries → Type 0
  HidesEntries x end = Unit {0}
  HidesEntries x (entry k y es) = Hides x y × HidesEntries x es

module _ (secrets : List Text) (plain : All IsPlain secrets) (x : Text)
    (known : member x secrets ≡ true) where
  mutual
    unfolding redact_value redact_items redact_entries Hides HidesItems HidesEntries

    redact_value-Hides : (v : Value) → Hides x (redact_value secrets v)
    redact_value-Hides (text t) = (redact_string-removes t secrets plain).0 x known
    redact_value-Hides (utf8 t) = (redact_string-removes t secrets plain).0 x known
    redact_value-Hides (raw bytes) = tt
    redact_value-Hides (mapping es) = redact_entries-Hides es
    redact_value-Hides (sequence xs) = redact_items-Hides xs
    redact_value-Hides other = tt

    redact_items-Hides : (xs : Items) → HidesItems x (redact_items secrets xs)
    redact_items-Hides nil = tt
    redact_items-Hides (cons y ys) = (redact_value-Hides y, redact_items-Hides ys)

    redact_entries-Hides : (es : Entries) → HidesEntries x (redact_entries secrets es)
    redact_entries-Hides end = tt
    redact_entries-Hides (entry k y es) = (redact_value-Hides y, redact_entries-Hides es)

event_hidden :
    (secrets : List Text) (event : Entries) (x : Text)
    → All IsPlain secrets
    → member x secrets ≡ true
    → HidesEntries x (redact_event secrets event)
unfolding redact_event member
event_hidden [] event x plain known = cc
event_hidden (s ∷ ss) event x plain known = redact_entries-Hides (s ∷ ss) plain x known event

-- Where every registered secret has at least 12 characters and no star: after the processor, no text in
-- the values of a log event, at any depth, holds a registered secret.
pub process-Hides :
    (registry : CredentialRegistry) (event : Entries) (x : Text)
    → All IsPlain registry.secrets
    → member x registry.secrets ≡ true
    → HidesEntries x (process registry event)
unfolding process
process-Hides registry event x plain known = event_hidden registry.secrets event x plain known
