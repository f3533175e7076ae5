-- ===== src/Logging/Redact.antt =====
-- app/logging_setup.py: `_redact_string`, with the methods of `str` that it calls.
use restream_plus.Base.Texts.{Text, codes, starts_with}
use restream_plus.Base.{
  ℕ, zero, suc, ◌-◌, List, [], ◌∷◌, ◌++◌, Bool, true, length, leb, if◌then◌else◌,
}

abbrev pub redaction_placeholder : Text
redaction_placeholder = codes "***REDACTED***"

-- `part in text`
abbrev pub occurs : Text → Text → Bool
occurs part [] = starts_with part []
occurs part (c ∷ s) = if starts_with part (c ∷ s) then true else occurs part s

-- `text.replace(old, new)` for an `old` that is not empty: the number counts the characters of a match
-- that are still to be passed over.
unfoldable pub replace_all : Text → Text → Text → ℕ → Text
replace_all old new [] k = []
replace_all old new (c ∷ s) (suc k) = replace_all old new s k
replace_all old new (c ∷ s) zero =
    let hit = new ++ replace_all old new s (length old - 1) in
    let miss = c ∷ replace_all old new s zero in if starts_with old (c ∷ s) then hit else miss

-- `sorted(secrets, key=len, reverse=True)`
unfoldable pub insert_longest : Text → List Text → List Text
insert_longest s [] = s ∷ []
insert_longest s (t ∷ ts) =
    let rest = insert_longest s ts in if leb (length t) (length s) then s ∷ t ∷ ts else t ∷ rest

unfoldable pub longest_first : List Text → List Text
longest_first [] = []
longest_first (s ∷ ss) = insert_longest s (longest_first ss)

-- The loop of `_redact_string`.
unfoldable pub redact_each : List Text → Text → Text
redact_each [] out = out
redact_each (s ∷ ss) out =
    redact_each ss (if occurs s out then replace_all s redaction_placeholder out 0 else out)

unfoldable pub redact_string : Text → List Text → Text
redact_string value secrets = redact_each (longest_first secrets) value
