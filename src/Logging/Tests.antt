-- ===== src/Logging/Tests.antt =====
-- Redaction at concrete inputs.
use restream_plus.Logging.Redact.{
  occurs, redact_string, redact_each, longest_first, insert_longest, replace_all,
}
use restream_plus.Logging.Removal.{IsPlain, redact_string-removes}
use restream_plus.Logging.Values.{
  Entries, entry, end, text, sequence, cons, nil, process, HidesEntries, process-Hides,
}
use restream_plus.Base.Sets.{member}
use restream_plus.Base.Texts.{Text, codes, text_eq}
use restream_plus.Base.{List, [], ◌∷◌, true, false, All, ◌≡◌, refl, arith}

abbrev short_key : Text
short_key = codes "abcd-efgh-ijkl"

abbrev long_key : Text
long_key = codes "abcd-efgh-ijkl-mnop"

abbrev keys : List Text
keys = short_key ∷ long_key ∷ []

longest_goes_first :
    redact_string (codes "push to abcd-efgh-ijkl-mnop!") keys ≡ codes "push to ***REDACTED***!"
unfolding redact_string redact_each longest_first insert_longest replace_all
longest_goes_first = refl

keys-IsPlain : All IsPlain keys
keys-IsPlain = ((omega arith, refl), ((omega arith, refl), tt))

abbrev message : Text
message = codes "rtmp://host/app/abcd-efgh-ijkl"

redact_string-removes_example :
    ((x : Text) → member x keys ≡ true → occurs x (redact_string message keys) ≡ false)
    × (All (λ x. occurs x message ≡ false) keys → redact_string message keys ≡ message)
redact_string-removes_example = redact_string-removes message keys keys-IsPlain

abbrev event : Entries
event = entry (codes "url") (sequence (cons (text message) nil)) end

short_known : member short_key keys ≡ true
unfolding member
short_known = refl

process-Hides_example : HidesEntries short_key (process (record { secrets = keys }) event)
process-Hides_example =
    process-Hides (record { secrets = keys }) event short_key keys-IsPlain short_known
