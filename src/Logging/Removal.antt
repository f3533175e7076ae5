-- ===== src/Logging/Removal.antt =====
-- app/logging_setup.py: what `_redact_string` leaves of the registered secrets.
use restream_plus.Logging.Redact.{
  redaction_placeholder, occurs, replace_all, insert_longest, longest_first, redact_each,
  redact_string,
}
use restream_plus.Logging.Replace.{has_star, occurs-replaced, occurs-replaced_self}
use restream_plus.Base.Sets.{member}
use restream_plus.Base.Texts.{Text, text_eq}
use restream_plus.Base.{
  ◌≤◌, List, [], ◌∷◌, true, false, length, All, if◌then◌else◌, ◌==◌, ◌≡◌, refl, arith, Bool-cases,
  inl, inr, leb, ◌∙◌,
}

-- A secret as the registry takes it, and without the character of which the placeholder's ends consist.
abbrev pub IsPlain : Text → Type 0
IsPlain s = (12 ≤ length s) × (has_star s ≡ false)

insert-All :
    (s : Text) (ss : List Text) → IsPlain s → All IsPlain ss → All IsPlain (insert_longest s ss)
unfolding insert_longest
insert-All s [] h hs = (h, tt)
insert-All s (t ∷ ts) h (ht, hs) = elim (Bool-cases (leb (length t) (length s))) [
  | inl longer ↦ rw longer (h, (ht, hs))
  | inr shorter ↦ rw shorter (ht, insert-All s ts h hs)
]

longest-All : (ss : List Text) → All IsPlain ss → All IsPlain (longest_first ss)
unfolding longest_first
longest-All [] h = tt
longest-All (s ∷ ss) (hs, h) = insert-All s (longest_first ss) hs (longest-All ss h)

member-insert_longest :
    (x s : Text) (ss : List Text)
    → member x (insert_longest s ss) ≡ (if s == x then true else member x ss)
unfolding insert_longest member
member-insert_longest x s [] = refl
member-insert_longest x s (t ∷ ts) = ground (arith, member-insert_longest x s ts)

member-longest_first : (x : Text) (ss : List Text) → member x (longest_first ss) ≡ member x ss
unfolding longest_first member
member-longest_first x [] = refl
member-longest_first x (s ∷ ss) =
    ground (arith, member-insert_longest x s (longest_first ss), member-longest_first x ss)

-- One round.
round : Text → Text → Text
round s out = if occurs s out then replace_all s redaction_placeholder out 0 else out

round_self : (s out : Text) → IsPlain s → occurs s (round s out) ≡ false
unfolding round
round_self s out (long, plain) = elim (Bool-cases (occurs s out)) [
  | inl there ↦ rw (there, round) (occurs-replaced_self s out 0 plain long)
  | inr gone ↦ rw (gone, round) gone
]

round_keeps : (s x out : Text) → IsPlain x → occurs x out ≡ false → occurs x (round s out) ≡ false
unfolding round
round_keeps s x out (long, plain) h = elim (Bool-cases (occurs s out)) [
  | inr gone ↦ rw (gone, round) h
  | inl there ↦ elim (Bool-cases (occurs x (replace_all s redaction_placeholder out 0))) [
    | inl back ↦ cc (occurs-replaced s x out 0 plain long back, h)
    | inr absent ↦ rw (there, round) absent
  ]
]

each_keeps :
    (ss : List Text) (x out : Text)
    → IsPlain x
    → occurs x out ≡ false
    → occurs x (redact_each ss out) ≡ false
unfolding redact_each round
each_keeps [] x out hx h = h
each_keeps (s ∷ ss) x out hx h = each_keeps ss x (round s out) hx (round_keeps s x out hx h)

each_removes :
    (ss : List Text) (x out : Text)
    → IsPlain x
    → member x ss ≡ true
    → occurs x (redact_each ss out) ≡ false
unfolding redact_each round member
each_removes [] x out hx m = cc
each_removes (s ∷ ss) x out hx m = elim (Bool-cases (s == x)) [
  | inl same ↦
      let e = (text_eq.same_iff s x).0 same in
      rw (← e) (each_keeps ss s (round s out) (rw e hx) (round_self s out (rw e hx)))
  | inr other ↦ each_removes ss x (round s out) hx (ground (arith, m, other))
]

each_untouched :
    (ss : List Text) (out : Text) → All (λ s. occurs s out ≡ false) ss → redact_each ss out ≡ out
unfolding redact_each
each_untouched [] out h = refl
each_untouched (s ∷ ss) out (hs, h) = rw hs (each_untouched ss out h)

All-insert :
    (out s : Text) (ss : List Text)
    → occurs s out ≡ false
    → All (λ x. occurs x out ≡ false) ss
    → All (λ x. occurs x out ≡ false) (insert_longest s ss)
unfolding insert_longest
All-insert out s [] h hs = (h, tt)
All-insert out s (t ∷ ts) h (ht, hs) = elim (Bool-cases (leb (length t) (length s))) [
  | inl longer ↦ rw longer (h, (ht, hs))
  | inr shorter ↦ rw shorter (ht, All-insert out s ts h hs)
]

All-longest :
    (out : Text) (ss : List Text)
    → All (λ x. occurs x out ≡ false) ss
    → All (λ x. occurs x out ≡ false) (longest_first ss)
unfolding longest_first
All-longest out [] h = tt
All-longest out (s ∷ ss) (hs, h) = All-insert out s (longest_first ss) hs (All-longest out ss h)

member-All : (x : Text) (ss : List Text) → All IsPlain ss → member x ss ≡ true → IsPlain x
unfolding member
member-All x [] h m = cc
member-All x (s ∷ ss) (hs, h) m = elim (Bool-cases (s == x)) [
  | inl same ↦ rw (← (text_eq.same_iff s x).0 same) hs
  | inr other ↦ member-All x ss h (ground (arith, m, other))
]

-- Where every registered secret has at least 12 characters and no star: none of them occurs in the
-- redacted text, and a text in which none occurs is left as it is.
pub redact_string-removes :
    (value : Text) (secrets : List Text)
    → All IsPlain secrets
    → ((x : Text) → member x secrets ≡ true → occurs x (redact_string value secrets) ≡ false)
      × (All (λ x. occurs x value ≡ false) secrets → redact_string value secrets ≡ value)
unfolding redact_string
redact_string-removes value secrets h = (
  λ x m.
      each_removes (longest_first secrets) x value (member-All x secrets h m)
        (member-longest_first x secrets ∙ m),
  λ absent. each_untouched (longest_first secrets) value (All-longest value secrets absent),
)
