-- ===== src/Fanout/Redaction/Lines.antt =====
-- app/fanout/redaction.py: the two passes of `_redact_line` and the worker's URL.
use restream_plus.Logging.Redact.{redaction_placeholder, occurs, replace_all}
use restream_plus.Base.Texts.{Text, starts_with}
use restream_plus.Logging.Replace.{
  has_star, later, occurs_behind, IsStarry-mono, placeholder-IsStarry, long_absent,
  occurs-replaced_self,
}
use restream_plus.Fanout.Redaction.Match.{match_tail-Matched}
use restream_plus.Fanout.Redaction.{match_tail, sub_tail, take, redact_line, literal_pass}
use restream_plus.Base.{
  ℕ, ◌≡◌, false, ◌≤◌, length, ◌++◌, true, ◌∷◌, ◌⊎◌, arith, inr, Option-cases, suc, sym, inl, [],
  Bool-cases, ◌+◌, refl, ◌-◌, zero, ◌∙◌, none, some, ap, Bool, if_both,
}

-- A round of the tail pass without and with a match.
pub sub_tail_miss :
    (c : ℕ) (t : Text) → match_tail (c ∷ t) ≡ none → sub_tail (c ∷ t) 0 ≡ c ∷ sub_tail t 0
unfolding sub_tail
sub_tail_miss c t n = rw (n, sub_tail) refl

pub sub_tail_hit :
    (c : ℕ) (t : Text) (found : Text × Text × Text)
    → match_tail (c ∷ t) ≡ some found
    → sub_tail (c ∷ t) 0
      ≡ found.0 ++ (redaction_placeholder ++ sub_tail t (length found.0 + length found.1 - 1))
unfolding sub_tail
sub_tail_hit c t found e = rw (e, sub_tail) refl

-- A text without stars at the front of `group ++ placeholder ++ x` stands at the front of `group ++ y`.
front_in_group :
    (p group x y : Text)
    → has_star p ≡ false
    → starts_with p (group ++ (redaction_placeholder ++ x)) ≡ true
    → starts_with p (group ++ y) ≡ true
front_in_group [] group x y plain m = refl
front_in_group (d ∷ p) [] x y plain m = ground (arith, m, plain)
front_in_group (d ∷ p) (c ∷ group) x y plain m =
    ground (arith, m, plain, front_in_group p group x y)

module _ (p : Text) (plain : has_star p ≡ false) (long : 12 ≤ length p) where
  -- An occurrence in it lies in the group, or behind the placeholder.
  occurs_in_group :
      (group x y : Text)
      → occurs p (group ++ (redaction_placeholder ++ x)) ≡ true
      → (occurs p (group ++ y) ≡ true) ⊎ (occurs p x ≡ true)
  occurs_in_group [] x y m = inr (
      sym (
        occurs_behind p redaction_placeholder x
          (IsStarry-mono 12 (length p) redaction_placeholder long placeholder-IsStarry) plain)
      ∙ m)
  occurs_in_group (c ∷ group) x y m =
      elim (Bool-cases (starts_with p (c ∷ (group ++ (redaction_placeholder ++ x))))) [
        | inl front ↦ inl (rw (front_in_group p (c ∷ group) x y plain front) refl)
        | inr miss ↦ elim (occurs_in_group group x y (rw miss at m)) [
          | inl inside ↦ inl (later p c (group ++ y) inside)
          | inr behind ↦ inr behind
        ]
      ]

  -- What the tail pass leaves at the front of a text, and without a star, stood there before.
  starts_with-sub_tail :
      (q t : Text)
      → has_star q ≡ false
      → starts_with q (sub_tail t 0) ≡ true
      → starts_with q t ≡ true
  unfolding sub_tail
  starts_with-sub_tail [] t hq m = refl
  starts_with-sub_tail (d ∷ q) [] hq m = m
  starts_with-sub_tail (d ∷ q) (c ∷ t) hq m = elim (Option-cases (match_tail (c ∷ t))) [
    | inl n ↦ ground (arith, hq, rw (sub_tail_miss c t n) at m, starts_with-sub_tail q t)
    | inr ((group, key, rest), e) ↦
        ap (starts_with (d ∷ q)) (sym (match_tail-Matched (c ∷ t) (group, key, rest) e).joins)
        ∙ front_in_group (d ∷ q) group (sub_tail t (length group + length key - 1)) (key ++ rest) hq
            (rw (sub_tail_hit c t (group, key, rest) e) at m)
  ]

  -- The tail pass makes no occurrence.
  occurs-sub_tail : (t : Text) (k : ℕ) → occurs p (sub_tail t k) ≡ true → occurs p t ≡ true
  unfolding sub_tail
  occurs-sub_tail [] k m = m
  occurs-sub_tail (c ∷ t) (suc k) m = later p c t (occurs-sub_tail t k m)
  occurs-sub_tail (c ∷ t) zero m = elim (Option-cases (match_tail (c ∷ t))) [
    | inl n ↦ elim (Bool-cases (starts_with p (c ∷ sub_tail t 0))) [
      | inl front ↦
          rw (starts_with-sub_tail p (c ∷ t) plain (rw (← sub_tail_miss c t n) at front)) refl
      | inr miss ↦ later p c t (occurs-sub_tail t 0 (rw miss at (rw (sub_tail_miss c t n) at m)))
    ]
    | inr ((group, key, rest), e) ↦
        let joins = (match_tail-Matched (c ∷ t) (group, key, rest) e).joins in
        elim (occurs_in_group group (sub_tail t (length group + length key - 1)) (key ++ rest)
          (rw (sub_tail_hit c t (group, key, rest) e) at m)) [
            | inl inside ↦ ap (occurs p) (sym joins) ∙ inside
            | inr behind ↦ later p c t (occurs-sub_tail t (length group + length key - 1) behind)
          ]
  ]

  starts_with-take :
      (q : Text) (n : ℕ) (s : Text) → starts_with q (take n s) ≡ true → starts_with q s ≡ true
  unfolding take
  starts_with-take [] n s m = refl
  starts_with-take (d ∷ q) zero s m = cc
  starts_with-take (d ∷ q) (suc n) [] m = cc
  starts_with-take (d ∷ q) (suc n) (c ∷ s) m = ground (arith, m, starts_with-take q n s)

  occurs-take : (n : ℕ) (s : Text) → occurs p (take n s) ≡ true → occurs p s ≡ true
  unfolding take
  occurs-take zero s m = cc (m, long_absent p long)
  occurs-take (suc n) [] m = m
  occurs-take (suc n) (c ∷ s) m = elim (Bool-cases (starts_with p (c ∷ take n s))) [
    | inl front ↦ rw (starts_with-take p (suc n) (c ∷ s) front) refl
    | inr miss ↦ later p c s (occurs-take n s (rw miss at m))
  ]

-- A text that is in no result of a pass that makes no occurrence.
absent_after :
    (before after : Bool) → (after ≡ true → before ≡ true) → before ≡ false → after ≡ false
absent_after before true h gone = cc (h refl, gone)
absent_after before false h gone = refl

module _ (url : Text) (plain : has_star url ≡ false) (long : 12 ≤ length url) where
  -- A line on which both passes ran.
  pub redact_line-hides : (line : Text) → occurs url (redact_line url line) ≡ false
  unfolding redact_line literal_pass
  redact_line-hides line =
      absent_after (occurs url (literal_pass url line)) (occurs url (redact_line url line))
        (occurs-sub_tail url plain long (literal_pass url line) 0)
        (if_both (λ t. occurs url t ≡ false) (occurs url line)
          (replace_all url redaction_placeholder line 0) line
          (λ there. occurs-replaced_self url line 0 plain long) (λ gone. gone))

  pub take-hides : (n : ℕ) (line : Text) → occurs url (take n (redact_line url line)) ≡ false
  take-hides n line =
      absent_after (occurs url (redact_line url line)) (occurs url (take n (redact_line url line)))
        (occurs-take url plain long n (redact_line url line)) (redact_line-hides line)
