-- ===== src/Fanout/Redaction/Drain.antt =====
-- app/fanout/redaction.py: the loop of `feed` comes to its end.
use restream_plus.Logging.Redact.{replace_all, occurs, redaction_placeholder}
use restream_plus.Base.Texts.{Text, starts_with}
use restream_plus.Fanout.Redaction.{
  drain_lines, sub_tail, redact_line, split_line, literal_pass, match_tail, newline, take,
  force_split, feed, force_split_threshold,
}
use restream_plus.Fanout.Redaction.Lines.{sub_tail_hit, sub_tail_miss}
use restream_plus.Fanout.Redaction.Match.{match_tail-Matched}
use restream_plus.Base.{
  ℕ, ◌*◌, ◌≡◌, true, length, ◌≤◌, some, arith, Bool-cases, ◌+◌, ◌-◌, ◌∷◌, suc, Option-cases, inl,
  [], inr, ap, length-append, ◌++◌, zero, ◌<◌, eqb, none, ltb, drop, ltb→lt, length-drop,
}

front_length : (p s : Text) → starts_with p s ≡ true → length p ≤ length s
front_length [] s m = omega arith
front_length (d ∷ p) [] m = cc
front_length (d ∷ p) (c ∷ s) m = ground (arith, m, front_length p s)

-- The literal pass makes no text longer, when the URL has the placeholder's 14 bytes.
length-replace_all :
    (old t : Text) (k : ℕ)
    → 14 ≤ length old
    → length (replace_all old redaction_placeholder t k) ≤ length t - k
unfolding replace_all
length-replace_all old [] k h = omega arith
length-replace_all old (c ∷ t) (suc k) h = omega (arith, length-replace_all old t k h)
length-replace_all old (c ∷ t) zero h = elim (Bool-cases (starts_with old (c ∷ t))) [
  | inl hit ↦
      rw hit
        (omega (arith, front_length old (c ∷ t) hit, length-replace_all old t (length old - 1) h))
  | inr miss ↦ rw miss (omega (arith, length-replace_all old t 0 h))
]

-- The tail pass makes a text longer by half at most.
length-sub_tail : (t : Text) (k : ℕ) → 2 * length (sub_tail t k) ≤ 3 * (length t - k)
unfolding sub_tail
length-sub_tail [] k = omega arith
length-sub_tail (c ∷ t) (suc k) = omega (arith, length-sub_tail t k)
length-sub_tail (c ∷ t) zero = elim (Option-cases (match_tail (c ∷ t))) [
  | inl n ↦ rw (sub_tail_miss c t n) (omega (arith, length-sub_tail t 0))
  | inr ((group, key, rest), e) ↦
      let m = match_tail-Matched (c ∷ t) (group, key, rest) e in
      let k = length group + length key - 1 in
      rw (sub_tail_hit c t (group, key, rest) e) (
        omega (
          arith,
          length-sub_tail t k,
          m.group_enough,
          m.key_enough,
          ap length m.joins,
          length-append group (redaction_placeholder ++ sub_tail t k),
          length-append group (key ++ rest),
          length-append key rest,
        ))
]

length-redact_line :
    (url line : Text) → 14 ≤ length url → 2 * length (redact_line url line) ≤ 3 * length line
unfolding redact_line literal_pass
length-redact_line url line h = elim (Bool-cases (occurs url line)) [
  | inl there ↦ rw there (
      omega (
        arith,
        length-sub_tail (replace_all url redaction_placeholder line 0) 0,
        length-replace_all url line 0 h,
      ))
  | inr gone ↦ rw gone (omega (arith, length-sub_tail line 0))
]

pub length-split_line :
    (s : Text) (found : Text × Text) → split_line s ≡ some found → length found.1 < length s
unfolding split_line
length-split_line [] found h = cc
length-split_line (c ∷ s) found h = elim (Bool-cases (eqb c newline)) [
  | inl ends ↦ elim (Option-cases (split_line s)) [
    | inl n ↦
        let these : Text × Text = ([], s) in
        let e : these ≡ found = cc (rw (n, ends, split_line) at h) in rw (← e) (omega arith)
    | inr (p, q) ↦
        let these : Text × Text = ([], s) in
        let e : these ≡ found = cc (rw (q, ends, split_line) at h) in rw (← e) (omega arith)
  ]
  | inr goes_on ↦ elim (Option-cases (split_line s)) [
    | inl n ↦ cc (rw (n, goes_on, split_line) at h)
    | inr (p, q) ↦
        let these : Text × Text = (c ∷ p.0, p.1) in
        let e : these ≡ found = cc (rw (q, goes_on, split_line) at h) in
        rw (← e) (omega (arith, length-split_line s p q))
  ]
]

length-take : (n : ℕ) (s : Text) → length (take n s) ≤ n
unfolding take
length-take zero s = omega arith
length-take (suc n) [] = omega arith
length-take (suc n) (c ∷ s) = omega (arith, length-take n s)

module _ (max_len : ℕ) (url : Text) (wide : 14 ≤ length url) (narrow : length url < max_len) where
  -- A forced split leaves a shorter buffer.
  force_split-shrinks :
      (buf : Text)
      → force_split_threshold max_len url ≤ length buf
      → length (force_split max_len url buf).1 < length buf
  unfolding force_split
  force_split-shrinks buf full =
      let t = force_split_threshold max_len url in
      let window = take t buf in
      omega (
        arith,
        full,
        length-take t buf,
        length-redact_line url window wide,
        length-append (drop max_len (redact_line url window)) (drop t buf),
        length-drop max_len (redact_line url window),
        length-drop t buf,
      )

  -- What `feed` leaves in the buffer: a part of a line that is not yet as long as the window.
  abbrev IsPartial : Text → Type 0
  IsPartial buf = (split_line buf ≡ none) × (length buf < force_split_threshold max_len url)

  drain_lines-IsPartial :
      (fuel : ℕ) (buf : Text) → length buf < fuel → IsPartial (drain_lines max_len url fuel buf).1
  unfolding drain_lines
  drain_lines-IsPartial zero buf h = absurd (omega arith)
  drain_lines-IsPartial (suc fuel) buf h = elim (Option-cases (split_line buf)) [
    | inr (p, q) ↦
        rw (q, drain_lines)
          (drain_lines-IsPartial fuel p.1 (omega (arith, h, length-split_line buf p q)))
    | inl n ↦ elim (Bool-cases (ltb (length buf) (force_split_threshold max_len url))) [
      | inl short ↦ rw (n, short, drain_lines) (n, ltb→lt (length buf) _ short)
      | inr full ↦
          let carried = (force_split max_len url buf).1 in
          rw (n, full, drain_lines)
            (drain_lines-IsPartial fuel carried
              (omega (arith, h, force_split-shrinks buf (ground (arith, full)))))
    ]
  ]

  -- The loop of `feed` ends, whatever is in the buffer and comes in: it stops with a buffer that holds no
  -- newline and is shorter than the line cap and the URL together; for a URL of at least the
  -- placeholder's 14 bytes that is shorter than the line cap.
  pub feed-settles :
      (buf bytes : Text)
      → (split_line (feed max_len url buf bytes).1 ≡ none)
        × (length (feed max_len url buf bytes).1 < force_split_threshold max_len url)
  unfolding feed
  feed-settles buf bytes =
      drain_lines-IsPartial (suc (length (buf ++ bytes))) (buf ++ bytes) (omega arith)
