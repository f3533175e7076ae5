-- ===== src/Fanout/Redaction/Reads.antt =====
-- app/fanout/redaction.py and `_stderr_pump` of app/fanout/ffmpeg_worker.py: what reads do to lines.
use restream_plus.Base.{refl, true, false, Bool-cases, Option-cases, inl, inr, ◌∙◌, ap}
use restream_plus.Base.Texts.{Text, is_empty}
use restream_plus.Base.{
  List, ◌∷◌, ◌≡◌, ◌++◌, ◌<◌, none, some, if◌then◌else◌, [], eqb, ◌+◌, length, map, zero, suc, ltb,
  arith,
}
use restream_plus.Fanout.Redaction.{split_line, newline, drain_lines, redact_line}
use restream_plus.Fanout.Redaction.Drain.{length-split_line}
use Prim.Native.Nat.{ℕ}

-- The lines that end, and the one that does not yet.
abbrev pub cons_line : ℕ → List Text × Text → List Text × Text
cons_line c ([], rest) = ([], c ∷ rest)
cons_line c (line ∷ lines, rest) = ((c ∷ line) ∷ lines, rest)

unfoldable pub lines_of : Text → List Text × Text
lines_of [] = ([], [])
lines_of (c ∷ s) =
    let (lines, rest) = lines_of s in
    if eqb c newline then ([] ∷ lines, rest) else cons_line c (lines, rest)

-- The lines of a whole output, of which the last needs no newline.
unfoldable pub output_lines : Text → List Text
output_lines s = (lines_of s).0 ++ (if is_empty (lines_of s).1 then [] else (lines_of s).1 ∷ [])

lines_of-newline :
    (c : ℕ) (s : Text)
    → eqb c newline ≡ true
    → lines_of (c ∷ s) ≡ ([] ∷ (lines_of s).0, (lines_of s).1)
unfolding lines_of
lines_of-newline c s h = rw h refl

lines_of-byte :
    (c : ℕ) (s : Text) → eqb c newline ≡ false → lines_of (c ∷ s) ≡ cons_line c (lines_of s)
unfolding lines_of
lines_of-byte c s h = rw h refl

module _ (limit : ℕ) where
  -- No line is as long as the limit; `n` bytes of the first one are already read.
  abbrev pub IsShort : ℕ → Text → Type 0
  IsShort n [] = n < limit
  IsShort n (c ∷ s) = (n < limit) × IsShort (if eqb c newline then 0 else n + 1) s

  pub IsShort-front : (n : ℕ) (a b : Text) → IsShort n (a ++ b) → IsShort n a
  IsShort-front n [] [] h = h
  IsShort-front n [] (c ∷ b) h = h.0
  IsShort-front n (c ∷ a) b h = (h.0, IsShort-front (if eqb c newline then 0 else n + 1) a b h.1)

  -- What is read behind the last newline.
  abbrev carried : ℕ → List Text → ℕ
  carried n [] = n
  carried n (line ∷ lines) = 0

  carried_zero : (lines : List Text) → carried 0 lines ≡ 0
  carried_zero [] = refl
  carried_zero (line ∷ lines) = refl

  byte-rest :
      (n c : ℕ) (b : Text) (found : List Text × Text)
      → n < limit
      → eqb c newline ≡ false
      → IsShort (carried (n + 1) found.0) (found.1 ++ b)
      → IsShort (carried n (cons_line c found).0) ((cons_line c found).1 ++ b)
  byte-rest n c b ([], rest) below goes_on h = (below, rw goes_on h)
  byte-rest n c b (line ∷ lines, rest) below goes_on h = h

  rest-IsShort :
      (n : ℕ) (a b : Text)
      → IsShort n (a ++ b)
      → IsShort (carried n (lines_of a).0) ((lines_of a).1 ++ b)
  unfolding lines_of
  rest-IsShort n [] b h = h
  rest-IsShort n (c ∷ a) b h = elim (Bool-cases (eqb c newline)) [
    | inl ends ↦
        let ih = rest-IsShort 0 a b (rw ends at (h.1)) in
        rw (lines_of-newline c a ends) (rw (carried_zero (lines_of a).0) at ih)
    | inr goes_on ↦
        let ih = rest-IsShort (n + 1) a b (rw goes_on at (h.1)) in
        rw (lines_of-byte c a goes_on) (byte-rest n c b (lines_of a) h.0 goes_on ih)
  ]

  -- A buffer without a newline is as long as its one line.
  length-IsShort : (n : ℕ) (s : Text) → IsShort n s → split_line s ≡ none → n + length s < limit
  unfolding split_line
  length-IsShort n [] h q = let below : n < limit = h in omega (arith, below)
  length-IsShort n (c ∷ s) h q = elim (Option-cases (split_line s)) [
    | inr (found, some_line) ↦ elim (Bool-cases (eqb c newline)) [
      | inl ends ↦ cc (rw (some_line, ends, split_line) at q)
      | inr goes_on ↦ cc (rw (some_line, goes_on, split_line) at q)
    ]
    | inl no_line ↦ elim (Bool-cases (eqb c newline)) [
      | inl ends ↦ cc (rw (no_line, ends, split_line) at q)
      | inr goes_on ↦ omega (arith, length-IsShort (n + 1) s (rw goes_on at (h.1)) no_line)
    ]
  ]

  split_line-IsShort :
      (n : ℕ) (s : Text) (found : Text × Text)
      → IsShort n s
      → split_line s ≡ some found
      → IsShort 0 found.1
  unfolding split_line
  split_line-IsShort n [] found h q = cc
  split_line-IsShort n (c ∷ s) found h q = elim (Bool-cases (eqb c newline)) [
    | inl ends ↦
        let these : Text × Text = ([], s) in
        let e : these ≡ found = elim (Option-cases (split_line s)) [
          | inl none_left ↦ cc (rw (none_left, ends, split_line) at q)
          | inr (p, some_left) ↦ cc (rw (some_left, ends, split_line) at q)
        ] in
        rw (← e) (rw ends at (h.1))
    | inr goes_on ↦ elim (Option-cases (split_line s)) [
      | inl none_left ↦ cc (rw (none_left, goes_on, split_line) at q)
      | inr (p, some_left) ↦
          let these : Text × Text = (c ∷ p.0, p.1) in
          let e : these ≡ found = cc (rw (some_left, goes_on, split_line) at q) in
          rw (← e) (split_line-IsShort (n + 1) s p (rw goes_on at (h.1)) some_left)
    ]
  ]

  pub IsShort-rest : (a b : Text) → IsShort 0 (a ++ b) → IsShort 0 ((lines_of a).1 ++ b)
  IsShort-rest a b h = let r = rest-IsShort 0 a b h in rw (carried_zero (lines_of a).0) at r

pub split_line-none : (s : Text) → split_line s ≡ none → lines_of s ≡ ([], s)
unfolding split_line lines_of
split_line-none [] h = refl
split_line-none (c ∷ s) h = elim (Option-cases (split_line s)) [
  | inr (found, q) ↦ elim (Bool-cases (eqb c newline)) [
    | inl ends ↦ cc (rw (q, ends, split_line) at h)
    | inr goes_on ↦ cc (rw (q, goes_on, split_line) at h)
  ]
  | inl n ↦ elim (Bool-cases (eqb c newline)) [
    | inl ends ↦ cc (rw (n, ends, split_line) at h)
    | inr goes_on ↦ rw (lines_of-byte c s goes_on, split_line-none s n) refl
  ]
]

split_line-some :
    (s : Text) (found : Text × Text)
    → split_line s ≡ some found
    → lines_of s ≡ (found.0 ∷ (lines_of found.1).0, (lines_of found.1).1)
unfolding split_line lines_of
split_line-some [] found h = cc
split_line-some (c ∷ s) found h = elim (Bool-cases (eqb c newline)) [
  | inl ends ↦
      let these : Text × Text = ([], s) in
      let e : these ≡ found = elim (Option-cases (split_line s)) [
        | inl n ↦ cc (rw (n, ends, split_line) at h)
        | inr (p, q) ↦ cc (rw (q, ends, split_line) at h)
      ] in
      rw (← e) (lines_of-newline c s ends)
  | inr goes_on ↦ elim (Option-cases (split_line s)) [
    | inl n ↦ cc (rw (n, goes_on, split_line) at h)
    | inr (p, q) ↦
        let these : Text × Text = (c ∷ p.0, p.1) in
        let e : these ≡ found = cc (rw (q, goes_on, split_line) at h) in
        rw (← e) (lines_of-byte c s goes_on ∙ ap (cons_line c) (split_line-some s p q))
  ]
]

abbrev pub append_lines : List Text → List Text × Text → List Text × Text
append_lines lines (more, rest) = (lines ++ more, rest)

byte-append :
    (c : ℕ) (b : Text) (found : List Text × Text)
    → eqb c newline ≡ false
    → cons_line c (append_lines found.0 (lines_of (found.1 ++ b)))
      ≡ append_lines (cons_line c found).0 (lines_of ((cons_line c found).1 ++ b))
byte-append c b ([], rest) goes_on = rw (lines_of-byte c (rest ++ b) goes_on) refl
byte-append c b (line ∷ lines, rest) goes_on = refl

pub lines_of-append :
    (a b : Text) → lines_of (a ++ b) ≡ append_lines (lines_of a).0 (lines_of ((lines_of a).1 ++ b))
unfolding lines_of
lines_of-append [] b = refl
lines_of-append (c ∷ a) b = elim (Bool-cases (eqb c newline)) [
  | inl ends ↦
      rw (lines_of-newline c (a ++ b) ends, lines_of-newline c a ends, lines_of-append a b) refl
  | inr goes_on ↦
      rw (lines_of-byte c (a ++ b) goes_on, lines_of-append a b, lines_of-byte c a goes_on)
        (byte-append c b (lines_of a) goes_on)
]

-- What is behind the last newline is no line yet.
byte-unfinished :
    (c : ℕ) (found : List Text × Text)
    → eqb c newline ≡ false
    → lines_of found.1 ≡ ([], found.1)
    → lines_of (cons_line c found).1 ≡ ([], (cons_line c found).1)
byte-unfinished c ([], rest) goes_on h = rw (lines_of-byte c rest goes_on, h) refl
byte-unfinished c (line ∷ lines, rest) goes_on h = h

pub lines_of-unfinished : (s : Text) → lines_of (lines_of s).1 ≡ ([], (lines_of s).1)
unfolding lines_of
lines_of-unfinished [] = refl
lines_of-unfinished (c ∷ s) = elim (Bool-cases (eqb c newline)) [
  | inl ends ↦ rw (lines_of-newline c s ends) (lines_of-unfinished s)
  | inr goes_on ↦
      rw (lines_of-byte c s goes_on)
        (byte-unfinished c (lines_of s) goes_on (lines_of-unfinished s))
]

-- The loop of `feed` on lines that need no forced split.
pub drain_lines-short :
    (max_len : ℕ) (url : Text) (fuel : ℕ) (buf : Text)
    → length buf < fuel
    → IsShort (max_len + length url) 0 buf
    → drain_lines max_len url fuel buf ≡ (map (redact_line url) (lines_of buf).0, (lines_of buf).1)
unfolding drain_lines
drain_lines-short max_len url zero buf h short = absurd (omega arith)
drain_lines-short max_len url (suc fuel) buf h short = elim (Option-cases (split_line buf)) [
  | inr (p, q) ↦
      rw
        (
          q,
          drain_lines,
          split_line-some buf p q,
          drain_lines-short max_len url fuel p.1 (omega (arith, h, length-split_line buf p q))
              (split_line-IsShort (max_len + length url) 0 buf p short q),
        )
        refl
  | inl n ↦
      let below : ltb (length buf) (max_len + length url) ≡ true =
        ground (arith, length-IsShort (max_len + length url) 0 buf short n) in
      rw (n, below, drain_lines, split_line-none buf n) refl
]
