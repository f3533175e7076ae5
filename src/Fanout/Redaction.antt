-- ===== src/Fanout/Redaction.antt =====
-- app/fanout/redaction.py: RedactionSink, over bytes as numbers. `max_line_len` is an argument, so that
-- tests can run on short lines.
pub mod Match
pub mod Lines
pub mod Drain
pub mod Reads
pub mod Output
pub mod Pump
use restream_plus.Logging.Redact.{redaction_placeholder, occurs, replace_all}
use restream_plus.Base.Texts.{Text, codes, starts_with, is_empty}
use restream_plus.Base.{
  ℕ, zero, suc, ◌+◌, ◌-◌, List, [], ◌∷◌, ◌++◌, Bool, true, false, ◌&&◌, ◌||◌, not, Option, none,
  some, eqb, leb, ltb, length, drop, if◌then◌else◌,
}

abbrev pub max_line_len : ℕ
max_line_len = 4096

abbrev pub newline : ℕ
newline = 10

abbrev pub slash : ℕ
slash = 47

-- `[^/\s]` and `[A-Za-z0-9_\-]`
abbrev pub is_path_char : ℕ → Bool
is_path_char c = not (eqb c slash || (eqb c 32 || (leb 9 c && leb c 13)))

abbrev pub is_key_char : ℕ → Bool
is_key_char c =
    (leb 65 c && leb c 90)
    || ((leb 97 c && leb c 122) || ((leb 48 c && leb c 57) || (eqb c 95 || eqb c 45)))

-- The longest run of characters that satisfy `p`, and what follows.
unfoldable pub run_of : (ℕ → Bool) → Text → Text × Text
run_of p [] = ([], [])
run_of p (c ∷ s) = let (run, rest) = run_of p s in if p c then (c ∷ run, rest) else ([], c ∷ s)

-- A run of path characters and the slash behind it.
unfoldable pub segment : Text → Option (Text × Text)
segment s =
    let (run, rest) = run_of is_path_char s in
    if is_empty run then none else elim rest [
      | [] ↦ none
      | c ∷ more ↦ if eqb c slash then some (run ++ c ∷ [], more) else none
    ]

-- `rtmps?://`
unfoldable pub scheme : Text → Option (Text × Text)
scheme s =
    if starts_with (codes "rtmps://") s
    then some (codes "rtmps://", drop 8 s)
    else if starts_with (codes "rtmp://") s
    then some (codes "rtmp://", drop 7 s)
    else none

-- `_RTMP_TAIL_RE.match`: group 1, group 2, and what follows. The runs are as long as they can be, and
-- what must follow them is no character of theirs, so the matcher has no other choice to try.
unfoldable pub match_tail : Text → Option (Text × Text × Text)
match_tail s = elim (scheme s) [
  | none ↦ none
  | some (head, r1) ↦ elim (segment r1) [
    | none ↦ none
    | some (host, r2) ↦ elim (segment r2) [
      | none ↦ none
      | some (app, r3) ↦
          let (key, rest) = run_of is_key_char r3 in
          if leb 8 (length key) then some (head ++ (host ++ app), key, rest) else none
    ]
  ]
]

-- `_RTMP_TAIL_RE.sub`: the number counts the characters of a match that are still to be passed over.
unfoldable pub sub_tail : Text → ℕ → Text
sub_tail [] k = []
sub_tail (c ∷ s) (suc k) = sub_tail s k
sub_tail (c ∷ s) zero = elim (match_tail (c ∷ s)) [
  | none ↦ c ∷ sub_tail s zero
  | some (group, key, rest) ↦
      group ++ (redaction_placeholder ++ sub_tail s (length group + length key - 1))
]

-- `_redact_line`: the literal pass, and both.
unfoldable pub literal_pass : Text → Text → Text
literal_pass url line =
    if occurs url line then replace_all url redaction_placeholder line 0 else line

unfoldable pub redact_line : Text → Text → Text
redact_line url line = sub_tail (literal_pass url line) 0

-- `find(b"\n")`: the line in front of the newline, and what follows it.
unfoldable pub split_line : Text → Option (Text × Text)
split_line [] = none
split_line (c ∷ s) = elim (split_line s) [
  | none ↦ if eqb c newline then some ([], s) else none
  | some (line, rest) ↦ if eqb c newline then some ([], s) else some (c ∷ line, rest)
]

unfoldable pub take : ℕ → Text → Text
take zero s = []
take (suc n) [] = []
take (suc n) (c ∷ s) = c ∷ take n s

module _ (max_len : ℕ) (url : Text) where
  abbrev pub force_split_threshold : ℕ
  force_split_threshold = max_len + length url

  -- The forced split: the line, and the buffer with the redacted overflow in front.
  unfoldable pub force_split : Text → Text × Text
  force_split buf =
      let redacted = redact_line url (take force_split_threshold buf) in
      (take max_len redacted, drop max_len redacted ++ drop force_split_threshold buf)

  -- The loop of `feed`, on fuel: the lines, and the buffer that is kept.
  unfoldable pub drain_lines : ℕ → Text → List Text × Text
  drain_lines zero buf = ([], buf)
  drain_lines (suc fuel) buf = elim (split_line buf) [
    | some (line, rest) ↦
        let (lines, kept) = drain_lines fuel rest in (redact_line url line ∷ lines, kept)
    | none ↦
        let (line, carried) = force_split buf in
        let (lines, kept) = drain_lines fuel carried in
        if ltb (length buf) force_split_threshold then ([], buf) else (line ∷ lines, kept)
  ]

  -- One round for each byte of the buffer, and one to stop.
  unfoldable pub feed : Text → Text → List Text × Text
  feed buf bytes = drain_lines (suc (length (buf ++ bytes))) (buf ++ bytes)

  unfoldable pub flush : Text → List Text
  flush buf = if is_empty buf then [] else redact_line url buf ∷ []
