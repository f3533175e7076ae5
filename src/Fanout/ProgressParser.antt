-- ===== src/Fanout/ProgressParser.antt =====
-- app/fanout/progress_parser.py. Bytes and characters are numbers. Decoding with replacement, and Python's `int` and
-- `float` of a text, which may raise `ValueError`, are parameters, with the type of the floating-point numbers.
pub mod Caps
pub mod Drain
pub mod Chunks
use restream_plus.Auth.ClientIp.{up_to}
use restream_plus.Fanout.Redaction.{split_line}
use restream_plus.Base.Dict.{Dict, get, put}
use restream_plus.Base.Texts.{Text, codes, is_empty, text_eq, same_text}
use restream_plus.Base.{
  ℕ, List, [], ◌∷◌, Bool, true, false, Option, none, some, if◌then◌else◌, drop, any, ◌&&◌, suc,
  ◌++◌, eqb, length, ltb, not, ◌-◌, zero, leb, Result, ok, err,
}

abbrev pub progress_frame_max_lines : ℕ
progress_frame_max_lines = 64

abbrev pub progress_line_max_len : ℕ
progress_line_max_len = 256

abbrev pub equals_sign : ℕ
equals_sign = 61

abbrev pub interest : List Text
interest =
    codes "frame"
    ∷ codes "fps"
    ∷ codes "bitrate"
    ∷ codes "out_time_us"
    ∷ codes "dup_frames"
    ∷ codes "drop_frames"
    ∷ codes "speed"
    ∷ codes "progress"
    ∷ []

pub data Progress : Type 0 where
  continue end : Progress

pub data ProgressParseError : Type 0 where
  line_exceeded frame_exceeded : ProgressParseError

-- `int` gives any whole number, `Float` is the type of what `float` gives.
pub record ProgressFrame (Int Float : Type 0) : Type 0 where
  pub frame : Int
  pub fps : Float
  pub bitrate_kbps : Float
  pub out_time_us : Int
  pub dup_frames : Int
  pub drop_frames : Int
  pub speed : Float
  pub progress : Progress

pub record ProgressParser : Type 0 where
  pub buf : Text
  pub pairs : Dict Text Text

abbrev pub new : ProgressParser
new = record { buf = []; pairs = [] }

-- `rstrip("\r")`
unfoldable pub rstrip : ℕ → Text → Text
rstrip c [] = []
rstrip c (x ∷ s) = let rest = rstrip c s in if eqb x c && is_empty rest then [] else x ∷ rest

abbrev pub ends_with : Text → Text → Bool
ends_with suffix s =
    same_text (drop (length s - length suffix) s) suffix && leb (length suffix) (length s)

-- `s[:-n]`
unfoldable pub drop_last : ℕ → Text → Text
drop_last n [] = []
drop_last n (c ∷ s) = let rest = drop_last n s in if ltb (length s) n then [] else c ∷ rest

abbrev pub progress_of : Text → Option Progress
progress_of raw =
    if same_text raw (codes "continue")
    then some continue
    else if same_text raw (codes "end")
    then some end
    else none

-- What a run of the generator gives: the frames, the parser behind it, and the exception that ended it.
pub record Drained (Int Float : Type 0) : Type 0 where
  pub frames : List (ProgressFrame Int Float)
  pub parser : ProgressParser
  pub raised : Option ProgressParseError

-- `decode` with replacement, and the two parsers, with the zeros that they fall back to.
pub record Readers (Int Float : Type 0) : Type 0 where
  pub zero_int : Int
  pub zero_float : Float
  pub decode : Text → Text
  pub int : Text → Option Int
  pub float : Text → Option Float

module _ {Int Float : Type 0} (r : Readers Int Float) where
  -- `int(value)` or 0
  unfoldable pub parse_int : Option Text → Int
  parse_int none = r.zero_int
  parse_int (some value) =
      if same_text value (codes "N/A")
      then r.zero_int
      else elim (r.int value) [ none ↦ r.zero_int | some n ↦ n ]

  abbrev pub float_or_zero : Text → Float
  float_or_zero s = elim (r.float s) [ none ↦ r.zero_float | some x ↦ x ]

  unfoldable pub parse_float : Option Text → Float
  parse_float none = r.zero_float
  parse_float (some value) =
      if same_text value (codes "N/A") then r.zero_float else float_or_zero value

  unfoldable pub parse_bitrate : Option Text → Float
  parse_bitrate none = r.zero_float
  parse_bitrate (some value) =
      if same_text value (codes "N/A")
      then r.zero_float
      else float_or_zero (if ends_with (codes "kbits/s") value then drop_last 7 value else value)

  unfoldable pub parse_speed : Option Text → Float
  parse_speed none = r.zero_float
  parse_speed (some value) =
      if same_text value (codes "N/A")
      then r.zero_float
      else float_or_zero (if ends_with (codes "x") value then drop_last 1 value else value)

  unfoldable pub build_frame : Dict Text Text → Option (ProgressFrame Int Float)
  build_frame pairs =
      let progress_raw : Text = elim (get (codes "progress") pairs) [
        | none ↦ []
        | some raw ↦ raw
      ] in
      elim (progress_of progress_raw) [
        | none ↦ none
        | some progress ↦ some (record {
          frame = parse_int (get (codes "frame") pairs);
          fps = parse_float (get (codes "fps") pairs);
          bitrate_kbps = parse_bitrate (get (codes "bitrate") pairs);
          out_time_us = parse_int (get (codes "out_time_us") pairs);
          dup_frames = parse_int (get (codes "dup_frames") pairs);
          drop_frames = parse_int (get (codes "drop_frames") pairs);
          speed = parse_speed (get (codes "speed") pairs);
          progress = progress;
        })
      ]

  abbrev pub key_of : Text → Text
  key_of line = up_to equals_sign line

  abbrev pub is_pair : Text → Bool
  is_pair line = any (λ c. eqb c equals_sign) line && any (same_text (key_of line)) interest

  -- The pairs with those of the line.
  unfoldable pub with_line : Text → Dict Text Text → Dict Text Text
  with_line line pairs = put (key_of line) (drop (suc (length (key_of line))) line) pairs

  -- One line of the loop that raises nothing: the frame that it completes, and the pairs that are left.
  unfoldable pub on_line : Text → Dict Text Text → Option (ProgressFrame Int Float) × Dict Text Text
  on_line line pairs =
      if not (is_pair line)
      then (none, pairs)
      else if same_text (key_of line) (codes "progress")
      then (build_frame (with_line line pairs), [])
      else (none, with_line line pairs)

  -- The test behind the store.
  unfoldable pub exceeds : Text → Dict Text Text → Bool
  exceeds line pairs = is_pair line && ltb progress_frame_max_lines (length (with_line line pairs))

  abbrev pub text_of : Text → Text
  text_of line_bytes = rstrip 13 (r.decode line_bytes)

  abbrev pub add_frame : Option (ProgressFrame Int Float) → Drained Int Float → Drained Int Float
  add_frame none d = d
  add_frame (some frame) d = record d { frames = frame ∷ d.frames }

  -- The loop, on fuel.
  unfoldable pub drain : ℕ → ProgressParser → Drained Int Float
  drain zero p = record { frames = []; parser = p; raised = none }
  drain (suc fuel) p = elim (split_line p.buf) [
    | none ↦ record {
      frames = [];
      parser = p;
      raised = if ltb progress_line_max_len (length p.buf) then some line_exceeded else none;
    }
    | some (line_bytes, rest) ↦
        let line = text_of line_bytes in
        let (frame, pairs) = on_line line p.pairs in
        let after = drain fuel (record { buf = rest; pairs = pairs }) in
        if exceeds line p.pairs
        then record {
          frames = [];
          parser = record { buf = rest; pairs = with_line line p.pairs };
          raised = some frame_exceeded;
        }
        else add_frame frame after
  ]

  unfoldable pub feed : Text → ProgressParser → Drained Int Float
  feed chunk p =
      let p1 : ProgressParser = record p { buf = p.buf ++ chunk } in drain (suc (length p1.buf)) p1

  -- `list(parser.feed(chunk))` in the worker: the frames, or the exception, behind which the parser is a new one.
  unfoldable pub parse_chunk :
      Text
      → ProgressParser
      → Result ProgressParseError (List (ProgressFrame Int Float)) × ProgressParser
  parse_chunk chunk p =
      let d = feed chunk p in
      elim d.raised [ none ↦ (ok d.frames, d.parser) | some e ↦ (err e, new) ]

  -- The loop of `_stdout_pump` over the chunks that are read.
  unfoldable pub pump :
      List Text
      → ProgressParser
      → List (Result ProgressParseError (List (ProgressFrame Int Float))) × ProgressParser
  pump [] p = ([], p)
  pump (chunk ∷ chunks) p =
      let (answer, p1) = parse_chunk chunk p in
      let (answers, p2) = pump chunks p1 in (answer ∷ answers, p2)
