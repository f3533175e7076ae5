-- ===== src/Fanout/ProgressTests.antt =====
-- The progress parser on a frame in two chunks.
use restream_plus.Fanout.ProgressParser.{
  ProgressParser, ProgressFrame, Drained, drain, feed, on_line, text_of, add_frame, with_line, pump,
  parse_chunk, new, continue, line_exceeded, build_frame, parse_int, parse_float, parse_bitrate,
  parse_speed, rstrip, drop_last, ProgressParseError, Readers,
}
use restream_plus.Fanout.ProgressParser.Chunks.{pump-joined, IsQuiet, frames_in, joined}
use restream_plus.Fanout.ProgressParser.Caps.{pump-IsCapped, IsCapped, IsFewPairs}
use restream_plus.Base.Texts.{Text, codes}
use restream_plus.Base.{ℕ, List, [], ◌∷◌, Option, none, some, ◌≡◌, refl, ◌-◌, ◌++◌, Result, ok, All}

-- A number is worth its last digit, and a floating-point number is its text.
abbrev last_digit : Text → Option ℕ
last_digit [] = none
last_digit (c ∷ []) = some (c - 48)
last_digit (c ∷ d ∷ s) = last_digit (d ∷ s)

abbrev readers : Readers ℕ Text
readers = record {
  zero_int = 0;
  zero_float = codes "0";
  decode = λ s. s;
  int = last_digit;
  float = λ s. some s;
}

abbrev line : Text → Text
line s = s ++ 13 ∷ 10 ∷ []

abbrev first_chunk : Text
first_chunk = line (codes "frame=7") ++ line (codes "stream_0_0_q=28.0") ++ codes "bitra"

abbrev second_chunk : Text
second_chunk =
    codes "te=25.5kbits/s" ++ 10 ∷ [] ++ line (codes "progress=continue") ++ codes "frame"

abbrev parsed : ProgressFrame ℕ Text
parsed = record {
  frame = 7;
  fps = codes "0";
  bitrate_kbps = codes "25.5";
  out_time_us = 0;
  dup_frames = 0;
  drop_frames = 0;
  speed = codes "0";
  progress = continue;
}

abbrev run_pump :
    List Text → List (Result ProgressParseError (List (ProgressFrame ℕ Text))) × ProgressParser
run_pump chunks = pump readers chunks new

pump_two :
    run_pump (first_chunk ∷ second_chunk ∷ [])
    ≡ (ok [] ∷ ok (parsed ∷ []) ∷ [], record { buf = codes "frame"; pairs = [] })
unfolding pump parse_chunk feed drain on_line with_line build_frame parse_int parse_float
    parse_bitrate parse_speed rstrip drop_last restream_plus.Fanout.Redaction.split_line
    restream_plus.Auth.ClientIp.up_to restream_plus.Base.Dict.get restream_plus.Base.Dict.put
    restream_plus.Fanout.ProgressParser.exceeds
pump_two = refl

chunks-IsQuiet : IsQuiet readers (first_chunk ∷ second_chunk ∷ []) new
unfolding pump parse_chunk feed drain on_line with_line build_frame parse_int parse_float
    parse_bitrate parse_speed rstrip drop_last restream_plus.Fanout.Redaction.split_line
    restream_plus.Auth.ClientIp.up_to restream_plus.Base.Dict.get restream_plus.Base.Dict.put
    restream_plus.Fanout.ProgressParser.exceeds
chunks-IsQuiet = (refl, (refl, tt))

pump-joined_example :
    let chunks = first_chunk ∷ second_chunk ∷ [] in
    let d = feed readers (joined readers chunks) new in
    (d.raised ≡ none)
    × (frames_in readers (run_pump chunks).0 ≡ d.frames)
    × ((run_pump chunks).1 ≡ d.parser)
pump-joined_example = pump-joined readers (first_chunk ∷ second_chunk ∷ []) chunks-IsQuiet

pump-IsCapped_example :
    let (answers, p) = run_pump (first_chunk ∷ []) in
    All (IsFewPairs readers) answers × IsCapped readers p
pump-IsCapped_example = pump-IsCapped readers (first_chunk ∷ [])
