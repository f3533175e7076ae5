-- ===== src/Fanout/Redaction/Output.antt =====
-- app/fanout/redaction.py and `_stderr_pump` of app/fanout/ffmpeg_worker.py: what is logged of an output.
use restream_plus.Base.Texts.{Text}
use restream_plus.Base.{
  refl, ◌∙◌, ap, List, ◌∷◌, [], ◌≡◌, ◌++◌, map, none, length, ◌+◌, suc, arith, ℕ,
}
use mathlib.Core.List.{append-nil, append_assoc, map-append, flatten}
use restream_plus.Fanout.Redaction.{redact_line, split_line, feed, flush}
use restream_plus.Fanout.Redaction.Reads.{
  IsShort, IsShort-front, IsShort-rest, lines_of, output_lines, lines_of-append,
  lines_of-unfinished, drain_lines-short, split_line-none,
}
use restream_plus.Fanout.Redaction.Pump.{StderrPump, stderr_pump, consume_all, consume_stderr_line}

consume_all-logged :
    (lines : List Text) (p : StderrPump) → (consume_all lines p).logged ≡ p.logged ++ lines
unfolding consume_all consume_stderr_line
consume_all-logged [] p = rw (append-nil p.logged) refl
consume_all-logged (line ∷ lines) p =
    consume_all-logged lines (consume_stderr_line line p) ∙ append_assoc p.logged (line ∷ []) lines

-- The lines of an output are those of its first part and those of what is left with the rest.
output_lines-append :
    (a b : Text) → output_lines (a ++ b) ≡ (lines_of a).0 ++ output_lines ((lines_of a).1 ++ b)
unfolding output_lines
output_lines-append a b =
    rw (lines_of-append a b) (append_assoc (lines_of a).0 (lines_of ((lines_of a).1 ++ b)).0 _)

module _ (max_len : ℕ) (url : Text) where
  flush-output :
      (buf : Text)
      → lines_of buf ≡ ([], buf)
      → flush max_len url buf ≡ map (redact_line url) (output_lines buf)
  unfolding flush output_lines lines_of
  flush-output [] h = refl
  flush-output (c ∷ buf) h = rw h refl

  -- One read.
  stderr_pump-cons :
      (chunk : Text) (chunks : List Text) (p : StderrPump) (fed : List Text × Text)
      → feed max_len url p.sink chunk ≡ fed
      → (stderr_pump max_len url (chunk ∷ chunks) p).logged
        ≡ (stderr_pump max_len url chunks (record (consume_all fed.0 p) { sink = fed.1 })).logged
  unfolding stderr_pump
  stderr_pump-cons chunk chunks p fed e = rw (e, stderr_pump) refl

  pump_logs :
      (chunks : List Text) (p : StderrPump)
      → lines_of p.sink ≡ ([], p.sink)
      → IsShort (max_len + length url) 0 (p.sink ++ flatten chunks)
      → (stderr_pump max_len url chunks p).logged
        ≡ p.logged ++ map (redact_line url) (output_lines (p.sink ++ flatten chunks))
  unfolding stderr_pump flatten feed
  pump_logs [] p h short = rw (append-nil p.sink) (
      consume_all-logged (flush max_len url p.sink) p
      ∙ ap (λ lines. p.logged ++ lines) (flush-output p.sink h))
  pump_logs (chunk ∷ chunks) p h short =
      let buf = p.sink ++ chunk in
      let lines = map (redact_line url) (lines_of buf).0 in
      let kept = (lines_of buf).1 in
      let rest = flatten chunks in
      let whole = rw (← append_assoc p.sink chunk rest) at short in
      let fed =
        drain_lines-short max_len url (suc (length buf)) buf (omega arith)
          (IsShort-front (max_len + length url) 0 buf rest whole) in
      let ih =
        pump_logs chunks (record (consume_all lines p) { sink = kept }) (lines_of-unfinished buf)
          (IsShort-rest (max_len + length url) buf rest whole) in
      stderr_pump-cons chunk chunks p (lines, kept) fed
      ∙ ih
      ∙ rw
          (
            consume_all-logged lines p,
            ← append_assoc p.sink chunk rest,
            output_lines-append buf rest,
            map-append (redact_line url) (lines_of buf).0 (output_lines (kept ++ rest)),
          )
          (append_assoc p.logged lines (map (redact_line url) (output_lines (kept ++ rest))))

  -- However ffmpeg's output is cut into reads, what is logged to the end of the stream are exactly the lines
  -- of what the buffer held and the reads together hold, the last of them with or without a newline, each
  -- redacted as a whole; when the buffer holds no newline and no line is as long as the line cap and the URL
  -- together.
  pub stderr_pump-lines :
      (chunks : List Text) (p : StderrPump)
      → split_line p.sink ≡ none
      → IsShort (max_len + length url) 0 (p.sink ++ flatten chunks)
      → (stderr_pump max_len url chunks p).logged
        ≡ p.logged ++ map (redact_line url) (output_lines (p.sink ++ flatten chunks))
  stderr_pump-lines chunks p no_line short =
      pump_logs chunks p (split_line-none p.sink no_line) short
