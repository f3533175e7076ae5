-- ===== src/Fanout/ProgressParser/Chunks.antt =====
-- app/fanout/progress_parser.py: how the output is cut into chunks does not matter.
use restream_plus.Fanout.ProgressParser.Drain.{
  continued, drain-continued, raised-add_frame, parser-add_frame,
}
use mathlib.Core.List.{append_assoc, append-nil}
use restream_plus.Fanout.ProgressParser.{
  ProgressParser, ProgressFrame, Drained, drain, feed, on_line, exceeds, text_of,
  ProgressParseError, progress_line_max_len, pump, new, parse_chunk, Readers,
}
use restream_plus.Fanout.Redaction.{split_line}
use restream_plus.Fanout.Redaction.Drain.{length-split_line}
use restream_plus.Base.Texts.{Text}
use restream_plus.Base.{
  ℕ, [], ◌∷◌, false, none, ◌≡◌, refl, length, ◌++◌, Bool-cases, ◌<◌, arith, inl, suc, inr,
  Option-cases, zero, sym, ◌∙◌, ap, List, Result, err, ok, ◌≤◌, ltb,
}

module _ {Int Float : Type 0} (r : Readers Int Float) where
  -- Two chunks in a row are their concatenation, when the first one raises nothing.
  feed-continued :
      (c t : Text) (p : ProgressParser)
      → (feed r c p).raised ≡ none
      → feed r (c ++ t) p ≡ continued r (feed r c p) t
  unfolding feed
  feed-continued c t p quiet =
      let p1 : ProgressParser = record p { buf = p.buf ++ c } in
      ap (λ b. drain r (suc (length b)) (record p { buf = b })) (sym (append_assoc p.buf c t))
      ∙ drain-continued r (suc (length (p.buf ++ c))) p1 t (omega arith) quiet

  abbrev pub frames_in :
      List (Result ProgressParseError (List (ProgressFrame Int Float)))
      → List (ProgressFrame Int Float)
  frames_in [] = []
  frames_in (err e ∷ answers) = frames_in answers
  frames_in (ok frames ∷ answers) = frames ++ frames_in answers

  -- No chunk raises an exception.
  abbrev pub IsQuiet : List Text → ProgressParser → Type 0
  IsQuiet [] p = Unit
  IsQuiet (c ∷ chunks) p = ((feed r c p).raised ≡ none) × IsQuiet chunks (feed r c p).parser

  -- A parser that no feed is needed for: no line is complete, and the one that is not is not too long.
  abbrev pub IsSettled : ProgressParser → Type 0
  IsSettled p = (split_line p.buf ≡ none) × (length p.buf ≤ progress_line_max_len)

  feed-nothing :
      (p : ProgressParser)
      → IsSettled p
      → feed r [] p ≡ record { frames = []; parser = p; raised = none }
  unfolding feed drain
  feed-nothing p settled =
      let short : ltb progress_line_max_len (length p.buf) ≡ false = ground (arith, settled.1) in
      ap (λ b. drain r (suc (length b)) (record p { buf = b })) (append-nil p.buf)
      ∙ rw (drain, settled.0, short) refl

  drain-IsSettled :
      (fuel : ℕ) (p : ProgressParser)
      → length p.buf < fuel
      → (drain r fuel p).raised ≡ none
      → IsSettled (drain r fuel p).parser
  unfolding drain
  drain-IsSettled zero p enough quiet = ground (arith, enough)
  drain-IsSettled (suc fuel) p enough quiet = elim (Option-cases (split_line p.buf)) [
    | inl q ↦
        rw (drain, q)
          (
            q,
            elim (Bool-cases (ltb progress_line_max_len (length p.buf))) [
              | inl long ↦ cc (rw (drain, q, long) at quiet)
              | inr short ↦ ground (arith, short)
            ],
          )
    | inr (found, q) ↦
        let line = text_of r found.0 in
        elim (Bool-cases (exceeds r line p.pairs)) [
          | inl over ↦ cc (rw (drain, q, over) at quiet)
          | inr fits ↦
              let (frame, pairs) = on_line r line p.pairs in
              let p1 : ProgressParser = record { buf = found.1; pairs = pairs } in
              let d = drain r fuel p1 in
              let quiet1 = raised-add_frame r frame d in
              let ih =
                drain-IsSettled fuel p1 (omega (arith, enough, length-split_line p.buf found q))
                  (sym quiet1 ∙ (rw (drain, q, fits) at quiet)) in
              rw (drain, q, fits, parser-add_frame r frame d) ih
        ]
  ]

  abbrev pub joined : List Text → Text
  joined [] = []
  joined (c ∷ chunks) = c ++ joined chunks

  feed-IsSettled :
      (c : Text) (p : ProgressParser) → (feed r c p).raised ≡ none → IsSettled (feed r c p).parser
  unfolding feed
  feed-IsSettled c p quiet =
      drain-IsSettled (suc (length (p.buf ++ c))) (record p { buf = p.buf ++ c }) (omega arith)
        quiet

  feed-joined :
      (chunks : List Text) (p : ProgressParser)
      → IsSettled p
      → IsQuiet chunks p
      → feed r (joined chunks) p ≡ (record {
        frames = frames_in (pump r chunks p).0;
        parser = (pump r chunks p).1;
        raised = none;
      })
  unfolding pump parse_chunk
  feed-joined [] p settled quiet = feed-nothing p settled
  feed-joined (c ∷ chunks) p settled quiet =
      let ih = feed-joined chunks (feed r c p).parser (feed-IsSettled c p quiet.0) quiet.1 in
      feed-continued c (joined chunks) p quiet.0
      ∙ (ap
            (λ (a : Drained Int Float).
              let b : Drained Int Float = record a { frames = (feed r c p).frames ++ a.frames } in
              b)
            ih
          ∙ rw (parse_chunk, quiet.0) refl)

  -- However the output is cut into chunks, when no chunk raises an exception, the frames are those of
  -- the whole output fed at once, in the same order, and so is the parser behind it.
  pub pump-joined :
      (chunks : List Text)
      → IsQuiet chunks new
      → let d = feed r (joined chunks) new in
        (d.raised ≡ none)
        × (frames_in (pump r chunks new).0 ≡ d.frames)
        × ((pump r chunks new).1 ≡ d.parser)
  unfolding split_line
  pump-joined chunks quiet =
      let e = feed-joined chunks new (refl, omega arith) quiet in
      (ap (λ d. d.raised) e, ap (λ d. d.frames) (sym e), ap (λ d. d.parser) (sym e))
