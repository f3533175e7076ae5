-- ===== src/Fanout/Redaction/Pump.antt =====
-- app/fanout/ffmpeg_worker.py: `_stderr_pump` and `_consume_stderr_line`, over the reads up to the end of
-- the stream. `log_ring` is what `recent_log_lines` returns, `logged` what went to the logger.
use restream_plus.Logging.Redact.{occurs}
use restream_plus.Base.Texts.{Text}
use restream_plus.Fanout.Redaction.Lines.{redact_line-hides, take-hides}
use restream_plus.Logging.Replace.{has_star}
use restream_plus.Fanout.Redaction.{
  drain_lines, flush, feed, force_split, split_line, force_split_threshold, take,
}
use restream_plus.Base.{
  ℕ, List, drop, ◌∷◌, All, length, ◌++◌, [], ◌≡◌, suc, false, ◌-◌, zero, ◌≤◌, arith, Option-cases,
  inr, inl, Bool-cases, ltb, All-drop, All-append, length-drop,
}

abbrev pub log_ring_lines : ℕ
log_ring_lines = 200

pub record StderrPump : Type 0 where
  pub sink : Text
  pub log_ring : List Text
  pub logged : List Text

-- `deque(maxlen=n).append`
unfoldable pub append_bounded {ℓ} : {A : Type ℓ} → ℕ → A → List A → List A
append_bounded n x xs = drop (length (xs ++ x ∷ []) - n) (xs ++ x ∷ [])

unfoldable pub consume_stderr_line : Text → StderrPump → StderrPump
consume_stderr_line line p = record p {
  log_ring = append_bounded log_ring_lines line p.log_ring;
  logged = p.logged ++ line ∷ [];
}

unfoldable pub consume_all : List Text → StderrPump → StderrPump
consume_all [] p = p
consume_all (line ∷ lines) p = consume_all lines (consume_stderr_line line p)

module _ (max_len : ℕ) (url : Text) where
  -- The loop, on the reads that are not empty; the end of the list is the end of the stream.
  unfoldable pub stderr_pump : List Text → StderrPump → StderrPump
  stderr_pump [] p = record (consume_all (flush max_len url p.sink) p) { sink = [] }
  stderr_pump (chunk ∷ chunks) p =
      let (lines, kept) = feed max_len url p.sink chunk in
      stderr_pump chunks (record (consume_all lines p) { sink = kept })

-- No line that was kept or logged holds the whole URL, and the ring is not over its bound.
record Hides (url : Text) (p : StderrPump) : Type 0 where
  ring_hides : All (λ line. occurs url line ≡ false) p.log_ring
  log_hides : All (λ line. occurs url line ≡ false) p.logged
  bounded : length p.log_ring ≤ log_ring_lines

sink-Hides : (url buf : Text) (p : StderrPump) → Hides url p → Hides url (record p { sink = buf })
sink-Hides url buf p k = record {
  ring_hides = k.ring_hides;
  log_hides = k.log_hides;
  bounded = k.bounded;
}

consume-Hides :
    (url line : Text) (p : StderrPump)
    → occurs url line ≡ false
    → Hides url p
    → Hides url (consume_stderr_line line p)
unfolding consume_stderr_line append_bounded
consume-Hides url line p h k = record {
  ring_hides =
      All-drop (λ l. occurs url l ≡ false) (length (p.log_ring ++ line ∷ []) - log_ring_lines)
        (p.log_ring ++ line ∷ [])
        (All-append (λ l. occurs url l ≡ false) p.log_ring (line ∷ []) k.ring_hides (h, tt));
  log_hides = All-append (λ l. occurs url l ≡ false) p.logged (line ∷ []) k.log_hides (h, tt);
  bounded = omega (
    arith,
    length-drop (length (p.log_ring ++ line ∷ []) - log_ring_lines) (p.log_ring ++ line ∷ []),
  );
}

consume_all-Hides :
    (url : Text) (lines : List Text) (p : StderrPump)
    → All (λ line. occurs url line ≡ false) lines
    → Hides url p
    → Hides url (consume_all lines p)
unfolding consume_all
consume_all-Hides url [] p h k = k
consume_all-Hides url (line ∷ lines) p h k =
    consume_all-Hides url lines (consume_stderr_line line p) h.1 (consume-Hides url line p h.0 k)

module _ (max_len : ℕ) (url : Text) (plain : has_star url ≡ false) (long : 12 ≤ length url) where
  -- Every line of the loop of `feed` went through both passes.
  drain_lines-hides :
      (fuel : ℕ) (buf : Text)
      → All (λ line. occurs url line ≡ false) (drain_lines max_len url fuel buf).0
  unfolding drain_lines force_split
  drain_lines-hides zero buf = tt
  drain_lines-hides (suc fuel) buf = elim (Option-cases (split_line buf)) [
    | inr ((line, rest), e) ↦
        rw (e, drain_lines) (redact_line-hides url plain long line, drain_lines-hides fuel rest)
    | inl n ↦ elim (Bool-cases (ltb (length buf) (force_split_threshold max_len url))) [
      | inl short ↦ rw (n, short, drain_lines) tt
      | inr full ↦
          rw (n, full, drain_lines)
            (
              take-hides url plain long max_len (take (force_split_threshold max_len url) buf),
              drain_lines-hides fuel (force_split max_len url buf).1,
            )
    ]
  ]

  flush-hides : (buf : Text) → All (λ line. occurs url line ≡ false) (flush max_len url buf)
  unfolding flush
  flush-hides [] = tt
  flush-hides (c ∷ buf) = (redact_line-hides url plain long (c ∷ buf), tt)

  -- Whatever is read and however long its lines are: when no line that was kept or logged before holds the
  -- whole URL and the ring holds at most 200 of them, the same is so at the end of the stream; for a URL
  -- without stars and of at least 12 bytes. Of the parts of a URL it says nothing.
  stderr_pump-Hides :
      (chunks : List Text) (p : StderrPump)
      → Hides url p
      → Hides url (stderr_pump max_len url chunks p)
  unfolding stderr_pump feed flush
  stderr_pump-Hides [] p k =
      sink-Hides url [] (consume_all (flush max_len url p.sink) p)
        (consume_all-Hides url (flush max_len url p.sink) p (flush-hides p.sink) k)
  stderr_pump-Hides (chunk ∷ chunks) p k =
      let (lines, kept) = feed max_len url p.sink chunk in
      stderr_pump-Hides chunks (record (consume_all lines p) { sink = kept })
        (sink-Hides url kept (consume_all lines p) (
          consume_all-Hides url lines p
            (drain_lines-hides (suc (length (p.sink ++ chunk))) (p.sink ++ chunk)) k))
