-- ===== src/Fanout/ProgressParser/Drain.antt =====
-- app/fanout/progress_parser.py: the loop on a buffer that is continued.
use restream_plus.Fanout.ProgressParser.{
  ProgressParser, ProgressFrame, Drained, drain, feed, on_line, exceeds, text_of, add_frame,
  Readers,
}
use restream_plus.Fanout.Redaction.{split_line, newline}
use restream_plus.Fanout.Redaction.Drain.{length-split_line}
use restream_plus.Base.Texts.{Text}
use restream_plus.Base.{
  ℕ, [], ◌∷◌, true, false, Option, none, some, ◌≡◌, refl, length, ◌++◌, Bool-cases, ◌<◌, eqb, arith,
  inl, suc, inr, Option-cases, zero, sym, ◌∙◌, length-append, ap,
}

split_line_here : (c : ℕ) (s : Text) → eqb c newline ≡ true → split_line (c ∷ s) ≡ some ([], s)
unfolding split_line
split_line_here c s ends = elim (Option-cases (split_line s)) [
  | inl n ↦ rw (split_line, n, ends) refl
  | inr (p, q) ↦ rw (split_line, q, ends) refl
]

pub split_line-append :
    (s t : Text) (found : Text × Text)
    → split_line s ≡ some found
    → split_line (s ++ t) ≡ some (found.0, found.1 ++ t)
unfolding split_line
split_line-append [] t found h = cc h
split_line-append (c ∷ s) t found h = elim (Bool-cases (eqb c newline)) [
  | inl ends ↦
      let e : ([], s) ≡ found = cc (split_line_here c s ends, h) in
      rw (← e) (split_line_here c (s ++ t) ends)
  | inr goes_on ↦ elim (Option-cases (split_line s)) [
    | inl n ↦ cc (rw (n, goes_on, split_line) at h)
    | inr (p, q) ↦
        let these : Text × Text = (c ∷ p.0, p.1) in
        let e : these ≡ found = cc (rw (q, goes_on, split_line) at h) in
        rw (← e) (rw (split_line, split_line-append s t p q, goes_on) refl)
  ]
]

module _ {Int Float : Type 0} (r : Readers Int Float) where
  -- Fuel above the length of the buffer changes nothing.
  pub drain_fuel :
      (m n : ℕ) (p : ProgressParser)
      → length p.buf < m
      → length p.buf < n
      → drain r m p ≡ drain r n p
  unfolding drain
  drain_fuel zero n p a b = ground (arith, a)
  drain_fuel (suc m) zero p a b = ground (arith, b)
  drain_fuel (suc m) (suc n) p a b = elim (Option-cases (split_line p.buf)) [
    | inl q ↦ rw (drain, q) refl
    | inr (found, q) ↦
        let line = text_of r found.0 in
        let (frame, pairs) = on_line r line p.pairs in
        let shorter = length-split_line p.buf found q in
        let ih =
          drain_fuel m n (record { buf = found.1; pairs = pairs }) (omega (arith, a, shorter))
            (omega (arith, b, shorter)) in
        rw (drain, q, ih) refl
  ]

  -- The rest of the output is fed to the parser that a first run left.
  abbrev pub continued : Drained Int Float → Text → Drained Int Float
  continued d t =
      let after = feed r t d.parser in record after { frames = d.frames ++ after.frames }

  add_frame-continued :
      (frame : Option (ProgressFrame Int Float)) (d : Drained Int Float) (t : Text)
      → add_frame r frame (continued d t) ≡ continued (add_frame r frame d) t
  add_frame-continued none d t = refl
  add_frame-continued (some frame) d t = refl

  pub raised-add_frame :
      (frame : Option (ProgressFrame Int Float)) (d : Drained Int Float)
      → (add_frame r frame d).raised ≡ d.raised
  raised-add_frame none d = refl
  raised-add_frame (some frame) d = refl

  pub parser-add_frame :
      (frame : Option (ProgressFrame Int Float)) (d : Drained Int Float)
      → (add_frame r frame d).parser ≡ d.parser
  parser-add_frame none d = refl
  parser-add_frame (some frame) d = refl

  pub feed_line :
      (p : ProgressParser) (t : Text) (found : Text × Text)
      → split_line p.buf ≡ some found
      → exceeds r (text_of r found.0) p.pairs ≡ false
      → let (frame, pairs) = on_line r (text_of r found.0) p.pairs in
        feed r t p ≡ add_frame r frame (feed r t (record { buf = found.1; pairs = pairs }))
  unfolding feed drain
  feed_line p t found q fits =
      let (frame, pairs) = on_line r (text_of r found.0) p.pairs in
      let shorter : length (found.1 ++ t) < length (p.buf ++ t) =
        omega (
          arith,
          length-append found.1 t,
          length-append p.buf t,
          length-split_line p.buf found q,
        ) in
      let same =
        drain_fuel (length (p.buf ++ t)) (suc (length (found.1 ++ t)))
          (record { buf = found.1 ++ t; pairs = pairs }) shorter (omega arith) in
      rw (feed, drain, split_line-append p.buf t found q, fits) (ap (add_frame r frame) same)

  pub drain-continued :
      (fuel : ℕ) (p : ProgressParser) (t : Text)
      → length p.buf < fuel
      → (drain r fuel p).raised ≡ none
      → feed r t p ≡ continued (drain r fuel p) t
  unfolding drain
  drain-continued zero p t enough quiet = ground (arith, enough)
  drain-continued (suc fuel) p t enough quiet = elim (Option-cases (split_line p.buf)) [
    | inl q ↦ rw (drain, q) refl
    | inr (found, q) ↦
        let line = text_of r found.0 in
        elim (Bool-cases (exceeds r line p.pairs)) [
          | inl over ↦ cc (rw (drain, q, over) at quiet)
          | inr fits ↦
              let (frame, pairs) = on_line r line p.pairs in
              let p1 : ProgressParser = record { buf = found.1; pairs = pairs } in
              let quiet1 = raised-add_frame frame (drain r fuel p1) in
              let ih =
                drain-continued fuel p1 t (omega (arith, enough, length-split_line p.buf found q))
                  (sym quiet1 ∙ (rw (drain, q, fits) at quiet)) in
              let step : drain r (suc fuel) p ≡ add_frame r frame (drain r fuel p1) =
                rw (drain, q, fits) refl in
              feed_line p t found q fits
              ∙ (ap (add_frame r frame) ih
                  ∙ (add_frame-continued frame (drain r fuel p1) t
                      ∙ ap (λ d. continued d t) (sym step)))
        ]
  ]
