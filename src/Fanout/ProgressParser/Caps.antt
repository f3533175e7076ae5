-- ===== src/Fanout/ProgressParser/Caps.antt =====
-- app/fanout/progress_parser.py: the caps.
use restream_plus.Fanout.ProgressParser.{
  ProgressParser, ProgressParseError, ProgressFrame, Drained, drain, feed, on_line, exceeds,
  text_of, add_frame, with_line, interest, is_pair, key_of, pump, parse_chunk, line_exceeded,
  frame_exceeded, progress_line_max_len, new, equals_sign, Readers,
}
use restream_plus.Fanout.Redaction.{split_line}
use restream_plus.Fanout.Redaction.Drain.{length-split_line}
use restream_plus.Base.Dict.{
  Dict, get, remove, contains, IsUnique, length-remove, remove-IsUnique, put-IsUnique, contains-put,
  contains-remove,
}
use restream_plus.Base.Texts.{Text, same_text, same_text_iff, text_eq, codes}
use restream_plus.Base.{
  ℕ, List, [], ◌∷◌, Bool, true, false, Option, none, some, ◌≡◌, refl, any, length, ◌≤◌, arith,
  Bool-cases, same_refl, ◌<◌, if◌then◌else◌, ◌==◌, inr, ltb, suc, inl, Option-cases, zero, drop,
  Result, ◌∙◌, All, ◌++◌, ◌&&◌, eqb, ◌≢◌, err,
}

-- Every key is one of `ks`.
abbrev IsKnown : List Text → Dict Text Text → Type 0
IsKnown ks d = (k : Text) → contains k d ≡ true → any (same_text k) ks ≡ true

IsKnown-remove :
    (j : Text) (ks : List Text) (d : Dict Text Text) → IsKnown (j ∷ ks) d → IsKnown ks (remove j d)
IsKnown-remove j ks d known k h = elim (Bool-cases (j == k)) [
  | inl same ↦ cc (rw (contains-remove j k d, same) at h)
  | inr other ↦ elim (Bool-cases (same_text k j)) [
    | inl again ↦ cc (rw ((same_text_iff k j).0 again, same_refl text_eq j) at other)
    | inr different ↦ rw different at (known k (rw (contains-remove j k d, other) at h))
  ]
]

-- A dict has no more entries than there are keys to have.
length_known :
    (ks : List Text) (d : Dict Text Text) → IsUnique d → IsKnown ks d → length d ≤ length ks
unfolding get
length_known [] [] u known = omega arith
length_known [] ((k, v) ∷ d) u known = cc (known k (rw (same_refl text_eq k) refl))
length_known (j ∷ ks) d u known = omega (
  arith,
  length-remove j d u,
  length_known ks (remove j d) (remove-IsUnique j d u) (IsKnown-remove j ks d known),
)

-- The pairs of a frame: unique keys of interest.
pub record IsTidy (p : ProgressParser) : Type 0 where
  pub unique : IsUnique p.pairs
  pub known : IsKnown interest p.pairs

length-IsTidy : (p : ProgressParser) → IsTidy p → length p.pairs ≤ 8
length-IsTidy p tidy = length_known interest p.pairs tidy.unique tidy.known

both_right : (a b : Bool) → (a && b) ≡ true → b ≡ true
both_right true b h = h
both_right false b h = cc h

module _ {Int Float : Type 0} (r : Readers Int Float) where
  with_line-IsTidy :
      (line buf : Text) (p : ProgressParser)
      → IsTidy p
      → is_pair r line ≡ true
      → IsTidy (record { buf = buf; pairs = with_line r line p.pairs })
  unfolding with_line
  with_line-IsTidy line buf p tidy is =
      let key = key_of r line in
      let value = drop (suc (length key)) line in
      let of_interest : any (same_text key) interest ≡ true =
        both_right (any (λ c. eqb c equals_sign) line) (any (same_text key) interest) is in
      record {
        unique = put-IsUnique key value p.pairs tidy.unique;
        known = λ k h. elim (Bool-cases (same_text key k)) [
          | inl same ↦ rw (← (same_text_iff key k).0 same) of_interest
          | inr other ↦ tidy.known k (rw (contains-put key k value p.pairs, other) at h)
        ];
      }

  exceeds_never : (line : Text) (p : ProgressParser) → IsTidy p → exceeds r line p.pairs ≡ false
  unfolding exceeds
  exceeds_never line p tidy = elim (Bool-cases (is_pair r line)) [
    | inr other ↦ rw (exceeds, other) refl
    | inl is ↦
        let few =
          length-IsTidy (record { buf = []; pairs = with_line r line p.pairs })
            (with_line-IsTidy line [] p tidy is) in
        rw (exceeds, is) (ground (arith, few))
  ]

  on_line-IsTidy :
      (line buf : Text) (p : ProgressParser)
      → IsTidy p
      → IsTidy (record { buf = buf; pairs = (on_line r line p.pairs).1 })
  unfolding on_line get
  on_line-IsTidy line buf p tidy = elim (Bool-cases (is_pair r line)) [
    | inr other ↦ rw (on_line, other) (record { unique = tidy.unique; known = tidy.known })
    | inl is ↦ elim (Bool-cases (same_text (key_of r line) (codes "progress"))) [
      | inl ends ↦ rw (on_line, is, ends) (record { unique = tt; known = λ k h. cc h })
      | inr goes_on ↦ rw (on_line, is, goes_on) (with_line-IsTidy line buf p tidy is)
    ]
  ]

  -- What the generator leaves when it is used up.
  pub record IsBounded (d : Drained Int Float) : Type 0 where
    pub tidy : IsTidy d.parser
    pub no_line : split_line d.parser.buf ≡ none
    pub raised_is :
        d.raised
        ≡ (if ltb progress_line_max_len (length d.parser.buf) then some line_exceeded else none)

  IsBounded-add_frame :
      (frame : Option (ProgressFrame Int Float)) (d : Drained Int Float)
      → IsBounded d
      → IsBounded (add_frame r frame d)
  IsBounded-add_frame none d h = h
  IsBounded-add_frame (some frame) d h = record {
    tidy = h.tidy;
    no_line = h.no_line;
    raised_is = h.raised_is;
  }

  drain-IsBounded :
      (fuel : ℕ) (p : ProgressParser) → length p.buf < fuel → IsTidy p → IsBounded (drain r fuel p)
  unfolding drain
  drain-IsBounded zero p enough tidy = ground (arith, enough)
  drain-IsBounded (suc fuel) p enough tidy = elim (Option-cases (split_line p.buf)) [
    | inl q ↦ rw (drain, q) (record { tidy = tidy; no_line = q; raised_is = refl })
    | inr (found, q) ↦
        let line = text_of r found.0 in
        let (frame, pairs) = on_line r line p.pairs in
        let p1 : ProgressParser = record { buf = found.1; pairs = pairs } in
        let ih =
          drain-IsBounded fuel p1 (omega (arith, enough, length-split_line p.buf found q))
            (on_line-IsTidy line found.1 p tidy) in
        rw (drain, q, exceeds_never line p tidy) (IsBounded-add_frame frame (drain r fuel p1) ih)
  ]

  -- The answers of the worker's loop whose exception is the one about too many pairs.
  abbrev pub IsFewPairs : Result ProgressParseError (List (ProgressFrame Int Float)) → Type 0
  IsFewPairs answer = answer ≢ err frame_exceeded

  -- Between two chunks.
  pub record IsCapped (p : ProgressParser) : Type 0 where
    pub tidy : IsTidy p
    pub pairs_le : length p.pairs ≤ 8
    pub no_line : split_line p.buf ≡ none
    pub buf_le : length p.buf ≤ progress_line_max_len

  feed-IsBounded : (chunk : Text) (p : ProgressParser) → IsTidy p → IsBounded (feed r chunk p)
  unfolding feed
  feed-IsBounded chunk p tidy =
      drain-IsBounded (suc (length (p.buf ++ chunk))) (record p { buf = p.buf ++ chunk })
        (omega arith) (record { unique = tidy.unique; known = tidy.known })

  IsCapped-new : IsCapped new
  unfolding split_line get
  IsCapped-new = record {
    tidy = record { unique = tt; known = λ k h. cc h };
    pairs_le = omega arith;
    no_line = refl;
    buf_le = omega arith;
  }

  parse_chunk-IsCapped :
      (chunk : Text) (p : ProgressParser)
      → IsTidy p
      → let (answer, p1) = parse_chunk r chunk p in IsFewPairs answer × IsCapped p1
  unfolding parse_chunk
  parse_chunk-IsCapped chunk p tidy =
      let d = feed r chunk p in
      let bounded = feed-IsBounded chunk p tidy in
      elim (Bool-cases (ltb progress_line_max_len (length d.parser.buf))) [
        | inl long ↦
            let raises : d.raised ≡ some line_exceeded = bounded.raised_is ∙ rw long refl in
            rw (parse_chunk, raises) ((λ e. cc e), IsCapped-new)
        | inr short ↦
            let quiet : d.raised ≡ none = bounded.raised_is ∙ rw short refl in
            rw (parse_chunk, quiet)
              (
                (λ e. cc e),
                record {
                  tidy = bounded.tidy;
                  pairs_le = length-IsTidy d.parser bounded.tidy;
                  no_line = bounded.no_line;
                  buf_le = ground (arith, short);
                },
              )
      ]

  pump_from-IsCapped :
      (chunks : List Text) (p : ProgressParser)
      → IsCapped p
      → let (answers, p1) = pump r chunks p in All IsFewPairs answers × IsCapped p1
  unfolding pump
  pump_from-IsCapped [] p capped = (tt, capped)
  pump_from-IsCapped (chunk ∷ chunks) p capped =
      let (few, capped1) = parse_chunk-IsCapped chunk p capped.tidy in
      let (all_few, capped2) = pump_from-IsCapped chunks (parse_chunk r chunk p).1 capped1 in
      ((few, all_few), capped2)

  -- Over any output, cut into any chunks, the buffer holds no newline and at most 256 bytes between two chunks, and the
  -- pairs are at most eight, with no key twice, so the exception for more than 64 pairs is never raised.
  pub pump-IsCapped :
      (chunks : List Text)
      → let (answers, p) = pump r chunks new in All IsFewPairs answers × IsCapped p
  pump-IsCapped chunks = pump_from-IsCapped chunks new IsCapped-new
