-- ===== src/Fanout/Redaction/Match.antt =====
-- app/fanout/redaction.py: what `_RTMP_TAIL_RE` matches.
use mathlib.Core.List.{append_assoc}
use restream_plus.Fanout.Redaction.{
  run_of, segment, scheme, match_tail, is_path_char, is_key_char, slash,
}
use restream_plus.Base.Texts.{Text, codes, starts_with, is_empty}
use restream_plus.Base.{
  ℕ, Bool, ◌≡◌, ◌++◌, ◌∷◌, true, ◌≤◌, some, Bool-cases, drop, ap, length, inl, arith, [], inr, refl,
  ◌∙◌, Option-cases, if◌then◌else◌, none, length-append, eqb, leb, leb→le,
}

run_of-joins : (p : ℕ → Bool) (s : Text) → (run_of p s).0 ++ (run_of p s).1 ≡ s
unfolding run_of
run_of-joins p [] = refl
run_of-joins p (c ∷ s) = elim (Bool-cases (p c)) [
  | inl goes_on ↦ rw goes_on (ap (λ t. c ∷ t) (run_of-joins p s))
  | inr stop ↦ rw stop refl
]

front-joins : (p s : Text) → starts_with p s ≡ true → p ++ drop (length p) s ≡ s
front-joins [] s h = refl
front-joins (d ∷ p) [] h = cc
front-joins (d ∷ p) (c ∷ s) h = ground (arith, front-joins p s)

-- What a piece of the pattern takes from the front of the text.
record Takes (least : ℕ) (s : Text) (piece : Text × Text) : Type 0 where
  joins : piece.0 ++ piece.1 ≡ s
  enough : least ≤ length piece.0

module _ (s : Text) where
  scheme-Takes : (piece : Text × Text) → scheme s ≡ some piece → Takes 7 s piece
  unfolding scheme
  scheme-Takes piece h = elim (Bool-cases (starts_with (codes "rtmps://") s)) [
    | inl secure ↦
        let e : (codes "rtmps://", drop 8 s) ≡ piece = cc (rw secure at h) in
        rw (← e) (record { joins = front-joins (codes "rtmps://") s secure; enough = omega arith })
    | inr insecure ↦ elim (Bool-cases (starts_with (codes "rtmp://") s)) [
      | inl plain ↦
          let e : (codes "rtmp://", drop 7 s) ≡ piece = cc (rw (insecure, plain) at h) in
          rw (← e) (record { joins = front-joins (codes "rtmp://") s plain; enough = omega arith })
      | inr other ↦ cc (rw (insecure, other) at h)
    ]
  ]

  segment_splits :
      (run rest : Text) (piece : Text × Text)
      → (if is_empty run then none else elim rest [
        | [] ↦ none
        | c ∷ more ↦ if eqb c slash then some (run ++ c ∷ [], more) else none
      ])
        ≡ some piece
      → run ++ rest ≡ s
      → Takes 2 s piece
  segment_splits [] rest piece h j = cc
  segment_splits (d ∷ run) [] piece h j = cc
  segment_splits (d ∷ run) (c ∷ more) piece h j = elim (Bool-cases (eqb c slash)) [
    | inl ends ↦
        let e : (d ∷ (run ++ c ∷ []), more) ≡ piece = cc (rw ends at h) in
        rw (← e) (record {
          joins = append_assoc (d ∷ run) (c ∷ []) more ∙ j;
          enough = omega (arith, length-append run (c ∷ []));
        })
    | inr goes_on ↦ cc (rw goes_on at h)
  ]

  segment-Takes : (piece : Text × Text) → segment s ≡ some piece → Takes 2 s piece
  unfolding segment
  segment-Takes piece h =
      let (run, rest) = run_of is_path_char s in
      segment_splits run rest piece h (run_of-joins is_path_char s)

-- A match: both groups, and what follows them.
pub record Matched (s : Text) (found : Text × Text × Text) : Type 0 where
  pub joins : found.0 ++ (found.1 ++ found.2) ≡ s
  pub group_enough : 11 ≤ length found.0
  pub key_enough : 8 ≤ length found.1

three_pieces :
    (x y z s r1 r2 r3 : Text)
    → Takes 7 s (x, r1)
    → Takes 2 r1 (y, r2)
    → Takes 2 r2 (z, r3)
    → ((x ++ (y ++ z)) ++ r3 ≡ s) × (11 ≤ length (x ++ (y ++ z)))
three_pieces x y z s r1 r2 r3 a b c = (
  append_assoc x (y ++ z) r3
      ∙ ap (λ t. x ++ t) (append_assoc y z r3 ∙ ap (λ t. y ++ t) c.joins ∙ b.joins)
      ∙ a.joins,
  omega (arith, length-append x (y ++ z), length-append y z, a.enough, b.enough, c.enough),
)

pub match_tail-Matched :
    (s : Text) (found : Text × Text × Text) → match_tail s ≡ some found → Matched s found
unfolding match_tail
match_tail-Matched s found h = elim (Option-cases (scheme s)) [
  | inl n ↦ cc (rw (n, match_tail) at h)
  | inr ((x, r1), e1) ↦ elim (Option-cases (segment r1)) [
    | inl n ↦ cc (rw (e1, n, match_tail) at h)
    | inr ((y, r2), e2) ↦ elim (Option-cases (segment r2)) [
      | inl n ↦ cc (rw (e1, e2, n, match_tail) at h)
      | inr ((z, r3), e3) ↦
          let (tail, left) = run_of is_key_char r3 in
          elim (Bool-cases (leb 8 (length tail))) [
            | inr short ↦ cc (rw (e1, e2, e3, short, match_tail) at h)
            | inl long ↦
                let these : Text × Text × Text = (x ++ (y ++ z), tail, left) in
                let e : these ≡ found = cc (rw (e1, e2, e3, long, match_tail) at h) in
                let pieces =
                  three_pieces x y z s r1 r2 r3 (scheme-Takes s (x, r1) e1)
                    (segment-Takes r1 (y, r2) e2) (segment-Takes r2 (z, r3) e3) in
                rw (← e) (record {
                  joins = ap (λ t. (x ++ (y ++ z)) ++ t) (run_of-joins is_key_char r3) ∙ pieces.0;
                  group_enough = pieces.1;
                  key_enough = leb→le 8 (length tail) long;
                })
          ]
    ]
  ]
]
