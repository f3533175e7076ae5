-- ===== src/Logging/Replace.antt =====
-- app/logging_setup.py: where a secret can occur in a text in which another was replaced.
use restream_plus.Logging.Redact.{redaction_placeholder, occurs, replace_all}
use restream_plus.Base.Texts.{Text, starts_with}
use restream_plus.Base.{
  ℕ, zero, suc, ◌≤◌, [], ◌∷◌, ◌++◌, Bool, true, false, ◌||◌, eqb, length, ◌≡◌, refl, arith,
  Bool-cases, inl, inr, ◌-◌, sym, ◌∙◌,
}

abbrev pub star : ℕ
star = 42

abbrev pub has_star : Text → Bool
has_star [] = false
has_star (c ∷ s) = eqb c star || has_star s

-- A star among the first `n` characters.
abbrev pub star_within : ℕ → Text → Bool
star_within n [] = false
star_within zero (c ∷ s) = false
star_within (suc n) (c ∷ s) = eqb c star || star_within n s

-- From wherever one starts in `q`, a star comes within `n` characters.
abbrev pub IsStarry : ℕ → Text → Type 0
IsStarry n [] = Unit {0}
IsStarry n (c ∷ q) = (star_within n (c ∷ q) ≡ true) × IsStarry n q

pub placeholder-IsStarry : IsStarry 12 redaction_placeholder
placeholder-IsStarry = (
  refl,
  (
    refl,
    (
      refl,
      (refl, (refl, (refl, (refl, (refl, (refl, (refl, (refl, (refl, (refl, (refl, tt))))))))))),
    ),
  ),
)

star_within_mono : (n m : ℕ) (q : Text) → n ≤ m → star_within n q ≡ true → star_within m q ≡ true
star_within_mono n m [] le h = cc
star_within_mono zero m (c ∷ q) le h = cc
star_within_mono (suc n) zero (c ∷ q) le h = absurd (omega arith)
star_within_mono (suc n) (suc m) (c ∷ q) le h = ground (arith, star_within_mono n m q (omega arith))

pub IsStarry-mono : (n m : ℕ) (q : Text) → n ≤ m → IsStarry n q → IsStarry m q
IsStarry-mono n m [] le h = tt
IsStarry-mono n m (c ∷ q) le h = (star_within_mono n m (c ∷ q) le h.0, IsStarry-mono n m q le h.1)

-- A text that stands at the front of `q ++ x` and reaches a star of `q` has it.
reaches_star :
    (s q x : Text)
    → star_within (length s) q ≡ true
    → starts_with s (q ++ x) ≡ true
    → has_star s ≡ true
reaches_star s [] x h m = cc
reaches_star [] (c ∷ q) x h m = cc
reaches_star (d ∷ s) (c ∷ q) x h m = ground (arith, reaches_star s q x)

-- No occurrence of a text without stars starts in `q`.
pub occurs_behind :
    (s q x : Text) → IsStarry (length s) q → has_star s ≡ false → occurs s (q ++ x) ≡ occurs s x
occurs_behind s [] x h plain = refl
occurs_behind s (c ∷ q) x h plain = elim (Bool-cases (starts_with s (c ∷ (q ++ x)))) [
  | inl m ↦ cc (reaches_star s (c ∷ q) x h.0 m, plain)
  | inr no_match ↦ rw no_match (occurs_behind s q x h.1 plain)
]

pub later : (p : Text) (c : ℕ) (t : Text) → occurs p t ≡ true → occurs p (c ∷ t) ≡ true
later p c t h = ground (arith, h)

pub long_absent : (p : Text) → 12 ≤ length p → occurs p [] ≡ false
long_absent [] h = absurd (omega arith)
long_absent (d ∷ p) h = refl

pub no_front_here :
    (p : Text) (c : ℕ) (s : Text) → starts_with p (c ∷ s) ≡ false → occurs p (c ∷ s) ≡ occurs p s
no_front_here p c s h = rw h refl

module _ (old : Text) where
  abbrev replaced : Text → ℕ → Text
  replaced t k = replace_all old redaction_placeholder t k

  -- What stands at the front of the result, and has no star, stood there before.
  starts_with-replaced :
      (p t : Text)
      → has_star p ≡ false
      → starts_with p (replaced t 0) ≡ true
      → starts_with p t ≡ true
  unfolding replace_all
  starts_with-replaced [] t plain m = refl
  starts_with-replaced (d ∷ p) [] plain m = m
  starts_with-replaced (d ∷ p) (c ∷ t) plain m = elim (Bool-cases (starts_with old (c ∷ t))) [
    | inl hit ↦ ground (arith, hit)
    | inr miss ↦ ground (arith, miss, starts_with-replaced p t)
  ]

  -- The two outputs of a round.
  hit_output :
      (p : Text) (c : ℕ) (t : Text)
      → starts_with old (c ∷ t) ≡ true
      → occurs p (redaction_placeholder ++ replaced t (length old - 1))
        ≡ occurs p (replaced (c ∷ t) 0)
  unfolding replace_all
  hit_output p c t hit = rw hit refl

  miss_output :
      (p : Text) (c : ℕ) (t : Text)
      → has_star p ≡ false
      → starts_with old (c ∷ t) ≡ false
      → starts_with p (c ∷ t) ≡ false
      → occurs p (replaced (c ∷ t) 0) ≡ occurs p (replaced t 0)
  unfolding replace_all
  miss_output p c t plain miss no_front = elim (Bool-cases (starts_with p (replaced (c ∷ t) 0))) [
    | inl front ↦ cc (starts_with-replaced p (c ∷ t) plain front, no_front)
    | inr none_here ↦ rw miss (no_front_here p c (replaced t 0) (rw miss at none_here))
  ]

  -- An occurrence in the result, also behind the first characters of a match, was one before.
  pub occurs-replaced :
      (p t : Text) (k : ℕ)
      → has_star p ≡ false
      → 12 ≤ length p
      → occurs p (replaced t k) ≡ true
      → occurs p t ≡ true
  unfolding replace_all
  occurs-replaced p [] k plain long m = m
  occurs-replaced p (c ∷ t) (suc k) plain long m = later p c t (occurs-replaced p t k plain long m)
  occurs-replaced p (c ∷ t) zero plain long m = elim (Bool-cases (starts_with old (c ∷ t))) [
    | inl hit ↦
        let behind =
          occurs_behind p redaction_placeholder (replaced t (length old - 1))
            (IsStarry-mono 12 (length p) redaction_placeholder long placeholder-IsStarry) plain in
        let inner = occurs-replaced p t (length old - 1) plain long in
        later p c t (inner (sym behind ∙ hit_output p c t hit ∙ m))
    | inr miss ↦ elim (Bool-cases (starts_with p (c ∷ t))) [
      | inl front ↦ rw front refl
      | inr no_front ↦
          rw no_front
            (occurs-replaced p t 0 plain long (sym (miss_output p c t plain miss no_front) ∙ m))
    ]
  ]

  -- No occurrence of the text that is replaced is left.
  pub occurs-replaced_self :
      (t : Text) (k : ℕ)
      → has_star old ≡ false
      → 12 ≤ length old
      → occurs old (replaced t k) ≡ false
  unfolding replace_all
  occurs-replaced_self [] k plain long = long_absent old long
  occurs-replaced_self (c ∷ t) (suc k) plain long = occurs-replaced_self t k plain long
  occurs-replaced_self (c ∷ t) zero plain long = elim (Bool-cases (starts_with old (c ∷ t))) [
    | inl hit ↦
        let behind =
          occurs_behind old redaction_placeholder (replaced t (length old - 1))
            (IsStarry-mono 12 (length old) redaction_placeholder long placeholder-IsStarry) plain in
        sym (hit_output old c t hit) ∙ behind ∙ occurs-replaced_self t (length old - 1) plain long
    | inr miss ↦ miss_output old c t plain miss miss ∙ occurs-replaced_self t 0 plain long
  ]
