-- ===== src/Fanout/Backoff.antt =====
-- app/fanout/backoff.py. A delay is a number of microseconds and the jitter a percentage; a draw of
-- `random()` is a multiple of 2^-53, given by its numerator. The real product is rounded once, to a
-- microsecond as `timedelta` does; the roundings of the floats before are left out. A negative
-- attempt or jitter, which the code refuses, is no natural number.
use native.Mathlib.Nat.{mul-le-mul_left, pow-le-pow_right}
use restream_plus.Base.{
  ℕ, ◌+◌, ◌*◌, ◌-◌, ◌/◌, ◌%◌, ◌^◌, min, ◌&&◌, ◌||◌, leb, ltb, ◌==◌, nat_eq, Result, ok, err,
  if◌then◌else◌, ◌≤◌, arith, ◌<◌, ◌≡◌, Bool-cases, inl, inr, false, refl,
}

abbrev pub backoff_base : ℕ
backoff_base = 1_000_000

abbrev pub backoff_cap : ℕ
backoff_cap = 60_000_000

abbrev pub jitter_pct : ℕ
jitter_pct = 20

-- `2**attempt` is made a float, which stops short of 2^1024.
pub data OverflowError : Type 0 where
  overflow_error : OverflowError

-- What `random()` counts in.
abbrev pub random_unit : ℕ
random_unit = 2 ^ 53

-- The nearest integer to n / d, of two the even one.
unfoldable pub rounded : ℕ → ℕ → ℕ
rounded n d =
    let q = n / d in
    let r = 2 * (n % d) in if ltb d r || ((r == d) && (q % 2 == 1)) then q + 1 else q

-- Subtraction that stops at 0 is the code's `max(0.0, ...)`.
unfoldable pub compute_backoff : ℕ → ℕ → ℕ → ℕ → ℕ → Result OverflowError ℕ
compute_backoff attempt base cap jitter random =
    let raw = min cap (base * 2 ^ attempt) in
    let scale = 100 * random_unit in
    if leb 1024 attempt
    then err overflow_error
    else ok (rounded (raw * scale + raw * jitter * (2 * random) - raw * jitter * random_unit) scale)

-- The delay of a worker, which leaves the schedule as it is.
unfoldable pub backoff : ℕ → ℕ → Result OverflowError ℕ
unfolding compute_backoff
backoff attempt random = compute_backoff attempt backoff_base backoff_cap jitter_pct random

rounded-above : (n lo : ℕ) → lo * (100 * random_unit) ≤ n → lo ≤ rounded n (100 * random_unit)
unfolding rounded
rounded-above n lo h = ground arith

rounded-below : (n hi : ℕ) → n ≤ hi * (100 * random_unit) → rounded n (100 * random_unit) ≤ hi
unfolding rounded
rounded-below n hi h = ground arith

-- The exponential value with the jitter, in the units of a draw.
abbrev jittered : ℕ → ℕ → ℕ
jittered raw random =
    raw * (100 * random_unit) + raw * jitter_pct * (2 * random) - raw * jitter_pct * random_unit

-- `u` is a fifth of the exponential value.
jittered-above : (u random : ℕ) → 4 * u ≤ rounded (jittered (5 * u) random) (100 * random_unit)
jittered-above u random = rounded-above (jittered (5 * u) random) (4 * u) (omega arith)

jittered-below :
    (u random : ℕ)
    → random < random_unit
    → rounded (jittered (5 * u) random) (100 * random_unit) ≤ 6 * u
jittered-below u random h =
    let m : u * random ≤ u * random_unit = mul-le-mul_left u (omega (arith, h)) in
    rounded-below (jittered (5 * u) random) (6 * u) (omega (arith, m))

fifths : (p : ℕ) → min backoff_cap (backoff_base * p) ≡ 5 * min 12_000_000 (200_000 * p)
fifths p = omega arith

-- A fifth of the exponential value under the cap.
abbrev fifth : ℕ → ℕ
fifth attempt = min 12_000_000 (200_000 * 2 ^ attempt)

backoff-early :
    (attempt random : ℕ)
    → leb 1024 attempt ≡ false
    → backoff attempt random
      ≡ ok (rounded (jittered (5 * fifth attempt) random) (100 * random_unit))
unfolding backoff compute_backoff
backoff-early attempt random early = rw (early, ← (fifths (2 ^ attempt))) refl

-- What a delay may be: four to six fifths of the exponential value under the cap, and an error from
-- attempt 1024 on.
abbrev IsDelay : ℕ → Result OverflowError ℕ → Type 0
IsDelay attempt (err e) = 1024 ≤ attempt
IsDelay attempt (ok delay) =
    let raw = min backoff_cap (backoff_base * 2 ^ attempt) in
    (attempt < 1024) × (4 * raw ≤ 5 * delay) × (5 * delay ≤ 6 * raw)

-- The delay of a draw below one is four to six fifths of the exponential value under the cap, and
-- from attempt 1024 on there is an error in its place.
backoff-IsDelay :
    (attempt random : ℕ) → random < random_unit → IsDelay attempt (backoff attempt random)
unfolding backoff compute_backoff
backoff-IsDelay attempt random h = elim (Bool-cases (leb 1024 attempt)) [
  | inl late ↦ rw (late, compute_backoff, backoff) (ground (arith, late))
  | inr early ↦
      let low = jittered-above (fifth attempt) random in
      let high = jittered-below (fifth attempt) random h in
      rw (backoff-early attempt random early)
        (ground (arith, early), omega (arith, low), omega (arith, high))
]

-- Whatever the draw, there is a delay before attempt 1024 only.
abbrev pub IsOnTime : ℕ → Result OverflowError ℕ → Type 0
IsOnTime attempt (err e) = 1024 ≤ attempt
IsOnTime attempt (ok delay) = attempt < 1024

pub backoff-IsOnTime : (attempt random : ℕ) → IsOnTime attempt (backoff attempt random)
unfolding backoff compute_backoff
backoff-IsOnTime attempt random = elim (Bool-cases (leb 1024 attempt)) [
  | inl late ↦ rw (late, compute_backoff, backoff) (ground (arith, late))
  | inr early ↦ rw (backoff-early attempt random early) (ground (arith, early))
]

-- From the seventh failure on the delay is 48 seconds or more.
pub backoff-steady :
    (attempt random delay : ℕ)
    → 6 ≤ attempt
    → backoff attempt random ≡ ok delay
    → 48_000_000 ≤ delay
unfolding backoff compute_backoff
backoff-steady attempt random delay h e =
    let p : 2 ^ 6 ≤ 2 ^ attempt = pow-le-pow_right (omega arith) h in
    elim (Bool-cases (leb 1024 attempt)) [
      | inl late ↦ cc (rw (late, compute_backoff, backoff) at e)
      | inr early ↦
          let same : rounded (jittered (5 * fifth attempt) random) (100 * random_unit) ≡ delay =
            cc (rw (backoff-early attempt random early) at e) in
          omega (arith, jittered-above (fifth attempt) random, p, same)
    ]
