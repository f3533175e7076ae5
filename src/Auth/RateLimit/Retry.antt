-- ===== src/Auth/RateLimit/Retry.antt =====
-- app/auth/rate_limit.py: the wait that a denied attempt is told.
use restream_plus.Base.Window.{pop_while}
use restream_plus.Auth.RateLimit.{decide, prune, ceil_seconds, oldest_expiry}
use restream_plus.Base.{
  ℕ, Bool, ◌≤◌, ◌<◌, ◌*◌, arith, ◌+◌, ◌≡◌, [], ◌↔◌, if◌then◌else◌, List, length, leb, ◌∷◌, true,
  max,
}

length-pop_while : (p : ℕ → Bool) (ts : List ℕ) → length (pop_while p ts) ≤ length ts
length-pop_while p [] = omega arith
length-pop_while p (t ∷ ts) = ground (arith, length-pop_while p ts)

-- Once the oldest entry is out of the window a bucket that was at most full has room.
prune-room :
    (limit window now later : ℕ) (ts : List ℕ)
    → 0 < limit
    → length ts ≤ limit
    → (leb limit (length ts) ≡ true → oldest_expiry window now ts + now ≤ later)
    → length (prune window later ts) < limit
unfolding prune oldest_expiry
prune-room limit window now later [] p b h = omega arith
prune-room limit window now later (t ∷ ts) p b h =
    ground (arith, length-pop_while (λ t. leb (t + window) later) ts)

ceil_seconds-le : (us : ℕ) → us ≤ ceil_seconds us * 1_000_000
unfolding ceil_seconds
ceil_seconds-le us = omega arith

decide-room :
    (limit window now : ℕ) (ips users : List ℕ)
    → length ips < limit
    → length users < limit
    → (decide limit window now ips users).allowed ≡ true
unfolding decide
decide-room limit window now ips users a b = ground arith

wait_covers :
    (limit window now : ℕ) (ips users : List ℕ)
    → let wait = (decide limit window now ips users).retry_after_seconds * 1_000_000 in
      (leb limit (length ips) ≡ true → oldest_expiry window now ips ≤ wait)
      × (leb limit (length users) ≡ true → oldest_expiry window now users ≤ wait)
unfolding decide
wait_covers limit window now ips users =
    let seconds =
      max (if leb limit (length ips) then oldest_expiry window now ips else 0)
        (if leb limit (length users) then oldest_expiry window now users else 0) in
    (ground (arith, ceil_seconds-le seconds), ground (arith, ceil_seconds-le seconds))

retry_zero :
    (limit window now : ℕ) (ips users : List ℕ)
    → let d = decide limit window now ips users in (d.allowed ≡ true) ↔ (d.retry_after_seconds ≡ 0)
unfolding decide
retry_zero limit window now ips users = ground arith

-- An attempt is told to wait exactly when it is denied, and then for at least a second. If no bucket
-- holds more than `limit` failures, then after the wait, with no failure in between, the attempt is
-- allowed.
pub retry_after_suffices :
    (limit window now : ℕ) (ips users : List ℕ)
    → 0 < limit
    → length ips ≤ limit
    → length users ≤ limit
    → let d = decide limit window now ips users in
      let later = now + d.retry_after_seconds * 1_000_000 in
      ((d.allowed ≡ true) ↔ (d.retry_after_seconds ≡ 0))
      × ((decide limit window later (prune window later ips) (prune window later users)).allowed
          ≡ true)
retry_after_suffices limit window now ips users p bi bu =
    let later = now + (decide limit window now ips users).retry_after_seconds * 1_000_000 in
    let cover = wait_covers limit window now ips users in
    (
      retry_zero limit window now ips users,
      decide-room limit window later (prune window later ips) (prune window later users)
          (prune-room limit window now later ips p bi (λ f. omega (arith, cover.0 f)))
          (prune-room limit window now later users p bu (λ f. omega (arith, cover.1 f))),
    )
