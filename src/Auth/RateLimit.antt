-- ===== src/Auth/RateLimit.antt =====
-- app/auth/rate_limit.py: `LoginRateLimiter`. A reading of the monotonic clock is a number of
-- microseconds. `normalize_username` rests on Unicode tables that are not in the repository: it is
-- the parameter `normalize`. Each method holds the lock for its whole body, so calls do not overlap.
pub mod Buckets
pub mod Policy
pub mod Retry
use restream_plus.Base.Window.{pop_while}
use restream_plus.Base.Dict.{Dict, get, put}
use restream_plus.Base.{
  ℕ, Bool, Result, String, List, ◌+◌, if◌then◌else◌, ◌/◌, ◌∷◌, leb, [], ltb, ◌-◌, length, ◌++◌,
  string_eq, err, max, ok, not, ◌&&◌, true, false, none, some,
}

pub record RateLimitDecision : Type 0 where
  pub allowed : Bool
  pub retry_after_seconds : ℕ

pub record LoginRateLimiter : Type 0 where
  pub limit : ℕ
  pub window : ℕ
  pub by_ip : Dict String (List ℕ)
  pub by_username : Dict String (List ℕ)

abbrev pub default_failure_limit : ℕ
default_failure_limit = 5

abbrev pub default_window : ℕ
default_window = 900_000_000

pub data LimiterError : Type 0 where
  bad_failure_limit bad_window : LimiterError

unfoldable pub new : ℕ → ℕ → Result LimiterError LoginRateLimiter
new failure_limit window =
    if ltb failure_limit 1
    then err bad_failure_limit
    else if leb window 0
    then err bad_window
    else ok (record { limit = failure_limit; window = window; by_ip = []; by_username = [] })

-- A `defaultdict(deque)` gives an empty bucket for a missing key.
unfoldable pub bucket : String → Dict String (List ℕ) → List ℕ
bucket k d = elim (get k d) [ none ↦ [] | some b ↦ b ]

-- `_prune`: `bucket[0] <= now - window`, with no subtraction.
unfoldable pub prune : ℕ → ℕ → List ℕ → List ℕ
prune window now = pop_while (λ t. leb (t + window) now)

-- `math.ceil` of microseconds to seconds.
unfoldable pub ceil_seconds : ℕ → ℕ
ceil_seconds us = (us + 999_999) / 1_000_000

-- `_oldest_expiry`, in microseconds; the caller has pruned, so the entry expires after `now`.
unfoldable pub oldest_expiry : ℕ → ℕ → List ℕ → ℕ
oldest_expiry window now [] = 0
oldest_expiry window now (t ∷ ts) = (t + window) - now

-- Both buckets are written back pruned: the deques are shared with the dicts.
unfoldable pub pruned : LoginRateLimiter → String → String → ℕ → LoginRateLimiter
pruned l ip user now = record l {
  by_ip = put ip (prune l.window now (bucket ip l.by_ip)) l.by_ip;
  by_username = put user (prune l.window now (bucket user l.by_username)) l.by_username;
}

-- The decision on two pruned buckets.
unfoldable pub decide : ℕ → ℕ → ℕ → List ℕ → List ℕ → RateLimitDecision
unfolding ceil_seconds oldest_expiry
decide limit window now ips users =
    let ip_full = leb limit (length ips) in
    let user_full = leb limit (length users) in
    let seconds =
      max (if ip_full then oldest_expiry window now ips else 0)
        (if user_full then oldest_expiry window now users else 0) in
    if not ip_full && not user_full
    then record { allowed = true; retry_after_seconds = 0 }
    else record { allowed = false; retry_after_seconds = max 1 (ceil_seconds seconds) }

module _ (normalize : String → String) where
  unfoldable pub check :
      LoginRateLimiter → String → String → ℕ → LoginRateLimiter × RateLimitDecision
  unfolding pruned
  check l ip username now =
      let l' = pruned l ip (normalize username) now in
      (
        l',
        decide l.limit l.window now (bucket ip l'.by_ip)
            (bucket (normalize username) l'.by_username),
      )

  unfoldable pub record_failure : LoginRateLimiter → String → String → ℕ → LoginRateLimiter
  unfolding pruned
  record_failure l ip username now =
      let user = normalize username in
      let l' = pruned l ip user now in
      record l' {
        by_ip = put ip (bucket ip l'.by_ip ++ now ∷ []) l'.by_ip;
        by_username = put user (bucket user l'.by_username ++ now ∷ []) l'.by_username;
      }

  unfoldable pub reset : LoginRateLimiter → LoginRateLimiter
  reset l = record l { by_ip = []; by_username = [] }
