-- ===== src/Auth/RateLimit/Policy.antt =====
-- app/auth/rate_limit.py against ADR-0005: an attempt is allowed exactly when both the address and
-- the user name have fewer recent failures than the limit.
use restream_plus.Auth.RateLimit.Buckets.{
  logged, Holds, prune-Holds, append-Holds, recent, Tracks, bucket-prune, bucket-empty,
}
use restream_plus.Auth.RateLimit.{LoginRateLimiter, check, record_failure, decide, new, bucket}
use restream_plus.Base.{
  ℕ, String, List, ◌≤◌, ◌<◌, ◌≡◌, [], refl, arith, ◌↔◌, ap, ◌∙◌, ◌∷◌, true, ok, length,
}

-- The calls on the limiter; the name is as submitted.
pub data Call : Type 0 where
  checked failed : String → String → ℕ → Call

-- Every failure from one address.
unfoldable pub ip_log : (String → List ℕ) → List Call → String → List ℕ
ip_log log [] = log
ip_log log (checked ip username now ∷ cs) = ip_log log cs
ip_log log (failed ip username now ∷ cs) = ip_log (logged ip now log) cs

abbrev pub InOrder : ℕ → List Call → ℕ → Type 0
InOrder start [] end = start ≤ end
InOrder start (checked ip username now ∷ cs) end = (start ≤ now) × InOrder now cs end
InOrder start (failed ip username now ∷ cs) end = (start ≤ now) × InOrder now cs end

module _ (normalize : String → String) where
  abbrev pub apply : LoginRateLimiter → Call → LoginRateLimiter
  apply l (checked ip username now) = (check normalize l ip username now).0
  apply l (failed ip username now) = record_failure normalize l ip username now

  unfoldable pub run : LoginRateLimiter → List Call → LoginRateLimiter
  run l [] = l
  run l (c ∷ cs) = run (apply l c) cs

  -- Every failure under one canonical name.
  unfoldable pub user_log : (String → List ℕ) → List Call → String → List ℕ
  user_log log [] = log
  user_log log (checked ip username now ∷ cs) = user_log log cs
  user_log log (failed ip username now ∷ cs) = user_log (logged (normalize username) now log) cs

  empty_Tracks : (w : ℕ) (b : List ℕ) → b ≡ [] → Tracks w b [] 0
  empty_Tracks w b e = record {
    cutoff = 0;
    passed = omega arith;
    held = e;
    sorted = tt;
    before = tt;
  }

  record Both (l : LoginRateLimiter) (ips users : String → List ℕ) (clock : ℕ) : Type 0 where
    positive : 0 < l.window
    by_ip : Holds l.window l.by_ip ips clock
    by_username : Holds l.window l.by_username users clock

  checked-Both :
      (l : LoginRateLimiter) (ips users : String → List ℕ) (clock now : ℕ) (ip username : String)
      → Both l ips users clock
      → clock ≤ now
      → Both (check normalize l ip username now).0 ips users now
  unfolding check
  checked-Both l ips users clock now ip username h le = record {
    positive = h.positive;
    by_ip = prune-Holds l.window l.by_ip ips clock now ip h.by_ip le;
    by_username =
        prune-Holds l.window l.by_username users clock now (normalize username) h.by_username le;
  }

  failed-Both :
      (l : LoginRateLimiter) (ips users : String → List ℕ) (clock now : ℕ) (ip username : String)
      → Both l ips users clock
      → clock ≤ now
      → Both
          (record_failure normalize l ip username now)
          (logged ip now ips)
          (logged (normalize username) now users)
          now
  unfolding record_failure
  failed-Both l ips users clock now ip username h le = record {
    positive = h.positive;
    by_ip = append-Holds l.window l.by_ip ips clock now ip h.positive h.by_ip le;
    by_username =
        append-Holds l.window l.by_username users clock now (normalize username) h.positive
          h.by_username le;
  }

  run-Both :
      (l : LoginRateLimiter) (ips users : String → List ℕ) (clock now : ℕ) (cs : List Call)
      → Both l ips users clock
      → InOrder clock cs now
      → (end : ℕ) × (end ≤ now) × Both (run l cs) (ip_log ips cs) (user_log users cs) end
  unfolding run ip_log user_log
  run-Both l ips users clock now [] h o = (clock, o, h)
  run-Both l ips users clock now (checked ip username t ∷ cs) h o =
      run-Both (check normalize l ip username t).0 ips users t now cs
        (checked-Both l ips users clock t ip username h o.0) o.1
  run-Both l ips users clock now (failed ip username t ∷ cs) h o =
      run-Both (record_failure normalize l ip username t) (logged ip t ips)
        (logged (normalize username) t users) t now cs
        (failed-Both l ips users clock t ip username h o.0) o.1

  run-config :
      (l : LoginRateLimiter) (cs : List Call)
      → ((run l cs).limit ≡ l.limit) × ((run l cs).window ≡ l.window)
  unfolding run check record_failure
  run-config l [] = (refl, refl)
  run-config l (checked ip username t ∷ cs) = run-config (check normalize l ip username t).0 cs
  run-config l (failed ip username t ∷ cs) =
      run-config (record_failure normalize l ip username t) cs

  check-recent :
      (l : LoginRateLimiter) (ips users : String → List ℕ) (clock now : ℕ) (ip username : String)
      → Both l ips users clock
      → clock ≤ now
      → (check normalize l ip username now).1
        ≡ decide l.limit l.window now
            (recent l.window now (ips ip))
            (recent l.window now (users (normalize username)))
  unfolding check
  check-recent l ips users clock now ip username h le = rw (
    bucket-prune l.window l.by_ip ips clock now ip h.by_ip le,
    bucket-prune l.window l.by_username users clock now (normalize username) h.by_username le,
  )

  decide-allowed :
      (limit window now : ℕ) (ips users : List ℕ)
      → ((decide limit window now ips users).allowed ≡ true)
        ↔ ((length ips < limit) × (length users < limit))
  unfolding decide
  decide-allowed limit window now ips users = ground arith

  new-Both :
      (failure_limit window : ℕ) (l : LoginRateLimiter)
      → new failure_limit window ≡ ok l
      → (l.limit ≡ failure_limit) × (l.window ≡ window) × Both l (λ k. []) (λ k. []) 0
  unfolding new
  new-Both failure_limit window l e = (
    ground arith,
    ground arith,
    record {
      positive = ground arith;
      by_ip = λ k.
          empty_Tracks l.window (bucket k l.by_ip) (ap (bucket k) (ground arith) ∙ bucket-empty k);
      by_username = λ k.
          empty_Tracks l.window (bucket k l.by_username)
            (ap (bucket k) (ground arith) ∙ bucket-empty k);
    },
  )

  -- After any calls whose times do not fall, on a new limiter, an attempt is allowed exactly when
  -- fewer than `failure_limit` failures from its address and fewer than that under its canonical
  -- name are less than `window` old.
  pub check_policy :
      (failure_limit window : ℕ) (l : LoginRateLimiter) (cs : List Call) (now : ℕ)
      (ip username : String)
      → new failure_limit window ≡ ok l
      → InOrder 0 cs now
      → ((check normalize (run l cs) ip username now).1.allowed ≡ true) ↔ (
          (length (recent window now (ip_log (λ k. []) cs ip)) < failure_limit)
          × (length (recent window now (user_log (λ k. []) cs (normalize username)))
              < failure_limit))
  check_policy failure_limit window l cs now ip username e o =
      let start = new-Both failure_limit window l e in
      let (end, le, h) = run-Both l (λ k. []) (λ k. []) 0 now cs start.2 o in
      let config = run-config l cs in
      rw
        (
          check-recent (run l cs) (ip_log (λ k. []) cs) (user_log (λ k. []) cs) end now ip username
              h le,
          config.0,
          config.1,
          start.0,
          start.1,
        )
        (decide-allowed failure_limit window now (recent window now (ip_log (λ k. []) cs ip))
          (recent window now (user_log (λ k. []) cs (normalize username))))
