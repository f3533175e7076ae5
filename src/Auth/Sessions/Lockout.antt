-- ===== src/Auth/Sessions/Lockout.antt =====
-- app/auth/sessions.py and rate_limit.py: how many wrong logins an address and a name have.
use restream_plus.Auth.Sessions.Limits.{is_limited, is_wrong, login-Limits}
use restream_plus.Auth.RateLimit.{LoginRateLimiter, check, new}
use restream_plus.Auth.Sessions.{LoginRequest, login, SessionAuthService, Providers}
use restream_plus.Base.Texts.{text_eq}
use restream_plus.Auth.RateLimit.Policy.{
  Call, checked, failed, run, ip_log, user_log, InOrder, check_policy,
}
use restream_plus.Auth.RateLimit.Buckets.{logged, recent}
use restream_plus.Base.{
  ℕ, [], ◌∷◌, string_eq, refl, List, ◌≤◌, if◌then◌else◌, ◌≡◌, false, true, inl, inr, Bool-cases,
  String, Bool, ok, ◌∙◌, ap, arith, ◌↔◌, length, ◌<◌,
}

-- Each login starts when the one before has counted its failure, or later.
abbrev pub IsOrderly : ℕ → List LoginRequest → ℕ → Type 0
IsOrderly start [] end = start ≤ end
IsOrderly start (r ∷ rs) end =
    (start ≤ r.checked_at) × (r.checked_at ≤ r.failed_at) × IsOrderly r.failed_at rs end

module _ (p : Providers) where
  unfoldable pub run_logins : SessionAuthService → List LoginRequest → SessionAuthService
  run_logins s [] = s
  run_logins s (r ∷ rs) = run_logins (login p r s).0 rs

  -- The times at which logins were refused for wrong credentials, for each address and for each name.
  unfoldable pub wrong_by_ip :
      (String → List ℕ) → SessionAuthService → List LoginRequest → String → List ℕ
  wrong_by_ip log s [] = log
  wrong_by_ip log s (r ∷ rs) =
      wrong_by_ip (if is_wrong (login p r s).1 then logged r.ip r.failed_at log else log)
        (login p r s).0 rs

  unfoldable pub wrong_by_name :
      (String → List ℕ) → SessionAuthService → List LoginRequest → String → List ℕ
  wrong_by_name log s [] = log
  wrong_by_name log s (r ∷ rs) =
      wrong_by_name
        (if is_wrong (login p r s).1
          then logged (p.normalize (p.normalize r.username)) r.failed_at log
          else log)
        (login p r s).0 rs

  -- The calls on the limiter.
  unfoldable calls : SessionAuthService → List LoginRequest → List Call
  calls s [] = []
  calls s (r ∷ rs) =
      let rest = calls (login p r s).0 rs in
      checked r.ip (p.normalize r.username) r.checked_at
      ∷ (if is_wrong (login p r s).1
          then failed r.ip (p.normalize r.username) r.failed_at ∷ rest
          else rest)

  run_rest :
      (b : Bool) (l : LoginRateLimiter) (c : Call) (cs : List Call)
      → run p.normalize (run p.normalize l (if b then c ∷ [] else [])) cs
        ≡ run p.normalize l (if b then c ∷ cs else cs)
  unfolding run
  run_rest true l c cs = refl
  run_rest false l c cs = refl

  run_logins-limiter :
      (s : SessionAuthService) (rs : List LoginRequest)
      → (run_logins s rs).rate_limiter ≡ run p.normalize s.rate_limiter (calls s rs)
  unfolding run_logins calls run
  run_logins-limiter s [] = refl
  run_logins-limiter s (r ∷ rs) =
      let s' = (login p r s).0 in
      run_logins-limiter s' rs
      ∙ ap (λ l. run p.normalize l (calls s' rs)) (login-Limits p r s).limiter
      ∙ run_rest (is_wrong (login p r s).1)
          (check p.normalize s.rate_limiter r.ip (p.normalize r.username) r.checked_at).0
          (failed r.ip (p.normalize r.username) r.failed_at) (calls s' rs)

  ip_log-calls :
      (log : String → List ℕ) (s : SessionAuthService) (rs : List LoginRequest)
      → ip_log log (calls s rs) ≡ wrong_by_ip log s rs
  unfolding calls ip_log wrong_by_ip
  ip_log-calls log s [] = refl
  ip_log-calls log s (r ∷ rs) = elim (Bool-cases (is_wrong (login p r s).1)) [
    | inl wrong ↦ rw wrong (ip_log-calls (logged r.ip r.failed_at log) (login p r s).0 rs)
    | inr other ↦ rw other (ip_log-calls log (login p r s).0 rs)
  ]

  user_log-calls :
      (log : String → List ℕ) (s : SessionAuthService) (rs : List LoginRequest)
      → user_log p.normalize log (calls s rs) ≡ wrong_by_name log s rs
  unfolding calls user_log wrong_by_name
  user_log-calls log s [] = refl
  user_log-calls log s (r ∷ rs) = elim (Bool-cases (is_wrong (login p r s).1)) [
    | inl wrong ↦ rw wrong (
        user_log-calls (logged (p.normalize (p.normalize r.username)) r.failed_at log)
          (login p r s).0 rs)
    | inr other ↦ rw other (user_log-calls log (login p r s).0 rs)
  ]

  IsOrderly-mono :
      (start later end : ℕ) (rs : List LoginRequest)
      → start ≤ later
      → IsOrderly later rs end
      → IsOrderly start rs end
  IsOrderly-mono start later end [] le h = omega arith
  IsOrderly-mono start later end (r ∷ rs) le h = (omega (arith, le, h.0), h.1, h.2)

  calls-InOrder :
      (start end : ℕ) (s : SessionAuthService) (rs : List LoginRequest)
      → IsOrderly start rs end
      → InOrder start (calls s rs) end
  unfolding calls
  calls-InOrder start end s [] h = h
  calls-InOrder start end s (r ∷ rs) h = elim (Bool-cases (is_wrong (login p r s).1)) [
    | inl wrong ↦ rw wrong (h.0, (h.1, calls-InOrder r.failed_at end (login p r s).0 rs h.2))
    | inr other ↦ rw other (
      h.0,
      calls-InOrder r.checked_at end (login p r s).0 rs
          (IsOrderly-mono r.checked_at r.failed_at end rs h.1 h.2),
    )
  ]

  -- After any logins that do not overlap, on a service with a new limiter, a login is turned away by the
  -- limiter, with the right password too, exactly when its address or its name had as many logins with
  -- wrong credentials within the window as the limit says.
  pub login-limited :
      (failure_limit window : ℕ) (s : SessionAuthService) (rs : List LoginRequest)
      (r : LoginRequest)
      → new failure_limit window ≡ ok s.rate_limiter
      → IsOrderly 0 rs r.checked_at
      → (is_limited (login p r (run_logins s rs)).1 ≡ false) ↔ (
          (length (recent window r.checked_at (wrong_by_ip (λ k. []) s rs r.ip)) < failure_limit)
          × (length (
                recent window r.checked_at
                  (wrong_by_name (λ k. []) s rs (p.normalize (p.normalize r.username))))
              < failure_limit))
  login-limited failure_limit window s rs r fresh orderly =
      let name = p.normalize r.username in
      let policy =
        check_policy p.normalize failure_limit window s.rate_limiter (calls s rs) r.checked_at r.ip
          name fresh (calls-InOrder 0 r.checked_at s rs orderly) in
      let before = run_logins s rs in
      rw
        (
          (login-Limits p r before).limited,
          run_logins-limiter s rs,
          ← ip_log-calls (λ k. []) s rs,
          ← user_log-calls (λ k. []) s rs,
        )
        (ground (arith, policy))
