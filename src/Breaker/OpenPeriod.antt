-- ===== src/Breaker/OpenPeriod.antt =====
-- src/recovery/circuit_breaker.rs: the period in which an opened breaker lets no request pass.
use meilibridge.Prelude.{
  ℕ, suc, ◌+◌, ◌-◌, ◌^◌, ◌<◌, max, ◌≡◌, refl, sym, subst, Bool, true, false, ◌&&◌, some, List, [],
  ◌∷◌, ◌++◌, map, arith, leb, ltb, length, if◌then◌else◌,
}
use meilibridge.Breaker.{
  CircuitBreaker, closed, opened, is_allowed, record_success, record_failure, step, run, Op, checks,
  succeeds, fails, forces,
}

-- How many of the checks among these steps let their request pass.
abbrev pub passed : CircuitBreaker → List Op → ℕ
passed b [] = 0
passed b (o ∷ os) =
    let rest = passed (step b o) os in
    elim o [
      | checks now ↦ if (is_allowed b now).0 then suc rest else rest
      | succeeds ↦ rest
      | fails now ↦ rest
      | forces s now ↦ rest
    ]

-- The steps that requests take less than the timeout after a time: checks then, and outcomes at any
-- time of requests that were let through before.
abbrev pub all_within : ℕ → ℕ → List Op → Bool
all_within timeout since [] = true
all_within timeout since (checks now ∷ os) =
    ltb (now - since) timeout && all_within timeout since os
all_within timeout since (succeeds ∷ os) = all_within timeout since os
all_within timeout since (fails now ∷ os) = all_within timeout since os
all_within timeout since (forces s now ∷ os) = false

abbrev IsOpenSince : ℕ → ℕ → CircuitBreaker → Type 0
IsOpenSince timeout since b =
    (b.state ≡ opened)
    × (b.stats.circuit_opened_at ≡ some since)
    × (b.config.timeout_duration ≡ timeout)

check-within :
    (timeout since now : ℕ) (b : CircuitBreaker)
    → IsOpenSince timeout since b
    → now - since < timeout
    → is_allowed b now ≡ (false, b)
unfolding is_allowed
check-within timeout since now b h w = ground arith

check-after :
    (timeout since now : ℕ) (b : CircuitBreaker)
    → IsOpenSince timeout since b
    → (is_allowed b now).0 ≡ leb timeout (now - since)
unfolding is_allowed
check-after timeout since now b h = ground arith

success-within :
    (timeout since : ℕ) (b : CircuitBreaker)
    → IsOpenSince timeout since b
    → IsOpenSince timeout since (record_success b)
unfolding record_success
success-within timeout since b h = ground arith

failure-within :
    (timeout since now : ℕ) (b : CircuitBreaker)
    → IsOpenSince timeout since b
    → IsOpenSince timeout since (record_failure b now)
unfolding record_failure
failure-within timeout since now b h = ground arith

within :
    (timeout since : ℕ) (b : CircuitBreaker) (os : List Op)
    → IsOpenSince timeout since b
    → all_within timeout since os ≡ true
    → (passed b os ≡ 0) × IsOpenSince timeout since (run b os)
unfolding run step
within timeout since b [] h w = (refl, h)
within timeout since b (checks now ∷ os) h w =
    let kept = check-within timeout since now b h (ground (arith, w)) in
    subst
      (λ r.
        ((if r.0 then suc (passed r.1 os) else passed r.1 os) ≡ 0)
        × IsOpenSince timeout since (run r.1 os))
      (sym kept) (within timeout since b os h (ground (arith, w)))
within timeout since b (succeeds ∷ os) h w =
    within timeout since (record_success b) os (success-within timeout since b h) w
within timeout since b (fails now ∷ os) h w =
    within timeout since (record_failure b now) os (failure-within timeout since now b h) w
within timeout since b (forces s now ∷ os) h w = ground (arith, w)

opening :
    (b : CircuitBreaker) (ts : List ℕ) (t : ℕ)
    → b.state ≡ closed
    → b.stats.consecutive_failures + length ts + 1 ≡ max 1 b.config.failure_threshold
    → b.config.failure_threshold < 2 ^ 32
    → IsOpenSince b.config.timeout_duration t (run b (map fails ts ++ fails t ∷ []))
unfolding run step record_failure
opening b [] t h n w = ground arith
opening b (u ∷ ts) t h n w = ground (arith, opening (record_failure b u) ts t)

-- A closed breaker that has counted no failure opens with the failure, at a time t, that completes
-- failure_threshold failures in a row (a threshold of 0 acts as 1, and it fits a u32). From then
-- on, whatever checks requests make less than the timeout after t and whatever outcomes of earlier
-- requests are recorded in between at any times, no check lets a request pass, and a later check
-- passes exactly if it is at least the timeout after t: late outcomes neither shorten nor lengthen
-- the period.
pub opens_for_timeout :
    (b : CircuitBreaker) (ts : List ℕ) (t : ℕ) (os : List Op) (now : ℕ)
    → b.state ≡ closed
    → b.stats.consecutive_failures ≡ 0
    → length ts + 1 ≡ max 1 b.config.failure_threshold
    → b.config.failure_threshold < 2 ^ 32
    → all_within b.config.timeout_duration t os ≡ true
    → let b' = run b (map fails ts ++ fails t ∷ []) in
      (passed b' os ≡ 0)
      × ((is_allowed (run b' os) now).0 ≡ leb b.config.timeout_duration (now - t))
opens_for_timeout b ts t os now h z n w e =
    let since = opening b ts t h (omega arith) w in
    let after =
      within b.config.timeout_duration t (run b (map fails ts ++ fails t ∷ [])) os since e in
    (
      after.0,
      check-after b.config.timeout_duration t now (run (run b (map fails ts ++ fails t ∷ [])) os)
          after.1,
    )
