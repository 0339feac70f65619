-- ===== src/Breaker/Stuck.antt =====
-- src/recovery/circuit_breaker.rs: a breaker whose success threshold is out of reach.
use meilibridge.Prelude.{
  ℕ, ◌+◌, ◌-◌, ◌<◌, ◌≤◌, ◌^◌, ◌≡◌, refl, List, [], ◌∷◌, some, arith, length, All,
}
use meilibridge.Prelude.Result.{Result, ok}
use meilibridge.Breaker.{CircuitBreaker, CircuitBreakerError, opened, half_open, is_allowed, call}
use meilibridge.Breaker.HalfOpen.{
  Attempt, run_calls, AllRefused, half_open_stuck, IsOk, probed, half_opened, call-probe,
  call-first_probe,
}

module _ {E A : Type 0} where
  -- The operation was run, and its result returned.
  abbrev pub IsPassed : Result (CircuitBreakerError E) A → Type 0
  IsPassed r = (a : A) × (r ≡ ok a)

  probe-IsPassed :
      (b : CircuitBreaker) (c : Attempt E A)
      → b.state ≡ half_open
      → IsOk c
      → b.stats.half_open_requests < b.config.half_open_max_requests
      → IsPassed (call b c.now c.later c.outcome).0
  unfolding call is_allowed
  probe-IsPassed b c h (a, e) r = (a, ground arith)

  first_probe-IsPassed :
      (b : CircuitBreaker) (opened_at : ℕ) (c : Attempt E A)
      → b.state ≡ opened
      → b.stats.circuit_opened_at ≡ some opened_at
      → b.config.timeout_duration ≤ c.now - opened_at
      → IsOk c
      → IsPassed (call b c.now c.later c.outcome).0
  unfolding call is_allowed
  first_probe-IsPassed b opened_at c h o d (a, e) = (a, ground arith)

  -- The results of calls that all pass, and a breaker after them that is half-open and has no
  -- request left.
  abbrev pub IsExhausted : List (Result (CircuitBreakerError E) A) × CircuitBreaker → Type 0
  IsExhausted (rs, b) =
      All IsPassed rs
      × (b.state ≡ half_open)
      × (b.config.half_open_max_requests ≤ b.stats.half_open_requests)

  probes-IsExhausted :
      (b : CircuitBreaker) (cs : List (Attempt E A))
      → b.state ≡ half_open
      → All IsOk cs
      → b.stats.half_open_requests + length cs ≡ b.config.half_open_max_requests
      → b.stats.consecutive_successes + length cs < b.config.success_threshold
      → b.config.success_threshold < 2 ^ 32
      → IsExhausted (run_calls b cs)
  probes-IsExhausted b [] h a m s w = (tt, h, omega arith)
  probes-IsExhausted b (c ∷ cs) h a m s w =
      let passes = probe-IsPassed b c h a.0 (omega arith) in
      let rest = probes-IsExhausted (probed b) cs h a.1 (omega arith) (omega arith) w in
      rw (call-probe b c h a.0 (omega arith) (omega arith) w) ((passes, rest.0), rest.1, rest.2)

  -- A breaker whose success_threshold is above half_open_max_requests + 1 (and fits a u32), and
  -- that opened with no success counted since, never recovers: from the first call after the
  -- timeout, half_open_max_requests + 1 successful calls in a row all run their operations but
  -- leave the breaker half-open, and then every later call is refused, whatever its time and
  -- outcome, and leaves the breaker as it is.
  pub never_recovers :
      (b : CircuitBreaker) (opened_at : ℕ) (c : Attempt E A) (cs later : List (Attempt E A))
      → b.state ≡ opened
      → b.stats.circuit_opened_at ≡ some opened_at
      → b.stats.consecutive_successes ≡ 0
      → b.config.timeout_duration ≤ c.now - opened_at
      → All IsOk (c ∷ cs)
      → length (c ∷ cs) ≡ b.config.half_open_max_requests + 1
      → b.config.half_open_max_requests + 1 < b.config.success_threshold
      → b.config.success_threshold < 2 ^ 32
      → IsExhausted (run_calls b (c ∷ cs)) × AllRefused (run_calls b (c ∷ cs)).1 later
  never_recovers b opened_at c cs later h o z d a l s w =
      let passes = first_probe-IsPassed b opened_at c h o d a.0 in
      let rest = probes-IsExhausted (half_opened b) cs refl a.1 (omega arith) (omega arith) w in
      let probed : IsExhausted (run_calls b (c ∷ cs)) =
        rw (call-first_probe b opened_at c h o z d a.0 (omega arith))
          ((passes, rest.0), rest.1, rest.2) in
      (probed, half_open_stuck (run_calls b (c ∷ cs)).1 later probed.1 probed.2)
