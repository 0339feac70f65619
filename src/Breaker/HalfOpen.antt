-- ===== src/Breaker/HalfOpen.antt =====
-- src/recovery/circuit_breaker.rs: how a breaker that has opened lets requests through again.
use meilibridge.Prelude.{
  ℕ, zero, suc, ◌+◌, ◌-◌, ◌<◌, ◌≤◌, ◌^◌, min, ◌≡◌, refl, false, List, [], ◌∷◌, some, arith, length,
  if◌then◌else◌, All,
}
use meilibridge.Prelude.Result.{Result, ok, err}
use meilibridge.Breaker.Stats.{new_stats}
use meilibridge.Breaker.{
  CircuitBreaker, CircuitBreakerError, circuit_open, closed, opened, half_open, is_allowed,
  record_success, call, step, run, Op, succeeds,
}

-- How many of the checks at these times let their request pass.
abbrev pub admitted : CircuitBreaker → List ℕ → ℕ
admitted b [] = 0
admitted b (t ∷ ts) =
    let (allowed, b') = is_allowed b t in
    let rest = admitted b' ts in if allowed then suc rest else rest

admitted-half_open :
    (b : CircuitBreaker) (ts : List ℕ)
    → b.state ≡ half_open
    → admitted b ts ≡ min (length ts) (b.config.half_open_max_requests - b.stats.half_open_requests)
unfolding is_allowed
admitted-half_open b [] h = omega arith
admitted-half_open b (t ∷ ts) h = ground (
  arith,
  admitted-half_open b ts,
  admitted-half_open
      (record b {
        stats = record (b.stats) { half_open_requests = b.stats.half_open_requests + 1 };
      })
      ts,
)

-- Once the timeout has passed since the breaker opened, n checks in a row with no outcome recorded
-- between them let min n (half_open_max_requests + 1) requests pass: one more than the configured
-- limit, since the check that turns the breaker half-open does not count its own request.
pub admits_one_more :
    (b : CircuitBreaker) (opened_at t : ℕ) (ts : List ℕ)
    → b.state ≡ opened
    → b.stats.circuit_opened_at ≡ some opened_at
    → b.config.timeout_duration ≤ t - opened_at
    → admitted b (t ∷ ts) ≡ suc (min (length ts) b.config.half_open_max_requests)
unfolding is_allowed
admits_one_more b opened_at t ts h o d = ground (
  arith,
  admitted-half_open
      (record b { state = half_open; stats = record (b.stats) { half_open_requests = 0 } }) ts,
)

-- The breaker after a successful call that does not close it: in the half-open state, and the first
-- one in the open state.
abbrev pub probed : CircuitBreaker → CircuitBreaker
probed b = record b {
  stats = record (b.stats) {
    half_open_requests = b.stats.half_open_requests + 1;
    consecutive_successes = b.stats.consecutive_successes + 1;
    consecutive_failures = 0;
  };
}

abbrev pub half_opened : CircuitBreaker → CircuitBreaker
half_opened b = record b {
  state = half_open;
  stats = record (b.stats) {
    half_open_requests = 0;
    consecutive_successes = 1;
    consecutive_failures = 0;
  };
}

-- A call's time, the time at which its operation ends, and the operation's outcome.
pub record Attempt (E A : Type 0) : Type 0 where
  pub now : ℕ
  pub later : ℕ
  pub outcome : Result E A

module _ {E A : Type 0} where
  -- Calls one after the other: their results, and the breaker after them.
  abbrev pub run_calls :
      CircuitBreaker → List (Attempt E A) → List (Result (CircuitBreakerError E) A) × CircuitBreaker
  run_calls b [] = ([], b)
  run_calls b (c ∷ cs) =
      let (r, b') = call b c.now c.later c.outcome in
      let (rs, b'') = run_calls b' cs in (r ∷ rs, b'')

  abbrev pub AllRefused : CircuitBreaker → List (Attempt E A) → Type 0
  AllRefused b cs = All (λ r. r ≡ err circuit_open) (run_calls b cs).0 × ((run_calls b cs).1 ≡ b)

  refused-calls :
      (b : CircuitBreaker) (cs : List (Attempt E A))
      → All (λ (c : Attempt E A). is_allowed b c.now ≡ (false, b)) cs
      → AllRefused b cs
  unfolding call
  refused-calls b [] h = (tt, refl)
  refused-calls b (c ∷ cs) h = ground (arith, h.0, refused-calls b cs h.1)

  All-not_allowed :
      (b : CircuitBreaker) (cs : List (Attempt E A))
      → ((t : ℕ) → is_allowed b t ≡ (false, b))
      → All (λ (c : Attempt E A). is_allowed b c.now ≡ (false, b)) cs
  All-not_allowed b [] h = tt
  All-not_allowed b (c ∷ cs) h = (h c.now, All-not_allowed b cs h)

  -- A half-open breaker that has let its limit of requests pass, with no request of it still in
  -- flight, refuses every later call at any time and never changes again.
  pub half_open_stuck :
      (b : CircuitBreaker) (cs : List (Attempt E A))
      → b.state ≡ half_open
      → b.config.half_open_max_requests ≤ b.stats.half_open_requests
      → AllRefused b cs
  unfolding is_allowed
  half_open_stuck b cs h m = refused-calls b cs (All-not_allowed b cs (λ t. ground arith))

  abbrev pub IsOk : Attempt E A → Type 0
  IsOk c = (a : A) × (c.outcome ≡ ok a)

  pub call-probe :
      (b : CircuitBreaker) (c : Attempt E A)
      → b.state ≡ half_open
      → IsOk c
      → b.stats.half_open_requests < b.config.half_open_max_requests
      → b.stats.consecutive_successes + 1 < b.config.success_threshold
      → b.config.success_threshold < 2 ^ 32
      → (call b c.now c.later c.outcome).1 ≡ probed b
  unfolding call is_allowed record_success
  call-probe b c h (a, e) r s w = ground arith

  call-last_probe :
      (b : CircuitBreaker) (c : Attempt E A)
      → b.state ≡ half_open
      → IsOk c
      → b.stats.half_open_requests < b.config.half_open_max_requests
      → b.stats.consecutive_successes + 1 ≡ b.config.success_threshold
      → b.config.success_threshold < 2 ^ 32
      → ((call b c.now c.later c.outcome).1.state ≡ closed)
        × ((call b c.now c.later c.outcome).1.stats ≡ new_stats)
  unfolding call is_allowed record_success
  call-last_probe b c h (a, e) r s w = ground arith

  probe-half_open :
      (b : CircuitBreaker) (c : Attempt E A) (cs : List (Attempt E A))
      → b.state ≡ half_open
      → All IsOk (c ∷ cs)
      → b.stats.consecutive_successes + length (c ∷ cs) ≡ b.config.success_threshold
      → b.stats.half_open_requests + length (c ∷ cs) ≤ b.config.half_open_max_requests
      → b.config.success_threshold < 2 ^ 32
      → ((run_calls b (c ∷ cs)).1.state ≡ closed) × ((run_calls b (c ∷ cs)).1.stats ≡ new_stats)
  probe-half_open b c [] h a s m w = call-last_probe b c h a.0 (omega arith) (omega arith) w
  probe-half_open b c (d ∷ cs) h a s m w =
      rw (call-probe b c h a.0 (omega arith) (omega arith) w)
        (probe-half_open (probed b) d cs h a.1 (omega arith) (omega arith) w)

  pub call-first_probe :
      (b : CircuitBreaker) (opened_at : ℕ) (c : Attempt E A)
      → b.state ≡ opened
      → b.stats.circuit_opened_at ≡ some opened_at
      → b.stats.consecutive_successes ≡ 0
      → b.config.timeout_duration ≤ c.now - opened_at
      → IsOk c
      → 1 < b.config.success_threshold
      → (call b c.now c.later c.outcome).1 ≡ half_opened b
  unfolding call is_allowed record_success
  call-first_probe b opened_at c h o z d (a, e) s = ground arith

  call-only_probe :
      (b : CircuitBreaker) (opened_at : ℕ) (c : Attempt E A)
      → b.state ≡ opened
      → b.stats.circuit_opened_at ≡ some opened_at
      → b.stats.consecutive_successes ≡ 0
      → b.config.timeout_duration ≤ c.now - opened_at
      → IsOk c
      → b.config.success_threshold ≡ 1
      → ((call b c.now c.later c.outcome).1.state ≡ closed)
        × ((call b c.now c.later c.outcome).1.stats ≡ new_stats)
  unfolding call is_allowed record_success
  call-only_probe b opened_at c h o z d (a, e) s = ground arith

  -- A breaker that opened with no success counted since recovers: from the first call after the
  -- timeout, as many successful calls in a row as success_threshold close it with all counters
  -- cleared, provided the threshold is above 0, fits a u32 and is at most
  -- half_open_max_requests + 1.
  pub recovers :
      (b : CircuitBreaker) (opened_at : ℕ) (c : Attempt E A) (cs : List (Attempt E A))
      → b.state ≡ opened
      → b.stats.circuit_opened_at ≡ some opened_at
      → b.stats.consecutive_successes ≡ 0
      → b.config.timeout_duration ≤ c.now - opened_at
      → All IsOk (c ∷ cs)
      → length (c ∷ cs) ≡ b.config.success_threshold
      → b.config.success_threshold ≤ b.config.half_open_max_requests + 1
      → b.config.success_threshold < 2 ^ 32
      → ((run_calls b (c ∷ cs)).1.state ≡ closed) × ((run_calls b (c ∷ cs)).1.stats ≡ new_stats)
  recovers b opened_at c [] h o z d a s m w =
      call-only_probe b opened_at c h o z d a.0 (omega arith)
  recovers b opened_at c (d ∷ cs) h o z t a s m w =
      rw (call-first_probe b opened_at c h o z t a.0 (omega arith))
        (probe-half_open (half_opened b) d cs refl a.1 (omega arith) (omega arith) w)

abbrev pub late_successes : ℕ → List Op
late_successes zero = []
late_successes (suc n) = succeeds ∷ late_successes n

late-run :
    (b : CircuitBreaker) (n : ℕ)
    → b.state ≡ opened
    → b.stats.consecutive_successes + n < 2 ^ 32
    → ((run b (late_successes n)).state ≡ opened)
      × ((run b (late_successes n)).stats.consecutive_successes ≡ b.stats.consecutive_successes + n)
      × ((run b (late_successes n)).stats.circuit_opened_at ≡ b.stats.circuit_opened_at)
      × ((run b (late_successes n)).config ≡ b.config)
unfolding run step record_success
late-run b zero h w = ground arith
late-run b (suc n) h w = ground (arith, late-run (record_success b) n)

-- Successes of requests that were let through before the breaker opened count towards closing it:
-- after n of them, recorded while it is open, if they and the successes that it counted at its opening
-- are at least the success threshold less one, and less than 2 ^ 32 - 1, the first successful call
-- after the timeout closes the breaker.
pub closes_on_late_successes :
    (E A : Type 0) (b : CircuitBreaker) (n opened_at now later : ℕ) (a : A)
    → b.state ≡ opened
    → b.stats.circuit_opened_at ≡ some opened_at
    → b.config.success_threshold ≤ b.stats.consecutive_successes + n + 1
    → b.stats.consecutive_successes + n + 1 < 2 ^ 32
    → b.config.timeout_duration ≤ now - opened_at
    → (call {E = E} (run b (late_successes n)) now later (ok a)).1.state ≡ closed
unfolding call is_allowed record_success
closes_on_late_successes E A b n opened_at now later a h o s w d = ground (arith, late-run b n)
