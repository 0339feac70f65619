-- ===== src/Breaker.antt =====
-- src/recovery/circuit_breaker.rs: the circuit breaker. The two locks are held for the whole of each
-- method, so a method is one step; `now` is the reading of tokio's monotonic clock in that step.
-- `window_duration` is a field that the code never reads.
pub mod Stats
pub mod Manager
pub mod Invariant
pub mod Opening
pub mod HalfOpen
pub mod OpenPeriod
pub mod Stuck
pub mod Tests
use meilibridge.Prelude.{
  ℕ, ◌+◌, ◌-◌, String, Bool, true, false, Option, none, some, List, [], ◌∷◌, leb, ltb,
  if◌then◌else◌,
}
use meilibridge.Prelude.Result.{Result, ok, err}
use Stats
use Stats.{CircuitStats, new_stats}

pub data CircuitState : Type 0 where
  closed opened half_open : CircuitState

pub record CircuitBreakerConfig : Type 0 where
  pub failure_threshold : ℕ
  pub success_threshold : ℕ
  pub window_duration : ℕ
  pub timeout_duration : ℕ
  pub half_open_max_requests : ℕ

-- Durations in milliseconds.
abbrev pub default_config : CircuitBreakerConfig
default_config = record {
  failure_threshold = 5;
  success_threshold = 3;
  window_duration = 60000;
  timeout_duration = 30000;
  half_open_max_requests = 3;
}

pub record CircuitBreaker : Type 0 where
  pub name : String
  pub config : CircuitBreakerConfig
  pub state : CircuitState
  pub stats : CircuitStats

pub new : String → CircuitBreakerConfig → CircuitBreaker
new name config = record { name = name; config = config; state = closed; stats = new_stats }

-- Whether the request may pass, and the breaker after the check.
unfoldable pub is_allowed : CircuitBreaker → ℕ → Bool × CircuitBreaker
is_allowed b now = elim b.state [
  | closed ↦ (true, b)
  | opened ↦ elim b.stats.circuit_opened_at [
    | some opened_at ↦
        if leb b.config.timeout_duration (now - opened_at)
        then (
          true,
          record b { state = half_open; stats = record (b.stats) { half_open_requests = 0 } },
        )
        else (false, b)
    | none ↦ (false, b)
  ]
  | half_open ↦
      if ltb b.stats.half_open_requests b.config.half_open_max_requests
      then (
        true,
        record b {
          stats = record (b.stats) { half_open_requests = b.stats.half_open_requests + 1 };
        },
      )
      else (false, b)
]

unfoldable pub record_success : CircuitBreaker → CircuitBreaker
unfolding Stats.record_success Stats.reset
record_success b =
    let stats = Stats.record_success b.stats in
    elim b.state [
      | closed ↦ record b { stats = stats }
      | opened ↦ record b { stats = stats }
      | half_open ↦
          if leb b.config.success_threshold stats.consecutive_successes
          then record b { state = closed; stats = Stats.reset stats }
          else record b { stats = stats }
    ]

unfoldable pub record_failure : CircuitBreaker → ℕ → CircuitBreaker
unfolding Stats.record_failure
record_failure b now =
    let stats = Stats.record_failure b.stats now in
    elim b.state [
      | closed ↦
          if leb b.config.failure_threshold stats.consecutive_failures
          then record b { state = opened; stats = record stats { circuit_opened_at = some now } }
          else record b { stats = stats }
      | opened ↦ record b { stats = stats }
      | half_open ↦ record b {
        state = opened;
        stats = record stats { circuit_opened_at = some now; half_open_requests = 0 };
      }
    ]

unfoldable pub set_state : CircuitBreaker → CircuitState → ℕ → CircuitBreaker
unfolding Stats.reset
set_state b closed now = record b { state = closed; stats = Stats.reset b.stats }
set_state b opened now = record b {
  state = opened;
  stats = record (b.stats) { circuit_opened_at = some now };
}
set_state b half_open now = record b {
  state = half_open;
  stats = record (b.stats) { half_open_requests = 0 };
}

pub data CircuitBreakerError (E : Type 0) : Type 0 where
  circuit_open : CircuitBreakerError E
  operation_failed : E → CircuitBreakerError E

module _ {E A : Type 0} where
  after_operation :
      CircuitBreaker → ℕ → Result E A → Result (CircuitBreakerError E) A × CircuitBreaker
  after_operation b later (ok result) = (ok result, record_success b)
  after_operation b later (err error) = (err (operation_failed error), record_failure b later)

  -- The check at `now`, the operation with its outcome, and its record at `later`. Nothing else
  -- touches the breaker between; where other requests do, a run of `Op`s below says so.
  unfoldable pub call :
      CircuitBreaker → ℕ → ℕ → Result E A → Result (CircuitBreakerError E) A × CircuitBreaker
  unfolding after_operation
  call b now later outcome =
      let (allowed, b') = is_allowed b now in
      if allowed then after_operation b' later outcome else (err circuit_open, b')

-- The steps that any number of concurrent requests and operators take, in the order of the locks.
pub data Op : Type 0 where
  checks : ℕ → Op
  succeeds : Op
  fails : ℕ → Op
  forces : CircuitState → ℕ → Op

unfoldable pub step : CircuitBreaker → Op → CircuitBreaker
step b (checks now) = (is_allowed b now).1
step b succeeds = record_success b
step b (fails now) = record_failure b now
step b (forces s now) = set_state b s now

unfoldable pub run : CircuitBreaker → List Op → CircuitBreaker
run b [] = b
run b (o ∷ os) = run (step b o) os
