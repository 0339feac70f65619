-- ===== src/Breaker/Stats.antt =====
-- src/recovery/circuit_breaker.rs: the counters of a circuit breaker.
use meilibridge.Prelude.{ℕ, Option, none, some, inc_u32}

pub record CircuitStats : Type 0 where
  pub consecutive_failures : ℕ
  pub consecutive_successes : ℕ
  pub half_open_requests : ℕ
  pub last_failure_time : Option ℕ
  pub circuit_opened_at : Option ℕ

abbrev pub new_stats : CircuitStats
new_stats = record {
  consecutive_failures = 0;
  consecutive_successes = 0;
  half_open_requests = 0;
  last_failure_time = none;
  circuit_opened_at = none;
}

unfoldable pub record_success : CircuitStats → CircuitStats
record_success s = record s {
  consecutive_successes = inc_u32 s.consecutive_successes;
  consecutive_failures = 0;
}

unfoldable pub record_failure : CircuitStats → ℕ → CircuitStats
record_failure s now = record s {
  consecutive_failures = inc_u32 s.consecutive_failures;
  consecutive_successes = 0;
  last_failure_time = some now;
}

unfoldable pub reset : CircuitStats → CircuitStats
reset s = record s {
  consecutive_failures = 0;
  consecutive_successes = 0;
  half_open_requests = 0;
  last_failure_time = none;
  circuit_opened_at = none;
}
