-- ===== src/Breaker/Invariant.antt =====
-- src/recovery/circuit_breaker.rs: what holds of a breaker after any sequence of steps.
use meilibridge.Prelude.{◌≤◌, ◌<◌, max, String, ◌≡◌, ◌≢◌, List, [], ◌∷◌, arith, none}
use meilibridge.Breaker.{
  CircuitBreaker, CircuitBreakerConfig, closed, opened, half_open, new, is_allowed, record_success,
  record_failure, set_state, Op, checks, succeeds, fails, forces, step, run,
}

-- The facts that tie the counters to the state.
pub record IsConsistent (b : CircuitBreaker) : Type 0 where
  pub closed_below :
      b.state ≡ closed → b.stats.consecutive_failures < max 1 b.config.failure_threshold
  pub closed_clear : b.state ≡ closed → b.stats.circuit_opened_at ≡ none
  pub opened_since : b.state ≡ opened → b.stats.circuit_opened_at ≢ none
  pub half_open_bounded :
      b.state ≡ half_open → b.stats.half_open_requests ≤ b.config.half_open_max_requests

new-IsConsistent : (name : String) (c : CircuitBreakerConfig) → IsConsistent (new name c)
unfolding new
new-IsConsistent name c = ground arith

-- Every step keeps the counters consistent with the state: a closed breaker has counted fewer
-- failures in a row than its threshold (at least 1) and has no opening time, an open one has one,
-- and a half-open one has counted at most half_open_max_requests requests.
pub step-IsConsistent : (b : CircuitBreaker) (o : Op) → IsConsistent b → IsConsistent (step b o)
unfolding step is_allowed record_success record_failure set_state
step-IsConsistent b (checks now) v = ground arith
step-IsConsistent b succeeds v = ground arith
step-IsConsistent b (fails now) v = ground arith
step-IsConsistent b (forces s now) v = ground arith

-- So a breaker is consistent after any sequence of steps from its creation.
pub run-IsConsistent :
    (b : CircuitBreaker) (os : List Op) → IsConsistent b → IsConsistent (run b os)
unfolding run
run-IsConsistent b [] v = v
run-IsConsistent b (o ∷ os) v = run-IsConsistent (step b o) os (step-IsConsistent b o v)

pub run-new-IsConsistent :
    (name : String) (c : CircuitBreakerConfig) (os : List Op) → IsConsistent (run (new name c) os)
run-new-IsConsistent name c os = run-IsConsistent (new name c) os (new-IsConsistent name c)
