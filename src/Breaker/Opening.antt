-- ===== src/Breaker/Opening.antt =====
-- src/recovery/circuit_breaker.rs: when a closed breaker opens.
use meilibridge.Prelude.{
  ℕ, ◌+◌, ◌<◌, ◌^◌, max, ◌≡◌, List, [], ◌∷◌, map, arith, leb, length, if◌then◌else◌,
}
use meilibridge.Breaker.{CircuitBreaker, closed, opened, record_failure, step, run, fails}

opened-fails :
    (b : CircuitBreaker) (ts : List ℕ) → b.state ≡ opened → (run b (map fails ts)).state ≡ opened
unfolding run step record_failure
opened-fails b [] h = h
opened-fails b (t ∷ ts) h = opened-fails (record_failure b t) ts (ground arith)

fails-from :
    (b : CircuitBreaker) (ts : List ℕ)
    → b.state ≡ closed
    → b.config.failure_threshold < 2 ^ 32
    → b.stats.consecutive_failures < max 1 b.config.failure_threshold
    → (run b (map fails ts)).state ≡ (
        if leb (max 1 b.config.failure_threshold) (b.stats.consecutive_failures + length ts)
        then opened
        else closed)
unfolding run step record_failure
fails-from b [] h w k = ground arith
fails-from b (t ∷ ts) h w k =
    ground (arith, fails-from (record_failure b t) ts, opened-fails (record_failure b t) ts)

-- A closed breaker that has counted no failure is open after n failures in a row exactly when n
-- reaches the threshold (a threshold of 0 acts as 1), for every threshold that a u32 holds.
pub opens_at_threshold :
    (b : CircuitBreaker) (ts : List ℕ)
    → b.state ≡ closed
    → b.stats.consecutive_failures ≡ 0
    → b.config.failure_threshold < 2 ^ 32
    → (run b (map fails ts)).state
      ≡ (if leb (max 1 b.config.failure_threshold) (length ts) then opened else closed)
opens_at_threshold b ts h z w = ground (arith, fails-from b ts)
