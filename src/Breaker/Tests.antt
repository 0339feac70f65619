-- ===== src/Breaker/Tests.antt =====
-- src/recovery/circuit_breaker.rs: runs on concrete breakers, and the theorems at them.
use meilibridge.Prelude.{
  ℕ, String, ◌≡◌, ◌≢◌, refl, some, [], ◌∷◌, ◌++◌, true, map, arith, string_eq,
}
use meilibridge.Prelude.Result.{ok}
use meilibridge.Breaker.Stats.{new_stats}
use meilibridge.Breaker.Manager.{CircuitBreakerManager}
use meilibridge.Breaker.Invariant.{IsConsistent, run-new-IsConsistent}
use meilibridge.Breaker.Opening.{opens_at_threshold}
use meilibridge.Breaker.HalfOpen.{
  Attempt, AllRefused, admitted, late_successes, run_calls, admits_one_more, recovers,
  closes_on_late_successes,
}
use meilibridge.Breaker.OpenPeriod.{passed, opens_for_timeout}
use meilibridge.Breaker.Stuck.{IsExhausted, never_recovers}
use meilibridge.Breaker.{
  CircuitBreaker, default_config, closed, opened, half_open, is_allowed, new, record_failure, call,
  step, checks, succeeds, fails, forces, run,
}

abbrev fresh_breaker : CircuitBreaker
fresh_breaker = record {
  name = "meilisearch";
  config = default_config;
  state = closed;
  stats = new_stats;
}

-- Opened at time 1000.
abbrev tripped : CircuitBreaker
tripped = record fresh_breaker {
  state = opened;
  stats = record new_stats {
    consecutive_failures = 5;
    last_failure_time = some 1000;
    circuit_opened_at = some 1000;
  };
}

abbrev exhausted : CircuitBreaker
exhausted = record fresh_breaker {
  state = half_open;
  stats = record new_stats { half_open_requests = 3 };
}

abbrev good : ℕ → Attempt String ℕ
good t = record { now = t; later = t; outcome = ok 7 }

five_failures : run fresh_breaker (map fails (1 ∷ 2 ∷ 3 ∷ 4 ∷ 1000 ∷ [])) ≡ tripped
unfolding run record_failure step
five_failures = refl

run-new-IsConsistent_example :
    IsConsistent (
      run (new "meilisearch" default_config) (fails 3 ∷ succeeds ∷ forces opened 4 ∷ checks 9 ∷ []))
run-new-IsConsistent_example = run-new-IsConsistent "meilisearch" default_config _

opens_at_threshold_example : (run fresh_breaker (map fails (1 ∷ 2 ∷ 3 ∷ 4 ∷ 5 ∷ []))).state ≡ opened
opens_at_threshold_example =
    opens_at_threshold fresh_breaker (1 ∷ 2 ∷ 3 ∷ 4 ∷ 5 ∷ []) refl refl (omega arith)

admits_one_more_example : admitted tripped (31000 ∷ 31001 ∷ 31002 ∷ 31003 ∷ 31004 ∷ []) ≡ 4
admits_one_more_example =
    admits_one_more tripped 1000 31000 (31001 ∷ 31002 ∷ 31003 ∷ 31004 ∷ []) refl refl (omega arith)

-- Five successes close it, but only two requests are let through.
abbrev unreachable : CircuitBreaker
unreachable = record tripped {
  config = record default_config { success_threshold = 5; half_open_max_requests = 1 };
}

never_recovers_example :
    IsExhausted (run_calls unreachable (good 31000 ∷ good 31001 ∷ []))
    × AllRefused
        (run_calls unreachable (good 31000 ∷ good 31001 ∷ [])).1
        (good 40000 ∷ good 9000000 ∷ [])
never_recovers_example =
    never_recovers unreachable 1000 (good 31000) (good 31001 ∷ []) (good 40000 ∷ good 9000000 ∷ [])
      refl refl refl (omega arith) ((7, refl), ((7, refl), tt)) refl (omega arith) (omega arith)

opens_for_timeout_example :
    let b = run fresh_breaker (map fails (1 ∷ 2 ∷ 3 ∷ 4 ∷ []) ++ fails 1000 ∷ []) in
    let os = checks 1001 ∷ fails 20000 ∷ succeeds ∷ checks 30999 ∷ [] in
    (passed b os ≡ 0) × ((is_allowed (run b os) 31000).0 ≡ true)
opens_for_timeout_example =
    opens_for_timeout fresh_breaker (1 ∷ 2 ∷ 3 ∷ 4 ∷ []) 1000
      (checks 1001 ∷ fails 20000 ∷ succeeds ∷ checks 30999 ∷ []) 31000 refl refl refl (omega arith)
      refl

recovers_example :
    ((run_calls tripped (good 31000 ∷ good 31001 ∷ good 31002 ∷ [])).1.state ≡ closed)
    × ((run_calls tripped (good 31000 ∷ good 31001 ∷ good 31002 ∷ [])).1.stats ≡ new_stats)
recovers_example =
    recovers tripped 1000 (good 31000) (good 31001 ∷ good 31002 ∷ []) refl refl refl (omega arith)
      ((7, refl), ((7, refl), ((7, refl), tt))) refl (omega arith) (omega arith)

closes_on_late_successes_example :
    (call {E = String} {A = ℕ} (run tripped (late_successes 2)) 31000 31005 (ok 7)).1.state ≡ closed
closes_on_late_successes_example =
    closes_on_late_successes String ℕ tripped 2 1000 31000 31005 7 refl refl (omega arith)
      (omega arith) (omega arith)

abbrev two_names : CircuitBreakerManager
two_names = ("redis", tripped) ∷ ("postgres", exhausted) ∷ []

redis_ne_meilisearch : ◌≢◌ {A = String} "redis" "meilisearch"
redis_ne_meilisearch = ground (arith, string_eq.eqb_iff "redis" "meilisearch")
