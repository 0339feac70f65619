-- ===== src/Breaker/Manager.antt =====
-- src/recovery/circuit_breaker.rs: the manager of named breakers. A breaker that callers share
-- through an `Arc` is the manager's entry of its name.
use meilibridge.Prelude.{
  ℕ, String, ◌≡◌, refl, ◌≢◌, Option, none, some, List, [], ◌∷◌, map, arith, string_eq,
}
use meilibridge.Prelude.Map.{Map, lookup, insert, lookup-insert}
use meilibridge.Breaker.Stats.{new_stats}
use meilibridge.Breaker.{CircuitBreaker, CircuitBreakerConfig, CircuitState, closed, new, set_state}

abbrev pub CircuitBreakerManager : Type 0
CircuitBreakerManager = Map String CircuitBreaker

pub record CircuitBreakerStats : Type 0 where
  pub name : String
  pub state : CircuitState
  pub consecutive_failures : ℕ
  pub consecutive_successes : ℕ
  pub last_failure_time : Option ℕ
  pub circuit_opened_at : Option ℕ

unfoldable pub get_stats : CircuitBreaker → CircuitBreakerStats
get_stats b = record {
  name = b.name;
  state = b.state;
  consecutive_failures = b.stats.consecutive_failures;
  consecutive_successes = b.stats.consecutive_successes;
  last_failure_time = b.stats.last_failure_time;
  circuit_opened_at = b.stats.circuit_opened_at;
}

unfoldable pub get_or_create :
    CircuitBreakerManager → String → CircuitBreakerConfig → CircuitBreaker × CircuitBreakerManager
get_or_create breakers name config = elim (lookup name breakers) [
  | some breaker ↦ (breaker, breakers)
  | none ↦ (new name config, insert name (new name config) breakers)
]

unfoldable pub get_all_stats : CircuitBreakerManager → List CircuitBreakerStats
unfolding get_stats
get_all_stats breakers = map (λ e. get_stats (e.1)) breakers

unfoldable pub reset_all : CircuitBreakerManager → ℕ → CircuitBreakerManager
reset_all [] now = []
reset_all ((name, breaker) ∷ breakers) now =
    (name, set_state breaker closed now) ∷ reset_all breakers now

-- Under one name every caller gets one breaker: after a call of get_or_create, a second call with
-- any configuration returns the same breaker and changes nothing, and the entries of all other
-- names are as they were before the first.
pub get_or_create_shared :
    (m : CircuitBreakerManager) (name other : String) (c c' : CircuitBreakerConfig)
    → other ≢ name
    → let (b, m') = get_or_create m name c in
      (get_or_create m' name c' ≡ (b, m')) × (lookup other m' ≡ lookup other m)
unfolding get_or_create
get_or_create_shared m name other c c' ne = ground (
  arith,
  lookup-insert name name (new name c) m,
  lookup-insert name other (new name c) m,
  string_eq.eqb_iff name name,
  string_eq.eqb_iff name other,
)

abbrev pub fresh : Option CircuitBreaker → Option CircuitBreaker
fresh none = none
fresh (some b) = some (record b { state = closed; stats = new_stats })

-- After reset_all every breaker that the manager holds is closed with all its counters cleared,
-- under its name and configuration, and it holds no other.
pub lookup-reset_all :
    (m : CircuitBreakerManager) (now : ℕ) (k : String)
    → lookup k (reset_all m now) ≡ fresh (lookup k m)
unfolding reset_all lookup set_state
lookup-reset_all [] now k = refl
lookup-reset_all ((name, b) ∷ m) now k = ground (arith, lookup-reset_all m now k)
