-- ===== src/StatementCache.antt =====
-- src/source/postgres/statement_cache.rs: StatementCache, one call at a time. A statement is of the
-- type S, a parameter, and the answer of the database to `prepare` comes with the call. The entry
-- that is evicted is the first in the iteration order of the map, which is the order of the list.
pub mod Coherent
mod Tests
use meilibridge.Prelude.{
  ℕ, String, Bool, true, false, not, Option, none, some, List, [], ◌∷◌, length, leb, inc_u64,
  string_eq, if◌then◌else◌,
}
use meilibridge.Prelude.Map
use meilibridge.Prelude.Map.{Map}
use meilibridge.Prelude.Result.{Result, ok, err}

pub record CacheConfig : Type 0 where
  pub max_size : ℕ
  pub enabled : Bool

abbrev pub default_config : CacheConfig
default_config = record { max_size = 100; enabled = true }

pub record CacheMetrics : Type 0 where
  pub hits : ℕ
  pub misses : ℕ
  pub evictions : ℕ

module _ (S : Type 0) (E : Type 0) where
  pub record StatementCache : Type 0 where
    pub cache : Map String S
    pub config : CacheConfig
    pub metrics : CacheMetrics

  abbrev pub new : CacheConfig → StatementCache
  new config = record {
    cache = [];
    config = config;
    metrics = record { hits = 0; misses = 0; evictions = 0 };
  }

  abbrev pub without_first : Map String S → Map String S
  without_first [] = []
  without_first ((key, s) ∷ cache) = Map.remove key ((key, s) ∷ cache)

  abbrev pub counts_eviction : Map String S → CacheMetrics → CacheMetrics
  counts_eviction [] m = m
  counts_eviction (e ∷ cache) m = record m { evictions = inc_u64 m.evictions }

  -- Room for one more statement, by the eviction of one if the cache is full.
  unfoldable pub make_room : StatementCache → StatementCache
  make_room c =
      if leb c.config.max_size (length c.cache)
      then record c { cache = without_first c.cache; metrics = counts_eviction c.cache c.metrics }
      else c

  unfoldable pub insert_prepared :
      String → Result E S → StatementCache → Result E S × StatementCache
  unfolding make_room
  insert_prepared query (err e) c = (err e, c)
  insert_prepared query (ok statement) c =
      let roomy = make_room c in
      (ok statement, record roomy { cache = Map.insert query statement roomy.cache })

  abbrev pub counts_hit : StatementCache → StatementCache
  counts_hit c = record c { metrics = record c.metrics { hits = inc_u64 c.metrics.hits } }

  abbrev pub counts_miss : StatementCache → StatementCache
  counts_miss c = record c { metrics = record c.metrics { misses = inc_u64 c.metrics.misses } }

  abbrev pub look_up : String → Result E S → Option S → StatementCache → Result E S × StatementCache
  look_up query answer (some statement) c = (ok statement, counts_hit c)
  look_up query answer none c = insert_prepared query answer (counts_miss c)

  unfoldable pub get_or_prepare : String → Result E S → StatementCache → Result E S × StatementCache
  unfolding insert_prepared
  get_or_prepare query answer c =
      if not c.config.enabled
      then (answer, c)
      else look_up query answer (Map.lookup query c.cache) c

  unfoldable pub clear : StatementCache → StatementCache
  clear c = record c { cache = [] }

  unfoldable pub invalidate : String → StatementCache → StatementCache
  invalidate query c = record c { cache = Map.remove query c.cache }

  pub data Call : Type 0 where
    gets : String → Result E S → Call
    invalidates : String → Call
    clears : Call

  unfoldable pub step : Call → StatementCache → StatementCache
  unfolding get_or_prepare clear invalidate
  step (gets query answer) c = (get_or_prepare query answer c).1
  step (invalidates query) c = invalidate query c
  step clears c = clear c

  unfoldable pub run : List Call → StatementCache → StatementCache
  unfolding step
  run [] c = c
  run (x ∷ xs) c = run xs (step x c)
