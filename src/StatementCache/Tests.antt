-- ===== src/StatementCache/Tests.antt =====
-- src/source/postgres/statement_cache.rs: the theorem on the cache, with room for one statement.
use meilibridge.Prelude.{ℕ, String, ◌≡◌, refl, true, some, List, [], ◌∷◌, string_eq}
use meilibridge.Prelude.Map
use meilibridge.Prelude.Result.{ok}
use meilibridge.StatementCache.{
  CacheConfig, Call, gets, run, new, step, get_or_prepare, insert_prepared, make_room,
}
use meilibridge.StatementCache.Coherent.{IsBounded, PreparedFor, cache_coherent}

abbrev small : CacheConfig
small = record { max_size = 1; enabled = true }

abbrev calls : List (Call ℕ String)
calls = gets "select 1" (ok 7) ∷ gets "select 2" (ok 8) ∷ []

second_kept : Map.lookup "select 2" (run ℕ String calls (new ℕ String small)).cache ≡ some 8
unfolding run step get_or_prepare insert_prepared make_room Map.lookup Map.insert Map.remove
second_kept = refl

cache_coherent_example :
    IsBounded ℕ String (run ℕ String calls (new ℕ String small))
    × PreparedFor ℕ String "select 2" calls 8
cache_coherent_example = cache_coherent ℕ String small calls "select 2" 8 second_kept
