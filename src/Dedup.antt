-- ===== src/Dedup.antt =====
-- src/delivery/deduplication.rs: the sliding-window deduplicator. A method takes `&mut self`, so it
-- is one step on the record; the queue's front is the head of its list.
pub mod Key
pub mod Steps
pub mod Window
pub mod Memory
pub mod Leak
pub mod Exact
pub mod Balance
pub mod Room
pub mod Tests
use meilibridge.Prelude.{
  ℕ, ◌+◌, ◌-◌, ◌%◌, ◌^◌, Bool, Option, none, some, List, [], ◌∷◌, ◌++◌, leb, inc_u64, nat_eqb,
  if◌then◌else◌, length, ◌==◌,
}
use meilibridge.Prelude.Map
use meilibridge.Prelude.Map.{Map}
use Key.{DeduplicationKey, key_eq}

pub record DeduplicationStats : Type 0 where
  pub total_events : ℕ
  pub duplicate_events : ℕ
  pub window_evictions : ℕ

pub record EventDeduplicator : Type 0 where
  pub window_size : ℕ
  pub key_queue : List DeduplicationKey
  pub key_set : Map DeduplicationKey ℕ
  pub stats : DeduplicationStats

unfoldable pub new : ℕ → EventDeduplicator
new window_size = record {
  window_size = window_size;
  key_queue = [];
  key_set = [];
  stats = record { total_events = 0; duplicate_events = 0; window_evictions = 0 };
}

unfoldable pub contains : EventDeduplicator → DeduplicationKey → Bool
contains d key = Map.contains key d.key_set

-- What the eviction does to the set, for the oldest key and its count.
unfoldable pub forget : DeduplicationKey → Map DeduplicationKey ℕ → Map DeduplicationKey ℕ
forget oldest_key key_set = elim (Map.lookup oldest_key key_set) [
  | some count ↦
      if nat_eqb count 1
      then Map.remove oldest_key key_set
      else Map.insert oldest_key ((count + 2 ^ 64 - 1) % 2 ^ 64) key_set
  | none ↦ key_set
]

unfoldable pub evict_oldest : EventDeduplicator → EventDeduplicator
unfolding forget
evict_oldest d = elim d.key_queue [
  | [] ↦ d
  | oldest_key ∷ rest ↦ record d {
    key_queue = rest;
    key_set = forget oldest_key d.key_set;
    stats = record (d.stats) { window_evictions = inc_u64 d.stats.window_evictions };
  }
]

-- Evict the oldest key if the window is at its capacity.
unfoldable pub make_room : EventDeduplicator → EventDeduplicator
unfolding evict_oldest
make_room d = if leb d.window_size (length d.key_queue) then evict_oldest d else d

unfoldable pub add_new : EventDeduplicator → DeduplicationKey → EventDeduplicator
unfolding make_room
add_new d key =
    let d' = make_room d in
    record d' { key_queue = d'.key_queue ++ key ∷ []; key_set = Map.insert key 1 d'.key_set }

unfoldable pub add : EventDeduplicator → DeduplicationKey → EventDeduplicator
unfolding add_new
add d key =
    let total = inc_u64 d.stats.total_events in
    elim (Map.lookup key d.key_set) [
      | some count ↦ record d {
        key_set = Map.insert key (inc_u64 count) d.key_set;
        stats = record (d.stats) {
          total_events = total;
          duplicate_events = inc_u64 d.stats.duplicate_events;
        };
      }
      | none ↦ add_new (record d { stats = record (d.stats) { total_events = total } }) key
    ]

unfoldable pub clear : EventDeduplicator → EventDeduplicator
clear d = record d { key_queue = []; key_set = [] }

unfoldable pub current_size : EventDeduplicator → ℕ
current_size d = length d.key_queue

-- The events of a stream, added one after the other.
unfoldable pub adds : EventDeduplicator → List DeduplicationKey → EventDeduplicator
adds d [] = d
adds d (k ∷ ks) = adds (add d k) ks
