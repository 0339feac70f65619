-- ===== src/Dedup/Balance.antt =====
-- src/delivery/deduplication.rs: the statistics account for every event.
use meilibridge.Prelude.{
  ℕ, suc, ◌+◌, ◌<◌, ◌^◌, ◌≡◌, refl, List, [], ◌∷◌, arith, length, length-append, ap,
}
use meilibridge.Dedup.Key.{DeduplicationKey}
use meilibridge.Dedup.{EventDeduplicator, new, make_room, add_new, add, adds}
use meilibridge.Dedup.Steps.{totalled, add_cases, make_room_cases}

-- After n events: the counters, and the keys that are queued.
record Balances (n : ℕ) (d : EventDeduplicator) : Type 0 where
  total : d.stats.total_events ≡ n
  parts : d.stats.duplicate_events + d.stats.window_evictions + length d.key_queue ≡ n

-- One event further, and not yet queued.
record Pending (n : ℕ) (d : EventDeduplicator) : Type 0 where
  total : d.stats.total_events ≡ suc n
  parts : d.stats.duplicate_events + d.stats.window_evictions + length d.key_queue ≡ n

make_room-Pending :
    (n : ℕ) (d : EventDeduplicator) → suc n < 2 ^ 64 → Pending n d → Pending n (make_room d)
make_room-Pending n d w v =
    make_room_cases (Pending n) d (λ _. v) (λ _. v)
      (λ o rest e _. record { total = v.total; parts = omega (arith, v.parts, ap length e) })

add-Balances :
    (n : ℕ) (d : EventDeduplicator) (k : DeduplicationKey)
    → suc n < 2 ^ 64
    → Balances n d
    → Balances (suc n) (add d k)
unfolding add_new
add-Balances n d k w v =
    add_cases (Balances (suc n)) d k
      (λ c _. record { total = omega (arith, v.total); parts = omega (arith, v.parts) })
      (λ _.
        let m =
          make_room-Pending n (totalled d) w
            (record { total = omega (arith, v.total); parts = v.parts }) in
        record {
          total = m.total;
          parts = omega (arith, m.parts, length-append (make_room (totalled d)).key_queue (k ∷ []));
        })

adds-Balances :
    (n : ℕ) (d : EventDeduplicator) (ks : List DeduplicationKey)
    → n + length ks < 2 ^ 64
    → Balances n d
    → Balances (n + length ks) (adds d ks)
unfolding adds
adds-Balances n d [] w v = record { total = omega (arith, v.total); parts = omega (arith, v.parts) }
adds-Balances n d (k ∷ ks) w v =
    let r = adds-Balances (suc n) (add d k) ks (omega arith) (add-Balances n d k (omega arith) v) in
    record { total = omega (arith, r.total); parts = omega (arith, r.parts) }

-- After a stream of fewer than 2 ^ 64 events from a new deduplicator, total_events counts them all,
-- and each is a duplicate, or was evicted, or is in the queue.
pub statistics_balance :
    (w : ℕ) (ks : List DeduplicationKey)
    → length ks < 2 ^ 64
    → let d = adds (new w) ks in
      (d.stats.total_events ≡ length ks)
      × (d.stats.duplicate_events + d.stats.window_evictions + length d.key_queue ≡ length ks)
unfolding new
statistics_balance w ks h =
    let r =
      adds-Balances 0 (new w) ks (omega arith) (record { total = refl; parts = omega arith }) in
    (omega (arith, r.total), omega (arith, r.parts))
