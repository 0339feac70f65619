-- ===== src/Dedup/Room.antt =====
-- src/delivery/deduplication.rs: while there is room in the window, nothing is forgotten.
use meilibridge.Prelude.{
  suc, ◌≤◌, ◌<◌, ◌≡◌, refl, true, false, [], ◌∷◌, arith, inc_u64, leb, length, length-append,
}
use meilibridge.Prelude.Map
use meilibridge.Prelude.Map.{lookup-insert}
use meilibridge.Dedup.Key.{DeduplicationKey, key_eq}
use meilibridge.Dedup.{EventDeduplicator, contains, make_room, add_new, add}
use meilibridge.Dedup.Steps.{add_cases}

-- What an addition with room in the window keeps and brings.
pub record Remembers (d : EventDeduplicator) (k : DeduplicationKey) (x : EventDeduplicator)
    : Type 0 where
  pub old : (j : DeduplicationKey) → contains d j ≡ true → contains x j ≡ true
  pub new : contains x k ≡ true
  pub queue : length x.key_queue ≤ suc (length d.key_queue)
  pub window : x.window_size ≡ d.window_size

pub add-Remembers :
    (d : EventDeduplicator) (k : DeduplicationKey)
    → length d.key_queue < d.window_size
    → Remembers d k (add d k)
unfolding add_new make_room contains Map.contains
add-Remembers d k room =
    add_cases (Remembers d k) d k
      (λ c _. record {
        old = λ j h. ground (arith, lookup-insert k j (inc_u64 c) d.key_set);
        new = ground (arith, lookup-insert k k (inc_u64 c) d.key_set, key_eq.eqb_iff k k);
        queue = omega arith;
        window = refl;
      })
      (λ _.
        let free : leb d.window_size (length d.key_queue) ≡ false = ground arith in
        rw free (record {
          old = λ j h. ground (arith, lookup-insert k j 1 d.key_set);
          new = ground (arith, lookup-insert k k 1 d.key_set, key_eq.eqb_iff k k);
          queue = omega (arith, length-append d.key_queue (k ∷ []));
          window = refl;
        }))
