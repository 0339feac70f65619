-- ===== src/Dedup/Memory.antt =====
-- src/delivery/deduplication.rs: which keys `contains` reports, over streams of events.
use meilibridge.Prelude.{
  ℕ, ◌≡◌, refl, inl, inr, true, false, none, List, [], ◌∷◌, arith, inc_u64, member, Bool-cases,
  ◌==◌,
}
use meilibridge.Prelude.Map
use meilibridge.Prelude.Map.{lookup-insert, is_some}
use meilibridge.Dedup.Key.{DeduplicationKey, key_eq}
use meilibridge.Dedup.{EventDeduplicator, new, contains, make_room, add_new, add, adds}
use meilibridge.Dedup.Steps.{totalled, add_cases, make_room_cases, lookup-forget-none}

-- What is absent and is not the key that is added stays absent.
make_room-absent :
    (d : EventDeduplicator) (j : DeduplicationKey)
    → Map.lookup j d.key_set ≡ none
    → Map.lookup j (make_room d).key_set ≡ none
make_room-absent d j e =
    make_room_cases (λ x. Map.lookup j x.key_set ≡ none) d (λ _. e) (λ _. e)
      (λ o rest _ _. lookup-forget-none o j d.key_set e)

add-absent :
    (d : EventDeduplicator) (k j : DeduplicationKey)
    → (k == j) ≡ false
    → Map.lookup j d.key_set ≡ none
    → Map.lookup j (add d k).key_set ≡ none
unfolding add_new
add-absent d k j ne e =
    add_cases (λ x. Map.lookup j x.key_set ≡ none) d k
      (λ c _. ground (arith, lookup-insert k j (inc_u64 c) d.key_set, ne))
      (λ _. ground (
        arith,
        lookup-insert k j 1 (make_room (totalled d)).key_set,
        ne,
        make_room-absent (totalled d) j e,
      ))

adds-absent :
    (d : EventDeduplicator) (ks : List DeduplicationKey) (j : DeduplicationKey)
    → member j ks ≡ false
    → Map.lookup j d.key_set ≡ none
    → Map.lookup j (adds d ks).key_set ≡ none
unfolding adds
adds-absent d [] j h e = e
adds-absent d (k ∷ ks) j h e =
    adds-absent (add d k) ks j (ground arith) (add-absent d k j (ground arith) e)

add-contains : (d : EventDeduplicator) (k : DeduplicationKey) → contains (add d k) k ≡ true
unfolding contains add_new Map.contains
add-contains d k =
    add_cases (λ x. contains x k ≡ true) d k
      (λ c _. ground (arith, lookup-insert k k (inc_u64 c) d.key_set, key_eq.eqb_iff k k))
      (λ _.
        ground (arith, lookup-insert k k 1 (make_room (totalled d)).key_set, key_eq.eqb_iff k k))

-- An event is reported as seen right after it was added, and no event is ever reported that was
-- not added: after any stream from an empty window, a key that the window contains is in the
-- stream.
pub contains_sound :
    (w : ℕ) (ks : List DeduplicationKey) (k : DeduplicationKey)
    → (contains (add (adds (new w) ks) k) k ≡ true)
      × (contains (adds (new w) ks) k ≡ true → member k ks ≡ true)
unfolding contains Map.contains
contains_sound w ks k = (
  add-contains (adds (new w) ks) k,
  λ h. elim (Bool-cases (member k ks)) [
    | inl m ↦ m
    | inr out ↦ cc (h, adds-absent (new w) ks k out (unfold new Map.lookup in refl))
  ],
)
