-- ===== src/Dedup/Steps.antt =====
-- src/delivery/deduplication.rs: the cases of `add` and of the eviction, for the proofs.
use meilibridge.Prelude.{
  ℕ, ◌≡◌, ◌≢◌, refl, inl, inr, true, false, none, some, List, [], ◌∷◌, ◌∙◌, leb, inc_u64, nat_eqb,
  length, Option-cases, Bool-cases, ◌==◌,
}
use meilibridge.Prelude.Map
use meilibridge.Prelude.Map.{Map, lookup-insert_ne, lookup-remove_ne}
use meilibridge.Dedup.Key.{DeduplicationKey, key_eq}
use meilibridge.Dedup.{EventDeduplicator, forget, evict_oldest, make_room, add_new, add}

-- A duplicate: only its count and the statistics change.
abbrev pub counted : EventDeduplicator → DeduplicationKey → ℕ → EventDeduplicator
counted d key count = record d {
  key_set = Map.insert key (inc_u64 count) d.key_set;
  stats = record (d.stats) {
    total_events = inc_u64 d.stats.total_events;
    duplicate_events = inc_u64 d.stats.duplicate_events;
  };
}

abbrev pub totalled : EventDeduplicator → EventDeduplicator
totalled d = record d { stats = record (d.stats) { total_events = inc_u64 d.stats.total_events } }

abbrev pub evicted :
    EventDeduplicator → DeduplicationKey → List DeduplicationKey → EventDeduplicator
evicted d o rest = record d {
  key_queue = rest;
  key_set = forget o d.key_set;
  stats = record (d.stats) { window_evictions = inc_u64 d.stats.window_evictions };
}

pub add_cases {ℓ} :
    (P : EventDeduplicator → Type ℓ) (d : EventDeduplicator) (k : DeduplicationKey)
    → ((c : ℕ) → Map.lookup k d.key_set ≡ some c → P (counted d k c))
    → (Map.lookup k d.key_set ≡ none → P (add_new (totalled d) k))
    → P (add d k)
unfolding add
add_cases P d k seen unseen = elim (Option-cases (Map.lookup k d.key_set)) [
  | inl e ↦ rw (e, add) (unseen e)
  | inr (c, e) ↦ rw (e, add) (seen c e)
]

evict_cases {ℓ} :
    (P : EventDeduplicator → Type ℓ) (d : EventDeduplicator) (q : List DeduplicationKey)
    → d.key_queue ≡ q
    → (d.key_queue ≡ [] → P d)
    → ((o : DeduplicationKey) (rest : List DeduplicationKey)
        → d.key_queue ≡ o ∷ rest
        → P (evicted d o rest))
    → P (evict_oldest d)
unfolding evict_oldest
evict_cases P d [] e empty full = rw (e, evict_oldest) (empty e)
evict_cases P d (o ∷ rest) e empty full = rw (e, evict_oldest) (full o rest e)

pub make_room_cases {ℓ} :
    (P : EventDeduplicator → Type ℓ) (d : EventDeduplicator)
    → (leb d.window_size (length d.key_queue) ≡ false → P d)
    → (d.key_queue ≡ [] → P d)
    → ((o : DeduplicationKey) (rest : List DeduplicationKey)
        → d.key_queue ≡ o ∷ rest
        → leb d.window_size (length d.key_queue) ≡ true
        → P (evicted d o rest))
    → P (make_room d)
unfolding make_room
make_room_cases P d free empty full = elim (Bool-cases (leb d.window_size (length d.key_queue))) [
  | inl h ↦ rw (h, make_room) (evict_cases P d d.key_queue refl empty (λ o rest e. full o rest e h))
  | inr h ↦ rw (h, make_room) (free h)
]

pub lookup-forget :
    (o k : DeduplicationKey) (m : Map DeduplicationKey ℕ)
    → o ≢ k
    → Map.lookup k (forget o m) ≡ Map.lookup k m
unfolding forget
lookup-forget o k m ne = elim (Option-cases (Map.lookup o m)) [
  | inl e ↦ rw (e, forget)
  | inr (c, e) ↦
      rw (e, forget)
        (elim (Bool-cases (nat_eqb c 1)) [
          | inl one ↦ rw one (lookup-remove_ne o k m ne)
          | inr more ↦ rw more (lookup-insert_ne o k _ m ne)
        ])
]

forget-none :
    (o : DeduplicationKey) (m : Map DeduplicationKey ℕ) → Map.lookup o m ≡ none → forget o m ≡ m
unfolding forget
forget-none o m e = rw (e, forget)

pub lookup-forget-none :
    (o k : DeduplicationKey) (m : Map DeduplicationKey ℕ)
    → Map.lookup k m ≡ none
    → Map.lookup k (forget o m) ≡ none
lookup-forget-none o k m e = elim (Bool-cases (o == k)) [
  | inl same ↦ let p : o ≡ k = (key_eq.eqb_iff o k).0 same in rw (p, forget-none k m e) e
  | inr ne ↦ lookup-forget o k m (λ p. cc (ne, (key_eq.eqb_iff o k).1 p)) ∙ e
]
