-- ===== src/Dedup/Leak.antt =====
-- src/delivery/deduplication.rs: a key that was added twice outlives the window.
use meilibridge.Prelude.{
  ℕ, suc, ◌+◌, ◌-◌, ◌≤◌, ◌<◌, ◌^◌, ◌≡◌, ◌≢◌, ◌∙◌, ◌⊎◌, inl, inr, true, false, some, List, [], ◌∷◌,
  ◌++◌, arith, inc_u64, nat_eqb, length, member, Distinct, member-append, Bool-cases, subst, ◌==◌,
  ap,
}
use meilibridge.Prelude.Map
use meilibridge.Prelude.Map.{lookup-insert, lookup-insert_self, lookup-insert_ne}
use meilibridge.Dedup.Key.{DeduplicationKey, key_eq}
use meilibridge.Dedup.{EventDeduplicator, contains, make_room, add_new, add, adds, forget}
use meilibridge.Dedup.Steps.{counted, evicted, totalled, add_cases, make_room_cases, lookup-forget}
use meilibridge.Dedup.Window.{IsWindow, add-IsWindow}

-- The key is in the set with a count that its eviction from the queue does not bring to 0, and n
-- more additions do not wrap the count.
record IsSticky (k : DeduplicationKey) (n : ℕ) (d : EventDeduplicator) : Type 0 where
  count : ℕ
  held : Map.lookup k d.key_set ≡ some count
  fits : count + n < 2 ^ 64
  kept : (member k d.key_queue ≡ false) ⊎ (2 ≤ count)

forget-twice :
    (k : DeduplicationKey) (c : ℕ) (d : EventDeduplicator)
    → Map.lookup k d.key_set ≡ some c
    → 2 ≤ c
    → c < 2 ^ 64
    → Map.lookup k (forget k d.key_set) ≡ some (c - 1)
unfolding forget
forget-twice k c d e h w =
    rw (e, forget)
      (elim (Bool-cases (nat_eqb c 1)) [
        | inl one ↦ absurd (ground arith)
        | inr more ↦ rw more (lookup-insert_self k _ d.key_set ∙ ap some (omega arith))
      ])

module _ (k : DeduplicationKey) (n : ℕ) (d : EventDeduplicator) where
  evicted-IsSticky :
      (o : DeduplicationKey) (rest : List DeduplicationKey)
      → Distinct (o ∷ rest)
      → d.key_queue ≡ o ∷ rest
      → IsSticky k n d
      → IsSticky k n (evicted d o rest)
  evicted-IsSticky o rest dist e s = elim (Bool-cases (o == k)) [
    | inl same ↦
        let p : o ≡ k = (key_eq.eqb_iff o k).0 same in
        let twice : 2 ≤ s.count = ground (arith, s.kept) in
        record {
          count = s.count - 1;
          held = rw p (forget-twice k s.count d s.held twice (omega (arith, s.fits)));
          fits = omega (arith, s.fits);
          kept = inl (rw (← p) dist.0);
        }
    | inr other ↦ record {
      count = s.count;
      held = lookup-forget o k d.key_set (λ p. cc (other, (key_eq.eqb_iff o k).1 p)) ∙ s.held;
      fits = s.fits;
      kept = ground (arith, s.kept);
    }
  ]

  make_room-IsSticky : IsWindow d → IsSticky k n d → IsSticky k n (make_room d)
  make_room-IsSticky v s =
      make_room_cases (IsSticky k n) d (λ _. s) (λ _. s)
        (λ o rest e _. evicted-IsSticky o rest (subst Distinct e v.distinct) e s)

  pushed-IsSticky :
      (j : DeduplicationKey)
      → j ≢ k
      → IsSticky k n d
      → IsSticky k n
          (record d { key_queue = d.key_queue ++ j ∷ []; key_set = Map.insert j 1 d.key_set })
  pushed-IsSticky j ne s = record {
    count = s.count;
    held = lookup-insert_ne j k 1 d.key_set ne ∙ s.held;
    fits = s.fits;
    kept = ground (arith, s.kept, member-append k d.key_queue (j ∷ []), key_eq.eqb_iff j k);
  }

module _ (k : DeduplicationKey) (n : ℕ) (d : EventDeduplicator) where
  counted-IsSticky :
      (j : DeduplicationKey) (c : ℕ)
      → Map.lookup j d.key_set ≡ some c
      → IsSticky k (suc n) d
      → IsSticky k n (counted d j c)
  counted-IsSticky j c e s = elim (Bool-cases (j == k)) [
    | inl same ↦
        let p : j ≡ k = (key_eq.eqb_iff j k).0 same in
        let e' : Map.lookup k d.key_set ≡ some c = rw p at e in
        let q : s.count ≡ c = ground (arith, s.held, e') in
        record {
          count = s.count + 1;
          held =
              rw p
                (lookup-insert_self k (inc_u64 c) d.key_set ∙ ap some (omega (arith, s.fits, q)));
          fits = omega (arith, s.fits);
          kept = ground (arith, s.kept);
        }
    | inr other ↦ record {
      count = s.count;
      held =
          lookup-insert_ne j k (inc_u64 c) d.key_set (λ p. cc (other, (key_eq.eqb_iff j k).1 p))
          ∙ s.held;
      fits = omega (arith, s.fits);
      kept = s.kept;
    }
  ]

module _ (k : DeduplicationKey) (n : ℕ) (d : EventDeduplicator) where
  add-IsSticky : (j : DeduplicationKey) → IsWindow d → IsSticky k (suc n) d → IsSticky k n (add d j)
  unfolding add_new
  add-IsSticky j v s =
      add_cases (IsSticky k n) d j (λ c e. counted-IsSticky k n d j c e s)
        (λ e.
          pushed-IsSticky k n (make_room (totalled d)) j
            (λ (p : j ≡ k). cc (e, s.held, ap (λ (x : DeduplicationKey). Map.lookup x d.key_set) p))
            (make_room-IsSticky k n (totalled d)
              (record { queued = v.queued; distinct = v.distinct; bounded = v.bounded })
              (record {
                count = s.count;
                held = s.held;
                fits = omega (arith, s.fits);
                kept = s.kept;
              })))

adds-held :
    (k : DeduplicationKey) (d : EventDeduplicator) (ks : List DeduplicationKey)
    → IsWindow d
    → IsSticky k (length ks) d
    → contains (adds d ks) k ≡ true
unfolding adds contains Map.contains
adds-held k d [] v s = ground (arith, s.held)
adds-held k d (j ∷ ks) v s =
    adds-held k (add d j) ks (add-IsWindow d j v) (add-IsSticky k (length ks) d j v s)

-- A key whose count is 2 or more, because a duplicate of it was added while it was in the window,
-- is never forgotten: whatever events follow, however many windows of them (as long as the 64-bit
-- count does not wrap), the key is still reported as seen.
pub duplicate_never_forgotten :
    (d : EventDeduplicator) (k : DeduplicationKey) (c : ℕ) (ks : List DeduplicationKey)
    → IsWindow d
    → Map.lookup k d.key_set ≡ some c
    → 2 ≤ c
    → c + length ks < 2 ^ 64
    → contains (adds d ks) k ≡ true
duplicate_never_forgotten d k c ks v h t w =
    adds-held k d ks v (record { count = c; held = h; fits = w; kept = inr t })
