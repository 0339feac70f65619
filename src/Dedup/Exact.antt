-- ===== src/Dedup/Exact.antt =====
-- src/delivery/deduplication.rs: over a stream without repetitions the window is what its name
-- says, the last window_size keys; and the statistics balance over every stream.
use meilibridge.Prelude.{
  ℕ, suc, ◌+◌, ◌-◌, ◌≤◌, ◌<◌, ◌≡◌, refl, ap, ◌∙◌, sym, inl, inr, false, none, some, List, [], ◌∷◌,
  ◌++◌, arith, length, length-append, drop, member, Distinct, member-append, subst, if◌then◌else◌,
  ◌==◌, Distinct-middle, Distinct-append_one, ◌⊎◌,
}
use mathlib.Core.List.{append_assoc, append-nil}
use meilibridge.Prelude.Map
use meilibridge.Prelude.Map.{lookup-insert, lookup-remove, is_some}
use meilibridge.Dedup.Key.{DeduplicationKey, key_eq}
use meilibridge.Dedup.{EventDeduplicator, new, contains, make_room, add_new, add, adds, forget}
use meilibridge.Dedup.Steps.{totalled, add_cases, make_room_cases}

-- Every key of the queue has the count 1, and the set holds no other key.
record IsExact (d : EventDeduplicator) : Type 0 where
  counts :
      (k : DeduplicationKey)
      → Map.lookup k d.key_set ≡ (if member k d.key_queue then some 1 else none)
  distinct : Distinct d.key_queue
  fits : length d.key_queue ≤ d.window_size

forget-once :
    (o k : DeduplicationKey) (d : EventDeduplicator)
    → Map.lookup o d.key_set ≡ some 1
    → Map.lookup k (forget o d.key_set) ≡ (if o == k then none else Map.lookup k d.key_set)
unfolding forget
forget-once o k d e = rw (e, forget) (lookup-remove o k d.key_set)

evicted-counts :
    (d : EventDeduplicator) (o k : DeduplicationKey) (rest : List DeduplicationKey)
    → IsExact d
    → d.key_queue ≡ o ∷ rest
    → Map.lookup k (forget o d.key_set) ≡ (if member k rest then some 1 else none)
evicted-counts d o k rest v e =
    let dist : Distinct (o ∷ rest) = subst Distinct e v.distinct in
    ground (
      arith,
      dist.0,
      forget-once o k d,
      v.counts o,
      v.counts k,
      key_eq.eqb_iff o k,
      key_eq.eqb_iff o o,
    )

-- What `make_room` leaves: room for a key, and the queue or its rest.
record Made (d x : EventDeduplicator) : Type 0 where
  exact : IsExact x
  same_window : x.window_size ≡ d.window_size
  room : suc (length x.key_queue) ≤ d.window_size
  queue :
      (x.key_queue ≡ d.key_queue)
      ⊎ ((o : DeduplicationKey) × (d.key_queue ≡ o ∷ x.key_queue)
          × (length d.key_queue ≡ d.window_size))

make_room-Made : (d : EventDeduplicator) → 0 < d.window_size → IsExact d → Made d (make_room d)
make_room-Made d w v =
    make_room_cases (Made d) d
      (λ h. record { exact = v; same_window = refl; room = ground arith; queue = inl refl })
      (λ e. record { exact = v; same_window = refl; room = rw e (omega arith); queue = inl refl })
      (λ o rest e h.
        let fit : length (o ∷ rest) ≤ d.window_size = rw e at v.fits in
        let dist : Distinct (o ∷ rest) = subst Distinct e v.distinct in
        let size : length d.key_queue ≡ suc (length rest) = ap length e in
        record {
          exact = record {
            counts = λ k. evicted-counts d o k rest v e;
            distinct = dist.1;
            fits = omega arith;
          };
          same_window = refl;
          room = omega arith;
          queue = inr (o, e, ground arith);
        })

add_new-IsExact :
    (d : EventDeduplicator) (k : DeduplicationKey)
    → IsExact d
    → suc (length d.key_queue) ≤ d.window_size
    → member k d.key_queue ≡ false
    → IsExact (record d { key_queue = d.key_queue ++ k ∷ []; key_set = Map.insert k 1 d.key_set })
add_new-IsExact d k v r out = record {
  counts = λ j.
      ground
        (arith, lookup-insert k j 1 d.key_set, v.counts j, member-append j d.key_queue (k ∷ []));
  distinct = Distinct-append_one k d.key_queue v.distinct out;
  fits = omega (arith, length-append d.key_queue (k ∷ []));
}

-- The last n keys of a stream.
abbrev pub last_keys : ℕ → List DeduplicationKey → List DeduplicationKey
last_keys n ks = drop (length ks - n) ks

record Added (d : EventDeduplicator) (k : DeduplicationKey) (x : EventDeduplicator) : Type 0 where
  exact : IsExact x
  same_window : x.window_size ≡ d.window_size
  queue :
      (x.key_queue ≡ d.key_queue ++ k ∷ [])
      ⊎ ((o : DeduplicationKey) × (q : List DeduplicationKey) × (d.key_queue ≡ o ∷ q)
          × (length d.key_queue ≡ d.window_size)
          × (x.key_queue ≡ q ++ k ∷ []))

Made-Added :
    (d x : EventDeduplicator) (k : DeduplicationKey)
    → Made d x
    → member k d.key_queue ≡ false
    → Added d k (record x { key_queue = x.key_queue ++ k ∷ []; key_set = Map.insert k 1 x.key_set })
Made-Added d x k m out = elim m.queue [
  | inl e ↦ record {
    exact = add_new-IsExact x k m.exact (rw m.same_window m.room) (rw e out);
    same_window = m.same_window;
    queue = inl (ap (λ (q : List DeduplicationKey). q ++ k ∷ []) e);
  }
  | inr (o, e, full) ↦ record {
    exact = add_new-IsExact x k m.exact (rw m.same_window m.room) (ground arith);
    same_window = m.same_window;
    queue = inr (o, x.key_queue, e, full, refl);
  }
]

add-Added :
    (d : EventDeduplicator) (k : DeduplicationKey)
    → 0 < d.window_size
    → IsExact d
    → member k d.key_queue ≡ false
    → Added d k (add d k)
unfolding add_new
add-Added d k w v out =
    add_cases (Added d k) d k (λ c e. absurd (ground (arith, v.counts k)))
      (λ _.
        let m =
          make_room-Made (totalled d) w
            (record { counts = v.counts; distinct = v.distinct; fits = v.fits }) in
        let a = Made-Added (totalled d) (make_room (totalled d)) k m out in
        record { exact = a.exact; same_window = a.same_window; queue = a.queue })

append_one :
    (q : List DeduplicationKey) (k : DeduplicationKey) (ks : List DeduplicationKey)
    → (q ++ k ∷ []) ++ ks ≡ q ++ k ∷ ks
append_one q k ks = append_assoc q (k ∷ []) ks

Added-Distinct :
    (d x : EventDeduplicator) (k : DeduplicationKey) (ks : List DeduplicationKey)
    → Added d k x
    → Distinct (d.key_queue ++ k ∷ ks)
    → Distinct (x.key_queue ++ ks)
Added-Distinct d x k ks a h = elim a.queue [
  | inl e ↦ rw (e, append_one d.key_queue k ks) h
  | inr (o, q, e, full, e') ↦
      let h' : Distinct (o ∷ (q ++ k ∷ ks)) = subst (λ l. Distinct (l ++ k ∷ ks)) e h in
      rw (e', append_one q k ks) (h'.1)
]

drop_more :
    (o : DeduplicationKey) (w : ℕ) (q ks : List DeduplicationKey)
    → suc (length q) ≡ w
    → (k : DeduplicationKey) → last_keys w (q ++ k ∷ ks) ≡ last_keys w (o ∷ (q ++ k ∷ ks))
drop_more o w q ks e k =
    let n : length (q ++ k ∷ ks) ≡ length q + suc (length ks) = length-append q (k ∷ ks) in
    let a : length (q ++ k ∷ ks) - w ≡ length ks = omega arith in
    let b : suc (length (q ++ k ∷ ks)) - w ≡ suc (length ks) = omega arith in rw (a, b)

Added-last_keys :
    (d x : EventDeduplicator) (k : DeduplicationKey) (ks : List DeduplicationKey)
    → Added d k x
    → last_keys d.window_size (x.key_queue ++ ks) ≡ last_keys d.window_size (d.key_queue ++ k ∷ ks)
Added-last_keys d x k ks a = elim a.queue [
  | inl e ↦ rw (e, append_one d.key_queue k ks)
  | inr (o, q, e, full, e') ↦
      rw (e', append_one q k ks, e) (drop_more o d.window_size q ks (rw e at full) k)
]

last_keys-all : (w : ℕ) (q : List DeduplicationKey) → length q ≤ w → last_keys w (q ++ []) ≡ q
last_keys-all w q h = let e : length q - w ≡ 0 = omega arith in rw (append-nil q, e)

adds-last_keys :
    (d : EventDeduplicator) (ks : List DeduplicationKey)
    → 0 < d.window_size
    → IsExact d
    → Distinct (d.key_queue ++ ks)
    → IsExact (adds d ks) × ((adds d ks).key_queue ≡ last_keys d.window_size (d.key_queue ++ ks))
unfolding adds
adds-last_keys d [] w v h = (v, sym (last_keys-all d.window_size d.key_queue v.fits))
adds-last_keys d (k ∷ ks) w v h =
    let a : Added d k (add d k) = add-Added d k w v (Distinct-middle k d.key_queue ks h) in
    let w' : 0 < (add d k).window_size = rw a.same_window w in
    let ih = adds-last_keys (add d k) ks w' a.exact (Added-Distinct d (add d k) k ks a h) in
    (ih.0, ih.1 ∙ rw a.same_window (Added-last_keys d (add d k) k ks a))

-- Over a stream in which no key comes twice, from an empty window of a positive size, the queue
-- holds the last window_size keys in their order, and exactly these keys are reported as seen.
pub window_of_stream :
    (w : ℕ) (ks : List DeduplicationKey)
    → 0 < w
    → Distinct ks
    → ((adds (new w) ks).key_queue ≡ last_keys w ks)
      × ((k : DeduplicationKey) → contains (adds (new w) ks) k ≡ member k (last_keys w ks))
unfolding contains Map.contains new
window_of_stream w ks p h =
    let r =
      adds-last_keys (new w) ks p
        (record { counts = λ k. unfold Map.lookup in refl; distinct = tt; fits = omega arith }) h in
    (r.1, λ k. ground (arith, r.0.counts k, ap (member k) r.1))
