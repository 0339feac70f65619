-- ===== src/Dedup/Window.antt =====
-- src/delivery/deduplication.rs: the queue and the set hold together, for any sequence of calls.
use meilibridge.Prelude.{
  ℕ, suc, ◌≤◌, max, ◌≡◌, ◌≢◌, ap, inl, inr, true, false, none, List, [], ◌∷◌, ◌++◌, arith, inc_u64,
  length, length-append, member, Distinct, member-append, Distinct-append_one, Bool-cases, subst,
}
use meilibridge.Prelude.Map
use meilibridge.Prelude.Map.{lookup-insert}
use meilibridge.Dedup.Key.{DeduplicationKey, key_eq}
use meilibridge.Dedup.{EventDeduplicator, new, make_room, add_new, add, clear, adds}
use meilibridge.Dedup.Steps.{
  counted, evicted, totalled, add_cases, make_room_cases, lookup-forget, lookup-forget-none,
}

-- What ties the queue to the set.
pub record IsWindow (d : EventDeduplicator) : Type 0 where
  pub queued : (k : DeduplicationKey) → member k d.key_queue ≡ true → Map.lookup k d.key_set ≢ none
  pub distinct : Distinct d.key_queue
  pub bounded : length d.key_queue ≤ max 1 d.window_size

-- The same with room for one more key.
record HasRoom (d : EventDeduplicator) : Type 0 where
  queued : (k : DeduplicationKey) → member k d.key_queue ≡ true → Map.lookup k d.key_set ≢ none
  distinct : Distinct d.key_queue
  room : suc (length d.key_queue) ≤ max 1 d.window_size

pub ne_of_member :
    (o k : DeduplicationKey) (q : List DeduplicationKey)
    → member o q ≡ false
    → member k q ≡ true
    → o ≢ k
ne_of_member o k q h m e = ground (arith, ap (λ (x : DeduplicationKey). member x q) e)

module _ (d : EventDeduplicator) where
  evicted-HasRoom :
      (o : DeduplicationKey) (rest : List DeduplicationKey)
      → IsWindow d
      → d.key_queue ≡ o ∷ rest
      → HasRoom (evicted d o rest)
  evicted-HasRoom o rest v e =
      let dist : Distinct (o ∷ rest) = subst Distinct e v.distinct in
      let fit : length (o ∷ rest) ≤ max 1 d.window_size = rw e at v.bounded in
      record {
        queued = λ k h.
            rw (lookup-forget o k d.key_set (ne_of_member o k rest dist.0 h))
              (v.queued k (rw e (ground (arith, h))));
        distinct = dist.1;
        room = omega arith;
      }

  make_room-HasRoom : IsWindow d → HasRoom (make_room d)
  make_room-HasRoom v =
      make_room_cases HasRoom d
        (λ h. record { queued = v.queued; distinct = v.distinct; room = ground arith })
        (λ e. record { queued = v.queued; distinct = v.distinct; room = rw e (omega arith) })
        (λ o rest e _. evicted-HasRoom o rest v e)

  pub make_room-lookup-none :
      (k : DeduplicationKey)
      → Map.lookup k d.key_set ≡ none
      → Map.lookup k (make_room d).key_set ≡ none
  make_room-lookup-none k e =
      make_room_cases (λ x. Map.lookup k x.key_set ≡ none) d (λ _. e) (λ _. e)
        (λ o rest _ _. lookup-forget-none o k d.key_set e)

module _ (d : EventDeduplicator) (k : DeduplicationKey) where
  not_queued : HasRoom d → Map.lookup k d.key_set ≡ none → member k d.key_queue ≡ false
  not_queued v e = elim (Bool-cases (member k d.key_queue)) [
    | inl h ↦ absurd (v.queued k h e)
    | inr h ↦ h
  ]

  pushed-IsWindow :
      HasRoom d
      → member k d.key_queue ≡ false
      → IsWindow
          (record d { key_queue = d.key_queue ++ k ∷ []; key_set = Map.insert k 1 d.key_set })
  pushed-IsWindow v out = record {
    queued = λ j h.
        ground
          (arith, lookup-insert k j 1 d.key_set, member-append j d.key_queue (k ∷ []), v.queued j);
    distinct = Distinct-append_one k d.key_queue v.distinct out;
    bounded = omega (arith, v.room, length-append d.key_queue (k ∷ []));
  }

  counted-IsWindow : (c : ℕ) → IsWindow d → IsWindow (counted d k c)
  counted-IsWindow c v = record {
    queued = λ j h. ground (arith, lookup-insert k j (inc_u64 c) d.key_set, v.queued j);
    distinct = v.distinct;
    bounded = v.bounded;
  }

module _ (d : EventDeduplicator) (k : DeduplicationKey) where
  add_new-IsWindow : IsWindow d → Map.lookup k d.key_set ≡ none → IsWindow (add_new d k)
  unfolding add_new
  add_new-IsWindow v e =
      pushed-IsWindow (make_room d) k (make_room-HasRoom d v)
        (not_queued (make_room d) k (make_room-HasRoom d v) (make_room-lookup-none d k e))

module _ (d : EventDeduplicator) (k : DeduplicationKey) where
  -- Adding a key keeps the window well formed: every queued key is in the set, no key is queued
  -- twice, and at most max 1 window_size keys are queued.
  pub add-IsWindow : IsWindow d → IsWindow (add d k)
  add-IsWindow v =
      add_cases IsWindow d k (λ c _. counted-IsWindow d k c v)
        (λ e.
          add_new-IsWindow (totalled d) k
            (record { queued = v.queued; distinct = v.distinct; bounded = v.bounded }) e)

pub new-IsWindow : (w : ℕ) → IsWindow (new w)
unfolding new
new-IsWindow w = record { queued = λ k h. cc h; distinct = tt; bounded = omega arith }

pub clear-IsWindow : (d : EventDeduplicator) → IsWindow (clear d)
unfolding clear
clear-IsWindow d = record { queued = λ k h. cc h; distinct = tt; bounded = omega arith }

pub adds-IsWindow :
    (d : EventDeduplicator) (ks : List DeduplicationKey) → IsWindow d → IsWindow (adds d ks)
unfolding adds
adds-IsWindow d [] v = v
adds-IsWindow d (k ∷ ks) v = adds-IsWindow (add d k) ks (add-IsWindow d k v)
