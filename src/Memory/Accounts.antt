-- ===== src/Memory/Accounts.antt =====
-- src/pipeline/memory_monitor.rs: the counters against the allocations that are alive.
use meilibridge.Prelude.{
  ℕ, zero, suc, ◌+◌, ◌^◌, ◌≤◌, ◌<◌, ◌≡◌, refl, Option, none, some, List, [], ◌∷◌, ltb, arith,
  Bool-cases, Option-cases, inl, inr,
}
use meilibridge.Prelude.Result.{Result, ok, err}
use meilibridge.Memory.{
  AllocationType, queue, checkpoint, MemoryMonitor, MemoryAllocation, MemoryError, fetch_add,
  track_event_memory, track_checkpoint_memory, release_memory,
}

-- The monitor with the allocations that it granted and that were not dropped.
pub record World : Type 0 where
  pub monitor : MemoryMonitor
  pub live : List MemoryAllocation

abbrev pub queue_bytes : List MemoryAllocation → ℕ
queue_bytes [] = 0
queue_bytes (a ∷ live) =
    elim a.allocation_type [ queue ↦ a.size_bytes | checkpoint ↦ 0 ] + queue_bytes live

abbrev pub checkpoint_bytes : List MemoryAllocation → ℕ
checkpoint_bytes [] = 0
checkpoint_bytes (a ∷ live) =
    elim a.allocation_type [ queue ↦ 0 | checkpoint ↦ a.size_bytes ] + checkpoint_bytes live

abbrev pub events : List MemoryAllocation → ℕ
events [] = 0
events (a ∷ live) = elim a.allocation_type [ queue ↦ 1 | checkpoint ↦ 0 ] + events live

-- The counters are the sums over the live allocations, and the sums keep to the limits.
pub record IsAccounted (w : World) : Type 0 where
  pub queue_sum : w.monitor.current_queue_memory ≡ queue_bytes w.live
  pub checkpoint_sum : w.monitor.current_checkpoint_memory ≡ checkpoint_bytes w.live
  pub event_sum : w.monitor.event_count ≡ events w.live
  pub queue_limit : queue_bytes w.live ≤ w.monitor.max_queue_memory
  pub checkpoint_limit : checkpoint_bytes w.live ≤ w.monitor.max_checkpoint_memory

-- What a request leaves: its allocation is alive if it was granted.
abbrev pub after_track :
    List MemoryAllocation → Result MemoryError MemoryAllocation × MemoryMonitor → World
after_track live (ok a, m) = record { monitor = m; live = a ∷ live }
after_track live (err e, m) = record { monitor = m; live = live }

abbrev pub keep :
    MemoryAllocation
    → Option (MemoryAllocation × List MemoryAllocation)
    → Option (MemoryAllocation × List MemoryAllocation)
keep a none = none
keep a (some (b, rest)) = some (b, a ∷ rest)

-- Take the n-th allocation out, if there is one.
abbrev pub taken : ℕ → List MemoryAllocation → Option (MemoryAllocation × List MemoryAllocation)
taken n [] = none
taken zero (a ∷ live) = some (a, live)
taken (suc n) (a ∷ live) = keep a (taken n live)

pub data Op : Type 0 where
  tracks_event tracks_checkpoint : ℕ → Op
  drops : ℕ → Op

unfoldable pub step : World → Op → World
step w (tracks_event size) = after_track w.live (track_event_memory size w.monitor)
step w (tracks_checkpoint size) = after_track w.live (track_checkpoint_memory size w.monitor)
step w (drops n) = elim (taken n w.live) [
  | none ↦ w
  | some (a, rest) ↦ record { monitor = release_memory a w.monitor; live = rest }
]

-- The 64 bits hold the limits and the counts, also with what the step adds.
abbrev pub Fits : MemoryMonitor → Op → Type 0
Fits m (tracks_event size) = (m.max_queue_memory + size < 2 ^ 64) × (m.event_count + 1 < 2 ^ 64)
Fits m (tracks_checkpoint size) = m.max_checkpoint_memory + size < 2 ^ 64
Fits m (drops n) =
    (m.max_queue_memory < 2 ^ 64) × (m.max_checkpoint_memory < 2 ^ 64) × (m.event_count < 2 ^ 64)

record SumsOf (live : List MemoryAllocation) (a : MemoryAllocation) (rest : List MemoryAllocation)
    : Type 0 where
  queue_sum : queue_bytes live ≡ queue_bytes (a ∷ rest)
  checkpoint_sum : checkpoint_bytes live ≡ checkpoint_bytes (a ∷ rest)
  event_sum : events live ≡ events (a ∷ rest)

taken-SumsOf :
    (n : ℕ) (live : List MemoryAllocation) (a : MemoryAllocation) (rest : List MemoryAllocation)
    → taken n live ≡ some (a, rest)
    → SumsOf live a rest
taken-SumsOf n [] a rest e = ground arith
taken-SumsOf zero (x ∷ live) a rest e = ground arith
taken-SumsOf (suc n) (x ∷ live) a rest e =
    later-SumsOf (taken n live) (λ b others h. taken-SumsOf n live b others h) e
  where
    later-SumsOf :
        (o : Option (MemoryAllocation × List MemoryAllocation))
        → ((b : MemoryAllocation) (others : List MemoryAllocation)
            → o ≡ some (b, others)
            → SumsOf live b others)
        → keep x o ≡ some (a, rest)
        → SumsOf (x ∷ live) a rest
    later-SumsOf none h e = ground arith
    later-SumsOf (some (b, others)) h e =
        let s = h b others refl in ground (arith, s.queue_sum, s.checkpoint_sum, s.event_sum)

track_event-IsAccounted :
    (w : World) (size : ℕ)
    → w.monitor.max_queue_memory + size < 2 ^ 64
    → w.monitor.event_count + 1 < 2 ^ 64
    → IsAccounted w
    → IsAccounted (after_track w.live (track_event_memory size w.monitor))
unfolding track_event_memory
track_event-IsAccounted w size h he i =
    elim (Bool-cases
      (ltb w.monitor.max_queue_memory (fetch_add w.monitor.current_queue_memory size))) [
        | inl over ↦ simp over (record {
          queue_sum = omega (arith, h, i.queue_sum, i.queue_limit);
          checkpoint_sum = omega (arith, i.checkpoint_sum);
          event_sum = omega (arith, i.event_sum);
          queue_limit = omega (arith, i.queue_limit);
          checkpoint_limit = omega (arith, i.checkpoint_limit);
        })
        | inr under ↦ simp under (record {
          queue_sum = omega (arith, h, i.queue_sum, i.queue_limit);
          checkpoint_sum = omega (arith, i.checkpoint_sum);
          event_sum = omega (arith, he, i.event_sum);
          queue_limit = ground (arith, h, under, i.queue_sum, i.queue_limit);
          checkpoint_limit = omega (arith, i.checkpoint_limit);
        })
      ]

track_checkpoint-IsAccounted :
    (w : World) (size : ℕ)
    → w.monitor.max_checkpoint_memory + size < 2 ^ 64
    → IsAccounted w
    → IsAccounted (after_track w.live (track_checkpoint_memory size w.monitor))
unfolding track_checkpoint_memory
track_checkpoint-IsAccounted w size h i =
    elim (Bool-cases
      (ltb w.monitor.max_checkpoint_memory (fetch_add w.monitor.current_checkpoint_memory size))) [
        | inl over ↦ simp over (record {
          queue_sum = omega (arith, i.queue_sum);
          checkpoint_sum = omega (arith, h, i.checkpoint_sum, i.checkpoint_limit);
          event_sum = omega (arith, i.event_sum);
          queue_limit = omega (arith, i.queue_limit);
          checkpoint_limit = omega (arith, i.checkpoint_limit);
        })
        | inr under ↦ simp under (record {
          queue_sum = omega (arith, i.queue_sum);
          checkpoint_sum = omega (arith, h, i.checkpoint_sum, i.checkpoint_limit);
          event_sum = omega (arith, i.event_sum);
          queue_limit = omega (arith, i.queue_limit);
          checkpoint_limit = ground (arith, h, under, i.checkpoint_sum, i.checkpoint_limit);
        })
      ]

release-IsAccounted :
    (m : MemoryMonitor) (live rest : List MemoryAllocation) (size : ℕ) (type_ : AllocationType)
    → SumsOf live (record { size_bytes = size; allocation_type = type_ }) rest
    → m.max_queue_memory < 2 ^ 64
    → m.max_checkpoint_memory < 2 ^ 64
    → m.event_count < 2 ^ 64
    → IsAccounted (record { monitor = m; live = live })
    → IsAccounted (record {
      monitor = release_memory (record { size_bytes = size; allocation_type = type_ }) m;
      live = rest;
    })
unfolding release_memory
release-IsAccounted m live rest size queue s q c n i = record {
  queue_sum = omega (arith, s.queue_sum, q, i.queue_sum, i.queue_limit);
  checkpoint_sum = omega (arith, s.checkpoint_sum, i.checkpoint_sum);
  event_sum = omega (arith, s.event_sum, n, i.event_sum);
  queue_limit = omega (arith, s.queue_sum, i.queue_limit);
  checkpoint_limit = omega (arith, s.checkpoint_sum, i.checkpoint_limit);
}
release-IsAccounted m live rest size checkpoint s q c n i = record {
  queue_sum = omega (arith, s.queue_sum, i.queue_sum);
  checkpoint_sum = omega (arith, s.checkpoint_sum, c, i.checkpoint_sum, i.checkpoint_limit);
  event_sum = omega (arith, s.event_sum, i.event_sum);
  queue_limit = omega (arith, s.queue_sum, i.queue_limit);
  checkpoint_limit = omega (arith, s.checkpoint_sum, i.checkpoint_limit);
}

-- A request for memory, granted or refused, and the drop of an allocation keep the counters equal to
-- the sums over the live allocations and these sums within their limits, if the limits and the
-- number of events are below 2 ^ 64, also with the size that is asked for.
pub step-IsAccounted :
    (w : World) (o : Op) → Fits w.monitor o → IsAccounted w → IsAccounted (step w o)
unfolding step
step-IsAccounted w (tracks_event size) h i = track_event-IsAccounted w size h.0 h.1 i
step-IsAccounted w (tracks_checkpoint size) h i = track_checkpoint-IsAccounted w size h i
step-IsAccounted w (drops n) h i = elim (Option-cases (taken n w.live)) [
  | inl e ↦ rw (e, step) i
  | inr ((a, rest), e) ↦
      rw (e, step)
        (release-IsAccounted w.monitor w.live rest a.size_bytes a.allocation_type
          (taken-SumsOf n w.live a rest e) h.0 h.1 h.2 i)
]
