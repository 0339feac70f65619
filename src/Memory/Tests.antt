-- ===== src/Memory/Tests.antt =====
-- src/pipeline/memory_monitor.rs: the theorem on the counters at one live allocation.
use meilibridge.Prelude.{◌≡◌, refl, [], ◌∷◌, arith}
use meilibridge.Memory
use meilibridge.Memory.{queue, track_event_memory}
use meilibridge.Memory.Accounts.{
  World, IsAccounted, after_track, step, tracks_event, step-IsAccounted,
}

-- A monitor of one MB for either kind, with 100 bytes of queue in use.
abbrev busy : World
busy = record {
  monitor = record {
    max_queue_memory = 1048576;
    max_checkpoint_memory = 1048576;
    current_queue_memory = 100;
    current_checkpoint_memory = 0;
    event_count = 1;
  };
  live = record { size_bytes = 100; allocation_type = queue } ∷ [];
}

busy_lem : after_track [] (track_event_memory 100 (Memory.new 1 1)) ≡ busy
unfolding track_event_memory Memory.new
busy_lem = refl

step-IsAccounted_example : IsAccounted (step busy (tracks_event 1048000))
step-IsAccounted_example =
    step-IsAccounted busy (tracks_event 1048000) (omega arith, omega arith)
      (record {
        queue_sum = refl;
        checkpoint_sum = refl;
        event_sum = refl;
        queue_limit = omega arith;
        checkpoint_limit = omega arith;
      })
