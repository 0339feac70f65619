-- ===== src/Memory.antt =====
-- src/pipeline/memory_monitor.rs: MemoryMonitor. Each method is one step; its atomic additions wrap at
-- 2 ^ 64. `max_queue_memory` and `max_checkpoint_memory` are in bytes.
pub mod Accounts
mod Tests
use meilibridge.Prelude.{
  ℕ, zero, suc, ◌+◌, ◌-◌, ◌*◌, ◌%◌, ◌^◌, Bool, true, false, Option, none, some, List, [], ◌∷◌, ltb,
  if◌then◌else◌,
}
use meilibridge.Prelude.Result.{Result, ok, err}

pub data AllocationType : Type 0 where
  queue checkpoint : AllocationType

pub record MemoryMonitor : Type 0 where
  pub max_queue_memory : ℕ
  pub max_checkpoint_memory : ℕ
  pub current_queue_memory : ℕ
  pub current_checkpoint_memory : ℕ
  pub event_count : ℕ

-- The monitor of an allocation is the one that granted it.
pub record MemoryAllocation : Type 0 where
  pub size_bytes : ℕ
  pub allocation_type : AllocationType

pub data MemoryError : Type 0 where
  resource_exhausted : AllocationType → MemoryError

-- `fetch_add` and `fetch_sub` on 64 bits.
abbrev pub fetch_add : ℕ → ℕ → ℕ
fetch_add n x = (n + x) % 2 ^ 64

abbrev pub fetch_sub : ℕ → ℕ → ℕ
fetch_sub n x = (n + 2 ^ 64 - x) % 2 ^ 64

-- Megabytes to bytes, in a usize of 64 bits.
abbrev bytes_of_mb : ℕ → ℕ
bytes_of_mb mb = mb * 1024 * 1024 % 2 ^ 64

unfoldable pub new : ℕ → ℕ → MemoryMonitor
new max_queue_memory_mb max_checkpoint_memory_mb = record {
  max_queue_memory = bytes_of_mb max_queue_memory_mb;
  max_checkpoint_memory = bytes_of_mb max_checkpoint_memory_mb;
  current_queue_memory = 0;
  current_checkpoint_memory = 0;
  event_count = 0;
}

-- The new total is compared with the limit, and the addition is undone above it.
unfoldable pub track_event_memory :
    ℕ → MemoryMonitor → Result MemoryError MemoryAllocation × MemoryMonitor
track_event_memory size_bytes m =
    let new_total = fetch_add m.current_queue_memory size_bytes in
    if ltb m.max_queue_memory new_total
    then (
      err (resource_exhausted queue),
      record m { current_queue_memory = fetch_sub new_total size_bytes },
    )
    else (
      ok (record { size_bytes = size_bytes; allocation_type = queue }),
      record m { current_queue_memory = new_total; event_count = fetch_add m.event_count 1 },
    )

unfoldable pub track_checkpoint_memory :
    ℕ → MemoryMonitor → Result MemoryError MemoryAllocation × MemoryMonitor
track_checkpoint_memory size_bytes m =
    let new_total = fetch_add m.current_checkpoint_memory size_bytes in
    if ltb m.max_checkpoint_memory new_total
    then (
      err (resource_exhausted checkpoint),
      record m { current_checkpoint_memory = fetch_sub new_total size_bytes },
    )
    else (
      ok (record { size_bytes = size_bytes; allocation_type = checkpoint }),
      record m { current_checkpoint_memory = new_total },
    )

-- Dropping an allocation.
unfoldable pub release_memory : MemoryAllocation → MemoryMonitor → MemoryMonitor
release_memory a m = elim a.allocation_type [
  | queue ↦ record m {
    current_queue_memory = fetch_sub m.current_queue_memory a.size_bytes;
    event_count = fetch_sub m.event_count 1;
  }
  | checkpoint ↦ record m {
    current_checkpoint_memory = fetch_sub m.current_checkpoint_memory a.size_bytes;
  }
]
