-- ===== src/Checkpoints/Tests.antt =====
-- src/checkpoint/manager.rs: the theorem on the latest checkpoints, over the store in memory.
use meilibridge.Prelude.{◌≡◌, refl, some, List, [], ◌∷◌}
use meilibridge.Prelude.Map
use meilibridge.Models.{postgresql}
use meilibridge.Delivery.Storage.{memory_storage}
use meilibridge.Delivery.Storage
use meilibridge.Checkpoints.{
  new_checkpoint, CheckpointCommand, saves, deletes, flushes, CheckpointManager, reply,
  process_commands, process_command, save_checkpoint, flush_pending, save_all,
}
use meilibridge.Checkpoints.Flush.{memory_storage-Separates}
use meilibridge.Checkpoints.Latest.{latest_after_all, reply-process_commands}

abbrev empty : CheckpointManager memory_storage
empty = record { storage = []; pending_checkpoints = []; batch_size = 2 }

-- The second save fills the batch.
abbrev session : List CheckpointCommand
session =
    saves "users" (postgresql "0/10") "a" 1
    ∷ saves "orders" (postgresql "0/20") "b" 2
    ∷ saves "users" (postgresql "0/30") "c" 3
    ∷ flushes
    ∷ deletes "orders"
    ∷ []

reply-process_commands_example :
    reply memory_storage "users" (process_commands memory_storage session empty)
    ≡ latest_after_all session "users" (reply memory_storage "users" empty)
reply-process_commands_example =
    reply-process_commands memory_storage memory_storage-Separates session empty "users" tt

latest_of_users :
    reply memory_storage "users" (process_commands memory_storage session empty)
    ≡ some (new_checkpoint "c" "users" (postgresql "0/30") 3)
unfolding reply process_commands process_command save_checkpoint flush_pending save_all Map.lookup
    Map.insert Map.remove Storage.save Storage.load Storage.delete
latest_of_users = refl
