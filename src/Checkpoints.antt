-- ===== src/Checkpoints.antt =====
-- src/checkpoint/manager.rs: CheckpointManager, one command at a time, over any checkpoint store. A
-- tick of the flush timer and the final flush are flushes; what the store lists is an argument.
pub mod Flush
pub mod Latest
mod Tests
use meilibridge.Prelude.{
  ℕ, String, Bool, true, false, not, Option, none, some, List, [], ◌∷◌, ◌++◌, length, filter, any,
  member, leb, string_eq, ◌==◌, if◌then◌else◌,
}
use meilibridge.Prelude.Map
use meilibridge.Prelude.Map.{Map}
use meilibridge.Prelude.Result.{ok, err}
use meilibridge.Models.{Position, Checkpoint, new_progress_stats}
use meilibridge.Delivery.Error.{Outcome}
use meilibridge.Delivery.Storage.{CheckpointStorage}

abbrev pub new_checkpoint : String → String → Position → ℕ → Checkpoint
new_checkpoint uuid task_id position now = record {
  id = uuid;
  task_id = task_id;
  position = position;
  created_at = now;
  stats = new_progress_stats;
  metadata = none;
}

pub data CheckpointCommand : Type 0 where
  -- the generated id and the time come with the command
  saves : String → Position → String → ℕ → CheckpointCommand
  loads deletes : String → CheckpointCommand
  lists flushes : CheckpointCommand

unfoldable pub values : Map String Checkpoint → List Checkpoint
values [] = []
values ((k, c) ∷ m) = c ∷ values m

module _ (S : CheckpointStorage) where
  open S use {Store, save, load, delete}

  pub record CheckpointManager : Type 0 where
    pub storage : Store
    pub pending_checkpoints : Map String Checkpoint
    pub batch_size : ℕ

  -- A failed save is noted with its task.
  abbrev pub note_failure :
      Checkpoint → Outcome (Unit {0}) → List String × Store → List String × Store
  note_failure c (ok _) rest = rest
  note_failure c (err e) (failed_tasks, s) = (c.task_id ∷ failed_tasks, s)

  -- The tasks whose checkpoint was not saved, and the store.
  unfoldable pub save_all : Map String Checkpoint → Store → List String × Store
  save_all [] s = ([], s)
  save_all ((k, c) ∷ m) s = note_failure c (save s c).0 (save_all m (save s c).1)

  abbrev pub failed_in : List String → String × Checkpoint → Bool
  failed_in failed_tasks e = member e.0 failed_tasks

  unfoldable pub flush_pending : CheckpointManager → CheckpointManager
  unfolding save_all
  flush_pending m =
      let (failed_tasks, s) = save_all m.pending_checkpoints m.storage in
      record m {
        storage = s;
        pending_checkpoints = filter (failed_in failed_tasks) m.pending_checkpoints;
      }

  -- A load that fails is answered as if nothing was stored.
  abbrev pub loaded : Outcome (Option Checkpoint) → Option Checkpoint
  loaded (ok c) = c
  loaded (err e) = none

  -- The reply to a load: what is pending comes first.
  unfoldable pub reply : String → CheckpointManager → Option Checkpoint
  reply task_id m = elim (Map.lookup task_id m.pending_checkpoints) [
    | none ↦ loaded (load m.storage task_id)
    | some c ↦ some c
  ]

  -- The reply to a list: the pending checkpoints, and the stored ones of the other tasks.
  unfoldable pub list_stored : List Checkpoint → List Checkpoint → List Checkpoint
  list_stored [] all = all
  list_stored (c ∷ cs) all =
      list_stored cs (if any (λ d. d.task_id == c.task_id) all then all else all ++ c ∷ [])

  unfoldable pub list_reply : Outcome (List Checkpoint) → CheckpointManager → List Checkpoint
  unfolding list_stored values
  list_reply (err e) m = values m.pending_checkpoints
  list_reply (ok stored) m = list_stored stored (values m.pending_checkpoints)

  unfoldable pub save_checkpoint : Checkpoint → CheckpointManager → CheckpointManager
  unfolding flush_pending
  save_checkpoint c m =
      let noted = record m { pending_checkpoints = Map.insert c.task_id c m.pending_checkpoints } in
      if leb m.batch_size (length noted.pending_checkpoints) then flush_pending noted else noted

  unfoldable pub delete_checkpoint : String → CheckpointManager → CheckpointManager
  delete_checkpoint task_id m = record m {
    storage = (delete m.storage task_id).1;
    pending_checkpoints = Map.remove task_id m.pending_checkpoints;
  }

  -- The state after a command; a load and a list only reply.
  unfoldable pub process_command : CheckpointCommand → CheckpointManager → CheckpointManager
  unfolding save_checkpoint delete_checkpoint flush_pending
  process_command (saves task_id position uuid now) m =
      save_checkpoint (new_checkpoint uuid task_id position now) m
  process_command (deletes task_id) m = delete_checkpoint task_id m
  process_command flushes m = flush_pending m
  process_command (loads task_id) m = m
  process_command lists m = m

  unfoldable pub process_commands : List CheckpointCommand → CheckpointManager → CheckpointManager
  unfolding process_command
  process_commands [] m = m
  process_commands (c ∷ cs) m = process_commands cs (process_command c m)
