-- ===== src/Checkpoints/Latest.antt =====
-- src/checkpoint/manager.rs: the manager as a table of the latest checkpoint of each task.
use meilibridge.Prelude.{
  String, ◌≡◌, ◌≢◌, refl, ◌∙◌, ap, subst, Option, none, some, List, [], ◌∷◌, length, leb, arith,
  string_eq, ◌==◌, if◌then◌else◌, Bool-cases, inl, inr,
}
use meilibridge.Prelude.Map
use meilibridge.Prelude.Map.{Map, lookup-insert, lookup-remove}
use meilibridge.Models.{Checkpoint}
use meilibridge.Delivery.Storage.{CheckpointStorage}
use meilibridge.Checkpoints.{
  new_checkpoint, CheckpointCommand, saves, loads, deletes, lists, flushes, CheckpointManager,
  save_all, flush_pending, loaded, reply, save_checkpoint, delete_checkpoint, process_command,
  process_commands,
}
use meilibridge.Checkpoints.Flush.{
  Keyed, insert-Keyed, remove-Keyed, filter-Keyed, Separates, reply-flush_pending,
}

-- What a command makes of the latest checkpoint of a task.
abbrev pub latest_after : CheckpointCommand → String → Option Checkpoint → Option Checkpoint
latest_after (saves task_id position uuid now) k before =
    if task_id == k then some (new_checkpoint uuid task_id position now) else before
latest_after (deletes task_id) k before = if task_id == k then none else before
latest_after (loads task_id) k before = before
latest_after lists k before = before
latest_after flushes k before = before

abbrev pub latest_after_all :
    List CheckpointCommand → String → Option Checkpoint → Option Checkpoint
latest_after_all [] k before = before
latest_after_all (c ∷ cs) k before = latest_after_all cs k (latest_after c k before)

module _ (S : CheckpointStorage) (apart : Separates S) where
  flush-Keyed :
      (m : CheckpointManager S)
      → Keyed m.pending_checkpoints
      → Keyed (flush_pending S m).pending_checkpoints
  unfolding flush_pending
  flush-Keyed m h =
      filter-Keyed (save_all S m.pending_checkpoints m.storage).0 m.pending_checkpoints h

  abbrev noted : Checkpoint → CheckpointManager S → CheckpointManager S
  noted c m = record m { pending_checkpoints = Map.insert c.task_id c m.pending_checkpoints }

  reply-noted :
      (c : Checkpoint) (m : CheckpointManager S) (k : String)
      → reply S k (noted c m) ≡ (if c.task_id == k then some c else reply S k m)
  unfolding reply
  reply-noted c m k = ground (arith, lookup-insert c.task_id k c m.pending_checkpoints)

  reply-save_checkpoint :
      (c : Checkpoint) (m : CheckpointManager S) (k : String)
      → Keyed m.pending_checkpoints
      → reply S k (save_checkpoint S c m) ≡ (if c.task_id == k then some c else reply S k m)
  unfolding save_checkpoint
  reply-save_checkpoint c m k h =
      elim (Bool-cases (leb m.batch_size (length (noted c m).pending_checkpoints))) [
        | inl full ↦ rw full (
            reply-flush_pending S apart (noted c m) k (insert-Keyed c m.pending_checkpoints h)
            ∙ reply-noted c m k)
        | inr room ↦ rw room (reply-noted c m k)
      ]

  save_checkpoint-Keyed :
      (c : Checkpoint) (m : CheckpointManager S)
      → Keyed m.pending_checkpoints
      → Keyed (save_checkpoint S c m).pending_checkpoints
  unfolding save_checkpoint
  save_checkpoint-Keyed c m h =
      elim (Bool-cases (leb m.batch_size (length (noted c m).pending_checkpoints))) [
        | inl full ↦ rw full (flush-Keyed (noted c m) (insert-Keyed c m.pending_checkpoints h))
        | inr room ↦ rw room (insert-Keyed c m.pending_checkpoints h)
      ]

  load-deleted :
      (m : CheckpointManager S) (t : String) → loaded S (S.load (S.delete m.storage t).1 t) ≡ none
  load-deleted m t = ap (loaded S) (
      S.load-delete m.storage (S.delete m.storage t).1 t
        (ap (λ x. (x, (S.delete m.storage t).1)) (apart.deletes m.storage t)))

  reply-delete_checkpoint :
      (t : String) (m : CheckpointManager S) (k : String)
      → reply S k (delete_checkpoint S t m) ≡ (if t == k then none else reply S k m)
  unfolding reply delete_checkpoint
  reply-delete_checkpoint t m k = elim (Bool-cases (t == k)) [
    | inl e ↦
        let same = (string_eq.eqb_iff t k).0 e in
        ground (
          arith,
          e,
          lookup-remove t k m.pending_checkpoints,
          subst (λ x. loaded S (S.load (S.delete m.storage t).1 x) ≡ none) same (load-deleted m t),
        )
    | inr e ↦
        let other : t ≢ k = λ p. ground (arith, e, (string_eq.eqb_iff t k).1 p) in
        ground (
          arith,
          e,
          lookup-remove t k m.pending_checkpoints,
          apart.load-delete_other m.storage t k other,
        )
  ]

  process_command-Keyed :
      (c : CheckpointCommand) (m : CheckpointManager S)
      → Keyed m.pending_checkpoints
      → Keyed (process_command S c m).pending_checkpoints
  unfolding process_command delete_checkpoint
  process_command-Keyed (saves t p u now) m h = save_checkpoint-Keyed (new_checkpoint u t p now) m h
  process_command-Keyed (deletes t) m h = remove-Keyed t m.pending_checkpoints h
  process_command-Keyed flushes m h = flush-Keyed m h
  process_command-Keyed (loads t) m h = h
  process_command-Keyed lists m h = h

  reply-process_command :
      (c : CheckpointCommand) (m : CheckpointManager S) (k : String)
      → Keyed m.pending_checkpoints
      → reply S k (process_command S c m) ≡ latest_after c k (reply S k m)
  unfolding process_command
  reply-process_command (saves t p u now) m k h =
      reply-save_checkpoint (new_checkpoint u t p now) m k h
  reply-process_command (deletes t) m k h = reply-delete_checkpoint t m k
  reply-process_command flushes m k h = reply-flush_pending S apart m k h
  reply-process_command (loads t) m k h = refl
  reply-process_command lists m k h = refl

  -- The reply to a load of a task after any commands is its latest checkpoint: the one of its last
  -- save, nothing after a deletion, and what was there before without either; a flush, by its size
  -- or by a command, changes no reply, whichever of its saves fail. The store keeps the tasks apart
  -- and its deletions succeed, and every pending checkpoint stands under its task, once.
  pub reply-process_commands :
      (cs : List CheckpointCommand) (m : CheckpointManager S) (k : String)
      → Keyed m.pending_checkpoints
      → reply S k (process_commands S cs m) ≡ latest_after_all cs k (reply S k m)
  unfolding process_commands
  reply-process_commands [] m k h = refl
  reply-process_commands (c ∷ cs) m k h =
      reply-process_commands cs (process_command S c m) k (process_command-Keyed c m h)
      ∙ ap (latest_after_all cs k) (reply-process_command c m k h)
