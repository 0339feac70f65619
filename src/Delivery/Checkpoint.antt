-- ===== src/Delivery/Checkpoint.antt =====
-- src/delivery/checkpoint.rs: transactional checkpoints over a store. The lock on the transactions is
-- held for the whole of each method, so a method is one step. The time and the generated id of a
-- checkpoint are arguments.
pub mod Distinctness
pub mod Commit
pub mod Tests
use meilibridge.Prelude.{
  ℕ, ◌-◌, ◌*◌, ◌^◌, String, Bool, true, false, not, ◌&&◌, Option, none, some, List, [], ◌∷◌, ◌++◌,
  map, ltb, any, find?, filter, string_eq, ◌==◌, if◌then◌else◌,
}
use meilibridge.Prelude.Result.{Result, ok, err, or_err, ◌>>=◌}
use meilibridge.Models.{Position, Checkpoint, new_progress_stats}
use meilibridge.Delivery.Error.{
  Outcome, already_exists, not_found, not_prepared, checkpoint_not_found,
}
use meilibridge.Delivery.Storage.{CheckpointStorage}

pub record CheckpointTransaction : Type 0 where
  pub transaction_id : String
  pub task_id : String
  pub position : Position
  pub prepared : Bool
  pub committed : Bool
  pub created_at : ℕ

pub record TransactionalCheckpoint (S : Type 0) : Type 0 where
  pub storage : S
  pub transactions : List CheckpointTransaction

abbrev pub has_id : String → CheckpointTransaction → Bool
has_id transaction_id t = t.transaction_id == transaction_id

-- `iter().position(...)` followed by `remove(index)`.
unfoldable pub remove_first : String → List CheckpointTransaction → List CheckpointTransaction
remove_first transaction_id [] = []
remove_first transaction_id (t ∷ ts) =
    let others = remove_first transaction_id ts in
    if has_id transaction_id t then ts else t ∷ others

-- `iter_mut().find(...)` with `prepared = true` on what it finds.
unfoldable pub mark_prepared : String → List CheckpointTransaction → List CheckpointTransaction
mark_prepared transaction_id [] = []
mark_prepared transaction_id (t ∷ ts) =
    let others = mark_prepared transaction_id ts in
    if has_id transaction_id t then record t { prepared = true } ∷ ts else t ∷ others

-- The checkpoint that `prepare` saves.
abbrev pub prepared_checkpoint : CheckpointTransaction → String → ℕ → Checkpoint
prepared_checkpoint t id now = record {
  id = id;
  task_id = t.task_id;
  position = t.position;
  created_at = now;
  stats = new_progress_stats;
  metadata = some (record {
    transaction_id = t.transaction_id;
    prepared = true;
    committed = false;
    committed_at = none;
  });
}

-- The metadata that `commit` writes.
abbrev pub committed_checkpoint : Checkpoint → String → ℕ → Checkpoint
committed_checkpoint c transaction_id now = record c {
  metadata = some (record {
    transaction_id = transaction_id;
    prepared = true;
    committed = true;
    committed_at = some now;
  });
}

unfoldable pub begin_transaction :
    {S : Type 0}
    → String
    → String
    → Position
    → ℕ
    → TransactionalCheckpoint S
    → Outcome (Unit {0}) × TransactionalCheckpoint S
begin_transaction transaction_id task_id position now c =
    if any (has_id transaction_id) c.transactions
    then (err (already_exists transaction_id), c)
    else (
      ok tt,
      record c {
        transactions =
            c.transactions
            ++ record {
              transaction_id = transaction_id;
              task_id = task_id;
              position = position;
              prepared = false;
              committed = false;
              created_at = now;
            }
              ∷ [];
      },
    )

-- Times are in nanoseconds; the timeout is one that chrono::Duration holds, so that its cast to an i64
-- leaves it as it is.
abbrev pub stale_ids : ℕ → ℕ → List CheckpointTransaction → List String
stale_ids timeout_secs now txns =
    map (λ t. t.transaction_id)
      (filter (λ t. ltb (timeout_secs * 10 ^ 9) (now - t.created_at)) txns)

module _ (st : CheckpointStorage) where
  open st use {Store, save, load, delete}

  abbrev pub Handler : Type 0
  Handler = TransactionalCheckpoint Store

  -- A failed save is reported as `false`, and the transaction stays unprepared.
  prepare_saved :
      String → List CheckpointTransaction → Outcome (Unit {0}) × Store → Outcome Bool × Handler
  prepare_saved transaction_id txns (ok _, storage) =
      (ok true, record { storage = storage; transactions = mark_prepared transaction_id txns })
  prepare_saved transaction_id txns (err e, storage) =
      (ok false, record { storage = storage; transactions = txns })

  unfoldable pub prepare : String → String → ℕ → Handler → Outcome Bool × Handler
  unfolding prepare_saved
  prepare transaction_id id now c = elim (find? (has_id transaction_id) c.transactions) [
    | none ↦ (err (not_found transaction_id), c)
    | some t ↦
        if t.prepared
        then (ok true, c)
        else prepare_saved transaction_id c.transactions
            (save c.storage (prepared_checkpoint t id now))
  ]

  commit_saved :
      String
      → List CheckpointTransaction
      → Outcome (Unit {0}) × Store
      → Outcome (Unit {0}) × Handler
  commit_saved transaction_id txns (ok _, storage) =
      (ok tt, record { storage = storage; transactions = remove_first transaction_id txns })
  commit_saved transaction_id txns (err e, storage) =
      (err e, record { storage = storage; transactions = txns })

  commit_loaded :
      String → ℕ → Handler → String → Outcome (Option Checkpoint) → Outcome (Unit {0}) × Handler
  unfolding commit_saved
  commit_loaded transaction_id now c task_id (ok (some checkpoint)) =
      commit_saved transaction_id c.transactions
        (save c.storage (committed_checkpoint checkpoint transaction_id now))
  commit_loaded transaction_id now c task_id (ok none) = (err (checkpoint_not_found task_id), c)
  commit_loaded transaction_id now c task_id (err e) = (err e, c)

  unfoldable pub commit : String → ℕ → Handler → Outcome (Unit {0}) × Handler
  unfolding commit_loaded
  commit transaction_id now c = elim (find? (has_id transaction_id) c.transactions) [
    | none ↦ (err (not_found transaction_id), c)
    | some t ↦
        if t.prepared
        then if t.committed
          then (ok tt, c)
          else commit_loaded transaction_id now c t.task_id (load c.storage t.task_id)
        else (err (not_prepared transaction_id), c)
  ]

  -- A prepared and uncommitted transaction takes its task's checkpoint with it; an error of the
  -- deletion is only logged.
  unfoldable pub drop_prepared : CheckpointTransaction → Store → Store
  drop_prepared t storage =
      if t.prepared && not t.committed then (delete storage t.task_id).1 else storage

  unfoldable pub rollback : String → Handler → Outcome (Unit {0}) × Handler
  unfolding drop_prepared
  rollback transaction_id c = elim (find? (has_id transaction_id) c.transactions) [
    | none ↦ (err (not_found transaction_id), c)
    | some t ↦ (
      ok tt,
      record {
        storage = drop_prepared t c.storage;
        transactions = remove_first transaction_id c.transactions;
      },
    )
  ]

  -- One round of the clean-up loop, for one stale id.
  unfoldable pub cleanup_one : String → Handler → Handler
  unfolding rollback
  cleanup_one transaction_id c = (rollback transaction_id c).1

  cleanup_all : List String → Handler → Handler
  unfolding cleanup_one
  cleanup_all [] c = c
  cleanup_all (id ∷ ids) c = cleanup_all ids (cleanup_one id c)

  unfoldable pub cleanup_stale_transactions : ℕ → ℕ → Handler → Handler
  unfolding cleanup_all
  cleanup_stale_transactions timeout_secs now c =
      cleanup_all (stale_ids timeout_secs now c.transactions) c

  abbrev pub only_committed : Option Checkpoint → Option Checkpoint
  only_committed none = none
  only_committed (some c) = elim c.metadata [
    | none ↦ none
    | some m ↦ if m.committed then some c else none
  ]

  unfoldable pub get_latest_committed : String → Handler → Outcome (Option Checkpoint)
  get_latest_committed task_id c = do found ← load c.storage task_id; ok (only_committed found)
