-- ===== src/Delivery/Checkpoint/Tests.antt =====
-- src/delivery/checkpoint.rs: the theorems on transactional checkpoints, over the store in memory.
use meilibridge.Prelude.{◌≡◌, refl, none, some, [], ◌∷◌}
use meilibridge.Prelude.Map
use meilibridge.Prelude.Result.{ok}
use meilibridge.Models.{Position, Checkpoint, postgresql}
use meilibridge.Delivery.Storage.{memory_storage, MemoryStorage, save, load, delete}
use meilibridge.Delivery.Checkpoint.{
  Handler, begin_transaction, prepare, commit, rollback, cleanup_stale_transactions,
  get_latest_committed, committed_checkpoint,
}
use meilibridge.Delivery.Checkpoint.Commit.{
  first_checkpoint, get_latest_committed-commit, rollback_loses_checkpoint,
}
use meilibridge.Delivery.Checkpoint.Distinctness.{IsDistinct, methods-IsDistinct}

abbrev empty : Handler memory_storage
empty = record { storage = []; transactions = [] }

abbrev at : Position
at = postgresql "0/7"

abbrev saved : Checkpoint
saved = first_checkpoint memory_storage empty "t1" "users" at "c1" 0 1

get_latest_committed-commit_example :
    let begun = (begin_transaction "t1" "users" at 0 empty).1 in
    let prepared = (prepare memory_storage "t1" "c1" 1 begun).1 in
    let done = commit memory_storage "t1" 2 prepared in
    (done.0 ≡ ok tt)
    × (done.1.transactions ≡ [])
    × (get_latest_committed memory_storage "users" done.1
        ≡ ok (some (committed_checkpoint saved "t1" 2)))
unfolding save Map.insert
get_latest_committed-commit_example =
    get_latest_committed-commit memory_storage empty "t1" "users" at "c1" 0 1 2
      (("users", saved) ∷ []) (("users", committed_checkpoint saved "t1" 2) ∷ []) refl refl refl

-- The store before holds a committed checkpoint of the task.
abbrev committed_before : Handler memory_storage
committed_before = record {
  storage = ("users", committed_checkpoint saved "t0" 0) ∷ [];
  transactions = [];
}

committed_before_lem :
    get_latest_committed memory_storage "users" committed_before
    ≡ ok (some (committed_checkpoint saved "t0" 0))
unfolding get_latest_committed load Map.lookup
committed_before_lem = refl

rollback_loses_checkpoint_example :
    let begun = (begin_transaction "t1" "users" at 0 committed_before).1 in
    let prepared = (prepare memory_storage "t1" "c1" 1 begun).1 in
    let undone = (rollback memory_storage "t1" prepared).1 in
    (get_latest_committed memory_storage "users" prepared ≡ ok none)
    × (undone.transactions ≡ [])
    × (load undone.storage "users" ≡ ok none)
unfolding save delete Map.insert Map.remove
rollback_loses_checkpoint_example =
    rollback_loses_checkpoint memory_storage committed_before "t1" "users" at "c1" 0 1
      (("users", saved) ∷ []) [] refl refl refl

methods-IsDistinct_example :
    let c = (begin_transaction {S = MemoryStorage} "t1" "users" at 0 empty).1 in
    IsDistinct (begin_transaction "t1" "users" at 5 c).1
    × IsDistinct (prepare memory_storage "t1" "c1" 5 c).1
    × IsDistinct (commit memory_storage "t1" 5 c).1
    × IsDistinct (rollback memory_storage "t1" c).1
    × IsDistinct (cleanup_stale_transactions memory_storage 3 5 c)
unfolding begin_transaction
methods-IsDistinct_example =
    methods-IsDistinct memory_storage "t1" "c1" "users" at 3 5
      (begin_transaction "t1" "users" at 0 empty).1 (refl, tt)
