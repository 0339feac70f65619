-- ===== src/Delivery/Storage.antt =====
-- src/checkpoint/storage.rs: the trait of the checkpoint stores as an interface, and the store in
-- memory. A call may fail; what it leaves in the store then is its own.
use meilibridge.Prelude.{String, ◌≡◌, Option, none, some, ap, string_eq}
use meilibridge.Prelude.Map
use meilibridge.Prelude.Map.{Map, lookup-insert_self, lookup-insert_ne, lookup-remove_self}
use meilibridge.Prelude.Result.{ok}
use meilibridge.Models.{Checkpoint}
use meilibridge.Delivery.Error.{Outcome}

-- The laws speak of calls that return without an error: a store is one that a client can read back,
-- where a load after a save or a deletion that succeeded does not fail itself. A connection that is
-- lost between the two calls is no such store.
pub record CheckpointStorage : Type 1 where
  pub Store : Type 0
  pub save : Store → Checkpoint → Outcome (Unit {0}) × Store
  pub load : Store → String → Outcome (Option Checkpoint)
  pub delete : Store → String → Outcome (Unit {0}) × Store
  pub load-save :
      (s s' : Store) (c : Checkpoint) → save s c ≡ (ok tt, s') → load s' c.task_id ≡ ok (some c)
  pub load-delete :
      (s s' : Store) (task : String) → delete s task ≡ (ok tt, s') → load s' task ≡ ok none

abbrev pub MemoryStorage : Type 0
MemoryStorage = Map String Checkpoint

unfoldable pub save : MemoryStorage → Checkpoint → Outcome (Unit {0}) × MemoryStorage
save checkpoints c = (ok tt, Map.insert c.task_id c checkpoints)

unfoldable pub load : MemoryStorage → String → Outcome (Option Checkpoint)
load checkpoints task_id = ok (Map.lookup task_id checkpoints)

unfoldable pub delete : MemoryStorage → String → Outcome (Unit {0}) × MemoryStorage
delete checkpoints task_id = (ok tt, Map.remove task_id checkpoints)

pub load-save :
    (s s' : MemoryStorage) (c : Checkpoint)
    → save s c ≡ (ok tt, s')
    → load s' c.task_id ≡ ok (some c)
unfolding save load
load-save s s' c e =
    let p : Map.insert c.task_id c s ≡ s' =
      ap (λ (r : Outcome (Unit {0}) × MemoryStorage). r.1) e in
    rw (← p) (ap ok (lookup-insert_self c.task_id c s))

pub load-delete :
    (s s' : MemoryStorage) (task : String) → delete s task ≡ (ok tt, s') → load s' task ≡ ok none
unfolding delete load
load-delete s s' task e =
    let p : Map.remove task s ≡ s' = ap (λ (r : Outcome (Unit {0}) × MemoryStorage). r.1) e in
    rw (← p) (ap ok (lookup-remove_self task s))

abbrev pub memory_storage : CheckpointStorage
memory_storage = record {
  Store = MemoryStorage;
  save = save;
  load = load;
  delete = delete;
  load-save = load-save;
  load-delete = load-delete;
}
