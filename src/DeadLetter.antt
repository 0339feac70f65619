-- ===== src/DeadLetter.antt =====
-- src/recovery/dead_letter.rs: the bounded store in memory and the queue over it. An event is of the
-- type E, a parameter, and the JSON metadata of the type V.
pub mod Bounded
pub mod Reprocess
mod Tests
use meilibridge.Prelude.{
  ℕ, zero, suc, String, Bool, true, false, not, Option, none, some, List, [], ◌∷◌, ◌++◌, map,
  length, take, filter, find?, member, leb, string_eq, ◌==◌, inc_u32, if◌then◌else◌,
}
use meilibridge.Prelude.Texts.{insert_text}
use meilibridge.Prelude.Result.{Result, ok, err}

pub record DeadLetterEntry (E V : Type 0) : Type 0 where
  pub id : String
  pub task_id : String
  pub event : E
  pub error : String
  pub error_count : ℕ
  pub first_error_time : ℕ
  pub last_error_time : ℕ
  pub metadata : V

pub record MemoryDeadLetterStorage (E V : Type 0) : Type 0 where
  pub entries : List (DeadLetterEntry E V)
  pub max_entries : ℕ

module _ {E V : Type 0} where
  abbrev pub new : ℕ → MemoryDeadLetterStorage E V
  new max_entries = record { entries = []; max_entries = max_entries }

  unfoldable pub new_entry : V → String → ℕ → String → E → String → DeadLetterEntry E V
  new_entry null uuid now task_id event error = record {
    id = uuid;
    task_id = task_id;
    event = event;
    error = error;
    error_count = 1;
    first_error_time = now;
    last_error_time = now;
    metadata = null;
  }

  unfoldable pub increment_error : String → ℕ → DeadLetterEntry E V → DeadLetterEntry E V
  increment_error error now entry = record entry {
    error = error;
    error_count = inc_u32 entry.error_count;
    last_error_time = now;
  }

  abbrev pub pop_front : List (DeadLetterEntry E V) → List (DeadLetterEntry E V)
  pop_front [] = []
  pop_front (e ∷ es) = es

  -- `while entries.len() >= max { entries.pop_front() }` on fuel.
  unfoldable pub evict : ℕ → ℕ → List (DeadLetterEntry E V) → Option (List (DeadLetterEntry E V))
  evict zero max es = none
  evict (suc fuel) max es =
      let rest = evict fuel max (pop_front es) in if leb max (length es) then rest else some es

  -- The store after the entry is put in, as far as the loop over the evictions ends within the fuel.
  unfoldable pub store :
      ℕ → DeadLetterEntry E V → MemoryDeadLetterStorage E V → Option (MemoryDeadLetterStorage E V)
  unfolding evict
  store fuel entry s = elim (evict fuel s.max_entries s.entries) [
    | none ↦ none
    | some es ↦ some (record s { entries = es ++ entry ∷ [] })
  ]

  abbrev pub is_of : String → DeadLetterEntry E V → Bool
  is_of task_id e = e.task_id == task_id

  abbrev pub has_id : String → DeadLetterEntry E V → Bool
  has_id id e = e.id == id

  unfoldable pub get_by_task : String → ℕ → MemoryDeadLetterStorage E V → List (DeadLetterEntry E V)
  get_by_task task_id limit s = take limit (filter (is_of task_id) s.entries)

  unfoldable pub get : String → MemoryDeadLetterStorage E V → Option (DeadLetterEntry E V)
  get id s = find? (has_id id) s.entries

  unfoldable pub delete : String → MemoryDeadLetterStorage E V → MemoryDeadLetterStorage E V
  delete id s = record s { entries = filter (λ e. not (has_id id e)) s.entries }

  unfoldable pub count_by_task : String → MemoryDeadLetterStorage E V → ℕ
  count_by_task task_id s = length (filter (is_of task_id) s.entries)

  -- The loop that deletes the entries before they are reprocessed.
  unfoldable pub delete_all :
      List (DeadLetterEntry E V) → MemoryDeadLetterStorage E V → MemoryDeadLetterStorage E V
  unfolding delete
  delete_all [] s = s
  delete_all (e ∷ es) s = delete_all es (delete e.id s)

  unfoldable pub reprocess_task :
      String
      → ℕ
      → MemoryDeadLetterStorage E V
      → List (DeadLetterEntry E V) × MemoryDeadLetterStorage E V
  unfolding get_by_task delete_all
  reprocess_task task_id limit s =
      let entries = get_by_task task_id limit s in (entries, delete_all entries s)

  -- The processor stores the entries that it receives, in their order.
  unfoldable pub process_entries :
      ℕ
      → List (DeadLetterEntry E V)
      → MemoryDeadLetterStorage E V
      → Option (MemoryDeadLetterStorage E V)
  unfolding store
  process_entries fuel [] s = some s
  process_entries fuel (e ∷ es) s = elim (store fuel e s) [
    | none ↦ none
    | some s' ↦ process_entries fuel es s'
  ]
