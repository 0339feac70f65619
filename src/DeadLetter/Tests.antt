-- ===== src/DeadLetter/Tests.antt =====
-- src/recovery/dead_letter.rs: the theorems on the bounded store, with three entries.
use meilibridge.Prelude.{ℕ, String, ◌≡◌, refl, none, some, List, [], ◌∷◌, arith, string_eq}
use meilibridge.DeadLetter.{DeadLetterEntry, MemoryDeadLetterStorage, new, store, process_entries}
use meilibridge.DeadLetter.Bounded.{last, process_entries_keeps_last, store_never_ends}

abbrev failed : String → DeadLetterEntry ℕ ℕ
failed id = record {
  id = id;
  task_id = "users";
  event = 0;
  error = "timeout";
  error_count = 1;
  first_error_time = 0;
  last_error_time = 0;
  metadata = 0;
}

abbrev three : List (DeadLetterEntry ℕ ℕ)
three = failed "a" ∷ failed "b" ∷ failed "c" ∷ []

process_entries_keeps_last_example :
    process_entries 2 three (new 2) ≡ some (record { entries = last 2 three; max_entries = 2 })
process_entries_keeps_last_example = process_entries_keeps_last 0 2 three (omega arith)

two_kept : last 2 three ≡ failed "b" ∷ failed "c" ∷ []
two_kept = refl

store_never_ends_example : store 9 (failed "a") (new 0) ≡ none
store_never_ends_example = store_never_ends 9 (new 0) (failed "a") refl

abbrev full : MemoryDeadLetterStorage ℕ ℕ
full = record { entries = three; max_entries = 3 }
