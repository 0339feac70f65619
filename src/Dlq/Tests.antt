-- ===== src/Dlq/Tests.antt =====
-- src/dlq/mod.rs: the theorems on the dead letter queue, with two entries of one task.
use meilibridge.Prelude.{ℕ, String, ◌≡◌, refl, true, none, [], ◌∷◌, filter, length, All, string_eq}
use meilibridge.Dlq.{
  DeadLetterEntry, InMemoryDlqStorage, values, is_of, get_by_task, sort, place, get_statistics,
  error_type, line_of,
}
use meilibridge.Dlq.Queue.{DeadLetterQueue, reprocess_entries}
use meilibridge.Dlq.Statistics.{counted_under, has_error, WithinTimes, get_statistics_agrees}
use meilibridge.Dlq.Reprocess.{Reprocessed, reprocess_entries-Reprocessed}

abbrev failed : String → ℕ → DeadLetterEntry ℕ
failed id t = record {
  id = id;
  task_id = "users";
  event = t;
  error = "timeout";
  retry_count = 0;
  created_at = t;
  last_retry_at = none;
  metadata = [];
}

abbrev two_entries : InMemoryDlqStorage ℕ
two_entries = ("late", failed "late" 9) ∷ ("early", failed "early" 3) ∷ []

abbrev queue : DeadLetterQueue ℕ
queue = record { storage = two_entries; has_reprocess_tx = true; reprocessed = [] }

abbrev clock : DeadLetterEntry ℕ → ℕ
clock e = 20

-- The channel takes one of the two entries.
reprocess_entries-Reprocessed_example :
    Reprocessed ℕ clock 1
      (get_by_task ℕ "users" none two_entries)
      queue
      (reprocess_entries ℕ clock 1 "users" none queue)
reprocess_entries-Reprocessed_example =
    reprocess_entries-Reprocessed ℕ clock 1 "users" none queue refl

early_first : get_by_task ℕ "users" none two_entries ≡ failed "early" 3 ∷ failed "late" 9 ∷ []
unfolding get_by_task sort place values
early_first = refl

get_statistics_agrees_example :
    let s = get_statistics ℕ two_entries in
    let all = values ℕ two_entries in
    (s.total_entries ≡ length all)
    × (counted_under "users" s.entries_by_task ≡ length (filter (is_of ℕ "users") all))
    × (counted_under "timeout" s.entries_by_error ≡ length (filter (has_error ℕ "timeout") all))
    × All (WithinTimes ℕ s) all
get_statistics_agrees_example = get_statistics_agrees ℕ "users" "timeout" two_entries

first_line : error_type "timed out\r\nretry" ≡ "timed out"
unfolding error_type line_of
first_line = refl
