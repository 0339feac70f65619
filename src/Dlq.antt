-- ===== src/Dlq.antt =====
-- src/dlq/mod.rs: the entries of the dead letter queue, and the store in memory. An event is of the
-- type E, a parameter. Each method of the store holds its lock throughout, so it is one step.
pub mod Queue
pub mod Sorting
pub mod Statistics
pub mod Reprocess
mod Tests
use Prim.Native.Char.{code}
use meilibridge.Prelude.{
  ℕ, suc, ◌-◌, String, Bool, true, false, not, Option, none, some, List, [], ◌∷◌, map, filter,
  length, take, ltb, leb, nat_eqb, string_eq, ◌==◌, if◌then◌else◌,
}
use meilibridge.Prelude.Map
use meilibridge.Prelude.Map.{Map}

pub record DeadLetterEntry (E : Type 0) : Type 0 where
  pub id : String
  pub task_id : String
  pub event : E
  pub error : String
  pub retry_count : ℕ
  pub created_at : ℕ
  pub last_retry_at : Option ℕ
  pub metadata : Map String String

pub record DlqStatistics : Type 0 where
  pub total_entries : ℕ
  pub entries_by_task : Map String ℕ
  pub entries_by_error : Map String ℕ
  pub oldest_entry : Option ℕ
  pub newest_entry : Option ℕ

starts_line_feed : String → Bool
starts_line_feed String.[] = false
starts_line_feed (String.◌∷◌ ch rest) = nat_eqb (code ch) 10

-- A line ends before a line feed, or before a carriage return and a line feed.
line_of : String → String
unfolding starts_line_feed
line_of String.[] = String.[]
line_of (String.◌∷◌ ch rest) =
    let later = line_of rest in
    if nat_eqb (code ch) 10
    then String.[]
    else if nat_eqb (code ch) 13
    then (if starts_line_feed rest then String.[] else String.◌∷◌ ch later)
    else String.◌∷◌ ch later

-- `lines().next().unwrap_or("Unknown")`
unfoldable pub error_type : String → String
unfolding line_of
error_type String.[] = "Unknown"
error_type (String.◌∷◌ ch rest) = line_of (String.◌∷◌ ch rest)

-- `entry(key).or_insert(0) += 1`; a count is at most the number of entries, so it does not wrap.
abbrev pub bump : String → Map String ℕ → Map String ℕ
bump key counts = elim (Map.lookup key counts) [
  | none ↦ Map.insert key 1 counts
  | some n ↦ Map.insert key (suc n) counts
]

abbrev pub earlier : ℕ → Option ℕ → Option ℕ
earlier t none = some t
earlier t (some old) = if ltb t old then some t else some old

abbrev pub later : ℕ → Option ℕ → Option ℕ
later t none = some t
later t (some young) = if ltb young t then some t else some young

module _ (E : Type 0) where
  -- The store maps an id to its entry.
  abbrev pub InMemoryDlqStorage : Type 0
  InMemoryDlqStorage = Map String (DeadLetterEntry E)

  unfoldable pub store : DeadLetterEntry E → InMemoryDlqStorage → InMemoryDlqStorage
  store entry entries = Map.insert entry.id entry entries

  unfoldable pub values : InMemoryDlqStorage → List (DeadLetterEntry E)
  values [] = []
  values ((id, entry) ∷ entries) = entry ∷ values entries

  -- `sort_by` of the creation times, which is stable.
  unfoldable pub place : DeadLetterEntry E → List (DeadLetterEntry E) → List (DeadLetterEntry E)
  place x [] = x ∷ []
  place x (y ∷ ys) =
      let rest = place x ys in if leb x.created_at y.created_at then x ∷ y ∷ ys else y ∷ rest

  unfoldable pub sort : List (DeadLetterEntry E) → List (DeadLetterEntry E)
  unfolding place
  sort [] = []
  sort (x ∷ xs) = place x (sort xs)

  abbrev pub is_of : String → DeadLetterEntry E → Bool
  is_of task_id entry = entry.task_id == task_id

  abbrev pub truncate_to : Option ℕ → List (DeadLetterEntry E) → List (DeadLetterEntry E)
  truncate_to none es = es
  truncate_to (some limit) es = take limit es

  unfoldable pub get_by_task : String → Option ℕ → InMemoryDlqStorage → List (DeadLetterEntry E)
  unfolding sort values
  get_by_task task_id limit entries =
      truncate_to limit (sort (filter (is_of task_id) (values entries)))

  unfoldable pub get : String → InMemoryDlqStorage → Option (DeadLetterEntry E)
  get id entries = Map.lookup id entries

  unfoldable pub remove : String → InMemoryDlqStorage → InMemoryDlqStorage
  remove id entries = Map.remove id entries

  unfoldable pub update : DeadLetterEntry E → InMemoryDlqStorage → InMemoryDlqStorage
  update entry entries = Map.insert entry.id entry entries

  abbrev pub no_statistics : DlqStatistics
  no_statistics = record {
    total_entries = 0;
    entries_by_task = [];
    entries_by_error = [];
    oldest_entry = none;
    newest_entry = none;
  }

  -- One round of the loop over the entries.
  unfoldable pub count_entry : DlqStatistics → DeadLetterEntry E → DlqStatistics
  unfolding error_type
  count_entry s entry = record s {
    entries_by_task = bump entry.task_id s.entries_by_task;
    entries_by_error = bump (error_type entry.error) s.entries_by_error;
    oldest_entry = earlier entry.created_at s.oldest_entry;
    newest_entry = later entry.created_at s.newest_entry;
  }

  unfoldable pub count_entries : DlqStatistics → List (DeadLetterEntry E) → DlqStatistics
  unfolding count_entry
  count_entries s [] = s
  count_entries s (entry ∷ entries) = count_entries (count_entry s entry) entries

  unfoldable pub get_statistics : InMemoryDlqStorage → DlqStatistics
  unfolding count_entries values
  get_statistics entries = record (count_entries no_statistics (values entries)) {
    total_entries = length entries;
  }

  -- The number of entries that were removed, and the store that is left.
  unfoldable pub clear_task : String → InMemoryDlqStorage → ℕ × InMemoryDlqStorage
  clear_task task_id entries =
      let kept = filter (λ e. not (is_of task_id e.1)) entries in
      (length entries - length kept, kept)
