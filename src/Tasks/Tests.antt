-- ===== src/Tasks/Tests.antt =====
-- src/sync/task_manager.rs: the theorems on tasks, at one configured task.
use meilibridge.Prelude.{ℕ, String, ◌≡◌, refl, true, none, some, List, [], ◌∷◌, arith, string_eq}
use meilibridge.Prelude.Map
use meilibridge.Config.{SyncTaskConfig}
use meilibridge.Tasks.{
  idle, running, failed, TaskStatus, TaskManager, TaskCommand, starts, pauses, stops, creates,
  resumes, fails, process_command, process_commands, start, new_status, initial_statuses,
  start_task, report_task_error,
}
use meilibridge.Tasks.Registered.{IsRegistered, run-IsRegistered}
use meilibridge.Tasks.Lifecycle.{state_of, life}
use meilibridge.Tasks.Lives.{life_of_task}
use meilibridge.Tasks.Errors.{errors_never_reset}

abbrev users : SyncTaskConfig String
users = record {
  id = "1";
  source_name = "primary";
  table = "users";
  index = "users";
  primary_key = "id";
  filter = none;
  transform = none;
  mapping = none;
  full_sync_on_start = none;
  options = record { batch_size = 10; batch_timeout_ms = 1000; deduplicate = true };
  auto_start = some true;
  soft_delete = none;
}

abbrev orders : SyncTaskConfig String
orders = record users { table = "orders" }

abbrev session : List (TaskCommand String × ℕ)
session = (starts "users", 1) ∷ (creates orders, 2) ∷ (pauses "users", 3) ∷ []

run-IsRegistered_example :
    IsRegistered String (process_commands String session (start String 0 (users ∷ [])))
run-IsRegistered_example = run-IsRegistered String 0 (users ∷ []) session (refl, tt)

-- The pause of a stopped task and its resumption do nothing, and the commands about the others do
-- not matter.
abbrev orders_session : List (TaskCommand String × ℕ)
orders_session =
    (creates orders, 1)
    ∷ (starts "orders", 2)
    ∷ (starts "users", 3)
    ∷ (fails "orders" "timeout", 4)
    ∷ (stops "orders", 5)
    ∷ (pauses "orders", 6)
    ∷ (resumes "orders", 7)
    ∷ []

life_of_task_example :
    life String "orders" (process_commands String orders_session (start String 0 (users ∷ [])))
    ≡ some (idle, 1)
life_of_task_example = life_of_task String 0 (users ∷ []) orders_session "orders" (refl, tt)

started_running :
    state_of String "users"
      (process_command String (starts "users") 1 (start String 0 (users ∷ [])))
    ≡ some running
unfolding process_command start_task start initial_statuses Map.insert Map.lookup
started_running = refl

-- A task that failed after eleven errors.
abbrev broken : TaskStatus
broken = record (new_status "users" 0) { state = failed; error_count = 11 }

abbrev after_failure : TaskManager String
after_failure = record { sync_tasks = users ∷ []; task_statuses = ("users", broken) ∷ [] }

errors_never_reset_example :
    state_of String "users"
      (report_task_error String "users" "timeout" 9
        (process_commands String ((stops "users", 7) ∷ (starts "users", 8) ∷ []) after_failure)).1
    ≡ some failed
unfolding Map.lookup
errors_never_reset_example =
    errors_never_reset String "users" "timeout" 9 ((stops "users", 7) ∷ (starts "users", 8) ∷ [])
      after_failure broken refl (omega arith) (omega arith) refl
