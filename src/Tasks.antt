-- ===== src/Tasks.antt =====
-- src/sync/task_manager.rs: SyncTaskManager. Each handler of a command holds the locks that it takes
-- one after the other and runs to its end before the next command; the two maps are the state.
pub mod Registered
pub mod Lifecycle
pub mod Lives
pub mod Errors
mod Tests
use meilibridge.Prelude.{
  ℕ, ◌+◌, String, Bool, true, false, not, ◌||◌, Option, none, some, List, [], ◌∷◌, ◌++◌, any,
  filter, ltb, string_eq, ◌==◌, inc_u64, if◌then◌else◌,
}
use meilibridge.Prelude.Map
use meilibridge.Prelude.Map.{Map}
use meilibridge.Prelude.Result.{Result, ok, err}
use meilibridge.Models.{Position}
use meilibridge.Config.{SyncTaskConfig}

pub data TaskState : Type 0 where
  idle running failed paused completed : TaskState

pub record TaskStatus : Type 0 where
  pub task_id : String
  pub table : String
  pub state : TaskState
  pub last_position : Option Position
  pub processed_count : ℕ
  pub error_count : ℕ
  pub last_error : Option String
  pub started_at : ℕ
  pub last_updated : ℕ

pub data TaskError : Type 0 where
  task_not_found : String → TaskError
  already_exists : String → TaskError

abbrev pub new_status : String → ℕ → TaskStatus
new_status table now = record {
  task_id = table;
  table = table;
  state = idle;
  last_position = none;
  processed_count = 0;
  error_count = 0;
  last_error = none;
  started_at = now;
  last_updated = now;
}

module _ (V : Type 0) where
  pub record TaskManager : Type 0 where
    pub sync_tasks : List (SyncTaskConfig V)
    pub task_statuses : Map String TaskStatus

  -- `get_mut` and a change of what it finds.
  abbrev pub update : (TaskStatus → TaskStatus) → String → TaskManager → TaskManager
  update change task_id m = elim (Map.lookup task_id m.task_statuses) [
    | none ↦ m
    | some status ↦ record m { task_statuses = Map.insert task_id (change status) m.task_statuses }
  ]

  -- The initial statuses, one for each configured task.
  unfoldable pub initial_statuses :
      ℕ → List (SyncTaskConfig V) → Map String TaskStatus → Map String TaskStatus
  initial_statuses now [] statuses = statuses
  initial_statuses now (task ∷ tasks) statuses =
      initial_statuses now tasks (Map.insert task.table (new_status task.table now) statuses)

  unfoldable pub start : ℕ → List (SyncTaskConfig V) → TaskManager
  unfolding initial_statuses
  start now tasks = record { sync_tasks = tasks; task_statuses = initial_statuses now tasks [] }

  abbrev pub started : ℕ → TaskStatus → TaskStatus
  started now status = elim status.state [
    | running ↦ status
    | _ ↦ record status { state = running; last_updated = now }
  ]

  abbrev pub stopped : ℕ → TaskStatus → TaskStatus
  stopped now status = record status { state = idle; last_updated = now }

  abbrev pub paused_from : ℕ → TaskStatus → TaskStatus
  paused_from now status = elim status.state [
    | running ↦ record status { state = paused; last_updated = now }
    | _ ↦ status
  ]

  abbrev pub resumed : ℕ → TaskStatus → TaskStatus
  resumed now status = elim status.state [
    | paused ↦ record status { state = running; last_updated = now }
    | _ ↦ status
  ]

  unfoldable pub start_task : String → ℕ → TaskManager → TaskManager
  start_task task_id now = update (started now) task_id

  unfoldable pub stop_task : String → ℕ → TaskManager → TaskManager
  stop_task task_id now = update (stopped now) task_id

  unfoldable pub pause_task : String → ℕ → TaskManager → TaskManager
  pause_task task_id now = update (paused_from now) task_id

  unfoldable pub resume_task : String → ℕ → TaskManager → TaskManager
  resume_task task_id now = update (resumed now) task_id

  -- A change of a known task, or the error for an unknown one.
  abbrev pub update_or_fail :
      (TaskStatus → TaskStatus) → String → TaskManager → Result TaskError (Unit {0}) × TaskManager
  update_or_fail change task_id m = elim (Map.lookup task_id m.task_statuses) [
    | none ↦ (err (task_not_found task_id), m)
    | some status ↦
        (ok tt, record m { task_statuses = Map.insert task_id (change status) m.task_statuses })
  ]

  abbrev pub progressed : Position → ℕ → ℕ → TaskStatus → TaskStatus
  progressed position processed_count now status = record status {
    last_position = some position;
    processed_count = processed_count;
    last_updated = now;
  }

  unfoldable pub update_task_progress :
      String → Position → ℕ → ℕ → TaskManager → Result TaskError (Unit {0}) × TaskManager
  update_task_progress task_id position processed_count now =
      update_or_fail (progressed position processed_count now) task_id

  -- More than ten errors make the task fail.
  abbrev pub errored : String → ℕ → TaskStatus → TaskStatus
  errored error now status =
      let counted = record status {
        error_count = inc_u64 status.error_count;
        last_error = some error;
        last_updated = now;
      } in
      if ltb 10 counted.error_count then record counted { state = failed } else counted

  unfoldable pub report_task_error :
      String → String → ℕ → TaskManager → Result TaskError (Unit {0}) × TaskManager
  report_task_error task_id error now = update_or_fail (errored error now) task_id

  abbrev pub is_for : String → SyncTaskConfig V → Bool
  is_for table task = task.table == table

  unfoldable pub create_task :
      SyncTaskConfig V → ℕ → TaskManager → Result TaskError (Unit {0}) × TaskManager
  create_task task now m =
      if any (is_for task.table) m.sync_tasks then (err (already_exists task.table), m) else (
        ok tt,
        record {
          sync_tasks = m.sync_tasks ++ task ∷ [];
          task_statuses = Map.insert task.table (new_status task.table now) m.task_statuses;
        },
      )

  unfoldable pub delete_task : String → ℕ → TaskManager → Result TaskError (Unit {0}) × TaskManager
  unfolding stop_task
  delete_task task_id now m =
      let stopped = stop_task task_id now m in
      (
        ok tt,
        record {
          sync_tasks = filter (λ t. not (is_for task_id t)) stopped.sync_tasks;
          task_statuses = Map.remove task_id stopped.task_statuses;
        },
      )

  -- The commands that change the state, and the calls that other parts make.
  pub data TaskCommand : Type 0 where
    starts stops pauses resumes deletes : String → TaskCommand
    creates : SyncTaskConfig V → TaskCommand
    progresses : String → Position → ℕ → TaskCommand
    fails : String → String → TaskCommand

  unfoldable pub process_command : TaskCommand → ℕ → TaskManager → TaskManager
  unfolding start_task pause_task resume_task stop_task create_task delete_task
  process_command (starts id) now m = start_task id now m
  process_command (stops id) now m = stop_task id now m
  process_command (pauses id) now m = pause_task id now m
  process_command (resumes id) now m = resume_task id now m
  process_command (deletes id) now m = (delete_task id now m).1
  process_command (creates task) now m = (create_task task now m).1
  process_command (progresses id position n) now m = (update_task_progress id position n now m).1
  process_command (fails id error) now m = (report_task_error id error now m).1

  unfoldable pub process_commands : List (TaskCommand × ℕ) → TaskManager → TaskManager
  process_commands [] m = m
  process_commands ((c, now) ∷ cs) m = process_commands cs (process_command c now m)
