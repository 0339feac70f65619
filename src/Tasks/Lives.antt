-- ===== src/Tasks/Lives.antt =====
-- src/sync/task_manager.rs: each task lives by the commands about it alone.
use meilibridge.Prelude.{
  ℕ, String, ◌≡◌, refl, none, some, List, [], ◌∷◌, any, arith, string_eq, ◌==◌, if◌then◌else◌,
  Distinct,
}
use meilibridge.Prelude.Map
use meilibridge.Prelude.Map.{Map, is_some, lookup-insert, lookup-remove}
use meilibridge.Config.{SyncTaskConfig}
use meilibridge.Tasks.{
  idle, TaskStatus, TaskManager, new_status, is_for, initial_statuses, start, create_task,
  delete_task, start_task, stop_task, pause_task, resume_task, update_task_progress,
  report_task_error, started, stopped, paused_from, resumed, progressed, errored, TaskCommand,
  starts, stops, pauses, resumes, deletes, creates, progresses, fails, process_command,
  process_commands, update,
}
use meilibridge.Tasks.Registered.{
  IsRegistered, tables, process_command-IsRegistered, start-IsRegistered,
}
use meilibridge.Tasks.Lifecycle.{
  Life, life, life_in, live, subject, live_through, lookup-update, update-live, update_or_fail-live,
  started-live, stopped-live, paused_from-live, resumed-live, progressed-live, errored-live,
}

module _ (V : Type 0) where
  create_task-live :
      (task : SyncTaskConfig V) (now : ℕ) (k : String) (m : TaskManager V)
      → IsRegistered V m
      → life V k (create_task V task now m).1
        ≡ (if task.table == k then live V (creates task) (life V k m) else life V k m)
  unfolding create_task
  create_task-live task now k m r = ground (
    arith,
    r.agree k,
    lookup-insert task.table k (new_status task.table now) m.task_statuses,
    string_eq.eqb_iff task.table k,
  )

  delete_task-live :
      (id : String) (now : ℕ) (k : String) (m : TaskManager V)
      → life V k (delete_task V id now m).1
        ≡ (if id == k then live V (deletes id) (life V k m) else life V k m)
  unfolding delete_task stop_task
  delete_task-live id now k m = ground (
    arith,
    lookup-remove id k (update V (stopped V now) id m).task_statuses,
    lookup-update V (stopped V now) id k m,
  )

  process_command-live :
      (c : TaskCommand V) (now : ℕ) (k : String) (m : TaskManager V)
      → IsRegistered V m
      → life V k (process_command V c now m)
        ≡ (if subject V c == k then live V c (life V k m) else life V k m)
  unfolding process_command start_task stop_task pause_task resume_task update_task_progress
      report_task_error
  process_command-live (starts id) now k m r =
      update-live V (started V now) (starts id) id k m (started-live V id now)
  process_command-live (stops id) now k m r =
      update-live V (stopped V now) (stops id) id k m (stopped-live V id now)
  process_command-live (pauses id) now k m r =
      update-live V (paused_from V now) (pauses id) id k m (paused_from-live V id now)
  process_command-live (resumes id) now k m r =
      update-live V (resumed V now) (resumes id) id k m (resumed-live V id now)
  process_command-live (deletes id) now k m r = delete_task-live id now k m
  process_command-live (creates task) now k m r = create_task-live task now k m r
  process_command-live (progresses id p n) now k m r =
      update_or_fail-live V (progressed V p n now) (progresses id p n) id k m
        (progressed-live V id p n now)
  process_command-live (fails id error) now k m r =
      update_or_fail-live V (errored V error now) (fails id error) id k m
        (errored-live V id error now)

  commands-live :
      (k : String) (cs : List (TaskCommand V × ℕ)) (m : TaskManager V)
      → IsRegistered V m
      → life V k (process_commands V cs m) ≡ live_through V k cs (life V k m)
  unfolding process_commands
  commands-live k [] m r = refl
  commands-live k ((c, now) ∷ cs) m r =
      rw (← process_command-live c now k m r)
        (commands-live k cs (process_command V c now m) (process_command-IsRegistered V c now m r))

  abbrev pub configured : String → List (SyncTaskConfig V) → Life V
  configured k ts = if any (is_for V k) ts then some (idle, 0) else none

  initial-live :
      (now : ℕ) (k : String) (ts : List (SyncTaskConfig V)) (s : Map String TaskStatus)
      → life_in V (Map.lookup k (initial_statuses V now ts s))
        ≡ (if any (is_for V k) ts then some (idle, 0) else life_in V (Map.lookup k s))
  unfolding initial_statuses
  initial-live now k [] s = refl
  initial-live now k (t ∷ ts) s = ground (
    arith,
    initial-live now k ts (Map.insert t.table (new_status t.table now) s),
    lookup-insert t.table k (new_status t.table now) s,
  )

  start-live :
      (now : ℕ) (k : String) (ts : List (SyncTaskConfig V))
      → life V k (start V now ts) ≡ configured k ts
  unfolding start Map.lookup
  start-live now k ts = initial-live now k ts []

  -- From a configuration that names no table twice, after any sequence of commands, progress reports
  -- and error reports, the state and the error count of a task, or that there is none, are what the
  -- commands about this task alone lead to: a configured task starts idle with no error; a creation
  -- of an unknown task does the same, and one of a known task changes nothing; a deletion ends it; a
  -- start makes it run and a stop idle from any state; a pause holds only a running task and a resume
  -- only a paused one; each error is counted (modulo 2 ^ 64), and one that brings the count above ten
  -- makes it fail.
  pub life_of_task :
      (now : ℕ) (ts : List (SyncTaskConfig V)) (cs : List (TaskCommand V × ℕ)) (k : String)
      → Distinct (tables V ts)
      → life V k (process_commands V cs (start V now ts)) ≡ live_through V k cs (configured k ts)
  life_of_task now ts cs k d =
      rw (← start-live now k ts)
        (commands-live k cs (start V now ts) (start-IsRegistered V now ts d))
