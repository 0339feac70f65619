-- ===== src/Tasks/Errors.antt =====
-- src/sync/task_manager.rs: the count of a task's errors over the commands that leave the task in
-- place.
use meilibridge.Prelude.{
  ℕ, ◌+◌, ◌^◌, ◌≤◌, ◌<◌, String, ◌≡◌, refl, Bool, true, false, not, ◌&&◌, Option, none, some, List,
  [], ◌∷◌, length, arith, string_eq, ◌==◌, if◌then◌else◌,
}
use meilibridge.Prelude.Map
use meilibridge.Prelude.Map.{Map, lookup-insert, lookup-remove}
use meilibridge.Config.{SyncTaskConfig}
use meilibridge.Tasks.{
  failed, TaskStatus, TaskManager, new_status, update, update_or_fail, create_task, delete_task,
  start_task, stop_task, pause_task, resume_task, update_task_progress, report_task_error, started,
  stopped, paused_from, resumed, progressed, errored, TaskCommand, starts, stops, pauses, resumes,
  deletes, creates, progresses, fails, process_command, process_commands,
}
use meilibridge.Tasks.Lifecycle.{state_of, applied, lookup-update, lookup-update_or_fail}

-- The status of a task that is known, with a count of errors in a range.
pub data Counts (low high : ℕ) : Option TaskStatus → Type 0 where
  counts : (s : TaskStatus) → low ≤ s.error_count → s.error_count ≤ high → Counts low high (some s)

module _ (V : Type 0) where
  -- The command does not delete the task, nor create it.
  abbrev pub leaves : String → TaskCommand V → Bool
  leaves k (deletes id) = not (id == k)
  leaves k (creates task) = not (task.table == k)
  leaves k _ = true

  abbrev pub all_leave : String → List (TaskCommand V × ℕ) → Bool
  all_leave k [] = true
  all_leave k ((c, now) ∷ cs) = leaves k c && all_leave k cs

  -- A change that adds at most one error keeps the range, one wider.
  applied-Counts :
      (change : TaskStatus → TaskStatus) (low high : ℕ)
      → high + 1 < 2 ^ 64
      → ((s : TaskStatus)
          → s.error_count + 1 < 2 ^ 64
          → (s.error_count ≤ (change s).error_count) × ((change s).error_count ≤ s.error_count + 1))
      → (b : Bool) (s : Option TaskStatus) → Counts low high s
      → Counts low (high + 1) (if b then applied V change s else s)
  applied-Counts change low high h grows true none c = elim c [ ]
  applied-Counts change low high h grows false none c = elim c [ ]
  applied-Counts change low high h grows true (some s) (counts _ l u) =
      let g = grows s (omega arith) in counts (change s) (omega (arith, g)) (omega (arith, g))
  applied-Counts change low high h grows false (some s) (counts _ l u) = counts s l (omega arith)

  module _ (k : String) (low high : ℕ) (small : high + 1 < 2 ^ 64) where
    update-Counts :
        (change : TaskStatus → TaskStatus) (id : String) (m : TaskManager V)
        → ((s : TaskStatus)
            → s.error_count + 1 < 2 ^ 64
            → (s.error_count ≤ (change s).error_count)
              × ((change s).error_count ≤ s.error_count + 1))
        → Counts low high (Map.lookup k m.task_statuses)
        → Counts low (high + 1) (Map.lookup k (update V change id m).task_statuses)
    update-Counts change id m grows c =
        rw (lookup-update V change id k m)
          (applied-Counts change low high small grows (id == k) (Map.lookup k m.task_statuses) c)

    update_or_fail-Counts :
        (change : TaskStatus → TaskStatus) (id : String) (m : TaskManager V)
        → ((s : TaskStatus)
            → s.error_count + 1 < 2 ^ 64
            → (s.error_count ≤ (change s).error_count)
              × ((change s).error_count ≤ s.error_count + 1))
        → Counts low high (Map.lookup k m.task_statuses)
        → Counts low (high + 1) (Map.lookup k (update_or_fail V change id m).1.task_statuses)
    update_or_fail-Counts change id m grows c =
        rw (lookup-update_or_fail V change id k m)
          (applied-Counts change low high small grows (id == k) (Map.lookup k m.task_statuses) c)

    widen : (s : Option TaskStatus) → Counts low high s → Counts low (high + 1) s
    widen none c = elim c [ ]
    widen (some s) (counts _ l u) = counts s l (omega arith)

    same_lookup : (s s' : Option TaskStatus) → s' ≡ s → Counts low high s → Counts low (high + 1) s'
    same_lookup s s' e c = rw e (widen s c)

    create_task-Counts :
        (task : SyncTaskConfig V) (now : ℕ) (m : TaskManager V)
        → not (task.table == k) ≡ true
        → Counts low high (Map.lookup k m.task_statuses)
        → Counts low (high + 1) (Map.lookup k (create_task V task now m).1.task_statuses)
    unfolding create_task
    create_task-Counts task now m other c =
        same_lookup (Map.lookup k m.task_statuses) _
          (ground
            (arith, other, lookup-insert task.table k (new_status task.table now) m.task_statuses))
          c

    delete_task-Counts :
        (id : String) (now : ℕ) (m : TaskManager V)
        → not (id == k) ≡ true
        → Counts low high (Map.lookup k m.task_statuses)
        → Counts low (high + 1) (Map.lookup k (delete_task V id now m).1.task_statuses)
    unfolding delete_task stop_task
    delete_task-Counts id now m other c =
        same_lookup (Map.lookup k m.task_statuses) _
          (ground (
            arith,
            other,
            lookup-remove id k (update V (stopped V now) id m).task_statuses,
            lookup-update V (stopped V now) id k m,
          ))
          c

    process_command-Counts :
        (c : TaskCommand V) (now : ℕ) (m : TaskManager V)
        → leaves k c ≡ true
        → Counts low high (Map.lookup k m.task_statuses)
        → Counts low (high + 1) (Map.lookup k (process_command V c now m).task_statuses)
    unfolding process_command start_task stop_task pause_task resume_task update_task_progress
        report_task_error
    process_command-Counts (starts id) now m l c =
        update-Counts (started V now) id m (λ s h. ground arith) c
    process_command-Counts (stops id) now m l c =
        update-Counts (stopped V now) id m (λ s h. omega arith) c
    process_command-Counts (pauses id) now m l c =
        update-Counts (paused_from V now) id m (λ s h. ground arith) c
    process_command-Counts (resumes id) now m l c =
        update-Counts (resumed V now) id m (λ s h. ground arith) c
    process_command-Counts (deletes id) now m l c = delete_task-Counts id now m l c
    process_command-Counts (creates task) now m l c = create_task-Counts task now m l c
    process_command-Counts (progresses id p n) now m l c =
        update_or_fail-Counts (progressed V p n now) id m (λ s h. omega arith) c
    process_command-Counts (fails id error) now m l c =
        update_or_fail-Counts (errored V error now) id m (λ s h. ground (arith, h)) c

  raise_to :
      (low high top : ℕ) (s : Option TaskStatus) → high ≤ top → Counts low high s → Counts low top s
  raise_to low high top none le c = elim c [ ]
  raise_to low high top (some s) le (counts _ l u) = counts s l (omega arith)

  process_commands-Counts :
      (k : String) (low high top : ℕ) (cs : List (TaskCommand V × ℕ)) (m : TaskManager V)
      → high + length cs ≤ top
      → top < 2 ^ 64
      → all_leave k cs ≡ true
      → Counts low high (Map.lookup k m.task_statuses)
      → Counts low top (Map.lookup k (process_commands V cs m).task_statuses)
  unfolding process_commands
  process_commands-Counts k low high top [] m h t l c =
      raise_to low high top (Map.lookup k m.task_statuses) (omega arith) c
  process_commands-Counts k low high top ((x, now) ∷ cs) m h t l c =
      process_commands-Counts k low (high + 1) top cs (process_command V x now m) (omega arith) t
        (ground arith) (process_command-Counts k low high (omega arith) x now m (ground arith) c)

  errored-failed :
      (error : String) (now top : ℕ) (s : Option TaskStatus)
      → top + 1 < 2 ^ 64
      → Counts 10 top s
      → (t : TaskStatus) × (applied V (errored V error now) s ≡ some t) × (t.state ≡ failed)
  errored-failed error now top none h c = elim c [ ]
  errored-failed error now top (some s) h (counts _ l u) =
      (errored V error now s, refl, ground arith)

  -- A task with ten errors or more is failed by the next error that is reported, whatever commands
  -- were processed since, a restart among them, unless one deleted the task or created it anew (the
  -- count of errors staying below 2 ^ 64).
  pub errors_never_reset :
      (k error : String) (now : ℕ) (cs : List (TaskCommand V × ℕ)) (m : TaskManager V)
      (s : TaskStatus)
      → Map.lookup k m.task_statuses ≡ some s
      → 10 ≤ s.error_count
      → s.error_count + length cs + 1 < 2 ^ 64
      → all_leave k cs ≡ true
      → state_of V k (report_task_error V k error now (process_commands V cs m)).1 ≡ some failed
  unfolding report_task_error
  errors_never_reset k error now cs m s e ten h l =
      let top = s.error_count + length cs in
      let c =
        process_commands-Counts k 10 s.error_count top cs m (omega arith) (omega arith) l
          (rw e (counts s ten (omega arith))) in
      let after = process_commands V cs m in
      let (t, found, bad) =
        errored-failed error now top (Map.lookup k after.task_statuses) (omega arith) c in
      ground (
        arith,
        lookup-update_or_fail V (errored V error now) k k after,
        string_eq.eqb_iff k k,
        found,
        bad,
      )
