-- ===== src/Tasks/Registered.antt =====
-- src/sync/task_manager.rs: the configured tasks against the statuses.
use meilibridge.Prelude.{
  ℕ, String, ◌≡◌, refl, sym, subst, ◌∙◌, Bool, false, not, ◌||◌, List, [], ◌∷◌, ◌++◌, map, any,
  filter, arith, string_eq, ◌==◌, if◌then◌else◌, Option-cases, Bool-cases, inl, inr, member,
  Distinct, Distinct-append_one,
}
use mathlib.Core.List.{map-append}
use meilibridge.Prelude.Map
use meilibridge.Prelude.Map.{Map, is_some, lookup-insert, lookup-remove}
use meilibridge.Config.{SyncTaskConfig}
use meilibridge.Tasks.{
  TaskStatus, TaskManager, new_status, update, update_or_fail, is_for, initial_statuses, start,
  create_task, delete_task, start_task, stop_task, pause_task, resume_task, update_task_progress,
  report_task_error, started, stopped, paused_from, resumed, progressed, errored, TaskCommand,
  starts, stops, pauses, resumes, deletes, creates, progresses, fails, process_command,
  process_commands,
}

module _ (V : Type 0) where
  abbrev pub has_status : String → TaskManager V → Bool
  has_status k m = is_some (Map.lookup k m.task_statuses)

  abbrev pub is_configured : String → TaskManager V → Bool
  is_configured k m = any (is_for V k) m.sync_tasks

  abbrev pub tables : List (SyncTaskConfig V) → List String
  tables = map (λ t. t.table)

  -- Exactly the configured tables have a status, and no table is configured twice.
  pub record IsRegistered (m : TaskManager V) : Type 0 where
    pub agree : (k : String) → has_status k m ≡ is_configured k m
    pub distinct : Distinct (tables m.sync_tasks)

  any-member :
      (k : String) (ts : List (SyncTaskConfig V)) → any (is_for V k) ts ≡ member k (tables ts)
  any-member k [] = refl
  any-member k (t ∷ ts) = ground (arith, any-member k ts)

  any-append_one :
      (k : String) (ts : List (SyncTaskConfig V)) (t : SyncTaskConfig V)
      → any (is_for V k) (ts ++ t ∷ []) ≡ (any (is_for V k) ts || is_for V k t)
  any-append_one k [] t = ground arith
  any-append_one k (x ∷ ts) t = ground (arith, any-append_one k ts t)

  any-filter :
      (k gone : String) (ts : List (SyncTaskConfig V))
      → any (is_for V k) (filter (λ t. not (is_for V gone t)) ts)
        ≡ (if gone == k then false else any (is_for V k) ts)
  any-filter k gone [] = ground arith
  any-filter k gone (t ∷ ts) = ground (
    arith,
    any-filter k gone ts,
    string_eq.eqb_iff gone k,
    string_eq.eqb_iff t.table k,
    string_eq.eqb_iff t.table gone,
  )

  member-filter :
      (k gone : String) (ts : List (SyncTaskConfig V))
      → member k (tables ts) ≡ false
      → member k (tables (filter (λ t. not (is_for V gone t)) ts)) ≡ false
  member-filter k gone [] h = h
  member-filter k gone (t ∷ ts) h = ground (arith, member-filter k gone ts)

  Distinct-filter :
      (gone : String) (ts : List (SyncTaskConfig V))
      → Distinct (tables ts)
      → Distinct (tables (filter (λ t. not (is_for V gone t)) ts))
  Distinct-filter gone [] d = d
  Distinct-filter gone (t ∷ ts) d = elim (Bool-cases (is_for V gone t)) [
    | inl own ↦ rw own (Distinct-filter gone ts d.1)
    | inr other ↦ rw other (member-filter t.table gone ts d.0, Distinct-filter gone ts d.1)
  ]

  update-IsRegistered :
      (change : TaskStatus → TaskStatus) (id : String) (m : TaskManager V)
      → IsRegistered m
      → IsRegistered (update V change id m)
  update-IsRegistered change id m r = elim (Option-cases (Map.lookup id m.task_statuses)) [
    | inl e ↦ rw (e, update) r
    | inr (s, e) ↦
        rw (e, update)
          (record {
            agree = λ k. ground (
              arith,
              r.agree k,
              lookup-insert id k (change s) m.task_statuses,
              string_eq.eqb_iff id k,
            );
            distinct = r.distinct;
          })
  ]

  update_or_fail-eq-update :
      (change : TaskStatus → TaskStatus) (id : String) (m : TaskManager V)
      → (update_or_fail V change id m).1 ≡ update V change id m
  update_or_fail-eq-update change id m = ground arith

  update_or_fail-IsRegistered :
      (change : TaskStatus → TaskStatus) (id : String) (m : TaskManager V)
      → IsRegistered m
      → IsRegistered (update_or_fail V change id m).1
  update_or_fail-IsRegistered change id m r =
      subst IsRegistered (sym (update_or_fail-eq-update change id m))
        (update-IsRegistered change id m r)

  create_task-IsRegistered :
      (task : SyncTaskConfig V) (now : ℕ) (m : TaskManager V)
      → IsRegistered m
      → IsRegistered (create_task V task now m).1
  unfolding create_task
  create_task-IsRegistered task now m r =
      elim (Bool-cases (any (is_for V task.table) m.sync_tasks)) [
        | inl old ↦ simp old r
        | inr new ↦ simp new (record {
          agree = λ k. ground (
            arith,
            r.agree k,
            any-append_one k m.sync_tasks task,
            lookup-insert task.table k (new_status task.table now) m.task_statuses,
            string_eq.eqb_iff task.table k,
          );
          distinct = rw map-append (
              Distinct-append_one task.table (tables m.sync_tasks) r.distinct
                (sym (any-member task.table m.sync_tasks) ∙ new));
        })
      ]

  delete_task-IsRegistered :
      (id : String) (now : ℕ) (m : TaskManager V)
      → IsRegistered m
      → IsRegistered (delete_task V id now m).1
  unfolding delete_task stop_task
  delete_task-IsRegistered id now m r =
      let s = update-IsRegistered (stopped V now) id m r in
      let halted = update V (stopped V now) id m in
      record {
        agree = λ k. ground (
          arith,
          s.agree k,
          lookup-remove id k halted.task_statuses,
          any-filter k id halted.sync_tasks,
        );
        distinct = Distinct-filter id halted.sync_tasks s.distinct;
      }

  pub process_command-IsRegistered :
      (c : TaskCommand V) (now : ℕ) (m : TaskManager V)
      → IsRegistered m
      → IsRegistered (process_command V c now m)
  unfolding process_command start_task stop_task pause_task resume_task update_task_progress
      report_task_error
  process_command-IsRegistered (starts id) now m r = update-IsRegistered (started V now) id m r
  process_command-IsRegistered (stops id) now m r = update-IsRegistered (stopped V now) id m r
  process_command-IsRegistered (pauses id) now m r = update-IsRegistered (paused_from V now) id m r
  process_command-IsRegistered (resumes id) now m r = update-IsRegistered (resumed V now) id m r
  process_command-IsRegistered (deletes id) now m r = delete_task-IsRegistered id now m r
  process_command-IsRegistered (creates task) now m r = create_task-IsRegistered task now m r
  process_command-IsRegistered (progresses id p n) now m r =
      update_or_fail-IsRegistered (progressed V p n now) id m r
  process_command-IsRegistered (fails id error) now m r =
      update_or_fail-IsRegistered (errored V error now) id m r

  initial-agree :
      (now : ℕ) (ts : List (SyncTaskConfig V)) (s : Map String TaskStatus) (k : String)
      → is_some (Map.lookup k (initial_statuses V now ts s))
        ≡ (is_some (Map.lookup k s) || any (is_for V k) ts)
  unfolding initial_statuses
  initial-agree now [] s k = ground arith
  initial-agree now (t ∷ ts) s k = ground (
    arith,
    initial-agree now ts (Map.insert t.table (new_status t.table now) s) k,
    lookup-insert t.table k (new_status t.table now) s,
  )

  pub start-IsRegistered :
      (now : ℕ) (ts : List (SyncTaskConfig V))
      → Distinct (tables ts)
      → IsRegistered (start V now ts)
  unfolding start Map.lookup
  start-IsRegistered now ts d = record { agree = λ k. initial-agree now ts [] k; distinct = d }

  commands-IsRegistered :
      (cs : List (TaskCommand V × ℕ)) (m : TaskManager V)
      → IsRegistered m
      → IsRegistered (process_commands V cs m)
  unfolding process_commands
  commands-IsRegistered [] m r = r
  commands-IsRegistered ((c, now) ∷ cs) m r =
      commands-IsRegistered cs (process_command V c now m) (process_command-IsRegistered c now m r)

  -- From a configuration that names no table twice, after any sequence of commands, progress reports
  -- and error reports, exactly the configured tables have a status and no table is configured twice.
  pub run-IsRegistered :
      (now : ℕ) (ts : List (SyncTaskConfig V)) (cs : List (TaskCommand V × ℕ))
      → Distinct (tables ts)
      → IsRegistered (process_commands V cs (start V now ts))
  run-IsRegistered now ts cs d =
      commands-IsRegistered cs (start V now ts) (start-IsRegistered now ts d)
