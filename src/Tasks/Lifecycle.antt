-- ===== src/Tasks/Lifecycle.antt =====
-- src/sync/task_manager.rs: the life of one task, and what each change of a status does to it.
use meilibridge.Prelude.{
  ℕ, String, List, [], ◌∷◌, leb, inc_u64, ◌≡◌, refl, Bool, true, false, Option, none, some, arith,
  string_eq, ◌==◌, if◌then◌else◌, Option-cases, inl, inr,
}
use meilibridge.Prelude.Map
use meilibridge.Prelude.Map.{Map, lookup-insert, lookup-remove}
use meilibridge.Models.{Position}
use meilibridge.Tasks.{
  TaskState, idle, running, failed, paused, TaskStatus, TaskManager, update, update_or_fail,
  started, stopped, paused_from, resumed, progressed, errored, TaskCommand, starts, stops, pauses,
  resumes, deletes, creates, progresses, fails,
}

abbrev pub state_in : Option TaskStatus → Option TaskState
state_in none = none
state_in (some s) = some s.state

module _ (V : Type 0) where
  abbrev pub state_of : String → TaskManager V → Option TaskState
  state_of k m = state_in (Map.lookup k m.task_statuses)

  abbrev pub applied : (TaskStatus → TaskStatus) → Option TaskStatus → Option TaskStatus
  applied change none = none
  applied change (some s) = some (change s)

  pub lookup-update :
      (change : TaskStatus → TaskStatus) (id k : String) (m : TaskManager V)
      → Map.lookup k (update V change id m).task_statuses ≡ (
          if id == k
          then applied change (Map.lookup k m.task_statuses)
          else Map.lookup k m.task_statuses)
  lookup-update change id k m = elim (Option-cases (Map.lookup id m.task_statuses)) [
    | inl e ↦ rw (e, update) (ground (arith, e, string_eq.eqb_iff id k))
    | inr (s, e) ↦
        rw (e, update)
          (ground (arith, e, lookup-insert id k (change s) m.task_statuses, string_eq.eqb_iff id k))
  ]

  pub lookup-update_or_fail :
      (change : TaskStatus → TaskStatus) (id k : String) (m : TaskManager V)
      → Map.lookup k (update_or_fail V change id m).1.task_statuses ≡ (
          if id == k
          then applied change (Map.lookup k m.task_statuses)
          else Map.lookup k m.task_statuses)
  lookup-update_or_fail change id k m = ground (arith, lookup-update change id k m)

  -- Where a task stands: its state and its count of errors, or `none` where there is no such task.
  abbrev pub Life : Type 0
  Life = Option (TaskState × ℕ)

  abbrev pub life_in : Option TaskStatus → Life
  life_in none = none
  life_in (some s) = some (s.state, s.error_count)

  abbrev pub life : String → TaskManager V → Life
  life k m = life_in (Map.lookup k m.task_statuses)

  -- The life of one task, from the commands about it: a task exists from its creation, or from the
  -- configuration, to its deletion; only a running task is paused, only a paused one resumed; and
  -- from its eleventh error on each error fails it.
  abbrev pub live : TaskCommand V → Life → Life
  live (creates task) none = some (idle, 0)
  live (creates task) (some l) = some l
  live _ none = none
  live (deletes id) (some l) = none
  live (starts id) (some (s, n)) = some (running, n)
  live (stops id) (some (s, n)) = some (idle, n)
  live (pauses id) (some (running, n)) = some (paused, n)
  live (pauses id) (some l) = some l
  live (resumes id) (some (paused, n)) = some (running, n)
  live (resumes id) (some l) = some l
  live (fails id error) (some (s, n)) =
      let errors = inc_u64 n in if leb 11 errors then some (failed, errors) else some (s, errors)
  live (progresses id position n) (some l) = some l

  abbrev pub subject : TaskCommand V → String
  subject (starts id) = id
  subject (stops id) = id
  subject (pauses id) = id
  subject (resumes id) = id
  subject (deletes id) = id
  subject (creates task) = task.table
  subject (progresses id position n) = id
  subject (fails id error) = id

  -- The life of the task k over commands, of which those about other tasks do not matter.
  abbrev pub live_through : String → List (TaskCommand V × ℕ) → Life → Life
  live_through k [] l = l
  live_through k ((c, now) ∷ cs) l = live_through k cs (if subject c == k then live c l else l)

  -- A change of a status that follows a command, applied to the status of one task.
  applied-live :
      (change : TaskStatus → TaskStatus) (c : TaskCommand V)
      → ((s : Option TaskStatus) → life_in (applied change s) ≡ live c (life_in s))
      → (b : Bool) (s : Option TaskStatus)
      → life_in (if b then applied change s else s) ≡ (if b then live c (life_in s) else life_in s)
  applied-live change c h true s = h s
  applied-live change c h false s = refl

  pub update-live :
      (change : TaskStatus → TaskStatus) (c : TaskCommand V) (id k : String) (m : TaskManager V)
      → ((s : Option TaskStatus) → life_in (applied change s) ≡ live c (life_in s))
      → life k (update V change id m) ≡ (if id == k then live c (life k m) else life k m)
  update-live change c id k m h =
      rw (lookup-update change id k m)
        (applied-live change c h (id == k) (Map.lookup k m.task_statuses))

  pub update_or_fail-live :
      (change : TaskStatus → TaskStatus) (c : TaskCommand V) (id k : String) (m : TaskManager V)
      → ((s : Option TaskStatus) → life_in (applied change s) ≡ live c (life_in s))
      → life k (update_or_fail V change id m).1 ≡ (if id == k then live c (life k m) else life k m)
  update_or_fail-live change c id k m h =
      rw (lookup-update_or_fail change id k m)
        (applied-live change c h (id == k) (Map.lookup k m.task_statuses))

  pub started-live :
      (id : String) (now : ℕ) (s : Option TaskStatus)
      → life_in (applied (started V now) s) ≡ live (starts id) (life_in s)
  started-live id now none = refl
  started-live id now (some s) = ground arith

  pub stopped-live :
      (id : String) (now : ℕ) (s : Option TaskStatus)
      → life_in (applied (stopped V now) s) ≡ live (stops id) (life_in s)
  stopped-live id now none = refl
  stopped-live id now (some s) = refl

  pub paused_from-live :
      (id : String) (now : ℕ) (s : Option TaskStatus)
      → life_in (applied (paused_from V now) s) ≡ live (pauses id) (life_in s)
  paused_from-live id now none = refl
  paused_from-live id now (some s) = ground arith

  pub resumed-live :
      (id : String) (now : ℕ) (s : Option TaskStatus)
      → life_in (applied (resumed V now) s) ≡ live (resumes id) (life_in s)
  resumed-live id now none = refl
  resumed-live id now (some s) = ground arith

  pub progressed-live :
      (id : String) (p : Position) (n now : ℕ) (s : Option TaskStatus)
      → life_in (applied (progressed V p n now) s) ≡ live (progresses id p n) (life_in s)
  progressed-live id p n now none = refl
  progressed-live id p n now (some s) = refl

  pub errored-live :
      (id error : String) (now : ℕ) (s : Option TaskStatus)
      → life_in (applied (errored V error now) s) ≡ live (fails id error) (life_in s)
  errored-live id error now none = refl
  errored-live id error now (some s) = ground arith
