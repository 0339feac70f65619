-- ===== src/DeadLetter/Reprocess.antt =====
-- src/recovery/dead_letter.rs: what a reprocessing takes out of the store.
use meilibridge.Prelude.{
  ℕ, String, ◌≡◌, refl, not, none, List, [], ◌∷◌, map, take, filter, find?, member, arith,
  string_eq, ◌==◌, if◌then◌else◌,
}
use meilibridge.DeadLetter.{
  DeadLetterEntry, MemoryDeadLetterStorage, is_of, has_id, get_by_task, get, delete, delete_all,
  reprocess_task,
}

module _ {E V : Type 0} where
  abbrev pub ids : List (DeadLetterEntry E V) → List String
  ids = map (λ e. e.id)

  find-delete :
      (gone id : String) (es : List (DeadLetterEntry E V))
      → find? (has_id id) (filter (λ e. not (has_id gone e)) es)
        ≡ (if gone == id then none else find? (has_id id) es)
  find-delete gone id [] = ground arith
  find-delete gone id (e ∷ es) = ground (
    arith,
    find-delete gone id es,
    string_eq.eqb_iff e.id gone,
    string_eq.eqb_iff e.id id,
    string_eq.eqb_iff gone id,
  )

  get-delete_all :
      (id : String) (es : List (DeadLetterEntry E V)) (s : MemoryDeadLetterStorage E V)
      → get id (delete_all es s) ≡ (if member id (ids es) then none else get id s)
  unfolding get delete_all delete
  get-delete_all id [] s = refl
  get-delete_all id (e ∷ es) s =
      ground (arith, get-delete_all id es (delete e.id s), find-delete e.id id s.entries)

  -- A reprocessing returns the first entries of the task, at most the limit, in the order in which
  -- they were stored, and the store has no entry of their ids afterwards and the same as before
  -- under every other id: it loses them before any of them is processed.
  pub get-reprocess_task :
      (task_id id : String) (limit : ℕ) (s : MemoryDeadLetterStorage E V)
      → let (taken, s') = reprocess_task task_id limit s in
        (taken ≡ take limit (filter (is_of task_id) s.entries))
        × (get id s' ≡ (if member id (ids taken) then none else get id s))
  unfolding reprocess_task get_by_task
  get-reprocess_task task_id id limit s = (refl, get-delete_all id (get_by_task task_id limit s) s)
