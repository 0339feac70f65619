-- ===== src/Dlq/Sorting.antt =====
-- src/dlq/mod.rs: the entries of one task, oldest first.
use meilibridge.Prelude.{
  ℕ, ◌≤◌, String, ◌≡◌, refl, Bool, none, some, List, [], ◌∷◌, filter, length, take, All, leb, arith,
  Bool-cases, inl, inr,
}
use meilibridge.Dlq.{DeadLetterEntry, InMemoryDlqStorage, values, place, sort, is_of, get_by_task}

module _ (E : Type 0) where
  abbrev pub IsSorted : List (DeadLetterEntry E) → Type 0
  IsSorted [] = Unit
  IsSorted (x ∷ xs) = All (λ y. x.created_at ≤ y.created_at) xs × IsSorted xs

  All-place :
      (t : ℕ) (x : DeadLetterEntry E) (ys : List (DeadLetterEntry E))
      → t ≤ x.created_at
      → All (λ y. t ≤ y.created_at) ys
      → All (λ y. t ≤ y.created_at) (place E x ys)
  unfolding place
  All-place t x [] h a = (h, tt)
  All-place t x (y ∷ ys) h a = elim (Bool-cases (leb x.created_at y.created_at)) [
    | inl le ↦ rw le (h, a)
    | inr gt ↦ rw gt (a.0, All-place t x ys h a.1)
  ]

  All-weaken :
      (s t : ℕ) (ys : List (DeadLetterEntry E))
      → s ≤ t
      → All (λ y. t ≤ y.created_at) ys
      → All (λ y. s ≤ y.created_at) ys
  All-weaken s t [] h a = tt
  All-weaken s t (y ∷ ys) h a = (omega (arith, a.0), All-weaken s t ys h a.1)

  place-IsSorted :
      (x : DeadLetterEntry E) (ys : List (DeadLetterEntry E))
      → IsSorted ys
      → IsSorted (place E x ys)
  unfolding place
  place-IsSorted x [] s = (tt, tt)
  place-IsSorted x (y ∷ ys) s = elim (Bool-cases (leb x.created_at y.created_at)) [
    | inl le ↦
        let h : x.created_at ≤ y.created_at = ground arith in
        rw le ((h, All-weaken x.created_at y.created_at ys h s.0), s)
    | inr gt ↦ rw gt (All-place y.created_at x ys (ground (arith, gt)) s.0, place-IsSorted x ys s.1)
  ]

  sort-IsSorted : (xs : List (DeadLetterEntry E)) → IsSorted (sort E xs)
  unfolding sort
  sort-IsSorted [] = tt
  sort-IsSorted (x ∷ xs) = place-IsSorted x (sort E xs) (sort-IsSorted xs)

  module _ (p : DeadLetterEntry E → Bool) where
    count-place :
        (x : DeadLetterEntry E) (ys : List (DeadLetterEntry E))
        → length (filter p (place E x ys)) ≡ length (filter p (x ∷ ys))
    unfolding place
    count-place x [] = refl
    count-place x (y ∷ ys) = ground (arith, count-place x ys)

    count-sort :
        (xs : List (DeadLetterEntry E)) → length (filter p (sort E xs)) ≡ length (filter p xs)
    unfolding sort
    count-sort [] = refl
    count-sort (x ∷ xs) = ground (arith, count-place x (sort E xs), count-sort xs)

  -- Without a limit the entries of a task are listed from the oldest to the newest, each as often as
  -- it is stored (any test counts as many in the list as among the stored entries of the task); a
  -- limit n gives the first n of this list, so the oldest.
  pub get_by_task_oldest_first :
      (task_id : String) (n : ℕ) (entries : InMemoryDlqStorage E) (p : DeadLetterEntry E → Bool)
      → let all = get_by_task E task_id none entries in
        IsSorted all
        × (length (filter p all) ≡ length (filter p (filter (is_of E task_id) (values E entries))))
        × (get_by_task E task_id (some n) entries ≡ take n all)
  unfolding get_by_task
  get_by_task_oldest_first task_id n entries p =
      let mine = filter (is_of E task_id) (values E entries) in
      (sort-IsSorted mine, count-sort p mine, refl)
