-- ===== src/Dlq/Statistics.antt =====
-- src/dlq/mod.rs: the statistics against the stored entries.
use meilibridge.Prelude.{
  ℕ, suc, ◌+◌, ◌≤◌, String, ◌≡◌, refl, sym, Bool, Option, none, some, List, [], ◌∷◌, filter, length,
  All, ltb, arith, string_eq, ◌==◌, if◌then◌else◌, Bool-cases, Option-cases, inl, inr, ap,
}
use meilibridge.Prelude.Map
use meilibridge.Prelude.Map.{Map, lookup-insert}
use meilibridge.Dlq.{
  DeadLetterEntry, DlqStatistics, error_type, bump, earlier, later, InMemoryDlqStorage, values,
  is_of, no_statistics, count_entry, count_entries, get_statistics,
}

-- The number that is counted under a key.
abbrev pub counted_under : String → Map String ℕ → ℕ
counted_under key counts = elim (Map.lookup key counts) [ none ↦ 0 | some n ↦ n ]

counted_under-bump :
    (key other : String) (counts : Map String ℕ)
    → counted_under other (bump key counts)
      ≡ (if key == other then suc (counted_under other counts) else counted_under other counts)
counted_under-bump key other counts = elim (Option-cases (Map.lookup key counts)) [
  | inl e ↦
      rw (e, bump)
        (ground (arith, e, lookup-insert key other 1 counts, string_eq.eqb_iff key other))
  | inr (n, e) ↦
      rw (e, bump)
        (ground (arith, e, lookup-insert key other (suc n) counts, string_eq.eqb_iff key other))
]

module _ (E : Type 0) where
  abbrev pub has_error : String → DeadLetterEntry E → Bool
  has_error key entry = error_type entry.error == key

  by_task-count_entries :
      (key : String) (s : DlqStatistics) (es : List (DeadLetterEntry E))
      → counted_under key (count_entries E s es).entries_by_task
        ≡ counted_under key s.entries_by_task + length (filter (is_of E key) es)
  unfolding count_entries count_entry
  by_task-count_entries key s [] = omega arith
  by_task-count_entries key s (e ∷ es) = ground (
    arith,
    by_task-count_entries key (count_entry E s e) es,
    counted_under-bump e.task_id key s.entries_by_task,
  )

  by_error-count_entries :
      (key : String) (s : DlqStatistics) (es : List (DeadLetterEntry E))
      → counted_under key (count_entries E s es).entries_by_error
        ≡ counted_under key s.entries_by_error + length (filter (has_error key) es)
  unfolding count_entries count_entry
  by_error-count_entries key s [] = omega arith
  by_error-count_entries key s (e ∷ es) = ground (
    arith,
    by_error-count_entries key (count_entry E s e) es,
    counted_under-bump (error_type e.error) key s.entries_by_error,
  )

  -- The time is not before the first, which is there, and not after the second, which is there.
  abbrev pub Within : ℕ → Option ℕ → Option ℕ → Type 0
  Within t (some old) (some young) = (old ≤ t) × (t ≤ young)
  Within t _ _ = ⊥

  Within-step :
      (t u : ℕ) (old young : Option ℕ)
      → Within t old young
      → Within t (earlier u old) (later u young)
  Within-step t u (some old) (some young) w = elim (Bool-cases (ltb u old)) [
    | inl a ↦ elim (Bool-cases (ltb young u)) [
      | inl b ↦ rw (a, b) (ground (arith, w))
      | inr b ↦ rw (a, b) (ground (arith, w))
    ]
    | inr a ↦ elim (Bool-cases (ltb young u)) [
      | inl b ↦ rw (a, b) (ground (arith, w))
      | inr b ↦ rw (a, b) (ground (arith, w))
    ]
  ]
  Within-step t u none young w = elim w [ ]
  Within-step t u (some old) none w = elim w [ ]

  -- A first and a last time are there together or not at all.
  abbrev pub Paired : Option ℕ → Option ℕ → Type 0
  Paired none none = Unit
  Paired (some old) (some young) = Unit
  Paired _ _ = ⊥

  Paired-step :
      (t : ℕ) (old young : Option ℕ) → Paired old young → Paired (earlier t old) (later t young)
  Paired-step t none none h = tt
  Paired-step t (some old) (some young) h = elim (Bool-cases (ltb t old)) [
    | inl a ↦ elim (Bool-cases (ltb young t)) [ inl b ↦ rw (a, b) tt | inr b ↦ rw (a, b) tt ]
    | inr a ↦ elim (Bool-cases (ltb young t)) [ inl b ↦ rw (a, b) tt | inr b ↦ rw (a, b) tt ]
  ]
  Paired-step t none (some young) h = elim h [ ]
  Paired-step t (some old) none h = elim h [ ]

  Within-self :
      (t : ℕ) (old young : Option ℕ) → Paired old young → Within t (earlier t old) (later t young)
  Within-self t none none h = (omega arith, omega arith)
  Within-self t (some old) (some young) h = elim (Bool-cases (ltb t old)) [
    | inl a ↦ elim (Bool-cases (ltb young t)) [
      | inl b ↦ rw (a, b) (ground arith)
      | inr b ↦ rw (a, b) (ground (arith, a, b))
    ]
    | inr a ↦ elim (Bool-cases (ltb young t)) [
      | inl b ↦ rw (a, b) (ground (arith, a, b))
      | inr b ↦ rw (a, b) (ground (arith, a, b))
    ]
  ]
  Within-self t none (some young) h = elim h [ ]
  Within-self t (some old) none h = elim h [ ]

  -- The entry was created within the times that the statistics give.
  abbrev pub WithinTimes : DlqStatistics → DeadLetterEntry E → Type 0
  WithinTimes s e = Within e.created_at s.oldest_entry s.newest_entry

  Within-count_entries :
      (t : ℕ) (s : DlqStatistics) (es : List (DeadLetterEntry E))
      → Within t s.oldest_entry s.newest_entry
      → Within t (count_entries E s es).oldest_entry (count_entries E s es).newest_entry
  unfolding count_entries count_entry
  Within-count_entries t s [] w = w
  Within-count_entries t s (e ∷ es) w =
      Within-count_entries t (count_entry E s e) es
        (Within-step t e.created_at s.oldest_entry s.newest_entry w)

  count_entries-WithinTimes :
      (s : DlqStatistics) (es : List (DeadLetterEntry E))
      → Paired s.oldest_entry s.newest_entry
      → All (WithinTimes (count_entries E s es)) es
  unfolding count_entries count_entry
  count_entries-WithinTimes s [] h = tt
  count_entries-WithinTimes s (e ∷ es) h = (
    Within-count_entries e.created_at (count_entry E s e) es
        (Within-self e.created_at s.oldest_entry s.newest_entry h),
    count_entries-WithinTimes (count_entry E s e) es
        (Paired-step e.created_at s.oldest_entry s.newest_entry h),
  )

  length-values : (entries : InMemoryDlqStorage E) → length (values E entries) ≡ length entries
  unfolding values
  length-values [] = refl
  length-values ((id, e) ∷ entries) = ap suc (length-values entries)

  -- The statistics agree with the entries in the store: the total is their number, the count of a
  -- task (of an error's first line) is the number of entries that have it, and every entry was
  -- created within the oldest and the newest time.
  pub get_statistics_agrees :
      (task_id error : String) (entries : InMemoryDlqStorage E)
      → let s = get_statistics E entries in
        let all = values E entries in
        (s.total_entries ≡ length all)
        × (counted_under task_id s.entries_by_task ≡ length (filter (is_of E task_id) all))
        × (counted_under error s.entries_by_error ≡ length (filter (has_error error) all))
        × All (WithinTimes s) all
  unfolding get_statistics Map.lookup
  get_statistics_agrees task_id error entries =
      let all = values E entries in
      (
        sym (length-values entries),
        ground (arith, by_task-count_entries task_id (no_statistics E) all),
        ground (arith, by_error-count_entries error (no_statistics E) all),
        count_entries-WithinTimes (no_statistics E) all tt,
      )
