-- ===== src/Dlq/Reprocess.antt =====
-- src/dlq/mod.rs: what a reprocessing sends and what it leaves in the store.
use mathlib.Core.List.{append_assoc, append-nil}
use meilibridge.Prelude.{
  ℕ, zero, suc, String, ◌≡◌, refl, sym, ◌∙◌, true, Option, none, some, List, [], ◌∷◌, ◌++◌, map,
  length, take, drop, member, leb, arith, string_eq, ◌==◌, if◌then◌else◌,
}
use meilibridge.Prelude.Map
use meilibridge.Prelude.Map.{Map, lookup-insert, lookup-remove}
use meilibridge.Prelude.Result.{Result, ok, err}
use meilibridge.Dlq.{DeadLetterEntry, update, remove, get, get_by_task}
use meilibridge.Dlq.Queue.{
  DlqError, no_reprocess_channel, reprocess_failed, DeadLetterQueue, retried, reprocess_loop,
  counted, reprocess_entries,
}

module _ (E : Type 0) (clock : DeadLetterEntry E → ℕ) where
  abbrev Entries : Type 0
  Entries = List (DeadLetterEntry E)

  abbrev pub ids : Entries → List String
  ids = map (λ e. e.id)

  -- The first entry that is not sent, marked as retried, if it has this id.
  abbrev pub refused : String → Entries → Option (DeadLetterEntry E)
  refused id [] = none
  refused id (e ∷ es) = if e.id == id then some (retried E clock e) else none

  abbrev pub first_of :
      Option (DeadLetterEntry E) → Option (DeadLetterEntry E) → Option (DeadLetterEntry E)
  first_of (some e) other = some e
  first_of none other = other

  -- What is left under an id: the refused entry, or nothing if an entry of this id was sent, or what
  -- was there.
  abbrev pub left : ℕ → Entries → String → Option (DeadLetterEntry E) → Option (DeadLetterEntry E)
  left accepts es id before =
      first_of (refused id (drop accepts es))
        (if member id (ids (take accepts es)) then none else before)

  loop-sends :
      (accepts : ℕ) (es : Entries) (q : DeadLetterQueue E)
      → (reprocess_loop E clock accepts es q).1.reprocessed
        ≡ q.reprocessed ++ map (retried E clock) (take accepts es)
  unfolding reprocess_loop
  loop-sends zero [] q = sym (append-nil q.reprocessed)
  loop-sends (suc n) [] q = sym (append-nil q.reprocessed)
  loop-sends zero (e ∷ es) q = sym (append-nil q.reprocessed)
  loop-sends (suc n) (e ∷ es) q =
      loop-sends n es _
      ∙ append_assoc q.reprocessed (retried E clock e ∷ []) (map (retried E clock) (take n es))

  loop-leaves :
      (accepts : ℕ) (es : Entries) (q : DeadLetterQueue E) (id : String)
      → Map.lookup id (reprocess_loop E clock accepts es q).1.storage
        ≡ left accepts es id (Map.lookup id q.storage)
  unfolding reprocess_loop update remove
  loop-leaves zero [] q id = refl
  loop-leaves (suc n) [] q id = refl
  loop-leaves zero (e ∷ es) q id =
      ground (arith, lookup-insert e.id id (retried E clock e) q.storage)
  loop-leaves (suc n) (e ∷ es) q id =
      let stored = update E (retried E clock e) q.storage in
      let q' = record q {
        storage = remove E e.id stored;
        reprocessed = q.reprocessed ++ retried E clock e ∷ [];
      } in
      ground (
        arith,
        loop-leaves n es q' id,
        lookup-remove e.id id stored,
        lookup-insert e.id id (retried E clock e) q.storage,
      )

  loop-result :
      (accepts : ℕ) (es : Entries) (q : DeadLetterQueue E)
      → (reprocess_loop E clock accepts es q).0
        ≡ (if leb (length es) accepts then ok tt else err reprocess_failed)
  unfolding reprocess_loop
  loop-result zero [] q = refl
  loop-result (suc n) [] q = ground arith
  loop-result zero (e ∷ es) q = ground arith
  loop-result (suc n) (e ∷ es) q =
      let q' = record q {
        storage = remove E e.id (update E (retried E clock e) q.storage);
        reprocessed = q.reprocessed ++ retried E clock e ∷ [];
      } in
      ground (arith, loop-result n es q')

  -- What a call says of the entries that it found.
  pub record Reprocessed (accepts : ℕ) (es : Entries) (q : DeadLetterQueue E)
      (r : Result DlqError ℕ × DeadLetterQueue E) : Type 0 where
    pub result : r.0 ≡ (if leb (length es) accepts then ok (length es) else err reprocess_failed)
    pub sent : r.1.reprocessed ≡ q.reprocessed ++ map (retried E clock) (take accepts es)
    pub kept : (id : String) → get E id r.1.storage ≡ left accepts es id (get E id q.storage)

  counted-Reprocessed :
      (accepts : ℕ) (es : Entries) (q : DeadLetterQueue E)
      → Reprocessed accepts es q (counted E (length es) (reprocess_loop E clock accepts es q))
  unfolding get
  counted-Reprocessed accepts es q =
      let r = reprocess_loop E clock accepts es q in
      record {
        result = ground (arith, loop-result accepts es q);
        sent = ground (arith, loop-sends accepts es q);
        kept = λ id. ground (arith, loop-leaves accepts es q id);
      }

  nothing-Reprocessed : (accepts : ℕ) (q : DeadLetterQueue E) → Reprocessed accepts [] q (ok 0, q)
  unfolding get
  nothing-Reprocessed zero q = record {
    result = refl;
    sent = sym (append-nil q.reprocessed);
    kept = λ id. refl;
  }
  nothing-Reprocessed (suc n) q = record {
    result = ground arith;
    sent = sym (append-nil q.reprocessed);
    kept = λ id. refl;
  }

  -- With a channel set, a call reprocesses the entries of the task that it finds, at most its limit,
  -- in their order: those that the channel takes are sent, marked as retried, and are no longer in
  -- the store; the first that it does not take stays there marked as retried, and the call fails;
  -- every other entry stays as it was. The call returns their number if the channel takes them all.
  pub reprocess_entries-Reprocessed :
      (accepts : ℕ) (task_id : String) (limit : Option ℕ) (q : DeadLetterQueue E)
      → q.has_reprocess_tx ≡ true
      → Reprocessed accepts
          (get_by_task E task_id limit q.storage)
          q
          (reprocess_entries E clock accepts task_id limit q)
  unfolding reprocess_entries
  reprocess_entries-Reprocessed accepts task_id limit q on =
      found (get_by_task E task_id limit q.storage)
    where
      found :
          (es : Entries)
          → Reprocessed accepts es q (elim es [
            | [] ↦ (ok 0, q)
            | entry ∷ entries ↦
                if q.has_reprocess_tx
                then counted E
                    (suc (length entries))
                    (reprocess_loop E clock accepts (entry ∷ entries) q)
                else (err no_reprocess_channel, q)
          ])
      found [] = nothing-Reprocessed accepts q
      found (e ∷ es) = simp on (counted-Reprocessed accepts (e ∷ es) q)
