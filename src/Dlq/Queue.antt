-- ===== src/Dlq/Queue.antt =====
-- src/dlq/mod.rs: DeadLetterQueue over the store in memory. The channel for reprocessing takes the
-- first `accepts` entries of a call and is closed after them; the clock gives a time for each entry.
use meilibridge.Prelude.{
  ℕ, zero, suc, ltb, String, Bool, true, false, Option, none, some, List, [], ◌∷◌, ◌++◌, length,
  inc_u32, if◌then◌else◌,
}
use meilibridge.Prelude.Result.{Result, ok, err}
use meilibridge.Dlq.{
  DeadLetterEntry, InMemoryDlqStorage, store, update, remove, get_by_task, clear_task,
}

pub data DlqError : Type 0 where
  no_reprocess_channel : DlqError
  reprocess_failed : DlqError

module _ (E : Type 0) where
  pub record DeadLetterQueue : Type 0 where
    pub storage : InMemoryDlqStorage E
    pub has_reprocess_tx : Bool
    pub reprocessed : List (DeadLetterEntry E)

  abbrev pub new : InMemoryDlqStorage E → DeadLetterQueue
  new storage = record { storage = storage; has_reprocess_tx = false; reprocessed = [] }

  abbrev pub set_reprocess_channel : DeadLetterQueue → DeadLetterQueue
  set_reprocess_channel q = record q { has_reprocess_tx = true }

  unfoldable pub add_failed_event :
      String → String → E → String → ℕ → ℕ → DeadLetterQueue → DeadLetterQueue
  unfolding store
  add_failed_event uuid task_id event error retry_count now q = record q {
    storage =
        store E
          (record {
            id = uuid;
            task_id = task_id;
            event = event;
            error = error;
            retry_count = retry_count;
            created_at = now;
            last_retry_at = if ltb 0 retry_count then some now else none;
            metadata = [];
          })
          q.storage;
  }

  abbrev pub retried : (DeadLetterEntry E → ℕ) → DeadLetterEntry E → DeadLetterEntry E
  retried clock entry = record entry {
    retry_count = inc_u32 entry.retry_count;
    last_retry_at = some (clock entry);
  }

  -- The loop over the entries: update, send, and remove after a send that succeeds.
  unfoldable pub reprocess_loop :
      (DeadLetterEntry E → ℕ)
      → ℕ
      → List (DeadLetterEntry E)
      → DeadLetterQueue
      → Result DlqError (Unit {0}) × DeadLetterQueue
  unfolding update remove
  reprocess_loop clock accepts [] q = (ok tt, q)
  reprocess_loop clock zero (entry ∷ entries) q =
      (err reprocess_failed, record q { storage = update E (retried clock entry) q.storage })
  reprocess_loop clock (suc accepts) (entry ∷ entries) q =
      reprocess_loop clock accepts entries (record q {
        storage = remove E entry.id (update E (retried clock entry) q.storage);
        reprocessed = q.reprocessed ++ retried clock entry ∷ [];
      })

  abbrev pub counted :
      ℕ → Result DlqError (Unit {0}) × DeadLetterQueue → Result DlqError ℕ × DeadLetterQueue
  counted n (ok _, q) = (ok n, q)
  counted n (err e, q) = (err e, q)

  unfoldable pub reprocess_entries :
      (DeadLetterEntry E → ℕ)
      → ℕ
      → String
      → Option ℕ
      → DeadLetterQueue
      → Result DlqError ℕ × DeadLetterQueue
  unfolding reprocess_loop
  reprocess_entries clock accepts task_id limit q = elim (get_by_task E task_id limit q.storage) [
    | [] ↦ (ok 0, q)
    | entry ∷ entries ↦
        if q.has_reprocess_tx
        then counted (suc (length entries)) (reprocess_loop clock accepts (entry ∷ entries) q)
        else (err no_reprocess_channel, q)
  ]

  unfoldable pub clear : String → DeadLetterQueue → ℕ × DeadLetterQueue
  clear task_id q =
      let (n, storage) = clear_task E task_id q.storage in (n, record q { storage = storage })
