-- ===== src/Delivery/Checkpoint/Commit.antt =====
-- src/delivery/checkpoint.rs: a transaction from its beginning to its commit or its rollback.
use meilibridge.Prelude.{
  ℕ, String, ◌≡◌, refl, true, false, none, some, List, [], ◌∷◌, ◌++◌, arith, any, find?, string_eq,
}
use meilibridge.Prelude.Result.{ok}
use meilibridge.Models.{Position, Checkpoint}
use meilibridge.Delivery.Storage.{CheckpointStorage}
use meilibridge.Delivery.Checkpoint.{
  CheckpointTransaction, Handler, has_id, remove_first, mark_prepared, prepared_checkpoint,
  committed_checkpoint, begin_transaction, prepare, commit, rollback, get_latest_committed,
}

module _ (id : String) (t : CheckpointTransaction) (own : t.transaction_id ≡ id) where
  pub find?-append_one :
      (ts : List CheckpointTransaction)
      → any (has_id id) ts ≡ false
      → find? (has_id id) (ts ++ t ∷ []) ≡ some t
  find?-append_one [] h = ground (arith, string_eq.eqb_iff t.transaction_id id)
  find?-append_one (x ∷ ts) h = ground (arith, find?-append_one ts)

  pub mark_prepared-append_one :
      (ts : List CheckpointTransaction)
      → any (has_id id) ts ≡ false
      → mark_prepared id (ts ++ t ∷ []) ≡ ts ++ record t { prepared = true } ∷ []
  unfolding mark_prepared
  mark_prepared-append_one [] h = ground (arith, string_eq.eqb_iff t.transaction_id id)
  mark_prepared-append_one (x ∷ ts) h = ground (arith, mark_prepared-append_one ts)

  pub remove_first-append_one :
      (ts : List CheckpointTransaction)
      → any (has_id id) ts ≡ false
      → remove_first id (ts ++ t ∷ []) ≡ ts
  unfolding remove_first
  remove_first-append_one [] h = ground (arith, string_eq.eqb_iff t.transaction_id id)
  remove_first-append_one (x ∷ ts) h = ground (arith, remove_first-append_one ts)

-- A transaction as `begin_transaction` makes it.
abbrev pub begun : String → String → Position → ℕ → CheckpointTransaction
begun id task position now = record {
  transaction_id = id;
  task_id = task;
  position = position;
  prepared = false;
  committed = false;
  created_at = now;
}

module _ (st : CheckpointStorage) (c : Handler st) (id task : String) (position : Position) where
  open st use {Store, save, load, delete, load-save, load-delete}

  -- The handler right after its transaction is prepared.
  abbrev pub prepared_handler : ℕ → Store → Handler st
  prepared_handler t₀ s = record {
    storage = s;
    transactions = c.transactions ++ record (begun id task position t₀) { prepared = true } ∷ [];
  }

  abbrev pub begun_handler : ℕ → Handler st
  begun_handler t₀ = record c { transactions = c.transactions ++ begun id task position t₀ ∷ [] }

  pub begin_fresh :
      (t₀ : ℕ)
      → any (has_id id) c.transactions ≡ false
      → begin_transaction id task position t₀ c ≡ (ok tt, begun_handler t₀)
  unfolding begin_transaction
  begin_fresh t₀ fresh = rw fresh

  pub prepare-begun :
      (uuid : String) (t₀ t₁ : ℕ) (s : Store)
      → any (has_id id) c.transactions ≡ false
      → save c.storage (prepared_checkpoint (begun id task position t₀) uuid t₁) ≡ (ok tt, s)
      → prepare st id uuid t₁ (begun_handler t₀) ≡ (ok true, prepared_handler t₀ s)
  unfolding prepare
  prepare-begun uuid t₀ t₁ s fresh saved = rw (
    find?-append_one id (begun id task position t₀) refl c.transactions fresh,
    prepare,
    saved,
    mark_prepared-append_one id (begun id task position t₀) refl c.transactions fresh,
  )

  abbrev pub first_checkpoint : String → ℕ → ℕ → Checkpoint
  first_checkpoint uuid t₀ t₁ = prepared_checkpoint (begun id task position t₀) uuid t₁

  pub commit-prepared :
      (uuid : String) (t₀ t₁ t₂ : ℕ) (s s' : Store)
      → any (has_id id) c.transactions ≡ false
      → load s task ≡ ok (some (first_checkpoint uuid t₀ t₁))
      → save s (committed_checkpoint (first_checkpoint uuid t₀ t₁) id t₂) ≡ (ok tt, s')
      → commit st id t₂ (prepared_handler t₀ s)
        ≡ (ok tt, record { storage = s'; transactions = c.transactions })
  unfolding commit
  commit-prepared uuid t₀ t₁ t₂ s s' fresh loaded saved =
      let t = record (begun id task position t₀) { prepared = true } in
      rw (
        find?-append_one id t refl c.transactions fresh,
        commit,
        loaded,
        saved,
        remove_first-append_one id t refl c.transactions fresh,
      )

  -- A new transaction that is begun, prepared and committed while its two saves succeed leaves the
  -- other transactions as they were, and the task's latest committed checkpoint is then the one of
  -- this transaction, at the transaction's position.
  pub get_latest_committed-commit :
      (uuid : String) (t₀ t₁ t₂ : ℕ) (s s' : Store)
      → any (has_id id) c.transactions ≡ false
      → save c.storage (first_checkpoint uuid t₀ t₁) ≡ (ok tt, s)
      → save s (committed_checkpoint (first_checkpoint uuid t₀ t₁) id t₂) ≡ (ok tt, s')
      → let begun = (begin_transaction id task position t₀ c).1 in
        let prepared = (prepare st id uuid t₁ begun).1 in
        let done = commit st id t₂ prepared in
        (done.0 ≡ ok tt)
        × (done.1.transactions ≡ c.transactions)
        × (get_latest_committed st task done.1
            ≡ ok (some (committed_checkpoint (first_checkpoint uuid t₀ t₁) id t₂)))
  unfolding get_latest_committed
  get_latest_committed-commit uuid t₀ t₁ t₂ s s' fresh saved saved' =
      rw
        (
          begin_fresh t₀ fresh,
          prepare-begun uuid t₀ t₁ s fresh saved,
          commit-prepared uuid t₀ t₁ t₂ s s' fresh (load-save c.storage s _ saved) saved',
        )
        (refl, refl, rw (load-save s s' _ saved'))

  -- Whatever checkpoint the task had before, committed or not: once a new transaction of the task
  -- is prepared the task has no committed checkpoint, and once that transaction is rolled back the
  -- store has no checkpoint of the task at all.
  pub rollback_loses_checkpoint :
      (uuid : String) (t₀ t₁ : ℕ) (s s' : Store)
      → any (has_id id) c.transactions ≡ false
      → save c.storage (first_checkpoint uuid t₀ t₁) ≡ (ok tt, s)
      → delete s task ≡ (ok tt, s')
      → let begun = (begin_transaction id task position t₀ c).1 in
        let prepared = (prepare st id uuid t₁ begun).1 in
        let undone = (rollback st id prepared).1 in
        (get_latest_committed st task prepared ≡ ok none)
        × (undone.transactions ≡ c.transactions)
        × (load undone.storage task ≡ ok none)
  unfolding get_latest_committed rollback
  rollback_loses_checkpoint uuid t₀ t₁ s s' fresh saved deleted =
      let t = record (begun id task position t₀) { prepared = true } in
      rw (begin_fresh t₀ fresh, prepare-begun uuid t₀ t₁ s fresh saved)
        (
          rw (load-save c.storage s _ saved),
          rw (
            find?-append_one id t refl c.transactions fresh,
            rollback,
            remove_first-append_one id t refl c.transactions fresh,
          ),
          rw (find?-append_one id t refl c.transactions fresh, rollback, deleted)
              (load-delete s s' task deleted),
        )
