-- ===== src/Delivery/Checkpoint/Distinctness.antt =====
-- src/delivery/checkpoint.rs: the ids of the active transactions, over any sequence of calls.
use meilibridge.Prelude.{
  ℕ, String, ◌≡◌, refl, ◌∙◌, sym, inl, inr, false, Option, none, some, List, [], ◌∷◌, arith, map,
  any, find?, member, Distinct, Distinct-append_one, string_eq, Bool-cases, Option-cases,
}
use mathlib.Core.List.{map-append}
use meilibridge.Prelude.Result.{ok, err}
use meilibridge.Models.{Position, Checkpoint}
use meilibridge.Delivery.Error.{Outcome}
use meilibridge.Delivery.Storage.{CheckpointStorage}
use meilibridge.Delivery.Checkpoint.{
  CheckpointTransaction, TransactionalCheckpoint, Handler, has_id, remove_first, mark_prepared,
  begin_transaction, prepare, prepare_saved, commit, commit_loaded, commit_saved, rollback,
  cleanup_one, cleanup_all, stale_ids, cleanup_stale_transactions,
}

abbrev pub ids : List CheckpointTransaction → List String
ids = map (λ t. t.transaction_id)

-- No two active transactions have one id.
abbrev pub IsDistinct : {S : Type 0} → TransactionalCheckpoint S → Type 0
IsDistinct c = Distinct (ids c.transactions)

any-member :
    (id : String) (ts : List CheckpointTransaction) → any (has_id id) ts ≡ member id (ids ts)
any-member id [] = refl
any-member id (t ∷ ts) = ground (arith, any-member id ts)

ids-mark_prepared :
    (id : String) (ts : List CheckpointTransaction) → ids (mark_prepared id ts) ≡ ids ts
unfolding mark_prepared
ids-mark_prepared id [] = refl
ids-mark_prepared id (t ∷ ts) = ground (arith, ids-mark_prepared id ts)

member-remove_first :
    (id other : String) (ts : List CheckpointTransaction)
    → member other (ids ts) ≡ false
    → member other (ids (remove_first id ts)) ≡ false
unfolding remove_first
member-remove_first id other [] h = h
member-remove_first id other (t ∷ ts) h = ground (arith, member-remove_first id other ts)

Distinct-remove_first :
    (id : String) (ts : List CheckpointTransaction)
    → Distinct (ids ts)
    → Distinct (ids (remove_first id ts))
unfolding remove_first
Distinct-remove_first id [] d = d
Distinct-remove_first id (t ∷ ts) d = elim (Bool-cases (has_id id t)) [
  | inl own ↦ rw own d.1
  | inr other ↦
      rw other (member-remove_first id t.transaction_id ts d.0, Distinct-remove_first id ts d.1)
]

-- Once it is removed, the id is gone.
pub any-remove_first :
    (id : String) (ts : List CheckpointTransaction)
    → Distinct (ids ts)
    → any (has_id id) (remove_first id ts) ≡ false
unfolding remove_first
any-remove_first id [] d = refl
any-remove_first id (t ∷ ts) d = ground (
  arith,
  d.0,
  any-remove_first id ts d.1,
  any-member id ts,
  string_eq.eqb_iff t.transaction_id id,
)

module _ (st : CheckpointStorage) where
  open st use {Store, save, load, delete}

  begin-IsDistinct :
      (id task : String) (p : Position) (now : ℕ) (c : Handler st)
      → IsDistinct c
      → IsDistinct (begin_transaction id task p now c).1
  unfolding begin_transaction
  begin-IsDistinct id task p now c d = elim (Bool-cases (any (has_id id) c.transactions)) [
    | inl old ↦ rw old d
    | inr new ↦
        rw (new, map-append)
          (Distinct-append_one id (ids c.transactions) d (sym (any-member id c.transactions) ∙ new))
  ]

  prepare_saved-IsDistinct :
      (id : String) (ts : List CheckpointTransaction) (r : Outcome (Unit {0}) × Store)
      → Distinct (ids ts)
      → IsDistinct (prepare_saved st id ts r).1
  unfolding prepare_saved
  prepare_saved-IsDistinct id ts (ok u, s) d = rw (ids-mark_prepared id ts) d
  prepare_saved-IsDistinct id ts (err e, s) d = d

  prepare-IsDistinct :
      (id uuid : String) (now : ℕ) (c : Handler st)
      → IsDistinct c
      → IsDistinct (prepare st id uuid now c).1
  unfolding prepare
  prepare-IsDistinct id uuid now c d = elim (Option-cases (find? (has_id id) c.transactions)) [
    | inl e ↦ rw (e, prepare) d
    | inr (t, e) ↦
        rw (e, prepare)
          (elim (Bool-cases t.prepared) [
            | inl p ↦ rw p d
            | inr p ↦ rw p (prepare_saved-IsDistinct id c.transactions _ d)
          ])
  ]

  rollback-IsDistinct :
      (id : String) (c : Handler st) → IsDistinct c → IsDistinct (rollback st id c).1
  unfolding rollback
  rollback-IsDistinct id c d = elim (Option-cases (find? (has_id id) c.transactions)) [
    | inl e ↦ rw (e, rollback) d
    | inr (t, e) ↦ rw (e, rollback) (Distinct-remove_first id c.transactions d)
  ]

  commit_saved-IsDistinct :
      (id : String) (ts : List CheckpointTransaction) (r : Outcome (Unit {0}) × Store)
      → Distinct (ids ts)
      → IsDistinct (commit_saved st id ts r).1
  unfolding commit_saved
  commit_saved-IsDistinct id ts (ok u, s) d = Distinct-remove_first id ts d
  commit_saved-IsDistinct id ts (err e, s) d = d

  commit_loaded-IsDistinct :
      (id : String) (now : ℕ) (c : Handler st) (task : String) (r : Outcome (Option Checkpoint))
      → IsDistinct c
      → IsDistinct (commit_loaded st id now c task r).1
  unfolding commit_loaded
  commit_loaded-IsDistinct id now c task (ok none) d = d
  commit_loaded-IsDistinct id now c task (err e) d = d
  commit_loaded-IsDistinct id now c task (ok (some k)) d =
      commit_saved-IsDistinct id c.transactions _ d

  commit-IsDistinct :
      (id : String) (now : ℕ) (c : Handler st) → IsDistinct c → IsDistinct (commit st id now c).1
  unfolding commit
  commit-IsDistinct id now c d = elim (Option-cases (find? (has_id id) c.transactions)) [
    | inl e ↦ rw (e, commit) d
    | inr (t, e) ↦
        rw (e, commit)
          (elim (Bool-cases t.prepared) [
            | inr p ↦ rw p d
            | inl p ↦ rw p (elim (Bool-cases t.committed) [
              | inl q ↦ rw q d
              | inr q ↦ rw q (commit_loaded-IsDistinct id now c t.task_id _ d)
            ])
          ])
  ]

  cleanup_all-IsDistinct :
      (stale : List String) (c : Handler st) → IsDistinct c → IsDistinct (cleanup_all st stale c)
  unfolding cleanup_all cleanup_one
  cleanup_all-IsDistinct [] c d = d
  cleanup_all-IsDistinct (id ∷ stale) c d =
      cleanup_all-IsDistinct stale (rollback st id c).1 (rollback-IsDistinct id c d)

  -- Every method keeps the ids of the active transactions distinct, whatever the store answers, on
  -- the branches that fail too.
  pub methods-IsDistinct :
      (id other task : String) (p : Position) (timeout now : ℕ) (c : Handler st)
      → IsDistinct c
      → IsDistinct (begin_transaction id task p now c).1
        × IsDistinct (prepare st id other now c).1
        × IsDistinct (commit st id now c).1
        × IsDistinct (rollback st id c).1
        × IsDistinct (cleanup_stale_transactions st timeout now c)
  unfolding cleanup_stale_transactions
  methods-IsDistinct id other task p timeout now c d = (
    begin-IsDistinct id task p now c d,
    prepare-IsDistinct id other now c d,
    commit-IsDistinct id now c d,
    rollback-IsDistinct id c d,
    cleanup_all-IsDistinct (stale_ids timeout now c.transactions) c d,
  )
