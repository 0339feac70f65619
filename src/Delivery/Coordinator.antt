-- ===== src/Delivery/Coordinator.antt =====
-- src/delivery/transaction.rs: TransactionCoordinator.
-- The program has one transactional checkpoint, which the batch loop and the coordinator share; it is
-- the field `checkpoint`, and `has_handler` says whether the coordinator has been given it.
use Prim.Native.Char.{code}
use Prim.Native.String.{◌++◌ as str_append}
use meilibridge.Prelude.{
  ℕ, String, Bool, true, false, Option, none, some, nat_eqb, string_eq, if◌then◌else◌,
}
use meilibridge.Prelude.Result.{ok, err, ◌>>=◌}
use meilibridge.Models.{Position}
use meilibridge.Delivery.Error.{Outcome}
use meilibridge.Delivery.Storage.{CheckpointStorage}
use meilibridge.Delivery.Checkpoint.{Handler}
use meilibridge.Delivery.Checkpoint
use meilibridge.Delivery.TwoPhase.{TwoPhaseCommit}
use meilibridge.Delivery.TwoPhase

-- `format!("{}-{}", task_id, uuid)`
unfoldable pub transaction_id_of : String → String → String
transaction_id_of task_id uuid = str_append task_id (str_append "-" uuid)

-- `split('-').next()`: the text before the first dash.
unfoldable pub before_dash : String → String
before_dash String.[] = String.[]
before_dash (String.◌∷◌ ch rest) =
    let others = before_dash rest in
    if nat_eqb (code ch) b'-' then String.[] else String.◌∷◌ ch others

pub record Coordinator (st : CheckpointStorage) : Type 0 where
  pub two_phase : TwoPhaseCommit
  pub has_handler : Bool
  pub checkpoint : Handler st

module _ (st : CheckpointStorage) where
  open st use {Store}

  -- A generated id makes the transaction's id. It is returned if the transaction could begin.
  unfoldable pub begin : String → String → ℕ → Coordinator st → Outcome String × Coordinator st
  begin task_id uuid now c =
      let transaction_id = transaction_id_of task_id uuid in
      let (r, t) = TwoPhase.begin transaction_id task_id now c.two_phase in
      (r >>= λ _. ok transaction_id, record c { two_phase = t })

  vote : String → Position → Coordinator st → Outcome Bool × Coordinator st
  vote transaction_id position c =
      let (r, t) = TwoPhase.prepare transaction_id position c.two_phase in
      (r >>= λ _. ok true, record c { two_phase = t })

  after_prepare :
      String → Position → Coordinator st → Outcome Bool × Handler st → Outcome Bool × Coordinator st
  unfolding vote
  after_prepare transaction_id position c (ok true, h) =
      vote transaction_id position (record c { checkpoint = h })
  after_prepare transaction_id position c (ok false, h) = (ok false, record c { checkpoint = h })
  after_prepare transaction_id position c (err e, h) = (ok false, record c { checkpoint = h })

  after_begin :
      String
      → Position
      → String
      → ℕ
      → Option Store
      → Coordinator st
      → Outcome (Unit {0}) × Handler st
      → Outcome Bool × Coordinator st
  unfolding after_prepare
  after_begin transaction_id position uuid now timed_out c (err e, h) =
      (err e, record c { checkpoint = h })
  after_begin transaction_id position uuid now (some abandoned) c (ok _, h) =
      (ok false, record c { checkpoint = record h { storage = abandoned } })
  after_begin transaction_id position uuid now none c (ok _, h) =
      after_prepare transaction_id position c (Checkpoint.prepare st transaction_id uuid now h)

  -- `timed_out` is the store that the abandoned `prepare` leaves, if its ten seconds run out.
  unfoldable pub prepare :
      String → Position → String → ℕ → Option Store → Coordinator st → Outcome Bool × Coordinator st
  unfolding after_begin vote
  prepare transaction_id position uuid now timed_out c =
      if c.has_handler
      then after_begin transaction_id position uuid now timed_out c (
          Checkpoint.begin_transaction transaction_id (before_dash transaction_id) position now
            c.checkpoint)
      else vote transaction_id position c

  commit_two_phase : String → Coordinator st → Outcome (Unit {0}) × Coordinator st
  commit_two_phase transaction_id c =
      let (r, t) = TwoPhase.commit transaction_id c.two_phase in (r, record c { two_phase = t })

  after_commit :
      String
      → Coordinator st
      → Outcome (Unit {0}) × Handler st
      → Outcome (Unit {0}) × Coordinator st
  unfolding commit_two_phase
  after_commit transaction_id c (ok _, h) =
      commit_two_phase transaction_id (record c { checkpoint = h })
  after_commit transaction_id c (err e, h) = (err e, record c { checkpoint = h })

  unfoldable pub commit : String → ℕ → Coordinator st → Outcome (Unit {0}) × Coordinator st
  unfolding after_commit commit_two_phase
  commit transaction_id now c =
      if c.has_handler
      then after_commit transaction_id c (Checkpoint.commit st transaction_id now c.checkpoint)
      else commit_two_phase transaction_id c

  -- An error of the checkpoint's rollback is only logged.
  unfoldable pub rollback : String → Coordinator st → Outcome (Unit {0}) × Coordinator st
  rollback transaction_id c =
      let h =
        if c.has_handler
        then (Checkpoint.rollback st transaction_id c.checkpoint).1
        else c.checkpoint in
      let (r, t) = TwoPhase.abort transaction_id c.two_phase in
      (r, record c { two_phase = t; checkpoint = h })

  -- One round of the periodic clean-up.
  unfoldable pub cleanup_tick : ℕ → Coordinator st → Coordinator st
  cleanup_tick now c = record c {
    two_phase = TwoPhase.cleanup_stale_transactions now c.two_phase;
    checkpoint =
        if c.has_handler
        then Checkpoint.cleanup_stale_transactions st c.two_phase.timeout_secs now c.checkpoint
        else c.checkpoint;
  }

  abbrev pub new : ℕ → Handler st → Coordinator st
  new timeout_secs checkpoint = record {
    two_phase = TwoPhase.new timeout_secs;
    has_handler = false;
    checkpoint = checkpoint;
  }

  abbrev pub set_checkpoint_handler : Coordinator st → Coordinator st
  set_checkpoint_handler c = record c { has_handler = true }
