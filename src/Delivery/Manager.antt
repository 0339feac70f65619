-- ===== src/Delivery/Manager.antt =====
-- src/delivery/mod.rs: AtLeastOnceManager.
use meilibridge.Prelude.{ℕ, String, Bool, true, false, Option, if◌then◌else◌}
use meilibridge.Prelude.Result.{ok}
use meilibridge.Models.{Position}
use meilibridge.Dedup.Key.{DeduplicationKey}
use meilibridge.Dedup.{EventDeduplicator}
use meilibridge.Dedup
use meilibridge.Delivery.Error.{Outcome}
use meilibridge.Delivery.Storage.{CheckpointStorage}
use meilibridge.Delivery.Checkpoint.{Handler}
use meilibridge.Delivery.Coordinator.{Coordinator}
use meilibridge.Delivery.Coordinator

pub record AtLeastOnceConfig : Type 0 where
  pub enabled : Bool
  pub deduplication_window : ℕ
  pub transaction_timeout_secs : ℕ
  pub two_phase_commit : Bool
  pub checkpoint_before_write : Bool

abbrev pub default_config : AtLeastOnceConfig
default_config = record {
  enabled = true;
  deduplication_window = 10000;
  transaction_timeout_secs = 30;
  two_phase_commit = true;
  checkpoint_before_write = true;
}

pub record AtLeastOnceManager (st : CheckpointStorage) : Type 0 where
  pub config : AtLeastOnceConfig
  pub deduplicator : EventDeduplicator
  pub coordinator : Coordinator st

module _ (st : CheckpointStorage) where
  open st use {Store}

  unfoldable pub is_duplicate : DeduplicationKey → AtLeastOnceManager st → Bool
  is_duplicate key m = if m.config.enabled then Dedup.contains m.deduplicator key else false

  unfoldable pub mark_processed : DeduplicationKey → AtLeastOnceManager st → AtLeastOnceManager st
  mark_processed key m =
      if m.config.enabled then record m { deduplicator = Dedup.add m.deduplicator key } else m

  -- Without two-phase commit the transaction's id is the empty text.
  unfoldable pub begin_transaction :
      String → String → ℕ → AtLeastOnceManager st → Outcome String × AtLeastOnceManager st
  begin_transaction task_id uuid now m =
      if m.config.two_phase_commit
      then (let (r, c) = Coordinator.begin st task_id uuid now m.coordinator in
          (r, record m { coordinator = c }))
      else (ok "", m)

  unfoldable pub prepare :
      String
      → Position
      → String
      → ℕ
      → Option Store
      → AtLeastOnceManager st
      → Outcome Bool × AtLeastOnceManager st
  prepare transaction_id position uuid now timed_out m =
      if m.config.two_phase_commit
      then (let (r, c) =
            Coordinator.prepare st transaction_id position uuid now timed_out m.coordinator in
          (r, record m { coordinator = c }))
      else (ok true, m)

  unfoldable pub commit :
      String → ℕ → AtLeastOnceManager st → Outcome (Unit {0}) × AtLeastOnceManager st
  commit transaction_id now m =
      if m.config.two_phase_commit
      then (let (r, c) = Coordinator.commit st transaction_id now m.coordinator in
          (r, record m { coordinator = c }))
      else (ok tt, m)

  unfoldable pub rollback :
      String → AtLeastOnceManager st → Outcome (Unit {0}) × AtLeastOnceManager st
  rollback transaction_id m =
      if m.config.two_phase_commit
      then (let (r, c) = Coordinator.rollback st transaction_id m.coordinator in
          (r, record m { coordinator = c }))
      else (ok tt, m)

  abbrev pub new : AtLeastOnceConfig → Handler st → AtLeastOnceManager st
  new config checkpoint = record {
    config = config;
    deduplicator = Dedup.new config.deduplication_window;
    coordinator = Coordinator.new st config.transaction_timeout_secs checkpoint;
  }
