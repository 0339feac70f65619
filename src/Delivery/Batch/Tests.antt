-- ===== src/Delivery/Batch/Tests.antt =====
-- src/pipeline/orchestrator.rs: the theorems on batches, at one event that the destination refuses
-- and one that it accepts.
use meilibridge.Prelude.{String, ◌≡◌, refl, ◌⊎◌, false, none, some, List, [], ◌∷◌, arith}
use meilibridge.Prelude.Map
use meilibridge.Models.{Event, inserted, postgresql}
use meilibridge.Dedup
use meilibridge.Dedup.Key.{key_eqb}
use meilibridge.Delivery.Storage.{memory_storage, save, delete}
use meilibridge.Delivery.Checkpoint
use meilibridge.Delivery.TwoPhase
use meilibridge.Delivery.Coordinator
use meilibridge.Delivery.Manager.{default_config}
use meilibridge.Delivery.Manager
use meilibridge.Delivery.Keys.{Json, extract_position_from_event, create_dedup_key_from_event}
use meilibridge.Delivery.Batch.{
  Pipeline, Surroundings, responded, silent, process_batch, in_transaction, begin_manager,
  begin_checkpoint, dedupe, filter_duplicates, record_sent, deliver, send_kept,
}
use meilibridge.Delivery.Batch.Loss.{never_resent}
use meilibridge.Delivery.Batch.Success.{is_ok, sent_batch_fails}

-- A JSON value is a text, and every field of it is its own text.
abbrev json : Json
json = record { Value = String; get = λ v _. some v; to_text = λ v. v }

abbrev batch : List (Event String)
batch = inserted "users" "1" (some (postgresql "0/1")) ∷ []

abbrev start : Pipeline memory_storage json
start = record {
  manager = Manager.new memory_storage default_config (record { storage = []; transactions = [] });
  checkpoints = [];
  has_dlq = false;
  dead_letters = [];
  sent = [];
}

abbrev accepting : Surroundings
accepting = record {
  uuid = "u1";
  checkpoint_uuid = "c1";
  now = 0;
  reply =
      responded (record { success_count = 1; failed_count = 0; last_position = none; errors = [] });
}

abbrev refusing : Surroundings
refusing = record accepting { reply = silent }

first_run_sends :
    (process_batch memory_storage json "users" refusing batch start).1.sent ≡ batch ∷ []
unfolding process_batch in_transaction begin_manager begin_checkpoint dedupe filter_duplicates
    record_sent deliver send_kept extract_position_from_event create_dedup_key_from_event
    Manager.begin_transaction Manager.is_duplicate Manager.mark_processed Manager.rollback
    Coordinator.begin Coordinator.transaction_id_of Coordinator.rollback TwoPhase.begin
    TwoPhase.abort Checkpoint.begin_transaction Checkpoint.prepare Checkpoint.rollback
    Checkpoint.drop_prepared Checkpoint.mark_prepared Checkpoint.remove_first save delete
    Dedup.contains Dedup.add Dedup.new Map.contains Map.lookup Map.insert Map.remove key_eqb
first_run_sends = refl

never_resent_example :
    (process_batch memory_storage json "users" accepting batch
      (process_batch memory_storage json "users" refusing batch start).1).1.sent
    ≡ (process_batch memory_storage json "users" refusing batch start).1.sent
unfolding Dedup.new
never_resent_example =
    never_resent memory_storage json "users" refusing accepting batch start refl (omega arith)
      (λ e. ground (arith, first_run_sends, e))

sent_batch_fails_example :
    let r = process_batch memory_storage json "users" accepting batch start in
    (r.1.checkpoints ≡ []) × ((r.1.sent ≡ []) ⊎ (is_ok r.0 ≡ false))
sent_batch_fails_example = sent_batch_fails memory_storage json "users" accepting batch start refl
