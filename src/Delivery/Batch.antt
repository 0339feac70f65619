-- ===== src/Delivery/Batch.antt =====
-- src/pipeline/orchestrator.rs: process_batch_with_at_least_once, one batch of one task. The
-- destination's answer, the generated ids and the time are arguments. `sent` is the history of the
-- batches that were handed to the destination's channel, and `dead_letters` that of the events that
-- were handed to the dead letter queue (whose errors are only logged), each before the change of its
-- format by convert_to_models_event, which is not modelled.
pub mod Keeps
pub mod Loss
pub mod Success
pub mod Tests
use meilibridge.Prelude.{
  ℕ, String, Bool, true, false, Option, none, some, List, [], ◌∷◌, ◌++◌, nat_eqb, string_eq,
  if◌then◌else◌,
}
use meilibridge.Prelude.Map
use meilibridge.Prelude.Map.{Map}
use meilibridge.Prelude.Result.{Result, ok, err}
use meilibridge.Models.{Position, Event}
use meilibridge.Delivery.Error.{
  MeiliBridgeError, Outcome, prepare_failed, batch_failed, destination_failed, no_response,
  send_failed,
}
use meilibridge.Delivery.Storage.{CheckpointStorage}
use meilibridge.Delivery.Checkpoint.{Handler}
use meilibridge.Delivery.Checkpoint
use meilibridge.Delivery.Manager.{AtLeastOnceManager}
use meilibridge.Delivery.Manager
use meilibridge.Delivery.Keys.{Json, extract_position_from_event, create_dedup_key_from_event}

pub record DestinationResponse : Type 0 where
  pub success_count : ℕ
  pub failed_count : ℕ
  pub last_position : Option Position
  pub errors : List String

-- What comes of sending a command to the destination and waiting for its answer.
pub data Reply : Type 0 where
  responded : DestinationResponse → Reply
  failed : MeiliBridgeError → Reply
  silent : Reply
  unsent : String → Reply

-- What a run of the batch takes from its surroundings.
pub record Surroundings : Type 0 where
  pub uuid : String
  pub checkpoint_uuid : String
  pub now : ℕ
  pub reply : Reply

abbrev pub last? : {A : Type 0} → List A → Option A
last? [] = none
last? (x ∷ []) = some x
last? (x ∷ y ∷ xs) = last? (y ∷ xs)

module _ (st : CheckpointStorage) (js : Json) where
  pub record Pipeline : Type 0 where
    pub manager : AtLeastOnceManager st
    pub checkpoints : Map String Position
    pub has_dlq : Bool
    pub dead_letters : List (String × Event (js.Value) × String)
    pub sent : List (List (Event (js.Value)))

  -- A step of the batch: its result, or the error that ends the batch, and the state it leaves.
  abbrev pub Action : Type 0 → Type 0
  Action A = Pipeline → Outcome A × Pipeline

  abbrev pub pure : {A : Type 0} → A → Action A
  pure a p = (ok a, p)

  abbrev pub raise : {A : Type 0} → MeiliBridgeError → Action A
  raise e p = (err e, p)

  abbrev pub resume : {A B : Type 0} → (A → Action B) → Outcome A × Pipeline → Outcome B × Pipeline
  resume f (ok a, p) = f a p
  resume f (err e, p) = (err e, p)

  infixl 10 ◌>>=◌ ◌>>◌
  abbrev pub ◌>>=◌ : {A B : Type 0} → Action A → (A → Action B) → Action B
  ◌>>=◌ m f p = resume f (m p)

  abbrev pub ◌>>◌ : {B : Type 0} → Action (Unit {0}) → Action B → Action B
  ◌>>◌ m k p = resume (λ _. k) (m p)

  abbrev pub handler : Pipeline → Handler st
  handler p = p.manager.coordinator.checkpoint

  abbrev pub with_manager :
      {A : Type 0} → Pipeline → Outcome A × AtLeastOnceManager st → Outcome A × Pipeline
  with_manager p (r, m) = (r, record p { manager = m })

  abbrev pub with_handler : {A : Type 0} → Pipeline → Outcome A × Handler st → Outcome A × Pipeline
  with_handler p (r, h) = (
    r,
    record p {
      manager = record (p.manager) {
        coordinator = record (p.manager.coordinator) { checkpoint = h };
      };
    },
  )

  unfoldable pub begin_manager : String → Surroundings → Action String
  begin_manager task_id env p =
      with_manager p (Manager.begin_transaction st task_id env.uuid env.now p.manager)

  unfoldable pub begin_checkpoint : String → String → Position → Surroundings → Action (Unit {0})
  begin_checkpoint transaction_id task_id position env p =
      with_handler p
        (Checkpoint.begin_transaction transaction_id task_id position env.now (handler p))

  -- The events that are not duplicates, in their order. Each is marked as processed when it is met.
  unfoldable pub dedupe :
      AtLeastOnceManager st
      → List (Event (js.Value))
      → List (Event (js.Value)) × AtLeastOnceManager st
  dedupe m [] = ([], m)
  dedupe m (e ∷ es) =
      let key = create_dedup_key_from_event js e in
      elim (Manager.is_duplicate st key m) [
        | true ↦ dedupe m es
        | false ↦ let (kept, m') = dedupe (Manager.mark_processed st key m) es in (e ∷ kept, m')
      ]

  unfoldable pub filter_duplicates : List (Event (js.Value)) → Action (List (Event (js.Value)))
  unfolding dedupe
  filter_duplicates batch p =
      let (kept, m) = dedupe p.manager batch in (ok kept, record p { manager = m })

  prepare_checkpoint : String → Surroundings → Action Bool
  prepare_checkpoint transaction_id env p =
      with_handler p (Checkpoint.prepare st transaction_id env.checkpoint_uuid env.now (handler p))

  commit_checkpoint : String → Surroundings → Action (Unit {0})
  commit_checkpoint transaction_id env p =
      with_handler p (Checkpoint.commit st transaction_id env.now (handler p))

  commit_manager : String → Surroundings → Action (Unit {0})
  commit_manager transaction_id env p =
      with_manager p (Manager.commit st transaction_id env.now p.manager)

  rollback_checkpoint : String → Action (Unit {0})
  rollback_checkpoint transaction_id p =
      with_handler p (Checkpoint.rollback st transaction_id (handler p))

  rollback_manager : String → Action (Unit {0})
  rollback_manager transaction_id p = with_manager p (Manager.rollback st transaction_id p.manager)

  set_position : String → Position → Action (Unit {0})
  set_position task_id position p =
      (ok tt, record p { checkpoints = Map.insert task_id position p.checkpoints })

  unfoldable pub record_sent : List (Event (js.Value)) → Action (Unit {0})
  record_sent batch p = (ok tt, record p { sent = p.sent ++ batch ∷ [] })

  -- The i-th error goes with the i-th event, as long as there is one.
  letters :
      String → List (Event (js.Value)) → List String → List (String × Event (js.Value) × String)
  letters task_id [] errors = []
  letters task_id (e ∷ es) [] = []
  letters task_id (e ∷ es) (error ∷ errors) = (task_id, e, error) ∷ letters task_id es errors

  add_failed_events : String → List (Event (js.Value)) → List String → Action (Unit {0})
  unfolding letters
  add_failed_events task_id batch errors p = (
    ok tt,
    if p.has_dlq
        then record p { dead_letters = p.dead_letters ++ letters task_id batch errors }
        else p,
  )

  rollback_both : String → Action (Unit {0})
  unfolding rollback_checkpoint rollback_manager
  rollback_both transaction_id = do
    rollback_checkpoint transaction_id
    rollback_manager transaction_id

  -- The destination answered.
  finish :
      String
      → String
      → Position
      → List (Event (js.Value))
      → Surroundings
      → DestinationResponse
      → Action (Unit {0})
  unfolding commit_checkpoint commit_manager set_position rollback_both add_failed_events
  finish task_id transaction_id position kept env response =
      if nat_eqb response.failed_count 0
      then (do
        commit_checkpoint transaction_id env
        commit_manager transaction_id env
        set_position task_id position)
      else (do
        rollback_both transaction_id
        add_failed_events task_id kept response.errors
        raise (batch_failed response.failed_count))

  unfoldable pub deliver :
      String
      → String
      → Position
      → List (Event (js.Value))
      → Surroundings
      → Reply
      → Action (Unit {0})
  unfolding finish record_sent rollback_both
  deliver task_id transaction_id position kept env (responded response) = do
    record_sent kept
    finish task_id transaction_id position kept env response
  deliver task_id transaction_id position kept env (failed e) = do
    record_sent kept
    rollback_both transaction_id
    raise e
  deliver task_id transaction_id position kept env silent = do
    record_sent kept
    rollback_both transaction_id
    raise no_response
  deliver task_id transaction_id position kept env (unsent e) = do
    rollback_both transaction_id
    raise send_failed

  unfoldable pub send_kept :
      String → String → Position → Surroundings → List (Event (js.Value)) → Action (Unit {0})
  unfolding prepare_checkpoint rollback_manager deliver
  send_kept task_id transaction_id position env [] = pure tt
  send_kept task_id transaction_id position env (e ∷ es) = do
    prepared ← prepare_checkpoint transaction_id env
    if prepared
        then deliver task_id transaction_id position (e ∷ es) env env.reply
        else (do rollback_manager transaction_id; raise prepare_failed)

  unfoldable pub in_transaction :
      String → Position → Surroundings → List (Event (js.Value)) → Action (Unit {0})
  unfolding begin_manager begin_checkpoint filter_duplicates send_kept
  in_transaction task_id position env batch = do
    transaction_id ← begin_manager task_id env
    begin_checkpoint transaction_id task_id position env
    kept ← filter_duplicates batch
    send_kept task_id transaction_id position env kept

  abbrev pub last_position : List (Event (js.Value)) → Option Position
  last_position batch = elim (last? batch) [ none ↦ none | some e ↦ extract_position_from_event e ]

  -- The batch is not empty: the caller returns early on an empty one.
  unfoldable pub process_batch : String → Surroundings → List (Event (js.Value)) → Action (Unit {0})
  unfolding in_transaction
  process_batch task_id env batch = elim (last_position batch) [
    | none ↦ pure tt
    | some position ↦ in_transaction task_id position env batch
  ]

  -- The vector of events after the run: it is cleared where the run returns Ok, and only there.
  abbrev pub batch_after :
      List (Event (js.Value)) → Outcome (Unit {0}) × Pipeline → List (Event (js.Value))
  batch_after batch (ok _, p) = []
  batch_after batch (err e, p) = batch
