-- ===== src/Delivery/Batch/Keeps.antt =====
-- src/pipeline/orchestrator.rs: what the steps of a batch leave alone, one rule for each step.
use meilibridge.Prelude.{
  ℕ, String, ◌≡◌, ◌∙◌, Bool, true, false, List, [], ◌∷◌, arith, Bool-cases, inl, inr, if◌then◌else◌,
  nat_eqb,
}
use meilibridge.Prelude.Result.{ok, err}
use meilibridge.Models.{Position, Event}
use meilibridge.Delivery.Error.{
  MeiliBridgeError, Outcome, batch_failed, prepare_failed, no_response, send_failed,
}
use meilibridge.Delivery.Storage.{CheckpointStorage}
use meilibridge.Delivery.Manager.{AtLeastOnceManager, AtLeastOnceConfig}
use meilibridge.Delivery.Manager
use meilibridge.Delivery.Keys.{Json}
use meilibridge.Delivery.Batch.{
  Pipeline, Action, Surroundings, DestinationResponse, Reply, responded, failed, silent, unsent,
  pure, raise, resume, prepare_checkpoint, commit_checkpoint, commit_manager, rollback_checkpoint,
  rollback_manager, rollback_both, set_position, record_sent, add_failed_events, finish, deliver,
  send_kept,
}

module _ (st : CheckpointStorage) where
  -- The deduplicator and the configuration of a manager.
  pub record SameDedup (m m' : AtLeastOnceManager st) : Type 0 where
    pub deduplicator : m'.deduplicator ≡ m.deduplicator
    pub config : m'.config ≡ m.config

  pub begin_transaction-SameDedup :
      (task uuid : String) (now : ℕ) (m : AtLeastOnceManager st)
      → SameDedup m (Manager.begin_transaction st task uuid now m).1
  unfolding Manager.begin_transaction
  begin_transaction-SameDedup task uuid now m = ground arith

  commit-SameDedup :
      (id : String) (now : ℕ) (m : AtLeastOnceManager st)
      → SameDedup m (Manager.commit st id now m).1
  unfolding Manager.commit
  commit-SameDedup id now m = ground arith

  rollback-SameDedup :
      (id : String) (m : AtLeastOnceManager st) → SameDedup m (Manager.rollback st id m).1
  unfolding Manager.rollback
  rollback-SameDedup id m = ground arith

module _ (st : CheckpointStorage) (js : Json) (m : AtLeastOnceManager st) where
  -- An action that leaves the deduplicator of `m` as it is, however it ends.
  pub record Keeps (A : Type 0) (action : Action st js A) : Type 0 where
    pub at : (p : Pipeline st js) → SameDedup st m p.manager → SameDedup st m (action p).1.manager

  trans-SameDedup :
      (m₁ m₂ : AtLeastOnceManager st) → SameDedup st m m₁ → SameDedup st m₁ m₂ → SameDedup st m m₂
  trans-SameDedup m₁ m₂ h k = record {
    deduplicator = k.deduplicator ∙ h.deduplicator;
    config = k.config ∙ h.config;
  }

  pub pure-Keeps : (A : Type 0) (a : A) → Keeps A (pure st js a)
  pure-Keeps A a = record { at = λ p h. h }

  pub raise-Keeps : (A : Type 0) (e : MeiliBridgeError) → Keeps A (raise st js e)
  raise-Keeps A e = record { at = λ p h. h }

  resume-SameDedup :
      (A B : Type 0) (f : A → Action st js B)
      → ((a : A) → Keeps B (f a))
      → (r : Outcome A × Pipeline st js) → SameDedup st m r.1.manager
      → SameDedup st m (resume st js f r).1.manager
  resume-SameDedup A B f k (ok a, p) h = (k a).at p h
  resume-SameDedup A B f k (err e, p) h = h

  pub bind-Keeps :
      (A B : Type 0) (action : Action st js A) (f : A → Action st js B)
      → Keeps A action
      → ((a : A) → Keeps B (f a))
      → Keeps B (λ p. resume st js f (action p))
  bind-Keeps A B action f ka kf = record {
    at = λ p h. resume-SameDedup A B f kf (action p) (ka.at p h);
  }

  prepare_checkpoint-Keeps :
      (id : String) (env : Surroundings) → Keeps Bool (prepare_checkpoint st js id env)
  unfolding prepare_checkpoint
  prepare_checkpoint-Keeps id env = record {
    at = λ p h. record { deduplicator = h.deduplicator; config = h.config };
  }

  commit_checkpoint-Keeps :
      (id : String) (env : Surroundings) → Keeps (Unit {0}) (commit_checkpoint st js id env)
  unfolding commit_checkpoint
  commit_checkpoint-Keeps id env = record {
    at = λ p h. record { deduplicator = h.deduplicator; config = h.config };
  }

  rollback_checkpoint-Keeps : (id : String) → Keeps (Unit {0}) (rollback_checkpoint st js id)
  unfolding rollback_checkpoint
  rollback_checkpoint-Keeps id = record {
    at = λ p h. record { deduplicator = h.deduplicator; config = h.config };
  }

  commit_manager-Keeps :
      (id : String) (env : Surroundings) → Keeps (Unit {0}) (commit_manager st js id env)
  unfolding commit_manager
  commit_manager-Keeps id env = record {
    at = λ p h. trans-SameDedup p.manager _ h (commit-SameDedup st id env.now p.manager);
  }

  rollback_manager-Keeps : (id : String) → Keeps (Unit {0}) (rollback_manager st js id)
  unfolding rollback_manager
  rollback_manager-Keeps id = record {
    at = λ p h. trans-SameDedup p.manager _ h (rollback-SameDedup st id p.manager);
  }

  set_position-Keeps :
      (task : String) (position : Position) → Keeps (Unit {0}) (set_position st js task position)
  unfolding set_position
  set_position-Keeps task position = record { at = λ p h. h }

  record_sent-Keeps : (batch : List (Event (js.Value))) → Keeps (Unit {0}) (record_sent st js batch)
  unfolding record_sent
  record_sent-Keeps batch = record { at = λ p h. h }

  add_failed_events-Keeps :
      (task : String) (batch : List (Event (js.Value))) (errors : List String)
      → Keeps (Unit {0}) (add_failed_events st js task batch errors)
  unfolding add_failed_events
  add_failed_events-Keeps task batch errors = record {
    at = λ p h. elim (Bool-cases p.has_dlq) [ inl e ↦ rw e h | inr e ↦ rw e h ];
  }

  rollback_both-Keeps : (id : String) → Keeps (Unit {0}) (rollback_both st js id)
  unfolding rollback_both
  rollback_both-Keeps id =
      bind-Keeps _ _ _ _ (rollback_checkpoint-Keeps id) (λ _. rollback_manager-Keeps id)

  if-Keeps :
      (A : Type 0) (b : Bool) (x y : Action st js A)
      → Keeps A x
      → Keeps A y
      → Keeps A (if b then x else y)
  if-Keeps A true x y kx ky = kx
  if-Keeps A false x y kx ky = ky

  finish-Keeps :
      (task id : String) (position : Position) (kept : List (Event (js.Value))) (env : Surroundings)
      (response : DestinationResponse)
      → Keeps (Unit {0}) (finish st js task id position kept env response)
  unfolding finish
  finish-Keeps task id position kept env response =
      if-Keeps _ (nat_eqb response.failed_count 0) _ _
        (bind-Keeps _ _ _ _ (commit_checkpoint-Keeps id env) (λ _.
          bind-Keeps _ _ _ _ (commit_manager-Keeps id env) (λ _. set_position-Keeps task position)))
        (bind-Keeps _ _ _ _ (rollback_both-Keeps id) (λ _.
          bind-Keeps _ _ _ _ (add_failed_events-Keeps task kept response.errors)
            (λ _. raise-Keeps _ (batch_failed response.failed_count))))

  deliver-Keeps :
      (task id : String) (position : Position) (kept : List (Event (js.Value))) (env : Surroundings)
      (reply : Reply)
      → Keeps (Unit {0}) (deliver st js task id position kept env reply)
  unfolding deliver
  deliver-Keeps task id position kept env (responded response) =
      bind-Keeps _ _ _ _ (record_sent-Keeps kept)
        (λ _. finish-Keeps task id position kept env response)
  deliver-Keeps task id position kept env (failed e) =
      bind-Keeps _ _ _ _ (record_sent-Keeps kept)
        (λ _. bind-Keeps _ _ _ _ (rollback_both-Keeps id) (λ _. raise-Keeps _ e))
  deliver-Keeps task id position kept env silent =
      bind-Keeps _ _ _ _ (record_sent-Keeps kept)
        (λ _. bind-Keeps _ _ _ _ (rollback_both-Keeps id) (λ _. raise-Keeps _ no_response))
  deliver-Keeps task id position kept env (unsent e) =
      bind-Keeps _ _ _ _ (rollback_both-Keeps id) (λ _. raise-Keeps _ send_failed)

  pub send_kept-Keeps :
      (task id : String) (position : Position) (env : Surroundings) (kept : List (Event (js.Value)))
      → Keeps (Unit {0}) (send_kept st js task id position env kept)
  unfolding send_kept
  send_kept-Keeps task id position env [] = pure-Keeps _ _
  send_kept-Keeps task id position env (e ∷ es) =
      bind-Keeps _ _ _ _ (prepare_checkpoint-Keeps id env) (λ prepared.
        if-Keeps _ prepared _ _ (deliver-Keeps task id position (e ∷ es) env env.reply)
          (bind-Keeps _ _ _ _ (rollback_manager-Keeps id) (λ _. raise-Keeps _ prepare_failed)))
