-- ===== src/Delivery/Batch/Success.antt =====
-- src/pipeline/orchestrator.rs with src/delivery/transaction.rs: how a batch ends under two-phase
-- commit. The loop prepares the checkpoint itself and never asks the coordinator for its vote.
use meilibridge.Prelude.{
  ℕ, String, ◌≡◌, refl, Bool, true, false, some, List, [], ◌∷◌, arith, Bool-cases, Option-cases,
  inl, inr, ◌⊎◌, if◌then◌else◌, nat_eqb, string_eq,
}
use meilibridge.Prelude.Map
use meilibridge.Prelude.Map.{lookup-insert_self}
use meilibridge.Prelude.Result.{ok, err}
use meilibridge.Models.{Position, Event}
use meilibridge.Delivery.Error.{MeiliBridgeError, Outcome, started, batch_failed, prepare_failed}
use meilibridge.Delivery.Storage.{CheckpointStorage}
use meilibridge.Delivery.TwoPhase
use meilibridge.Delivery.TwoPhase.{TwoPhaseCommit}
use meilibridge.Delivery.TwoPhase.States.{state_of}
use meilibridge.Delivery.Coordinator
use meilibridge.Delivery.Coordinator.{Coordinator, transaction_id_of}
use meilibridge.Delivery.Manager.{AtLeastOnceManager}
use meilibridge.Delivery.Manager
use meilibridge.Dedup.Key.{DeduplicationKey}
use meilibridge.Delivery.Keys.{Json, create_dedup_key_from_event}
use meilibridge.Delivery.Batch.{
  Pipeline, Action, Surroundings, DestinationResponse, Reply, responded, failed, silent, unsent,
  raise, resume, begin_manager, begin_checkpoint, prepare_checkpoint, commit_checkpoint,
  commit_manager, rollback_checkpoint, rollback_manager, rollback_both, set_position, record_sent,
  add_failed_events, finish, deliver, send_kept, dedupe, filter_duplicates, process_batch,
  last_position,
}

abbrev pub is_ok : {A : Type 0} → Outcome A → Bool
is_ok (ok _) = true
is_ok (err _) = false

-- The transaction has begun at the coordinator, and has not been prepared there.
record Unprepared (st : CheckpointStorage) (id : String) (m : AtLeastOnceManager st) : Type 0 where
  two_phase : m.config.two_phase_commit ≡ true
  begun : state_of id m.coordinator.two_phase ≡ some started

two_phase-commit_fails :
    (id : String) (c : TwoPhaseCommit)
    → state_of id c ≡ some started
    → is_ok (TwoPhase.commit id c).0 ≡ false
unfolding TwoPhase.commit
two_phase-commit_fails id c h = ground arith

module _ (st : CheckpointStorage) where
  coordinator-commit_fails :
      (id : String) (now : ℕ) (c : Coordinator st)
      → state_of id c.two_phase ≡ some started
      → is_ok (Coordinator.commit st id now c).0 ≡ false
  unfolding Coordinator.commit
  coordinator-commit_fails id now c h = ground (arith, two_phase-commit_fails id c.two_phase h)

  manager-commit_fails :
      (id : String) (now : ℕ) (m : AtLeastOnceManager st)
      → Unprepared st id m
      → is_ok (Manager.commit st id now m).0 ≡ false
  unfolding Manager.commit
  manager-commit_fails id now m u =
      simp u.two_phase (coordinator-commit_fails id now m.coordinator u.begun)

module _ (st : CheckpointStorage) (js : Json) where
  abbrev State : Type 0
  State = Pipeline st js

  -- The run ended with an error and advanced no task's position.
  record Fails (p : State) (r : Outcome (Unit {0}) × State) : Type 0 where
    fails : is_ok r.0 ≡ false
    position : r.1.checkpoints ≡ p.checkpoints

  -- The run advanced no task's position, and handed nothing to the destination if it ended well.
  record Stuck (p : State) (r : Outcome (Unit {0}) × State) : Type 0 where
    position : r.1.checkpoints ≡ p.checkpoints
    ended : (r.1.sent ≡ p.sent) ⊎ (is_ok r.0 ≡ false)

  -- No task's position changes from `p`, however the step ends.
  Still : {A : Type 0} → State → Outcome A × State → Type 0
  Still p r = r.1.checkpoints ≡ p.checkpoints

  resume-Still :
      {A B : Type 0} (p : State) (f : A → Action st js B) (r : Outcome A × State)
      → ((a : A) (q : State) → q.checkpoints ≡ p.checkpoints → Still p (f a q))
      → Still p r
      → Still p (resume st js f r)
  unfolding Still
  resume-Still p f (ok a, q) k h = k a q h
  resume-Still p f (err e, q) k h = h

  resume-Fails :
      {A : Type 0} (p : State) (f : A → Action st js (Unit {0})) (r : Outcome A × State)
      → ((a : A) (q : State) → q.checkpoints ≡ p.checkpoints → Fails p (f a q))
      → Still p r
      → Fails p (resume st js f r)
  unfolding Still
  resume-Fails p f (ok a, q) k h = k a q h
  resume-Fails p f (err e, q) k h = record { fails = refl; position = h }

  rollback_both-Still :
      (id : String) (p q : State)
      → q.checkpoints ≡ p.checkpoints
      → Still p (rollback_both st js id q)
  unfolding rollback_both rollback_checkpoint rollback_manager Still
  rollback_both-Still id p q h =
      resume-Still p (λ _. rollback_manager st js id) (rollback_checkpoint st js id q)
        (λ _ _ h'. h') h

  -- The manager's commit fails, so nothing comes after it.
  commit_manager-Fails :
      (task id : String) (position : Position) (env : Surroundings) (p q : State)
      (r : Outcome (Unit {0}) × AtLeastOnceManager st)
      → q.checkpoints ≡ p.checkpoints
      → is_ok r.0 ≡ false
      → Fails p
          (resume st js (λ _. set_position st js task position) (r.0, record q { manager = r.1 }))
  commit_manager-Fails task id position env p q (ok u, m) h bad = ground arith
  commit_manager-Fails task id position env p q (err e, m) h bad = record {
    fails = refl;
    position = h;
  }

  commit_both-Fails :
      (task id : String) (position : Position) (env : Surroundings) (p : State)
      (r : Outcome (Unit {0}) × State)
      → r.1.checkpoints ≡ p.checkpoints
      → Unprepared st id r.1.manager
      → Fails p (
          resume st js
            (λ _ q.
              resume st js (λ _. set_position st js task position) (commit_manager st js id env q))
            r)
  unfolding commit_manager
  commit_both-Fails task id position env p (err e, q) h u = record { fails = refl; position = h }
  commit_both-Fails task id position env p (ok _, q) h u =
      commit_manager-Fails task id position env p q (Manager.commit st id env.now q.manager) h
        (manager-commit_fails st id env.now q.manager u)

  add_failed_events-Still :
      (task : String) (kept : List (Event (js.Value))) (errors : List String) (p q : State)
      → q.checkpoints ≡ p.checkpoints
      → Still p (add_failed_events st js task kept errors q)
  unfolding add_failed_events Still
  add_failed_events-Still task kept errors p q h = elim (Bool-cases q.has_dlq) [
    | inl e ↦ simp e h
    | inr e ↦ simp e h
  ]

  if-Fails :
      (p q : State) (b : Bool) (x y : Action st js (Unit {0}))
      → Fails p (x q)
      → Fails p (y q)
      → Fails p ((if b then x else y) q)
  if-Fails p q true x y fx fy = fx
  if-Fails p q false x y fx fy = fy

  finish-Fails :
      (task id : String) (position : Position) (kept : List (Event (js.Value))) (env : Surroundings)
      (response : DestinationResponse) (p q : State)
      → q.checkpoints ≡ p.checkpoints
      → Unprepared st id q.manager
      → Fails p (finish st js task id position kept env response q)
  unfolding finish commit_checkpoint
  finish-Fails task id position kept env response p q h u =
      if-Fails p q (nat_eqb response.failed_count 0) _ _
        (commit_both-Fails task id position env p (commit_checkpoint st js id env q) h
          (record { two_phase = u.two_phase; begun = u.begun }))
        (resume-Fails p _ (rollback_both st js id q)
          (λ _ q' h'.
            resume-Fails p (λ _. raise st js (batch_failed response.failed_count))
              (add_failed_events st js task kept response.errors q')
              (λ _ _ h''. record { fails = refl; position = h'' })
              (add_failed_events-Still task kept response.errors p q' h'))
          (rollback_both-Still id p q h))

  abort-Fails :
      (id : String) (e : MeiliBridgeError) (p q : State)
      → q.checkpoints ≡ p.checkpoints
      → Fails p (resume st js (λ _. raise st js e) (rollback_both st js id q))
  abort-Fails id e p q h =
      resume-Fails p (λ _. raise st js e) (rollback_both st js id q)
        (λ _ _ h'. record { fails = refl; position = h' }) (rollback_both-Still id p q h)

  deliver-Fails :
      (task id : String) (position : Position) (kept : List (Event (js.Value))) (env : Surroundings)
      (reply : Reply) (p q : State)
      → q.checkpoints ≡ p.checkpoints
      → Unprepared st id q.manager
      → Fails p (deliver st js task id position kept env reply q)
  unfolding deliver record_sent
  deliver-Fails task id position kept env (responded response) p q h u =
      finish-Fails task id position kept env response p _ h
        (record { two_phase = u.two_phase; begun = u.begun })
  deliver-Fails task id position kept env (failed e) p q h u = abort-Fails id e p _ h
  deliver-Fails task id position kept env silent p q h u = abort-Fails id _ p _ h
  deliver-Fails task id position kept env (unsent e) p q h u = abort-Fails id _ p _ h

  Fails-Stuck : (p : State) (r : Outcome (Unit {0}) × State) → Fails p r → Stuck p r
  Fails-Stuck p r f = record { position = f.position; ended = inr f.fails }

  prepared_or_not-Fails :
      (task id : String) (position : Position) (env : Surroundings) (kept : List (Event (js.Value)))
      (p : State) (r : Outcome Bool × State)
      → r.1.checkpoints ≡ p.checkpoints
      → Unprepared st id r.1.manager
      → Fails p (
          resume st js
            (λ prepared.
              if prepared then deliver st js task id position kept env env.reply else (λ q.
                resume st js (λ _. raise st js prepare_failed) (rollback_manager st js id q)))
            r)
  unfolding rollback_manager Still
  prepared_or_not-Fails task id position env kept p (err x, q) h u = record {
    fails = refl;
    position = h;
  }
  prepared_or_not-Fails task id position env kept p (ok true, q) h u =
      deliver-Fails task id position kept env env.reply p q h u
  prepared_or_not-Fails task id position env kept p (ok false, q) h u =
      resume-Fails p (λ _. raise st js prepare_failed) (rollback_manager st js id q)
        (λ _ _ h'. record { fails = refl; position = h' }) h

  send_kept-Stuck :
      (task id : String) (position : Position) (env : Surroundings) (kept : List (Event (js.Value)))
      (p q : State)
      → q.checkpoints ≡ p.checkpoints
      → q.sent ≡ p.sent
      → Unprepared st id q.manager
      → Stuck p (send_kept st js task id position env kept q)
  unfolding send_kept prepare_checkpoint
  send_kept-Stuck task id position env [] p q h s u = record { position = h; ended = inl s }
  send_kept-Stuck task id position env (e ∷ es) p q h s u = Fails-Stuck p _ (
      prepared_or_not-Fails task id position env (e ∷ es) p (prepare_checkpoint st js id env q) h
        (record { two_phase = u.two_phase; begun = u.begun }))

  mark_processed-Unprepared :
      (id : String) (m : AtLeastOnceManager st) (k : DeduplicationKey)
      → Unprepared st id m
      → Unprepared st id (Manager.mark_processed st k m)
  unfolding Manager.mark_processed
  mark_processed-Unprepared id m k u = elim (Bool-cases m.config.enabled) [
    | inl e ↦ simp e (record { two_phase = u.two_phase; begun = u.begun })
    | inr e ↦ simp e u
  ]

  dedupe-Unprepared :
      (id : String) (batch : List (Event (js.Value))) (m : AtLeastOnceManager st)
      → Unprepared st id m
      → Unprepared st id (dedupe st js m batch).1
  unfolding dedupe
  dedupe-Unprepared id [] m u = u
  dedupe-Unprepared id (e ∷ es) m u =
      let k = create_dedup_key_from_event js e in
      elim (Bool-cases (Manager.is_duplicate st k m)) [
        | inl old ↦ rw (old, dedupe) (dedupe-Unprepared id es m u)
        | inr new ↦
            rw (new, dedupe)
              (dedupe-Unprepared id es (Manager.mark_processed st k m)
                (mark_processed-Unprepared id m k u))
      ]

  coordinator_begin-started :
      (task uuid id : String) (now : ℕ) (c : Coordinator st)
      → (Coordinator.begin st task uuid now c).0 ≡ ok id
      → state_of id (Coordinator.begin st task uuid now c).1.two_phase ≡ some started
  unfolding Coordinator.begin TwoPhase.begin
  coordinator_begin-started task uuid id now c h =
      let x = transaction_id_of task uuid in
      elim (Bool-cases (Map.contains x c.two_phase.transactions)) [
        | inl old ↦ ground arith
        | inr new ↦ ground (
          arith,
          lookup-insert_self x (TwoPhase.new_transaction x task now) c.two_phase.transactions,
        )
      ]

  begin-Unprepared :
      (task uuid id : String) (now : ℕ) (m : AtLeastOnceManager st)
      → m.config.two_phase_commit ≡ true
      → (Manager.begin_transaction st task uuid now m).0 ≡ ok id
      → Unprepared st id (Manager.begin_transaction st task uuid now m).1
  unfolding Manager.begin_transaction
  begin-Unprepared task uuid id now m on h =
      let begun =
        coordinator_begin-started task uuid id now m.coordinator (ground (arith, h, on)) in
      simp on (record { two_phase = on; begun = begun })

  checkpoint_begun-Stuck :
      (task id : String) (position : Position) (env : Surroundings)
      (batch : List (Event (js.Value))) (p q : State) (r : Outcome (Unit {0}))
      → q.checkpoints ≡ p.checkpoints
      → q.sent ≡ p.sent
      → Unprepared st id q.manager
      → Stuck p (
          resume st js
            (λ _ q'.
              resume st js
                (send_kept st js task id position env)
                (filter_duplicates st js batch q'))
            (r, q))
  unfolding filter_duplicates
  checkpoint_begun-Stuck task id position env batch p q (err e) h s u = record {
    position = h;
    ended = inl s;
  }
  checkpoint_begun-Stuck task id position env batch p q (ok _) h s u =
      send_kept-Stuck task id position env _ p _ h s (dedupe-Unprepared id batch q.manager u)

  run_begun-Stuck :
      (task : String) (position : Position) (env : Surroundings) (batch : List (Event (js.Value)))
      (p : State) (r : Outcome String × AtLeastOnceManager st)
      → ((id : String) → r.0 ≡ ok id → Unprepared st id r.1)
      → Stuck p (
          resume st js
            (λ id q.
              resume st js
                (λ _ q'.
                  resume st js
                    (send_kept st js task id position env)
                    (filter_duplicates st js batch q'))
                (begin_checkpoint st js id task position env q))
            (r.0, record p { manager = r.1 }))
  unfolding begin_checkpoint
  run_begun-Stuck task position env batch p (err e, m) u = record {
    position = refl;
    ended = inl refl;
  }
  run_begun-Stuck task position env batch p (ok id, m) u =
      checkpoint_begun-Stuck task id position env batch p _ _ refl refl
        (record { two_phase = (u id refl).two_phase; begun = (u id refl).begun })

  run-Stuck :
      (task : String) (env : Surroundings) (batch : List (Event (js.Value))) (p : State)
      → p.manager.config.two_phase_commit ≡ true
      → Stuck p (process_batch st js task env batch p)
  unfolding process_batch begin_manager
  run-Stuck task env batch p on = elim (Option-cases (last_position st js batch)) [
    | inl e ↦ rw (e, process_batch) (record { position = refl; ended = inl refl })
    | inr (position, e) ↦
        rw (e, process_batch)
          (run_begun-Stuck task position env batch p
            (Manager.begin_transaction st task env.uuid env.now p.manager)
            (λ id h. begin-Unprepared task env.uuid id env.now p.manager on h))
  ]

  -- With two-phase commit on, a run of a batch never advances a task's position, and it has handed
  -- nothing to the destination or it ends in an error, whatever the destination answers.
  pub sent_batch_fails :
      (task : String) (env : Surroundings) (batch : List (Event (js.Value))) (p : State)
      → p.manager.config.two_phase_commit ≡ true
      → let r = process_batch st js task env batch p in
        (r.1.checkpoints ≡ p.checkpoints) × ((r.1.sent ≡ p.sent) ⊎ (is_ok r.0 ≡ false))
  sent_batch_fails task env batch p on =
      let stuck = run-Stuck task env batch p on in (stuck.position, stuck.ended)
