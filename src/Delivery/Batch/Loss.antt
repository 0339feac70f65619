-- ===== src/Delivery/Batch/Loss.antt =====
-- src/pipeline/orchestrator.rs: what deduplication does to a batch that comes again. A batch whose
-- write failed stays in the vector of events, and comes again with the next flush.
use meilibridge.Prelude.{
  ℕ, suc, ◌+◌, ◌≤◌, String, ◌≡◌, ◌≢◌, refl, ap, ◌∙◌, sym, true, List, [], ◌∷◌, arith, Bool-cases,
  Option-cases, inl, inr, ◌⊎◌, ◌⊎◌, length, All,
}
use meilibridge.Prelude.Result.{ok, err}
use meilibridge.Models.{Position, Event}
use meilibridge.Dedup.Key.{DeduplicationKey}
use meilibridge.Dedup.{EventDeduplicator}
use meilibridge.Dedup
use meilibridge.Dedup.Room.{add-Remembers}
use meilibridge.Delivery.Error.{Outcome}
use meilibridge.Delivery.Storage.{CheckpointStorage}
use meilibridge.Delivery.Manager.{AtLeastOnceManager}
use meilibridge.Delivery.Manager
use meilibridge.Delivery.Keys.{Json, create_dedup_key_from_event}
use meilibridge.Delivery.Batch.{
  Pipeline, Action, Surroundings, resume, begin_manager, begin_checkpoint, dedupe,
  filter_duplicates, send_kept, process_batch, last_position,
}
use meilibridge.Delivery.Batch.Keeps.{SameDedup, begin_transaction-SameDedup, send_kept-Keeps}

module _ (st : CheckpointStorage) (js : Json) where
  abbrev Batch : Type 0
  Batch = List (Event (js.Value))

  -- Every event of the batch counts as a duplicate.
  abbrev pub AllSeen : AtLeastOnceManager st → Batch → Type 0
  AllSeen m = All (λ e. Manager.is_duplicate st (create_dedup_key_from_event js e) m ≡ true)

  SameDedup-AllSeen :
      (m m' : AtLeastOnceManager st) (batch : Batch)
      → SameDedup st m m'
      → AllSeen m batch
      → AllSeen m' batch
  unfolding Manager.is_duplicate
  SameDedup-AllSeen m m' [] s a = tt
  SameDedup-AllSeen m m' (e ∷ es) s a =
      (ground (arith, a.0, s.deduplicator, s.config), SameDedup-AllSeen m m' es s a.1)

  dedupe-AllSeen :
      (m : AtLeastOnceManager st) (batch : Batch) → AllSeen m batch → dedupe st js m batch ≡ ([], m)
  unfolding dedupe
  dedupe-AllSeen m [] a = refl
  dedupe-AllSeen m (e ∷ es) a = rw (a.0, dedupe) (dedupe-AllSeen m es a.1)

  -- The rest of a run, once its transaction has begun.
  abbrev rest_of : String → String → Position → Surroundings → Batch → Action st js (Unit {0})
  rest_of task id position env batch p =
      resume st js (send_kept st js task id position env) (filter_duplicates st js batch p)

  quiet_rest :
      (task id : String) (position : Position) (env : Surroundings) (batch : Batch)
      (r : Outcome (Unit {0}) × Pipeline st js)
      → AllSeen r.1.manager batch
      → (resume st js (λ _. rest_of task id position env batch) r).1.sent ≡ r.1.sent
  unfolding filter_duplicates send_kept
  quiet_rest task id position env batch (err e, p) a = refl
  quiet_rest task id position env batch (ok u, p) a = rw (dedupe-AllSeen p.manager batch a)

  quiet_begun :
      (task : String) (position : Position) (env : Surroundings) (batch : Batch)
      (r : Outcome String × Pipeline st js)
      → AllSeen r.1.manager batch
      → (resume st js
          (λ id p.
            resume st js
              (λ _. rest_of task id position env batch)
              (begin_checkpoint st js id task position env p))
          r).1.sent
        ≡ r.1.sent
  unfolding begin_checkpoint
  quiet_begun task position env batch (err e, p) a = refl
  quiet_begun task position env batch (ok id, p) a =
      quiet_rest task id position env batch (begin_checkpoint st js id task position env p)
        (SameDedup-AllSeen p.manager _ batch (record { deduplicator = refl; config = refl }) a)

  -- A batch of which every event counts as a duplicate is not sent.
  process_batch-AllSeen :
      (task : String) (env : Surroundings) (batch : Batch) (p : Pipeline st js)
      → AllSeen p.manager batch
      → (process_batch st js task env batch p).1.sent ≡ p.sent
  unfolding process_batch begin_manager
  process_batch-AllSeen task env batch p a = elim (Option-cases (last_position st js batch)) [
    | inl e ↦ rw (e, process_batch)
    | inr (position, e) ↦
        rw (e, process_batch)
          (quiet_begun task position env batch (begin_manager st js task env p) (
            SameDedup-AllSeen p.manager _ batch
              (begin_transaction-SameDedup st task env.uuid env.now p.manager) a))
  ]

  -- What a pass of the filter leaves behind.
  record Marked (m : AtLeastOnceManager st) (batch : Batch) (m' : AtLeastOnceManager st)
      : Type 0 where
    old :
        (k : DeduplicationKey)
        → Manager.is_duplicate st k m ≡ true
        → Manager.is_duplicate st k m' ≡ true
    seen : AllSeen m' batch

  -- The window holds the batch.
  record Fits (m : AtLeastOnceManager st) (n : ℕ) : Type 0 where
    enabled : m.config.enabled ≡ true
    room : length m.deduplicator.key_queue + n ≤ m.deduplicator.window_size

  mark_enabled :
      (m : AtLeastOnceManager st) (k : DeduplicationKey)
      → m.config.enabled ≡ true
      → Manager.mark_processed st k m ≡ record m { deduplicator = Dedup.add m.deduplicator k }
  unfolding Manager.mark_processed
  mark_enabled m k e = simp e

  seen_enabled :
      (m : AtLeastOnceManager st) (k : DeduplicationKey)
      → m.config.enabled ≡ true
      → Manager.is_duplicate st k m ≡ Dedup.contains m.deduplicator k
  unfolding Manager.is_duplicate
  seen_enabled m k e = simp e

  mark-Fits :
      (m : AtLeastOnceManager st) (k : DeduplicationKey) (n : ℕ)
      → Fits m (suc n)
      → Fits (Manager.mark_processed st k m) n
  mark-Fits m k n f =
      let r = add-Remembers m.deduplicator k (omega (arith, f.room)) in
      rw (mark_enabled m k f.enabled)
        (record { enabled = f.enabled; room = rw r.window (omega (arith, f.room, r.queue)) })

  mark-old :
      (m : AtLeastOnceManager st) (k j : DeduplicationKey) (n : ℕ)
      → Fits m (suc n)
      → Manager.is_duplicate st j m ≡ true
      → Manager.is_duplicate st j (Manager.mark_processed st k m) ≡ true
  mark-old m k j n f h =
      let r = add-Remembers m.deduplicator k (omega (arith, f.room)) in
      rw (mark_enabled m k f.enabled)
        (seen_enabled _ j f.enabled ∙ r.old j (sym (seen_enabled m j f.enabled) ∙ h))

  mark-new :
      (m : AtLeastOnceManager st) (k : DeduplicationKey) (n : ℕ)
      → Fits m (suc n)
      → Manager.is_duplicate st k (Manager.mark_processed st k m) ≡ true
  mark-new m k n f =
      let r = add-Remembers m.deduplicator k (omega (arith, f.room)) in
      rw (mark_enabled m k f.enabled) (seen_enabled _ k f.enabled ∙ r.new)

  dedupe-Marked :
      (m : AtLeastOnceManager st) (batch : Batch)
      → Fits m (length batch)
      → Marked m batch (dedupe st js m batch).1
  unfolding dedupe
  dedupe-Marked m [] f = record { old = λ k h. h; seen = tt }
  dedupe-Marked m (e ∷ es) f =
      let k = create_dedup_key_from_event js e in
      elim (Bool-cases (Manager.is_duplicate st k m)) [
        | inl dup ↦
            let ih =
              dedupe-Marked m es (record { enabled = f.enabled; room = omega (arith, f.room) }) in
            rw (dup, dedupe) (record { old = ih.old; seen = (ih.old k dup, ih.seen) })
        | inr new ↦
            let ih =
              dedupe-Marked (Manager.mark_processed st k m) es (mark-Fits m k (length es) f) in
            rw (new, dedupe)
              (record {
                old = λ j h. ih.old j (mark-old m k j (length es) f h);
                seen = (ih.old k (mark-new m k (length es) f), ih.seen);
              })
      ]

  SameDedup-Fits : (m m' : AtLeastOnceManager st) (n : ℕ) → SameDedup st m m' → Fits m n → Fits m' n
  SameDedup-Fits m m' n s f = record {
    enabled = ap (λ c. c.enabled) s.config ∙ f.enabled;
    room = rw s.deduplicator f.room;
  }

  -- Whether the run handed nothing to the destination, or the batch counts as processed after it.
  SentOrSeen : List Batch → Batch → Pipeline st js → Type 0
  SentOrSeen sent batch p = p.sent ≡ sent ⊎ AllSeen p.manager batch

  loud_rest :
      (task id : String) (position : Position) (env : Surroundings) (batch : Batch)
      (r : Outcome (Unit {0}) × Pipeline st js)
      → Fits r.1.manager (length batch)
      → SentOrSeen r.1.sent batch (resume st js (λ _. rest_of task id position env batch) r).1
  unfolding filter_duplicates SentOrSeen
  loud_rest task id position env batch (err e, p) f = inl refl
  loud_rest task id position env batch (ok u, p) f =
      let m = (dedupe st js p.manager batch).1 in
      let kept = (dedupe st js p.manager batch).0 in
      let same =
        (send_kept-Keeps st js m task id position env kept).at (record p { manager = m })
          (record { deduplicator = refl; config = refl }) in
      inr (SameDedup-AllSeen m _ batch same (dedupe-Marked p.manager batch f).seen)

  loud_begun :
      (task : String) (position : Position) (env : Surroundings) (batch : Batch)
      (r : Outcome String × Pipeline st js)
      → Fits r.1.manager (length batch)
      → SentOrSeen r.1.sent batch
          (resume st js
            (λ id p.
              resume st js
                (λ _. rest_of task id position env batch)
                (begin_checkpoint st js id task position env p))
            r).1
  unfolding begin_checkpoint SentOrSeen
  loud_begun task position env batch (err e, p) f = inl refl
  loud_begun task position env batch (ok id, p) f =
      loud_rest task id position env batch (begin_checkpoint st js id task position env p) (
        SameDedup-Fits p.manager _ (length batch) (record { deduplicator = refl; config = refl }) f)

  process_batch-SentOrSeen :
      (task : String) (env : Surroundings) (batch : Batch) (p : Pipeline st js)
      → Fits p.manager (length batch)
      → SentOrSeen p.sent batch (process_batch st js task env batch p).1
  unfolding process_batch begin_manager SentOrSeen
  process_batch-SentOrSeen task env batch p f = elim (Option-cases (last_position st js batch)) [
    | inl e ↦ rw (e, process_batch) (inl refl)
    | inr (position, e) ↦
        rw (e, process_batch)
          (loud_begun task position env batch (begin_manager st js task env p) (
            SameDedup-Fits p.manager _ (length batch)
              (begin_transaction-SameDedup st task env.uuid env.now p.manager) f))
  ]

  -- With deduplication on and room for the batch in the deduplication window: once a run has handed
  -- events of a batch to the destination, whatever the outcome, a later run of the same batch on
  -- the pipeline which that run left hands nothing to the destination.
  pub never_resent :
      (task : String) (env env' : Surroundings) (batch : Batch) (p : Pipeline st js)
      → p.manager.config.enabled ≡ true
      → length p.manager.deduplicator.key_queue + length batch ≤ p.manager.deduplicator.window_size
      → (process_batch st js task env batch p).1.sent ≢ p.sent
      → (process_batch st js task env' batch (process_batch st js task env batch p).1).1.sent
        ≡ (process_batch st js task env batch p).1.sent
  unfolding SentOrSeen
  never_resent task env env' batch p enabled room fresh =
      elim (process_batch-SentOrSeen task env batch p (record { enabled = enabled; room = room })) [
        | inl same ↦ elim (fresh same) [ ]
        | inr seen ↦
            process_batch-AllSeen task env' batch (process_batch st js task env batch p).1 seen
      ]
