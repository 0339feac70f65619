-- ===== src/Checkpoints/Flush.antt =====
-- src/checkpoint/manager.rs: a flush changes no reply.
use meilibridge.Prelude.{
  String, ◌≡◌, ◌≢◌, refl, sym, ◌∙◌, ap, false, none, some, List, [], ◌∷◌, filter, member, arith,
  string_eq, ◌==◌, if◌then◌else◌, Bool-cases, Option-cases, inl, inr, subst,
}
use meilibridge.Prelude.Map
use meilibridge.Prelude.Map.{Map, lookup-insert, lookup-remove, lookup-insert_ne, lookup-remove_ne}
use meilibridge.Prelude.Result.{ok, err}
use meilibridge.Models.{Checkpoint}
use meilibridge.Delivery.Error.{Outcome}
use meilibridge.Delivery.Storage.{CheckpointStorage, memory_storage, save, load, delete}
use meilibridge.Checkpoints.{CheckpointManager, note_failure, save_all, flush_pending, reply}

-- Every checkpoint stands under its task, once.
abbrev pub Keyed : Map String Checkpoint → Type 0
Keyed [] = Unit
Keyed ((k, c) ∷ m) = (c.task_id ≡ k) × ((Map.lookup k m ≡ none) × Keyed m)

pub insert-Keyed :
    (c : Checkpoint) (m : Map String Checkpoint) → Keyed m → Keyed (Map.insert c.task_id c m)
unfolding Map.insert Map.lookup
insert-Keyed c [] h = (refl, (refl, tt))
insert-Keyed c ((k, d) ∷ m) h = elim (Bool-cases (k == c.task_id)) [
  | inl e ↦ rw e (sym ((string_eq.eqb_iff k c.task_id).0 e), (h.1.0, h.1.1))
  | inr e ↦ rw e (
    h.0,
    (
      ground (
        arith,
        lookup-insert c.task_id k c m,
        e,
        h.1.0,
        string_eq.eqb_iff c.task_id k,
        string_eq.eqb_iff k c.task_id,
      ),
      insert-Keyed c m h.1.1,
    ),
  )
]

pub remove-Keyed : (t : String) (m : Map String Checkpoint) → Keyed m → Keyed (Map.remove t m)
unfolding Map.remove
remove-Keyed t [] h = tt
remove-Keyed t ((k, d) ∷ m) h = elim (Bool-cases (k == t)) [
  | inl e ↦ rw e (remove-Keyed t m h.1.1)
  | inr e ↦ rw e (h.0, (ground (arith, lookup-remove t k m, h.1.0), remove-Keyed t m h.1.1))
]

lookup-filter :
    (f : List String) (k : String) (m : Map String Checkpoint)
    → Map.lookup k (filter (λ e. member e.0 f) m) ≡ (if member k f then Map.lookup k m else none)
unfolding Map.lookup
lookup-filter f k [] = ground arith
lookup-filter f k ((j, c) ∷ m) = ground (arith, lookup-filter f k m, string_eq.eqb_iff j k)

pub filter-Keyed :
    (f : List String) (m : Map String Checkpoint) → Keyed m → Keyed (filter (λ e. member e.0 f) m)
filter-Keyed f [] h = tt
filter-Keyed f ((k, c) ∷ m) h = elim (Bool-cases (member k f)) [
  | inl e ↦ rw e (h.0, (ground (arith, lookup-filter f k m, h.1.0), filter-Keyed f m h.1.1))
  | inr e ↦ rw e (filter-Keyed f m h.1.1)
]

-- The laws of a store that keeps the tasks apart and whose deletions succeed.
pub record Separates (S : CheckpointStorage) : Type 0 where
  pub load-save_other :
      (s : S.Store) (c : Checkpoint) (k : String)
      → c.task_id ≢ k
      → S.load (S.save s c).1 k ≡ S.load s k
  pub load-delete_other :
      (s : S.Store) (t k : String) → t ≢ k → S.load (S.delete s t).1 k ≡ S.load s k
  pub deletes : (s : S.Store) (t : String) → (S.delete s t).0 ≡ ok tt

pair_path : {A B : Type 0} {a : A} {r : A × B} → r.0 ≡ a → r ≡ (a, r.1)
pair_path {A} {B} {a} {r} e = ap (λ x. (x, r.1)) e

module _ (S : CheckpointStorage) (apart : Separates S) where
  open S use {Store, save, load}

  store-note_failure :
      (c : Checkpoint) (o : Outcome (Unit {0})) (r : List String × Store)
      → (note_failure S c o r).1 ≡ r.1
  store-note_failure c (ok u) r = refl
  store-note_failure c (err e) r = refl

  save_all-others :
      (m : Map String Checkpoint) (s : Store) (k : String)
      → Keyed m
      → Map.lookup k m ≡ none
      → load (save_all S m s).1 k ≡ load s k
  unfolding save_all Map.lookup
  save_all-others [] s k h n = refl
  save_all-others ((j, c) ∷ m) s k h n =
      let other : c.task_id ≢ k = λ e. ground (arith, n, h.0, e, string_eq.eqb_iff j k) in
      ap (λ x. load x k) (store-note_failure c (save s c).0 (save_all S m (save s c).1))
      ∙ (save_all-others m (save s c).1 k h.1.1 (ground (arith, n))
          ∙ apart.load-save_other s c k other)

  -- A call whose task is not noted as failed did not fail.
  not_failed :
      (c : Checkpoint) (o : Outcome (Unit {0})) (r : List String × Store)
      → member c.task_id (note_failure S c o r).0 ≡ false
      → o ≡ ok tt
  not_failed c (ok u) r h = refl
  not_failed c (err e) r h = absurd (ground (arith, h, string_eq.eqb_iff c.task_id c.task_id))

  failed_before :
      (c : Checkpoint) (o : Outcome (Unit {0})) (r : List String × Store) (k : String)
      → member k (note_failure S c o r).0 ≡ false
      → member k r.0 ≡ false
  failed_before c (ok u) r k h = h
  failed_before c (err e) r k h = ground (arith, h)

  -- A checkpoint whose task is not noted as failed is in the store.
  save_all-saved :
      (m : Map String Checkpoint) (s : Store) (k : String) (c : Checkpoint)
      → Keyed m
      → Map.lookup k m ≡ some c
      → member k (save_all S m s).0 ≡ false
      → load (save_all S m s).1 k ≡ ok (some c)
  unfolding save_all Map.lookup
  save_all-saved [] s k c h e f = absurd (ground (arith, e))
  save_all-saved ((j, d) ∷ m) s k c h e f =
      let rest = save_all S m (save s d).1 in
      let same = ap (λ x. load x k) (store-note_failure d (save s d).0 rest) in
      elim (Bool-cases (j == k)) [
        | inl eq ↦
            let key : d.task_id ≡ k = h.0 ∙ (string_eq.eqb_iff j k).0 eq in
            let found : d ≡ c = ground (arith, e, eq) in
            let fine : (save s d).0 ≡ ok tt =
              not_failed d (save s d).0 rest (
                subst (λ x. member x (note_failure S d (save s d).0 rest).0 ≡ false) (sym key) f) in
            let stored : load (save s d).1 d.task_id ≡ ok (some d) =
              S.load-save s (save s d).1 d (pair_path fine) in
            same
            ∙ (save_all-others m (save s d).1 k h.1.1
                  (subst (λ x. Map.lookup x m ≡ none) ((string_eq.eqb_iff j k).0 eq) h.1.0)
                ∙ (ap (load (save s d).1) (sym key) ∙ (stored ∙ ap (λ x. ok (some x)) found)))
        | inr ne ↦
            same
            ∙ save_all-saved m (save s d).1 k c h.1.1 (ground (arith, e, ne))
                (failed_before d (save s d).0 rest k f)
      ]

  -- A flush, whichever of its saves fail, changes no reply to a load.
  pub reply-flush_pending :
      (m : CheckpointManager S) (k : String)
      → Keyed m.pending_checkpoints
      → reply S k (flush_pending S m) ≡ reply S k m
  unfolding reply flush_pending
  reply-flush_pending m k h =
      let ps = m.pending_checkpoints in
      let f = (save_all S ps m.storage).0 in
      let s = (save_all S ps m.storage).1 in
      elim (Option-cases (Map.lookup k ps)) [
        | inl gone ↦
            ground (arith, gone, lookup-filter f k ps, save_all-others ps m.storage k h gone)
        | inr (c, e) ↦ elim (Bool-cases (member k f)) [
          | inl bad ↦ ground (arith, e, bad, lookup-filter f k ps)
          | inr good ↦
              ground
                (arith, e, good, lookup-filter f k ps, save_all-saved ps m.storage k c h e good)
        ]
      ]

-- The store in memory keeps the tasks apart.
pub memory_storage-Separates : Separates memory_storage
unfolding save load delete
memory_storage-Separates = record {
  load-save_other = λ s c k n. ap ok (lookup-insert_ne c.task_id k c s n);
  load-delete_other = λ s t k n. ap ok (lookup-remove_ne t k s n);
  deletes = λ s t. refl;
}
