-- ===== src/DeadLetter/Bounded.antt =====
-- src/recovery/dead_letter.rs: what the bounded store holds after some entries.
use mathlib.Core.List.{append_assoc, append-nil}
use meilibridge.Prelude.{
  ℕ, zero, suc, ◌-◌, ◌≤◌, ◌<◌, ◌≡◌, refl, sym, ◌∙◌, ap, none, some, List, [], ◌∷◌, ◌++◌, length,
  length-append, drop, length-drop, leb, arith, Bool-cases, leb→le, inl, inr,
}
use meilibridge.DeadLetter.{
  DeadLetterEntry, MemoryDeadLetterStorage, new, pop_front, evict, store, process_entries,
}

-- The last n elements.
abbrev pub last {ℓ} : {A : Type ℓ} → ℕ → List A → List A
last n es = drop (length es - n) es

last-all {ℓ} : {A : Type ℓ} (n : ℕ) (es : List A) → length es ≤ n → last n es ≡ es
last-all n es h =
    let none_dropped : length es - n ≡ 0 = omega (arith, h) in ap (λ k. drop k es) none_dropped

module _ {E V : Type 0} where
  drop-append_one :
      (k : ℕ) (es : List (DeadLetterEntry E V)) (e : DeadLetterEntry E V)
      → k ≤ length es
      → drop k (es ++ e ∷ []) ≡ drop k es ++ e ∷ []
  drop-append_one zero es e h = refl
  drop-append_one (suc k) [] e h = absurd (omega arith)
  drop-append_one (suc k) (x ∷ es) e h = drop-append_one k es e (omega arith)

  pop_front-drop :
      (k : ℕ) (es : List (DeadLetterEntry E V)) → pop_front (drop k es) ≡ drop (suc k) es
  pop_front-drop zero [] = refl
  pop_front-drop zero (e ∷ es) = refl
  pop_front-drop (suc k) [] = refl
  pop_front-drop (suc k) (e ∷ es) = pop_front-drop k es

  evict-room :
      (fuel max : ℕ) (es : List (DeadLetterEntry E V))
      → length es < max
      → evict (suc fuel) max es ≡ some es
  unfolding evict
  evict-room fuel max es h = ground (arith, h)

  evict-full :
      (fuel max : ℕ) (es : List (DeadLetterEntry E V))
      → length es ≡ max
      → 0 < max
      → evict (suc (suc fuel)) max es ≡ some (pop_front es)
  unfolding evict
  evict-full fuel max [] h k = absurd (omega arith)
  evict-full fuel max (e ∷ es) h k = ground (arith, h)

  -- With room for no entry, the loop over the evictions never ends.
  evict-never : (fuel : ℕ) (es : List (DeadLetterEntry E V)) → evict fuel 0 es ≡ none
  unfolding evict
  evict-never zero es = refl
  evict-never (suc fuel) es = ground (arith, evict-never fuel (pop_front es))

  abbrev holding : ℕ → List (DeadLetterEntry E V) → MemoryDeadLetterStorage E V
  holding max es = record { entries = es; max_entries = max }

  store-evict :
      (fuel max : ℕ) (es es' : List (DeadLetterEntry E V)) (e : DeadLetterEntry E V)
      → evict fuel max es ≡ some es'
      → store fuel e (holding max es) ≡ some (holding max (es' ++ e ∷ []))
  unfolding store
  store-evict fuel max es es' e h = rw (h, store) refl

  pop_front-last :
      (max : ℕ) (es : List (DeadLetterEntry E V)) (e : DeadLetterEntry E V)
      → 0 < max
      → max ≤ length es
      → pop_front (last max es) ++ e ∷ [] ≡ last max (es ++ e ∷ [])
  pop_front-last max es e h k =
      let gone = length es - max in
      let one_more : length (es ++ e ∷ []) - max ≡ suc gone =
        omega (arith, length-append es (e ∷ []), h, k) in
      ap (λ xs. xs ++ e ∷ []) (pop_front-drop gone es)
      ∙ (sym (drop-append_one (suc gone) es e (omega (arith, h, k)))
          ∙ ap (λ n. drop n (es ++ e ∷ [])) (sym one_more))

  -- One store after the entries es.
  store-last :
      (fuel max : ℕ) (es : List (DeadLetterEntry E V)) (e : DeadLetterEntry E V)
      → 0 < max
      → store (suc (suc fuel)) e (holding max (last max es))
        ≡ some (holding max (last max (es ++ e ∷ [])))
  store-last fuel max es e h = elim (Bool-cases (leb max (length es))) [
    | inl full ↦
        let k = leb→le max (length es) full in
        let size : length (last max es) ≡ max =
          omega (arith, length-drop (length es - max) es, k) in
        store-evict (suc (suc fuel)) max (last max es) (pop_front (last max es)) e
          (evict-full fuel max (last max es) size h)
        ∙ ap (λ xs. some (holding max xs)) (pop_front-last max es e h k)
    | inr room ↦
        let k : length es < max = ground (arith, room) in
        let all = last-all max es (omega (arith, k)) in
        let later = last-all max (es ++ e ∷ []) (omega (arith, k, length-append es (e ∷ []))) in
        ap (λ xs. store (suc (suc fuel)) e (holding max xs)) all
        ∙ (store-evict (suc (suc fuel)) max es es e (evict-room (suc fuel) max es k)
            ∙ ap (λ xs. some (holding max xs)) (sym later))
  ]

  process_entries-last :
      (fuel max : ℕ) (es before : List (DeadLetterEntry E V))
      → 0 < max
      → process_entries (suc (suc fuel)) es (holding max (last max before))
        ≡ some (holding max (last max (before ++ es)))
  unfolding process_entries
  process_entries-last fuel max [] before h =
      ap (λ xs. some (holding max (last max xs))) (sym (append-nil before))
  process_entries-last fuel max (e ∷ es) before h =
      rw (store-last fuel max before e h, process_entries)
        (process_entries-last fuel max es (before ++ e ∷ []) h
          ∙ ap (λ xs. some (holding max (last max xs))) (append_assoc before (e ∷ []) es))

  -- A store with room for at least one entry, empty at first, holds the last max_entries of the
  -- entries that were stored, in their order: two rounds of the loop over the evictions are enough
  -- at any time.
  pub process_entries_keeps_last :
      (fuel max : ℕ) (es : List (DeadLetterEntry E V))
      → 0 < max
      → process_entries (suc (suc fuel)) es (new max)
        ≡ some (record { entries = last max es; max_entries = max })
  process_entries_keeps_last fuel max es h =
      ap (λ xs. process_entries (suc (suc fuel)) es (holding max xs))
        (sym (last-all max [] (omega arith)))
      ∙ process_entries-last fuel max es [] h

  -- With room for no entry, the loop over the evictions never ends, whatever is stored.
  pub store_never_ends :
      (fuel : ℕ) (s : MemoryDeadLetterStorage E V) (e : DeadLetterEntry E V)
      → s.max_entries ≡ 0
      → store fuel e s ≡ none
  unfolding store
  store_never_ends fuel s e h = ground (arith, h, evict-never fuel s.entries)
