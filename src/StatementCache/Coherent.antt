-- ===== src/StatementCache/Coherent.antt =====
-- src/source/postgres/statement_cache.rs: what the cache holds after any calls.
use meilibridge.Prelude.{
  ℕ, suc, ◌-◌, ◌≤◌, max, String, ◌≡◌, ap, ◌⊎◌, inl, inr, Bool, true, false, not, Option, none, some,
  List, [], ◌∷◌, length, leb, arith, string_eq, ◌==◌, if◌then◌else◌, Bool-cases,
}
use meilibridge.Prelude.Map
use meilibridge.Prelude.Map.{
  Map, lookup-insert, lookup-remove, length-insert-le, length-remove-le, length-remove-lt,
}
use meilibridge.Prelude.Result.{Result, ok, err}
use meilibridge.StatementCache.{
  CacheConfig, StatementCache, new, without_first, make_room, insert_prepared, look_up,
  get_or_prepare, counts_miss, clear, invalidate, Call, gets, invalidates, clears, step, run,
}

module _ (S : Type 0) (E : Type 0) where
  -- At most as many statements as the configuration allows, but one at least.
  abbrev pub IsBounded : StatementCache S E → Type 0
  IsBounded c = length c.cache ≤ max 1 c.config.max_size

  length-without_first :
      (m : Map String S) (n : ℕ) → length m ≤ suc n → length (without_first S E m) ≤ n
  length-without_first [] n h = omega arith
  length-without_first ((k, s) ∷ m) n h =
      let less =
        length-remove-lt k s ((k, s) ∷ m)
          (unfold Map.lookup in ground (arith, string_eq.eqb_iff k k)) in
      omega (arith, less, h)

  length-make_room :
      (c : StatementCache S E)
      → IsBounded c
      → suc (length (make_room S E c).cache) ≤ max 1 c.config.max_size
  unfolding make_room
  length-make_room c h = elim (Bool-cases (leb c.config.max_size (length c.cache))) [
    | inl full ↦
        let small : length c.cache ≤ suc (max 1 c.config.max_size - 1) = omega (arith, h) in
        let less = length-without_first c.cache (max 1 c.config.max_size - 1) small in
        rw full (omega (arith, less))
    | inr room ↦ rw room (ground (arith, room))
  ]

  config-make_room : (c : StatementCache S E) → (make_room S E c).config ≡ c.config
  unfolding make_room
  config-make_room c = ground arith

  -- The statements that the calls prepared for a query.
  abbrev pub PreparedFor : String → List (Call S E) → S → Type 0
  PreparedFor query [] s = ⊥
  PreparedFor query (gets q (ok t) ∷ xs) s = ((q ≡ query) × (t ≡ s)) ⊎ PreparedFor query xs s
  PreparedFor query (x ∷ xs) s = PreparedFor query xs s

  insert_prepared-IsBounded :
      (q : String) (a : Result E S) (c : StatementCache S E)
      → IsBounded c
      → IsBounded (insert_prepared S E q a c).1
  unfolding insert_prepared
  insert_prepared-IsBounded q (err e) c h = h
  insert_prepared-IsBounded q (ok s) c h = omega (
    arith,
    length-insert-le q s (make_room S E c).cache,
    length-make_room c h,
    ap (λ x. x.max_size) (config-make_room c),
  )

  look_up-IsBounded :
      (q : String) (a : Result E S) (found : Option S) (c : StatementCache S E)
      → IsBounded c
      → IsBounded (look_up S E q a found c).1
  look_up-IsBounded q a (some s) c h = h
  look_up-IsBounded q a none c h = insert_prepared-IsBounded q a (counts_miss S E c) h

  used-IsBounded :
      (q : String) (a : Result E S) (c : StatementCache S E) (enabled : Bool)
      → IsBounded c
      → IsBounded (if not enabled then (a, c) else look_up S E q a (Map.lookup q c.cache) c).1
  used-IsBounded q a c true h = look_up-IsBounded q a (Map.lookup q c.cache) c h
  used-IsBounded q a c false h = h

  step-IsBounded : (x : Call S E) (c : StatementCache S E) → IsBounded c → IsBounded (step S E x c)
  unfolding step get_or_prepare invalidate clear
  step-IsBounded (gets q a) c h = used-IsBounded q a c c.config.enabled h
  step-IsBounded (invalidates q) c h = omega (arith, length-remove-le q c.cache, h)
  step-IsBounded clears c h = omega arith

  run-IsBounded :
      (xs : List (Call S E)) (c : StatementCache S E) → IsBounded c → IsBounded (run S E xs c)
  unfolding run
  run-IsBounded [] c h = h
  run-IsBounded (x ∷ xs) c h = run-IsBounded xs (step S E x c) (step-IsBounded x c h)

  lookup-make_room :
      (c : StatementCache S E) (q : String) (s : S)
      → Map.lookup q (make_room S E c).cache ≡ some s
      → Map.lookup q c.cache ≡ some s
  unfolding make_room
  lookup-make_room c q s e = elim (Bool-cases (leb c.config.max_size (length c.cache))) [
    | inl full ↦ from_rest c.cache (ground (arith, e, full))
    | inr room ↦ ground (arith, e, room)
  ]
    where
      from_rest :
          (m : Map String S) → Map.lookup q (without_first S E m) ≡ some s → Map.lookup q m ≡ some s
      from_rest [] e = e
      from_rest ((k, t) ∷ m) e = ground (arith, e, lookup-remove k q ((k, t) ∷ m))

  -- The statement was there before, or the call prepared it for the query.
  abbrev Origin : String → Call S E → S → StatementCache S E → Type 0
  Origin q x s c = (Map.lookup q c.cache ≡ some s) ⊎ PreparedFor q (x ∷ []) s

  look_up-Origin :
      (q k : String) (a : Result E S) (found : Option S) (c : StatementCache S E) (s : S)
      → Map.lookup q (look_up S E k a found c).1.cache ≡ some s
      → Origin q (gets k a) s c
  unfolding insert_prepared
  look_up-Origin q k a (some t) c s e = inl e
  look_up-Origin q k (err x) none c s e = inl e
  look_up-Origin q k (ok t) none c s e = elim (Bool-cases (k == q)) [
    | inl same ↦ inr (
        inl (
          (string_eq.eqb_iff k q).0 same,
          ground (arith, e, same, lookup-insert k q t (make_room S E (counts_miss S E c)).cache),
        ))
    | inr other ↦ inl (
        lookup-make_room (counts_miss S E c) q s
          (ground (arith, e, other, lookup-insert k q t (make_room S E (counts_miss S E c)).cache)))
  ]

  step-Origin :
      (x : Call S E) (c : StatementCache S E) (q : String) (s : S)
      → Map.lookup q (step S E x c).cache ≡ some s
      → Origin q x s c
  unfolding step get_or_prepare invalidate clear Map.lookup
  step-Origin (gets k a) c q s e = elim (Bool-cases c.config.enabled) [
    | inl on ↦ look_up-Origin q k a (Map.lookup k c.cache) c s (ground (arith, e, on))
    | inr off ↦ inl (ground (arith, e, off))
  ]
  step-Origin (invalidates k) c q s e = inl (ground (arith, e, lookup-remove k q c.cache))
  step-Origin clears c q s e = absurd (ground (arith, e))

  prepared-first :
      (q : String) (x : Call S E) (xs : List (Call S E)) (s : S)
      → PreparedFor q (x ∷ []) s ⊎ PreparedFor q xs s
      → PreparedFor q (x ∷ xs) s
  prepared-first q (gets k (ok t)) xs s (inl (inl p)) = inl p
  prepared-first q (gets k (ok t)) xs s (inr p) = inr p
  prepared-first q (gets k (err e)) xs s (inr p) = p
  prepared-first q (invalidates k) xs s (inr p) = p
  prepared-first q clears xs s (inr p) = p
  prepared-first q (gets k (ok t)) xs s (inl (inr p)) = elim p [ ]
  prepared-first q (gets k (err e)) xs s (inl p) = elim p [ ]
  prepared-first q (invalidates k) xs s (inl p) = elim p [ ]
  prepared-first q clears xs s (inl p) = elim p [ ]

  run-Origin :
      (xs : List (Call S E)) (c : StatementCache S E) (q : String) (s : S)
      → Map.lookup q (run S E xs c).cache ≡ some s
      → (Map.lookup q c.cache ≡ some s) ⊎ PreparedFor q xs s
  unfolding run
  run-Origin [] c q s e = inl e
  run-Origin (x ∷ xs) c q s e = elim (run-Origin xs (step S E x c) q s e) [
    | inl now ↦ elim (step-Origin x c q s now) [
      | inl before ↦ inl before
      | inr here ↦ inr (prepared-first q x xs s (inl here))
    ]
    | inr later ↦ inr (prepared-first q x xs s (inr later))
  ]

  -- After any calls from its creation, the cache holds at most max_size statements (one, if that is
  -- 0), and a statement that it holds for a query is one that some call prepared for this query.
  pub cache_coherent :
      (config : CacheConfig) (xs : List (Call S E)) (q : String) (s : S)
      → Map.lookup q (run S E xs (new S E config)).cache ≡ some s
      → IsBounded (run S E xs (new S E config)) × PreparedFor q xs s
  unfolding Map.lookup
  cache_coherent config xs q s e = (
    run-IsBounded xs (new S E config) (omega arith),
    elim (run-Origin xs (new S E config) q s e) [
      | inl before ↦ absurd (ground (arith, before))
      | inr p ↦ p
    ],
  )
