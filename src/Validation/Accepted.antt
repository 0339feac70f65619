-- ===== src/Validation/Accepted.antt =====
-- src/config/validation.rs: the configurations that `validate` accepts.
use meilibridge.Prelude.{
  ℕ, ◌≤◌, String, ◌≡◌, ◌≢◌, refl, ◌↔◌, Bool, true, false, not, Option, none, some, List, [], ◌∷◌,
  map, All, member, Distinct, arith, nat_eqb, nat_eqb_iff, ltb, string_eq, if◌then◌else◌,
  Bool-cases, Option-cases, inl, inr, ◌==◌, ◌&&◌,
}
use meilibridge.Prelude.Texts.{is_empty, insert_text}
use meilibridge.Config.{
  FilterConfig, SyncTaskConfig, PostgreSqlConfig, SourceConfig, postgresql, mysql, mongodb,
  NamedSourceConfig, Config,
}
use meilibridge.Validation.{
  ValidationReport, zero_batch_size, duplicate_task, index_not_created, shared_index,
  large_batch_size, low_batch_timeout, empty_slot_name, empty_publication, pool_bounds, no_source,
  empty_url, zero_timeout, empty_api_key, is_valid, new, validate_filter, validate_batch_config,
  Seen, note_task, is_cdc_only, validate_optional_filter, validate_task, validate_tasks,
  validate_sync_tasks, validate_postgresql, validate_source_config, validate_single_source,
  validate_sources, has_no_source, validate_source, has_empty_key, validate_destination, validate,
}
use meilibridge.Validation.Checks.{
  Checks, Checks-same, ◌then◌, Checks-map, error_if-Checks, warn_if-Checks,
}

pub record AcceptsPostgreSql (pg : PostgreSqlConfig) : Type 0 where
  pub slot : is_empty pg.slot_name ≡ false
  pub publication : is_empty pg.publication ≡ false
  pub pool : pg.pool.min_idle ≤ pg.pool.max_size

abbrev pub AcceptsSource : SourceConfig → Type 0
AcceptsSource (postgresql pg) = AcceptsPostgreSql pg
AcceptsSource mysql = Unit
AcceptsSource mongodb = Unit

abbrev pub AcceptsSingle : Option SourceConfig → Type 0
AcceptsSingle none = Unit
AcceptsSingle (some source) = AcceptsSource source

positive : (n : ℕ) → nat_eqb n 0 ≡ false → n ≢ 0
positive n h e = ground (arith, h, e)

not_zero : (n : ℕ) → n ≢ 0 → nat_eqb n 0 ≡ false
not_zero n h = elim (Bool-cases (nat_eqb n 0)) [
  | inl z ↦ absurd (h ((nat_eqb_iff n 0).0 z))
  | inr z ↦ z
]

validate_postgresql-Checks :
    (name : Option String) (pg : PostgreSqlConfig)
    → Checks (validate_postgresql name pg) (AcceptsPostgreSql pg)
unfolding validate_postgresql
validate_postgresql-Checks name pg =
    Checks-map (λ h. record { slot = h.0; publication = h.1.0; pool = ground (arith, h.1.1) })
      (λ a. (a.slot, (a.publication, ground (arith, a.pool))))
      (error_if-Checks (is_empty pg.slot_name) (empty_slot_name name)
        then error_if-Checks (is_empty pg.publication) (empty_publication name)
        then error_if-Checks (ltb pg.pool.max_size pg.pool.min_idle)
            (pool_bounds name pg.pool.min_idle pg.pool.max_size))

validate_source_config-Checks :
    (name : Option String) (s : SourceConfig)
    → Checks (validate_source_config name s) (AcceptsSource s)
unfolding validate_source_config is_valid
validate_source_config-Checks name (postgresql pg) = validate_postgresql-Checks name pg
validate_source_config-Checks name mysql = Checks-same (λ r. refl)
validate_source_config-Checks name mongodb = Checks-same (λ r. refl)

validate_single_source-Checks :
    (s : Option SourceConfig) → Checks (validate_single_source s) (AcceptsSingle s)
unfolding validate_single_source
validate_single_source-Checks none = Checks-same (λ r. refl)
validate_single_source-Checks (some s) = validate_source_config-Checks none s

validate_sources-Checks :
    (ss : List NamedSourceConfig)
    → Checks (validate_sources ss) (All (λ s. AcceptsSource s.config) ss)
unfolding validate_sources
validate_sources-Checks [] = Checks-same (λ r. refl)
validate_sources-Checks (s ∷ ss) =
    validate_source_config-Checks (some s.name) s.config then validate_sources-Checks ss

module _ {V : Type 0} where
  abbrev pub tables : List (SyncTaskConfig V) → List String
  tables = map (λ t. t.table)

  abbrev pub HasBatchSize : SyncTaskConfig V → Type 0
  HasBatchSize t = t.options.batch_size ≢ 0

  -- A configuration that the validation has no error for.
  pub record IsAccepted (config : Config V) : Type 0 where
    pub tables_distinct : Distinct (tables config.sync_tasks)
    pub batch_sizes : All HasBatchSize config.sync_tasks
    pub single : AcceptsSingle config.source
    pub named : All (λ s. AcceptsSource s.config) config.sources
    pub some_source : ¬ ((config.source ≡ none) × (config.sources ≡ []))
    pub url : is_empty config.meilisearch.url ≡ false
    pub timeout : config.meilisearch.timeout ≢ 0

  validate_batch_config-Checks :
      (t : SyncTaskConfig V) → Checks (validate_batch_config t) (HasBatchSize t)
  unfolding validate_batch_config
  validate_batch_config-Checks t =
      let size = t.options.batch_size in
      let timeout = t.options.batch_timeout_ms in
      Checks-map (λ h. positive size h.0) (λ h. (not_zero size h, (tt, tt)))
        (error_if-Checks (nat_eqb size 0) (zero_batch_size t.table)
          then warn_if-Checks (ltb 10000 size) (large_batch_size size t.table)
          then warn_if-Checks (ltb timeout 100) (low_batch_timeout timeout t.table))

  is_valid-validate_filter :
      (t : SyncTaskConfig V) (f : FilterConfig V) (r : ValidationReport)
      → is_valid (validate_filter t f r) ≡ is_valid r
  unfolding validate_filter is_valid
  is_valid-validate_filter t f r = ground arith

  validate_optional_filter-Checks :
      (t : SyncTaskConfig V) → Checks (validate_optional_filter t) (Unit {0})
  unfolding validate_optional_filter
  validate_optional_filter-Checks t = elim (Option-cases t.filter) [
    | inl e ↦ Checks-same (λ r. rw e refl)
    | inr (f, e) ↦ Checks-same (λ r. rw e (is_valid-validate_filter t f r))
  ]

  validate_task-Checks :
      (auto : Bool) (seen : Seen) (t : SyncTaskConfig V)
      → Checks (validate_task auto seen t) ((member t.table seen.tables ≡ false) × HasBatchSize t)
  unfolding validate_task
  validate_task-Checks auto seen t =
      Checks-map (λ h. (h.0, h.1.1.1.1)) (λ h. (h.0, (tt, (tt, (tt, h.1)))))
        (error_if-Checks (member t.table seen.tables) (duplicate_task t.table)
          then warn_if-Checks (member t.index seen.indexes) (shared_index t.index)
          then warn_if-Checks (is_cdc_only t && not auto) (index_not_created t.table)
          then validate_optional_filter-Checks t
          then validate_batch_config-Checks t)

  -- No table of the tasks was seen before it.
  abbrev IsFresh : List String → List (SyncTaskConfig V) → Type 0
  IsFresh seen [] = Unit
  IsFresh seen (t ∷ ts) = (member t.table seen ≡ false) × IsFresh (insert_text t.table seen) ts

  validate_tasks-Checks :
      (auto : Bool) (seen : Seen) (ts : List (SyncTaskConfig V))
      → Checks (validate_tasks auto seen ts) (IsFresh seen.tables ts × All HasBatchSize ts)
  unfolding validate_tasks note_task is_valid
  validate_tasks-Checks auto seen [] =
      Checks-map (λ h. (tt, tt)) (λ h. tt) (Checks-same (λ r. ground arith))
  validate_tasks-Checks auto seen (t ∷ ts) =
      Checks-map (λ h. ((h.0.0, h.1.0), (h.0.1, h.1.1))) (λ h. ((h.0.0, h.1.0), (h.0.1, h.1.1)))
        (validate_task-Checks auto seen t then validate_tasks-Checks auto (note_task t seen) ts)

  IsFresh-Distinct :
      (seen : List String) (ts : List (SyncTaskConfig V))
      → IsFresh seen ts
      → Distinct (tables ts) × ((k : String) → member k (tables ts) ≡ true → member k seen ≡ false)
  IsFresh-Distinct seen [] h = (tt, λ k m. ground (arith, m))
  IsFresh-Distinct seen (t ∷ ts) h =
      let later = IsFresh-Distinct (insert_text t.table seen) ts h.1 in
      (
        (
          elim (Bool-cases (member t.table (tables ts))) [
            | inl m ↦ ground (arith, later.1 t.table m, h.0, string_eq.eqb_iff t.table t.table)
            | inr m ↦ m
          ],
          later.0,
        ),
        λ k m. elim (Bool-cases (t.table == k)) [
          | inl e ↦ ground (arith, h.0, string_eq.eqb_iff t.table k, e)
          | inr e ↦ ground (arith, later.1 k (ground (arith, m, e)), h.0)
        ],
      )

  Distinct-IsFresh :
      (seen : List String) (ts : List (SyncTaskConfig V))
      → Distinct (tables ts)
      → ((k : String) → member k (tables ts) ≡ true → member k seen ≡ false)
      → IsFresh seen ts
  Distinct-IsFresh seen [] d h = tt
  Distinct-IsFresh seen (t ∷ ts) d h =
      let new_one = h t.table (ground (arith, string_eq.eqb_iff t.table t.table)) in
      (
        new_one,
        Distinct-IsFresh (insert_text t.table seen) ts d.1 (λ k m.
            ground (arith, new_one, h k (ground (arith, m)), d.0, m, string_eq.eqb_iff t.table k)),
      )

  some_source-has_no_source :
      (config : Config V)
      → has_no_source config ≡ false
      → ¬ ((config.source ≡ none) × (config.sources ≡ []))
  some_source-has_no_source config h p = ground (arith, h, p.0, p.1)

  has_no_source-some_source :
      (config : Config V)
      → ¬ ((config.source ≡ none) × (config.sources ≡ []))
      → has_no_source config ≡ false
  has_no_source-some_source config h = elim (Bool-cases (has_no_source config)) [
    | inl e ↦ absurd (h (ground (arith, e), ground (arith, e)))
    | inr e ↦ e
  ]

  validate_source-Checks :
      (config : Config V)
      → Checks (validate_source config) (
          AcceptsSingle config.source
          × (All (λ s. AcceptsSource s.config) config.sources × (has_no_source config ≡ false)))
  unfolding validate_source
  validate_source-Checks config =
      validate_single_source-Checks config.source
      then validate_sources-Checks config.sources
      then error_if-Checks (has_no_source config) no_source

  validate_destination-Checks :
      (config : Config V)
      → Checks
          (validate_destination config)
          ((is_empty config.meilisearch.url ≡ false) × (config.meilisearch.timeout ≢ 0))
  unfolding validate_destination
  validate_destination-Checks config =
      let m = config.meilisearch in
      Checks-map (λ h. (h.0, positive m.timeout h.1.1)) (λ h. (h.0, (tt, not_zero m.timeout h.1)))
        (error_if-Checks (is_empty m.url) empty_url
          then warn_if-Checks (has_empty_key m) empty_api_key
          then error_if-Checks (nat_eqb m.timeout 0) zero_timeout)

  -- The validation reports no error exactly for a configuration in which no table has two tasks, no
  -- batch size is 0, every PostgreSQL source has a slot, a publication and a pool of consistent
  -- bounds, there is a source, the URL of Meilisearch is not empty and its timeout is not 0.
  pub is_valid-validate :
      (config : Config V) → (is_valid (validate config) ≡ true) ↔ IsAccepted config
  unfolding validate validate_sync_tasks
  is_valid-validate config =
      let auto = config.meilisearch.auto_create_index in
      let none_seen : Seen = record { tables = []; indexes = []; cdc_only_tables = [] } in
      let all =
        validate_tasks-Checks auto none_seen config.sync_tasks
        then validate_source-Checks config
        then validate_destination-Checks config in
      (
        λ v.
            let h = ((all.iff new).0 v).1 in
            record {
              tables_distinct = (IsFresh-Distinct [] config.sync_tasks h.0.0).0;
              batch_sizes = h.0.1;
              single = h.1.0.0;
              named = h.1.0.1.0;
              some_source = some_source-has_no_source config h.1.0.1.1;
              url = h.1.1.0;
              timeout = h.1.1.1;
            },
        λ a. (all.iff new).1 (
          unfold is_valid in refl,
          (
            (Distinct-IsFresh [] config.sync_tasks a.tables_distinct (λ k m. refl), a.batch_sizes),
            (
              (a.single, (a.named, has_no_source-some_source config a.some_source)),
              (a.url, a.timeout),
            ),
          ),
        ),
      )
