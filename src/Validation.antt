-- ===== src/Validation.antt =====
-- src/config/validation.rs: ConfigValidator and its report. A message is the constructor of its kind
-- with the values that the source writes into the text; a source without a name is the single one.
pub mod Checks
pub mod Accepted
pub mod Fields
pub mod Known
mod Tests
use meilibridge.Prelude.{
  ℕ, String, Bool, true, false, not, ◌||◌, ◌&&◌, Option, none, some, List, [], ◌∷◌, ◌++◌, length,
  member, ltb, nat_eqb, string_eq, if◌then◌else◌,
}
use meilibridge.Prelude.Map
use meilibridge.Prelude.Map.{Map, is_some}
use meilibridge.Prelude.Texts.{is_empty, insert_text}
use meilibridge.Config.{
  Condition, equals, not_equals, contains, greater_than, less_than, is_in, is_null, is_not_null,
  all_of, any_of, Conditions, nil, cons, FilterConfig, FieldMapping, simple, complex, TableMapping,
  MappingConfig, FieldTransform, rename, convert, compute, extract, SyncTaskConfig,
  PostgreSqlConfig, SourceConfig, postgresql, mysql, mongodb, NamedSourceConfig, MeilisearchConfig,
  Config,
}

pub data ErrorMessage : Type 0 where
  duplicate_task zero_batch_size : String → ErrorMessage
  empty_slot_name empty_publication : Option String → ErrorMessage
  pool_bounds : Option String → ℕ → ℕ → ErrorMessage
  no_source empty_url zero_timeout : ErrorMessage
  no_filter_field no_mapping_field no_mapping_source no_transform_field no_soft_delete_field :
      String → String → ErrorMessage

pub data WarningMessage : Type 0 where
  shared_index index_not_created no_event_types : String → WarningMessage
  large_batch_size low_batch_timeout : ℕ → String → WarningMessage
  unsupported_source : Option String → WarningMessage
  empty_api_key cannot_validate : WarningMessage
  cannot_validate_table : String → WarningMessage

pub data InfoMessage : Type 0 where
  cdc_only : List String → InfoMessage
  filter_fields : String → List String → InfoMessage
  table_columns : String → ℕ → List String → InfoMessage

pub record ValidationReport : Type 0 where
  pub errors : List ErrorMessage
  pub warnings : List WarningMessage
  pub info : List InfoMessage

abbrev pub new : ValidationReport
new = record { errors = []; warnings = []; info = [] }

unfoldable pub is_valid : ValidationReport → Bool
is_valid r = elim r.errors [ [] ↦ true | e ∷ es ↦ false ]

abbrev pub add_error : ErrorMessage → ValidationReport → ValidationReport
add_error e r = record r { errors = r.errors ++ e ∷ [] }

abbrev pub add_warning : WarningMessage → ValidationReport → ValidationReport
add_warning w r = record r { warnings = r.warnings ++ w ∷ [] }

abbrev pub add_info : InfoMessage → ValidationReport → ValidationReport
add_info i r = record r { info = r.info ++ i ∷ [] }

unfoldable pub error_if : Bool → ErrorMessage → ValidationReport → ValidationReport
error_if b e r = if b then add_error e r else r

unfoldable pub warn_if : Bool → WarningMessage → ValidationReport → ValidationReport
warn_if b w r = if b then add_warning w r else r

-- The tables and indexes that the loop has seen, and the tables without a full sync, in order.
pub record Seen : Type 0 where
  pub tables : List String
  pub indexes : List String
  pub cdc_only_tables : List String

unfoldable pub validate_postgresql :
    Option String → PostgreSqlConfig → ValidationReport → ValidationReport
unfolding error_if
validate_postgresql name pg r =
    error_if (ltb pg.pool.max_size pg.pool.min_idle)
      (pool_bounds name pg.pool.min_idle pg.pool.max_size)
      (error_if (is_empty pg.publication) (empty_publication name)
        (error_if (is_empty pg.slot_name) (empty_slot_name name) r))

unfoldable pub validate_source_config :
    Option String → SourceConfig → ValidationReport → ValidationReport
unfolding validate_postgresql
validate_source_config name (postgresql pg) r = validate_postgresql name pg r
validate_source_config name mysql r = add_warning (unsupported_source name) r
validate_source_config name mongodb r = add_warning (unsupported_source name) r

unfoldable pub validate_single_source : Option SourceConfig → ValidationReport → ValidationReport
unfolding validate_source_config
validate_single_source none r = r
validate_single_source (some source) r = validate_source_config none source r

unfoldable pub validate_sources : List NamedSourceConfig → ValidationReport → ValidationReport
unfolding validate_source_config
validate_sources [] r = r
validate_sources (s ∷ ss) r = validate_sources ss (validate_source_config (some s.name) s.config r)

abbrev pub has_empty_key : MeilisearchConfig → Bool
has_empty_key m = elim m.api_key [ none ↦ false | some key ↦ is_empty key ]

module _ {V : Type 0} where
  unfoldable mutual
    pub collect_fields_from_condition : Condition V → List String → List String
    collect_fields_from_condition (equals field value) fields = insert_text field fields
    collect_fields_from_condition (not_equals field value) fields = insert_text field fields
    collect_fields_from_condition (contains field value) fields = insert_text field fields
    collect_fields_from_condition (greater_than field value) fields = insert_text field fields
    collect_fields_from_condition (less_than field value) fields = insert_text field fields
    collect_fields_from_condition (is_in field values) fields = insert_text field fields
    collect_fields_from_condition (is_null field) fields = insert_text field fields
    collect_fields_from_condition (is_not_null field) fields = insert_text field fields
    collect_fields_from_condition (all_of conditions) fields = collect_fields conditions fields
    collect_fields_from_condition (any_of conditions) fields = collect_fields conditions fields

    pub collect_fields : Conditions V → List String → List String
    collect_fields nil fields = fields
    collect_fields (cons c cs) fields = collect_fields cs (collect_fields_from_condition c fields)

  unfoldable pub validate_filter :
      SyncTaskConfig V → FilterConfig V → ValidationReport → ValidationReport
  unfolding collect_fields warn_if
  validate_filter task filter r =
      let noted : ValidationReport = elim filter.conditions [
        | none ↦ r
        | some conditions ↦ add_info (filter_fields task.table (collect_fields conditions [])) r
      ] in
      elim filter.event_types [
        | none ↦ noted
        | some [] ↦ add_warning (no_event_types task.table) noted
        | some (t ∷ ts) ↦ noted
      ]

  unfoldable pub validate_batch_config : SyncTaskConfig V → ValidationReport → ValidationReport
  unfolding error_if warn_if
  validate_batch_config task r =
      let size = task.options.batch_size in
      let timeout = task.options.batch_timeout_ms in
      warn_if (ltb timeout 100) (low_batch_timeout timeout task.table) (
        warn_if (ltb 10000 size) (large_batch_size size task.table)
          (error_if (nat_eqb size 0) (zero_batch_size task.table) r))

  abbrev pub is_cdc_only : SyncTaskConfig V → Bool
  is_cdc_only task = elim task.full_sync_on_start [ none ↦ true | some b ↦ not b ]

  unfoldable pub note_task : SyncTaskConfig V → Seen → Seen
  note_task task seen = record {
    tables = insert_text task.table seen.tables;
    indexes = insert_text task.index seen.indexes;
    cdc_only_tables =
        if is_cdc_only task then seen.cdc_only_tables ++ task.table ∷ [] else seen.cdc_only_tables;
  }

  unfoldable pub validate_optional_filter : SyncTaskConfig V → ValidationReport → ValidationReport
  unfolding validate_filter
  validate_optional_filter task r = elim task.filter [
    | none ↦ r
    | some filter ↦ validate_filter task filter r
  ]

  -- One round of the loop over the tasks.
  unfoldable pub validate_task :
      Bool → Seen → SyncTaskConfig V → ValidationReport → ValidationReport
  unfolding error_if warn_if validate_optional_filter validate_batch_config
  validate_task auto_create_index seen task r = validate_batch_config task (
      validate_optional_filter task (
        warn_if (is_cdc_only task && not auto_create_index) (index_not_created task.table) (
          warn_if (member task.index seen.indexes) (shared_index task.index)
            (error_if (member task.table seen.tables) (duplicate_task task.table) r))))

  unfoldable pub validate_tasks :
      Bool → Seen → List (SyncTaskConfig V) → ValidationReport → ValidationReport
  unfolding validate_task note_task
  validate_tasks auto_create_index seen [] r = elim seen.cdc_only_tables [
    | [] ↦ r
    | t ∷ ts ↦ add_info (cdc_only (t ∷ ts)) r
  ]
  validate_tasks auto_create_index seen (task ∷ tasks) r =
      validate_tasks auto_create_index (note_task task seen) tasks
        (validate_task auto_create_index seen task r)

  unfoldable pub validate_sync_tasks : Config V → ValidationReport → ValidationReport
  unfolding validate_tasks
  validate_sync_tasks config =
      validate_tasks config.meilisearch.auto_create_index
        (record { tables = []; indexes = []; cdc_only_tables = [] }) config.sync_tasks

  abbrev pub has_no_source : Config V → Bool
  has_no_source config = elim config.source [
    | none ↦ elim config.sources [ [] ↦ true | s ∷ ss ↦ false ]
    | some source ↦ false
  ]

  unfoldable pub validate_source : Config V → ValidationReport → ValidationReport
  unfolding error_if validate_single_source validate_sources
  validate_source config r =
      error_if (has_no_source config) no_source
        (validate_sources config.sources (validate_single_source config.source r))

  unfoldable pub validate_destination : Config V → ValidationReport → ValidationReport
  unfolding error_if warn_if
  validate_destination config r = error_if (nat_eqb config.meilisearch.timeout 0) zero_timeout (
      warn_if (has_empty_key config.meilisearch) empty_api_key
        (error_if (is_empty config.meilisearch.url) empty_url r))

  unfoldable pub validate : Config V → ValidationReport
  unfolding validate_sync_tasks validate_source validate_destination
  validate config =
      validate_destination config (validate_source config (validate_sync_tasks config new))
