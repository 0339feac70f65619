-- ===== src/Validation/Fields.antt =====
-- src/config/validation.rs: the fields of the tasks against the columns of their tables. Whether the
-- connection is made, and the columns of a table or a failure, are arguments. The entries of a hash
-- map are visited in the order of the association list.
use meilibridge.Prelude.{
  String, Bool, not, Option, none, some, List, [], ◌∷◌, length, member, if◌then◌else◌, string_eq,
}
use meilibridge.Prelude.Map
use meilibridge.Prelude.Map.{Map}
use meilibridge.Prelude.Texts.{insert_text}
use meilibridge.Config.{
  Conditions, FilterConfig, FieldMapping, simple, complex, FieldTransform, rename, convert, compute,
  extract, SyncTaskConfig, postgresql, Config,
}
use meilibridge.Validation.{
  ErrorMessage, no_filter_field, no_mapping_field, no_mapping_source, no_transform_field,
  no_soft_delete_field, cannot_validate, cannot_validate_table, table_columns, ValidationReport,
  add_warning, add_info, error_if, collect_fields,
}

-- The columns as a set.
unfoldable pub column_set : List String → List String
column_set [] = []
column_set (c ∷ cs) = insert_text c (column_set cs)

-- One error for each field that is no column.
unfoldable pub check_fields :
    (String → ErrorMessage) → List String → List String → ValidationReport → ValidationReport
unfolding error_if
check_fields message columns [] r = r
check_fields message columns (field ∷ fields) r =
    check_fields message columns fields (error_if (not (member field columns)) (message field) r)

-- The field that the validation of a transform looks at.
abbrev pub checked_field : FieldTransform → List String
checked_field (rename from to) = from ∷ []
checked_field (convert field to_type) = field ∷ []
checked_field (extract from path to) = []
checked_field (compute expression to) = []

unfoldable pub check_transforms :
    String → List String → Map String FieldTransform → ValidationReport → ValidationReport
unfolding check_fields
check_transforms table columns [] r = r
check_transforms table columns ((name, transform) ∷ transforms) r =
    check_transforms table columns transforms
      (check_fields (no_transform_field table) columns (checked_field transform) r)

module _ {V : Type 0} where
  abbrev pub fields_of_conditions : Option (Conditions V) → List String
  fields_of_conditions none = []
  fields_of_conditions (some conditions) = collect_fields conditions []

  abbrev pub fields_of_filter : Option (FilterConfig V) → List String
  fields_of_filter none = []
  fields_of_filter (some filter) = fields_of_conditions filter.conditions

  abbrev pub sources_of : FieldMapping V → List String
  sources_of (simple target) = []
  sources_of (complex to default (some sources) separator path) = sources
  sources_of (complex to default none separator path) = []

  abbrev pub fields_of_mapping : SyncTaskConfig V → Map String (FieldMapping V)
  fields_of_mapping task = elim task.mapping [
    | none ↦ []
    | some mapping ↦ elim (Map.lookup task.table mapping.tables) [
      | none ↦ []
      | some t ↦ elim t.fields [ none ↦ [] | some fields ↦ fields ]
    ]
  ]

  unfoldable pub check_mappings :
      String → List String → Map String (FieldMapping V) → ValidationReport → ValidationReport
  unfolding error_if check_fields
  check_mappings table columns [] r = r
  check_mappings table columns ((from, mapping) ∷ fields) r = check_mappings table columns fields (
      check_fields (no_mapping_source table) columns (sources_of mapping)
        (error_if (not (member from columns)) (no_mapping_field table from) r))

  abbrev pub transforms_of : SyncTaskConfig V → Map String FieldTransform
  transforms_of task = elim task.transform [
    | none ↦ []
    | some fields ↦ elim (Map.lookup task.table fields) [ none ↦ [] | some transforms ↦ transforms ]
  ]

  abbrev pub soft_delete_field : SyncTaskConfig V → List String
  soft_delete_field task = elim task.soft_delete [ none ↦ [] | some s ↦ s.field ∷ [] ]

  unfoldable pub validate_columns :
      SyncTaskConfig V → List String → ValidationReport → ValidationReport
  unfolding check_fields check_mappings check_transforms
  validate_columns task columns r = add_info (table_columns task.table (length columns) columns) (
      check_fields (no_soft_delete_field task.table) columns (soft_delete_field task) (
        check_transforms task.table columns (transforms_of task) (
          check_mappings task.table columns (fields_of_mapping task)
            (check_fields (no_filter_field task.table) columns (fields_of_filter task.filter) r))))

  -- What follows the read of the columns, which may fail.
  unfoldable pub validate_read_fields :
      SyncTaskConfig V → Option (List String) → ValidationReport → ValidationReport
  unfolding validate_columns column_set
  validate_read_fields task none r = add_warning (cannot_validate_table task.table) r
  validate_read_fields task (some columns) r = validate_columns task (column_set columns) r

  module _ (get_table_columns : String → Option (List String)) where
    unfoldable pub validate_task_fields : SyncTaskConfig V → ValidationReport → ValidationReport
    unfolding validate_read_fields
    validate_task_fields task = validate_read_fields task (get_table_columns task.table)

    unfoldable pub validate_all_fields :
        List (SyncTaskConfig V) → ValidationReport → ValidationReport
    unfolding validate_task_fields
    validate_all_fields [] r = r
    validate_all_fields (task ∷ tasks) r = validate_all_fields tasks (validate_task_fields task r)

    unfoldable pub validate_fields_against_schema :
        Bool → Config V → ValidationReport → ValidationReport
    unfolding validate_all_fields
    validate_fields_against_schema connects config r = elim config.source [
      | some (postgresql pg) ↦
          if connects
          then validate_all_fields config.sync_tasks r
          else add_warning cannot_validate r
      | _ ↦ r
    ]
