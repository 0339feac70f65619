-- ===== src/Validation/Known.antt =====
-- src/config/validation.rs: when the fields of the tasks are accepted.
use meilibridge.Prelude.{
  String, ◌≡◌, refl, ◌↔◌, Bool, true, false, not, Option, none, some, List, [], ◌∷◌, All, member,
  arith, string_eq, if◌then◌else◌, ◌==◌, length, Bool-cases, inl, inr,
}
use meilibridge.Prelude.Map.{Map}
use meilibridge.Prelude.Texts.{insert_text}
use meilibridge.Config.{
  Condition, equals, not_equals, contains, greater_than, less_than, is_in, is_null, is_not_null,
  all_of, any_of, Conditions, nil, cons, FilterConfig, FieldMapping, FieldTransform, SyncTaskConfig,
  SourceConfig, postgresql, mysql, mongodb, Config,
}
use meilibridge.Validation.{
  ErrorMessage, no_filter_field, no_mapping_field, no_mapping_source, no_transform_field,
  no_soft_delete_field, ValidationReport, is_valid, add_info, table_columns,
  collect_fields_from_condition, collect_fields,
}
use meilibridge.Validation.Fields.{
  column_set, fields_of_conditions, check_fields, checked_field, check_transforms, fields_of_filter,
  sources_of, fields_of_mapping, check_mappings, transforms_of, soft_delete_field, validate_columns,
  validate_read_fields, validate_task_fields, validate_all_fields, validate_fields_against_schema,
}
use meilibridge.Validation.Checks.{Checks, Checks-same, ◌then◌, Checks-map, error_if-Checks}

module _ (columns : List String) where
  abbrev pub IsColumn : String → Type 0
  IsColumn field = member field columns ≡ true

  check_fields-Checks :
      (message : String → ErrorMessage) (fields : List String)
      → Checks (check_fields message columns fields) (All IsColumn fields)
  unfolding check_fields
  check_fields-Checks message [] = Checks-same (λ r. refl)
  check_fields-Checks message (f ∷ fs) =
      Checks-map (λ h. (ground (arith, h.0), h.1)) (λ h. (ground (arith, h.0), h.1))
        (error_if-Checks (not (member f columns)) (message f) then check_fields-Checks message fs)

  abbrev pub TransformKnown : String × FieldTransform → Type 0
  TransformKnown (name, t) = All IsColumn (checked_field t)

  check_transforms-Checks :
      (table : String) (ts : Map String FieldTransform)
      → Checks (check_transforms table columns ts) (All TransformKnown ts)
  unfolding check_transforms
  check_transforms-Checks table [] = Checks-same (λ r. refl)
  check_transforms-Checks table ((name, t) ∷ ts) =
      check_fields-Checks (no_transform_field table) (checked_field t)
      then check_transforms-Checks table ts

  All-member : (f : String) (fs : List String) → All IsColumn fs → member f fs ≡ true → IsColumn f
  All-member f [] a m = ground (arith, m)
  All-member f (x ∷ xs) a m = elim (Bool-cases (x == f)) [
    | inl e ↦ ground (arith, a.0, e, string_eq.eqb_iff x f)
    | inr e ↦ All-member f xs a.1 (ground (arith, m, e))
  ]

  All-insert_text :
      (f : String) (fs : List String)
      → All IsColumn (insert_text f fs) ↔ (IsColumn f × All IsColumn fs)
  All-insert_text f fs = elim (Bool-cases (member f fs)) [
    | inl m ↦ rw m (λ a. (All-member f fs a m, a), λ h. h.1)
    | inr m ↦ rw m (λ a. a, λ h. h)
  ]

  module _ {V : Type 0} where
    -- The fields of a condition are columns.
    mutual
      pub ConditionKnown : Condition V → Type 0
      ConditionKnown (equals field value) = IsColumn field
      ConditionKnown (not_equals field value) = IsColumn field
      ConditionKnown (contains field value) = IsColumn field
      ConditionKnown (greater_than field value) = IsColumn field
      ConditionKnown (less_than field value) = IsColumn field
      ConditionKnown (is_in field values) = IsColumn field
      ConditionKnown (is_null field) = IsColumn field
      ConditionKnown (is_not_null field) = IsColumn field
      ConditionKnown (all_of conditions) = ConditionsKnown conditions
      ConditionKnown (any_of conditions) = ConditionsKnown conditions

      pub ConditionsKnown : Conditions V → Type 0
      ConditionsKnown nil = Unit
      ConditionsKnown (cons c cs) = ConditionKnown c × ConditionsKnown cs

    mutual
      unfolding collect_fields_from_condition collect_fields ConditionKnown ConditionsKnown

      collect_fields_from_condition-Known :
          (c : Condition V) (fs : List String)
          → All IsColumn (collect_fields_from_condition c fs) ↔ (ConditionKnown c × All IsColumn fs)
      collect_fields_from_condition-Known (equals f value) fs = All-insert_text f fs
      collect_fields_from_condition-Known (not_equals f value) fs = All-insert_text f fs
      collect_fields_from_condition-Known (contains f value) fs = All-insert_text f fs
      collect_fields_from_condition-Known (greater_than f value) fs = All-insert_text f fs
      collect_fields_from_condition-Known (less_than f value) fs = All-insert_text f fs
      collect_fields_from_condition-Known (is_in f values) fs = All-insert_text f fs
      collect_fields_from_condition-Known (is_null f) fs = All-insert_text f fs
      collect_fields_from_condition-Known (is_not_null f) fs = All-insert_text f fs
      collect_fields_from_condition-Known (all_of cs) fs = collect_fields-Known cs fs
      collect_fields_from_condition-Known (any_of cs) fs = collect_fields-Known cs fs

      collect_fields-Known :
          (cs : Conditions V) (fs : List String)
          → All IsColumn (collect_fields cs fs) ↔ (ConditionsKnown cs × All IsColumn fs)
      collect_fields-Known nil fs = (λ a. (tt, a), λ h. h.1)
      collect_fields-Known (cons c cs) fs =
          let first = collect_fields_from_condition-Known c fs in
          let rest = collect_fields-Known cs (collect_fields_from_condition c fs) in
          (
            λ a. let r = rest.0 a in let f = first.0 r.1 in ((f.0, r.0), f.1),
            λ h. rest.1 (h.0.1, first.1 (h.0.0, h.1)),
          )

    abbrev pub OptionalKnown : Option (Conditions V) → Type 0
    OptionalKnown none = Unit
    OptionalKnown (some conditions) = ConditionsKnown conditions

    abbrev pub FilterKnown : Option (FilterConfig V) → Type 0
    FilterKnown none = Unit
    FilterKnown (some filter) = OptionalKnown filter.conditions

    fields_of_conditions-Known :
        (cs : Option (Conditions V)) → All IsColumn (fields_of_conditions cs) ↔ OptionalKnown cs
    fields_of_conditions-Known none = (λ a. a, λ k. k)
    fields_of_conditions-Known (some cs) =
        (λ a. ((collect_fields-Known cs []).0 a).0, λ k. (collect_fields-Known cs []).1 (k, tt))

    fields_of_filter-Known :
        (f : Option (FilterConfig V)) → All IsColumn (fields_of_filter f) ↔ FilterKnown f
    fields_of_filter-Known none = (λ a. a, λ k. k)
    fields_of_filter-Known (some f) = fields_of_conditions-Known f.conditions

    abbrev pub MappingKnown : String × FieldMapping V → Type 0
    MappingKnown (from, mapping) = IsColumn from × All IsColumn (sources_of mapping)

    check_mappings-Checks :
        (table : String) (fields : Map String (FieldMapping V))
        → Checks (check_mappings table columns fields) (All MappingKnown fields)
    unfolding check_mappings
    check_mappings-Checks table [] = Checks-same (λ r. refl)
    check_mappings-Checks table ((from, mapping) ∷ fields) =
        Checks-map (λ h. ((ground (arith, h.0), h.1.0), h.1.1))
          (λ h. (ground (arith, h.0.0), (h.0.1, h.1)))
          (error_if-Checks (not (member from columns)) (no_mapping_field table from)
            then check_fields-Checks (no_mapping_source table) (sources_of mapping)
            then check_mappings-Checks table fields)

    -- Every field that the configuration of the task names, but for the source of an extraction, is a
    -- column.
    pub record FieldsKnown (task : SyncTaskConfig V) : Type 0 where
      pub filter : FilterKnown task.filter
      pub mapping : All MappingKnown (fields_of_mapping task)
      pub transforms : All TransformKnown (transforms_of task)
      pub soft_delete : All IsColumn (soft_delete_field task)

    validate_columns-Checks :
        (task : SyncTaskConfig V) → Checks (validate_columns task columns) (FieldsKnown task)
    unfolding validate_columns is_valid
    validate_columns-Checks task =
        let filters = fields_of_filter-Known task.filter in
        Checks-map
          (λ h. record {
            filter = filters.0 h.0;
            mapping = h.1.0;
            transforms = h.1.1.0;
            soft_delete = h.1.1.1.0;
          })
          (λ k. (filters.1 k.filter, (k.mapping, (k.transforms, (k.soft_delete, tt)))))
          (check_fields-Checks (no_filter_field task.table) (fields_of_filter task.filter)
            then check_mappings-Checks task.table (fields_of_mapping task)
            then check_transforms-Checks task.table (transforms_of task)
            then check_fields-Checks (no_soft_delete_field task.table) (soft_delete_field task)
            then Checks-same {f = add_info (table_columns task.table (length columns) columns)}
                (λ r. refl))

module _ {V : Type 0} (get_table_columns : String → Option (List String)) where
  -- The fields of a task are columns, as far as the columns of its table can be read.
  abbrev pub KnownIn : Option (List String) → SyncTaskConfig V → Type 0
  KnownIn none task = Unit
  KnownIn (some columns) task = FieldsKnown (column_set columns) task

  abbrev pub TaskKnown : SyncTaskConfig V → Type 0
  TaskKnown task = KnownIn (get_table_columns task.table) task

  validate_read_fields-Checks :
      (task : SyncTaskConfig V) (columns : Option (List String))
      → Checks (validate_read_fields task columns) (KnownIn columns task)
  unfolding validate_read_fields is_valid
  validate_read_fields-Checks task none = Checks-same (λ r. refl)
  validate_read_fields-Checks task (some columns) =
      validate_columns-Checks (column_set columns) task

  validate_task_fields-Checks :
      (task : SyncTaskConfig V)
      → Checks (validate_task_fields get_table_columns task) (TaskKnown task)
  unfolding validate_task_fields
  validate_task_fields-Checks task = validate_read_fields-Checks task (get_table_columns task.table)

  validate_all_fields-Checks :
      (tasks : List (SyncTaskConfig V))
      → Checks (validate_all_fields get_table_columns tasks) (All TaskKnown tasks)
  unfolding validate_all_fields
  validate_all_fields-Checks [] = Checks-same (λ r. refl)
  validate_all_fields-Checks (t ∷ ts) =
      validate_task_fields-Checks t then validate_all_fields-Checks ts

  -- The tasks that are checked: all of them if the single source is PostgreSQL and can be reached.
  abbrev pub ChecksTasks : Bool → Option SourceConfig → List (SyncTaskConfig V) → Type 0
  ChecksTasks true (some (postgresql pg)) tasks = All TaskKnown tasks
  ChecksTasks _ _ tasks = Unit

  -- The check against the schema leaves the report valid exactly if it was valid and, where the
  -- single source is PostgreSQL and can be reached, every field that a task names in its
  -- conditions, nested ones too, in its mapping with the sources, in a rename, in a conversion or
  -- for soft deletes is a column of its table, for the tasks whose columns can be read.
  pub is_valid-validate_fields :
      (connects : Bool) (config : Config V) (r : ValidationReport)
      → (is_valid (validate_fields_against_schema get_table_columns connects config r) ≡ true)
        ↔ ((is_valid r ≡ true) × ChecksTasks connects config.source config.sync_tasks)
  unfolding validate_fields_against_schema is_valid
  is_valid-validate_fields connects config r = (checked config.source connects).iff r
    where
      checked :
          (source : Option SourceConfig) (c : Bool)
          → Checks
              (validate_fields_against_schema get_table_columns c
                (record config { source = source }))
              (ChecksTasks c source config.sync_tasks)
      checked none true = Checks-same (λ r. refl)
      checked none false = Checks-same (λ r. refl)
      checked (some mysql) true = Checks-same (λ r. refl)
      checked (some mysql) false = Checks-same (λ r. refl)
      checked (some mongodb) true = Checks-same (λ r. refl)
      checked (some mongodb) false = Checks-same (λ r. refl)
      checked (some (postgresql pg)) true = validate_all_fields-Checks config.sync_tasks
      checked (some (postgresql pg)) false = Checks-same (λ r. refl)
