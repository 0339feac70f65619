-- ===== src/Validation/Tests.antt =====
-- src/config/validation.rs: the theorems on the validation, with one task and one source.
use meilibridge.Prelude.{
  ℕ, String, ◌≡◌, refl, ◌↔◌, true, false, Option, none, some, List, [], ◌∷◌, string_eq,
}
use meilibridge.Prelude.Texts.{is_empty}
use meilibridge.Config.{SyncTaskConfig, equals, nil, cons, all_of, postgresql, Config}
use meilibridge.Validation.{
  is_valid, validate, new, validate_sync_tasks, validate_tasks, validate_task,
  validate_batch_config, validate_optional_filter, validate_filter, validate_source,
  validate_single_source, validate_source_config, validate_postgresql, validate_sources,
  validate_destination, error_if, warn_if, note_task, collect_fields_from_condition, collect_fields,
}
use meilibridge.Validation.Accepted.{IsAccepted, is_valid-validate}
use meilibridge.Validation.Fields.{
  validate_fields_against_schema, validate_all_fields, validate_task_fields, validate_read_fields,
  validate_columns, check_fields, check_mappings, check_transforms, column_set,
}
use meilibridge.Validation.Known.{ChecksTasks, is_valid-validate_fields}

abbrev users : SyncTaskConfig ℕ
users = record {
  id = "1";
  source_name = "primary";
  table = "users";
  index = "users";
  primary_key = "id";
  filter = some (record {
    tables = record { whitelist = none; blacklist = none };
    event_types = none;
    conditions = some (cons (all_of (cons (equals "status" 1) nil)) nil);
  });
  transform = none;
  mapping = none;
  full_sync_on_start = none;
  options = record { batch_size = 10; batch_timeout_ms = 1000; deduplicate = true };
  auto_start = some true;
  soft_delete = none;
}

abbrev config : Config ℕ
config = record {
  source = some (
      postgresql (record {
        slot_name = "slot";
        publication = "all_tables";
        pool = record { max_size = 10; min_idle = 1 };
      }));
  sources = [];
  meilisearch = record {
    url = "http://localhost";
    api_key = none;
    timeout = 30;
    auto_create_index = true;
  };
  sync_tasks = users ∷ [];
}

is_valid-validate_example : (is_valid (validate config) ≡ true) ↔ IsAccepted config
is_valid-validate_example = is_valid-validate config

config_valid : is_valid (validate config) ≡ true
unfolding validate validate_sync_tasks validate_tasks validate_task validate_batch_config
    validate_optional_filter validate_filter validate_source validate_single_source
    validate_source_config validate_postgresql validate_sources validate_destination error_if
    warn_if note_task is_valid is_empty
config_valid = refl

abbrev columns_of : String → Option (List String)
columns_of table = some ("id" ∷ "name" ∷ [])

is_valid-validate_fields_example :
    (is_valid (validate_fields_against_schema columns_of true config new) ≡ true)
    ↔ ((is_valid new ≡ true) × ChecksTasks columns_of true config.source config.sync_tasks)
is_valid-validate_fields_example = is_valid-validate_fields columns_of true config new

-- The condition names a field that is no column.
fields_invalid : is_valid (validate_fields_against_schema columns_of true config new) ≡ false
unfolding validate_fields_against_schema validate_all_fields validate_task_fields
    validate_read_fields validate_columns check_fields check_mappings check_transforms column_set
    error_if is_valid collect_fields collect_fields_from_condition
fields_invalid = refl
