-- ===== src/Config.antt =====
-- src/config/mod.rs, sync_task.rs, pipeline.rs, source.rs and meilisearch.rs: the parts of the
-- configuration that the modelled code reads. A JSON value is of the type V, a parameter.
use meilibridge.Prelude.{ℕ, String, Bool, Option, List}
use meilibridge.Prelude.Map.{Map}

-- A condition with a list of conditions, and such lists.
mutual
  pub data Condition (V : Type 0) : Type 0 where
    equals not_equals contains greater_than less_than : String → V → Condition V
    is_in : String → List V → Condition V
    is_null is_not_null : String → Condition V
    all_of any_of : Conditions V → Condition V

  pub data Conditions (V : Type 0) : Type 0 where
    nil : Conditions V
    cons : Condition V → Conditions V → Conditions V

pub record TableFilter : Type 0 where
  pub whitelist : Option (List String)
  pub blacklist : Option (List String)

pub record FilterConfig (V : Type 0) : Type 0 where
  pub tables : TableFilter
  pub event_types : Option (List String)
  pub conditions : Option (Conditions V)

pub data FieldMapping (V : Type 0) : Type 0 where
  simple : String → FieldMapping V
  complex :
      Option String
      → Option V
      → Option (List String)
      → Option String
      → Option String
      → FieldMapping V

pub record TableMapping (V : Type 0) : Type 0 where
  pub name : Option String
  pub fields : Option (Map String (FieldMapping V))

pub record MappingConfig (V : Type 0) : Type 0 where
  pub tables : Map String (TableMapping V)
  pub unmapped_fields_strategy : String
  pub unmapped_fields_prefix : Option String

pub data FieldTransform : Type 0 where
  rename convert compute : String → String → FieldTransform
  extract : String → String → String → FieldTransform

pub record SyncOptions : Type 0 where
  pub batch_size : ℕ
  pub batch_timeout_ms : ℕ
  pub deduplicate : Bool

pub record SoftDeleteConfig (V : Type 0) : Type 0 where
  pub field : String
  pub delete_values : List V
  pub handle_on_full_sync : Bool
  pub handle_on_cdc : Bool

pub record SyncTaskConfig (V : Type 0) : Type 0 where
  pub id : String
  pub source_name : String
  pub table : String
  pub index : String
  pub primary_key : String
  pub filter : Option (FilterConfig V)
  pub transform : Option (Map String (Map String FieldTransform))
  pub mapping : Option (MappingConfig V)
  pub full_sync_on_start : Option Bool
  pub options : SyncOptions
  pub auto_start : Option Bool
  pub soft_delete : Option (SoftDeleteConfig V)

pub record PoolConfig : Type 0 where
  pub max_size : ℕ
  pub min_idle : ℕ

pub record PostgreSqlConfig : Type 0 where
  pub slot_name : String
  pub publication : String
  pub pool : PoolConfig

pub data SourceConfig : Type 0 where
  postgresql : PostgreSqlConfig → SourceConfig
  mysql mongodb : SourceConfig

pub record NamedSourceConfig : Type 0 where
  pub name : String
  pub config : SourceConfig

pub record MeilisearchConfig : Type 0 where
  pub url : String
  pub api_key : Option String
  pub timeout : ℕ
  pub auto_create_index : Bool

pub record Config (V : Type 0) : Type 0 where
  pub source : Option SourceConfig
  pub sources : List NamedSourceConfig
  pub meilisearch : MeilisearchConfig
  pub sync_tasks : List (SyncTaskConfig V)
