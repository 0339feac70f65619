-- ===== src/Models.antt =====
-- src/models/progress.rs, src/models/event.rs and src/models/stream_event.rs: positions, checkpoints
-- and the events of the stream. Times are numbers of a clock's ticks. A JSON value is of the type V,
-- a parameter, since serde_json is not part of the repository. Of a checkpoint's JSON metadata the
-- record holds the fields that the code writes; `none` is the JSON null.
use meilibridge.Prelude.{ℕ, String, Bool, Option, none}
use meilibridge.Prelude.Map.{Map}

pub data Position : Type 0 where
  postgresql : String → Position
  mysql : String → ℕ → Position
  mongodb : String → Position

pub record ProgressStats : Type 0 where
  pub events_processed : ℕ
  pub events_failed : ℕ
  pub bytes_processed : ℕ
  pub last_event_at : Option ℕ

abbrev pub new_progress_stats : ProgressStats
new_progress_stats = record {
  events_processed = 0;
  events_failed = 0;
  bytes_processed = 0;
  last_event_at = none;
}

pub record CheckpointMetadata : Type 0 where
  pub transaction_id : String
  pub prepared : Bool
  pub committed : Bool
  pub committed_at : Option ℕ

pub record Checkpoint : Type 0 where
  pub id : String
  pub task_id : String
  pub position : Position
  pub created_at : ℕ
  pub stats : ProgressStats
  pub metadata : Option CheckpointMetadata

pub data EventType : Type 0 where
  create update delete truncate schema : EventType

pub record CdcEvent (V : Type 0) : Type 0 where
  pub event_type : EventType
  pub table : String
  pub schema_name : String
  pub columns : Map String V
  pub timestamp : ℕ
  pub position : Option Position

pub data Event (V : Type 0) : Type 0 where
  cdc : CdcEvent V → Event V
  full_sync : String → V → Event V
  inserted : String → V → Option Position → Event V
  updated : String → V → V → Option Position → Event V
  deleted : String → V → Option Position → Event V
  checkpoint : Position → Event V
  heartbeat : Event V
