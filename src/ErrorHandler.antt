-- ===== src/ErrorHandler.antt =====
-- src/recovery/error_handler.rs: ErrorHandler, which chooses what to do about an error of a task.
-- Times are numbers of seconds. The event of the context is not read and is left out, as is the
-- error rate, a float.
pub mod Strategy
mod Tests
use meilibridge.Prelude.{
  ℕ, suc, ◌-◌, String, Bool, true, false, Option, none, some, List, [], ◌∷◌, Equality, inc_u32,
  inc_u64, ltb, leb, string_eq, if◌then◌else◌,
}
use meilibridge.Prelude.Map
use meilibridge.Prelude.Map.{Map}
use meilibridge.Retry.{MeiliBridgeError, config, configuration, validation, io}

pub data ErrorHandlingStrategy : Type 0 where
  retry dead_letter skip fail pause : ErrorHandlingStrategy

pub data ErrorType : Type 0 where
  network data_validation not_found permission rate_limit timeout unknown : ErrorType

pub record ErrorContext : Type 0 where
  pub error : String
  pub error_type : ErrorType
  pub task_id : String
  pub retry_count : ℕ
  pub first_error_time : ℕ
  pub last_error_time : ℕ

pub record ErrorStats : Type 0 where
  pub total_errors : ℕ
  pub consecutive_errors : ℕ
  pub error_types : ErrorType → ℕ
  pub last_success : Option ℕ
  pub last_error : Option ℕ

abbrev pub new_stats : ErrorStats
new_stats = record {
  total_errors = 0;
  consecutive_errors = 0;
  error_types = λ t. 0;
  last_success = none;
  last_error = none;
}

abbrev pub is_type : ErrorType → ErrorType → Bool
is_type network network = true
is_type data_validation data_validation = true
is_type not_found not_found = true
is_type permission permission = true
is_type rate_limit rate_limit = true
is_type timeout timeout = true
is_type unknown unknown = true
is_type _ _ = false

unfoldable pub record_error : ErrorType → ℕ → ErrorStats → ErrorStats
record_error error_type now s = record s {
  total_errors = inc_u64 s.total_errors;
  consecutive_errors = inc_u32 s.consecutive_errors;
  error_types = λ t. if is_type error_type t then inc_u64 (s.error_types t) else s.error_types t;
  last_error = some now;
}

unfoldable pub record_task_success : ℕ → ErrorStats → ErrorStats
record_task_success now s = record s { consecutive_errors = 0; last_success = some now }

pub record ErrorHandler : Type 0 where
  pub task_stats : Map String ErrorStats
  pub max_consecutive_errors : ℕ
  pub max_retry_count : ℕ
  pub pause_on_permission_errors : Bool

abbrev pub new : ErrorHandler
new = record {
  task_stats = [];
  max_consecutive_errors = 10;
  max_retry_count = 3;
  pause_on_permission_errors = true;
}

-- The strategy for the type of an error; a duration below zero is no more than 30 minutes.
unfoldable pub strategy_by_type : ErrorHandler → ErrorType → ErrorContext → ErrorHandlingStrategy
strategy_by_type h permission c = if h.pause_on_permission_errors then pause else dead_letter
strategy_by_type h data_validation c = dead_letter
strategy_by_type h not_found c = if ltb c.retry_count 2 then retry else skip
strategy_by_type h rate_limit c = retry
strategy_by_type h unknown c = if ltb c.retry_count h.max_retry_count then retry else dead_letter
strategy_by_type h _ c =
    if ltb c.retry_count h.max_retry_count
    then retry
    else if ltb 1800 (c.last_error_time - c.first_error_time)
    then pause
    else dead_letter

abbrev pub or_new : Option ErrorStats → ErrorStats
or_new none = new_stats
or_new (some s) = s

unfoldable pub noted : ErrorContext → ℕ → ErrorHandler → ErrorStats
unfolding record_error
noted c now h = record_error c.error_type now (or_new (Map.lookup c.task_id h.task_stats))

unfoldable pub determine_strategy :
    ErrorContext → ℕ → ErrorHandler → ErrorHandlingStrategy × ErrorHandler
unfolding noted strategy_by_type
determine_strategy c now h =
    let stats = noted c now h in
    (
      if leb h.max_consecutive_errors stats.consecutive_errors
          then pause
          else strategy_by_type h c.error_type c,
      record h { task_stats = Map.insert c.task_id stats h.task_stats },
    )

unfoldable pub record_success : String → ℕ → ErrorHandler → ErrorHandler
unfolding record_task_success
record_success task_id now h = elim (Map.lookup task_id h.task_stats) [
  | none ↦ h
  | some s ↦ record h { task_stats = Map.insert task_id (record_task_success now s) h.task_stats }
]

-- More than five minutes since the last error.
unfoldable pub should_auto_resume : String → ℕ → ErrorHandler → Bool
should_auto_resume task_id now h = elim (Map.lookup task_id h.task_stats) [
  | none ↦ false
  | some s ↦ elim s.last_error [ none ↦ false | some last ↦ ltb 300 (now - last) ]
]

unfoldable pub clear_stats : String → ErrorHandler → ErrorHandler
clear_stats task_id h = record h { task_stats = Map.remove task_id h.task_stats }

unfoldable pub classify_error : {L : Type 0} → MeiliBridgeError L → ErrorType
classify_error (config msg) = permission
classify_error (configuration msg) = permission
classify_error (validation msg) = data_validation
classify_error (io e) = network
classify_error _ = unknown
