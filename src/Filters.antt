-- ===== src/Filters.antt =====
-- src/pipeline/filter.rs: EventFilter. JSON values belong to serde_json: their operations are the
-- interface JsonValues; the numbers that `as_f64` gives are of its type Float.
pub mod Holds
pub mod Passes
pub mod SoftDelete
mod Tests
use meilibridge.Prelude.{
  String, Bool, true, false, not, ◌&&◌, ◌||◌, Option, none, some, List, [], ◌∷◌, Equality, ◌==◌,
  member, any, option_eqb, string_eq,
}
use meilibridge.Prelude.Map
use meilibridge.Prelude.Map.{Map}
use meilibridge.Prelude.Texts.{contains_text}
use meilibridge.Models.{
  Event, EventType, create, update, delete, truncate, schema, cdc, full_sync, inserted, updated,
  deleted, checkpoint, heartbeat,
}
use meilibridge.Config.{
  Condition, equals, not_equals, contains, greater_than, less_than, is_in, is_null, is_not_null,
  all_of, any_of, Conditions, nil, cons, TableFilter, FilterConfig,
}

pub record JsonValues : Type 1 where
  pub Value : Type 0
  pub same : Equality Value
  pub is_null_value : Value → Bool
  pub as_object : Value → Option (Map String Value)
  pub object : Map String Value → Value
  pub get : Value → String → Option Value
  pub as_str : Value → Option String
  pub Float : Type 0
  pub as_f64 : Value → Option Float
  pub greater : Float → Float → Bool
  pub less : Float → Float → Bool

abbrev pub is_listed : String → Option (List String) → Bool → Bool
is_listed table none default = default
is_listed table (some tables) default = member table tables

unfoldable pub is_table_allowed : TableFilter → String → Bool
is_table_allowed f table =
    is_listed table f.whitelist true && not (is_listed table f.blacklist false)

-- The types that a configured name stands for.
abbrev pub is_type_name : EventType → String → Bool
is_type_name create name = name == "create"
is_type_name update name = name == "update"
is_type_name delete name = name == "delete"
is_type_name truncate name = false
is_type_name schema name = false

unfoldable pub is_event_type_allowed : Option (List String) → EventType → Bool
is_event_type_allowed none event_type = true
is_event_type_allowed (some allowed_types) event_type = any (is_type_name event_type) allowed_types

-- A test of two values that may not be of the type that it needs.
abbrev pub both_are : {A : Type 0} → (A → A → Bool) → Option A → Option A → Bool
both_are op (some a) (some b) = op a b
both_are op _ _ = false

module _ (js : JsonValues) where
  open js use {Value, same, is_null_value, as_object, as_str, Float, as_f64, greater, less}

  abbrev pub Row : Type 0
  Row = Map String Value

  abbrev pub value_contains : Option Value → Value → Bool
  value_contains none pattern = false
  value_contains (some v) pattern = both_are contains_text (as_str v) (as_str pattern)

  abbrev pub compare_values : (Float → Float → Bool) → Option Value → Value → Bool
  compare_values op none value = false
  compare_values op (some v) value = both_are op (as_f64 v) (as_f64 value)

  abbrev pub is_one_of : Option Value → List Value → Bool
  is_one_of none values = false
  is_one_of (some v) values = any (λ w. same.eqb w v) values

  abbrev pub is_absent_or_null : Option Value → Bool
  is_absent_or_null none = true
  is_absent_or_null (some v) = is_null_value v

  abbrev pub is_present : Option Value → Bool
  is_present none = false
  is_present (some v) = not (is_null_value v)

  abbrev pub is_value : Option Value → Value → Bool
  is_value none value = false
  is_value (some v) value = same.eqb v value

  unfoldable mutual
    pub evaluate_condition : Condition Value → Row → Bool
    evaluate_condition (equals field value) row = is_value (Map.lookup field row) value
    evaluate_condition (not_equals field value) row = not (is_value (Map.lookup field row) value)
    evaluate_condition (contains field value) row = value_contains (Map.lookup field row) value
    evaluate_condition (greater_than field value) row =
        compare_values greater (Map.lookup field row) value
    evaluate_condition (less_than field value) row =
        compare_values less (Map.lookup field row) value
    evaluate_condition (is_in field values) row = is_one_of (Map.lookup field row) values
    evaluate_condition (is_null field) row = is_absent_or_null (Map.lookup field row)
    evaluate_condition (is_not_null field) row = is_present (Map.lookup field row)
    evaluate_condition (all_of conditions) row = evaluate_all conditions row
    evaluate_condition (any_of conditions) row = evaluate_any conditions row

    pub evaluate_all : Conditions Value → Row → Bool
    evaluate_all nil row = true
    evaluate_all (cons c cs) row = evaluate_condition c row && evaluate_all cs row

    pub evaluate_any : Conditions Value → Row → Bool
    evaluate_any nil row = false
    evaluate_any (cons c cs) row = evaluate_condition c row || evaluate_any cs row

  unfoldable pub check_conditions : Option (Conditions Value) → Row → Bool
  unfolding evaluate_all
  check_conditions none row = true
  check_conditions (some conditions) row = evaluate_all conditions row

  -- The conditions are checked on an object only.
  unfoldable pub check_value : Option (Conditions Value) → Value → Bool
  unfolding check_conditions
  check_value conditions value = elim (as_object value) [
    | none ↦ true
    | some row ↦ check_conditions conditions row
  ]

  unfoldable pub should_process : FilterConfig Value → Event Value → Bool
  unfolding is_table_allowed is_event_type_allowed check_conditions check_value
  should_process f (cdc e) =
      is_table_allowed f.tables e.table
      && (is_event_type_allowed f.event_types e.event_type
          && check_conditions f.conditions e.columns)
  should_process f (full_sync table value) =
      is_table_allowed f.tables table && check_value f.conditions value
  should_process f (inserted table new_data position) =
      is_table_allowed f.tables table
      && (is_event_type_allowed f.event_types create && check_value f.conditions new_data)
  should_process f (updated table old_data new_data position) =
      is_table_allowed f.tables table
      && (is_event_type_allowed f.event_types update && check_value f.conditions new_data)
  should_process f (deleted table old_data position) =
      is_table_allowed f.tables table
      && (is_event_type_allowed f.event_types delete && check_value f.conditions old_data)
  should_process f (checkpoint position) = true
  should_process f heartbeat = true
