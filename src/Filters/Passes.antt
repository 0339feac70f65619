-- ===== src/Filters/Passes.antt =====
-- src/pipeline/filter.rs: the events that pass the filter.
use meilibridge.Prelude.{
  String, ◌≡◌, refl, sym, ◌∙◌, ◌↔◌, Bool, true, false, not, ◌&&◌, Option, none, some, List, [], ◌∷◌,
  ◌==◌, member, any, arith, string_eq,
}
use meilibridge.Models.{
  Event, EventType, create, update, delete, truncate, schema, cdc, full_sync, inserted, updated,
  deleted, checkpoint, heartbeat,
}
use meilibridge.Config.{Conditions, TableFilter, FilterConfig}
use meilibridge.Filters.{
  JsonValues, Row, is_listed, is_table_allowed, is_type_name, is_event_type_allowed,
  check_conditions, check_value, should_process,
}
use meilibridge.Filters.Holds.{AllHold, evaluate_all_iff, no_iff, not_iff, and_iff}

-- The table is in the whitelist if there is one.
abbrev pub Whitelisted : Option (List String) → String → Type 0
Whitelisted none table = Unit
Whitelisted (some tables) table = member table tables ≡ true

abbrev pub Blacklisted : Option (List String) → String → Type 0
Blacklisted none table = ⊥
Blacklisted (some tables) table = member table tables ≡ true

-- The name of a type of event that the configuration can list; the others cannot be listed.
abbrev pub name_of : EventType → Option String
name_of create = some "create"
name_of update = some "update"
name_of delete = some "delete"
name_of truncate = none
name_of schema = none

abbrev pub NameListed : Option String → List String → Type 0
NameListed none names = ⊥
NameListed (some name) names = member name names ≡ true

abbrev pub TypeListed : Option (List String) → EventType → Type 0
TypeListed none event_type = Unit
TypeListed (some names) event_type = NameListed (name_of event_type) names

whitelist_iff :
    (w : Option (List String)) (t : String) → (is_listed t w true ≡ true) ↔ Whitelisted w t
whitelist_iff none t = (λ h. tt, λ h. refl)
whitelist_iff (some ts) t = (λ h. h, λ h. h)

blacklist_iff :
    (b : Option (List String)) (t : String) → (is_listed t b false ≡ true) ↔ Blacklisted b t
blacklist_iff none t = no_iff (λ e. e)
blacklist_iff (some ts) t = (λ h. h, λ h. h)

abbrev pub TableAllowed : TableFilter → String → Type 0
TableAllowed f table = Whitelisted f.whitelist table × (¬ Blacklisted f.blacklist table)

is_table_allowed_iff :
    (f : TableFilter) (t : String) → (is_table_allowed f t ≡ true) ↔ TableAllowed f t
unfolding is_table_allowed
is_table_allowed_iff f t =
    and_iff (is_listed t f.whitelist true) (not (is_listed t f.blacklist false))
      (whitelist_iff f.whitelist t)
      (not_iff (is_listed t f.blacklist false) (Blacklisted f.blacklist t)
        (blacklist_iff f.blacklist t))

any-named :
    (n : String) (p : String → Bool)
    → ((x : String) → p x ≡ (x == n))
    → (ts : List String) → any p ts ≡ member n ts
any-named n p same [] = refl
any-named n p same (x ∷ xs) = rw (same x, any-named n p same xs) refl

any-never :
    (p : String → Bool) → ((x : String) → p x ≡ false) → (ts : List String) → any p ts ≡ false
any-never p never [] = refl
any-never p never (x ∷ xs) = rw (never x) (any-never p never xs)

listed_iff :
    (n : String) (p : String → Bool)
    → ((x : String) → p x ≡ (x == n))
    → (ts : List String) → (any p ts ≡ true) ↔ (member n ts ≡ true)
listed_iff n p same ts = (λ h. sym (any-named n p same ts) ∙ h, λ h. any-named n p same ts ∙ h)

never_iff :
    (p : String → Bool) → ((x : String) → p x ≡ false) → (ts : List String) → (any p ts ≡ true) ↔ ⊥
never_iff p never ts = (λ h. ground (arith, sym (any-never p never ts) ∙ h), λ e. elim e [ ])

any-type_name :
    (et : EventType) (ts : List String)
    → (any (is_type_name et) ts ≡ true) ↔ NameListed (name_of et) ts
any-type_name create = listed_iff "create" (is_type_name create) (λ x. refl)
any-type_name update = listed_iff "update" (is_type_name update) (λ x. refl)
any-type_name delete = listed_iff "delete" (is_type_name delete) (λ x. refl)
any-type_name truncate = never_iff (is_type_name truncate) (λ x. refl)
any-type_name schema = never_iff (is_type_name schema) (λ x. refl)

is_event_type_allowed_iff :
    (ns : Option (List String)) (et : EventType)
    → (is_event_type_allowed ns et ≡ true) ↔ TypeListed ns et
unfolding is_event_type_allowed
is_event_type_allowed_iff none et = (λ h. tt, λ h. refl)
is_event_type_allowed_iff (some ns) et = any-type_name et ns

module _ (js : JsonValues) where
  open js use {Value, as_object}

  abbrev pub ConditionsHold : Option (Conditions Value) → Row js → Type 0
  ConditionsHold none row = Unit
  ConditionsHold (some cs) row = AllHold js cs row

  -- The conditions hold of a value that is an object; nothing is asked of another value.
  abbrev pub HoldForObject : Option (Conditions Value) → Option (Row js) → Type 0
  HoldForObject cs none = Unit
  HoldForObject cs (some row) = ConditionsHold cs row

  -- An event that the configuration lets through.
  abbrev pub Passes : FilterConfig Value → Event Value → Type 0
  Passes f (cdc e) =
      TableAllowed f.tables e.table
      × (TypeListed f.event_types e.event_type × ConditionsHold f.conditions e.columns)
  Passes f (full_sync table value) =
      TableAllowed f.tables table × HoldForObject f.conditions (as_object value)
  Passes f (inserted table new_data position) =
      TableAllowed f.tables table
      × (TypeListed f.event_types create × HoldForObject f.conditions (as_object new_data))
  Passes f (updated table old_data new_data position) =
      TableAllowed f.tables table
      × (TypeListed f.event_types update × HoldForObject f.conditions (as_object new_data))
  Passes f (deleted table old_data position) =
      TableAllowed f.tables table
      × (TypeListed f.event_types delete × HoldForObject f.conditions (as_object old_data))
  Passes f (checkpoint position) = Unit
  Passes f heartbeat = Unit

  check_conditions_iff :
      (cs : Option (Conditions Value)) (row : Row js)
      → (check_conditions js cs row ≡ true) ↔ ConditionsHold cs row
  unfolding check_conditions
  check_conditions_iff none row = (λ h. tt, λ h. refl)
  check_conditions_iff (some cs) row = evaluate_all_iff js cs row

  -- The check of a value, as the check of the object that it is.
  check_object_iff :
      (cs : Option (Conditions Value)) (o : Option (Row js))
      → ((elim o [ none ↦ true | some row ↦ check_conditions js cs row ]) ≡ true)
        ↔ HoldForObject cs o
  check_object_iff cs none = (λ h. tt, λ h. refl)
  check_object_iff cs (some row) = check_conditions_iff cs row

  check_value_iff :
      (cs : Option (Conditions Value)) (v : Value)
      → (check_value js cs v ≡ true) ↔ HoldForObject cs (as_object v)
  unfolding check_value
  check_value_iff cs v = check_object_iff cs (as_object v)

  data_event_iff :
      (f : FilterConfig Value) (table : String) (et : EventType) (v : Value)
      → (is_table_allowed f.tables table
            && (is_event_type_allowed f.event_types et && check_value js f.conditions v)
          ≡ true)
        ↔ (TableAllowed f.tables table
            × (TypeListed f.event_types et × HoldForObject f.conditions (as_object v)))
  data_event_iff f table et v =
      and_iff (is_table_allowed f.tables table)
        (is_event_type_allowed f.event_types et && check_value js f.conditions v)
        (is_table_allowed_iff f.tables table)
        (and_iff (is_event_type_allowed f.event_types et) (check_value js f.conditions v)
          (is_event_type_allowed_iff f.event_types et) (check_value_iff f.conditions v))

  -- The filter lets an event through exactly if its table is in the whitelist and not in the
  -- blacklist, its type is listed (a full sync has no type, and a truncation or a change of the
  -- schema is never listed), and every condition holds of its row, where the row is an object; of a
  -- condition, its nested ones as a conjunction or disjunction, and texts by occurrence.
  -- Checkpoints and heartbeats always pass.
  pub should_process_iff :
      (f : FilterConfig Value) (e : Event Value) → (should_process js f e ≡ true) ↔ Passes f e
  unfolding should_process
  should_process_iff f (cdc e) =
      and_iff (is_table_allowed f.tables e.table)
        (is_event_type_allowed f.event_types e.event_type
          && check_conditions js f.conditions e.columns)
        (is_table_allowed_iff f.tables e.table)
        (and_iff (is_event_type_allowed f.event_types e.event_type)
          (check_conditions js f.conditions e.columns)
          (is_event_type_allowed_iff f.event_types e.event_type)
          (check_conditions_iff f.conditions e.columns))
  should_process_iff f (full_sync table v) =
      and_iff (is_table_allowed f.tables table) (check_value js f.conditions v)
        (is_table_allowed_iff f.tables table) (check_value_iff f.conditions v)
  should_process_iff f (inserted table v position) = data_event_iff f table create v
  should_process_iff f (updated table old_data v position) = data_event_iff f table update v
  should_process_iff f (deleted table v position) = data_event_iff f table delete v
  should_process_iff f (checkpoint position) = (λ h. tt, λ h. refl)
  should_process_iff f heartbeat = (λ h. tt, λ h. refl)
