-- ===== src/Filters/Tests.antt =====
-- src/pipeline/filter.rs and soft_delete.rs: the theorems, with small JSON values.
use meilibridge.Prelude.{
  ℕ, ◌≡◌, refl, ◌↔◌, true, none, some, [], ◌∷◌, nat_eq, ltb, nat_eqb, string_eq,
}
use meilibridge.Prelude.Map
use meilibridge.Prelude.Map.{Map}
use meilibridge.Prelude.Texts.{contains_text}
use meilibridge.Models.{update, CdcEvent, cdc, deleted}
use meilibridge.Config.{
  FilterConfig, SoftDeleteConfig, greater_than, is_not_null, any_of, nil, cons,
}
use meilibridge.Filters.{
  JsonValues, should_process, is_table_allowed, is_event_type_allowed, check_conditions,
  evaluate_all,
}
use meilibridge.Filters.Passes.{Passes, should_process_iff}
use meilibridge.Filters.SoftDelete.{
  transform_event, Outcome, transform_event-Outcome, marks, is_soft_deleted,
}

-- Numbers as values: 0 is the null.
abbrev numbers : JsonValues
numbers = record {
  Value = ℕ;
  same = nat_eq;
  is_null_value = λ v. nat_eqb v 0;
  as_object = λ v. none;
  object = λ row. 0;
  get = λ v k. none;
  as_str = λ v. none;
  Float = ℕ;
  as_f64 = λ v. some v;
  greater = λ a b. ltb b a;
  less = λ a b. ltb a b;
}

abbrev filters : FilterConfig ℕ
filters = record {
  tables = record { whitelist = some ("users" ∷ []); blacklist = none };
  event_types = some ("update" ∷ []);
  conditions =
      some (cons (any_of (cons (greater_than "age" 17) (cons (is_not_null "guardian") nil))) nil);
}

abbrev change : CdcEvent ℕ
change = record {
  event_type = update;
  table = "users";
  schema_name = "public";
  columns = ("age", 12) ∷ ("guardian", 3) ∷ ("state", 9) ∷ [];
  timestamp = 0;
  position = none;
}

should_process_iff_example :
    (should_process numbers filters (cdc change) ≡ true) ↔ Passes numbers filters (cdc change)
should_process_iff_example = should_process_iff numbers filters (cdc change)

change_passes : should_process numbers filters (cdc change) ≡ true
unfolding should_process is_table_allowed is_event_type_allowed check_conditions evaluate_all
    Map.lookup
change_passes = refl

abbrev soft : SoftDeleteConfig ℕ
soft = record {
  field = "state";
  delete_values = 8 ∷ 9 ∷ [];
  handle_on_full_sync = true;
  handle_on_cdc = true;
}

transform_event-Outcome_example :
    Outcome numbers soft (cdc change) (transform_event numbers soft (cdc change))
transform_event-Outcome_example = transform_event-Outcome numbers soft (cdc change)

change_deleted : transform_event numbers soft (cdc change) ≡ some (deleted "users" 0 none)
unfolding transform_event marks is_soft_deleted Map.lookup
change_deleted = refl

found_inside : contains_text "meilibridge" "bridge" ≡ true
unfolding contains_text
found_inside = refl
