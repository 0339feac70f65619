-- ===== src/Mapper.antt =====
-- src/pipeline/mapper.rs: FieldMapper. JSON values belong to serde_json: their operations are the
-- interface MappedValues. The mappings of a table, a hash map, are visited in the order of their list.
pub mod Nested
pub mod Unmapped
mod Tests
use Prim.Native.String.{◌++◌ as str_append}
use meilibridge.Prelude.{
  ℕ, String, Bool, true, false, not, ◌||◌, ◌&&◌, Option, none, some, List, [], ◌∷◌, ◌++◌, member,
  string_eq, ◌==◌, if◌then◌else◌,
}
use meilibridge.Prelude.Map
use meilibridge.Prelude.Map.{Map}
use meilibridge.Models.{Event, CdcEvent, cdc, full_sync}
use meilibridge.Config.{FieldMapping, simple, complex, TableMapping, MappingConfig}
use meilibridge.Mapper.Nested.{MappedValues, extract_nested}

abbrev pub or_else {ℓ} : {A : Type ℓ} → Option A → A → A
or_else none default = default
or_else (some a) default = a

unfoldable pub join : String → List String → String
join sep [] = String.[]
join sep (x ∷ []) = x
join sep (x ∷ y ∷ xs) = str_append x (str_append sep (join sep (y ∷ xs)))

module _ (js : MappedValues) where
  open js use {Value, null, text, object, as_object, as_str, is_null_value, display}

  abbrev pub Row : Type 0
  Row = Map String Value

  -- The fields that are mapped so far, and the source fields that they came from.
  pub record Mapped : Type 0 where
    pub result : Row
    pub mapped_sources : List String

  unfoldable pub value_to_string : Value → String
  value_to_string value = elim (as_str value) [
    | some s ↦ s
    | none ↦ if is_null_value value then String.[] else display value
  ]

  abbrev pub put : String → Value → String → Mapped → Mapped
  put target value source m = record {
    result = Map.insert target value m.result;
    mapped_sources = m.mapped_sources ++ source ∷ [];
  }

  -- The texts of the fields that the row has, and these fields.
  unfoldable pub gather : List String → Row → List String × List String
  unfolding value_to_string
  gather [] row = ([], [])
  gather (source ∷ sources) row =
      let (values, used) = gather sources row in
      elim (Map.lookup source row) [
        | none ↦ (values, used)
        | some value ↦ (value_to_string value ∷ values, source ∷ used)
      ]

  abbrev pub insert_joined : String → Option String → List String → Row → Row
  insert_joined target separator [] result = result
  insert_joined target separator (v ∷ vs) result =
      Map.insert target (text (join (or_else separator ",") (v ∷ vs))) result

  unfoldable pub map_composite : String → List String → Option String → Row → Mapped → Mapped
  unfolding gather join
  map_composite target sources separator row m =
      let gathered = gather sources row in
      record {
        result = insert_joined target separator gathered.0 m.result;
        mapped_sources = m.mapped_sources ++ gathered.1;
      }

  abbrev pub put_if_some : String → Option Value → String → Mapped → Mapped
  put_if_some target none source m = m
  put_if_some target (some value) source m = put target value source m

  unfoldable pub map_complex :
      String
      → Option Value
      → Option (List String)
      → Option String
      → Option String
      → String
      → Row
      → Mapped
      → Mapped
  unfolding map_composite extract_nested
  map_complex target default (some sources) separator path source row m =
      map_composite target sources separator row m
  map_complex target default none separator (some path) source row m =
      put_if_some target (extract_nested js row source path) source m
  map_complex target default none separator none source row m =
      put target (or_else (Map.lookup source row) (or_else default null)) source m

  unfoldable pub map_field : Row → String × FieldMapping Value → Mapped → Mapped
  unfolding map_complex
  map_field row (source, simple target) m = put_if_some target (Map.lookup source row) source m
  map_field row (source, complex (some target) default sources separator path) m =
      map_complex target default sources separator path source row m
  map_field row (source, complex none default sources separator path) m = m

  unfoldable pub apply_mappings : Row → Map String (FieldMapping Value) → Mapped → Mapped
  unfolding map_field
  apply_mappings row [] m = m
  apply_mappings row (f ∷ fs) m = apply_mappings row fs (map_field row f m)

  -- The unmapped fields are included under their names, where no mapping took the name.
  unfoldable pub include_unmapped : Row → List String → Row → Row
  include_unmapped [] mapped_sources result = result
  include_unmapped ((k, v) ∷ row) mapped_sources result = include_unmapped row mapped_sources (
      if not (member k mapped_sources) && not (Map.contains k result)
      then Map.insert k v result
      else result)

  unfoldable pub prefix_unmapped : String → Row → List String → Row → Row
  prefix_unmapped prefix [] mapped_sources result = result
  prefix_unmapped prefix ((k, v) ∷ row) mapped_sources result =
      prefix_unmapped prefix row mapped_sources (
        if not (member k mapped_sources) then Map.insert (str_append prefix k) v result else result)

  unfoldable pub map_fields : MappingConfig Value → Row → Map String (FieldMapping Value) → Row
  unfolding apply_mappings include_unmapped prefix_unmapped
  map_fields config row mappings =
      let m = apply_mappings row mappings (record { result = []; mapped_sources = [] }) in
      if config.unmapped_fields_strategy == "exclude"
      then m.result
      else if config.unmapped_fields_strategy == "prefix"
      then prefix_unmapped (or_else config.unmapped_fields_prefix "_") row m.mapped_sources m.result
      else include_unmapped row m.mapped_sources m.result

  abbrev pub map_row : MappingConfig Value → Option (Map String (FieldMapping Value)) → Row → Row
  map_row config none row = row
  map_row config (some mappings) row = map_fields config row mappings

  abbrev pub map_object :
      MappingConfig Value → Option (Map String (FieldMapping Value)) → Value → Value
  map_object config none value = value
  map_object config (some mappings) value = elim (as_object value) [
    | none ↦ value
    | some row ↦ object (map_fields config row mappings)
  ]

  unfoldable pub map_event : MappingConfig Value → Event Value → Event Value
  unfolding map_fields
  map_event config (cdc e) = elim (Map.lookup e.table config.tables) [
    | none ↦ cdc e
    | some t ↦
        cdc
          (record e { table = or_else t.name e.table; columns = map_row config t.fields e.columns })
  ]
  map_event config (full_sync table value) = elim (Map.lookup table config.tables) [
    | none ↦ full_sync table value
    | some t ↦ full_sync (or_else t.name table) (map_object config t.fields value)
  ]
  map_event config event = event
