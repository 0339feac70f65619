-- ===== src/Mapper/Tests.antt =====
-- src/pipeline/mapper.rs: the theorem on the unmapped fields, with texts as values.
use meilibridge.Prelude.{
  String, ◌≡◌, refl, false, none, some, [], ◌∷◌, if◌then◌else◌, string_eq, ◌==◌,
}
use meilibridge.Prelude.Map
use meilibridge.Prelude.Map.{Map}
use meilibridge.Config.{FieldMapping, simple, complex, MappingConfig}
use meilibridge.Mapper.Nested.{
  MappedValues, parts, first_part, later_parts, parse_usize, parse_digits,
}
use meilibridge.Mapper.{
  map_fields, apply_mappings, map_field, map_complex, map_composite, gather, value_to_string, join,
  include_unmapped,
}
use meilibridge.Mapper.Unmapped.{lookup-map_fields}

abbrev texts : MappedValues
texts = record {
  Value = String;
  null = "";
  text = λ s. s;
  object = λ row. "";
  as_object = λ v. none;
  as_array = λ v. none;
  as_str = λ v. some v;
  is_null_value = λ v. false;
  display = λ v. v;
}

abbrev mappings : Map String (FieldMapping String)
mappings =
    ("mail", simple "email")
    ∷ ("full", complex (some "name") none (some ("first" ∷ "last" ∷ [])) (some " ") none)
    ∷ []

abbrev config : MappingConfig String
config = record { tables = []; unmapped_fields_strategy = "include"; unmapped_fields_prefix = none }

abbrev row : Map String String
row = ("mail", "a@b.c") ∷ ("first", "Ada") ∷ ("last", "King") ∷ ("age", "36") ∷ []

lookup-map_fields_example :
    Map.lookup "age" (map_fields texts config row mappings)
    ≡ (if config.unmapped_fields_strategy == "exclude" then none else Map.lookup "age" row)
lookup-map_fields_example = lookup-map_fields texts config row mappings "age" refl refl refl

row_mapped :
    map_fields texts config row mappings
    ≡ ("email", "a@b.c") ∷ ("name", "Ada King") ∷ ("age", "36") ∷ []
unfolding map_fields apply_mappings map_field map_complex map_composite gather value_to_string join
    include_unmapped Map.lookup Map.insert Map.contains
row_mapped = refl

path_split : parts "address.0.city" ≡ "address" ∷ "0" ∷ "city" ∷ []
unfolding first_part later_parts
path_split = refl

index_parsed : parse_usize "+12" ≡ some 12
unfolding parse_usize parse_digits
index_parsed = refl
