-- ===== src/Mapper/Unmapped.antt =====
-- src/pipeline/mapper.rs: what becomes of the fields that no mapping names.
use meilibridge.Prelude.{
  String, ◌≡◌, refl, ◌∙◌, false, Option, none, some, List, [], ◌∷◌, ◌++◌, member, member-append,
  arith, string_eq, ◌==◌, if◌then◌else◌,
}
use meilibridge.Prelude.Map
use meilibridge.Prelude.Map.{Map, lookup-insert}
use meilibridge.Config.{FieldMapping, simple, complex, MappingConfig}
use meilibridge.Mapper.Nested.{MappedValues, extract_nested}
use meilibridge.Mapper.{
  or_else, join, Row, Mapped, put, gather, insert_joined, map_composite, put_if_some, map_complex,
  map_field, apply_mappings, include_unmapped, map_fields,
}

-- The field that a mapping writes, if it writes one.
abbrev pub target_of : {V : Type 0} → FieldMapping V → List String
target_of (simple target) = target ∷ []
target_of (complex (some target) default sources separator path) = target ∷ []
target_of (complex none default sources separator path) = []

-- The fields that a mapping reads.
abbrev pub sources_of : {V : Type 0} → String → FieldMapping V → List String
sources_of source (simple target) = source ∷ []
sources_of source (complex (some target) default (some sources) separator path) = sources
sources_of source (complex (some target) default none separator path) = source ∷ []
sources_of source (complex none default sources separator path) = []

module _ (js : MappedValues) where
  open js use {Value, null, text}

  abbrev pub targets : Map String (FieldMapping Value) → List String
  targets [] = []
  targets ((source, m) ∷ ms) = target_of m ++ targets ms

  abbrev pub sources : Map String (FieldMapping Value) → List String
  sources [] = []
  sources ((source, m) ∷ ms) = sources_of source m ++ sources ms

  -- The step leaves the field k out: it is neither written nor noted as a source.
  pub record LeavesOut (k : String) (before after : Mapped js) : Type 0 where
    pub same_value : Map.lookup k after.result ≡ Map.lookup k before.result
    pub same_source : member k after.mapped_sources ≡ member k before.mapped_sources

  put-LeavesOut :
      (k target : String) (v : Value) (source : String) (m : Mapped js)
      → (target == k) ≡ false
      → (source == k) ≡ false
      → LeavesOut k m (put js target v source m)
  put-LeavesOut k target v source m t s = record {
    same_value = ground (arith, lookup-insert target k v m.result, t);
    same_source = ground (arith, member-append k m.mapped_sources (source ∷ []), s);
  }

  same-LeavesOut : (k : String) (m : Mapped js) → LeavesOut k m m
  same-LeavesOut k m = record { same_value = refl; same_source = refl }

  put_if_some-LeavesOut :
      (k target : String) (v : Option Value) (source : String) (m : Mapped js)
      → (target == k) ≡ false
      → (source == k) ≡ false
      → LeavesOut k m (put_if_some js target v source m)
  put_if_some-LeavesOut k target none source m t s = same-LeavesOut k m
  put_if_some-LeavesOut k target (some v) source m t s = put-LeavesOut k target v source m t s

  member-gather :
      (k : String) (ss : List String) (row : Row js)
      → member k ss ≡ false
      → member k (gather js ss row).1 ≡ false
  unfolding gather
  member-gather k [] row h = h
  member-gather k (s ∷ ss) row h = ground (arith, h, member-gather k ss row)

  insert_joined-other :
      (k target : String) (separator : Option String) (vs : List String) (r : Row js)
      → (target == k) ≡ false
      → Map.lookup k (insert_joined js target separator vs r) ≡ Map.lookup k r
  insert_joined-other k target separator [] r t = refl
  insert_joined-other k target separator (v ∷ vs) r t =
      ground (arith, lookup-insert target k (text (join (or_else separator ",") (v ∷ vs))) r, t)

  map_field-LeavesOut :
      (row : Row js) (source : String) (f : FieldMapping Value) (k : String) (m : Mapped js)
      → member k (target_of f) ≡ false
      → member k (sources_of source f) ≡ false
      → LeavesOut k m (map_field js row (source, f) m)
  unfolding map_field map_complex map_composite
  map_field-LeavesOut row source (simple target) k m t s =
      put_if_some-LeavesOut k target (Map.lookup source row) source m (ground (arith, t))
        (ground (arith, s))
  map_field-LeavesOut row source (complex none d ss sep p) k m t s = same-LeavesOut k m
  map_field-LeavesOut row source (complex (some target) d (some ss) sep p) k m t s = record {
    same_value = insert_joined-other k target sep (gather js ss row).0 m.result (ground (arith, t));
    same_source =
        ground
          (arith, member-append k m.mapped_sources (gather js ss row).1, member-gather k ss row s);
  }
  map_field-LeavesOut row source (complex (some target) d none sep (some p)) k m t s =
      put_if_some-LeavesOut k target (extract_nested js row source p) source m (ground (arith, t))
        (ground (arith, s))
  map_field-LeavesOut row source (complex (some target) d none sep none) k m t s =
      put-LeavesOut k target (or_else (Map.lookup source row) (or_else d null)) source m
        (ground (arith, t)) (ground (arith, s))

  apply_mappings-LeavesOut :
      (row : Row js) (ms : Map String (FieldMapping Value)) (k : String) (m : Mapped js)
      → member k (targets ms) ≡ false
      → member k (sources ms) ≡ false
      → LeavesOut k m (apply_mappings js row ms m)
  unfolding apply_mappings
  apply_mappings-LeavesOut row [] k m t s = same-LeavesOut k m
  apply_mappings-LeavesOut row ((source, f) ∷ ms) k m t s =
      let one =
        map_field-LeavesOut row source f k m
          (ground (arith, t, member-append k (target_of f) (targets ms)))
          (ground (arith, s, member-append k (sources_of source f) (sources ms))) in
      let rest =
        apply_mappings-LeavesOut row ms k (map_field js row (source, f) m)
          (ground (arith, t, member-append k (target_of f) (targets ms)))
          (ground (arith, s, member-append k (sources_of source f) (sources ms))) in
      record {
        same_value = rest.same_value ∙ one.same_value;
        same_source = rest.same_source ∙ one.same_source;
      }

  -- What the row gives for a field, if nothing is there yet.
  abbrev or_from : Option Value → Option Value → Option Value
  or_from (some v) other = some v
  or_from none other = other

  lookup-include_unmapped :
      (row : Row js) (used : List String) (r : Row js) (k : String)
      → Map.lookup k (include_unmapped js row used r)
        ≡ (if member k used then Map.lookup k r else or_from (Map.lookup k r) (Map.lookup k row))
  unfolding include_unmapped Map.lookup Map.contains
  lookup-include_unmapped [] used r k = ground arith
  lookup-include_unmapped ((j, v) ∷ row) used r k = ground (
    arith,
    lookup-include_unmapped row used r k,
    lookup-include_unmapped row used (Map.insert j v r) k,
    lookup-insert j k v r,
    string_eq.eqb_iff j k,
  )

  -- A field that no mapping of the table reads or writes keeps its value, or is left out if the
  -- strategy for unmapped fields is "exclude"; every strategy but that one and "prefix" is taken as
  -- "include".
  pub lookup-map_fields :
      (config : MappingConfig Value) (row : Row js) (ms : Map String (FieldMapping Value))
      (k : String)
      → member k (targets ms) ≡ false
      → member k (sources ms) ≡ false
      → (config.unmapped_fields_strategy == "prefix") ≡ false
      → Map.lookup k (map_fields js config row ms)
        ≡ (if config.unmapped_fields_strategy == "exclude" then none else Map.lookup k row)
  unfolding map_fields Map.lookup
  lookup-map_fields config row ms k t s p =
      let start : Mapped js = record { result = []; mapped_sources = [] } in
      let m = apply_mappings js row ms start in
      let out = apply_mappings-LeavesOut row ms k start t s in
      ground (
        arith,
        p,
        out.same_value,
        out.same_source,
        lookup-include_unmapped row m.mapped_sources m.result k,
      )
