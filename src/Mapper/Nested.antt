-- ===== src/Mapper/Nested.antt =====
-- src/pipeline/mapper.rs: extract_nested, the walk along a path in a JSON value.
use Prim.Native.Char.{code}
use meilibridge.Prelude.{
  ℕ, zero, suc, ◌+◌, ◌*◌, ◌-◌, ◌^◌, String, Bool, ◌&&◌, Option, none, some, List, [], ◌∷◌, nat_eqb,
  leb, ltb, string_eq, if◌then◌else◌,
}
use meilibridge.Prelude.Map
use meilibridge.Prelude.Map.{Map}

pub record MappedValues : Type 1 where
  pub Value : Type 0
  pub null : Value
  pub text : String → Value
  pub object : Map String Value → Value
  pub as_object : Value → Option (Map String Value)
  pub as_array : Value → Option (List Value)
  pub as_str : Value → Option String
  pub is_null_value : Value → Bool
  pub display : Value → String

-- The parts of a text between its dots; there is always one.
unfoldable pub first_part : String → String
first_part String.[] = String.[]
first_part (String.◌∷◌ ch rest) =
    let later = first_part rest in if nat_eqb (code ch) b'.' then String.[] else String.◌∷◌ ch later

unfoldable pub later_parts : String → List String
unfolding first_part
later_parts String.[] = []
later_parts (String.◌∷◌ ch rest) =
    let later = later_parts rest in
    if nat_eqb (code ch) b'.' then first_part rest ∷ later else later

-- `split('.')`
abbrev pub parts : String → List String
parts path = first_part path ∷ later_parts path

abbrev pub is_digit : ℕ → Bool
is_digit c = leb b'0' c && leb c b'9'

-- The value of the digits after those that give n, below 2 ^ 64.
unfoldable pub parse_digits : ℕ → String → Option ℕ
parse_digits n String.[] = if ltb n (2 ^ 64) then some n else none
parse_digits n (String.◌∷◌ ch rest) =
    let later = parse_digits (10 * n + (code ch - b'0')) rest in
    if is_digit (code ch) then later else none

-- `parse::<usize>()`: digits, at least one, after a plus sign or none.
unfoldable pub parse_usize : String → Option ℕ
unfolding parse_digits
parse_usize String.[] = none
parse_usize (String.◌∷◌ ch String.[]) = if is_digit (code ch) then some (code ch - b'0') else none
parse_usize (String.◌∷◌ ch (String.◌∷◌ next rest)) =
    let digits = parse_digits 0 (String.◌∷◌ next rest) in
    if nat_eqb (code ch) b'+' then digits else parse_digits 0 (String.◌∷◌ ch (String.◌∷◌ next rest))

unfoldable pub nth : {A : Type 0} → ℕ → List A → Option A
nth n [] = none
nth zero (x ∷ xs) = some x
nth (suc n) (x ∷ xs) = nth n xs

module _ (js : MappedValues) where
  open js use {Value, as_object, as_array}

  -- One part of the path: a field of an object, or an index of an array.
  unfoldable pub descend : Value → String → Option Value
  unfolding nth parse_usize
  descend value part = elim (as_object value) [
    | some fields ↦ Map.lookup part fields
    | none ↦ elim (as_array value) [
      | none ↦ none
      | some items ↦ elim (parse_usize part) [ none ↦ none | some index ↦ nth index items ]
    ]
  ]

  unfoldable pub walk : Option Value → List String → Option Value
  unfolding descend
  walk none parts = none
  walk (some value) [] = some value
  walk (some value) (part ∷ parts) = walk (descend value part) parts

  unfoldable pub extract_nested : Map String Value → String → String → Option Value
  unfolding walk first_part later_parts
  extract_nested row base_field path = walk (Map.lookup base_field row) (parts path)
