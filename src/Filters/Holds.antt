-- ===== src/Filters/Holds.antt =====
-- src/pipeline/filter.rs: what a condition says of a row, and that the filter decides it.
use meilibridge.Prelude.{
  ◌≡◌, ◌≢◌, refl, sym, ap, ◌↔◌, ◌⊎◌, inl, inr, Bool, true, false, not, ◌&&◌, ◌||◌, Option, none,
  some, List, [], ◌∷◌, any, arith, string_eq,
}
use meilibridge.Prelude.Map
use meilibridge.Prelude.Map.{Map}
use meilibridge.Prelude.Texts.{contains_text, Occurs, contains_text_iff}
use meilibridge.Config.{
  Condition, equals, not_equals, contains, greater_than, less_than, is_in, is_null, is_not_null,
  all_of, any_of, Conditions, nil, cons,
}
use meilibridge.Filters.{
  JsonValues, both_are, Row, value_contains, compare_values, is_one_of, is_absent_or_null,
  is_present, is_value, evaluate_condition, evaluate_all, evaluate_any,
}

-- Both are there and P holds of them.
abbrev pub Both : {A : Type 0} → (A → A → Type 0) → Option A → Option A → Type 0
Both P (some a) (some b) = P a b
Both P _ _ = ⊥

pub no_iff : {P : Type 0} → ¬ P → (false ≡ true) ↔ P
no_iff n = (λ h. absurd (ground (arith, h)), λ p. absurd (n p))

pub not_iff : (b : Bool) (P : Type 0) → (b ≡ true) ↔ P → (not b ≡ true) ↔ (¬ P)
not_iff true P i = (λ h. ground (arith, h), λ n. absurd (n (i.0 refl)))
not_iff false P i = (λ h p. ground (arith, i.1 p), λ n. refl)

pub and_iff :
    (a b : Bool) {P Q : Type 0} → (a ≡ true) ↔ P → (b ≡ true) ↔ Q → (a && b ≡ true) ↔ (P × Q)
and_iff true b i j = (λ h. (i.0 refl, j.0 h), λ h. j.1 h.1)
and_iff false b i j = no_iff (λ h. ground (arith, i.1 h.0))

pub or_iff :
    (a b : Bool) {P Q : Type 0} → (a ≡ true) ↔ P → (b ≡ true) ↔ Q → (a || b ≡ true) ↔ (P ⊎ Q)
or_iff true b i j = (λ h. inl (i.0 refl), λ h. refl)
or_iff false b i j =
    (λ h. inr (j.0 h), λ h. elim h [ inl p ↦ ground (arith, i.1 p) | inr q ↦ j.1 q ])

both_are_iff :
    {A : Type 0} (op : A → A → Bool) (P : A → A → Type 0)
    → ((a b : A) → (op a b ≡ true) ↔ P a b)
    → (s p : Option A) → (both_are op s p ≡ true) ↔ Both P s p
both_are_iff op P i (some a) (some b) = i a b
both_are_iff op P i (some a) none = no_iff (λ e. e)
both_are_iff op P i none p = no_iff (λ e. e)

module _ (js : JsonValues) where
  open js use {Value, same, is_null_value, as_str, Float, as_f64, greater, less}

  -- Both values are texts and the second occurs in the first.
  abbrev pub TextWithin : Value → Value → Type 0
  TextWithin v pattern = Both (λ s p. Occurs p s) (as_str v) (as_str pattern)

  -- Both values are numbers in this order.
  abbrev pub Ordered : (Float → Float → Bool) → Value → Value → Type 0
  Ordered op v w = Both (λ a b. op a b ≡ true) (as_f64 v) (as_f64 w)

  abbrev pub IsAmong : Value → List Value → Type 0
  IsAmong v [] = ⊥
  IsAmong v (w ∷ ws) = (v ≡ w) ⊎ IsAmong v ws

  -- The field has a value of which P holds.
  abbrev pub HasValue : (Value → Type 0) → Option Value → Type 0
  HasValue P none = ⊥
  HasValue P (some v) = P v

  mutual
    pub Holds : Condition Value → Row js → Type 0
    Holds (equals field value) row = Map.lookup field row ≡ some value
    Holds (not_equals field value) row = Map.lookup field row ≢ some value
    Holds (contains field value) row = HasValue (λ v. TextWithin v value) (Map.lookup field row)
    Holds (greater_than field value) row =
        HasValue (λ v. Ordered greater v value) (Map.lookup field row)
    Holds (less_than field value) row = HasValue (λ v. Ordered less v value) (Map.lookup field row)
    Holds (is_in field values) row = HasValue (λ v. IsAmong v values) (Map.lookup field row)
    Holds (is_null field) row =
        (Map.lookup field row ≡ none)
        ⊎ HasValue (λ v. is_null_value v ≡ true) (Map.lookup field row)
    Holds (is_not_null field) row = HasValue (λ v. is_null_value v ≡ false) (Map.lookup field row)
    Holds (all_of conditions) row = AllHold conditions row
    Holds (any_of conditions) row = SomeHolds conditions row

    pub AllHold : Conditions Value → Row js → Type 0
    AllHold nil row = Unit
    AllHold (cons c cs) row = Holds c row × AllHold cs row

    pub SomeHolds : Conditions Value → Row js → Type 0
    SomeHolds nil row = ⊥
    SomeHolds (cons c cs) row = Holds c row ⊎ SomeHolds cs row

  some_inj : (v w : Value) → ◌≡◌ {A = Option Value} (some v) (some w) → v ≡ w
  some_inj v w e = ap (λ o. elim o [ none ↦ v | some x ↦ x ]) e

  is_value_iff : (o : Option Value) (w : Value) → (is_value js o w ≡ true) ↔ (o ≡ some w)
  is_value_iff none w = (λ h. ground (arith, h), λ e. ground (arith, e))
  is_value_iff (some v) w =
      (λ h. ap some ((same.eqb_iff v w).0 h), λ e. (same.eqb_iff v w).1 (some_inj v w e))

  any_iff : (v : Value) (ws : List Value) → (any (λ w. same.eqb w v) ws ≡ true) ↔ IsAmong v ws
  any_iff v [] = no_iff (λ e. e)
  any_iff v (w ∷ ws) =
      let one : (same.eqb w v ≡ true) ↔ (v ≡ w) =
        (λ h. sym ((same.eqb_iff w v).0 h), λ e. (same.eqb_iff w v).1 (sym e)) in
      or_iff (same.eqb w v) (any (λ w. same.eqb w v) ws) one (any_iff v ws)

  value_contains_iff :
      (o : Option Value) (w : Value)
      → (value_contains js o w ≡ true) ↔ HasValue (λ v. TextWithin v w) o
  value_contains_iff none w = no_iff (λ e. e)
  value_contains_iff (some v) w =
      both_are_iff contains_text (λ s p. Occurs p s) contains_text_iff (as_str v) (as_str w)

  compare_values_iff :
      (op : Float → Float → Bool) (o : Option Value) (w : Value)
      → (compare_values js op o w ≡ true) ↔ HasValue (λ v. Ordered op v w) o
  compare_values_iff op none w = no_iff (λ e. e)
  compare_values_iff op (some v) w =
      both_are_iff op (λ a b. op a b ≡ true) (λ a b. (λ h. h, λ h. h)) (as_f64 v) (as_f64 w)

  is_one_of_iff :
      (o : Option Value) (ws : List Value)
      → (is_one_of js o ws ≡ true) ↔ HasValue (λ v. IsAmong v ws) o
  is_one_of_iff none ws = no_iff (λ e. e)
  is_one_of_iff (some v) ws = any_iff v ws

  is_absent_or_null_iff :
      (o : Option Value)
      → (is_absent_or_null js o ≡ true) ↔ ((o ≡ none) ⊎ HasValue (λ v. is_null_value v ≡ true) o)
  is_absent_or_null_iff none = (λ h. inl refl, λ h. refl)
  is_absent_or_null_iff (some v) =
      (λ h. inr h, λ h. elim h [ inl e ↦ absurd (ground (arith, e)) | inr p ↦ p ])

  is_present_iff :
      (o : Option Value) → (is_present js o ≡ true) ↔ HasValue (λ v. is_null_value v ≡ false) o
  is_present_iff none = no_iff (λ e. e)
  is_present_iff (some v) = (λ h. ground (arith, h), λ h. ground (arith, h))

  -- A condition is evaluated to true exactly where it holds of the row.
  mutual
    unfolding evaluate_condition evaluate_all evaluate_any Holds AllHold SomeHolds

    pub evaluate_condition_iff :
        (c : Condition Value) (row : Row js) → (evaluate_condition js c row ≡ true) ↔ Holds c row
    evaluate_condition_iff (equals f w) row = is_value_iff (Map.lookup f row) w
    evaluate_condition_iff (not_equals f w) row =
        not_iff (is_value js (Map.lookup f row) w) (Map.lookup f row ≡ some w)
          (is_value_iff (Map.lookup f row) w)
    evaluate_condition_iff (contains f w) row = value_contains_iff (Map.lookup f row) w
    evaluate_condition_iff (greater_than f w) row = compare_values_iff greater (Map.lookup f row) w
    evaluate_condition_iff (less_than f w) row = compare_values_iff less (Map.lookup f row) w
    evaluate_condition_iff (is_in f ws) row = is_one_of_iff (Map.lookup f row) ws
    evaluate_condition_iff (is_null f) row = is_absent_or_null_iff (Map.lookup f row)
    evaluate_condition_iff (is_not_null f) row = is_present_iff (Map.lookup f row)
    evaluate_condition_iff (all_of cs) row = evaluate_all_iff cs row
    evaluate_condition_iff (any_of cs) row = evaluate_any_iff cs row

    pub evaluate_all_iff :
        (cs : Conditions Value) (row : Row js) → (evaluate_all js cs row ≡ true) ↔ AllHold cs row
    evaluate_all_iff nil row = (λ h. tt, λ h. refl)
    evaluate_all_iff (cons c cs) row =
        and_iff (evaluate_condition js c row) (evaluate_all js cs row)
          (evaluate_condition_iff c row) (evaluate_all_iff cs row)

    evaluate_any_iff :
        (cs : Conditions Value) (row : Row js) → (evaluate_any js cs row ≡ true) ↔ SomeHolds cs row
    evaluate_any_iff nil row = no_iff (λ e. e)
    evaluate_any_iff (cons c cs) row =
        or_iff (evaluate_condition js c row) (evaluate_any js cs row) (evaluate_condition_iff c row)
          (evaluate_any_iff cs row)
