-- ===== src/Validation/Checks.antt =====
-- src/config/validation.rs: what a pass over the report demands for the report to stay valid.
use meilibridge.Prelude.{◌≡◌, refl, sym, ◌∙◌, ◌↔◌, Bool, true, false, List, [], ◌∷◌, ◌++◌, arith}
use meilibridge.Validation.{
  ErrorMessage, WarningMessage, ValidationReport, is_valid, error_if, warn_if,
}

-- The pass leaves a valid report exactly if the report was valid and P holds.
pub record Checks (f : ValidationReport → ValidationReport) (P : Type 0) : Type 0 where
  pub iff : (r : ValidationReport) → (is_valid (f r) ≡ true) ↔ ((is_valid r ≡ true) × P)

pub Checks-same :
    {f : ValidationReport → ValidationReport}
    → ((r : ValidationReport) → is_valid (f r) ≡ is_valid r)
    → Checks f (Unit {0})
Checks-same same = record { iff = λ r. (λ v. (sym (same r) ∙ v, tt), λ v. same r ∙ v.0) }

infixr 4 ◌then◌
pub ◌then◌ :
    {f g : ValidationReport → ValidationReport} {P Q : Type 0}
    → Checks f P
    → Checks g Q
    → Checks (λ r. g (f r)) (P × Q)
◌then◌ {f} cf cg = record {
  iff = λ r. (
    λ v. let w = (cg.iff (f r)).0 v in let u = (cf.iff r).0 w.0 in (u.0, (u.1, w.1)),
    λ h. (cg.iff (f r)).1 ((cf.iff r).1 (h.0, h.1.0), h.1.1),
  );
}

-- The demand may be put in other words.
pub Checks-map :
    {f : ValidationReport → ValidationReport} {P Q : Type 0}
    → (P → Q)
    → (Q → P)
    → Checks f P
    → Checks f Q
Checks-map to from c = record {
  iff = λ r. (λ v. (((c.iff r).0 v).0, to ((c.iff r).0 v).1), λ h. (c.iff r).1 (h.0, from h.1));
}

is_valid-appended :
    (es : List ErrorMessage) (e : ErrorMessage) (r : ValidationReport)
    → is_valid (record r { errors = es ++ e ∷ [] }) ≡ false
unfolding is_valid
is_valid-appended [] e r = refl
is_valid-appended (x ∷ xs) e r = refl

pub error_if-Checks : (b : Bool) (e : ErrorMessage) → Checks (error_if b e) (b ≡ false)
unfolding error_if
error_if-Checks true e = record {
  iff = λ r. (λ v. ground (arith, v, is_valid-appended r.errors e r), λ h. ground (arith, h));
}
error_if-Checks false e = record { iff = λ r. (λ v. (v, refl), λ h. h.0) }

pub warn_if-Checks : (b : Bool) (w : WarningMessage) → Checks (warn_if b w) (Unit {0})
unfolding warn_if is_valid
warn_if-Checks true w = Checks-same (λ r. refl)
warn_if-Checks false w = Checks-same (λ r. refl)
