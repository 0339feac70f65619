-- ===== src/Prelude/Texts.antt =====
-- Tests on texts, and lists as sets of texts.
use Prim.Native.Char.{Char}
use Prim.Native.String.{String, ◌++◌ as str_append}
use Prim.Native.String.append
use mathlib.Core.Path.{◌≡◌, refl, sym, ◌∙◌, ap}
use mathlib.Core.Logic.{◌↔◌, ◌⊎◌, inl, inr}
use mathlib.Core.Bool.{Bool, true, false, ◌||◌}
use mathlib.Core.List.{List, ◌∷◌}
use native.Mathlib.Omega.{arith}
use text.Mathlib.Text.{starts_with}
use text.Mathlib.TextEquality.{starts_with_iff}
use text.Mathlib.TextBridge.{IsPrefix}
use text.Mathlib.TextLemmas.{tail-eq_of_cons-eq, cons≢nil}
use meilibridge.Prelude.Lists.{member}
use meilibridge.Prelude.Tests.{if◌then◌else◌, string_eq, Bool-cases}

-- `is_empty` of a text.
unfoldable pub is_empty : String → Bool
is_empty String.[] = true
is_empty (String.◌∷◌ ch rest) = false

-- `insert` of a set, which is a list.
abbrev pub insert_text : String → List String → List String
insert_text t ts = if member t ts then ts else t ∷ ts

-- `contains` of a text: the pattern begins at some character, or at the end.
unfoldable pub contains_text : String → String → Bool
contains_text String.[] pattern = starts_with String.[] pattern
contains_text (String.◌∷◌ ch rest) pattern =
    starts_with (String.◌∷◌ ch rest) pattern || contains_text rest pattern

-- The pattern stands between two other texts.
abbrev pub Occurs : String → String → Type 0
Occurs pattern s =
    (front : String) × (back : String) × (str_append front (str_append pattern back) ≡ s)

Occurs-prefix : (pattern s : String) → IsPrefix pattern s → Occurs pattern s
Occurs-prefix pattern s h = (String.[], h.0, append.nil (str_append pattern h.0) ∙ h.1)

Occurs-later :
    (pattern s : String) (ch : Char) → Occurs pattern s → Occurs pattern (String.◌∷◌ ch s)
Occurs-later pattern s ch (front, back, e) = (
  String.◌∷◌ ch front,
  back,
  append.cons ch front (str_append pattern back) ∙ ap (String.◌∷◌ ch) e,
)

prefix-or-later :
    (pattern s : String) (ch : Char)
    → Occurs pattern (String.◌∷◌ ch s)
    → IsPrefix pattern (String.◌∷◌ ch s) ⊎ Occurs pattern s
prefix-or-later pattern s ch (String.[], back, e) =
    inl (back, sym (append.nil (str_append pattern back)) ∙ e)
prefix-or-later pattern s ch (String.◌∷◌ d front, back, e) =
    inr (front, back, tail-eq_of_cons-eq (sym (append.cons d front (str_append pattern back)) ∙ e))

only-prefix : (pattern : String) → Occurs pattern String.[] → IsPrefix pattern String.[]
only-prefix pattern (String.[], back, e) = (back, sym (append.nil (str_append pattern back)) ∙ e)
only-prefix pattern (String.◌∷◌ d front, back, e) =
    absurd (cons≢nil (sym (append.cons d front (str_append pattern back)) ∙ e))

-- `contains` finds exactly the patterns that occur.
pub contains_text_iff : (s pattern : String) → (contains_text s pattern ≡ true) ↔ Occurs pattern s
unfolding contains_text
contains_text_iff String.[] pattern =
    let at_end = starts_with_iff String.[] pattern in
    (λ h. Occurs-prefix pattern String.[] (at_end.0 h), λ o. at_end.1 (only-prefix pattern o))
contains_text_iff (String.◌∷◌ ch rest) pattern =
    let here = starts_with_iff (String.◌∷◌ ch rest) pattern in
    let later = contains_text_iff rest pattern in
    (
      λ h. elim (Bool-cases (starts_with (String.◌∷◌ ch rest) pattern)) [
        | inl a ↦ Occurs-prefix pattern (String.◌∷◌ ch rest) (here.0 a)
        | inr b ↦ Occurs-later pattern rest ch (later.0 (ground (arith, b, h)))
      ],
      λ o. elim (prefix-or-later pattern rest ch o) [
        | inl p ↦ rw (here.1 p) refl
        | inr q ↦ elim (Bool-cases (starts_with (String.◌∷◌ ch rest) pattern)) [
          | inl a ↦ rw a refl
          | inr b ↦ rw b (later.1 q)
        ]
      ],
    )
