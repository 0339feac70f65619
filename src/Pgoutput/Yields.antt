-- ===== src/Pgoutput/Yields.antt =====
-- src/source/postgres/pgoutput.rs: what a reader promises on bytes: its value has a property, what it
-- leaves are bytes, no more than there were, and it does not run out of fuel.
use meilibridge.Prelude.{
  ℕ, zero, suc, ◌*◌, ◌≤◌, ◌<◌, ◌≡◌, refl, Bool, true, false, Option, none, some, List, [], ◌∷◌,
  arith, nat_eqb, length, All, Bool-cases, inl, inr, if◌then◌else◌, ltb,
}
use meilibridge.Prelude.Result.{Result, ok, err}
use meilibridge.Pgoutput.{ParseError, out_of_fuel}
use meilibridge.Pgoutput.Bytes.{ByteOrder, IsBytes, WasRead}
use meilibridge.Pgoutput.Read.{
  Reader, resume, pure, raise, signed, read_exact, until_zero, from_utf8, read_string, is_utf8,
  read_uint, read_i32, read_i64, repeat, from_io,
}
use meilibridge.Pgoutput.WellFormed.{IsUnsigned, IsSigned, IsI32, IsI64, IsText}

abbrev pub is_fuel : ParseError → Bool
is_fuel out_of_fuel = true
is_fuel _ = false

abbrev pub Post : {A : Type 0} → (A → Type 0) → ℕ → Result ParseError (A × List ℕ) → Type 0
Post P n (err e) = is_fuel e ≡ false
Post P n (ok (a, rest)) = P a × IsBytes rest × (length rest ≤ n)

pub record Yields {A : Type 0} (P : A → Type 0) (read : Reader A) : Type 0 where
  pub at : (input : List ℕ) → IsBytes input → Post P (length input) (read input)

pub weaken-Post :
    {B : Type 0} (Q : B → Type 0) (m n : ℕ) (r : Result ParseError (B × List ℕ))
    → m ≤ n
    → Post Q m r
    → Post Q n r
weaken-Post Q m n (err e) le w = w
weaken-Post Q m n (ok (b, left)) le w = (w.0, w.1, omega (arith, w.2, le))

pub resume-Post :
    {A B : Type 0} (P : A → Type 0) (Q : B → Type 0) (f : A → Reader B) (n : ℕ)
    (r : Result ParseError (A × List ℕ))
    → ((a : A) → P a → Yields Q (f a))
    → Post P n r
    → Post Q n (resume f r)
resume-Post P Q f n (err e) k h = h
resume-Post P Q f n (ok (a, rest)) k h =
    weaken-Post Q (length rest) n (f a rest) h.2 ((k a h.0).at rest h.1)

pub bind-Yields :
    {A B : Type 0} (P : A → Type 0) (Q : B → Type 0) (read : Reader A) (f : A → Reader B)
    → Yields P read
    → ((a : A) → P a → Yields Q (f a))
    → Yields Q (λ input. resume f (read input))
bind-Yields P Q read f y k = record {
  at = λ input b. resume-Post P Q f (length input) (read input) k (y.at input b);
}

pub pure-Yields : {A : Type 0} (P : A → Type 0) (a : A) → P a → Yields P (pure a)
pure-Yields P a h = record { at = λ input b. (h, b, omega arith) }

pub raise-Yields :
    {A : Type 0} (P : A → Type 0) (e : ParseError) → is_fuel e ≡ false → Yields P (raise {A = A} e)
raise-Yields P e h = record { at = λ input b. h }

pub if-Yields :
    {A : Type 0} (P : A → Type 0) (b : Bool) (x y : Reader A)
    → Yields P x
    → Yields P y
    → Yields P (if b then x else y)
if-Yields P true x y yx yy = yx
if-Yields P false x y yx yy = yy

-- The bytes that `read_exact` returns are as many as were asked for.
abbrev pub HasLength : ℕ → List ℕ → Type 0
HasLength n bytes = length bytes ≡ n

cons-Post :
    (b n m : ℕ) (r : Result ParseError (List ℕ × List ℕ))
    → Post (HasLength n) m r
    → Post (HasLength (suc n)) (suc m) (resume (λ bs rest. ok (b ∷ bs, rest)) r)
cons-Post b n m (err e) h = h
cons-Post b n m (ok (bs, rest)) h = (ap_suc h.0, h.1, omega (arith, h.2))
  where
    ap_suc : length bs ≡ n → suc (length bs) ≡ suc n
    ap_suc e = omega (arith, e)

pub read_exact-Yields : (n : ℕ) → Yields (HasLength n) (read_exact n)
unfolding read_exact
read_exact-Yields n = record { at = reads n }
  where
    reads :
        (n : ℕ) (input : List ℕ)
        → IsBytes input
        → Post (HasLength n) (length input) (read_exact n input)
    reads zero input b = (refl, b, omega arith)
    reads (suc n) [] b = refl
    reads (suc n) (x ∷ input) b = cons-Post x n (length input) _ (reads n input b.1)

abbrev IsNonzero : List ℕ → Type 0
IsNonzero = All (λ b. 0 < b)

later-Post :
    (b m : ℕ) (r : Result ParseError (List ℕ × List ℕ))
    → 0 < b
    → Post IsNonzero m r
    → Post IsNonzero (suc m) (resume (λ bs rest. ok (b ∷ bs, rest)) r)
later-Post b m (err e) p h = h
later-Post b m (ok (bs, rest)) p h = ((p, h.0), h.1, omega (arith, h.2))

until_zero-Post :
    (input : List ℕ) → IsBytes input → Post IsNonzero (length input) (until_zero input)
unfolding until_zero
until_zero-Post [] h = refl
until_zero-Post (b ∷ input) h = elim (Bool-cases (nat_eqb b 0)) [
  | inl e ↦ rw e (tt, h.1, omega arith)
  | inr e ↦
      rw e
        (later-Post b (length input) (until_zero input) (ground arith) (until_zero-Post input h.1))
]

pub read_string-Yields : Yields IsText read_string
unfolding read_string from_utf8
read_string-Yields =
    bind-Yields IsNonzero IsText until_zero from_utf8 (record { at = until_zero-Post }) utf8-Yields
  where
    utf8-Yields : (bytes : List ℕ) → IsNonzero bytes → Yields IsText (from_utf8 bytes)
    utf8-Yields bytes nz = elim (Bool-cases (is_utf8 bytes)) [
      | inl e ↦ rw e (pure-Yields IsText bytes (record { nonzero = nz; utf8 = e }))
      | inr e ↦ rw e (raise-Yields IsText _ refl)
    ]

pub signed-IsSigned : (half n : ℕ) → n < 2 * half → IsSigned half (signed half n)
signed-IsSigned half n h = elim (Bool-cases (ltb n half)) [
  | inl e ↦ rw e (ground (arith, e))
  | inr e ↦ rw e (ground (arith, h, e))
]

module _ (bo : ByteOrder) where
  from_io-Post :
      (n : ℕ) (input : List ℕ) (r : Option (ℕ × List ℕ))
      → ((x : ℕ) (rest : List ℕ) → r ≡ some (x, rest) → WasRead n x input rest)
      → Post (IsUnsigned n) (length input) (from_io bo r)
  from_io-Post n input none h = refl
  from_io-Post n input (some (x, rest)) h =
      let w = h x rest refl in (w.bound, w.bytes, omega (arith, w.left))

  pub uint-Yields : (n : ℕ) → Yields (IsUnsigned n) (read_uint bo n)
  unfolding read_uint
  uint-Yields n = record {
    at = λ input b.
        from_io-Post n input (bo.read_be n input) (λ x rest e. bo.read-bytes n x input rest b e);
  }

  pub IsI32-Yields : Yields IsI32 (read_i32 bo)
  IsI32-Yields =
      bind-Yields (IsUnsigned 4) IsI32 (read_uint bo 4) _ (uint-Yields 4)
        (λ n h. pure-Yields IsI32 _ (signed-IsSigned 2147483648 n (omega (arith, h))))

  pub IsI64-Yields : Yields IsI64 (read_i64 bo)
  IsI64-Yields =
      bind-Yields (IsUnsigned 8) IsI64 (read_uint bo 8) _ (uint-Yields 8)
        (λ n h. pure-Yields IsI64 _ (signed-IsSigned 9223372036854775808 n (omega (arith, h))))

  pub repeat-Yields :
      {A : Type 0} (P : A → Type 0) (read : Reader A) (n : ℕ)
      → Yields P read
      → Yields (λ xs. All P xs × (length xs ≡ n)) (repeat bo n read)
  unfolding repeat
  repeat-Yields P read zero y = pure-Yields _ [] (tt, refl)
  repeat-Yields P read (suc n) y = bind-Yields P _ read _ y (λ a pa.
      bind-Yields _ _ (repeat bo n read) _ (repeat-Yields P read n y)
        (λ xs pxs. pure-Yields _ (a ∷ xs) ((pa, pxs.0), omega (arith, pxs.1))))
