-- ===== src/Pgoutput/RoundTrip/Fields.antt =====
-- src/source/postgres/pgoutput.rs: the readers of single fields read back what the encoder puts.
use meilibridge.Prelude.{
  ℕ, ◌<◌, ◌≡◌, refl, Option, none, some, List, [], ◌∷◌, ◌++◌, arith, length, All,
}
use meilibridge.Prelude.Result.{ok}
use meilibridge.Pgoutput.{ℤ, pos, negsuc}
use meilibridge.Pgoutput.Bytes.{ByteOrder, put_be}
use meilibridge.Pgoutput.Read.{
  Reader, signed, read_exact, until_zero, from_utf8, read_string, read_uint, read_i32, read_i64,
  repeat,
}
use meilibridge.Pgoutput.Parse.{parse_column, read_text, column_of, tuple_column, parse_tuple_data}
use meilibridge.Pgoutput.WellFormed.{
  IsUnsigned, IsSigned, IsI32, IsI64, IsText, IsColumn, IsCell, IsTuple,
}
use meilibridge.Pgoutput.Encode.{
  Encoder, unsigned, put_i32, put_i64, put_string, put_all, put_column, put_cell, put_tuple,
}

-- The reader gives back every value with the property, and leaves what follows it.
pub record Inverts {A : Type 0} (P : A → Type 0) (put : Encoder A) (read : Reader A) : Type 0 where
  pub at : (a : A) → P a → (rest : List ℕ) → read (put a rest) ≡ ok (a, rest)

signed-unsigned : (half : ℕ) (z : ℤ) → IsSigned half z → signed half (unsigned half z) ≡ z
signed-unsigned half (pos n) h = ground arith
signed-unsigned half (negsuc n) h = ground arith

read_exact-append :
    (bytes rest : List ℕ) → read_exact (length bytes) (bytes ++ rest) ≡ ok (bytes, rest)
unfolding read_exact
read_exact-append [] rest = refl
read_exact-append (b ∷ bytes) rest = rw (read_exact-append bytes rest) refl

until_zero-put :
    (bytes rest : List ℕ)
    → All (λ b. 0 < b) bytes
    → until_zero (put_string bytes rest) ≡ ok (bytes, rest)
unfolding until_zero
until_zero-put [] rest h = refl
until_zero-put (b ∷ bytes) rest h = ground (arith, until_zero-put bytes rest h.1, h.0)

pub string-Inverts : Inverts IsText put_string read_string
unfolding read_string from_utf8
string-Inverts = record {
  at = λ bytes t rest. rw (until_zero-put bytes rest t.nonzero) (rw t.utf8 refl);
}

module _ (bo : ByteOrder) where
  pub uint-Inverts : (n : ℕ) → Inverts (IsUnsigned n) (put_be n) (read_uint bo n)
  unfolding read_uint
  uint-Inverts n = record { at = λ x h rest. rw (bo.read-put n x rest h) refl }

  pub IsI64-Inverts : Inverts IsI64 put_i64 (read_i64 bo)
  IsI64-Inverts = record {
    at = λ z h rest.
        rw ((uint-Inverts 8).at (unsigned 9223372036854775808 z) (unsigned_bound z h) rest)
          (rw (signed-unsigned 9223372036854775808 z h) refl);
  }
    where
      unsigned_bound : (z : ℤ) → IsI64 z → IsUnsigned 8 (unsigned 9223372036854775808 z)
      unsigned_bound (pos n) h = omega (arith, h)
      unsigned_bound (negsuc n) h = omega arith

  pub IsI32-Inverts : Inverts IsI32 put_i32 (read_i32 bo)
  IsI32-Inverts = record {
    at = λ z h rest.
        rw ((uint-Inverts 4).at (unsigned 2147483648 z) (unsigned_bound z h) rest)
          (rw (signed-unsigned 2147483648 z h) refl);
  }
    where
      unsigned_bound : (z : ℤ) → IsI32 z → IsUnsigned 4 (unsigned 2147483648 z)
      unsigned_bound (pos n) h = omega (arith, h)
      unsigned_bound (negsuc n) h = omega arith

  pub repeat-Inverts :
      {A : Type 0} (P : A → Type 0) (put : Encoder A) (read : Reader A)
      → Inverts P put read
      → (xs : List A) → All P xs
      → (rest : List ℕ) → repeat bo (length xs) read (put_all put xs rest) ≡ ok (xs, rest)
  unfolding repeat
  repeat-Inverts P put read i [] h rest = refl
  repeat-Inverts P put read i (a ∷ xs) h rest =
      rw (i.at a h.0 (put_all put xs rest)) (rw (repeat-Inverts P put read i xs h.1 rest) refl)

  pub IsColumn-Inverts : Inverts IsColumn put_column (parse_column bo)
  unfolding parse_column
  IsColumn-Inverts = record {
    at = λ c h rest. rw ((uint-Inverts 1).at c.flags h.0 _) (
        rw (string-Inverts.at c.name h.1 _) (
          rw ((uint-Inverts 4).at c.type_id h.2 _)
            (rw (IsI32-Inverts.at c.type_modifier h.3 rest) refl)));
  }

  pub IsCell-Inverts : Inverts IsCell put_cell (tuple_column bo)
  unfolding tuple_column column_of read_text
  IsCell-Inverts = record { at = inverts }
    where
      inverts :
          (cell : Option (List ℕ))
          → IsCell cell
          → (rest : List ℕ) → tuple_column bo (put_cell cell rest) ≡ ok (cell, rest)
      inverts none h rest = rw ((uint-Inverts 1).at b'n' (omega arith) rest) refl
      inverts (some bytes) h rest =
          rw ((uint-Inverts 1).at b't' (omega arith) _)
            (rw ((uint-Inverts 4).at (length bytes) h _) (rw (read_exact-append bytes rest) refl))

  pub IsTuple-Inverts : Inverts IsTuple put_tuple (parse_tuple_data bo)
  unfolding parse_tuple_data
  IsTuple-Inverts = record {
    at = λ t h rest. rw ((uint-Inverts 2).at (length t.columns) h.0 _) (
        rw (repeat-Inverts IsCell put_cell (tuple_column bo) IsCell-Inverts t.columns h.1 rest)
          refl);
  }
