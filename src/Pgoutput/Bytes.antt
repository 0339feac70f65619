-- ===== src/Pgoutput/Bytes.antt =====
-- The crate byteorder as an interface: its big-endian reads of n bytes from a cursor, as the value
-- and the bytes that are left. A cursor on a slice is the bytes that it has not passed.
use meilibridge.Prelude.{
  ℕ, zero, suc, ◌+◌, ◌*◌, ◌/◌, ◌%◌, ◌^◌, ◌<◌, ◌≡◌, refl, Option, none, some, List, [], ◌∷◌, arith,
  length, All,
}

abbrev pub IsBytes : List ℕ → Type 0
IsBytes = All (λ b. b < 256)

-- The n big-endian bytes of a number, before the rest.
unfoldable pub put_be : ℕ → ℕ → List ℕ → List ℕ
put_be zero x rest = rest
put_be (suc n) x rest = put_be n (x / 256) ((x % 256) ∷ rest)

-- What a read of n bytes leaves.
pub record WasRead (n x : ℕ) (input rest : List ℕ) : Type 0 where
  pub bound : x < 256 ^ n
  pub left : length rest + n ≡ length input
  pub bytes : IsBytes rest

pub record ByteOrder : Type 0 where
  pub read_be : ℕ → List ℕ → Option (ℕ × List ℕ)
  pub read-put :
      (n x : ℕ) (rest : List ℕ) → x < 256 ^ n → read_be n (put_be n x rest) ≡ some (x, rest)
  pub read-bytes :
      (n x : ℕ) (input rest : List ℕ)
      → IsBytes input
      → read_be n input ≡ some (x, rest)
      → WasRead n x input rest

-- A function that satisfies the interface.
abbrev one_more : Option (ℕ × List ℕ) → Option (ℕ × List ℕ)
one_more (some (x, b ∷ rest)) = some (x * 256 + b, rest)
one_more (some (x, [])) = none
one_more none = none

unfoldable pub read_bytes : ℕ → List ℕ → Option (ℕ × List ℕ)
read_bytes zero input = some (0, input)
read_bytes (suc n) input = one_more (read_bytes n input)

pub read_bytes-put :
    (n x : ℕ) (rest : List ℕ) → x < 256 ^ n → read_bytes n (put_be n x rest) ≡ some (x, rest)
unfolding read_bytes put_be
read_bytes-put zero x rest h = ground (arith, h)
read_bytes-put (suc n) x rest h =
    rw (read_bytes-put n (x / 256) ((x % 256) ∷ rest) (omega (arith, h))) (ground arith)

one_more-WasRead :
    (n x : ℕ) (input rest : List ℕ) (r : Option (ℕ × List ℕ))
    → ((y : ℕ) (left : List ℕ) → r ≡ some (y, left) → WasRead n y input left)
    → one_more r ≡ some (x, rest)
    → WasRead (suc n) x input rest
one_more-WasRead n x input rest none h e = ground arith
one_more-WasRead n x input rest (some (y, [])) h e = ground arith
one_more-WasRead n x input rest (some (y, b ∷ left)) h e =
    let w = h y (b ∷ left) refl in
    record {
      bound = ground (arith, w.bound, w.bytes.0);
      left = ground (arith, w.left);
      bytes = ground (arith, w.bytes.1);
    }

pub read_bytes-WasRead :
    (n x : ℕ) (input rest : List ℕ)
    → IsBytes input
    → read_bytes n input ≡ some (x, rest)
    → WasRead n x input rest
unfolding read_bytes
read_bytes-WasRead zero x input rest h e = record {
  bound = ground arith;
  left = ground arith;
  bytes = ground (arith, h);
}
read_bytes-WasRead (suc n) x input rest h e =
    one_more-WasRead n x input rest (read_bytes n input)
      (λ y left e'. read_bytes-WasRead n y input left h e') e

abbrev pub big_endian : ByteOrder
big_endian = record {
  read_be = read_bytes;
  read-put = read_bytes-put;
  read-bytes = read_bytes-WasRead;
}
