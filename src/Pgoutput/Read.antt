-- ===== src/Pgoutput/Read.antt =====
-- src/source/postgres/pgoutput.rs: reads from a cursor. An error ends the parse, so a reader returns
-- the value with the bytes that are left, or the error.
use meilibridge.Prelude.{
  ℕ, zero, suc, ◌-◌, ◌*◌, Bool, true, ◌&&◌, Option, none, some, List, [], ◌∷◌, nat_eqb, leb, ltb,
  if◌then◌else◌,
}
use meilibridge.Prelude.Result.{Result, ok, err}
use meilibridge.Pgoutput.{ℤ, pos, negsuc, ParseError, unexpected_eof, invalid_utf8}
use meilibridge.Pgoutput.Bytes.{ByteOrder}

abbrev pub Reader : Type 0 → Type 0
Reader A = List ℕ → Result ParseError (A × List ℕ)

abbrev pub resume :
    {A B : Type 0}
    → (A → Reader B)
    → Result ParseError (A × List ℕ)
    → Result ParseError (B × List ℕ)
resume f (ok (a, rest)) = f a rest
resume f (err e) = err e

infixl 10 ◌>>=◌
abbrev pub ◌>>=◌ : {A B : Type 0} → Reader A → (A → Reader B) → Reader B
◌>>=◌ m f input = resume f (m input)

abbrev pub pure : {A : Type 0} → A → Reader A
pure a input = ok (a, input)

abbrev pub raise : {A : Type 0} → ParseError → Reader A
raise e input = err e

-- The number that w bits stand for in two's complement.
abbrev pub signed : ℕ → ℕ → ℤ
signed half n = if ltb n half then pos n else negsuc (2 * half - 1 - n)

-- `vec![0u8; len]` filled by `read_exact`: exactly so many bytes.
unfoldable pub read_exact : ℕ → Reader (List ℕ)
read_exact zero input = ok ([], input)
read_exact (suc n) [] = err unexpected_eof
read_exact (suc n) (b ∷ input) = resume (λ bs rest. ok (b ∷ bs, rest)) (read_exact n input)

abbrev continues : ℕ → Bool
continues b = leb 128 b && leb b 191

-- The second byte of a sequence of three bytes, and of four.
abbrev second_of_three : ℕ → ℕ → Bool
second_of_three a b =
    leb (if nat_eqb a 224 then 160 else 128) b && leb b (if nat_eqb a 237 then 159 else 191)

abbrev second_of_four : ℕ → ℕ → Bool
second_of_four a b =
    leb (if nat_eqb a 240 then 144 else 128) b && leb b (if nat_eqb a 244 then 143 else 191)

-- What `String::from_utf8` accepts: the well-formed byte sequences of the Unicode standard, which leave
-- out overlong forms, surrogates and numbers above U+10FFFF.
unfoldable pub is_utf8 : List ℕ → Bool
is_utf8 [] = true
is_utf8 (a ∷ []) = leb a 127
is_utf8 (a ∷ b ∷ []) =
    let tail = is_utf8 (b ∷ []) in if leb a 127 then tail else leb 194 a && leb a 223 && continues b
is_utf8 (a ∷ b ∷ c ∷ []) =
    let after_one = is_utf8 (b ∷ c ∷ []) in
    let after_two = is_utf8 (c ∷ []) in
    if leb a 127
    then after_one
    else if leb 194 a && leb a 223
    then continues b && after_two
    else leb 224 a && leb a 239 && second_of_three a b && continues c
is_utf8 (a ∷ b ∷ c ∷ d ∷ rest) =
    let after_one = is_utf8 (b ∷ c ∷ d ∷ rest) in
    let after_two = is_utf8 (c ∷ d ∷ rest) in
    let after_three = is_utf8 (d ∷ rest) in
    let after_four = is_utf8 rest in
    if leb a 127
    then after_one
    else if leb 194 a && leb a 223
    then continues b && after_two
    else if leb 224 a && leb a 239
    then second_of_three a b && continues c && after_three
    else leb 240 a && leb a 244 && second_of_four a b && continues c && continues d && after_four

-- The bytes before the first zero byte, which is passed.
unfoldable pub until_zero : Reader (List ℕ)
until_zero [] = err unexpected_eof
until_zero (b ∷ input) =
    let later = until_zero input in
    if nat_eqb b 0 then ok ([], input) else resume (λ bs rest. ok (b ∷ bs, rest)) later

unfoldable pub from_utf8 : List ℕ → Reader (List ℕ)
unfolding is_utf8
from_utf8 bytes = if is_utf8 bytes then pure bytes else raise invalid_utf8

unfoldable pub read_string : Reader (List ℕ)
unfolding until_zero from_utf8
read_string = until_zero >>= from_utf8

module _ (bo : ByteOrder) where
  open bo use {read_be}

  -- A short read is an error of the cursor, which `?` passes on.
  abbrev pub from_io : {A : Type 0} → Option (A × List ℕ) → Result ParseError (A × List ℕ)
  from_io none = err unexpected_eof
  from_io (some r) = ok r

  unfoldable pub read_uint : ℕ → Reader ℕ
  read_uint n input = from_io (read_be n input)

  abbrev pub read_u8 : Reader ℕ
  read_u8 = read_uint 1

  abbrev pub read_u16 : Reader ℕ
  read_u16 = read_uint 2

  abbrev pub read_u32 : Reader ℕ
  read_u32 = read_uint 4

  abbrev pub read_u64 : Reader ℕ
  read_u64 = read_uint 8

  abbrev pub read_i32 : Reader ℤ
  read_i32 = read_u32 >>= λ n. pure (signed 2147483648 n)

  abbrev pub read_i64 : Reader ℤ
  read_i64 = read_u64 >>= λ n. pure (signed 9223372036854775808 n)

  -- `for _ in 0..count`, collecting what each round reads.
  unfoldable pub repeat : {A : Type 0} → ℕ → Reader A → Reader (List A)
  repeat zero read = pure []
  repeat (suc n) read = do a ← read; rest ← repeat n read; pure (a ∷ rest)
