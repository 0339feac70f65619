-- ===== src/Pgoutput/Toast.antt =====
-- src/source/postgres/pgoutput.rs: the columns of a tuple as they come, among them those of which the
-- value is stored out of line and was not changed.
use meilibridge.Prelude.{
  ℕ, ◌≡◌, refl, ◌∙◌, sym, Option, none, List, [], ◌∷◌, arith, length, All, map,
}
use meilibridge.Prelude.Result.{ok}
use meilibridge.Pgoutput.Bytes.{ByteOrder, put_be}
use meilibridge.Pgoutput.Read.{repeat}
use meilibridge.Pgoutput.Parse.{tuple_column, column_of, parse_tuple_data}
use meilibridge.Pgoutput.WellFormed.{IsUnsigned, IsCell}
use meilibridge.Pgoutput.Encode.{Encoder, put_all, put_cell}
use meilibridge.Pgoutput.RoundTrip.Fields.{uint-Inverts, IsCell-Inverts}

-- A column on the wire: a value or NULL, or a mark that the value is unchanged.
pub data Wire : Type 0 where
  sent : Option (List ℕ) → Wire
  unchanged : Wire

abbrev pub IsWire : Wire → Type 0
IsWire (sent cell) = IsCell cell
IsWire unchanged = Unit

abbrev pub put_wire : Encoder Wire
put_wire (sent cell) rest = put_cell cell rest
put_wire unchanged rest = put_be 1 b'u' rest

abbrev pub value_of : Wire → Option (List ℕ)
value_of (sent cell) = cell
value_of unchanged = none

-- The column with NULL in the place of the mark.
abbrev pub nulled : Wire → Wire
nulled w = sent (value_of w)

abbrev pub put_wires : Encoder (List Wire)
put_wires ws rest = put_be 2 (length ws) (put_all put_wire ws rest)

module _ (bo : ByteOrder) where
  read_wire :
      (w : Wire) (rest : List ℕ)
      → IsWire w
      → tuple_column bo (put_wire w rest) ≡ ok (value_of w, rest)
  unfolding tuple_column column_of
  read_wire (sent cell) rest h = (IsCell-Inverts bo).at cell h rest
  read_wire unchanged rest h = rw ((uint-Inverts bo 1).at b'u' (omega arith) rest) refl

  read_wires :
      (ws : List Wire) (rest : List ℕ)
      → All IsWire ws
      → repeat bo (length ws) (tuple_column bo) (put_all put_wire ws rest)
        ≡ ok (map value_of ws, rest)
  unfolding repeat
  read_wires [] rest h = refl
  read_wires (w ∷ ws) rest h =
      rw (read_wire w (put_all put_wire ws rest) h.0) (rw (read_wires ws rest h.1) refl)

  tuple_of_wires :
      (ws : List Wire) (rest : List ℕ)
      → IsUnsigned 2 (length ws)
      → All IsWire ws
      → parse_tuple_data bo (put_wires ws rest) ≡ ok (record { columns = map value_of ws }, rest)
  unfolding parse_tuple_data
  tuple_of_wires ws rest n h =
      rw ((uint-Inverts bo 2).at (length ws) n (put_all put_wire ws rest))
        (rw (read_wires ws rest h) refl)

  nulled_value : (ws : List Wire) → map value_of (map nulled ws) ≡ map value_of ws
  nulled_value [] = refl
  nulled_value (w ∷ ws) = rw (nulled_value ws) refl

  nulled-length : (ws : List Wire) → length (map nulled ws) ≡ length ws
  nulled-length [] = refl
  nulled-length (w ∷ ws) = rw (nulled-length ws) refl

  nulled-IsWire : (ws : List Wire) → All IsWire ws → All IsWire (map nulled ws)
  nulled-IsWire [] h = tt
  nulled-IsWire (sent cell ∷ ws) h = (h.0, nulled-IsWire ws h.1)
  nulled-IsWire (unchanged ∷ ws) h = (tt, nulled-IsWire ws h.1)

  -- A tuple in which some values are marked as unchanged is parsed like the tuple that has NULL in
  -- their place, and it gives each column's value where one was sent and none elsewhere.
  pub unchanged_read_as_null :
      (ws : List Wire) (rest : List ℕ)
      → IsUnsigned 2 (length ws)
      → All IsWire ws
      → (parse_tuple_data bo (put_wires ws rest)
          ≡ parse_tuple_data bo (put_wires (map nulled ws) rest))
        × (parse_tuple_data bo (put_wires ws rest)
            ≡ ok (record { columns = map value_of ws }, rest))
  unchanged_read_as_null ws rest n h =
      let direct = tuple_of_wires ws rest n h in
      let null =
        tuple_of_wires (map nulled ws) rest (rw (nulled-length ws) n) (nulled-IsWire ws h) in
      (direct ∙ sym (rw (← nulled_value ws) null), direct)
