-- ===== src/Pgoutput/Tests.antt =====
-- src/source/postgres/pgoutput.rs: runs of the parser on concrete bytes, and the theorems at them.
use meilibridge.Prelude.{ℕ, ◌≡◌, ◌≢◌, refl, none, some, List, [], ◌∷◌, arith, map}
use meilibridge.Prelude.Result.{ok, err}
use meilibridge.Pgoutput.{
  negsuc, RelationMessage, UpdateMessage, update, missing_new_tuple, out_of_fuel,
}
use meilibridge.Pgoutput.Bytes.{big_endian, read_bytes}
use meilibridge.Pgoutput.Read.{read_uint, repeat}
use meilibridge.Pgoutput.Parse.{
  new, parse_update, update_loop, update_round, update_of, parse_tuple_data, tuple_column,
  column_of,
}
use meilibridge.Pgoutput.Message.{parse_message, message_of, remember}
use meilibridge.Pgoutput.WellFormed.{IsUpdate}
use meilibridge.Pgoutput.Encode.{encode}
use meilibridge.Pgoutput.RoundTrip.Messages.{parse_message-encode}
use meilibridge.Pgoutput.Sound.{parse_message-IsWellFormed, parse_message_terminates}
use meilibridge.Pgoutput.Toast.{Wire, sent, unchanged, put_wires, nulled, unchanged_read_as_null}

-- The relation p.u with one column, of type text.
abbrev users : RelationMessage
users = record {
  relation_id = 16384;
  namespace = b'p' ∷ [];
  relation_name = b'u' ∷ [];
  replica_identity = b'd';
  columns =
      record { flags = 1; name = 195 ∷ 169 ∷ []; type_id = 25; type_modifier = negsuc 0 } ∷ [];
}

abbrev change : UpdateMessage
change = record {
  relation_id = 16384;
  old_tuple = some (record { columns = none ∷ [] });
  new_tuple = record { columns = some (b'x' ∷ []) ∷ [] };
}

parse_message-encode_example :
    parse_message big_endian new (encode (update change)) ≡ (ok (some (update change)), new)
parse_message-encode_example =
    parse_message-encode big_endian (update change) new
      (omega arith, (omega arith, (tt, tt)), (omega arith, (omega arith, tt)))

-- An update of relation 1 with the new tuple (NULL).
abbrev bytes : List ℕ
bytes = b'U' ∷ 0 ∷ 0 ∷ 0 ∷ 1 ∷ b'N' ∷ 0 ∷ 1 ∷ b'n' ∷ []

abbrev parsed : UpdateMessage
parsed = record { relation_id = 1; old_tuple = none; new_tuple = record { columns = none ∷ [] } }

bytes_parsed : (parse_message big_endian new bytes).0 ≡ ok (some (update parsed))
unfolding parse_message message_of remember parse_update update_loop update_round update_of
    parse_tuple_data tuple_column column_of read_uint repeat read_bytes
bytes_parsed = refl

-- The same bytes without the new tuple.
cut_parsed : (parse_message big_endian new (b'U' ∷ 0 ∷ 0 ∷ 0 ∷ 1 ∷ [])).0 ≡ err missing_new_tuple
unfolding parse_message message_of remember parse_update update_loop update_of read_uint read_bytes
cut_parsed = refl

parse_message-IsWellFormed_example : IsUpdate parsed
parse_message-IsWellFormed_example =
    parse_message-IsWellFormed big_endian new bytes (update parsed) (ground arith) bytes_parsed

parse_message_terminates_example : (parse_message big_endian new bytes).0 ≢ err out_of_fuel
parse_message_terminates_example = parse_message_terminates big_endian new bytes (ground arith)

abbrev wires : List Wire
wires = sent (some (b'7' ∷ [])) ∷ unchanged ∷ []

unchanged_read_as_null_example :
    (parse_tuple_data big_endian (put_wires wires [])
      ≡ parse_tuple_data big_endian (put_wires (map nulled wires) []))
    × (parse_tuple_data big_endian (put_wires wires [])
        ≡ ok (record { columns = some (b'7' ∷ []) ∷ none ∷ [] }, []))
unchanged_read_as_null_example =
    unchanged_read_as_null big_endian wires [] (omega arith) (omega arith, (tt, tt))
