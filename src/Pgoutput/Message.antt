-- ===== src/Pgoutput/Message.antt =====
-- src/source/postgres/pgoutput.rs: PgOutputParser::parse_message and get_relation.
use meilibridge.Prelude.{ℕ, Option, none, some, List, [], ◌∷◌, nat_eqb, nat_eq, if◌then◌else◌}
use meilibridge.Prelude.Map
use meilibridge.Prelude.Result.{Result, ok, err}
use meilibridge.Pgoutput.{
  RelationMessage, PgOutputMessage, begin, commit, origin, relation, type_, insert, update, delete,
  truncate, keepalive, ParseError, PgOutputParser,
}
use meilibridge.Pgoutput.Bytes.{ByteOrder}
use meilibridge.Pgoutput.Read.{Reader, ◌>>=◌, pure}
use meilibridge.Pgoutput.Parse.{
  parse_begin, parse_commit, parse_origin, parse_relation, parse_type, parse_insert, parse_update,
  parse_delete, parse_truncate, parse_keepalive,
}

-- What is read as one kind of message.
abbrev pub as_message :
    {A : Type 0} → (A → PgOutputMessage) → Reader A → Reader (Option PgOutputMessage)
as_message make read = read >>= λ m. pure (some (make m))

module _ (bo : ByteOrder) where
  unfoldable pub message_of : ℕ → Reader (Option PgOutputMessage)
  message_of msg_type =
      if nat_eqb msg_type b'B'
      then as_message begin (parse_begin bo)
      else if nat_eqb msg_type b'C'
      then as_message commit (parse_commit bo)
      else if nat_eqb msg_type b'O'
      then as_message origin (parse_origin bo)
      else if nat_eqb msg_type b'R'
      then as_message relation (parse_relation bo)
      else if nat_eqb msg_type b'Y'
      then as_message type_ (parse_type bo)
      else if nat_eqb msg_type b'I'
      then as_message insert (parse_insert bo)
      else if nat_eqb msg_type b'U'
      then as_message update (parse_update bo)
      else if nat_eqb msg_type b'D'
      then as_message delete (parse_delete bo)
      else if nat_eqb msg_type b'T'
      then as_message truncate (parse_truncate bo)
      else if nat_eqb msg_type b'k'
      then as_message keepalive (parse_keepalive bo)
      else pure none

  -- A relation that was read is remembered under its id.
  unfoldable pub remember :
      PgOutputParser
      → Result ParseError (Option PgOutputMessage × List ℕ)
      → Result ParseError (Option PgOutputMessage) × PgOutputParser
  remember p (err e) = (err e, p)
  remember p (ok (some (relation r), rest)) =
      (ok (some (relation r)), record { relations = Map.insert r.relation_id r p.relations })
  remember p (ok (m, rest)) = (ok m, p)

  -- Bytes after the message are passed over.
  unfoldable pub parse_message :
      PgOutputParser → List ℕ → Result ParseError (Option PgOutputMessage) × PgOutputParser
  unfolding message_of remember
  parse_message p [] = (ok none, p)
  parse_message p (msg_type ∷ payload) = remember p (message_of msg_type payload)

unfoldable pub get_relation : ℕ → PgOutputParser → Option RelationMessage
get_relation relation_id p = Map.lookup relation_id p.relations
