-- ===== src/Pgoutput/Encode.antt =====
-- src/source/postgres/pgoutput.rs: the format of the messages as an encoder, which the parser is
-- compared with. Each function puts its bytes before those that follow.
use meilibridge.Prelude.{
  ℕ, ◌-◌, ◌*◌, Bool, true, false, Option, none, some, List, [], ◌∷◌, ◌++◌, length,
}
use meilibridge.Pgoutput.{
  ℤ, pos, negsuc, BeginMessage, CommitMessage, OriginMessage, Column, RelationMessage, TypeMessage,
  TupleData, InsertMessage, UpdateMessage, DeleteMessage, TruncateMessage, KeepaliveMessage,
  PgOutputMessage, begin, commit, origin, relation, type_, insert, update, delete, truncate,
  keepalive,
}
use meilibridge.Pgoutput.Bytes.{put_be}

abbrev pub Encoder : Type 0 → Type 0
Encoder A = A → List ℕ → List ℕ

-- Two's complement.
abbrev pub unsigned : ℕ → ℤ → ℕ
unsigned half (pos n) = n
unsigned half (negsuc n) = 2 * half - 1 - n

abbrev pub put_i32 : Encoder ℤ
put_i32 z = put_be 4 (unsigned 2147483648 z)

abbrev pub put_i64 : Encoder ℤ
put_i64 z = put_be 8 (unsigned 9223372036854775808 z)

abbrev pub put_string : Encoder (List ℕ)
put_string bytes rest = bytes ++ 0 ∷ rest

abbrev pub put_all : {A : Type 0} → Encoder A → Encoder (List A)
put_all put [] rest = rest
put_all put (a ∷ xs) rest = put a (put_all put xs rest)

abbrev pub put_column : Encoder Column
put_column c rest =
    put_be 1 c.flags (put_string c.name (put_be 4 c.type_id (put_i32 c.type_modifier rest)))

abbrev pub put_cell : Encoder (Option (List ℕ))
put_cell none rest = put_be 1 b'n' rest
put_cell (some bytes) rest = put_be 1 b't' (put_be 4 (length bytes) (bytes ++ rest))

abbrev pub put_tuple : Encoder TupleData
put_tuple t rest = put_be 2 (length t.columns) (put_all put_cell t.columns rest)

abbrev pub put_old : Encoder (Option TupleData)
put_old none rest = rest
put_old (some t) rest = put_be 1 b'O' (put_tuple t rest)

abbrev pub put_begin : Encoder BeginMessage
put_begin m rest = put_be 8 m.final_lsn (put_i64 m.timestamp (put_be 4 m.xid rest))

abbrev pub put_commit : Encoder CommitMessage
put_commit m rest =
    put_be 1 m.flags (put_be 8 m.commit_lsn (put_be 8 m.end_lsn (put_i64 m.timestamp rest)))

abbrev pub put_origin : Encoder OriginMessage
put_origin m rest = put_be 8 m.commit_lsn (put_string m.name rest)

abbrev pub put_relation : Encoder RelationMessage
put_relation m rest = put_be 4 m.relation_id (
    put_string m.namespace (
      put_string m.relation_name (
        put_be 1 m.replica_identity
          (put_be 2 (length m.columns) (put_all put_column m.columns rest)))))

abbrev pub put_type : Encoder TypeMessage
put_type m rest = put_be 4 m.type_id (put_string m.namespace (put_string m.name rest))

abbrev pub put_insert : Encoder InsertMessage
put_insert m rest = put_be 4 m.relation_id (put_be 1 b'N' (put_tuple m.tuple rest))

abbrev pub put_update : Encoder UpdateMessage
put_update m rest =
    put_be 4 m.relation_id (put_old m.old_tuple (put_be 1 b'N' (put_tuple m.new_tuple rest)))

abbrev pub put_delete : Encoder DeleteMessage
put_delete m rest = put_be 4 m.relation_id (put_be 1 b'O' (put_tuple m.old_tuple rest))

abbrev pub put_truncate : Encoder TruncateMessage
put_truncate m rest =
    put_be 4 m.relation_count (put_be 1 m.options (put_all (put_be 4) m.relation_ids rest))

abbrev pub put_bool : Bool → ℕ
put_bool true = 1
put_bool false = 0

abbrev pub put_keepalive : Encoder KeepaliveMessage
put_keepalive m rest =
    put_be 8 m.wal_end (put_i64 m.timestamp (put_be 1 (put_bool m.reply_requested) rest))

-- The bytes of a message: the byte of its kind and its fields.
abbrev pub encode : PgOutputMessage → List ℕ
encode (begin m) = b'B' ∷ put_begin m []
encode (commit m) = b'C' ∷ put_commit m []
encode (origin m) = b'O' ∷ put_origin m []
encode (relation m) = b'R' ∷ put_relation m []
encode (type_ m) = b'Y' ∷ put_type m []
encode (insert m) = b'I' ∷ put_insert m []
encode (update m) = b'U' ∷ put_update m []
encode (delete m) = b'D' ∷ put_delete m []
encode (truncate m) = b'T' ∷ put_truncate m []
encode (keepalive m) = b'k' ∷ put_keepalive m []
