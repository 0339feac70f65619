-- ===== src/Pgoutput/Parse.antt =====
-- src/source/postgres/pgoutput.rs: PgOutputParser, one reader for each of its methods.
use meilibridge.Prelude.{
  ℕ, zero, suc, not, ◌||◌, Option, none, some, List, [], ◌∷◌, nat_eqb, nat_eq, length,
  if◌then◌else◌,
}
use meilibridge.Prelude.Result.{ok, err}
use meilibridge.Pgoutput.{
  BeginMessage, CommitMessage, OriginMessage, Column, RelationMessage, TypeMessage, TupleData,
  InsertMessage, UpdateMessage, DeleteMessage, TruncateMessage, KeepaliveMessage, not_new_tuple,
  unknown_update_tuple, not_old_tuple, unknown_column, missing_new_tuple, out_of_fuel,
  PgOutputParser,
}
use meilibridge.Pgoutput.Bytes.{ByteOrder}
use meilibridge.Pgoutput.Read.{
  Reader, ◌>>=◌, pure, raise, resume, read_exact, read_string, read_u8, read_u16, read_u32,
  read_u64, read_i32, read_i64, repeat,
}

abbrev pub new : PgOutputParser
new = record { relations = [] }

module _ (bo : ByteOrder) where
  unfoldable pub parse_begin : Reader BeginMessage
  parse_begin = do
    final_lsn ← read_u64 bo
    timestamp ← read_i64 bo
    xid ← read_u32 bo
    pure (record { final_lsn = final_lsn; timestamp = timestamp; xid = xid })

  unfoldable pub parse_commit : Reader CommitMessage
  parse_commit = do
    flags ← read_u8 bo
    commit_lsn ← read_u64 bo
    end_lsn ← read_u64 bo
    timestamp ← read_i64 bo
    pure (record {
      flags = flags;
      commit_lsn = commit_lsn;
      end_lsn = end_lsn;
      timestamp = timestamp;
    })

  unfoldable pub parse_origin : Reader OriginMessage
  parse_origin = do
    commit_lsn ← read_u64 bo
    name ← read_string
    pure (record { commit_lsn = commit_lsn; name = name })

  unfoldable pub parse_column : Reader Column
  parse_column = do
    flags ← read_u8 bo
    name ← read_string
    type_id ← read_u32 bo
    type_modifier ← read_i32 bo
    pure (record { flags = flags; name = name; type_id = type_id; type_modifier = type_modifier })

  unfoldable pub parse_relation : Reader RelationMessage
  unfolding parse_column
  parse_relation = do
    relation_id ← read_u32 bo
    namespace ← read_string
    relation_name ← read_string
    replica_identity ← read_u8 bo
    column_count ← read_u16 bo
    columns ← repeat bo column_count parse_column
    pure (record {
      relation_id = relation_id;
      namespace = namespace;
      relation_name = relation_name;
      replica_identity = replica_identity;
      columns = columns;
    })

  unfoldable pub parse_type : Reader TypeMessage
  parse_type = do
    type_id ← read_u32 bo
    namespace ← read_string
    name ← read_string
    pure (record { type_id = type_id; namespace = namespace; name = name })

  unfoldable pub read_text : Reader (Option (List ℕ))
  read_text = do len ← read_u32 bo; bytes ← read_exact len; pure (some bytes)

  -- What follows the byte that says of which kind the column is.
  unfoldable pub column_of : ℕ → Reader (Option (List ℕ))
  unfolding read_text
  column_of kind =
      if nat_eqb kind b'n'
      then pure none
      else if nat_eqb kind b't'
      then read_text
      else if nat_eqb kind b'u'
      then pure none
      else raise (unknown_column kind)

  unfoldable pub tuple_column : Reader (Option (List ℕ))
  unfolding column_of
  tuple_column = read_u8 bo >>= column_of

  unfoldable pub parse_tuple_data : Reader TupleData
  unfolding tuple_column
  parse_tuple_data = do
    column_count ← read_u16 bo
    columns ← repeat bo column_count tuple_column
    pure (record { columns = columns })

  unfoldable pub new_tuple_of : ℕ → ℕ → Reader InsertMessage
  unfolding parse_tuple_data
  new_tuple_of relation_id kind =
      if nat_eqb kind b'N'
      then (do tuple ← parse_tuple_data; pure (record { relation_id = relation_id; tuple = tuple }))
      else raise (not_new_tuple kind)

  unfoldable pub parse_insert : Reader InsertMessage
  unfolding new_tuple_of
  parse_insert = do relation_id ← read_u32 bo; kind ← read_u8 bo; new_tuple_of relation_id kind

  abbrev Tuples : Type 0
  Tuples = Option TupleData × Option TupleData

  -- One round of the loop, and then the later rounds.
  unfoldable pub update_round : (Tuples → Reader Tuples) → Tuples → ℕ → Reader Tuples
  unfolding parse_tuple_data
  update_round later (old, fresh) kind =
      if nat_eqb kind b'O' || nat_eqb kind b'K'
      then parse_tuple_data >>= (λ t. later (some t, fresh))
      else if nat_eqb kind b'N'
      then parse_tuple_data >>= (λ t. later (old, some t))
      else raise (unknown_update_tuple kind)

  -- `while cursor.position() < data.len()`, with fuel.
  unfoldable pub update_loop : ℕ → Tuples → Reader Tuples
  unfolding update_round
  update_loop fuel tuples [] = ok (tuples, [])
  update_loop zero tuples (b ∷ input) = err out_of_fuel
  update_loop (suc fuel) tuples (b ∷ input) =
      resume (update_round (update_loop fuel) tuples) (read_u8 bo (b ∷ input))

  unfoldable pub update_of : ℕ → Tuples → Reader UpdateMessage
  update_of relation_id (old, none) = raise missing_new_tuple
  update_of relation_id (old, some fresh) =
      pure (record { relation_id = relation_id; old_tuple = old; new_tuple = fresh })

  -- Each round passes at least one byte, so the bytes that are left are fuel enough.
  unfoldable pub parse_update : Reader UpdateMessage
  unfolding update_loop update_of
  parse_update = do
    relation_id ← read_u32 bo
    tuples ← (λ input. update_loop (length input) (none, none) input)
    update_of relation_id tuples

  unfoldable pub old_tuple_of : ℕ → ℕ → Reader DeleteMessage
  unfolding parse_tuple_data
  old_tuple_of relation_id kind =
      if nat_eqb kind b'O' || nat_eqb kind b'K'
      then (do
        tuple ← parse_tuple_data
        pure (record { relation_id = relation_id; old_tuple = tuple }))
      else raise (not_old_tuple kind)

  unfoldable pub parse_delete : Reader DeleteMessage
  unfolding old_tuple_of
  parse_delete = do relation_id ← read_u32 bo; kind ← read_u8 bo; old_tuple_of relation_id kind

  unfoldable pub parse_truncate : Reader TruncateMessage
  parse_truncate = do
    relation_count ← read_u32 bo
    options ← read_u8 bo
    relation_ids ← repeat bo relation_count (read_u32 bo)
    pure
        (record { relation_count = relation_count; options = options; relation_ids = relation_ids })

  unfoldable pub parse_keepalive : Reader KeepaliveMessage
  parse_keepalive = do
    wal_end ← read_u64 bo
    timestamp ← read_i64 bo
    reply ← read_u8 bo
    pure (record {
      wal_end = wal_end;
      timestamp = timestamp;
      reply_requested = not (nat_eqb reply 0);
    })
