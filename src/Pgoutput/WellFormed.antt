-- ===== src/Pgoutput/WellFormed.antt =====
-- src/source/postgres/pgoutput.rs: what the types of the messages' fields hold, as predicates: numbers
-- of their widths, texts of UTF-8 without a zero byte, and counts that fit their fields.
use meilibridge.Prelude.{ℕ, ◌^◌, ◌<◌, ◌≡◌, true, Option, none, some, List, length, All}
use meilibridge.Pgoutput.{
  ℤ, pos, negsuc, BeginMessage, CommitMessage, OriginMessage, Column, RelationMessage, TypeMessage,
  TupleData, InsertMessage, UpdateMessage, DeleteMessage, TruncateMessage, KeepaliveMessage,
  PgOutputMessage, begin, commit, origin, relation, type_, insert, update, delete, truncate,
  keepalive,
}
use meilibridge.Pgoutput.Read.{is_utf8}

-- An unsigned number of n bytes.
abbrev pub IsUnsigned : ℕ → ℕ → Type 0
IsUnsigned n x = x < 256 ^ n

-- A signed number of 2 * half values.
abbrev pub IsSigned : ℕ → ℤ → Type 0
IsSigned half (pos n) = n < half
IsSigned half (negsuc n) = n < half

abbrev pub IsI32 : ℤ → Type 0
IsI32 = IsSigned 2147483648

abbrev pub IsI64 : ℤ → Type 0
IsI64 = IsSigned 9223372036854775808

pub record IsText (bytes : List ℕ) : Type 0 where
  pub nonzero : All (λ b. 0 < b) bytes
  pub utf8 : is_utf8 bytes ≡ true

abbrev pub IsColumn : Column → Type 0
IsColumn c = IsUnsigned 1 c.flags × IsText c.name × IsUnsigned 4 c.type_id × IsI32 c.type_modifier

abbrev pub IsCell : Option (List ℕ) → Type 0
IsCell none = Unit
IsCell (some bytes) = IsUnsigned 4 (length bytes)

abbrev pub IsTuple : TupleData → Type 0
IsTuple t = IsUnsigned 2 (length t.columns) × All IsCell t.columns

abbrev pub IsOldTuple : Option TupleData → Type 0
IsOldTuple none = Unit
IsOldTuple (some t) = IsTuple t

abbrev pub IsBegin : BeginMessage → Type 0
IsBegin m = IsUnsigned 8 m.final_lsn × IsI64 m.timestamp × IsUnsigned 4 m.xid

abbrev pub IsCommit : CommitMessage → Type 0
IsCommit m =
    IsUnsigned 1 m.flags × IsUnsigned 8 m.commit_lsn × IsUnsigned 8 m.end_lsn × IsI64 m.timestamp

abbrev pub IsOrigin : OriginMessage → Type 0
IsOrigin m = IsUnsigned 8 m.commit_lsn × IsText m.name

abbrev pub IsRelation : RelationMessage → Type 0
IsRelation m =
    IsUnsigned 4 m.relation_id
    × IsText m.namespace
    × IsText m.relation_name
    × IsUnsigned 1 m.replica_identity
    × IsUnsigned 2 (length m.columns)
    × All IsColumn m.columns

abbrev pub IsType : TypeMessage → Type 0
IsType m = IsUnsigned 4 m.type_id × IsText m.namespace × IsText m.name

abbrev pub IsInsert : InsertMessage → Type 0
IsInsert m = IsUnsigned 4 m.relation_id × IsTuple m.tuple

abbrev pub IsUpdate : UpdateMessage → Type 0
IsUpdate m = IsUnsigned 4 m.relation_id × IsOldTuple m.old_tuple × IsTuple m.new_tuple

abbrev pub IsDelete : DeleteMessage → Type 0
IsDelete m = IsUnsigned 4 m.relation_id × IsTuple m.old_tuple

abbrev pub IsTruncate : TruncateMessage → Type 0
IsTruncate m =
    IsUnsigned 4 m.relation_count
    × IsUnsigned 1 m.options
    × (length m.relation_ids ≡ m.relation_count)
    × All (IsUnsigned 4) m.relation_ids

abbrev pub IsKeepalive : KeepaliveMessage → Type 0
IsKeepalive m = IsUnsigned 8 m.wal_end × IsI64 m.timestamp

abbrev pub IsWellFormed : PgOutputMessage → Type 0
IsWellFormed (begin m) = IsBegin m
IsWellFormed (commit m) = IsCommit m
IsWellFormed (origin m) = IsOrigin m
IsWellFormed (relation m) = IsRelation m
IsWellFormed (type_ m) = IsType m
IsWellFormed (insert m) = IsInsert m
IsWellFormed (update m) = IsUpdate m
IsWellFormed (delete m) = IsDelete m
IsWellFormed (truncate m) = IsTruncate m
IsWellFormed (keepalive m) = IsKeepalive m
