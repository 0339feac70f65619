-- ===== src/Pgoutput.antt =====
-- src/source/postgres/pgoutput.rs: the messages of the replication stream, the parser's state and
-- errors. Bytes are numbers; a text is its UTF-8 bytes, which `String::from_utf8` keeps as they are.
pub mod Bytes
pub mod Read
pub mod Parse
pub mod Message
pub mod WellFormed
pub mod Yields
pub mod Parsed
pub mod Sound
pub mod Encode
pub mod RoundTrip
pub mod Toast
mod Tests
use meilibridge.Prelude.{ℕ, Bool, Option, List}
use meilibridge.Prelude.Map.{Map}

-- A signed number: `pos n` is n and `negsuc n` is -(n + 1).
pub data ℤ : Type 0 where
  pos negsuc : ℕ → ℤ

pub record BeginMessage : Type 0 where
  pub final_lsn : ℕ
  pub timestamp : ℤ
  pub xid : ℕ

pub record CommitMessage : Type 0 where
  pub flags : ℕ
  pub commit_lsn : ℕ
  pub end_lsn : ℕ
  pub timestamp : ℤ

pub record OriginMessage : Type 0 where
  pub commit_lsn : ℕ
  pub name : List ℕ

pub record Column : Type 0 where
  pub flags : ℕ
  pub name : List ℕ
  pub type_id : ℕ
  pub type_modifier : ℤ

pub record RelationMessage : Type 0 where
  pub relation_id : ℕ
  pub namespace : List ℕ
  pub relation_name : List ℕ
  pub replica_identity : ℕ
  pub columns : List Column

pub record TypeMessage : Type 0 where
  pub type_id : ℕ
  pub namespace : List ℕ
  pub name : List ℕ

pub record TupleData : Type 0 where
  pub columns : List (Option (List ℕ))

pub record InsertMessage : Type 0 where
  pub relation_id : ℕ
  pub tuple : TupleData

pub record UpdateMessage : Type 0 where
  pub relation_id : ℕ
  pub old_tuple : Option TupleData
  pub new_tuple : TupleData

pub record DeleteMessage : Type 0 where
  pub relation_id : ℕ
  pub old_tuple : TupleData

pub record TruncateMessage : Type 0 where
  pub relation_count : ℕ
  pub options : ℕ
  pub relation_ids : List ℕ

pub record KeepaliveMessage : Type 0 where
  pub wal_end : ℕ
  pub timestamp : ℤ
  pub reply_requested : Bool

pub data PgOutputMessage : Type 0 where
  begin : BeginMessage → PgOutputMessage
  commit : CommitMessage → PgOutputMessage
  origin : OriginMessage → PgOutputMessage
  relation : RelationMessage → PgOutputMessage
  type_ : TypeMessage → PgOutputMessage
  insert : InsertMessage → PgOutputMessage
  update : UpdateMessage → PgOutputMessage
  delete : DeleteMessage → PgOutputMessage
  truncate : TruncateMessage → PgOutputMessage
  keepalive : KeepaliveMessage → PgOutputMessage

-- `out_of_fuel` is no error of the code: it marks the end of the fuel of the loop over an update.
pub data ParseError : Type 0 where
  unexpected_eof : ParseError
  invalid_utf8 : ParseError
  not_new_tuple unknown_update_tuple not_old_tuple unknown_column : ℕ → ParseError
  missing_new_tuple : ParseError
  out_of_fuel : ParseError

pub record PgOutputParser : Type 0 where
  pub relations : Map ℕ RelationMessage
