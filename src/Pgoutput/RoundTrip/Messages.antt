-- ===== src/Pgoutput/RoundTrip/Messages.antt =====
-- src/source/postgres/pgoutput.rs: each parser reads back what the encoder of its message puts.
use meilibridge.Prelude.{
  ℕ, zero, suc, ◌<◌, ◌≡◌, refl, Bool, true, false, not, Option, none, some, List, [], ◌∷◌, arith,
  nat_eqb, nat_eq, length, if◌then◌else◌,
}
use meilibridge.Prelude.Map
use meilibridge.Prelude.Map.{lookup-insert}
use meilibridge.Prelude.Result.{ok}
use meilibridge.Pgoutput.{
  RelationMessage, TupleData, UpdateMessage, PgOutputMessage, begin, commit, origin, relation,
  type_, insert, update, delete, truncate, keepalive, PgOutputParser,
}
use meilibridge.Pgoutput.Bytes.{ByteOrder, put_be}
use meilibridge.Pgoutput.Read.{read_uint}
use meilibridge.Pgoutput.Parse.{
  parse_begin, parse_commit, parse_origin, parse_column, parse_relation, parse_type, new_tuple_of,
  parse_insert, update_round, update_loop, update_of, parse_update, old_tuple_of, parse_delete,
  parse_truncate, parse_keepalive,
}
use meilibridge.Pgoutput.Message.{message_of, remember, parse_message, get_relation}
use meilibridge.Pgoutput.WellFormed.{
  IsUnsigned, IsColumn, IsTuple, IsOldTuple, IsBegin, IsCommit, IsOrigin, IsRelation, IsType,
  IsInsert, IsUpdate, IsDelete, IsTruncate, IsKeepalive, IsWellFormed,
}
use meilibridge.Pgoutput.Encode.{
  put_begin, put_commit, put_origin, put_column, put_relation, put_type, put_insert, put_update,
  put_delete, put_truncate, put_keepalive, put_bool, put_tuple, put_old, encode,
}
use meilibridge.Pgoutput.RoundTrip.Fields.{
  Inverts, string-Inverts, uint-Inverts, IsI64-Inverts, repeat-Inverts, IsColumn-Inverts,
  IsTuple-Inverts,
}

module _ (bo : ByteOrder) where
  IsBegin-Inverts : Inverts IsBegin put_begin (parse_begin bo)
  unfolding parse_begin
  IsBegin-Inverts = record {
    at = λ m h rest. rw ((uint-Inverts bo 8).at m.final_lsn h.0 _) (
        rw ((IsI64-Inverts bo).at m.timestamp h.1 _)
          (rw ((uint-Inverts bo 4).at m.xid h.2 rest) refl));
  }

  IsCommit-Inverts : Inverts IsCommit put_commit (parse_commit bo)
  unfolding parse_commit
  IsCommit-Inverts = record {
    at = λ m h rest. rw ((uint-Inverts bo 1).at m.flags h.0 _) (
        rw ((uint-Inverts bo 8).at m.commit_lsn h.1 _) (
          rw ((uint-Inverts bo 8).at m.end_lsn h.2 _)
            (rw ((IsI64-Inverts bo).at m.timestamp h.3 rest) refl)));
  }

  IsOrigin-Inverts : Inverts IsOrigin put_origin (parse_origin bo)
  unfolding parse_origin
  IsOrigin-Inverts = record {
    at = λ m h rest.
        rw ((uint-Inverts bo 8).at m.commit_lsn h.0 _)
          (rw (string-Inverts.at m.name h.1 rest) refl);
  }

  IsRelation-Inverts : Inverts IsRelation put_relation (parse_relation bo)
  unfolding parse_relation
  IsRelation-Inverts = record {
    at = λ m h rest. rw ((uint-Inverts bo 4).at m.relation_id h.0 _) (
        rw (string-Inverts.at m.namespace h.1 _) (
          rw (string-Inverts.at m.relation_name h.2 _) (
            rw ((uint-Inverts bo 1).at m.replica_identity h.3 _) (
              rw ((uint-Inverts bo 2).at (length m.columns) h.4 _) (
                rw
                  (repeat-Inverts bo IsColumn put_column (parse_column bo) (IsColumn-Inverts bo)
                    m.columns h.5 rest)
                  refl)))));
  }

  IsType-Inverts : Inverts IsType put_type (parse_type bo)
  unfolding parse_type
  IsType-Inverts = record {
    at = λ m h rest.
        rw ((uint-Inverts bo 4).at m.type_id h.0 _)
          (rw (string-Inverts.at m.namespace h.1 _) (rw (string-Inverts.at m.name h.2 rest) refl));
  }

  IsInsert-Inverts : Inverts IsInsert put_insert (parse_insert bo)
  unfolding parse_insert new_tuple_of
  IsInsert-Inverts = record {
    at = λ m h rest. rw ((uint-Inverts bo 4).at m.relation_id h.0 _) (
        rw ((uint-Inverts bo 1).at b'N' (omega arith) _)
          (rw ((IsTuple-Inverts bo).at m.tuple h.1 rest) refl));
  }

  IsDelete-Inverts : Inverts IsDelete put_delete (parse_delete bo)
  unfolding parse_delete old_tuple_of
  IsDelete-Inverts = record {
    at = λ m h rest. rw ((uint-Inverts bo 4).at m.relation_id h.0 _) (
        rw ((uint-Inverts bo 1).at b'O' (omega arith) _)
          (rw ((IsTuple-Inverts bo).at m.old_tuple h.1 rest) refl));
  }

  IsTruncate-Inverts : Inverts IsTruncate put_truncate (parse_truncate bo)
  unfolding parse_truncate
  IsTruncate-Inverts = record {
    at = λ m h rest. rw ((uint-Inverts bo 4).at m.relation_count h.0 _) (
        rw ((uint-Inverts bo 1).at m.options h.1 _) (
          rw (← h.2) (
            rw
              (repeat-Inverts bo (IsUnsigned 4) (put_be 4) (read_uint bo 4) (uint-Inverts bo 4)
                m.relation_ids h.3 rest)
              refl)));
  }

  IsKeepalive-Inverts : Inverts IsKeepalive put_keepalive (parse_keepalive bo)
  unfolding parse_keepalive
  IsKeepalive-Inverts = record {
    at = λ m h rest. rw ((uint-Inverts bo 8).at m.wal_end h.0 _) (
        rw ((IsI64-Inverts bo).at m.timestamp h.1 _) (
          rw ((uint-Inverts bo 1).at (put_bool m.reply_requested) (is_byte m.reply_requested) rest)
            (rw (reply_back m.reply_requested) refl)));
  }
    where
      is_byte : (b : Bool) → IsUnsigned 1 (put_bool b)
      is_byte true = omega arith
      is_byte false = omega arith

      reply_back : (b : Bool) → not (nat_eqb (put_bool b) 0) ≡ b
      reply_back true = refl
      reply_back false = refl

  read_old_kind : (rest : List ℕ) → read_uint bo 1 (b'O' ∷ rest) ≡ ok (b'O', rest)
  unfolding put_be
  read_old_kind rest = (uint-Inverts bo 1).at b'O' (omega arith) rest

  read_new_kind : (rest : List ℕ) → read_uint bo 1 (b'N' ∷ rest) ≡ ok (b'N', rest)
  unfolding put_be
  read_new_kind rest = (uint-Inverts bo 1).at b'N' (omega arith) rest

  -- The last round reads the new tuple, whatever was read before.
  loop_new :
      (fuel : ℕ) (old : Option TupleData × Option TupleData) (t : TupleData)
      → 0 < fuel
      → IsTuple t
      → update_loop bo fuel old (b'N' ∷ put_tuple t []) ≡ ok ((old.0, some t), [])
  unfolding update_loop update_round
  loop_new zero old t h w = ground arith
  loop_new (suc fuel) old t h w =
      rw (read_new_kind (put_tuple t [])) (rw ((IsTuple-Inverts bo).at t w []) refl)

  loop_update :
      (old : Option TupleData) (t : TupleData)
      → IsOldTuple old
      → IsTuple t
      → let input = put_old old (put_be 1 b'N' (put_tuple t [])) in
        update_loop bo (length input) (none, none) input ≡ ok ((old, some t), [])
  unfolding update_loop update_round put_be
  loop_update none t o w = loop_new (length (b'N' ∷ put_tuple t [])) (none, none) t (omega arith) w
  loop_update (some t') t o w = rw (read_old_kind (put_tuple t' (b'N' ∷ put_tuple t []))) (
      rw ((IsTuple-Inverts bo).at t' o (b'N' ∷ put_tuple t [])) (
        loop_new (length (put_tuple t' (b'N' ∷ put_tuple t []))) (some t', none) t (omega arith) w))

  update-inverts : (m : UpdateMessage) → IsUpdate m → parse_update bo (put_update m []) ≡ ok (m, [])
  unfolding parse_update update_of
  update-inverts m h =
      rw ((uint-Inverts bo 4).at m.relation_id h.0 _)
        (rw (loop_update m.old_tuple m.new_tuple h.1 h.2) refl)

  -- The relations that the parser knows after a message.
  abbrev pub after_message : PgOutputMessage → PgOutputParser → PgOutputParser
  after_message (relation r) p = record { relations = Map.insert r.relation_id r p.relations }
  after_message _ p = p

  -- The bytes of every well-formed message are parsed as that message, whatever relations the parser
  -- knows; it then knows the relation too if the message is one, and is unchanged otherwise.
  pub parse_message-encode :
      (m : PgOutputMessage) (p : PgOutputParser)
      → IsWellFormed m
      → parse_message bo p (encode m) ≡ (ok (some m), after_message m p)
  unfolding parse_message message_of remember
  parse_message-encode (begin m) p h = rw (IsBegin-Inverts.at m h []) refl
  parse_message-encode (commit m) p h = rw (IsCommit-Inverts.at m h []) refl
  parse_message-encode (origin m) p h = rw (IsOrigin-Inverts.at m h []) refl
  parse_message-encode (relation m) p h = rw (IsRelation-Inverts.at m h []) refl
  parse_message-encode (type_ m) p h = rw (IsType-Inverts.at m h []) refl
  parse_message-encode (insert m) p h = rw (IsInsert-Inverts.at m h []) refl
  parse_message-encode (update m) p h = rw (update-inverts m h) refl
  parse_message-encode (delete m) p h = rw (IsDelete-Inverts.at m h []) refl
  parse_message-encode (truncate m) p h = rw (IsTruncate-Inverts.at m h []) refl
  parse_message-encode (keepalive m) p h = rw (IsKeepalive-Inverts.at m h []) refl

  -- After the bytes of a well-formed relation were parsed, its id is known as that relation, and
  -- every other id as what it was before.
  pub get_relation-parse_message :
      (r : RelationMessage) (p : PgOutputParser) (id : ℕ)
      → IsRelation r
      → get_relation id (parse_message bo p (encode (relation r))).1
        ≡ (if nat_eqb r.relation_id id then some r else get_relation id p)
  unfolding get_relation
  get_relation-parse_message r p id h =
      rw (parse_message-encode (relation r) p h)
        (ground (arith, lookup-insert r.relation_id id r p.relations))
