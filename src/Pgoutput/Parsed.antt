-- ===== src/Pgoutput/Parsed.antt =====
-- src/source/postgres/pgoutput.rs: what each parser reads from any bytes.
use meilibridge.Prelude.{refl, nat_eqb, ◌||◌}
use meilibridge.Pgoutput.Bytes.{ByteOrder}
use meilibridge.Pgoutput.Read.{read_uint}
use meilibridge.Pgoutput.Parse.{
  parse_begin, parse_commit, parse_origin, parse_column, parse_relation, parse_type, read_text,
  column_of, tuple_column, parse_tuple_data, new_tuple_of, parse_insert, old_tuple_of, parse_delete,
  parse_truncate, parse_keepalive,
}
use meilibridge.Pgoutput.WellFormed.{
  IsUnsigned, IsColumn, IsCell, IsTuple, IsBegin, IsCommit, IsOrigin, IsRelation, IsType, IsInsert,
  IsDelete, IsTruncate, IsKeepalive,
}
use meilibridge.Pgoutput.Yields.{
  Yields, bind-Yields, pure-Yields, raise-Yields, if-Yields, read_exact-Yields, read_string-Yields,
  uint-Yields, IsI32-Yields, IsI64-Yields, repeat-Yields,
}

module _ (bo : ByteOrder) where
  pub IsBegin-Yields : Yields IsBegin (parse_begin bo)
  unfolding parse_begin
  IsBegin-Yields = bind-Yields _ _ _ _ (uint-Yields bo 8) (λ _ a.
      bind-Yields _ _ _ _ (IsI64-Yields bo)
        (λ _ b. bind-Yields _ _ _ _ (uint-Yields bo 4) (λ _ c. pure-Yields _ _ (a, b, c))))

  pub IsCommit-Yields : Yields IsCommit (parse_commit bo)
  unfolding parse_commit
  IsCommit-Yields = bind-Yields _ _ _ _ (uint-Yields bo 1) (λ _ a.
      bind-Yields _ _ _ _ (uint-Yields bo 8) (λ _ b.
        bind-Yields _ _ _ _ (uint-Yields bo 8)
          (λ _ c. bind-Yields _ _ _ _ (IsI64-Yields bo) (λ _ d. pure-Yields _ _ (a, b, c, d)))))

  pub IsOrigin-Yields : Yields IsOrigin (parse_origin bo)
  unfolding parse_origin
  IsOrigin-Yields =
      bind-Yields _ _ _ _ (uint-Yields bo 8)
        (λ _ a. bind-Yields _ _ _ _ read_string-Yields (λ _ b. pure-Yields _ _ (a, b)))

  pub IsColumn-Yields : Yields IsColumn (parse_column bo)
  unfolding parse_column
  IsColumn-Yields = bind-Yields _ _ _ _ (uint-Yields bo 1) (λ _ a.
      bind-Yields _ _ _ _ read_string-Yields (λ _ b.
        bind-Yields _ _ _ _ (uint-Yields bo 4)
          (λ _ c. bind-Yields _ _ _ _ (IsI32-Yields bo) (λ _ d. pure-Yields _ _ (a, b, c, d)))))

  pub IsRelation-Yields : Yields IsRelation (parse_relation bo)
  unfolding parse_relation
  IsRelation-Yields = bind-Yields _ _ _ _ (uint-Yields bo 4) (λ _ a.
      bind-Yields _ _ _ _ read_string-Yields (λ _ b. bind-Yields _ _ _ _ read_string-Yields (λ _ c.
        bind-Yields _ _ _ _ (uint-Yields bo 1) (λ _ d.
          bind-Yields _ _ _ _ (uint-Yields bo 2) (λ n e.
            bind-Yields _ _ _ _ (repeat-Yields bo IsColumn (parse_column bo) n IsColumn-Yields)
              (λ _ f. pure-Yields _ _ (a, b, c, d, rw f.1 e, f.0)))))))

  pub IsType-Yields : Yields IsType (parse_type bo)
  unfolding parse_type
  IsType-Yields = bind-Yields _ _ _ _ (uint-Yields bo 4) (λ _ a.
      bind-Yields _ _ _ _ read_string-Yields
        (λ _ b. bind-Yields _ _ _ _ read_string-Yields (λ _ c. pure-Yields _ _ (a, b, c))))

  pub text-Yields : Yields IsCell (read_text bo)
  unfolding read_text
  text-Yields =
      bind-Yields _ _ _ _ (uint-Yields bo 4)
        (λ n a. bind-Yields _ _ _ _ (read_exact-Yields n) (λ _ b. pure-Yields _ _ (rw b a)))

  pub IsCell-Yields : Yields IsCell (tuple_column bo)
  unfolding tuple_column column_of
  IsCell-Yields = bind-Yields _ _ _ _ (uint-Yields bo 1) (λ kind _.
      if-Yields _ (nat_eqb kind b'n') _ _ (pure-Yields _ _ tt) (
        if-Yields _ (nat_eqb kind b't') _ _ text-Yields
          (if-Yields _ (nat_eqb kind b'u') _ _ (pure-Yields _ _ tt) (raise-Yields _ _ refl))))

  pub IsTuple-Yields : Yields IsTuple (parse_tuple_data bo)
  unfolding parse_tuple_data
  IsTuple-Yields = bind-Yields _ _ _ _ (uint-Yields bo 2) (λ n a.
      bind-Yields _ _ _ _ (repeat-Yields bo IsCell (tuple_column bo) n IsCell-Yields)
        (λ _ b. pure-Yields _ _ (rw b.1 a, b.0)))

  pub IsInsert-Yields : Yields IsInsert (parse_insert bo)
  unfolding parse_insert new_tuple_of
  IsInsert-Yields = bind-Yields _ _ _ _ (uint-Yields bo 4) (λ _ a.
      bind-Yields _ _ _ _ (uint-Yields bo 1) (λ kind _.
        if-Yields _ (nat_eqb kind b'N') _ _
          (bind-Yields _ _ _ _ IsTuple-Yields (λ _ b. pure-Yields _ _ (a, b)))
          (raise-Yields _ _ refl)))

  pub IsDelete-Yields : Yields IsDelete (parse_delete bo)
  unfolding parse_delete old_tuple_of
  IsDelete-Yields = bind-Yields _ _ _ _ (uint-Yields bo 4) (λ _ a.
      bind-Yields _ _ _ _ (uint-Yields bo 1) (λ kind _.
        if-Yields _ (nat_eqb kind b'O' || nat_eqb kind b'K') _ _
          (bind-Yields _ _ _ _ IsTuple-Yields (λ _ b. pure-Yields _ _ (a, b)))
          (raise-Yields _ _ refl)))

  pub IsTruncate-Yields : Yields IsTruncate (parse_truncate bo)
  unfolding parse_truncate
  IsTruncate-Yields = bind-Yields _ _ _ _ (uint-Yields bo 4) (λ n a.
      bind-Yields _ _ _ _ (uint-Yields bo 1) (λ _ b.
        bind-Yields _ _ _ _ (repeat-Yields bo (IsUnsigned 4) (read_uint bo 4) n (uint-Yields bo 4))
          (λ _ c. pure-Yields _ _ (a, b, c.1, c.0))))

  pub IsKeepalive-Yields : Yields IsKeepalive (parse_keepalive bo)
  unfolding parse_keepalive
  IsKeepalive-Yields = bind-Yields _ _ _ _ (uint-Yields bo 8) (λ _ a.
      bind-Yields _ _ _ _ (IsI64-Yields bo)
        (λ _ b. bind-Yields _ _ _ _ (uint-Yields bo 1) (λ _ _. pure-Yields _ _ (a, b))))
