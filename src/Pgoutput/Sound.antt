-- ===== src/Pgoutput/Sound.antt =====
-- src/source/postgres/pgoutput.rs: the loop over an update, and what comes out of a
-- parse of any bytes.
use meilibridge.Prelude.{
  ℕ, zero, suc, ◌≤◌, ◌≡◌, ◌≢◌, refl, subst, Bool, true, false, Option, none, some, List, [], ◌∷◌,
  arith, nat_eqb, length, ◌||◌, if◌then◌else◌,
}
use meilibridge.Prelude.Result.{Result, ok, err}
use meilibridge.Pgoutput.{
  PgOutputMessage, begin, commit, origin, relation, type_, insert, update, delete, truncate,
  keepalive, TupleData, ParseError, out_of_fuel, PgOutputParser,
}
use meilibridge.Pgoutput.Bytes.{ByteOrder, IsBytes, WasRead}
use meilibridge.Pgoutput.Read.{Reader, resume, read_uint, from_io}
use meilibridge.Pgoutput.Parse.{
  parse_tuple_data, update_round, update_loop, update_of, parse_update,
}
use meilibridge.Pgoutput.Message.{as_message, message_of, remember, parse_message}
use meilibridge.Pgoutput.WellFormed.{
  IsUnsigned, IsTuple, IsOldTuple, IsBegin, IsCommit, IsOrigin, IsRelation, IsType, IsInsert,
  IsUpdate, IsDelete, IsTruncate, IsKeepalive, IsWellFormed,
}
use meilibridge.Pgoutput.Yields.{
  is_fuel, Post, Yields, bind-Yields, pure-Yields, raise-Yields, if-Yields, weaken-Post,
  uint-Yields,
}
use meilibridge.Pgoutput.Parsed.{
  IsBegin-Yields, IsCommit-Yields, IsOrigin-Yields, IsRelation-Yields, IsType-Yields,
  IsTuple-Yields, IsInsert-Yields, IsDelete-Yields, IsTruncate-Yields, IsKeepalive-Yields,
}

module _ (bo : ByteOrder) where
  abbrev Tuples : Type 0
  Tuples = Option TupleData × Option TupleData

  abbrev IsTuples : Tuples → Type 0
  IsTuples (old, fresh) = IsOldTuple old × IsOldTuple fresh

  -- As `Yields`, on no more than so many bytes.
  record YieldsWithin (fuel : ℕ) (read : Reader Tuples) : Type 0 where
    at :
        (input : List ℕ)
        → IsBytes input
        → length input ≤ fuel
        → Post IsTuples (length input) (read input)

  tuple_then :
      (fuel n : ℕ) (f : TupleData → Reader Tuples) (r : Result ParseError (TupleData × List ℕ))
      → ((t : TupleData) → IsTuple t → YieldsWithin fuel (f t))
      → n ≤ fuel
      → Post IsTuple n r
      → Post IsTuples n (resume f r)
  tuple_then fuel n f (err e) k le h = h
  tuple_then fuel n f (ok (t, rest)) k le h =
      weaken-Post IsTuples (length rest) n (f t rest) h.2
        ((k t h.0).at rest h.1 (omega (arith, h.2, le)))

  if-YieldsWithin :
      (fuel : ℕ) (b : Bool) (x y : Reader Tuples)
      → YieldsWithin fuel x
      → YieldsWithin fuel y
      → YieldsWithin fuel (if b then x else y)
  if-YieldsWithin fuel true x y yx yy = yx
  if-YieldsWithin fuel false x y yx yy = yy

  round-YieldsWithin :
      (fuel : ℕ) (later : Tuples → Reader Tuples) (old fresh : Option TupleData) (kind : ℕ)
      → ((tuples : Tuples) → IsTuples tuples → YieldsWithin fuel (later tuples))
      → IsTuples (old, fresh)
      → YieldsWithin fuel (update_round bo later (old, fresh) kind)
  unfolding update_round
  round-YieldsWithin fuel later old fresh kind k h =
      if-YieldsWithin fuel (nat_eqb kind b'O' || nat_eqb kind b'K') _ _
        (record {
          at = λ input b le.
              tuple_then fuel (length input) (λ t. later (some t, fresh))
                (parse_tuple_data bo input) (λ t w. k (some t, fresh) (w, h.1)) le
                ((IsTuple-Yields bo).at input b);
        })
        (if-YieldsWithin fuel (nat_eqb kind b'N') _ _
          (record {
            at = λ input b le.
                tuple_then fuel (length input) (λ t. later (old, some t))
                  (parse_tuple_data bo input) (λ t w. k (old, some t) (h.0, w)) le
                  ((IsTuple-Yields bo).at input b);
          })
          (record { at = λ input b le. refl }))

  -- A round passes a byte, and reads no more than the rest.
  after_kind :
      (fuel : ℕ) (input : List ℕ) (f : ℕ → Reader Tuples) (r : Option (ℕ × List ℕ))
      → ((kind : ℕ) → YieldsWithin fuel (f kind))
      → ((kind : ℕ) (rest : List ℕ) → r ≡ some (kind, rest) → WasRead 1 kind input rest)
      → length input ≤ suc fuel
      → Post IsTuples (length input) (resume f (from_io bo r))
  after_kind fuel input f none k h le = refl
  after_kind fuel input f (some (kind, rest)) k h le =
      let w = h kind rest refl in
      weaken-Post IsTuples (length rest) (length input) (f kind rest) (omega (arith, w.left))
        ((k kind).at rest w.bytes (omega (arith, w.left, le)))

  loop-YieldsWithin :
      (fuel : ℕ) (tuples : Tuples)
      → IsTuples tuples
      → YieldsWithin fuel (update_loop bo fuel tuples)
  unfolding update_loop read_uint
  loop-YieldsWithin fuel tuples t = record { at = reads fuel tuples t }
    where
      reads :
          (fuel : ℕ) (tuples : Tuples)
          → IsTuples tuples
          → (input : List ℕ) → IsBytes input
          → length input ≤ fuel
          → Post IsTuples (length input) (update_loop bo fuel tuples input)
      reads zero tuples t [] b le = (t, tt, omega arith)
      reads (suc fuel) tuples t [] b le = (t, tt, omega arith)
      reads zero tuples t (x ∷ input) b le = ground arith
      reads (suc fuel) tuples t (x ∷ input) b le =
          after_kind fuel (x ∷ input) (update_round bo (update_loop bo fuel) tuples)
            (bo.read_be 1 (x ∷ input))
            (λ kind.
              round-YieldsWithin fuel (update_loop bo fuel) tuples.0 tuples.1 kind
                (λ tuples' t'. record { at = reads fuel tuples' t' }) t)
            (λ kind rest e. bo.read-bytes 1 kind (x ∷ input) rest b e) le

  update_of-Yields :
      (id : ℕ) (tuples : Tuples)
      → IsUnsigned 4 id
      → IsTuples tuples
      → Yields IsUpdate (update_of bo id tuples)
  unfolding update_of
  update_of-Yields id (old, none) h t = raise-Yields _ _ refl
  update_of-Yields id (old, some fresh) h t = pure-Yields _ _ (h, t.0, t.1)

  IsUpdate-Yields : Yields IsUpdate (parse_update bo)
  unfolding parse_update
  IsUpdate-Yields = bind-Yields _ _ _ _ (uint-Yields bo 4) (λ id h.
      bind-Yields IsTuples _ (λ input. update_loop bo (length input) (none, none) input) _
        (record {
          at = λ input b.
              (loop-YieldsWithin (length input) (none, none) (tt, tt)).at input b (omega arith);
        })
        (λ tuples t. update_of-Yields id tuples h t))

  -- A message that is read is well formed.
  IsRead : Option PgOutputMessage → Type 0
  IsRead none = Unit
  IsRead (some m) = IsWellFormed m

  as_message-Yields :
      {A : Type 0} (P : A → Type 0) (make : A → PgOutputMessage) (read : Reader A)
      → Yields P read
      → ((a : A) → P a → IsWellFormed (make a))
      → Yields IsRead (as_message make read)
  unfolding IsRead
  as_message-Yields P make read y k =
      bind-Yields P IsRead read _ y (λ a h. pure-Yields IsRead (some (make a)) (k a h))

  message_of-Yields : (kind : ℕ) → Yields IsRead (message_of bo kind)
  unfolding message_of IsRead
  message_of-Yields kind =
      if-Yields _ (nat_eqb kind b'B') _ _
        (as_message-Yields IsBegin begin _ (IsBegin-Yields bo) (λ _ h. h))
        (if-Yields _ (nat_eqb kind b'C') _ _
          (as_message-Yields IsCommit commit _ (IsCommit-Yields bo) (λ _ h. h))
          (if-Yields _ (nat_eqb kind b'O') _ _
            (as_message-Yields IsOrigin origin _ (IsOrigin-Yields bo) (λ _ h. h))
            (if-Yields _ (nat_eqb kind b'R') _ _
              (as_message-Yields IsRelation relation _ (IsRelation-Yields bo) (λ _ h. h))
              (if-Yields _ (nat_eqb kind b'Y') _ _
                (as_message-Yields IsType type_ _ (IsType-Yields bo) (λ _ h. h))
                (if-Yields _ (nat_eqb kind b'I') _ _
                  (as_message-Yields IsInsert insert _ (IsInsert-Yields bo) (λ _ h. h))
                  (if-Yields _ (nat_eqb kind b'U') _ _
                    (as_message-Yields IsUpdate update _ IsUpdate-Yields (λ _ h. h))
                    (if-Yields _ (nat_eqb kind b'D') _ _
                      (as_message-Yields IsDelete delete _ (IsDelete-Yields bo) (λ _ h. h))
                      (if-Yields _ (nat_eqb kind b'T') _ _
                        (as_message-Yields IsTruncate truncate _ (IsTruncate-Yields bo) (λ _ h. h))
                        (if-Yields _ (nat_eqb kind b'k') _ _
                          (as_message-Yields IsKeepalive keepalive _ (IsKeepalive-Yields bo)
                            (λ _ h. h))
                          (pure-Yields IsRead none tt))))))))))

  -- What a result says of the parse of bytes.
  Sound : Result ParseError (Option PgOutputMessage) → Type 0
  Sound (err e) = is_fuel e ≡ false
  Sound (ok m) = IsRead m

  remember-Sound :
      (p : PgOutputParser) (n : ℕ) (r : Result ParseError (Option PgOutputMessage × List ℕ))
      → Post IsRead n r
      → Sound (remember bo p r).0
  unfolding remember IsRead Sound
  remember-Sound p n (err e) h = h
  remember-Sound p n (ok (none, rest)) h = tt
  remember-Sound p n (ok (some m, rest)) h = remembered m h.0
    where
      remembered :
          (m : PgOutputMessage) → IsWellFormed m → Sound (remember bo p (ok (some m, rest))).0
      remembered (begin m) h = h
      remembered (commit m) h = h
      remembered (origin m) h = h
      remembered (relation m) h = h
      remembered (type_ m) h = h
      remembered (insert m) h = h
      remembered (update m) h = h
      remembered (delete m) h = h
      remembered (truncate m) h = h
      remembered (keepalive m) h = h

  parse_message-Sound :
      (p : PgOutputParser) (input : List ℕ) → IsBytes input → Sound (parse_message bo p input).0
  unfolding parse_message Sound IsRead
  parse_message-Sound p [] b = tt
  parse_message-Sound p (kind ∷ payload) b =
      remember-Sound p (length payload) (message_of bo kind payload)
        ((message_of-Yields kind).at payload b.1)

  -- A message that is parsed from bytes is well formed: its numbers fit their fields, its texts are
  -- UTF-8 without a zero byte, and its lists are as long as their counts say.
  pub parse_message-IsWellFormed :
      (p : PgOutputParser) (input : List ℕ) (m : PgOutputMessage)
      → IsBytes input
      → (parse_message bo p input).0 ≡ ok (some m)
      → IsWellFormed m
  unfolding Sound IsRead
  parse_message-IsWellFormed p input m b e = subst Sound e (parse_message-Sound p input b)

  -- The fuel of the loop over an update is never used up, whatever the bytes.
  pub parse_message_terminates :
      (p : PgOutputParser) (input : List ℕ)
      → IsBytes input
      → (parse_message bo p input).0 ≢ err out_of_fuel
  unfolding Sound
  parse_message_terminates p input b e =
      let bad : is_fuel out_of_fuel ≡ false = subst Sound e (parse_message-Sound p input b) in
      ground arith
