-- ===== src/Context/Laws.antt =====
-- The output buffer is written in order and in full, and a formatted command reaches it whole.
use multiplexing_hiredis.Common.{
  ℕ, zero, suc, ◌<◌, ◌≤◌, ◌^◌, length-drop, ◌≡◌, inl, inr, refl, sym, ap, ◌∙◌, subst, Bool, true,
  false, Option, List, [], ◌∷◌, ◌++◌, arith, Bytes, length, take, drop, ◌==◌, Bool-cases,
}
use multiplexing_hiredis.Common.Outcome.{ok}
use multiplexing_hiredis.Sds.{range-drop}
use multiplexing_hiredis.Reader.State.{Status, redis_ok, redis_err, is_error}
use multiplexing_hiredis.Format.{sized_args}
use multiplexing_hiredis.Format.Command.{
  AllSized, command, format_sds_command_argv-encode, take-length,
}
use multiplexing_hiredis.Context.{
  RedisContext, WriteResult, write_failed, written, after_write, buffer_write, io_failed,
  write_nothing, no_write, write_until_done, append_command_argv,
}

-- The bytes that the calls of write(2) take, when what is left is offered again each time.
pub taken : List WriteResult → Bytes → Bytes
taken [] s = []
taken (write_failed e ∷ ws) s = taken ws s
taken (written n ∷ ws) s = take n s ++ taken ws (drop n s)

take-append-drop : (n : ℕ) (s : Bytes) → take n s ++ drop n s ≡ s
take-append-drop zero s = refl
take-append-drop (suc n) [] = refl
take-append-drop (suc n) (c ∷ s) = ap (λ r. c ∷ r) (take-append-drop n s)

drop_zero_or_all : (n : ℕ) (s : Bytes) → (n == length s) ≡ true → drop n s ≡ []
drop_zero_or_all zero [] h = refl
drop_zero_or_all zero (c ∷ s) h = ground arith
drop_zero_or_all (suc n) [] h = refl
drop_zero_or_all (suc n) (c ∷ s) h = drop_zero_or_all n s (ground arith)

written_rest :
    (n : ℕ) (ws : List WriteResult) (s : Bytes)
    → taken ws (drop n s) ≡ drop n s
    → taken (written n ∷ ws) s ≡ s
unfolding taken
written_rest n ws s h = rw h (take-append-drop n s)

length_zero : (s : Bytes) → (length s == 0) ≡ true → s ≡ []
length_zero [] h = refl
length_zero (x ∷ s) h = ground arith

module _ {Obj Store : Type 0} where
  pub after_write_lem :
      (n : ℕ) (c : RedisContext Obj Store)
      → length c.obuf < 2 ^ 31
      → after_write n c ≡ record c { obuf = drop n c.obuf }
  unfolding after_write
  after_write_lem n c f = ground (arith, range-drop c.obuf n, drop_zero_or_all n c.obuf)

  -- How the loop ended: the results it used took the whole buffer, in order.
  pub record Flushed (ws left : List WriteResult) (c c' : RedisContext Obj Store) : Type 0 where
    pub used : List WriteResult
    pub split : ws ≡ used ++ left
    pub all_taken : taken used c.obuf ≡ c.obuf
    pub emptied : c'.obuf ≡ []
    pub same_reader : c'.reader ≡ c.reader

  write_nothing-Flushed :
      (ws : List WriteResult) (c : RedisContext Obj Store)
      → no_write c ≡ true
      → is_error c.err ≡ false
      → Flushed ws ws c c
  unfolding taken
  write_nothing-Flushed ws c e f = record {
    used = [];
    split = refl;
    all_taken = ground (arith, length_zero c.obuf);
    emptied = ground (arith, length_zero c.obuf);
    same_reader = refl;
  }

  -- A call of write(2) that is no error takes a part of the buffer.
  record Wrote (w : WriteResult) (c : RedisContext Obj Store) (done : Bool)
      (c' : RedisContext Obj Store) : Type 0 where
    rest_after :
        (ws : List WriteResult) → taken ws c'.obuf ≡ c'.obuf → taken (w ∷ ws) c.obuf ≡ c.obuf
    done_empty : done ≡ true → c'.obuf ≡ []
    reader_kept : c'.reader ≡ c.reader
    no_longer : length c'.obuf ≤ length c.obuf

  buffer_write-Wrote :
      (w : WriteResult) (c c' : RedisContext Obj Store) (done : Bool)
      → length c.obuf < 2 ^ 31
      → no_write c ≡ false
      → buffer_write w c ≡ (redis_ok, done, c')
      → Wrote w c done c'
  unfolding buffer_write io_failed taken
  buffer_write-Wrote (write_failed e) c c' done f more h = record {
    rest_after = λ ws t. ground arith;
    done_empty = λ d. ground arith;
    reader_kept = ground arith;
    no_longer = ground arith;
  }
  buffer_write-Wrote (written n) c c' done f more h =
      let a = after_write_lem n c f in
      record {
        rest_after = λ ws t. ground (arith, written_rest n ws c.obuf);
        done_empty = λ d. ground (arith, length_zero (drop n c.obuf));
        reader_kept = ground arith;
        no_longer = ground (arith, length-drop n c.obuf);
      }

  Flushed-Wrote :
      (w : WriteResult) (ws left : List WriteResult) (c c₁ c' : RedisContext Obj Store)
      {done : Bool}
      → Wrote w c done c₁
      → Flushed ws left c₁ c'
      → Flushed (w ∷ ws) left c c'
  Flushed-Wrote w ws left c c₁ c' o f = record {
    used = w ∷ f.used;
    split = ap (λ l. w ∷ l) f.split;
    all_taken = o.rest_after f.used f.all_taken;
    emptied = f.emptied;
    same_reader = f.same_reader ∙ o.reader_kept;
  }

  Flushed-done :
      (w : WriteResult) (ws : List WriteResult) (c c₁ : RedisContext Obj Store) {done : Bool}
      → Wrote w c done c₁
      → done ≡ true
      → Flushed (w ∷ ws) ws c c₁
  Flushed-done w ws c c₁ o d = record {
    used = w ∷ [];
    split = refl;
    all_taken = o.rest_after [] (unfold taken in sym (o.done_empty d));
    emptied = o.done_empty d;
    same_reader = o.reader_kept;
  }

  -- For an output buffer of fewer than 2 ^ 31 bytes: if the loop that writes ends without an error,
  -- the calls of write(2) that it made took all the bytes of the output buffer, in their order; the
  -- buffer is empty, and the reader is as before.
  pub write_until_done-Flushed :
      (ws left : List WriteResult) (c c' : RedisContext Obj Store)
      → length c.obuf < 2 ^ 31
      → write_until_done ws c ≡ ok (redis_ok, left, c')
      → Flushed ws left c c'
  unfolding write_until_done write_nothing
  write_until_done-Flushed [] left c c' f h = elim (Bool-cases (no_write c)) [
    | inl e ↦
        let eq : (left ≡ []) × (c' ≡ c) × (is_error c.err ≡ false) =
          (ground arith, ground arith, ground arith) in
        subst (λ l. Flushed [] l c c') (sym eq.0)
          (subst (λ x. Flushed [] [] c x) (sym eq.1) (write_nothing-Flushed [] c e eq.2))
    | inr e ↦ ground arith
  ]
  write_until_done-Flushed (w ∷ ws) left c c' f h = elim (Bool-cases (no_write c)) [
    | inl e ↦
        let eq : (left ≡ w ∷ ws) × (c' ≡ c) × (is_error c.err ≡ false) =
          (ground arith, ground arith, ground arith) in
        subst (λ l. Flushed (w ∷ ws) l c c') (sym eq.0)
          (subst (λ x. Flushed (w ∷ ws) (w ∷ ws) c x) (sym eq.1)
            (write_nothing-Flushed (w ∷ ws) c e eq.2))
    | inr e ↦
        go (buffer_write w c) refl e
          (λ c₁ l p. write_until_done-Flushed ws left c₁ c' (omega (arith, l, f)) p)
  ]
    where
      go :
          (o : Status × Bool × RedisContext Obj Store)
          → buffer_write w c ≡ o
          → no_write c ≡ false
          → ((c₁ : RedisContext Obj Store)
              → length c₁.obuf ≤ length c.obuf
              → write_until_done ws c₁ ≡ ok (redis_ok, left, c')
              → Flushed ws left c₁ c')
          → Flushed (w ∷ ws) left c c'
      go (redis_ok, true, c₁) p e ih =
          let eq : (left ≡ ws) × (c' ≡ c₁) = (ground arith, ground arith) in
          subst (λ l. Flushed (w ∷ ws) l c c') (sym eq.0)
            (subst (λ x. Flushed (w ∷ ws) ws c x) (sym eq.1)
              (Flushed-done w ws c c₁ (buffer_write-Wrote w c c₁ true f e p) refl))
      go (redis_ok, false, c₁) p e ih =
          Flushed-Wrote w ws left c c₁ c' (buffer_write-Wrote w c c₁ false f e p)
            (ih c₁ ((buffer_write-Wrote w c c₁ false f e p).no_longer) (ground arith))
      go (redis_err, done, c₁) p e ih = ground arith

  -- Where no size goes past the memory of its argument, the command is shorter than 2 ^ 31 bytes and
  -- there is memory, a command given by its arguments is added whole at the end of the output
  -- buffer: as the array of its arguments as bulk strings.
  pub append_command_argv-command :
      (argv : List Bytes) (argvlen : Option (List ℕ)) (c : RedisContext Obj Store)
      → AllSized (sized_args argv argvlen)
      → length (command (sized_args argv argvlen)) < 2 ^ 31
      → append_command_argv true argv argvlen c
        ≡ ok (redis_ok, record c { obuf = c.obuf ++ command (sized_args argv argvlen) })
  unfolding append_command_argv
  append_command_argv-command argv argvlen c h f =
      rw
        (
          format_sds_command_argv-encode argv argvlen h f,
          append_command_argv,
          take-length (command (sized_args argv argvlen)),
        )
        refl
