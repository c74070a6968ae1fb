-- ===== src/Context/Replied.antt =====
-- A command on a blocking context: it is sent whole over partial writes, and its reply is read and
-- built.
use multiplexing_hiredis.Common.{
  ℕ, Bool, ◌≡◌, ◌<◌, ◌+◌, ◌^◌, ◌==◌, refl, ap, ◌∙◌, false, true, Option, none, some, List, [], ◌∷◌,
  ◌++◌, Bytes, length, drop, arith, length-drop, length-append, if◌then◌else◌,
}
use multiplexing_hiredis.Common.Int.{minus_one}
use multiplexing_hiredis.Common.Outcome.{Outcome, ok}
use multiplexing_hiredis.Sds.{drop_all}
use multiplexing_hiredis.Reader.State.{
  is_error, redis_ok, created, ReplyObjectFunctions, ReaderState,
}
use multiplexing_hiredis.Reader.Items.{fresh_task}
use multiplexing_hiredis.Reader.Api
use multiplexing_hiredis.Reader.Build.{IsReadable, built}
use multiplexing_hiredis.Reader.Build.Stream.{Holding, get_reply-Waits}
use multiplexing_hiredis.Reader.Build.Fed.{feed-Fed, Fed}
use multiplexing_hiredis.Resp.{Value, encode}
use multiplexing_hiredis.Format.{sized_args}
use multiplexing_hiredis.Format.Command.{AllSized, command}
use multiplexing_hiredis.Context.{
  RedisContext, WriteResult, ReadResult, eintr, write_failed, written, received, buffer_write,
  io_failed, write_until_done, buffer_read, get_reply_from_reader, read_until_reply, write_and_read,
  get_reply,
}
use multiplexing_hiredis.Context.Laws.{after_write_lem, append_command_argv-command}
use multiplexing_hiredis.Context.Commands.{block_for_reply, if_appended, command_argv}

-- Calls of write(2) that take all of some bytes: each takes a part, the last one what is left; some
-- may be interrupted by a signal.
pub data Accepts : List WriteResult → Bytes → Type 0 where
  accepts_all :
      (x : ℕ) (s : Bytes) (ws : List WriteResult) → Accepts (written (length (x ∷ s)) ∷ ws) (x ∷ s)
  accepts_part :
      (n : ℕ) (s : Bytes) (ws : List WriteResult)
      → n < length s
      → Accepts ws (drop n s)
      → Accepts (written n ∷ ws) s
  interrupted :
      (text s : Bytes) (ws : List WriteResult)
      → 0 < length s
      → Accepts ws s
      → Accepts (write_failed (eintr text) ∷ ws) s

module _ {Obj Store : Type 0} where
  -- One call takes a part of the buffer that is not empty.
  buffer_write-part :
      (n : ℕ) (c : RedisContext Obj Store)
      → is_error c.err ≡ false
      → 0 < length c.obuf
      → length c.obuf < 2 ^ 31
      → buffer_write (written n) c
        ≡ (redis_ok, length (drop n c.obuf) == 0, record c { obuf = drop n c.obuf })
  unfolding buffer_write
  buffer_write-part n c e p f =
      let more : (length c.obuf == 0) ≡ false = ground arith in
      rw (buffer_write, e, more, after_write_lem n c f) refl

  -- The loop after one call that is no error.
  write_until_done-more :
      (w : WriteResult) (ws : List WriteResult) (c c' : RedisContext Obj Store) (done : Bool)
      → is_error c.err ≡ false
      → 0 < length c.obuf
      → buffer_write w c ≡ (redis_ok, done, c')
      → write_until_done (w ∷ ws) c
        ≡ (if done then ok (redis_ok, ws, c') else write_until_done ws c')
  unfolding write_until_done
  write_until_done-more w ws c c' done e p b =
      let more : (length c.obuf == 0) ≡ false = ground arith in ground arith

  -- Such calls empty the output buffer.
  write_until_done-Accepts :
      (ws : List WriteResult) (s : Bytes) (c : RedisContext Obj Store)
      → Accepts ws s
      → is_error c.err ≡ false
      → length s < 2 ^ 31
      → (left : List WriteResult) × (write_until_done ws (record c { obuf = s })
          ≡ ok (redis_ok, left, record c { obuf = [] }))
  unfolding buffer_write io_failed
  write_until_done-Accepts _ _ c (accepts_all x s ws) e f =
      let c' : RedisContext Obj Store = record c { obuf = x ∷ s } in
      let step = buffer_write-part (length (x ∷ s)) c' e (omega arith) f in
      let empty : drop (length s) s ≡ [] = drop_all (length s) s (omega arith) in
      (
        ws,
        write_until_done-more (written (length (x ∷ s))) ws c'
              (record c { obuf = drop (length s) s }) (length (drop (length s) s) == 0) e
              (omega arith) step
            ∙ rw empty refl,
      )
  write_until_done-Accepts _ _ c (accepts_part n s ws l a) e f =
      let (left, run) =
        write_until_done-Accepts ws (drop n s) c a e (omega (arith, length-drop n s, f)) in
      let c' : RedisContext Obj Store = record c { obuf = s } in
      let step = buffer_write-part n c' e (omega arith) f in
      let more : (length (drop n s) == 0) ≡ false = ground (arith, length-drop n s) in
      (
        left,
        write_until_done-more (written n) ws c' (record c { obuf = drop n s })
              (length (drop n s) == 0) e (omega arith) step
            ∙ rw more run,
      )
  write_until_done-Accepts _ _ c (interrupted text s ws l a) e f =
      let (left, run) = write_until_done-Accepts ws s c a e f in
      let c' : RedisContext Obj Store = record c { obuf = s } in
      let none_left : (length s == 0) ≡ false = ground arith in
      (
        left,
        write_until_done-more (write_failed (eintr text)) ws c' c' false e (omega arith)
              (rw (buffer_write, e, none_left) refl)
            ∙ run,
      )

encode-nonempty : (v : Value) → (x : ℕ) × (s : Bytes) × (encode v ≡ x ∷ s)
unfolding encode
encode-nonempty (Value.status s) = (_, _, refl)
encode-nonempty (Value.error s) = (_, _, refl)
encode-nonempty (Value.integer n) = (_, _, refl)
encode-nonempty (Value.bulk s) = (_, _, refl)
encode-nonempty Value.nil_bulk = (_, _, refl)
encode-nonempty Value.nil_array = (_, _, refl)
encode-nonempty (Value.array vs) = (_, _, refl)

-- A blocking context without an error, whose reader has read all its bytes.
pub record IsReady {Obj Store : Type 0} (store : Store) (c : RedisContext Obj Store) : Type 0 where
  pub blocking : c.flags.block ≡ true
  pub no_failure : is_error c.err ≡ false
  pub at_rest : Holding [] store c.reader

-- A call has returned `obj`, with nothing left to write, and the context is ready for the next one.
pub record Replied {Obj Store : Type 0} (obj : Obj) (store : Store)
    (o : Outcome (Option Obj × RedisContext Obj Store)) : Type 0 where
  pub after : RedisContext Obj Store
  pub returns : o ≡ ok (some obj, after)
  pub ready : IsReady store after
  pub all_written : after.obuf ≡ []

module _ {Obj Store : Type 0} (fns : ReplyObjectFunctions Obj Store) where
  reader_gives :
      (c : RedisContext Obj Store) (reply : Option Obj) (r : ReaderState Obj Store)
      → Api.get_reply fns c.reader ≡ ok (redis_ok, reply, r)
      → get_reply_from_reader fns c ≡ ok (redis_ok, reply, record c { reader = r })
  unfolding get_reply_from_reader
  reader_gives c reply r e = rw (get_reply_from_reader, e) refl

  buffer_read-feed :
      (x : ℕ) (s : Bytes) (c : RedisContext Obj Store)
      → is_error c.err ≡ false
      → (Api.feed fns 0 true (some (x ∷ s)) c.reader).0 ≡ redis_ok
      → buffer_read fns 0 true (received (x ∷ s)) c
        ≡ (redis_ok, record c { reader = (Api.feed fns 0 true (some (x ∷ s)) c.reader).1 })
  unfolding buffer_read
  buffer_read-feed x s c e taken = rw (buffer_read, e, taken) refl

  read_until_reply-done :
      (r : ReadResult) (rs : List ReadResult) (c c' c'' : RedisContext Obj Store) (obj : Obj)
      → buffer_read fns 0 true r c ≡ (redis_ok, c')
      → get_reply_from_reader fns c' ≡ ok (redis_ok, some obj, c'')
      → read_until_reply fns (r ∷ rs) c ≡ ok (redis_ok, some obj, c'')
  unfolding read_until_reply
  read_until_reply-done r rs c c' c'' obj b g = ground arith

  -- One read that brings the reply.
  read_until_reply-Replied :
      (x : ℕ) (s : Bytes) (rs : List ReadResult) (c : RedisContext Obj Store) (obj : Obj)
      (store : Store) (fed : Fed fns obj store (Api.feed fns 0 true (some (x ∷ s)) c.reader))
      → is_error c.err ≡ false
      → read_until_reply fns (received (x ∷ s) ∷ rs) c
        ≡ ok (redis_ok, some obj, record c { reader = fed.gives.after })
  read_until_reply-Replied x s rs c obj store fed e =
      let c' : RedisContext Obj Store = record c {
        reader = (Api.feed fns 0 true (some (x ∷ s)) c.reader).1;
      } in
      read_until_reply-done (received (x ∷ s)) rs c c' (record c { reader = fed.gives.after }) obj
        (buffer_read-feed x s c e fed.taken)
        (reader_gives c' (some obj) fed.gives.after fed.gives.returns)

  -- A call that finds no reply, writes everything and reads one.
  block_for_reply-some :
      (ws left : List WriteResult) (rs : List ReadResult) (c c₁ c₂ c₃ : RedisContext Obj Store)
      (obj : Obj)
      → c.flags.block ≡ true
      → c₁.flags.block ≡ true
      → get_reply_from_reader fns c ≡ ok (redis_ok, none, c₁)
      → write_until_done ws c₁ ≡ ok (redis_ok, left, c₂)
      → read_until_reply fns rs c₂ ≡ ok (redis_ok, some obj, c₃)
      → block_for_reply fns ws rs c ≡ ok (some obj, c₃)
  unfolding block_for_reply get_reply write_and_read
  block_for_reply-some ws left rs c c₁ c₂ c₃ obj b b₁ g w r = ground arith

  -- The call for a reply on a context that has something to write.
  get_reply-Replied :
      (c : RedisContext Obj Store) (ws : List WriteResult) (rs : List ReadResult)
      (store store' : Store) (v : Value) (obj : Obj)
      → IsReady store c
      → Accepts ws c.obuf
      → length c.obuf < 2 ^ 31
      → c.reader.len + length (encode v) < 2 ^ 31
      → IsReadable 0 v
      → built fns v (fresh_task minus_one) [] store ≡ created obj store'
      → Replied obj store' (block_for_reply fns ws (received (encode v) ∷ rs) c)
  get_reply-Replied c ws rs store store' v obj r a b f readable made =
      let (x, s, first) = encode-nonempty v in
      let w = get_reply-Waits fns c.reader store r.at_rest in
      let fed =
        feed-Fed fns c.reader store store' v obj x s r.at_rest first
          (omega (arith, ap length first)) readable made in
      let c₁ : RedisContext Obj Store = record c { reader = w.after } in
      let (left, flushed) = write_until_done-Accepts ws c.obuf c₁ a r.no_failure b in
      let c₂ : RedisContext Obj Store = record c₁ { obuf = [] } in
      let c₃ : RedisContext Obj Store = record c₂ { reader = fed.gives.after } in
      let read = read_until_reply-Replied x s rs c₂ obj store' fed r.no_failure in
      record {
        after = c₃;
        returns =
            block_for_reply-some ws left (received (encode v) ∷ rs) c c₁ c₂ c₃ obj r.blocking
              r.blocking (reader_gives c none w.after w.returns) flushed
              (ap (λ b. read_until_reply fns (received b ∷ rs) c₂) first ∙ read);
        ready = record {
          blocking = r.blocking;
          no_failure = r.no_failure;
          at_rest = fed.gives.holds;
        };
        all_written = refl;
      }

  -- Take a blocking context without an error, whose reader has read all its bytes; arguments of
  -- which no size goes past the memory of its argument, and memory; calls of write(2) that take the
  -- output buffer and the command, fewer than 2 ^ 31 bytes, in any parts, some interrupted by a
  -- signal; and one call of read(2) that brings the whole of a readable value whose objects the
  -- functions make, with which the reader holds fewer than 2 ^ 31 bytes. Then redisCommandArgv
  -- returns the object of the value, the output buffer is empty, and the context is again without an
  -- error and its reader has read all bytes.
  pub command_argv-Replied :
      (c : RedisContext Obj Store) (argv : List Bytes) (argvlen : Option (List ℕ))
      (ws : List WriteResult) (rs : List ReadResult) (store store' : Store) (v : Value) (obj : Obj)
      → IsReady store c
      → AllSized (sized_args argv argvlen)
      → Accepts ws (c.obuf ++ command (sized_args argv argvlen))
      → length (c.obuf ++ command (sized_args argv argvlen)) < 2 ^ 31
      → c.reader.len + length (encode v) < 2 ^ 31
      → IsReadable 0 v
      → built fns v (fresh_task minus_one) [] store ≡ created obj store'
      → Replied obj store' (command_argv fns ws (received (encode v) ∷ rs) true argv argvlen c)
  unfolding command_argv if_appended
  command_argv-Replied c argv argvlen ws rs store store' v obj r sized a b f readable made =
      let one : length (command (sized_args argv argvlen)) < 2 ^ 31 =
        omega (arith, length-append c.obuf (command (sized_args argv argvlen)), b) in
      rw (command_argv, append_command_argv-command argv argvlen c sized one)
        (get_reply-Replied (record c { obuf = c.obuf ++ command (sized_args argv argvlen) }) ws rs
          store store' v obj
          (record { blocking = r.blocking; no_failure = r.no_failure; at_rest = r.at_rest }) a b f
          readable made)
