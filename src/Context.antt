-- ===== src/Context.antt =====
-- hiredis.c: the connection context: errors, the output buffer, reads and writes on the socket,
-- blocking calls. What read(2) and write(2) give is an argument of the calls.
pub mod Laws
pub mod Commands
pub mod Replied
use multiplexing_hiredis.Common.{
  ℕ, Bool, true, false, not, ◌&&◌, ◌||◌, Option, none, some, List, [], ◌∷◌, ◌==◌, if◌then◌else◌,
  Bytes, codes, length,
}
use multiplexing_hiredis.Common.Int.{pos, minus_one, eq_ℤ}
use multiplexing_hiredis.Common.Outcome.{Outcome, ok, abort, out_of_fuel, ◌>>=◌}
use multiplexing_hiredis.Sds
use multiplexing_hiredis.Reader.State.{
  ErrorCode, no_error, io, eof, oom, other, is_error, Status, redis_ok, redis_err, clip_errstr,
  ReplyObjectFunctions, ReaderState,
}
use multiplexing_hiredis.Reader.Api
use multiplexing_hiredis.Format.{format_sds_command_argv, given}
use multiplexing_hiredis.Format.Vararg.{VarArg, v_format_command}

-- The bits of `flags`.
pub record Flags : Type 0 where
  pub block : Bool
  pub connected : Bool
  pub disconnecting : Bool
  pub freeing : Bool
  pub in_callback : Bool
  pub subscribed : Bool
  pub monitoring : Bool

-- redisContext; `fd`, the addresses and the timeout are in Net.State.
pub record RedisContext (Obj Store : Type 0) : Type 0 where
  pub err : ErrorCode
  pub errstr : Bytes
  pub flags : Flags
  pub obuf : Bytes
  pub reader : ReaderState Obj Store

-- `errno` after a failed call, with the text that strerror has for it.
pub data Errno : Type 0 where
  eagain eintr errno : Bytes → Errno

abbrev pub errno_text : Errno → Bytes
errno_text (eagain text) = text
errno_text (eintr text) = text
errno_text (errno text) = text

-- read(2): -1, or the bytes; none of them is the end of the file.
pub data ReadResult : Type 0 where
  read_failed : Errno → ReadResult
  received : Bytes → ReadResult

-- write(2): -1, or how many bytes were taken.
pub data WriteResult : Type 0 where
  write_failed : Errno → WriteResult
  written : ℕ → WriteResult

-- The flags of a context that was made with calloc.
abbrev pub no_flags : Flags
no_flags = record {
  block = false;
  connected = false;
  disconnecting = false;
  freeing = false;
  in_callback = false;
  subscribed = false;
  monitoring = false;
}

module _ {Obj Store : Type 0} where
  -- A context that was made with calloc, with its reader.
  unfoldable pub new_context : Store → RedisContext Obj Store
  unfolding Api.create
  new_context store = record {
    err = no_error;
    errstr = [];
    flags = no_flags;
    obuf = [];
    reader = Api.create store;
  }

  -- redisContextInit
  unfoldable pub context_init : Bool → Store → Option (RedisContext Obj Store)
  unfolding new_context
  context_init memory store = if memory then some (new_context store) else none

  -- __redisSetError with a text; where it is NULL the text is that of strerror.
  unfoldable pub set_error : ErrorCode → Bytes → RedisContext Obj Store → RedisContext Obj Store
  set_error type str c = record c { err = type; errstr = clip_errstr str }

  -- `(errno == EAGAIN && !(c->flags & REDIS_BLOCK)) || (errno == EINTR)`
  abbrev pub try_again : Errno → RedisContext Obj Store → Bool
  try_again (eagain text) c = not c.flags.block
  try_again (eintr text) c = true
  try_again (errno text) c = false

  -- A failed read or write.
  unfoldable pub io_failed : Errno → RedisContext Obj Store → Status × RedisContext Obj Store
  unfolding set_error
  io_failed e c =
      if try_again e c then (redis_ok, c) else (redis_err, set_error io (errno_text e) c)

  -- What is left to write.
  unfoldable pub after_write : ℕ → RedisContext Obj Store → RedisContext Obj Store
  after_write n c =
      if n == 0
      then c
      else if n == length c.obuf
      then record c { obuf = [] }
      else record c { obuf = Sds.range c.obuf (pos n) minus_one }

  -- redisBufferWrite, with `done`
  unfoldable pub buffer_write :
      WriteResult → RedisContext Obj Store → Status × Bool × RedisContext Obj Store
  unfolding io_failed after_write
  buffer_write w c =
      if is_error c.err
      then (redis_err, false, c)
      else if length c.obuf == 0
      then (redis_ok, true, c)
      else elim w [
        | write_failed e ↦
            let (st, c') = io_failed e c in
            (st, elim st [ redis_ok ↦ length c'.obuf == 0 | redis_err ↦ false ], c')
        | written n ↦ let c' = after_write n c in (redis_ok, length c'.obuf == 0, c')
      ]

  -- __redisAppendCommand; `room` tells whether sdscatlen gets the memory.
  unfoldable pub append_command :
      Bool → Bytes → RedisContext Obj Store → Status × RedisContext Obj Store
  unfolding Sds.cat_len set_error
  append_command room cmd c = elim (Sds.cat_len room c.obuf cmd) [
    | none ↦ (redis_err, set_error oom (codes "Out of memory") c)
    | some newbuf ↦ (redis_ok, record c { obuf = newbuf })
  ]

  -- redisvAppendCommand
  unfoldable pub v_append_command :
      (Bytes → ℕ → Bytes)
      → Bool
      → Bytes
      → List VarArg
      → RedisContext Obj Store
      → Outcome (Status × RedisContext Obj Store)
  unfolding v_format_command append_command
  v_append_command print room format ap c = elim (v_format_command print format ap) [
    | ok none ↦ ok (redis_err, set_error other (codes "Invalid format string") c)
    | ok (some (cmd, len)) ↦ ok (append_command room cmd c)
    | abort ↦ abort
    | out_of_fuel ↦ out_of_fuel
  ]

  -- redisAppendCommandArgv
  unfoldable pub append_command_argv :
      Bool
      → List Bytes
      → Option (List ℕ)
      → RedisContext Obj Store
      → Outcome (Status × RedisContext Obj Store)
  unfolding format_sds_command_argv append_command
  append_command_argv room argv argvlen c = elim (format_sds_command_argv room argv argvlen) [
    | ok none ↦ ok (redis_err, set_error oom (codes "Out of memory") c)
    | ok (some (cmd, len)) ↦
        if eq_ℤ len minus_one
        then ok (redis_err, set_error oom (codes "Out of memory") c)
        else given cmd len >>= λ bytes. ok (append_command room bytes c)
    | abort ↦ abort
    | out_of_fuel ↦ out_of_fuel
  ]

  -- No call of write(2) is made: the context has an error, or nothing is left to write.
  abbrev pub no_write : RedisContext Obj Store → Bool
  no_write c = is_error c.err || length c.obuf == 0

  -- redisBufferWrite without a call of write(2)
  unfoldable pub write_nothing : RedisContext Obj Store → Status × RedisContext Obj Store
  write_nothing c = if is_error c.err then (redis_err, c) else (redis_ok, c)

  -- The loop that writes until the output buffer is empty, over what the calls of write(2) give;
  -- the results that are left come back. Without results it waits for ever.
  unfoldable pub write_until_done :
      List WriteResult
      → RedisContext Obj Store
      → Outcome (Status × List WriteResult × RedisContext Obj Store)
  unfolding buffer_write write_nothing
  write_until_done [] c =
      let (st, c') = write_nothing c in if no_write c then ok (st, [], c') else out_of_fuel
  write_until_done (w ∷ ws) c =
      let (st₀, c₀) = write_nothing c in
      let (st, done, c') = buffer_write w c in
      let more = write_until_done ws c' in
      if no_write c then ok (st₀, w ∷ ws, c₀) else elim st [
        | redis_err ↦ ok (redis_err, ws, c')
        | redis_ok ↦ if done then ok (redis_ok, ws, c') else more
      ]

module _ {Obj Store : Type 0} (fns : ReplyObjectFunctions Obj Store) where
  -- redisBufferRead; `avail` and `room` are those of the reader's buffer.
  unfoldable pub buffer_read :
      ℕ → Bool → ReadResult → RedisContext Obj Store → Status × RedisContext Obj Store
  unfolding io_failed Api.feed
  buffer_read avail room r c = if is_error c.err then (redis_err, c) else elim r [
    | read_failed e ↦ io_failed e c
    | received [] ↦ (redis_err, set_error eof (codes "Server closed the connection") c)
    | received (x ∷ s) ↦
        let (st, reader) = Api.feed fns avail room (some (x ∷ s)) c.reader in
        let c' = record c { reader = reader } in
        elim st [
          | redis_ok ↦ (redis_ok, c')
          | redis_err ↦ (redis_err, set_error reader.err reader.errstr c')
        ]
  ]

  -- redisGetReplyFromReader
  unfoldable pub get_reply_from_reader :
      RedisContext Obj Store → Outcome (Status × Option Obj × RedisContext Obj Store)
  unfolding Api.get_reply
  get_reply_from_reader c = elim (Api.get_reply fns c.reader) [
    | ok (redis_ok, reply, reader) ↦ ok (redis_ok, reply, record c { reader = reader })
    | ok (redis_err, _, reader) ↦
        ok (redis_err, none, set_error reader.err reader.errstr (record c { reader = reader }))
    | abort ↦ abort
    | out_of_fuel ↦ out_of_fuel
  ]

  -- The loop that reads until there is a reply.
  unfoldable pub read_until_reply :
      List ReadResult
      → RedisContext Obj Store
      → Outcome (Status × Option Obj × RedisContext Obj Store)
  unfolding buffer_read get_reply_from_reader
  read_until_reply [] c = out_of_fuel
  read_until_reply (r ∷ rs) c =
      let (st, c') = buffer_read 0 true r c in
      let asked = get_reply_from_reader c' in
      let more = λ (c'' : RedisContext Obj Store). read_until_reply rs c'' in
      elim st [
        | redis_err ↦ ok (redis_err, none, c')
        | redis_ok ↦ elim asked [
          | ok (redis_ok, none, c'') ↦ more c''
          | ok (redis_ok, some reply, c'') ↦ ok (redis_ok, some reply, c'')
          | ok (redis_err, _, c'') ↦ ok (redis_err, none, c'')
          | abort ↦ abort
          | out_of_fuel ↦ out_of_fuel
        ]
      ]

  -- The blocking part of redisGetReply: flush the output buffer, then read.
  unfoldable pub write_and_read :
      List WriteResult
      → List ReadResult
      → RedisContext Obj Store
      → Outcome (Status × Option Obj × RedisContext Obj Store)
  unfolding write_until_done read_until_reply
  write_and_read ws rs c = elim (write_until_done ws c) [
    | ok (redis_ok, _, c') ↦ read_until_reply rs c'
    | ok (redis_err, _, c') ↦ ok (redis_err, none, c')
    | abort ↦ abort
    | out_of_fuel ↦ out_of_fuel
  ]

  -- redisGetReply
  unfoldable pub get_reply :
      List WriteResult
      → List ReadResult
      → RedisContext Obj Store
      → Outcome (Status × Option Obj × RedisContext Obj Store)
  unfolding get_reply_from_reader write_and_read
  get_reply ws rs c = elim (get_reply_from_reader c) [
    | ok (redis_ok, none, c') ↦
        if c'.flags.block then write_and_read ws rs c' else ok (redis_ok, none, c')
    | ok (redis_ok, some reply, c') ↦ ok (redis_ok, some reply, c')
    | ok (redis_err, _, c') ↦ ok (redis_err, none, c')
    | abort ↦ abort
    | out_of_fuel ↦ out_of_fuel
  ]
