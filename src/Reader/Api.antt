-- ===== src/Reader/Api.antt =====
-- read.c: redisReaderCreateWithFunctions, redisReaderFeed and redisReaderGetReply.
use multiplexing_hiredis.Common.{
  ℕ, ◌+◌, ◌-◌, ◌*◌, Bool, not, ◌&&◌, Option, none, some, [], ◌∷◌, ltb, leb, ◌==◌, if◌then◌else◌,
  Bytes, length,
}
use multiplexing_hiredis.Common.Int.{pos, minus_one}
use multiplexing_hiredis.Common.Outcome.{Outcome, ok, ◌>>=◌}
use multiplexing_hiredis.Sds
use multiplexing_hiredis.Reader.State.{
  Status, redis_ok, redis_err, no_error, is_error, ReplyObjectFunctions, ReaderState, set_error_oom,
}
use multiplexing_hiredis.Reader.Items.{fresh_task, process_items}

-- redisReaderCreateWithFunctions; REDIS_READER_MAX_BUF is 16 KB.
unfoldable pub create : {Obj Store : Type 0} → Store → ReaderState Obj Store
create store = record {
  err = no_error;
  errstr = [];
  buf = [];
  pos = 0;
  len = 0;
  maxbuf = 1024 * 16;
  rstack = [];
  reply = none;
  store = store;
}

module _ {Obj Store : Type 0} where
  -- An empty buffer that holds on to more than `maxbuf` bytes of memory is made anew.
  unfoldable pub renew_buffer : ℕ → ReaderState Obj Store → ReaderState Obj Store
  renew_buffer avail r =
      if r.len == 0 && (not (r.maxbuf == 0) && ltb r.maxbuf avail)
      then record r { buf = []; pos = 0 }
      else r

  -- `if (r->ridx == -1)`: the root is the first item.
  unfoldable pub start_reply : ReaderState Obj Store → ReaderState Obj Store
  start_reply r =
      if length r.rstack == 0 then record r { rstack = fresh_task minus_one ∷ [] } else r

  -- Consumed bytes are dropped when there are 1024 of them.
  unfoldable pub discard_consumed : ReaderState Obj Store → ReaderState Obj Store
  discard_consumed r =
      if leb 1024 r.pos
      then (let rest = Sds.range r.buf (pos r.pos) minus_one in
          record r { buf = rest; pos = 0; len = length rest })
      else r

  -- `if (r->ridx == -1)`: the reply is complete and is handed over.
  unfoldable pub emit_reply : ReaderState Obj Store → Status × Option Obj × ReaderState Obj Store
  emit_reply r =
      if length r.rstack == 0
      then (redis_ok, r.reply, record r { reply = none })
      else (redis_ok, none, r)

  -- The part of redisReaderGetReply behind its loop.
  unfoldable pub after_items : ReaderState Obj Store → Status × Option Obj × ReaderState Obj Store
  unfolding discard_consumed emit_reply
  after_items r = if is_error r.err then (redis_err, none, r) else emit_reply (discard_consumed r)

module _ {Obj Store : Type 0} (fns : ReplyObjectFunctions Obj Store) where
  -- The string with the new bytes, or NULL.
  abbrev pub fed : Option Bytes → ReaderState Obj Store → Status × ReaderState Obj Store
  fed none r = (redis_err, set_error_oom fns r)
  fed (some newbuf) r = (redis_ok, record r { buf = newbuf; len = length newbuf })

  -- redisReaderFeed: `avail` is the free space of the buffer, `room` tells whether there is memory
  -- for the bytes, and a NULL `buf` is `none`.
  unfoldable pub feed :
      ℕ → Bool → Option Bytes → ReaderState Obj Store → Status × ReaderState Obj Store
  unfolding renew_buffer Sds.cat_len
  feed avail room none r = if is_error r.err then (redis_err, r) else (redis_ok, r)
  feed avail room (some []) r = if is_error r.err then (redis_err, r) else (redis_ok, r)
  feed avail room (some (c ∷ s)) r =
      let r' = renew_buffer avail r in
      if is_error r.err then (redis_err, r) else fed (Sds.cat_len room r'.buf (c ∷ s)) r'

  -- redisReaderGetReply: every item takes a byte at least, so the fuel is more than the bytes left.
  unfoldable pub get_reply :
      ReaderState Obj Store → Outcome (Status × Option Obj × ReaderState Obj Store)
  unfolding start_reply process_items after_items
  get_reply r =
      let started = start_reply r in
      if is_error r.err
      then ok (redis_err, none, r)
      else if r.len == 0
      then ok (redis_ok, none, r)
      else process_items fns (started.len - started.pos + 1) started >>= λ r'. ok (after_items r')
