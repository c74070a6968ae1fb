-- ===== src/Async/Events.antt =====
-- async.c: what happens when the socket is readable or writable: the replies that were read and
-- their callbacks.
use multiplexing_hiredis.Common.{
  ℕ, zero, suc, Bool, true, false, ◌&&◌, Option, none, some, List, [], ◌∷◌, ◌==◌, if◌then◌else◌,
  Bytes, codes, length, drop,
}
use multiplexing_hiredis.Common.Int.{ℤ, pos, eq_ℤ}
use multiplexing_hiredis.Common.Outcome.{Outcome, ok, abort, out_of_fuel, ◌>>=◌, ◌>>◌, assert}
use multiplexing_hiredis.Reader.State.{
  ReplyType, string, array, integer, error, io, other, Status, redis_ok, redis_err, clip_errstr,
  ReplyObjectFunctions,
}
use multiplexing_hiredis.Format.Vararg.{peek}
use multiplexing_hiredis.Context
use multiplexing_hiredis.Context.{RedisContext, ReadResult, WriteResult, buffer_read, buffer_write}
use multiplexing_hiredis.Async.State.{
  Callback, DictFunctions, connect_callback, add_read, add_write, del_write, free_reply,
  AsyncContext, emit, with_context, set_connected, set_subscribed, push_callback, shift_callback,
  run_callback,
}
use multiplexing_hiredis.Async.Commands.{to_lower}
use multiplexing_hiredis.Async.Teardown.{async_free_now, async_disconnect_now}

-- The fields of a redisReply that are read here: those of an element, and of a whole reply.
pub record ReplyFields : Type 0 where
  pub type : ReplyType
  pub str : Bytes
  pub integer_value : ℤ

pub record RedisReply : Type 0 where
  pub own : ReplyFields
  pub element : List ReplyFields

-- The comparison of types that the source makes.
abbrev is_string : ReplyType → Bool
is_string string = true
is_string _ = false

abbrev is_integer : ReplyType → Bool
is_integer integer = true
is_integer _ = false

abbrev is_error_reply : ReplyType → Bool
is_error_reply error = true
is_error_reply _ = false

-- `strcasecmp(s, lit) == 0` for a text in lower case; `s` ends at its terminator.
unfoldable pub same_nocase : Bytes → Bytes → Bool
same_nocase [] s = peek s == 0
same_nocase (c ∷ lit) [] = false
same_nocase (c ∷ lit) (d ∷ s) = to_lower d == c && same_nocase lit s

-- What redisCheckSocketError gives: REDIS_OK, or REDIS_ERR with the context's error text, and
-- whether `errno` is EINPROGRESS.
pub data SocketCheck : Type 0 where
  socket_ok : SocketCheck
  socket_error : Bool → Bytes → SocketCheck

-- `replies.head == NULL`
abbrev is_empty : List Callback → Bool
is_empty [] = true
is_empty (_ ∷ _) = false

-- After a reply: the loop ends, or goes on with the callback of this round.
pub data Next (Obj Store Dict : Type 0) : Type 0 where
  stop : AsyncContext Obj Store Dict → Next Obj Store Dict
  go_on : Callback → AsyncContext Obj Store Dict → Next Obj Store Dict

module _ {Obj Store Dict : Type 0} (dict : DictFunctions Dict) where
  -- The dictionary that a message is about.
  abbrev dictionary : Bool → AsyncContext Obj Store Dict → Option Dict
  dictionary pvariant ac = if pvariant then ac.patterns else ac.channels

  abbrev set_dictionary : Bool → Dict → AsyncContext Obj Store Dict → AsyncContext Obj Store Dict
  set_dictionary pvariant d ac =
      if pvariant then record ac { patterns = some d } else record ac { channels = some d }

  -- An unsubscribe message: `rest` are the elements from the third on.
  unfoldable pub unsubscribe :
      Bool
      → Bytes
      → Dict
      → List ReplyFields
      → AsyncContext Obj Store Dict
      → Outcome (AsyncContext Obj Store Dict)
  unsubscribe pvariant name d [] ac = abort
  unsubscribe pvariant name d (number ∷ rest) ac = do
    let ac' = set_dictionary pvariant (dict.delete name d) ac
    assert (is_integer number.type)
    ok (if eq_ℤ number.integer_value (pos 0) then set_subscribed false ac' else ac')

  -- A message in an array, from the check of its type on.
  unfoldable pub message_callback :
      Bytes
      → Bytes
      → List ReplyFields
      → Callback
      → AsyncContext Obj Store Dict
      → Outcome (Callback × AsyncContext Obj Store Dict)
  unfolding same_nocase unsubscribe
  message_callback stype name rest cb ac =
      let pvariant = to_lower (peek stype) == 112 in
      let kind = if pvariant then drop 1 stype else stype in
      elim (dictionary pvariant ac) [
        | none ↦ abort
        | some d ↦ elim (dict.find name d) [
          | none ↦ ok (cb, ac)
          | some found ↦
              let removed = unsubscribe pvariant name d rest ac in
              if same_nocase (codes "unsubscribe") kind
              then (removed >>= λ ac'. ok (found, ac'))
              else ok (found, ac)
        ]
      ]

  -- __redisGetSubscribeCallback; `cb` is what the caller's variable holds.
  unfoldable pub get_subscribe_callback :
      RedisReply
      → Callback
      → AsyncContext Obj Store Dict
      → Outcome (Callback × AsyncContext Obj Store Dict)
  unfolding message_callback shift_callback
  get_subscribe_callback reply cb ac = elim reply.own.type [
    | array ↦ elim reply.element [
      | kind ∷ name ∷ rest ↦ do
        assert (is_string kind.type)
        assert (is_string name.type)
        message_callback kind.str name.str rest cb ac
      | _ ↦ abort
    ]
    | _ ↦ elim (shift_callback ac.invalid) [
      | none ↦ ok (cb, ac)
      | some (first, rest) ↦ ok (first, record ac { invalid = rest })
    ]
  ]

-- `user` and `connected` are what the callbacks of replies and of the connection do, `inspect`
-- reads a reply object, `drain` is the fuel for the callbacks that a teardown runs.
module _ {Obj Store Dict : Type 0} (dict : DictFunctions Dict)
    (fns : ReplyObjectFunctions Obj Store) (inspect : Store → Obj → RedisReply)
    (user : Callback → Option Obj → AsyncContext Obj Store Dict → AsyncContext Obj Store Dict)
    (connected : Status → AsyncContext Obj Store Dict → AsyncContext Obj Store Dict)
    (drain : ℕ) where
  -- `c->reader->fn->freeObject(reply)`
  unfoldable pub free_object : Obj → AsyncContext Obj Store Dict → AsyncContext Obj Store Dict
  free_object reply ac =
      let reader = ac.c.reader in
      let freed = record reader { store = fns.free_object reply reader.store } in
      emit (free_reply reply) (with_context (record (ac.c) { reader = freed }) ac)

  -- There is no reply for now.
  unfoldable pub no_reply :
      Callback → AsyncContext Obj Store Dict → Outcome (AsyncContext Obj Store Dict)
  unfolding async_disconnect_now push_callback
  no_reply cb ac =
      let flags = ac.c.flags in
      let leave = async_disconnect_now dict user drain ac in
      if flags.disconnecting && length ac.c.obuf == 0 && is_empty ac.replies
      then leave
      else ok (if flags.monitoring then record ac { replies = push_callback cb ac.replies } else ac)

  -- A reply and the callback that was found for it.
  unfoldable pub deliver :
      Obj → Callback → AsyncContext Obj Store Dict → Outcome (Next Obj Store Dict)
  unfolding run_callback free_object async_free_now
  deliver reply cb ac = elim cb.fn [
    | none ↦ ok (go_on cb (free_object reply ac))
    | some _ ↦
        let ran = run_callback user cb (some reply) ac in
        let freed = async_free_now dict user drain ran in
        if ran.c.flags.freeing then (freed >>= λ ac'. ok (stop ac')) else ok (go_on cb ran)
  ]

  -- A reply that no regular callback waits for.
  unfoldable pub spontaneous :
      Obj → Callback → AsyncContext Obj Store Dict → Outcome (Next Obj Store Dict)
  unfolding deliver get_subscribe_callback free_object async_disconnect_now
  spontaneous reply cb ac =
      let seen = inspect ac.c.reader.store reply in
      let failed = record (ac.c) { err = other; errstr = clip_errstr seen.own.str } in
      let left =
        async_disconnect_now dict user drain (free_object reply (with_context failed ac)) in
      let flags = ac.c.flags in
      let subscribed = get_subscribe_callback dict seen cb ac in
      if is_error_reply seen.own.type
      then (left >>= λ ac'. ok (stop ac'))
      else if flags.subscribed
      then (subscribed >>= λ (cb', ac'). deliver reply cb' ac')
      else if flags.monitoring
      then deliver reply cb ac
      else abort

  -- A round of redisProcessCallbacks in which there is a reply.
  unfoldable pub one_reply :
      Obj → Callback → AsyncContext Obj Store Dict → Outcome (Next Obj Store Dict)
  unfolding deliver spontaneous shift_callback
  one_reply reply cb ac = elim (shift_callback ac.replies) [
    | none ↦ spontaneous reply cb ac
    | some (first, rest) ↦ deliver reply first (record ac { replies = rest })
  ]

  -- The loop of redisProcessCallbacks; the context does not block, so no result of read(2) or
  -- write(2) is used. `cb` is the variable that is kept from round to round.
  unfoldable pub process_loop :
      ℕ → Callback → AsyncContext Obj Store Dict → Outcome (AsyncContext Obj Store Dict)
  unfolding Context.get_reply no_reply one_reply async_disconnect_now
  process_loop zero cb ac = out_of_fuel
  process_loop (suc fuel) cb ac = elim (Context.get_reply fns [] [] ac.c) [
    | ok (redis_err, _, c) ↦ async_disconnect_now dict user drain (with_context c ac)
    | ok (redis_ok, none, c) ↦ no_reply cb (with_context c ac)
    | ok (redis_ok, some reply, c) ↦ elim (one_reply reply cb (with_context c ac)) [
      | ok (stop ac') ↦ ok ac'
      | ok (go_on cb' ac') ↦ process_loop fuel cb' ac'
      | abort ↦ abort
      | out_of_fuel ↦ out_of_fuel
    ]
    | abort ↦ abort
    | out_of_fuel ↦ out_of_fuel
  ]

  -- redisProcessCallbacks
  unfoldable pub process_callbacks :
      ℕ → AsyncContext Obj Store Dict → Outcome (AsyncContext Obj Store Dict)
  unfolding process_loop
  process_callbacks fuel ac = process_loop fuel (record { fn = none; privdata = 0 }) ac

  -- `if (ac->onConnect) ac->onConnect(ac, status)`
  abbrev run_connect : Status → AsyncContext Obj Store Dict → AsyncContext Obj Store Dict
  run_connect st ac = if ac.on_connect then connected st (emit (connect_callback st) ac) else ac

  -- __redisAsyncHandleConnect
  unfoldable pub handle_connect :
      SocketCheck → AsyncContext Obj Store Dict → Outcome (Status × AsyncContext Obj Store Dict)
  unfolding Context.set_error async_disconnect_now
  handle_connect socket_ok ac = ok (redis_ok, run_connect redis_ok (set_connected true ac))
  handle_connect (socket_error in_progress text) ac =
      let failed = with_context (Context.set_error io text ac.c) ac in
      let left = async_disconnect_now dict user drain (run_connect redis_err failed) in
      if in_progress then ok (redis_ok, failed) else (left >>= λ ac'. ok (redis_err, ac'))

  -- The start of both handlers: true where the handler goes on.
  unfoldable pub check_connected :
      SocketCheck → AsyncContext Obj Store Dict → Outcome (Bool × AsyncContext Obj Store Dict)
  unfolding handle_connect
  check_connected check ac =
      let asked = handle_connect check ac in
      if ac.c.flags.connected then ok (true, ac) else elim asked [
        | ok (redis_ok, ac') ↦ ok (ac'.c.flags.connected, ac')
        | ok (redis_err, ac') ↦ ok (false, ac')
        | abort ↦ abort
        | out_of_fuel ↦ out_of_fuel
      ]

  -- redisAsyncHandleRead behind the check
  unfoldable pub read_ready :
      ℕ
      → ℕ
      → Bool
      → ReadResult
      → AsyncContext Obj Store Dict
      → Outcome (AsyncContext Obj Store Dict)
  unfolding buffer_read process_callbacks async_disconnect_now
  read_ready fuel avail room r ac =
      let (st, c) = buffer_read fns avail room r ac.c in
      elim st [
        | redis_err ↦ async_disconnect_now dict user drain (with_context c ac)
        | redis_ok ↦ process_callbacks fuel (emit add_read (with_context c ac))
      ]

  -- redisAsyncHandleRead
  unfoldable pub handle_read :
      ℕ
      → SocketCheck
      → ℕ
      → Bool
      → ReadResult
      → AsyncContext Obj Store Dict
      → Outcome (AsyncContext Obj Store Dict)
  unfolding check_connected read_ready
  handle_read fuel check avail room r ac = elim (check_connected check ac) [
    | ok (true, ac') ↦ read_ready fuel avail room r ac'
    | ok (false, ac') ↦ ok ac'
    | abort ↦ abort
    | out_of_fuel ↦ out_of_fuel
  ]

  -- redisAsyncHandleWrite behind the check
  unfoldable pub write_ready :
      WriteResult → AsyncContext Obj Store Dict → Outcome (AsyncContext Obj Store Dict)
  unfolding buffer_write async_disconnect_now
  write_ready w ac =
      let (st, done, c) = buffer_write w ac.c in
      let ac' = with_context c ac in
      elim st [
        | redis_err ↦ async_disconnect_now dict user drain ac'
        | redis_ok ↦ ok (emit add_read (emit (if done then del_write else add_write) ac'))
      ]

  -- redisAsyncHandleWrite
  unfoldable pub handle_write :
      SocketCheck
      → WriteResult
      → AsyncContext Obj Store Dict
      → Outcome (AsyncContext Obj Store Dict)
  unfolding check_connected write_ready
  handle_write check w ac = elim (check_connected check ac) [
    | ok (true, ac') ↦ write_ready w ac'
    | ok (false, ac') ↦ ok ac'
    | abort ↦ abort
    | out_of_fuel ↦ out_of_fuel
  ]
