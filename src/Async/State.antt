-- ===== src/Async/State.antt =====
-- async.h and the first half of async.c: the asynchronous context, its lists of callbacks and how
-- one callback is run.
use multiplexing_hiredis.Common.{
  ℕ, Bool, true, false, Option, none, some, List, [], ◌∷◌, ◌++◌, if◌then◌else◌, Bytes,
}
use multiplexing_hiredis.Reader.State.{ErrorCode, no_error, Status, redis_ok, redis_err}
use multiplexing_hiredis.Context.{RedisContext, Flags}

-- redisCallback: the function, by a number that stands for its address, and its private data.
pub record Callback : Type 0 where
  pub fn : Option ℕ
  pub privdata : ℕ

-- What the context does that others see, in the order in which it is done.
pub data Event (Obj : Type 0) : Type 0 where
  ran : Callback → Option Obj → Event Obj
  connect_callback : Status → Event Obj
  disconnect_callback : Status → Event Obj
  add_read del_read add_write del_write cleanup : Event Obj
  free_reply : Obj → Event Obj
  signal_free : Event Obj
  free_context : Event Obj

-- What is used of dict.c, on dictionaries of callbacks by channel or pattern: dictReplace, dictFind,
-- dictDelete, and the values in the order in which an iterator gives them.
pub record DictFunctions (Dict : Type 0) : Type 0 where
  pub replace : Bytes → Callback → Dict → Dict
  pub find : Bytes → Dict → Option Callback
  pub delete : Bytes → Dict → Dict
  pub values : Dict → List Callback

-- redisAsyncContext. `on_connect` and `on_disconnect` tell whether the callback is set, `freed`
-- whether `status` is FREED_CONTEXT; the dictionaries are `none` when they have been released;
-- `cmd_list` holds the numbers of waiting commands. `trace` is what has been done so far.
pub record AsyncContext (Obj Store Dict : Type 0) : Type 0 where
  pub c : RedisContext Obj Store
  pub err : ErrorCode
  pub errstr : Bytes
  pub on_connect : Bool
  pub on_disconnect : Bool
  pub replies : List Callback
  pub invalid : List Callback
  pub channels : Option Dict
  pub patterns : Option Dict
  pub cmd_list : List ℕ
  pub freed : Bool
  pub trace : List (Event Obj)

module _ {Obj Store Dict : Type 0} where
  abbrev pub emit : Event Obj → AsyncContext Obj Store Dict → AsyncContext Obj Store Dict
  emit e ac = record ac { trace = ac.trace ++ (e ∷ []) }

  abbrev pub with_context :
      RedisContext Obj Store → AsyncContext Obj Store Dict → AsyncContext Obj Store Dict
  with_context c ac = record ac { c = c }

  abbrev pub with_flags : Flags → AsyncContext Obj Store Dict → AsyncContext Obj Store Dict
  with_flags f ac = record ac { c = record (ac.c) { flags = f } }

  abbrev pub set_in_callback : Bool → AsyncContext Obj Store Dict → AsyncContext Obj Store Dict
  set_in_callback b ac = with_flags (record (ac.c.flags) { in_callback = b }) ac

  abbrev pub set_connected : Bool → AsyncContext Obj Store Dict → AsyncContext Obj Store Dict
  set_connected b ac = with_flags (record (ac.c.flags) { connected = b }) ac

  abbrev pub set_disconnecting : AsyncContext Obj Store Dict → AsyncContext Obj Store Dict
  set_disconnecting ac = with_flags (record (ac.c.flags) { disconnecting = true }) ac

  abbrev pub set_freeing : AsyncContext Obj Store Dict → AsyncContext Obj Store Dict
  set_freeing ac = with_flags (record (ac.c.flags) { freeing = true }) ac

  abbrev pub set_subscribed : Bool → AsyncContext Obj Store Dict → AsyncContext Obj Store Dict
  set_subscribed b ac = with_flags (record (ac.c.flags) { subscribed = b }) ac

  abbrev pub set_monitoring : AsyncContext Obj Store Dict → AsyncContext Obj Store Dict
  set_monitoring ac = with_flags (record (ac.c.flags) { monitoring = true }) ac

  -- redisAsyncInitialize, on the context of a connection, with an empty dictionary
  unfoldable pub async_initialize : Dict → RedisContext Obj Store → AsyncContext Obj Store Dict
  async_initialize empty c = record {
    c = record c { flags = record (c.flags) { connected = false } };
    err = no_error;
    errstr = [];
    on_connect = false;
    on_disconnect = false;
    replies = [];
    invalid = [];
    channels = some empty;
    patterns = some empty;
    cmd_list = [];
    freed = false;
    trace = [];
  }

  -- __redisAsyncCopyError
  unfoldable pub copy_error : AsyncContext Obj Store Dict → AsyncContext Obj Store Dict
  copy_error ac = record ac { err = ac.c.err; errstr = ac.c.errstr }

  -- redisAsyncSetConnectCallback
  unfoldable pub set_connect_callback :
      AsyncContext Obj Store Dict → Status × AsyncContext Obj Store Dict
  set_connect_callback ac =
      if ac.on_connect
      then (redis_err, ac)
      else (redis_ok, emit add_write (record ac { on_connect = true }))

  -- redisAsyncSetDisconnectCallback
  unfoldable pub set_disconnect_callback :
      AsyncContext Obj Store Dict → Status × AsyncContext Obj Store Dict
  set_disconnect_callback ac =
      if ac.on_disconnect then (redis_err, ac) else (redis_ok, record ac { on_disconnect = true })

-- __redisPushCallback, with memory: the new callback becomes the tail.
unfoldable pub push_callback : Callback → List Callback → List Callback
push_callback cb [] = cb ∷ []
push_callback cb (head ∷ list) = head ∷ push_callback cb list

-- __redisShiftCallback: the head and the list behind it.
unfoldable pub shift_callback : List Callback → Option (Callback × List Callback)
shift_callback [] = none
shift_callback (cb ∷ list) = some (cb, list)

-- `user` is what the function of a callback does with the context: its own calls of the library.
module _ {Obj Store Dict : Type 0}
    (user : Callback → Option Obj → AsyncContext Obj Store Dict → AsyncContext Obj Store Dict) where
  -- __redisRunCallback
  unfoldable pub run_callback :
      Callback → Option Obj → AsyncContext Obj Store Dict → AsyncContext Obj Store Dict
  run_callback cb reply ac = elim cb.fn [
    | none ↦ ac
    | some _ ↦ set_in_callback false (user cb reply (emit (ran cb reply) (set_in_callback true ac)))
  ]
