-- ===== src/Multiplex/Reconnect.antt =====
-- hiredis.c: contexts that have lost their connection. The thread of reconnectDis goes over the list
-- of them ten times a second and tries to connect each again, in intervals that double.
pub mod Backoff
use multiplexing_hiredis.Common.{
  ℕ, zero, suc, ◌++◌, ◌+◌, ◌-◌, ◌*◌, ◌%◌, ◌^◌, Bool, true, false, Option, none, some, List, [], ◌∷◌,
  ◌==◌, if◌then◌else◌,
}
use multiplexing_hiredis.Reader.State.{no_error, Status, redis_ok, redis_err}
use multiplexing_hiredis.Reader.Api
use multiplexing_hiredis.Context.{RedisContext, context_init}
use multiplexing_hiredis.Async.State.{
  AsyncContext, async_initialize, copy_error, set_connect_callback, set_disconnect_callback,
  add_read, emit,
}
use multiplexing_hiredis.Multiplex.State.{Connection, is_connected, XContext}

-- The wait for the next attempt is a uint32_t.
abbrev pub uint32 : ℕ → ℕ
uint32 n = n % 2 ^ 32

-- What an attempt to connect finds: whether there is memory for a context and then for an
-- asynchronous one, what redisContextConnectTcp of net.c makes of the context, and the status that
-- the callback has set when the wait is over.
pub record Attempt (Obj Store : Type 0) : Type 0 where
  pub memory : Bool
  pub dial : RedisContext Obj Store → RedisContext Obj Store
  pub room : Bool
  pub seen : Connection

module _ {Obj Store : Type 0} where
  -- `c->flags &= ~REDIS_BLOCK`
  abbrev pub unblock : RedisContext Obj Store → RedisContext Obj Store
  unblock c = record c { flags = record (c.flags) { block = false } }

module _ {Obj Store Dict : Type 0} where
  -- __initAttachContext: the hooks of the event loop are set by its adapter.
  unfoldable pub attach : AsyncContext Obj Store Dict → AsyncContext Obj Store Dict
  unfolding set_connect_callback set_disconnect_callback
  attach ac =
      let (_, ac₁) = set_connect_callback ac in let (_, ac₂) = set_disconnect_callback ac₁ in ac₂

  -- attachAsyncNoLock: the mutex is released during the wait, in which the callback sets the status.
  -- Commands that other threads queue on the new context in that time are not modelled.
  unfoldable pub attach_no_lock :
      Connection
      → AsyncContext Obj Store Dict
      → XContext Obj Store Dict
      → Status × XContext Obj Store Dict
  unfolding attach
  attach_no_lock seen ac xc =
      let waited = record xc { ctx = some (attach ac); status = seen } in
      (if is_connected seen then redis_ok else redis_err, waited)

  -- A context that could not be attached is let go.
  abbrev pub kept_if_attached : Status × XContext Obj Store Dict → Status × XContext Obj Store Dict
  kept_if_attached (redis_ok, xc) = (redis_ok, xc)
  kept_if_attached (redis_err, xc) = (redis_err, record xc { ctx = none })

  -- The intervals behind an attempt, and whether the context leaves the list.
  abbrev pub settle : Status × XContext Obj Store Dict → Bool × XContext Obj Store Dict
  settle (redis_err, xc) =
      let wait = uint32 (2 * xc.wait_time_reconn) in
      (false, record xc { wait_time_reconn = wait; remain_wait_reconn = wait })
  settle (redis_ok, xc) = (true, record xc { wait_time_reconn = 1; remain_wait_reconn = 0 })

  -- A context stays on the list or is taken off.
  abbrev pub sort_out :
      Bool × XContext Obj Store Dict
      → List (XContext Obj Store Dict) × List (XContext Obj Store Dict)
      → List (XContext Obj Store Dict) × List (XContext Obj Store Dict)
  sort_out (true, xc) (waiting, joined) = (waiting, xc ∷ joined)
  sort_out (false, xc) (waiting, joined) = (xc ∷ waiting, joined)

-- `empty` is a new dictionary, `store` what the functions that make replies start from.
module _ {Obj Store Dict : Type 0} (empty : Dict) (store : Store) where
  -- __xRedisReconnectConnectNonBlock behind redisContextInit
  unfoldable pub reconnect_with :
      Attempt Obj Store
      → RedisContext Obj Store
      → XContext Obj Store Dict
      → Status × XContext Obj Store Dict
  unfolding async_initialize copy_error attach_no_lock
  reconnect_with a c xc =
      let ac = copy_error (async_initialize empty (a.dial (unblock c))) in
      if a.room
      then kept_if_attached (attach_no_lock a.seen ac xc)
      else (redis_err, record xc { ctx = none })

  -- __xRedisReconnectConnectNonBlock
  unfoldable pub reconnect_now :
      Attempt Obj Store → XContext Obj Store Dict → Status × XContext Obj Store Dict
  unfolding context_init reconnect_with
  reconnect_now a xc = elim (context_init a.memory store) [
    | none ↦ (redis_err, record xc { ctx = none })
    | some c ↦ reconnect_with a c xc
  ]

  -- One context of the list: an attempt if it is due.
  unfoldable pub reconnect_one :
      Attempt Obj Store → XContext Obj Store Dict → Bool × XContext Obj Store Dict
  unfolding reconnect_now
  reconnect_one a xc =
      if xc.remain_wait_reconn == 0
      then settle (reconnect_now a xc)
      else (false, record xc { remain_wait_reconn = xc.remain_wait_reconn - 1 })

  -- One pass of reconnectDis over `reconn_list`, in which a context stands once: the list behind it,
  -- and the contexts that were taken off.
  unfoldable pub reconnect_pass :
      (XContext Obj Store Dict → Attempt Obj Store)
      → List (XContext Obj Store Dict)
      → List (XContext Obj Store Dict) × List (XContext Obj Store Dict)
  unfolding reconnect_one
  reconnect_pass attempt [] = ([], [])
  reconnect_pass attempt (xc ∷ reconn_list) =
      sort_out (reconnect_one (attempt xc) xc) (reconnect_pass attempt reconn_list)

  -- So many passes, with what the attempts of each find; the contexts that were taken off stand in
  -- the order of the passes.
  unfoldable pub reconnect_passes :
      (ℕ → XContext Obj Store Dict → Attempt Obj Store)
      → ℕ
      → List (XContext Obj Store Dict)
      → List (XContext Obj Store Dict) × List (XContext Obj Store Dict)
  unfolding reconnect_pass
  reconnect_passes attempt zero reconn_list = (reconn_list, [])
  reconnect_passes attempt (suc n) reconn_list =
      let (waiting, joined) = reconnect_pass (attempt n) reconn_list in
      let (waiting', joined') = reconnect_passes attempt n waiting in (waiting', joined ++ joined')
