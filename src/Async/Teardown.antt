-- ===== src/Async/Teardown.antt =====
-- async.c: how a context is freed and how it disconnects.
use multiplexing_hiredis.Common.{
  ℕ, zero, suc, not, ◌&&◌, Option, none, some, List, [], ◌∷◌, if◌then◌else◌,
}
use multiplexing_hiredis.Common.Outcome.{Outcome, ok, abort, out_of_fuel, ◌>>=◌}
use multiplexing_hiredis.Reader.State.{is_error, redis_ok, redis_err}
use multiplexing_hiredis.Async.State.{
  Callback, DictFunctions, cleanup, disconnect_callback, signal_free, free_context, AsyncContext,
  emit, set_disconnecting, set_freeing, copy_error, shift_callback, run_callback,
}

module _ {Obj Store Dict : Type 0} (dict : DictFunctions Dict)
    (user : Callback → Option Obj → AsyncContext Obj Store Dict → AsyncContext Obj Store Dict) where
  -- `while (__redisShiftCallback(&ac->replies,&cb) == REDIS_OK)`: a callback may add others.
  unfoldable pub drain_replies :
      ℕ → AsyncContext Obj Store Dict → Outcome (AsyncContext Obj Store Dict)
  unfolding shift_callback run_callback
  drain_replies zero ac = out_of_fuel
  drain_replies (suc fuel) ac = elim (shift_callback ac.replies) [
    | none ↦ ok ac
    | some (cb, rest) ↦
        drain_replies fuel (run_callback user cb none (record ac { replies = rest }))
  ]

  -- The same of the callbacks for invalid commands.
  unfoldable pub drain_invalid :
      ℕ → AsyncContext Obj Store Dict → Outcome (AsyncContext Obj Store Dict)
  unfolding shift_callback run_callback
  drain_invalid zero ac = out_of_fuel
  drain_invalid (suc fuel) ac = elim (shift_callback ac.invalid) [
    | none ↦ ok ac
    | some (cb, rest) ↦
        drain_invalid fuel (run_callback user cb none (record ac { invalid = rest }))
  ]

  -- The iteration over a dictionary of callbacks, of which the values are given.
  unfoldable pub run_subscribed :
      List Callback → AsyncContext Obj Store Dict → AsyncContext Obj Store Dict
  unfolding run_callback
  run_subscribed [] ac = ac
  run_subscribed (cb ∷ cbs) ac = run_subscribed cbs (run_callback user cb none ac)

  -- The disconnect callback at the end.
  unfoldable pub run_disconnect : AsyncContext Obj Store Dict → AsyncContext Obj Store Dict
  run_disconnect ac =
      let status =
        if ac.c.flags.freeing then redis_ok else if is_error ac.err then redis_err else redis_ok in
      if ac.on_disconnect && ac.c.flags.connected then emit (disconnect_callback status) ac else ac

  -- The end of __redisAsyncFree, behind the subscriptions.
  unfoldable pub free_rest : AsyncContext Obj Store Dict → AsyncContext Obj Store Dict
  unfolding run_disconnect
  free_rest ac =
      let ac' = run_disconnect (emit cleanup ac) in
      let empty = record ac' { cmd_list = [] } in
      emit free_context (if empty.freed then emit signal_free empty else empty)

  -- The patterns, and what follows; a dictionary that was released ends the call.
  unfoldable pub free_patterns : AsyncContext Obj Store Dict → AsyncContext Obj Store Dict
  unfolding run_subscribed free_rest
  free_patterns ac = elim ac.patterns [
    | none ↦ ac
    | some cbs ↦
        let ran_all = run_subscribed (dict.values cbs) ac in
        free_rest (record ran_all { patterns = none })
  ]

  unfoldable pub free_channels : AsyncContext Obj Store Dict → AsyncContext Obj Store Dict
  unfolding run_subscribed free_patterns
  free_channels ac = elim ac.channels [
    | none ↦ ac
    | some cbs ↦
        let ran_all = run_subscribed (dict.values cbs) ac in
        free_patterns (record ran_all { channels = none })
  ]

  -- __redisAsyncFree
  unfoldable pub async_free_now :
      ℕ → AsyncContext Obj Store Dict → Outcome (AsyncContext Obj Store Dict)
  unfolding drain_replies drain_invalid free_channels
  async_free_now fuel ac = do
    ac₁ ← drain_replies fuel ac
    ac₂ ← drain_invalid fuel ac₁
    ok (free_channels ac₂)

  -- redisAsyncFree, and xRedisAsyncFree under its lock
  unfoldable pub async_free :
      ℕ → AsyncContext Obj Store Dict → Outcome (AsyncContext Obj Store Dict)
  unfolding async_free_now
  async_free fuel ac =
      let freeing = set_freeing ac in
      let free = async_free_now fuel freeing in
      if not freeing.c.flags.in_callback then free else ok freeing

  -- __redisAsyncDisconnect
  unfoldable pub async_disconnect_now :
      ℕ → AsyncContext Obj Store Dict → Outcome (AsyncContext Obj Store Dict)
  unfolding async_free_now copy_error
  async_disconnect_now fuel ac =
      let ac' = copy_error ac in
      if is_error ac'.err
      then async_free_now fuel (set_disconnecting ac')
      else elim (shift_callback ac'.replies) [ none ↦ async_free_now fuel ac' | some _ ↦ abort ]

  -- redisAsyncDisconnect
  unfoldable pub async_disconnect :
      ℕ → AsyncContext Obj Store Dict → Outcome (AsyncContext Obj Store Dict)
  unfolding async_disconnect_now
  async_disconnect fuel ac =
      let leaving = set_disconnecting ac in
      let now = async_disconnect_now fuel leaving in
      if not leaving.c.flags.in_callback
      then elim leaving.replies [ [] ↦ now | _ ∷ _ ↦ ok leaving ]
      else ok leaving
