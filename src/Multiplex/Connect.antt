-- ===== src/Multiplex/Connect.antt =====
-- hiredis.c: a new connection of the multiplexing client, and a connection that is made anew by its
-- user.
use multiplexing_hiredis.Common.{
  ℕ, suc, Bool, true, false, ◌||◌, Option, none, some, List, [], ◌∷◌, ◌==◌, if◌then◌else◌, Bytes,
  length,
}
use multiplexing_hiredis.Common.Int.{ℤ, pos, negsuc, ltb_ℤ}
use multiplexing_hiredis.Common.Outcome.{Outcome, ok, ◌>>=◌}
use multiplexing_hiredis.Reader.State.{Status, redis_ok, redis_err}
use multiplexing_hiredis.Context.{context_init}
use multiplexing_hiredis.Async.State.{
  AsyncContext, Callback, DictFunctions, async_initialize, copy_error,
}
use multiplexing_hiredis.Async.Teardown.{async_free}
use multiplexing_hiredis.Multiplex.State.{unconnected, XContext}
use multiplexing_hiredis.Multiplex.Reconnect.{Attempt, unblock, attach_no_lock, reconnect_with}

-- What sscanf finds of "%d.%d.%d.%d%c": the numbers, and whether a character follows them.
pub record Scanned : Type 0 where
  pub numbers : List ℤ
  pub followed : Bool

abbrev pub scan_count : Scanned → ℕ
scan_count s = if s.followed then suc (length s.numbers) else length s.numbers

-- The loop of isValidIP
unfoldable pub all_octets : List ℤ → Bool
all_octets [] = true
all_octets (a ∷ rest) =
    let others = all_octets rest in if ltb_ℤ a (pos 0) || ltb_ℤ (pos 255) a then false else others

-- isValidIP
unfoldable pub is_valid_ip : (Bytes → Scanned) → Bytes → Bool
unfolding all_octets
is_valid_ip sscanf str =
    let s = sscanf str in if scan_count s == 4 then all_octets s.numbers else false

module _ {Obj Store Dict : Type 0} where
  -- xRedisContextInit, and the status that is set before the context is connected.
  abbrev pub x_context_init : Bytes → ℕ → XContext Obj Store Dict
  x_context_init ip port = record {
    ctx = none;
    ip = ip;
    port = port;
    status = unconnected;
    wait_time_reconn = 1;
    remain_wait_reconn = 0;
    requests = [];
  }

  -- A connection that could not be attached is freed: NULL.
  abbrev pub opened_if_attached :
      Status × XContext Obj Store Dict → Option (XContext Obj Store Dict)
  opened_if_attached (redis_ok, xc) = some xc
  opened_if_attached (redis_err, xc) = none

module _ {Obj Store Dict : Type 0} (empty : Dict) (store : Store) where
  -- The part behind xRedisContextInit
  unfoldable pub x_open :
      Attempt Obj Store → XContext Obj Store Dict → Option (XContext Obj Store Dict)
  unfolding context_init async_initialize copy_error attach_no_lock
  x_open a xc = elim (context_init a.memory store) [
    | none ↦ none
    | some c ↦
        let ac = copy_error (async_initialize empty (a.dial (unblock c))) in
        if a.room then opened_if_attached (attach_no_lock a.seen ac xc) else none
  ]

-- `initialized` tells whether __initMpClient returns 0.
module _ {Obj Store Dict : Type 0} (empty : Dict) (store : Store) (sscanf : Bytes → Scanned)
    (initialized : Bool) where
  -- __xRedisConnectNonBlockTimeOut; a NULL `ip` is `none`.
  unfoldable pub x_connect : Attempt Obj Store → Option Bytes → ℤ → Option (XContext Obj Store Dict)
  unfolding is_valid_ip x_open
  x_connect a none port = none
  x_connect a (some ip) (negsuc _) = none
  x_connect a (some ip) (pos port) =
      if is_valid_ip sscanf ip
      then (if initialized then x_open empty store a (x_context_init ip port) else none)
      else none

module _ {Obj Store Dict : Type 0} (dict : DictFunctions Dict)
    (user : Callback → Option Obj → AsyncContext Obj Store Dict → AsyncContext Obj Store Dict)
    (empty : Dict) (store : Store) where
  -- `if (xc->ctx != NULL) xRedisAsyncFree(xc->ctx)`
  unfoldable pub free_old :
      ℕ → Option (AsyncContext Obj Store Dict) → Outcome (Option (AsyncContext Obj Store Dict))
  unfolding async_free
  free_old fuel none = ok none
  free_old fuel (some ac) = async_free dict user fuel ac >>= λ ac'. ok (some ac')

  -- xRedisReconnectConnectNonBlock, and xRedisReconnect
  unfoldable pub x_reconnect :
      ℕ → Attempt Obj Store → XContext Obj Store Dict → Outcome (Status × XContext Obj Store Dict)
  unfolding free_old context_init reconnect_with
  x_reconnect fuel a xc = free_old fuel xc.ctx >>= λ _. elim (context_init a.memory store) [
    | none ↦ ok (redis_err, record xc { ctx = none })
    | some c ↦ ok (reconnect_with empty store a c (record xc { status = unconnected }))
  ]
