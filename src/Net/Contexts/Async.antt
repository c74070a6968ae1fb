-- ===== src/Net/Contexts/Async.antt =====
-- async.c: redisAsyncConnect and its variants, on the context and its socket.
use multiplexing_hiredis.Common.{
  ℕ, ◌≡◌, true, false, Bool, Option, none, some, List, [], if◌then◌else◌, Bytes, ◌⊎◌,
}
use multiplexing_hiredis.Common.Outcome.{Outcome, ok, ◌>>=◌}
use multiplexing_hiredis.Async.State.{AsyncContext, async_initialize, copy_error}
use multiplexing_hiredis.Net.State.{ErrorNumber, Logged, Os, Net}
use multiplexing_hiredis.Net.Contexts.{
  free, connect_non_block, connect_bind_non_block, connect_bind_non_block_with_reuse,
  connect_path_non_block,
}
use multiplexing_hiredis.Net.Contexts.Closes.{IsReleased}
use multiplexing_hiredis.Net.Connect.Attempts.{IsConnected}
use multiplexing_hiredis.Reader.State.{is_error}

-- What a call for an asynchronous context makes: NULL, where there was no memory for a context,
-- where the context was freed, or where it was forgotten; or the asynchronous context.
pub data AsyncResult (Obj Store Address Dict : Type 0) : Type 0 where
  no_context : AsyncResult Obj Store Address Dict
  released : List (Logged Address) → AsyncResult Obj Store Address Dict
  forgotten : Net Obj Store Address → AsyncResult Obj Store Address Dict
  initialised :
      Net Obj Store Address → AsyncContext Obj Store Dict → AsyncResult Obj Store Address Dict

module _ {Obj Store Address Dict : Type 0} (empty : Dict) (room : Bool) where
  -- redisAsyncInitialize and __redisAsyncCopyError; `room` tells whether realloc succeeds.
  unfoldable pub initialise_or_free :
      Option (Net Obj Store Address) → AsyncResult Obj Store Address Dict
  unfolding async_initialize copy_error free
  initialise_or_free none = no_context
  initialise_or_free (some n) =
      if room
      then initialised n (copy_error (async_initialize empty n.context))
      else released (free n)

  -- The same, where NULL is not tested for.
  unfoldable pub initialise_or_forget : Net Obj Store Address → AsyncResult Obj Store Address Dict
  unfolding async_initialize copy_error
  initialise_or_forget n =
      if room then initialised n (copy_error (async_initialize empty n.context)) else forgotten n

  module _ (os : Os Address) (memory : Bool) (store : Store) (errno : ErrorNumber) where
    -- redisAsyncConnect
    unfoldable pub async_connect : Bytes → ℕ → AsyncResult Obj Store Address Dict
    unfolding connect_non_block initialise_or_free
    async_connect ip port = initialise_or_free (connect_non_block os memory store errno ip port)

    -- redisAsyncConnectBind
    unfoldable pub async_connect_bind :
        Bytes → ℕ → Option Bytes → Outcome (AsyncResult Obj Store Address Dict)
    unfolding connect_bind_non_block initialise_or_forget
    async_connect_bind ip port source_addr =
        connect_bind_non_block os memory store errno ip port source_addr >>= λ n.
        ok (initialise_or_forget n)

    -- redisAsyncConnectBindWithReuse
    unfoldable pub async_connect_bind_with_reuse :
        Bytes → ℕ → Option Bytes → Outcome (AsyncResult Obj Store Address Dict)
    unfolding connect_bind_non_block_with_reuse initialise_or_forget
    async_connect_bind_with_reuse ip port source_addr =
        connect_bind_non_block_with_reuse os memory store errno ip port source_addr >>= λ n.
        ok (initialise_or_forget n)

    -- redisAsyncConnectUnix
    unfoldable pub async_connect_unix : Bytes → AsyncResult Obj Store Address Dict
    unfolding connect_path_non_block initialise_or_free
    async_connect_unix path = initialise_or_free (connect_path_non_block os memory store errno path)

module _ {Obj Store Address Dict : Type 0} where
  -- No context without memory; of a context that was freed, no descriptor is open but perhaps a
  -- descriptor 0; and an asynchronous context either has an error or has the only open descriptor and
  -- is connected, it has the error of its context, nothing waiting, and when it is freed no
  -- descriptor is open but perhaps a descriptor 0.
  abbrev pub IsSettled : Bool → Bool → AsyncResult Obj Store Address Dict → Type 0
  IsSettled memory room no_context = memory ≡ false
  IsSettled memory room (released log) = (room ≡ false) × IsReleased log
  IsSettled memory room (forgotten n) = ⊥
  IsSettled memory room (initialised n ac) =
      ((is_error ac.err ≡ true) ⊎ IsConnected n)
      × IsReleased (free n)
      × (ac.err ≡ n.context.err)
      × (ac.errstr ≡ n.context.errstr)
      × (ac.replies ≡ [])
