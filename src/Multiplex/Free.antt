-- ===== src/Multiplex/Free.antt =====
-- hiredis.c: freeing a connection, by its user, who puts its context on a list, and by the event
-- loop, which frees the contexts on that list before it sleeps.
pub mod Contexts
use multiplexing_hiredis.Common.{
  ℕ, Bool, true, false, Option, none, some, List, [], ◌∷◌, ◌++◌, if◌then◌else◌,
}
use multiplexing_hiredis.Common.Outcome.{Outcome, ok, ◌>>=◌}
use multiplexing_hiredis.Async.State.{AsyncContext, Callback, DictFunctions}
use multiplexing_hiredis.Async.Teardown.{async_free}
use multiplexing_hiredis.Multiplex.State.{XContext}

-- The lists of redisClient.
pub record Client (Obj Store Dict : Type 0) : Type 0 where
  pub reconn_list : List (XContext Obj Store Dict)
  pub free_ac_list : List (AsyncContext Obj Store Dict)

module _ {Obj Store Dict : Type 0} where
  -- `listSearchKey` and `listDelNode`: the first entry that is the connection, if there is one.
  unfoldable pub remove_first :
      (XContext Obj Store Dict → Bool)
      → List (XContext Obj Store Dict)
      → List (XContext Obj Store Dict)
  remove_first same [] = []
  remove_first same (xc ∷ list) =
      let rest = remove_first same list in if same xc then list else xc ∷ rest

  -- The context of a connection is marked and waits to be freed.
  abbrev pub hand_over :
      Option (AsyncContext Obj Store Dict) → Client Obj Store Dict → Client Obj Store Dict
  hand_over none client = client
  hand_over (some ac) client = record client {
    free_ac_list = client.free_ac_list ++ (record ac { freed = true } ∷ []);
  }

  -- xRedisFree up to its wait, of a connection that it is called for once; `same` compares pointers.
  unfoldable pub x_free :
      (XContext Obj Store Dict → Bool)
      → XContext Obj Store Dict
      → Client Obj Store Dict
      → Client Obj Store Dict
  unfolding remove_first
  x_free same xc client =
      let marked = hand_over xc.ctx client in
      record marked { reconn_list = remove_first same marked.reconn_list }

module _ {Obj Store Dict : Type 0} (dict : DictFunctions Dict)
    (user : Callback → Option Obj → AsyncContext Obj Store Dict → AsyncContext Obj Store Dict) where
  -- A loop of xRedisAsyncFree: the contexts as they were when they were freed.
  unfoldable pub free_contexts :
      ℕ → List (AsyncContext Obj Store Dict) → Outcome (List (AsyncContext Obj Store Dict))
  unfolding async_free
  free_contexts fuel [] = ok []
  free_contexts fuel (ac ∷ list) =
      async_free dict user fuel ac >>= λ gone. free_contexts fuel list >>= λ rest. ok (gone ∷ rest)

  -- freeAsyncContextDeal
  unfoldable pub free_async_context_deal :
      ℕ
      → Client Obj Store Dict
      → Outcome (List (AsyncContext Obj Store Dict) × Client Obj Store Dict)
  unfolding free_contexts
  free_async_context_deal fuel client = free_contexts fuel client.free_ac_list >>= λ gone.
      ok (gone, record client { free_ac_list = [] })
