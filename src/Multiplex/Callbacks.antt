-- ===== src/Multiplex/Callbacks.antt =====
-- hiredis.c: connectedCallback and disconnectedCallback, which the event loop runs when a connection
-- comes up and when it goes down. A connection is named by a number on the list of reconnectDis.
pub mod Down
use multiplexing_hiredis.Common.{
  ℕ, Bool, true, false, Option, none, some, List, [], ◌∷◌, ◌++◌, ◌==◌, if◌then◌else◌,
}
use multiplexing_hiredis.Reader.State.{Status, redis_ok, redis_err}
use multiplexing_hiredis.Async.State.{AsyncContext}
use multiplexing_hiredis.Multiplex.State.{connected, disconnecting, XContext, Request, clear_queue}

-- `listSearchKey(client.reconn_list,xc) != NULL`
unfoldable pub is_listed : ℕ → List ℕ → Bool
is_listed a [] = false
is_listed a (x ∷ list) = if x == a then true else is_listed a list

-- The connection goes to the end of the list, unless it is on it.
unfoldable pub list_once : ℕ → List ℕ → List ℕ
unfolding is_listed
list_once a list = if is_listed a list then list else list ++ (a ∷ [])

-- What disconnectedCallback changes: the context, its connection and the list.
pub record Going (Obj Store Dict : Type 0) : Type 0 where
  pub ac : AsyncContext Obj Store Dict
  pub xc : XContext Obj Store Dict
  pub reconn_list : List ℕ

module _ {Obj Store Dict : Type 0} where
  -- connectedCallback, without the signal that it gives to the waiting thread in either case
  unfoldable pub connected_callback : Status → XContext Obj Store Dict → XContext Obj Store Dict
  connected_callback redis_ok xc = record xc { status = connected }
  connected_callback redis_err xc = xc

  -- disconnectedCallback of the connection `a`; `none` where freed memory is used.
  unfoldable pub disconnected_callback :
      Status → ℕ → Going Obj Store Dict → Option (Going Obj Store Dict)
  unfolding clear_queue list_once
  disconnected_callback redis_ok a d = some d
  disconnected_callback redis_err a d = elim (clear_queue d.ac.cmd_list d.xc.requests) [
    | none ↦ none
    | some requests ↦ some (record {
      ac = record (d.ac) { cmd_list = [] };
      xc = record (d.xc) { requests = requests; status = disconnecting };
      reconn_list = if d.ac.freed then d.reconn_list else list_once a d.reconn_list;
    })
  ]
