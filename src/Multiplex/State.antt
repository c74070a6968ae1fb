-- ===== src/Multiplex/State.antt =====
-- hiredis.h and hiredis.c: xRedisContext, and the first part of __xRedisCommand, which puts a command
-- on the queue of a connection.
use multiplexing_hiredis.Common.{
  ℕ, Bool, true, false, Option, none, some, List, [], ◌∷◌, ◌++◌, if◌then◌else◌, Bytes, length,
  get_elem?, set, ◌-◌, leb,
}
use multiplexing_hiredis.Async.State.{AsyncContext}
use multiplexing_hiredis.Multiplex.Life.{Cell, live, freed}

-- `xc->status`: 0, REDIS_CONNECTED or REDIS_DISCONNECTING.
pub data Connection : Type 0 where
  unconnected : Connection
  connected : Connection
  disconnecting : Connection

abbrev pub is_connected : Connection → Bool
is_connected connected = true
is_connected _ = false

-- A cmdInfo with its command, cut to `len` bytes.
pub record Request (Obj : Type 0) : Type 0 where
  pub cmd : Bytes
  pub info : Cell Obj

-- xRedisContext, with the cmdInfos of its commands: a cmdInfo is named by its place in `requests`.
-- The pipe is not modelled; the mutex is held by every function here that is called for a
-- connection.
pub record XContext (Obj Store Dict : Type 0) : Type 0 where
  pub ctx : Option (AsyncContext Obj Store Dict)
  pub ip : Bytes
  pub port : ℕ
  pub status : Connection
  pub wait_time_reconn : ℕ
  pub remain_wait_reconn : ℕ
  pub requests : List (Request Obj)

-- What becomes of a call for a command before the wait: NULL is returned, or the cmdInfo is queued.
pub data Submitted : Type 0 where
  null_reply : Submitted
  queued_as : ℕ → Submitted

module _ {Obj : Type 0} where
  -- A new cmdInfo: its caller and the queue have a reference.
  abbrev pub new_request : Bytes → Request Obj
  new_request cmd = record {
    cmd = cmd;
    info = live (record { reply = none; reference = 2; posts = 0 });
  }

  -- `__sync_sub_and_fetch(&ci->reference, 1) == 0`, and `free`
  abbrev pub drop_cell : Cell Obj → Option (Cell Obj)
  drop_cell freed = none
  drop_cell (live ci) =
      some (if leb ci.reference 1 then freed else live (record ci { reference = ci.reference - 1 }))

  -- The loop of disconnectedCallback over the queue; `none` where freed memory is used.
  unfoldable pub clear_queue : List ℕ → List (Request Obj) → Option (List (Request Obj))
  clear_queue [] requests = some requests
  clear_queue (a ∷ cmd_list) requests = elim (get_elem? requests a) [
    | none ↦ none
    | some req ↦ elim (drop_cell req.info) [
      | none ↦ none
      | some info ↦ clear_queue cmd_list (set requests a (record req { info = info }))
    ]
  ]

module _ {Obj Store Dict : Type 0} where
  -- `ci->cmd = cmd; ci->len = len`, and `listAddNodeTail(ac->cmd_list,ci)`. `ci->len` is an `int`, as
  -- is the length that the callers of __xRedisCommand give.
  abbrev pub queue_request :
      Bytes
      → AsyncContext Obj Store Dict
      → XContext Obj Store Dict
      → Submitted × XContext Obj Store Dict
  queue_request cmd ac xc = (
    queued_as (length xc.requests),
    record xc {
      ctx = some (record ac { cmd_list = ac.cmd_list ++ (length xc.requests ∷ []) });
      requests = xc.requests ++ (new_request cmd ∷ []);
    },
  )

  -- __xRedisCommand up to the end of its critical section. `stopped` is `client.aeloop->stop`, `seen`
  -- the status that was read before the mutex was taken.
  unfoldable pub submit :
      Bool → Connection → Bytes → XContext Obj Store Dict → Submitted × XContext Obj Store Dict
  submit stopped seen cmd xc =
      if stopped
      then (null_reply, xc)
      else if is_connected seen
      then elim xc.ctx [
        | none ↦ (null_reply, xc)
        | some ac ↦ if is_connected xc.status then queue_request cmd ac xc else (null_reply, xc)
      ]
      else (null_reply, xc)
