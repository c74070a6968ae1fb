-- ===== src/Multiplex/Tasks.antt =====
-- hiredis.c: taskDeal, which hands the commands on the queue to the asynchronous context.
pub mod Order
use multiplexing_hiredis.Common.{
  ℕ, suc, ◌-◌, Bool, true, false, Option, none, some, List, [], ◌∷◌, leb, ltb, if◌then◌else◌, Bytes,
  get_elem?,
}
use multiplexing_hiredis.Common.Outcome.{Outcome, ok, abort, out_of_fuel, ◌>>=◌}
use multiplexing_hiredis.Async.State.{AsyncContext, Callback, DictFunctions}
use multiplexing_hiredis.Async.Commands.{async_command}
use multiplexing_hiredis.Multiplex.Life.{Cell, live, freed}
use multiplexing_hiredis.Multiplex.State.{Request, XContext, is_connected}

-- `replyCallback` with a cmdInfo as its private data; NULL is 0.
abbrev pub reply_to : ℕ → Callback
reply_to a = record { fn = some 0; privdata = suc a }

-- The number of bytes that read(2) gives, or 1024 where it gives none.
abbrev pub task_count : Option ℕ → ℕ
task_count none = 1024
task_count (some n) = if ltb n 1 then 1024 else n

module _ {Obj : Type 0} where
  -- The command of a cmdInfo; the use of freed memory ends the process.
  unfoldable pub command_of : List (Request Obj) → ℕ → Outcome Bytes
  command_of requests a = elim (get_elem? requests a) [
    | none ↦ abort
    | some req ↦ elim req.info [ live _ ↦ ok req.cmd | freed ↦ abort ]
  ]

module _ {Obj Store Dict : Type 0} (dict : DictFunctions Dict) where
  -- redisAsyncCommandHelper for one cmdInfo that was taken off the queue; its result is not used.
  unfoldable pub send_task :
      Bool
      → List (Request Obj)
      → ℕ
      → AsyncContext Obj Store Dict
      → Outcome (AsyncContext Obj Store Dict)
  unfolding command_of async_command
  send_task room requests a ac = command_of requests a >>= λ cmd.
      async_command dict room (reply_to a) cmd ac >>= λ (st, ac'). ok ac'

  -- The loop over the queue: at most `get_num` commands.
  unfoldable pub send_tasks :
      Bool
      → List (Request Obj)
      → ℕ
      → List ℕ
      → AsyncContext Obj Store Dict
      → Outcome (AsyncContext Obj Store Dict)
  unfolding send_task
  send_tasks room requests get_num [] ac = ok ac
  send_tasks room requests get_num (a ∷ cmd_list) ac =
      send_task room requests a (record ac { cmd_list = cmd_list }) >>= λ ac'.
      elim (leb get_num 1) [
        | true ↦ ok ac'
        | false ↦ send_tasks room requests (get_num - 1) cmd_list ac'
      ]

  -- taskDeal; `got` is what read(2) gives on the pipe. The context of a connection is not NULL.
  unfoldable pub task_deal :
      Bool → Option ℕ → XContext Obj Store Dict → Outcome (XContext Obj Store Dict)
  unfolding send_tasks
  task_deal room got xc =
      let sent = λ (ac : AsyncContext Obj Store Dict).
        send_tasks room xc.requests (task_count got) ac.cmd_list ac >>= λ ac'.
        ok (record xc { ctx = some ac' }) in
      if is_connected xc.status then elim xc.ctx [ none ↦ abort | some ac ↦ sent ac ] else ok xc
