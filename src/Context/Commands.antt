-- ===== src/Context/Commands.antt =====
-- hiredis.c: the calls that send a command and, on a blocking context, wait for its reply.
use multiplexing_hiredis.Common.{ℕ, Bool, Option, none, List, if◌then◌else◌, Bytes}
use multiplexing_hiredis.Common.Outcome.{Outcome, ok, abort, out_of_fuel}
use multiplexing_hiredis.Reader.State.{Status, redis_ok, redis_err, ReplyObjectFunctions}
use multiplexing_hiredis.Format.Vararg.{VarArg}
use multiplexing_hiredis.Context.{
  RedisContext, WriteResult, ReadResult, append_command, v_append_command, append_command_argv,
  get_reply,
}

module _ {Obj Store : Type 0} where
  -- redisAppendFormattedCommand
  unfoldable pub append_formatted_command :
      Bool → Bytes → RedisContext Obj Store → Status × RedisContext Obj Store
  unfolding append_command
  append_formatted_command room cmd c = append_command room cmd c

  module _ (fns : ReplyObjectFunctions Obj Store) (ws : List WriteResult)
      (rs : List ReadResult) where
    -- __redisBlockForReply
    unfoldable pub block_for_reply :
        RedisContext Obj Store → Outcome (Option Obj × RedisContext Obj Store)
    unfolding get_reply
    block_for_reply c =
        if c.flags.block
        then elim (get_reply fns ws rs c) [
          | ok (redis_ok, reply, c') ↦ ok (reply, c')
          | ok (redis_err, _, c') ↦ ok (none, c')
          | abort ↦ abort
          | out_of_fuel ↦ out_of_fuel
        ]
        else ok (none, c)

    -- NULL if the command was not appended, and else what __redisBlockForReply returns
    unfoldable pub if_appended :
        Outcome (Status × RedisContext Obj Store) → Outcome (Option Obj × RedisContext Obj Store)
    unfolding block_for_reply
    if_appended (ok (redis_ok, c)) = block_for_reply c
    if_appended (ok (redis_err, c)) = ok (none, c)
    if_appended abort = abort
    if_appended out_of_fuel = out_of_fuel

    -- redisvCommand and redisCommand
    unfoldable pub v_command :
        (Bytes → ℕ → Bytes)
        → Bool
        → Bytes
        → List VarArg
        → RedisContext Obj Store
        → Outcome (Option Obj × RedisContext Obj Store)
    unfolding v_append_command if_appended
    v_command print room format ap c = if_appended (v_append_command print room format ap c)

    -- redisCommandArgv
    unfoldable pub command_argv :
        Bool
        → List Bytes
        → Option (List ℕ)
        → RedisContext Obj Store
        → Outcome (Option Obj × RedisContext Obj Store)
    unfolding append_command_argv if_appended
    command_argv room argv argvlen c = if_appended (append_command_argv room argv argvlen c)
