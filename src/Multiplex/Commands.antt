-- ===== src/Multiplex/Commands.antt =====
-- hiredis.c: xRedisvCommand and xRedisCommandArgv up to the wait for the reply.
pub mod Sent
use multiplexing_hiredis.Common.{ℕ, Bool, Option, none, some, List, Bytes}
use multiplexing_hiredis.Common.Outcome.{Outcome, ok, abort, out_of_fuel, ◌>>=◌}
use multiplexing_hiredis.Common.Int.{ℤ, pos}
use multiplexing_hiredis.Format.{format_sds_command_argv, given}
use multiplexing_hiredis.Format.Vararg.{VarArg, v_format_command}
use multiplexing_hiredis.Multiplex.State.{Connection, XContext, Submitted, submit}

-- A command and its length, which redisvFormatCommand keeps below 2 ^ 31.
abbrev as_int : Option (Bytes × ℕ) → Option (Bytes × ℤ)
as_int (some (cmd, len)) = some (cmd, pos len)
as_int none = none

module _ {Obj Store Dict : Type 0} where
  -- What is done with a formatted command of that length, which the callers keep in an `int` and
  -- `ci->len`, another `int`, holds. Where there is no command the source hands the connection to
  -- __redisSetError, which writes it as another structure: undefined behaviour. With a negative
  -- length taskDeal reads past the end of the command.
  abbrev pub submit_formatted :
      Bool
      → Connection
      → Outcome (Option (Bytes × ℤ))
      → XContext Obj Store Dict
      → Outcome (Submitted × XContext Obj Store Dict)
  submit_formatted stopped seen (ok (some (cmd, len))) xc =
      given cmd len >>= λ bytes. ok (submit stopped seen bytes xc)
  submit_formatted stopped seen (ok none) xc = abort
  submit_formatted stopped seen abort xc = abort
  submit_formatted stopped seen out_of_fuel xc = out_of_fuel

  -- xRedisvCommand, and xRedisCommand, on a connection
  unfoldable pub x_v_command :
      (Bytes → ℕ → Bytes)
      → Bool
      → Connection
      → Bytes
      → List VarArg
      → XContext Obj Store Dict
      → Outcome (Submitted × XContext Obj Store Dict)
  unfolding v_format_command submit
  x_v_command print stopped seen format ap xc =
      let formatted = v_format_command print format ap in
      submit_formatted stopped seen (formatted >>= λ r. ok (as_int r)) xc

  -- xRedisCommandArgv, on a connection
  unfoldable pub x_command_argv :
      Bool
      → Bool
      → Connection
      → List Bytes
      → Option (List ℕ)
      → XContext Obj Store Dict
      → Outcome (Submitted × XContext Obj Store Dict)
  unfolding format_sds_command_argv submit
  x_command_argv room stopped seen argv argvlen xc =
      submit_formatted stopped seen (format_sds_command_argv room argv argvlen) xc
