-- ===== src/Tests/Replied.antt =====
-- A command that is sent and answered, at a concrete input.
use multiplexing_hiredis.Common.{
  ◌^◌, ◌<◌, length, refl, true, none, List, [], ◌∷◌, ◌++◌, arith, Bytes, codes,
}
use multiplexing_hiredis.Common.Decimal.{print_nat, digits_from, print_int}
use multiplexing_hiredis.Reader.State.{ReplyType, array, null_functions}
use multiplexing_hiredis.Reader.Build.{built}
use multiplexing_hiredis.Resp.{encode_items, encode}
use multiplexing_hiredis.Format.{sized_args, strlen}
use multiplexing_hiredis.Format.Command.{command}
use multiplexing_hiredis.Context.{
  RedisContext, WriteResult, eintr, write_failed, written, received, new_context,
}
use multiplexing_hiredis.Context.Commands.{command_argv}
use multiplexing_hiredis.Context.Replied.{
  Accepts, accepts_all, accepts_part, interrupted, IsReady, Replied, command_argv-Replied,
}
use multiplexing_hiredis.Tests.Built.{pair, pair-IsReadable}

-- LRANGE k 0 1
abbrev lrange : List Bytes
lrange = codes "LRANGE" ∷ codes "k" ∷ codes "0" ∷ codes "1" ∷ []

-- A new blocking context.
abbrev new_blocking : RedisContext ReplyType (Unit {0})
new_blocking = let c = new_context tt in record c { flags = record (c.flags) { block = true } }

new_blocking-IsReady : IsReady tt new_blocking
unfolding new_context
new_blocking-IsReady = record {
  blocking = refl;
  no_failure = refl;
  at_rest = record {
    valid = record { len_of_buf = refl; pos_within = omega arith; small = omega arith };
    fits = omega arith;
    no_failure = refl;
    no_tasks = refl;
    text = refl;
    same_store = refl;
  };
}

-- An interrupted call, a call that takes three bytes, and one that takes the others.
abbrev writes : List WriteResult
writes = write_failed (eintr (codes "signal")) ∷ written 3 ∷ written 34 ∷ []

writes-Accepts : Accepts writes ([] ++ command (sized_args lrange none))
unfolding encode print_nat digits_from print_int sized_args strlen
writes-Accepts =
    interrupted _ _ _ (omega arith) (accepts_part 3 _ _ (omega arith) (accepts_all _ _ _))

lrange_short : length ([] ++ command (sized_args lrange none)) < 2 ^ 31
unfolding encode encode_items print_nat digits_from sized_args strlen
lrange_short = omega arith

command_argv-Replied_example :
    Replied array tt (
      command_argv null_functions writes
        (received (encode pair) ∷ [])
        true
        lrange
        none
        new_blocking)
unfolding new_context built null_functions encode print_nat digits_from print_int
command_argv-Replied_example =
    command_argv-Replied null_functions new_blocking lrange none writes [] tt tt pair array
      new_blocking-IsReady (unfold sized_args strlen in omega arith) writes-Accepts lrange_short
      (omega arith) pair-IsReadable refl
