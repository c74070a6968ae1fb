-- ===== src/Tests.antt =====
-- Concrete runs of the model, and the theorems at concrete inputs.
mod Callbacks
mod Multiplex
mod Built
mod Connections
mod Objects
mod Sockets
mod Replied
use multiplexing_hiredis.Common.{
  ◌^◌, ℕ, ◌+◌, ◌≤◌, ◌<◌, ◌≡◌, ◌≢◌, refl, true, false, Option, none, some, List, [], ◌∷◌, ◌++◌,
  arith, Bytes, codes, length,
}
use multiplexing_hiredis.Common.Int.{ℤ, pos, minus_one}
use multiplexing_hiredis.Common.Outcome.{Outcome, ok, abort, out_of_fuel}
use multiplexing_hiredis.Common.Decimal.{digits_from, print_nat}
use multiplexing_hiredis.Sds
use multiplexing_hiredis.Reader.State.{
  ReplyType, array, integer, redis_ok, no_error, ReadTask, ReaderState, null_functions,
}
use multiplexing_hiredis.Reader.Scan.{seek_newline, read_long_long}
use multiplexing_hiredis.Reader.Items.{process_item, move_to_next_task, read_bytes, read_line}
use multiplexing_hiredis.Reader.Api.{feed, get_reply}
use multiplexing_hiredis.Reader.Progress.{Advanced, process_item-Advanced}
use multiplexing_hiredis.Reader.Ends.{FinishesReply, get_reply-Finishes}
use multiplexing_hiredis.Reader.Chunks.{view, get_reply-feed}
use multiplexing_hiredis.Format.{
  bulklen, count_digits, sized_args, format_command_argv, format_sds_command_argv, strlen,
}
use multiplexing_hiredis.Format.Digits.{count_digits-length}
use multiplexing_hiredis.Format.Command.{
  command, format_command_argv-encode, format_sds_command_argv_lem,
}
use multiplexing_hiredis.Format.Vararg.{
  VarArg, chars, number, FormatState, format_loop, v_format_command, start_format,
}
use multiplexing_hiredis.Format.Vararg.Spec.{
  arguments, v_format_command-encode, v_format_command-ends,
}
use multiplexing_hiredis.Context.{
  RedisContext, Flags, WriteResult, eagain, write_failed, written, write_until_done, buffer_write,
  append_command_argv,
}
use multiplexing_hiredis.Context.Laws.{
  Flushed, write_until_done-Flushed, append_command_argv-command,
}
use multiplexing_hiredis.Resp.{encode_items, array as array_value, bulks, encode}

abbrev crlf : Bytes
crlf = 13 ∷ 10 ∷ []

abbrev no_tasks : List (ReadTask ReplyType)
no_tasks = []

-- A reader that holds the given bytes and has no reply at hand.
abbrev holding : Bytes → ReaderState ReplyType (Unit {0})
holding s = record {
  err = no_error;
  errstr = [];
  buf = s;
  pos = 0;
  len = length s;
  maxbuf = 16384;
  rstack = no_tasks;
  reply = none;
  store = tt;
}

-- "*2\r\n:1\r\n:", an array of two integers of which the second has not arrived.
abbrev half_array : Bytes
half_array = 42 ∷ 50 ∷ 13 ∷ 10 ∷ 58 ∷ 49 ∷ 13 ∷ 10 ∷ 58 ∷ []

-- The same reader, asked for a reply.
abbrev waiting : ReaderState ReplyType (Unit {0})
waiting = record {
  err = no_error;
  errstr = [];
  buf = half_array;
  pos = 9;
  len = 9;
  maxbuf = 16384;
  rstack =
      record { type = some integer; elements = minus_one; idx = pos 1; obj = none }
      ∷ record { type = some array; elements = pos 2; idx = minus_one; obj = some array }
      ∷ [];
  reply = some array;
  store = tt;
}

waits : get_reply null_functions (holding half_array) ≡ ok (redis_ok, none, waiting)
unfolding get_reply process_item seek_newline read_long_long move_to_next_task null_functions
    read_bytes read_line
waits = refl

get_reply-feed_example :
    view
      (get_reply null_functions (feed null_functions 0 true (some (50 ∷ 13 ∷ 10 ∷ [])) waiting).1)
    ≡ view (
        get_reply null_functions
          (feed null_functions 0 true (some (50 ∷ 13 ∷ 10 ∷ [])) (holding half_array)).1)
get_reply-feed_example =
    get_reply-feed null_functions (holding half_array) waiting 0 0 50 (13 ∷ 10 ∷ []) (omega arith)
      refl (omega arith) (omega arith) waits (omega arith)

get_reply-Finishes_example : FinishesReply 9 (get_reply null_functions (holding half_array))
get_reply-Finishes_example = get_reply-Finishes null_functions (holding half_array) (omega arith)

count_digits-length_example : count_digits 65536 ≡ length (print_nat 65536)
count_digits-length_example = count_digits-length 65536

-- GET key
abbrev get_key : List Bytes
get_key = codes "GET" ∷ codes "key" ∷ []

get_key_short : length (command (sized_args get_key none)) + 1 < 2 ^ 31
unfolding encode encode_items print_nat digits_from sized_args strlen
get_key_short = omega arith

format_command_argv-encode_example :
    format_command_argv true get_key none
    ≡ ok
        (some (command (sized_args get_key none), pos (length (command (sized_args get_key none)))))
format_command_argv-encode_example =
    format_command_argv-encode get_key none (unfold sized_args strlen in omega arith) get_key_short

format_sds_command_argv_lem_example :
    format_sds_command_argv true get_key none ≡ format_command_argv true get_key none
format_sds_command_argv_lem_example =
    format_sds_command_argv_lem true get_key none (unfold sized_args strlen in omega arith)
      get_key_short

-- vsnprintf, where no number is printed
abbrev no_print : Bytes → ℕ → Bytes
no_print format n = []

abbrev get_arg : List VarArg
get_arg = chars (codes "key") ∷ []

-- The end of the loop over "GET %s".
abbrev get_state : FormatState
get_state = record {
  curarg = codes "key";
  touched = true;
  curargv = codes "GET" ∷ [];
  totlen = 9;
  ap = [];
}

get_loop :
    format_loop no_print (length (codes "GET %s")) (codes "GET %s") (start_format no_print get_arg)
    ≡ ok (some get_state)
unfolding format_loop bulklen
get_loop = refl

v_format_command-encode_example :
    v_format_command no_print (codes "GET %s") get_arg
    ≡ ok (
        some (
          encode (array_value (bulks (arguments get_state))),
          length (encode (array_value (bulks (arguments get_state)))),
        ))
v_format_command-encode_example =
    v_format_command-encode no_print (codes "GET %s") get_arg get_state get_loop
      (unfold arguments encode encode_items print_nat digits_from in omega arith)

v_format_command-ends_example : v_format_command no_print (codes "GET %s") get_arg ≢ out_of_fuel
v_format_command-ends_example = v_format_command-ends no_print (codes "GET %s") get_arg

-- A blocking context with "PING" to write.
abbrev blocking : Bytes → RedisContext ReplyType (Unit {0})
blocking s = record {
  err = no_error;
  errstr = [];
  flags = record {
    block = true;
    connected = true;
    disconnecting = false;
    freeing = false;
    in_callback = false;
    subscribed = false;
    monitoring = false;
  };
  obuf = s;
  reader = holding [];
}

abbrev two_writes : List WriteResult
two_writes = written 3 ∷ written 1 ∷ []

two_writes_done :
    write_until_done two_writes (blocking (codes "PING")) ≡ ok (redis_ok, [], blocking [])
unfolding write_until_done Sds.range
two_writes_done = refl

write_until_done-Flushed_example : Flushed two_writes [] (blocking (codes "PING")) (blocking [])
write_until_done-Flushed_example =
    write_until_done-Flushed two_writes [] (blocking (codes "PING")) (blocking []) (omega arith)
      two_writes_done

append_command_argv-command_example :
    append_command_argv true get_key none (blocking [])
    ≡ ok (redis_ok, blocking ([] ++ command (sized_args get_key none)))
append_command_argv-command_example =
    append_command_argv-command get_key none (blocking []) (unfold sized_args strlen in omega arith)
      (omega (arith, get_key_short))
