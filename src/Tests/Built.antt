-- ===== src/Tests/Built.antt =====
-- The round trip of a value at a concrete input.
use multiplexing_hiredis.Common.{◌≡◌, refl, none, some, [], arith, codes}
use multiplexing_hiredis.Common.Decimal.{print_nat, digits_from, print_int}
use multiplexing_hiredis.Common.Int.{pos}
use multiplexing_hiredis.Common.Outcome.{ok}
use multiplexing_hiredis.Reader.State.{
  ReplyType, array, redis_ok, no_error, ReaderState, null_functions,
}
use multiplexing_hiredis.Reader.Api.{get_reply}
use multiplexing_hiredis.Reader.Progress.{IsValid}
use multiplexing_hiredis.Reader.Chunks.{view}
use multiplexing_hiredis.Reader.Build.{IsReadable, built}
use multiplexing_hiredis.Reader.Build.Replies.{get_reply-built}
use multiplexing_hiredis.Resp.{Value, item, no_items, encode}

-- The values "hi" and 5, in an array.
abbrev pub pair : Value
pair = Value.array (item (Value.bulk (codes "hi")) (item (Value.integer (pos 5)) no_items))

-- A reader that has the array, and the beginning of the next reply.
abbrev holding : ReaderState ReplyType (Unit {0})
holding = record {
  err = no_error;
  errstr = [];
  buf = codes "*2\r\n$2\r\nhi\r\n:5\r\n+";
  pos = 0;
  len = 17;
  maxbuf = 16384;
  rstack = [];
  reply = none;
  store = tt;
}

holding-IsValid : IsValid holding
holding-IsValid = record { len_of_buf = refl; pos_within = omega arith; small = omega arith }

pub pair-IsReadable : IsReadable 0 pair
unfolding IsReadable
pair-IsReadable = (omega arith, omega arith, (tt, (omega arith, tt)))

get_reply-built_example :
    view (get_reply null_functions holding)
    ≡ ok (
      redis_ok,
      some array,
      record holding { buf = codes "+"; pos = 0; len = 1; rstack = []; reply = none; store = tt },
    )
unfolding encode built print_nat digits_from print_int null_functions
get_reply-built_example =
    get_reply-built null_functions holding pair (codes "+") array tt holding-IsValid (omega arith)
      refl refl refl pair-IsReadable refl
