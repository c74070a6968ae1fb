-- ===== src/Tests/Objects.antt =====
-- Reply objects on a heap, and replies that meet their callbacks, at concrete inputs.
use multiplexing_hiredis.Common.{
  ℕ, ◌≡◌, refl, true, false, some, none, [], ◌∷◌, ◌++◌, List, arith, codes,
}
use multiplexing_hiredis.Common.Int.{pos}
use multiplexing_hiredis.Common.Decimal.{print_nat, digits_from, print_int}
use multiplexing_hiredis.Common.Outcome.{ok}
use multiplexing_hiredis.Reader.State.{
  ReplyType, status, integer, redis_ok, no_error, ReaderState, null_functions,
}
use multiplexing_hiredis.Reader.Api.{get_reply}
use multiplexing_hiredis.Reader.Progress.{IsValid}
use multiplexing_hiredis.Reader.Chunks.{view}
use multiplexing_hiredis.Reader.Build.{IsReadable, built}
use multiplexing_hiredis.Reader.Build.Stream.{Holding}
use multiplexing_hiredis.Replies.{Heap, default_functions}
use multiplexing_hiredis.Replies.Layout.{size, layout}
use multiplexing_hiredis.Replies.Make.{heap}
use multiplexing_hiredis.Replies.Release.{empty_places, free_object-layout}
use multiplexing_hiredis.Replies.Whole.{get_reply-layout}
use multiplexing_hiredis.Async.State.{AsyncContext}
use multiplexing_hiredis.Async.Events.{RedisReply, process_callbacks}
use multiplexing_hiredis.Async.Replies.{
  Exchange, bytes_of, AllBuilt, Regular, Answered, process_callbacks-Answered,
}
use multiplexing_hiredis.Resp.{Value, encode}
use multiplexing_hiredis.Tests.Built.{pair, pair-IsReadable}
use multiplexing_hiredis.Tests.Callbacks.{Entries, list_dict, idle_context, leave_alone, callback}

-- A reader with an empty heap that has the array, and the beginning of the next reply.
abbrev on_heap : ReaderState ℕ Heap
on_heap = record {
  err = no_error;
  errstr = [];
  buf = codes "*2\r\n$2\r\nhi\r\n:5\r\n+";
  pos = 0;
  len = 17;
  maxbuf = 16384;
  rstack = [];
  reply = none;
  store = heap [] false;
}

on_heap-IsValid : IsValid on_heap
on_heap-IsValid = record { len_of_buf = refl; pos_within = omega arith; small = omega arith }

get_reply-layout_example :
    view (get_reply (default_functions true true) on_heap)
    ≡ ok (
      redis_ok,
      some 0,
      record on_heap {
        buf = codes "+";
        pos = 0;
        len = 1;
        rstack = [];
        reply = none;
        store = heap (layout 0 pair) false;
      },
    )
unfolding encode print_nat digits_from print_int
get_reply-layout_example =
    get_reply-layout on_heap pair (codes "+") on_heap-IsValid (omega arith) refl refl refl
      pair-IsReadable

free_object-layout_example :
    (default_functions true true).free_object 0 (heap (layout 0 pair ++ []) false)
    ≡ heap (empty_places (size pair) ++ []) false
free_object-layout_example = free_object-layout pair [] [] false

-- "OK" for the first command and 5 for the second.
abbrev answers : List (Exchange ReplyType)
answers =
    record { value = Value.status (codes "OK"); obj = status; fn = 1; privdata = 0 }
    ∷ record { value = Value.integer (pos 5); obj = integer; fn = 2; privdata = 0 }
    ∷ []

-- A context on which three commands wait, with the replies to the first two.
abbrev answered : AsyncContext ReplyType (Unit {0}) Entries
answered = record idle_context {
  c = record (idle_context.c) {
    reader = record (idle_context.c.reader) { buf = codes "+OK\r\n:5\r\n"; len = 9 };
  };
  replies = callback 1 ∷ callback 2 ∷ callback 3 ∷ [];
}

abbrev no_elements : Unit {0} → ReplyType → RedisReply
no_elements store t = record {
  own = record { type = t; str = []; integer_value = pos 0 };
  element = [];
}

answered-Regular : Regular answered.c.flags
answered-Regular = record {
  free_to_run = refl;
  stays = refl;
  kept = refl;
  outside = refl;
  unmonitored = refl;
}

answered-Holding : Holding (bytes_of answers) tt answered.c.reader
unfolding encode print_nat digits_from print_int
answered-Holding = record {
  valid = record { len_of_buf = refl; pos_within = omega arith; small = omega arith };
  fits = omega arith;
  no_failure = refl;
  no_tasks = refl;
  text = refl;
  same_store = refl;
}

answers-AllBuilt : AllBuilt null_functions answers tt tt
unfolding AllBuilt built IsReadable null_functions
answers-AllBuilt = ((omega arith, (omega arith, tt)), (tt, refl, (omega arith, (tt, refl, refl))))

process_callbacks-Answered_example :
    Answered list_dict null_functions no_elements leave_alone
      (λ st ac. ac)
      0
      (λ cb o ac. refl)
      answers
      (callback 3 ∷ [])
      tt
      answered
      (process_callbacks list_dict null_functions no_elements leave_alone
        (λ st ac. ac)
        0
        3
        answered)
process_callbacks-Answered_example =
    process_callbacks-Answered list_dict null_functions no_elements leave_alone (λ st ac. ac) 0
      (λ cb o ac. refl) 3 answers (callback 3 ∷ []) answered tt tt answered-Regular refl
      answered-Holding answers-AllBuilt (omega arith)
