-- ===== src/Tests/Callbacks.antt =====
-- Concrete runs of the asynchronous context, and its theorems at concrete inputs.
use multiplexing_hiredis.Common.{
  ℕ, ◌≡◌, refl, Bool, true, false, ◌&&◌, Option, none, some, List, [], ◌∷◌, arith, ◌==◌,
  if◌then◌else◌, Bytes, codes,
}
use multiplexing_hiredis.Common.Outcome.{ok}
use multiplexing_hiredis.Reader.State.{ReplyType, no_error}
use multiplexing_hiredis.Async.State.{Callback, DictFunctions, AsyncContext}
use multiplexing_hiredis.Async.Commands.{next_argument}
use multiplexing_hiredis.Async.Teardown.{async_free_now}
use multiplexing_hiredis.Async.State.{add_write}
use multiplexing_hiredis.Async.Commands.{async_command}
use multiplexing_hiredis.Reader.State.{redis_ok}
use multiplexing_hiredis.Common.{◌≢◌}
use multiplexing_hiredis.Common.Outcome.{out_of_fuel}
use multiplexing_hiredis.Async.Ends.{async_command-ends}
use multiplexing_hiredis.Resp.{array, bulks, encode}
use multiplexing_hiredis.Async.Arguments.{walk, walk-encode, AllShort}
use multiplexing_hiredis.Async.Accept.{Answered, async_command-Answered}
use multiplexing_hiredis.Async.Laws.{Freed, async_free_now-Freed}

-- A dictionary as a list.
abbrev pub Entries : Type 0
Entries = List (Bytes × Callback)

abbrev pub same_bytes : Bytes → Bytes → Bool
same_bytes [] [] = true
same_bytes (c ∷ s) (d ∷ t) = c == d && same_bytes s t
same_bytes _ _ = false

abbrev pub find_entry : Bytes → Entries → Option Callback
find_entry name [] = none
find_entry name ((key, cb) ∷ d) = if same_bytes name key then some cb else find_entry name d

abbrev pub delete_entry : Bytes → Entries → Entries
delete_entry name [] = []
delete_entry name ((key, cb) ∷ d) =
    if same_bytes name key then d else (key, cb) ∷ delete_entry name d

abbrev pub entry_values : Entries → List Callback
entry_values [] = []
entry_values ((key, cb) ∷ d) = cb ∷ entry_values d

abbrev pub list_dict : DictFunctions Entries
list_dict = record {
  replace = λ name cb d. (name, cb) ∷ delete_entry name d;
  find = find_entry;
  delete = delete_entry;
  values = entry_values;
}

abbrev pub callback : ℕ → Callback
callback n = record { fn = some n; privdata = 0 }

-- A connected context on which two commands wait, and one channel has a callback.
abbrev pub waiting_context : AsyncContext ReplyType (Unit {0}) Entries
waiting_context = record {
  c = record {
    err = no_error;
    errstr = [];
    flags = record {
      block = false;
      connected = true;
      disconnecting = true;
      freeing = true;
      in_callback = false;
      subscribed = true;
      monitoring = false;
    };
    obuf = [];
    reader = record {
      err = no_error;
      errstr = [];
      buf = [];
      pos = 0;
      len = 0;
      maxbuf = 16384;
      rstack = [];
      reply = none;
      store = tt;
    };
  };
  err = no_error;
  errstr = [];
  on_connect = true;
  on_disconnect = true;
  replies = callback 1 ∷ callback 2 ∷ [];
  invalid = callback 3 ∷ [];
  channels = some ((codes "news", callback 4) ∷ []);
  patterns = some [];
  cmd_list = [];
  freed = false;
  trace = [];
}

abbrev pub leave_alone :
    Callback
    → Option ReplyType
    → AsyncContext ReplyType (Unit {0}) Entries
    → AsyncContext ReplyType (Unit {0}) Entries
leave_alone cb reply ac = ac

async_free_now-Freed_example :
    Freed list_dict leave_alone
      (λ cb o ac. refl)
      ((codes "news", callback 4) ∷ [])
      []
      waiting_context
      (async_free_now list_dict leave_alone 3 waiting_context)
async_free_now-Freed_example =
    async_free_now-Freed list_dict leave_alone (λ cb o ac. refl) 3 ((codes "news", callback 4) ∷ [])
      [] waiting_context (omega arith) (omega arith) refl refl

-- "PING", as a formatted command
abbrev pub ping : Bytes
ping = codes "*1\r\n$4\r\nPING\r\n"

ping_argument :
    next_argument ping ≡ ok (some (record { str = codes "PING\r\n"; len = 4; next = [] }))
unfolding next_argument
ping_argument = refl

-- A connected context on which nothing waits, before and after a PING.
abbrev pub idle_context : AsyncContext ReplyType (Unit {0}) Entries
idle_context = record waiting_context {
  c = record (waiting_context.c) {
    flags = record (waiting_context.c.flags) {
      disconnecting = false;
      freeing = false;
      subscribed = false;
    };
  };
  replies = [];
  invalid = [];
}

abbrev pinged : AsyncContext ReplyType (Unit {0}) Entries
pinged = record idle_context {
  c = record (idle_context.c) { obuf = ping };
  replies = callback 1 ∷ [];
  trace = add_write ∷ [];
}

ping_runs : async_command list_dict true (callback 1) ping idle_context ≡ ok (redis_ok, pinged)
unfolding async_command next_argument
ping_runs = refl

async_command-Answered_example : Answered list_dict (callback 1) ping idle_context redis_ok pinged
async_command-Answered_example =
    async_command-Answered list_dict (callback 1) ping idle_context pinged redis_ok ping_runs

async_command-ends_example :
    async_command list_dict true (callback 1) ping idle_context ≢ out_of_fuel
async_command-ends_example = async_command-ends list_dict true (callback 1) ping idle_context

-- "SUBSCRIBE news sports", read back.
abbrev subscribe_args : List Bytes
subscribe_args = codes "SUBSCRIBE" ∷ codes "news" ∷ codes "sports" ∷ []

subscribe_args-AllShort : AllShort subscribe_args
unfolding AllShort
subscribe_args-AllShort = omega arith

walk-encode_example : walk 4 (encode (array (bulks subscribe_args))) ≡ ok subscribe_args
walk-encode_example = walk-encode subscribe_args subscribe_args-AllShort
