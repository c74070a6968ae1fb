-- ===== src/Replies/Whole.antt =====
-- The reader with the default functions: the objects that it makes of a value that was written.
use multiplexing_hiredis.Common.{
  ◌<◌, ◌^◌, ◌≡◌, false, true, some, none, [], ◌++◌, Bytes, length, drop,
}
use multiplexing_hiredis.Common.Outcome.{ok}
use multiplexing_hiredis.Reader.State.{is_error, redis_ok, ReaderState}
use multiplexing_hiredis.Reader.Api.{get_reply}
use multiplexing_hiredis.Reader.Progress.{IsValid}
use multiplexing_hiredis.Reader.Chunks.{view}
use multiplexing_hiredis.Reader.Build.{IsReadable}
use multiplexing_hiredis.Reader.Build.Replies.{get_reply-built}
use multiplexing_hiredis.Replies.{Heap, default_functions}
use multiplexing_hiredis.Replies.Layout.{layout}
use multiplexing_hiredis.Replies.Make.{built-layout}
use multiplexing_hiredis.Resp.{Value, encode}
use multiplexing_hiredis.Common.{ℕ}

-- Take a valid reader of fewer than 2 ^ 31 bytes without an error and without tasks, with the
-- default functions and memory, whose unread bytes are a readable value and others. Then a call for
-- a reply gives an object at the end of the heap, from where on the objects of the value lie; the
-- objects before them are as they were, the bytes behind the value are left, and no task is.
pub get_reply-layout :
    (r : ReaderState ℕ Heap) (v : Value) (rest : Bytes)
    → IsValid r
    → r.len < 2 ^ 31
    → is_error r.err ≡ false
    → r.rstack ≡ []
    → drop r.pos r.buf ≡ encode v ++ rest
    → IsReadable 0 v
    → view (get_reply (default_functions true true) r)
      ≡ ok (
        redis_ok,
        some (length r.store.objects),
        record r {
          buf = rest;
          pos = 0;
          len = length rest;
          rstack = [];
          reply = none;
          store = record (r.store) {
            objects = r.store.objects ++ layout (length r.store.objects) v;
          };
        },
      )
get_reply-layout r v rest valid fits no_failure empty text readable =
    get_reply-built (default_functions true true) r v rest (length r.store.objects)
      (record (r.store) { objects = r.store.objects ++ layout (length r.store.objects) v }) valid
      fits no_failure empty text readable (built-layout v r.store.objects r.store.broken)
