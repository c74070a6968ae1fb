-- ===== src/Async/Replies.antt =====
-- redisProcessCallbacks on replies that have arrived whole: each goes to the callback of its command.
use multiplexing_hiredis.Common.{
  ℕ, zero, suc, ◌<◌, ◌≡◌, refl, sym, ap, ◌∙◌, subst, true, false, Option, none, some, List, [], ◌∷◌,
  ◌++◌, Bytes, if◌then◌else◌, length, arith, append_assoc, append-nil,
}
use multiplexing_hiredis.Common.Int.{minus_one}
use multiplexing_hiredis.Common.Outcome.{Outcome, ok, ◌>>=◌}
use multiplexing_hiredis.Reader.State.{Status, redis_ok, created, ReplyObjectFunctions, ReaderState}
use multiplexing_hiredis.Reader.Items.{fresh_task}
use multiplexing_hiredis.Reader.Api
use multiplexing_hiredis.Reader.Build.{IsReadable, built}
use multiplexing_hiredis.Reader.Build.Stream.{Holding, get_reply-Gives, get_reply-Waits}
use multiplexing_hiredis.Context
use multiplexing_hiredis.Context.{Flags, RedisContext, get_reply_from_reader}
use multiplexing_hiredis.Async.State.{
  Callback, DictFunctions, Event, ran, AsyncContext, emit, set_in_callback, shift_callback,
  run_callback,
}
use multiplexing_hiredis.Async.Teardown.{async_free_now}
use multiplexing_hiredis.Async.Events.{
  RedisReply, stop, go_on, no_reply, deliver, one_reply, process_loop, process_callbacks,
}
use multiplexing_hiredis.Resp.{Value, encode}

-- A reply that has arrived, the object that is made of it, and the callback of its command: the
-- number of its function and its private data.
pub record Exchange (Obj : Type 0) : Type 0 where
  pub value : Value
  pub obj : Obj
  pub fn : ℕ
  pub privdata : ℕ

module _ {Obj : Type 0} where
  abbrev pub callback_of : Exchange Obj → Callback
  callback_of e = record { fn = some e.fn; privdata = e.privdata }

  -- The bytes of the replies, one behind the other.
  abbrev pub bytes_of : List (Exchange Obj) → Bytes
  bytes_of [] = []
  bytes_of (e ∷ es) = encode e.value ++ bytes_of es

  abbrev pub callbacks_of : List (Exchange Obj) → List Callback
  callbacks_of [] = []
  callbacks_of (e ∷ es) = callback_of e ∷ callbacks_of es

  -- Each callback is run with its reply, in order.
  abbrev pub events_of : List (Exchange Obj) → List (Event Obj)
  events_of [] = []
  events_of (e ∷ es) = ran (callback_of e) (some e.obj) ∷ events_of es

module _ {Obj Store : Type 0} (fns : ReplyObjectFunctions Obj Store) where
  -- The replies are readable, and the functions make their objects, one after the other.
  unfoldable pub AllBuilt : List (Exchange Obj) → Store → Store → Type 0
  AllBuilt [] store store' = store ≡ store'
  AllBuilt (e ∷ es) store store' =
      IsReadable 0 e.value
      × ((store₁ : Store) × (built fns e.value (fresh_task minus_one) [] store
            ≡ created e.obj store₁)
          × AllBuilt es store₁ store')

-- No teardown and no callback is under way, there is no monitoring, and the context does not block.
pub record Regular (flags : Flags) : Type 0 where
  pub free_to_run : flags.block ≡ false
  pub stays : flags.disconnecting ≡ false
  pub kept : flags.freeing ≡ false
  pub outside : flags.in_callback ≡ false
  pub unmonitored : flags.monitoring ≡ false

module _ {Obj Store Dict : Type 0} where
  -- The context with another reader, other waiting callbacks and another trace.
  abbrev pub with_replies :
      AsyncContext Obj Store Dict
      → ReaderState Obj Store
      → List Callback
      → List (Event Obj)
      → AsyncContext Obj Store Dict
  with_replies ac r replies trace = record ac {
    c = record (ac.c) { reader = r };
    replies = replies;
    trace = trace;
  }

module _ {Obj Store Dict : Type 0} (dict : DictFunctions Dict)
    (fns : ReplyObjectFunctions Obj Store) (inspect : Store → Obj → RedisReply)
    (user : Callback → Option Obj → AsyncContext Obj Store Dict → AsyncContext Obj Store Dict)
    (connected : Status → AsyncContext Obj Store Dict → AsyncContext Obj Store Dict) (drain : ℕ)
    (quiet : (cb : Callback) (o : Option Obj) (ac : AsyncContext Obj Store Dict)
      → user cb o ac ≡ ac) where
  -- The reader's answer as that of redisGetReply.
  get_reply-some :
      (c : RedisContext Obj Store) (obj : Obj) (r : ReaderState Obj Store)
      → Api.get_reply fns c.reader ≡ ok (redis_ok, some obj, r)
      → Context.get_reply fns [] [] c ≡ ok (redis_ok, some obj, record c { reader = r })
  unfolding Context.get_reply get_reply_from_reader
  get_reply-some c obj r e = rw (Context.get_reply, get_reply_from_reader, e) refl

  get_reply-none :
      (c : RedisContext Obj Store) (r : ReaderState Obj Store)
      → c.flags.block ≡ false
      → Api.get_reply fns c.reader ≡ ok (redis_ok, none, r)
      → Context.get_reply fns [] [] c ≡ ok (redis_ok, none, record c { reader = r })
  unfolding Context.get_reply get_reply_from_reader
  get_reply-none c r b e = rw (Context.get_reply, get_reply_from_reader, e, b) refl

  run_callback-quiet :
      (x : Exchange Obj) (obj : Obj) (ac : AsyncContext Obj Store Dict)
      → ac.c.flags.in_callback ≡ false
      → run_callback user (callback_of x) (some obj) ac ≡ emit (ran (callback_of x) (some obj)) ac
  unfolding run_callback
  run_callback-quiet x obj ac h =
      let told = emit (ran (callback_of x) (some obj)) ac in
      ap (set_in_callback false) (quiet (callback_of x) (some obj) (set_in_callback true told))
      ∙ ap (λ b. set_in_callback b told) (sym h)

  -- A callback that waits gets its reply.
  deliver-ran :
      (obj : Obj) (x : Exchange Obj) (ac : AsyncContext Obj Store Dict)
      → Regular ac.c.flags
      → deliver dict fns inspect user connected drain obj (callback_of x) ac
        ≡ ok (go_on (callback_of x) (emit (ran (callback_of x) (some obj)) ac))
  unfolding deliver
  deliver-ran obj x ac g =
      ap
        (λ a.
          if a.c.flags.freeing
          then (async_free_now dict user drain a >>= λ ac'. ok (stop ac'))
          else ok (go_on (callback_of x) a))
        (run_callback-quiet x obj ac g.outside)
      ∙ rw g.kept refl

  -- One round: the first reply goes to the first callback.
  round :
      (fuel : ℕ) (cb : Callback) (x : Exchange Obj) (later : List Callback)
      (ac : AsyncContext Obj Store Dict) (r r' : ReaderState Obj Store) (trace : List (Event Obj))
      → Regular ac.c.flags
      → Api.get_reply fns r ≡ ok (redis_ok, some x.obj, r')
      → process_loop dict fns inspect user connected drain
          (suc fuel)
          cb
          (with_replies ac r (callback_of x ∷ later) trace)
        ≡ process_loop dict fns inspect user connected drain fuel
            (callback_of x)
            (with_replies ac r' later (trace ++ (ran (callback_of x) (some x.obj) ∷ [])))
  unfolding process_loop one_reply shift_callback
  round fuel cb x later ac r r' trace g e =
      let asked = get_reply-some (record (ac.c) { reader = r }) x.obj r' e in
      let told = deliver-ran x.obj x (with_replies ac r' later trace) g in
      rw (process_loop, asked, told) refl

  -- The round without a reply ends the loop.
  last_round :
      (fuel : ℕ) (cb : Callback) (later : List Callback) (ac : AsyncContext Obj Store Dict)
      (r r' : ReaderState Obj Store) (trace : List (Event Obj))
      → Regular ac.c.flags
      → Api.get_reply fns r ≡ ok (redis_ok, none, r')
      → process_loop dict fns inspect user connected drain
          (suc fuel)
          cb
          (with_replies ac r later trace)
        ≡ ok (with_replies ac r' later trace)
  unfolding process_loop no_reply
  last_round fuel cb later ac r r' trace g e =
      let asked = get_reply-none (record (ac.c) { reader = r }) r' g.free_to_run e in
      rw (process_loop, asked, g.stays, g.unmonitored) refl

  -- The replies have met their callbacks: the object of each was handed to the callback of its
  -- command, in order, the callbacks of later commands still wait, and the loop has ended.
  pub record Answered (es : List (Exchange Obj)) (later : List Callback) (store' : Store)
      (ac : AsyncContext Obj Store Dict) (o : Outcome (AsyncContext Obj Store Dict)) : Type 0 where
    pub after : AsyncContext Obj Store Dict
    pub returns : o ≡ ok after
    pub all_events : after.trace ≡ ac.trace ++ events_of es
    pub replies_left : after.replies ≡ later
    pub output_kept : after.c.obuf ≡ ac.c.obuf
    pub flags_kept : after.c.flags ≡ ac.c.flags
    pub all_made : after.c.reader.store ≡ store'

  loop-Answered :
      (es : List (Exchange Obj)) (fuel : ℕ) (cb : Callback) (later : List Callback)
      (ac : AsyncContext Obj Store Dict) (r : ReaderState Obj Store) (trace : List (Event Obj))
      (store store' : Store)
      → Regular ac.c.flags
      → Holding (bytes_of es) store r
      → AllBuilt fns es store store'
      → length es < fuel
      → Answered es later store' (with_replies ac r (callbacks_of es ++ later) trace) (
          process_loop dict fns inspect user connected drain fuel cb
            (with_replies ac r (callbacks_of es ++ later) trace))
  unfolding AllBuilt
  loop-Answered es zero cb later ac r trace store store' g h b f = absurd (omega arith)
  loop-Answered [] (suc fuel) cb later ac r trace store store' g h b f =
      let w = get_reply-Waits fns r store h in
      record {
        after = with_replies ac w.after later trace;
        returns = last_round fuel cb later ac r w.after trace g w.returns;
        all_events = sym (append-nil trace);
        replies_left = refl;
        output_kept = refl;
        flags_kept = refl;
        all_made = w.same_store ∙ h.same_store ∙ b;
      }
  loop-Answered (e ∷ es) (suc fuel) cb later ac r trace store store' g h
        (readable, (store₁, made, b)) f =
      let given = get_reply-Gives fns r e.value (bytes_of es) e.obj store store₁ h readable made in
      let told = trace ++ (ran (callback_of e) (some e.obj) ∷ []) in
      let rest =
        loop-Answered es fuel (callback_of e) later ac given.after told store₁ store' g given.holds
          b (omega arith) in
      record {
        after = rest.after;
        returns =
            round fuel cb e (callbacks_of es ++ later) ac r given.after trace g given.returns
            ∙ rest.returns;
        all_events =
            rest.all_events
            ∙ append_assoc trace (ran (callback_of e) (some e.obj) ∷ []) (events_of es);
        replies_left = rest.replies_left;
        output_kept = rest.output_kept;
        flags_kept = rest.flags_kept;
        all_made = rest.all_made;
      }

  -- Take callbacks that leave the context as it is, as replyCallback does, a context in regular use,
  -- and a reader that holds whole replies, of readable values whose objects the functions make, and
  -- no other bytes; the callbacks of their commands wait first, in the order of the commands. With
  -- fuel for a round more than there are replies, redisProcessCallbacks ends: each reply went to the
  -- callback of its own command, in order, and the callbacks of later commands still wait.
  pub process_callbacks-Answered :
      (fuel : ℕ) (es : List (Exchange Obj)) (later : List Callback)
      (ac : AsyncContext Obj Store Dict) (store store' : Store)
      → Regular ac.c.flags
      → ac.replies ≡ callbacks_of es ++ later
      → Holding (bytes_of es) store ac.c.reader
      → AllBuilt fns es store store'
      → length es < fuel
      → Answered es later store' ac
          (process_callbacks dict fns inspect user connected drain fuel ac)
  unfolding process_callbacks
  process_callbacks-Answered fuel es later ac store store' g e h b f =
      subst
        (λ l. Answered es later store' (with_replies ac ac.c.reader l ac.trace) (
          process_loop dict fns inspect user connected drain fuel
            (record { fn = none; privdata = 0 }) (with_replies ac ac.c.reader l ac.trace)))
        (sym e)
        (loop-Answered es fuel (record { fn = none; privdata = 0 }) later ac ac.c.reader ac.trace
          store store' g h b f)
