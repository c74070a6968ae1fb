-- ===== src/Reader/Build/Stream.antt =====
-- Replies that stand one behind the other in the buffer.
use multiplexing_hiredis.Common.{
  ℕ, ◌^◌, ◌≡◌, ◌≤◌, ◌<◌, ◌⊎◌, refl, ap, ◌∙◌, false, Option, none, some, [], ◌∷◌, ◌++◌, Bytes, suc,
  ◌==◌, inl, inr, Bool-cases, length, drop, arith, length-drop,
}
use multiplexing_hiredis.Common.Int.{minus_one}
use multiplexing_hiredis.Common.Outcome.{Outcome, ok, ◌>>=◌}
use multiplexing_hiredis.Sds.{length-range}
use multiplexing_hiredis.Reader.State.{
  is_error, Status, redis_ok, redis_err, created, ReplyObjectFunctions, ReaderState,
}
use multiplexing_hiredis.Reader.Items.{
  fresh_task, read_bytes, process_item, process_items, process_task, next_item,
}
use multiplexing_hiredis.Reader.Api.{
  start_reply, discard_consumed, after_items, emit_reply, get_reply,
}
use multiplexing_hiredis.Reader.Progress.{IsValid}
use multiplexing_hiredis.Reader.Ends.{FinishesReply, get_reply-Finishes}
use multiplexing_hiredis.Reader.Chunks.{view, get_reply-loop}
use multiplexing_hiredis.Reader.Build.{IsReadable, built}
use multiplexing_hiredis.Reader.Build.Replies.{get_reply-built}
use multiplexing_hiredis.Resp.{Value, encode}

-- A valid reader of fewer than 2 ^ 31 bytes, without an error and without tasks, whose unread bytes
-- are `s`.
pub record Holding {Obj Store : Type 0} (s : Bytes) (store : Store) (r : ReaderState Obj Store)
    : Type 0 where
  pub valid : IsValid r
  pub fits : r.len < 2 ^ 31
  pub no_failure : is_error r.err ≡ false
  pub no_tasks : r.rstack ≡ []
  pub text : drop r.pos r.buf ≡ s
  pub same_store : r.store ≡ store

abbrev Result : Type 0 → Type 0 → Type 0
Result Obj Store = Outcome (Status × Option Obj × ReaderState Obj Store)

module _ {Obj Store : Type 0} where
  abbrev status_of : Result Obj Store → Status
  status_of (ok (st, reply, r)) = st
  status_of _ = redis_err

  abbrev reply_of : Result Obj Store → Option Obj
  reply_of (ok (st, reply, r)) = reply
  reply_of _ = none

  abbrev reader_of : ReaderState Obj Store → Result Obj Store → ReaderState Obj Store
  reader_of d (ok (st, reply, r)) = r
  reader_of d _ = d

module _ {Obj Store : Type 0} (fns : ReplyObjectFunctions Obj Store) where
  -- A call gives `obj`, and the reader then holds `rest`.
  pub record Gives (obj : Obj) (rest : Bytes) (store : Store)
      (o : Outcome (Status × Option Obj × ReaderState Obj Store)) : Type 0 where
    pub after : ReaderState Obj Store
    pub returns : o ≡ ok (redis_ok, some obj, after)
    pub holds : Holding rest store after

  pub given :
      {n : ℕ} (o : Outcome (Status × Option Obj × ReaderState Obj Store))
      (r : ReaderState Obj Store) (obj : Obj) (rest : Bytes) (store : Store)
      → FinishesReply n o
      → n < 2 ^ 31
      → is_error r.err ≡ false
      → view o
        ≡ ok (
          redis_ok,
          some obj,
          record r {
            buf = rest;
            pos = 0;
            len = length rest;
            rstack = [];
            reply = none;
            store = store;
          },
        )
      → Gives obj rest store o
  given _ r obj rest store (FinishesReply.finished {t} v l) f e p =
      let (st, reply, r') = t in
      let same = ap (reader_of r') p in
      record {
        after = r';
        returns =
            ap (λ s. ok (s, reply, r')) (ap status_of p)
            ∙ ap (λ s. ok (redis_ok, s, r')) (ap reply_of p);
        holds = record {
          valid = v;
          fits = omega (arith, l, f);
          no_failure = ap (λ x. is_error x.err) same ∙ e;
          no_tasks = ap (λ x. x.rstack) same;
          text = ap (λ x. x.buf) same;
          same_store = ap (λ x. x.store) same;
        };
      }
  given _ r obj rest store FinishesReply.aborted f e p = absurd (ground arith)

  pub get_reply-Gives :
      (r : ReaderState Obj Store) (v : Value) (rest : Bytes) (obj : Obj) (store store' : Store)
      → Holding (encode v ++ rest) store r
      → IsReadable 0 v
      → built fns v (fresh_task minus_one) [] store ≡ created obj store'
      → Gives obj rest store' (get_reply fns r)
  get_reply-Gives r v rest obj store store' h readable made =
      given (get_reply fns r) r obj rest store' (get_reply-Finishes fns r h.valid) h.fits
        h.no_failure
        (get_reply-built fns r v rest obj store' h.valid h.fits h.no_failure h.no_tasks h.text
          readable (ap (built fns v (fresh_task minus_one) []) h.same_store ∙ made))

  -- A call on a reader without unread bytes.
  pub record Waits (r : ReaderState Obj Store)
      (o : Outcome (Status × Option Obj × ReaderState Obj Store)) : Type 0 where
    pub after : ReaderState Obj Store
    pub returns : o ≡ ok (redis_ok, none, after)
    pub same_store : after.store ≡ r.store
    pub no_longer : after.len ≤ r.len
    pub asked : (after ≡ r) ⊎ ((0 < r.len) × (0 < length after.rstack))

  no_bytes : (r : ReaderState Obj Store) → IsValid r → drop r.pos r.buf ≡ [] → read_bytes r 1 ≡ none
  unfolding read_bytes
  no_bytes r v e = ground (arith, ap length e, length-drop r.pos r.buf)

  process_item-starved :
      (r : ReaderState Obj Store)
      → read_bytes r 1 ≡ none
      → process_task fns (fresh_task minus_one ∷ []) r ≡ ok (redis_err, r)
  unfolding process_task
  process_item-starved r e = rw (process_task, e) refl

  -- The end of a call that has put a task on the stack and found no bytes.
  record Emptied (r : ReaderState Obj Store)
      (o : Outcome (Status × Option Obj × ReaderState Obj Store)) : Type 0 where
    after : ReaderState Obj Store
    returns : o ≡ ok (redis_ok, none, after)
    same_store : after.store ≡ r.store
    no_longer : after.len ≤ r.len
    asked_stack : 0 < length after.rstack

  emptied :
      (r : ReaderState Obj Store)
      → IsValid r
      → is_error r.err ≡ false
      → length r.rstack ≡ 1
      → Emptied r (ok (after_items r))
  unfolding after_items discard_consumed emit_reply
  emptied r v e n = record {
    after = discard_consumed r;
    returns = ground arith;
    same_store = ground arith;
    no_longer = ground (arith, length-range r.buf r.pos, length-drop r.pos r.buf, v.len_of_buf);
    asked_stack = ground arith;
  }

  pub get_reply-Waits :
      (r : ReaderState Obj Store) (store : Store) → Holding [] store r → Waits r (get_reply fns r)
  unfolding get_reply start_reply process_item process_items
  get_reply-Waits r store h = elim (Bool-cases (r.len == 0)) [
    | inl z ↦
        rw (get_reply, h.no_failure, z)
          (record {
            after = r;
            returns = refl;
            same_store = refl;
            no_longer = omega arith;
            asked = inl refl;
          })
    | inr z ↦
        let s : ReaderState Obj Store = record r { rstack = fresh_task minus_one ∷ [] } in
        let started : start_reply r ≡ s = rw (start_reply, h.no_tasks) refl in
        let valid : IsValid s = record {
          len_of_buf = h.valid.len_of_buf;
          pos_within = h.valid.pos_within;
          small = h.valid.small;
        } in
        let starved = process_item-starved s (no_bytes s valid h.text) in
        let run : get_reply fns r ≡ ok (after_items s) =
          get_reply-loop fns r (suc r.len) h.valid h.no_failure (ground arith) (omega arith)
          ∙ ap (λ x. process_items fns (suc r.len) x >>= λ x'. ok (after_items x')) started
          ∙ ap (λ o. next_item fns (process_items fns r.len) o >>= λ x'. ok (after_items x'))
              starved in
        let w = emptied s valid h.no_failure refl in
        record {
          after = w.after;
          returns = run ∙ w.returns;
          same_store = w.same_store;
          no_longer = w.no_longer;
          asked = inr (ground arith, w.asked_stack);
        }
  ]
