-- ===== src/Reader/Build/Replies.antt =====
-- The reply that the reader gives for a value that was written.
use multiplexing_hiredis.Common.{
  ℕ, zero, suc, ◌+◌, ◌-◌, ◌^◌, ◌<◌, ◌≡◌, refl, sym, ap, ◌∙◌, inl, inr, false, none, some, [], ◌∷◌,
  ◌++◌, Bytes, length, drop, arith, if◌then◌else◌, ◌==◌, List-cases,
}
use multiplexing_hiredis.Common.Int.{minus_one}
use multiplexing_hiredis.Common.Outcome.{ok, ◌>>=◌}
use multiplexing_hiredis.Reader.State.{
  is_error, Status, redis_ok, redis_err, created, ReplyObjectFunctions, ReaderState,
}
use multiplexing_hiredis.Reader.Items.{
  fresh_task, process_item, process_items, process_task, move_to_next_task,
}
use multiplexing_hiredis.Reader.Api.{start_reply, after_items, emit_reply, get_reply}
use multiplexing_hiredis.Reader.Progress.{IsValid, process_item-Advanced}
use multiplexing_hiredis.Reader.Ends.{Advanced-IsValid}
use multiplexing_hiredis.Reader.Chunks.{unread, view, view-after_items, get_reply-loop}
use multiplexing_hiredis.Reader.Build.{IsReadable, built}
use multiplexing_hiredis.Reader.Build.Steps.{at, Text, Text-length, Text-append}
use multiplexing_hiredis.Reader.Build.Values.{Reads, Runs, done, next}
use multiplexing_hiredis.Reader.Build.Values.Arrays.{reads}
use multiplexing_hiredis.Resp.{Value, encode}

length-encode : (v : Value) → 0 < length (encode v)
unfolding encode
length-encode (Value.status s) = omega arith
length-encode (Value.error s) = omega arith
length-encode (Value.integer n) = omega arith
length-encode (Value.bulk s) = omega arith
length-encode Value.nil_bulk = omega arith
length-encode Value.nil_array = omega arith
length-encode (Value.array vs) = omega arith

module _ {Obj Store : Type 0} (fns : ReplyObjectFunctions Obj Store) where
  -- There is no item without a task.
  no_item :
      (r r' : ReaderState Obj Store) (st : Status)
      → r.rstack ≡ []
      → process_item fns r ≡ ok (st, r')
      → ⊥
  unfolding process_item process_task
  no_item r r' st e step = ground (arith, sym step ∙ ap (λ tasks. process_task fns tasks r) e)

  -- The loop over items goes through such a run and stops with the stack.
  Runs-process_items :
      (f : ℕ) (r r' : ReaderState Obj Store)
      → IsValid r
      → Runs fns r r'
      → r'.rstack ≡ []
      → r.len < r.pos + f
      → process_items fns f r ≡ ok r'
  unfolding process_items
  Runs-process_items zero r r' v w e h = absurd (omega (arith, v.pos_within))
  Runs-process_items (suc f) r _ v done e h = rw (process_items, e) refl
  Runs-process_items (suc f) r r' v (next {r₁} step w) e h = elim (List-cases r.rstack) [
    | inl none_left ↦ absurd (no_item r r₁ redis_ok none_left step)
    | inr (t, ts, some_left) ↦
        let a = process_item-Advanced fns r r₁ v step in
        let some_tasks : (length r.rstack == 0) ≡ false = rw some_left (ground arith) in
        rw (process_items, some_tasks, step)
          (Runs-process_items f r₁ r' (Advanced-IsValid fns r r₁ v a) w e
            (omega (arith, a.same_len, a.further)))
  ]

  -- Take a valid reader of fewer than 2 ^ 31 bytes without an error and without tasks, whose unread
  -- bytes are a readable value and others, and functions that make all objects of the value. Then a
  -- call for a reply gives the value's object, with the objects made in the order of `built`; the
  -- value's bytes are consumed, the others are left, and no task is.
  pub get_reply-built :
      (r : ReaderState Obj Store) (v : Value) (rest : Bytes) (obj : Obj) (store' : Store)
      → IsValid r
      → r.len < 2 ^ 31
      → is_error r.err ≡ false
      → r.rstack ≡ []
      → drop r.pos r.buf ≡ encode v ++ rest
      → IsReadable 0 v
      → built fns v (fresh_task minus_one) [] r.store ≡ created obj store'
      → view (get_reply fns r)
        ≡ ok (
          redis_ok,
          some obj,
          record r {
            buf = rest;
            pos = 0;
            len = length rest;
            rstack = [];
            reply = none;
            store = store';
          },
        )
  unfolding start_reply move_to_next_task Reads emit_reply
  get_reply-built r v rest obj store' valid fits no_failure empty text readable made =
      let p = r.pos in
      let q = p + length (encode v) in
      let w : Text r p (encode v ++ rest) = record {
        len_of_buf = valid.len_of_buf;
        small = valid.small;
        within = valid.pos_within;
        text = text;
      } in
      let w' = Text-append p (encode v) rest w in
      let total = Text-length q rest w' in
      let more = length-encode v in
      let runs =
        reads fns v r p rest (fresh_task minus_one) [] readable w refl r.reply r.store store' obj []
          made refl in
      let started : start_reply r ≡ at r p (fresh_task minus_one ∷ []) r.reply r.store =
        rw (start_reply, empty) refl in
      let ended = at r q [] (some obj) store' in
      let started-IsValid : IsValid (at r p (fresh_task minus_one ∷ []) r.reply r.store) = record {
        len_of_buf = valid.len_of_buf;
        pos_within = valid.pos_within;
        small = valid.small;
      } in
      let ended-IsValid : IsValid ended = record {
        len_of_buf = valid.len_of_buf;
        pos_within = w'.within;
        small = valid.small;
      } in
      ap view (
        get_reply-loop fns r (r.len + 1) valid no_failure (omega arith) (omega arith)
        ∙ ap (λ s. process_items fns (r.len + 1) s >>= λ s'. ok (after_items s')) started
        ∙ ap (λ o. o >>= λ s'. ok (after_items s'))
            (Runs-process_items (r.len + 1) (at r p (fresh_task minus_one ∷ []) r.reply r.store)
              ended started-IsValid runs refl (omega arith)))
      ∙ view-after_items ended ended-IsValid fits
      ∙ ap
          (λ flag. ok (
            if flag
            then (redis_err, none, unread ended)
            else (redis_ok, some obj, record (unread ended) { reply = none })))
          no_failure
      ∙ ap
          (λ (b : Bytes).
            ok (
              redis_ok,
              some obj,
              record (unread ended) { buf = b; len = r.len - q; reply = none },
            ))
          w'.text
      ∙ ap
          (λ n.
            ok (redis_ok, some obj, record (unread ended) { buf = rest; len = n; reply = none }))
          (omega arith)
