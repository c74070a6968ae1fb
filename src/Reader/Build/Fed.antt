-- ===== src/Reader/Build/Fed.antt =====
-- A reply that is fed to a reader that was asked for it before: redisReaderFeed between two calls of
-- redisReaderGetReply.
use multiplexing_hiredis.Common.{
  ℕ, ◌≡◌, ◌<◌, ◌+◌, ◌^◌, inl, inr, refl, sym, ap, ◌∙◌, subst, false, true, none, some, [], ◌∷◌,
  ◌++◌, Bytes, append-nil, length, drop, arith, length-append,
}
use multiplexing_hiredis.Common.Int.{minus_one}
use multiplexing_hiredis.Common.Outcome.{ok}
use multiplexing_hiredis.Reader.State.{
  is_error, Status, redis_ok, created, ReplyObjectFunctions, ReaderState,
}
use multiplexing_hiredis.Reader.Items.{fresh_task}
use multiplexing_hiredis.Reader.Api.{feed, get_reply}
use multiplexing_hiredis.Reader.Carry.{extend, drop-extend}
use multiplexing_hiredis.Reader.Progress.{IsValid}
use multiplexing_hiredis.Reader.Ends.{get_reply-Finishes}
use multiplexing_hiredis.Reader.Chunks.{
  view, feed-extend, unfinished-IsValid, unfinished_no_failure, get_reply-feed,
}
use multiplexing_hiredis.Reader.Build.{IsReadable, built}
use multiplexing_hiredis.Reader.Build.Replies.{get_reply-built}
use multiplexing_hiredis.Reader.Build.Stream.{Holding, Gives, given, get_reply-Waits}
use multiplexing_hiredis.Resp.{Value, encode}

module _ {Obj Store : Type 0} where
  extend-IsValid :
      (b : Bytes) (r : ReaderState Obj Store)
      → IsValid r
      → r.len + length b < 2 ^ 31
      → IsValid (extend 0 b r)
  extend-IsValid b r v f = record {
    len_of_buf = omega (arith, v.len_of_buf, length-append r.buf b);
    pos_within = omega (arith, v.pos_within);
    small = omega arith;
  }

  -- Bytes that are added to a reader that has read all others are what it holds.
  extend-Holding :
      (b : Bytes) (store : Store) (r : ReaderState Obj Store)
      → Holding [] store r
      → r.len + length b < 2 ^ 31
      → Holding b store (extend 0 b r)
  extend-Holding b store r h f = record {
    valid = extend-IsValid b r h.valid f;
    fits = omega arith;
    no_failure = h.no_failure;
    no_tasks = h.no_tasks;
    text =
        drop-extend 0 b r
          (record { valid = h.valid; no_failure = h.no_failure; fits = f; passed = omega arith })
        ∙ ap (λ s. s ++ b) h.text;
    same_store = h.same_store;
  }

module _ {Obj Store : Type 0} (fns : ReplyObjectFunctions Obj Store) where
  -- A reply that is fed, and asked for.
  pub record Fed (obj : Obj) (store : Store) (o : Status × ReaderState Obj Store) : Type 0 where
    pub taken : o.0 ≡ redis_ok
    pub gives : Gives fns obj [] store (get_reply fns o.1)

  Fed-extend :
      (obj : Obj) (store : Store) (r : ReaderState Obj Store) (x : ℕ) (s : Bytes)
      → IsValid r
      → is_error r.err ≡ false
      → Gives fns obj [] store (get_reply fns (extend 0 (x ∷ s) r))
      → Fed obj store (feed fns 0 true (some (x ∷ s)) r)
  Fed-extend obj store r x s v e g =
      rw (feed-extend fns 0 x s r v e) (record { taken = refl; gives = g })

  -- What a call gives after the wait, and what it gives without one.
  get_reply-waited :
      (r a : ReaderState Obj Store) (x : ℕ) (s : Bytes)
      → IsValid r
      → is_error r.err ≡ false
      → 0 < r.len
      → r.len + length (x ∷ s) < 2 ^ 31
      → get_reply fns r ≡ ok (redis_ok, none, a)
      → 0 < length a.rstack
      → view (get_reply fns (extend 0 (x ∷ s) a)) ≡ view (get_reply fns (extend 0 (x ∷ s) r))
  get_reply-waited r a x s v e p f run q =
      let va = unfinished-IsValid fns r a v run in
      let ea = unfinished_no_failure fns r a v e p run q in
      sym (ap (λ o. view (get_reply fns o.1)) (feed-extend fns 0 x s a va ea))
      ∙ get_reply-feed fns r a 0 0 x s v e p f run q
      ∙ ap (λ o. view (get_reply fns o.1)) (feed-extend fns 0 x s r v e)

  -- The reader has waited for a reply, and then the reply is fed.
  pub feed-Fed :
      (r : ReaderState Obj Store) (store store' : Store) (v : Value) (obj : Obj) (x : ℕ) (s : Bytes)
      (h : Holding [] store r)
      → encode v ≡ x ∷ s
      → r.len + length (x ∷ s) < 2 ^ 31
      → IsReadable 0 v
      → built fns v (fresh_task minus_one) [] store ≡ created obj store'
      → Fed obj store' (feed fns 0 true (some (x ∷ s)) ((get_reply-Waits fns r store h).after))
  feed-Fed r store store' v obj x s h e f readable made =
      let w = get_reply-Waits fns r store h in
      let b = x ∷ s in
      let r' = extend 0 b r in
      let h' = extend-Holding b store r h f in
      let text : drop r'.pos r'.buf ≡ encode v ++ [] = h'.text ∙ sym (append-nil (encode v) ∙ e) in
      let made' : built fns v (fresh_task minus_one) [] r'.store ≡ created obj store' =
        ap (built fns v (fresh_task minus_one) []) h.same_store ∙ made in
      let direct =
        get_reply-built fns r' v [] obj store' h'.valid h'.fits h'.no_failure h'.no_tasks text
          readable made' in
      elim w.asked [
        | inl same ↦
            subst (λ q. Fed obj store' (feed fns 0 true (some b) q)) (sym same)
              (Fed-extend obj store' r x s h.valid h.no_failure (
                given fns (get_reply fns r') r' obj [] store' (get_reply-Finishes fns r' h'.valid)
                  h'.fits h.no_failure direct))
        | inr (p, q) ↦
            let va = unfinished-IsValid fns r w.after h.valid w.returns in
            let a' = extend 0 b w.after in
            let finishes =
              get_reply-Finishes fns a'
                (extend-IsValid b w.after va (omega (arith, w.no_longer))) in
            Fed-extend obj store' w.after x s va
              (unfinished_no_failure fns r w.after h.valid h.no_failure p w.returns q)
              (given fns (get_reply fns a') r' obj [] store' finishes (omega (arith, w.no_longer))
                h.no_failure
                (get_reply-waited r w.after x s h.valid h.no_failure p f w.returns q ∙ direct))
      ]
