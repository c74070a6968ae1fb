-- ===== src/Reader/Chunks.antt =====
-- Feeding in parts: a reader that was fed a prefix and asked for a reply goes on, when it is fed
-- the rest, as a reader that was fed everything at once.
use multiplexing_hiredis.Common.{
  ℕ, zero, suc, ◌+◌, ◌-◌, ◌≤◌, ◌<◌, ◌^◌, ◌≡◌, refl, sym, ap, ◌∙◌, subst, inl, inr, true, false,
  Option, none, some, [], ◌∷◌, ◌++◌, arith, leb, ◌==◌, length, drop, Bool-cases, List-cases,
  if◌then◌else◌, length-drop, Bytes, drop-append, append-nil, length-append,
}
use multiplexing_hiredis.Common.Outcome.{Outcome, ok, abort, out_of_fuel, ◌>>=◌}
use multiplexing_hiredis.Reader.State.{
  Status, redis_ok, redis_err, ReplyObjectFunctions, ReaderState, is_error,
}
use multiplexing_hiredis.Reader.Items.{process_item, process_items}
use multiplexing_hiredis.Reader.Progress.{IsValid, Advanced, process_item-Advanced}
use multiplexing_hiredis.Reader.Carry.{extend, CanExtend, drop-extend}
use multiplexing_hiredis.Reader.CarryItem.{process_item-Carries}
use multiplexing_hiredis.Reader.Ends.{
  FinishesReply, get_reply-Finishes, process_item-ends, process_item-stop, start_reply-IsValid,
  start_fuel,
}
use multiplexing_hiredis.Reader.Items.{next_item}
use multiplexing_hiredis.Reader.Resume.{
  process_items_resume, process_items_fuel, extend-IsValid, Advanced-CanExtend, item_waits,
}
use multiplexing_hiredis.Reader.Api.{
  feed, get_reply, start_reply, after_items, discard_consumed, emit_reply,
}
use multiplexing_hiredis.Sds.{range-drop}

module _ {Obj Store : Type 0} where
  -- What two runs come to, one of them on a reader without its first `k` bytes.
  data Shifted (k : ℕ)
      : Outcome (ReaderState Obj Store) → Outcome (ReaderState Obj Store) → Type 0 where
    moved : {r : ReaderState Obj Store} → CanExtend k [] r → Shifted k (ok r) (ok (extend k [] r))
    failed : {r : ReaderState Obj Store} → is_error r.err ≡ true → Shifted k (ok r) (ok r)
    aborted : Shifted k abort abort
    starved : Shifted k out_of_fuel out_of_fuel

  -- The reader with the consumed bytes forgotten.
  abbrev pub unread : ReaderState Obj Store → ReaderState Obj Store
  unread r = record r { buf = drop r.pos r.buf; pos = 0; len = r.len - r.pos }

  -- The result of a call, with the consumed bytes forgotten.
  abbrev pub view :
      Outcome (Status × Option Obj × ReaderState Obj Store)
      → Outcome (Status × Option Obj × ReaderState Obj Store)
  view (ok (st, reply, r)) = ok (st, reply, unread r)
  view abort = abort
  view out_of_fuel = out_of_fuel

  abbrev after_view : ReaderState Obj Store → Status × Option Obj × ReaderState Obj Store
  after_view s = if is_error s.err then (redis_err, none, s) else emit_reply s

  pub view-after_items :
      (r : ReaderState Obj Store)
      → IsValid r
      → r.len < 2 ^ 31
      → view (ok (after_items r)) ≡ ok (after_view (unread r))
  unfolding after_items
  view-after_items r v f =
      ground (arith, range-drop r.buf r.pos, length-drop r.pos r.buf, v.len_of_buf)

  unread-extend :
      (k : ℕ) (r : ReaderState Obj Store) → CanExtend k [] r → unread (extend k [] r) ≡ unread r
  unread-extend k r v = ground (arith, drop-extend k [] r v, append-nil (drop r.pos r.buf))

  view-failed :
      (r : ReaderState Obj Store)
      → is_error r.err ≡ true
      → view (ok (after_items r)) ≡ ok (after_view (unread r))
  unfolding after_items
  view-failed r e = ground arith

module _ {Obj Store : Type 0} where
  start_reply-fuel :
      (r : ReaderState Obj Store) (f : ℕ)
      → r.len < r.pos + f
      → (start_reply r).len < (start_reply r).pos + f
  unfolding start_reply
  start_reply-fuel r f h = ground arith

module _ {Obj Store : Type 0} where
  whole_fuel :
      (b : Bytes) (r : ReaderState Obj Store)
      → r.len - 0 + length b < r.pos - 0 + ((start_reply r).len + length b + 1)
  unfolding start_reply
  whole_fuel b r = ground arith

module _ {Obj Store : Type 0} (fns : ReplyObjectFunctions Obj Store) where
  -- The loop on a reader without its first `k` bytes does the same.
  shift_round :
      (k f : ℕ) (r : ReaderState Obj Store)
      → CanExtend k [] r
      → ((r₁ : ReaderState Obj Store)
          → CanExtend k [] r₁
          → Advanced 1 r r₁
          → Shifted k (process_items fns f r₁) (process_items fns f (extend k [] r₁)))
      → (o : Outcome (Status × ReaderState Obj Store)) → process_item fns r ≡ o
      → Shifted k
          (next_item fns (process_items fns f) o)
          (next_item fns (process_items fns f) (process_item fns (extend k [] r)))
  shift_round k f r v ih (ok (redis_ok, r₁)) p =
      let a = process_item-Advanced fns r r₁ v.valid p in
      rw ((process_item-Carries fns k [] r v).0 r₁ p)
        (ih r₁ (Advanced-CanExtend fns k [] r r₁ v a) a)
  shift_round k f r v ih (ok (redis_err, r₁)) p = elim (Bool-cases (is_error r₁.err)) [
    | inl e ↦ rw ((process_item-Carries fns k [] r v).1 r₁ p e) (failed e)
    | inr e ↦
        let w = item_waits fns k [] r r₁ v p e in
        rw ((process_item-Carries fns k [] r v).3 r₁ refl p e) (
          moved (record {
            valid = (process_item-stop fns r r₁ v.valid p).0;
            no_failure = e;
            fits = omega arith;
            passed = omega arith;
          }))
  ]
  shift_round k f r v ih abort p = rw ((process_item-Carries fns k [] r v).2 p) aborted
  shift_round k f r v ih out_of_fuel p = absurd (process_item-ends fns r p)

  process_items-Shifted :
      (k f : ℕ) (r : ReaderState Obj Store)
      → CanExtend k [] r
      → Shifted k (process_items fns f r) (process_items fns f (extend k [] r))
  unfolding process_items
  process_items-Shifted k zero r v = starved
  process_items-Shifted k (suc f) r v = elim (Bool-cases (length r.rstack == 0)) [
    | inl e ↦ rw e (moved v)
    | inr e ↦
        rw e (
          shift_round k f r v (λ r₁ v₁ a. process_items-Shifted k f r₁ v₁) (process_item fns r)
            refl)
  ]

  abbrev replied :
      Outcome (ReaderState Obj Store) → Outcome (Status × Option Obj × ReaderState Obj Store)
  replied o = o >>= λ r. ok (after_items r)

  -- Both runs give the same reply.
  Shifted-view :
      (k : ℕ) {o o' : Outcome (ReaderState Obj Store)}
      → Shifted k o o'
      → view (replied o) ≡ view (replied o')
  Shifted-view k (moved {r} v) =
      view-after_items r v.valid (omega (arith, v.fits))
      ∙ ap (λ s. ok (after_view s)) (sym (unread-extend k r v))
      ∙ sym (view-after_items (extend k [] r) (extend-IsValid fns k [] r v) (omega (arith, v.fits)))
  Shifted-view k (failed e) = refl
  Shifted-view k aborted = refl
  Shifted-view k starved = refl

  -- A call on a valid reader with bytes and without an error is its loop, at any fuel that is
  -- enough.
  pub get_reply-loop :
      (r : ReaderState Obj Store) (f : ℕ)
      → IsValid r
      → is_error r.err ≡ false
      → 0 < r.len
      → r.len < r.pos + f
      → get_reply fns r ≡ replied (process_items fns f (start_reply r))
  unfolding get_reply
  get_reply-loop r f v e z h =
      let loop =
        process_items_fuel fns _ f (start_reply r) (start_reply-IsValid r v) (start_fuel r)
          (start_reply-fuel r f h) in
      ground arith

  extend-start_reply :
      (k : ℕ) (b : Bytes) (r : ReaderState Obj Store)
      → start_reply (extend k b r) ≡ extend k b (start_reply r)
  unfolding start_reply
  extend-start_reply k b r = ground arith

  -- Bytes that are fed to a valid reader are added at the end of its buffer.
  pub feed-extend :
      (avail c : ℕ) (s : Bytes) (r : ReaderState Obj Store)
      → IsValid r
      → is_error r.err ≡ false
      → feed fns avail true (some (c ∷ s)) r ≡ (redis_ok, extend 0 (c ∷ s) r)
  unfolding feed
  feed-extend avail c s r v e = elim (List-cases r.buf) [
    | inl z ↦ ground (arith, length-append r.buf (c ∷ s))
    | inr (x, y, z) ↦ ground (arith, length-append r.buf (c ∷ s))
  ]

  -- How a call that gives no reply yet stopped.
  unfinished :
      (r r₁ : ReaderState Obj Store) {reply : Option Obj}
      → (o : Outcome (ReaderState Obj Store)) → replied o ≡ ok (redis_ok, reply, r₁)
      → 0 < length r₁.rstack
      → (r' : ReaderState Obj Store) × (o ≡ ok r')
        × (is_error r'.err ≡ false)
        × (r₁ ≡ discard_consumed r')
  unfolding after_items
  unfinished r r₁ (ok r') h more = (r', refl, ground arith, ground arith)
  unfinished r r₁ abort h more = cc
  unfinished r r₁ out_of_fuel h more = cc

  -- How many bytes are dropped from the front of the buffer.
  abbrev dropped : ReaderState Obj Store → ℕ
  dropped r = if leb 1024 r.pos then r.pos else 0

  discard-extend :
      (b : Bytes) (r : ReaderState Obj Store)
      → IsValid r
      → r.len < 2 ^ 31
      → extend 0 b (discard_consumed r) ≡ extend (dropped r) [] (extend 0 b r)
  unfolding discard_consumed
  discard-extend b r v f = ground (
    arith,
    range-drop r.buf r.pos,
    v.len_of_buf,
    length-drop r.pos r.buf,
    drop-append r.pos r.buf b,
    append-nil (drop r.pos r.buf ++ b),
    append-nil (r.buf ++ b),
  )

  -- The reader behind the loop, as the next call finds it.
  record Discarded (r d : ReaderState Obj Store) : Type 0 where
    valid : IsValid d
    same_err : d.err ≡ r.err
    same_left : d.len + r.pos ≡ r.len + d.pos
    not_longer : d.len ≤ r.len

  discard-Discarded :
      (r : ReaderState Obj Store) → IsValid r → r.len < 2 ^ 31 → Discarded r (discard_consumed r)
  unfolding discard_consumed
  discard-Discarded r v f =
      ground (arith, range-drop r.buf r.pos, length-drop r.pos r.buf, v.len_of_buf)

  start_reply-started : (r : ReaderState Obj Store) → 0 < length r.rstack → start_reply r ≡ r
  unfolding start_reply
  start_reply-started r h = ground arith

  start_facts :
      (k : ℕ) (b : Bytes) (r : ReaderState Obj Store)
      → CanExtend k b r
      → CanExtend k b (start_reply r)
  unfolding start_reply
  start_facts k b r v = ground arith

  -- The call on the reader that the loop left, with more bytes.
  resumed :
      (b : Bytes) (r : ReaderState Obj Store) (f : ℕ)
      → CanExtend 0 b r
      → 0 < length (discard_consumed r).rstack
      → 0 < length b
      → r.len + length b < r.pos + f
      → view (get_reply fns (extend 0 b (discard_consumed r)))
        ≡ view (replied (process_items fns f (extend 0 b r)))
  resumed b r f v more b_pos h =
      let d = discard_consumed r in
      let w = discard-Discarded r v.valid (omega (arith, v.fits)) in
      let vd : CanExtend 0 b d = record {
        valid = w.valid;
        no_failure = ap is_error w.same_err ∙ v.no_failure;
        fits = omega arith;
        passed = omega arith;
      } in
      let vr : CanExtend (dropped r) [] (extend 0 b r) = record {
        valid = extend-IsValid fns 0 b r v;
        no_failure = v.no_failure;
        fits = omega arith;
        passed = ground arith;
      } in
      let place : start_reply (extend 0 b d) ≡ extend (dropped r) [] (extend 0 b r) =
        extend-start_reply 0 b d
        ∙ ap (extend 0 b) (start_reply-started d more)
        ∙ discard-extend b r v.valid (omega (arith, v.fits)) in
      ap view (
        get_reply-loop (extend 0 b d) f (extend-IsValid fns 0 b d vd) vd.no_failure (omega arith)
          (omega arith))
      ∙ ap (λ s. view (replied (process_items fns f s))) place
      ∙ sym (Shifted-view (dropped r) (process_items-Shifted (dropped r) f (extend 0 b r) vr))

  -- The same with `extend` for `feed`.
  get_reply-extend :
      (b : Bytes) (r r₁ : ReaderState Obj Store) {reply : Option Obj}
      → CanExtend 0 b r
      → 0 < r.len
      → 0 < length b
      → get_reply fns r ≡ ok (redis_ok, reply, r₁)
      → 0 < length r₁.rstack
      → view (get_reply fns (extend 0 b r₁)) ≡ view (get_reply fns (extend 0 b r))
  get_reply-extend b r r₁ v some_bytes b_pos h more =
      let s = start_reply r in
      let vs = start_facts 0 b r v in
      let enough = start_reply-fuel r (r.len + 1) (omega arith) in
      let run = get_reply-loop r (r.len + 1) v.valid v.no_failure some_bytes (omega arith) in
      let (r', stop, fine, at) =
        unfinished r r₁ (process_items fns (r.len + 1) s) (sym run ∙ h) more in
      let f₁ = s.len + length b + 1 in
      let f₂ = r'.len + length b + 1 in
      let (v', goes) =
        process_items_resume fns 0 b (r.len + 1) f₁ f₂ s r' vs enough (omega arith) (omega arith)
          stop fine in
      ap (λ x. view (get_reply fns (extend 0 b x))) at
      ∙ resumed b r' f₂ v' (subst (λ x. 0 < length x.rstack) at more) b_pos (omega arith)
      ∙ ap (λ o. view (replied o)) (sym goes)
      ∙ sym (
          ap view (
            get_reply-loop (extend 0 b r) f₁ (extend-IsValid fns 0 b r v) v.no_failure (omega arith)
              (whole_fuel b r)
            ∙ ap (λ x. replied (process_items fns f₁ x)) (extend-start_reply 0 b r)))

  pub unfinished-IsValid :
      (r r₁ : ReaderState Obj Store) {reply : Option Obj}
      → IsValid r
      → get_reply fns r ≡ ok (redis_ok, reply, r₁)
      → IsValid r₁
  unfinished-IsValid r r₁ v h = inversion (get_reply-Finishes fns r v) h
    where
      inversion :
          {n : ℕ} {o : Outcome (Status × Option Obj × ReaderState Obj Store)} {reply : Option Obj}
          → FinishesReply n o
          → o ≡ ok (redis_ok, reply, r₁)
          → IsValid r₁
      inversion (FinishesReply.finished {t} w l) e = subst IsValid (cc) w
      inversion FinishesReply.aborted e = cc

  pub unfinished_no_failure :
      (r r₁ : ReaderState Obj Store) {reply : Option Obj}
      → IsValid r
      → is_error r.err ≡ false
      → 0 < r.len
      → get_reply fns r ≡ ok (redis_ok, reply, r₁)
      → 0 < length r₁.rstack
      → is_error r₁.err ≡ false
  unfolding discard_consumed
  unfinished_no_failure r r₁ v e z h more =
      let run = get_reply-loop r (r.len + 1) v e z (omega arith) in
      let (r', stop, fine, at) =
        unfinished r r₁ (process_items fns (r.len + 1) (start_reply r)) (sym run ∙ h) more in
      ground arith

  -- Take a valid reader without an error that holds bytes, and fewer than 2 ^ 31 of them with those
  -- to come; there is memory for them. If it was asked for a reply, could not finish it and is then
  -- fed, the bytes `c ∷ s` give, on the next call, the same result as if they had been there before:
  -- the same status, reply, error, tasks, store and unread bytes, whether the call ends with a
  -- reply, a wait, an error or an abort.
  pub get_reply-feed :
      (r r₁ : ReaderState Obj Store) (avail avail' c : ℕ) (s : Bytes) {reply : Option Obj}
      → IsValid r
      → is_error r.err ≡ false
      → 0 < r.len
      → r.len + length (c ∷ s) < 2 ^ 31
      → get_reply fns r ≡ ok (redis_ok, reply, r₁)
      → 0 < length r₁.rstack
      → view (get_reply fns (feed fns avail true (some (c ∷ s)) r₁).1)
        ≡ view (get_reply fns (feed fns avail' true (some (c ∷ s)) r).1)
  get_reply-feed r r₁ avail avail' c s v e some_bytes fits h more =
      let v₁ = unfinished-IsValid r r₁ v h in
      let e₁ = unfinished_no_failure r r₁ v e some_bytes h more in
      let w : CanExtend 0 (c ∷ s) r = record {
        valid = v;
        no_failure = e;
        fits = fits;
        passed = omega arith;
      } in
      ap (λ x. view (get_reply fns x.1)) (feed-extend avail c s r₁ v₁ e₁)
      ∙ get_reply-extend (c ∷ s) r r₁ w some_bytes (omega arith) h more
      ∙ sym (ap (λ x. view (get_reply fns x.1)) (feed-extend avail' c s r v e))
