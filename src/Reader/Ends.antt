-- ===== src/Reader/Ends.antt =====
-- The loop of `get_reply` ends, and every call leaves a valid reader.
use multiplexing_hiredis.Common.{
  ◌≤◌, ℕ, zero, suc, ◌+◌, ◌-◌, ◌<◌, ◌≡◌, ◌≢◌, refl, inl, inr, Option, some, List, [], ◌∷◌, arith,
  ◌==◌, length, drop, Bool-cases, Option-cases, List-cases, length-drop,
}
use multiplexing_hiredis.Common.Outcome.{Outcome, ok, abort, out_of_fuel, ◌>>=◌}
use multiplexing_hiredis.Reader.State.{
  ReplyType, string, array, integer, nil, status, error, Status, redis_ok, redis_err,
  ReplyObjectFunctions, ReaderState, ReadTask, is_error, set_error_oom, set_error_protocol_byte,
}
use multiplexing_hiredis.Reader.Items.{
  move_to_next_task, finish_item, type_of_byte, push_task, enter_array, read_line, read_bytes,
  process_line_item, process_bulk_at, process_bulk_item, process_multi_bulk_item,
  process_typed_item, process_type_byte, process_task, process_item, process_items, next_item,
}
use multiplexing_hiredis.Sds.{length-range}
use multiplexing_hiredis.Reader.Api.{start_reply, after_items, get_reply}
use multiplexing_hiredis.Reader.Progress.{IsValid, Advanced, process_item-Advanced}

move_to_next_task-ends :
    {Obj : Type 0} (tasks : List (ReadTask Obj)) → move_to_next_task tasks ≢ out_of_fuel
unfolding move_to_next_task
move_to_next_task-ends [] h = cc
move_to_next_task-ends (cur ∷ []) h = cc
move_to_next_task-ends (cur ∷ prv ∷ rest) h = ground (arith, move_to_next_task-ends (prv ∷ rest))

-- The loop ended: in a valid reader of at most `n` bytes, or by an abort.
pub data Finishes {Obj Store : Type 0} (n : ℕ) : Outcome (ReaderState Obj Store) → Type 0 where
  finished : {r : ReaderState Obj Store} → IsValid r → r.len ≤ n → Finishes n (ok r)
  aborted : Finishes n abort

-- The same of a call of `get_reply`.
pub data FinishesReply {Obj Store : Type 0} (n : ℕ)
    : Outcome (Status × Option Obj × ReaderState Obj Store) → Type 0 where
  finished :
      {t : Status × Option Obj × ReaderState Obj Store}
      → IsValid t.2
      → t.2.len ≤ n
      → FinishesReply n (ok t)
  aborted : FinishesReply n abort

module _ {Obj Store : Type 0} where
  pub start_reply-IsValid : (r : ReaderState Obj Store) → IsValid r → IsValid (start_reply r)
  unfolding start_reply
  start_reply-IsValid r v = ground arith

  start_reply-len : (r : ReaderState Obj Store) → (start_reply r).len ≤ r.len
  unfolding start_reply
  start_reply-len r = ground arith

  pub start_fuel :
      (r : ReaderState Obj Store)
      → (start_reply r).len < (start_reply r).pos + ((start_reply r).len - (start_reply r).pos + 1)
  start_fuel r = omega arith

module _ {Obj Store : Type 0} (fns : ReplyObjectFunctions Obj Store) where
  process_line_item-ends :
      (t : ReplyType) (r : ReaderState Obj Store) → process_line_item fns t r ≢ out_of_fuel
  unfolding process_line_item finish_item
  process_line_item-ends t r h = elim (Option-cases (read_line r)) [
    | inl e ↦ ground arith
    | inr ((p, n, r'), e) ↦ ground (arith, move_to_next_task-ends r'.rstack)
  ]

  process_line_item-stop :
      (t : ReplyType) (r r' : ReaderState Obj Store)
      → IsValid r
      → process_line_item fns t r ≡ ok (redis_err, r')
      → IsValid r' × (r'.len ≤ r.len)
  unfolding process_line_item finish_item set_error_oom
  process_line_item-stop t r r' v h = ground arith

  process_bulk_item-ends : (r : ReaderState Obj Store) → process_bulk_item fns r ≢ out_of_fuel
  unfolding process_bulk_item process_bulk_at finish_item
  process_bulk_item-ends r h = ground (arith, move_to_next_task-ends r.rstack)

  process_bulk_item-stop :
      (r r' : ReaderState Obj Store)
      → IsValid r
      → process_bulk_item fns r ≡ ok (redis_err, r')
      → IsValid r' × (r'.len ≤ r.len)
  unfolding process_bulk_item process_bulk_at finish_item set_error_oom
  process_bulk_item-stop r r' v h = ground arith

  process_multi_bulk_item-ends :
      (r : ReaderState Obj Store) → process_multi_bulk_item fns r ≢ out_of_fuel
  unfolding process_multi_bulk_item enter_array finish_item push_task read_line
  process_multi_bulk_item-ends r h = ground (arith, move_to_next_task-ends r.rstack)

  process_multi_bulk_item-stop :
      (r r' : ReaderState Obj Store)
      → IsValid r
      → process_multi_bulk_item fns r ≡ ok (redis_err, r')
      → IsValid r' × (r'.len ≤ r.len)
  unfolding process_multi_bulk_item enter_array finish_item push_task set_error_oom
  process_multi_bulk_item-stop r r' v h = ground arith

  process_typed_item-ends :
      (t : ReplyType) (r : ReaderState Obj Store) → process_typed_item fns t r ≢ out_of_fuel
  unfolding process_typed_item
  process_typed_item-ends error r = process_line_item-ends error r
  process_typed_item-ends status r = process_line_item-ends status r
  process_typed_item-ends integer r = process_line_item-ends integer r
  process_typed_item-ends string r = process_bulk_item-ends r
  process_typed_item-ends array r = process_multi_bulk_item-ends r
  process_typed_item-ends nil r = λ h. cc

  process_typed_item-stop :
      (t : ReplyType) (r r' : ReaderState Obj Store)
      → IsValid r
      → process_typed_item fns t r ≡ ok (redis_err, r')
      → IsValid r' × (r'.len ≤ r.len)
  unfolding process_typed_item
  process_typed_item-stop error r r' v h = process_line_item-stop error r r' v h
  process_typed_item-stop status r r' v h = process_line_item-stop status r r' v h
  process_typed_item-stop integer r r' v h = process_line_item-stop integer r r' v h
  process_typed_item-stop string r r' v h = process_bulk_item-stop r r' v h
  process_typed_item-stop array r r' v h = process_multi_bulk_item-stop r r' v h
  process_typed_item-stop nil r r' v h = cc

  process_type_byte-ends :
      (cur : ReadTask Obj) (parents : List (ReadTask Obj)) (c : ℕ) (r : ReaderState Obj Store)
      → process_type_byte fns cur parents c r ≢ out_of_fuel
  unfolding process_type_byte
  process_type_byte-ends cur parents c r h = elim (Option-cases (type_of_byte c)) [
    | inl e ↦ ground arith
    | inr (t, e) ↦
        process_typed_item-ends t (record r { rstack = record cur { type = some t } ∷ parents })
          (rw (e, process_type_byte) at h)
  ]

  process_type_byte-stop :
      (cur : ReadTask Obj) (parents : List (ReadTask Obj)) (c : ℕ) (r r' : ReaderState Obj Store)
      → IsValid r
      → process_type_byte fns cur parents c r ≡ ok (redis_err, r')
      → IsValid r' × (r'.len ≤ r.len)
  unfolding process_type_byte set_error_protocol_byte
  process_type_byte-stop cur parents c r r' v h = elim (Option-cases (type_of_byte c)) [
    | inl e ↦ ground arith
    | inr (t, e) ↦
        process_typed_item-stop t (record r { rstack = record cur { type = some t } ∷ parents }) r'
          (record { len_of_buf = v.len_of_buf; pos_within = v.pos_within; small = v.small })
          (rw (e, process_type_byte) at h)
  ]

  process_task-ends :
      (tasks : List (ReadTask Obj)) (r : ReaderState Obj Store)
      → process_task fns tasks r ≢ out_of_fuel
  unfolding process_task read_bytes
  process_task-ends [] r h = cc
  process_task-ends (cur ∷ parents) r h = elim (Option-cases cur.type) [
    | inr (t, e) ↦ process_typed_item-ends t r (rw (e, process_task) at h)
    | inl e ↦ elim (List-cases (drop r.pos r.buf)) [
      | inl d ↦ ground arith
      | inr (c, s, d) ↦
          ground (arith, process_type_byte-ends cur parents c (record r { pos = r.pos + 1 }))
    ]
  ]

  process_task-stop :
      (tasks : List (ReadTask Obj)) (r r' : ReaderState Obj Store)
      → IsValid r
      → process_task fns tasks r ≡ ok (redis_err, r')
      → IsValid r' × (r'.len ≤ r.len)
  unfolding process_task read_bytes
  process_task-stop [] r r' v h = cc
  process_task-stop (cur ∷ parents) r r' v h = elim (Option-cases cur.type) [
    | inr (t, e) ↦ process_typed_item-stop t r r' v (rw (e, process_task) at h)
    | inl e ↦ elim (List-cases (drop r.pos r.buf)) [
      | inl d ↦ ground arith
      | inr (c, s, d) ↦ ground (
        arith,
        length-drop r.pos r.buf,
        process_type_byte-stop cur parents c (record r { pos = r.pos + 1 }) r',
      )
    ]
  ]

  pub process_item-ends : (r : ReaderState Obj Store) → process_item fns r ≢ out_of_fuel
  unfolding process_item
  process_item-ends r = process_task-ends r.rstack r

  pub process_item-stop :
      (r r' : ReaderState Obj Store)
      → IsValid r
      → process_item fns r ≡ ok (redis_err, r')
      → IsValid r' × (r'.len ≤ r.len)
  unfolding process_item
  process_item-stop r = process_task-stop r.rstack r

  pub Advanced-IsValid : (r r' : ReaderState Obj Store) → IsValid r → Advanced 1 r r' → IsValid r'
  Advanced-IsValid r r' v a = ground arith

  -- One round, from what the rounds after it do.
  next_item-Finishes :
      {n : ℕ} (more : ReaderState Obj Store → Outcome (ReaderState Obj Store))
      (o : Outcome (Status × ReaderState Obj Store))
      → o ≢ out_of_fuel
      → ((r : ReaderState Obj Store) → o ≡ ok (redis_ok, r) → Finishes n (more r))
      → ((r : ReaderState Obj Store) → o ≡ ok (redis_err, r) → IsValid r × (r.len ≤ n))
      → Finishes n (next_item fns more o)
  next_item-Finishes more (ok (redis_ok, r)) ends on stop = on r refl
  next_item-Finishes more (ok (redis_err, r)) ends on stop =
      let (v, l) = stop r refl in finished v l
  next_item-Finishes more abort ends on stop = aborted
  next_item-Finishes more out_of_fuel ends on stop = absurd (ends refl)

  -- With more fuel than bytes left the loop ends, and not for lack of fuel.
  pub process_items-Finishes :
      (n fuel : ℕ) (r : ReaderState Obj Store)
      → IsValid r
      → r.len ≤ n
      → r.len < r.pos + fuel
      → Finishes n (process_items fns fuel r)
  unfolding process_items
  process_items-Finishes n zero r v l h = absurd (omega arith)
  process_items-Finishes n (suc fuel) r v l h = elim (Bool-cases (length r.rstack == 0)) [
    | inl e ↦ rw e (finished v l)
    | inr e ↦ rw e (
        next_item-Finishes (process_items fns fuel) (process_item fns r) (process_item-ends r)
          (λ r' p.
            let a = process_item-Advanced fns r r' v p in
            process_items-Finishes n fuel r' (Advanced-IsValid r r' v a) (omega (arith, a.same_len))
              (omega arith))
          (λ r' p. let (v', l') = process_item-stop r r' v p in (v', omega (arith, l', l))))
  ]

  after_items-IsValid :
      (r : ReaderState Obj Store)
      → IsValid r
      → IsValid (after_items r).2 × ((after_items r).2.len ≤ r.len)
  unfolding after_items
  after_items-IsValid r v = ground (arith, length-range r.buf r.pos)

  finish_reply :
      {n : ℕ} {o : Outcome (ReaderState Obj Store)}
      → Finishes n o
      → FinishesReply n (o >>= λ r'. ok (after_items r'))
  finish_reply (finished {r} v l) =
      let (v', l') = after_items-IsValid r v in finished v' (omega (arith, l', l))
  finish_reply aborted = aborted

  -- `get_reply` ends on every valid reader, and leaves a valid reader that holds no more bytes,
  -- unless it aborts.
  pub get_reply-Finishes :
      (r : ReaderState Obj Store) → IsValid r → FinishesReply r.len (get_reply fns r)
  unfolding get_reply
  get_reply-Finishes r v = elim (Bool-cases (is_error r.err)) [
    | inl e ↦ rw e (finished v (omega arith))
    | inr e ↦ elim (Bool-cases (r.len == 0)) [
      | inl z ↦ rw (e, z) (finished v (omega arith))
      | inr z ↦
          rw (e, z)
            (finish_reply (
              process_items-Finishes r.len _ (start_reply r) (start_reply-IsValid r v)
                (start_reply-len r) (start_fuel r)))
    ]
  ]
