-- ===== src/Reader/Resume.antt =====
-- A reader that waits for bytes goes on, once they arrive, as if they had been there before.
use multiplexing_hiredis.Common.{
  ℕ, zero, suc, ◌+◌, ◌-◌, ◌≤◌, ◌<◌, ◌≡◌, refl, sym, ap, ◌∙◌, subst, inl, inr, true, false, some,
  List, [], ◌∷◌, arith, ◌==◌, length, drop, Bool-cases, Option-cases, List-cases, length-drop,
  Bytes, length-append,
}
use multiplexing_hiredis.Common.Outcome.{Outcome, ok, abort, out_of_fuel}
use multiplexing_hiredis.Reader.State.{
  ReplyType, string, array, integer, nil, status, error, Status, redis_ok, redis_err,
  ReplyObjectFunctions, ReaderState, ReadTask, is_error, set_error_oom, set_error_protocol_byte,
}
use multiplexing_hiredis.Reader.Items.{
  finish_item, type_of_byte, push_task, enter_array, read_bytes, process_line_item, process_bulk_at,
  process_bulk_item, process_multi_bulk_item, process_typed_item, process_type_byte, process_task,
  process_item, process_items,
}
use multiplexing_hiredis.Reader.Progress.{IsValid, Advanced, process_item-Advanced}
use multiplexing_hiredis.Reader.Carry.{extend, CanExtend, drop-extend}
use multiplexing_hiredis.Reader.CarryItem.{process_item-Carries}
use multiplexing_hiredis.Reader.Ends.{process_item-stop, Advanced-IsValid}
use multiplexing_hiredis.Reader.Items.{next_item}

module _ {Obj Store : Type 0} (fns : ReplyObjectFunctions Obj Store) where
  line_waits :
      (t : ReplyType) (r r' : ReaderState Obj Store)
      → process_line_item fns t r ≡ ok (redis_err, r')
      → is_error r'.err ≡ false
      → r' ≡ r
  unfolding process_line_item finish_item set_error_oom
  line_waits t r r' h f = ground arith

  bulk_waits :
      (r r' : ReaderState Obj Store)
      → process_bulk_item fns r ≡ ok (redis_err, r')
      → is_error r'.err ≡ false
      → r' ≡ r
  unfolding process_bulk_item process_bulk_at finish_item set_error_oom
  bulk_waits r r' h f = ground arith

  multi_bulk_waits :
      (r r' : ReaderState Obj Store)
      → process_multi_bulk_item fns r ≡ ok (redis_err, r')
      → is_error r'.err ≡ false
      → r' ≡ r
  unfolding process_multi_bulk_item enter_array push_task finish_item set_error_oom
  multi_bulk_waits r r' h f = ground arith

  typed_waits :
      (t : ReplyType) (r r' : ReaderState Obj Store)
      → process_typed_item fns t r ≡ ok (redis_err, r')
      → is_error r'.err ≡ false
      → r' ≡ r
  unfolding process_typed_item
  typed_waits error r r' h f = line_waits error r r' h f
  typed_waits status r r' h f = line_waits status r r' h f
  typed_waits integer r r' h f = line_waits integer r r' h f
  typed_waits string r r' h f = bulk_waits r r' h f
  typed_waits array r r' h f = multi_bulk_waits r r' h f
  typed_waits nil r r' h f = cc

  -- The item of a reader that waits is taken up at the same place with the same outcome.
  pub record TakenUp (k : ℕ) (b : Bytes) (tasks : List (ReadTask Obj))
      (r r' : ReaderState Obj Store) : Type 0 where
    pub same_item :
        process_task fns tasks (extend k b r) ≡ process_task fns r'.rstack (extend k b r')
    pub same_depth : length r'.rstack ≡ length tasks
    pub ahead : r.pos ≤ r'.pos
    pub same_len : r'.len ≡ r.len
    pub same_err : r'.err ≡ r.err

  module _ (k : ℕ) (b : Bytes) where
    task_waits :
        (tasks : List (ReadTask Obj)) (r r' : ReaderState Obj Store)
        → CanExtend k b r
        → r.rstack ≡ tasks
        → process_task fns tasks r ≡ ok (redis_err, r')
        → is_error r'.err ≡ false
        → TakenUp k b tasks r r'
    unfolding process_task read_bytes process_type_byte set_error_protocol_byte
    task_waits [] r r' v st h f = cc
    task_waits (cur ∷ parents) r r' v st h f = elim (Option-cases cur.type) [
      | inr (t, e) ↦ stays (typed_waits t r r' (rw (e, process_task) at h) f)
      | inl e ↦ elim (List-cases (drop r.pos r.buf)) [
        | inl d ↦
            let z = length-drop r.pos r.buf in
            let y : length (drop r.pos r.buf) ≡ 0 = ap length d in stays (ground arith)
        | inr (c, s, d) ↦
            let z = length-drop r.pos r.buf in
            let y : length (drop r.pos r.buf) ≡ suc (length s) = ap length d in
            elim (Option-cases (type_of_byte c)) [
              | inl w ↦ ground arith
              | inr (t, w) ↦
                  let r'' = record r {
                    pos = r.pos + 1;
                    rstack = record cur { type = some t } ∷ parents;
                  } in
                  let same : r' ≡ r'' = typed_waits t r'' r' (ground arith) f in
                  let x = drop-extend k b r v in
                  let move : r.pos + 1 - k ≡ r.pos - k + 1 = omega arith in
                  rw same (record {
                    same_item = ground arith;
                    same_depth = refl;
                    ahead = omega arith;
                    same_len = refl;
                    same_err = refl;
                  })
            ]
      ]
    ]
      where
        stays : r' ≡ r → TakenUp k b (cur ∷ parents) r r'
        stays e = rw e (record {
          same_item = ap (λ ts. process_task fns ts (extend k b r)) (sym st);
          same_depth = ap length st;
          ahead = omega arith;
          same_len = refl;
          same_err = refl;
        })

    pub item_waits :
        (r r' : ReaderState Obj Store)
        → CanExtend k b r
        → process_item fns r ≡ ok (redis_err, r')
        → is_error r'.err ≡ false
        → TakenUp k b r.rstack r r'
    unfolding process_item
    item_waits r r' v h f = task_waits r.rstack r r' v refl h f

    same_process_item :
        (r r' : ReaderState Obj Store)
        → TakenUp k b r.rstack r r'
        → process_item fns (extend k b r) ≡ process_item fns (extend k b r')
    unfolding process_item
    same_process_item r r' w = w.same_item

  next_item_same :
      (more more' : ReaderState Obj Store → Outcome (ReaderState Obj Store))
      (o : Outcome (Status × ReaderState Obj Store))
      → ((r : ReaderState Obj Store) → o ≡ ok (redis_ok, r) → more r ≡ more' r)
      → next_item fns more o ≡ next_item fns more' o
  next_item_same more more' (ok (redis_ok, r)) h = h r refl
  next_item_same more more' (ok (redis_err, r)) h = refl
  next_item_same more more' abort h = refl
  next_item_same more more' out_of_fuel h = refl

  -- Fuel above the bytes left is as good as any other such fuel.
  pub process_items_fuel :
      (f f' : ℕ) (r : ReaderState Obj Store)
      → IsValid r
      → r.len < r.pos + f
      → r.len < r.pos + f'
      → process_items fns f r ≡ process_items fns f' r
  unfolding process_items
  process_items_fuel zero f' r v h h' = absurd (omega arith)
  process_items_fuel (suc f) zero r v h h' = absurd (omega arith)
  process_items_fuel (suc f) (suc f') r v h h' = elim (Bool-cases (length r.rstack == 0)) [
    | inl e ↦ rw e
    | inr e ↦ rw e (
        next_item_same (process_items fns f) (process_items fns f') (process_item fns r) λ r₁ p.
          let a = process_item-Advanced fns r r₁ v p in
          process_items_fuel f f' r₁ (Advanced-IsValid fns r r₁ v a) (omega arith) (omega arith))
  ]

  items_step :
      (f : ℕ) (r : ReaderState Obj Store)
      → (length r.rstack == 0) ≡ false
      → process_items fns (suc f) r ≡ next_item fns (process_items fns f) (process_item fns r)
  unfolding process_items
  items_step f r e = rw e

  items_done :
      (f : ℕ) (r : ReaderState Obj Store)
      → (length r.rstack == 0) ≡ true
      → process_items fns (suc f) r ≡ ok r
  unfolding process_items
  items_done f r e = rw e

  module _ (k : ℕ) (b : Bytes) where
    pub extend-IsValid : (r : ReaderState Obj Store) → CanExtend k b r → IsValid (extend k b r)
    extend-IsValid r v = omega (arith, length-append {0} (drop k r.buf) b, length-drop k r.buf)

    pub Advanced-CanExtend :
        (r r' : ReaderState Obj Store) → CanExtend k b r → Advanced 1 r r' → CanExtend k b r'
    Advanced-CanExtend r r' v a = ground (arith, Advanced-IsValid fns r r')

    -- From the reader `r` with more bytes the loop goes on as from `r'` with more bytes.
    abbrev pub GoesOn : ℕ → ℕ → ReaderState Obj Store → ReaderState Obj Store → Type 0
    GoesOn f₁ f₂ r r' =
        CanExtend k b r'
        × (process_items fns f₁ (extend k b r) ≡ process_items fns f₂ (extend k b r'))

    resume_round :
        (f f₁ f₂ : ℕ) (r r' : ReaderState Obj Store)
        → CanExtend k b r
        → (length r.rstack == 0) ≡ false
        → r.len + length b < r.pos + suc f₁
        → r'.len + length b < r'.pos + f₂
        → is_error r'.err ≡ false
        → ((r₁ : ReaderState Obj Store)
            → CanExtend k b r₁
            → Advanced 1 r r₁
            → process_items fns f r₁ ≡ ok r'
            → GoesOn f₁ f₂ r₁ r')
        → (o : Outcome (Status × ReaderState Obj Store)) → process_item fns r ≡ o
        → next_item fns (process_items fns f) o ≡ ok r'
        → GoesOn (suc f₁) f₂ r r'
    resume_round f f₁ f₂ r r' v more h₁ h₂ e ih (ok (redis_ok, r₁)) q p =
        let a = process_item-Advanced fns r r₁ v.valid q in
        let (v', same) = ih r₁ (Advanced-CanExtend r r₁ v a) a p in
        (
          v',
          items_step f₁ (extend k b r) more
              ∙ ap (next_item fns (process_items fns f₁))
                  ((process_item-Carries fns k b r v).0 r₁ q)
              ∙ same,
        )
    resume_round f f₁ f₂ r r' v more h₁ h₂ e ih (ok (redis_err, r₁)) q p =
        let eq : r₁ ≡ r' = cc in
        let w = item_waits k b r r' v (q ∙ ap (λ x. ok (redis_err, x)) eq) e in
        let v' : CanExtend k b r' = record {
          valid = (process_item-stop fns r r' v.valid (q ∙ ap (λ x. ok (redis_err, x)) eq)).0;
          no_failure = e;
          fits = omega arith;
          passed = omega arith;
        } in
        (
          v',
          items_step f₁ (extend k b r) more
              ∙ ap (next_item fns (process_items fns f₁)) (same_process_item k b r r' w)
              ∙ sym (items_step f₁ (extend k b r') (ap (λ n. n == 0) w.same_depth ∙ more))
              ∙ process_items_fuel (suc f₁) f₂ (extend k b r') (extend-IsValid r' v') (omega arith)
                  (omega arith),
        )
    resume_round f f₁ f₂ r r' v more h₁ h₂ e ih abort q p = cc
    resume_round f f₁ f₂ r r' v more h₁ h₂ e ih out_of_fuel q p = cc

    -- The loop that stopped for want of bytes in `r'` is taken up there.
    pub process_items_resume :
        (f f₁ f₂ : ℕ) (r r' : ReaderState Obj Store)
        → CanExtend k b r
        → r.len < r.pos + f
        → r.len + length b < r.pos + f₁
        → r'.len + length b < r'.pos + f₂
        → process_items fns f r ≡ ok r'
        → is_error r'.err ≡ false
        → GoesOn f₁ f₂ r r'
    process_items_resume zero f₁ f₂ r r' v h h₁ h₂ p e = absurd (omega arith)
    process_items_resume (suc f) zero f₂ r r' v h h₁ h₂ p e = absurd (omega arith)
    process_items_resume (suc f) (suc f₁) f₂ r r' v h h₁ h₂ p e =
        elim (Bool-cases (length r.rstack == 0)) [
          | inl done ↦
              let eq : r ≡ r' = cc (items_done f r done) in
              let at_end = λ (s : ReaderState Obj Store). s.len + length b < s.pos + f₂ in
              subst (λ s. GoesOn (suc f₁) f₂ r s) eq
                (
                  v,
                  process_items_fuel (suc f₁) f₂ (extend k b r) (extend-IsValid r v) (omega arith)
                      (less (subst at_end (sym eq) h₂)),
                )
          | inr more ↦
              resume_round f f₁ f₂ r r' v more h₁ h₂ e
                (λ r₁ v₁ a q.
                  process_items_resume f f₁ f₂ r₁ r' v₁ (omega arith) (omega arith) h₂ q e)
                (process_item fns r) refl (sym (items_step f r more) ∙ p)
        ]
      where
        less : r.len + length b < r.pos + f₂ → r.len - k + length b < r.pos - k + f₂
        less q = omega arith
