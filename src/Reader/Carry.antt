-- ===== src/Reader/Carry.antt =====
-- Bytes that arrive later do not change what an item does, once it is processed.
use multiplexing_hiredis.Common.{
  ℕ, ◌+◌, ◌-◌, ◌≤◌, ◌<◌, ◌^◌, ◌≡◌, refl, ap, ◌∙◌, inl, inr, true, false, none, some, [], ◌++◌,
  arith, ◌==◌, length, take, drop, Bool-cases, Option-cases, if◌then◌else◌, length-drop, Bytes,
  drop-append, drop-drop, append-nil, take-append,
}
use multiplexing_hiredis.Common.Int.{ℤ, pos, negsuc, to_int32, eq_ℤ, minus_one}
use multiplexing_hiredis.Common.Outcome.{Outcome, ok, abort}
use multiplexing_hiredis.Reader.State.{
  ReplyType, Status, redis_ok, redis_err, Created, ReplyObjectFunctions, ReaderState, is_error,
  set_error, set_error_oom,
}
use multiplexing_hiredis.Reader.Scan.{seek_newline, read_long_long}
use multiplexing_hiredis.Reader.Scan.Find.{
  seek_newline-append, seek_newline-lt, read_long_long-append,
}
use multiplexing_hiredis.Reader.Scan.Number.{read_long_long_range}
use multiplexing_hiredis.Reader.Items.{
  finish_item, push_task, enter_array, read_line, process_line_item, process_bulk_at,
  process_bulk_item, process_multi_bulk_item,
}
use multiplexing_hiredis.Reader.Progress.{IsValid, read_line_lem}

module _ {Obj Store : Type 0} where
  -- The reader without the first `k` bytes of its buffer, and with more bytes at the end.
  abbrev pub extend : ℕ → Bytes → ReaderState Obj Store → ReaderState Obj Store
  extend k b r = record r { buf = drop k r.buf ++ b; pos = r.pos - k; len = r.len - k + length b }

  -- The longer reader does the same as the shorter one, where that one did not run out of bytes;
  -- with no bytes added, it runs out of bytes where the other one does.
  abbrev pub Carries :
      ℕ
      → Bytes
      → Outcome (Status × ReaderState Obj Store)
      → Outcome (Status × ReaderState Obj Store)
      → Type 0
  Carries k b o o' =
      ((r : ReaderState Obj Store) → o ≡ ok (redis_ok, r) → o' ≡ ok (redis_ok, extend k b r))
      × ((r : ReaderState Obj Store)
          → o ≡ ok (redis_err, r)
          → is_error r.err ≡ true
          → o' ≡ ok (redis_err, r))
      × (o ≡ abort → o' ≡ abort)
      × ((r : ReaderState Obj Store)
          → b ≡ []
          → o ≡ ok (redis_err, r)
          → is_error r.err ≡ false
          → o' ≡ ok (redis_err, extend k b r))

  -- A valid reader without an error that has passed the first `k` bytes, and bytes for which there
  -- is room.
  pub record CanExtend (k : ℕ) (b : Bytes) (r : ReaderState Obj Store) : Type 0 where
    pub valid : IsValid r
    pub no_failure : is_error r.err ≡ false
    pub fits : r.len + length b < 2 ^ 31
    pub passed : k ≤ r.pos

  module _ (k : ℕ) (b : Bytes) (r : ReaderState Obj Store) (v : CanExtend k b r) where
    pub drop-extend : drop (r.pos - k) (drop k r.buf ++ b) ≡ drop r.pos r.buf ++ b
    drop-extend =
        drop-append (r.pos - k) (drop k r.buf) b (omega (arith, length-drop k r.buf))
        ∙ ap (λ s. s ++ b)
            (drop-drop (r.pos - k) k r.buf
              ∙ ap (λ i. drop i r.buf) {x = k + (r.pos - k)} (omega arith))

    left-extend : r.len - k + length b - (r.pos - k) ≡ r.len - r.pos + length b
    left-extend = omega arith

    here : r.len - r.pos ≡ length (drop r.pos r.buf)
    here = omega (arith, length-drop r.pos r.buf)

    seek-extend :
        (n : ℕ)
        → seek_newline (drop r.pos r.buf) (r.len - r.pos) ≡ some n
        → seek_newline (drop (r.pos - k) (drop k r.buf ++ b)) (r.len - k + length b - (r.pos - k))
          ≡ some n
    seek-extend n h =
        rw (drop-extend, left-extend, here)
          (seek_newline-append (drop r.pos r.buf) b n (omega (arith, length-drop r.pos r.buf))
            (rw here at h))

    seek-extend_none :
        b ≡ []
        → seek_newline (drop r.pos r.buf) (r.len - r.pos) ≡ none
        → seek_newline (drop (r.pos - k) (drop k r.buf ++ b)) (r.len - k + length b - (r.pos - k))
          ≡ none
    seek-extend_none e h = rw (drop-extend, left-extend) (rw (e, append-nil, nothing_more) h)
      where
        nothing_more : r.len - r.pos + length {A = ℕ} [] ≡ r.len - r.pos
        nothing_more = omega arith

    number-extend :
        (n : ℕ)
        → seek_newline (drop r.pos r.buf) (r.len - r.pos) ≡ some n
        → read_long_long (drop (r.pos - k) (drop k r.buf ++ b)) ≡ read_long_long (drop r.pos r.buf)
    number-extend n h = rw drop-extend (read_long_long-append _ b _ n h)

    take-extend :
        (n : ℕ)
        → n ≤ length (drop r.pos r.buf)
        → take n (drop (r.pos - k) (drop k r.buf ++ b)) ≡ take n (drop r.pos r.buf)
    take-extend n h = rw drop-extend (take-append n _ b h)

    part-extend :
        (i n : ℕ)
        → i + n ≤ length (drop r.pos r.buf)
        → take n (drop i (drop (r.pos - k) (drop k r.buf ++ b)))
          ≡ take n (drop i (drop r.pos r.buf))
    part-extend i n h =
        rw (drop-extend, drop-append i (drop r.pos r.buf) b (omega arith))
          (take-append n _ b (omega (arith, length-drop i (drop r.pos r.buf))))

module _ {Obj Store : Type 0} (fns : ReplyObjectFunctions Obj Store) (k : ℕ) (b : Bytes) where
  pub process_line_item-Carries :
      (t : ReplyType) (r : ReaderState Obj Store)
      → CanExtend k b r
      → Carries k b (process_line_item fns t r) (process_line_item fns t (extend k b r))
  unfolding process_line_item read_line finish_item set_error_oom
  process_line_item-Carries t r v =
      elim (Option-cases (seek_newline (drop r.pos r.buf) (r.len - r.pos))) [
        | inl e ↦ (
          λ r' h. ground arith,
          λ r' h f. ground arith,
          λ h. ground arith,
          λ r' z h f. ground (arith, seek-extend_none k b r v z e),
        )
        | inr (n, e) ↦
            let s = seek-extend k b r v n e in
            let i = number-extend k b r v n e in
            let w = take-extend k b r v n (omega (arith, seek_newline-lt _ _ n e)) in
            (
              λ r' h. ground arith,
              λ r' h f. ground arith,
              λ h. ground arith,
              λ r' z h f. ground arith,
            )
      ]

  process_bulk_at-Carries :
      (r : ReaderState Obj Store) (p p' : Bytes) (n : ℕ) (len : ℤ)
      → CanExtend k b r
      → r.pos + (n + 2) ≤ r.len
      → ((m : ℕ) → len ≡ pos m → m < 2 ^ 63)
      → ((m : ℕ) → r.pos + (n + 2 + m) ≤ r.len → take m (drop (n + 2) p') ≡ take m (drop (n + 2) p))
      → Carries k b (process_bulk_at fns r p n len) (process_bulk_at fns (extend k b r) p' n len)
  unfolding process_bulk_at finish_item set_error_oom
  process_bulk_at-Carries r p p' n (negsuc m) v le range same =
      (λ r' h. ground arith, λ r' h f. ground arith, λ h. ground arith, λ r' z h f. ground arith)
  process_bulk_at-Carries r p p' n (pos m) v le range same =
      let bound = range m refl in
      (
        λ r' h. ground (arith, same m),
        λ r' h f. ground (arith, same m),
        λ h. ground (arith, same m),
        λ r' z h f. ground (arith, same m),
      )

  pub process_bulk_item-Carries :
      (r : ReaderState Obj Store)
      → CanExtend k b r
      → Carries k b (process_bulk_item fns r) (process_bulk_item fns (extend k b r))
  unfolding process_bulk_item
  process_bulk_item-Carries r v =
      elim (Option-cases (seek_newline (drop r.pos r.buf) (r.len - r.pos))) [
        | inl e ↦ (
          λ r' h. ground arith,
          λ r' h f. ground arith,
          λ h. ground arith,
          λ r' z h f. ground (arith, seek-extend_none k b r v z e),
        )
        | inr (n, e) ↦
            rw (e, seek-extend k b r v n e, number-extend k b r v n e, process_bulk_item)
              (process_bulk_at-Carries r (drop r.pos r.buf) (drop (r.pos - k) (drop k r.buf ++ b)) n
                _ v (read_line_lem r n v.valid e) (read_long_long_range (drop r.pos r.buf))
                (λ m le. part-extend k b r v (n + 2) m (omega (arith, length-drop r.pos r.buf))))
      ]

  finish_item-Carries :
      (c : Created Obj Store) (r : ReaderState Obj Store)
      → Carries k b (finish_item fns c r) (finish_item fns c (extend k b r))
  unfolding finish_item set_error_oom
  finish_item-Carries c r =
      (λ r' h. ground arith, λ r' h f. ground arith, λ h. ground arith, λ r' z h f. ground arith)

  enter_array-Carries :
      (n : ℤ) (c : Created Obj Store) (r : ReaderState Obj Store)
      → Carries k b (enter_array fns n c r) (enter_array fns n c (extend k b r))
  unfolding enter_array finish_item push_task set_error_oom
  enter_array-Carries n c r =
      (λ r' h. ground arith, λ r' h f. ground arith, λ h. ground arith, λ r' z h f. ground arith)

  -- The multi bulk item behind its line.
  abbrev elements_known :
      ℤ → ReaderState Obj Store → ReaderState Obj Store → Outcome (Status × ReaderState Obj Store)
  elements_known elements r r' =
      if eq_ℤ elements minus_one
      then finish_item fns (fns.create_nil r.rstack r.store) r'
      else enter_array fns elements (fns.create_array r.rstack (to_int32 elements) r.store) r'

  elements_known-Carries :
      (elements : ℤ) (r r' : ReaderState Obj Store)
      → Carries k b (elements_known elements r r') (elements_known elements r (extend k b r'))
  elements_known-Carries elements r r' = elim (Bool-cases (eq_ℤ elements minus_one)) [
    | inl e ↦ rw e (finish_item-Carries _ r')
    | inr e ↦ rw e (enter_array-Carries elements _ r')
  ]

  pub process_multi_bulk_item-Carries :
      (r : ReaderState Obj Store)
      → CanExtend k b r
      → Carries k b (process_multi_bulk_item fns r) (process_multi_bulk_item fns (extend k b r))
  unfolding process_multi_bulk_item read_line set_error
  process_multi_bulk_item-Carries r v = elim (Bool-cases (length r.rstack == 9)) [
    | inl deep ↦
        rw deep (
          λ r' h. ground arith,
          λ r' h f. ground arith,
          λ h. ground arith,
          λ r' z h f. ground arith,
        )
    | inr e ↦ rw e (elim (Option-cases (seek_newline (drop r.pos r.buf) (r.len - r.pos))) [
      | inl e ↦ rw e (
        λ r' h. ground arith,
        λ r' h f. ground arith,
        λ h. ground arith,
        λ r' z h f. ground (arith, seek-extend_none k b r v z e),
      )
      | inr (n, e) ↦
          let ahead : r.pos - k + (n + 2) ≡ r.pos + (n + 2) - k = omega arith in
          rw (e, seek-extend k b r v n e, number-extend k b r v n e, ahead)
            (elements_known-Carries (read_long_long (drop r.pos r.buf)) r
              (record r { pos = r.pos + (n + 2) }))
    ])
  ]
