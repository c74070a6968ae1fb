-- ===== src/Reader/Progress.antt =====
-- What one item does to the buffer and the cursor.
use multiplexing_hiredis.Common.{
  ℕ, ◌+◌, ◌-◌, ◌^◌, ◌≤◌, ◌<◌, ◌≡◌, refl, inl, inr, some, List, [], ◌∷◌, arith, length, drop,
  Option-cases, List-cases, length-drop, Bytes,
}
use multiplexing_hiredis.Common.Int.{ℤ, pos, negsuc, to_int32}
use multiplexing_hiredis.Common.Outcome.{ok}
use multiplexing_hiredis.Reader.State.{
  ReplyType, string, array, integer, nil, status, error, redis_ok, Created, ReplyObjectFunctions,
  ReaderState, ReadTask,
}
use multiplexing_hiredis.Reader.Scan.{seek_newline, read_long_long}
use multiplexing_hiredis.Reader.Scan.Find.{seek_newline-lt}
use multiplexing_hiredis.Reader.Scan.Number.{read_long_long_range}
use multiplexing_hiredis.Reader.Items.{
  finish_item, type_of_byte, enter_array, read_line, read_bytes, process_line_item, process_bulk_at,
  process_bulk_item, process_multi_bulk_item, process_typed_item, process_type_byte, process_task,
  process_item,
}

module _ {Obj Store : Type 0} where
  -- The cached length is that of the buffer, the cursor stands within it, and the buffer holds no
  -- more than 2 GB.
  pub record IsValid (r : ReaderState Obj Store) : Type 0 where
    pub len_of_buf : r.len ≡ length r.buf
    pub pos_within : r.pos ≤ r.len
    pub small : r.len ≤ 2 ^ 31

  -- `r'` is reached from `r` with the cursor moved on by `n` bytes at least, in the same buffer
  -- and with the same error.
  pub record Advanced (n : ℕ) (r r' : ReaderState Obj Store) : Type 0 where
    pub same_buf : r'.buf ≡ r.buf
    pub same_len : r'.len ≡ r.len
    pub same_err : r'.err ≡ r.err
    pub further : r.pos + n ≤ r'.pos
    pub within : r'.pos ≤ r.len

  pub read_line_lem :
      (r : ReaderState Obj Store) (n : ℕ)
      → IsValid r
      → seek_newline (drop r.pos r.buf) (r.len - r.pos) ≡ some n
      → r.pos + (n + 2) ≤ r.len
  read_line_lem r n v h = omega (arith, seek_newline-lt _ _ n h, length-drop r.pos r.buf)

module _ {Obj Store : Type 0} (fns : ReplyObjectFunctions Obj Store) where
  pub finish_item-Advanced :
      (c : Created Obj Store) (r r' : ReaderState Obj Store)
      → r.pos ≤ r.len
      → finish_item fns c r ≡ ok (redis_ok, r')
      → Advanced 0 r r'
  unfolding finish_item
  finish_item-Advanced c r r' v h = ground arith

  pub enter_array-Advanced :
      (n : ℤ) (c : Created Obj Store) (r r' : ReaderState Obj Store)
      → r.pos ≤ r.len
      → enter_array fns n c r ≡ ok (redis_ok, r')
      → Advanced 0 r r'
  unfolding enter_array
  enter_array-Advanced n c r r' v h = ground arith

  process_line_item-Advanced :
      (t : ReplyType) (r r' : ReaderState Obj Store)
      → IsValid r
      → process_line_item fns t r ≡ ok (redis_ok, r')
      → Advanced 1 r r'
  unfolding process_line_item read_line finish_item
  process_line_item-Advanced t r r' v h =
      elim (Option-cases (seek_newline (drop r.pos r.buf) (r.len - r.pos))) [
        | inl e ↦ ground arith
        | inr (n, e) ↦ ground (arith, read_line_lem r n v e)
      ]

  process_bulk_at-Advanced :
      (r r' : ReaderState Obj Store) (p : Bytes) (n : ℕ)
      → r.len ≤ 2 ^ 31
      → r.pos + (n + 2) ≤ r.len
      → process_bulk_at fns r p n (read_long_long p) ≡ ok (redis_ok, r')
      → Advanced 1 r r'
  process_bulk_at-Advanced r r' p n fits le = by_length (read_long_long p) (read_long_long_range p)
    where
      by_length :
          (len : ℤ)
          → ((m : ℕ) → len ≡ pos m → m < 2 ^ 63)
          → process_bulk_at fns r p n len ≡ ok (redis_ok, r')
          → Advanced 1 r r'
      by_length (negsuc m) range h = unfold process_bulk_at finish_item in ground arith
      by_length (pos m) range h =
          let bound = range m refl in unfold process_bulk_at finish_item in ground arith

  process_bulk_item-Advanced :
      (r r' : ReaderState Obj Store)
      → IsValid r
      → process_bulk_item fns r ≡ ok (redis_ok, r')
      → Advanced 1 r r'
  unfolding process_bulk_item
  process_bulk_item-Advanced r r' v h =
      elim (Option-cases (seek_newline (drop r.pos r.buf) (r.len - r.pos))) [
        | inl e ↦ ground arith
        | inr (n, e) ↦
            process_bulk_at-Advanced r r' _ n v.small (read_line_lem r n v e)
              (rw (e, process_bulk_item) at h)
      ]

  process_multi_bulk_item-Advanced :
      (r r' : ReaderState Obj Store)
      → IsValid r
      → process_multi_bulk_item fns r ≡ ok (redis_ok, r')
      → Advanced 1 r r'
  unfolding process_multi_bulk_item read_line
  process_multi_bulk_item-Advanced r r' v h =
      elim (Option-cases (seek_newline (drop r.pos r.buf) (r.len - r.pos))) [
        | inl e ↦ ground arith
        | inr (n, e) ↦
            let r'' = record r { pos = r.pos + (n + 2) } in
            ground (
              arith,
              read_line_lem r n v e,
              finish_item-Advanced (fns.create_nil r.rstack r.store) r'' r',
              enter_array-Advanced (read_long_long (drop r.pos r.buf))
                  (fns.create_array r.rstack (to_int32 (read_long_long (drop r.pos r.buf))) r.store)
                  r'' r',
            )
      ]

  process_typed_item-Advanced :
      (t : ReplyType) (r r' : ReaderState Obj Store)
      → IsValid r
      → process_typed_item fns t r ≡ ok (redis_ok, r')
      → Advanced 1 r r'
  unfolding process_typed_item
  process_typed_item-Advanced error r r' v h = process_line_item-Advanced error r r' v h
  process_typed_item-Advanced status r r' v h = process_line_item-Advanced status r r' v h
  process_typed_item-Advanced integer r r' v h = process_line_item-Advanced integer r r' v h
  process_typed_item-Advanced string r r' v h = process_bulk_item-Advanced r r' v h
  process_typed_item-Advanced array r r' v h = process_multi_bulk_item-Advanced r r' v h
  process_typed_item-Advanced nil r r' v h = cc

  process_type_byte-Advanced :
      (cur : ReadTask Obj) (parents : List (ReadTask Obj)) (c : ℕ) (r r' : ReaderState Obj Store)
      → IsValid r
      → process_type_byte fns cur parents c r ≡ ok (redis_ok, r')
      → Advanced 1 r r'
  unfolding process_type_byte
  process_type_byte-Advanced cur parents c r r' v h = elim (Option-cases (type_of_byte c)) [
    | inl e ↦ ground arith
    | inr (t, e) ↦
        let r'' = record r { rstack = record cur { type = some t } ∷ parents } in
        let a =
          process_typed_item-Advanced t r'' r' (omega arith) (rw (e, process_type_byte) at h) in
        ground arith
  ]

  process_task-Advanced :
      (tasks : List (ReadTask Obj)) (r r' : ReaderState Obj Store)
      → IsValid r
      → process_task fns tasks r ≡ ok (redis_ok, r')
      → Advanced 1 r r'
  unfolding process_task read_bytes
  process_task-Advanced [] r r' v h = cc
  process_task-Advanced (cur ∷ parents) r r' v h = elim (Option-cases cur.type) [
    | inr (t, e) ↦ process_typed_item-Advanced t r r' v (rw (e, process_task) at h)
    | inl e ↦ elim (List-cases (drop r.pos r.buf)) [
      | inl d ↦ ground arith
      | inr (c, s, d) ↦ ground (
        arith,
        length-drop r.pos r.buf,
        process_type_byte-Advanced cur parents c (record r { pos = r.pos + 1 }) r',
      )
    ]
  ]

  pub process_item-Advanced :
      (r r' : ReaderState Obj Store)
      → IsValid r
      → process_item fns r ≡ ok (redis_ok, r')
      → Advanced 1 r r'
  unfolding process_item
  process_item-Advanced r r' v h = process_task-Advanced r.rstack r r' v h
