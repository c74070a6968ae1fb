-- ===== src/Reader/Items.antt =====
-- read.c: `readBytes`, `readLine`, the task stack and the processing of one item.
use multiplexing_hiredis.Common.{
  ℕ, zero, suc, ◌+◌, ◌-◌, ◌%◌, ◌^◌, Bool, true, false, Option, none, some, List, [], ◌∷◌, leb, ◌==◌,
  if◌then◌else◌, Bytes, codes, length, take, drop,
}
use multiplexing_hiredis.Common.Int.{
  ℤ, pos, negsuc, eq_ℤ, ltb_ℤ, minus_one, suc_ℤ, pred_ℤ, to_int32,
}
use multiplexing_hiredis.Common.Outcome.{Outcome, ok, abort, out_of_fuel, ◌>>=◌, ◌>>◌, assert}
use multiplexing_hiredis.Reader.State.{
  ReplyType, string, array, integer, nil, status, error, protocol, Status, redis_ok, redis_err,
  ReadTask, Created, created, null_object, fault, ReplyObjectFunctions, ReaderState, set_error,
  set_error_protocol_byte, set_error_oom,
}
use multiplexing_hiredis.Reader.Scan.{seek_newline, read_long_long}

-- The switch on the first byte of an item.
abbrev pub type_of_byte : ℕ → Option ReplyType
type_of_byte c =
    if c == 45
    then some error
    else if c == 43
    then some status
    else if c == 58
    then some integer
    else if c == 36
    then some string
    else if c == 42
    then some array
    else none

abbrev pub is_array : Option ReplyType → Bool
is_array (some array) = true
is_array _ = false

module _ {Obj : Type 0} where
  -- A task of which nothing is known yet, at an index of its parent.
  abbrev pub fresh_task : ℤ → ReadTask Obj
  fresh_task i = record { type = none; elements = minus_one; idx = i; obj = none }

  -- moveToNextTask
  unfoldable pub move_to_next_task : List (ReadTask Obj) → Outcome (List (ReadTask Obj))
  move_to_next_task [] = ok []
  move_to_next_task (cur ∷ []) = ok []
  move_to_next_task (cur ∷ prv ∷ rest) =
      let up = move_to_next_task (prv ∷ rest) in
      assert (is_array prv.type)
      >> (if eq_ℤ cur.idx (pred_ℤ prv.elements)
          then up
          else assert (ltb_ℤ cur.idx prv.elements)
            >> ok (
                record cur { type = none; elements = minus_one; idx = suc_ℤ cur.idx } ∷ prv ∷ rest))

  -- `r->ridx == 0`
  abbrev pub is_root : List (ReadTask Obj) → Bool
  is_root tasks = length tasks == 1

module _ {Obj Store : Type 0} where
  -- readBytes: the text from the cursor on, and the reader behind the bytes read
  unfoldable pub read_bytes : ReaderState Obj Store → ℕ → Option (Bytes × ReaderState Obj Store)
  read_bytes r bytes =
      if leb bytes (r.len - r.pos)
      then some (drop r.pos r.buf, record r { pos = r.pos + bytes })
      else none

  -- readLine: the text from the cursor on, the length of its first line, and the reader behind
  -- the line and its \r\n
  unfoldable pub read_line : ReaderState Obj Store → Option (Bytes × ℕ × ReaderState Obj Store)
  read_line r =
      let p = drop r.pos r.buf in
      elim (seek_newline p (r.len - r.pos)) [
        | none ↦ none
        | some n ↦ some (p, n, record r { pos = r.pos + (n + 2) })
      ]

module _ {Obj Store : Type 0} (fns : ReplyObjectFunctions Obj Store) where
  -- The object of an item has been asked for: out of memory, or the reply if this is the root,
  -- and on to the next task.
  unfoldable pub finish_item :
      Created Obj Store → ReaderState Obj Store → Outcome (Status × ReaderState Obj Store)
  finish_item fault r = abort
  finish_item (null_object store) r = ok (redis_err, set_error_oom fns (record r { store = store }))
  finish_item (created obj store) r = do
    rstack ← move_to_next_task r.rstack
    ok (
      redis_ok,
      record r {
        rstack = rstack;
        reply = if is_root r.rstack then some obj else r.reply;
        store = store;
      },
    )

  -- processLineItem, on a task of the given type
  unfoldable pub process_line_item :
      ReplyType → ReaderState Obj Store → Outcome (Status × ReaderState Obj Store)
  unfolding finish_item
  process_line_item type r = elim (read_line r) [
    | none ↦ ok (redis_err, r)
    | some (p, len, r') ↦ elim type [
      | integer ↦ finish_item (fns.create_integer r.rstack (read_long_long p) r.store) r'
      | _ ↦ finish_item (fns.create_string r.rstack (take len p) r.store) r'
    ]
  ]

  -- The part of processBulkItem behind the search for the end of the line, at offset `n` of the
  -- text `p` from the cursor on.
  unfoldable pub process_bulk_at :
      ReaderState Obj Store → Bytes → ℕ → ℤ → Outcome (Status × ReaderState Obj Store)
  unfolding finish_item
  process_bulk_at r p n (negsuc _) =
      finish_item (fns.create_nil r.rstack r.store) (record r { pos = r.pos + (n + 2) })
  process_bulk_at r p n (pos len) =
      let bytelen = (n + 2 + (len + 2)) % 2 ^ 64 in
      if leb ((r.pos + bytelen) % 2 ^ 64) r.len
      then finish_item (fns.create_string r.rstack (take len (drop (n + 2) p)) r.store)
          (record r { pos = r.pos + bytelen })
      else ok (redis_err, r)

  -- processBulkItem
  unfoldable pub process_bulk_item :
      ReaderState Obj Store → Outcome (Status × ReaderState Obj Store)
  unfolding process_bulk_at
  process_bulk_item r =
      let p = drop r.pos r.buf in
      elim (seek_newline p (r.len - r.pos)) [
        | none ↦ ok (redis_err, r)
        | some n ↦ process_bulk_at r p n (read_long_long p)
      ]

  -- The task stack gets an entry for the first element of an array.
  unfoldable pub push_task :
      ℤ
      → Obj
      → Store
      → List (ReadTask Obj)
      → ReaderState Obj Store
      → Outcome (Status × ReaderState Obj Store)
  push_task elements obj store [] r = abort
  push_task elements obj store (cur ∷ parents) r = ok (
    redis_ok,
    record r {
      rstack =
          fresh_task (pos 0)
          ∷ record cur { elements = to_int32 elements; obj = some obj }
          ∷ parents;
      reply = if is_root r.rstack then some obj else r.reply;
      store = store;
    },
  )

  -- The array object has been asked for: its first element is the next task, if it has any.
  unfoldable pub enter_array :
      ℤ → Created Obj Store → ReaderState Obj Store → Outcome (Status × ReaderState Obj Store)
  unfolding finish_item push_task
  enter_array elements fault r = abort
  enter_array elements (null_object store) r =
      ok (redis_err, set_error_oom fns (record r { store = store }))
  enter_array elements (created obj store) r =
      if ltb_ℤ (pos 0) elements
      then push_task elements obj store r.rstack r
      else finish_item (created obj store) r

  depth_message : Bytes
  depth_message = codes "No support for nested multi bulk replies with depth > 7"

  -- processMultiBulkItem
  unfoldable pub process_multi_bulk_item :
      ReaderState Obj Store → Outcome (Status × ReaderState Obj Store)
  unfolding finish_item enter_array depth_message
  process_multi_bulk_item r =
      if length r.rstack == 9
      then ok (redis_err, set_error fns protocol depth_message r)
      else elim (read_line r) [
        | none ↦ ok (redis_err, r)
        | some (p, _, r') ↦
            let elements = read_long_long p in
            if eq_ℤ elements minus_one
            then finish_item (fns.create_nil r.rstack r.store) r'
            else enter_array elements (fns.create_array r.rstack (to_int32 elements) r.store) r'
      ]

  -- The second switch of processItem; its default is `assert(NULL)`.
  unfoldable pub process_typed_item :
      ReplyType → ReaderState Obj Store → Outcome (Status × ReaderState Obj Store)
  unfolding process_line_item process_bulk_item process_multi_bulk_item
  process_typed_item error r = process_line_item error r
  process_typed_item status r = process_line_item status r
  process_typed_item integer r = process_line_item integer r
  process_typed_item string r = process_bulk_item r
  process_typed_item array r = process_multi_bulk_item r
  process_typed_item nil r = abort

  -- The type byte `c` of the task `cur` has been read.
  unfoldable pub process_type_byte :
      ReadTask Obj
      → List (ReadTask Obj)
      → ℕ
      → ReaderState Obj Store
      → Outcome (Status × ReaderState Obj Store)
  unfolding process_typed_item
  process_type_byte cur parents c r = elim (type_of_byte c) [
    | none ↦ ok (redis_err, set_error_protocol_byte fns c r)
    | some t ↦ process_typed_item t (record r { rstack = record cur { type = some t } ∷ parents })
  ]

  -- processItem, with the stack split into the current task and its parents
  unfoldable pub process_task :
      List (ReadTask Obj) → ReaderState Obj Store → Outcome (Status × ReaderState Obj Store)
  unfolding process_type_byte
  process_task [] r = abort
  process_task (cur ∷ parents) r = elim cur.type [
    | some t ↦ process_typed_item t r
    | none ↦ elim (read_bytes r 1) [
      | none ↦ ok (redis_err, r)
      | some ([], _) ↦ abort
      | some (c ∷ _, r') ↦ process_type_byte cur parents c r'
    ]
  ]

  unfoldable pub process_item : ReaderState Obj Store → Outcome (Status × ReaderState Obj Store)
  unfolding process_task
  process_item r = process_task r.rstack r

  -- One round of the loop: go on while items are processed.
  abbrev pub next_item :
      (ReaderState Obj Store → Outcome (ReaderState Obj Store))
      → Outcome (Status × ReaderState Obj Store)
      → Outcome (ReaderState Obj Store)
  next_item more (ok (redis_ok, r)) = more r
  next_item more (ok (redis_err, r)) = ok r
  next_item more abort = abort
  next_item more out_of_fuel = out_of_fuel

  -- The loop of redisReaderGetReply. Every item that is processed takes a byte at least.
  unfoldable pub process_items : ℕ → ReaderState Obj Store → Outcome (ReaderState Obj Store)
  process_items zero r = out_of_fuel
  process_items (suc fuel) r =
      if length r.rstack == 0 then ok r else next_item (process_items fuel) (process_item r)
