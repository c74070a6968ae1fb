-- ===== src/Reader/CarryItem.antt =====
-- `process_item` on a longer buffer, and an item that waits for bytes.
use multiplexing_hiredis.Common.{
  ℕ, suc, ◌+◌, ◌-◌, ◌≡◌, refl, ap, inl, inr, some, List, [], ◌∷◌, arith, length, drop, Option-cases,
  List-cases, length-drop, Bytes,
}
use multiplexing_hiredis.Reader.State.{
  ReplyType, string, array, integer, nil, status, error, ReplyObjectFunctions, ReaderState,
  ReadTask, set_error_protocol_byte,
}
use multiplexing_hiredis.Reader.Items.{
  type_of_byte, read_bytes, process_typed_item, process_type_byte, process_task, process_item,
}
use multiplexing_hiredis.Reader.Carry.{
  extend, Carries, CanExtend, drop-extend, process_line_item-Carries, process_bulk_item-Carries,
  process_multi_bulk_item-Carries,
}

module _ {Obj Store : Type 0} (fns : ReplyObjectFunctions Obj Store) (k : ℕ) (b : Bytes) where
  process_typed_item-Carries :
      (t : ReplyType) (r : ReaderState Obj Store)
      → CanExtend k b r
      → Carries k b (process_typed_item fns t r) (process_typed_item fns t (extend k b r))
  unfolding process_typed_item
  process_typed_item-Carries error r v = process_line_item-Carries fns k b error r v
  process_typed_item-Carries status r v = process_line_item-Carries fns k b status r v
  process_typed_item-Carries integer r v = process_line_item-Carries fns k b integer r v
  process_typed_item-Carries string r v = process_bulk_item-Carries fns k b r v
  process_typed_item-Carries array r v = process_multi_bulk_item-Carries fns k b r v
  process_typed_item-Carries nil r v = (λ r' h. cc, λ r' h f. cc, λ h. refl, λ r' z h f. cc)

  process_type_byte-Carries :
      (cur : ReadTask Obj) (parents : List (ReadTask Obj)) (c : ℕ) (r : ReaderState Obj Store)
      → CanExtend k b r
      → Carries k b
          (process_type_byte fns cur parents c r)
          (process_type_byte fns cur parents c (extend k b r))
  unfolding process_type_byte set_error_protocol_byte
  process_type_byte-Carries cur parents c r v = elim (Option-cases (type_of_byte c)) [
    | inl e ↦
        rw (e, process_type_byte)
          (
            λ r' h. ground arith,
            λ r' h f. ground arith,
            λ h. ground arith,
            λ r' z h f. ground arith,
          )
    | inr (t, e) ↦
        rw (e, process_type_byte)
          (process_typed_item-Carries t
            (record r { rstack = record cur { type = some t } ∷ parents }) (ground arith))
  ]

  process_task-Carries :
      (tasks : List (ReadTask Obj)) (r : ReaderState Obj Store)
      → CanExtend k b r
      → Carries k b (process_task fns tasks r) (process_task fns tasks (extend k b r))
  unfolding process_task read_bytes
  process_task-Carries [] r v = (λ r' h. cc, λ r' h f. cc, λ h. refl, λ r' z h f. cc)
  process_task-Carries (cur ∷ parents) r v = elim (Option-cases cur.type) [
    | inr (t, e) ↦ rw e (process_typed_item-Carries t r v)
    | inl e ↦ elim (List-cases (drop r.pos r.buf)) [
      | inl d ↦
          let z = length-drop r.pos r.buf in
          let y : length (drop r.pos r.buf) ≡ 0 = ap length d in
          (
            λ r' h. ground arith,
            λ r' h f. ground arith,
            λ h. ground arith,
            λ r' z h f. ground arith,
          )
      | inr (c, s, d) ↦
          let z = length-drop r.pos r.buf in
          let x = drop-extend k b r v in
          let y : length (drop r.pos r.buf) ≡ suc (length s) = ap length d in
          let ahead : r.pos + 1 - k ≡ r.pos - k + 1 = omega arith in
          let w =
            process_type_byte-Carries cur parents c (record r { pos = r.pos + 1 }) (ground arith) in
          (
            λ r' h. ground (arith, w.0 r'),
            λ r' h f. ground (arith, w.1 r'),
            λ h. ground (arith, w.2),
            λ r' z h f. ground (arith, w.3 r'),
          )
    ]
  ]

  pub process_item-Carries :
      (r : ReaderState Obj Store)
      → CanExtend k b r
      → Carries k b (process_item fns r) (process_item fns (extend k b r))
  unfolding process_item
  process_item-Carries r v = process_task-Carries r.rstack r v
