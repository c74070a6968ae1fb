-- ===== src/Reader/Build/Steps.antt =====
-- One item of a value: the reader takes its line or its bytes and makes its object.
use multiplexing_hiredis.Common.{
  ℕ, ◌+◌, ◌-◌, ◌^◌, ◌%◌, ◌≤◌, ◌≡◌, refl, sym, ap, ◌∙◌, true, Option, none, some, List, [], ◌∷◌,
  ◌++◌, Bytes, length, take, drop, arith, leb, if◌then◌else◌, drop-drop, length-drop, length-append,
  drop-length-append, take-length-append,
}
use multiplexing_hiredis.Common.Int.{pos}
use multiplexing_hiredis.Common.Outcome.{Outcome, ok, abort}
use multiplexing_hiredis.Reader.State.{
  ReplyType, integer, status, error, Status, redis_ok, redis_err, ReadTask, created,
  ReplyObjectFunctions, ReaderState,
}
use multiplexing_hiredis.Reader.Scan.{seek_newline, read_long_long}
use multiplexing_hiredis.Reader.Scan.Line.{NoCr, seek_newline-line}
use multiplexing_hiredis.Reader.Items.{
  type_of_byte, move_to_next_task, is_root, read_bytes, read_line, finish_item, process_line_item,
  process_bulk_at, process_bulk_item, process_typed_item, process_type_byte, process_task,
  process_item,
}
use multiplexing_hiredis.Reader.Build.{with_type}

module _ {Obj Store : Type 0} where
  -- The reader `r` with another cursor, stack, reply and store.
  abbrev pub at :
      ReaderState Obj Store → ℕ → List (ReadTask Obj) → Option Obj → Store → ReaderState Obj Store
  at r p tasks reply store = record r { pos = p; rstack = tasks; reply = reply; store = store }

  -- The buffer of a valid reader goes on with `s` at `p`.
  pub record Text (r : ReaderState Obj Store) (p : ℕ) (s : Bytes) : Type 0 where
    pub len_of_buf : r.len ≡ length r.buf
    pub small : r.len ≤ 2 ^ 31
    pub within : p ≤ r.len
    pub text : drop p r.buf ≡ s

  pub Text-length :
      {r : ReaderState Obj Store} (p : ℕ) (s : Bytes) → Text r p s → p + length s ≡ r.len
  Text-length {r} p s t =
      omega (arith, t.len_of_buf, t.within, length-drop p r.buf, ap length t.text)

  pub Text-append :
      {r : ReaderState Obj Store} (p : ℕ) (s rest : Bytes)
      → Text r p (s ++ rest)
      → Text r (p + length s) rest
  Text-append {r} p s rest t = record {
    len_of_buf = t.len_of_buf;
    small = t.small;
    within = omega (arith, Text-length p (s ++ rest) t, length-append s rest);
    text =
        sym (drop-drop (length s) p r.buf)
        ∙ ap (drop (length s)) t.text
        ∙ drop-length-append s rest;
  }

-- What stands behind a line.
drop-line : (line rest : Bytes) → drop (length line + 2) (line ++ (13 ∷ 10 ∷ rest)) ≡ rest
drop-line line rest =
    sym (drop-drop 2 (length line) (line ++ (13 ∷ 10 ∷ rest)))
    ∙ ap (drop 2) (drop-length-append line (13 ∷ 10 ∷ rest))

module _ {Obj Store : Type 0} (fns : ReplyObjectFunctions Obj Store) where
  -- The object was made and the next task is known.
  pub finish_item-at :
      (r : ReaderState Obj Store) (p : ℕ) (tasks after : List (ReadTask Obj)) (reply : Option Obj)
      (store store' : Store) (obj : Obj)
      → move_to_next_task tasks ≡ ok after
      → finish_item fns (created obj store') (at r p tasks reply store)
        ≡ ok (redis_ok, at r p after (if is_root tasks then some obj else reply) store')
  unfolding finish_item
  finish_item-at r p tasks after reply store store' obj e = rw e refl

  read_bytes-at :
      (r : ReaderState Obj Store) (p c : ℕ) (s : Bytes) (tasks : List (ReadTask Obj))
      (reply : Option Obj) (store : Store)
      → Text r p (c ∷ s)
      → read_bytes (at r p tasks reply store) 1 ≡ some (c ∷ s, at r (p + 1) tasks reply store)
  unfolding read_bytes
  read_bytes-at r p c s tasks reply store w =
      let room : leb 1 (r.len - p) ≡ true = ground (arith, Text-length p (c ∷ s) w) in
      rw (read_bytes, w.text, room) refl

  -- The type byte of an item.
  pub process_item-type :
      (r : ReaderState Obj Store) (p c : ℕ) (s : Bytes) (t : ReplyType) (cur : ReadTask Obj)
      (parents : List (ReadTask Obj)) (reply : Option Obj) (store : Store)
      → Text r p (c ∷ s)
      → cur.type ≡ none
      → type_of_byte c ≡ some t
      → process_item fns (at r p (cur ∷ parents) reply store)
        ≡ process_typed_item fns t (at r (p + 1) (with_type t cur ∷ parents) reply store)
  unfolding process_item process_task process_type_byte
  process_item-type r p c s t cur parents reply store w e k =
      ap
        (λ ty. elim ty as (λ _. Outcome (Status × ReaderState Obj Store)) [
          | some t' ↦ process_typed_item fns t' (at r p (cur ∷ parents) reply store)
          | none ↦ byte (read_bytes (at r p (cur ∷ parents) reply store) 1)
        ])
        e
      ∙ ap byte (read_bytes-at r p c s (cur ∷ parents) reply store w)
      ∙ rw (process_type_byte, k) refl
    where
      byte : Option (Bytes × ReaderState Obj Store) → Outcome (Status × ReaderState Obj Store)
      byte o = elim o [
        | none ↦ ok (redis_err, at r p (cur ∷ parents) reply store)
        | some ([], _) ↦ abort
        | some (c ∷ _, r') ↦ process_type_byte fns cur parents c r'
      ]

  -- A line.
  pub read_line-at :
      (r : ReaderState Obj Store) (p : ℕ) (s rest : Bytes) (tasks : List (ReadTask Obj))
      (reply : Option Obj) (store : Store)
      → NoCr s
      → Text r p (s ++ (13 ∷ 10 ∷ rest))
      → read_line (at r p tasks reply store)
        ≡ some (s ++ (13 ∷ 10 ∷ rest), length s, at r (p + (length s + 2)) tasks reply store)
  unfolding read_line
  read_line-at r p s rest tasks reply store n w =
      let total = Text-length p (s ++ (13 ∷ 10 ∷ rest)) w in
      let found =
        seek_newline-line s rest (r.len - p) n
          (omega (arith, total, length-append s (13 ∷ 10 ∷ rest), w.small))
          (omega (arith, w.small)) in
      let line : seek_newline (drop p r.buf) (r.len - p) ≡ some (length s) = rw w.text found in
      rw (read_line, line)
        (ap (λ x. some (x, length s, at r (p + (length s + 2)) tasks reply store)) w.text)

  -- A line item: its object is asked for.
  pub process_line_item-integer :
      (r : ReaderState Obj Store) (p : ℕ) (s rest : Bytes) (tasks : List (ReadTask Obj))
      (reply : Option Obj) (store : Store)
      → NoCr s
      → Text r p (s ++ (13 ∷ 10 ∷ rest))
      → process_line_item fns integer (at r p tasks reply store)
        ≡ finish_item fns
            (fns.create_integer tasks (read_long_long (s ++ (13 ∷ 10 ∷ rest))) store)
            (at r (p + (length s + 2)) tasks reply store)
  unfolding process_line_item
  process_line_item-integer r p s rest tasks reply store n w =
      rw (process_line_item, read_line-at r p s rest tasks reply store n w) refl

  pub process_line_item-status :
      (r : ReaderState Obj Store) (p : ℕ) (s rest : Bytes) (tasks : List (ReadTask Obj))
      (reply : Option Obj) (store : Store)
      → NoCr s
      → Text r p (s ++ (13 ∷ 10 ∷ rest))
      → process_line_item fns status (at r p tasks reply store)
        ≡ finish_item fns
            (fns.create_string tasks s store)
            (at r (p + (length s + 2)) tasks reply store)
  unfolding process_line_item
  process_line_item-status r p s rest tasks reply store n w =
      rw (process_line_item, read_line-at r p s rest tasks reply store n w)
        (ap
          (λ x.
            finish_item fns (fns.create_string tasks x store)
              (at r (p + (length s + 2)) tasks reply store))
          (take-length-append s (13 ∷ 10 ∷ rest)))

  pub process_line_item-error :
      (r : ReaderState Obj Store) (p : ℕ) (s rest : Bytes) (tasks : List (ReadTask Obj))
      (reply : Option Obj) (store : Store)
      → NoCr s
      → Text r p (s ++ (13 ∷ 10 ∷ rest))
      → process_line_item fns error (at r p tasks reply store)
        ≡ finish_item fns
            (fns.create_string tasks s store)
            (at r (p + (length s + 2)) tasks reply store)
  unfolding process_line_item
  process_line_item-error r p s rest tasks reply store n w =
      rw (process_line_item, read_line-at r p s rest tasks reply store n w)
        (ap
          (λ x.
            finish_item fns (fns.create_string tasks x store)
              (at r (p + (length s + 2)) tasks reply store))
          (take-length-append s (13 ∷ 10 ∷ rest)))

  -- A bulk string, and NULL, by the line with the length.
  pub process_bulk_item-at :
      (r : ReaderState Obj Store) (p : ℕ) (s rest : Bytes) (tasks : List (ReadTask Obj))
      (reply : Option Obj) (store : Store)
      → NoCr s
      → Text r p (s ++ (13 ∷ 10 ∷ rest))
      → process_bulk_item fns (at r p tasks reply store)
        ≡ process_bulk_at fns
            (at r p tasks reply store)
            (s ++ (13 ∷ 10 ∷ rest))
            (length s)
            (read_long_long (s ++ (13 ∷ 10 ∷ rest)))
  unfolding process_bulk_item
  process_bulk_item-at r p s rest tasks reply store n w =
      let total = Text-length p (s ++ (13 ∷ 10 ∷ rest)) w in
      let found =
        seek_newline-line s rest (r.len - p) n
          (omega (arith, total, length-append s (13 ∷ 10 ∷ rest), w.small))
          (omega (arith, w.small)) in
      let line : seek_newline (drop p r.buf) (r.len - p) ≡ some (length s) = rw w.text found in
      rw (process_bulk_item, line)
        (ap (λ x. process_bulk_at fns (at r p tasks reply store) x (length s) (read_long_long x))
          w.text)

  pub process_bulk_at-string :
      (r : ReaderState Obj Store) (p : ℕ) (line s rest : Bytes) (tasks : List (ReadTask Obj))
      (reply : Option Obj) (store : Store)
      → Text r p (line ++ (13 ∷ 10 ∷ s ++ (13 ∷ 10 ∷ rest)))
      → process_bulk_at fns
          (at r p tasks reply store)
          (line ++ (13 ∷ 10 ∷ s ++ (13 ∷ 10 ∷ rest)))
          (length line)
          (pos (length s))
        ≡ finish_item fns
            (fns.create_string tasks s store)
            (at r (p + (length line + 2 + (length s + 2))) tasks reply store)
  unfolding process_bulk_at
  process_bulk_at-string r p line s rest tasks reply store w =
      let total = Text-length p (line ++ (13 ∷ 10 ∷ s ++ (13 ∷ 10 ∷ rest))) w in
      let total' = length-append line (13 ∷ 10 ∷ s ++ (13 ∷ 10 ∷ rest)) in
      let total'' = length-append s (13 ∷ 10 ∷ rest) in
      let small : (length line + 2 + (length s + 2)) % 2 ^ 64 ≡ length line + 2 + (length s + 2) =
        omega (arith, w.small) in
      let fits : leb ((p + (length line + 2 + (length s + 2))) % 2 ^ 64) r.len ≡ true =
        ground (arith, w.small) in
      rw (process_bulk_at, small, fits)
        (ap
          (λ x.
            finish_item fns (fns.create_string tasks x store)
              (at r (p + (length line + 2 + (length s + 2))) tasks reply store))
          (ap (take (length s)) (drop-line line (s ++ (13 ∷ 10 ∷ rest)))
            ∙ take-length-append s (13 ∷ 10 ∷ rest)))
