-- ===== src/Reader/Build/Values.antt =====
-- A whole value: the reader makes it in as many items as it has.
pub mod Arrays
use multiplexing_hiredis.Common.{
  ℕ, zero, suc, ◌+◌, ◌-◌, ◌^◌, ◌<◌, ◌≤◌, ◌≡◌, refl, sym, ap, ◌∙◌, subst, Bool, true, false, Option,
  none, some, List, [], ◌∷◌, ◌++◌, Bytes, length, arith, leb, if◌then◌else◌, length-append,
  append_assoc, ◌==◌,
}
use multiplexing_hiredis.Common.Int.{
  ℤ, pos, negsuc, to_int32, to_int32_small, eq_ℤ, ltb_ℤ, minus_one,
}
use multiplexing_hiredis.Common.Outcome.{Outcome, ok}
use multiplexing_hiredis.Common.Decimal.{print_nat, print_int}
use multiplexing_hiredis.Common.Digits.{print_nat-AllDigits}
use multiplexing_hiredis.Reader.State.{
  ReplyType, string, array, integer, nil, status, error, redis_ok, ReadTask, Created, created,
  null_object, fault, ReplyObjectFunctions, ReaderState,
}
use multiplexing_hiredis.Reader.Scan.{read_long_long}
use multiplexing_hiredis.Reader.Scan.Line.{
  NoCr, InRange, AllDigits-NoCr, read_long_long-print_nat, read_long_long-print_int, print_int-NoCr,
}
use multiplexing_hiredis.Reader.Items.{
  fresh_task, move_to_next_task, is_root, finish_item, process_bulk_at, process_multi_bulk_item,
  enter_array, push_task, process_typed_item, process_item,
}
use multiplexing_hiredis.Reader.Build.{
  IsReadable, AllReadable, with_type, parent_task, settled, sibling, completed, built, built_items,
}
use multiplexing_hiredis.Reader.Build.Steps.{
  at, Text, Text-length, Text-append, finish_item-at, process_item-type, process_line_item-integer,
  process_line_item-status, process_line_item-error, process_bulk_item-at, process_bulk_at-string,
  read_line-at,
}
use multiplexing_hiredis.Resp.{Value, Items, count, no_items, item, encode, encode_items, crlf}

module _ {Obj Store : Type 0} (fns : ReplyObjectFunctions Obj Store) where
  -- Items that are processed one after the other.
  pub data Runs : ReaderState Obj Store → ReaderState Obj Store → Type 0 where
    done : {r : ReaderState Obj Store} → Runs r r
    next :
        {r r₁ r' : ReaderState Obj Store}
        → process_item fns r ≡ ok (redis_ok, r₁)
        → Runs r₁ r'
        → Runs r r'

  pub Runs-trans : {a b c : ReaderState Obj Store} → Runs a b → Runs b c → Runs a c
  Runs-trans done w = w
  Runs-trans (next e v) w = next e (Runs-trans v w)

  -- The text behind the type byte.
  pub behind-Text :
      {r : ReaderState Obj Store} (p c : ℕ) (s t : Bytes)
      → s ≡ t
      → Text r p (c ∷ s)
      → Text r (p + 1) t
  behind-Text {r} p c s t e w = subst (λ x. Text r (p + 1) x) e (Text-append p (c ∷ []) s w)

  -- The last item of a value.
  pub last_item :
      (r : ReaderState Obj Store) (p q q' : ℕ) (tasks after : List (ReadTask Obj))
      (reply : Option Obj) (store store' : Store) (obj : Obj) (made : Created Obj Store)
      (a : ReaderState Obj Store)
      → process_item fns a ≡ finish_item fns made (at r q tasks reply store)
      → made ≡ created obj store'
      → move_to_next_task tasks ≡ ok after
      → q ≡ q'
      → Runs a (at r q' after (if is_root tasks then some obj else reply) store')
  last_item r p q q' tasks after reply store store' obj made a step e m same =
      next
        (step
          ∙ ap (λ x. finish_item fns x (at r q tasks reply store)) e
          ∙ finish_item-at fns r q tasks after reply store store' obj m
          ∙ ap (λ x. ok (redis_ok, at r x after (if is_root tasks then some obj else reply) store'))
              same)
        done

  -- What the reader does with one value, in a context that is given.
  unfoldable pub Reads :
      ReaderState Obj Store → ℕ → Value → Bytes → ReadTask Obj → List (ReadTask Obj) → Type 0
  Reads r p v rest cur parents =
      (reply : Option Obj) (store store' : Store) (obj : Obj) (after : List (ReadTask Obj))
      → built fns v cur parents store ≡ created obj store'
      → move_to_next_task (settled v cur obj ∷ parents) ≡ ok after
      → Runs (at r p (cur ∷ parents) reply store) (
          at r (p + length (encode v)) after (if is_root (cur ∷ parents) then some obj else reply)
            store')

  pub status-Reads :
      (r : ReaderState Obj Store) (p : ℕ) (s rest : Bytes) (cur : ReadTask Obj)
      (parents : List (ReadTask Obj))
      → NoCr s
      → Text r p (encode (Value.status s) ++ rest)
      → cur.type ≡ none
      → Reads r p (Value.status s) rest cur parents
  unfolding Reads encode built process_typed_item
  status-Reads r p s rest cur parents n w e reply store store' obj after b m =
      let line =
        behind-Text p 43 ((s ++ crlf) ++ rest) (s ++ (crlf ++ rest)) (append_assoc s crlf rest) w in
      last_item r p (p + 1 + (length s + 2)) (p + length (encode (Value.status s)))
        (with_type status cur ∷ parents) after reply store store' obj
        (fns.create_string (with_type status cur ∷ parents) s store)
        (at r p (cur ∷ parents) reply store)
        (process_item-type fns r p 43 ((s ++ crlf) ++ rest) status cur parents reply store w e refl
          ∙ process_line_item-status fns r (p + 1) s rest (with_type status cur ∷ parents) reply
              store n line)
        b m (omega (arith, length-append s crlf))

  pub error-Reads :
      (r : ReaderState Obj Store) (p : ℕ) (s rest : Bytes) (cur : ReadTask Obj)
      (parents : List (ReadTask Obj))
      → NoCr s
      → Text r p (encode (Value.error s) ++ rest)
      → cur.type ≡ none
      → Reads r p (Value.error s) rest cur parents
  unfolding Reads encode built process_typed_item
  error-Reads r p s rest cur parents n w e reply store store' obj after b m =
      let line =
        behind-Text p 45 ((s ++ crlf) ++ rest) (s ++ (crlf ++ rest)) (append_assoc s crlf rest) w in
      last_item r p (p + 1 + (length s + 2)) (p + length (encode (Value.error s)))
        (with_type error cur ∷ parents) after reply store store' obj
        (fns.create_string (with_type error cur ∷ parents) s store)
        (at r p (cur ∷ parents) reply store)
        (process_item-type fns r p 45 ((s ++ crlf) ++ rest) error cur parents reply store w e refl
          ∙ process_line_item-error fns r (p + 1) s rest (with_type error cur ∷ parents) reply store
              n line)
        b m (omega (arith, length-append s crlf))

  pub integer-Reads :
      (r : ReaderState Obj Store) (p : ℕ) (z : ℤ) (rest : Bytes) (cur : ReadTask Obj)
      (parents : List (ReadTask Obj))
      → InRange z
      → Text r p (encode (Value.integer z) ++ rest)
      → cur.type ≡ none
      → Reads r p (Value.integer z) rest cur parents
  unfolding Reads encode built process_typed_item
  integer-Reads r p z rest cur parents small w e reply store store' obj after b m =
      let s = print_int z in
      let line =
        behind-Text p 58 ((s ++ crlf) ++ rest) (s ++ (crlf ++ rest)) (append_assoc s crlf rest) w in
      let tasks = with_type integer cur ∷ parents in
      last_item r p (p + 1 + (length s + 2)) (p + length (encode (Value.integer z))) tasks after
        reply store store' obj (fns.create_integer tasks z store)
        (at r p (cur ∷ parents) reply store)
        (process_item-type fns r p 58 ((s ++ crlf) ++ rest) integer cur parents reply store w e refl
          ∙ process_line_item-integer fns r (p + 1) s rest tasks reply store (print_int-NoCr z) line
          ∙ ap
              (λ k.
                finish_item fns (fns.create_integer tasks k store)
                  (at r (p + 1 + (length s + 2)) tasks reply store))
              (read_long_long-print_int z (10 ∷ rest) small))
        b m (omega (arith, length-append s crlf))

  pub bulk-Reads :
      (r : ReaderState Obj Store) (p : ℕ) (s rest : Bytes) (cur : ReadTask Obj)
      (parents : List (ReadTask Obj))
      → Text r p (encode (Value.bulk s) ++ rest)
      → cur.type ≡ none
      → Reads r p (Value.bulk s) rest cur parents
  unfolding Reads encode built process_typed_item
  bulk-Reads r p s rest cur parents w e reply store store' obj after b m =
      let line = print_nat (length s) in
      let n = AllDigits-NoCr line (print_nat-AllDigits (length s)) in
      let tasks = with_type string cur ∷ parents in
      let same : (line ++ (crlf ++ (s ++ crlf))) ++ rest ≡ line ++ (crlf ++ (s ++ (crlf ++ rest))) =
        append_assoc line (crlf ++ (s ++ crlf)) rest
        ∙ ap (λ x. line ++ (crlf ++ x)) (append_assoc s crlf rest) in
      let w' =
        behind-Text p 36 ((line ++ (crlf ++ (s ++ crlf))) ++ rest)
          (line ++ (crlf ++ (s ++ (crlf ++ rest)))) same w in
      let total = Text-length (p + 1) (line ++ (crlf ++ (s ++ (crlf ++ rest)))) w' in
      let total' = length-append line (crlf ++ (s ++ (crlf ++ rest))) in
      let total'' = length-append s (crlf ++ rest) in
      let fits = w'.small in
      last_item r p (p + 1 + (length line + 2 + (length s + 2)))
        (p + length (encode (Value.bulk s))) tasks after reply store store' obj
        (fns.create_string tasks s store) (at r p (cur ∷ parents) reply store)
        (process_item-type fns r p 36 ((line ++ (crlf ++ (s ++ crlf))) ++ rest) string cur parents
            reply store w e refl
          ∙ process_bulk_item-at fns r (p + 1) line (s ++ (crlf ++ rest)) tasks reply store n w'
          ∙ ap
              (λ k.
                process_bulk_at fns (at r (p + 1) tasks reply store)
                  (line ++ (crlf ++ (s ++ (crlf ++ rest)))) (length line) k)
              (read_long_long-print_nat (length s) (10 ∷ s ++ (crlf ++ rest)) (omega arith))
          ∙ process_bulk_at-string fns r (p + 1) line s rest tasks reply store w')
        b m (omega (arith, length-append line (crlf ++ (s ++ crlf)), length-append s crlf))

  pub nil_bulk-Reads :
      (r : ReaderState Obj Store) (p : ℕ) (rest : Bytes) (cur : ReadTask Obj)
      (parents : List (ReadTask Obj))
      → Text r p (encode Value.nil_bulk ++ rest)
      → cur.type ≡ none
      → Reads r p Value.nil_bulk rest cur parents
  unfolding Reads encode built process_typed_item process_bulk_at read_long_long
  nil_bulk-Reads r p rest cur parents w e reply store store' obj after b m =
      let line : Bytes = 45 ∷ 49 ∷ [] in
      let tasks = with_type string cur ∷ parents in
      let w' : Text r (p + 1) (line ++ (crlf ++ rest)) =
        behind-Text p 36 (line ++ (crlf ++ rest)) (line ++ (crlf ++ rest)) refl w in
      last_item r p (p + 1 + (2 + 2)) (p + length (encode Value.nil_bulk)) tasks after reply store
        store' obj (fns.create_nil tasks store) (at r p (cur ∷ parents) reply store)
        (process_item-type fns r p 36 (line ++ (crlf ++ rest)) string cur parents reply store w e
            refl
          ∙ process_bulk_item-at fns r (p + 1) line rest tasks reply store (omega arith) w')
        b m (omega arith)

  -- The line of an array, on a stack that is not too deep.
  pub multi_bulk_line :
      (r : ReaderState Obj Store) (p : ℕ) (s rest : Bytes) (tasks : List (ReadTask Obj))
      (reply : Option Obj) (store : Store)
      → NoCr s
      → length tasks ≤ 8
      → Text r p (s ++ (crlf ++ rest))
      → process_multi_bulk_item fns (at r p tasks reply store) ≡ (
          if eq_ℤ (read_long_long (s ++ (crlf ++ rest))) minus_one
          then finish_item fns
              (fns.create_nil tasks store)
              (at r (p + (length s + 2)) tasks reply store)
          else enter_array fns
              (read_long_long (s ++ (crlf ++ rest)))
              (fns.create_array tasks (to_int32 (read_long_long (s ++ (crlf ++ rest)))) store)
              (at r (p + (length s + 2)) tasks reply store))
  unfolding process_multi_bulk_item
  multi_bulk_line r p s rest tasks reply store n shallow w =
      let deep : (length tasks == 9) ≡ false = ground arith in
      rw (process_multi_bulk_item, deep, read_line-at fns r p s rest tasks reply store n w) refl

  nil_array-Reads :
      (r : ReaderState Obj Store) (p : ℕ) (rest : Bytes) (cur : ReadTask Obj)
      (parents : List (ReadTask Obj))
      → length parents ≤ 7
      → Text r p (encode Value.nil_array ++ rest)
      → cur.type ≡ none
      → Reads r p Value.nil_array rest cur parents
  unfolding Reads encode built process_typed_item read_long_long
  nil_array-Reads r p rest cur parents shallow w e reply store store' obj after b m =
      let line : Bytes = 45 ∷ 49 ∷ [] in
      let tasks = with_type array cur ∷ parents in
      let w' : Text r (p + 1) (line ++ (crlf ++ rest)) =
        behind-Text p 42 (line ++ (crlf ++ rest)) (line ++ (crlf ++ rest)) refl w in
      last_item r p (p + 1 + (2 + 2)) (p + length (encode Value.nil_array)) tasks after reply store
        store' obj (fns.create_nil tasks store) (at r p (cur ∷ parents) reply store)
        (process_item-type fns r p 42 (line ++ (crlf ++ rest)) array cur parents reply store w e
            refl
          ∙ multi_bulk_line r (p + 1) line rest tasks reply store (omega arith) (omega arith) w')
        b m (omega arith)

  -- The line of an array with `n` elements, up to the call for its object.
  array_line :
      (r : ReaderState Obj Store) (p n : ℕ) (body rest : Bytes) (cur : ReadTask Obj)
      (parents : List (ReadTask Obj)) (reply : Option Obj) (store : Store)
      → length parents ≤ 7
      → n < 2 ^ 31
      → Text r p (42 ∷ print_nat n ++ (crlf ++ (body ++ rest)))
      → cur.type ≡ none
      → process_item fns (at r p (cur ∷ parents) reply store)
        ≡ enter_array fns
            (pos n)
            (fns.create_array (with_type array cur ∷ parents) (pos n) store)
            (at r (p + 1 + (length (print_nat n) + 2)) (with_type array cur ∷ parents) reply store)
  unfolding process_typed_item
  array_line r p n body rest cur parents reply store shallow small w e =
      let line = print_nat n in
      let tasks = with_type array cur ∷ parents in
      let more = crlf ++ (body ++ rest) in
      let w' = behind-Text p 42 (line ++ more) (line ++ more) refl w in
      let number = read_long_long-print_nat n (10 ∷ body ++ rest) (omega arith) in
      process_item-type fns r p 42 (line ++ more) array cur parents reply store w e refl
      ∙ multi_bulk_line r (p + 1) line (body ++ rest) tasks reply store
          (AllDigits-NoCr line (print_nat-AllDigits n)) (omega arith) w'
      ∙ ap
          (λ z.
            if eq_ℤ z minus_one
            then finish_item fns (fns.create_nil tasks store)
                (at r (p + 1 + (length line + 2)) tasks reply store)
            else enter_array fns z (fns.create_array tasks (to_int32 z) store)
                (at r (p + 1 + (length line + 2)) tasks reply store))
          number
      ∙ ap
          (λ z.
            enter_array fns (pos n) (fns.create_array tasks z store)
              (at r (p + 1 + (length line + 2)) tasks reply store))
          (to_int32_small n small)
