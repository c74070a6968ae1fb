-- ===== src/Replies.antt =====
-- hiredis.c: the default functions that make and free reply objects, on a heap.
pub mod Layout
pub mod Make
pub mod Release
pub mod Whole
use multiplexing_hiredis.Common.{
  ℕ, zero, suc, Bool, true, not, Option, none, some, List, [], ◌∷◌, ◌++◌, ltb, if◌then◌else◌, Bytes,
  length, get_elem?, set, replicate,
}
use multiplexing_hiredis.Common.Int.{ℤ, pos, negsuc, word64}
use multiplexing_hiredis.Reader.State.{
  ReplyType, string, array, integer, nil, status, error, ReadTask, Created, created, null_object,
  fault, ReplyObjectFunctions,
}

-- redisReply. The vector of elements is `none` where it is NULL; an object is named by its place on
-- the heap, and NULL is `none`.
pub record ReplyObject : Type 0 where
  pub type : ReplyType
  pub integer_value : ℤ
  pub str : Option Bytes
  pub elements : ℕ
  pub element : Option (List (Option ℕ))

-- The heap: a freed object leaves its place empty. `broken` tells that a freed object was used.
pub record Heap : Type 0 where
  pub objects : List (Option ReplyObject)
  pub broken : Bool

-- What an address holds.
unfoldable pub lookup : Heap → ℕ → Option ReplyObject
lookup h a = elim (get_elem? h.objects a) [ none ↦ none | some o ↦ o ]

unfoldable pub store_at : ℕ → Option ReplyObject → Heap → Heap
store_at a o h = record h { objects = set h.objects a o }

-- The address of the next object.
abbrev pub next_address : Heap → ℕ
next_address h = length h.objects

-- createReplyObject
unfoldable pub create_reply_object : ReplyType → ReplyObject
create_reply_object type = record {
  type = type;
  integer_value = pos 0;
  str = none;
  elements = 0;
  element = none;
}

-- The loop over the elements of an array; `free` is the recursive call.
unfoldable pub free_each : (ℕ → Heap → Heap) → List (Option ℕ) → Heap → Heap
free_each free [] h = h
free_each free (none ∷ element) h = free_each free element h
free_each free (some a ∷ element) h = free_each free element (free a h)

-- freeReplyObject, on fuel for the depth of the reply
unfoldable pub free_reply_object : ℕ → ℕ → Heap → Heap
unfolding lookup store_at free_each
free_reply_object zero a h = record h { broken = true }
free_reply_object (suc fuel) a h = elim (lookup h a) [
  | none ↦ record h { broken = true }
  | some r ↦ elim r.type [
    | array ↦ elim r.element [
      | none ↦ store_at a none h
      | some element ↦ store_at a none (free_each (free_reply_object fuel) element h)
    ]
    | _ ↦ store_at a none h
  ]
]

-- `parent->element[task->idx] = r`
unfoldable pub link_element : ReplyObject → ℕ → ℤ → ℕ → Heap → Created ℕ Heap
unfolding store_at
link_element parent p (negsuc _) r h = fault
link_element parent p (pos idx) r h = elim parent.element [
  | none ↦ fault
  | some element ↦
      if ltb idx (length element)
      then created r
          (store_at p (some (record parent { element = some (set element idx (some r)) })) h)
      else fault
]

-- `if (task->parent)`: the parent's object is an array, and the new object `r` goes into it.
unfoldable pub link_parent : List (ReadTask ℕ) → ℕ → Heap → Created ℕ Heap
unfolding lookup link_element
link_parent (task ∷ parent ∷ rest) r h = elim parent.obj [
  | none ↦ fault
  | some p ↦ elim (lookup h p) [
    | none ↦ fault
    | some object ↦ elim object.type [ array ↦ link_element object p task.idx r h | _ ↦ fault ]
  ]
]
link_parent _ r h = created r h

-- A complete object is put on the heap and linked.
unfoldable pub add_object : List (ReadTask ℕ) → ReplyObject → Heap → Created ℕ Heap
unfolding link_parent
add_object tasks object h =
    link_parent tasks (next_address h) (record h { objects = h.objects ++ (some object ∷ []) })

-- The type of a string object: a type that the assertion refuses is `none`.
abbrev string_type : List (ReadTask ℕ) → Option ReplyType
string_type [] = none
string_type (task ∷ parents) = elim task.type [
  | some string ↦ some string
  | some status ↦ some status
  | some error ↦ some error
  | _ ↦ none
]

-- `room` and `space` tell whether there is memory for an object, and for what it points to.
module _ (room space : Bool) where
  -- createStringObject
  unfoldable pub create_string_object : List (ReadTask ℕ) → Bytes → Heap → Created ℕ Heap
  unfolding add_object create_reply_object
  create_string_object tasks str h =
      if not room
      then null_object h
      else if not space
      then null_object h
      else elim (string_type tasks) [
        | none ↦ fault
        | some t ↦ add_object tasks (record (create_reply_object t) { str = some str }) h
      ]

  -- createArrayObject; the number of elements becomes a size_t.
  unfoldable pub create_array_object : List (ReadTask ℕ) → ℤ → Heap → Created ℕ Heap
  unfolding add_object create_reply_object
  create_array_object tasks (pos zero) h =
      if not room then null_object h else add_object tasks (create_reply_object array) h
  create_array_object tasks (pos (suc n)) h =
      if not room
      then null_object h
      else if not space
      then null_object h
      else add_object tasks
          (record (create_reply_object array) {
            elements = suc n;
            element = some (replicate (suc n) none);
          })
          h
  create_array_object tasks (negsuc n) h =
      if not room
      then null_object h
      else add_object tasks (record (create_reply_object array) { elements = word64 (negsuc n) }) h

  -- createIntegerObject
  unfoldable pub create_integer_object : List (ReadTask ℕ) → ℤ → Heap → Created ℕ Heap
  unfolding add_object create_reply_object
  create_integer_object tasks value h =
      if not room
      then null_object h
      else add_object tasks (record (create_reply_object integer) { integer_value = value }) h

  -- createNilObject
  unfoldable pub create_nil_object : List (ReadTask ℕ) → Heap → Created ℕ Heap
  unfolding add_object create_reply_object
  create_nil_object tasks h =
      if not room then null_object h else add_object tasks (create_reply_object nil) h

  -- defaultFunctions; no reply is deeper than the heap has objects.
  unfoldable pub default_functions : ReplyObjectFunctions ℕ Heap
  unfolding create_string_object create_array_object create_integer_object create_nil_object
      free_reply_object
  default_functions = record {
    create_string = create_string_object;
    create_array = create_array_object;
    create_integer = create_integer_object;
    create_nil = create_nil_object;
    free_object = λ a h. free_reply_object (suc (next_address h)) a h;
  }
