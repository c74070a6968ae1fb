-- ===== src/Replies/Release.antt =====
-- What freeReplyObject does to a value on the heap.
use multiplexing_hiredis.Common.{
  ℕ, zero, suc, ◌+◌, ◌<◌, ◌≤◌, ◌≡◌, refl, sym, ap, ◌∙◌, Bool, true, Option, none, some, [], ◌∷◌,
  ◌++◌, length, arith, length-append, length-replicate, replicate, set, append_assoc, set-middle,
  get_elem?-middle,
}
use native.Mathlib.Nat.{suc-add}
use multiplexing_hiredis.Reader.State.{array}
use multiplexing_hiredis.Replies.{
  ReplyObject, Heap, lookup, store_at, free_each, free_reply_object, default_functions,
}
use multiplexing_hiredis.Replies.Layout.{
  size, size_items, positions, root_object, layout, layout_items, length-layout,
}
use multiplexing_hiredis.Replies.Make.{Objects, heap}
use multiplexing_hiredis.Resp.{Value, Items, no_items, item}

size_pos : (v : Value) → 0 < size v
unfolding size
size_pos (Value.status s) = omega arith
size_pos (Value.error s) = omega arith
size_pos (Value.integer n) = omega arith
size_pos (Value.bulk s) = omega arith
size_pos Value.nil_bulk = omega arith
size_pos Value.nil_array = omega arith
size_pos (Value.array vs) = omega arith

-- Places whose objects have been freed.
abbrev pub empty_places : ℕ → Objects
empty_places n = replicate n none

empty_places-add :
    (m n : ℕ) (ys : Objects) → empty_places (m + n) ++ ys ≡ empty_places m ++ (empty_places n ++ ys)
empty_places-add zero n ys = ap (λ k. empty_places k ++ ys) (omega arith)
empty_places-add (suc m) n ys =
    ap (λ k. empty_places k ++ ys) (suc-add m n) ∙ ap (λ l. none ∷ l) (empty_places-add m n ys)

-- The work on an object that was found.
abbrev free_object : ℕ → ℕ → Heap → ReplyObject → Heap
free_object fuel a h r = elim r.type [
  | array ↦ elim r.element [
    | none ↦ store_at a none h
    | some element ↦ store_at a none (free_each (free_reply_object fuel) element h)
  ]
  | _ ↦ store_at a none h
]

free_reply_object-found :
    (fuel a : ℕ) (h : Heap) (r : ReplyObject)
    → lookup h a ≡ some r
    → free_reply_object (suc fuel) a h ≡ free_object fuel a h r
unfolding free_reply_object
free_reply_object-found fuel a h r e = rw (free_reply_object, e) refl

lookup-at :
    (a : ℕ) (xs : Objects) (r : ReplyObject) (ys : Objects) (b : Bool)
    → length xs ≡ a
    → lookup (heap (xs ++ (some r ∷ ys)) b) a ≡ some r
unfolding lookup
lookup-at a xs r ys b e =
    ap (lookup (heap (xs ++ (some r ∷ ys)) b)) (sym e)
    ∙ rw (lookup, get_elem?-middle xs (some r) ys) refl

store_at-none :
    (a : ℕ) (xs : Objects) (o : Option ReplyObject) (ys : Objects) (b : Bool)
    → length xs ≡ a
    → store_at a none (heap (xs ++ (o ∷ ys)) b) ≡ heap (xs ++ (none ∷ ys)) b
unfolding store_at
store_at-none a xs o ys b e =
    ap (λ i. heap (set (xs ++ (o ∷ ys)) i none) b) (sym e)
    ∙ ap (λ l. heap l b) (set-middle xs o none ys)

-- A value is freed: its places are empty, and nothing else has changed.
abbrev Released : Value → ℕ → ℕ → Objects → Objects → Bool → Type 0
Released v fuel a xs ys b =
    free_reply_object fuel a (heap (xs ++ (layout a v ++ ys)) b)
    ≡ heap (xs ++ (empty_places (size v) ++ ys)) b

abbrev AllReleased : Items → ℕ → ℕ → Objects → Objects → Bool → Type 0
AllReleased vs fuel a xs ys b =
    free_each (free_reply_object fuel) (positions a vs) (heap (xs ++ (layout_items a vs ++ ys)) b)
    ≡ heap (xs ++ (empty_places (size_items vs) ++ ys)) b

-- An object without elements.
leaf-Released :
    (r : ReplyObject) (fuel a : ℕ) (xs ys : Objects) (b : Bool)
    → ((h : Heap) → free_object fuel a h r ≡ store_at a none h)
    → length xs ≡ a
    → free_reply_object (suc fuel) a (heap (xs ++ (some r ∷ ys)) b) ≡ heap (xs ++ (none ∷ ys)) b
leaf-Released r fuel a xs ys b leaf e =
    free_reply_object-found fuel a (heap (xs ++ (some r ∷ ys)) b) r (lookup-at a xs r ys b e)
    ∙ leaf (heap (xs ++ (some r ∷ ys)) b)
    ∙ store_at-none a xs (some r) ys b e

-- An array, from its elements.
array-Released :
    (v : Value) (vs : Items) (fuel a : ℕ) (xs ys : Objects) (b : Bool)
    → length xs ≡ a
    → AllReleased
        (item v vs)
        fuel
        (a + 1)
        (xs ++ (some (root_object a (Value.array (item v vs))) ∷ []))
        ys
        b
    → Released (Value.array (item v vs)) (suc fuel) a xs ys b
unfolding layout size
array-Released v vs fuel a xs ys b e elements =
    let r = root_object a (Value.array (item v vs)) in
    let below = layout_items (a + 1) (item v vs) ++ ys in
    let gone = empty_places (size_items (item v vs)) ++ ys in
    free_reply_object-found fuel a (heap (xs ++ (some r ∷ below)) b) r (lookup-at a xs r below b e)
    ∙ ap
        (λ l.
          store_at a none
            (free_each (free_reply_object fuel) (positions (a + 1) (item v vs)) (heap l b)))
        (sym (append_assoc xs (some r ∷ []) below))
    ∙ ap (store_at a none) elements
    ∙ ap (λ l. store_at a none (heap l b)) (append_assoc xs (some r ∷ []) gone)
    ∙ store_at-none a xs (some r) gone b e

-- The elements, from the first and the others.
item-AllReleased :
    (v : Value) (vs : Items) (fuel a : ℕ) (xs ys : Objects) (b : Bool)
    → Released v fuel a xs (layout_items (a + size v) vs ++ ys) b
    → AllReleased vs fuel (a + size v) (xs ++ empty_places (size v)) ys b
    → AllReleased (item v vs) fuel a xs ys b
unfolding layout_items size positions free_each
item-AllReleased v vs fuel a xs ys b first others =
    let free = free_each (free_reply_object fuel) (positions (a + size v) vs) in
    let below = layout_items (a + size v) vs ++ ys in
    ap (λ l. free (free_reply_object fuel a (heap (xs ++ l) b)))
      (append_assoc (layout a v) (layout_items (a + size v) vs) ys)
    ∙ ap free first
    ∙ ap (λ l. free (heap l b)) (sym (append_assoc xs (empty_places (size v)) below))
    ∙ others
    ∙ ap (λ l. heap l b)
        (append_assoc xs (empty_places (size v)) (empty_places (size_items vs) ++ ys))
    ∙ ap (λ l. heap (xs ++ l) b) (sym (empty_places-add (size v) (size_items vs) ys))

mutual
  unfolding layout size positions free_each layout_items

  released :
      (v : Value) (fuel a : ℕ) (xs ys : Objects) (b : Bool)
      → size v ≤ suc fuel
      → length xs ≡ a
      → Released v (suc fuel) a xs ys b
  released (Value.status s) fuel a xs ys b h e =
      leaf-Released (root_object a (Value.status s)) fuel a xs ys b (λ g. refl) e
  released (Value.error s) fuel a xs ys b h e =
      leaf-Released (root_object a (Value.error s)) fuel a xs ys b (λ g. refl) e
  released (Value.integer n) fuel a xs ys b h e =
      leaf-Released (root_object a (Value.integer n)) fuel a xs ys b (λ g. refl) e
  released (Value.bulk s) fuel a xs ys b h e =
      leaf-Released (root_object a (Value.bulk s)) fuel a xs ys b (λ g. refl) e
  released Value.nil_bulk fuel a xs ys b h e =
      leaf-Released (root_object a Value.nil_bulk) fuel a xs ys b (λ g. refl) e
  released Value.nil_array fuel a xs ys b h e =
      leaf-Released (root_object a Value.nil_array) fuel a xs ys b (λ g. refl) e
  released (Value.array no_items) fuel a xs ys b h e =
      leaf-Released (root_object a (Value.array no_items)) fuel a xs ys b (λ g. refl) e
  released (Value.array (item v vs)) zero a xs ys b h e = absurd (omega (arith, size_pos v))
  released (Value.array (item v vs)) (suc fuel) a xs ys b h e =
      array-Released v vs (suc fuel) a xs ys b e (
        all_released (item v vs) fuel (a + 1)
          (xs ++ (some (root_object a (Value.array (item v vs))) ∷ [])) ys b (omega arith)
          (omega (arith, length-append xs (some (root_object a (Value.array (item v vs))) ∷ []))))

  all_released :
      (vs : Items) (fuel a : ℕ) (xs ys : Objects) (b : Bool)
      → size_items vs ≤ suc fuel
      → length xs ≡ a
      → AllReleased vs (suc fuel) a xs ys b
  all_released no_items fuel a xs ys b h e = refl
  all_released (item v vs) fuel a xs ys b h e =
      item-AllReleased v vs (suc fuel) a xs ys b
        (released v fuel a xs (layout_items (a + size v) vs ++ ys) b (omega arith) e)
        (all_released vs fuel (a + size v) (xs ++ empty_places (size v)) ys b (omega arith) (
          omega (
            arith,
            length-append xs (empty_places (size v)),
            length-replicate {A = Option ReplyObject} (size v) none,
          )))

-- Take a heap on which a value lies behind other objects and before others. Freeing the reply at its
-- root, as the reader does, leaves the places of the value's objects empty, each object freed once;
-- all other objects are as they were, and no freed object was used if none was before.
pub free_object-layout :
    (v : Value) (xs ys : Objects) (b : Bool)
    → (default_functions true true).free_object
        (length xs)
        (heap (xs ++ (layout (length xs) v ++ ys)) b)
      ≡ heap (xs ++ (empty_places (size v) ++ ys)) b
unfolding default_functions
free_object-layout v xs ys b =
    let whole = layout (length xs) v ++ ys in
    released v (length (xs ++ whole)) (length xs) xs ys b
      (omega (
        arith,
        length-append xs whole,
        length-append (layout (length xs) v) ys,
        length-layout (length xs) v,
      ))
      refl
