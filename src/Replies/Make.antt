-- ===== src/Replies/Make.antt =====
-- What the default functions make of a value: its objects, behind those that are on the heap.
use multiplexing_hiredis.Common.{
  ℕ, suc, ◌+◌, ◌<◌, ◌≡◌, refl, sym, ap, ◌∙◌, Bool, true, Option, none, some, List, [], ◌∷◌, ◌++◌,
  Bytes, ltb, length, arith, length-append, replicate, set, append_assoc, append-nil, set-middle,
  get_elem?-middle,
}
use multiplexing_hiredis.Common.Int.{ℤ, pos, suc_ℤ, minus_one}
use multiplexing_hiredis.Reader.State.{
  string, array, integer, nil, status, error, ReadTask, ReplyObjectFunctions, Created, created,
  null_object, fault,
}
use multiplexing_hiredis.Reader.Items.{fresh_task}
use multiplexing_hiredis.Reader.Build.{
  with_type, parent_task, settled, sibling, completed, built, built_items,
}
use multiplexing_hiredis.Replies.{
  ReplyObject, Heap, lookup, store_at, link_element, link_parent, add_object, create_reply_object,
  create_string_object, create_array_object, create_integer_object, create_nil_object,
  default_functions,
}
use multiplexing_hiredis.Replies.Layout.{
  size, positions, array_object, string_object, plain_object, layout, layout_items, length-layout,
}
use multiplexing_hiredis.Resp.{Value, Items, count, no_items, item}

abbrev pub Objects : Type 0
Objects = List (Option ReplyObject)

abbrev pub heap : Objects → Bool → Heap
heap objects broken = record { objects = objects; broken = broken }

-- An object that is added for the task leaves the objects before it as `after`.
record Slot (cur : ReadTask ℕ) (parents : List (ReadTask ℕ)) (before after : Objects) : Type 0 where
  same_length : length after ≡ length before
  links :
      (t : ReadTask ℕ) (o : ReplyObject) (b : Bool)
      → t.idx ≡ cur.idx
      → link_parent (t ∷ parents) (length before) (heap (before ++ (some o ∷ [])) b)
        ≡ created (length before) (heap (after ++ (some o ∷ [])) b)

root-Slot : (cur : ReadTask ℕ) (objects : Objects) → Slot cur [] objects objects
unfolding link_parent
root-Slot cur objects = record { same_length = refl; links = λ t o b e. refl }

lookup-middle :
    (xs : Objects) (o : ReplyObject) (ys : Objects) (b : Bool)
    → lookup (heap (xs ++ (some o ∷ ys)) b) (length xs) ≡ some o
unfolding lookup
lookup-middle xs o ys b = rw (lookup, get_elem?-middle xs (some o) ys) refl

link_element-at :
    (n i p r : ℕ) (vec : List (Option ℕ)) (idx : ℤ) (h : Heap)
    → idx ≡ pos i
    → i < length vec
    → link_element (array_object n vec) p idx r h
      ≡ created r (store_at p (some (array_object n (set vec i (some r)))) h)
unfolding link_element
link_element-at n i p r vec idx h e small =
    let fits : ltb i (length vec) ≡ true = ground arith in
    ap (λ z. link_element (array_object n vec) p z r h) e ∙ rw (link_element, fits) refl

link_parent-at :
    (t par : ReadTask ℕ) (ps : List (ReadTask ℕ)) (n p r : ℕ) (vec : List (Option ℕ)) (h : Heap)
    → par.obj ≡ some p
    → lookup h p ≡ some (array_object n vec)
    → link_parent (t ∷ par ∷ ps) r h ≡ link_element (array_object n vec) p t.idx r h
unfolding link_parent
link_parent-at t par ps n p r vec h e f = rw (link_parent, e, f) refl

length-replaced :
    (xs : Objects) (y z : Option ReplyObject) (ys : Objects)
    → length (xs ++ (z ∷ ys)) ≡ length (xs ++ (y ∷ ys))
length-replaced xs y z ys = length-append xs (z ∷ ys) ∙ sym (length-append xs (y ∷ ys))

-- The next place of an array.
element-Slot :
    (cur par : ReadTask ℕ) (ps : List (ReadTask ℕ)) (xs tail : Objects) (n i : ℕ)
    (vec : List (Option ℕ))
    → par.obj ≡ some (length xs)
    → cur.idx ≡ pos i
    → i < length vec
    → Slot cur (par ∷ ps) (xs ++ (some (array_object n vec) ∷ tail)) (
        xs
        ++ (some (
              array_object n (set vec i (some (length (xs ++ (some (array_object n vec) ∷ tail))))))
            ∷ tail))
unfolding store_at
element-Slot cur par ps xs tail n i vec e f h = record {
  same_length = length-replaced xs _ _ tail;
  links = λ t o b g.
      let before = xs ++ (some (array_object n vec) ∷ tail) in
      let r = length before in
      let object = array_object n (set vec i (some r)) in
      let more = tail ++ (some o ∷ []) in
      ap (λ l. link_parent (t ∷ par ∷ ps) r (heap l b))
        (append_assoc xs (some (array_object n vec) ∷ tail) (some o ∷ []))
      ∙ link_parent-at t par ps n (length xs) r vec
          (heap (xs ++ (some (array_object n vec) ∷ more)) b) e
          (lookup-middle xs (array_object n vec) more b)
      ∙ link_element-at n i (length xs) r vec t.idx
          (heap (xs ++ (some (array_object n vec) ∷ more)) b) (g ∙ f) h
      ∙ ap (λ l. created r (heap l b))
          (set-middle xs (some (array_object n vec)) (some object) more
            ∙ sym (append_assoc xs (some object ∷ tail) (some o ∷ [])));
}

-- The functions, where there is memory.
abbrev fns : ReplyObjectFunctions ℕ Heap
fns = default_functions true true

-- What is made of a value whose object is added before `after`.
abbrev Made : Value → ReadTask ℕ → List (ReadTask ℕ) → Objects → Objects → Bool → Type 0
Made v cur parents before after b =
    built fns v cur parents (heap before b)
    ≡ created (length before) (heap (after ++ layout (length before) v) b)

status-Made :
    (s : Bytes) (cur : ReadTask ℕ) (parents : List (ReadTask ℕ)) (before after : Objects) (b : Bool)
    → Slot cur parents before after
    → Made (Value.status s) cur parents before after b
unfolding built default_functions create_string_object add_object create_reply_object layout
status-Made s cur parents before after b w =
    w.links (with_type status cur) (string_object status s) b refl

error-Made :
    (s : Bytes) (cur : ReadTask ℕ) (parents : List (ReadTask ℕ)) (before after : Objects) (b : Bool)
    → Slot cur parents before after
    → Made (Value.error s) cur parents before after b
unfolding built default_functions create_string_object add_object create_reply_object layout
error-Made s cur parents before after b w =
    w.links (with_type error cur) (string_object error s) b refl

bulk-Made :
    (s : Bytes) (cur : ReadTask ℕ) (parents : List (ReadTask ℕ)) (before after : Objects) (b : Bool)
    → Slot cur parents before after
    → Made (Value.bulk s) cur parents before after b
unfolding built default_functions create_string_object add_object create_reply_object layout
bulk-Made s cur parents before after b w =
    w.links (with_type string cur) (string_object string s) b refl

integer-Made :
    (n : ℤ) (cur : ReadTask ℕ) (parents : List (ReadTask ℕ)) (before after : Objects) (b : Bool)
    → Slot cur parents before after
    → Made (Value.integer n) cur parents before after b
unfolding built default_functions create_integer_object add_object create_reply_object layout
integer-Made n cur parents before after b w =
    w.links (with_type integer cur) (plain_object integer n) b refl

nil_bulk-Made :
    (cur : ReadTask ℕ) (parents : List (ReadTask ℕ)) (before after : Objects) (b : Bool)
    → Slot cur parents before after
    → Made Value.nil_bulk cur parents before after b
unfolding built default_functions create_nil_object add_object create_reply_object layout
nil_bulk-Made cur parents before after b w =
    w.links (with_type string cur) (plain_object nil (pos 0)) b refl

nil_array-Made :
    (cur : ReadTask ℕ) (parents : List (ReadTask ℕ)) (before after : Objects) (b : Bool)
    → Slot cur parents before after
    → Made Value.nil_array cur parents before after b
unfolding built default_functions create_nil_object add_object create_reply_object layout
nil_array-Made cur parents before after b w =
    w.links (with_type array cur) (plain_object nil (pos 0)) b refl

no_items-Made :
    (cur : ReadTask ℕ) (parents : List (ReadTask ℕ)) (before after : Objects) (b : Bool)
    → Slot cur parents before after
    → Made (Value.array no_items) cur parents before after b
unfolding built default_functions create_array_object add_object create_reply_object layout
no_items-Made cur parents before after b w =
    w.links (with_type array cur) (plain_object array (pos 0)) b refl

settled-idx : (v : Value) (cur : ReadTask ℕ) (a : ℕ) → (settled v cur a).idx ≡ cur.idx
settled-idx (Value.status s) cur a = refl
settled-idx (Value.error s) cur a = refl
settled-idx (Value.integer n) cur a = refl
settled-idx (Value.bulk s) cur a = refl
settled-idx Value.nil_bulk cur a = refl
settled-idx Value.nil_array cur a = refl
settled-idx (Value.array no_items) cur a = refl
settled-idx (Value.array (item v vs)) cur a = refl

-- The objects with an array of which some elements are there.
abbrev partial : ℕ → Objects → List (Option ℕ) → ℕ → Objects → Objects
partial n xs filled k tail = xs ++ (some (array_object n (filled ++ replicate k none)) ∷ tail)

-- The same when the elements `vs` are there too.
abbrev filled_up : ℕ → Objects → List (Option ℕ) → Items → ℕ → Objects → Objects
filled_up n xs filled vs a tail =
    xs ++ (some (array_object n (filled ++ positions a vs)) ∷ (tail ++ layout_items a vs))

abbrev AllMade :
    Items → ReadTask ℕ → List (ReadTask ℕ) → ℕ → Objects → List (Option ℕ) → Objects → Bool → Type 0
AllMade vs cur parents n xs filled tail b =
    built_items fns vs cur parents (heap (partial n xs filled (count vs) tail) b)
    ≡ some (heap (filled_up n xs filled vs (length (partial n xs filled (count vs) tail)) tail) b)

-- An array, from its elements.
array-Made :
    (v : Value) (vs : Items) (cur : ReadTask ℕ) (parents : List (ReadTask ℕ))
    (before after : Objects) (b : Bool)
    → Slot cur parents before after
    → AllMade
        (item v vs)
        (fresh_task (pos 0))
        (parent_task cur (length before) (suc (count vs)) ∷ parents)
        (suc (count vs))
        after
        []
        []
        b
    → Made (Value.array (item v vs)) cur parents before after b
unfolding built default_functions create_array_object add_object create_reply_object layout
array-Made v vs cur parents before after b w elements =
    let n = suc (count vs) in
    let root = array_object n (replicate n none) in
    let p = length before in
    let first : length (after ++ (some root ∷ [])) ≡ p + 1 =
      omega (arith, length-append after (some root ∷ []), w.same_length) in
    ap
      (λ o. elim o as (λ _. Created ℕ Heap) [
        | created obj h ↦
            completed fns obj
              (built_items fns (item v vs) (fresh_task (pos 0)) (parent_task cur obj n ∷ parents) h)
        | null_object _ ↦ fault
        | fault ↦ fault
      ])
      (w.links (with_type array cur) root b refl)
    ∙ ap (completed fns p) elements
    ∙ ap (λ a. created p (heap (filled_up n after [] (item v vs) a []) b)) first

-- The elements, from the first and the others.
item-AllMade :
    (v : Value) (vs : Items) (cur par : ReadTask ℕ) (ps : List (ReadTask ℕ)) (n : ℕ) (xs : Objects)
    (filled : List (Option ℕ)) (tail : Objects) (b : Bool)
    → par.obj ≡ some (length xs)
    → cur.idx ≡ pos (length filled)
    → ((before after : Objects)
        → Slot cur (par ∷ ps) before after
        → Made v cur (par ∷ ps) before after b)
    → ((a : ℕ)
        → AllMade vs
            (sibling (settled v cur a))
            (par ∷ ps)
            n
            xs
            (filled ++ (some a ∷ []))
            (tail ++ layout a v)
            b)
    → AllMade (item v vs) cur (par ∷ ps) n xs filled tail b
unfolding built_items positions layout_items
item-AllMade v vs cur par ps n xs filled tail b e f first others =
    let k = count vs in
    let rest = replicate k none in
    let before = partial n xs filled (suc k) tail in
    let a = length before in
    let more = tail ++ layout a v in
    let vec = set (filled ++ (none ∷ rest)) (length filled) (some a) in
    let same_vec : vec ≡ (filled ++ (some a ∷ [])) ++ rest =
      set-middle filled none (some a) rest ∙ sym (append_assoc filled (some a ∷ []) rest) in
    let slot =
      element-Slot cur par ps xs tail n (length filled) (filled ++ (none ∷ rest)) e f
        (omega (arith, length-append filled (none ∷ rest))) in
    let behind : length (partial n xs (filled ++ (some a ∷ [])) k more) ≡ a + size v = omega (
      arith,
      length-append xs (some (array_object n ((filled ++ (some a ∷ [])) ++ rest)) ∷ more),
      length-append xs (some (array_object n (filled ++ (none ∷ rest))) ∷ tail),
      length-append tail (layout a v),
      length-layout a v,
    ) in
    let next = λ (h : Heap). built_items fns vs (sibling (settled v cur a)) (par ∷ ps) h in
    ap
      (λ o. elim o as (λ _. Option Heap) [
        | created obj h ↦ built_items fns vs (sibling (settled v cur obj)) (par ∷ ps) h
        | null_object _ ↦ none
        | fault ↦ none
      ])
      (first before (xs ++ (some (array_object n vec) ∷ tail)) slot)
    ∙ ap (λ l. next (heap l b)) (append_assoc xs (some (array_object n vec) ∷ tail) (layout a v))
    ∙ ap (λ w. next (heap (xs ++ (some (array_object n w) ∷ more)) b)) same_vec
    ∙ others a
    ∙ ap (λ c. some (heap (filled_up n xs (filled ++ (some a ∷ [])) vs c more) b)) behind
    ∙ ap
        (λ w.
          some (heap (xs ++ (some (array_object n w) ∷ (more ++ layout_items (a + size v) vs))) b))
        (append_assoc filled (some a ∷ []) (positions (a + size v) vs))
    ∙ ap
        (λ l. some (
          heap (xs ++ (some (array_object n (filled ++ (some a ∷ positions (a + size v) vs))) ∷ l))
            b))
        (append_assoc tail (layout a v) (layout_items (a + size v) vs))

mutual
  unfolding built_items positions layout_items

  made :
      (v : Value) (cur : ReadTask ℕ) (parents : List (ReadTask ℕ)) (before after : Objects)
      (b : Bool)
      → Slot cur parents before after
      → Made v cur parents before after b
  made (Value.status s) cur parents before after b w = status-Made s cur parents before after b w
  made (Value.error s) cur parents before after b w = error-Made s cur parents before after b w
  made (Value.integer n) cur parents before after b w = integer-Made n cur parents before after b w
  made (Value.bulk s) cur parents before after b w = bulk-Made s cur parents before after b w
  made Value.nil_bulk cur parents before after b w = nil_bulk-Made cur parents before after b w
  made Value.nil_array cur parents before after b w = nil_array-Made cur parents before after b w
  made (Value.array no_items) cur parents before after b w =
      no_items-Made cur parents before after b w
  made (Value.array (item v vs)) cur parents before after b w =
      array-Made v vs cur parents before after b w (
        all_made (item v vs) (fresh_task (pos 0)) (parent_task cur (length before) (suc (count vs)))
          parents (suc (count vs)) after [] [] b (ap some (sym w.same_length)) refl)

  all_made :
      (vs : Items) (cur par : ReadTask ℕ) (ps : List (ReadTask ℕ)) (n : ℕ) (xs : Objects)
      (filled : List (Option ℕ)) (tail : Objects) (b : Bool)
      → par.obj ≡ some (length xs)
      → cur.idx ≡ pos (length filled)
      → AllMade vs cur (par ∷ ps) n xs filled tail b
  all_made no_items cur par ps n xs filled tail b e f =
      ap (λ l. some (heap (xs ++ (some (array_object n (filled ++ [])) ∷ l)) b))
        (sym (append-nil tail))
  all_made (item v vs) cur par ps n xs filled tail b e f =
      item-AllMade v vs cur par ps n xs filled tail b e f
        (λ before after w. made v cur (par ∷ ps) before after b w)
        (λ a.
          all_made vs (sibling (settled v cur a)) par ps n xs (filled ++ (some a ∷ []))
            (tail ++ layout a v) b e
            (ap suc_ℤ (settled-idx v cur a ∙ f)
              ∙ ap pos (sym (length-append filled (some a ∷ [])))))

-- For a value whose root has no parent.
pub built-layout :
    (v : Value) (objects : Objects) (broken : Bool)
    → built fns v (fresh_task minus_one) [] (heap objects broken)
      ≡ created (length objects) (heap (objects ++ layout (length objects) v) broken)
built-layout v objects broken =
    made v (fresh_task minus_one) [] objects objects broken
      (root-Slot (fresh_task minus_one) objects)
