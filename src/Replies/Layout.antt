-- ===== src/Replies/Layout.antt =====
-- How the objects of a value lie on the heap: one behind the other, in the order in which the value
-- is written, so that an array stands before its elements.
use multiplexing_hiredis.Common.{
  ℕ, suc, ◌+◌, ◌≡◌, refl, ap, Option, none, some, List, [], ◌∷◌, ◌++◌, Bytes, length, arith,
  length-append,
}
use multiplexing_hiredis.Common.Int.{ℤ, pos}
use multiplexing_hiredis.Reader.State.{ReplyType, string, array, integer, nil, status, error}
use multiplexing_hiredis.Replies.{ReplyObject}
use multiplexing_hiredis.Resp.{Value, Items, count, no_items, item}

-- The objects of a value.
unfoldable mutual
  pub size : Value → ℕ
  size (Value.array vs) = suc (size_items vs)
  size _ = 1

  pub size_items : Items → ℕ
  size_items no_items = 0
  size_items (item v vs) = size v + size_items vs

-- The addresses of the elements of an array, the first at `a`.
unfoldable pub positions : ℕ → Items → List (Option ℕ)
unfolding size
positions a no_items = []
positions a (item v vs) = some a ∷ positions (a + size v) vs

-- An array of `n` elements with its vector.
abbrev pub array_object : ℕ → List (Option ℕ) → ReplyObject
array_object n vector = record {
  type = array;
  integer_value = pos 0;
  str = none;
  elements = n;
  element = some vector;
}

abbrev pub string_object : ReplyType → Bytes → ReplyObject
string_object t s = record {
  type = t;
  integer_value = pos 0;
  str = some s;
  elements = 0;
  element = none;
}

abbrev pub plain_object : ReplyType → ℤ → ReplyObject
plain_object t n = record { type = t; integer_value = n; str = none; elements = 0; element = none }

-- The object of a value that stands at `a`, and the objects of the value.
abbrev pub root_object : ℕ → Value → ReplyObject
root_object a (Value.status s) = string_object status s
root_object a (Value.error s) = string_object error s
root_object a (Value.integer n) = plain_object integer n
root_object a (Value.bulk s) = string_object string s
root_object a Value.nil_bulk = plain_object nil (pos 0)
root_object a Value.nil_array = plain_object nil (pos 0)
root_object a (Value.array no_items) = plain_object array (pos 0)
root_object a (Value.array (item v vs)) =
    array_object (suc (count vs)) (positions (a + 1) (item v vs))

unfoldable mutual
  unfolding positions size

  pub layout : ℕ → Value → List (Option ReplyObject)
  layout a (Value.array vs) = some (root_object a (Value.array vs)) ∷ layout_items (a + 1) vs
  layout a v = some (root_object a v) ∷ []

  pub layout_items : ℕ → Items → List (Option ReplyObject)
  layout_items a no_items = []
  layout_items a (item v vs) = layout a v ++ layout_items (a + size v) vs

mutual
  unfolding layout size

  pub length-layout : (a : ℕ) (v : Value) → length (layout a v) ≡ size v
  length-layout a (Value.status s) = refl
  length-layout a (Value.error s) = refl
  length-layout a (Value.integer n) = refl
  length-layout a (Value.bulk s) = refl
  length-layout a Value.nil_bulk = refl
  length-layout a Value.nil_array = refl
  length-layout a (Value.array vs) = ap suc (length-layout_items (a + 1) vs)

  pub length-layout_items : (a : ℕ) (vs : Items) → length (layout_items a vs) ≡ size_items vs
  length-layout_items a no_items = refl
  length-layout_items a (item v vs) = omega (
    arith,
    length-append (layout a v) (layout_items (a + size v) vs),
    length-layout a v,
    length-layout_items (a + size v) vs,
  )
