-- ===== src/Sds.antt =====
-- sds.c: the two string operations that the reader and the contexts build on. A string is its
-- content.
use multiplexing_hiredis.Common.{
  ℕ, zero, suc, ◌+◌, ◌-◌, ◌^◌, ◌≤◌, ◌<◌, not, ◌≡◌, refl, Bool, true, false, Option, none, some, [],
  ◌∷◌, ◌++◌, arith, ltb, ◌==◌, if◌then◌else◌, Bytes, length, take, drop, length-drop, length-take,
}
use multiplexing_hiredis.Common.Int.{ℤ, pos, negsuc, minus_one, ltb_ℤ, to_int32}

-- sdscatlen: `room` tells whether sdsMakeRoomFor gets the memory; NULL is `none`.
unfoldable pub cat_len : Bool → Bytes → Bytes → Option Bytes
cat_len true s t = some (s ++ t)
cat_len false s t = none

-- An `int` that is negative is taken for 0.
abbrev at_least_zero : ℤ → ℕ
at_least_zero (pos n) = n
at_least_zero (negsuc n) = 0

-- An index that counts from the end where it is negative, and stops at 0: `start = len+start` is a
-- sum of size_t that is stored in an `int`.
abbrev pub from_end : ℕ → ℤ → ℕ
from_end len (pos n) = n
from_end len (negsuc n) = at_least_zero (to_int32 (pos (len + 2 ^ 64 - suc n)))

-- sdsrange, on indices that are `int`s; `(signed)len` is the length as an `int`.
unfoldable pub range : Bytes → ℤ → ℤ → Bytes
range s start end =
    let len = length s in
    let signed_len = to_int32 (pos len) in
    let a = from_end len start in
    let b = from_end len end in
    if len == 0
    then s
    else if ltb b a
    then []
    else if not (ltb_ℤ (pos a) signed_len)
    then []
    else if not (ltb_ℤ (pos b) signed_len)
    then take (at_least_zero (to_int32 (pos (len - 1))) - a + 1) (drop a s)
    else take (b - a + 1) (drop a s)

take_all : (n : ℕ) (s : Bytes) → length s ≤ n → take n s ≡ s
take_all zero [] h = refl
take_all zero (c ∷ s) h = elim h [ ]
take_all (suc n) [] h = refl
take_all (suc n) (c ∷ s) h = rw (take_all n s (omega arith))

pub drop_all : (n : ℕ) (s : Bytes) → length s ≤ n → drop n s ≡ []
drop_all zero [] h = refl
drop_all zero (c ∷ s) h = elim h [ ]
drop_all (suc n) [] h = refl
drop_all (suc n) (c ∷ s) h = drop_all n s (omega arith)

last_index : (len : ℕ) → 0 < len → len < 2 ^ 31 → from_end len minus_one ≡ len - 1
last_index len p h = ground arith

-- A range up to the last byte drops the bytes before its start, below 2 ^ 31 bytes.
pub range-drop : (s : Bytes) (n : ℕ) → length s < 2 ^ 31 → range s (pos n) minus_one ≡ drop n s
unfolding range
range-drop s n h = ground (
  arith,
  last_index (length s),
  drop_all n s,
  take_all (length s - 1 - n + 1) (drop n s),
  length-drop n s,
)

-- A range is no longer than the string.
pub length-range : (s : Bytes) (n : ℕ) → length (range s (pos n) minus_one) ≤ length s
unfolding range
length-range s n =
    let b = from_end (length s) minus_one in
    let c = at_least_zero (to_int32 (pos (length s - 1))) in
    ground (
      arith,
      length-take (b - n + 1) (drop n s),
      length-take (c - n + 1) (drop n s),
      length-drop n s,
    )
