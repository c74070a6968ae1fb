-- ===== src/Reader/Scan.antt =====
-- read.c: the scans over the buffer, `seekNewline` and `readLongLong`.
pub mod Find
pub mod Number
pub mod Line
use multiplexing_hiredis.Common.{
  ℕ, zero, suc, ◌+◌, ◌-◌, ◌*◌, ◌%◌, ◌^◌, Bool, true, false, ◌&&◌, Option, none, some, [], ◌∷◌, ltb,
  leb, ◌==◌, if◌then◌else◌, Bytes,
}
use multiplexing_hiredis.Common.Int.{ℤ, minus_one, signed64}

abbrev pub cr : ℕ
cr = 13

abbrev pub lf : ℕ
lf = 10

-- The position counted from one byte earlier.
abbrev pub one_later : Option ℕ → Option ℕ
one_later none = none
one_later (some n) = some (suc n)

-- The two nested loops of `seekNewline`, over the positions below the bound; the inner loop and
-- the outer one both go on with the next position.
pub seek_loop : ℕ → Bytes → Option ℕ
seek_loop zero s = none
seek_loop (suc bound) [] = none
seek_loop (suc bound) (c ∷ []) = none
seek_loop (suc bound) (c ∷ d ∷ s) =
    let rest = one_later (seek_loop bound (d ∷ s)) in if c == cr && d == lf then some 0 else rest

-- `int _len = len-1`, converted from size_t: the positions below it are looked at.
abbrev pub newline_bound : ℕ → ℕ
newline_bound len =
    let low = (len + 2 ^ 64 - 1) % 2 ^ 64 % 2 ^ 32 in if ltb low (2 ^ 31) then low else 0

-- seekNewline: the offset of the first \r\n among the first `len` bytes.
unfoldable pub seek_newline : Bytes → ℕ → Option ℕ
unfolding seek_loop
seek_newline s len = seek_loop (newline_bound len) s

-- The loop of `readLongLong`, on the 64 bits of `v`; `none` is the return of -1. Behind the
-- buffer stands the terminator of the sds string, which is no digit.
pub read_digits : ℕ → Bytes → Option ℕ
read_digits v [] = none
read_digits v (c ∷ s) =
    let rest = read_digits ((v * 10 + (c - 48)) % 2 ^ 64) s in
    if c == cr then some v else if leb 48 c && leb c 57 then rest else none

abbrev with_sign : Bool → Option ℕ → ℤ
with_sign negative none = minus_one
with_sign negative (some v) = if negative then signed64 ((2 ^ 64 - v) % 2 ^ 64) else signed64 v

-- readLongLong
unfoldable pub read_long_long : Bytes → ℤ
unfolding read_digits
read_long_long [] = minus_one
read_long_long (c ∷ s) =
    if c == 45
    then with_sign true (read_digits 0 s)
    else if c == 43
    then with_sign false (read_digits 0 s)
    else with_sign false (read_digits 0 (c ∷ s))
