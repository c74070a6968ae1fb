-- ===== src/Reader/Scan/Line.antt =====
-- How the scans read what was written: a line, and a number that was printed.
use multiplexing_hiredis.Common.{
  ℕ, zero, suc, ◌+◌, ◌-◌, ◌*◌, ◌%◌, ◌^◌, ◌≤◌, ◌<◌, ◌≡◌, ◌≢◌, refl, ap, ◌∙◌, some, true, false, [],
  ◌∷◌, ◌++◌, arith, length, Bytes, leb, ◌==◌,
}
use multiplexing_hiredis.Common.Int.{ℤ, pos, negsuc, signed64}
use multiplexing_hiredis.Common.Decimal.{print_nat, print_int}
use multiplexing_hiredis.Common.Digits.{
  value, AllDigits, value-le, print_nat-AllDigits, value-print_nat,
}
use multiplexing_hiredis.Reader.Scan.{
  seek_loop, newline_bound, seek_newline, read_digits, with_sign, read_long_long,
}
use multiplexing_hiredis.Reader.Scan.Find.{newline_bound_lem}

-- A text without \r.
abbrev pub NoCr : Bytes → Type 0
NoCr [] = Unit
NoCr (c ∷ s) = (c ≢ 13) × NoCr s

pub AllDigits-NoCr : (s : Bytes) → AllDigits s → NoCr s
AllDigits-NoCr [] h = tt
AllDigits-NoCr (c ∷ s) (a, b, h) = (omega arith, AllDigits-NoCr s h)

seek_loop-line :
    (m : ℕ) (s rest : Bytes)
    → NoCr s
    → length s < m
    → seek_loop m (s ++ (13 ∷ 10 ∷ rest)) ≡ some (length s)
unfolding seek_loop
seek_loop-line zero s rest n h = ground arith
seek_loop-line (suc m) [] rest n h = refl
seek_loop-line (suc m) (c ∷ []) rest (n, _) h =
    ground (arith, seek_loop-line m [] rest tt (omega arith))
seek_loop-line (suc m) (c ∷ d ∷ s) rest (n, ns) h =
    ground (arith, seek_loop-line m (d ∷ s) rest ns (omega arith))

-- A line that ends within the first `len` bytes is found.
pub seek_newline-line :
    (s rest : Bytes) (len : ℕ)
    → NoCr s
    → length s + 2 ≤ len
    → len ≤ 2 ^ 31
    → seek_newline (s ++ (13 ∷ 10 ∷ rest)) len ≡ some (length s)
unfolding seek_newline
seek_newline-line s rest len n h fits =
    seek_loop-line (newline_bound len) s rest n (omega (arith, newline_bound_lem len fits))

read_digits-value :
    (v : ℕ) (s rest : Bytes)
    → AllDigits s
    → value v s < 2 ^ 64
    → read_digits v (s ++ (13 ∷ rest)) ≡ some (value v s)
unfolding read_digits
read_digits-value v [] rest d h = refl
read_digits-value v (c ∷ s) rest (a, b, d) h =
    let le = value-le (v * 10 + (c - 48)) s in
    let small : (v * 10 + (c - 48)) % 2 ^ 64 ≡ v * 10 + (c - 48) = omega arith in
    let other : (c == 13) ≡ false = ground arith in
    let digit : (leb 48 c) ≡ true = ground arith in
    let digit' : (leb c 57) ≡ true = ground arith in
    rw (small, other, digit, digit') (read_digits-value (v * 10 + (c - 48)) s rest d h)

digits_long_long :
    (s rest : Bytes)
    → AllDigits s
    → value 0 s < 2 ^ 64
    → read_long_long (s ++ (13 ∷ rest)) ≡ with_sign false (some (value 0 s))
unfolding read_long_long
digits_long_long [] rest d h = refl
digits_long_long (c ∷ s) rest (a, b, d) h =
    let plus : (c == 43) ≡ false = ground arith in
    let minus : (c == 45) ≡ false = ground arith in
    rw (plus, minus) (ap (with_sign false) (read_digits-value 0 (c ∷ s) rest (a, b, d) h))

-- A number of the range of `long long` that was printed is read back.
pub read_long_long-print_nat :
    (n : ℕ) (rest : Bytes) → n < 2 ^ 63 → read_long_long (print_nat n ++ (13 ∷ rest)) ≡ pos n
read_long_long-print_nat n rest h =
    digits_long_long (print_nat n) rest (print_nat-AllDigits n) (omega (arith, value-print_nat n))
    ∙ ap (λ v. signed64 v) (value-print_nat n)
    ∙ ground arith

read_long_long-negative :
    (n : ℕ) (rest : Bytes)
    → n < 2 ^ 63
    → read_long_long (45 ∷ print_nat (suc n) ++ (13 ∷ rest)) ≡ negsuc n
unfolding read_long_long
read_long_long-negative n rest h =
    ap (with_sign true) (
      read_digits-value 0 (print_nat (suc n)) rest (print_nat-AllDigits (suc n))
        (omega (arith, value-print_nat (suc n)))
      ∙ ap some (value-print_nat (suc n)))
    ∙ ground arith

-- The values of `long long`.
abbrev pub InRange : ℤ → Type 0
InRange (pos n) = n < 2 ^ 63
InRange (negsuc n) = n < 2 ^ 63

pub read_long_long-print_int :
    (z : ℤ) (rest : Bytes) → InRange z → read_long_long (print_int z ++ (13 ∷ rest)) ≡ z
unfolding print_int
read_long_long-print_int (pos n) rest h = read_long_long-print_nat n rest h
read_long_long-print_int (negsuc n) rest h = read_long_long-negative n rest h

pub print_int-NoCr : (z : ℤ) → NoCr (print_int z)
unfolding print_int
print_int-NoCr (pos n) = AllDigits-NoCr (print_nat n) (print_nat-AllDigits n)
print_int-NoCr (negsuc n) =
    (omega arith, AllDigits-NoCr (print_nat (suc n)) (print_nat-AllDigits (suc n)))
