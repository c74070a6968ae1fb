-- ===== src/Format/Digits.antt =====
-- `count_digits` counts the digits that printf prints.
use multiplexing_hiredis.Common.{
  ℕ, zero, suc, ◌+◌, ◌/◌, ◌%◌, ◌≤◌, ◌<◌, ◌≡◌, refl, [], ◌∷◌, ◌++◌, arith, ltb, if◌then◌else◌,
  length, length-append,
}
use multiplexing_hiredis.Common.Decimal.{digits_from, print_nat}
use multiplexing_hiredis.Format.{count_loop, count_digits}

digits_from_fuel : (f g n : ℕ) → n ≤ f → n ≤ g → digits_from f n ≡ digits_from g n
unfolding digits_from
digits_from_fuel zero zero n h k = refl
digits_from_fuel zero (suc g) n h k = ground arith
digits_from_fuel (suc f) zero n h k = ground arith
digits_from_fuel (suc f) (suc g) n h k = ground (arith, digits_from_fuel f g (n / 10))

-- The digits of a number are those of its tenth, and one more.
pub print_nat_step :
    (n : ℕ)
    → print_nat n ≡ (if ltb n 10 then (48 + n) ∷ [] else print_nat (n / 10) ++ ((48 + n % 10) ∷ []))
unfolding print_nat digits_from
print_nat_step zero = refl
print_nat_step (suc n) = ground (arith, digits_from_fuel n (suc n / 10) (suc n / 10))

length-print_nat :
    (n : ℕ) → length (print_nat n) ≡ (if ltb n 10 then 1 else length (print_nat (n / 10)) + 1)
length-print_nat n =
    ground (arith, print_nat_step n, length-append (print_nat (n / 10)) ((48 + n % 10) ∷ []))

count_loop-length : (f v r : ℕ) → v < f → count_loop f v r + 1 ≡ r + length (print_nat v)
unfolding count_loop
count_loop-length zero v r h = absurd (omega arith)
count_loop-length (suc f) v r h =
    let a = length-print_nat v in
    let b = length-print_nat (v / 10) in
    let c = length-print_nat (v / 10 / 10) in
    let d = length-print_nat (v / 10 / 10 / 10) in
    let w : v / 10 / 10 / 10 / 10 ≡ v / 10000 = omega arith in
    ground (arith, count_loop-length f (v / 10000) (r + 4))

-- countDigits gives, for every number, the number of digits of its decimal print.
pub count_digits-length : (v : ℕ) → count_digits v ≡ length (print_nat v)
unfolding count_digits
count_digits-length v = omega (arith, count_loop-length (suc v) v 1 (omega arith))
