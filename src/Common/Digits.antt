-- ===== src/Common/Digits.antt =====
-- The value of a decimal print.
use multiplexing_hiredis.Common.Tests.{ltb, Bool-cases}
use multiplexing_hiredis.Common.Lists.{Bytes}
use multiplexing_hiredis.Common.Decimal.{digits_from, print_nat}
use Prim.Native.Nat.{ℕ, zero, suc, ◌+◌, ◌*◌, ◌-◌, ◌%◌, ◌/◌, ◌≤◌}
use mathlib.Core.Path.{◌≡◌, refl, ap, ◌∙◌}
use mathlib.Core.Logic.{inl, inr}
use mathlib.Core.List.{[], ◌∷◌, ◌++◌}
use native.Mathlib.Omega.{arith}

-- The number that digits stand for, behind a number `v`.
abbrev pub value : ℕ → Bytes → ℕ
value v [] = v
value v (c ∷ s) = value (v * 10 + (c - 48)) s

-- Every byte is a digit.
abbrev pub AllDigits : Bytes → Type 0
AllDigits [] = Unit
AllDigits (c ∷ s) = (48 ≤ c) × (c ≤ 57) × AllDigits s

pub value-append : (v : ℕ) (s t : Bytes) → value v (s ++ t) ≡ value (value v s) t
value-append v [] t = refl
value-append v (c ∷ s) t = value-append (v * 10 + (c - 48)) s t

pub AllDigits-append : (s t : Bytes) → AllDigits s → AllDigits t → AllDigits (s ++ t)
AllDigits-append [] t h h' = h'
AllDigits-append (c ∷ s) t (a, b, h) h' = (a, b, AllDigits-append s t h h')

pub value-le : (v : ℕ) (s : Bytes) → v ≤ value v s
value-le v [] = omega arith
value-le v (c ∷ s) = omega (arith, value-le (v * 10 + (c - 48)) s)

digits_from-AllDigits : (f n : ℕ) → n ≤ f → AllDigits (digits_from f n)
unfolding digits_from
digits_from-AllDigits zero n h = (omega arith, omega arith, tt)
digits_from-AllDigits (suc f) n h = elim (Bool-cases (ltb n 10)) [
  | inl e ↦ rw e (omega arith, ground arith, tt)
  | inr e ↦ rw e (
      AllDigits-append (digits_from f (n / 10)) ((48 + n % 10) ∷ [])
        (digits_from-AllDigits f (n / 10) (ground arith)) (omega arith, omega arith, tt))
]

digits_from-value : (f n : ℕ) → n ≤ f → value 0 (digits_from f n) ≡ n
unfolding digits_from
digits_from-value zero n h = omega arith
digits_from-value (suc f) n h = elim (Bool-cases (ltb n 10)) [
  | inl e ↦ rw e (omega arith)
  | inr e ↦ rw e (
      value-append 0 (digits_from f (n / 10)) ((48 + n % 10) ∷ [])
      ∙ ap (λ k. k * 10 + (48 + n % 10 - 48)) (digits_from-value f (n / 10) (ground arith))
      ∙ omega arith)
]

pub print_nat-AllDigits : (n : ℕ) → AllDigits (print_nat n)
unfolding print_nat
print_nat-AllDigits n = digits_from-AllDigits n n (omega arith)

-- A number that is printed has the value it had.
pub value-print_nat : (n : ℕ) → value 0 (print_nat n) ≡ n
unfolding print_nat
value-print_nat n = digits_from-value n n (omega arith)
