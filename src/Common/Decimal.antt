-- ===== src/Common/Decimal.antt =====
-- Decimal printing, as `%d`, `%u` and `%zu` of printf do it.
use multiplexing_hiredis.Common.Tests.{ltb, if◌then◌else◌}
use multiplexing_hiredis.Common.Lists.{Bytes}
use multiplexing_hiredis.Common.Int.{ℤ, pos, negsuc}
use Prim.Native.Nat.{ℕ, zero, suc, ◌+◌, ◌%◌, ◌/◌}
use mathlib.Core.List.{[], ◌∷◌, ◌++◌}

-- A number has at most as many digits as the fuel, if it is at most the fuel.
unfoldable pub digits_from : ℕ → ℕ → Bytes
digits_from zero n = (48 + n) ∷ []
digits_from (suc f) n =
    let front = digits_from f (n / 10) in
    if ltb n 10 then (48 + n) ∷ [] else front ++ ((48 + n % 10) ∷ [])

unfoldable pub print_nat : ℕ → Bytes
print_nat n = digits_from n n

unfoldable pub print_int : ℤ → Bytes
print_int (pos n) = print_nat n
print_int (negsuc n) = 45 ∷ print_nat (suc n)
