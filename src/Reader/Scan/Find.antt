-- ===== src/Reader/Scan/Find.antt =====
-- What `seek_newline` finds, and that bytes behind a line do not change how it is read.
use multiplexing_hiredis.Common.{
  ℕ, zero, suc, ◌+◌, ◌-◌, ◌*◌, ◌%◌, ◌^◌, ◌≤◌, ◌<◌, ◌≡◌, refl, some, [], ◌∷◌, ◌++◌, arith, length,
  Bytes,
}
use multiplexing_hiredis.Reader.Scan.{
  seek_loop, newline_bound, seek_newline, read_digits, read_long_long,
}

-- The offset found lies below the bound, and the two bytes of \r\n within the text.
pub seek_loop-lt :
    (m : ℕ) (s : Bytes) (n : ℕ) → seek_loop m s ≡ some n → (n < m) × (n + 2 ≤ length s)
unfolding seek_loop
seek_loop-lt zero s n h = cc
seek_loop-lt (suc m) [] n h = cc
seek_loop-lt (suc m) (c ∷ []) n h = cc
seek_loop-lt (suc m) (c ∷ d ∷ s) zero h = ground arith
seek_loop-lt (suc m) (c ∷ d ∷ s) (suc n) h = ground (arith, seek_loop-lt m (d ∷ s) n)

pub seek_loop-append :
    (m m' : ℕ) (s b : Bytes) (n : ℕ)
    → m ≤ m'
    → seek_loop m s ≡ some n
    → seek_loop m' (s ++ b) ≡ some n
unfolding seek_loop
seek_loop-append zero m' s b n le h = cc
seek_loop-append (suc m) zero s b n le h = elim le [ ]
seek_loop-append (suc m) (suc m') [] b n le h = cc
seek_loop-append (suc m) (suc m') (c ∷ []) b n le h = cc
seek_loop-append (suc m) (suc m') (c ∷ d ∷ s) b zero le h = ground arith
seek_loop-append (suc m) (suc m') (c ∷ d ∷ s) b (suc n) le h =
    ground (arith, seek_loop-append m m' (d ∷ s) b n)

-- Below 2 ^ 31 bytes the bound is the number of bytes minus 1.
pub newline_bound_lem : (len : ℕ) → len ≤ 2 ^ 31 → newline_bound len ≡ len - 1
newline_bound_lem zero h = refl
newline_bound_lem (suc len) h = ground arith

pub seek_newline-append :
    (s b : Bytes) (n : ℕ)
    → length s + length b ≤ 2 ^ 31
    → seek_newline s (length s) ≡ some n
    → seek_newline (s ++ b) (length s + length b) ≡ some n
unfolding seek_newline
seek_newline-append s b n fits h =
    seek_loop-append (newline_bound (length s)) (newline_bound (length s + length b)) s b n
      (omega (arith, newline_bound_lem (length s), newline_bound_lem (length s + length b))) h

pub seek_newline-lt : (s : Bytes) (len n : ℕ) → seek_newline s len ≡ some n → n + 2 ≤ length s
unfolding seek_newline
seek_newline-lt s len n h = (seek_loop-lt _ s n h).1

-- A number ends at the first \r, so bytes behind the line change nothing.
read_digits-append :
    (m : ℕ) (s b : Bytes) (n v : ℕ)
    → seek_loop m s ≡ some n
    → read_digits v (s ++ b) ≡ read_digits v s
unfolding seek_loop read_digits
read_digits-append zero s b n v h = cc
read_digits-append (suc m) [] b n v h = cc
read_digits-append (suc m) (c ∷ []) b n v h = cc
read_digits-append (suc m) (c ∷ d ∷ s) b zero v h = ground arith
read_digits-append (suc m) (c ∷ d ∷ s) b (suc n) v h =
    ground (arith, read_digits-append m (d ∷ s) b n ((v * 10 + (c - 48)) % 2 ^ 64))

read_long_long-append_loop :
    (m : ℕ) (s b : Bytes) (n : ℕ)
    → seek_loop m s ≡ some n
    → read_long_long (s ++ b) ≡ read_long_long s
unfolding read_long_long seek_loop
read_long_long-append_loop zero s b n h = cc
read_long_long-append_loop (suc m) [] b n h = cc
read_long_long-append_loop (suc m) (c ∷ []) b n h = cc
read_long_long-append_loop (suc m) (c ∷ d ∷ s) b zero h = ground arith
read_long_long-append_loop (suc m) (c ∷ d ∷ s) b (suc n) h = ground (
  arith,
  read_digits-append m (d ∷ s) b n 0,
  read_digits-append m (d ∷ s) b n ((0 * 10 + (c - 48)) % 2 ^ 64),
)

pub read_long_long-append :
    (s b : Bytes) (len n : ℕ)
    → seek_newline s len ≡ some n
    → read_long_long (s ++ b) ≡ read_long_long s
unfolding seek_newline
read_long_long-append s b len n h = read_long_long-append_loop (newline_bound len) s b n h
