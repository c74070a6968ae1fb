-- ===== src/Net/Timeout.antt =====
-- net.c: redisContextTimeoutMsec, on times that are not negative.
use multiplexing_hiredis.Common.{
  ℕ, ◌+◌, ◌-◌, ◌*◌, ◌/◌, ◌^◌, ◌<◌, ◌≤◌, ◌≡◌, ◌⊎◌, ◌||◌, Option, none, some, ltb, if◌then◌else◌,
  arith,
}
use multiplexing_hiredis.Common.Int.{ℤ, pos, minus_one}

-- struct timeval
pub record Timeval : Type 0 where
  pub tv_sec : ℕ
  pub tv_usec : ℕ

abbrev pub int_max : ℕ
int_max = 2 ^ 31 - 1

-- __MAX_MSEC, for a `long` of 64 bits
abbrev pub max_msec : ℕ
max_msec = (2 ^ 63 - 1 - 999) / 1000

-- The time in milliseconds, rounded up, and at most that of an int.
abbrev pub msec_of : Timeval → ℕ
msec_of t =
    let msec = t.tv_sec * 1000 + (t.tv_usec + 999) / 1000 in
    if ltb int_max msec then int_max else msec

-- redisContextTimeoutMsec; `none` is REDIS_ERR, and a NULL timeout is -1.
unfoldable pub timeout_msec : Option Timeval → Option ℤ
timeout_msec none = some minus_one
timeout_msec (some t) =
    if ltb 1000000 t.tv_usec || ltb max_msec t.tv_sec then none else some (pos (msec_of t))

abbrev pub usec_of : Timeval → ℕ
usec_of t = t.tv_sec * 1000000 + t.tv_usec

-- A timeout that is taken gives a number of milliseconds that fits an int, less than a millisecond
-- more than the time that was asked for and, unless it is the largest int, no less than that time.
-- The sum before the test is in the range of a `long`.
pub timeout_msec_rounded :
    (t : Timeval) (n : ℕ)
    → timeout_msec (some t) ≡ some (pos n)
    → (n ≤ int_max)
      × (n * 1000 < usec_of t + 1000)
      × ((n ≡ int_max) ⊎ (usec_of t ≤ n * 1000))
      × (t.tv_sec * 1000 + (t.tv_usec + 999) / 1000 < 2 ^ 63)
unfolding timeout_msec
timeout_msec_rounded t n e = ground arith
