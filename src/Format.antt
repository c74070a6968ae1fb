-- ===== src/Format.antt =====
-- hiredis.c: commands formatted for the wire: countDigits, bulklen, redisFormatCommandArgv and
-- redisFormatSdsCommandArgv. The child Vararg is redisvFormatCommand. Where the source
-- keeps a length in an `int`, or prints it with %u, it is cut to 32 bits; below 2 ^ 31 that changes
-- nothing.
pub mod Vararg
pub mod Digits
pub mod Command
use multiplexing_hiredis.Common.{
  ℕ, zero, suc, ◌+◌, ◌/◌, Bool, Option, none, some, List, [], ◌∷◌, ◌++◌, ltb, ◌==◌, if◌then◌else◌,
  Bytes, length, take, map, ◌%◌, ◌^◌, ◌&&◌, false,
}
use multiplexing_hiredis.Common.Int.{ℤ, pos, negsuc, to_int32}
use multiplexing_hiredis.Common.Decimal.{print_nat}
use multiplexing_hiredis.Common.Outcome.{Outcome, ok, abort, ◌>>=◌, ◌>>◌, assert}

-- The loop of countDigits; each round divides by 10000, so `v` rounds are enough.
unfoldable pub count_loop : ℕ → ℕ → ℕ → ℕ
count_loop zero v result = result
count_loop (suc fuel) v result =
    let rest = count_loop fuel (v / 10000) (result + 4) in
    if ltb v 10
    then result
    else if ltb v 100
    then result + 1
    else if ltb v 1000
    then result + 2
    else if ltb v 10000
    then result + 3
    else rest

-- countDigits
unfoldable pub count_digits : ℕ → ℕ
unfolding count_loop
count_digits v = count_loop (suc v) v 1

-- bulklen
unfoldable pub bulklen : ℕ → ℕ
unfolding count_digits
bulklen len = 1 + count_digits len + 2 + len + 2

-- strlen: the number of bytes before the terminator
unfoldable pub strlen : Bytes → ℕ
strlen [] = 0
strlen (c ∷ s) = if c == 0 then 0 else suc (strlen s)

-- The arguments with their sizes: `argvlen ? argvlen[j] : strlen(argv[j])`.
unfoldable pub sized_args : List Bytes → Option (List ℕ) → List (Bytes × ℕ)
unfolding strlen
sized_args [] argvlen = []
sized_args (s ∷ argv) none = (s, strlen s) ∷ sized_args argv none
sized_args (s ∷ argv) (some []) = []
sized_args (s ∷ argv) (some (n ∷ ns)) = (s, n) ∷ sized_args argv (some ns)

-- The first loop: the number of bytes needed, added to what is needed already.
unfoldable pub total_length : ℕ → List (Bytes × ℕ) → ℕ
unfolding bulklen
total_length totlen [] = totlen
total_length totlen ((s, len) ∷ args) = total_length (totlen + bulklen len) args

abbrev pub crlf : Bytes
crlf = 13 ∷ 10 ∷ []

-- The second loop: each argument is appended to the command.
unfoldable pub append_args : Bytes → List (Bytes × ℕ) → Bytes
append_args cmd [] = cmd
append_args cmd ((s, len) ∷ args) =
    append_args ((((cmd ++ (36 ∷ print_nat len ++ crlf)) ++ take len s)) ++ crlf) args

-- The command and its length as an `int`, behind the assertion on the length.
abbrev pub checked : Bytes → ℕ → Outcome (Option (Bytes × ℤ))
checked cmd totlen = assert (length cmd == totlen) >> ok (some (cmd, to_int32 (pos totlen)))

-- `malloc(totlen+1)` of an `int` that wraps around: a negative size is never got, and a size that
-- came round to a positive one is less than what is written, behind the end of the memory.
unfoldable pub allocate : Bool → ℕ → Outcome Bool
allocate room totlen =
    if ltb (totlen + 1) (2 ^ 31)
    then ok room
    else if room && ltb ((totlen + 1) % 2 ^ 32) (2 ^ 31)
    then abort
    else ok false

-- The bytes that a callee reads at `cmd` when it is given the `int` as a `size_t`: a negative one
-- is past the end of every command.
abbrev pub given : Bytes → ℤ → Outcome Bytes
given cmd (pos n) = ok (take n cmd)
given cmd (negsuc n) = abort

-- redisFormatCommandArgv; `room` tells whether malloc gets the memory, and `none` is the return
-- of -1.
unfoldable pub format_command_argv :
    Bool → List Bytes → Option (List ℕ) → Outcome (Option (Bytes × ℤ))
unfolding sized_args total_length append_args allocate
format_command_argv room argv argvlen =
    let args = sized_args argv argvlen in
    let argc = length args in
    let totlen = total_length (1 + count_digits argc + 2) args in
    let cmd = append_args (42 ∷ print_nat argc ++ crlf) args in
    allocate room totlen >>= λ got. if got then checked cmd totlen else ok none

-- sdscatfmt and sdscatlen of redisFormatSdsCommandArgv: the room has been made before.
-- %u prints the low 32 bits of the size.
unfoldable pub append_sds_args : Bytes → List (Bytes × ℕ) → Bytes
append_sds_args cmd [] = cmd
append_sds_args cmd ((s, len) ∷ args) =
    let head = cmd ++ (36 ∷ print_nat (len % 2 ^ 32) ++ crlf) in
    append_sds_args ((head ++ take len s) ++ crlf) args

-- redisFormatSdsCommandArgv; `room` tells whether sdsempty and sdsMakeRoomFor get the memory,
-- and `none` is the return of -1. The length is an `unsigned long long` that is returned as an `int`.
unfoldable pub format_sds_command_argv :
    Bool → List Bytes → Option (List ℕ) → Outcome (Option (Bytes × ℤ))
unfolding sized_args total_length append_sds_args
format_sds_command_argv room argv argvlen =
    let args = sized_args argv argvlen in
    let totlen = total_length (1 + count_digits (length args) + 2) args in
    let cmd = append_sds_args ([] ++ (42 ∷ print_nat (length args) ++ crlf)) args in
    if room then checked cmd totlen else ok none
