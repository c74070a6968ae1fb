-- ===== src/Async/Commands.antt =====
-- async.c: nextArgument, __redisAsyncCommand and the calls that format a command for it.
use multiplexing_hiredis.Common.{
  ℕ, zero, suc, ◌+◌, ◌*◌, ◌-◌, ◌^◌, Bool, true, false, ◌&&◌, ◌||◌, Option, none, some, List, [],
  ◌∷◌, ltb, leb, ◌==◌, if◌then◌else◌, Bytes, codes, length, take, drop,
}
use multiplexing_hiredis.Common.Int.{ℤ, pos, negsuc, to_int32}
use multiplexing_hiredis.Common.Outcome.{Outcome, ok, abort, out_of_fuel, ◌>>=◌, ◌>>◌, assert}
use multiplexing_hiredis.Reader.State.{Status, redis_ok, redis_err}
use multiplexing_hiredis.Format.{format_sds_command_argv}
use multiplexing_hiredis.Format.Vararg.{VarArg, peek, skip, v_format_command}
use multiplexing_hiredis.Context.{append_command}
use multiplexing_hiredis.Async.State.{
  Callback, DictFunctions, add_write, AsyncContext, emit, set_subscribed, set_monitoring,
  push_callback,
}

-- tolower of the C locale
abbrev pub to_lower : ℕ → ℕ
to_lower c = if leb 65 c && leb c 90 then c + 32 else c

-- isspace of the C locale
abbrev pub is_space : ℕ → Bool
is_space c = c == 32 || (leb 9 c && leb c 13)

-- The digits at the cursor, in base ten, on top of those before.
unfoldable pub digits_at : ℕ → Bytes → ℕ
digits_at v [] = v
digits_at v (c ∷ s) = if leb 48 c && leb c 57 then digits_at (v * 10 + (c - 48)) s else v

-- strtol in base ten, which stops at the ends of the range of `long`.
abbrev pub clamp_positive : ℕ → ℤ
clamp_positive v = if ltb v (2 ^ 63) then pos v else pos (2 ^ 63 - 1)

abbrev pub clamp_negative : ℕ → ℤ
clamp_negative v =
    if v == 0 then pos 0 else if ltb (2 ^ 63) v then negsuc (2 ^ 63 - 1) else negsuc (v - 1)

unfoldable pub strtol : Bytes → ℤ
unfolding skip digits_at
strtol p =
    let s = skip is_space p in
    if peek s == 45
    then clamp_negative (digits_at 0 (drop 1 s))
    else if peek s == 43
    then clamp_positive (digits_at 0 (drop 1 s))
    else clamp_positive (digits_at 0 s)

-- strchr: from the first occurrence of `c` on, if there is one before the terminator.
unfoldable pub find_char : ℕ → Bytes → Option Bytes
find_char c [] = none
find_char c (d ∷ s) =
    let later = find_char c s in if d == c then some (d ∷ s) else if d == 0 then none else later

-- What nextArgument gives: the string from the argument on, the argument's length, and the
-- string from the following argument on.
pub record Argument : Type 0 where
  pub str : Bytes
  pub len : ℕ
  pub next : Bytes

-- The end of nextArgument: `p` is at the \r and `n` is the length that was read. A cursor that
-- leaves the string, forwards or backwards, is undefined behaviour.
unfoldable pub argument_at : ℤ → Bytes → Outcome (Option Argument)
argument_at (negsuc _) p = abort
argument_at (pos n) p = do
  assert (leb (n + 4) (length p))
  ok (some (record { str = drop 2 p; len = n; next = drop (n + 4) p }))

-- nextArgument from its `$` on
unfoldable pub argument_from : Bytes → Outcome (Option Argument)
unfolding find_char strtol argument_at
argument_from p = elim (find_char 13 p) [
  | none ↦ abort
  | some q ↦ argument_at (to_int32 (strtol (drop 1 p))) q
]

-- nextArgument
unfoldable pub next_argument : Bytes → Outcome (Option Argument)
unfolding find_char argument_from
next_argument start =
    if peek start == 36
    then argument_from start
    else elim (find_char 36 start) [ none ↦ ok none | some p ↦ argument_from p ]

-- `strncasecmp(s, lit, n) == 0` where `n` is the length of `lit`, a text in lower case.
unfoldable pub starts_with : Bytes → Bytes → Bool
starts_with [] s = true
starts_with (c ∷ lit) [] = false
starts_with (c ∷ lit) (d ∷ s) = to_lower d == c && starts_with lit s

module _ {Obj Store Dict : Type 0} (dict : DictFunctions Dict) where
  -- dictReplace in the dictionary that the command is about; a released one is NULL.
  unfoldable pub subscribe_one :
      Bool → Bytes → Callback → AsyncContext Obj Store Dict → Outcome (AsyncContext Obj Store Dict)
  subscribe_one true name cb ac = elim ac.patterns [
    | none ↦ abort
    | some d ↦ ok (record ac { patterns = some (dict.replace name cb d) })
  ]
  subscribe_one false name cb ac = elim ac.channels [
    | none ↦ abort
    | some d ↦ ok (record ac { channels = some (dict.replace name cb d) })
  ]

  -- The loop over the channels or patterns of a command; every round goes on behind an argument.
  unfoldable pub subscribe_all :
      ℕ
      → Bool
      → Callback
      → Bytes
      → AsyncContext Obj Store Dict
      → Outcome (AsyncContext Obj Store Dict)
  unfolding next_argument subscribe_one
  subscribe_all zero pvariant cb p ac = out_of_fuel
  subscribe_all (suc fuel) pvariant cb p ac = elim (next_argument p) [
    | ok none ↦ ok ac
    | ok (some a) ↦ subscribe_one pvariant (take a.len a.str) cb ac >>= λ ac'.
        subscribe_all fuel pvariant cb a.next ac'
    | abort ↦ abort
    | out_of_fuel ↦ out_of_fuel
  ]

  -- The lists that a command's callback is pushed to.
  abbrev pub push_reply : Callback → AsyncContext Obj Store Dict → AsyncContext Obj Store Dict
  push_reply cb ac = record ac { replies = push_callback cb ac.replies }

  abbrev pub push_invalid : Callback → AsyncContext Obj Store Dict → AsyncContext Obj Store Dict
  push_invalid cb ac = record ac { invalid = push_callback cb ac.invalid }

  -- A command that is neither of the special ones.
  unfoldable pub register_regular :
      Callback → AsyncContext Obj Store Dict → AsyncContext Obj Store Dict
  unfolding push_callback
  register_regular cb ac = if ac.c.flags.subscribed then push_invalid cb ac else push_reply cb ac

  -- Which callback a command registers: `first` is its name, behind which `next` stands. `none` is
  -- the return of REDIS_ERR.
  unfoldable pub register :
      Callback
      → Argument
      → AsyncContext Obj Store Dict
      → Outcome (Option (AsyncContext Obj Store Dict))
  unfolding starts_with subscribe_all register_regular push_callback
  register cb first ac =
      let pvariant = to_lower (peek first.str) == 112 in
      let cstr = if pvariant then drop 1 first.str else first.str in
      let hasnext = peek first.next == 36 in
      let all =
        subscribe_all (suc (length first.next)) pvariant cb first.next (set_subscribed true ac) in
      if hasnext && starts_with (codes "subscribe\r\n") cstr
      then (all >>= λ ac'. ok (some ac'))
      else if starts_with (codes "unsubscribe\r\n") cstr
      then ok (if ac.c.flags.subscribed then some ac else none)
      else if starts_with (codes "monitor\r\n") cstr
      then ok (some (push_reply cb (set_monitoring ac)))
      else ok (some (register_regular cb ac))

  -- The end of __redisAsyncCommand
  unfoldable pub queue_command :
      Bool → Bytes → AsyncContext Obj Store Dict → AsyncContext Obj Store Dict
  unfolding append_command
  queue_command room cmd ac =
      let (st, c) = append_command room cmd ac.c in emit add_write (record ac { c = c })

  -- __redisAsyncCommand; `room` tells whether sdscatlen gets the memory.
  unfoldable pub async_command :
      Bool
      → Callback
      → Bytes
      → AsyncContext Obj Store Dict
      → Outcome (Status × AsyncContext Obj Store Dict)
  unfolding next_argument register queue_command
  async_command room cb cmd ac =
      if ac.c.flags.disconnecting || ac.c.flags.freeing
      then ok (redis_err, ac)
      else elim (next_argument cmd) [
        | ok (some first) ↦ elim (register cb first ac) [
          | ok (some ac') ↦ ok (redis_ok, queue_command room cmd ac')
          | ok none ↦ ok (redis_err, ac)
          | abort ↦ abort
          | out_of_fuel ↦ out_of_fuel
        ]
        | ok none ↦ abort
        | abort ↦ abort
        | out_of_fuel ↦ out_of_fuel
      ]

  -- redisvAsyncCommand, and redisAsyncCommand
  unfoldable pub v_async_command :
      (Bytes → ℕ → Bytes)
      → Bool
      → Callback
      → Bytes
      → List VarArg
      → AsyncContext Obj Store Dict
      → Outcome (Status × AsyncContext Obj Store Dict)
  unfolding v_format_command async_command
  v_async_command print room cb format ap ac = elim (v_format_command print format ap) [
    | ok none ↦ ok (redis_err, ac)
    | ok (some (cmd, len)) ↦ async_command room cb cmd ac
    | abort ↦ abort
    | out_of_fuel ↦ out_of_fuel
  ]

  -- redisAsyncCommandArgv
  unfoldable pub async_command_argv :
      Bool
      → Callback
      → List Bytes
      → Option (List ℕ)
      → AsyncContext Obj Store Dict
      → Outcome (Status × AsyncContext Obj Store Dict)
  unfolding format_sds_command_argv async_command
  async_command_argv room cb argv argvlen ac = elim (format_sds_command_argv room argv argvlen) [
    | ok none ↦ ok (redis_err, ac)
    | ok (some (cmd, pos len)) ↦ async_command room cb (take len cmd) ac
    | ok (some (cmd, negsuc _)) ↦ ok (redis_err, ac)
    | abort ↦ abort
    | out_of_fuel ↦ out_of_fuel
  ]
