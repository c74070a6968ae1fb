-- ===== src/Format/Vararg.antt =====
-- hiredis.c: redisvFormatCommand and redisFormatCommand, commands from a printf-like format.
-- Memory is taken to be there, and a command of 2 ^ 31 - 1 bytes or more, for which no memory can be
-- got as its length is an `int`, is outside of the model.
pub mod Spec
use multiplexing_hiredis.Common.{
  ℕ, zero, suc, ◌+◌, ◌-◌, Bool, true, false, not, ◌&&◌, ◌||◌, Option, none, some, List, [], ◌∷◌,
  ◌++◌, ltb, leb, ◌==◌, if◌then◌else◌, Bytes, codes, length, take, drop, ◌^◌,
}
use multiplexing_hiredis.Common.Decimal.{print_nat}
use multiplexing_hiredis.Common.Int.{ℤ, pos, minus_one}
use multiplexing_hiredis.Common.Outcome.{Outcome, ok, abort, out_of_fuel, ◌>>=◌, ◌>>◌, assert}
use multiplexing_hiredis.Format.{count_digits, bulklen, strlen, crlf}

-- One variable argument. A number stands for the bits of an integer or a double; a format that
-- asks for an argument of another type, or for one that is not there, is undefined behaviour.
pub data VarArg : Type 0 where
  chars : Bytes → VarArg
  number : ℕ → VarArg

-- Where the loop over the format stands: the argument at hand, whether it was touched, the
-- arguments before it, the sum of their lengths, and the variable arguments left.
pub record FormatState : Type 0 where
  pub curarg : Bytes
  pub touched : Bool
  pub curargv : List Bytes
  pub totlen : ℕ
  pub ap : List VarArg

-- What one round of the loop comes to: on with the format behind it, or a wrong format.
pub data Round : Type 0 where
  continue : Bytes → FormatState → Round
  format_err : Round

-- The byte at the cursor; the end of the format is its terminator.
abbrev pub peek : Bytes → ℕ
peek [] = 0
peek (c ∷ s) = c

-- `strchr(set, c) != NULL`, which holds of the terminator too.
unfoldable pub strchr : Bytes → ℕ → Bool
strchr [] c = c == 0
strchr (d ∷ set) c = c == d || strchr set c

-- `while (*_p != '\0' && test(*_p)) _p++`
unfoldable pub skip : (ℕ → Bool) → Bytes → Bytes
skip test [] = []
skip test (c ∷ s) = if test c then skip test s else c ∷ s

abbrev is_digit : ℕ → Bool
is_digit c = leb 48 c && leb c 57

-- Flags, field width and precision, from behind the `%` on.
unfoldable pub skip_precision : Bytes → Bytes
unfolding skip strchr
skip_precision p =
    let wide = skip is_digit (skip (strchr (codes "#0-+ ")) p) in
    if peek wide == 46 then skip is_digit (drop 1 wide) else wide

-- A conversion was recognised: where `_p` stands.
pub data Conversion : Type 0 where
  valid : Bytes → Conversion
  invalid : Conversion

unfoldable pub sized_conversion : Bytes → Conversion
unfolding strchr
sized_conversion p =
    if not (peek p == 0) && strchr (codes "diouxX") (peek p) then valid p else invalid

-- The conversion at the cursor, with its size: hh, h, ll or l.
unfoldable pub conversion : Bytes → Conversion
unfolding strchr sized_conversion
conversion p =
    if strchr (codes "diouxX") (peek p)
    then valid p
    else if strchr (codes "eEfFgGaA") (peek p)
    then valid p
    else if peek p == 104 && peek (drop 1 p) == 104
    then sized_conversion (drop 2 p)
    else if peek p == 104
    then sized_conversion (drop 1 p)
    else if peek p == 108 && peek (drop 1 p) == 108
    then sized_conversion (drop 2 p)
    else if peek p == 108
    then sized_conversion (drop 1 p)
    else invalid

-- Add bytes to the argument at hand, with the variable arguments that are left.
abbrev pub touch : Bytes → List VarArg → FormatState → FormatState
touch s ap st = record st { curarg = st.curarg ++ s; touched = true; ap = ap }

-- The argument at hand is complete.
abbrev pub push_arg : FormatState → FormatState
push_arg st = record st {
  curarg = [];
  touched = false;
  curargv = st.curargv ++ (st.curarg ∷ []);
  totlen = st.totlen + bulklen (length st.curarg);
}

-- The loop that writes the arguments.
unfoldable pub write_args : Bytes → List Bytes → Bytes
write_args cmd [] = cmd
write_args cmd (a ∷ argv) =
    write_args (((cmd ++ (36 ∷ print_nat (length a) ++ crlf)) ++ a) ++ crlf) argv

-- `print` is vsnprintf, which sdscatvprintf calls, for one conversion and its number.
module _ (print : Bytes → ℕ → Bytes) where
  -- A conversion that ends at `p`, in the format `c` from its `%` on. Its text goes into a buffer
  -- of 16 bytes if it is below 14 bytes; the cursor passes it only then. Passing the terminator
  -- leaves the format.
  unfoldable pub print_number : Bytes → Bytes → FormatState → Outcome Round
  print_number c [] st = elim st.ap [
    | number n ∷ ap ↦
        if ltb (length c + 1) 14 then abort else ok (continue (drop 2 c) (touch [] ap st))
    | _ ↦ abort
  ]
  print_number c (x ∷ p) st = elim st.ap [
    | number n ∷ ap ↦
        let l = length c - length p in
        ok (
          if ltb l 14
          then continue p (touch (print (take l c) n) ap st)
          else continue (drop 2 c) (touch [] ap st))
    | _ ↦ abort
  ]

  -- The default case of the switch.
  unfoldable pub print_format : Bytes → FormatState → Outcome Round
  unfolding skip_precision conversion print_number
  print_format c st = elim (conversion (skip_precision (drop 1 c))) [
    | invalid ↦ ok format_err
    | valid p ↦ print_number c p st
  ]

  -- `%s`
  unfoldable pub interpolate_string : Bytes → FormatState → List VarArg → Outcome Round
  unfolding strlen
  interpolate_string c st (chars s ∷ ap) =
      ok (continue (drop 2 c) (touch (take (strlen s) s) ap st))
  interpolate_string c st _ = abort

  -- `%b`
  unfoldable pub interpolate_binary : Bytes → FormatState → List VarArg → Outcome Round
  interpolate_binary c st (chars s ∷ number size ∷ ap) =
      if leb size (length s) then ok (continue (drop 2 c) (touch (take size s) ap st)) else abort
  interpolate_binary c st _ = abort

  -- One round, at the byte `x` with the rest `s` of the format behind it.
  unfoldable pub format_round : ℕ → Bytes → FormatState → Outcome Round
  unfolding print_format interpolate_string interpolate_binary
  format_round x s st =
      if not (x == 37) || peek s == 0
      then (if x == 32
          then ok (continue s (if st.touched then push_arg st else st))
          else ok (continue s (touch (x ∷ []) st.ap st)))
      else if peek s == 115
      then interpolate_string (x ∷ s) st st.ap
      else if peek s == 98
      then interpolate_binary (x ∷ s) st st.ap
      else if peek s == 37
      then ok (continue (drop 1 s) (touch (37 ∷ []) st.ap st))
      else print_format (x ∷ s) st

  -- The loop; `none` is a wrong format. Every round passes a byte at least.
  unfoldable pub format_loop : ℕ → Bytes → FormatState → Outcome (Option FormatState)
  unfolding format_round
  format_loop fuel [] st = ok (some st)
  format_loop zero (x ∷ s) st = out_of_fuel
  format_loop (suc fuel) (x ∷ s) st = elim (format_round x s st) [
    | ok (continue s' st') ↦ format_loop fuel s' st'
    | ok format_err ↦ ok none
    | abort ↦ abort
    | out_of_fuel ↦ out_of_fuel
  ]

  -- The command behind the loop, with its length, an `int` as is the size `totlen+1` of its memory.
  unfoldable pub write_command : FormatState → Outcome (Bytes × ℕ)
  unfolding write_args
  write_command st =
      let last = if st.touched then push_arg st else st in
      let totlen = last.totlen + (1 + count_digits (length last.curargv) + 2) in
      let cmd = write_args (42 ∷ print_nat (length last.curargv) ++ crlf) last.curargv in
      assert (ltb (totlen + 1) (2 ^ 31)) >> (assert (length cmd == totlen) >> ok (cmd, totlen))

  abbrev pub start_format : List VarArg → FormatState
  start_format ap = record { curarg = []; touched = false; curargv = []; totlen = 0; ap = ap }

  -- redisvFormatCommand; `none` is the return of -2.
  unfoldable pub v_format_command : Bytes → List VarArg → Outcome (Option (Bytes × ℕ))
  unfolding format_loop write_command
  v_format_command format ap = elim (format_loop (length format) format (start_format ap)) [
    | ok (some st) ↦ write_command st >>= λ r. ok (some r)
    | ok none ↦ ok none
    | abort ↦ abort
    | out_of_fuel ↦ out_of_fuel
  ]

  -- redisFormatCommand: the length, or -1, and the target where it is written.
  unfoldable pub format_command : Bytes → List VarArg → Outcome (ℤ × Option Bytes)
  unfolding v_format_command
  format_command format ap = elim (v_format_command format ap) [
    | ok (some (cmd, len)) ↦ ok (pos len, some cmd)
    | ok none ↦ ok (minus_one, none)
    | abort ↦ abort
    | out_of_fuel ↦ out_of_fuel
  ]
