-- ===== src/Format/Command.antt =====
-- What the format functions write, against the protocol.
use multiplexing_hiredis.Common.{
  ℕ, suc, ◌+◌, ◌≤◌, ◌≡◌, refl, sym, ap, ◌∙◌, Bool, true, Option, some, List, [], ◌∷◌, ◌++◌, arith,
  Bytes, length, length-append, length-take, take, take-length-append, map, append_assoc,
  append-nil, ==-refl, ◌<◌, ◌^◌, ◌%◌, false,
}
use multiplexing_hiredis.Common.Int.{pos, to_int32_small}
use multiplexing_hiredis.Common.Decimal.{print_nat}
use multiplexing_hiredis.Common.Outcome.{ok}
use multiplexing_hiredis.Format.{
  count_digits, bulklen, sized_args, total_length, append_args, append_sds_args, crlf, checked,
  allocate, given, format_command_argv, format_sds_command_argv,
}
use multiplexing_hiredis.Format.Digits.{count_digits-length}
use multiplexing_hiredis.Resp.{bulk, array, encode, encode_items, count, bulks}

-- The bytes of an argument.
abbrev pub content : Bytes × ℕ → Bytes
content (s, len) = take len s

-- No size goes past the memory of its argument.
abbrev pub AllSized : List (Bytes × ℕ) → Type 0
AllSized [] = Unit
AllSized ((s, len) ∷ args) = (len ≤ length s) × AllSized args

-- The command of the given arguments.
abbrev pub command : List (Bytes × ℕ) → Bytes
command args = encode (array (bulks (map content args)))

abbrev rest : List (Bytes × ℕ) → Bytes
rest args = encode_items (bulks (map content args))

length-bulk : (s : Bytes) → length (encode (bulk s)) ≡ bulklen (length s)
unfolding encode bulklen
length-bulk s = omega (
  arith,
  length-append (print_nat (length s)) (crlf ++ (s ++ crlf)),
  length-append s crlf,
  count_digits-length (length s),
)

sized_content : (s : Bytes) (len : ℕ) → len ≤ length s → length (take len s) ≡ len
sized_content s len h = omega (arith, length-take len s)

append_args-rest :
    (cmd : Bytes) (args : List (Bytes × ℕ))
    → AllSized args
    → append_args cmd args ≡ cmd ++ rest args
unfolding append_args encode_items
append_args-rest cmd [] h = sym (append-nil cmd)
append_args-rest cmd ((s, len) ∷ args) (h, hs) =
    append_args-rest (((cmd ++ (36 ∷ print_nat len ++ crlf)) ++ take len s) ++ crlf) args hs
    ∙ simp (append_assoc, sized_content s len h)

total_length-rest :
    (n : ℕ) (args : List (Bytes × ℕ)) → AllSized args → total_length n args ≡ n + length (rest args)
unfolding total_length encode_items
total_length-rest n [] h = omega arith
total_length-rest n ((s, len) ∷ args) (h, hs) = omega (
  arith,
  total_length-rest (n + bulklen len) args hs,
  length-append (encode (bulk (take len s))) (rest args),
  length-bulk (take len s),
  ap bulklen (sized_content s len h),
)

grows :
    (s : Bytes) (len : ℕ) (args : List (Bytes × ℕ))
    → len ≤ length s
    → length (rest ((s, len) ∷ args)) ≡ bulklen len + length (rest args)
unfolding encode_items
grows s len args h = omega (
  arith,
  length-append (encode (bulk (take len s))) (rest args),
  length-bulk (take len s),
  ap bulklen (sized_content s len h),
)

-- %u prints a size below 2 ^ 32 as it is.
low_word :
    (s : Bytes) (len : ℕ) (args : List (Bytes × ℕ))
    → len ≤ length s
    → length (rest ((s, len) ∷ args)) < 2 ^ 31
    → len % 2 ^ 32 ≡ len
unfolding bulklen
low_word s len args h f = omega (arith, grows s len args h)

append_sds_args-rest :
    (cmd : Bytes) (args : List (Bytes × ℕ))
    → AllSized args
    → length (rest args) < 2 ^ 31
    → append_sds_args cmd args ≡ cmd ++ rest args
unfolding append_sds_args encode_items
append_sds_args-rest cmd [] h f = sym (append-nil cmd)
append_sds_args-rest cmd ((s, len) ∷ args) (h, hs) f =
    ap (λ n. append_sds_args (((cmd ++ (36 ∷ print_nat n ++ crlf)) ++ take len s) ++ crlf) args)
      (low_word s len args h f)
    ∙ append_sds_args-rest (((cmd ++ (36 ∷ print_nat len ++ crlf)) ++ take len s) ++ crlf) args hs
        (omega (arith, grows s len args h))
    ∙ simp (append_assoc, sized_content s len h)

count-map : (args : List (Bytes × ℕ)) → count (bulks (map content args)) ≡ length args
count-map [] = refl
count-map (a ∷ args) = ap suc (count-map args)

command_lem :
    (args : List (Bytes × ℕ)) → command args ≡ (42 ∷ print_nat (length args) ++ crlf) ++ rest args
unfolding encode
command_lem args =
    ap (λ n. 42 ∷ print_nat n ++ (crlf ++ rest args)) (count-map args)
    ∙ sym (append_assoc (42 ∷ print_nat (length args)) crlf (rest args))

length-command :
    (args : List (Bytes × ℕ))
    → AllSized args
    → total_length (1 + count_digits (length args) + 2) args ≡ length (command args)
length-command args h = omega (
  arith,
  total_length-rest (1 + count_digits (length args) + 2) args h,
  ap length (command_lem args),
  length-append (42 ∷ print_nat (length args) ++ crlf) (rest args),
  length-append (print_nat (length args)) crlf,
  count_digits-length (length args),
)

length-command-rest : (args : List (Bytes × ℕ)) → length (rest args) ≤ length (command args)
length-command-rest args = omega (
  arith,
  ap length (command_lem args),
  length-append (42 ∷ print_nat (length args) ++ crlf) (rest args),
)

checked_lem :
    (cmd : Bytes)
    → length cmd < 2 ^ 31
    → checked cmd (length cmd) ≡ ok (some (cmd, pos (length cmd)))
checked_lem cmd f = rw (==-refl, to_int32_small (length cmd) f) refl

allocate_lem : (room : Bool) (totlen : ℕ) → totlen + 1 < 2 ^ 31 → allocate room totlen ≡ ok room
unfolding allocate
allocate_lem room totlen f = ground arith

pub take-length : (cmd : Bytes) → take (length cmd) cmd ≡ cmd
take-length cmd = ap (take (length cmd)) (sym (append-nil cmd)) ∙ take-length-append cmd []

-- A callee that is given the length of a command reads it whole.
pub given_whole : (cmd : Bytes) → given cmd (pos (length cmd)) ≡ ok cmd
given_whole cmd = ap ok (take-length cmd)

-- Where no size goes past the memory of its argument, there is memory for the command, and its
-- length and the terminator's come to less than 2 ^ 31, the assertion on the length holds, and the
-- command is the array of the arguments as bulk strings, returned with its length.
pub format_command_argv-encode :
    (argv : List Bytes) (argvlen : Option (List ℕ))
    → AllSized (sized_args argv argvlen)
    → length (command (sized_args argv argvlen)) + 1 < 2 ^ 31
    → format_command_argv true argv argvlen
      ≡ ok (
          some
            (command (sized_args argv argvlen), pos (length (command (sized_args argv argvlen)))))
unfolding format_command_argv
format_command_argv-encode argv argvlen h f =
    let args = sized_args argv argvlen in
    let same =
      append_args-rest (42 ∷ print_nat (length args) ++ crlf) args h ∙ sym (command_lem args) in
    rw (same, length-command args h, allocate_lem true (length (command args)) f)
      (checked_lem (command args) (omega (arith, f)))

-- The same of the formatter into an sds string, where the length is less than 2 ^ 31.
pub format_sds_command_argv-encode :
    (argv : List Bytes) (argvlen : Option (List ℕ))
    → AllSized (sized_args argv argvlen)
    → length (command (sized_args argv argvlen)) < 2 ^ 31
    → format_sds_command_argv true argv argvlen
      ≡ ok (
          some
            (command (sized_args argv argvlen), pos (length (command (sized_args argv argvlen)))))
unfolding format_sds_command_argv
format_sds_command_argv-encode argv argvlen h f =
    let args = sized_args argv argvlen in
    let same =
      append_sds_args-rest (42 ∷ print_nat (length args) ++ crlf) args h
        (omega (arith, length-command-rest args, f))
      ∙ sym (command_lem args) in
    rw (same, length-command args h) (checked_lem (command args) f)

-- Where no size goes past the memory of its argument, and the length of the command and the
-- terminator's come to less than 2 ^ 31, the two format functions give the same result, with and
-- without memory for the command.
pub format_sds_command_argv_lem :
    (room : Bool) (argv : List Bytes) (argvlen : Option (List ℕ))
    → AllSized (sized_args argv argvlen)
    → length (command (sized_args argv argvlen)) + 1 < 2 ^ 31
    → format_sds_command_argv room argv argvlen ≡ format_command_argv room argv argvlen
unfolding format_command_argv format_sds_command_argv
format_sds_command_argv_lem true argv argvlen h f =
    format_sds_command_argv-encode argv argvlen h (omega (arith, f))
    ∙ sym (format_command_argv-encode argv argvlen h f)
format_sds_command_argv_lem false argv argvlen h f =
    let args = sized_args argv argvlen in
    let few : total_length (1 + count_digits (length args) + 2) args + 1 < 2 ^ 31 =
      omega (arith, length-command args h, f) in
    rw (allocate_lem false (total_length (1 + count_digits (length args) + 2) args) few) refl
