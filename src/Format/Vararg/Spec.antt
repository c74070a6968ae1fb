-- ===== src/Format/Vararg/Spec.antt =====
-- The formatter ends, its assertion holds, and it writes an array of bulk strings.
use multiplexing_hiredis.Common.{
  ℕ, zero, suc, ◌+◌, ◌≤◌, ◌≡◌, ◌≢◌, refl, sym, ap, ◌∙◌, subst, Bool, Option, none, some, List, [],
  ◌∷◌, ◌++◌, arith, if◌then◌else◌, Bytes, codes, length, drop, length-append, length-drop,
  append_assoc, append-nil, ◌==◌, ==-refl, ◌<◌, ◌^◌, ltb, true,
}
use multiplexing_hiredis.Common.Decimal.{print_nat}
use multiplexing_hiredis.Common.Outcome.{Outcome, ok, abort, out_of_fuel, ◌>>◌, assert}
use multiplexing_hiredis.Format.{count_digits, bulklen, crlf}
use multiplexing_hiredis.Format.Digits.{count_digits-length}
use multiplexing_hiredis.Format.Vararg.{
  VarArg, FormatState, Round, continue, format_err, skip, is_digit, strchr, skip_precision,
  conversion, Conversion, valid, invalid, sized_conversion, push_arg, print_number, print_format,
  interpolate_string, interpolate_binary, format_round, format_loop, write_args, write_command,
  start_format, v_format_command,
}
use multiplexing_hiredis.Resp.{bulk, array, encode, encode_items, count, bulks}

length-skip : (test : ℕ → Bool) (s : Bytes) → length (skip test s) ≤ length s
unfolding skip
length-skip test [] = omega arith
length-skip test (c ∷ s) = ground (arith, length-skip test s)

length-skip_precision : (p : Bytes) → length (skip_precision p) ≤ length p
unfolding skip_precision
length-skip_precision p =
    let a = skip (strchr (codes "#0-+ ")) p in
    let wide = skip is_digit a in
    ground (
      arith,
      length-skip (strchr (codes "#0-+ ")) p,
      length-skip is_digit a,
      length-drop 1 wide,
      length-skip is_digit (drop 1 wide),
    )

length-conversion : (p q : Bytes) → conversion p ≡ valid q → length q ≤ length p
unfolding conversion sized_conversion
length-conversion p q h = ground (arith, length-drop 1 p, length-drop 2 p)

-- The sum of the lengths is that of the arguments so far, as bulk strings.
abbrev TotalOk : FormatState → Type 0
TotalOk st = st.totlen ≡ length (encode_items (bulks st.curargv))

encode_items-append :
    (ws : List Bytes) (w : Bytes)
    → encode_items (bulks (ws ++ (w ∷ []))) ≡ encode_items (bulks ws) ++ encode (bulk w)
unfolding encode_items
encode_items-append [] w = append-nil (encode (bulk w))
encode_items-append (v ∷ ws) w =
    ap (λ s. encode (bulk v) ++ s) (encode_items-append ws w)
    ∙ sym (append_assoc (encode (bulk v)) (encode_items (bulks ws)) (encode (bulk w)))

length-bulk : (s : Bytes) → length (encode (bulk s)) ≡ bulklen (length s)
unfolding encode bulklen
length-bulk s = omega (
  arith,
  length-append (print_nat (length s)) (crlf ++ (s ++ crlf)),
  length-append s crlf,
  count_digits-length (length s),
)

push_arg-TotalOk : (st : FormatState) → TotalOk st → TotalOk (push_arg st)
push_arg-TotalOk st h = omega (
  arith,
  ap length (encode_items-append st.curargv st.curarg),
  length-append (encode_items (bulks st.curargv)) (encode (bulk st.curarg)),
  length-bulk st.curarg,
)

-- The arguments at the end of the format.
unfoldable pub arguments : FormatState → List Bytes
arguments st = (if st.touched then push_arg st else st).curargv

module _ (print : Bytes → ℕ → Bytes) where
  -- What a round keeps: it passes a byte, and the sum stays right.
  abbrev Keeps : Bytes → FormatState → FormatState → Bytes → Type 0
  Keeps s st st' s' = (length s' ≤ length s) × (TotalOk st → TotalOk st')

  print_number-Keeps :
      (x : ℕ) (s p s' : Bytes) (st st' : FormatState)
      → length p ≤ length s
      → print_number print (x ∷ s) p st ≡ ok (continue s' st')
      → Keeps s st st' s'
  unfolding print_number
  print_number-Keeps x s [] s' st st' le h = (ground (arith, length-drop 1 s), λ t. ground arith)
  print_number-Keeps x s (y ∷ p) s' st st' le h =
      (ground (arith, length-drop 1 s), λ t. ground arith)

  print_format-Keeps :
      (x : ℕ) (s s' : Bytes) (st st' : FormatState)
      → print_format print (x ∷ s) st ≡ ok (continue s' st')
      → Keeps s st st' s'
  unfolding print_format
  print_format-Keeps x s s' st st' h = go (conversion (skip_precision s)) refl
    where
      go : (o : Conversion) → conversion (skip_precision s) ≡ o → Keeps s st st' s'
      go invalid e = ground arith
      go (valid p) e =
          print_number-Keeps x s p s' st st'
            (omega (arith, length-skip_precision s, length-conversion (skip_precision s) p e))
            (rw (e, print_format) at h)

  format_round-Keeps :
      (x : ℕ) (s s' : Bytes) (st st' : FormatState)
      → format_round print x s st ≡ ok (continue s' st')
      → Keeps s st st' s'
  unfolding format_round interpolate_string interpolate_binary
  format_round-Keeps x s s' st st' h = (
    ground (arith, length-drop 1 s, print_format-Keeps x s s' st st'),
    λ t. ground (arith, push_arg-TotalOk st, print_format-Keeps x s s' st st'),
  )

  print_number-ends : (c p : Bytes) (st : FormatState) → print_number print c p st ≢ out_of_fuel
  unfolding print_number
  print_number-ends c [] st h = ground arith
  print_number-ends c (x ∷ p) st h = ground arith

  print_format-ends : (c : Bytes) (st : FormatState) → print_format print c st ≢ out_of_fuel
  unfolding print_format
  print_format-ends c st h = go (conversion (skip_precision (drop 1 c))) refl
    where
      go : (o : Conversion) → conversion (skip_precision (drop 1 c)) ≡ o → ⊥
      go invalid e = ground arith
      go (valid p) e = print_number-ends c p st (rw (e, print_format) at h)

  format_round-ends :
      (x : ℕ) (s : Bytes) (st : FormatState) → format_round print x s st ≢ out_of_fuel
  unfolding format_round interpolate_string interpolate_binary
  format_round-ends x s st h = ground (arith, print_format-ends (x ∷ s) st)

  -- The loop ends, with the sum still right if the format is good.
  abbrev Loops : Outcome (Option FormatState) → Type 0
  Loops o = (o ≢ out_of_fuel) × ((st : FormatState) → o ≡ ok (some st) → TotalOk st)

  format_loop-Loops :
      (fuel : ℕ) (s : Bytes) (st : FormatState)
      → length s ≤ fuel
      → TotalOk st
      → Loops (format_loop print fuel s st)
  unfolding format_loop
  format_loop-Loops fuel [] st h t = (λ e. cc, λ st' e. subst TotalOk {x = st} {y = st'} (cc) t)
  format_loop-Loops zero (x ∷ s) st h t = absurd (omega arith)
  format_loop-Loops (suc fuel) (x ∷ s) st h t =
      round (λ s' st'. format_loop-Loops fuel s' st') (format_round print x s st) refl
    where
      round :
          ((s' : Bytes) (st' : FormatState)
            → length s' ≤ fuel
            → TotalOk st'
            → Loops (format_loop print fuel s' st'))
          → (o : Outcome Round) → format_round print x s st ≡ o
          → Loops (format_loop print (suc fuel) (x ∷ s) st)
      round more (ok (continue s' st')) e =
          let (le, keep) = format_round-Keeps x s s' st st' e in
          rw (e, format_loop) (more s' st' (omega arith) (keep t))
      round more (ok format_err) e = rw (e, format_loop) (λ e'. cc, λ st' e'. cc)
      round more abort e = rw (e, format_loop) (λ e'. cc, λ st' e'. cc)
      round more out_of_fuel e = absurd (format_round-ends x s st e)

  write_args-bulks :
      (cmd : Bytes) (ws : List Bytes) → write_args cmd ws ≡ cmd ++ encode_items (bulks ws)
  unfolding write_args encode_items
  write_args-bulks cmd [] = sym (append-nil cmd)
  write_args-bulks cmd (w ∷ ws) =
      write_args-bulks (((cmd ++ (36 ∷ print_nat (length w) ++ crlf)) ++ w) ++ crlf) ws
      ∙ simp append_assoc

  count-bulks : (ws : List Bytes) → count (bulks ws) ≡ length ws
  count-bulks [] = refl
  count-bulks (w ∷ ws) = ap suc (count-bulks ws)

module _ (print : Bytes → ℕ → Bytes) where
  start-TotalOk : (args : List VarArg) → TotalOk (start_format print args)
  unfolding encode_items
  start-TotalOk args = refl

  asserted :
      (cmd e : Bytes) (n : ℕ)
      → cmd ≡ e
      → n ≡ length e
      → length e + 1 < 2 ^ 31
      → ◌>>◌ {B = Bytes × ℕ}
          (assert (ltb (n + 1) (2 ^ 31)))
          (assert (length cmd == n) >> ok (cmd, n))
        ≡ ok (e, length e)
  asserted cmd e n p q f =
      let few : ltb (length e + 1) (2 ^ 31) ≡ true = ground arith in rw (p, q, few, ==-refl)

  command_text :
      (ws : List Bytes)
      → write_args (42 ∷ print_nat (length ws) ++ crlf) ws ≡ encode (array (bulks ws))
  unfolding encode
  command_text ws =
      write_args-bulks print (42 ∷ print_nat (length ws) ++ crlf) ws
      ∙ append_assoc (42 ∷ print_nat (length ws)) crlf (encode_items (bulks ws))
      ∙ ap (λ n. 42 ∷ print_nat n ++ (crlf ++ encode_items (bulks ws))) (sym (count-bulks print ws))

  command_length :
      (ws : List Bytes) (n : ℕ)
      → n ≡ length (encode_items (bulks ws))
      → n + (1 + count_digits (length ws) + 2) ≡ length (encode (array (bulks ws)))
  unfolding encode
  command_length ws n sum = omega (
    arith,
    ap (λ k. length (print_nat k)) (count-bulks print ws),
    length-append (print_nat (count (bulks ws))) (crlf ++ encode_items (bulks ws)),
    count_digits-length (length ws),
  )

  write_command-encode :
      (st : FormatState)
      → TotalOk st
      → length (encode (array (bulks (arguments st)))) + 1 < 2 ^ 31
      → write_command print st
        ≡ ok (encode (array (bulks (arguments st))), length (encode (array (bulks (arguments st)))))
  unfolding write_command arguments
  write_command-encode st t f =
      let last = if st.touched then push_arg st else st in
      asserted _ _ _ (command_text last.curargv)
        (command_length last.curargv last.totlen (ground (arith, push_arg-TotalOk st))) f

  write_command-ends : (st : FormatState) → write_command print st ≢ out_of_fuel
  unfolding write_command
  write_command-ends st = ground arith

  -- When the loop over the format ends with a good format, and the command and its terminator come
  -- to less than 2 ^ 31 bytes, the assertion on the length holds, and the command is the array of the
  -- arguments as bulk strings, returned with its length.
  pub v_format_command-encode :
      (format : Bytes) (args : List VarArg) (st : FormatState)
      → format_loop print (length format) format (start_format print args) ≡ ok (some st)
      → length (encode (array (bulks (arguments st)))) + 1 < 2 ^ 31
      → v_format_command print format args
        ≡ ok (
            some (
              encode (array (bulks (arguments st))),
              length (encode (array (bulks (arguments st)))),
            ))
  unfolding v_format_command
  v_format_command-encode format args st h f =
      let t =
        (format_loop-Loops print (length format) format (start_format print args) (omega arith)
            (start-TotalOk args)).1
          st h in
      rw (h, v_format_command, write_command-encode st t f)

  -- The formatter ends on every format and every list of arguments: its loop has fuel enough.
  pub v_format_command-ends :
      (format : Bytes) (args : List VarArg) → v_format_command print format args ≢ out_of_fuel
  unfolding v_format_command
  v_format_command-ends format args =
      let (ends, total) =
        format_loop-Loops print (length format) format (start_format print args) (omega arith)
          (start-TotalOk args) in
      go (format_loop print (length format) format (start_format print args)) refl ends total
    where
      go :
          (o : Outcome (Option FormatState))
          → format_loop print (length format) format (start_format print args) ≡ o
          → o ≢ out_of_fuel
          → ((st : FormatState) → o ≡ ok (some st) → TotalOk st)
          → v_format_command print format args ≢ out_of_fuel
      go (ok (some st)) e ends total =
          let w = write_command-ends st in rw (e, v_format_command) (ground (arith, w))
      go (ok none) e ends total = rw (e, v_format_command) (λ p. cc)
      go abort e ends total = rw (e, v_format_command) (λ p. cc)
      go out_of_fuel e ends total = absurd (ends refl)
