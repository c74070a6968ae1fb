-- ===== src/Async/Arguments.antt =====
-- nextArgument on commands that the format functions have written.
use multiplexing_hiredis.Common.{
  ℕ, zero, suc, ◌+◌, ◌-◌, ◌*◌, ◌/◌, ◌%◌, ◌^◌, ◌<◌, ◌≤◌, ◌≡◌, refl, sym, ap, ◌∙◌, true, false, ◌&&◌,
  none, some, List, [], ◌∷◌, ◌++◌, Bytes, length, take, drop, arith, leb, ◌==◌, if◌then◌else◌,
  append_assoc, length-append, drop-length-append, take-length-append,
}
use multiplexing_hiredis.Common.Int.{pos, to_int32, to_int32_small}
use multiplexing_hiredis.Common.Outcome.{Outcome, ok, abort, out_of_fuel, ◌>>=◌}
use multiplexing_hiredis.Common.Decimal.{digits_from, print_nat}
use multiplexing_hiredis.Common.Digits.{value, AllDigits, print_nat-AllDigits, value-print_nat}
use multiplexing_hiredis.Format.Vararg.{peek, skip}
use multiplexing_hiredis.Async.Commands.{
  is_space, clamp_positive, clamp_negative, digits_at, strtol, find_char, argument_at,
  argument_from, next_argument,
}
use multiplexing_hiredis.Resp.{array, bulk, bulks, crlf, count, encode, encode_items}

-- Bytes that strchr goes over when it searches for `c`.
abbrev Passed : ℕ → Bytes → Type 0
Passed c [] = Unit
Passed c (d ∷ s) = ((d == c) ≡ false) × ((d == 0) ≡ false) × Passed c s

find_char-append : (c : ℕ) (s t : Bytes) → Passed c s → find_char c (s ++ (c ∷ t)) ≡ some (c ∷ t)
unfolding find_char
find_char-append c [] t h = ground arith
find_char-append c (d ∷ s) t (n, z, h) = rw (n, z) (find_char-append c s t h)

digits-Passed : (c : ℕ) (s : Bytes) → c < 48 → AllDigits s → Passed c s
digits-Passed c [] h d = tt
digits-Passed c (x ∷ s) h (a, b, d) = (ground arith, ground arith, digits-Passed c s h d)

digits_at-append : (v : ℕ) (s t : Bytes) → AllDigits s → digits_at v (s ++ (13 ∷ t)) ≡ value v s
unfolding digits_at
digits_at-append v [] t h = refl
digits_at-append v (c ∷ s) t (a, b, h) =
    let digit : (leb 48 c && leb c 57) ≡ true = ground arith in
    rw (digits_at, digit) (digits_at-append (v * 10 + (c - 48)) s t h)

skip-digit : (c : ℕ) (s : Bytes) → 48 ≤ c → skip is_space (c ∷ s) ≡ c ∷ s
unfolding skip
skip-digit c s h = ground arith

clamp_small : (v : ℕ) → v < 2 ^ 63 → clamp_positive v ≡ pos v
clamp_small v h = ground arith

strtol-digits :
    (s t : Bytes)
    → AllDigits s
    → 0 < length s
    → value 0 s < 2 ^ 63
    → strtol (s ++ (13 ∷ t)) ≡ pos (value 0 s)
unfolding strtol
strtol-digits [] t d more small = absurd (omega arith)
strtol-digits (c ∷ s) t (a, b, h) more small =
    let minus : (c == 45) ≡ false = ground arith in
    let plus : (c == 43) ≡ false = ground arith in
    ap
      (λ x.
        if peek x == 45
        then clamp_negative (digits_at 0 (drop 1 x))
        else if peek x == 43
        then clamp_positive (digits_at 0 (drop 1 x))
        else clamp_positive (digits_at 0 x))
      (skip-digit c (s ++ (13 ∷ t)) a)
    ∙ rw (minus, plus)
        (ap clamp_positive (digits_at-append 0 (c ∷ s) t (a, b, h))
          ∙ clamp_small (value 0 (c ∷ s)) small)

length-digits_from : (f n : ℕ) → 0 < length (digits_from f n)
unfolding digits_from
length-digits_from zero n = omega arith
length-digits_from (suc f) n =
    ground (arith, length-append (digits_from f (n / 10)) ((48 + n % 10) ∷ []))

length-print_nat : (n : ℕ) → 0 < length (print_nat n)
unfolding print_nat
length-print_nat n = length-digits_from n n

-- The number in front of an argument.
strtol-print_nat : (n : ℕ) (t : Bytes) → n < 2 ^ 63 → strtol (print_nat n ++ (13 ∷ t)) ≡ pos n
strtol-print_nat n t h =
    let v = value-print_nat n in
    strtol-digits (print_nat n) t (print_nat-AllDigits n) (length-print_nat n) (omega arith)
    ∙ ap pos v

-- An argument behind its length.
argument_at-bulk :
    (w rest : Bytes)
    → argument_at (pos (length w)) (13 ∷ 10 ∷ ((w ++ crlf) ++ rest))
      ≡ ok (some (record { str = (w ++ crlf) ++ rest; len = length w; next = rest }))
unfolding argument_at
argument_at-bulk w rest =
    let total = length-append (w ++ crlf) rest in
    let same = length-append w crlf in
    let fits : leb (length w + 4) (length (13 ∷ 10 ∷ ((w ++ crlf) ++ rest))) ≡ true =
      ground arith in
    let x = 13 ∷ 10 ∷ ((w ++ crlf) ++ rest) in
    let behind : length w + 4 ≡ length (13 ∷ 10 ∷ (w ++ crlf)) = omega arith in
    rw fits (
      ap (λ b. ok (some (record { str = (w ++ crlf) ++ rest; len = length w; next = b })))
        (ap (λ n. drop n x) behind ∙ drop-length-append (13 ∷ 10 ∷ (w ++ crlf)) rest))

argument_from-at :
    (p q : Bytes)
    → find_char 13 p ≡ some q
    → argument_from p ≡ argument_at (to_int32 (strtol (drop 1 p))) q
unfolding argument_from
argument_from-at p q e = rw (argument_from, e) refl

argument_from-bulk :
    (w rest : Bytes)
    → length w < 2 ^ 31
    → argument_from (encode (bulk w) ++ rest)
      ≡ ok (some (record { str = (w ++ crlf) ++ rest; len = length w; next = rest }))
unfolding encode
argument_from-bulk w rest h =
    let line = print_nat (length w) in
    let more = (w ++ crlf) ++ rest in
    let digits = print_nat-AllDigits (length w) in
    ap argument_from (append_assoc (36 ∷ line) (crlf ++ (w ++ crlf)) rest)
    ∙ argument_from-at (36 ∷ line ++ (13 ∷ 10 ∷ more)) (13 ∷ 10 ∷ more) (
        find_char-append 13 (36 ∷ line) (10 ∷ more)
          (refl, refl, digits-Passed 13 line (omega arith) digits))
    ∙ ap (λ z. argument_at (to_int32 z) (13 ∷ 10 ∷ more))
        (strtol-print_nat (length w) (10 ∷ more) (omega arith))
    ∙ ap (λ z. argument_at z (13 ∷ 10 ∷ more)) (to_int32_small (length w) h)
    ∙ argument_at-bulk w rest

-- nextArgument, at the `$` of an argument that is written as a bulk string.
pub next_argument-bulk :
    (w rest : Bytes)
    → length w < 2 ^ 31
    → next_argument (encode (bulk w) ++ rest)
      ≡ ok (some (record { str = (w ++ crlf) ++ rest; len = length w; next = rest }))
unfolding next_argument encode
next_argument-bulk w rest h = argument_from-bulk w rest h

next_argument-at :
    (s q : Bytes)
    → (peek s == 36) ≡ false
    → find_char 36 s ≡ some q
    → next_argument s ≡ argument_from q
unfolding next_argument
next_argument-at s q n e = rw (next_argument, n, e) refl

crlf-Passed : (s : Bytes) → Passed 36 s → Passed 36 (s ++ crlf)
crlf-Passed [] h = (refl, refl, (refl, refl, tt))
crlf-Passed (c ∷ s) (a, b, h) = (a, b, crlf-Passed s h)

-- nextArgument, at the beginning of a command with arguments.
pub next_argument-command :
    (w : Bytes) (ws : List Bytes)
    → length w < 2 ^ 31
    → next_argument (encode (array (bulks (w ∷ ws))))
      ≡ ok (
          some (record {
            str = (w ++ crlf) ++ encode_items (bulks ws);
            len = length w;
            next = encode_items (bulks ws);
          }))
unfolding encode encode_items
next_argument-command w ws h =
    let line = print_nat (count (bulks (w ∷ ws))) in
    let items = encode (bulk w) ++ encode_items (bulks ws) in
    let head = 42 ∷ line ++ crlf in
    ap next_argument (sym (append_assoc (42 ∷ line) crlf items))
    ∙ next_argument-at (head ++ items) items refl (
        find_char-append 36 head (drop 1 items) (
          refl,
          refl,
          crlf-Passed line
              (digits-Passed 36 line (omega arith) (print_nat-AllDigits (count (bulks (w ∷ ws))))),
        ))
    ∙ argument_from-bulk w (encode_items (bulks ws)) h

-- The arguments that calls of nextArgument find, each on from the one before.
unfoldable pub walk : ℕ → Bytes → Outcome (List Bytes)
walk zero p = out_of_fuel
walk (suc fuel) p = elim (next_argument p) [
  | ok (some a) ↦ walk fuel a.next >>= λ ws. ok (take a.len a.str ∷ ws)
  | ok none ↦ ok []
  | abort ↦ abort
  | out_of_fuel ↦ out_of_fuel
]

-- Every argument is short enough for an int.
unfoldable pub AllShort : List Bytes → Type 0
AllShort [] = Unit
AllShort (w ∷ ws) = (length w < 2 ^ 31) × AllShort ws

walk-next :
    (fuel : ℕ) (p w : Bytes) (ws us : List Bytes)
    → next_argument p
      ≡ ok (
          some (record {
            str = (w ++ crlf) ++ encode_items (bulks ws);
            len = length w;
            next = encode_items (bulks ws);
          }))
    → walk fuel (encode_items (bulks ws)) ≡ ok us
    → walk (suc fuel) p ≡ ok (w ∷ us)
unfolding walk
walk-next fuel p w ws us e more =
    let text = append_assoc w crlf (encode_items (bulks ws)) in
    rw (walk, e, more)
      (ap (λ s. ok (s ∷ us))
        (ap (take (length w)) text ∙ take-length-append w (crlf ++ encode_items (bulks ws))))

walk-items :
    (ws : List Bytes) → AllShort ws → walk (suc (length ws)) (encode_items (bulks ws)) ≡ ok ws
unfolding AllShort encode_items walk next_argument find_char
walk-items [] h = refl
walk-items (w ∷ ws) (short, h) =
    walk-next (suc (length ws)) (encode (bulk w) ++ encode_items (bulks ws)) w ws ws
      (next_argument-bulk w (encode_items (bulks ws)) short) (walk-items ws h)

-- From the beginning of a command that was written for some arguments, each shorter than 2^31 bytes,
-- calls of nextArgument give these arguments back, in their order and whole, and then no other.
pub walk-encode :
    (ws : List Bytes) → AllShort ws → walk (suc (length ws)) (encode (array (bulks ws))) ≡ ok ws
unfolding AllShort encode walk next_argument find_char print_nat digits_from
walk-encode [] h = refl
walk-encode (w ∷ ws) (short, h) =
    walk-next (suc (length ws)) (encode (array (bulks (w ∷ ws)))) w ws ws
      (next_argument-command w ws short) (walk-items ws h)
