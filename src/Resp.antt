-- ===== src/Resp.antt =====
-- The protocol as a specification: reply values and how they are written on the wire. This is the
-- format that read.c reads and that the format functions of hiredis.c write.
use multiplexing_hiredis.Common.{ℕ, suc, List, [], ◌∷◌, ◌++◌, Bytes, length}
use multiplexing_hiredis.Common.Int.{ℤ}
use multiplexing_hiredis.Common.Decimal.{print_nat, print_int}

mutual
  pub data Value : Type 0 where
    status : Bytes → Value
    error : Bytes → Value
    integer : ℤ → Value
    bulk : Bytes → Value
    nil_bulk : Value
    nil_array : Value
    array : Items → Value

  pub data Items : Type 0 where
    no_items : Items
    item : Value → Items → Items

abbrev pub crlf : Bytes
crlf = 13 ∷ 10 ∷ []

abbrev pub count : Items → ℕ
count no_items = 0
count (item v vs) = suc (count vs)

unfoldable mutual
  pub encode : Value → Bytes
  encode (status s) = 43 ∷ s ++ crlf
  encode (error s) = 45 ∷ s ++ crlf
  encode (integer n) = 58 ∷ print_int n ++ crlf
  encode (bulk s) = 36 ∷ print_nat (length s) ++ (crlf ++ (s ++ crlf))
  encode nil_bulk = 36 ∷ 45 ∷ 49 ∷ crlf
  encode nil_array = 42 ∷ 45 ∷ 49 ∷ crlf
  encode (array vs) = 42 ∷ print_nat (count vs) ++ (crlf ++ encode_items vs)

  pub encode_items : Items → Bytes
  encode_items no_items = []
  encode_items (item v vs) = encode v ++ encode_items vs

-- A command is an array of bulk strings.
abbrev pub bulks : List Bytes → Items
bulks [] = no_items
bulks (w ∷ ws) = item (bulk w) (bulks ws)
