-- ===== src/Prelude/Decimal.antt =====
-- Decimal text: what `strconv.ParseInt(s, 10, 64)` reads and what the verbs `%d` and `%02d` print.
use Prim.Native.Nat.{ℕ, zero, suc, ◌+◌, ◌-◌, ◌*◌, ◌/◌, ◌%◌}
use mathlib.Core.Bool.{Bool, ◌&&◌}
use mathlib.Core.Option.{Option, none, some}
use mathlib.Core.List.{[], ◌∷◌}
use order_service_go_archite.Prelude.Tests.{ltb, leb, ◌==◌, if◌then◌else◌}
use order_service_go_archite.Prelude.Int.{ℤ, pos, negsuc, minus, two63, two64}
use order_service_go_archite.Prelude.Strings.{Text}

abbrev pub is_digit : ℕ → Bool
is_digit c = leb 48 c && leb c 57

-- The digits of a number that fits 64 bits, after those already read.
unfoldable pub parse_digits : ℕ → Text → Option ℕ
parse_digits acc [] = some acc
parse_digits acc (c ∷ s) =
    let n = acc * 10 + (c - 48) in
    let rest = parse_digits n s in if is_digit c && ltb n two64 then rest else none

unfoldable pub parse_uint : Text → Option ℕ
unfolding parse_digits
parse_uint [] = none
parse_uint (c ∷ s) = parse_digits 0 (c ∷ s)

-- The range check of `ParseInt`, after the sign.
abbrev pub pos_in_range : Option ℕ → Option ℤ
pos_in_range none = none
pos_in_range (some n) = if ltb n two63 then some (pos n) else none

abbrev pub neg_in_range : Option ℕ → Option ℤ
neg_in_range none = none
neg_in_range (some n) = if leb n two63 then some (minus n) else none

-- A sign or none, then at least one digit; `none` for a syntax or a range error.
unfoldable pub parse_int : Text → Option ℤ
unfolding parse_uint
parse_int [] = none
parse_int (c ∷ s) =
    if c == b'+'
    then pos_in_range (parse_uint s)
    else (if c == b'-' then neg_in_range (parse_uint s) else pos_in_range (parse_uint (c ∷ s)))

-- The digits of a number, written before `tail`. Fuel above the number is enough.
unfoldable pub digits_from : ℕ → ℕ → Text → Text
digits_from zero n tail = tail
digits_from (suc f) n tail =
    let rest = digits_from f (n / 10) ((48 + n % 10) ∷ tail) in
    if ltb n 10 then (48 + n) ∷ tail else rest

-- `%d`.
unfoldable pub show_nat : ℕ → Text
unfolding digits_from
show_nat n = digits_from (suc n) n []

unfoldable pub show_int : ℤ → Text
show_int (pos n) = show_nat n
show_int (negsuc n) = b'-' ∷ show_nat (suc n)

-- `%02d`: the sign counts for the width.
unfoldable pub show_int2 : ℤ → Text
show_int2 (pos n) = if ltb n 10 then b'0' ∷ show_nat n else show_nat n
show_int2 (negsuc n) = b'-' ∷ show_nat (suc n)
