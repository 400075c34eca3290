-- ===== src/Tests/Amounts.antt =====
-- internal/money: amounts as text.
use order_service_go_archite.Prelude.{
  wrap64, ◌≡◌, refl, Option, none, [], ◌==◌, if◌then◌else◌, Text, inr, show_int, digits_from, some,
  ◌∷◌, ◌++◌, pos, negsuc, show_nat, show_int2, arith,
}
use order_service_go_archite.Money.{
  Money, from_cents, parse_string, decimal, marshal_json, magnitude,
}
use order_service_go_archite.Money.Json.{JsonReader, unmarshal_json, unmarshal_both}
use order_service_go_archite.Money.Signs.{parse_string-double_minus}

abbrev refund : Money
refund = from_cents (negsuc 1204)

abbrev inner : Text → Text
inner [] = []
inner (c ∷ []) = []
inner (c ∷ d ∷ s) = c ∷ inner (d ∷ s)

abbrev unquoted : Text → Option Text
unquoted [] = none
unquoted (c ∷ s) = if c == b'"' then some (inner s) else none

abbrev bare : Text → Option Text
bare [] = none
bare (c ∷ s) = if c == b'"' then none else some (c ∷ s)

abbrev reader : JsonReader
reader = record { read_number = bare; read_string = unquoted }

abbrev quoted : Text → Text
quoted t = b'"' ∷ (t ++ b'"' ∷ [])

prints : Unit {0}
unfolding wrap64 decimal marshal_json magnitude show_int show_int2 show_nat digits_from
prints = tt

as_number : bare (marshal_json refund) ≡ some (marshal_json refund)
unfolding prints
as_number = refl

as_string :
    (bare (quoted (decimal refund)) ≡ none)
    × (unquoted (quoted (decimal refund)) ≡ some (decimal refund))
unfolding prints
as_string = (refl, refl)

unmarshal_both_example :
    (unmarshal_json reader (marshal_json refund) ≡ some refund)
    × (unmarshal_json reader (quoted (decimal refund)) ≡ some refund)
unmarshal_both_example =
    unmarshal_both reader quoted refund as_number (inr as_string) (omega arith, omega arith)

parse_string-double_minus_example :
    parse_string (b'-' ∷ b'-' ∷ (show_nat 12 ++ b'.' ∷ show_int2 (pos 5)))
    ≡ some (from_cents (pos 1195))
parse_string-double_minus_example =
    parse_string-double_minus 12 5 (omega arith) (omega arith) (omega arith)
