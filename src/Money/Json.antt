-- ===== src/Money/Json.antt =====
-- internal/money/money.go: `UnmarshalJSON`. The JSON library is an argument.
use order_service_go_archite.Prelude.{◌≡◌, Option, none, some, Text, ◌⊎◌, inl, inr}
use order_service_go_archite.Money.{Money, parse_string, decimal, marshal_json}
use order_service_go_archite.Money.RoundTrip.{
  IsAmount, parse_string-decimal, parse_string-marshal_json,
}

-- `json.Unmarshal` into a `json.Number`, which is the text of the number, and into a `string`.
pub record JsonReader : Type 0 where
  pub read_number : Text → Option Text
  pub read_string : Text → Option Text

-- `ParseNumber`.
abbrev pub parse_number : Text → Option Money
parse_number n = parse_string n

-- The second attempt, for a quoted text.
unfoldable pub from_string : Option Text → Option Money
from_string none = none
from_string (some s) = parse_string s

unfoldable pub from_number : JsonReader → Text → Option Text → Option Money
unfolding from_string
from_number json b none = from_string (json.read_string b)
from_number json b (some n) = parse_number n

unfoldable pub unmarshal_json : JsonReader → Text → Option Money
unfolding from_number
unmarshal_json json b = from_number json b (json.read_number b)

-- For an amount below 2^63 cents: given that the JSON library reads the printed number as its own text,
-- and the quoted decimal text either as a number of that text or only as that string, decoding the JSON
-- of an amount and decoding its quoted decimal text both give the amount.
pub unmarshal_both :
    (json : JsonReader) (quote : Text → Text) (m : Money)
    → json.read_number (marshal_json m) ≡ some (marshal_json m)
    → (json.read_number (quote (decimal m)) ≡ some (decimal m))
      ⊎ ((json.read_number (quote (decimal m)) ≡ none)
          × (json.read_string (quote (decimal m)) ≡ some (decimal m)))
    → IsAmount m
    → (unmarshal_json json (marshal_json m) ≡ some m)
      × (unmarshal_json json (quote (decimal m)) ≡ some m)
unfolding unmarshal_json from_number from_string
unmarshal_both json quote m number (inl valid) amount =
    (rw number (parse_string-marshal_json m amount), rw valid (parse_string-decimal m amount))
unmarshal_both json quote m number (inr (none_read, read)) amount = (
  rw number (parse_string-marshal_json m amount),
  rw (none_read, read) (parse_string-decimal m amount),
)
