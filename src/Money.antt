-- ===== src/Money.antt =====
-- internal/money/money.go: amounts as a 64-bit number of cents, read from and printed as decimal text.
pub mod Digits
pub mod Separate
pub mod Fractions
pub mod RoundTrip
pub mod Signs
pub mod Json
use order_service_go_archite.Prelude.{
  ℕ, ◌+◌, ◌==◌, ltb, leb, if◌then◌else◌, Bool, true, false, Option, none, some, List, [], ◌∷◌, ◌++◌,
  Text, text, trim_space, split, byte_len, parse_int, show_int, show_int2, ℤ, pos, ◌+ℤ◌, ◌*ℤ◌,
  wrap64, neg_ℤ, quot_ℤ, rem_ℤ, is_neg, is_pos, eq_ℤ,
}

pub record Money : Type 0 where
  pub cents : ℤ

abbrev pub scale : ℕ
scale = 100

abbrev pub from_cents : ℤ → Money
from_cents c = record { cents = c }

unfoldable pub is_positive : Money → Bool
is_positive m = is_pos m.cents

unfoldable pub add : Money → Money → Money
add m other = from_cents (wrap64 (m.cents +ℤ other.cents))

unfoldable pub multiply : Money → ℤ → Money
multiply m quantity = from_cents (wrap64 (m.cents *ℤ quantity))

-- The fraction's digits: one digit is read as tens, more than two bytes are refused.
unfoldable pub parse_frac : Text → Option ℤ
parse_frac [] = none
parse_frac (c ∷ s) =
    let f = c ∷ s in
    if ltb 2 (byte_len f) then none else parse_int (if byte_len f == 1 then f ++ b'0' ∷ [] else f)

-- `dollars*scale + frac`, negated for a leading minus, each step in 64 bits.
unfoldable pub to_cents : Bool → ℤ → ℤ → Money
to_cents negative dollars frac =
    let c = wrap64 (wrap64 (dollars *ℤ pos scale) +ℤ frac) in
    from_cents (if negative then wrap64 (neg_ℤ c) else c)

infixl 5 ◌>>=◌
abbrev ◌>>=◌ : {A B : Type 0} → Option A → (A → Option B) → Option B
none >>= k = none
some a >>= k = k a

unfoldable pub parse_parts : Bool → List Text → Option Money
parse_parts negative [] = none
parse_parts negative (whole ∷ []) = do
  dollars ← parse_int whole
  some (to_cents negative dollars (pos 0))
parse_parts negative (whole ∷ frac_part ∷ []) = do
  dollars ← parse_int whole
  frac ← parse_frac frac_part
  some (to_cents negative dollars frac)
parse_parts negative (_ ∷ _ ∷ _ ∷ _) = none

-- What follows the sign.
unfoldable pub parse_unsigned : Bool → Text → Option Money
parse_unsigned negative [] = none
parse_unsigned negative (c ∷ s) = parse_parts negative (split b'.' (c ∷ s))

unfoldable pub parse_signed : Text → Option Money
parse_signed [] = none
parse_signed (c ∷ s) = if c == b'-' then parse_unsigned true s else parse_unsigned false (c ∷ s)

unfoldable pub parse_string : Text → Option Money
parse_string raw = parse_signed (trim_space raw)

-- The sign and the magnitude that `Decimal` and `MarshalJSON` print; the minus is taken in 64 bits.
abbrev pub sign_text : ℤ → Text
sign_text c = if is_neg c then b'-' ∷ [] else []

unfoldable pub magnitude : ℤ → ℤ
magnitude c = if is_neg c then wrap64 (neg_ℤ c) else c

unfoldable pub decimal : Money → Text
decimal m =
    let c = magnitude m.cents in
    sign_text m.cents ++ (show_int (quot_ℤ c scale) ++ b'.' ∷ show_int2 (rem_ℤ c scale))

unfoldable pub marshal_json : Money → Text
marshal_json m =
    let c = magnitude m.cents in
    let dollars = show_int (quot_ℤ c scale) in
    if eq_ℤ (rem_ℤ c scale) (pos 0)
    then sign_text m.cents ++ dollars
    else sign_text m.cents ++ (dollars ++ b'.' ∷ show_int2 (rem_ℤ c scale))
