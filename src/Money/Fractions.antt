-- ===== src/Money/Fractions.antt =====
-- internal/money/money.go: the two decimals of an amount, printed and read back.
use order_service_go_archite.Prelude.{
  ℕ, zero, suc, ◌<◌, ◌≡◌, refl, Bool, true, false, ◌&&◌, ltb, Bool-cases, inl, inr, Option, none,
  some, ℤ, pos, negsuc, eq_ℤ, is_digit, parse_digits, parse_uint, parse_int, byte_len, digits_from,
  show_nat, show_int2, is_space, arith,
}
use order_service_go_archite.Money.{parse_frac}
use order_service_go_archite.Money.Digits.{All, show_nat-All}
use order_service_go_archite.Money.Separate.{is_solid}

-- Every pair of digits is read back: a table of the hundred values.
abbrev is_read : Option ℤ → ℤ → Bool
is_read none c = false
is_read (some a) c = eq_ℤ a c

is_read-eq : (r : Option ℤ) (n : ℕ) → is_read r (pos n) ≡ true → r ≡ some (pos n)
is_read-eq none n h = cc
is_read-eq (some (pos a)) n h = ground arith
is_read-eq (some (negsuc a)) n h = cc

reads_back : ℕ → Bool
reads_back f = is_read (parse_frac (show_int2 (pos f))) (pos f)

all_below : ℕ → Bool
all_below zero = true
all_below (suc n) = reads_back n && all_below n

all_below_sound : (n f : ℕ) → all_below n ≡ true → f < n → reads_back f ≡ true
unfolding all_below
all_below_sound zero f h lt = absurd (omega arith)
all_below_sound (suc n) f h lt = ground (arith, all_below_sound n f)

table : all_below 100 ≡ true
unfolding all_below reads_back parse_frac show_int2 show_nat digits_from byte_len parse_int
    parse_uint parse_digits
table = refl

pub parse_frac-show_int2 : (f : ℕ) → f < 100 → parse_frac (show_int2 (pos f)) ≡ some (pos f)
unfolding reads_back
parse_frac-show_int2 f h = is_read-eq _ f (all_below_sound 100 f table h)

pub show_int2-All : (f : ℕ) → All is_digit (show_int2 (pos f))
unfolding show_int2
show_int2-All f = elim (Bool-cases (ltb f 10)) [
  | inl small ↦ rw small (refl, show_nat-All f)
  | inr large ↦ rw large (show_nat-All f)
]

pub dot_is_solid : is_solid b'.' ≡ true
unfolding is_space
dot_is_solid = refl

pub dash_is_solid : is_solid b'-' ≡ true
unfolding is_space
dash_is_solid = refl
