-- ===== src/Money/Digits.antt =====
-- internal/money/money.go: the digits that the amounts are printed with are read back.
use order_service_go_archite.Prelude.{
  ℕ, zero, suc, ◌+◌, ◌-◌, ◌*◌, ◌/◌, ◌%◌, ◌<◌, ◌≡◌, refl, ◌∙◌, ap, Bool, true, false, Bool-cases,
  inl, inr, ltb, leb, ◌==◌, some, [], ◌∷◌, Text, pos, minus, two63, two64, is_digit, parse_digits,
  parse_uint, parse_int, digits_from, show_nat, arith,
}

abbrev pub All : (ℕ → Bool) → Text → Type 0
All test [] = Unit
All test (c ∷ s) = (test c ≡ true) × All test s

pub digits_from-All :
    (f n : ℕ) (tail : Text) → n < f → All is_digit tail → All is_digit (digits_from f n tail)
unfolding digits_from
digits_from-All zero n tail h d = elim h [ ]
digits_from-All (suc f) n tail h d = elim (Bool-cases (ltb n 10)) [
  | inl small ↦ rw small (ground arith, d)
  | inr large ↦ rw large (digits_from-All f (n / 10) _ (ground arith) (ground arith, d))
]

pub digits_from-cons :
    (f n : ℕ) (tail : Text)
    → n < f
    → (c : ℕ) × (s : Text) × (digits_from f n tail ≡ c ∷ s) × (is_digit c ≡ true)
unfolding digits_from
digits_from-cons zero n tail h = elim h [ ]
digits_from-cons (suc f) n tail h = elim (Bool-cases (ltb n 10)) [
  | inl small ↦ (48 + n, tail, rw small, ground arith)
  | inr large ↦ rw large (digits_from-cons f (n / 10) _ (ground arith))
]

-- One digit is read.
parse_digit :
    (acc d : ℕ) (s : Text)
    → d < 10
    → acc * 10 + d < two64
    → parse_digits acc ((48 + d) ∷ s) ≡ parse_digits (acc * 10 + d) s
unfolding parse_digits
parse_digit acc d s small fits =
    let value : acc * 10 + (48 + d - 48) ≡ acc * 10 + d = omega arith in
    let digit : is_digit (48 + d) ≡ true = ground arith in
    let below : ltb (acc * 10 + d) two64 ≡ true = ground arith in rw (value, digit, below)

pub parse-digits_from :
    (f n : ℕ) (tail : Text)
    → n < f
    → n < two64
    → parse_digits 0 (digits_from f n tail) ≡ parse_digits n tail
unfolding digits_from
parse-digits_from zero n tail h fits = elim h [ ]
parse-digits_from (suc f) n tail h fits = elim (Bool-cases (ltb n 10)) [
  | inl small ↦ rw small (
      parse_digit 0 n tail (ground arith) (omega arith)
      ∙ ap (λ (k : ℕ). parse_digits k tail) (omega arith))
  | inr large ↦
      let whole : n / 10 * 10 + n % 10 ≡ n = omega arith in
      rw large (
        parse-digits_from f (n / 10) _ (ground arith) (omega arith)
        ∙ (parse_digit (n / 10) (n % 10) tail (omega arith) (omega arith) ∙ rw whole))
]

pub show_nat-All : (n : ℕ) → All is_digit (show_nat n)
unfolding show_nat
show_nat-All n = digits_from-All (suc n) n [] (omega arith) tt

pub show_nat-cons : (n : ℕ) → (c : ℕ) × (s : Text) × (show_nat n ≡ c ∷ s) × (is_digit c ≡ true)
unfolding show_nat
show_nat-cons n = digits_from-cons (suc n) n [] (omega arith)

pub parse_uint-show_nat : (n : ℕ) → n < two64 → parse_uint (show_nat n) ≡ some n
unfolding show_nat parse_uint
parse_uint-show_nat n fits =
    let (c, s, e, _) = digits_from-cons (suc n) n [] (omega arith) in
    rw (e, parse_uint) (rw e at (parse-digits_from (suc n) n [] (omega arith) fits))

-- `strconv.ParseInt` reads back what `%d` printed.
pub parse_int-show_nat : (n : ℕ) → n < two63 → parse_int (show_nat n) ≡ some (pos n)
unfolding parse_int
parse_int-show_nat n fits =
    let (c, s, e, digit) = show_nat-cons n in
    let unsigned : parse_uint (c ∷ s) ≡ some n = rw e at (parse_uint-show_nat n (omega arith)) in
    let plus : (c == b'+') ≡ false = ground arith in
    let dash : (c == b'-') ≡ false = ground arith in
    let below : ltb n two63 ≡ true = ground arith in
    rw (e, parse_int) (rw (plus, dash, unsigned, below) refl)

-- Under a leading minus that `ParseInt` reads itself.
pub parse_int-minus : (n : ℕ) → n < two63 → parse_int (b'-' ∷ show_nat n) ≡ some (minus n)
unfolding parse_int
parse_int-minus n fits =
    let below : leb n two63 ≡ true = ground arith in
    rw (parse_uint-show_nat n (omega arith)) (rw below refl)
