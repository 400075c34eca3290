-- ===== src/Money/RoundTrip.antt =====
-- internal/money/money.go: the text of an amount is read back as the amount.
use mathlib.Core.List.{append-nil}
use native.Mathlib.Nat.{add-zero}
use order_service_go_archite.Prelude.{
  ℕ, zero, suc, ◌+◌, ◌*◌, ◌/◌, ◌%◌, ◌<◌, ◌≡◌, refl, ◌∙◌, ap, Bool, true, false, ◌==◌, if◌then◌else◌,
  Bool-cases, inl, inr, some, [], ◌∷◌, ◌++◌, Text, ℤ, pos, negsuc, minus, neg_ℤ, ◌+ℤ◌, ◌*ℤ◌,
  pos_part, neg_part, wrap64, wrap64_id, IsInt64, two63, show_nat, show_int, show_int2, split,
  arith,
}
use order_service_go_archite.Money.{
  Money, from_cents, to_cents, parse_parts, parse_unsigned, parse_signed, parse_string, magnitude,
  decimal, marshal_json,
}
use order_service_go_archite.Money.Digits.{All, show_nat-All, show_nat-cons, parse_int-show_nat}
use order_service_go_archite.Money.Separate.{
  is_solid, All-append, digits_are_solid, digits_have_no_dot, trim_space_id, split-one, split-two,
}
use order_service_go_archite.Money.Fractions.{
  parse_frac-show_int2, show_int2-All, dot_is_solid, dash_is_solid,
}

-- A magnitude with its two decimals.
abbrev body : ℕ → Text
body a = show_nat (a / 100) ++ b'.' ∷ show_int2 (pos (a % 100))

body-solid : (a : ℕ) → All is_solid (body a)
body-solid a =
    All-append is_solid (show_nat (a / 100)) _ (digits_are_solid _ (show_nat-All (a / 100)))
      (dot_is_solid, digits_are_solid _ (show_int2-All (a % 100)))

abbrev signed : Bool → ℕ → ℤ
signed negative a = if negative then minus a else pos a

pos_times : (d k : ℕ) → pos d *ℤ pos k ≡ pos (d * k)
unfolding ◌*ℤ◌
pos_times d k = ground arith

pos_plus : (a b : ℕ) → pos a +ℤ pos b ≡ pos (a + b)
unfolding ◌+ℤ◌
pos_plus a b = ground arith

pub minus-IsInt64 : (a : ℕ) → a < two63 → IsInt64 (minus a)
minus-IsInt64 zero h = omega arith
minus-IsInt64 (suc a) h = omega arith

to_cents-pos :
    (negative : Bool) (d f : ℕ)
    → d * 100 + f < two63
    → to_cents negative (pos d) (pos f) ≡ from_cents (signed negative (d * 100 + f))
unfolding to_cents
to_cents-pos negative d f h =
    rw (pos_times d 100, wrap64_id (pos (d * 100)) (omega arith), pos_plus (d * 100) f)
      (rw (wrap64_id (pos (d * 100 + f)) (omega arith)) (by_sign negative))
  where
    by_sign :
        (n : Bool)
        → from_cents (if n then wrap64 (neg_ℤ (pos (d * 100 + f))) else pos (d * 100 + f))
          ≡ from_cents (signed n (d * 100 + f))
    by_sign false = refl
    by_sign true = ap from_cents (wrap64_id (minus (d * 100 + f)) (minus-IsInt64 _ h))

parse_unsigned-nonempty :
    (negative : Bool) (c : ℕ) (s : Text)
    → parse_unsigned negative (c ∷ s) ≡ parse_parts negative (split b'.' (c ∷ s))
unfolding parse_unsigned
parse_unsigned-nonempty negative c s = refl

-- The text begins with a digit.
parse_unsigned-digits :
    (negative : Bool) (n : ℕ) (t : Text)
    → parse_unsigned negative (show_nat n ++ t)
      ≡ parse_parts negative (split b'.' (show_nat n ++ t))
parse_unsigned-digits negative n t =
    let (c, s, e, _) = show_nat-cons n in rw e (parse_unsigned-nonempty negative c (s ++ t))

parse_unsigned-body :
    (negative : Bool) (a : ℕ)
    → a < two63
    → parse_unsigned negative (body a) ≡ some (from_cents (signed negative a))
unfolding parse_parts
parse_unsigned-body negative a h =
    let whole : a / 100 * 100 + a % 100 ≡ a = omega arith in
    parse_unsigned-digits negative (a / 100) _
    ∙ rw
        (
          split-two (show_nat (a / 100)) (show_int2 (pos (a % 100)))
              (digits_have_no_dot _ (show_nat-All (a / 100)))
              (digits_have_no_dot _ (show_int2-All (a % 100))),
          parse_int-show_nat (a / 100) (omega arith),
          parse_frac-show_int2 (a % 100) (omega arith),
        )
        (rw (to_cents-pos negative (a / 100) (a % 100) (omega arith)) (rw whole refl))

-- An amount that has an opposite: any `int64` but the least.
abbrev pub IsAmount : Money → Type 0
IsAmount m = (pos_part m.cents < two63) × (neg_part m.cents < two63)

parse_signed-digits :
    (n : ℕ) (t : Text) → parse_signed (show_nat n ++ t) ≡ parse_unsigned false (show_nat n ++ t)
unfolding parse_signed
parse_signed-digits n t =
    let (c, s, e, digit) = show_nat-cons n in
    let dash : (c == b'-') ≡ false = ground arith in rw (e, parse_signed) (rw dash refl)

-- The two ways in which a text without space is read: with a leading minus, or from a digit.
pub parse_string-minus :
    (t : Text) → All is_solid t → parse_string (b'-' ∷ t) ≡ parse_unsigned true t
unfolding parse_string parse_signed
parse_string-minus t h = rw (trim_space_id (b'-' ∷ t) (dash_is_solid, h))

pub parse_string-digits :
    (n : ℕ) (t : Text)
    → All is_solid t
    → parse_string (show_nat n ++ t) ≡ parse_unsigned false (show_nat n ++ t)
unfolding parse_string
parse_string-digits n t h =
    rw
      (trim_space_id (show_nat n ++ t)
        (All-append is_solid (show_nat n) t (digits_are_solid _ (show_nat-All n)) h))
      (parse_signed-digits n t)

pub tail-solid : (a : ℕ) → All is_solid (b'.' ∷ show_int2 (pos (a % 100)))
tail-solid a = (dot_is_solid, digits_are_solid _ (show_int2-All (a % 100)))

-- Reading the two-decimal text of an amount gives the amount.
pub parse_string-decimal : (m : Money) → IsAmount m → parse_string (decimal m) ≡ some m
unfolding decimal magnitude show_int
parse_string-decimal m h = by_sign m.cents h
  where
    by_sign :
        (c : ℤ)
        → IsAmount (from_cents c)
        → parse_string (decimal (from_cents c)) ≡ some (from_cents c)
    by_sign (pos n) (h, _) =
        parse_string-digits (n / 100) _ (tail-solid n) ∙ parse_unsigned-body false n h
    by_sign (negsuc n) (_, h) =
        let wide : IsInt64 (pos (suc n)) = omega arith in
        rw (wrap64_id (pos (suc n)) wide) (
          parse_string-minus (body (suc n)) (body-solid (suc n))
          ∙ parse_unsigned-body true (suc n) h)

parse_unsigned-whole :
    (negative : Bool) (d : ℕ)
    → d * 100 < two63
    → parse_unsigned negative (show_nat d ++ []) ≡ some (from_cents (signed negative (d * 100)))
unfolding parse_parts
parse_unsigned-whole negative d h =
    parse_unsigned-digits negative d []
    ∙ rw (append-nil (show_nat d)) (
        rw
          (
            split-one (show_nat d) (digits_have_no_dot _ (show_nat-All d)),
            parse_int-show_nat d (omega arith),
          )
          (rw (to_cents-pos negative d 0 (omega arith)) (rw (add-zero (d * 100)) refl)))

-- The text that `MarshalJSON` writes for a magnitude.
abbrev short : ℕ → Text
short a = if a % 100 == 0 then show_nat (a / 100) else body a

short-solid : (a : ℕ) → All is_solid (short a)
short-solid a = elim (Bool-cases (a % 100 == 0)) [
  | inl whole ↦ rw whole (digits_are_solid _ (show_nat-All (a / 100)))
  | inr broken ↦ rw broken (body-solid a)
]

parse_unsigned-short :
    (negative : Bool) (a : ℕ)
    → a < two63
    → parse_unsigned negative (short a) ≡ some (from_cents (signed negative a))
parse_unsigned-short negative a h = elim (Bool-cases (a % 100 == 0)) [
  | inr broken ↦ rw broken (parse_unsigned-body negative a h)
  | inl whole ↦
      let exact : a / 100 * 100 ≡ a = ground arith in
      rw whole (
        rw (append-nil (show_nat (a / 100))) at
          (parse_unsigned-whole negative (a / 100) (omega arith))
        ∙ rw exact refl)
]

parse_string-short : (a : ℕ) → a < two63 → parse_string (short a) ≡ some (from_cents (pos a))
parse_string-short a h = elim (Bool-cases (a % 100 == 0)) [
  | inl whole ↦ rw whole (
      rw append-nil at (parse_string-digits (a / 100) [] tt)
      ∙ (rw whole at (parse_unsigned-short false a h)))
  | inr broken ↦ rw broken (
      parse_string-digits (a / 100) _ (tail-solid a)
      ∙ (rw broken at (parse_unsigned-short false a h)))
]

dashed : (b : Bool) (s t : Text) → (if b then b'-' ∷ s else b'-' ∷ t) ≡ b'-' ∷ (if b then s else t)
dashed true s t = refl
dashed false s t = refl

-- Reading the JSON number of an amount gives the amount.
pub parse_string-marshal_json : (m : Money) → IsAmount m → parse_string (marshal_json m) ≡ some m
unfolding marshal_json magnitude show_int
parse_string-marshal_json m h = by_sign m.cents h
  where
    by_sign :
        (c : ℤ)
        → IsAmount (from_cents c)
        → parse_string (marshal_json (from_cents c)) ≡ some (from_cents c)
    by_sign (pos n) (h, _) = parse_string-short n h
    by_sign (negsuc n) (_, h) =
        let wide : IsInt64 (pos (suc n)) = omega arith in
        rw (wrap64_id (pos (suc n)) wide) (
          rw (dashed (suc n % 100 == 0) _ _) (
            parse_string-minus (short (suc n)) (short-solid (suc n))
            ∙ parse_unsigned-short true (suc n) h))
