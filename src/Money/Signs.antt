-- ===== src/Money/Signs.antt =====
-- internal/money/money.go: a second sign is accepted, and is applied to the whole part alone.
use order_service_go_archite.Prelude.{
  ℕ, zero, suc, ◌-◌, ◌*◌, ◌<◌, ◌≤◌, ◌≡◌, refl, ◌∙◌, true, some, ◌∷◌, ◌++◌, pos, minus, neg_ℤ, ◌+ℤ◌,
  ◌*ℤ◌, wrap64_id, two63, show_nat, show_int2, arith,
}
use order_service_go_archite.Money.{from_cents, to_cents, parse_parts, parse_unsigned, parse_string}
use order_service_go_archite.Money.Digits.{show_nat-All, parse_int-minus}
use order_service_go_archite.Money.Separate.{
  is_solid, All-append, digits_are_solid, digits_have_no_dot, split-two,
}
use order_service_go_archite.Money.RoundTrip.{minus-IsInt64, parse_string-minus}
use order_service_go_archite.Money.Fractions.{
  parse_frac-show_int2, show_int2-All, dot_is_solid, dash_is_solid,
}

minus_times : (d k : ℕ) → minus d *ℤ pos k ≡ minus (d * k)
unfolding ◌*ℤ◌
minus_times zero k = ground arith
minus_times (suc d) k = grind arith

minus_plus : (a f : ℕ) → f ≤ a → minus a +ℤ pos f ≡ minus (a - f)
unfolding ◌+ℤ◌
minus_plus zero f h = ground arith
minus_plus (suc a) f h = grind arith

neg_minus : (a : ℕ) → neg_ℤ (minus a) ≡ pos a
neg_minus zero = refl
neg_minus (suc a) = refl

to_cents-double :
    (d f : ℕ)
    → f ≤ d * 100
    → d * 100 < two63
    → to_cents true (minus d) (pos f) ≡ from_cents (pos (d * 100 - f))
unfolding to_cents
to_cents-double d f small wide =
    rw
      (
        minus_times d 100,
        wrap64_id (minus (d * 100)) (minus-IsInt64 (d * 100) wide),
        minus_plus (d * 100) f small,
      )
      (rw
        (
          wrap64_id (minus (d * 100 - f)) (minus-IsInt64 (d * 100 - f) (omega arith)),
          neg_minus (d * 100 - f),
        )
        (rw (wrap64_id (pos (d * 100 - f)) (omega arith))))

-- Two minus signs are accepted where at most one is a decimal: for a whole part `d` of one or more
-- and two decimals `f`, the text `--d.ff` is read as the amount d - 0.ff.
pub parse_string-double_minus :
    (d f : ℕ)
    → 0 < d
    → f < 100
    → d * 100 < two63
    → parse_string (b'-' ∷ b'-' ∷ (show_nat d ++ b'.' ∷ show_int2 (pos f)))
      ≡ some (from_cents (pos (d * 100 - f)))
unfolding parse_unsigned parse_parts
parse_string-double_minus d f some_whole two wide =
    parse_string-minus (b'-' ∷ (show_nat d ++ b'.' ∷ show_int2 (pos f))) (
      dash_is_solid,
      All-append is_solid (show_nat d) _ (digits_are_solid _ (show_nat-All d))
          (dot_is_solid, digits_are_solid _ (show_int2-All f)),
    )
    ∙ rw
        (
          split-two (b'-' ∷ show_nat d) (show_int2 (pos f))
              (refl, digits_have_no_dot _ (show_nat-All d))
              (digits_have_no_dot _ (show_int2-All f)),
          parse_int-minus d (omega arith),
          parse_frac-show_int2 f two,
        )
        (rw (to_cents-double d f (omega arith) wide) refl)
