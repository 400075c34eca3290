-- ===== src/Money/Separate.antt =====
-- internal/money/money.go: trimming and splitting of a text without space and with one dot.
use mathlib.Core.List.{reverse, append_assoc, append-nil, reverse-reverse, reverse-cons}
use order_service_go_archite.Prelude.{
  ℕ, ◌≡◌, refl, ◌∙◌, ap, Bool, true, false, ◌==◌, List, [], ◌∷◌, ◌++◌, not, Text, is_space,
  trim_left, trim_space, split_from, split, is_digit, arith,
}
use order_service_go_archite.Money.Digits.{All}

abbrev pub is_solid : ℕ → Bool
is_solid c = not (is_space c)

abbrev pub is_no_dot : ℕ → Bool
is_no_dot c = not (c == b'.')

pub All-append : (test : ℕ → Bool) (s t : Text) → All test s → All test t → All test (s ++ t)
All-append test [] t hs ht = ht
All-append test (c ∷ s) t (h, hs) ht = (h, All-append test s t hs ht)

All-reverse : (test : ℕ → Bool) (s : Text) → All test s → All test (reverse s)
All-reverse test [] h = tt
All-reverse test (c ∷ s) (h, hs) =
    rw (reverse-cons c s) (All-append test (reverse s) (c ∷ []) (All-reverse test s hs) (h, tt))

digit_is_solid : (c : ℕ) → is_digit c ≡ true → is_solid c ≡ true
unfolding is_space
digit_is_solid c h = ground arith

pub digits_are_solid : (s : Text) → All is_digit s → All is_solid s
digits_are_solid [] h = tt
digits_are_solid (c ∷ s) (h, hs) = (digit_is_solid c h, digits_are_solid s hs)

pub digits_have_no_dot : (s : Text) → All is_digit s → All is_no_dot s
digits_have_no_dot [] h = tt
digits_have_no_dot (c ∷ s) (h, hs) = (ground arith, digits_have_no_dot s hs)

trim_left_id : (s : Text) → All is_solid s → trim_left s ≡ s
unfolding trim_left
trim_left_id [] h = refl
trim_left_id (c ∷ s) (h, hs) = ground arith

-- `TrimSpace` leaves a text without space as it is.
pub trim_space_id : (s : Text) → All is_solid s → trim_space s ≡ s
unfolding trim_space
trim_space_id s h =
    rw (trim_left_id s h)
      (rw (trim_left_id (reverse s) (All-reverse is_solid s h)) (reverse-reverse s))

-- What was collected in reverse, one character longer.
collect : (c : ℕ) (cur s : Text) → reverse (c ∷ cur) ++ s ≡ reverse cur ++ c ∷ s
collect c cur s = rw (reverse-cons c cur) (append_assoc (reverse cur) (c ∷ []) s)

split_from-no_dot :
    (cur s : Text) → All is_no_dot s → split_from b'.' cur s ≡ (reverse cur ++ s) ∷ []
unfolding split_from
split_from-no_dot cur [] h = rw (append-nil (reverse cur))
split_from-no_dot cur (c ∷ s) (h, hs) =
    let other : (c == b'.') ≡ false = ground arith in
    rw other (split_from-no_dot (c ∷ cur) s hs ∙ ap {B = List Text} (λ t. t ∷ []) (collect c cur s))

split_from-dot :
    (cur s t : Text)
    → All is_no_dot s
    → split_from b'.' cur (s ++ b'.' ∷ t) ≡ (reverse cur ++ s) ∷ split_from b'.' [] t
unfolding split_from
split_from-dot cur [] t h = rw (append-nil (reverse cur))
split_from-dot cur (c ∷ s) t (h, hs) =
    let other : (c == b'.') ≡ false = ground arith in
    rw other (
      split_from-dot (c ∷ cur) s t hs
      ∙ ap {B = List Text} (λ x. x ∷ split_from b'.' [] t) (collect c cur s))

pub split-one : (s : Text) → All is_no_dot s → split b'.' s ≡ s ∷ []
unfolding split
split-one s h = split_from-no_dot [] s h

pub split-two :
    (s t : Text) → All is_no_dot s → All is_no_dot t → split b'.' (s ++ b'.' ∷ t) ≡ s ∷ t ∷ []
unfolding split
split-two s t hs ht =
    split_from-dot [] s t hs ∙ ap {B = List Text} (λ x. s ∷ x) (split_from-no_dot [] t ht)

pub split-three :
    (r s t : Text)
    → All is_no_dot r
    → All is_no_dot s
    → All is_no_dot t
    → split b'.' ((r ++ b'.' ∷ s) ++ b'.' ∷ t) ≡ r ∷ s ∷ t ∷ []
unfolding split
split-three r s t hr hs ht =
    rw (append_assoc r (b'.' ∷ s) (b'.' ∷ t)) (
      split_from-dot [] r (s ++ b'.' ∷ t) hr
      ∙ ap {B = List Text} (λ x. r ∷ x) (split-two s t hs ht))
