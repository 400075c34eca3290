-- ===== src/Http/Dates.antt =====
-- internal/order/handler.go: the dates of the filter, read by `time.Parse("2006-01-02", raw)`. An instant is
-- counted in nanoseconds from the start of the year 0000, the first that the layout reads.
use order_service_go_archite.Prelude.{
  ℕ, zero, suc, ◌+◌, ◌-◌, ◌*◌, ◌%◌, ◌==◌, leb, if◌then◌else◌, Bool, ◌&&◌, ◌||◌, not, Option, none,
  some, [], ◌∷◌, Text, is_digit,
}
use order_service_go_archite.Order.Model.{Time}

abbrev pub day : ℕ
day = 86400000000000

abbrev pub is_leap : ℕ → Bool
is_leap y = y % 4 == 0 && (not (y % 100 == 0) || y % 400 == 0)

-- The days of a month of the year; none outside 1 to 12.
unfoldable pub days_in : ℕ → ℕ → ℕ
days_in y m =
    if m == 2
    then (if is_leap y then 29 else 28)
    else (if m == 4 || m == 6 || m == 9 || m == 11
        then 30
        else (if leb 1 m && leb m 12 then 31 else 0))

-- The days of the year before the first of a month.
unfoldable pub days_before : ℕ → ℕ → ℕ
unfolding days_in
days_before y zero = 0
days_before y (suc m) = days_before y m + days_in y m

abbrev pub days_of_year : ℕ → ℕ
days_of_year y = if is_leap y then 366 else 365

-- The days of the years before.
unfoldable pub days_until : ℕ → ℕ
days_until zero = 0
days_until (suc y) = days_until y + days_of_year y

unfoldable pub date : ℕ → ℕ → ℕ → Time
unfolding days_before days_until
date y m d = (days_until y + days_before y m + (d - 1)) * day

unfoldable pub is_date : ℕ → ℕ → ℕ → Bool
unfolding days_in
is_date y m d = leb 1 m && leb m 12 && leb 1 d && leb d (days_in y m)

abbrev pub digit : ℕ → ℕ
digit c = c - 48

unfoldable pub parse_date : Text → Option Time
unfolding date is_date
parse_date (a ∷ b ∷ c ∷ e ∷ s ∷ f ∷ g ∷ t ∷ h ∷ i ∷ []) =
    if is_digit a
      && is_digit b
      && is_digit c
      && is_digit e
      && s == b'-'
      && is_digit f
      && is_digit g
      && t == b'-'
      && is_digit h
      && is_digit i
    then (let y = digit a * 1000 + digit b * 100 + digit c * 10 + digit e in
        let m = digit f * 10 + digit g in
        let d = digit h * 10 + digit i in if is_date y m d then some (date y m d) else none)
    else none
parse_date _ = none
