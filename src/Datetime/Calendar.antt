-- ===== src/Datetime/Calendar.antt =====
-- The proleptic Gregorian calendar of Python's `datetime`: dates and their ordinals from 0.
use crypto_market_platform.Base.{
  ℕ, zero, suc, ◌+◌, ◌-◌, ◌*◌, ◌/◌, ◌%◌, Bool, ◌&&◌, ◌||◌, not, leb, ltb, ◌==◌, if◌then◌else◌,
}

unfoldable pub is_leap : ℕ → Bool
is_leap y = y % 4 == 0 && (not (y % 100 == 0) || y % 400 == 0)

unfoldable pub days_in_month : ℕ → ℕ → ℕ
unfolding is_leap
days_in_month y m =
    if m == 2
    then (if is_leap y then 29 else 28)
    else if m == 4 || m == 6 || m == 9 || m == 11
    then 30
    else 31

-- The days of the year before a month.
unfoldable pub days_before_month : ℕ → ℕ → ℕ
unfolding days_in_month
days_before_month y zero = 0
days_before_month y (suc zero) = 0
days_before_month y (suc (suc m)) = days_before_month y (suc m) + days_in_month y (suc m)

-- The days before January 1 of a year.
unfoldable pub days_before_year : ℕ → ℕ
days_before_year y = (y - 1) * 365 + (y - 1) / 4 - (y - 1) / 100 + (y - 1) / 400

unfoldable pub to_ordinal : ℕ → ℕ → ℕ → ℕ
unfolding days_before_year days_before_month
to_ordinal y m d = days_before_year y + days_before_month y m + (d - 1)

abbrev pub lesser : ℕ → ℕ → ℕ
lesser a b = if leb a b then a else b

-- The year of an ordinal, and the day in it: cycles of 400, 100, 4 years and 1.
unfoldable pub year_of : ℕ → ℕ × ℕ
year_of n =
    let n400 = n / 146097 in
    let r400 = n % 146097 in
    let n100 = lesser (r400 / 36524) 3 in
    let r100 = r400 - n100 * 36524 in
    let n4 = r100 / 1461 in
    let r4 = r100 % 1461 in
    let n1 = lesser (r4 / 365) 3 in (n400 * 400 + n100 * 100 + n4 * 4 + n1 + 1, r4 - n1 * 365)

-- The month that a day of the year falls in, from the `left` months behind `m`.
unfoldable pub month_of : ℕ → ℕ → ℕ → ℕ → ℕ × ℕ
month_of y zero m d = (m, d + 1)
month_of y (suc left) m d =
    let later = month_of y left (m + 1) (d - days_in_month y m) in
    if ltb d (days_in_month y m) then (m, d + 1) else later

unfoldable pub of_ordinal : ℕ → ℕ × ℕ × ℕ
unfolding year_of month_of days_in_month
of_ordinal n = let (y, d) = year_of n in let (m, d') = month_of y 11 1 d in (y, m, d')
