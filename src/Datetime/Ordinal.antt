-- ===== src/Datetime/Ordinal.antt =====
-- Python's calendar: the date of an ordinal is a date, and has that ordinal.
use crypto_market_platform.Base.{
  ℕ, zero, suc, ◌+◌, ◌-◌, ◌*◌, ◌/◌, ◌%◌, ◌≤◌, ◌<◌, ◌≡◌, ◌⊎◌, refl, ap, if◌then◌else◌, arith, ltb,
  inl, inr, Bool-cases,
}
use mathlib.Core.Path.{subst}
use native.Mathlib.Numerals.{add-one}
use crypto_market_platform.Datetime.Calendar.{
  is_leap, days_in_month, days_before_month, days_before_year, to_ordinal, lesser, year_of,
  month_of, of_ordinal,
}

abbrev days_in_year : ℕ → ℕ
days_in_year y = if is_leap y then 366 else 365

-- The number of days before 10000-01-01.
abbrev pub max_days : ℕ
max_days = 3652059

-- A number of days as cycles of 400, 100, 4 years and 1, and the days over.
record Cycles (n a b c e d : ℕ) : Type 0 where
  whole : n ≡ a * 146097 + b * 36524 + c * 1461 + e * 365 + d
  centuries : b ≤ 3
  fours : c ≤ 24
  ones : e ≤ 3
  over : (d < 365) ⊎ ((d ≡ 365) × (e ≡ 3) × ((c < 24) ⊎ (b ≡ 3)))

abbrev year_after : ℕ → ℕ → ℕ → ℕ → ℕ
year_after a b c e = a * 400 + b * 100 + c * 4 + e + 1

Cycles-day : (n a b c e d : ℕ) → Cycles n a b c e d → days_before_year (year_after a b c e) + d ≡ n
unfolding days_before_year
Cycles-day n a b c e d cycles =
    omega (arith, cycles.whole, cycles.centuries, cycles.fours, cycles.ones)

Cycles-within : (n a b c e d : ℕ) → Cycles n a b c e d → d < days_in_year (year_after a b c e)
unfolding is_leap
Cycles-within n a b c e d cycles = elim cycles.over [
  | inl common ↦ ground (arith, common)
  | inr (last, third, leap) ↦ ground (arith, last, third, leap, cycles.centuries, cycles.fours)
]

-- The least of a quotient and 3.
abbrev Capped : ℕ → ℕ → Type 0
Capped q k = (k ≤ 3) × (k ≤ q) × ((k ≡ q) ⊎ ((k ≡ 3) × (3 < q)))

lesser-Capped : (q : ℕ) → Capped q (lesser q 3)
lesser-Capped q = ground arith

module _ (n r400 b r100 e : ℕ) (rest : r400 ≡ n % 146097) (hundreds : Capped (r400 / 36524) b)
    (left : r100 ≡ r400 - b * 36524) (units : Capped (r100 % 1461 / 365) e) where
  hundreds_fit : b * 36524 ≤ r400
  hundreds_fit = omega (arith, hundreds.1)

  r100_small : (r100 < 36524) ⊎ ((r100 ≡ 36524) × (b ≡ 3))
  r100_small = ground (arith, hundreds, left, rest)

  units_fit : e * 365 ≤ r100 % 1461
  units_fit = omega (arith, units.1)

  last_day :
      (r100 % 1461 - e * 365 < 365)
      ⊎ ((r100 % 1461 - e * 365 ≡ 365) × (e ≡ 3) × (r100 % 1461 ≡ 1460))
  last_day = ground (arith, units)

  fours_lem : (r100 / 1461 < 24) ⊎ ((r100 / 1461 ≡ 24) × ((r100 % 1461 < 1460) ⊎ (b ≡ 3)))
  fours_lem = ground (arith, r100_small)

  calendar-Cycles : Cycles n (n / 146097) b (r100 / 1461) e (r100 % 1461 - e * 365)
  calendar-Cycles = record {
    whole = omega (arith, rest, left, hundreds_fit, units_fit);
    centuries = hundreds.0;
    fours = ground (arith, fours_lem);
    ones = units.0;
    over = ground (arith, last_day, fours_lem);
  }

record IsYearOf (n y d : ℕ) : Type 0 where
  from_one : 1 ≤ y
  before : y ≤ 9999
  day : days_before_year y + d ≡ n
  within : d < days_in_year y

year_of-IsYearOf : (n : ℕ) → n < max_days → IsYearOf n (year_of n).0 (year_of n).1
unfolding year_of
year_of-IsYearOf n small =
    let b = lesser (n % 146097 / 36524) 3 in
    let r100 = n % 146097 - b * 36524 in
    let cycles =
      calendar-Cycles n (n % 146097) b r100 (lesser (r100 % 1461 / 365) 3) refl (lesser-Capped _)
        refl (lesser-Capped _) in
    record {
      from_one = omega arith;
      before = omega (arith, small, cycles.centuries, cycles.fours, cycles.ones, cycles.whole);
      day = Cycles-day n _ _ _ _ _ cycles;
      within = Cycles-within n _ _ _ _ _ cycles;
    }

pub record IsDate (y m d : ℕ) : Type 0 where
  pub month_from : 1 ≤ m
  pub month_to : m ≤ 12
  pub day_from : 1 ≤ d
  pub day_to : d ≤ days_in_month y m

twelve_months : (y : ℕ) → days_before_month y 12 + 31 ≡ days_in_year y
unfolding days_before_month days_in_month
twelve_months y = ground arith

december : (y : ℕ) → days_in_month y 12 ≡ 31
unfolding days_in_month
december y = ground arith

days_before_month-suc :
    (y m : ℕ) → 1 ≤ m → days_before_month y (m + 1) ≡ days_before_month y m + days_in_month y m
unfolding days_before_month
days_before_month-suc y zero h = absurd (omega arith)
days_before_month-suc y (suc m) h = rw (add-one (suc m)) refl

record IsDayOf (y days m d : ℕ) : Type 0 where
  date : IsDate y m d
  day : days_before_month y m + (d - 1) ≡ days

month_of-IsDayOf :
    (y left m d : ℕ)
    → m + left ≡ 12
    → 1 ≤ m
    → days_before_month y m + d < days_in_year y
    → IsDayOf y (days_before_month y m + d) (month_of y left m d).0 (month_of y left m d).1
unfolding month_of
month_of-IsDayOf y zero m d ends from fits =
    let last : m ≡ 12 = omega (arith, ends) in
    record {
      date = record {
        month_from = from;
        month_to = omega (arith, last);
        day_from = omega arith;
        day_to = omega (
          arith,
          fits,
          twelve_months y,
          december y,
          ap (days_before_month y) last,
          ap (days_in_month y) last,
        );
      };
      day = omega arith;
    }
month_of-IsDayOf y (suc left) m d ends from fits = elim (Bool-cases (ltb d (days_in_month y m))) [
  | inl here ↦ rw here (record {
    date = record {
      month_from = from;
      month_to = omega (arith, ends);
      day_from = omega arith;
      day_to = ground (arith, here);
    };
    day = omega arith;
  })
  | inr later ↦
      let next = days_before_month-suc y m from in
      let beyond : days_in_month y m ≤ d = ground (arith, later) in
      let same : days_before_month y (m + 1) + (d - days_in_month y m) ≡ days_before_month y m + d =
        omega (arith, next, beyond) in
      rw later (
        subst
          (λ days.
            IsDayOf y days (month_of y left (m + 1) (d - days_in_month y m)).0
              (month_of y left (m + 1) (d - days_in_month y m)).1)
          same
          (month_of-IsDayOf y left (m + 1) (d - days_in_month y m) (omega (arith, ends))
            (omega arith) (omega (arith, same, fits))))
]

-- The date of an ordinal.
pub record IsDateOf (n y m d : ℕ) : Type 0 where
  pub year_from : 1 ≤ y
  pub year_to : y ≤ 9999
  pub date : IsDate y m d
  pub ordinal : to_ordinal y m d ≡ n

pub of_ordinal-IsDateOf :
    (n : ℕ) → n < max_days → IsDateOf n (of_ordinal n).0 (of_ordinal n).1 (of_ordinal n).2
unfolding of_ordinal to_ordinal days_before_month
of_ordinal-IsDateOf n small =
    let year = year_of-IsYearOf n small in
    let found =
      month_of-IsDayOf (year_of n).0 11 1 (year_of n).1 refl (omega arith)
        (omega (arith, year.within)) in
    record {
      year_from = year.from_one;
      year_to = year.before;
      date = found.date;
      ordinal = omega (arith, year.day, found.day);
    }
