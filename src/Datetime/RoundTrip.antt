-- ===== src/Datetime/RoundTrip.antt =====
-- ws_client.py, `_iso` and `parse_time`: a printed instant is read back.
use crypto_market_platform.Base.{ℕ, ◌+◌, ◌-◌, ◌*◌, ◌/◌, ◌%◌, ◌<◌, ◌≡◌, ◌∙◌, ap, arith, some}
use crypto_market_platform.Base.Result.{ok}
use crypto_market_platform.Decimal.Text.{codes}
use crypto_market_platform.Datetime.Calendar.{of_ordinal}
use crypto_market_platform.Datetime.Ordinal.{of_ordinal-IsDateOf, max_days}
use crypto_market_platform.Datetime.{
  or_value_error, minute, second, minute, day, replace_z, from_iso_format, parse_time, iso,
}
use crypto_market_platform.Datetime.Printing.{codes-iso_text}
use crypto_market_platform.Datetime.Zone.{replace_z-printed}
use crypto_market_platform.Datetime.Reading.{Fields, from_iso_format-printed}

iso-Fields :
    (t : ℕ)
    → t < max_days * day
    → let (y, m, d) = of_ordinal (t / day) in
      let s = t % day / second in Fields y m d (s / 3600) (s / 60 % 60) (s % 60) (t % second / 1000)
iso-Fields t small =
    let found = of_ordinal-IsDateOf (t / day) (omega (arith, small)) in
    record {
      date = found.date;
      year_from = found.year_from;
      year_to = found.year_to;
      hour = omega arith;
      minutes = omega arith;
      seconds = omega arith;
      millis = omega arith;
    }

abbrev time_of : ℕ → ℕ
time_of t =
    let s = t % day / second in
    (s / 3600 * 60 + s / 60 % 60) * minute + s % 60 * second + t % second / 1000 * 1000

read_iso :
    (t : ℕ)
    → t < max_days * day
    → from_iso_format (replace_z (codes (iso t))) ≡ some (t / day * day + time_of t)
unfolding iso
read_iso t small =
    let found = of_ordinal-IsDateOf (t / day) (omega (arith, small)) in
    ap (λ l. from_iso_format (replace_z l)) (codes-iso_text _ _ _ _ _ _ _)
    ∙ ap from_iso_format (replace_z-printed _ _ _ _ _ _ _)
    ∙ from_iso_format-printed _ _ _ _ _ _ _ (iso-Fields t small)
    ∙ ap (λ (n : ℕ). some (n * day + time_of t)) found.ordinal

-- An instant before the year 10000 that is printed and read back is the same instant, cut to whole
-- milliseconds.
pub parse_time-iso : (t : ℕ) → t < max_days * day → parse_time (iso t) ≡ ok (t - t % 1000)
unfolding parse_time
parse_time-iso t small = ap or_value_error (read_iso t small) ∙ ap ok (omega arith)
