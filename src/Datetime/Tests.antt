-- ===== src/Datetime/Tests.antt =====
-- Runs of the date functions, against Python's answers.
use crypto_market_platform.Base.{◌≡◌, refl, ◌+◌, ◌-◌, ◌*◌, ◌%◌, arith}
use crypto_market_platform.Base.Result.{ok, raise, value_error}
use crypto_market_platform.Datetime.{parse_time, iso, iso_text, day, minute, str_of_number}
use crypto_market_platform.Datetime.Calendar.{to_ordinal, of_ordinal}
use crypto_market_platform.Datetime.RoundTrip.{parse_time-iso}

ordinal_of_epoch : to_ordinal 1970 1 1 ≡ 719162
unfolding to_ordinal
ordinal_of_epoch = refl

epoch_of_ordinal : of_ordinal 719162 ≡ (1970, 1, 1)
unfolding of_ordinal
epoch_of_ordinal = refl

leap_day : of_ordinal (to_ordinal 2024 2 29) ≡ (2024, 2, 29)
unfolding of_ordinal to_ordinal
leap_day = refl

parsed : parse_time "1970-01-02T01:02:03.25Z" ≡ ok (719163 * day + 62 * minute + 3250000)
unfolding parse_time
parsed = refl

with_offset : parse_time "1970-01-01T01:00:00+02:00" ≡ ok (719161 * day + 1380 * minute)
unfolding parse_time
with_offset = refl

refused : parse_time "2023-02-29T00:00:00Z" ≡ raise value_error
unfolding parse_time
refused = refl

printed : iso (719163 * day + 62 * minute + 3250999) ≡ "1970-01-02T01:02:03.250Z"
unfolding iso iso_text of_ordinal
printed = refl

number_printed : str_of_number 1050 ≡ "1050"
unfolding str_of_number
number_printed = refl

parse_time-iso_example : parse_time (iso 1234567890) ≡ ok (1234567890 - 1234567890 % 1000)
parse_time-iso_example = parse_time-iso 1234567890 (omega arith)
