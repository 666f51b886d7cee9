-- ===== src/Datetime/Reading.antt =====
-- ws_client.py, `parse_time`: reading the fields of a printed time.
use crypto_market_platform.Base.{
  ℕ, suc, ◌+◌, ◌*◌, ◌/◌, ◌%◌, ◌≤◌, ◌<◌, ◌≡◌, ◌∙◌, refl, ap, List, ◌∷◌, Bool, true, false, arith,
  Option, some, ◌==◌, leb, ltb, ◌&&◌,
}
use crypto_market_platform.Decimal.Text.{digit_run}
use crypto_market_platform.Datetime.Calendar.{to_ordinal, days_in_month}
use crypto_market_platform.Datetime.Ordinal.{IsDate}
use crypto_market_platform.Datetime.{
  instant, dated, minute, ◌>>=◌, second, minute, day, fixed, expect, fraction, offset,
  from_iso_format,
}
use crypto_market_platform.Datetime.Printing.{one, two, three, four, printed}
use crypto_market_platform.Datetime.Zone.{utc}

fixed-one : (k acc n : ℕ) (s : List ℕ) → fixed (suc k) acc (one n s) ≡ fixed k (acc * 10 + n % 10) s
unfolding fixed
fixed-one k acc n s = ground arith

fixed-two : (n : ℕ) (s : List ℕ) → n < 100 → fixed 2 0 (two n s) ≡ some (n, s)
unfolding fixed
fixed-two n s small =
    fixed-one 1 0 (n / 10) (one n s)
    ∙ fixed-one 0 (0 * 10 + n / 10 % 10) n s
    ∙ ap (λ (k : ℕ). some (k, s)) (omega (arith, small))

fixed-four : (n : ℕ) (s : List ℕ) → n < 10000 → fixed 4 0 (four n s) ≡ some (n, s)
unfolding fixed
fixed-four n s small =
    fixed-one 3 0 (n / 1000) (three n s)
    ∙ fixed-one 2 _ (n / 100) (two n s)
    ∙ fixed-one 1 _ (n / 10) (one n s)
    ∙ fixed-one 0 _ n s
    ∙ ap (λ (k : ℕ). some (k, s)) (omega (arith, small))

digit_run-one :
    (n k m : ℕ) (s : List ℕ) → digit_run n k (one m s) ≡ digit_run (n * 10 + m % 10) (k + 1) s
unfolding digit_run
digit_run-one n k m s = ground arith

digit_run-utc : (n k : ℕ) → digit_run n k utc ≡ (n, k, utc)
unfolding digit_run
digit_run-utc n k = refl

digit_run-three : (ms : ℕ) → ms < 1000 → digit_run 0 0 (three ms utc) ≡ (ms, 3, utc)
digit_run-three ms small =
    digit_run-one 0 0 (ms / 100) (two ms utc)
    ∙ digit_run-one _ 1 (ms / 10) (one ms utc)
    ∙ digit_run-one _ 2 ms utc
    ∙ digit_run-utc _ 3
    ∙ ap (λ (k : ℕ). (k, 3, utc)) (omega (arith, small))

fraction-three : (ms : ℕ) → ms < 1000 → fraction (b'.' ∷ three ms utc) ≡ (ms * 1000, utc)
unfolding fraction
fraction-three ms small = rw (digit_run-three ms small) refl

bind-utc : (next : Bool × ℕ → Option ℕ) → offset utc >>= next ≡ next (false, 0)
unfolding offset fixed expect
bind-utc next = refl

-- The fields of a time that can be read.
pub record Fields (y m d h mi sec ms : ℕ) : Type 0 where
  pub date : IsDate y m d
  pub year_from : 1 ≤ y
  pub year_to : y ≤ 9999
  pub hour : h < 24
  pub minutes : mi < 60
  pub seconds : sec < 60
  pub millis : ms < 1000

days_in_month_bounded : (y m : ℕ) → days_in_month y m ≤ 31
unfolding days_in_month
days_in_month_bounded y m = ground arith

expect-two :
    (n c : ℕ) (s : List ℕ)
    → n < 100
    → (c == c) ≡ true
    → expect c (fixed 2 0 (two n (c ∷ s))) ≡ some (n, s)
unfolding expect
expect-two n c s small same = rw (fixed-two n (c ∷ s) small, same) refl

expect-four :
    (n : ℕ) (s : List ℕ) → n < 10000 → expect b'-' (fixed 4 0 (four n (b'-' ∷ s))) ≡ some (n, s)
unfolding expect
expect-four n s small = rw (fixed-four n (b'-' ∷ s) small) refl

leb-true : (a b : ℕ) → a ≤ b → leb a b ≡ true
leb-true a b below = ground (arith, below)

instant-utc : (ordinal time : ℕ) → instant ordinal time (false, 0) ≡ some (ordinal * day + time)
instant-utc ordinal time = ground arith

dated_lem :
    (y m d time : ℕ) (timely : Bool)
    → IsDate y m d
    → 1 ≤ y
    → timely ≡ true
    → dated y m d time timely (false, 0) ≡ some (to_ordinal y m d * day + time)
unfolding dated
dated_lem y m d time timely date from in_day =
    rw
      (
        leb-true 1 y from,
        leb-true 1 m date.month_from,
        leb-true m 12 date.month_to,
        leb-true 1 d date.day_from,
        leb-true d (days_in_month y m) date.day_to,
        in_day,
      )
      (instant-utc (to_ordinal y m d) time)

pub from_iso_format-printed :
    (y m d h mi sec ms : ℕ)
    → Fields y m d h mi sec ms
    → from_iso_format (printed y m d h mi sec ms utc)
      ≡ some (to_ordinal y m d * day + ((h * 60 + mi) * minute + sec * second + ms * 1000))
unfolding from_iso_format
from_iso_format-printed y m d h mi sec ms f =
    let in_year : y < 10000 = omega (arith, f.year_to) in
    let in_month : m < 100 = omega (arith, f.date.month_to) in
    let in_day : d < 100 = omega (arith, f.date.day_to, days_in_month_bounded y m) in
    let in_hour : h < 100 = omega (arith, f.hour) in
    let in_minute : mi < 100 = omega (arith, f.minutes) in
    let in_second : sec < 100 = omega (arith, f.seconds) in
    rw
      (
        expect-four y _ in_year,
        expect-two m b'-' _ in_month refl,
        expect-two d b'T' _ in_day refl,
        expect-two h b':' _ in_hour refl,
        expect-two mi b':' _ in_minute refl,
        fixed-two sec _ in_second,
        fraction-three ms f.millis,
      )
      (bind-utc (
          dated y m d ((h * 60 + mi) * minute + sec * second + ms * 1000)
            (ltb h 24 && ltb mi 60 && ltb sec 60))
        ∙ dated_lem y m d _ _ f.date f.year_from (ground (arith, f.hour, f.minutes, f.seconds)))
