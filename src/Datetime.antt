-- ===== src/Datetime.antt =====
-- Python's aware datetimes, as ingest/src/consumer/ws_client.py uses them: `parse_time` and `_iso`.
-- An instant is the number of microseconds from 0001-01-01T00:00:00 UTC, which is datetime.min.
-- Texts without an offset, which give naive datetimes, and the week and short forms that
-- `fromisoformat` takes are left out: they raise here.
pub mod Calendar
pub mod Ordinal
pub mod Printing
pub mod Zone
pub mod Reading
pub mod RoundTrip
mod Tests
use Prim.Native.String.{◌++◌ as append}
use crypto_market_platform.Base.{
  ℕ, zero, suc, ◌+◌, ◌-◌, ◌*◌, ◌/◌, ◌%◌, ◌^◌, String, List, [], ◌∷◌, Bool, true, false, ◌&&◌, ◌||◌,
  leb, ltb, ◌==◌, if◌then◌else◌, Option, none, some,
}
use crypto_market_platform.Base.Result.{Result, ok, raise, value_error}
use crypto_market_platform.Decimal.Text.{codes, digit_run, is_digit}
use Calendar.{days_in_month, to_ordinal, of_ordinal}

abbrev pub second : ℕ
second = 1000000

abbrev pub minute : ℕ
minute = 60000000

abbrev pub day : ℕ
day = 86400000000

-- Exactly `n` digits, and what follows.
unfoldable pub fixed : ℕ → ℕ → List ℕ → Option (ℕ × List ℕ)
fixed zero acc s = some (acc, s)
fixed (suc n) acc [] = none
fixed (suc n) acc (c ∷ s) =
    let more = fixed n (acc * 10 + (c - b'0')) s in if is_digit c then more else none

-- One character of the form.
unfoldable pub expect : ℕ → Option (ℕ × List ℕ) → Option (ℕ × List ℕ)
expect c none = none
expect c (some (n, [])) = none
expect c (some (n, d ∷ s)) = if d == c then some (n, s) else none

infixl 5 ◌>>=◌
abbrev pub ◌>>=◌ : {A B : Type 0} → Option A → (A → Option B) → Option B
none >>= f = none
some a >>= f = f a

-- A fraction of a second, cut to microseconds, if there is one.
unfoldable pub fraction : List ℕ → ℕ × List ℕ
unfolding digit_run
fraction [] = (0, [])
fraction (c ∷ s) =
    let (n, k, rest) = digit_run 0 0 s in
    if c == b'.' && ltb 0 k
    then (if leb k 6 then n * 10 ^ (6 - k) else n / 10 ^ (k - 6), rest)
    else (0, c ∷ s)

-- The offset from UTC in minutes, and whether it lies behind.
unfoldable pub offset : List ℕ → Option (Bool × ℕ)
unfolding fixed expect
offset [] = none
offset (c ∷ s) = do
  (h, s) ← expect b':' (fixed 2 0 s)
  (m, s) ← fixed 2 0 s
  elim s [
    | [] ↦
        if (c == b'+' || c == b'-') && ltb h 24 && ltb m 60
        then some (c == b'-', h * 60 + m)
        else none
    | _ ∷ _ ↦ none
  ]

-- `value.replace("Z", "+00:00")`
unfoldable pub replace_z : List ℕ → List ℕ
replace_z [] = []
replace_z (c ∷ s) =
    let rest = replace_z s in
    if c == b'Z' then b'+' ∷ b'0' ∷ b'0' ∷ b':' ∷ b'0' ∷ b'0' ∷ rest else c ∷ rest

abbrev pub instant : ℕ → ℕ → Bool × ℕ → Option ℕ
instant ordinal time (behind, minutes) =
    let local = ordinal * day + time in
    if behind
    then some (local + minutes * minute)
    else if leb (minutes * minute) local
    then some (local - minutes * minute)
    else none

-- The instant, if the fields are those of a date and, as told, of a time of the day.
unfoldable pub dated : ℕ → ℕ → ℕ → ℕ → Bool → Bool × ℕ → Option ℕ
unfolding to_ordinal days_in_month
dated year month dom time timely zone =
    if leb 1 year
      && leb 1 month
      && leb month 12
      && leb 1 dom
      && leb dom (days_in_month year month)
      && timely
    then instant (to_ordinal year month dom) time zone
    else none

-- `datetime.fromisoformat`
unfoldable pub from_iso_format : List ℕ → Option ℕ
unfolding fixed expect fraction offset dated
from_iso_format s = do
  (year, s) ← expect b'-' (fixed 4 0 s)
  (month, s) ← expect b'-' (fixed 2 0 s)
  (dom, s) ← expect b'T' (fixed 2 0 s)
  (h, s) ← expect b':' (fixed 2 0 s)
  (m, s) ← expect b':' (fixed 2 0 s)
  (sec, s) ← fixed 2 0 s
  (frac, s) ← (let f = fraction s in some f)
  zone ← offset s
  dated year month dom ((h * 60 + m) * minute + sec * second + frac)
      (ltb h 24 && ltb m 60 && ltb sec 60) zone

abbrev pub or_value_error : Option ℕ → Result ℕ
or_value_error none = raise value_error
or_value_error (some t) = ok t

unfoldable pub parse_time : String → Result ℕ
unfolding from_iso_format replace_z
parse_time text = or_value_error (from_iso_format (replace_z (codes text)))

-- The last decimal digit of a number.
unfoldable pub digit : ℕ → String
digit n =
    let d = n % 10 in
    if d == 0
    then "0"
    else if d == 1
    then "1"
    else if d == 2
    then "2"
    else if d == 3
    then "3"
    else if d == 4
    then "4"
    else if d == 5
    then "5"
    else if d == 6
    then "6"
    else if d == 7
    then "7"
    else if d == 8
    then "8"
    else "9"

unfoldable pub pad2 : ℕ → String
unfolding digit
pad2 n = append (digit (n / 10)) (digit n)

unfoldable pub pad3 : ℕ → String
unfolding digit pad2
pad3 n = append (digit (n / 100)) (pad2 n)

infixr 65 ◌⊕◌
abbrev ◌⊕◌ : String → String → String
a ⊕ b = append a b

-- The fields of a time, printed.
unfoldable pub iso_text : ℕ → ℕ → ℕ → ℕ → ℕ → ℕ → ℕ → String
unfolding digit pad2 pad3
iso_text y m d hour min sec ms =
    digit (y / 1000)
    ⊕ pad3 y
    ⊕ "-"
    ⊕ pad2 m
    ⊕ "-"
    ⊕ pad2 d
    ⊕ "T"
    ⊕ pad2 hour
    ⊕ ":"
    ⊕ pad2 min
    ⊕ ":"
    ⊕ pad2 sec
    ⊕ "."
    ⊕ pad3 ms
    ⊕ "Z"

-- `_iso`: the instant in UTC, cut to milliseconds.
unfoldable pub iso : ℕ → String
iso t =
    let (y, m, d) = of_ordinal (t / day) in
    let s = t % day / second in iso_text y m d (s / 3600) (s / 60 % 60) (s % 60) (t % second / 1000)

-- `str(n)`
print_within : ℕ → ℕ → String → String
unfolding digit
print_within zero n tail = tail
print_within (suc fuel) n tail =
    let rest = print_within fuel (n / 10) (digit n ⊕ tail) in
    if ltb n 10 then digit n ⊕ tail else rest

unfoldable pub str_of_number : ℕ → String
unfolding print_within
str_of_number n = print_within (suc n) n ""
