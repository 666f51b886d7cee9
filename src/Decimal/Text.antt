-- ===== src/Decimal/Text.antt =====
-- `Decimal(text)`: an optional sign, digits with an optional point, an optional exponent.
-- `int(text)` of an id: digits. Padding, underscores and the names of NaN and the infinities,
-- which Python accepts too, are left out: the feed sends plain numerals.
use Prim.Native.Char.{code}
use crypto_market_platform.Base.{
  ℕ, ◌+◌, ◌-◌, ◌*◌, ◌^◌, String, List, [], ◌∷◌, Bool, true, false, ◌&&◌, ◌||◌, leb, ltb, ◌==◌,
  if◌then◌else◌, Option, none, some,
}
use crypto_market_platform.Base.Int.{pos, negate}
use crypto_market_platform.Base.Result.{Result, ok, raise, value_error, decimal_error}
use crypto_market_platform.Decimal.{Decimal}

abbrev pub codes : String → List ℕ
codes String.[] = []
codes (String.◌∷◌ c s) = code c ∷ codes s

abbrev pub is_digit : ℕ → Bool
is_digit c = leb b'0' c && leb c b'9'

-- The number that a run of digits adds to `n`, the digits read, and what follows them.
abbrev pub Run : Type 0
Run = ℕ × ℕ × List ℕ

unfoldable pub digit_run : ℕ → ℕ → List ℕ → Run
digit_run n k [] = (n, k, [])
digit_run n k (c ∷ rest) =
    let more = digit_run (n * 10 + (c - b'0')) (k + 1) rest in
    if is_digit c then more else (n, k, c ∷ rest)

sign_of : List ℕ → Bool × List ℕ
sign_of [] = (false, [])
sign_of (c ∷ rest) =
    if c == b'-' then (true, rest) else if c == b'+' then (false, rest) else (false, c ∷ rest)

-- The digits behind a point, if there is one.
fraction_of : ℕ → List ℕ → Run
fraction_of n [] = (n, 0, [])
fraction_of n (c ∷ rest) = if c == b'.' then digit_run n 0 rest else (n, 0, c ∷ rest)

-- The exponent: its sign and its size, unless what is left is malformed.
exponent_of : List ℕ → Option (Bool × ℕ)
unfolding digit_run sign_of
exponent_of [] = some (false, 0)
exponent_of (c ∷ rest) =
    let (minus, body) = sign_of rest in
    let (e, k, left) = digit_run 0 0 body in
    if (c == b'e' || c == b'E') && ltb 0 k
    then elim left [ [] ↦ some (minus, e) | _ ∷ _ ↦ none ]
    else none

-- The number `± n * 10 ^ ±e / 10 ^ s`.
abbrev assemble : Bool → ℕ → Bool × ℕ → ℕ → Decimal
assemble minus n (down, e) s =
    let k = if down then 0 else e - s in
    let m = n * 10 ^ k in
    record {
      coefficient = if minus then negate (pos m) else pos m;
      scale = if down then s + e else s - e;
    }

unfoldable pub decimal : String → Result Decimal
unfolding digit_run sign_of fraction_of exponent_of
decimal text =
    let (minus, body) = sign_of (codes text) in
    let (whole, i, rest) = digit_run 0 0 body in
    let (n, f, rest') = fraction_of whole rest in
    if i + f == 0 then raise decimal_error else elim (exponent_of rest') [
      | none ↦ raise decimal_error
      | some e ↦ ok (assemble minus n e f)
    ]

-- `int(text)`
unfoldable pub int_of_text : String → Result ℕ
unfolding digit_run
int_of_text text =
    let (n, k, rest) = digit_run 0 0 (codes text) in
    if k == 0 then raise value_error else elim rest [ [] ↦ ok n | _ ∷ _ ↦ raise value_error ]
