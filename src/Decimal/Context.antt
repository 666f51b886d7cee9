-- ===== src/Decimal/Context.antt =====
-- Arithmetic of `decimal` in its default context: 28 significant digits, ROUND_HALF_EVEN.
use crypto_market_platform.Base.{
  ℕ, zero, suc, ◌+◌, ◌-◌, ◌*◌, ◌/◌, ◌%◌, ◌^◌, leb, ltb, ◌==◌, if◌then◌else◌,
}
use crypto_market_platform.Base.Int.{ℤ, pos, negsuc, negate, ◌+ℤ◌, ◌*ℤ◌}
use crypto_market_platform.Base.Result.{Result, ok, raise, decimal_error}
use crypto_market_platform.Decimal.{Decimal, negated}

abbrev pub precision : ℕ
precision = 28

-- The number of decimal digits of `n`; `n` itself is fuel enough.
unfoldable pub digits_within : ℕ → ℕ → ℕ
digits_within zero n = 1
digits_within (suc fuel) n =
    let rest = suc (digits_within fuel (n / 10)) in if ltb n 10 then 1 else rest

unfoldable pub digits : ℕ → ℕ
unfolding digits_within
digits n = digits_within n n

-- `n / 10 ^ k` rounded to the nearest, ties to even.
unfoldable pub shift_right : ℕ → ℕ → ℕ
shift_right n k =
    let q = n / 10 ^ k in
    let twice = 2 * (n % 10 ^ k) in
    if ltb (10 ^ k) twice then q + 1 else if twice == 10 ^ k then q + q % 2 else q

abbrev pub magnitude : ℤ → ℕ
magnitude (pos n) = n
magnitude (negsuc n) = suc n

abbrev pub with_sign_of : ℤ → ℕ → ℤ
with_sign_of (pos _) n = pos n
with_sign_of (negsuc _) n = negate (pos n)

-- The number `n * 10 ^ k / 10 ^ s`.
abbrev pub scaled : ℤ → ℕ → ℕ → Decimal
scaled c k s =
    if leb k s
    then record { coefficient = c; scale = s - k }
    else record { coefficient = c *ℤ pos (10 ^ (k - s)); scale = 0 }

-- `_fix`: what an exact result becomes in the context.
unfoldable pub fix : Decimal → Decimal
unfolding digits shift_right ◌*ℤ◌
fix a =
    let n = magnitude a.coefficient in
    let excess = digits n - precision in
    if excess == 0
    then a
    else scaled (with_sign_of a.coefficient (shift_right n excess)) excess a.scale

-- `-a`, which is rounded as every result is
unfoldable pub opposite : Decimal → Decimal
unfolding negated
opposite a = fix (negated a)

-- `a + b`
unfoldable pub plus : Decimal → Decimal → Decimal
unfolding fix ◌+ℤ◌ ◌*ℤ◌
plus a b = fix (record {
  coefficient =
      a.coefficient *ℤ pos (10 ^ (b.scale - a.scale))
      +ℤ b.coefficient *ℤ pos (10 ^ (a.scale - b.scale));
  scale = a.scale + (b.scale - a.scale);
})

-- `a - b`
unfoldable pub minus : Decimal → Decimal → Decimal
unfolding plus negated
minus a b = plus a (negated b)

-- `a * b`
unfoldable pub times : Decimal → Decimal → Decimal
unfolding fix ◌*ℤ◌
times a b = fix (record { coefficient = a.coefficient *ℤ b.coefficient; scale = a.scale + b.scale })

-- A quotient that is not exact ends in a digit that no rounding takes for a tie.
abbrev sticky : ℕ → ℕ → ℕ
sticky q r = if r == 0 then q else if q % 5 == 0 then q + 1 else q

-- The quotient of two magnitudes by `shift` more digits, one more than the precision.
unfoldable pub quotient : ℕ → ℕ → ℕ → ℕ
quotient n d shift = sticky (n * 10 ^ shift / d) (n * 10 ^ shift % d)

-- `a / b`; division by zero raises, `0 / 0` too.
unfoldable pub over : Decimal → Decimal → Result Decimal
unfolding fix digits quotient ◌*ℤ◌
over a b =
    let n = magnitude a.coefficient in
    let d = magnitude b.coefficient in
    let shift = digits d + precision + 1 - digits n in
    let down = digits n - (digits d + precision + 1) in
    let q = quotient n (d * 10 ^ down) shift in
    if d == 0
    then raise decimal_error
    else ok (
        fix (
          scaled (with_sign_of a.coefficient q *ℤ with_sign_of b.coefficient 1) (b.scale + down)
            (a.scale + shift)))
