-- ===== src/Decimal/Positive.antt =====
-- `decimal` in its default context: a positive difference stays positive when it is rounded.
use native.Mathlib.Nat.{
  one-le-pow, pow-suc, add-zero, add-suc, mul_assoc, suc-mul, le-div_iff_mul-le,
  lt_of_mul-lt-mul_right, mul-lt-mul_of_pos_right,
}
use crypto_market_platform.Base.{
  ℕ, zero, suc, ◌+◌, ◌-◌, ◌*◌, ◌/◌, ◌^◌, ◌≤◌, ◌<◌, ◌≡◌, sym, ap, ◌∙◌, true, arith, inl, inr,
  Bool-cases, leb, ltb, ◌==◌,
}
use crypto_market_platform.Base.Int.{
  ℤ, pos, negsuc, negate, pos_part, neg_part, ◌*ℤ◌, ◌+ℤ◌, +ℤ_parts,
}
use crypto_market_platform.Decimal.{Decimal, weigh, negated, ltb_decimal}
use crypto_market_platform.Decimal.Order.{negate_parts}
use crypto_market_platform.Decimal.Context.{
  digits_within, digits, precision, shift_right, scaled, fix, plus, minus,
}

-- Strictly above zero.
abbrev pub IsPositive : Decimal → Type 0
IsPositive d = 0 < pos_part d.coefficient

power_step : (k : ℕ) → 10 ^ suc k ≡ 10 ^ k * 10
power_step k = pow-suc 10 k

digits_within_bound : (fuel n : ℕ) → 0 < n → 10 ^ digits_within fuel n ≤ 10 * n
unfolding digits_within
digits_within_bound zero n some_n = omega arith
digits_within_bound (suc fuel) n some_n = elim (Bool-cases (ltb n 10)) [
  | inl small ↦ rw small (omega arith)
  | inr large ↦ rw large (
      let rest = digits_within_bound fuel (n / 10) (ground (arith, large)) in
      omega (arith, rest, power_step (digits_within fuel (n / 10))))
]

power_add : (a b : ℕ) → 10 ^ (a + b) ≡ 10 ^ a * 10 ^ b
power_add a zero = rw (add-zero a) (omega arith)
power_add a (suc b) = rw (add-suc a b) (
    power_step (a + b)
    ∙ ap (λ p. p * 10) (power_add a b)
    ∙ mul_assoc _ _ _
    ∙ ap (λ p. 10 ^ a * p) (sym (power_step b)))

-- The digits beyond the precision do not make up the whole number.
excess_fits : (n : ℕ) → 0 < n → 0 < digits n - precision → 10 ^ (digits n - precision) ≤ n
unfolding digits
excess_fits n some_n over =
    let d = digits n in
    let whole : d - 28 + 28 ≡ d = omega (arith, over) in
    let parts = sym (power_add (d - 28) 28) ∙ ap (λ k. 10 ^ k) whole in
    omega (arith, digits_within_bound n n some_n, parts)

shift_right_pos : (n k : ℕ) → 10 ^ k ≤ n → 0 < shift_right n k
unfolding shift_right
shift_right_pos n k fits =
    let whole =
      (le-div_iff_mul-le {x = 1} {y = n} (one-le-pow k 10 (omega arith))).1 (omega (arith, fits)) in
    ground (arith, whole)

times_parts :
    (a : ℤ) (k : ℕ)
    → (pos_part (a *ℤ pos k) ≡ pos_part a * k) × (neg_part (a *ℤ pos k) ≡ neg_part a * k)
unfolding ◌*ℤ◌
times_parts (pos n) k = ground arith
times_parts (negsuc n) k = ground arith

product_pos : (a b : ℕ) → 0 < a → 0 < b → 0 < a * b
product_pos zero b p q = absurd (omega (arith, p))
product_pos (suc a) b p q = omega (arith, q, suc-mul a b)

scaled-IsPositive : (n k s : ℕ) → 0 < n → IsPositive (scaled (pos n) k s)
scaled-IsPositive n k s p = elim (Bool-cases (leb k s)) [
  | inl small ↦ rw small p
  | inr large ↦
      rw (large, (times_parts (pos n) (10 ^ (k - s))).0)
        (product_pos n (10 ^ (k - s)) p (one-le-pow (k - s) 10 (omega arith)))
]

fix_unsigned : (n s : ℕ) → 0 < n → IsPositive (fix (record { coefficient = pos n; scale = s }))
unfolding fix
fix_unsigned n s p = elim (Bool-cases (digits n - precision == 0)) [
  | inl short ↦ rw short p
  | inr long ↦ rw long (
      scaled-IsPositive (shift_right n (digits n - precision)) (digits n - precision) s
        (shift_right_pos n (digits n - precision) (excess_fits n p (ground (arith, long)))))
]

fix_signed :
    (c : ℤ) (s : ℕ) → 0 < pos_part c → IsPositive (fix (record { coefficient = c; scale = s }))
fix_signed (pos n) s p = fix_unsigned n s p
fix_signed (negsuc n) s p = absurd (omega (arith, p))

-- 10 to the larger of two scales, from either of them.
aligned : (a b : ℕ) → (10 ^ b * 10 ^ (a - b)) ≡ (10 ^ a * 10 ^ (b - a))
aligned a b = sym (power_add b (a - b)) ∙ ap (λ k. 10 ^ k) (omega arith) ∙ power_add a (b - a)

over_one_power :
    (pa na pb nb A B x y : ℕ)
    → 0 < y
    → B * y ≡ A * x
    → pb * A + na * B < pa * B + nb * A
    → pb * y + na * x < pa * x + nb * y
over_one_power pa na pb nb A B x y p same h =
    lt_of_mul-lt-mul_right A
      (omega (arith, mul-lt-mul_of_pos_right h p, ap (λ k. na * k) same, ap (λ k. pa * k) same))

difference_pos :
    (a b : ℤ) (x y : ℕ)
    → pos_part b * y + neg_part a * x < pos_part a * x + neg_part b * y
    → 0 < pos_part (a *ℤ pos x +ℤ negate b *ℤ pos y)
difference_pos a b x y h =
    let parts = +ℤ_parts (a *ℤ pos x) (negate b *ℤ pos y) in
    let left = times_parts a x in
    let right = times_parts (negate b) y in
    let turned = negate_parts b in
    omega (
      arith,
      h,
      parts,
      left.0,
      left.1,
      right.0,
      right.1,
      ap (λ k. k * y) turned.0,
      ap (λ k. k * y) turned.1,
    )

-- The difference of two numbers, the smaller one subtracted, is strictly above zero, also when it
-- is rounded to the precision.
pub minus-IsPositive : (a b : Decimal) → ltb_decimal b a ≡ true → IsPositive (minus a b)
unfolding minus plus weigh negated
minus-IsPositive a b above =
    let x = 10 ^ (b.scale - a.scale) in
    let y = 10 ^ (a.scale - b.scale) in
    let strict =
      over_one_power (pos_part a.coefficient) (neg_part a.coefficient) (pos_part b.coefficient)
        (neg_part b.coefficient) (10 ^ a.scale) (10 ^ b.scale) x y
        (one-le-pow (a.scale - b.scale) 10 (omega arith)) (aligned a.scale b.scale)
        (ground (arith, above)) in
    fix_signed (a.coefficient *ℤ pos x +ℤ negate b.coefficient *ℤ pos y)
      (a.scale + (b.scale - a.scale)) (difference_pos a.coefficient b.coefficient x y strict)
