-- ===== src/Decimal/Opposite.antt =====
-- `-a` of a `decimal.Decimal`, which the context rounds: the number rounded, with its sign turned.
use crypto_market_platform.Base.{
  ℕ, zero, suc, ◌-◌, ◌^◌, ◌≡◌, refl, sym, ap, ◌∙◌, if◌then◌else◌, arith, leb, ◌==◌, inl, inr,
  Bool-cases,
}
use crypto_market_platform.Base.Int.{ℤ, pos, negsuc, negate, ◌*ℤ◌}
use crypto_market_platform.Decimal.{Decimal, negated, ◌≼◌}
use crypto_market_platform.Decimal.Order.{weigh-negated}
use crypto_market_platform.Decimal.Context.{
  digits, precision, shift_right, magnitude, with_sign_of, scaled, fix, opposite,
}

negate-times : (c : ℤ) (n : ℕ) → negate c *ℤ pos n ≡ negate (c *ℤ pos n)
unfolding ◌*ℤ◌
negate-times (pos zero) n = ground arith
negate-times (pos (suc m)) n = ground arith
negate-times (negsuc m) n = ground arith

scaled-negate : (c : ℤ) (k s : ℕ) → scaled (negate c) k s ≡ negated (scaled c k s)
unfolding negated
scaled-negate c k s = elim (Bool-cases (leb k s)) [
  | inl within ↦ rw within refl
  | inr beyond ↦ rw (beyond, negate-times c (10 ^ (k - s))) refl
]

negate-negate : (c : ℤ) → negate (negate c) ≡ c
negate-negate (pos zero) = refl
negate-negate (pos (suc m)) = ground arith
negate-negate (negsuc m) = ground arith

negate-pos : (m : ℕ) → negate (pos (suc m)) ≡ negsuc m
negate-pos m = ground arith

negate-negsuc : (m : ℕ) → negate (negsuc m) ≡ pos (suc m)
negate-negsuc m = ground arith

abbrev with_scale : ℕ → ℤ → Decimal
with_scale s c = record { coefficient = c; scale = s }

-- What `fix` makes of a number with a sign, by its excess of digits and its rounded magnitude.
abbrev fixed : ℤ → ℕ → ℕ → ℕ → Decimal
fixed c s excess rounded =
    if excess == 0
    then record { coefficient = c; scale = s }
    else scaled (with_sign_of c rounded) excess s

fixed-pos :
    (m s excess rounded : ℕ)
    → fixed (negsuc m) s excess rounded ≡ negated (fixed (pos (suc m)) s excess rounded)
unfolding negated
fixed-pos m s excess rounded = elim (Bool-cases (excess == 0)) [
  | inl fits ↦ rw fits (ap (with_scale s) (sym (negate-pos m)))
  | inr long ↦ rw long (scaled-negate (pos rounded) excess s)
]

fixed-negsuc :
    (m s excess rounded : ℕ)
    → fixed (pos (suc m)) s excess rounded ≡ negated (fixed (negsuc m) s excess rounded)
unfolding negated
fixed-negsuc m s excess rounded = elim (Bool-cases (excess == 0)) [
  | inl fits ↦ rw fits (ap (with_scale s) (sym (negate-negsuc m)))
  | inr long ↦ rw long (
      ap (λ c. scaled c excess s) (sym (negate-negate (pos rounded)))
      ∙ scaled-negate (negate (pos rounded)) excess s)
]

fix_parts :
    (a : Decimal)
    → let excess = digits (magnitude a.coefficient) - precision in
      fix a ≡ fixed a.coefficient a.scale excess (shift_right (magnitude a.coefficient) excess)
unfolding fix
fix_parts a = refl

abbrev excess_of : ℕ → ℕ
excess_of n = digits n - precision

fix_zero : (s : ℕ) → fix (with_scale s (pos 0)) ≡ with_scale s (pos 0)
unfolding fix
fix_zero s = refl

by_sign :
    (c : ℤ) (s : ℕ)
    → fix (negated (record { coefficient = c; scale = s }))
      ≡ negated (fix (record { coefficient = c; scale = s }))
unfolding negated
by_sign (pos zero) s = fix_zero s ∙ ap negated (sym (fix_zero s))
by_sign (pos (suc m)) s =
    ap (λ c. fix (with_scale s c)) (negate-pos m)
    ∙ fix_parts _
    ∙ fixed-pos m s (excess_of (suc m)) (shift_right (suc m) (excess_of (suc m)))
    ∙ ap negated (sym (fix_parts (with_scale s (pos (suc m)))))
by_sign (negsuc m) s =
    ap (λ c. fix (with_scale s c)) (negate-negsuc m)
    ∙ fix_parts _
    ∙ fixed-negsuc m s (excess_of (suc m)) (shift_right (suc m) (excess_of (suc m)))
    ∙ ap negated (sym (fix_parts (with_scale s (negsuc m))))

pub opposite_lem : (a : Decimal) → opposite a ≡ negated (fix a)
unfolding opposite
opposite_lem a = by_sign a.coefficient a.scale

pub opposite-≼ : (a b : Decimal) → opposite a ≼ opposite b → fix b ≼ fix a
opposite-≼ a b below =
    let turned = rw (opposite_lem a, opposite_lem b) at below in
    omega (arith, turned, weigh-negated (fix a) (fix b), weigh-negated (fix b) (fix a))
