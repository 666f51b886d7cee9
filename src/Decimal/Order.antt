-- ===== src/Decimal/Order.antt =====
-- Decimal comparison is a total order on values; equality of values is not that of spellings.
use native.Mathlib.Nat.{one-le-pow, le_of_mul-le-mul_left, mul-le-mul_left}
use crypto_market_platform.Base.{ℕ, ◌+◌, ◌*◌, ◌^◌, ◌≤◌, ◌<◌, ◌≡◌, true, arith}
use crypto_market_platform.Base.Int.{ℤ, negate, pos_part, neg_part}
use crypto_market_platform.Decimal.{Decimal, weigh, ◌≼◌, eqb_decimal, negated}

power_pos : (n : ℕ) → 0 < 10 ^ n
power_pos n = one-le-pow n 10 (omega arith)

cross :
    (pa na pb nb pc nc A B C : ℕ)
    → 0 < B
    → pa * B + nb * A ≤ pb * A + na * B
    → pb * C + nc * B ≤ pc * B + nb * C
    → pa * C + nc * A ≤ pc * A + na * C
cross pa na pb nb pc nc A B C p h k =
    le_of_mul-le-mul_left {k = B} (omega (arith, mul-le-mul_left C h, mul-le-mul_left A k)) p

pub ≼_trans : (a b c : Decimal) → a ≼ b → b ≼ c → a ≼ c
unfolding weigh
≼_trans a b c h k =
    cross (pos_part a.coefficient) (neg_part a.coefficient) (pos_part b.coefficient)
      (neg_part b.coefficient) (pos_part c.coefficient) (neg_part c.coefficient) (10 ^ a.scale)
      (10 ^ b.scale) (10 ^ c.scale) (power_pos b.scale) h k

pub negate_parts : (a : ℤ) → (pos_part (negate a) ≡ neg_part a) × (neg_part (negate a) ≡ pos_part a)
negate_parts a = ground arith

pub weigh-negated : (a b : Decimal) → weigh (negated a) (negated b) ≡ weigh b a
unfolding weigh negated
weigh-negated a b =
    let (pa, na) = negate_parts a.coefficient in
    let (pb, nb) = negate_parts b.coefficient in rw (pa, nb) (omega arith)

-- Decimals of one value compare alike.
pub eqb_decimal-left :
    (a b c : Decimal) → eqb_decimal a b ≡ true → eqb_decimal a c ≡ eqb_decimal b c
eqb_decimal-left a b c e =
    ground (arith, ≼_trans a b c, ≼_trans b a c, ≼_trans c b a, ≼_trans c a b)
