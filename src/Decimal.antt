-- ===== src/Decimal.antt =====
-- Python's `decimal.Decimal`, as far as the code uses it: finite numbers with their exact value,
-- comparisons (exact), and arithmetic in the default context (28 digits, ties to even).
-- The infinities, NaN and the limits on exponents are left out: the feed sends plain numerals.
pub mod Order
pub mod Context
pub mod Opposite
pub mod Positive
pub mod Text
mod Tests
use crypto_market_platform.Base.{ℕ, ◌+◌, ◌*◌, ◌^◌, ◌≤◌, Bool, leb, ltb, ◌==◌}
use crypto_market_platform.Base.Int.{ℤ, pos, negsuc, pos_part, neg_part, negate}

-- The number `coefficient / 10 ^ scale`.
pub record Decimal : Type 0 where
  pub coefficient : ℤ
  pub scale : ℕ

-- `a ≤ b` is `weigh a b ≤ weigh b a`: both sides over one denominator, with the negative parts
-- moved across.
unfoldable pub weigh : Decimal → Decimal → ℕ
weigh a b = pos_part a.coefficient * 10 ^ b.scale + neg_part b.coefficient * 10 ^ a.scale

infix 50 ◌≼◌
abbrev pub ◌≼◌ : Decimal → Decimal → Type 0
a ≼ b = weigh a b ≤ weigh b a

-- `a <= b`, `a < b`, `a == b`
abbrev pub leb_decimal : Decimal → Decimal → Bool
leb_decimal a b = leb (weigh a b) (weigh b a)

abbrev pub ltb_decimal : Decimal → Decimal → Bool
ltb_decimal a b = ltb (weigh a b) (weigh b a)

abbrev pub eqb_decimal : Decimal → Decimal → Bool
eqb_decimal a b = weigh a b == weigh b a

-- `Decimal(n)`
abbrev pub whole : ℕ → Decimal
whole n = record { coefficient = pos n; scale = 0 }

abbrev pub zero_decimal : Decimal
zero_decimal = whole 0

-- `-a`
unfoldable pub negated : Decimal → Decimal
negated a = record a { coefficient = negate a.coefficient }
