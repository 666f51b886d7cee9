-- ===== src/Decimal/Tests.antt =====
-- Runs of the decimal functions, against Python's answers.
use crypto_market_platform.Base.{◌≡◌, refl, ◌^◌}
use crypto_market_platform.Base.Int.{pos, negsuc}
use crypto_market_platform.Base.Result.{ok, raise, decimal_error}
use crypto_market_platform.Decimal.{whole}
use crypto_market_platform.Decimal.Text.{decimal}
use crypto_market_platform.Decimal.Context.{over, plus}

decimal_price : decimal "101.50" ≡ ok (record { coefficient = pos 10150; scale = 2 })
unfolding decimal
decimal_price = refl

decimal_exponent : decimal "-1.5e-3" ≡ ok (record { coefficient = negsuc 14; scale = 4 })
unfolding decimal
decimal_exponent = refl

decimal_malformed : decimal "12x" ≡ raise decimal_error
unfolding decimal
decimal_malformed = refl

one_third :
    over (whole 1) (whole 3)
    ≡ ok (record { coefficient = pos 3333333333333333333333333333; scale = 28 })
unfolding over
one_third = refl

two_thirds :
    over (whole 2) (whole 3)
    ≡ ok (record { coefficient = pos 6666666666666666666666666667; scale = 28 })
unfolding over
two_thirds = refl

-- 10 ^ 28 + 0.5 has 30 digits: the tie goes to the even neighbour.
rounded_sum :
    plus (whole (10 ^ 28)) (record { coefficient = pos 5; scale = 0 })
    ≡ record { coefficient = pos (10 ^ 28); scale = 0 }
unfolding plus
rounded_sum = refl
