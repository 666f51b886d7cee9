-- ===== src/Book/Sides.antt =====
-- book.py, `Side`
use crypto_market_platform.Base.{String, str_eq, if◌then◌else◌}
use crypto_market_platform.Base.Result.{Result, ok, raise, value_error}

pub data Side : Type 0 where
  buy sell : Side

-- `Side(text)`
unfoldable pub side_of : String → Result Side
side_of text =
    if str_eq text "buy" then ok buy else if str_eq text "sell" then ok sell else raise value_error
