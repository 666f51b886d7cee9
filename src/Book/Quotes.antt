-- ===== src/Book/Quotes.antt =====
-- book.py, `Quote`: the top of the book and its measures.
use crypto_market_platform.Base.Result.{Result, ok, ◌>>=◌}
use crypto_market_platform.Decimal.{Decimal, whole}
use crypto_market_platform.Decimal.Context.{plus, minus, times, over}

pub record Quote : Type 0 where
  pub bid_price : Decimal
  pub bid_size : Decimal
  pub ask_price : Decimal
  pub ask_size : Decimal

unfoldable pub spread : Quote → Decimal
unfolding minus
spread q = minus q.ask_price q.bid_price

unfoldable pub mid : Quote → Result Decimal
unfolding plus over
mid q = over (plus q.ask_price q.bid_price) (whole 2)

unfoldable pub spread_bps : Quote → Result Decimal
unfolding spread mid times over
spread_bps q = do m ← mid q; r ← over (spread q) m; ok (times r (whole 10000))
