-- ===== src/Book/Measures.antt =====
-- book.py: the spread of a quote that is served.
use crypto_market_platform.Base.{◌≡◌, some}
use crypto_market_platform.Base.Result.{ok}
use crypto_market_platform.Decimal.Positive.{IsPositive, minus-IsPositive}
use crypto_market_platform.SortedContainers.{SortedContainers}
use crypto_market_platform.Book.{OrderBook, quote}
use crypto_market_platform.Book.Quotes.{Quote, spread}
use crypto_market_platform.Book.Top.{quote-Serves}

module _ (sc : SortedContainers) where
  -- The spread of a quote that a book serves is strictly above zero, also when the subtraction
  -- rounds it to 28 digits.
  pub quote-IsPositive :
      (b : OrderBook sc) (q : Quote) → quote sc b ≡ ok (some q) → IsPositive (spread q)
  unfolding spread
  quote-IsPositive b q served =
      minus-IsPositive q.ask_price q.bid_price (quote-Serves sc b q served).uncrossed
