-- ===== src/Consumer/Products.antt =====
-- ws_client.py: the products that the consumer subscribes to, and those that it keeps a book of.
use crypto_market_platform.Base.{◌≡◌, List}
use crypto_market_platform.SortedContainers.{SortedContainers}
use crypto_market_platform.Book.Books.{new_book_set}
use crypto_market_platform.Publisher.{Publisher}
use crypto_market_platform.Handler.Products.{
  Covers, handle-Covers, disconnect-Covers, has_book-new_book_set,
}
use crypto_market_platform.Consumer.{Config, Attempt, Consumer, disconnect, run}
use crypto_market_platform.Consumer.Keeps.{run_keeps}
use crypto_market_platform.Consumer.Subscribing.{subscribe_message}

module _ (sc : SortedContainers) {P : Type 0} (publisher : Publisher P) where
  lost-Covers :
      (config : Config) (s : Consumer sc publisher)
      → Covers sc publisher config.products s.handler
      → Covers sc publisher config.products (disconnect sc publisher s).handler
  unfolding disconnect
  lost-Covers config s = disconnect-Covers sc publisher config.products s.handler

  -- If it starts with the books of its products, then after any attempts, whatever comes on the
  -- sockets, malformed messages and disconnects included, the consumer has a book of exactly the
  -- products that it asks for when it subscribes: none of theirs is unknown, and no message adds
  -- one.
  pub run-Covers :
      (config : Config) (attempts : List Attempt) (s : Consumer sc publisher)
      → s.handler.books ≡ new_book_set sc config.products
      → Covers sc publisher
          (subscribe_message config.products).product_ids
          (run sc publisher config attempts s).1.handler
  unfolding subscribe_message
  run-Covers config attempts s fresh =
      run_keeps sc publisher (Covers sc publisher config.products)
        (handle-Covers sc publisher config.products) (lost-Covers config) config attempts s
        (λ p. rw fresh (has_book-new_book_set sc p config.products))
