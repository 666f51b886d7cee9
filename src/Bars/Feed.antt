-- ===== src/Bars/Feed.antt =====
-- bars_pipeline.py and ws_client.py: the pipeline reads the trades that the consumer publishes.
use crypto_market_platform.Base.{
  ℕ, ◌-◌, ◌*◌, ◌%◌, ◌<◌, ◌≡◌, refl, String, Option, none, some, [], ◌∷◌,
}
use crypto_market_platform.Base.Dict.{get}
use crypto_market_platform.Base.Result.{ok}
use crypto_market_platform.SortedContainers.{SortedContainers}
use crypto_market_platform.Datetime.{day}
use crypto_market_platform.Datetime.Ordinal.{max_days}
use crypto_market_platform.Datetime.RoundTrip.{parse_time-iso}
use crypto_market_platform.Publisher.{Publisher, Payload, Field}
use crypto_market_platform.Handler.{trade_payload}
use crypto_market_platform.Handler.Messages.{Message, Scalar, int_of}
use crypto_market_platform.Bars.{Floats, TradeMessage, parse_trade}

-- What `json.loads` gives back of a value that `json.dumps` printed; a value of another shape than
-- a number or a text is not read by the pipeline.
abbrev scalar_of : Option Field → Option Scalar
scalar_of (some (Field.number n)) = some (Scalar.number n)
scalar_of (some (Field.text t)) = some (Scalar.text t)
scalar_of _ = none

abbrev text_of : Option Field → Option String
text_of (some (Field.text t)) = some t
text_of _ = none

abbrev pub decoded : Payload → TradeMessage
decoded payload = record {
  event_time = text_of (get "event_time" payload);
  product_id = text_of (get "product_id" payload);
  trade_id = scalar_of (get "trade_id" payload);
  price = scalar_of (get "price" payload);
  size = scalar_of (get "size" payload);
}

module _ (sc : SortedContainers) {P : Type 0} (publisher : Publisher P) (floats : Floats) where
  -- The pipeline decodes a trade that the consumer published, if its price and size are texts of
  -- floats: it keeps the product and the trade id, reads the price and the size, and stamps it with
  -- the time of the exchange, cut to whole milliseconds, if that is before the year 10000.
  pub parse_trade-trade_payload :
      (sequence : ℕ) (product_id : String) (trade_id : ℕ) (price size side : String) (msg : Message)
      (event_time received_at : ℕ) (p q : floats.F)
      → floats.float (Scalar.text price) ≡ ok p
      → floats.float (Scalar.text size) ≡ ok q
      → event_time < max_days * day
      → parse_trade floats (
          some (
            decoded (
              trade_payload sc publisher sequence product_id trade_id price size side msg event_time
                received_at)))
        ≡ ok (
            record {
              product_id = product_id;
              trade = record { trade_id = trade_id; price = p; size = q };
              timestamp = event_time - event_time % 1000;
            }
            ∷ [])
  unfolding parse_trade get int_of
  parse_trade-trade_payload sequence product_id trade_id price size side msg event_time received_at
        p q read_price read_size small =
      rw (parse_time-iso event_time small, read_price, read_size) refl
