-- ===== src/Consumer/Subscribing.antt =====
-- ws_client.py, `subscribe_message`: what the consumer sends first on a socket.
use crypto_market_platform.Base.{String, List}
use crypto_market_platform.Config.{channels}

-- The JSON object, with its keys: `type`, `product_ids` and `channels`.
pub record Subscription : Type 0 where
  pub kind : String
  pub product_ids : List String
  pub channels : List String

unfoldable pub subscribe_message : List String → Subscription
subscribe_message products = record {
  kind = "subscribe";
  product_ids = products;
  channels = channels;
}
