-- ===== src/Consumer/Types.antt =====
-- ws_client.py, `WebSocketConsumer.run`: what a recorder has of the loop is accepted by the schemas.
use crypto_market_platform.Base.{List}
use crypto_market_platform.SortedContainers.{SortedContainers}
use crypto_market_platform.Publisher.{recording}
use crypto_market_platform.Handler.{on_disconnect}
use crypto_market_platform.Handler.Types.{IsTyped, handle-IsTyped}
use crypto_market_platform.Consumer.{Config, Attempt, Consumer, disconnect, run}
use crypto_market_platform.Consumer.Keeps.{run_keeps}

module _ (sc : SortedContainers) where
  disconnect-IsTyped :
      (s : Consumer sc recording)
      → IsTyped sc s.handler
      → IsTyped sc (disconnect sc recording s).handler
  unfolding disconnect on_disconnect
  disconnect-IsTyped s i = i

  -- Whatever comes on the sockets of any attempts, malformed frames included, if a product id or a
  -- time that a message has is a text, as in the feed: every message that the loop publishes has
  -- exactly the fields of its topic's Avro schema, in order and of the schema's types, if those
  -- published before have. An int of any size counts as a long.
  pub run-IsTyped :
      (config : Config) (attempts : List Attempt) (s : Consumer sc recording)
      → IsTyped sc s.handler
      → IsTyped sc (run sc recording config attempts s).1.handler
  run-IsTyped = run_keeps sc recording (IsTyped sc) (handle-IsTyped sc) disconnect-IsTyped
