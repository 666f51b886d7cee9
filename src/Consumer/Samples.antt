-- ===== src/Consumer/Samples.antt =====
-- A consumer of BTC-USD, a refused attempt, a lost connection, and a trade, for the tests.
use crypto_market_platform.Base.{false, some, none, [], ◌∷◌}
use crypto_market_platform.Base.Result.{ok, raise, connection_error}
use crypto_market_platform.SortedContainers.Reference.{reference}
use crypto_market_platform.Metrics.{new_reporter}
use crypto_market_platform.Publisher.{recording, new_recording}
use crypto_market_platform.Handler.{new_handler}
use crypto_market_platform.Consumer.{Config, Attempt, Consumer, frame}
use crypto_market_platform.Handler.Messages.{Message, number, text}

abbrev pub config : Config
config = record { products = "BTC-USD" ∷ []; backoff_initial = 1000; backoff_max = 60000 }

abbrev pub refused : Attempt
refused = record {
  opened = λ subscription. raise connection_error;
  incoming = [];
  stalled = false;
  signalled = false;
  signalled_asleep = false;
  random = 250;
}

abbrev pub lost : Attempt
lost = record {
  opened = λ subscription. ok tt;
  incoming = frame none 0 ∷ [];
  stalled = false;
  signalled = false;
  signalled_asleep = false;
  random = 999;
}

abbrev pub start : Consumer reference recording
start = record {
  handler = new_handler reference recording ("BTC-USD" ∷ []) new_recording (new_reporter "" false);
  stopping = false;
  backoff = 1000;
}

abbrev pub match : Message
match = record {
  kind = some "match";
  product_id = some "BTC-USD";
  time = some "2026-01-02T03:04:05Z";
  sequence = some (number 1);
  trade_id = some (number 7);
  last_trade_id = none;
  price = some (text "100");
  size = some (text "1");
  side = some (text "buy");
  maker_order_id = none;
  taker_order_id = none;
  bids = none;
  asks = none;
  changes = none;
}
