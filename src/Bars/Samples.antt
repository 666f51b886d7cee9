-- ===== src/Bars/Samples.antt =====
-- Whole numbers in the place of floats, and trades, for the tests of the bars.
use crypto_market_platform.Base.{ℕ, ◌+◌, ◌*◌, ◌/◌, true, none, some, ltb, ◌==◌}
use crypto_market_platform.Handler.Messages.{Message, number, text, int_of}
use crypto_market_platform.Bars.{Floats, Trade, Stamped, Pane}

abbrev pub whole : Floats
whole = record {
  F = ℕ;
  float = int_of;
  zero = 0;
  plus = λ a b. a + b;
  times = λ a b. a * b;
  over = λ a b. a / b;
  lt = ltb;
  round9 = λ a. a;
  is_zero = λ a. a == 0;
}

abbrev pub trade : ℕ → ℕ → ℕ → Trade whole
trade n p s = record { trade_id = n; price = p; size = s }

abbrev pub pane : Pane
pane = record { start = 0; end = 60; index = 0; is_last = true }

abbrev pub match : Message
match = record {
  kind = some "match";
  product_id = some "BTC-USD";
  time = some "2026-01-02T03:04:05.123456Z";
  sequence = some (number 1);
  trade_id = some (number 7);
  last_trade_id = none;
  price = some (text "100");
  size = some (text "2");
  side = some (text "buy");
  maker_order_id = none;
  taker_order_id = none;
  bids = none;
  asks = none;
  changes = none;
}

abbrev pub stamped : ℕ → ℕ → ℕ → ℕ → Stamped whole
stamped n p s timestamp = record {
  product_id = "BTC-USD";
  trade = trade n p s;
  timestamp = timestamp;
}
