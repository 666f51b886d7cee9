-- ===== src/Bars.antt =====
-- streaming/bars_pipeline.py: the two steps of the pipeline that are the repository's own, decoding
-- a trade and building a bar. Pipeline puts them together. Python's floats are a parameter; the
-- texts of the times of a bar are kept unprinted.
pub mod Order
pub mod Prices
pub mod Feed
pub mod Columns
pub mod Beam
pub mod Pipeline
pub mod Stream
pub mod Backfilled
mod Samples
mod Tests
mod PipelineTests
use crypto_market_platform.Base.{
  ℕ, ◌+◌, String, Bool, true, false, Option, none, some, List, [], ◌∷◌, map, leb, if◌then◌else◌,
  length,
}
use crypto_market_platform.Base.Result.{Result, ok, ◌>>=◌}
use crypto_market_platform.Base.Sort.{sorted}
use crypto_market_platform.Datetime.{parse_time}
use crypto_market_platform.Handler.Messages.{Scalar, required, int_of}

-- Floats with the operations that the pipeline calls: `float`, `+`, `*`, `/`, `<`, `round(x, 9)`,
-- and whether a float counts as false.
pub record Floats : Type 1 where
  pub F : Type 0
  pub float : Scalar → Result F
  pub zero : F
  pub plus : F → F → F
  pub times : F → F → F
  pub over : F → F → F
  pub lt : F → F → Bool
  pub round9 : F → F
  pub is_zero : F → Bool

-- The JSON object of a message on the topic of trades, with the keys that are read.
pub record TradeMessage : Type 0 where
  pub event_time : Option String
  pub product_id : Option String
  pub trade_id : Option Scalar
  pub price : Option Scalar
  pub size : Option Scalar

-- What Beam tells of the window and of the pane, the times being microseconds.
pub record Pane : Type 0 where
  pub start : ℕ
  pub end : ℕ
  pub index : ℕ
  pub is_last : Bool

module _ (floats : Floats) where
  pub record Trade : Type 0 where
    pub trade_id : ℕ
    pub price : floats.F
    pub size : floats.F

  -- A trade under its product, with the time that it is stamped with.
  pub record Stamped : Type 0 where
    pub product_id : String
    pub trade : Trade
    pub timestamp : ℕ

  -- `ParseTrade.process`: a message that is not JSON gives nothing.
  unfoldable pub parse_trade : Option TradeMessage → Result (List Stamped)
  parse_trade none = ok []
  parse_trade (some m) = do
    raw_time ← required m.event_time
    event_time ← parse_time raw_time
    product_id ← required m.product_id
    raw_id ← required m.trade_id
    trade_id ← int_of raw_id
    raw_price ← required m.price
    price ← floats.float raw_price
    raw_size ← required m.size
    size ← floats.float raw_size
    ok (
        record {
          product_id = product_id;
          trade = record { trade_id = trade_id; price = price; size = size };
          timestamp = event_time;
        }
        ∷ [])

  pub record Bar : Type 0 where
    pub product_id : String
    pub bar_start : ℕ
    pub bar_end : ℕ
    pub open_price : floats.F
    pub high : floats.F
    pub low : floats.F
    pub close : floats.F
    pub volume : floats.F
    pub trade_count : ℕ
    pub vwap : Option floats.F
    pub first_trade_id : ℕ
    pub last_trade_id : ℕ
    pub pane_index : ℕ
    pub is_final_pane : Bool
    pub written_at : ℕ

  -- `key=lambda t: t["trade_id"]`
  abbrev pub by_id : Trade → Trade → Bool
  by_id t u = leb t.trade_id u.trade_id

  abbrev pub last_of : Trade → List Trade → Trade
  last_of t [] = t
  last_of t (u ∷ ts) = last_of u ts

  -- `max(prices)` and `min(prices)`
  unfoldable pub max_price : floats.F → List Trade → floats.F
  max_price m [] = m
  max_price m (t ∷ ts) = max_price (if floats.lt m t.price then t.price else m) ts

  unfoldable pub min_price : floats.F → List Trade → floats.F
  min_price m [] = m
  min_price m (t ∷ ts) = min_price (if floats.lt t.price m then t.price else m) ts

  -- `sum(...)` of a value of each trade
  unfoldable pub sum : (Trade → floats.F) → floats.F → List Trade → floats.F
  sum value total [] = total
  sum value total (t ∷ ts) = sum value (floats.plus total (value t)) ts

  -- The bar of the trades in their order.
  unfoldable pub bar_of : String → Pane → ℕ → Trade → List Trade → Bar
  unfolding max_price min_price sum
  bar_of product_id pane now t ts =
      let volume = sum (λ u. u.size) floats.zero (t ∷ ts) in
      let notional = sum (λ u. floats.times u.price u.size) floats.zero (t ∷ ts) in
      record {
        product_id = product_id;
        bar_start = pane.start;
        bar_end = pane.end;
        open_price = floats.round9 t.price;
        high = floats.round9 (max_price t.price ts);
        low = floats.round9 (min_price t.price ts);
        close = floats.round9 (last_of t ts).price;
        volume = floats.round9 volume;
        trade_count = length (t ∷ ts);
        vwap =
            if floats.is_zero volume
            then none
            else some (floats.round9 (floats.over notional volume));
        first_trade_id = t.trade_id;
        last_trade_id = (last_of t ts).trade_id;
        pane_index = pane.index;
        is_final_pane = pane.is_last;
        written_at = now;
      }

  abbrev pub bars_of : String → Pane → ℕ → List Trade → List Bar
  bars_of product_id pane now [] = []
  bars_of product_id pane now (t ∷ ts) = bar_of product_id pane now t ts ∷ []

  -- `BuildBar.process`, at the time `now`: no trades give no bar.
  unfoldable pub build_bar : String → List Trade → Pane → ℕ → List Bar
  unfolding bar_of sorted
  build_bar product_id [] pane now = []
  build_bar product_id (t ∷ ts) pane now = bars_of product_id pane now (sorted by_id (t ∷ ts))
