-- ===== src/Bars/Tests.antt =====
-- Bars on whole numbers, which stand for floats.
use crypto_market_platform.Base.{◌≡◌, refl, true, none, some, List, [], ◌∷◌, arith}
use crypto_market_platform.Base.Result.{ok}
use crypto_market_platform.Bars.{Trade, parse_trade, build_bar}
use crypto_market_platform.Bars.Prices.{Comparable, Summarised, build_bar-Summarised}
use crypto_market_platform.Decimal.Text.{int_of_text}
use crypto_market_platform.Datetime.{parse_time}
use crypto_market_platform.SortedContainers.Reference.{reference}
use crypto_market_platform.Publisher.{recording}
use crypto_market_platform.Handler.{trade_payload}
use crypto_market_platform.Handler.Messages.{int_of, str_of}
use crypto_market_platform.Backfill.Payload.{to_topic_payload}
use crypto_market_platform.Backfill.Times.{has_no_plus}
use crypto_market_platform.Bars.Stream.{Fields, fields_of}
use crypto_market_platform.Bars.Backfilled.{Twins, reread, rest_of, backfilled-Twins}
use crypto_market_platform.Bars.Samples.{whole, trade, pane, match}

abbrev arrived : List (Trade whole)
arrived = trade 9 105 1 ∷ trade 7 100 2 ∷ trade 8 98 2 ∷ []

the_bar :
    build_bar whole "BTC-USD" arrived pane 61
    ≡ record {
      product_id = "BTC-USD";
      bar_start = 0;
      bar_end = 60;
      open_price = 100;
      high = 105;
      low = 98;
      close = 105;
      volume = 5;
      trade_count = 3;
      vwap = some 100;
      first_trade_id = 7;
      last_trade_id = 9;
      pane_index = 0;
      is_final_pane = true;
      written_at = 61;
    }
      ∷ []
unfolding build_bar
the_bar = refl

undecodable : parse_trade whole none ≡ ok []
unfolding parse_trade
undecodable = refl

whole-Comparable : Comparable whole
whole-Comparable = record {
  least = λ a. ground arith;
  steps = λ a b c h k. ground (arith, h, k);
  one_way = λ a b h. ground (arith, h);
  rounds = λ a b h. h;
}

build_bar-Summarised_example : Summarised whole (build_bar whole "BTC-USD" arrived pane 61) arrived
build_bar-Summarised_example = build_bar-Summarised whole whole-Comparable "BTC-USD" arrived pane 61

-- The trade 7 as the consumer reads it.
abbrev read_fields : Fields
read_fields = record {
  product_id = "BTC-USD";
  trade_id = 7;
  event_time = 63902919845123456;
  sequence = 1;
  price = "100";
  size = "2";
  side = "buy";
}

all_read : fields_of match ≡ ok read_fields
unfolding parse_time int_of int_of_text str_of
all_read = refl

backfilled-Twins_example :
    Twins whole
      (reread whole (
        ok (
          trade_payload reference recording 1 "BTC-USD" 7 "100" "2" "buy" match 63902919845123456
            63902919845223456)))
      (reread whole (to_topic_payload (rest_of match) "BTC-USD" 63902920000000000))
unfolding has_no_plus int_of int_of_text
backfilled-Twins_example =
    backfilled-Twins whole reference recording match read_fields 63902919845223456 63902920000000000
      100 2 all_read (refl, refl) refl refl (omega arith)
