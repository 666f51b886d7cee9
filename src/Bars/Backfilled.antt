-- ===== src/Bars/Backfilled.antt =====
-- scripts/backfill_trades.py and bars_pipeline.py: the pipeline reads a backfilled trade as it reads
-- the same trade of the live feed.
use crypto_market_platform.Base.{
  ℕ, ◌-◌, ◌*◌, ◌%◌, ◌<◌, ◌≡◌, refl, String, true, Option, none, some, List, [], ◌∷◌, arith,
}
use crypto_market_platform.Base.Dict.{get}
use crypto_market_platform.Base.Result.{Result, ok, ◌>>=◌}
use crypto_market_platform.SortedContainers.{SortedContainers}
use crypto_market_platform.Datetime.{day, minute, iso, parse_time}
use crypto_market_platform.Datetime.Ordinal.{max_days}
use crypto_market_platform.Publisher.{Publisher, Payload, Field}
use crypto_market_platform.Handler.{trade_payload}
use crypto_market_platform.Handler.Messages.{Message, Scalar, int_of}
use crypto_market_platform.Backfill.{RestTrade}
use crypto_market_platform.Backfill.Payload.{to_topic_payload, ends_with_z}
use crypto_market_platform.Backfill.Times.{has_no_plus, replace_offset_lem}
use crypto_market_platform.Bars.{Floats, Stamped, parse_trade}
use crypto_market_platform.Bars.Feed.{decoded, parse_trade-trade_payload}
use crypto_market_platform.Bars.Stream.{Fields, fields_of}

-- A trade of the feed as the REST API has it: the same values under the same names.
abbrev pub rest_of : Message → RestTrade
rest_of msg = record {
  trade_id = msg.trade_id;
  time = msg.time;
  price = msg.price;
  size = msg.size;
  side = msg.side;
}

-- The time is in UTC, written with a Z and without an offset, as the exchange writes it.
abbrev pub IsUtc : Option String → Type 0
IsUtc none = Unit
IsUtc (some value) = (has_no_plus value ≡ true) × (ends_with_z value ≡ true)

-- The row of a backfilled trade.
abbrev backfilled_row : Fields → String → ℕ → Payload
backfilled_row f value now =
    ("sequence", Field.number 0)
    ∷ ("product_id", Field.text f.product_id)
    ∷ ("trade_id", Field.number f.trade_id)
    ∷ ("price", Field.text f.price)
    ∷ ("size", Field.text f.size)
    ∷ ("side", Field.text f.side)
    ∷ ("maker_order_id", Field.text "")
    ∷ ("taker_order_id", Field.text "")
    ∷ ("event_time", Field.text value)
    ∷ ("ingest_time", Field.text (iso now))
    ∷ []

to_topic_payload-rest_of :
    (msg : Message) (f : Fields) (now : ℕ) (time : Option String)
    → fields_of (record msg { time = time }) ≡ ok f
    → IsUtc time
    → (value : String) × (parse_time value ≡ ok f.event_time)
      × (to_topic_payload (rest_of (record msg { time = time })) f.product_id now
          ≡ ok (backfilled_row f value now))
unfolding to_topic_payload
to_topic_payload-rest_of msg f now none complete utc = absurd (ground (arith, complete))
to_topic_payload-rest_of msg f now (some value) complete (plain, zulu) = (
  value,
  ground (arith, complete),
  ground (arith, complete, replace_offset_lem value plain, zulu),
)

module _ (floats : Floats) where
  -- What the pipeline reads of a row that the making of it did not raise.
  abbrev pub reread : Result Payload → Result (List (Stamped floats))
  reread made = do payload ← made; parse_trade floats (some (decoded payload))

  -- Both are read as one trade of the same product, with the same id, price and size, in the same
  -- window of a minute.
  abbrev pub Twins : Result (List (Stamped floats)) → Result (List (Stamped floats)) → Type 0
  Twins (ok (s ∷ [])) (ok (r ∷ [])) =
      (r.product_id ≡ s.product_id)
      × (r.trade ≡ s.trade)
      × (r.timestamp - r.timestamp % minute ≡ s.timestamp - s.timestamp % minute)
  Twins live backfilled = ⊥

  reread-backfilled_row :
      (f : Fields) (value : String) (now : ℕ) (p q : floats.F)
      → parse_time value ≡ ok f.event_time
      → floats.float (Scalar.text f.price) ≡ ok p
      → floats.float (Scalar.text f.size) ≡ ok q
      → parse_trade floats (some (decoded (backfilled_row f value now)))
        ≡ ok (
            record {
              product_id = f.product_id;
              trade = record { trade_id = f.trade_id; price = p; size = q };
              timestamp = f.event_time;
            }
            ∷ [])
  unfolding parse_trade get int_of
  reread-backfilled_row f value now p q read_time read_price read_size =
      rw (read_time, read_price, read_size) refl

  module _ (sc : SortedContainers) {P : Type 0} (publisher : Publisher P) where
    -- A trade counts the same in the bars, whether it came by the feed or by the backfill: from the
    -- row that the consumer publishes and from the row that the backfill makes of the same trade
    -- the pipeline decodes the product, the id, the price and the size of the feed's message, and
    -- puts both in the window of the same minute, though only the feed's time is cut to
    -- milliseconds. The message has to have all its fields, its price and size to be texts of
    -- floats, and its time to be before the year 10000 and written in UTC with a Z.
    pub backfilled-Twins :
        (msg : Message) (f : Fields) (received_at now : ℕ) (p q : floats.F)
        → fields_of msg ≡ ok f
        → IsUtc msg.time
        → floats.float (Scalar.text f.price) ≡ ok p
        → floats.float (Scalar.text f.size) ≡ ok q
        → f.event_time < max_days * day
        → Twins
            (reread (
              ok (
                trade_payload sc publisher f.sequence f.product_id f.trade_id f.price f.size f.side
                  msg f.event_time received_at)))
            (reread (to_topic_payload (rest_of msg) f.product_id now))
    backfilled-Twins msg f received_at now p q complete utc read_price read_size small =
        let (value, read_time, made) = to_topic_payload-rest_of msg f now msg.time complete utc in
        rw
          (
            parse_trade-trade_payload sc publisher floats f.sequence f.product_id f.trade_id f.price
                f.size f.side msg f.event_time received_at p q read_price read_size small,
            made,
            reread-backfilled_row f value now p q read_time read_price read_size,
          )
          (refl, refl, omega arith)
