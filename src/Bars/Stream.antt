-- ===== src/Bars/Stream.antt =====
-- ws_client.py and bars_pipeline.py together: what the pipeline decodes of the trades that the
-- consumer publishes over a session. Here the payloads, in
-- Stream/Decoding what the pipeline makes of them.
pub mod Decoding
pub mod Reordering
pub mod Table
use mathlib.Core.Path.{subst}
use crypto_market_platform.Base.{
  ℕ, ◌+◌, ◌-◌, ◌*◌, ◌%◌, ◌<◌, ◌≡◌, refl, sym, ap, ◌∙◌, String, Bool, true, false, Option, none,
  some, List, [], ◌∷◌, ◌++◌, map, All, arith, str_eq, ◌||◌, if◌then◌else◌, eq_iff, append_assoc,
  append_nil,
}
use crypto_market_platform.Base.Result.{Result, ok, raise, ◌>>=◌}
use crypto_market_platform.SortedContainers.{SortedContainers}
use crypto_market_platform.Datetime.{day, parse_time}
use crypto_market_platform.Datetime.Ordinal.{max_days}
use crypto_market_platform.Publisher.{Published, Payload, recording, for_channel}
use crypto_market_platform.Handler.{
  MessageHandler, trade_payload, handle_match, handle_snapshot, handle_l2update, handle_heartbeat,
  handle, dispatch, on_disconnect, publish_trade, track_continuity,
}
use crypto_market_platform.Handler.Messages.{Message, Scalar, required, int_of, str_of}
use crypto_market_platform.Handler.Session.{Event, message, disconnected, run, step}
use crypto_market_platform.Metrics.{record_message, record_lag}
use crypto_market_platform.Bars.{Floats, TradeMessage, Stamped, parse_trade}
use crypto_market_platform.Bars.Feed.{decoded, parse_trade-trade_payload}
use crypto_market_platform.Bars.Beam.{Arrival, element}
use crypto_market_platform.Bars.Pipeline.{parse_all}

-- The fields of a message that are the trade's, each as the consumer reads it.
pub record Fields : Type 0 where
  pub product_id : String
  pub trade_id : ℕ
  pub event_time : ℕ
  pub sequence : ℕ
  pub price : String
  pub size : String
  pub side : String

abbrev pub fields_of : Message → Result Fields
fields_of msg = do
  product_id ← required msg.product_id
  raw_id ← required msg.trade_id
  trade_id ← int_of raw_id
  raw_time ← required msg.time
  event_time ← parse_time raw_time
  raw_sequence ← required msg.sequence
  sequence ← int_of raw_sequence
  price ← required msg.price
  size ← required msg.size
  side ← required msg.side
  ok (record {
    product_id = product_id;
    trade_id = trade_id;
    event_time = event_time;
    sequence = sequence;
    price = str_of price;
    size = str_of size;
    side = str_of side;
  })

abbrev pub is_trade : Option String → Bool
is_trade none = false
is_trade (some kind) = str_eq kind "match" || str_eq kind "last_match"

module _ (sc : SortedContainers) where
  abbrev Recorder : Type 0
  Recorder = MessageHandler sc recording

  -- The payloads on the topic of trades.
  abbrev pub topic_of : Recorder → List Payload
  topic_of h = for_channel "trades" h.publisher_state.messages

  abbrev pub sent : Message → ℕ → Result Fields → List Payload
  sent msg t (raise e) = []
  sent msg t (ok f) =
      trade_payload sc recording f.sequence f.product_id f.trade_id f.price f.size f.side msg
        f.event_time t
      ∷ []

  for_channel-append :
      (channel : String) (ms : List Published) (m : Published)
      → for_channel channel (ms ++ m ∷ [])
        ≡ for_channel channel ms ++ (if str_eq m.0 channel then m.1 ∷ [] else [])
  unfolding for_channel
  for_channel-append channel [] m = ground arith
  for_channel-append channel (n ∷ ms) m = ground (arith, for_channel-append channel ms m)

  topic_of-match :
      (msg : Message) (t : ℕ) (h : Recorder)
      → topic_of (handle_match sc recording msg t h).1 ≡ topic_of h ++ sent msg t (fields_of msg)
  unfolding handle_match
  topic_of-match msg t h = grind (arith, for_channel-append, append_nil)

  topic_of-snapshot :
      (msg : Message) (t : ℕ) (h : Recorder)
      → topic_of (handle_snapshot sc recording msg t h).1 ≡ topic_of h
  unfolding handle_snapshot
  topic_of-snapshot msg t h = grind (arith, for_channel-append, append_nil)

  topic_of-l2update :
      (msg : Message) (t : ℕ) (h : Recorder)
      → topic_of (handle_l2update sc recording msg t h).1 ≡ topic_of h
  unfolding handle_l2update
  topic_of-l2update msg t h = grind (arith, for_channel-append, append_nil)

  topic_of-heartbeat :
      (msg : Message) (t : ℕ) (h : Recorder)
      → topic_of (handle_heartbeat sc recording msg t h).1 ≡ topic_of h
  unfolding handle_heartbeat
  topic_of-heartbeat msg t h = grind (arith, for_channel-append, append_nil)

  pub topic_of-dispatch :
      (kind : Option String) (msg : Message) (t : ℕ) (h : Recorder)
      → topic_of (dispatch sc recording kind msg t h).1
        ≡ topic_of h ++ (if is_trade kind then sent msg t (fields_of msg) else [])
  topic_of-dispatch none msg t h = sym (append_nil (topic_of h))
  topic_of-dispatch (some kind) msg t h = ground (
    arith,
    topic_of-match msg t h,
    topic_of-snapshot msg t h,
    topic_of-l2update msg t h,
    topic_of-heartbeat msg t h,
    append_nil (topic_of h),
  )
