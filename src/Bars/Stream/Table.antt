-- ===== src/Bars/Stream/Table.antt =====
-- ws_client.py and bars_pipeline.py together: from the messages of the exchange to the table of
-- bars.
use mathlib.Core.List.Permᴰ
use mathlib.Core.List.{Permᴰ}
use mathlib.Core.Path.{subst}
use crypto_market_platform.Base.{
  ℕ, ◌+◌, ◌*◌, ◌%◌, ◌≤◌, ◌<◌, ◌≡◌, sym, String, Option, some, List, [], ◌∷◌, map, All, length,
}
use crypto_market_platform.Base.SortKey.{Keyed}
use crypto_market_platform.SortedContainers.{SortedContainers}
use crypto_market_platform.Datetime.{second}
use crypto_market_platform.Publisher.{Payload, recording, for_channel}
use crypto_market_platform.Handler.Session.{Event, run}
use crypto_market_platform.Bars.{Floats, Trade, TradeMessage, Stamped}
use crypto_market_platform.Bars.Beam.{Arrival, Windowing, Firing, Beam, in_window, watermark_after}
use crypto_market_platform.Bars.Feed.{decoded}
use crypto_market_platform.Bars.Pipeline
use crypto_market_platform.Bars.Pipeline.{Arguments, parse_all}
use crypto_market_platform.Bars.Pipeline.Settles.{minutes, IsBar, IsPunctual, run-Agrees}
use crypto_market_platform.Bars.Stream.{topic_of}
use crypto_market_platform.Bars.Stream.Decoding.{
  Recorder, trades_of, IsReadable, Decodes, run-Decodes,
}
use crypto_market_platform.Bars.Stream.Reordering.{
  elements, trades_in, in_window-elements, trades_in-Perm, Parses, Parses-Perm, elements-parse_all,
}

-- A message of the topic as the subscription delivers it.
abbrev pub message_of : Payload → Option TradeMessage
message_of p = some (decoded p)

module _ (sc : SortedContainers) (floats : Floats) (read : String → floats.F) where
  Decodes-Parses :
      (ps : List Payload) (ss : List (Stamped floats))
      → Decodes sc floats read ps ss
      → Parses floats (map message_of ps) ss
  Decodes-Parses [] [] d = tt
  Decodes-Parses (p ∷ ps) (s ∷ ss) d = (d.0, Decodes-Parses ps ss d.1)
  Decodes-Parses [] (s ∷ ss) d = elim d [ ]
  Decodes-Parses (p ∷ ps) [] d = elim d [ ]

  -- The trades of a minute as the pipeline finds them, against those of the session.
  in_window-trades_of :
      (w : Windowing) (key : String) (start : ℕ) (events : List Event) (h : Recorder sc)
      (arrivals : List (Arrival (Option TradeMessage)))
      → h.publisher_state.messages ≡ []
      → All (IsReadable sc floats read) events
      → Permᴰ (elements arrivals) (map message_of (topic_of sc (run sc recording events h)))
      → Permᴰ
          (trades_in floats w key start (trades_of sc floats read events))
          (in_window floats w key start (parse_all floats arrivals).1)
  unfolding for_channel
  in_window-trades_of w key start events h arrivals none_yet readable delivery =
      let ps = topic_of sc (run sc recording events h) in
      let d =
        run-Decodes sc floats read events h [] readable
          (subst (λ ms. Decodes sc floats read (for_channel "trades" ms) []) (sym none_yet) tt) in
      let found =
        Parses-Perm floats (Permᴰ.symm delivery) (trades_of sc floats read events)
          (Decodes-Parses ps (trades_of sc floats read events) d) in
      rw
        (
          in_window-elements floats w key start (parse_all floats arrivals).1,
          elements-parse_all floats arrivals found.trades found.parses,
        )
        (trades_in-Perm floats w key start found.same)

  -- From the exchange to the table of bars: a new handler goes through any messages and disconnects,
  -- and the subscription delivers what it published on the topic of trades, each once, in any
  -- order. If each trade of a product and minute is delivered before the watermark is past that
  -- minute by the allowed lateness, Beam groups as it documents, and any two trades of the minute
  -- with one id are the same, then once the watermark is past the minute its last row, which has the
  -- greatest pane index, is the bar of the trades that the exchange's messages have of it, if there
  -- are any. A minute is 60 seconds, and the allowed lateness is the argument of that name. The prices and sizes have to be texts of floats, and the times before the year 10000.
  pub session-IsBar :
      (events : List Event) (h : Recorder sc) (beam : Beam floats)
      (subscribed : String → List (Arrival (Option TradeMessage))) (clock : Firing floats → ℕ)
      (known : Arguments) (product_id : String) (start : ℕ)
      → h.publisher_state.messages ≡ []
      → All (IsReadable sc floats read) events
      → Permᴰ
          (elements (subscribed known.subscription))
          (map message_of (topic_of sc (run sc recording events h)))
      → start % (60 * second) ≡ 0
      → start + 60 * second ≤ watermark_after 0 (parse_all floats (subscribed known.subscription)).1
      → IsPunctual floats
          (minutes known.allowed_lateness_seconds)
          product_id
          start
          0
          (parse_all floats (subscribed known.subscription)).1
      → Keyed
          (λ (t : Trade floats). t.trade_id)
          (trades_in floats
            (minutes known.allowed_lateness_seconds)
            product_id
            start
            (trades_of sc floats read events))
      → 0
        < length (
            trades_in floats
              (minutes known.allowed_lateness_seconds)
              product_id
              start
              (trades_of sc floats read events))
      → IsBar floats product_id start
          (trades_in floats
            (minutes known.allowed_lateness_seconds)
            product_id
            start
            (trades_of sc floats read events))
          (Pipeline.run floats beam subscribed clock known).1.rows
  session-IsBar events h beam subscribed clock known product_id start none_yet readable delivery
        aligned past punctual keyed some_trade =
      run-Agrees floats beam subscribed clock known product_id start
        (trades_in floats (minutes known.allowed_lateness_seconds) product_id start
          (trades_of sc floats read events))
        (in_window-trades_of (minutes known.allowed_lateness_seconds) product_id start events h
          (subscribed known.subscription) none_yet readable delivery)
        aligned past punctual keyed some_trade
