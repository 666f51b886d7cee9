-- ===== src/Bars/Stream/Decoding.antt =====
-- ws_client.py and bars_pipeline.py together: the pipeline decodes the trades of a session.
use mathlib.Core.Path.{subst}
use crypto_market_platform.Base.{
  ℕ, ◌-◌, ◌*◌, ◌%◌, ◌<◌, ◌≡◌, refl, sym, String, Bool, true, false, Option, some, List, [], ◌∷◌,
  ◌++◌, map, All, if◌then◌else◌, append_assoc, append_nil,
}
use crypto_market_platform.Base.Result.{Result, ok, raise}
use crypto_market_platform.SortedContainers.{SortedContainers}
use crypto_market_platform.Datetime.{day}
use crypto_market_platform.Datetime.Ordinal.{max_days}
use crypto_market_platform.Publisher.{Payload, recording, for_channel}
use crypto_market_platform.Handler.{MessageHandler, handle, on_disconnect}
use crypto_market_platform.Handler.Messages.{Message, Scalar}
use crypto_market_platform.Handler.Session.{Event, message, disconnected, run, step}
use crypto_market_platform.Bars.{Floats, TradeMessage, Stamped, parse_trade}
use crypto_market_platform.Bars.Feed.{decoded, parse_trade-trade_payload}
use crypto_market_platform.Bars.Beam.{Arrival, element}
use crypto_market_platform.Bars.Pipeline.{parse_all}
use crypto_market_platform.Bars.Stream.{
  Fields, fields_of, topic_of, sent, is_trade, topic_of-dispatch,
}

-- A message of the topic as the pipeline gets it.
abbrev pub delivered : Payload → Arrival (Option TradeMessage)
delivered p = element (some (decoded p))

module _ (sc : SortedContainers) where
  abbrev pub Recorder : Type 0
  Recorder = MessageHandler sc recording

  module _ (floats : Floats) (read : String → floats.F) where
    -- The trade of a message: the time of the exchange is cut to whole milliseconds.
    abbrev pub stamp : Fields → Stamped floats
    stamp f = record {
      product_id = f.product_id;
      trade = record { trade_id = f.trade_id; price = read f.price; size = read f.size };
      timestamp = f.event_time - f.event_time % 1000;
    }

    abbrev stamps : Result Fields → List (Stamped floats)
    stamps (ok f) = stamp f ∷ []
    stamps (raise e) = []

    -- The trades of a session: those of the messages of trades with all their fields.
    unfoldable pub trades_of : List Event → List (Stamped floats)
    trades_of [] = []
    trades_of (message msg t ∷ events) =
        (if is_trade msg.kind then stamps (fields_of msg) else []) ++ trades_of events
    trades_of (disconnected ∷ events) = trades_of events

    abbrev Reads : Result Fields → Type 0
    Reads (raise e) = Unit
    Reads (ok f) =
        (floats.float (Scalar.text f.price) ≡ ok (read f.price))
        × (floats.float (Scalar.text f.size) ≡ ok (read f.size))
        × (f.event_time < max_days * day)

    -- The prices and sizes of the trades are texts of floats, and their times before the year
    -- 10000.
    abbrev pub IsReadable : Event → Type 0
    IsReadable (message msg t) = Reads (fields_of msg)
    IsReadable disconnected = Unit

    -- Each payload is decoded as the trade at its place.
    abbrev pub Decodes : List Payload → List (Stamped floats) → Type 0
    Decodes [] [] = Unit
    Decodes (p ∷ ps) (s ∷ ss) =
        (parse_trade floats (some (decoded p)) ≡ ok (s ∷ [])) × Decodes ps ss
    Decodes ps ss = ⊥

    Decodes-append :
        (ps qs : List Payload) (ss ts : List (Stamped floats))
        → Decodes ps ss
        → Decodes qs ts
        → Decodes (ps ++ qs) (ss ++ ts)
    Decodes-append [] qs [] ts d e = e
    Decodes-append (p ∷ ps) qs (s ∷ ss) ts d e = (d.0, Decodes-append ps qs ss ts d.1 e)
    Decodes-append [] qs (s ∷ ss) ts d e = elim d [ ]
    Decodes-append (p ∷ ps) qs [] ts d e = elim d [ ]

    sent-Decodes :
        (msg : Message) (t : ℕ) (fields : Result Fields)
        → Reads fields
        → Decodes (sent sc msg t fields) (stamps fields)
    sent-Decodes msg t (raise e) r = tt
    sent-Decodes msg t (ok f) r = (
      parse_trade-trade_payload sc recording floats f.sequence f.product_id f.trade_id f.price
          f.size f.side msg f.event_time t (read f.price) (read f.size) r.0 r.1 r.2,
      tt,
    )

    forwarded-Decodes :
        (trade : Bool) (msg : Message) (t : ℕ)
        → Reads (fields_of msg)
        → Decodes
            (if trade then sent sc msg t (fields_of msg) else [])
            (if trade then stamps (fields_of msg) else [])
    forwarded-Decodes true msg t r = sent-Decodes msg t (fields_of msg) r
    forwarded-Decodes false msg t r = tt

    handle-Decodes :
        (msg : Message) (t : ℕ) (h : Recorder) (ss : List (Stamped floats))
        → Reads (fields_of msg)
        → Decodes (topic_of sc h) ss
        → Decodes
            (topic_of sc (handle sc recording msg t h).1)
            (ss ++ (if is_trade msg.kind then stamps (fields_of msg) else []))
    unfolding handle
    handle-Decodes msg t h ss r d =
        rw (topic_of-dispatch sc msg.kind msg t h)
          (Decodes-append (topic_of sc h) _ ss _ d (forwarded-Decodes (is_trade msg.kind) msg t r))

    pub run-Decodes :
        (events : List Event) (h : Recorder) (ss : List (Stamped floats))
        → All IsReadable events
        → Decodes (topic_of sc h) ss
        → Decodes (topic_of sc (run sc recording events h)) (ss ++ trades_of events)
    unfolding run trades_of on_disconnect
    run-Decodes [] h ss r d = rw (append_nil ss) d
    run-Decodes (message msg t ∷ events) h ss r d =
        rw
          (← append_assoc ss (if is_trade msg.kind then stamps (fields_of msg) else [])
            (trades_of events))
          (run-Decodes events (step sc recording (message msg t) h) _ r.1
            (handle-Decodes msg t h ss r.0 d))
    run-Decodes (disconnected ∷ events) h ss r d =
        run-Decodes events (step sc recording disconnected h) ss r.1 d

    parse_all-Decodes :
        (ps : List Payload) (ss : List (Stamped floats))
        → Decodes ps ss
        → parse_all floats (map delivered ps) ≡ (ok tt, map element ss)
    unfolding parse_all
    parse_all-Decodes [] [] d = refl
    parse_all-Decodes (p ∷ ps) (s ∷ ss) d = rw (d.0, parse_all-Decodes ps ss d.1)
    parse_all-Decodes [] (s ∷ ss) d = elim d [ ]
    parse_all-Decodes (p ∷ ps) [] d = elim d [ ]

    -- From the feed to the bars: whatever messages and disconnects a new handler goes through, the
    -- pipeline decodes what it published on the topic of trades without an exception, as exactly
    -- the trades of the messages in their order, one that the exchange repeats as often as it
    -- came: each has the product, the id, the price, the size and the time of its message, cut to
    -- milliseconds. A message that is no trade or lacks a field gives none. The prices and sizes
    -- have to be texts of floats, and the times before the year 10000.
    pub run-parse_all :
        (events : List Event) (h : Recorder)
        → h.publisher_state.messages ≡ []
        → All IsReadable events
        → parse_all floats (map delivered (topic_of sc (run sc recording events h)))
          ≡ (ok tt, map element (trades_of events))
    unfolding for_channel
    run-parse_all events h none_yet readable =
        parse_all-Decodes (topic_of sc (run sc recording events h)) (trades_of events) (
          run-Decodes events h [] readable
            (subst (λ ms. Decodes (for_channel "trades" ms) []) (sym none_yet) tt))
