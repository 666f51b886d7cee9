-- ===== src/Bars/PipelineTests.antt =====
-- The pipeline of the bars on a small feed, and on what a consumer published.
use mathlib.Core.List.Permᴰ
use crypto_market_platform.Base.{
  ℕ, ◌+◌, ◌*◌, ◌-◌, ◌%◌, ◌≡◌, refl, false, Option, String, All, map, none, some, List, [], ◌∷◌,
  arith,
}
use crypto_market_platform.Base.Result.{ok, raise}
use crypto_market_platform.Decimal.Text.{int_of_text}
use crypto_market_platform.SortedContainers.Reference.{reference}
use crypto_market_platform.Publisher.{recording, new_recording}
use crypto_market_platform.Metrics.{new_reporter}
use crypto_market_platform.Base.Dict.{get}
use crypto_market_platform.Datetime.{iso, iso_text}
use crypto_market_platform.Datetime.Calendar.{of_ordinal}
use crypto_market_platform.Publisher.{for_channel}
use crypto_market_platform.Handler.{
  MessageHandler, new_handler, handle, handle_match, on_disconnect,
}
use crypto_market_platform.Handler.Session
use crypto_market_platform.Handler.Session.{Event, message, disconnected}
use crypto_market_platform.Bars.Stream.{topic_of}
use crypto_market_platform.Bars.Stream.Reordering.{elements, trades_in}
use crypto_market_platform.Bars.Stream.Table.{message_of, session-IsBar}
use crypto_market_platform.Bars.Stream.Decoding.{trades_of, delivered, run-parse_all}
use crypto_market_platform.Handler.Messages.{number, text, int_of, str_of}
use crypto_market_platform.Datetime.{second, parse_time}
use crypto_market_platform.Bars.{TradeMessage, Stamped, parse_trade}
use crypto_market_platform.Bars.Beam.{Arrival, element, watermark, in_time, watermark_after}
use crypto_market_platform.Bars.Pipeline.{Arguments, parse_known_args, parse_all, run}
use crypto_market_platform.Bars.Pipeline.Reference.{at_the_end}
use crypto_market_platform.Bars.Pipeline.Settles.{minutes, IsBar, IsPunctual, run-IsBar}
use crypto_market_platform.Bars.Pipeline.Fits.{Fits, run-Fits}
use crypto_market_platform.Bars.Samples.{whole, match, stamped}

abbrev row_of : ℕ → String → String → String → TradeMessage
row_of n time price size = record {
  event_time = some time;
  product_id = some "BTC-USD";
  trade_id = some (number n);
  price = some (text price);
  size = some (text size);
}

-- 2026-01-02T03:04:00Z
abbrev the_minute : ℕ
the_minute = 63902919840000000

-- The second trade of the minute comes when the watermark is past it, but by less than 30 seconds.
abbrev feed : String → List (Arrival (Option TradeMessage))
feed subscription =
    element (some (row_of 9 "2026-01-02T03:04:05.5Z" "105" "1"))
    ∷ element none
    ∷ watermark (the_minute + 70 * second)
    ∷ element (some (row_of 7 "2026-01-02T03:04:50Z" "100" "2"))
    ∷ element (some (row_of 10 "2026-01-02T03:05:01Z" "98" "2"))
    ∷ watermark (the_minute + 95 * second)
    ∷ []

abbrev decoded_feed : List (Arrival (Stamped whole))
decoded_feed =
    element (stamped 9 105 1 (the_minute + 5500000))
    ∷ watermark (the_minute + 70 * second)
    ∷ element (stamped 7 100 2 (the_minute + 50 * second))
    ∷ element (stamped 10 98 2 (the_minute + 61 * second))
    ∷ watermark (the_minute + 95 * second)
    ∷ []

abbrev settings : Arguments
settings = record { subscription = "s"; output_table = "t"; allowed_lateness_seconds = 30 }

default_lateness : parse_known_args "s" "t" none ≡ settings
unfolding parse_known_args
default_lateness = refl

feed_decoded : parse_all whole (feed "s") ≡ (ok tt, decoded_feed)
unfolding parse_all parse_trade parse_time int_of int_of_text
feed_decoded = refl

run-IsBar_example :
    IsBar whole "BTC-USD" the_minute
      (in_time whole
        (minutes settings.allowed_lateness_seconds)
        "BTC-USD"
        the_minute
        0
        (parse_all whole (feed "s")).1)
      (run whole (at_the_end whole) feed (λ f. 61) settings).1.rows
unfolding watermark_after in_time
run-IsBar_example =
    run-IsBar whole (at_the_end whole) feed (λ f. 61) settings "BTC-USD" the_minute (omega arith)
      (rw feed_decoded (omega arith))
      (rw feed_decoded ((λ e. absurd (omega (arith, e)), tt), (tt, tt)))
      (rw feed_decoded (omega arith))

run-Fits_example : All (Fits whole) (run whole (at_the_end whole) feed (λ f. 61) settings).1.rows
run-Fits_example = run-Fits whole (at_the_end whole) feed (λ f. 61) settings

-- A trade, the same again after a reconnect, and one without a price.
abbrev session : List Event
session =
    message match 63902919845223456
    ∷ disconnected
    ∷ message (record match { kind = some "last_match" }) 63902919846000000
    ∷ message (record match { price = none }) 63902919847000000
    ∷ []

abbrev sold : Stamped whole
sold = stamped 7 100 2 (63902919845123456 - 63902919845123456 % 1000)

abbrev read_whole : String → ℕ
read_whole s = elim (int_of_text s) [ ok n ↦ n | raise e ↦ 0 ]

the_sold : trades_of reference whole read_whole session ≡ sold ∷ sold ∷ []
unfolding trades_of parse_time int_of int_of_text str_of
the_sold = refl

abbrev consumer : MessageHandler reference recording
consumer = new_handler reference recording ("BTC-USD" ∷ []) new_recording (new_reporter "" false)

run-parse_all_example :
    parse_all whole
      (map delivered (topic_of reference (Session.run reference recording session consumer)))
    ≡ (ok tt, map element (trades_of reference whole read_whole session))
unfolding parse_time int_of int_of_text new_handler str_of
run-parse_all_example =
    run-parse_all reference whole read_whole session consumer refl
      ((refl, refl, omega arith), (tt, ((refl, refl, omega arith), (tt, tt))))

abbrev replayed : TradeMessage
replayed = row_of 7 "2026-01-02T03:04:05.123Z" "100" "2"

abbrev topic : String → List (Arrival (Option TradeMessage))
topic subscription =
    element (some replayed) ∷ element (some replayed) ∷ watermark (the_minute + 95 * second) ∷ []

published :
    map message_of (topic_of reference (Session.run reference recording session consumer))
    ≡ some replayed ∷ some replayed ∷ []
unfolding Session.run for_channel handle handle_match int_of parse_time on_disconnect new_handler
    get iso str_of iso_text of_ordinal
published = refl

abbrev decoded_topic : List (Arrival (Stamped whole))
decoded_topic = element sold ∷ element sold ∷ watermark (the_minute + 95 * second) ∷ []

topic_decoded : parse_all whole (topic "s") ≡ (ok tt, decoded_topic)
unfolding parse_all parse_trade parse_time int_of int_of_text
topic_decoded = refl

session-IsBar_example :
    IsBar whole "BTC-USD" the_minute
      (trades_in whole
        (minutes settings.allowed_lateness_seconds)
        "BTC-USD"
        the_minute
        (trades_of reference whole read_whole session))
      (run whole (at_the_end whole) topic (λ f. 61) settings).1.rows
unfolding parse_time int_of int_of_text new_handler str_of elements trades_in watermark_after
    IsPunctual
session-IsBar_example =
    session-IsBar reference whole read_whole session consumer (at_the_end whole) topic (λ f. 61)
      settings "BTC-USD" the_minute refl
      ((refl, refl, omega arith), (tt, ((refl, refl, omega arith), (tt, tt))))
      (rw published (Permᴰ.refl _)) (omega arith) (rw topic_decoded (omega arith))
      (rw topic_decoded (λ e. omega arith, (λ e. omega arith, tt)))
      (rw the_sold ((λ e. refl, tt), (tt, tt))) (rw the_sold (omega arith))
