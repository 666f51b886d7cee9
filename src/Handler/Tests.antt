-- ===== src/Handler/Tests.antt =====
-- A session of BTC-USD on the sorted list and the recorder.
use crypto_market_platform.Base.{ℕ, ◌≡◌, refl, false, none, some, List, [], ◌∷◌, arith, eq_iff}
use crypto_market_platform.Base.Dict
use crypto_market_platform.Base.Result.{ok}
use crypto_market_platform.SortedContainers.Reference.{reference}
use crypto_market_platform.Book
use crypto_market_platform.Book.{OrderBook, new_book}
use crypto_market_platform.Sequence.{last_seen}
use crypto_market_platform.Metrics.{new_reporter}
use crypto_market_platform.Publisher.{recording, new_recording}
use crypto_market_platform.Datetime.{parse_time}
use crypto_market_platform.Book.Books.{with_book, reset_all, new_book_set}
use crypto_market_platform.Handler.{
  MessageHandler, new_handler, handle, on_disconnect, cross_check, handle_l2update,
}
use crypto_market_platform.Handler.Messages.{Message, number, text, triples, int_of}
use crypto_market_platform.Handler.Session.{Event, message, disconnected, run}
use crypto_market_platform.Handler.Accounting.{IsAccounted, run-IsAccounted}
use crypto_market_platform.Handler.Publishing.{Forwards, route_of, handle-Forwards}
use crypto_market_platform.Handler.Books.{no_quote_until_snapshot}
use crypto_market_platform.Handler.Checks.{Reveals, cross_check_lem}

abbrev blank : Message
blank = record {
  kind = none;
  product_id = some "BTC-USD";
  time = some "2026-01-02T03:04:05Z";
  sequence = some (number 1);
  trade_id = none;
  last_trade_id = none;
  price = none;
  size = none;
  side = none;
  maker_order_id = none;
  taker_order_id = none;
  bids = none;
  asks = none;
  changes = none;
}

abbrev trade : ℕ → Message
trade n = record blank {
  kind = some "match";
  trade_id = some (number n);
  price = some (text "100");
  size = some (text "1");
  side = some (text "buy");
}

abbrev heartbeat : ℕ → Message
heartbeat n = record blank { kind = some "heartbeat"; last_trade_id = some (number n) }

abbrev snapshot : Message
snapshot = record blank {
  kind = some "snapshot";
  bids = some (("100" ∷ "1" ∷ []) ∷ []);
  asks = some (("101" ∷ "1" ∷ []) ∷ []);
}

abbrev update : Message
update = record blank { kind = some "l2update"; changes = some (("buy" ∷ "102" ∷ "1" ∷ []) ∷ []) }

abbrev Recorder : Type 0
Recorder = MessageHandler reference recording

abbrev start : Recorder
start =
    new_handler reference recording ("BTC-USD" ∷ "ETH-USD" ∷ []) new_recording
      (new_reporter "" false)

-- 2026-01-02T03:04:06Z
abbrev now : ℕ
now = 63902919846000000

abbrev session : List Event
session =
    message (trade 100) now
    ∷ message snapshot now
    ∷ message (trade 104) now
    ∷ message update now
    ∷ message (heartbeat 110) now
    ∷ disconnected
    ∷ message blank now
    ∷ message (trade 7) now
    ∷ []

abbrev after : Recorder
after = run reference recording session start

run-IsAccounted_example : IsAccounted reference recording after
unfolding new_handler new_reporter
run-IsAccounted_example =
    run-IsAccounted reference recording session start
      (record { lost = refl; duplicates = refl; gaps = omega arith; gaps' = omega arith })

handle-Forwards_example :
    Forwards reference
      (route_of (some "match"))
      (trade 100)
      start
      (handle reference recording (trade 100) now start)
handle-Forwards_example = handle-Forwards reference (trade 100) now start

-- The book of BTC-USD once the connection is lost.
abbrev emptied : OrderBook reference
emptied = Book.reset reference (new_book reference "BTC-USD")

no_quote_until_snapshot_example : (emptied.ready ≡ false) × (Book.quote reference emptied ≡ ok none)
unfolding run handle with_book Dict.get on_disconnect reset_all handle_l2update triples new_handler
    new_book_set Dict.put Book.apply_updates Book.reset Book.quote parse_time int_of
no_quote_until_snapshot_example =
    no_quote_until_snapshot reference recording start (message update now ∷ disconnected ∷ [])
      "BTC-USD" emptied (λ e. ground (arith, eq_iff "l2update" "snapshot", e), (tt, tt)) refl

cross_check_lem_example :
    let h' = (cross_check reference recording "BTC-USD" 110 after).1 in
    Reveals reference recording
      (last_seen after.continuity "BTC-USD")
      "BTC-USD"
      110
      after
      (cross_check reference recording "BTC-USD" 110 after)
    × (cross_check reference recording "BTC-USD" 110 h' ≡ (ok tt, h'))
    × (h'.books ≡ after.books)
    × (h'.publisher_state ≡ after.publisher_state)
cross_check_lem_example = cross_check_lem reference recording "BTC-USD" 110 after
