-- ===== src/Handler.antt =====
-- ingest/src/consumer/ws_client.py, `MessageHandler`. Logging, which changes no state, is left out.
-- The clock is the argument `received_at`.
pub mod Messages
pub mod Session
pub mod Accounting
pub mod Publishing
pub mod Books
pub mod Sends
pub mod Channels
pub mod Totals
pub mod Types
pub mod Checks
pub mod Products
mod Tests
use crypto_market_platform.Base.{
  ℕ, ◌+◌, ◌-◌, String, Bool, true, false, ◌&&◌, ◌||◌, Option, none, some, List, [], ◌∷◌, leb, ltb,
  str_eq, if◌then◌else◌,
}
use crypto_market_platform.Base.Int.{ℤ, sub_ℕ}
use crypto_market_platform.Base.Result.{Exception, Result, ok, raise, key_error, crossed_book_error}
use crypto_market_platform.Base.Exec.{Exec, pure, fail, lift, gets, modify, ◌>>=◌, ◌>>◌}
use crypto_market_platform.SortedContainers.{SortedContainers}
use crypto_market_platform.Book
use crypto_market_platform.Book.Quotes.{Quote}
use crypto_market_platform.Book.Books.{BookSet, new_book_set, with_book, reset_all}
use crypto_market_platform.Sequence
use crypto_market_platform.Sequence.{
  ContinuityTracker, new_tracker, Observation, observe, last_seen, gap, duplicate, in_order, first,
}
use crypto_market_platform.Metrics.{Counters, MetricsReporter, record_message, record_lag}
use crypto_market_platform.Datetime.{parse_time, iso}
use crypto_market_platform.Publisher.{
  Publisher, Payload, Field, number, text, dumped_book, dumped_changes,
}
use Messages.{Message, required, get_or, int_of, str_of, str_or_empty, pairs, triples, Scalar}

-- `int(msg.get(key, 0))`
abbrev pub int_or_zero : Option Scalar → Result ℕ
int_or_zero none = ok 0
int_or_zero (some v) = int_of v

-- What `_track_continuity` counts.
abbrev pub counted : Observation → Counters → Counters
counted o c = elim o.continuity [
  | gap ↦ record c {
    sequence_gaps_total = c.sequence_gaps_total + 1;
    messages_lost_total = c.messages_lost_total + o.missing;
  }
  | duplicate ↦ record c { duplicates_total = c.duplicates_total + 1 }
  | _ ↦ c
]

-- The trades that a heartbeat reveals as missed: `last_trade_id - seen`, if there is a baseline
-- and the heartbeat is ahead of it.
abbrev pub missed_of : Option ℕ → ℕ → ℕ
missed_of none last_trade_id = 0
missed_of (some seen) last_trade_id = if ltb seen last_trade_id then last_trade_id - seen else 0

module _ (sc : SortedContainers) {P : Type 0} (publisher : Publisher P) where
  pub record MessageHandler : Type 0 where
    pub publisher_state : P
    pub metrics : MetricsReporter
    pub continuity : ContinuityTracker
    pub books : BookSet sc
    pub last_heartbeat_at : Option ℕ

  -- `MessageHandler(config, publisher, metrics)`
  unfoldable pub new_handler : List String → P → MetricsReporter → MessageHandler
  new_handler products p metrics = record {
    publisher_state = p;
    metrics = metrics;
    continuity = new_tracker;
    books = new_book_set sc products;
    last_heartbeat_at = none;
  }

  abbrev pub Action : Type 0 → Type 0
  Action A = Exec MessageHandler A

  -- A change of `self.metrics.counters`.
  abbrev pub tally : (Counters → Counters) → Action (Unit {0})
  tally f =
      modify (λ h. record h { metrics = record h.metrics { counters = f h.metrics.counters } })

  abbrev pub on_books : {A : Type 0} → Exec (BookSet sc) A → Action A
  on_books m h = let (r, books) = m h.books in (r, record h { books = books })

  abbrev pub publish : String → String → Payload → Action (Unit {0})
  publish channel key payload h =
      let (r, p) = publisher.publish channel payload key h.publisher_state in
      (r, record h { publisher_state = p })

  abbrev pub observe_trade : String → ℕ → Action Observation
  observe_trade product_id value h =
      let (t, o) = observe h.continuity product_id value in (ok o, record h { continuity = t })

  -- `_track_continuity`
  unfoldable pub track_continuity : String → ℕ → Action (Unit {0})
  track_continuity product_id trade_id = do o ← observe_trade product_id trade_id; tally (counted o)

  abbrev pub trade_payload : ℕ → String → ℕ → String → String → String → Message → ℕ → ℕ → Payload
  trade_payload sequence product_id trade_id price size side msg event_time received_at =
      ("sequence", number sequence)
      ∷ ("product_id", text product_id)
      ∷ ("trade_id", number trade_id)
      ∷ ("price", text price)
      ∷ ("size", text size)
      ∷ ("side", text side)
      ∷ ("maker_order_id", text (str_or_empty msg.maker_order_id))
      ∷ ("taker_order_id", text (str_or_empty msg.taker_order_id))
      ∷ ("event_time", text (iso event_time))
      ∷ ("ingest_time", text (iso received_at))
      ∷ []

  -- The call of `publish` at the end of `_handle_match`, with its arguments in the code's order.
  unfoldable pub publish_trade : Message → String → ℕ → ℕ → ℕ → Action (Unit {0})
  publish_trade msg product_id trade_id event_time received_at = do
    raw_sequence ← lift (required msg.sequence)
    sequence ← lift (int_of raw_sequence)
    price ← lift (required msg.price)
    size ← lift (required msg.size)
    side ← lift (required msg.side)
    publish "trades" product_id (
        trade_payload sequence product_id trade_id (str_of price) (str_of size) (str_of side) msg
          event_time received_at)

  unfoldable pub handle_match : Message → ℕ → Action (Unit {0})
  unfolding track_continuity publish_trade
  handle_match msg received_at = do
    product_id ← lift (required msg.product_id)
    tally (record_message "trades")
    raw_id ← lift (required msg.trade_id)
    trade_id ← lift (int_of raw_id)
    track_continuity product_id trade_id
    raw_time ← lift (required msg.time)
    event_time ← lift (parse_time raw_time)
    tally (record_lag (sub_ℕ received_at event_time))
    publish_trade msg product_id trade_id event_time received_at

  abbrev pub l2_payload : ℕ → String → String → Field → ℕ → ℕ → Payload
  l2_payload sequence product_id event_type payload event_time received_at =
      ("sequence", number sequence)
      ∷ ("product_id", text product_id)
      ∷ ("event_type", text event_type)
      ∷ ("payload", payload)
      ∷ ("event_time", text (iso event_time))
      ∷ ("ingest_time", text (iso received_at))
      ∷ []

  unfoldable pub handle_snapshot : Message → ℕ → Action (Unit {0})
  handle_snapshot msg received_at = do
    product_id ← lift (required msg.product_id)
    tally (record_message "l2")
    bids ← lift (pairs (get_or msg.bids []))
    asks ← lift (pairs (get_or msg.asks []))
    on_books (with_book sc product_id (Book.apply_snapshot sc bids asks))
    sequence ← lift (int_or_zero msg.sequence)
    publish "l2" product_id
        (l2_payload sequence product_id "snapshot" (dumped_book bids asks) received_at received_at)

  -- `try: quote() except CrossedBookError`
  abbrev pub crossing : Result (Option Quote) → Action (Unit {0})
  crossing (ok q) = pure tt
  crossing (raise crossed_book_error) =
      tally (λ c. record c { crossed_books_total = c.crossed_books_total + 1 })
  crossing (raise e) = fail e

  abbrev pub quote_action : Exec (Book.OrderBook sc) (Result (Option Quote))
  quote_action b = (ok (Book.quote sc b), b)

  unfoldable pub check_crossed : String → Action (Unit {0})
  check_crossed product_id = do q ← on_books (with_book sc product_id quote_action); crossing q

  -- `parse_time(msg["time"]) if "time" in msg else received_at`
  abbrev pub time_or : Option String → ℕ → Result ℕ
  time_or none received_at = ok received_at
  time_or (some t) received_at = parse_time t

  unfoldable pub handle_l2update : Message → ℕ → Action (Unit {0})
  unfolding check_crossed
  handle_l2update msg received_at = do
    product_id ← lift (required msg.product_id)
    tally (record_message "l2")
    changes ← lift (triples (get_or msg.changes []))
    on_books (with_book sc product_id (Book.apply_updates sc changes))
    check_crossed product_id
    event_time ← lift (time_or msg.time received_at)
    sequence ← lift (int_or_zero msg.sequence)
    publish "l2" product_id
        (l2_payload sequence product_id "l2update" (dumped_changes changes) event_time received_at)

  unfoldable pub cross_check : String → ℕ → Action (Unit {0})
  cross_check product_id last_trade_id h =
      let missed = missed_of (last_seen h.continuity product_id) last_trade_id in
      let report = do
        tally (λ c. record c {
          heartbeat_detected_gaps_total = c.heartbeat_detected_gaps_total + 1;
          messages_lost_total = c.messages_lost_total + missed;
        })
        observe_trade product_id last_trade_id
        pure tt
      in if ltb 0 missed then report h else (ok tt, h)

  unfoldable pub handle_heartbeat : Message → ℕ → Action (Unit {0})
  unfolding cross_check
  handle_heartbeat msg received_at = do
    product_id ← lift (required msg.product_id)
    tally (record_message "heartbeat")
    modify (λ h. record h { last_heartbeat_at = some received_at })
    last_trade_id ← lift (int_or_zero msg.last_trade_id)
    cross_check product_id last_trade_id
    raw_sequence ← lift (required msg.sequence)
    sequence ← lift (int_of raw_sequence)
    raw_time ← lift (required msg.time)
    event_time ← lift (parse_time raw_time)
    publish "heartbeat" product_id (
        ("sequence", number sequence)
        ∷ ("product_id", text product_id)
        ∷ ("last_trade_id", number last_trade_id)
        ∷ ("event_time", text (iso event_time))
        ∷ ("ingest_time", text (iso received_at))
        ∷ [])

  -- The kinds of message that `handle` tells apart; the rest is ignored. At an "error" it calls
  -- `log.error` with the key "message" in `extra`, which `logging` refuses: its `makeRecord` raises
  -- KeyError if `extra` has the key "message".
  abbrev pub dispatch : Option String → Message → ℕ → Action (Unit {0})
  dispatch none msg received_at = pure tt
  dispatch (some kind) msg received_at =
      if str_eq kind "match" || str_eq kind "last_match"
      then handle_match msg received_at
      else if str_eq kind "snapshot"
      then handle_snapshot msg received_at
      else if str_eq kind "l2update"
      then handle_l2update msg received_at
      else if str_eq kind "heartbeat"
      then handle_heartbeat msg received_at
      else if str_eq kind "error"
      then fail key_error
      else pure tt

  unfoldable pub handle : Message → ℕ → Action (Unit {0})
  handle msg received_at = dispatch msg.kind msg received_at

  unfoldable pub on_disconnect : MessageHandler → MessageHandler
  on_disconnect h = record h {
    books = reset_all sc h.books;
    continuity = Sequence.reset_all h.continuity;
    last_heartbeat_at = none;
    metrics = record h.metrics {
      counters = record (h.metrics.counters) {
        book_resets_total = h.metrics.counters.book_resets_total + 1;
      };
    };
  }
