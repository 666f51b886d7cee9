-- ===== src/Lib.antt =====
-- A verification library for crypto-market-platform: the Python package ingest/src/consumer, the
-- script that repairs its gaps, the pipeline of the streaming bars and the freshness sensor. The
-- package is a consumer of an exchange's WebSocket feed that watches for lost trades, keeps order
-- books, and forwards what it receives to Pub/Sub. The script publishes to the same topic of raw
-- trades, the bars are built from that topic, and the sensor looks at the table it is stored in.
--
-- The program and the files that model it:
--   Base               what Python gives and every module uses: exceptions as results, methods on
--                      an object as state passing (`Exec`: the state after a raise comes back too),
--                      dictionaries as association lists in insertion order, sorting, integers
--   Decimal            decimal.Decimal: exact numbers, their parsing, and arithmetic rounded half
--                      to even to 28 digits, as the default context does
--   SortedContainers   sortedcontainers.SortedDict, a third-party class: a record of its operations
--                      and documented laws, the parameter `sc` of all that follows;
--                      SortedContainers/Reference meets the laws with a sorted list
--   Datetime           `parse_time` and `_iso` of ws_client.py with the parts of datetime they use,
--                      times being whole microseconds since year 1 in UTC
--   Sequence           ingest/src/consumer/sequence.py: `ContinuityTracker`
--   Book               ingest/src/consumer/book.py: `OrderBook`; Book/Quotes has `Quote`,
--                      Book/Books has `BookSet`
--   Metrics            ingest/src/consumer/metrics.py: `Counters` and `MetricsReporter`;
--                      Metrics/Series has the request that `_write` makes
--   Publisher          ingest/src/consumer/publisher.py: the interface, `RecordingPublisher`, and in
--                      Publisher/PubSub `PubSubPublisher` over a client that is a parameter;
--                      Publisher/Schemas has the Avro schemas of schemas/
--   Handler            ingest/src/consumer/ws_client.py: `MessageHandler`, with the messages in
--                      Handler/Messages and sessions of messages and disconnects in Handler/Session
--   Consumer           ingest/src/consumer/ws_client.py: `WebSocketConsumer`, its loop over an explicit
--                      sequence of attempts to connect; Consumer/Watchdog has the task that watches
--                      the heartbeats, Consumer/Stalls that task beside the reading,
--                      Consumer/Subscribing what it sends first, Consumer/Products the products it
--                      asks for, and Consumer/Errors a message of kind "error"
--   Config             ingest/src/consumer/config.py: the settings, read from an environment that is a
--                      dictionary
--   Main               ingest/src/consumer/__main__.py: from the environment to the exit code, with the
--                      order of the shutdown
--   Logs               ingest/src/consumer/logs.py: the fields of a line of the log
--   Backfill           scripts/backfill_trades.py: the loop over the pages of the exchange's REST API,
--                      which is a parameter; Backfill/Payload has `to_topic_payload`,
--                      Backfill/Script has `main`, Backfill/Recorder the messages that the client took
--   Bars               streaming/bars_pipeline.py: `ParseTrade` and `BuildBar`; Bars/Columns has the
--                      columns of the table, Bars/Beam what the pipeline asks of Apache Beam, and
--                      Bars/Pipeline `run`, from the subscription to the rows that are appended;
--                      Bars/Stream follows the trades from the consumer's handlers to the pipeline,
--                      and Bars/Backfilled compares them with those that the backfill publishes
--   Orchestration      orchestration/sensors.py and orchestration/assets.py: the freshness sensor and
--                      the names of the assets
--
-- A component's state is a record with the fields of the Python object, and each method is one
-- definition under its Python name, without a leading underscore. `MessageHandler` holds the
-- tracker, the books, the reporter and the publisher and calls them as the code does: a match goes
-- through the tracker and the counters to the publisher, a snapshot or an update through the
-- product's book, a heartbeat through the cross-check against the tracker, and a disconnect resets
-- the books and the tracker. What a message changed before it raised stays changed.
--
-- `Main` builds the reporter, the publisher, the handler and the consumer from the settings, runs the
-- consumer's loop, and flushes. The backfill uses the payload and client of `Publisher`, and its own
-- dictionary by trade id.
--
-- Bounds: trade ids, sequence numbers and counters are natural numbers; numbers in messages are
-- ints, the product id and the time of a message, where it has them, are texts, rows are lists of
-- texts; NaN and infinity are not decimals here, and decimals have no bounds on their exponents,
-- so that no arithmetic overflows; a text of a decimal or an int in a message has no space around
-- it and no underscores, one of a float setting no underscores; a lag is a whole number of
-- microseconds where the code has a float of milliseconds, and a percentile is in percent, its
-- product with the number of samples exact; `fromisoformat` takes the full form of a time with
-- its offset. The texts that json.dumps makes are kept unprinted, and so are URLs and the times
-- of a bar. Backoffs are whole milliseconds and a random number of thousandths. Floats and Beam
-- are parameters of `Bars`, and the stamp of a trade there is its instant in microseconds since
-- year 1, not a float of seconds since 1970, which gives the same minutes; in `Config` the float
-- of a text is the exact number. The watchdog sleeps half its timeout and a delay, and all its
-- times are on one clock. Every loop is structural on the list it reads, but for the loop of the
-- backfill: it has as fuel one more than its first cursor, enough because each page has ids below
-- the cursor.
--
-- Not modelled: logging calls, except that `logging` refuses a key of `extra`, and the texts of
-- exceptions; the delays of the sleeps of the watchdog, which are given; what the Monitoring
-- client does with a request; the options of Beam's runner; the schedule and the dbt assets of
-- orchestration/, which are declarations for Dagster; the SQL models of dbt and the Terraform
-- modules, which are not Python.
pub mod Base
pub mod Sequence
pub mod Decimal
pub mod SortedContainers
pub mod Book
pub mod Metrics
pub mod Datetime
pub mod Publisher
pub mod Handler
pub mod Backfill
pub mod Consumer
pub mod Config
pub mod Bars
pub mod Logs
pub mod Main
pub mod Orchestration
