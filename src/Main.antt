-- ===== src/Main.antt =====
-- ingest/src/consumer/__main__.py: the entry point, from the environment to the exit code. What the
-- network, the signals and the clients of Google Cloud do is given; logging is left out.
pub mod Flushing
pub mod Drain
mod Tests
use crypto_market_platform.Base.{
  ℕ, ◌*◌, ◌/◌, ◌^◌, String, Bool, true, false, ◌&&◌, Option, none, some, List, [], ◌∷◌, ◌++◌,
  str_eq, if◌then◌else◌,
}
use crypto_market_platform.Base.Int.{pos_part}
use crypto_market_platform.Base.Dict.{Dict}
use crypto_market_platform.Base.Result.{Result, ok, raise}
use crypto_market_platform.Base.Exec.{Exec}
use crypto_market_platform.SortedContainers.{SortedContainers}
use crypto_market_platform.Decimal.{Decimal}
use crypto_market_platform.Config.{Environ, Config, config, topic}
use crypto_market_platform.Metrics
use crypto_market_platform.Metrics.{MetricsReporter, Flushed, Value, new_reporter}
use crypto_market_platform.Publisher.{
  Publisher, Payload, RecordingPublisher, new_recording, recording,
}
use crypto_market_platform.Publisher.PubSub.{PubSubClient, PubSubPublisher, pubsub, new_pubsub}
use crypto_market_platform.Handler.{MessageHandler, new_handler}
use crypto_market_platform.Consumer
use crypto_market_platform.Consumer.{Attempt, Consumer, run}

-- A setting in seconds as the whole milliseconds of the loop's model.
abbrev pub milliseconds : Decimal → ℕ
milliseconds seconds = pos_part seconds.coefficient * 1000 / 10 ^ seconds.scale

-- How a wait of the flusher ends: by its timeout or by `stop`, with the time of the flush.
pub data Wake : Type 0 where
  timed_out : ℕ → Wake
  stopped : ℕ → Wake

-- `flush_metrics_periodically`, over its wake-ups.
unfoldable pub flush_metrics_periodically :
    (Dict Value → Result (Unit {0})) → List Wake → MetricsReporter → List Flushed × MetricsReporter
flush_metrics_periodically write [] r = ([], r)
flush_metrics_periodically write (timed_out now ∷ wakes) r =
    let (f, r') = Metrics.flush write false now r in
    let (fs, r'') = flush_metrics_periodically write wakes r' in (f ∷ fs, r'')
flush_metrics_periodically write (stopped now ∷ wakes) r =
    let (f, r') = Metrics.flush write false now r in (f ∷ [], r')

module _ {C : Type 0} (client : PubSubClient C) where
  -- What `build_publisher` returns.
  pub data AnyPublisher : Type 0 where
    discarding : RecordingPublisher → AnyPublisher
    sending : PubSubPublisher client → AnyPublisher

  abbrev wrap : {A B : Type 0} → (A → B) → Result (Unit {0}) × A → Result (Unit {0}) × B
  wrap f (r, a) = (r, f a)

  abbrev pub publish : String → Payload → String → Exec AnyPublisher (Unit {0})
  publish channel payload key (discarding p) =
      wrap discarding (recording.publish channel payload key p)
  publish channel payload key (sending p) =
      wrap sending ((pubsub client).publish channel payload key p)

  abbrev pub flush : Exec AnyPublisher (Unit {0})
  flush (discarding p) = wrap discarding (recording.flush p)
  flush (sending p) = wrap sending ((pubsub client).flush p)

  abbrev pub any_publisher : Publisher AnyPublisher
  any_publisher = record { publish = publish; flush = flush }

  abbrev pub with_client : Config → Result C → Result AnyPublisher
  with_client settings (raise e) = raise e
  with_client settings (ok c) = ok (sending (new_pubsub client c settings.project_id topic))

  -- `build_publisher`, which makes a Pub/Sub client only to publish; that may raise.
  unfoldable pub build_publisher : Config → Result C → Result AnyPublisher
  build_publisher settings new_client =
      if settings.publish_enabled
      then with_client settings new_client
      else ok (discarding new_recording)

  module _ (sc : SortedContainers) where
    -- The process at its end: the consumer, and what the flushes of the metrics did.
    pub record Drained : Type 0 where
      pub consumer : Consumer sc any_publisher
      pub flushes : List Flushed

    -- What is outside of the process: a new Pub/Sub client, or what making it raises, `_write` of the metrics, the attempts
    -- to connect, the wake-ups that the flusher still has when the loop ends, and the time of the
    -- last flush.
    pub record World : Type 0 where
      pub new_client : Result C
      pub write : Dict Value → Result (Unit {0})
      pub attempts : List Attempt
      pub wakes : List Wake
      pub now : ℕ

    -- `consumer` of `main`, before it runs.
    unfoldable pub new_consumer : Config → AnyPublisher → Consumer sc any_publisher
    new_consumer settings p = record {
      handler =
          new_handler sc any_publisher settings.products p
            (new_reporter settings.project_id settings.metrics_enabled);
      stopping = false;
      backoff = milliseconds settings.backoff_initial_s;
    }

    -- After `publisher.flush()`: unless that raised, the metrics are flushed once more.
    abbrev pub flush_metrics :
        World
        → Consumer sc any_publisher
        → List Flushed
        → Result (Unit {0}) × AnyPublisher
        → Result ℕ × Drained
    flush_metrics world s early (raise e, p) = (
      raise e,
      record {
        consumer = record s { handler = record s.handler { publisher_state = p } };
        flushes = early;
      },
    )
    flush_metrics world s early (ok _, p) =
        let (last, m) = Metrics.flush world.write false world.now s.handler.metrics in
        (
          ok 0,
          record {
            consumer = record s { handler = record s.handler { metrics = m; publisher_state = p } };
            flushes = early ++ last ∷ [];
          },
        )

    abbrev pub with_metrics :
        MetricsReporter → Consumer sc any_publisher → Consumer sc any_publisher
    with_metrics m s = record s { handler = record s.handler { metrics = m } }

    -- The `finally` of `main` and its return: the flusher ends, then the publisher is flushed.
    abbrev pub drain : World → Consumer sc any_publisher → Result ℕ × Drained
    drain world s =
        let (early, m) = flush_metrics_periodically world.write world.wakes s.handler.metrics in
        flush_metrics world (with_metrics m s) early (flush s.handler.publisher_state)

    abbrev pub with_state : {A : Type 0} → Result ℕ × A → Result ℕ × Option A
    with_state (r, a) = (r, some a)

    -- `main` with its publisher, or with the exception of making it, which leaves `main`.
    abbrev pub with_publisher : World → Config → Result AnyPublisher → Result ℕ × Option Drained
    with_publisher world settings (raise e) = (raise e, none)
    with_publisher world settings (ok p) = with_state (
        drain world
          (run sc any_publisher
            (record {
              products = settings.products;
              backoff_initial = milliseconds settings.backoff_initial_s;
              backoff_max = milliseconds settings.backoff_max_s;
            })
            world.attempts (new_consumer settings p)).1)

    -- `main` with its settings: the exit code, and the state of the process if it was set up.
    unfoldable pub main_with : World → Config → Result ℕ × Option Drained
    main_with world settings =
        if settings.publish_enabled && str_eq settings.project_id ""
        then (ok 2, none)
        else with_publisher world settings (build_publisher settings world.new_client)

    abbrev pub with_settings : World → Result Config → Result ℕ × Option Drained
    with_settings world (raise e) = (raise e, none)
    with_settings world (ok settings) = main_with world settings

    unfoldable pub main : World → Environ → Result ℕ × Option Drained
    main world environ = with_settings world (config environ)
