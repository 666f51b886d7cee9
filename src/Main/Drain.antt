-- ===== src/Main/Drain.antt =====
-- __main__.py, `main`: the exit code, the order of the shutdown, and the counters at the end.
use crypto_market_platform.Base.{
  ℕ, ◌≡◌, refl, ap, true, false, ◌&&◌, Option, none, some, List, [], ◌∷◌, str_eq, arith, inl, inr,
  Bool-cases, eq_iff,
}
use crypto_market_platform.Base.Dict.{Dict}
use crypto_market_platform.Base.Result.{Result, ok, raise}
use crypto_market_platform.SortedContainers.{SortedContainers}
use crypto_market_platform.Config.{Environ, Config, config}
use crypto_market_platform.Metrics.{MetricsReporter, Flushed, Value, new_reporter}
use crypto_market_platform.Metrics.Flushes.{flush_lem}
use crypto_market_platform.Publisher.PubSub.{PubSubClient}
use crypto_market_platform.Handler.{MessageHandler, new_handler, handle, on_disconnect}
use crypto_market_platform.Handler.Messages.{Message}
use crypto_market_platform.Handler.Accounting.{
  IsAccounted, IsBounded, handle-IsAccounted, handle-IsBounded, disconnect-IsAccounted,
  disconnect-IsBounded,
}
use crypto_market_platform.Handler.Sends.{publisher-Kept}
use crypto_market_platform.Consumer.{Consumer, disconnect}
use crypto_market_platform.Consumer.Keeps.{run_keeps}
use crypto_market_platform.Main.Flushing.{
  Fits, IsFlushed, StopRaises, After, publish-Fits, Builds, build_publisher-Builds, flush-After,
}
use crypto_market_platform.Main.{
  Wake, timed_out, stopped, flush_metrics_periodically, AnyPublisher, flush, any_publisher, Drained,
  World, new_consumer, drain, flush_metrics, with_state, with_publisher, main_with, with_settings,
  main,
}

module _ (write : Dict Value → Result (Unit {0})) where
  -- The flushes leave the reporter as it was.
  flushes_keep :
      (wakes : List Wake) (r : MetricsReporter) → (flush_metrics_periodically write wakes r).1 ≡ r
  unfolding flush_metrics_periodically
  flushes_keep [] r = refl
  flushes_keep (timed_out now ∷ wakes) r = rw (flush_lem write false now r) (flushes_keep wakes r)
  flushes_keep (stopped now ∷ wakes) r = rw (flush_lem write false now r) refl

module _ {C : Type 0} (client : PubSubClient C) (settings : Config) where
  module _ (sc : SortedContainers) where
    abbrev Handler : Type 0
    Handler = MessageHandler sc (any_publisher client)

    -- What the counters are worth: the losses are accounted for, the window of lags is bounded.
    abbrev pub Reports : Handler → Type 0
    Reports h = IsAccounted sc (any_publisher client) h × IsBounded sc (any_publisher client) h

    abbrev pub Exits : Result C → Result ℕ × Option (Drained client sc) → Type 0
    Exits new_client (ok code, none) =
        (code ≡ 2) × (settings.publish_enabled ≡ true) × (settings.project_id ≡ "")
    Exits new_client (ok code, some d) =
        (code ≡ 0)
        × ((settings.publish_enabled && str_eq settings.project_id "") ≡ false)
        × IsFlushed client settings d.consumer.handler.publisher_state
        × Reports d.consumer.handler
    Exits new_client (raise e, none) =
        (settings.publish_enabled ≡ true)
        × ((str_eq settings.project_id "") ≡ false)
        × (new_client ≡ raise e)
    Exits new_client (raise e, some d) =
        StopRaises client settings e d.consumer.handler.publisher_state × Reports d.consumer.handler

    -- What is kept through a run of the loop.
    abbrev Running : Handler → Type 0
    Running h = Fits client settings h.publisher_state × Reports h

    handle-Running :
        (msg : Message) (t : ℕ) (h : Handler)
        → Running h
        → Running (handle sc (any_publisher client) msg t h).1
    handle-Running msg t h (f, (a, b)) = (
      publisher-Kept sc (any_publisher client) (Fits client settings) (publish-Fits client settings)
          msg t h f,
      (
        handle-IsAccounted sc (any_publisher client) msg t h a,
        handle-IsBounded sc (any_publisher client) msg t h b,
      ),
    )

    on_disconnect-Fits :
        (h : Handler)
        → Fits client settings h.publisher_state
        → Fits client settings (on_disconnect sc (any_publisher client) h).publisher_state
    unfolding on_disconnect
    on_disconnect-Fits h f = f

    disconnect-Running :
        (s : Consumer sc (any_publisher client))
        → Running s.handler
        → Running (disconnect sc (any_publisher client) s).handler
    unfolding disconnect
    disconnect-Running s (f, (a, b)) =
        let a' = disconnect-IsAccounted sc (any_publisher client) s.handler a in
        let b' = disconnect-IsBounded sc (any_publisher client) s.handler b in
        (
          on_disconnect-Fits s.handler f,
          (
            record { lost = a'.lost; duplicates = a'.duplicates; gaps = a'.gaps; gaps' = a'.gaps' },
            b',
          ),
        )

    new-Running :
        (p : AnyPublisher client)
        → Fits client settings p
        → Running (new_consumer client sc settings p).handler
    unfolding new_consumer new_handler new_reporter
    new-Running p f = (
      f,
      (
        record { lost = refl; duplicates = refl; gaps = omega arith; gaps' = omega arith },
        omega arith,
      ),
    )

    -- The shutdown touches neither the counters nor the tracker.
    drained-Reports :
        (h : Handler) (m : MetricsReporter) (p : AnyPublisher client)
        → m ≡ h.metrics
        → Reports h
        → Reports (record h { metrics = m; publisher_state = p })
    drained-Reports h m p e (a, b) = (
      record {
        lost = rw e a.lost;
        duplicates = rw e a.duplicates;
        gaps = rw e a.gaps;
        gaps' = rw e a.gaps';
      },
      rw e b,
    )

    flush_metrics-Exits :
        (world : World client sc) (s : Consumer sc (any_publisher client)) (early : List Flushed)
        (outcome : Result (Unit {0}) × AnyPublisher client)
        → (settings.publish_enabled && str_eq settings.project_id "") ≡ false
        → After client settings outcome
        → Reports s.handler
        → Exits world.new_client
            (with_state client sc (flush_metrics client sc world s early outcome))
    flush_metrics-Exits world s early (raise e, p) set after reports =
        (after, drained-Reports s.handler s.handler.metrics p refl reports)
    flush_metrics-Exits world s early (ok done, p) set after reports =
        let last = flush_lem world.write false world.now s.handler.metrics in
        (refl, set, after, drained-Reports s.handler _ p (ap (λ x. x.1) last) reports)

    drain-Exits :
        (world : World client sc) (s : Consumer sc (any_publisher client))
        → (settings.publish_enabled && str_eq settings.project_id "") ≡ false
        → Running s.handler
        → Exits world.new_client (with_state client sc (drain client sc world s))
    drain-Exits world s set (f, reports) =
        flush_metrics-Exits world _ _ (flush client s.handler.publisher_state) set
          (flush-After client settings s.handler.publisher_state f)
          (drained-Reports s.handler _ s.handler.publisher_state
            (flushes_keep world.write world.wakes s.handler.metrics) reports)

    with_publisher-Exits :
        (world : World client sc) (built : Result (AnyPublisher client))
        → (settings.publish_enabled && str_eq settings.project_id "") ≡ false
        → Builds client settings world.new_client built
        → Exits world.new_client (with_publisher client sc world settings built)
    with_publisher-Exits world (raise e) set (enabled, raised) =
        (enabled, ground (arith, set, enabled), raised)
    with_publisher-Exits world (ok p) set fits = drain-Exits world _ set (
        run_keeps sc (any_publisher client) Running handle-Running disconnect-Running _
          world.attempts _ (new-Running p fits))

    pub main_with-Exits :
        (world : World client sc) → Exits world.new_client (main_with client sc world settings)
    unfolding main_with
    main_with-Exits world =
        elim (Bool-cases (settings.publish_enabled && str_eq settings.project_id "")) [
          | inl unset ↦
              rw unset
                (refl, ground (arith, unset), ground (arith, unset, eq_iff settings.project_id ""))
          | inr set ↦ rw set (
              with_publisher-Exits world _ set
                (build_publisher-Builds client settings world.new_client))
        ]

module _ {C : Type 0} (client : PubSubClient C) (sc : SortedContainers) where
  abbrev pub Outcome : Result C → Result Config → Result ℕ × Option (Drained client sc) → Type 0
  Outcome new_client (raise e) outcome = outcome ≡ (raise e, none)
  Outcome new_client (ok settings) outcome = Exits client settings sc new_client outcome

  with_settings-Outcome :
      (world : World client sc) (settings : Result Config)
      → Outcome world.new_client settings (with_settings client sc world settings)
  with_settings-Outcome world (raise e) = refl
  with_settings-Outcome world (ok settings) = main_with-Exits client settings sc world

  -- Whatever the environment, the network and the Pub/Sub client do, the entry point ends in one
  -- of these ways. An environment that the settings refuse raises, with nothing set up. The exit
  -- code is 2, with nothing set up, only if publishing is enabled without a project. If it is
  -- enabled with one, making the Pub/Sub client may raise, with nothing set up. The code is
  -- otherwise 0, and then the publisher is the one that the settings ask for and was flushed last,
  -- after all publishing. Or the Pub/Sub client raises while it stops. Whenever the process was
  -- set up, the losses that it reports at its end are accounted for by the tracker's own totals,
  -- and the window of lag samples is within its bound.
  pub main-Exits :
      (world : World client sc) (environ : Environ)
      → Outcome world.new_client (config environ) (main client sc world environ)
  unfolding main
  main-Exits world environ = with_settings-Outcome world (config environ)
