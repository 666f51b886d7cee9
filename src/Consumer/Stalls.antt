-- ===== src/Consumer/Stalls.antt =====
-- ws_client.py, `WebSocketConsumer._consume` with its watchdog: the task beside the reading, with
-- what the handler has heard at each time, and what comes of its alarm.
use crypto_market_platform.Base.{
  ℕ, ◌+◌, ◌*◌, ◌≤◌, ◌<◌, ◌≡◌, refl, Bool, true, false, Option, some, List, [], ◌∷◌, leb, All,
  length, if◌then◌else◌,
}
use crypto_market_platform.Base.Result.{ok, raise, connection_error}
use crypto_market_platform.SortedContainers.{SortedContainers}
use crypto_market_platform.Publisher.{Publisher}
use crypto_market_platform.Consumer.{
  open_socket, Config, Attempt, Consumer, Incoming, frame, signal, failure, consume, connect,
}
use crypto_market_platform.Consumer.Watchdog.{
  Watch, stalled, stopped, watching, watchdog, RaisesWithin, watchdog-RaisesWithin,
}

-- What has come by a time: frames come in order of their receipt, and a call of `stop` or an
-- exception of the socket right after the frame before it.
unfoldable pub come_by : ℕ → List Incoming → List Incoming
come_by t [] = []
come_by t (frame raw at ∷ rest) =
    let more = come_by t rest in if leb at t then frame raw at ∷ more else []
come_by t (signal ∷ rest) = signal ∷ come_by t rest
come_by t (failure e ∷ rest) = failure e ∷ []

abbrev pub has_raised : Watch → Bool
has_raised (stalled t) = true
has_raised (stopped t) = false
has_raised (watching t) = false

module _ (sc : SortedContainers) {P : Type 0} (publisher : Publisher P) (config : Config)
    (a : Attempt) (s : Consumer sc publisher) where
  -- The consumer when the socket is open.
  abbrev pub opened : Consumer sc publisher
  opened = record s { backoff = config.backoff_initial }

  -- What the watchdog sees at a time: `handler.last_heartbeat_at`, and whether stopping is set.
  abbrev pub heard : ℕ → Option ℕ
  heard t = (consume sc publisher (come_by t a.incoming) opened).1.handler.last_heartbeat_at

  abbrev pub is_stopping : ℕ → Bool
  is_stopping t = (consume sc publisher (come_by t a.incoming) opened).1.stopping

  module _ (half_timeout now : ℕ) (delays : List ℕ) where
    -- The watchdog of the attempt, over its sleeps from the opening of the socket to the end of
    -- the reading.
    abbrev pub watch : Watch
    watch = watchdog half_timeout heard is_stopping now delays

    -- The attempt with the watchdog that `_consume` starts.
    unfoldable pub watched : Attempt
    watched = record a { stalled = has_raised watch }

    raised_lem :
        (latest : ℕ) (w : Watch)
        → RaisesWithin half_timeout heard is_stopping latest w
        → has_raised w ≡ true
    raised_lem latest (stalled t) r = refl
    raised_lem latest (stopped t) r = elim r [ ]
    raised_lem latest (watching t) r = elim r [ ]

    -- The alarm comes, but interrupts nothing. If the last heartbeat comes at `last`, nothing stops
    -- the consumer, and the socket stays open for longer than the timeout after it, then the
    -- watchdog raises, at most half a timeout and one delay later than the timeout. But everything
    -- that ever comes on the socket is read as without it, and only then is the ConnectionError
    -- raised.
    pub stall_unnoticed :
        (last most_delay : ℕ)
        → open_socket config a ≡ ok tt
        → ((t : ℕ) → last ≤ t → heard t ≡ some last)
        → ((t : ℕ) → is_stopping t ≡ false)
        → now ≤ last + (half_timeout + half_timeout)
        → All (λ delay. delay ≤ most_delay) delays
        → last + (half_timeout + half_timeout) < now + length delays * half_timeout
        → RaisesWithin half_timeout heard is_stopping
            (last + (half_timeout + half_timeout) + half_timeout + most_delay)
            watch
          × (connect sc publisher config watched s
              ≡ (raise connection_error, (consume sc publisher a.incoming opened).1))
    unfolding watched connect open_socket consume
    stall_unnoticed last most_delay is_open silent running early small long =
        let r =
          watchdog-RaisesWithin half_timeout heard is_stopping last most_delay silent running delays
            now early small long in
        (r, rw (connect, is_open, raised_lem _ watch r) refl)
