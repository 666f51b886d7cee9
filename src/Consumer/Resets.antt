-- ===== src/Consumer/Resets.antt =====
-- ws_client.py, `WebSocketConsumer.run`: what a lost connection leaves of the handler's state.
use crypto_market_platform.Base.{
  ℕ, ◌≡◌, refl, Option, none, some, List, arith, inl, inr, Bool-cases,
}
use crypto_market_platform.Base.Result.{Result, ok, raise}
use crypto_market_platform.SortedContainers.{SortedContainers}
use crypto_market_platform.Metrics.{record_message, record_lag}
use crypto_market_platform.Publisher.{Publisher}
use crypto_market_platform.Handler.{
  MessageHandler, handle_match, handle_snapshot, handle_l2update, handle_heartbeat, handle,
  on_disconnect,
}
use crypto_market_platform.Handler.Messages.{Message}
use crypto_market_platform.Handler.Books.{Unready, disconnect-Unready}
use crypto_market_platform.Handler.Session.{handle_keeps}
use crypto_market_platform.Consumer.Keeps.{connect_keeps, run_keeps}
use crypto_market_platform.Consumer.{
  Config, Attempt, Consumer, connect, recover, turn, wait, disconnect, run,
}

module _ (sc : SortedContainers) {P : Type 0} (publisher : Publisher P) where
  -- The two counters of lost connections agree.
  abbrev pub Agree : MessageHandler sc publisher → Type 0
  Agree h = h.metrics.counters.websocket_reconnects_total ≡ h.metrics.counters.book_resets_total

  match-Agree :
      (msg : Message) (t : ℕ) (h : MessageHandler sc publisher)
      → Agree h
      → Agree (handle_match sc publisher msg t h).1
  unfolding handle_match record_message record_lag
  match-Agree msg t h i = ground arith

  snapshot-Agree :
      (msg : Message) (t : ℕ) (h : MessageHandler sc publisher)
      → Agree h
      → Agree (handle_snapshot sc publisher msg t h).1
  unfolding handle_snapshot record_message
  snapshot-Agree msg t h i = ground arith

  l2update-Agree :
      (msg : Message) (t : ℕ) (h : MessageHandler sc publisher)
      → Agree h
      → Agree (handle_l2update sc publisher msg t h).1
  unfolding handle_l2update record_message
  l2update-Agree msg t h i = ground arith

  heartbeat-Agree :
      (msg : Message) (t : ℕ) (h : MessageHandler sc publisher)
      → Agree h
      → Agree (handle_heartbeat sc publisher msg t h).1
  unfolding handle_heartbeat record_message
  heartbeat-Agree msg t h i = ground arith

  handle-Agree :
      (msg : Message) (t : ℕ) (h : MessageHandler sc publisher)
      → Agree h
      → Agree (handle sc publisher msg t h).1
  handle-Agree =
      handle_keeps sc publisher Agree match-Agree snapshot-Agree l2update-Agree heartbeat-Agree

  -- What a turn leaves: if it sleeps, the books are not ready and no heartbeat is remembered.
  abbrev pub Lost : Option ℕ × Consumer sc publisher → Type 0
  Lost (none, s) = Agree s.handler
  Lost (some sleep, s) =
      Agree s.handler × Unready sc publisher s.handler.books × (s.handler.last_heartbeat_at ≡ none)

  wait-Lost :
      (config : Config) (a : Attempt) (s : Consumer sc publisher)
      → Agree s.handler
      → Lost (wait sc publisher config a (disconnect sc publisher s))
  unfolding wait disconnect on_disconnect
  wait-Lost config a s i = elim (Bool-cases s.stopping) [
    | inl stopped ↦ simp stopped (omega (arith, i))
    | inr on ↦ simp on (omega (arith, i), disconnect-Unready sc publisher s.handler, refl)
  ]

  recover-Lost :
      (config : Config) (a : Attempt) (r : Result (Unit {0})) (s : Consumer sc publisher)
      → Agree s.handler
      → Lost (recover sc publisher config a r s)
  unfolding recover
  recover-Lost config a (ok done) s i = wait-Lost config a s i
  recover-Lost config a (raise e) s i = elim (Bool-cases s.stopping) [
    | inl stopped ↦ simp stopped i
    | inr on ↦ simp on (wait-Lost config a s i)
  ]

  -- A turn of the loop that ends in a sleep, and so in another attempt, has reset the handler: no
  -- book is ready and no heartbeat is remembered, whatever came on the socket and however it was
  -- lost. In every turn the reconnects and the resets stay equal if they were.
  pub turn-Lost :
      (config : Config) (a : Attempt) (s : Consumer sc publisher)
      → Agree s.handler
      → Lost (turn sc publisher config a s)
  unfolding turn
  turn-Lost config a s i =
      recover-Lost config a (connect sc publisher config a s).0 _
        (connect_keeps sc publisher Agree handle-Agree config a s i)

  disconnect-Agree :
      (s : Consumer sc publisher) → Agree s.handler → Agree (disconnect sc publisher s).handler
  unfolding disconnect on_disconnect
  disconnect-Agree s i = omega (arith, i)

  -- Through any attempts, `websocket_reconnects_total` and `book_resets_total` stay equal if they
  -- are equal at the start: no connection is lost without a reset of the books, nor twice counted.
  pub run-Agree :
      (config : Config) (attempts : List Attempt) (s : Consumer sc publisher)
      → Agree s.handler
      → Agree (run sc publisher config attempts s).1.handler
  run-Agree = run_keeps sc publisher Agree handle-Agree disconnect-Agree
