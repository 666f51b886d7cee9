-- ===== src/Handler/Totals.antt =====
-- ws_client.py and metrics.py: the counters over a session that no handler, or only one, touches.
use crypto_market_platform.Base.{ℕ, suc, ◌+◌, ◌≡◌, refl, List, [], ◌∷◌, arith}
use crypto_market_platform.SortedContainers.{SortedContainers}
use crypto_market_platform.Metrics.{record_message, record_lag}
use crypto_market_platform.Publisher.{Publisher}
use crypto_market_platform.Handler.{
  MessageHandler, handle_match, handle_snapshot, handle_l2update, handle_heartbeat, handle,
  on_disconnect,
}
use crypto_market_platform.Handler.Messages.{Message}
use crypto_market_platform.Handler.Session.{
  Event, message, disconnected, disconnects, run, run_keeps, handle_keeps,
}

module _ (sc : SortedContainers) {P : Type 0} (publisher : Publisher P) where
  abbrev ErrorsAre : ℕ → MessageHandler sc publisher → Type 0
  ErrorsAre n h = h.metrics.counters.publish_errors_total ≡ n

  match-ErrorsAre :
      (n : ℕ) (msg : Message) (t : ℕ) (h : MessageHandler sc publisher)
      → ErrorsAre n h
      → ErrorsAre n (handle_match sc publisher msg t h).1
  unfolding handle_match record_message record_lag
  match-ErrorsAre n msg t h i = ground arith

  snapshot-ErrorsAre :
      (n : ℕ) (msg : Message) (t : ℕ) (h : MessageHandler sc publisher)
      → ErrorsAre n h
      → ErrorsAre n (handle_snapshot sc publisher msg t h).1
  unfolding handle_snapshot record_message
  snapshot-ErrorsAre n msg t h i = ground arith

  l2update-ErrorsAre :
      (n : ℕ) (msg : Message) (t : ℕ) (h : MessageHandler sc publisher)
      → ErrorsAre n h
      → ErrorsAre n (handle_l2update sc publisher msg t h).1
  unfolding handle_l2update record_message
  l2update-ErrorsAre n msg t h i = ground arith

  heartbeat-ErrorsAre :
      (n : ℕ) (msg : Message) (t : ℕ) (h : MessageHandler sc publisher)
      → ErrorsAre n h
      → ErrorsAre n (handle_heartbeat sc publisher msg t h).1
  unfolding handle_heartbeat record_message
  heartbeat-ErrorsAre n msg t h i = ground arith

  disconnect-ErrorsAre :
      (n : ℕ) (h : MessageHandler sc publisher)
      → ErrorsAre n h
      → ErrorsAre n (on_disconnect sc publisher h)
  unfolding on_disconnect
  disconnect-ErrorsAre n h i = i

  -- No session, whatever its messages and whatever the publisher answers, changes
  -- `publish_errors_total`, the counter of failed publishes that the metrics report.
  pub publish_errors_never_counted :
      (events : List Event) (h : MessageHandler sc publisher)
      → (run sc publisher events h).metrics.counters.publish_errors_total
        ≡ h.metrics.counters.publish_errors_total
  publish_errors_never_counted events h =
      let n = h.metrics.counters.publish_errors_total in
      run_keeps sc publisher (ErrorsAre n) (match-ErrorsAre n) (snapshot-ErrorsAre n)
        (l2update-ErrorsAre n) (heartbeat-ErrorsAre n) (disconnect-ErrorsAre n) events h refl

  abbrev ResetsAre : ℕ → MessageHandler sc publisher → Type 0
  ResetsAre n h = h.metrics.counters.book_resets_total ≡ n

  match-ResetsAre :
      (n : ℕ) (msg : Message) (t : ℕ) (h : MessageHandler sc publisher)
      → ResetsAre n h
      → ResetsAre n (handle_match sc publisher msg t h).1
  unfolding handle_match record_message record_lag
  match-ResetsAre n msg t h i = ground arith

  snapshot-ResetsAre :
      (n : ℕ) (msg : Message) (t : ℕ) (h : MessageHandler sc publisher)
      → ResetsAre n h
      → ResetsAre n (handle_snapshot sc publisher msg t h).1
  unfolding handle_snapshot record_message
  snapshot-ResetsAre n msg t h i = ground arith

  l2update-ResetsAre :
      (n : ℕ) (msg : Message) (t : ℕ) (h : MessageHandler sc publisher)
      → ResetsAre n h
      → ResetsAre n (handle_l2update sc publisher msg t h).1
  unfolding handle_l2update record_message
  l2update-ResetsAre n msg t h i = ground arith

  heartbeat-ResetsAre :
      (n : ℕ) (msg : Message) (t : ℕ) (h : MessageHandler sc publisher)
      → ResetsAre n h
      → ResetsAre n (handle_heartbeat sc publisher msg t h).1
  unfolding handle_heartbeat record_message
  heartbeat-ResetsAre n msg t h i = ground arith

  disconnect-ResetsAre :
      (n : ℕ) (h : MessageHandler sc publisher)
      → ResetsAre n h
      → ResetsAre (suc n) (on_disconnect sc publisher h)
  unfolding on_disconnect
  disconnect-ResetsAre n h i = omega arith

  message-ResetsAre :
      (n : ℕ) (msg : Message) (t : ℕ) (h : MessageHandler sc publisher)
      → ResetsAre n h
      → ResetsAre n (handle sc publisher msg t h).1
  message-ResetsAre n =
      handle_keeps sc publisher (ResetsAre n) (match-ResetsAre n) (snapshot-ResetsAre n)
        (l2update-ResetsAre n) (heartbeat-ResetsAre n)

  -- `book_resets_total` counts the disconnects of the session, and nothing else moves it.
  pub resets_counted :
      (events : List Event) (h : MessageHandler sc publisher)
      → (run sc publisher events h).metrics.counters.book_resets_total
        ≡ h.metrics.counters.book_resets_total + disconnects events
  unfolding run
  resets_counted [] h = omega arith
  resets_counted (message msg t ∷ events) h = omega (
    arith,
    resets_counted events (handle sc publisher msg t h).1,
    message-ResetsAre _ msg t h refl,
  )
  resets_counted (disconnected ∷ events) h =
      omega
        (arith, resets_counted events (on_disconnect sc publisher h), disconnect-ResetsAre _ h refl)
