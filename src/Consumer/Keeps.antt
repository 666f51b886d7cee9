-- ===== src/Consumer/Keeps.antt =====
-- ws_client.py, `WebSocketConsumer.run`: what every handling of a message and every loss of the
-- connection keep of the handler's state, the loop keeps.
use crypto_market_platform.Base.{
  ℕ, Option, none, some, List, [], ◌∷◌, inl, inr, Bool, true, false, Bool-cases,
}
use crypto_market_platform.Base.Result.{Result, ok, raise, Result-cases}
use crypto_market_platform.SortedContainers.{SortedContainers}
use crypto_market_platform.Publisher.{Publisher}
use crypto_market_platform.Handler.{MessageHandler, handle}
use crypto_market_platform.Handler.Messages.{Message}
use crypto_market_platform.Consumer.{
  open_socket, Config, Attempt, Consumer, Incoming, frame, signal, failure, receive, go_on, consume,
  join_watchdog, connect, recover, turn, wait, disconnect, run, resume, stop,
}

module _ (sc : SortedContainers) {P : Type 0} (publisher : Publisher P)
    (I : MessageHandler sc publisher → Type 0)
    (handle_keeps : (msg : Message) (t : ℕ) (h : MessageHandler sc publisher)
      → I h
      → I (handle sc publisher msg t h).1) where
  stop_keeps : (s : Consumer sc publisher) → I s.handler → I (stop sc publisher s).handler
  unfolding stop
  stop_keeps s i = i

  go_on_keeps :
      (rest : List Incoming) (r : Result (Unit {0})) (s : Consumer sc publisher)
      → I s.handler
      → ((s : Consumer sc publisher) → I s.handler → I (consume sc publisher rest s).1.handler)
      → I (go_on sc publisher (consume sc publisher rest) (r, s)).1.handler
  go_on_keeps rest (ok done) s i later = later s i
  go_on_keeps rest (raise e) s i later = i

  consume_keeps :
      (incoming : List Incoming) (s : Consumer sc publisher)
      → I s.handler
      → I (consume sc publisher incoming s).1.handler
  unfolding consume stop receive
  consume_keeps [] s i = i
  consume_keeps (signal ∷ rest) s i = consume_keeps rest (stop sc publisher s) i
  consume_keeps (failure e ∷ rest) s i = i
  consume_keeps (frame none t ∷ rest) s i = elim (Bool-cases s.stopping) [
    | inl stopped ↦ simp stopped i
    | inr on ↦ simp on i
  ]
  consume_keeps (frame (some msg) t ∷ rest) s i = elim (Bool-cases s.stopping) [
    | inl stopped ↦ simp stopped i
    | inr on ↦ simp on (
        go_on_keeps rest (handle sc publisher msg t s.handler).0 _ (handle_keeps msg t s.handler i)
          (consume_keeps rest))
  ]

  join_keeps :
      (stalled : Bool) (outcome : Result (Unit {0}) × Consumer sc publisher)
      → I outcome.1.handler
      → I (join_watchdog sc publisher stalled outcome).1.handler
  join_keeps true (r, s) i = i
  join_keeps false (r, s) i = i

  pub connect_keeps :
      (config : Config) (a : Attempt) (s : Consumer sc publisher)
      → I s.handler
      → I (connect sc publisher config a s).1.handler
  unfolding connect
  connect_keeps config a s i = elim (Result-cases (open_socket config a)) [
    | inl (done, opened) ↦
        rw (connect, opened)
          (join_keeps a.stalled (consume sc publisher a.incoming _) (consume_keeps a.incoming _ i))
    | inr (e, refused) ↦
        rw (connect, refused)
          (elim (Bool-cases a.signalled) [
            | inl signalled ↦ rw signalled (stop_keeps s i)
            | inr unsignalled ↦ rw unsignalled i
          ])
  ]

  module _
      (lost_keeps : (s : Consumer sc publisher)
        → I s.handler
        → I (disconnect sc publisher s).handler) where
    wait_keeps :
        (config : Config) (a : Attempt) (s : Consumer sc publisher)
        → I s.handler
        → I (wait sc publisher config a s).1.handler
    unfolding wait
    wait_keeps config a s i = elim (Bool-cases s.stopping) [
      | inl stopped ↦ simp stopped i
      | inr on ↦ simp on i
    ]

    recover_keeps :
        (config : Config) (a : Attempt) (r : Result (Unit {0})) (s : Consumer sc publisher)
        → I s.handler
        → I (recover sc publisher config a r s).1.handler
    unfolding recover
    recover_keeps config a (ok done) s i = wait_keeps config a _ (lost_keeps s i)
    recover_keeps config a (raise e) s i = elim (Bool-cases s.stopping) [
      | inl stopped ↦ simp stopped i
      | inr on ↦ simp on (wait_keeps config a _ (lost_keeps s i))
    ]

    resume_keeps :
        (again : Consumer sc publisher → List ℕ × Consumer sc publisher)
        (t : Option ℕ × Consumer sc publisher)
        → I t.1.handler
        → ((s : Consumer sc publisher) → I s.handler → I (again s).1.handler)
        → I (resume sc publisher again t).1.handler
    resume_keeps again (none, s) i more = i
    resume_keeps again (some sleep, s) i more = more s i

    pub run_keeps :
        (config : Config) (attempts : List Attempt) (s : Consumer sc publisher)
        → I s.handler
        → I (run sc publisher config attempts s).1.handler
    unfolding run turn
    run_keeps config [] s i = i
    run_keeps config (a ∷ attempts) s i = elim (Bool-cases s.stopping) [
      | inl stopped ↦ simp stopped i
      | inr on ↦ simp on (
          resume_keeps (run sc publisher config attempts) (turn sc publisher config a s)
            (recover_keeps config a (connect sc publisher config a s).0 _
              (connect_keeps config a s i))
            (run_keeps config attempts))
    ]
