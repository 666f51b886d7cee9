-- ===== src/Consumer/Errors.antt =====
-- ws_client.py, `WebSocketConsumer`: what a message of kind "error" does to the loop.
use crypto_market_platform.Base.{
  ℕ, ◌≡◌, ap, refl, Bool, true, false, some, List, [], ◌∷◌, ◌++◌, if◌then◌else◌,
}
use crypto_market_platform.Base.Result.{Result, ok, raise, key_error}
use crypto_market_platform.SortedContainers.{SortedContainers}
use crypto_market_platform.Publisher.{Publisher}
use crypto_market_platform.Handler.{handle}
use crypto_market_platform.Handler.Messages.{Message}
use crypto_market_platform.Consumer.{
  open_socket, Config, Attempt, Consumer, Incoming, frame, signal, failure, stop, receive, go_on,
  consume, disconnect, connect, recover, wait, turn,
}

module _ (sc : SortedContainers) {P : Type 0} (publisher : Publisher P) (msg : Message) (t : ℕ)
    (is_error : msg.kind ≡ some "error") (rest : List Incoming) where
  receive-error :
      (s : Consumer sc publisher) → receive sc publisher (some msg) t s ≡ (raise key_error, s)
  unfolding receive handle
  receive-error s = rw is_error refl

  go_on-error :
      (first then_all : Consumer sc publisher → Result (Unit {0}) × Consumer sc publisher)
      (outcome : Result (Unit {0}) × Consumer sc publisher) (s' : Consumer sc publisher)
      → ((s : Consumer sc publisher) → first s ≡ (ok tt, s') → then_all s ≡ (raise key_error, s'))
      → go_on sc publisher first outcome ≡ (ok tt, s')
      → go_on sc publisher then_all outcome ≡ (raise key_error, s')
  go_on-error first then_all (ok done, s) s' later e = later s e
  go_on-error first then_all (raise x, s) s' later e = cc e

  read_frame :
      (stopping : Bool)
      (first then_all : Consumer sc publisher → Result (Unit {0}) × Consumer sc publisher)
      (outcome : Result (Unit {0}) × Consumer sc publisher) (s s' : Consumer sc publisher)
      → s.stopping ≡ stopping
      → s'.stopping ≡ false
      → ((s : Consumer sc publisher) → first s ≡ (ok tt, s') → then_all s ≡ (raise key_error, s'))
      → (if stopping then (ok tt, s) else go_on sc publisher first outcome) ≡ (ok tt, s')
      → (if stopping then (ok tt, s) else go_on sc publisher then_all outcome)
        ≡ (raise key_error, s')
  read_frame true first then_all outcome s s' stopped on later e =
      let same : s ≡ s' = ap (λ (r : Result (Unit {0}) × Consumer sc publisher). r.1) e in
      cc (same, stopped, on)
  read_frame false first then_all outcome s s' running on later e =
      go_on-error first then_all outcome s' later e

  -- The frames before it are read as ever, and it ends the reading.
  consume-error :
      (before : List Incoming) (s s' : Consumer sc publisher)
      → consume sc publisher before s ≡ (ok tt, s')
      → s'.stopping ≡ false
      → consume sc publisher (before ++ frame (some msg) t ∷ rest) s ≡ (raise key_error, s')
  unfolding consume
  consume-error [] s s' e on =
      let same : s ≡ s' = ap (λ (r : Result (Unit {0}) × Consumer sc publisher). r.1) e in
      let running : s.stopping ≡ false = cc (same, on) in
      rw (receive-error s) (simp running (cc same))
  consume-error (signal ∷ before) s s' e on = consume-error before (stop sc publisher s) s' e on
  consume-error (failure x ∷ before) s s' e on = cc e
  consume-error (frame raw at ∷ before) s s' e on =
      read_frame s.stopping (consume sc publisher before)
        (consume sc publisher (before ++ frame (some msg) t ∷ rest)) (receive sc publisher raw at s)
        s s' refl on (λ s₁ e₁. consume-error before s₁ s' e₁ on) e

  -- A message of kind "error", which the code means to log and go on from, ends the connection. If
  -- what came before it was read without an exception and nothing has stopped the consumer, then
  -- nothing after it is read: the turn ends as one whose connection is lost, with the handler
  -- reset, the reconnect counted, and a sleep.
  pub turn-error :
      (config : Config) (a : Attempt) (before : List Incoming) (s s' : Consumer sc publisher)
      → open_socket config a ≡ ok tt
      → a.incoming ≡ before ++ frame (some msg) t ∷ rest
      → a.stalled ≡ false
      → consume sc publisher before (record s { backoff = config.backoff_initial }) ≡ (ok tt, s')
      → s'.stopping ≡ false
      → turn sc publisher config a s ≡ wait sc publisher config a (disconnect sc publisher s')
  unfolding turn connect recover
  turn-error config a before s s' is_open comes quiet e on =
      rw
        (
          connect,
          is_open,
          comes,
          quiet,
          consume-error before (record s { backoff = config.backoff_initial }) s' e on,
          on,
        )
        refl
