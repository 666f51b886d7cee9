-- ===== src/Consumer/Tests.antt =====
-- A consumer of BTC-USD whose first attempts are refused, and a connection that is lost.
use crypto_market_platform.Base.{
  All, ℕ, ◌*◌, ◌^◌, ◌≡◌, refl, false, Option, some, none, [], ◌∷◌, arith, ltb, if◌then◌else◌,
}
use Prim.Native.Nat.{min}
use crypto_market_platform.Base.Result.{connection_error}
use crypto_market_platform.SortedContainers.Reference.{reference}
use crypto_market_platform.Metrics.{new_reporter, snapshot}
use crypto_market_platform.Metrics.Series.{request}
use crypto_market_platform.Metrics.Series.Names.{IsApart}
use crypto_market_platform.Handler.Products.{Covers}
use crypto_market_platform.Consumer.Products.{run-Covers}
use crypto_market_platform.Consumer.Subscribing.{subscribe_message}
use crypto_market_platform.Consumer.Batches.{run-IsApart}
use crypto_market_platform.Publisher.{recording}
use crypto_market_platform.Handler.{new_handler}
use crypto_market_platform.Consumer.{
  open_socket, Attempt, frame, run, turn, connect, recover, wait, disconnect,
}
use crypto_market_platform.Consumer.Watchdog.{watchdog, IsStall, watchdog-IsStall}
use crypto_market_platform.Publisher.Schemas.{all_accepted}
use crypto_market_platform.Handler.Types.{IsTyped}
use crypto_market_platform.Consumer.Types.{run-IsTyped}
use crypto_market_platform.Consumer.Backoff.{IsPaced, run-IsPaced, run-Refused}
use crypto_market_platform.Consumer.Resets.{Lost, turn-Lost}
use crypto_market_platform.Consumer.Samples.{config, refused, lost, start, match}

sleeps :
    (run reference recording config (refused ∷ refused ∷ refused ∷ []) start).0
    ≡ 750000 ∷ 1500000 ∷ 3000000 ∷ []
unfolding run turn connect recover wait disconnect open_socket
sleeps = refl

run-IsPaced_example :
    All
      (IsPaced reference recording config)
      (run reference recording config (refused ∷ lost ∷ refused ∷ []) start).0
run-IsPaced_example =
    run-IsPaced reference recording config (refused ∷ lost ∷ refused ∷ []) start (omega arith)
      (omega arith, (omega arith, (omega arith, tt))) refl

run-Refused_example :
    let s' = (run reference recording config (refused ∷ refused ∷ []) start).1 in
    (s'.stopping ≡ false) × (s'.backoff ≡ min (1000 * 2 ^ 2) 60000)
unfolding open_socket
run-Refused_example =
    run-Refused reference recording config (refused ∷ refused ∷ []) start refl (omega arith)
      ((connection_error, refl, refl, refl), ((connection_error, refl, refl, refl), tt))

turn-Lost_example : Lost reference recording (turn reference recording config lost start)
unfolding new_handler new_reporter
turn-Lost_example = turn-Lost reference recording config lost start refl

-- A feed that falls silent at 20, with a timeout of 10.
abbrev silent_from : ℕ → Option ℕ
silent_from t = if ltb t 20 then some t else some 20

watchdog-IsStall_example :
    IsStall 5 silent_from
      (λ t. false)
      (watchdog 5 silent_from (λ t. false) 0 (1 ∷ 0 ∷ 2 ∷ 1 ∷ 0 ∷ 0 ∷ []))
watchdog-IsStall_example =
    watchdog-IsStall 5 silent_from (λ t. false) (1 ∷ 0 ∷ 2 ∷ 1 ∷ 0 ∷ 0 ∷ []) 0

abbrev read : Attempt
read = record lost { incoming = frame (some match) 0 ∷ frame none 0 ∷ [] }

run-IsTyped_example :
    IsTyped reference (run reference recording config (refused ∷ read ∷ []) start).1.handler
unfolding new_handler new_reporter all_accepted
run-IsTyped_example = run-IsTyped reference config (refused ∷ read ∷ []) start refl

run-Covers_example :
    Covers reference recording
      ("BTC-USD" ∷ [])
      (run reference recording config (refused ∷ read ∷ []) start).1.handler
unfolding subscribe_message new_handler
run-Covers_example = run-Covers reference recording config (refused ∷ read ∷ []) start refl

run-IsApart_example :
    let counters =
      (run reference recording config (refused ∷ read ∷ []) start).1.handler.metrics.counters in
    IsApart (request "p" 1770000000000000 (snapshot counters)).time_series
unfolding new_handler new_reporter
run-IsApart_example =
    run-IsApart reference recording config (refused ∷ read ∷ []) start "p" 1770000000000000 refl
