-- ===== src/Consumer/Batches.antt =====
-- ws_client.py and metrics.py: what the metrics of a consumer write, after any run of its loop.
use mathlib.Core.Path.{subst}
use crypto_market_platform.Base.{ℕ, ◌≡◌, sym, String, List, []}
use crypto_market_platform.SortedContainers.{SortedContainers}
use crypto_market_platform.Metrics.{snapshot}
use crypto_market_platform.Metrics.Series.{request}
use crypto_market_platform.Metrics.Series.Names.{IsApart, snapshot-IsNamed, series-IsApart}
use crypto_market_platform.Publisher.{Publisher}
use crypto_market_platform.Handler.{on_disconnect}
use crypto_market_platform.Handler.Channels.{IsCounted, Counts, handle-Counts}
use crypto_market_platform.Consumer.{Config, Attempt, Consumer, disconnect, run}
use crypto_market_platform.Consumer.Keeps.{run_keeps}

module _ (sc : SortedContainers) {P : Type 0} (publisher : Publisher P) where
  disconnect-Counts :
      (s : Consumer sc publisher)
      → Counts sc publisher s.handler
      → Counts sc publisher (disconnect sc publisher s).handler
  unfolding disconnect on_disconnect
  disconnect-Counts s i = i

  -- After any attempts of a consumer that starts with no counts, whatever comes on its sockets: no
  -- two series of the request that a write makes of its metrics are of the same metric, though
  -- each name has its dots replaced.
  pub run-IsApart :
      (config : Config) (attempts : List Attempt) (s : Consumer sc publisher) (project_id : String)
      (now : ℕ)
      → s.handler.metrics.counters.messages_received ≡ []
      → let counters = (run sc publisher config attempts s).1.handler.metrics.counters in
        IsApart (request project_id now (snapshot counters)).time_series
  unfolding request
  run-IsApart config attempts s project_id now none_yet =
      let h = (run sc publisher config attempts s).1.handler in
      let i : Counts sc publisher h =
        run_keeps sc publisher (Counts sc publisher) (handle-Counts sc publisher) disconnect-Counts
          config attempts s (subst IsCounted (sym none_yet) (record { known = tt })) in
      series-IsApart now (snapshot h.metrics.counters) (snapshot-IsNamed h.metrics.counters i.known)
