-- ===== src/Metrics/Tests.antt =====
-- Runs of the counters and of the reporter.
use crypto_market_platform.Metrics.Series.{metric_type, replace_dots}
use crypto_market_platform.Base.{◌≡◌, ◌⊎◌, refl, true, some, [], ◌∷◌, arith, All, eq_iff}
use crypto_market_platform.Base.Int.{pos, negsuc}
use crypto_market_platform.Base.Dict.{Dict}
use crypto_market_platform.Base.Sort.{sorted}
use crypto_market_platform.Base.Result.{Result, raise, connection_error}
use crypto_market_platform.Metrics.{
  Counters, new_counters, lag_percentile, Value, new_reporter, MetricsReporter, written,
  write_failed,
}
use crypto_market_platform.Metrics.Lags.{IsPercentile, lag_percentile-IsPercentile}
use crypto_market_platform.Metrics.Flushes.{flush_all, interval_not_enforced}

abbrev lags : Counters
lags = record new_counters { ingest_lag_samples = pos 40 ∷ negsuc 2 ∷ pos 7 ∷ pos 90 ∷ [] }

median : lag_percentile lags 50 ≡ some (pos 40)
unfolding lag_percentile sorted
median = refl

lag_percentile-IsPercentile_example :
    IsPercentile lags.ingest_lag_samples 95 (lag_percentile lags 95)
lag_percentile-IsPercentile_example = lag_percentile-IsPercentile lags 95

-- A Monitoring service that is down.
abbrev unreachable : Dict Value → Result (Unit {0})
unreachable snapshot = raise connection_error

abbrev reporter : MetricsReporter
reporter = new_reporter "market" true

interval_not_enforced_example :
    All
      (λ f. (f ≡ written) ⊎ (f ≡ write_failed))
      (flush_all unreachable (20000000 ∷ 20000001 ∷ []) (new_reporter "market" true)).0
interval_not_enforced_example =
    interval_not_enforced unreachable "market" (20000000 ∷ 20000001 ∷ [])
      (λ e. ground (arith, (eq_iff "market" "").1 e)) (omega arith, (omega arith, tt))

a_series : metric_type "ingest_lag_ms.p50" ≡ "custom.googleapis.com/market/ingest_lag_ms_p50"
unfolding replace_dots
a_series = refl
