-- ===== src/Metrics/Series.antt =====
-- ingest/src/consumer/metrics.py, `MetricsReporter._write`: the request with one series for each
-- name of a snapshot. The Monitoring client is a parameter.
pub mod Names
use Prim.Native.Char.{code}
use Prim.Native.String
use Prim.Native.String.{◌++◌ as append}
use mathlib.Core.List.{foldl}
use crypto_market_platform.Base.{
  ℕ, ◌/◌, ◌≡◌, ◌≢◌, refl, ap, ◌∙◌, sym, String, Option, none, some, List, [], ◌∷◌, map, All, ◌==◌,
  if◌then◌else◌, arith, eq_iff,
}
use crypto_market_platform.Base.Int.{ℤ}
use crypto_market_platform.Base.Dict
use crypto_market_platform.Base.Dict.{Dict}
use crypto_market_platform.Base.Result.{Result}
use crypto_market_platform.Metrics.{
  Counters, Value, total, lag, put_channel, put_lag, lag_percentile, snapshot,
}

abbrev pub metric_prefix : String
metric_prefix = "custom.googleapis.com/market"

-- `name.replace(".", "_")`
unfoldable pub replace_dots : String → String
replace_dots String.[] = String.[]
replace_dots (String.◌∷◌ c s) =
    let rest = replace_dots s in String.◌∷◌ (if code c == b'.' then "_" else c) rest

abbrev pub metric_type : String → String
metric_type name = append metric_prefix (append "/" (replace_dots name))

-- `monitoring_v3.types.TimeSeries` with one point: its end in seconds, and its value.
pub record TimeSeries : Type 0 where
  pub metric : String
  pub resource_type : String
  pub end_seconds : ℕ
  pub double_value : Value

-- The call `create_time_series`.
pub record Request : Type 0 where
  pub name : String
  pub time_series : List TimeSeries

abbrev pub series : ℕ → String × Value → TimeSeries
series now (name, value) = record {
  metric = metric_type name;
  resource_type = "global";
  end_seconds = now / 1000000;
  double_value = value;
}

-- The request for a snapshot, at a time in microseconds.
unfoldable pub request : String → ℕ → Dict Value → Request
request project_id now snap = record {
  name = append "projects/" project_id;
  time_series = map (series now) snap;
}

unfoldable pub write : (Request → Result (Unit {0})) → String → ℕ → Dict Value → Result (Unit {0})
write create_time_series project_id now snap = create_time_series (request project_id now snap)
