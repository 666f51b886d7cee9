-- ===== src/Orchestration.antt =====
-- orchestration/sensors.py and orchestration/assets.py: the decision of the freshness sensor, and
-- the names of the assets. The rows of the warehouse are given; Dagster is a parameter.
pub mod Launches
mod Tests
use Prim.Native.String.{◌++◌ as append}
use crypto_market_platform.Base.{
  ℕ, String, Bool, true, false, Option, none, some, List, [], ◌∷◌, ltb, str_eq, if◌then◌else◌,
}
use crypto_market_platform.Base.Result.{Result, ok, raise, key_error, ◌>>=◌}
use crypto_market_platform.Datetime.{str_of_number}
use crypto_market_platform.Handler.Messages.{required}

abbrev pub freshness_limit_minutes : ℕ
freshness_limit_minutes = 5

-- What a sensor returns: `SkipReason(text)`, or `SensorResult` with the keys of its run requests.
pub data Evaluation : Type 0 where
  skip_reason : String → Evaluation
  sensor_result : List String → Evaluation

-- `rows[0].staleness_min if rows and rows[0].staleness_min is not None else None`, in whole
-- minutes, which are not negative: Pub/Sub sets the time of publishing before the query runs.
abbrev pub staleness_of : List (Option ℕ) → Option ℕ
staleness_of [] = none
staleness_of (staleness ∷ rows) = staleness

unfoldable pub run_key : ℕ → String
run_key staleness = append "fresh-" (str_of_number staleness)

abbrev pub decide : Option ℕ → Evaluation
decide none = skip_reason "No trades in the last 24h - the feed has never run or is long dead."
decide (some staleness) =
    if ltb freshness_limit_minutes staleness
    then skip_reason (
        append "Feed stale by "
          (append (str_of_number staleness) " min - not running dbt on frozen data."))
    else sensor_result (run_key staleness ∷ [])

-- `feed_freshness_sensor`, with the rows of its query. The error that it logs is left out.
unfoldable pub feed_freshness_sensor : List (Option ℕ) → Evaluation
feed_freshness_sensor rows = decide (staleness_of rows)

-- What dbt tells the translator of a resource.
pub record Resource : Type 0 where
  pub resource_type : Option String
  pub name : Option String
  pub fqn : Option (List String)

-- `get_asset_key`, with the method of the class it extends.
unfoldable pub get_asset_key : (Resource → Result (List String)) → Resource → Result (List String)
get_asset_key inherited props = do
  kind ← required props.resource_type
  if str_eq kind "source"
      then (do name ← required props.name; ok ("raw" ∷ name ∷ []))
      else inherited props

-- `path[1] if len(path) > 2 else "market"`
abbrev pub layer : List String → String
layer (project ∷ folder ∷ file ∷ rest) = folder
layer path = "market"

unfoldable pub get_group_name : Resource → Result String
get_group_name props = do path ← required props.fqn; ok (layer path)
