-- ===== src/Orchestration/Tests.antt =====
-- Evaluations of the freshness sensor: two on fresh data, none on old data or on none.
use crypto_market_platform.Base.{
  ℕ, ◌≤◌, ◌≡◌, refl, String, Bool, not, Option, none, some, List, [], ◌∷◌, arith, length,
}
use crypto_market_platform.Base.Result.{ok}
use crypto_market_platform.Datetime.{str_of_number}
use crypto_market_platform.Orchestration.{
  Resource, get_asset_key, get_group_name, run_key, feed_freshness_sensor,
}
use crypto_market_platform.Orchestration.Launches.{seen, launch, launched, IsOnce, launched_bounded}

abbrev evaluations : List (List (Option ℕ))
evaluations = [] ∷ (none ∷ []) ∷ (some 2 ∷ []) ∷ (some 2 ∷ []) ∷ (some 90 ∷ []) ∷ (some 0 ∷ []) ∷ []

abbrev once : List String → String → Bool
once past key = not (seen key past)

two_runs : launched once evaluations [] ≡ "fresh-0" ∷ "fresh-2" ∷ []
unfolding launched feed_freshness_sensor launch run_key str_of_number
two_runs = refl

launched_bounded_example :
    (length (launched once evaluations []) ≤ 6) × IsOnce (launched once evaluations [])
launched_bounded_example = launched_bounded once (λ past key old. ground (arith, old)) evaluations

abbrev source : Resource
source = record {
  resource_type = some "source";
  name = some "trades_stream";
  fqn = some ("market" ∷ "raw" ∷ "raw" ∷ "trades_stream" ∷ []);
}

source_key : get_asset_key (λ props. ok []) source ≡ ok ("raw" ∷ "trades_stream" ∷ [])
unfolding get_asset_key
source_key = refl

source_group : get_group_name source ≡ ok "raw"
unfolding get_group_name
source_group = refl
