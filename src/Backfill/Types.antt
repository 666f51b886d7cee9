-- ===== src/Backfill/Types.antt =====
-- scripts/backfill_trades.py: a backfilled row is accepted by the schema of the topic of trades.
use crypto_market_platform.Base.{ℕ, ◌≡◌, String, true, arith}
use crypto_market_platform.Base.Result.{Result, ok, raise}
use crypto_market_platform.Publisher.{Payload}
use crypto_market_platform.Publisher.Schemas.{conforms, trades}
use crypto_market_platform.Backfill.{RestTrade}
use crypto_market_platform.Backfill.Payload.{to_topic_payload}

-- A row of the schema, unless the making of it raised.
abbrev pub IsRow : Result Payload → Type 0
IsRow (raise e) = Unit
IsRow (ok payload) = conforms trades payload ≡ true

-- A row that the backfill makes has exactly the fields of the Avro schema of trades, in order and
-- of the schema's types, as the rows of the live feed have, whatever the API returned.
pub to_topic_payload-IsRow :
    (trade : RestTrade) (product : String) (now : ℕ) → IsRow (to_topic_payload trade product now)
unfolding to_topic_payload
to_topic_payload-IsRow trade product now = ground arith
