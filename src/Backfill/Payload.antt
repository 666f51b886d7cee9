-- ===== src/Backfill/Payload.antt =====
-- scripts/backfill_trades.py, `to_topic_payload`: the row that a trade of the API becomes.
use Prim.Native.Char.{Char, char, code}
use Prim.Native.String.{◌++◌ as append}
use package.text.Mathlib.Text.{starts_with}
use crypto_market_platform.Base.{ℕ, zero, suc, String, Bool, false, [], ◌∷◌, ◌==◌, if◌then◌else◌}
use crypto_market_platform.Base.Result.{Result, ok, ◌>>=◌}
use crypto_market_platform.Datetime.{iso}
use crypto_market_platform.Handler.Messages.{required, int_of, str_of}
use crypto_market_platform.Publisher.{Payload, number, text}
use crypto_market_platform.Backfill.{RestTrade}

abbrev letter_z : Char
letter_z = char 90 tt

-- `value.replace("+00:00", "Z")`, with the number of characters still to be passed over.
unfoldable pub replace_offset : ℕ → String → String
replace_offset skip String.[] = String.[]
replace_offset (suc skip) (String.◌∷◌ c s) = replace_offset skip s
replace_offset zero (String.◌∷◌ c s) =
    let here = starts_with (String.◌∷◌ c s) "+00:00" in
    String.◌∷◌ (if here then letter_z else c) (replace_offset (if here then 5 else 0) s)

-- `value.endswith("Z")`
abbrev pub ends_with_z : String → Bool
ends_with_z String.[] = false
ends_with_z (String.◌∷◌ c String.[]) = code c == b'Z'
ends_with_z (String.◌∷◌ c (String.◌∷◌ d s)) = ends_with_z (String.◌∷◌ d s)

unfoldable pub event_time : String → String
unfolding replace_offset
event_time value =
    let replaced = replace_offset 0 value in
    if ends_with_z replaced then replaced else append replaced "Z"

-- `to_topic_payload(trade, product)`, at the time `now`.
unfoldable pub to_topic_payload : RestTrade → String → ℕ → Result Payload
unfolding event_time
to_topic_payload trade product now = do
  value ← required trade.time
  raw_id ← required trade.trade_id
  trade_id ← int_of raw_id
  price ← required trade.price
  size ← required trade.size
  side ← required trade.side
  ok (
      ("sequence", number 0)
      ∷ ("product_id", text product)
      ∷ ("trade_id", number trade_id)
      ∷ ("price", text (str_of price))
      ∷ ("size", text (str_of size))
      ∷ ("side", text (str_of side))
      ∷ ("maker_order_id", text "")
      ∷ ("taker_order_id", text "")
      ∷ ("event_time", text (event_time value))
      ∷ ("ingest_time", text (iso now))
      ∷ [])
