-- ===== src/Handler/Messages.antt =====
-- The decoded messages that ingest/src/consumer/ws_client.py handles: the keys that it reads, each
-- present or not. Texts and ids have the JSON types that the feed uses; rows are lists of texts.
use crypto_market_platform.Base.{ℕ, String, Option, none, some, List, [], ◌∷◌, ◌==◌, if◌then◌else◌}
use crypto_market_platform.Base.Result.{
  Result, ok, raise, key_error, value_error, type_error, ◌>>=◌,
}
use crypto_market_platform.Decimal.Text.{int_of_text}
use crypto_market_platform.Datetime.{str_of_number}

-- A JSON number, text or null. Numbers are ints that are not negative.
pub data Scalar : Type 0 where
  number : ℕ → Scalar
  text : String → Scalar
  null : Scalar

-- The product id and the time, where present, are texts: the code takes a product id of any JSON
-- type as it is, and messages with another one are outside of the model.
pub record Message : Type 0 where
  -- the key "type"
  pub kind : Option String
  pub product_id : Option String
  pub time : Option String
  pub sequence : Option Scalar
  pub trade_id : Option Scalar
  pub last_trade_id : Option Scalar
  pub price : Option Scalar
  pub size : Option Scalar
  pub side : Option Scalar
  pub maker_order_id : Option Scalar
  pub taker_order_id : Option Scalar
  pub bids : Option (List (List String))
  pub asks : Option (List (List String))
  pub changes : Option (List (List String))

-- `msg[key]`
abbrev pub required : {A : Type 0} → Option A → Result A
required none = raise key_error
required (some a) = ok a

-- `msg.get(key, default)`
abbrev pub get_or : {A : Type 0} → Option A → A → A
get_or none d = d
get_or (some a) d = a

-- `int(value)`
unfoldable pub int_of : Scalar → Result ℕ
int_of (number n) = ok n
int_of (text s) = int_of_text s
int_of null = raise type_error

-- `str(value)`
unfoldable pub str_of : Scalar → String
str_of (number n) = str_of_number n
str_of (text s) = s
str_of null = "None"

-- `str(msg.get(key) or "")`: null, zero and the empty text are false.
unfoldable pub str_or_empty : Option Scalar → String
str_or_empty none = ""
str_or_empty (some null) = ""
str_or_empty (some (text s)) = s
str_or_empty (some (number n)) = if n == 0 then "" else str_of_number n

-- `[(p, s) for p, s in rows]`
unfoldable pub pairs : List (List String) → Result (List (String × String))
pairs [] = ok []
pairs ((p ∷ s ∷ []) ∷ rows) = do rest ← pairs rows; ok ((p, s) ∷ rest)
pairs (_ ∷ rows) = raise value_error

-- `[(side, price, size) for side, price, size in rows]`
unfoldable pub triples : List (List String) → Result (List (String × String × String))
triples [] = ok []
triples ((t ∷ p ∷ s ∷ []) ∷ rows) = do rest ← triples rows; ok ((t, p, s) ∷ rest)
triples (_ ∷ rows) = raise value_error
