-- ===== src/Publisher/Schemas.antt =====
-- schemas/trades.avsc, schemas/l2.avsc and schemas/heartbeat.avsc: the fields of the topics, and
-- whether a payload has them.
use crypto_market_platform.Base.{
  ◌≡◌, String, Bool, true, false, ◌&&◌, Option, none, some, List, [], ◌∷◌, ◌++◌, str_eq,
  if◌then◌else◌, arith,
}
use crypto_market_platform.Publisher.{Field, number, Payload, Published}

-- The Avro types that the schemas use.
pub data AvroType : Type 0 where
  long string : AvroType

abbrev pub Schema : Type 0
Schema = List (String × AvroType)

abbrev pub trades : Schema
trades =
    ("sequence", long)
    ∷ ("product_id", string)
    ∷ ("trade_id", long)
    ∷ ("price", string)
    ∷ ("size", string)
    ∷ ("side", string)
    ∷ ("maker_order_id", string)
    ∷ ("taker_order_id", string)
    ∷ ("event_time", string)
    ∷ ("ingest_time", string)
    ∷ []

abbrev pub l2 : Schema
l2 =
    ("sequence", long)
    ∷ ("product_id", string)
    ∷ ("event_type", string)
    ∷ ("payload", string)
    ∷ ("event_time", string)
    ∷ ("ingest_time", string)
    ∷ []

abbrev pub heartbeat : Schema
heartbeat =
    ("sequence", long)
    ∷ ("product_id", string)
    ∷ ("last_trade_id", long)
    ∷ ("event_time", string)
    ∷ ("ingest_time", string)
    ∷ []

-- Whether a value is of a type: an int of any size is a long, and a dump of JSON is a text.
abbrev pub has_type : AvroType → Field → Bool
has_type long (number n) = true
has_type long _ = false
has_type string (number n) = false
has_type string _ = true

-- Whether a payload has the fields of a schema, in order, and no others.
abbrev pub conforms : Schema → Payload → Bool
conforms [] [] = true
conforms ((name, type) ∷ schema) ((key, value) ∷ payload) =
    str_eq name key && has_type type value && conforms schema payload
conforms _ _ = false

-- The schema of a channel's topic.
abbrev pub schema_of : String → Option Schema
schema_of channel =
    if str_eq channel "trades"
    then some trades
    else if str_eq channel "l2"
    then some l2
    else if str_eq channel "heartbeat"
    then some heartbeat
    else none

abbrev accepts : Option Schema → Payload → Bool
accepts none payload = false
accepts (some schema) payload = conforms schema payload

-- Whether the topic of its channel accepts a message.
unfoldable pub accepted : Published → Bool
accepted (channel, payload, key) = accepts (schema_of channel) payload

unfoldable pub all_accepted : List Published → Bool
all_accepted [] = true
all_accepted (m ∷ ms) = accepted m && all_accepted ms

pub all_accepted-append :
    (ms : List Published) (m : Published)
    → all_accepted (ms ++ m ∷ []) ≡ (all_accepted ms && accepted m)
unfolding all_accepted
all_accepted-append [] m = ground arith
all_accepted-append (n ∷ ms) m = ground (arith, all_accepted-append ms m)
