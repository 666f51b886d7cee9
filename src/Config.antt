-- ===== src/Config.antt =====
-- ingest/src/consumer/config.py: the settings, read from the environment, which is a dictionary.
-- `float(text)` is the exact number that the text stands for. Digits are those of ASCII.
pub mod Items
pub mod Products
mod Tests
use Prim.Native.Char.{Char, code}
use Prim.Native.String.{◌++◌ as append}
use crypto_market_platform.Base.{
  ℕ, ◌+◌, ◌-◌, ◌*◌, ◌||◌, String, Bool, true, false, ◌&&◌, Option, none, some, List, [], ◌∷◌, leb,
  ◌==◌, str_eq, if◌then◌else◌, map,
}
use crypto_market_platform.Base.Dict
use crypto_market_platform.Base.Dict.{Dict}
use crypto_market_platform.Base.Result
use crypto_market_platform.Base.Result.{Result, ok, raise, value_error}
use crypto_market_platform.Base.Int.{ℤ, pos, negate}
use crypto_market_platform.Decimal.{Decimal}
use crypto_market_platform.Decimal.Text.{decimal, codes, is_digit}
use Items.{is_empty, strip, split}

-- `os.environ`
abbrev pub Environ : Type 0
Environ = Dict String

abbrev pub given : Option String → String → String
given none default = default
given (some text) default = text

-- `os.environ.get(name, default)`
abbrev pub getenv : Environ → String → String → String
getenv environ name default = given (Dict.get name environ) default

-- `[item.strip() for item in items if item.strip()]`
unfoldable pub stripped : List String → List String
stripped [] = []
stripped (item ∷ items) =
    let rest = stripped items in if is_empty (strip item) then rest else strip item ∷ rest

-- `items or default`
abbrev pub or_default : List String → List String → List String
or_default [] default = default
or_default (item ∷ items) default = item ∷ items

unfoldable pub env_list : Environ → String → List String → List String
unfolding stripped split strip
env_list environ name default = or_default (stripped (split (getenv environ name ""))) default

-- `text.lower() == "true"`: only the letters of "true" and their capitals become those letters.
abbrev to_lower : ℕ → ℕ
to_lower c = if leb b'A' c && leb c b'Z' then c + 32 else c

abbrev same_codes : List ℕ → List ℕ → Bool
same_codes [] [] = true
same_codes (c ∷ s) (d ∷ t) = c == d && same_codes s t
same_codes _ _ = false

unfoldable pub is_true : String → Bool
is_true text = same_codes (map to_lower (codes text)) (codes "true")

-- `float(text)`
unfoldable pub float_of : String → Result Decimal
unfolding decimal strip
float_of text = elim (decimal (strip text)) [ ok d ↦ ok d | raise e ↦ raise value_error ]

-- Decimal digits, with single underscores between them.
unfoldable digits_read : ℕ → Bool → List ℕ → Result ℕ
digits_read n after_digit [] = if after_digit then ok n else raise value_error
digits_read n after_digit (c ∷ s) =
    let next = digits_read (if is_digit c then n * 10 + (c - b'0') else n) (is_digit c) s in
    if is_digit c || (c == b'_' && after_digit) then next else raise value_error

abbrev signed : List ℕ → Result ℤ
signed [] = raise value_error
signed (c ∷ s) =
    if c == b'-'
    then Result.◌>>=◌ (digits_read 0 false s) (λ n. ok (negate (pos n)))
    else if c == b'+'
    then Result.◌>>=◌ (digits_read 0 false s) (λ n. ok (pos n))
    else Result.◌>>=◌ (digits_read 0 false (c ∷ s)) (λ n. ok (pos n))

-- `int(text)` of a setting, in the digits of ASCII.
unfoldable pub int_setting : String → Result ℤ
unfolding digits_read strip
int_setting text = signed (codes (strip text))

abbrev pub channels : List String
channels = "matches" ∷ "level2_batch" ∷ "heartbeat" ∷ []

abbrev pub default_products : List String
default_products = "BTC-USD" ∷ "ETH-USD" ∷ "SOL-USD" ∷ []

pub record Config : Type 0 where
  pub project_id : String
  pub ws_url : String
  pub products : List String
  pub heartbeat_timeout_s : Decimal
  pub backoff_initial_s : Decimal
  pub backoff_max_s : Decimal
  pub ws_max_message_bytes : ℤ
  pub publish_enabled : Bool
  pub metrics_enabled : Bool

-- `Config()`, with the defaults of the class, which the import of the module reads.
unfoldable pub config : Environ → Result Config
unfolding env_list is_true float_of int_setting
config environ = Result.◌>>=◌ (float_of (getenv environ "HEARTBEAT_TIMEOUT_S" "10")) λ timeout.
    Result.◌>>=◌ (float_of (getenv environ "BACKOFF_INITIAL_S" "1")) λ initial.
      Result.◌>>=◌ (float_of (getenv environ "BACKOFF_MAX_S" "60")) λ most.
        Result.◌>>=◌ (int_setting (getenv environ "WS_MAX_MESSAGE_BYTES" "67108864")) λ bytes.
          ok (record {
            project_id = getenv environ "GCP_PROJECT" "";
            ws_url = getenv environ "WS_URL" "wss://ws-feed.exchange.coinbase.com";
            products = env_list environ "PRODUCTS" default_products;
            heartbeat_timeout_s = timeout;
            backoff_initial_s = initial;
            backoff_max_s = most;
            ws_max_message_bytes = bytes;
            publish_enabled = is_true (getenv environ "PUBLISH_ENABLED" "true");
            metrics_enabled = is_true (getenv environ "METRICS_ENABLED" "true");
          })

unfoldable pub topic : String → String
topic channel = append "market.raw." channel
