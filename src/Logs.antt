-- ===== src/Logs.antt =====
-- ingest/src/consumer/logs.py, `CloudLoggingFormatter`: the fields of a line of the log, before
-- `json.dumps` prints them.
pub mod Extras
mod Tests
use Prim.Native.Char.{code}
use mathlib.Core.List.{foldl}
use crypto_market_platform.Base.{
  ℕ, String, Bool, true, false, not, ◌&&◌, ◌||◌, Option, none, some, List, [], ◌∷◌, ◌==◌, str_eq,
  if◌then◌else◌,
}
use crypto_market_platform.Base.Dict
use crypto_market_platform.Base.Dict.{Dict}

-- A value: a str, an int, a bool, a float by its digits, or another object by what `str` makes of
-- it.
pub data Value : Type 0 where
  text : String → Value
  number : ℕ → Value
  truth : Bool → Value
  floating : String → Value
  object : String → Value

-- A `LogRecord`: `levelname`, `getMessage()`, `name`, `__dict__`, and `exc_info` as
-- `formatException` prints it.
pub record LogRecord : Type 0 where
  pub levelname : String
  pub message : String
  pub name : String
  pub attributes : Dict Value
  pub exc_info : Option String

abbrev pub standard : List String
standard =
    "args" ∷ "asctime" ∷ "created" ∷ "exc_info" ∷ "exc_text" ∷ "filename" ∷ "funcName" ∷ "levelname"
    ∷ "levelno" ∷ "lineno" ∷ "module" ∷ "msecs" ∷ "message" ∷ "msg" ∷ "name" ∷ "pathname"
    ∷ "process" ∷ "processName" ∷ "relativeCreated" ∷ "stack_info" ∷ "thread" ∷ "threadName"
    ∷ "taskName" ∷ []

abbrev pub one_of : String → List String → Bool
one_of key [] = false
one_of key (k ∷ keys) = str_eq k key || one_of key keys

-- `key.startswith("_")`
abbrev pub is_private : String → Bool
is_private String.[] = false
is_private (String.◌∷◌ c s) = code c == b'_'

unfoldable pub is_extra : String → Bool
is_extra key = not (one_of key standard) && not (is_private key)

-- `value if isinstance(value, str | int | float | bool) else str(value)`
abbrev pub plain : Value → Value
plain (object printed) = text printed
plain value = value

unfoldable pub add_extra : Dict Value → String × Value → Dict Value
add_extra payload (key, value) =
    if is_extra key then Dict.put key (plain value) payload else payload

abbrev pub with_exception : Option String → Dict Value → Dict Value
with_exception none payload = payload
with_exception (some trace) payload = Dict.put "exception" (text trace) payload

abbrev pub header : LogRecord → Dict Value
header r =
    ("severity", text r.levelname) ∷ ("message", text r.message) ∷ ("logger", text r.name) ∷ []

unfoldable pub format : LogRecord → Dict Value
format r = with_exception r.exc_info (foldl add_extra (header r) r.attributes)
