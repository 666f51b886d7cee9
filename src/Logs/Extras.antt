-- ===== src/Logs/Extras.antt =====
-- logs.py: what a line of the log has under each key.
use Prim.Native.Char.{code}
use mathlib.Core.List.{foldl}
use crypto_market_platform.Base.{
  ℕ, ◌≡◌, refl, sym, ap, List, Bool, true, false, not, ◌&&◌, ◌==◌, ◌∙◌, String, Option, none, some,
  [], ◌∷◌, str_eq, if◌then◌else◌, arith, inl, inr, Bool-cases, eq_iff,
}
use crypto_market_platform.Base.Dict
use crypto_market_platform.Base.Dict.{Dict}
use crypto_market_platform.Logs.{
  Value, text, number, truth, floating, object, LogRecord, standard, one_of, is_private, is_extra,
  plain, add_extra, with_exception, header, format,
}

-- A dict has no key twice.
abbrev pub IsDict : Dict Value → Type 0
IsDict [] = Unit
IsDict ((key, value) ∷ d) = (Dict.get key d ≡ none) × IsDict d

-- The attributes that Python documents of every `LogRecord`.
abbrev documented : List String
documented =
    "args" ∷ "asctime" ∷ "created" ∷ "exc_info" ∷ "exc_text" ∷ "filename" ∷ "funcName" ∷ "levelname"
    ∷ "levelno" ∷ "lineno" ∷ "module" ∷ "msecs" ∷ "message" ∷ "msg" ∷ "name" ∷ "pathname"
    ∷ "process" ∷ "processName" ∷ "relativeCreated" ∷ "stack_info" ∷ "thread" ∷ "threadName"
    ∷ "taskName" ∷ []

abbrev occurs : String → List String → Bool
occurs key [] = false
occurs key (k ∷ keys) = if str_eq k key then true else occurs key keys

abbrev begins : ℕ → String → Bool
begins letter String.[] = false
begins letter (String.◌∷◌ c s) = code c == letter

-- Whether a caller gave a key as an extra: it is no documented attribute, and does not begin with
-- an underscore.
unfoldable pub is_given : String → Bool
is_given key = if occurs key documented then false else not (begins b'_' key)

-- A value as JSON has it: an object by what `str` makes of it.
abbrev pub printed : Value → Value
printed (text s) = text s
printed (number n) = number n
printed (truth b) = truth b
printed (floating digits) = floating digits
printed (object s) = text s

-- What was given under a key, printed, or else what the line has already.
abbrev pub given_or : Option Value → Option Value → Option Value
given_or none old = old
given_or (some value) old = some (printed value)

-- The severity, the message and the name of the logger, each under its key.
abbrev pub labelled : LogRecord → String → Option Value
labelled r key =
    if str_eq "severity" key
    then some (text r.levelname)
    else if str_eq "message" key
    then some (text r.message)
    else if str_eq "logger" key
    then some (text r.name)
    else none

plain_lem : (value : Value) → plain value ≡ printed value
plain_lem (text s) = refl
plain_lem (number n) = refl
plain_lem (truth b) = refl
plain_lem (floating digits) = refl
plain_lem (object s) = refl

occurs_lem : (key : String) (keys : List String) → one_of key keys ≡ occurs key keys
occurs_lem key [] = refl
occurs_lem key (k ∷ keys) = ground (arith, occurs_lem key keys)

begins_lem : (key : String) → is_private key ≡ begins b'_' key
begins_lem String.[] = refl
begins_lem (String.◌∷◌ c s) = refl

neither : (a b : Bool) → (not a && not b) ≡ (if a then false else not b)
neither true b = refl
neither false b = refl

is_extra_lem : (key : String) → is_extra key ≡ is_given key
unfolding is_extra is_given
is_extra_lem key =
    neither (one_of key standard) (is_private key)
    ∙ ap (λ o. if o then false else not (is_private key)) (occurs_lem key standard)
    ∙ ap (λ o. if occurs key standard then false else not o) (begins_lem key)

header_lem : (r : LogRecord) (key : String) → Dict.get key (header r) ≡ labelled r key
unfolding Dict.get
header_lem r key = refl

get-add_extra :
    (key k : String) (value : Value) (payload : Dict Value)
    → Dict.get key (add_extra payload (k, value)) ≡ (
        if is_given k
        then if str_eq k key then some (printed value) else Dict.get key payload
        else Dict.get key payload)
unfolding add_extra
get-add_extra key k value payload =
    rw (is_extra_lem k, plain_lem value)
      (ground (arith, Dict.get-put k key (printed value) payload))

get-extras :
    (key : String) (attributes payload : Dict Value)
    → IsDict attributes
    → Dict.get key (foldl add_extra payload attributes) ≡ (
        if is_given key
        then given_or (Dict.get key attributes) (Dict.get key payload)
        else Dict.get key payload)
unfolding Dict.get
get-extras key [] payload dict = ground arith
get-extras key ((k, value) ∷ attributes) payload dict =
    let later = get-extras key attributes (add_extra payload (k, value)) dict.1 in
    let added = get-add_extra key k value payload in
    elim (Bool-cases (str_eq k key)) [
      | inl same ↦
          let equal = (eq_iff k key).0 same in
          let absent = ap (λ i. Dict.get i attributes) (sym equal) ∙ dict.0 in
          let extra = ap is_given equal in ground (arith, later, added, same, absent, extra)
      | inr other ↦ ground (arith, later, added, other)
    ]

abbrev pub raised_or : Option String → Option Value → Option Value
raised_or none old = old
raised_or (some trace) old = some (text trace)

abbrev pub expected : LogRecord → String → Option Value
expected r key =
    let headed = labelled r key in
    let logged = if is_given key then given_or (Dict.get key r.attributes) headed else headed in
    if str_eq "exception" key then raised_or r.exc_info logged else logged

with_exception-get :
    (exc_info : Option String) (key : String) (payload : Dict Value)
    → Dict.get key (with_exception exc_info payload) ≡ (
        if str_eq "exception" key
        then raised_or exc_info (Dict.get key payload)
        else Dict.get key payload)
with_exception-get none key payload = ground arith
with_exception-get (some trace) key payload = Dict.get-put "exception" key (text trace) payload

-- A line of the log loses nothing: under every key that is no attribute that Python documents of a
-- record and does not begin with an underscore it has the value that the caller gave as an extra,
-- an object as the text that `str` makes of it, though a traceback takes the key "exception"; else
-- it has the level under "severity", the message under "message", the name of the logger under
-- "logger", and nothing else.
pub get-format :
    (r : LogRecord) (key : String) → IsDict r.attributes → Dict.get key (format r) ≡ expected r key
unfolding format
get-format r key dict =
    let extras = get-extras key r.attributes (header r) dict in
    rw (← header_lem r key) (
      with_exception-get r.exc_info key _
      ∙ ap (λ v. if str_eq "exception" key then raised_or r.exc_info v else v) extras)
