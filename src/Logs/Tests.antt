-- ===== src/Logs/Tests.antt =====
-- A warning with an extra, and an error with a traceback.
use crypto_market_platform.Base.{◌≡◌, refl, some, [], ◌∷◌}
use crypto_market_platform.Base.Dict
use crypto_market_platform.Logs.{LogRecord, text, number, object, is_extra, add_extra, format}
use crypto_market_platform.Logs.Extras.{expected, get-format}

abbrev warning : LogRecord
warning = record {
  levelname = "WARNING";
  message = "connection lost";
  name = "consumer";
  attributes =
      ("name", text "consumer")
      ∷ ("lineno", number 283)
      ∷ ("reason", object "ConnectionError()")
      ∷ ("missing", number 3)
      ∷ [];
  exc_info = some "Traceback";
}

line :
    format warning
    ≡ ("severity", text "WARNING")
      ∷ ("message", text "connection lost")
      ∷ ("logger", text "consumer")
      ∷ ("reason", text "ConnectionError()")
      ∷ ("missing", number 3)
      ∷ ("exception", text "Traceback")
      ∷ []
unfolding format add_extra is_extra Dict.put
line = refl

get-format_example : Dict.get "reason" (format warning) ≡ expected warning "reason"
unfolding Dict.get
get-format_example = get-format warning "reason" (refl, (refl, (refl, (refl, tt))))
