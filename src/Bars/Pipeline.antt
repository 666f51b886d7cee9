-- ===== src/Bars/Pipeline.antt =====
-- bars_pipeline.py, `run`: the pipeline from the subscription to the table of bars. Pub/Sub, Beam
-- and the clock are given; an exception stops the pipeline, which tries the message again forever.
pub mod Fits
pub mod Rows
pub mod Reference
pub mod Settles
use crypto_market_platform.Base.{ℕ, ◌*◌, String, true, Option, none, some, List, [], ◌∷◌, ◌++◌, map}
use crypto_market_platform.Base.Result.{Result, ok, raise}
use crypto_market_platform.Datetime.{second}
use crypto_market_platform.Bars.{Floats, TradeMessage, Stamped, Bar, parse_trade, build_bar}
use crypto_market_platform.Bars.Beam.{Arrival, element, watermark, Windowing, Firing, Beam}

-- The arguments of the command line that `run` reads.
pub record Arguments : Type 0 where
  pub subscription : String
  pub output_table : String
  pub allowed_lateness_seconds : ℕ

-- `parse_known_args`, with both required arguments given and the lateness if it is.
unfoldable pub parse_known_args : String → String → Option ℕ → Arguments
parse_known_args subscription output_table lateness = record {
  subscription = subscription;
  output_table = output_table;
  allowed_lateness_seconds = elim lateness [ none ↦ 30 | some seconds ↦ seconds ];
}

-- The arguments of `WindowInto`.
abbrev pub windowing : Arguments → Windowing
windowing known = record {
  size = 60 * second;
  late_count = 1;
  accumulating = true;
  allowed_lateness = known.allowed_lateness_seconds * second;
}

module _ (floats : Floats) where
  abbrev emit :
      Result (List (Stamped floats))
      → Result (Unit {0}) × List (Arrival (Stamped floats))
      → Result (Unit {0}) × List (Arrival (Stamped floats))
  emit (raise e) rest = (raise e, [])
  emit (ok trades) (r, rest) = (r, map element trades ++ rest)

  -- `ParDo(ParseTrade())`: what is decoded before the first exception.
  unfoldable pub parse_all :
      List (Arrival (Option TradeMessage)) → Result (Unit {0}) × List (Arrival (Stamped floats))
  parse_all [] = (ok tt, [])
  parse_all (watermark t ∷ arrivals) = let (r, rest) = parse_all arrivals in (r, watermark t ∷ rest)
  parse_all (element m ∷ arrivals) = emit (parse_trade floats m) (parse_all arrivals)

  -- `ParDo(BuildBar())`, each pane at the time that the clock shows for it.
  unfoldable pub build_all : (Firing floats → ℕ) → List (Firing floats) → List (Bar floats)
  build_all clock [] = []
  build_all clock (f ∷ fs) = build_bar floats f.key f.values f.pane (clock f) ++ build_all clock fs

  -- The rows that are appended to a table.
  pub record Appended : Type 0 where
    pub table : String
    pub rows : List (Bar floats)

  unfoldable pub run :
      Beam floats
      → (String → List (Arrival (Option TradeMessage)))
      → (Firing floats → ℕ)
      → Arguments
      → Result (Unit {0}) × Appended
  run beam read_from_pubsub clock known =
      let (r, stamped) = parse_all (read_from_pubsub known.subscription) in
      (
        r,
        record {
          table = known.output_table;
          rows = build_all clock (beam.group (windowing known) stamped);
        },
      )
