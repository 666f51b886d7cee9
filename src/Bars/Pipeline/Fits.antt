-- ===== src/Bars/Pipeline/Fits.antt =====
-- bars_pipeline.py, `run`: the rows that are appended, against the columns of the table.
use crypto_market_platform.Base.{ℕ, ◌≡◌, refl, String, Option, List, [], ◌∷◌, All, All-append}
use crypto_market_platform.Bars.{Floats, TradeMessage, Bar, build_bar}
use crypto_market_platform.Bars.Columns.{bars_schema, row, FitsColumns, build_bar-FitsColumns}
use crypto_market_platform.Bars.Beam.{Arrival, Firing, Beam}
use crypto_market_platform.Bars.Pipeline.{Arguments, windowing, parse_all, build_all, run}

module _ (floats : Floats) where
  abbrev pub IsRounded : floats.F → Type 0
  IsRounded x = (y : floats.F) × (x ≡ floats.round9 y)

  abbrev pub Fits : Bar floats → Type 0
  Fits b = FitsColumns floats IsRounded bars_schema (row floats b)

  build_all-Fits :
      (clock : Firing floats → ℕ) (fs : List (Firing floats)) → All Fits (build_all floats clock fs)
  unfolding build_all
  build_all-Fits clock [] = tt
  build_all-Fits clock (f ∷ fs) =
      All-append Fits (build_bar floats f.key f.values f.pane (clock f)) (build_all floats clock fs)
        (build_bar-FitsColumns floats IsRounded (λ x. (x, refl)) f.key f.values f.pane (clock f))
        (build_all-Fits clock fs)

  -- Whatever comes and however Beam groups it, every row that the pipeline appends has the columns
  -- of the schema, in order and no others, with a value of the kind of its column in each: under
  -- NUMERIC only floats that are rounded to nine places, and null for nothing but the average
  -- price. That a float is finite, or within the range of NUMERIC, is not stated.
  pub run-Fits :
      (beam : Beam floats) (read : String → List (Arrival (Option TradeMessage)))
      (clock : Firing floats → ℕ) (known : Arguments)
      → All Fits (run floats beam read clock known).1.rows
  unfolding run
  run-Fits beam read clock known =
      build_all-Fits clock
        (beam.group (windowing known) (parse_all floats (read known.subscription)).1)
