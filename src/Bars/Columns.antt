-- ===== src/Bars/Columns.antt =====
-- bars_pipeline.py, `BARS_SCHEMA` and the dictionary that `BuildBar` yields: whether the table of
-- bars takes a row. The texts of times are kept unprinted.
use crypto_market_platform.Base.{
  ℕ, ◌≡◌, refl, String, Bool, true, false, Option, none, some, List, [], ◌∷◌, All, if◌then◌else◌,
}
use crypto_market_platform.Base.Sort.{sorted}
use crypto_market_platform.Bars.{Floats, Trade, Pane, Bar, by_id, bar_of, bars_of, build_bar}
use crypto_market_platform.Bars.Order.{build_bar-sorted}

-- The types of BigQuery's columns.
pub data ColumnType : Type 0 where
  string timestamp numeric int64 bool : ColumnType

abbrev pub bars_schema : List (String × ColumnType)
bars_schema =
    ("product_id", string)
    ∷ ("bar_start", timestamp)
    ∷ ("bar_end", timestamp)
    ∷ ("open", numeric)
    ∷ ("high", numeric)
    ∷ ("low", numeric)
    ∷ ("close", numeric)
    ∷ ("volume", numeric)
    ∷ ("trade_count", int64)
    ∷ ("vwap", numeric)
    ∷ ("first_trade_id", int64)
    ∷ ("last_trade_id", int64)
    ∷ ("pane_index", int64)
    ∷ ("is_final_pane", bool)
    ∷ ("written_at", timestamp)
    ∷ []

module _ (floats : Floats) where
  -- The values of a row.
  pub data Cell : Type 0 where
    text : String → Cell
    time : ℕ → Cell
    float : floats.F → Cell
    int : ℕ → Cell
    flag : Bool → Cell
    null : Cell

  abbrev float_or_null : Option floats.F → Cell
  float_or_null none = null
  float_or_null (some x) = float x

  -- The dictionary of a bar.
  abbrev pub row : Bar floats → List (String × Cell)
  row b =
      ("product_id", text b.product_id)
      ∷ ("bar_start", time b.bar_start)
      ∷ ("bar_end", time b.bar_end)
      ∷ ("open", float b.open_price)
      ∷ ("high", float b.high)
      ∷ ("low", float b.low)
      ∷ ("close", float b.close)
      ∷ ("volume", float b.volume)
      ∷ ("trade_count", int b.trade_count)
      ∷ ("vwap", float_or_null b.vwap)
      ∷ ("first_trade_id", int b.first_trade_id)
      ∷ ("last_trade_id", int b.last_trade_id)
      ∷ ("pane_index", int b.pane_index)
      ∷ ("is_final_pane", flag b.is_final_pane)
      ∷ ("written_at", time b.written_at)
      ∷ []

  module _ (InNumeric : floats.F → Type 0) where
    -- Whether a column takes a value: a NUMERIC one only a float of the kind told, and
    -- null only in the column `vwap`.
    abbrev pub Takes : String → ColumnType → Cell → Type 0
    Takes name string (text s) = Unit
    Takes name timestamp (time t) = Unit
    Takes name numeric (float x) = InNumeric x
    Takes name int64 (int n) = Unit
    Takes name bool (flag b) = Unit
    Takes name type null = name ≡ "vwap"
    Takes name type cell = ⊥

    -- A row has the columns of a schema, in order, and no others.
    abbrev pub FitsColumns : List (String × ColumnType) → List (String × Cell) → Type 0
    FitsColumns [] [] = Unit
    FitsColumns ((name, type) ∷ columns) ((key, cell) ∷ cells) =
        (name ≡ key) × Takes name type cell × FitsColumns columns cells
    FitsColumns columns cells = ⊥

    module _ (rounded : (x : floats.F) → InNumeric (floats.round9 x)) where
      Takes-float_or_null :
          (empty : Bool) (x : floats.F)
          → Takes "vwap" numeric (float_or_null (if empty then none else some (floats.round9 x)))
      Takes-float_or_null true x = refl
      Takes-float_or_null false x = rounded x

      bars_of-FitsColumns :
          (product_id : String) (pane : Pane) (now : ℕ) (trades : List (Trade floats))
          → All
              (λ (b : Bar floats). FitsColumns bars_schema (row b))
              (bars_of floats product_id pane now trades)
      unfolding bar_of
      bars_of-FitsColumns product_id pane now [] = tt
      bars_of-FitsColumns product_id pane now (t ∷ ts) = (
        (
          refl,
          tt,
          (
            refl,
            tt,
            (
              refl,
              tt,
              (
                refl,
                rounded _,
                (
                  refl,
                  rounded _,
                  (
                    refl,
                    rounded _,
                    (
                      refl,
                      rounded _,
                      (
                        refl,
                        rounded _,
                        (
                          refl,
                          tt,
                          (
                            refl,
                            Takes-float_or_null _ _,
                            (refl, tt, (refl, tt, (refl, tt, (refl, tt, (refl, tt, tt))))),
                          ),
                        ),
                      ),
                    ),
                  ),
                ),
              ),
            ),
          ),
        ),
        tt,
      )

      pub build_bar-FitsColumns :
          (product_id : String) (trades : List (Trade floats)) (pane : Pane) (now : ℕ)
          → All
              (λ (b : Bar floats). FitsColumns bars_schema (row b))
              (build_bar floats product_id trades pane now)
      build_bar-FitsColumns product_id trades pane now =
          rw (build_bar-sorted floats product_id trades pane now)
            (bars_of-FitsColumns product_id pane now (sorted (by_id floats) trades))
