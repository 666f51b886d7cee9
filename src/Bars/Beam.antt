-- ===== src/Bars/Beam.antt =====
-- Apache Beam, which groups the trades of streaming/bars_pipeline.py by product and window. It is
-- a library outside the repository: here is what the pipeline asks of it, and its documented
-- behaviour for a watermark trigger that fires again for each late element.
use Prim.Native.Nat.{max}
use mathlib.Core.List.{Permᴰ}
use crypto_market_platform.Base.{
  All, ℕ, ◌+◌, ◌-◌, ◌%◌, ◌≤◌, ◌<◌, ◌≡◌, String, Bool, true, ◌&&◌, Option, none, some, List, [], ◌∷◌,
  ltb, ◌==◌, str_eq, if◌then◌else◌,
}
use crypto_market_platform.Bars.{Floats, Trade, Stamped, Pane}

-- What comes to a pipeline: an element, or word that the watermark stands at a time.
pub data Arrival (A : Type 0) : Type 0 where
  element : A → Arrival A
  watermark : ℕ → Arrival A

-- The arguments of `WindowInto`: fixed windows, how many late elements fire a pane again, whether
-- a pane restates the earlier ones, and how late an element may be. Times are microseconds.
pub record Windowing : Type 0 where
  pub size : ℕ
  pub late_count : ℕ
  pub accumulating : Bool
  pub allowed_lateness : ℕ

-- The watermark after some arrivals; it never goes back.
unfoldable pub watermark_after : {A : Type 0} → ℕ → List (Arrival A) → ℕ
watermark_after now [] = now
watermark_after now (element _ ∷ arrivals) = watermark_after now arrivals
watermark_after now (watermark t ∷ arrivals) = watermark_after (max now t) arrivals

module _ (floats : Floats) where
  -- A pane of a key, with the values that it holds.
  pub record Firing : Type 0 where
    pub key : String
    pub pane : Pane
    pub values : List (Trade floats)

  abbrev pub is_pane_of : String → ℕ → Firing → Bool
  is_pane_of key start f = str_eq key f.key && start == f.pane.start

  -- The last pane of a key and of the window that starts at a time.
  unfoldable pub last_pane : String → ℕ → List Firing → Option Firing
  last_pane key start [] = none
  last_pane key start (f ∷ fs) = elim (last_pane key start fs) [
    | some later ↦ some later
    | none ↦ if is_pane_of key start f then some f else none
  ]

  abbrev pub belongs : Windowing → String → ℕ → Stamped floats → Bool
  belongs w key start e = str_eq key e.product_id && start == e.timestamp - e.timestamp % w.size

  -- The values of a key and window, whenever they come.
  unfoldable pub in_window :
      Windowing → String → ℕ → List (Arrival (Stamped floats)) → List (Trade floats)
  in_window w key start [] = []
  in_window w key start (watermark _ ∷ arrivals) = in_window w key start arrivals
  in_window w key start (element e ∷ arrivals) =
      let rest = in_window w key start arrivals in
      if belongs w key start e then e.trade ∷ rest else rest

  -- Those that come while the watermark is not yet past the window by the allowed lateness. Beam
  -- drops the others.
  unfoldable pub in_time :
      Windowing → String → ℕ → ℕ → List (Arrival (Stamped floats)) → List (Trade floats)
  in_time w key start now [] = []
  in_time w key start now (watermark t ∷ arrivals) = in_time w key start (max now t) arrivals
  in_time w key start now (element e ∷ arrivals) =
      let rest = in_time w key start now arrivals in
      if belongs w key start e && ltb now (start + w.size + w.allowed_lateness)
      then e.trade ∷ rest
      else rest

  -- No pane of a key and window has a greater index.
  abbrev pub IsLatest : String → ℕ → List Firing → Firing → Type 0
  IsLatest key start fs f =
      All (λ (g : Firing). is_pane_of key start g ≡ true → g.pane.index ≤ f.pane.index) fs

  -- What the last pane holds, if any pane has fired.
  abbrev pub Holds : String → ℕ → List (Trade floats) → List Firing → Option Firing → Type 0
  Holds key start values fs none = values ≡ []
  Holds key start values fs (some f) = Permᴰ f.values values × IsLatest key start fs f

  pub record Beam : Type 0 where
    -- `WindowInto`, then `GroupByKey`
    pub group : Windowing → List (Arrival (Stamped floats)) → List Firing
    -- Once the watermark is past a window, its last pane holds all that came in time, and has
    -- the greatest index, if panes accumulate and each late element fires one.
    pub settles :
        (w : Windowing) (arrivals : List (Arrival (Stamped floats))) (key : String) (start : ℕ)
        → 0 < w.size
        → w.late_count ≡ 1
        → w.accumulating ≡ true
        → start % w.size ≡ 0
        → start + w.size ≤ watermark_after 0 arrivals
        → Holds key start
            (in_time w key start 0 arrivals)
            (group w arrivals)
            (last_pane key start (group w arrivals))
