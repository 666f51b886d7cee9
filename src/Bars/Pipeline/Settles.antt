-- ===== src/Bars/Pipeline/Settles.antt =====
-- bars_pipeline.py, `run`: what the table of bars says of a window in the end,
-- in general and when no trade comes too late.
use Prim.Native.Nat.{max}
use mathlib.Core.Path.{subst}
use mathlib.Core.List.Permᴰ
use mathlib.Core.List.{Permᴰ}
use crypto_market_platform.Base.{
  ℕ, ◌+◌, ◌*◌, ◌%◌, ◌≤◌, ◌<◌, ◌≡◌, refl, sym, ap, ◌∙◌, String, Option, none, some, List, [], ◌∷◌,
  All, length, ltb, arith, true, Bool-cases, inl, inr,
}
use crypto_market_platform.Base.SortKey.{Keyed, Keyed-Perm, length-Perm}
use crypto_market_platform.Datetime.{second}
use crypto_market_platform.Bars.{Floats, TradeMessage, Trade, Pane, Stamped, Bar, build_bar}
use crypto_market_platform.Bars.Order.{build_bar-Perm}
use crypto_market_platform.Bars.Beam.{
  Arrival, element, watermark, Windowing, Firing, Beam, Holds, belongs, last_pane, in_window,
  in_time, watermark_after,
}
use crypto_market_platform.Bars.Pipeline.{Arguments, parse_all, build_all, run}
use crypto_market_platform.Bars.Pipeline.Rows.{
  last_bar, AtMost, build_bar-IsBarOf, Shows, build_all-Shows, build_all-AtMost,
}

-- Windows of a minute, each fired again at every late trade and with all its trades so far, for
-- trades that are late by less than so many seconds.
abbrev pub minutes : ℕ → Windowing
minutes lateness = record {
  size = 60 * second;
  late_count = 1;
  accumulating = true;
  allowed_lateness = lateness * second;
}

module _ (floats : Floats) where
  -- The last row of a product and window is the bar of some trades, and no other row of theirs has
  -- a greater pane index.
  pub record IsBar (product_id : String) (start : ℕ) (trades : List (Trade floats))
      (rows : List (Bar floats)) : Type 0 where
    pub pane : Pane
    pub now : ℕ
    pub bar : Bar floats
    pub starts : pane.start ≡ start
    pub built : build_bar floats product_id trades pane now ≡ bar ∷ []
    pub is_last : last_bar floats product_id start rows ≡ some bar
    pub is_latest : All (AtMost floats product_id start bar.pane_index) rows

  module _ (clock : Firing floats → ℕ) (key : String) (start : ℕ) (trades : List (Trade floats))
      (some_trade : 0 < length trades)
      (keyed : Keyed (λ (t : Trade floats). t.trade_id) trades) where
    Holds-IsBar :
        (fs : List (Firing floats)) (last : Option (Firing floats))
        → Holds floats key start trades fs last
        → Shows floats clock key start fs last
        → IsBar key start trades (build_all floats clock fs)
    Holds-IsBar fs none h s = absurd (omega (arith, some_trade, ap length h))
    Holds-IsBar fs (some f) h s =
        let some_value : 0 < length f.values = omega (arith, some_trade, length-Perm h.0) in
        let (bar, built, is_last) = s.2 some_value in
        let b = build_bar-IsBarOf floats f.key f.pane (clock f) f.values some_value in
        let index : bar.pane_index ≡ f.pane.index = cc (built, b.alone, b.of_index) in
        record {
          pane = f.pane;
          now = clock f;
          bar = bar;
          starts = s.1;
          built =
              build_bar-Perm floats key trades f.values f.pane (clock f) (Permᴰ.symm h.0) keyed
              ∙ ap (λ k. build_bar floats k f.values f.pane (clock f)) (sym s.0)
              ∙ built;
          is_last = is_last;
          is_latest = rw index (build_all-AtMost floats clock key start f.pane.index fs h.1);
        }

  -- If Beam groups as it documents: once the watermark is past a window of a minute, the last row
  -- of a product and that window, which has their greatest pane index, is the bar of exactly those
  -- of its trades that came before the watermark was past the window by the allowed lateness, in
  -- whatever order they came, if there are any and any two of them with one trade id are the same
  -- trade. The window is of 60 seconds, and the allowed lateness is the argument of that name.
  pub run-IsBar :
      (beam : Beam floats) (read : String → List (Arrival (Option TradeMessage)))
      (clock : Firing floats → ℕ) (known : Arguments) (product_id : String) (start : ℕ)
      → start % (60 * second) ≡ 0
      → start + 60 * second ≤ watermark_after 0 (parse_all floats (read known.subscription)).1
      → Keyed
          (λ (t : Trade floats). t.trade_id)
          (in_time floats
            (minutes known.allowed_lateness_seconds)
            product_id
            start
            0
            (parse_all floats (read known.subscription)).1)
      → 0
        < length (
            in_time floats
              (minutes known.allowed_lateness_seconds)
              product_id
              start
              0
              (parse_all floats (read known.subscription)).1)
      → IsBar product_id start
          (in_time floats
            (minutes known.allowed_lateness_seconds)
            product_id
            start
            0
            (parse_all floats (read known.subscription)).1)
          (run floats beam read clock known).1.rows
  unfolding run
  run-IsBar beam read clock known product_id start aligned past keyed some_trade =
      let stamped = (parse_all floats (read known.subscription)).1 in
      let fs = beam.group (minutes known.allowed_lateness_seconds) stamped in
      Holds-IsBar clock product_id start
        (in_time floats (minutes known.allowed_lateness_seconds) product_id start 0 stamped)
        some_trade keyed fs (last_pane floats product_id start fs)
        (beam.settles (minutes known.allowed_lateness_seconds) stamped product_id start
          (omega arith) refl refl aligned past)
        (build_all-Shows floats clock product_id start fs)

  IsBar-Perm :
      (product_id : String) (start : ℕ) (batch trades : List (Trade floats))
      → Permᴰ batch trades
      → Keyed (λ (t : Trade floats). t.trade_id) batch
      → {rows : List (Bar floats)} → IsBar product_id start trades rows
      → IsBar product_id start batch rows
  IsBar-Perm product_id start batch trades p keyed b = record {
    pane = b.pane;
    now = b.now;
    bar = b.bar;
    starts = b.starts;
    built = build_bar-Perm floats product_id batch trades b.pane b.now p keyed ∙ b.built;
    is_last = b.is_last;
    is_latest = b.is_latest;
  }

  -- Each trade of a window comes before the watermark is past it by the allowed lateness.
  unfoldable pub IsPunctual : Windowing → String → ℕ → ℕ → List (Arrival (Stamped floats)) → Type 0
  IsPunctual w key start now [] = Unit
  IsPunctual w key start now (watermark t ∷ arrivals) = IsPunctual w key start (max now t) arrivals
  IsPunctual w key start now (element e ∷ arrivals) =
      (belongs floats w key start e ≡ true → now < start + w.size + w.allowed_lateness)
      × IsPunctual w key start now arrivals

  early : (a b : ℕ) → a < b → ltb a b ≡ true
  early a b h = ground arith

  in_time-IsPunctual :
      (w : Windowing) (key : String) (start now : ℕ) (arrivals : List (Arrival (Stamped floats)))
      → IsPunctual w key start now arrivals
      → in_time floats w key start now arrivals ≡ in_window floats w key start arrivals
  unfolding IsPunctual in_time in_window
  in_time-IsPunctual w key start now [] h = refl
  in_time-IsPunctual w key start now (watermark t ∷ arrivals) h =
      in_time-IsPunctual w key start (max now t) arrivals h
  in_time-IsPunctual w key start now (element e ∷ arrivals) h =
      elim (Bool-cases (belongs floats w key start e)) [
        | inl own ↦ rw (own, early _ _ (h.0 own), in_time-IsPunctual w key start now arrivals h.1)
        | inr other ↦ rw (other, in_time-IsPunctual w key start now arrivals h.1)
      ]

  -- If Beam groups as it documents, and each trade of a product and minute comes before the
  -- watermark is past it by the allowed lateness: then once the watermark is past that minute,
  -- its last row is the bar that the batch path computes of all trades of the minute, in
  -- whatever order that has them, if there are any and any two with one trade id are the same.
  pub run-Agrees :
      (beam : Beam floats) (read : String → List (Arrival (Option TradeMessage)))
      (clock : Firing floats → ℕ) (known : Arguments) (product_id : String) (start : ℕ)
      (batch : List (Trade floats))
      → Permᴰ batch (
          in_window floats
            (minutes known.allowed_lateness_seconds)
            product_id
            start
            (parse_all floats (read known.subscription)).1)
      → start % (60 * second) ≡ 0
      → start + 60 * second ≤ watermark_after 0 (parse_all floats (read known.subscription)).1
      → IsPunctual
          (minutes known.allowed_lateness_seconds)
          product_id
          start
          0
          (parse_all floats (read known.subscription)).1
      → Keyed (λ (t : Trade floats). t.trade_id) batch
      → 0 < length batch
      → IsBar product_id start batch (run floats beam read clock known).1.rows
  run-Agrees beam read clock known product_id start batch same aligned past punctual keyed
        some_trade =
      let stamped = (parse_all floats (read known.subscription)).1 in
      let timely =
        in_time-IsPunctual (minutes known.allowed_lateness_seconds) product_id start 0 stamped
          punctual in
      let p = subst (λ l. Permᴰ batch l) (sym timely) same in
      IsBar-Perm product_id start batch
        (in_time floats (minutes known.allowed_lateness_seconds) product_id start 0 stamped) p keyed
        (run-IsBar beam read clock known product_id start aligned past
          (Keyed-Perm (λ (t : Trade floats). t.trade_id) p keyed)
          (omega (arith, some_trade, length-Perm p)))
