-- ===== src/Bars/Pipeline/Reference.antt =====
-- A small runner in the place of Beam, which fires every pane at the end of the feed: it meets what
-- the pipeline asks of Beam.
use Prim.Native.Nat.{max}
use mathlib.Core.List.Permᴰ
use crypto_market_platform.Base.{
  ℕ, ◌+◌, ◌-◌, ◌%◌, ◌≡◌, refl, String, true, Option, none, some, List, [], ◌∷◌, arith, Bool-cases,
  inl, inr, eq_iff,
}
use crypto_market_platform.Bars.{Floats, Stamped}
use crypto_market_platform.Bars.Beam.{
  Arrival, element, watermark, Windowing, Firing, Beam, IsLatest, Holds, belongs, last_pane,
  in_time,
}

module _ (floats : Floats) where
  abbrev pane_of : Windowing → List (Arrival (Stamped floats)) → Stamped floats → Firing floats
  pane_of w feed e =
      let start = e.timestamp - e.timestamp % w.size in
      record {
        key = e.product_id;
        pane = record { start = start; end = start + w.size; index = 0; is_last = true };
        values = in_time floats w e.product_id start 0 feed;
      }

  unfoldable pub panes :
      Windowing
      → List (Arrival (Stamped floats))
      → List (Arrival (Stamped floats))
      → List (Firing floats)
  panes w feed [] = []
  panes w feed (watermark t ∷ arrivals) = panes w feed arrivals
  panes w feed (element e ∷ arrivals) = pane_of w feed e ∷ panes w feed arrivals

  module _ (w : Windowing) (feed : List (Arrival (Stamped floats))) (key : String) (start : ℕ) where
    Covers : List (Arrival (Stamped floats)) → Option (Firing floats) → Type 0
    Covers arrivals none = (now : ℕ) → in_time floats w key start now arrivals ≡ []
    Covers arrivals (some f) = f.values ≡ in_time floats w key start 0 feed

    values-pane_of :
        (e : Stamped floats)
        → belongs floats w key start e ≡ true
        → (pane_of w feed e).values ≡ in_time floats w key start 0 feed
    values-pane_of e own =
        let same_key : key ≡ e.product_id = ground (arith, eq_iff key e.product_id) in
        let same_start : start ≡ e.timestamp - e.timestamp % w.size = ground arith in cc

    Covers-element :
        (e : Stamped floats) (arrivals : List (Arrival (Stamped floats)))
        (later : Option (Firing floats))
        → last_pane floats key start (panes w feed arrivals) ≡ later
        → Covers arrivals later
        → Covers
            (element e ∷ arrivals)
            (last_pane floats key start (panes w feed (element e ∷ arrivals)))
    unfolding Covers panes last_pane in_time
    Covers-element e arrivals (some f) q c = rw q c
    Covers-element e arrivals none q c = rw q (elim (Bool-cases (belongs floats w key start e)) [
      | inl own ↦ rw own (values-pane_of e own)
      | inr other ↦ rw other (λ now. rw other (c now))
    ])

    Covers-watermark :
        (t : ℕ) (arrivals : List (Arrival (Stamped floats))) (last : Option (Firing floats))
        → Covers arrivals last
        → Covers (watermark t ∷ arrivals) last
    unfolding Covers in_time
    Covers-watermark t arrivals none c = λ now. c (max now t)
    Covers-watermark t arrivals (some f) c = c

    panes-Covers :
        (arrivals : List (Arrival (Stamped floats)))
        → Covers arrivals (last_pane floats key start (panes w feed arrivals))
    unfolding Covers panes last_pane in_time
    panes-Covers [] = λ now. refl
    panes-Covers (watermark t ∷ arrivals) =
        Covers-watermark t arrivals (last_pane floats key start (panes w feed arrivals))
          (panes-Covers arrivals)
    panes-Covers (element e ∷ arrivals) =
        Covers-element e arrivals (last_pane floats key start (panes w feed arrivals)) refl
          (panes-Covers arrivals)

    panes-IsLatest :
        (f : Firing floats) (arrivals : List (Arrival (Stamped floats)))
        → IsLatest floats key start (panes w feed arrivals) f
    unfolding panes
    panes-IsLatest f [] = tt
    panes-IsLatest f (watermark t ∷ arrivals) = panes-IsLatest f arrivals
    panes-IsLatest f (element e ∷ arrivals) = (λ h. omega arith, panes-IsLatest f arrivals)

    Covers-Holds :
        (last : Option (Firing floats))
        → Covers feed last
        → Holds floats key start (in_time floats w key start 0 feed) (panes w feed feed) last
    unfolding Covers
    Covers-Holds none c = c 0
    Covers-Holds (some f) c = (rw c (Permᴰ.refl _), panes-IsLatest f feed)

  pub panes-Holds :
      (w : Windowing) (feed : List (Arrival (Stamped floats))) (key : String) (start : ℕ)
      → Holds floats key start
          (in_time floats w key start 0 feed)
          (panes w feed feed)
          (last_pane floats key start (panes w feed feed))
  panes-Holds w feed key start =
      Covers-Holds w feed key start (last_pane floats key start (panes w feed feed))
        (panes-Covers w feed key start feed)

  abbrev pub at_the_end : Beam floats
  at_the_end = record {
    group = λ w feed. panes w feed feed;
    settles = λ w feed key start wide late accumulating aligned past. panes-Holds w feed key start;
  }
