-- ===== src/Bars/Pipeline/Rows.antt =====
-- bars_pipeline.py, `run`: the rows that the panes make, and the last row of a window.
use crypto_market_platform.Base.{
  ℕ, ◌<◌, ◌≤◌, ◌≡◌, sym, ◌∙◌, All, All-append, refl, inl, inr, String, Bool, true, false, ◌&&◌,
  Option, none, some, List, [], ◌∷◌, ◌++◌, length, ◌==◌, str_eq, eq_iff, if◌then◌else◌, arith,
  Bool-cases,
}
use crypto_market_platform.Base.Sort.{sorted, length-sorted}
use crypto_market_platform.Bars.{Floats, Trade, Pane, Bar, by_id, bar_of, bars_of, build_bar}
use crypto_market_platform.Bars.Order.{build_bar-sorted}
use crypto_market_platform.Bars.Beam.{Firing, is_pane_of, last_pane}
use crypto_market_platform.Bars.Pipeline.{build_all}

module _ (floats : Floats) where
  abbrev pub is_bar_of : String → ℕ → Bar floats → Bool
  is_bar_of product_id start bar = str_eq product_id bar.product_id && start == bar.bar_start

  -- The last row of a product and of the window that starts at a time.
  unfoldable pub last_bar : String → ℕ → List (Bar floats) → Option (Bar floats)
  last_bar product_id start [] = none
  last_bar product_id start (b ∷ bs) = elim (last_bar product_id start bs) [
    | some later ↦ some later
    | none ↦ if is_bar_of product_id start b then some b else none
  ]

  -- A row, if it is of a product and window, has no index above this one.
  abbrev pub AtMost : String → ℕ → ℕ → Bar floats → Type 0
  AtMost product_id start most b = is_bar_of product_id start b ≡ true → b.pane_index ≤ most

  -- A bar of a product and pane.
  pub record IsBarOf (product_id : String) (pane : Pane) (bars : List (Bar floats)) : Type 0 where
    pub bar : Bar floats
    pub alone : bars ≡ bar ∷ []
    of_product : bar.product_id ≡ product_id
    of_pane : bar.bar_start ≡ pane.start
    pub of_index : bar.pane_index ≡ pane.index

  bars_of-IsBarOf :
      (product_id : String) (pane : Pane) (now : ℕ) (trades : List (Trade floats))
      → 0 < length trades
      → IsBarOf product_id pane (bars_of floats product_id pane now trades)
  unfolding bar_of
  bars_of-IsBarOf product_id pane now [] some_trade = absurd (omega (arith, some_trade))
  bars_of-IsBarOf product_id pane now (t ∷ ts) some_trade = record {
    bar = _;
    alone = refl;
    of_product = refl;
    of_pane = refl;
    of_index = refl;
  }

  pub build_bar-IsBarOf :
      (product_id : String) (pane : Pane) (now : ℕ) (trades : List (Trade floats))
      → 0 < length trades
      → IsBarOf product_id pane (build_bar floats product_id trades pane now)
  build_bar-IsBarOf product_id pane now trades some_trade =
      rw (build_bar-sorted floats product_id trades pane now) (
        bars_of-IsBarOf product_id pane now (sorted (by_id floats) trades)
          (omega (arith, some_trade, length-sorted (by_id floats) trades)))

  -- With the rows of a pane in front, the last row stays if there is one.
  last_bar-pane :
      (product_id : String) (start : ℕ) (bar : Bar floats) (bars : List (Bar floats))
      (later : Option (Bar floats))
      → last_bar product_id start bars ≡ later
      → last_bar product_id start (bar ∷ bars) ≡ elim later [
        | some b ↦ some b
        | none ↦ if is_bar_of product_id start bar then some bar else none
      ]
  unfolding last_bar
  last_bar-pane product_id start bar bars none e = rw e
  last_bar-pane product_id start bar bars (some b) e = rw e

  module _ (clock : Firing floats → ℕ) (key : String) (start : ℕ) where
    -- The rows show a last pane: no pane gives no row, and a pane with trades its bar.
    abbrev pub Shows : List (Firing floats) → Option (Firing floats) → Type 0
    Shows fs none = last_bar key start (build_all floats clock fs) ≡ none
    Shows fs (some f) =
        (f.key ≡ key)
        × (f.pane.start ≡ start)
        × (0 < length f.values
            → (bar : Bar floats) × (build_bar floats f.key f.values f.pane (clock f) ≡ bar ∷ [])
              × (last_bar key start (build_all floats clock fs) ≡ some bar))

    is_pane_of_lem :
        (f : Firing floats)
        → is_pane_of floats key start f ≡ true
        → (f.key ≡ key) × (f.pane.start ≡ start)
    is_pane_of_lem f h = ground (arith, eq_iff key f.key)

    is_bar_of_lem :
        (f : Firing floats) {bars : List (Bar floats)} (b : IsBarOf f.key f.pane bars)
        → is_bar_of key start b.bar ≡ is_pane_of floats key start f
    is_bar_of_lem f b = rw (b.of_product, b.of_pane)

    keep_last :
        (more bars : List (Bar floats)) (bar : Bar floats)
        → last_bar key start bars ≡ some bar
        → last_bar key start (more ++ bars) ≡ some bar
    keep_last [] bars bar e = e
    keep_last (m ∷ more) bars bar e =
        last_bar-pane key start m (more ++ bars) (some bar) (keep_last more bars bar e)

    -- The pane in front is the last one, and has a bar if it has trades.
    bar_of_first :
        (f : Firing floats) (bars : List (Bar floats))
        → last_bar key start bars ≡ none
        → is_pane_of floats key start f ≡ true
        → 0 < length f.values
        → (bar : Bar floats) × (build_bar floats f.key f.values f.pane (clock f) ≡ bar ∷ [])
          × (last_bar key start (build_bar floats f.key f.values f.pane (clock f) ++ bars)
              ≡ some bar)
    bar_of_first f bars e p n =
        let b = build_bar-IsBarOf f.key f.pane (clock f) f.values n in
        (
          b.bar,
          b.alone,
          rw (b.alone, last_bar-pane key start b.bar bars none e, is_bar_of_lem f b, p),
        )

    -- The pane in front is of another window.
    skip_row :
        (f : Firing floats) (values : List (Trade floats)) (bars : List (Bar floats))
        → last_bar key start bars ≡ none
        → is_pane_of floats key start f ≡ false
        → last_bar key start (build_bar floats f.key values f.pane (clock f) ++ bars) ≡ none
    unfolding build_bar
    skip_row f [] bars e p = e
    skip_row f (t ∷ ts) bars e p =
        let b = build_bar-IsBarOf f.key f.pane (clock f) (t ∷ ts) (omega arith) in
        rw (b.alone, last_bar-pane key start b.bar bars none e, is_bar_of_lem f b, p)

    Shows-cons :
        (f : Firing floats) (fs : List (Firing floats)) (later : Option (Firing floats))
        → last_pane floats key start fs ≡ later
        → Shows fs later
        → Shows (f ∷ fs) (last_pane floats key start (f ∷ fs))
    unfolding last_pane build_all
    Shows-cons f fs (some g) e s = rw e (
      s.0,
      s.1,
      λ n. (
        (s.2 n).0,
        (s.2 n).1,
        keep_last (build_bar floats f.key f.values f.pane (clock f)) (build_all floats clock fs)
            (s.2 n).0 (s.2 n).2,
      ),
    )
    Shows-cons f fs none e s = rw e (elim (Bool-cases (is_pane_of floats key start f)) [
      | inl p ↦ rw p (
        (is_pane_of_lem f p).0,
        (is_pane_of_lem f p).1,
        bar_of_first f (build_all floats clock fs) s p,
      )
      | inr p ↦ rw p (skip_row f f.values (build_all floats clock fs) s p)
    ])

    pub build_all-Shows : (fs : List (Firing floats)) → Shows fs (last_pane floats key start fs)
    unfolding last_pane build_all last_bar
    build_all-Shows [] = refl
    build_all-Shows (f ∷ fs) =
        Shows-cons f fs (last_pane floats key start fs) refl (build_all-Shows fs)

    row-AtMost :
        (most : ℕ) (g : Firing floats) (values : List (Trade floats))
        → (is_pane_of floats key start g ≡ true → g.pane.index ≤ most)
        → All (AtMost key start most) (build_bar floats g.key values g.pane (clock g))
    unfolding build_bar
    row-AtMost most g [] k = tt
    row-AtMost most g (t ∷ ts) k =
        let b = build_bar-IsBarOf g.key g.pane (clock g) (t ∷ ts) (omega arith) in
        rw b.alone (λ h. rw b.of_index (k (sym (is_bar_of_lem g b) ∙ h)), tt)

    pub build_all-AtMost :
        (most : ℕ) (fs : List (Firing floats))
        → All (λ (g : Firing floats). is_pane_of floats key start g ≡ true → g.pane.index ≤ most) fs
        → All (AtMost key start most) (build_all floats clock fs)
    unfolding build_all
    build_all-AtMost most [] a = tt
    build_all-AtMost most (g ∷ fs) a =
        All-append (AtMost key start most) (build_bar floats g.key g.values g.pane (clock g))
          (build_all floats clock fs) (row-AtMost most g g.values a.0)
          (build_all-AtMost most fs a.1)
