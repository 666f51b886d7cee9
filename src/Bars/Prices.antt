-- ===== src/Bars/Prices.antt =====
-- bars_pipeline.py, `BuildBar`: a bar against the trades that it is made of.
use mathlib.Core.Path.{subst}
use mathlib.Core.List.Permᴰ
use mathlib.Core.List.{Permᴰ}
use crypto_market_platform.Base.{
  ℕ, ◌≤◌, ◌≡◌, refl, inl, inr, String, true, false, List, [], ◌∷◌, length, All, Any, arith,
  if◌then◌else◌, Bool-cases, leb→le,
}
use crypto_market_platform.Base.Sort.{sorted, IsSorted, IsOrder, sorted-IsSorted, length-sorted}
use crypto_market_platform.Base.SortKey.{All-Perm, Any-Perm, Perm-sorted}
use crypto_market_platform.Bars.{
  Floats, Trade, Pane, Bar, by_id, last_of, max_price, min_price, bar_of, bars_of, build_bar,
}
use crypto_market_platform.Bars.Order.{build_bar-sorted}

-- What the code relies on of floats that are not NaN: they are in order, and rounding keeps it.
pub record Comparable (floats : Floats) : Type 0 where
  pub least : (a : floats.F) → floats.lt a a ≡ false
  pub steps :
      (a b c : floats.F) → floats.lt b a ≡ false → floats.lt c b ≡ false → floats.lt c a ≡ false
  pub one_way : (a b : floats.F) → floats.lt a b ≡ true → floats.lt b a ≡ false
  pub rounds :
      (a b : floats.F)
      → floats.lt b a ≡ false
      → floats.lt (floats.round9 b) (floats.round9 a) ≡ false

module _ (floats : Floats) where
  -- `a <= b`
  abbrev pub AtMost : floats.F → floats.F → Type 0
  AtMost a b = floats.lt b a ≡ false

  -- A bar tells of its trades: how many they are, that their rounded prices lie between low and
  -- high, their least and greatest id, and that it opens and closes with the trades of those ids.
  pub record Summary (bar : Bar floats) (trades : List (Trade floats)) : Type 0 where
    pub count : bar.trade_count ≡ length trades
    pub prices :
        All
          (λ (t : Trade floats).
            AtMost bar.low (floats.round9 t.price) × AtMost (floats.round9 t.price) bar.high)
          trades
    pub ids :
        All
          (λ (t : Trade floats).
            (bar.first_trade_id ≤ t.trade_id) × (t.trade_id ≤ bar.last_trade_id))
          trades
    pub opened :
        Any
          (λ (t : Trade floats).
            (t.trade_id ≡ bar.first_trade_id) × (bar.open_price ≡ floats.round9 t.price))
          trades
    pub closed :
        Any
          (λ (t : Trade floats).
            (t.trade_id ≡ bar.last_trade_id) × (bar.close ≡ floats.round9 t.price))
          trades

  abbrev pub Summarised : List (Bar floats) → List (Trade floats) → Type 0
  Summarised [] trades = trades ≡ []
  Summarised (bar ∷ []) trades = Summary bar trades
  Summarised (bar ∷ next ∷ bars) trades = ⊥

  All-both :
      (P Q : Trade floats → Type 0) (ts : List (Trade floats))
      → All P ts
      → All Q ts
      → All (λ t. P t × Q t) ts
  All-both P Q [] a b = tt
  All-both P Q (t ∷ ts) a b = ((a.0, b.0), All-both P Q ts a.1 b.1)

  by_id-IsOrder : IsOrder (by_id floats)
  by_id-IsOrder = record {
    total = λ x y h. ground (arith, h);
    trans = λ x y z h k. ground (arith, h, k);
  }

  first-le :
      (t : Trade floats) (ts : List (Trade floats))
      → All (λ u. by_id floats t u ≡ true) ts
      → All (λ (u : Trade floats). t.trade_id ≤ u.trade_id) ts
  first-le t [] a = tt
  first-le t (u ∷ ts) a = (leb→le _ _ a.0, first-le t ts a.1)

  le-last :
      (t : Trade floats) (ts : List (Trade floats))
      → IsSorted (by_id floats) (t ∷ ts)
      → All (λ (u : Trade floats). u.trade_id ≤ (last_of floats t ts).trade_id) (t ∷ ts)
  le-last t [] s = (omega arith, tt)
  le-last t (u ∷ ts) s =
      let later = le-last u ts s.1 in (omega (arith, leb→le _ _ s.0.0, later.0), later)

  last-Any :
      (P : Trade floats → Type 0) (t : Trade floats) (ts : List (Trade floats))
      → P (last_of floats t ts)
      → Any P (t ∷ ts)
  last-Any P t [] h = inl h
  last-Any P t (u ∷ ts) h = inr (last-Any P u ts h)

  module _ (laws : Comparable floats) where
    either_below :
        (m p most : floats.F)
        → AtMost (if floats.lt m p then p else m) most
        → AtMost m most × AtMost p most
    either_below m p most h = elim (Bool-cases (floats.lt m p)) [
      | inl more ↦
          let below = rw more at h in (laws.steps m p most (laws.one_way m p more) below, below)
      | inr less ↦ let below = rw less at h in (below, laws.steps p m most less below)
    ]

    either_above :
        (m p least : floats.F)
        → AtMost least (if floats.lt p m then p else m)
        → AtMost least m × AtMost least p
    either_above m p least h = elim (Bool-cases (floats.lt p m)) [
      | inl less ↦
          let above = rw less at h in (laws.steps least p m above (laws.one_way p m less), above)
      | inr more ↦ let above = rw more at h in (above, laws.steps least m p above more)
    ]

    max_price-above :
        (m most : floats.F) (ts : List (Trade floats))
        → max_price floats m ts ≡ most
        → AtMost m most × All (λ (t : Trade floats). AtMost t.price most) ts
    unfolding max_price
    max_price-above m most [] e = (subst (AtMost m) e (laws.least m), tt)
    max_price-above m most (t ∷ ts) e =
        let later = max_price-above (if floats.lt m t.price then t.price else m) most ts e in
        let now = either_below m t.price most later.0 in (now.0, (now.1, later.1))

    min_price-below :
        (m least : floats.F) (ts : List (Trade floats))
        → min_price floats m ts ≡ least
        → AtMost least m × All (λ (t : Trade floats). AtMost least t.price) ts
    unfolding min_price
    min_price-below m least [] e = (subst (λ x. AtMost x m) e (laws.least m), tt)
    min_price-below m least (t ∷ ts) e =
        let later = min_price-below (if floats.lt t.price m then t.price else m) least ts e in
        let now = either_above m t.price least later.0 in (now.0, (now.1, later.1))

    both :
        (low high : floats.F) (ts : List (Trade floats))
        → All (λ (t : Trade floats). AtMost low t.price) ts
        → All (λ (t : Trade floats). AtMost t.price high) ts
        → All
            (λ (t : Trade floats).
              AtMost (floats.round9 low) (floats.round9 t.price)
              × AtMost (floats.round9 t.price) (floats.round9 high))
            ts
    both low high [] a b = tt
    both low high (t ∷ ts) a b =
        ((laws.rounds low t.price a.0, laws.rounds t.price high b.0), both low high ts a.1 b.1)

    bar_of-Summary :
        (product_id : String) (pane : Pane) (now : ℕ) (t : Trade floats)
        (ts trades : List (Trade floats))
        → Permᴰ trades (t ∷ ts)
        → IsSorted (by_id floats) (t ∷ ts)
        → length (t ∷ ts) ≡ length trades
        → Summary (bar_of floats product_id pane now t ts) trades
    unfolding bar_of
    bar_of-Summary product_id pane now t ts trades p s n =
        let back = Permᴰ.symm p in
        let high = max_price-above t.price _ ts refl in
        let low = min_price-below t.price _ ts refl in
        record {
          count = n;
          prices = All-Perm _ back (both _ _ (t ∷ ts) low high);
          ids =
              All-Perm _ back
                (All-both _ _ (t ∷ ts) (omega arith, first-le t ts s.0) (le-last t ts s));
          opened = Any-Perm _ back (inl (refl, refl));
          closed = Any-Perm _ back (last-Any _ t ts (refl, refl));
        }

    bars_of-Summarised :
        (product_id : String) (pane : Pane) (now : ℕ) (ordered trades : List (Trade floats))
        → Permᴰ trades ordered
        → IsSorted (by_id floats) ordered
        → length ordered ≡ length trades
        → Summarised (bars_of floats product_id pane now ordered) trades
    bars_of-Summarised product_id pane now [] [] p s n = refl
    bars_of-Summarised product_id pane now [] (t ∷ ts) p s n = absurd (omega (arith, n))
    bars_of-Summarised product_id pane now (t ∷ ts) trades p s n =
        bar_of-Summary product_id pane now t ts trades p s n

    -- If floats are in order and rounding keeps it: no trades give no bar, and any others one bar
    -- that counts them, opens and closes with the trades of the least and the greatest id, tells
    -- these ids, and has every rounded price between its low and its high.
    pub build_bar-Summarised :
        (product_id : String) (trades : List (Trade floats)) (pane : Pane) (now : ℕ)
        → Summarised (build_bar floats product_id trades pane now) trades
    build_bar-Summarised product_id trades pane now = rw build_bar-sorted (
        bars_of-Summarised product_id pane now (sorted (by_id floats) trades) trades
          (Perm-sorted (by_id floats) trades) (sorted-IsSorted (by_id floats) by_id-IsOrder trades)
          (length-sorted (by_id floats) trades))
