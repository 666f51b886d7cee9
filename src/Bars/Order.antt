-- ===== src/Bars/Order.antt =====
-- bars_pipeline.py, `BuildBar`: the order in which the trades of a window arrive.
use mathlib.Core.List.{Permᴰ}
use crypto_market_platform.Base.{ℕ, ◌≡◌, refl, sym, ap, ◌∙◌, String, List, [], ◌∷◌}
use crypto_market_platform.Base.Sort.{sorted}
use crypto_market_platform.Base.SortKey.{Keyed, sorted-Perm}
use crypto_market_platform.Bars.{Floats, Trade, Pane, by_id, bars_of, build_bar}

module _ (floats : Floats) where
  pub build_bar-sorted :
      (product_id : String) (trades : List (Trade floats)) (pane : Pane) (now : ℕ)
      → build_bar floats product_id trades pane now
        ≡ bars_of floats product_id pane now (sorted (by_id floats) trades)
  unfolding build_bar sorted
  build_bar-sorted product_id [] pane now = refl
  build_bar-sorted product_id (t ∷ ts) pane now = refl

  -- The bar of a window does not depend on the order in which its trades arrive, if any two of them
  -- with one trade id are the same trade, as when one is delivered again: every field is the same,
  -- the sums of floats included.
  pub build_bar-Perm :
      (product_id : String) (trades trades' : List (Trade floats)) (pane : Pane) (now : ℕ)
      → Permᴰ trades trades'
      → Keyed (λ (t : Trade floats). t.trade_id) trades
      → build_bar floats product_id trades pane now ≡ build_bar floats product_id trades' pane now
  build_bar-Perm product_id trades trades' pane now p d =
      build_bar-sorted product_id trades pane now
      ∙ ap (bars_of floats product_id pane now) (sorted-Perm (λ (t : Trade floats). t.trade_id) p d)
      ∙ sym (build_bar-sorted product_id trades' pane now)
