-- ===== src/Bars/Stream/Reordering.antt =====
-- bars_pipeline.py: the trades of a window, for messages that are delivered in another order.
use mathlib.Core.List.Permᴰ
use mathlib.Core.List.{Permᴰ}
use mathlib.Core.List.Permᴰ.{nil, cons, swap, trans}
use mathlib.Core.Path.{subst}
use crypto_market_platform.Base.{
  ℕ, ◌≡◌, refl, inl, inr, String, Option, List, [], ◌∷◌, if◌then◌else◌, Bool-cases,
}
use crypto_market_platform.Base.Result.{ok}
use crypto_market_platform.Bars.{Floats, Trade, TradeMessage, Stamped, parse_trade}
use crypto_market_platform.Bars.Beam.{Arrival, element, watermark, Windowing, belongs, in_window}
use crypto_market_platform.Bars.Pipeline.{parse_all}

unfoldable pub elements : {A : Type 0} → List (Arrival A) → List A
elements [] = []
elements (element a ∷ arrivals) = a ∷ elements arrivals
elements (watermark t ∷ arrivals) = elements arrivals

module _ (floats : Floats) where
  -- The trades of a product and window.
  unfoldable pub trades_in : Windowing → String → ℕ → List (Stamped floats) → List (Trade floats)
  trades_in w key start [] = []
  trades_in w key start (e ∷ es) =
      let rest = trades_in w key start es in
      if belongs floats w key start e then e.trade ∷ rest else rest

  pub in_window-elements :
      (w : Windowing) (key : String) (start : ℕ) (arrivals : List (Arrival (Stamped floats)))
      → in_window floats w key start arrivals ≡ trades_in w key start (elements arrivals)
  unfolding in_window trades_in elements
  in_window-elements w key start [] = refl
  in_window-elements w key start (watermark t ∷ arrivals) = in_window-elements w key start arrivals
  in_window-elements w key start (element e ∷ arrivals) =
      rw (in_window-elements w key start arrivals) refl

  module _ (w : Windowing) (key : String) (start : ℕ) where
    trades_in-cons :
        (e e' : Stamped floats) (es es' : List (Stamped floats))
        → e ≡ e'
        → Permᴰ (trades_in w key start es) (trades_in w key start es')
        → Permᴰ (trades_in w key start (e ∷ es)) (trades_in w key start (e' ∷ es'))
    unfolding trades_in
    trades_in-cons e e' es es' q p =
        subst (λ x. Permᴰ (trades_in w key start (e ∷ es)) (trades_in w key start (x ∷ es'))) q
          (elim (Bool-cases (belongs floats w key start e)) [
            | inl own ↦ rw own (cons refl p)
            | inr other ↦ rw other p
          ])

    trades_in-swap :
        (a b : Stamped floats) (es : List (Stamped floats))
        → Permᴰ (trades_in w key start (a ∷ b ∷ es)) (trades_in w key start (b ∷ a ∷ es))
    unfolding trades_in
    trades_in-swap a b es = elim (Bool-cases (belongs floats w key start a)) [
      | inl x ↦ elim (Bool-cases (belongs floats w key start b)) [
        | inl y ↦ rw (x, y) (swap refl refl)
        | inr y ↦ rw (x, y) (Permᴰ.refl _)
      ]
      | inr x ↦ elim (Bool-cases (belongs floats w key start b)) [
        | inl y ↦ rw (x, y) (Permᴰ.refl _)
        | inr y ↦ rw (x, y) (Permᴰ.refl _)
      ]
    ]

    pub trades_in-Perm :
        {es es' : List (Stamped floats)}
        → Permᴰ es es'
        → Permᴰ (trades_in w key start es) (trades_in w key start es')
    unfolding trades_in
    trades_in-Perm nil = nil
    trades_in-Perm (cons e p) = trades_in-cons _ _ _ _ e (trades_in-Perm p)
    trades_in-Perm (swap {a = a} {b = b} {a' = a'} {b' = b'} {l = l} e f) =
        trans (trades_in-swap a b l)
          (trades_in-cons b a' (a ∷ l) (b' ∷ l) f (trades_in-cons a b' l l e (Permᴰ.refl _)))
    trades_in-Perm (trans p q) = trans (trades_in-Perm p) (trades_in-Perm q)

  -- Each message is decoded as the trade at its place.
  abbrev pub Parses : List (Option TradeMessage) → List (Stamped floats) → Type 0
  Parses [] [] = Unit
  Parses (m ∷ ms) (s ∷ ss) = (parse_trade floats m ≡ ok (s ∷ [])) × Parses ms ss
  Parses ms ss = ⊥

  pub record ParsesAs (ms : List (Option TradeMessage)) (ss : List (Stamped floats)) : Type 0 where
    pub trades : List (Stamped floats)
    pub parses : Parses ms trades
    pub same : Permᴰ ss trades

  -- Messages in another order are decoded as the same trades in another order.
  pub Parses-Perm :
      {ms ms' : List (Option TradeMessage)}
      → Permᴰ ms ms'
      → (ss : List (Stamped floats)) → Parses ms ss
      → ParsesAs ms' ss
  Parses-Perm nil [] d = record { trades = []; parses = tt; same = nil }
  Parses-Perm nil (s ∷ ss) d = elim d [ ]
  Parses-Perm (cons e p) [] d = elim d [ ]
  Parses-Perm (cons e p) (s ∷ ss) d =
      let rest = Parses-Perm p ss d.1 in
      record {
        trades = s ∷ rest.trades;
        parses = (subst (λ m. parse_trade floats m ≡ ok (s ∷ [])) e d.0, rest.parses);
        same = cons refl rest.same;
      }
  Parses-Perm (swap e f) [] d = elim d [ ]
  Parses-Perm (swap e f) (s ∷ []) d = elim d.1 [ ]
  Parses-Perm (swap e f) (s ∷ u ∷ ss) d = record {
    trades = u ∷ s ∷ ss;
    parses = (
      subst (λ m. parse_trade floats m ≡ ok (u ∷ [])) f d.1.0,
      (subst (λ m. parse_trade floats m ≡ ok (s ∷ [])) e d.0, d.1.1),
    );
    same = swap refl refl;
  }
  Parses-Perm (trans p q) ss d =
      let first = Parses-Perm p ss d in
      let then_rest = Parses-Perm q first.trades first.parses in
      record {
        trades = then_rest.trades;
        parses = then_rest.parses;
        same = trans first.same then_rest.same;
      }

  pub elements-parse_all :
      (arrivals : List (Arrival (Option TradeMessage))) (ss : List (Stamped floats))
      → Parses (elements arrivals) ss
      → elements (parse_all floats arrivals).1 ≡ ss
  unfolding parse_all elements
  elements-parse_all [] [] d = refl
  elements-parse_all [] (s ∷ ss) d = elim d [ ]
  elements-parse_all (watermark t ∷ arrivals) ss d = elements-parse_all arrivals ss d
  elements-parse_all (element m ∷ arrivals) [] d = elim d [ ]
  elements-parse_all (element m ∷ arrivals) (s ∷ ss) d =
      rw (d.0, elements-parse_all arrivals ss d.1) refl
