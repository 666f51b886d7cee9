-- ===== src/Book/Top.antt =====
-- book.py, `best_bid`, `best_ask` and `quote`: the top of the book.
use crypto_market_platform.Base.{
  ◌≡◌, ◌↔◌, ◌⊎◌, ◌∙◌, refl, sym, ap, Bool, true, false, Option, none, some, List, [], ◌∷◌, arith,
  All, if◌then◌else◌,
}
use crypto_market_platform.Base.Result.{Exception, ok, raise, crossed_book_error}
use crypto_market_platform.Decimal.Context.{opposite, fix}
use crypto_market_platform.Decimal.{Decimal, ◌≼◌, ltb_decimal}
use crypto_market_platform.Decimal.Opposite.{opposite-≼}
use crypto_market_platform.SortedContainers.{SortedContainers, Level, find, Before}
use crypto_market_platform.Book.{
  OrderBook, itself, head_level, best, best_bid, best_ask, quote, quote_of,
}
use crypto_market_platform.Book.Quotes.{Quote}

abbrev pub first_of_list {ℓ} : {A : Type ℓ} → List A → Option A
first_of_list [] = none
first_of_list (x ∷ xs) = some x

module _ (sc : SortedContainers) where
  -- The best level of a side, as the first item that it iterates over.
  abbrev pub top : (key : Decimal → Decimal) → Bool → sc.SortedDict key → Option Level
  top key ready d = if ready then first_of_list (sc.items key d) else none

  head_level-top :
      (key : Decimal → Decimal) (d : sc.SortedDict key) (e : Level) (l : List Level)
      → sc.items key d ≡ e ∷ l
      → head_level sc key d ≡ ok e
  unfolding head_level find
  head_level-top key d (p, s) l h =
      ground (arith, sc.keys-items key d, h, sc.get_item-items key d p)

  best-top :
      (ready : Bool) (key : Decimal → Decimal) (d : sc.SortedDict key) (l : List Level)
      → sc.items key d ≡ l
      → best sc ready key d ≡ ok (top key ready d)
  best-top false key d l h = refl
  best-top true key d [] h = ground (arith, sc.size-items key d)
  best-top true key d (e ∷ l) h = ground (arith, sc.size-items key d, head_level-top key d e l h)

  -- Reading the best level of a side never raises: it is the first item of a ready book, and
  -- there is none if the side is empty or the book is not ready.
  pub best_of_side :
      (b : OrderBook sc)
      → (best_bid sc b ≡ ok (top opposite b.ready b.bids))
        × (best_ask sc b ≡ ok (top itself b.ready b.asks))
  unfolding best_bid best_ask
  best_of_side b = (best-top b.ready opposite b.bids _ refl, best-top b.ready itself b.asks _ refl)

  pub quote-top :
      (b : OrderBook sc)
      → quote sc b ≡ quote_of sc (top opposite b.ready b.bids) (top itself b.ready b.asks)
  unfolding quote
  quote-top b = rw ((best_of_side b).0, (best_of_side b).1)

  -- The level is stored with that size, and every level of the side is at its price or beyond.
  abbrev pub IsBest : (key : Decimal → Decimal) → sc.SortedDict key → Level → Type 0
  IsBest key d (p, s) =
      (sc.get_item key d p ≡ some s) × All (λ (e : Level). key p ≼ key e.0) (sc.items key d)

  Before-All :
      (key : Decimal → Decimal) (p : Decimal) (l : List Level)
      → Before key p l
      → All (λ (e : Level). key p ≼ key e.0) l
  Before-All key p [] b = tt
  Before-All key p (e ∷ l) b = (b.0, Before-All key p l b.1)

  head-IsBest :
      (key : Decimal → Decimal) (d : sc.SortedDict key) (e : Level) (l : List Level)
      → sc.items key d ≡ e ∷ l
      → IsBest key d e
  unfolding find
  head-IsBest key d (p, s) l h =
      let ascending = rw h at (sc.items-Ascending key d) in
      (
        ground (arith, sc.get_item-items key d p, h),
        rw h (omega arith, Before-All key p l ascending.0),
      )

  top-IsBest :
      (key : Decimal → Decimal) (ready : Bool) (d : sc.SortedDict key) (e : Level) (l : List Level)
      → sc.items key d ≡ l
      → top key ready d ≡ some e
      → (ready ≡ true) × IsBest key d e
  top-IsBest key ready d (p, s) [] h t = absurd (ground (arith, h))
  top-IsBest key ready d (p, s) ((q, r) ∷ l) h t =
      let same : ◌≡◌ {A = Level} (q, r) (p, s) = ground (arith, h) in
      (ground arith, head-IsBest key d (p, s) l (h ∙ ap (λ (e : Level). e ∷ l) same))

  -- Once both are rounded to the 28 digits of the context, no bid of the side is above the first.
  All-flip :
      (p : Decimal) (l : List Level)
      → All (λ (e : Level). opposite p ≼ opposite e.0) l
      → All (λ (e : Level). fix e.0 ≼ fix p) l
  All-flip p [] a = tt
  All-flip p (e ∷ l) a = (opposite-≼ p e.0 a.0, All-flip p l a.1)

  quote_of-served :
      (x y : Option Level) (q : Quote)
      → quote_of sc x y ≡ ok (some q)
      → (x ≡ some (q.bid_price, q.bid_size))
        × (y ≡ some (q.ask_price, q.ask_size))
        × (ltb_decimal q.bid_price q.ask_price ≡ true)
  quote_of-served none y q h = cc
  quote_of-served (some bid) none q h = cc
  quote_of-served (some bid) (some ask) q h = ground arith

  -- What a quote that is served says of the book.
  pub record Serves (b : OrderBook sc) (q : Quote) : Type 0 where
    pub ready : b.ready ≡ true
    pub bid_stored : sc.get_item opposite b.bids q.bid_price ≡ some q.bid_size
    pub ask_stored : sc.get_item itself b.asks q.ask_price ≡ some q.ask_size
    pub highest : All (λ (e : Level). fix e.0 ≼ fix q.bid_price) (sc.items opposite b.bids)
    pub lowest : All (λ (e : Level). q.ask_price ≼ e.0) (sc.items itself b.asks)
    pub uncrossed : ltb_decimal q.bid_price q.ask_price ≡ true

  -- A quote that is served comes from a ready book, with a bid and an ask that are stored with the
  -- sizes quoted. No ask of the book is below the one quoted, no bid is above the one quoted once
  -- both prices are rounded to 28 digits, as the sort key of the bids is, and the bid is strictly
  -- below the ask.
  pub quote-Serves : (b : OrderBook sc) (q : Quote) → quote sc b ≡ ok (some q) → Serves b q
  quote-Serves b q h =
      let (bid, ask, uncrossed) = quote_of-served _ _ q (sym (quote-top b) ∙ h) in
      let (ready, best_bid) = top-IsBest opposite b.ready b.bids _ _ refl bid in
      let (_, best_ask) = top-IsBest itself b.ready b.asks _ _ refl ask in
      record {
        ready = ready;
        bid_stored = best_bid.0;
        ask_stored = best_ask.0;
        highest = All-flip q.bid_price _ best_bid.1;
        lowest = best_ask.1;
        uncrossed = uncrossed;
      }

  abbrev pub Crossed : Option Level → Option Level → Type 0
  Crossed none ask = ⊥
  Crossed (some bid) none = ⊥
  Crossed (some bid) (some ask) = ask.0 ≼ bid.0

  quote_of_raises :
      (x y : Option Level) (e : Exception)
      → (quote_of sc x y ≡ raise e) ↔ (Crossed x y × (e ≡ crossed_book_error))
  quote_of_raises none y e = (λ h. cc, λ c. absurd c.0)
  quote_of_raises (some bid) none e = (λ h. cc, λ c. absurd c.0)
  quote_of_raises (some bid) (some ask) e = (λ h. ground arith, λ c. ground arith)

  -- A quote raises an exception exactly when both sides of a ready book have levels and the best
  -- ask is at or below the best bid, and the exception is CrossedBookError.
  pub quote_raises :
      (b : OrderBook sc) (e : Exception)
      → (quote sc b ≡ raise e) ↔ (
          Crossed (top opposite b.ready b.bids) (top itself b.ready b.asks)
          × (e ≡ crossed_book_error))
  quote_raises b e = rw quote-top (quote_of_raises _ _ e)

  -- There is no quote exactly when the book is not ready or a side is empty.
  pub quote-none :
      (b : OrderBook sc)
      → (quote sc b ≡ ok none)
        ↔ ((b.ready ≡ false) ⊎ (sc.size opposite b.bids ≡ 0) ⊎ (sc.size itself b.asks ≡ 0))
  quote-none b =
      ground (arith, quote-top b, sc.size-items opposite b.bids, sc.size-items itself b.asks)
