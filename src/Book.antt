-- ===== src/Book.antt =====
-- ingest/src/consumer/book.py: `Side`, `Quote` and `OrderBook`. The texts of prices and sizes are
-- parsed where the code does, so a malformed one raises in the middle of a batch.
pub mod Sides
pub mod Quotes
pub mod Books
pub mod Levels
pub mod Deltas
pub mod Nonzero
pub mod Top
pub mod Measures
pub mod Ready
mod Tests
use crypto_market_platform.Base.{
  ℕ, ◌+◌, String, Bool, true, false, not, ◌||◌, Option, none, some, List, [], ◌∷◌, ◌==◌,
  if◌then◌else◌,
}
use crypto_market_platform.Base.Result.{
  Result, ok, raise, index_error, key_error, crossed_book_error,
}
use crypto_market_platform.Base.Result
use crypto_market_platform.Base.Exec.{Exec, lift, pure, modify, ◌>>=◌, ◌>>◌}
use crypto_market_platform.Decimal.{Decimal, leb_decimal, eqb_decimal, zero_decimal, whole}
use crypto_market_platform.Decimal.Text.{decimal}
use crypto_market_platform.Decimal.Context.{opposite, plus, minus, times, over}
use crypto_market_platform.SortedContainers.{SortedContainers, Level}
use Sides.{Side, buy, sell, side_of}
use Quotes.{Quote, mid}

-- The key function of a `SortedDict()` with none.
abbrev pub itself : Decimal → Decimal
itself p = p

module _ (sc : SortedContainers) where
  pub record OrderBook : Type 0 where
    pub product_id : String
    pub bids : sc.SortedDict opposite
    pub asks : sc.SortedDict itself
    pub ready : Bool
    pub snapshot_count : ℕ
    pub update_count : ℕ

  -- `OrderBook(product_id)`
  unfoldable pub new_book : String → OrderBook
  new_book product_id = record {
    product_id = product_id;
    bids = sc.new opposite;
    asks = sc.new itself;
    ready = false;
    snapshot_count = 0;
    update_count = 0;
  }

  -- `_set`
  unfoldable pub set_level :
      (key : Decimal → Decimal) → Decimal → Decimal → sc.SortedDict key → sc.SortedDict key
  set_level key price size d =
      if eqb_decimal size zero_decimal then sc.pop key d price else sc.set_item key d price size

  -- The loop of `apply_snapshot` over one side.
  unfoldable pub set_levels :
      (key : Decimal → Decimal) → List (String × String) → Exec (sc.SortedDict key) (Unit {0})
  unfolding set_level
  set_levels key [] = pure tt
  set_levels key ((price, size) ∷ rest) = do
    p ← lift (decimal price)
    s ← lift (decimal size)
    modify (set_level key p s)
    set_levels key rest

  -- A call on one of the two dictionaries, which are changed in place.
  abbrev pub on_bids : Exec (sc.SortedDict opposite) (Unit {0}) → Exec OrderBook (Unit {0})
  on_bids m b = let (r, d) = m b.bids in (r, record b { bids = d })

  abbrev pub on_asks : Exec (sc.SortedDict itself) (Unit {0}) → Exec OrderBook (Unit {0})
  on_asks m b = let (r, d) = m b.asks in (r, record b { asks = d })

  abbrev pub clear_sides : OrderBook → OrderBook
  clear_sides b = record b { bids = sc.clear opposite b.bids; asks = sc.clear itself b.asks }

  unfoldable pub apply_snapshot :
      List (String × String) → List (String × String) → Exec OrderBook (Unit {0})
  apply_snapshot bids asks = do
    modify clear_sides
    on_bids (set_levels opposite bids)
    on_asks (set_levels itself asks)
    modify (λ b. record b { ready = true; snapshot_count = b.snapshot_count + 1 })

  -- `self._set(book, …)` with the book that `side` chooses.
  unfoldable pub set_side : Side → Decimal → Decimal → OrderBook → OrderBook
  unfolding set_level
  set_side buy price size b = record b { bids = set_level opposite price size b.bids }
  set_side sell price size b = record b { asks = set_level itself price size b.asks }

  -- The loop of `apply_updates`.
  unfoldable pub apply_changes : List (String × String × String) → Exec OrderBook (Unit {0})
  unfolding set_side
  apply_changes [] = pure tt
  apply_changes ((raw_side, raw_price, raw_size) ∷ rest) = do
    side ← lift (side_of raw_side)
    price ← lift (decimal raw_price)
    size ← lift (decimal raw_size)
    modify (set_side side price size)
    apply_changes rest

  unfoldable pub apply_updates : List (String × String × String) → Exec OrderBook (Unit {0})
  unfolding apply_changes
  apply_updates changes b =
      let apply = do
        apply_changes changes
        modify (λ (b' : OrderBook). record b' { update_count = b'.update_count + 1 })
      in if not b.ready then (ok tt, b) else apply b

  -- `price = d.keys()[0]; return price, d[price]`
  unfoldable pub head_level : (key : Decimal → Decimal) → sc.SortedDict key → Result Level
  head_level key d = elim (sc.keys key d) [
    | [] ↦ raise index_error
    | price ∷ _ ↦ elim (sc.get_item key d price) [
      | none ↦ raise key_error
      | some size ↦ ok (price, size)
    ]
  ]

  -- `best_bid` and `best_ask`: `not d` holds of an empty dictionary.
  abbrev pub best : Bool → (key : Decimal → Decimal) → sc.SortedDict key → Result (Option Level)
  best ready key d =
      let top = Result.◌>>=◌ (head_level key d) (λ e. ok (some e)) in
      if not ready || sc.size key d == 0 then ok none else top

  unfoldable pub best_bid : OrderBook → Result (Option Level)
  unfolding head_level
  best_bid b = best b.ready opposite b.bids

  unfoldable pub best_ask : OrderBook → Result (Option Level)
  unfolding head_level
  best_ask b = best b.ready itself b.asks

  abbrev pub quote_of : Option Level → Option Level → Result (Option Quote)
  quote_of none ask = ok none
  quote_of (some bid) none = ok none
  quote_of (some (bid_price, bid_size)) (some (ask_price, ask_size)) =
      if leb_decimal ask_price bid_price
      then raise crossed_book_error
      else ok (
          some (record {
            bid_price = bid_price;
            bid_size = bid_size;
            ask_price = ask_price;
            ask_size = ask_size;
          }))

  unfoldable pub quote : OrderBook → Result (Option Quote)
  unfolding best_bid best_ask
  quote b = Result.◌>>=◌ (best_bid b) (λ bid. Result.◌>>=◌ (best_ask b) (λ ask. quote_of bid ask))

  -- `sum((s for p, s in items if wanted(p)), Decimal(0))`
  unfoldable pub sum_sizes : (Decimal → Bool) → Decimal → List Level → Decimal
  sum_sizes wanted total [] = total
  sum_sizes wanted total ((p, s) ∷ rest) =
      sum_sizes wanted (if wanted p then plus total s else total) rest

  -- The band of `depth_within_bps`, from its lower end to its upper end.
  unfoldable pub band : Quote → ℕ → Result (Decimal × Decimal)
  band q bps = Result.◌>>=◌ (mid q) λ m.
      Result.◌>>=◌ (over (times m (whole bps)) (whole 10000))
        λ width. ok (minus m width, plus m width)

  -- The depths of both sides within the band of a quote, none without a quote.
  abbrev pub depths : OrderBook → ℕ → Option Quote → Result (Decimal × Decimal)
  depths b bps none = ok (zero_decimal, zero_decimal)
  depths b bps (some q) = Result.◌>>=◌ (band q bps) λ (floor, ceil). ok (
    sum_sizes (λ p. leb_decimal floor p) zero_decimal (sc.items opposite b.bids),
    sum_sizes (λ p. leb_decimal p ceil) zero_decimal (sc.items itself b.asks),
  )

  unfoldable pub depth_within_bps : OrderBook → ℕ → Result (Decimal × Decimal)
  unfolding quote
  depth_within_bps b bps = Result.◌>>=◌ (quote b) λ found. depths b bps found

  unfoldable pub reset : OrderBook → OrderBook
  reset b = record b {
    bids = sc.clear opposite b.bids;
    asks = sc.clear itself b.asks;
    ready = false;
  }

  -- `len(book)`
  unfoldable pub len : OrderBook → ℕ
  len b = sc.size opposite b.bids + sc.size itself b.asks
