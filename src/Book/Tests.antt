-- ===== src/Book/Tests.antt =====
-- A book of BTC-USD on a sorted list: runs, and the theorems at work on it.
use crypto_market_platform.Base.{ℕ, ◌+◌, ◌≡◌, ◌↔◌, refl, String, true, none, some, List, [], ◌∷◌}
use crypto_market_platform.Base.Int.{pos}
use crypto_market_platform.Base.Result.{ok, raise, crossed_book_error}
use crypto_market_platform.SortedContainers.{find}
use crypto_market_platform.SortedContainers.Reference.{reference, store}
use crypto_market_platform.Decimal.Context.{opposite, fix}
use crypto_market_platform.Decimal.{Decimal, weigh}
use crypto_market_platform.Decimal.Text.{decimal}
use crypto_market_platform.Book.{
  OrderBook, itself, new_book, set_levels, apply_snapshot, apply_updates, best_bid, quote,
}
use crypto_market_platform.Book.Sides.{buy, sell, side_of}
use crypto_market_platform.Book.Quotes.{Quote, spread}
use crypto_market_platform.Base.Exec.{Exec}
use crypto_market_platform.Decimal.Positive.{IsPositive}
use crypto_market_platform.Book.Measures.{quote-IsPositive}
use crypto_market_platform.Book.Top.{Serves, Crossed, top, quote-Serves, quote_raises}
use crypto_market_platform.Book.Levels.{
  level, row_of, level_after, last_size, rows_read, rows_for, apply_snapshot-level,
}
use crypto_market_platform.Book.Deltas.{changes_read, last_change, apply_updates-level}
use crypto_market_platform.Book.Nonzero.{HasNoZero, new_book-HasNoZero}
use crypto_market_platform.Book.Ready.{
  Operation, snapshot, updates, disconnect, usable, perform_all, ready-perform_all,
  perform_all-HasNoZero,
}
use crypto_market_platform.Book.Books.{BookSet, new_book_set}

abbrev dec : ℕ → ℕ → Decimal
dec n s = record { coefficient = pos n; scale = s }

abbrev fresh : OrderBook reference
fresh = new_book reference "BTC-USD"

abbrev bids : List (String × String)
bids = ("100", "1") ∷ ("99", "2") ∷ ("98", "0") ∷ []

abbrev asks : List (String × String)
asks = ("101", "1.5") ∷ []

abbrev crossing_asks : List (String × String)
crossing_asks = ("99.5", "1") ∷ []

abbrev filled : OrderBook reference
filled = (apply_snapshot reference bids asks fresh).1

abbrev crossed : OrderBook reference
crossed = (apply_snapshot reference bids crossing_asks fresh).1

abbrev served : Quote
served = record {
  bid_price = dec 100 0;
  bid_size = dec 1 0;
  ask_price = dec 101 0;
  ask_size = dec 15 1;
}

quote_of_filled : quote reference filled ≡ ok (some served)
unfolding quote apply_snapshot new_book set_levels decimal store weigh opposite fix find side_of
quote_of_filled = refl

quote-Serves_example : Serves reference filled served
quote-Serves_example = quote-Serves reference filled served quote_of_filled

quote-IsPositive_example : IsPositive (spread served)
quote-IsPositive_example = quote-IsPositive reference filled served quote_of_filled

quote_raises_example : (quote reference crossed ≡ raise crossed_book_error) ↔ (
    Crossed reference
      (top reference opposite crossed.ready crossed.bids)
      (top reference itself crossed.ready crossed.asks)
    × (crossed_book_error ≡ crossed_book_error))
quote_raises_example = quote_raises reference crossed crossed_book_error

quote_of_crossed : quote reference crossed ≡ raise crossed_book_error
unfolding quote apply_snapshot new_book set_levels decimal store weigh opposite fix find side_of
quote_of_crossed = refl

-- A removal, a new level, and a row that does not parse: the first two stay.
abbrev deltas : List (String × String × String)
deltas = ("buy", "100", "0") ∷ ("buy", "99", "7") ∷ ("sell", "x", "1") ∷ []

apply_updates-level_example :
    let (result, b') = apply_updates reference deltas filled in
    let (changes, end) = changes_read deltas in
    (result ≡ end)
    × (level reference buy b' (dec 99 0)
        ≡ level_after (last_change buy (dec 99 0) changes) (level reference buy filled (dec 99 0)))
    × (b'.ready ≡ true)
    × (b'.update_count
        ≡ elim end [ ok _ ↦ filled.update_count + 1 | raise _ ↦ filled.update_count ])
unfolding apply_snapshot new_book set_levels decimal
apply_updates-level_example = apply_updates-level reference deltas filled buy (dec 99 0) refl

best_after_deltas :
    best_bid reference (apply_updates reference deltas filled).1 ≡ ok (some (dec 99 0, dec 7 0))
unfolding apply_updates best_bid apply_snapshot new_book set_levels decimal store weigh opposite fix
    find side_of
best_after_deltas = refl

apply_snapshot-level_example :
    let (result, b') = apply_snapshot reference bids asks crossed in
    (result ≡ ok tt)
    × (b'.ready ≡ true)
    × (b'.snapshot_count ≡ crossed.snapshot_count + 1)
    × (b'.update_count ≡ crossed.update_count)
    × (level reference sell b' (dec 101 0)
        ≡ level_after
            (last_size (dec 101 0) (rows_read (rows_for reference sell bids asks)).0)
            none)
unfolding rows_read row_of decimal
apply_snapshot-level_example =
    apply_snapshot-level reference bids asks crossed sell (dec 101 0) refl refl

abbrev life : List Operation
life = snapshot bids asks ∷ updates deltas ∷ disconnect ∷ updates deltas ∷ snapshot asks bids ∷ []

ready-perform_all_example : (perform_all reference life fresh).ready ≡ usable fresh.ready life
ready-perform_all_example = ready-perform_all reference life fresh

perform_all-HasNoZero_example : HasNoZero reference (perform_all reference life fresh)
perform_all-HasNoZero_example =
    perform_all-HasNoZero reference life fresh (new_book-HasNoZero reference "BTC-USD")

abbrev books : BookSet reference
books = new_book_set reference ("BTC-USD" ∷ "ETH-USD" ∷ [])

abbrev fill : Exec (OrderBook reference) (Unit {0})
fill = apply_snapshot reference bids asks
