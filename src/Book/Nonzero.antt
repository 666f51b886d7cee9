-- ===== src/Book/Nonzero.antt =====
-- book.py, `_set`: zero removes a level, so no level is ever stored with size zero.
use crypto_market_platform.Base.{
  ℕ, ◌≡◌, String, false, Option, none, some, List, inl, inr, arith, Bool-cases,
}
use crypto_market_platform.Base.Result.{Result-cases}
use crypto_market_platform.Decimal.Context.{opposite}
use crypto_market_platform.Decimal.{Decimal, eqb_decimal, zero_decimal}
use crypto_market_platform.SortedContainers.{SortedContainers, find}
use crypto_market_platform.Book.{
  OrderBook, itself, new_book, set_levels, apply_snapshot, apply_changes, apply_updates, reset,
}
use crypto_market_platform.Book.Sides.{Side, buy, sell}
use crypto_market_platform.Book.Levels.{level, level_after, set_levels-level, get_item-clear}
use crypto_market_platform.Book.Deltas.{apply_changes-level}

abbrev pub NonzeroSize : Option Decimal → Type 0
NonzeroSize none = Unit
NonzeroSize (some size) = eqb_decimal size zero_decimal ≡ false

level_after-NonzeroSize :
    (change old : Option Decimal) → NonzeroSize old → NonzeroSize (level_after change old)
level_after-NonzeroSize none old h = h
level_after-NonzeroSize (some size) old h = ground arith

module _ (sc : SortedContainers) where
  -- No level of the book holds zero.
  pub record HasNoZero (b : OrderBook sc) : Type 0 where
    pub at : (side : Side) (j : Decimal) → NonzeroSize (level sc side b j)

  abbrev Dictionary : (key : Decimal → Decimal) → sc.SortedDict key → Type 0
  Dictionary key d = (j : Decimal) → NonzeroSize (sc.get_item key d j)

  get_item-new : (key : Decimal → Decimal) (j : Decimal) → sc.get_item key (sc.new key) j ≡ none
  unfolding find
  get_item-new key j = rw (sc.get_item-items, sc.items-new)

  pub new_book-HasNoZero : (p : String) → HasNoZero (new_book sc p)
  unfolding new_book
  new_book-HasNoZero p = record { at = go }
    where
      go : (side : Side) (j : Decimal) → NonzeroSize (level sc side (new_book sc p) j)
      go buy j = rw get_item-new tt
      go sell j = rw get_item-new tt

  clear-NonzeroSize :
      (key : Decimal → Decimal) (d : sc.SortedDict key) → Dictionary key (sc.clear key d)
  clear-NonzeroSize key d j = rw (get_item-clear sc) tt

  set_levels-NonzeroSize :
      (key : Decimal → Decimal) (rows : List (String × String)) (d : sc.SortedDict key)
      → Dictionary key d
      → Dictionary key (set_levels sc key rows d).1
  set_levels-NonzeroSize key rows d h j =
      rw (set_levels-level sc key rows d j).1 (level_after-NonzeroSize _ _ (h j))

  from_sides :
      (b : OrderBook sc) → Dictionary opposite b.bids → Dictionary itself b.asks → HasNoZero b
  from_sides b hb ha = record { at = go }
    where
      go : (side : Side) (j : Decimal) → NonzeroSize (level sc side b j)
      go buy j = hb j
      go sell j = ha j

  pub apply_snapshot-HasNoZero :
      (bids asks : List (String × String)) (b : OrderBook sc)
      → HasNoZero (apply_snapshot sc bids asks b).1
  unfolding apply_snapshot
  apply_snapshot-HasNoZero bids asks b =
      let db = sc.clear opposite b.bids in
      let da = sc.clear itself b.asks in
      let hb = set_levels-NonzeroSize opposite bids db (clear-NonzeroSize opposite b.bids) in
      let ha = set_levels-NonzeroSize itself asks da (clear-NonzeroSize itself b.asks) in
      elim (Result-cases (set_levels sc opposite bids db).0) [
        | inr (e, bad) ↦ rw bad (from_sides _ hb (clear-NonzeroSize itself b.asks))
        | inl (done, good) ↦ elim (Result-cases (set_levels sc itself asks da).0) [
          | inr (e, bad) ↦ rw (good, bad) (from_sides _ hb ha)
          | inl (done', good') ↦ rw (good, good') (from_sides _ hb ha)
        ]
      ]

  apply_changes-HasNoZero :
      (rows : List (String × String × String)) (b : OrderBook sc)
      → HasNoZero b
      → HasNoZero (apply_changes sc rows b).1
  apply_changes-HasNoZero rows b h = record {
    at = λ side j.
        rw (apply_changes-level sc rows b side j).1 (level_after-NonzeroSize _ _ (h.at side j));
  }

  counted : (b : OrderBook sc) (n : ℕ) → HasNoZero b → HasNoZero (record b { update_count = n })
  counted b n h = from_sides _ (λ j. h.at buy j) (λ j. h.at sell j)

  pub apply_updates-HasNoZero :
      (rows : List (String × String × String)) (b : OrderBook sc)
      → HasNoZero b
      → HasNoZero (apply_updates sc rows b).1
  unfolding apply_updates
  apply_updates-HasNoZero rows b h = elim (Bool-cases b.ready) [
    | inr waiting ↦ simp waiting h
    | inl ready ↦ elim (Result-cases (apply_changes sc rows b).0) [
      | inr (e, bad) ↦ simp (ready, bad) (apply_changes-HasNoZero rows b h)
      | inl (done, good) ↦ simp (ready, good) (counted _ _ (apply_changes-HasNoZero rows b h))
    ]
  ]

  pub reset-HasNoZero : (b : OrderBook sc) → HasNoZero (reset sc b)
  unfolding reset
  reset-HasNoZero b =
      from_sides _ (clear-NonzeroSize opposite b.bids) (clear-NonzeroSize itself b.asks)
