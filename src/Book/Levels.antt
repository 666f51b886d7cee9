-- ===== src/Book/Levels.antt =====
-- book.py: what a snapshot and a batch of deltas leave at each price, against a description that
-- looks only at the last row for the price.
use crypto_market_platform.Base.{
  ◌+◌, ◌≡◌, ◌≢◌, ◌∙◌, refl, ap, String, true, Option, none, some, List, [], ◌∷◌, inl, inr, arith,
  if◌then◌else◌,
}
use crypto_market_platform.Base.Result.{Result, ok, raise, Result-cases, ◌>>=◌}
use crypto_market_platform.Base.Exec
use crypto_market_platform.Decimal.Context.{opposite}
use crypto_market_platform.Decimal.{Decimal, eqb_decimal, zero_decimal}
use crypto_market_platform.Decimal.Text.{decimal}
use crypto_market_platform.SortedContainers.{SortedContainers, Level, find}
use crypto_market_platform.Book.{OrderBook, itself, set_level, set_levels, apply_snapshot}
use crypto_market_platform.Book.Sides.{Side, buy, sell}

unfoldable pub row_of : String → String → Result Level
row_of price size = do p ← decimal price; s ← decimal size; ok (p, s)

-- The rows that parse, up to the first that does not, and how reading them ends.
abbrev pub read_on {ℓ} :
    {A : Type ℓ} → Result A → List A × Result (Unit {0}) → List A × Result (Unit {0})
read_on (raise e) later = ([], raise e)
read_on (ok row) (rows, end) = (row ∷ rows, end)

unfoldable pub rows_read : List (String × String) → List Level × Result (Unit {0})
rows_read [] = ([], ok tt)
rows_read ((price, size) ∷ rows) = read_on (row_of price size) (rows_read rows)

-- The size in the last row for a price.
pub last_size : Decimal → List Level → Option Decimal
last_size j [] = none
last_size j ((p, s) ∷ rows) =
    let now = if eqb_decimal p j then some s else none in
    elim (last_size j rows) [ some later ↦ some later | none ↦ now ]

-- A level after such a row: zero removes it, and with no row it stays.
abbrev pub level_after : Option Decimal → Option Decimal → Option Decimal
level_after none old = old
level_after (some size) old = if eqb_decimal size zero_decimal then none else some size

module _ (sc : SortedContainers) where
  abbrev pub level : Side → OrderBook sc → Decimal → Option Decimal
  level buy b j = sc.get_item opposite b.bids j
  level sell b j = sc.get_item itself b.asks j

  pub get_item-set_level :
      (key : Decimal → Decimal) (p s j : Decimal) (d : sc.SortedDict key)
      → sc.get_item key (set_level sc key p s d) j
        ≡ (if eqb_decimal p j then level_after (some s) none else sc.get_item key d j)
  unfolding set_level
  get_item-set_level key p s j d =
      ground (arith, sc.get_item-set_item key d p s j, sc.get_item-pop key d p j)

  set_levels-cons :
      (key : Decimal → Decimal) (price size : String) (rows : List (String × String))
      (d : sc.SortedDict key)
      → set_levels sc key ((price, size) ∷ rows) d
        ≡ Exec.continue
            (row_of price size)
            (λ (p, s) d'. set_levels sc key rows (set_level sc key p s d'))
            d
  unfolding set_levels row_of
  set_levels-cons key price size rows d = elim (Result-cases (decimal price)) [
    | inr (e, bad) ↦ rw bad
    | inl (p, ep) ↦ elim (Result-cases (decimal size)) [
      | inr (e, bad) ↦ rw (ep, bad)
      | inl (s, es) ↦ rw (ep, es)
    ]
  ]

  pub set_levels-level :
      (key : Decimal → Decimal) (rows : List (String × String)) (d : sc.SortedDict key)
      (j : Decimal)
      → ((set_levels sc key rows d).0 ≡ (rows_read rows).1)
        × (sc.get_item key (set_levels sc key rows d).1 j
            ≡ level_after (last_size j (rows_read rows).0) (sc.get_item key d j))
  unfolding rows_read last_size
  set_levels-level key [] d j = unfold set_levels in (refl, refl)
  set_levels-level key ((price, size) ∷ rows) d j =
      rw set_levels-cons (elim (Result-cases (row_of price size)) [
        | inr (e, bad) ↦ rw (bad, rows_read) (refl, refl)
        | inl ((p, s), good) ↦
            let (result, levels) = set_levels-level key rows (set_level sc key p s d) j in
            rw (good, rows_read) (result, ground (arith, levels, get_item-set_level key p s j d))
      ])

  pub get_item-clear :
      (key : Decimal → Decimal) (d : sc.SortedDict key) (j : Decimal)
      → sc.get_item key (sc.clear key d) j ≡ none
  unfolding find
  get_item-clear key d j = rw (sc.get_item-items, sc.items-clear)

  abbrev pub rows_for :
      Side → List (String × String) → List (String × String) → List (String × String)
  rows_for buy bids asks = bids
  rows_for sell bids asks = asks

  abbrev pub after_snapshot :
      List (String × String) → List (String × String) → OrderBook sc → OrderBook sc
  after_snapshot bids asks b = record b {
    bids = (set_levels sc opposite bids (sc.clear opposite b.bids)).1;
    asks = (set_levels sc itself asks (sc.clear itself b.asks)).1;
    ready = true;
    snapshot_count = b.snapshot_count + 1;
  }

  pub apply_snapshot_done :
      (bids asks : List (String × String)) (b : OrderBook sc)
      → (rows_read bids).1 ≡ ok tt
      → (rows_read asks).1 ≡ ok tt
      → apply_snapshot sc bids asks b ≡ (ok tt, after_snapshot bids asks b)
  unfolding apply_snapshot
  apply_snapshot_done bids asks b hb ha =
      let (rb, _) = set_levels-level opposite bids (sc.clear opposite b.bids) zero_decimal in
      let (ra, _) = set_levels-level itself asks (sc.clear itself b.asks) zero_decimal in
      rw (rb ∙ hb, ra ∙ ha)

  -- A snapshot that parses makes the book ready and replaces it: each side then holds at a price
  -- the size of the last row for that price, and nothing where that is zero or there is no row,
  -- whatever the book held before.
  pub apply_snapshot-level :
      (bids asks : List (String × String)) (b : OrderBook sc) (side : Side) (j : Decimal)
      → (rows_read bids).1 ≡ ok tt
      → (rows_read asks).1 ≡ ok tt
      → let (result, b') = apply_snapshot sc bids asks b in
        (result ≡ ok tt)
        × (b'.ready ≡ true)
        × (b'.snapshot_count ≡ b.snapshot_count + 1)
        × (b'.update_count ≡ b.update_count)
        × (level side b' j ≡ level_after (last_size j (rows_read (rows_for side bids asks)).0) none)
  apply_snapshot-level bids asks b buy j hb ha = rw (apply_snapshot_done bids asks b hb ha) (
    refl,
    refl,
    refl,
    refl,
    (set_levels-level opposite bids (sc.clear opposite b.bids) j).1
        ∙ ap (level_after _) (get_item-clear opposite b.bids j),
  )
  apply_snapshot-level bids asks b sell j hb ha = rw (apply_snapshot_done bids asks b hb ha) (
    refl,
    refl,
    refl,
    refl,
    (set_levels-level itself asks (sc.clear itself b.asks) j).1
        ∙ ap (level_after _) (get_item-clear itself b.asks j),
  )

  -- A snapshot that raises counts nothing and leaves the book as ready as it was.
  pub apply_snapshot_raises :
      (bids asks : List (String × String)) (b : OrderBook sc)
      → (apply_snapshot sc bids asks b).0 ≢ ok tt
      → let b' = (apply_snapshot sc bids asks b).1 in
        (b'.ready ≡ b.ready) × (b'.snapshot_count ≡ b.snapshot_count)
  unfolding apply_snapshot
  apply_snapshot_raises bids asks b failed = ground arith
