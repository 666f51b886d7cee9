-- ===== src/Book/Deltas.antt =====
-- book.py, `apply_updates`: a batch of deltas against the last change that it has for each price.
use crypto_market_platform.Base.{
  ℕ, ◌+◌, ◌≡◌, ◌∙◌, ap, refl, String, Bool, true, false, ◌&&◌, Option, none, some, List, [], ◌∷◌,
  inl, inr, arith, if◌then◌else◌,
}
use crypto_market_platform.Base.Result.{Result, ok, raise, Result-cases, ◌>>=◌}
use crypto_market_platform.Base.Exec
use crypto_market_platform.Decimal.Context.{opposite}
use crypto_market_platform.Decimal.{Decimal, eqb_decimal}
use crypto_market_platform.Decimal.Text.{decimal}
use crypto_market_platform.SortedContainers.{SortedContainers}
use crypto_market_platform.Book.{OrderBook, itself, set_side, apply_changes, apply_updates}
use crypto_market_platform.Book.Sides.{Side, buy, sell, side_of}
use crypto_market_platform.Book.Levels.{read_on, level_after, level, get_item-set_level}

abbrev pub Change : Type 0
Change = Side × Decimal × Decimal

pub change_of : String → String → String → Result Change
change_of raw_side raw_price raw_size = do
  side ← side_of raw_side
  price ← decimal raw_price
  size ← decimal raw_size
  ok (side, price, size)

-- The changes that parse, up to the first that does not, and how reading them ends.
pub changes_read : List (String × String × String) → List Change × Result (Unit {0})
changes_read [] = ([], ok tt)
changes_read ((side, price, size) ∷ rows) = read_on (change_of side price size) (changes_read rows)

abbrev pub same_side : Side → Side → Bool
same_side buy buy = true
same_side sell sell = true
same_side _ _ = false

-- The size in the last change of a side at a price.
pub last_change : Side → Decimal → List Change → Option Decimal
last_change side j [] = none
last_change side j ((t, p, s) ∷ rows) =
    let now = if same_side t side && eqb_decimal p j then some s else none in
    elim (last_change side j rows) [ some later ↦ some later | none ↦ now ]

module _ (sc : SortedContainers) where
  pub level-set_side :
      (t side : Side) (p s j : Decimal) (b : OrderBook sc)
      → level sc side (set_side sc t p s b) j ≡ (
          if same_side t side && eqb_decimal p j
          then level_after (some s) none
          else level sc side b j)
  unfolding set_side
  level-set_side buy buy p s j b = get_item-set_level sc opposite p s j b.bids
  level-set_side buy sell p s j b = refl
  level-set_side sell buy p s j b = refl
  level-set_side sell sell p s j b = get_item-set_level sc itself p s j b.asks

  pub apply_changes-cons :
      (side price size : String) (rows : List (String × String × String)) (b : OrderBook sc)
      → apply_changes sc ((side, price, size) ∷ rows) b
        ≡ Exec.continue
            (change_of side price size)
            (λ (t, p, s) b'. apply_changes sc rows (set_side sc t p s b'))
            b
  unfolding apply_changes change_of
  apply_changes-cons side price size rows b = elim (Result-cases (side_of side)) [
    | inr (e, bad) ↦ rw bad
    | inl (t, et) ↦ elim (Result-cases (decimal price)) [
      | inr (e, bad) ↦ rw (et, bad)
      | inl (p, ep) ↦ elim (Result-cases (decimal size)) [
        | inr (e, bad) ↦ rw (et, ep, bad)
        | inl (s, es) ↦ rw (et, ep, es)
      ]
    ]
  ]

  -- What the loop leaves alone.
  pub record Untouched (b b' : OrderBook sc) : Type 0 where
    pub ready : b'.ready ≡ b.ready
    pub product_id : b'.product_id ≡ b.product_id
    pub snapshot_count : b'.snapshot_count ≡ b.snapshot_count
    pub update_count : b'.update_count ≡ b.update_count

  set_side-Untouched :
      (t : Side) (p s : Decimal) (b : OrderBook sc) → Untouched b (set_side sc t p s b)
  unfolding set_side
  set_side-Untouched buy p s b = ground arith
  set_side-Untouched sell p s b = ground arith

  pub apply_changes-Untouched :
      (rows : List (String × String × String)) (b : OrderBook sc)
      → Untouched b (apply_changes sc rows b).1
  apply_changes-Untouched [] b = unfold apply_changes in ground arith
  apply_changes-Untouched ((side, price, size) ∷ rows) b =
      rw apply_changes-cons (elim (Result-cases (change_of side price size)) [
        | inr (e, bad) ↦ rw bad (ground arith)
        | inl ((t, p, s), good) ↦
            let first = set_side-Untouched t p s b in
            let later = apply_changes-Untouched rows (set_side sc t p s b) in rw good (ground arith)
      ])

  pub apply_changes-level :
      (rows : List (String × String × String)) (b : OrderBook sc) (side : Side) (j : Decimal)
      → ((apply_changes sc rows b).0 ≡ (changes_read rows).1)
        × (level sc side (apply_changes sc rows b).1 j
            ≡ level_after (last_change side j (changes_read rows).0) (level sc side b j))
  unfolding changes_read last_change
  apply_changes-level [] b side j = unfold apply_changes in (refl, refl)
  apply_changes-level ((raw_side, price, size) ∷ rows) b side j =
      rw apply_changes-cons (elim (Result-cases (change_of raw_side price size)) [
        | inr (e, bad) ↦ rw (bad, changes_read) (refl, refl)
        | inl ((t, p, s), good) ↦
            let (result, levels) = apply_changes-level rows (set_side sc t p s b) side j in
            rw (good, changes_read) (result, ground (arith, levels, level-set_side t side p s j b))
      ])

  level-counted :
      (side : Side) (b : OrderBook sc) (n : ℕ) (j : Decimal)
      → level sc side (record b { update_count = n }) j ≡ level sc side b j
  level-counted buy b n j = refl
  level-counted sell b n j = refl

  -- On a ready book each level of each side becomes what the last change for it says, zero for
  -- removal, and stays where no change names it. A change that does not parse raises; then the
  -- changes before it are applied, and only a batch with no such change counts as an update.
  pub apply_updates-level :
      (rows : List (String × String × String)) (b : OrderBook sc) (side : Side) (j : Decimal)
      → b.ready ≡ true
      → let (result, b') = apply_updates sc rows b in
        let (changes, end) = changes_read rows in
        (result ≡ end)
        × (level sc side b' j ≡ level_after (last_change side j changes) (level sc side b j))
        × (b'.ready ≡ true)
        × (b'.update_count ≡ elim end [ ok _ ↦ b.update_count + 1 | raise _ ↦ b.update_count ])
  unfolding apply_updates
  apply_updates-level rows b side j ready =
      let same = apply_changes-Untouched rows b in
      let (result, levels) = apply_changes-level rows b side j in
      elim (Result-cases (changes_read rows).1) [
        | inl (done, e) ↦ simp ready (
            rw (result ∙ e, e)
              (
                refl,
                level-counted side _ _ j ∙ levels,
                same.ready ∙ ready,
                ap (λ (n : ℕ). n + 1) same.update_count,
              ))
        | inr (x, e) ↦
            simp ready (rw (result ∙ e, e) (refl, levels, same.ready ∙ ready, same.update_count))
      ]
