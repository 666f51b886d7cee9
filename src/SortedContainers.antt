-- ===== src/SortedContainers.antt =====
-- The package sortedcontainers, which ingest/src/consumer/book.py imports: its SortedDict is a
-- parameter of the model. The laws are what its documentation says of the calls that the book
-- makes: a mapping by the value of its keys, iterated in ascending order of the key function.
pub mod Reference
use crypto_market_platform.Base.{
  ℕ, ◌≡◌, Option, none, some, List, [], ◌∷◌, map, length, if◌then◌else◌,
}
use crypto_market_platform.Decimal.{Decimal, ◌≼◌, eqb_decimal}

abbrev pub Level : Type 0
Level = Decimal × Decimal

-- The first entry with a key of this value.
unfoldable pub find : Decimal → List Level → Option Decimal
find k [] = none
find k ((j, v) ∷ l) = if eqb_decimal j k then some v else find k l

-- Every entry comes before those behind it, by the key function.
abbrev pub Before : (Decimal → Decimal) → Decimal → List Level → Type 0
Before key k [] = Unit
Before key k ((j, v) ∷ l) = (key k ≼ key j) × Before key k l

abbrev pub Ascending : (Decimal → Decimal) → List Level → Type 0
Ascending key [] = Unit
Ascending key ((k, v) ∷ l) = Before key k l × Ascending key l

-- `SortedDict(key)` holds its key function, so the type is indexed by it.
pub record SortedContainers : Type 1 where
  pub SortedDict : (Decimal → Decimal) → Type 0
  pub new : (key : Decimal → Decimal) → SortedDict key
  pub clear : (key : Decimal → Decimal) → SortedDict key → SortedDict key
  pub set_item : (key : Decimal → Decimal) → SortedDict key → Decimal → Decimal → SortedDict key
  -- `d.pop(k, None)`, for its effect
  pub pop : (key : Decimal → Decimal) → SortedDict key → Decimal → SortedDict key
  -- `d[k]`, where `none` is a KeyError
  pub get_item : (key : Decimal → Decimal) → SortedDict key → Decimal → Option Decimal
  pub keys : (key : Decimal → Decimal) → SortedDict key → List Decimal
  pub items : (key : Decimal → Decimal) → SortedDict key → List Level
  -- `len(d)`
  pub size : (key : Decimal → Decimal) → SortedDict key → ℕ
  pub items-new : (key : Decimal → Decimal) → items key (new key) ≡ []
  pub items-clear : (key : Decimal → Decimal) (d : SortedDict key) → items key (clear key d) ≡ []
  pub get_item-items :
      (key : Decimal → Decimal) (d : SortedDict key) (k : Decimal)
      → get_item key d k ≡ find k (items key d)
  pub keys-items :
      (key : Decimal → Decimal) (d : SortedDict key) → keys key d ≡ map (λ e. e.0) (items key d)
  pub size-items :
      (key : Decimal → Decimal) (d : SortedDict key) → size key d ≡ length (items key d)
  pub items-Ascending : (key : Decimal → Decimal) (d : SortedDict key) → Ascending key (items key d)
  pub get_item-set_item :
      (key : Decimal → Decimal) (d : SortedDict key) (k v j : Decimal)
      → get_item key (set_item key d k v) j ≡ (if eqb_decimal k j then some v else get_item key d j)
  pub get_item-pop :
      (key : Decimal → Decimal) (d : SortedDict key) (k j : Decimal)
      → get_item key (pop key d k) j ≡ (if eqb_decimal k j then none else get_item key d j)
