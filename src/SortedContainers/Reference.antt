-- ===== src/SortedContainers/Reference.antt =====
-- A sorted list of entries meets the laws of SortedDict.
use crypto_market_platform.Base.{
  ◌≡◌, refl, true, none, some, List, [], ◌∷◌, map, length, arith, if◌then◌else◌,
}
use crypto_market_platform.Decimal.{Decimal, ◌≼◌, leb_decimal, eqb_decimal}
use crypto_market_platform.Decimal.Order.{≼_trans, eqb_decimal-left}
use crypto_market_platform.SortedContainers.{Level, find, Before, Ascending, SortedContainers}

unfoldable pub without : Decimal → List Level → List Level
without k [] = []
without k ((j, v) ∷ l) = let rest = without k l in if eqb_decimal j k then rest else (j, v) ∷ rest

unfoldable pub insert : (Decimal → Decimal) → Decimal → Decimal → List Level → List Level
insert key k v [] = (k, v) ∷ []
insert key k v ((j, w) ∷ l) =
    let later = insert key k v l in
    if leb_decimal (key k) (key j) then (k, v) ∷ (j, w) ∷ l else (j, w) ∷ later

pub find-without :
    (k j : Decimal) (l : List Level)
    → find j (without k l) ≡ (if eqb_decimal k j then none else find j l)
unfolding find without
find-without k j [] = ground arith
find-without k j ((i, v) ∷ l) =
    ground (arith, find-without k j l, eqb_decimal-left i k j, eqb_decimal-left k j i)

find-insert :
    (key : Decimal → Decimal) (k v j : Decimal) (l : List Level)
    → (eqb_decimal k j ≡ true → find j l ≡ none)
    → find j (insert key k v l) ≡ (if eqb_decimal k j then some v else find j l)
unfolding find insert
find-insert key k v j [] h = refl
find-insert key k v j ((i, w) ∷ l) h = ground (arith, find-insert key k v j l)

Before-trans :
    (key : Decimal → Decimal) (k j : Decimal) (l : List Level)
    → key k ≼ key j
    → Before key j l
    → Before key k l
Before-trans key k j [] h b = tt
Before-trans key k j ((i, w) ∷ l) h b =
    (≼_trans (key k) (key j) (key i) h b.0, Before-trans key k j l h b.1)

Before-without :
    (key : Decimal → Decimal) (k j : Decimal) (l : List Level)
    → Before key j l
    → Before key j (without k l)
unfolding without
Before-without key k j [] b = tt
Before-without key k j ((i, w) ∷ l) b = ground (arith, Before-without key k j l b.1)

pub Ascending-without :
    (key : Decimal → Decimal) (k : Decimal) (l : List Level)
    → Ascending key l
    → Ascending key (without k l)
unfolding without
Ascending-without key k [] a = tt
Ascending-without key k ((i, w) ∷ l) a =
    ground (arith, Ascending-without key k l a.1, Before-without key k i l a.0)

Before-insert :
    (key : Decimal → Decimal) (k v j : Decimal) (l : List Level)
    → key j ≼ key k
    → Before key j l
    → Before key j (insert key k v l)
unfolding insert
Before-insert key k v j [] h b = (h, tt)
Before-insert key k v j ((i, w) ∷ l) h b = ground (arith, Before-insert key k v j l h b.1)

Ascending-insert :
    (key : Decimal → Decimal) (k v : Decimal) (l : List Level)
    → Ascending key l
    → Ascending key (insert key k v l)
unfolding insert
Ascending-insert key k v [] a = (tt, tt)
Ascending-insert key k v ((i, w) ∷ l) a =
    ground
      (arith, Ascending-insert key k v l a.1, Before-trans key k i l, Before-insert key k v i l)

-- A key of the same value is replaced.
unfoldable pub store : (Decimal → Decimal) → Decimal → Decimal → List Level → List Level
unfolding insert without
store key k v l = insert key k v (without k l)

pub Ascending-store :
    (key : Decimal → Decimal) (k v : Decimal) (l : List Level)
    → Ascending key l
    → Ascending key (store key k v l)
unfolding store
Ascending-store key k v l a = Ascending-insert key k v (without k l) (Ascending-without key k l a)

abbrev pub Sorted : (Decimal → Decimal) → Type 0
Sorted key = (l : List Level) × Ascending key l

pub find-store :
    (key : Decimal → Decimal) (k v j : Decimal) (l : List Level)
    → find j (store key k v l) ≡ (if eqb_decimal k j then some v else find j l)
unfolding store
find-store key k v j l = ground (
  arith,
  find-insert key k v j (without k l) (λ e. rw (find-without k j l, e)),
  find-without k j l,
)

-- The laws can be met.
abbrev pub reference : SortedContainers
reference = record {
  SortedDict = Sorted;
  new = λ key. ([], tt);
  clear = λ key d. ([], tt);
  set_item = λ key d k v. (store key k v d.0, Ascending-store key k v d.0 d.1);
  pop = λ key d k. (without k d.0, Ascending-without key k d.0 d.1);
  get_item = λ key d k. find k d.0;
  keys = λ key d. map (λ e. e.0) d.0;
  items = λ key d. d.0;
  size = λ key d. length d.0;
  items-new = λ key. refl;
  items-clear = λ key d. refl;
  get_item-items = λ key d k. refl;
  keys-items = λ key d. refl;
  size-items = λ key d. refl;
  items-Ascending = λ key d. d.1;
  get_item-set_item = λ key d k v j. find-store key k v j d.0;
  get_item-pop = λ key d k j. find-without k j d.0;
}
