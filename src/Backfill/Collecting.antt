-- ===== src/Backfill/Collecting.antt =====
-- scripts/backfill_trades.py: what one page adds to the trades collected, and what is missing.
use crypto_market_platform.Base.{
  ℕ, zero, suc, ◌+◌, ◌-◌, ◌<◌, ◌≡◌, inl, inr, refl, Bool, true, ◌&&◌, Option, none, some, List, [],
  ◌∷◌, leb, ltb, ◌==◌, if◌then◌else◌, All, arith, Option-cases, Bool-cases, ◌≢◌,
}
use crypto_market_platform.Backfill.{
  RestTrade, Collected, lookup, store, span, wanted, mem, missing, keep, min_of,
}

-- `range(after + 1, before)` as a test.
abbrev pub in_range : ℕ → ℕ → ℕ → Bool
in_range after before i = ltb after i && ltb i before

mem-span : (i start n : ℕ) → mem i (span start n) ≡ (leb start i && ltb i (start + n))
unfolding mem span
mem-span i start zero = ground arith
mem-span i start (suc n) = ground (arith, mem-span i (start + 1) n)

pub mem-wanted : (i after before : ℕ) → mem i (wanted after before) ≡ in_range after before i
unfolding wanted
mem-wanted i after before = ground (arith, mem-span i (after + 1) (before - (after + 1)))

lookup-store :
    (i j : ℕ) (t : RestTrade) (c : Collected)
    → lookup j (store i t c) ≡ (if i == j then some t else lookup j c)
unfolding lookup store
lookup-store i j t [] = refl
lookup-store i j t ((k, u) ∷ c) = ground (arith, lookup-store i j t c)

-- No id is a key twice.
abbrev pub Once : Collected → Type 0
Once [] = Unit
Once ((i, t) ∷ c) = (lookup i c ≡ none) × Once c

store-Once : (i : ℕ) (t : RestTrade) (c : Collected) → Once c → Once (store i t c)
unfolding store lookup
store-Once i t [] once = (refl, tt)
store-Once i t ((j, u) ∷ c) once = elim (Bool-cases (j == i)) [
  | inl same ↦ rw same once
  | inr other ↦
      rw other (ground (arith, lookup-store i j t c, once.0, other), store-Once i t c once.1)
]

pub keep-Once :
    (ids : List ℕ) (page : List (ℕ × RestTrade)) (c : Collected) → Once c → Once (keep ids page c)
unfolding keep
keep-Once ids [] c once = once
keep-Once ids ((i, t) ∷ page) c once = elim (Bool-cases (mem i ids)) [
  | inl among ↦ rw among (keep-Once ids page (store i t c) (store-Once i t c once))
  | inr beside ↦ rw beside (keep-Once ids page c once)
]

-- Each trade of the page is the exchange's trade of its id, and lies below the cursor.
abbrev pub Genuine : (ℕ → Option RestTrade) → ℕ → ℕ × RestTrade → Type 0
Genuine history cursor (i, t) = (i < cursor) × (history i ≡ some t)

abbrev pub either : Option RestTrade → Option RestTrade → Option RestTrade
either none old = old
either (some t) old = some t

pub lookup-Genuine :
    (history : ℕ → Option RestTrade) (cursor : ℕ) (page : List (ℕ × RestTrade)) (i : ℕ)
    (t : RestTrade)
    → All (Genuine history cursor) page
    → lookup i page ≡ some t
    → Genuine history cursor (i, t)
unfolding lookup
lookup-Genuine history cursor [] i t g found = cc
lookup-Genuine history cursor ((j, u) ∷ page) i t g found = elim (Bool-cases (j == i)) [
  | inl same ↦ ground (arith, g.0.0, g.0.1)
  | inr other ↦ lookup-Genuine history cursor page i t g.1 (ground arith)
]

-- A page adds its trades of wanted ids, and nothing else.
pub lookup-keep :
    (history : ℕ → Option RestTrade) (cursor : ℕ) (ids : List ℕ) (page : List (ℕ × RestTrade))
    (c : Collected) (i : ℕ)
    → All (Genuine history cursor) page
    → lookup i (keep ids page c)
      ≡ (if mem i ids then either (lookup i page) (lookup i c) else lookup i c)
unfolding keep lookup
lookup-keep history cursor ids [] c i g = ground arith
lookup-keep history cursor ids ((j, t) ∷ page) c i g =
    let kept = lookup-keep history cursor ids page (if mem j ids then store j t c else c) i g.1 in
    let stored = lookup-store j i t c in
    elim (Option-cases (lookup i page)) [
      | inl other ↦ ground (arith, kept, stored, other)
      | inr (u, again) ↦
          let real = lookup-Genuine history cursor page i u g.1 again in
          ground (arith, kept, stored, again, real.1, g.0.1)
    ]

-- The least id of a page, 0 for an empty one.
abbrev pub least : List (ℕ × RestTrade) → ℕ
least [] = 0
least ((i, t) ∷ page) = min_of i page

pub min_of-below :
    (history : ℕ → Option RestTrade) (cursor : ℕ) (i : ℕ) (page : List (ℕ × RestTrade))
    → i < cursor
    → All (Genuine history cursor) page
    → min_of i page < cursor
unfolding min_of
min_of-below history cursor i [] below g = below
min_of-below history cursor i ((j, t) ∷ page) below g =
    min_of-below history cursor (if ltb j i then j else i) page (ground (arith, g.0.0)) g.1

-- The wanted ids are all collected when none is missing.
pub missing-nil :
    (ids : List ℕ) (c : Collected) (i : ℕ)
    → missing ids c ≡ []
    → mem i ids ≡ true
    → lookup i c ≢ none
unfolding missing mem
missing-nil [] c i done m = cc
missing-nil (j ∷ ids) c i done m = elim (Option-cases (lookup j c)) [
  | inl out ↦ absurd (ground (arith, out, done))
  | inr (t, held) ↦ λ absent. elim (Bool-cases (j == i)) [
    | inl same ↦ ground (arith, held, absent)
    | inr other ↦ missing-nil ids c i (ground (arith, held, done)) (ground (arith, m)) absent
  ]
]
