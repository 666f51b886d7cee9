-- ===== src/Backfill/Ascending.antt =====
-- scripts/backfill_trades.py: the ids that were collected, in ascending order.
use crypto_market_platform.Base.{
  ℕ, zero, suc, ◌+◌, ◌≤◌, ◌<◌, ◌≡◌, ◌≢◌, ◌∙◌, refl, sym, ap, inl, inr, Bool, true, false, ◌&&◌,
  ◌||◌, Option, none, some, List, [], ◌∷◌, map, leb, ltb, ◌==◌, if◌then◌else◌, All, arith,
  Bool-cases,
}
use crypto_market_platform.Base.Sort.{sorted, insert}
use crypto_market_platform.Backfill.{RestTrade, Collected, lookup, span, wanted, mem}
use crypto_market_platform.Backfill.Collecting.{Once, in_range, mem-wanted}
use crypto_market_platform.Backfill.Script.{sorted_ids}

abbrev pub keys : Collected → List ℕ
keys c = map (λ (e : ℕ × RestTrade). e.0) c

abbrev pub is_some : Option RestTrade → Bool
is_some none = false
is_some (some t) = true

-- The ids of a list that are collected.
unfoldable pub held : (ℕ → Option RestTrade) → List ℕ → List ℕ
held history [] = []
held history (i ∷ ids) =
    let rest = held history ids in if is_some (history i) then i ∷ rest else rest

abbrev Ascending : List ℕ → Type 0
Ascending [] = Unit
Ascending (i ∷ ids) = All (λ j. i < j) ids × Ascending ids

above-mem : (i j : ℕ) (ids : List ℕ) → All (λ k. i < k) ids → mem j ids ≡ true → i < j
unfolding mem
above-mem i j [] a m = cc
above-mem i j (k ∷ ids) a m = elim (Bool-cases (k == j)) [
  | inl same ↦ ground (arith, a.0, same)
  | inr other ↦ above-mem i j ids a.1 (ground (arith, m, other))
]

head_least : (x y : ℕ) (ys : List ℕ) → Ascending (y ∷ ys) → mem x (y ∷ ys) ≡ true → y ≤ x
unfolding mem
head_least x y ys a m = elim (Bool-cases (y == x)) [
  | inl same ↦ ground (arith, same)
  | inr other ↦ let above = above-mem y x ys a.0 (ground (arith, m, other)) in omega (arith, above)
]

pub mem_self : (i : ℕ) (ids : List ℕ) → mem i (i ∷ ids) ≡ true
unfolding mem
mem_self i ids = ground arith

-- An element of the tail is not the head.
mem-tail : (i x : ℕ) (xs : List ℕ) → Ascending (x ∷ xs) → mem i xs ≡ (mem i (x ∷ xs) && (ltb x i))
unfolding mem
mem-tail i x xs a = elim (Bool-cases (mem i xs)) [
  | inl among ↦ let above = above-mem x i xs a.0 among in ground (arith, among, above)
  | inr beside ↦ ground (arith, beside)
]

nothing_in : (i : ℕ) → mem i [] ≢ true
unfolding mem
nothing_in i e = cc

-- Two ascending lists with the same elements are the same.
Ascending-same :
    (xs ys : List ℕ) → Ascending xs → Ascending ys → ((i : ℕ) → mem i xs ≡ mem i ys) → xs ≡ ys
Ascending-same [] [] a b same = refl
Ascending-same [] (y ∷ ys) a b same = absurd (nothing_in y (same y ∙ mem_self y ys))
Ascending-same (x ∷ xs) [] a b same = absurd (nothing_in x (sym (same x) ∙ mem_self x xs))
Ascending-same (x ∷ xs) (y ∷ ys) a b same =
    let below = head_least x y ys b (sym (same x) ∙ mem_self x xs) in
    let above = head_least y x xs a (same y ∙ mem_self y ys) in
    let heads : x ≡ y = omega (arith, below, above) in
    let tails =
      Ascending-same xs ys a.1 b.1
        (λ i. mem-tail i x xs a ∙ cc (same i, heads) ∙ sym (mem-tail i y ys b)) in
    cc (heads, tails)

mem-insert : (i j : ℕ) (ids : List ℕ) → mem i (insert leb j ids) ≡ (j == i || mem i ids)
unfolding insert mem
mem-insert i j [] = refl
mem-insert i j (k ∷ ids) = ground (arith, mem-insert i j ids)

All-insert : (P : ℕ → Type 0) (j : ℕ) (ids : List ℕ) → P j → All P ids → All P (insert leb j ids)
unfolding insert
All-insert P j [] p a = (p, tt)
All-insert P j (k ∷ ids) p a = elim (Bool-cases (leb j k)) [
  | inl first ↦ rw first (p, a)
  | inr later ↦ rw later (a.0, All-insert P j ids p a.1)
]

All-above : (i j : ℕ) (ids : List ℕ) → i < j → All (λ k. j < k) ids → All (λ k. i < k) ids
All-above i j [] below a = tt
All-above i j (k ∷ ids) below a = (omega (arith, a.0), All-above i j ids below a.1)

insert-Ascending :
    (j : ℕ) (ids : List ℕ) → Ascending ids → mem j ids ≡ false → Ascending (insert leb j ids)
unfolding insert mem
insert-Ascending j [] a new = (tt, tt)
insert-Ascending j (k ∷ ids) a new = elim (Bool-cases (leb j k)) [
  | inl first ↦
      let below : j < k = ground (arith, first, new) in
      rw first ((below, All-above j k ids below a.0), a)
  | inr later ↦ rw later (
    All-insert _ j ids (ground (arith, later)) a.0,
    insert-Ascending j ids a.1 (ground (arith, new)),
  )
]

pub mem-sorted : (i : ℕ) (c : Collected) → mem i (sorted_ids c) ≡ is_some (lookup i c)
unfolding sorted lookup mem
mem-sorted i [] = refl
mem-sorted i ((j, t) ∷ c) = mem-insert i j (sorted_ids c) ∙ ground (arith, mem-sorted i c)

sorted_ids-Ascending : (c : Collected) → Once c → Ascending (sorted_ids c)
unfolding sorted
sorted_ids-Ascending [] once = tt
sorted_ids-Ascending ((i, t) ∷ c) once =
    insert-Ascending i (sorted_ids c) (sorted_ids-Ascending c once.1)
      (mem-sorted i c ∙ ap is_some once.0)

span_above : (i start n : ℕ) → i < start → All (λ j. i < j) (span start n)
unfolding span
span_above i start zero below = tt
span_above i start (suc n) below = (below, span_above i (start + 1) n (omega arith))

module _ (history : ℕ → Option RestTrade) where
  held-All : (P : ℕ → Type 0) (ids : List ℕ) → All P ids → All P (held history ids)
  unfolding held
  held-All P [] a = tt
  held-All P (i ∷ ids) a = elim (Bool-cases (is_some (history i))) [
    | inl here ↦ rw here (a.0, held-All P ids a.1)
    | inr out ↦ rw out (held-All P ids a.1)
  ]

  held-span : (start n : ℕ) → Ascending (held history (span start n))
  unfolding held span
  held-span start zero = tt
  held-span start (suc n) = elim (Bool-cases (is_some (history start))) [
    | inl here ↦
        rw here
          (held-All _ _ (span_above start (start + 1) n (omega arith)), held-span (start + 1) n)
    | inr out ↦ rw out (held-span (start + 1) n)
  ]

  mem-held : (i : ℕ) (ids : List ℕ) → mem i (held history ids) ≡ (mem i ids && is_some (history i))
  unfolding held mem
  mem-held i [] = refl
  mem-held i (j ∷ ids) = elim (Bool-cases (j == i)) [
    | inl same ↦
        let equal : j ≡ i = ground (arith, same) in
        ground (arith, mem-held i ids, equal, ap (λ k. is_some (history k)) equal)
    | inr other ↦ ground (arith, mem-held i ids, other)
  ]

  -- The ids that were collected, in ascending order, are those of the range that the exchange has.
  pub sorted_ids-held :
      (after before : ℕ) (c : Collected)
      → ((i : ℕ) → lookup i c ≡ (if in_range after before i then history i else none))
      → Once c
      → sorted_ids c ≡ held history (wanted after before)
  unfolding wanted
  sorted_ids-held after before c filled once =
      Ascending-same _ _ (sorted_ids-Ascending c once) (held-span _ _) (λ i.
        mem-sorted i c ∙ ap is_some (filled i) ∙ within i ∙ sym (mem-held i (wanted after before)))
    where
      within :
          (i : ℕ)
          → is_some (if in_range after before i then history i else none)
            ≡ (mem i (wanted after before) && is_some (history i))
      within i = ground (arith, mem-wanted i after before)
