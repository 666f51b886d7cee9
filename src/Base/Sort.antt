-- ===== src/Base/Sort.antt =====
-- Python's `sorted`: a stable sort by an order test.
use Prim.Native.Nat.{ℕ, zero, suc, ◌+◌, ◌≤◌, ◌<◌}
use mathlib.Core.Path.{◌≡◌, refl, subst}
use mathlib.Core.Bool.{Bool, true, false, not}
use mathlib.Core.Option.{some}
use mathlib.Core.Logic.{inl, inr}
use mathlib.Core.List.{List, [], ◌∷◌}
use native.Mathlib.Omega.{arith}
use crypto_market_platform.Base.Tests.{if◌then◌else◌, Bool-cases}
use crypto_market_platform.Base.Lists.{All, get_elem?, length}

-- How many elements pass a test.
abbrev pub count {ℓ} : {A : Type ℓ} → (A → Bool) → List A → ℕ
count test [] = 0
count test (x ∷ xs) = (if test x then 1 else 0) + count test xs

module _ {ℓ} {A : Type ℓ} (before : A → A → Bool) where
  unfoldable pub insert : A → List A → List A
  insert x [] = x ∷ []
  insert x (y ∷ ys) = let later = insert x ys in if before x y then x ∷ y ∷ ys else y ∷ later

  unfoldable pub sorted : List A → List A
  unfolding insert
  sorted [] = []
  sorted (x ∷ xs) = insert x (sorted xs)

  count-insert :
      (test : A → Bool) (x : A) (xs : List A) → count test (insert x xs) ≡ count test (x ∷ xs)
  unfolding insert
  count-insert test x [] = refl
  count-insert test x (y ∷ ys) = ground (arith, count-insert test x ys)

  pub count-sorted : (test : A → Bool) (xs : List A) → count test (sorted xs) ≡ count test xs
  unfolding sorted
  count-sorted test [] = refl
  count-sorted test (x ∷ xs) = omega (arith, count-insert test x (sorted xs), count-sorted test xs)

  abbrev pub IsSorted : List A → Type 0
  IsSorted [] = Unit
  IsSorted (x ∷ xs) = All (λ y. before x y ≡ true) xs × IsSorted xs

count-true {ℓ} : {A : Type ℓ} (xs : List A) → count (λ x. true) xs ≡ length xs
count-true [] = refl
count-true (x ∷ xs) = omega (arith, count-true xs)

pub length-sorted {ℓ} :
    {A : Type ℓ} (before : A → A → Bool) (xs : List A) → length (sorted before xs) ≡ length xs
length-sorted before xs =
    omega (arith, count-true xs, count-true (sorted before xs), count-sorted before (λ x. true) xs)

pub get_elem?-All {ℓ} :
    {A : Type ℓ} (P : A → Type 0) (xs : List A) (i : ℕ) (v : A)
    → All P xs
    → get_elem? xs i ≡ some v
    → P v
get_elem?-All P [] i v a e = cc
get_elem?-All P (x ∷ xs) zero v a e = let same : x ≡ v = cc in subst P same a.0
get_elem?-All P (x ∷ xs) (suc i) v a e = get_elem?-All P xs i v a.1 e

pub get_elem?-some {ℓ} :
    {A : Type ℓ} (xs : List A) (i : ℕ) → i < length xs → (v : A) × (get_elem? xs i ≡ some v)
get_elem?-some [] i h = elim h [ ]
get_elem?-some (x ∷ xs) zero h = (x, refl)
get_elem?-some (x ∷ xs) (suc i) h = get_elem?-some xs i (omega arith)

-- A test that is a total preorder.
pub record IsOrder {ℓ} {A : Type ℓ} (before : A → A → Bool) : Type ℓ where
  pub total : (x y : A) → before x y ≡ false → before y x ≡ true
  pub trans : (x y z : A) → before x y ≡ true → before y z ≡ true → before x z ≡ true

module _ {ℓ} {A : Type ℓ} (before : A → A → Bool) (order : IsOrder before) where
  order_refl : (x : A) → before x x ≡ true
  order_refl x = elim (Bool-cases (before x x)) [ inl e ↦ e | inr e ↦ order.total x x e ]

  All-trans :
      (x y : A) (ys : List A)
      → before x y ≡ true
      → All (λ z. before y z ≡ true) ys
      → All (λ z. before x z ≡ true) ys
  All-trans x y [] h a = tt
  All-trans x y (z ∷ ys) h a = (order.trans x y z h a.0, All-trans x y ys h a.1)

  All-insert :
      (x y : A) (ys : List A)
      → before y x ≡ true
      → All (λ z. before y z ≡ true) ys
      → All (λ z. before y z ≡ true) (insert before x ys)
  unfolding insert
  All-insert x y [] h a = (h, tt)
  All-insert x y (z ∷ ys) h a = ground (arith, All-insert x y ys h a.1)

  insert-IsSorted :
      (x : A) (ys : List A) → IsSorted before ys → IsSorted before (insert before x ys)
  unfolding insert
  insert-IsSorted x [] s = (tt, tt)
  insert-IsSorted x (y ∷ ys) s = elim (Bool-cases (before x y)) [
    | inl e ↦ rw e ((e, All-trans x y ys e s.0), s)
    | inr e ↦ rw e (All-insert x y ys (order.total x y e) s.0, insert-IsSorted x ys s.1)
  ]

  pub sorted-IsSorted : (xs : List A) → IsSorted before (sorted before xs)
  unfolding sorted
  sorted-IsSorted [] = tt
  sorted-IsSorted (x ∷ xs) = insert-IsSorted x (sorted before xs) (sorted-IsSorted xs)

  none_smaller :
      (v : A) (xs : List A) → All (λ y. before v y ≡ true) xs → count (λ y. not (before v y)) xs ≡ 0
  none_smaller v [] a = refl
  none_smaller v (x ∷ xs) a = ground (arith, none_smaller v xs a.1)

  -- The element at a place of a sorted list has at most that many below it, and more than that
  -- many at or below it.
  pub rank :
      (xs : List A) (i : ℕ) (v : A)
      → IsSorted before xs
      → get_elem? xs i ≡ some v
      → (count (λ y. not (before v y)) xs ≤ i) × (i < count (λ y. before y v) xs)
  rank [] i v s e = cc
  rank (x ∷ xs) zero v s e =
      let same : x ≡ v = cc in
      let none = none_smaller x xs s.0 in
      subst
        (λ w. (count (λ y. not (before w y)) (x ∷ xs) ≤ 0) × (0 < count (λ y. before y w) (x ∷ xs)))
        same (ground (arith, order_refl x))
  rank (x ∷ xs) (suc i) v s e =
      let later = rank xs i v s.1 e in
      let first = get_elem?-All (λ y. before x y ≡ true) xs i v s.0 e in ground arith
