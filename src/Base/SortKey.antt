-- ===== src/Base/SortKey.antt =====
-- Sorting by a number: what does not depend on the order of the list.
use mathlib.Core.List.Permᴰ
use mathlib.Core.List.Permᴰ.{nil, cons, swap, trans}
use Prim.Native.Nat.{ℕ, suc}
use mathlib.Core.Path.{◌≡◌, refl, sym, ap, ◌∙◌, subst}
use mathlib.Core.Logic.{◌≢◌, inl, inr}
use mathlib.Core.Bool.{Bool}
use mathlib.Core.List.{List, [], ◌∷◌, Permᴰ}
use native.Mathlib.Omega.{arith}
use crypto_market_platform.Base.Tests.{leb, ◌==◌, Bool-cases}
use crypto_market_platform.Base.Lists.{All, Any, length}
use crypto_market_platform.Base.Sort.{insert, sorted}

pub All-Perm : {A : Type 0} (P : A → Type 0) {l l' : List A} → Permᴰ l l' → All P l → All P l'
All-Perm P nil a = tt
All-Perm P (cons e p) a = (subst P e a.0, All-Perm P p a.1)
All-Perm P (swap e f) a = (subst P f a.1.0, (subst P e a.0, a.1.1))
All-Perm P (trans p q) a = All-Perm P q (All-Perm P p a)

pub Any-Perm : {A : Type 0} (P : A → Type 0) {l l' : List A} → Permᴰ l l' → Any P l → Any P l'
Any-Perm P nil a = a
Any-Perm P (cons e p) (inl h) = inl (subst P e h)
Any-Perm P (cons e p) (inr a) = inr (Any-Perm P p a)
Any-Perm P (swap e f) (inl h) = inr (inl (subst P e h))
Any-Perm P (swap e f) (inr (inl h)) = inl (subst P f h)
Any-Perm P (swap e f) (inr (inr a)) = inr (inr a)
Any-Perm P (trans p q) a = Any-Perm P q (Any-Perm P p a)

module _ {A : Type 0} (key : A → ℕ) where
  abbrev pub by_key : A → A → Bool
  by_key x y = leb (key x) (key y)

  insert_apart :
      (x y : A) (l : List A)
      → key x ≢ key y
      → insert by_key x (insert by_key y l) ≡ insert by_key y (insert by_key x l)
  unfolding insert
  insert_apart x y [] d = ground (arith, d)
  insert_apart x y (z ∷ l) d = ground (arith, d, insert_apart x y l d)

  -- Elements with one key are the same element.
  abbrev Agrees : A → A → Type 0
  Agrees x y = key x ≡ key y → x ≡ y

  insert_comm :
      (x y : A) (l : List A)
      → Agrees x y
      → insert by_key x (insert by_key y l) ≡ insert by_key y (insert by_key x l)
  insert_comm x y l agrees = elim (Bool-cases (key x == key y)) [
    | inl same ↦ let one = agrees (ground (arith, same)) in cc one
    | inr other ↦ insert_apart x y l (ground (arith, other))
  ]

  abbrev Agree : A → List A → Type 0
  Agree x xs = All (Agrees x) xs

  -- The keys tell the elements of a list apart.
  abbrev pub Keyed : List A → Type 0
  Keyed [] = Unit
  Keyed (x ∷ xs) = Agree x xs × Keyed xs

  pub Keyed-Perm : {l l' : List A} → Permᴰ l l' → Keyed l → Keyed l'
  Keyed-Perm nil d = tt
  Keyed-Perm (cons {l₂ = l₂} e p) d =
      (subst (λ x. Agree x l₂) e (All-Perm _ p d.0), Keyed-Perm p d.1)
  Keyed-Perm (swap {l = l} e f) d = (
    (
      λ same. sym f ∙ sym (d.0.0 (ap key e ∙ sym same ∙ sym (ap key f))) ∙ e,
      subst (λ x. Agree x l) f d.1.0,
    ),
    (subst (λ x. Agree x l) e d.0.1, d.1.1),
  )
  Keyed-Perm (trans p q) d = Keyed-Perm q (Keyed-Perm p d)

  -- Sorting gives the same list for every order of the same elements, if their keys tell them
  -- apart.
  pub sorted-Perm : {l l' : List A} → Permᴰ l l' → Keyed l → sorted by_key l ≡ sorted by_key l'
  unfolding sorted
  sorted-Perm nil d = refl
  sorted-Perm (cons e p) d = cc (e, sorted-Perm p d.1)
  sorted-Perm (swap {l = l} e f) d = cc (insert_comm _ _ (sorted by_key l) d.0.0, e, f)
  sorted-Perm (trans p q) d = sorted-Perm p d ∙ sorted-Perm q (Keyed-Perm p d)

Perm-insert :
    {A : Type 0} (before : A → A → Bool) (x : A) (l : List A) → Permᴰ (x ∷ l) (insert before x l)
unfolding insert
Perm-insert before x [] = Permᴰ.refl _
Perm-insert before x (y ∷ l) = elim (Bool-cases (before x y)) [
  | inl first ↦ rw first (Permᴰ.refl _)
  | inr later ↦ rw later (trans (swap refl refl) (cons refl (Perm-insert before x l)))
]

pub Perm-sorted : {A : Type 0} (before : A → A → Bool) (l : List A) → Permᴰ l (sorted before l)
unfolding sorted
Perm-sorted before [] = nil
Perm-sorted before (x ∷ l) =
    trans (cons refl (Perm-sorted before l)) (Perm-insert before x (sorted before l))

pub length-Perm : {A : Type 0} {l l' : List A} → Permᴰ l l' → length l ≡ length l'
length-Perm nil = refl
length-Perm (cons e p) = ap suc (length-Perm p)
length-Perm (swap {l = l} e f) = refl
length-Perm (trans p q) = length-Perm p ∙ length-Perm q
