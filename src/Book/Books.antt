-- ===== src/Book/Books.antt =====
-- book.py, `BookSet`: the books by product. A call on `self._books[product_id]` changes that book
-- in place.
use mathlib.Core.List.{foldl}
use mathlib.Core.Option
use crypto_market_platform.Base.{
  ◌≡◌, refl, String, Bool, true, false, ◌&&◌, Option, none, some, List, [], ◌∷◌, arith, str_eq,
  if◌then◌else◌, Option-cases, inl, inr,
}
use crypto_market_platform.Base.Dict
use crypto_market_platform.Base.Dict.{Dict, get-put}
use crypto_market_platform.Base.Result.{Result, raise, key_error}
use crypto_market_platform.Base.Exec.{Exec}
use crypto_market_platform.SortedContainers.{SortedContainers}
use crypto_market_platform.Book.{OrderBook, new_book, reset}

module _ (sc : SortedContainers) where
  abbrev pub BookSet : Type 0
  BookSet = Dict (OrderBook sc)

  -- `BookSet(product_ids)`
  unfoldable pub new_book_set : List String → BookSet
  new_book_set = foldl (λ d p. Dict.put p (new_book sc p) d) []

  abbrev pub run_at :
      {A : Type 0} → Exec (OrderBook sc) A → String → Option (OrderBook sc) → Exec BookSet A
  run_at m p none books = (raise key_error, books)
  run_at m p (some b) books = let (r, b') = m b in (r, Dict.put p b' books)

  -- A method of `self.books[product_id]`.
  unfoldable pub with_book : {A : Type 0} → String → Exec (OrderBook sc) A → Exec BookSet A
  with_book p m books = run_at m p (Dict.get p books) books

  unfoldable pub reset_all : BookSet → BookSet
  reset_all [] = []
  reset_all ((p, b) ∷ books) = (p, reset sc b) ∷ reset_all books

  unfoldable pub all_ready : BookSet → Bool
  all_ready [] = true
  all_ready ((p, b) ∷ books) = b.ready && all_ready books

  -- What `with_book` should do: to the book of `p`, if it is known, and to that of any `q`.
  abbrev pub AnswersFor :
      {A : Type 0}
      → String
      → String
      → Exec (OrderBook sc) A
      → BookSet
      → Option (OrderBook sc)
      → Result A × BookSet
      → Type 0
  AnswersFor p q m books none (r, books') = (r ≡ raise key_error) × (books' ≡ books)
  AnswersFor p q m books (some b) (r, books') =
      (r ≡ (m b).0) × (Dict.get q books' ≡ (if str_eq p q then some (m b).1 else Dict.get q books))

  -- A call on one book answers what the book answers, stores its new state, and leaves every
  -- other book alone; on an unknown product it raises KeyError and changes nothing.
  pub with_book-AnswersFor :
      {A : Type 0} (p q : String) (m : Exec (OrderBook sc) A) (books : BookSet)
      → AnswersFor p q m books (Dict.get p books) (with_book p m books)
  unfolding with_book
  with_book-AnswersFor p q m books = elim (Option-cases (Dict.get p books)) [
    | inl unknown ↦ rw unknown (refl, refl)
    | inr (b, known) ↦ rw known (refl, get-put p q (m b).1 books)
  ]

  -- On a disconnect every book of the set becomes its reset.
  pub get-reset_all :
      (p : String) (books : BookSet)
      → Dict.get p (reset_all books) ≡ Option.map (reset sc) (Dict.get p books)
  unfolding reset_all Dict.get
  get-reset_all p [] = refl
  get-reset_all p ((q, b) ∷ books) = ground (arith, get-reset_all p books)

  -- A set that has a book is not all ready once its books are reset.
  pub all_ready-reset_all :
      (p : String) (b : OrderBook sc) (books : BookSet)
      → Dict.get p books ≡ some b
      → all_ready (reset_all books) ≡ false
  unfolding reset_all all_ready reset Dict.get
  all_ready-reset_all p b [] h = cc
  all_ready-reset_all p b ((q, c) ∷ books) h = refl
