-- ===== src/Handler/Products.antt =====
-- ws_client.py and book.py: the products that the handler keeps a book of, which never change.
use mathlib.Core.List.{foldl}
use crypto_market_platform.Base.{
  ℕ, ◌≡◌, refl, ◌∙◌, ap, String, Bool, true, false, ◌||◌, Option, none, some, List, [], ◌∷◌, arith,
  str_eq, Option-cases, inl, inr, eq_iff,
}
use crypto_market_platform.Base.Dict
use crypto_market_platform.Base.Dict.{get-put}
use crypto_market_platform.Base.Exec.{Exec}
use crypto_market_platform.SortedContainers.{SortedContainers}
use crypto_market_platform.Book.{OrderBook, new_book}
use crypto_market_platform.Book.Books.{BookSet, with_book, new_book_set, get-reset_all}
use crypto_market_platform.Publisher.{Publisher}
use crypto_market_platform.Handler.{
  MessageHandler, handle_match, handle_snapshot, handle_l2update, handle_heartbeat, handle,
  on_disconnect,
}
use crypto_market_platform.Handler.Messages.{Message}
use crypto_market_platform.Handler.Session.{handle_keeps}

abbrev pub is_among : String → List String → Bool
is_among p [] = false
is_among p (q ∷ qs) = str_eq q p || is_among p qs

abbrev pub is_known : {A : Type 0} → Option A → Bool
is_known none = false
is_known (some a) = true

module _ (sc : SortedContainers) where
  abbrev pub has_book : String → BookSet sc → Bool
  has_book p books = is_known (Dict.get p books)

  has_book-foldl :
      (p : String) (products : List String) (books : BookSet sc)
      → has_book p (foldl (λ d q. Dict.put q (new_book sc q) d) books products)
        ≡ (has_book p books || is_among p products)
  has_book-foldl p [] books = ground arith
  has_book-foldl p (q ∷ qs) books =
      let put = get-put q p (new_book sc q) books in
      let rest = has_book-foldl p qs (Dict.put q (new_book sc q) books) in
      rest ∙ ground (arith, put)

  -- A new set has the books of its products and no others.
  pub has_book-new_book_set :
      (p : String) (products : List String)
      → has_book p (new_book_set sc products) ≡ is_among p products
  unfolding new_book_set Dict.get
  has_book-new_book_set p products = has_book-foldl p products []

  has_book-with_book :
      {A : Type 0} (q p : String) (m : Exec (OrderBook sc) A) (books : BookSet sc)
      → has_book q (with_book sc p m books).1 ≡ has_book q books
  unfolding with_book
  has_book-with_book q p m books = elim (Option-cases (Dict.get p books)) [
    | inl unknown ↦ rw unknown refl
    | inr (b, known) ↦
        let put = get-put p q (m b).1 books in rw known (ground (arith, put, known, eq_iff p q))
  ]

module _ (sc : SortedContainers) {P : Type 0} (publisher : Publisher P) where
  -- The handler keeps the books of some products, and no others.
  abbrev pub Covers : List String → MessageHandler sc publisher → Type 0
  Covers products h = (p : String) → has_book sc p h.books ≡ is_among p products

  match-Covers :
      (products : List String) (msg : Message) (t : ℕ) (h : MessageHandler sc publisher)
      → Covers products h
      → Covers products (handle_match sc publisher msg t h).1
  unfolding handle_match
  match-Covers products msg t h c p = ground (arith, c p)

  snapshot-Covers :
      (products : List String) (msg : Message) (t : ℕ) (h : MessageHandler sc publisher)
      → Covers products h
      → Covers products (handle_snapshot sc publisher msg t h).1
  unfolding handle_snapshot
  snapshot-Covers products msg t h c p = grind (arith, has_book-with_book, c p)

  l2update-Covers :
      (products : List String) (msg : Message) (t : ℕ) (h : MessageHandler sc publisher)
      → Covers products h
      → Covers products (handle_l2update sc publisher msg t h).1
  unfolding handle_l2update
  l2update-Covers products msg t h c p = grind (arith, has_book-with_book, c p)

  heartbeat-Covers :
      (products : List String) (msg : Message) (t : ℕ) (h : MessageHandler sc publisher)
      → Covers products h
      → Covers products (handle_heartbeat sc publisher msg t h).1
  unfolding handle_heartbeat
  heartbeat-Covers products msg t h c p = ground (arith, c p)

  pub handle-Covers :
      (products : List String) (msg : Message) (t : ℕ) (h : MessageHandler sc publisher)
      → Covers products h
      → Covers products (handle sc publisher msg t h).1
  handle-Covers products =
      handle_keeps sc publisher (Covers products) (match-Covers products) (snapshot-Covers products)
        (l2update-Covers products) (heartbeat-Covers products)

  pub disconnect-Covers :
      (products : List String) (h : MessageHandler sc publisher)
      → Covers products h
      → Covers products (on_disconnect sc publisher h)
  unfolding on_disconnect
  disconnect-Covers products h c p =
      let found = get-reset_all sc p h.books in ap is_known found ∙ ground (arith, c p)
