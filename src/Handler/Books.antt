-- ===== src/Handler/Books.antt =====
-- ws_client.py: what `MessageHandler` does to its books, message by message and on a disconnect.
use mathlib.Core.Option
use crypto_market_platform.Sequence
use crypto_market_platform.Sequence.{last_seen}
use crypto_market_platform.Base.{
  All, ℕ, ◌≡◌, ◌≢◌, refl, ap, ◌+◌, String, false, none, some, List, [], ◌∷◌, arith, Option-cases,
  inl, inr, eq_iff,
}
use crypto_market_platform.Base.Dict
use crypto_market_platform.Base.Dict.{Dict, get-put}
use crypto_market_platform.Base.Exec.{Exec}
use crypto_market_platform.Base.Result.{ok}
use crypto_market_platform.SortedContainers.{SortedContainers}
use crypto_market_platform.Book
use crypto_market_platform.Book.{OrderBook}
use crypto_market_platform.Book.Top.{quote-none}
use crypto_market_platform.Book.Books.{BookSet, with_book, get-reset_all}
use crypto_market_platform.Publisher.{Publisher}
use crypto_market_platform.Handler.{
  MessageHandler, handle_match, handle_snapshot, handle_l2update, handle_heartbeat, handle,
  on_disconnect, quote_action,
}
use crypto_market_platform.Handler.Messages.{Message}
use crypto_market_platform.Handler.Session.{Event, message, disconnected, run, handle_cases}

module _ (sc : SortedContainers) {P : Type 0} (publisher : Publisher P) where
  with_book_elsewhere :
      {A : Type 0} (p q : String) (m : Exec (OrderBook sc) A) (books : BookSet sc)
      → p ≢ q
      → Dict.get q (with_book sc p m books).1 ≡ Dict.get q books
  unfolding with_book
  with_book_elsewhere p q m books other = elim (Option-cases (Dict.get p books)) [
    | inl unknown ↦ rw unknown refl
    | inr (b, known) ↦
        let put = get-put p q (m b).1 books in rw known (ground (arith, put, eq_iff p q))
  ]

  match_books :
      (msg : Message) (t : ℕ) (h : MessageHandler sc publisher)
      → (handle_match sc publisher msg t h).1.books ≡ h.books
  unfolding handle_match
  match_books msg t h = ground arith

  heartbeat_books :
      (msg : Message) (t : ℕ) (h : MessageHandler sc publisher)
      → (handle_heartbeat sc publisher msg t h).1.books ≡ h.books
  unfolding handle_heartbeat
  heartbeat_books msg t h = ground arith

  snapshot_elsewhere :
      (q : String) (msg : Message) (t : ℕ) (h : MessageHandler sc publisher)
      → msg.product_id ≢ some q
      → Dict.get q (handle_snapshot sc publisher msg t h).1.books ≡ Dict.get q h.books
  unfolding handle_snapshot
  snapshot_elsewhere q msg t h other = grind (arith, with_book_elsewhere)

  l2update_elsewhere :
      (q : String) (msg : Message) (t : ℕ) (h : MessageHandler sc publisher)
      → msg.product_id ≢ some q
      → Dict.get q (handle_l2update sc publisher msg t h).1.books ≡ Dict.get q h.books
  unfolding handle_l2update
  l2update_elsewhere q msg t h other = grind (arith, with_book_elsewhere)

  -- A message changes no book but that of its own product.
  pub handle_elsewhere :
      (q : String) (msg : Message) (t : ℕ) (h : MessageHandler sc publisher)
      → msg.product_id ≢ some q
      → Dict.get q (handle sc publisher msg t h).1.books ≡ Dict.get q h.books
  handle_elsewhere q msg t h other =
      handle_cases sc publisher (λ r. Dict.get q r.1.books ≡ Dict.get q h.books) msg t h
        (ap (Dict.get q) (match_books msg t h)) (λ is. snapshot_elsewhere q msg t h other)
        (l2update_elsewhere q msg t h other) (ap (Dict.get q) (heartbeat_books msg t h)) (λ r. refl)

  -- The observer's view of a disconnect.
  pub on_disconnect_lem :
      (h : MessageHandler sc publisher) (p : String)
      → let h' = on_disconnect sc publisher h in
        (Dict.get p h'.books ≡ Option.map (Book.reset sc) (Dict.get p h.books))
        × (last_seen h'.continuity p ≡ none)
        × (h'.last_heartbeat_at ≡ none)
        × (h'.publisher_state ≡ h.publisher_state)
        × (h'.continuity.messages_lost_total ≡ h.continuity.messages_lost_total)
        × (h'.metrics.counters.book_resets_total ≡ h.metrics.counters.book_resets_total + 1)
  unfolding on_disconnect last_seen Sequence.reset_all Dict.get
  on_disconnect_lem h p = (get-reset_all sc p h.books, refl, refl, refl, refl, refl)

  -- No book of the set is ready.
  abbrev pub Unready : BookSet sc → Type 0
  Unready books = (p : String) (b : OrderBook sc) → Dict.get p books ≡ some b → b.ready ≡ false

  with_book-Unready :
      {A : Type 0} (p : String) (m : Exec (OrderBook sc) A) (books : BookSet sc)
      → ((b : OrderBook sc) → b.ready ≡ false → (m b).1.ready ≡ false)
      → Unready books
      → Unready (with_book sc p m books).1
  unfolding with_book
  with_book-Unready p m books keeps u q c = elim (Option-cases (Dict.get p books)) [
    | inl unknown ↦ rw unknown (u q c)
    | inr (b, known) ↦
        let put = get-put p q (m b).1 books in
        let kept = keeps b (u p b known) in rw known (λ e. ground (arith, put, u q c, kept, e))
  ]

  updates-unready :
      (rows : List (String × String × String)) (b : OrderBook sc)
      → b.ready ≡ false
      → (Book.apply_updates sc rows b).1.ready ≡ false
  unfolding Book.apply_updates
  updates-unready rows b h = ground arith

  -- What the calls on one book keep, the handling of an update keeps.
  l2update_keeps :
      (B : BookSet sc → Type 0)
      (updated : (p : String) (rows : List (String × String × String)) (books : BookSet sc)
        → B books
        → B (with_book sc p (Book.apply_updates sc rows) books).1)
      (quoted : (p : String) (books : BookSet sc)
        → B books
        → B (with_book sc p (quote_action sc publisher) books).1)
      (msg : Message) (t : ℕ) (h : MessageHandler sc publisher)
      → B h.books
      → B (handle_l2update sc publisher msg t h).1.books
  unfolding handle_l2update
  l2update_keeps B updated quoted msg t h b = grind (arith, updated, quoted)

  l2update-Unready :
      (msg : Message) (t : ℕ) (h : MessageHandler sc publisher)
      → Unready h.books
      → Unready (handle_l2update sc publisher msg t h).1.books
  l2update-Unready =
      l2update_keeps Unready
        (λ p rows books.
          with_book-Unready p (Book.apply_updates sc rows) books (updates-unready rows))
        (λ p books. with_book-Unready p (quote_action sc publisher) books (λ b u. u))

  abbrev pub NoSnapshot : Event → Type 0
  NoSnapshot (message msg t) = msg.kind ≢ some "snapshot"
  NoSnapshot disconnected = Unit

  handle-Unready :
      (msg : Message) (t : ℕ) (h : MessageHandler sc publisher)
      → msg.kind ≢ some "snapshot"
      → Unready h.books
      → Unready (handle sc publisher msg t h).1.books
  handle-Unready msg t h other u =
      handle_cases sc publisher (λ r. Unready r.1.books) msg t h (rw match_books u)
        (λ is. absurd (other is)) (l2update-Unready msg t h u) (rw heartbeat_books u) (λ r. u)

  pub disconnect-Unready :
      (h : MessageHandler sc publisher) → Unready (on_disconnect sc publisher h).books
  unfolding on_disconnect Book.reset
  disconnect-Unready h p b e =
      let found = get-reset_all sc p h.books in
      elim (Option-cases (Dict.get p h.books)) [
        | inl unknown ↦ ground (arith, found, unknown, e)
        | inr (b', known) ↦ ground (arith, found, known, e)
      ]

  run-Unready :
      (events : List Event) (h : MessageHandler sc publisher)
      → All NoSnapshot events
      → Unready h.books
      → Unready (run sc publisher events h).books
  unfolding run
  run-Unready [] h quiet u = u
  run-Unready (message msg t ∷ events) h quiet u =
      run-Unready events _ quiet.1 (handle-Unready msg t h quiet.0 u)
  run-Unready (disconnected ∷ events) h quiet u =
      run-Unready events _ quiet.1 (disconnect-Unready h)

  -- After a disconnect no book serves a quote until a snapshot comes, whatever other messages,
  -- malformed ones included, and further disconnects come before it.
  pub no_quote_until_snapshot :
      (h : MessageHandler sc publisher) (events : List Event) (p : String) (b : OrderBook sc)
      → All NoSnapshot events
      → Dict.get p (run sc publisher events (on_disconnect sc publisher h)).books ≡ some b
      → (b.ready ≡ false) × (Book.quote sc b ≡ ok none)
  no_quote_until_snapshot h events p b quiet e =
      let unready = run-Unready events _ quiet (disconnect-Unready h) p b e in
      (unready, (quote-none sc b).1 (inl unready))
