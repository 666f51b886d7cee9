-- ===== src/Handler/Checks.antt =====
-- ws_client.py: the two checks that `MessageHandler` makes of its own state, for a crossed book
-- after an update and for missed trades on a heartbeat.
use Prim.Native.Nat.{max}
use crypto_market_platform.Base.{
  ℕ, ◌+◌, ◌-◌, ◌≡◌, refl, ltb, if◌then◌else◌, String, Option, none, some, inl, inr, Option-cases,
  arith, ap, ◌∙◌,
}
use crypto_market_platform.Base.Dict
use crypto_market_platform.Base.Dict.{get-put, put-same, str_eq_refl}
use crypto_market_platform.Base.Result.{Result, ok, raise, key_error, Result-cases}
use crypto_market_platform.SortedContainers.{SortedContainers}
use crypto_market_platform.Sequence.{last_seen, observe}
use crypto_market_platform.Book
use crypto_market_platform.Book.{OrderBook}
use crypto_market_platform.Book.Top.{quote_raises}
use crypto_market_platform.Book.Books.{with_book}
use crypto_market_platform.Publisher.{Publisher}
use crypto_market_platform.Handler.{MessageHandler, check_crossed, cross_check}

module _ (sc : SortedContainers) {P : Type 0} (publisher : Publisher P) where
  -- What a heartbeat that names a trade should change, by the last trade seen and whether the
  -- heartbeat is ahead of it.
  abbrev pub Reveals :
      Option ℕ
      → String
      → ℕ
      → MessageHandler sc publisher
      → Result (Unit {0}) × MessageHandler sc publisher
      → Type 0
  Reveals none p n h outcome = outcome ≡ (ok tt, h)
  Reveals (some seen) p n h (r, h') =
      (r ≡ ok tt)
      × (h'.metrics.counters.messages_lost_total
          ≡ h.metrics.counters.messages_lost_total + (n - seen))
      × (h'.metrics.counters.heartbeat_detected_gaps_total
          ≡ h.metrics.counters.heartbeat_detected_gaps_total + (if ltb seen n then 1 else 0))
      × (last_seen h'.continuity p ≡ some (max seen n))
      × ((if ltb seen n then h else h') ≡ h)

  -- A heartbeat before any trade of its product changes nothing, the tracker's baseline included.
  -- Later it counts as lost the trades after the last one seen, up to the one that it names, and
  -- one gap if there are any, and moves the last one seen up to the one named; if it is not ahead of
  -- the last one seen, nothing changes. It never raises, the same heartbeat again finds nothing, and
  -- no books and nothing published change.
  pub cross_check_lem :
      (p : String) (n : ℕ) (h : MessageHandler sc publisher)
      → let h' = (cross_check sc publisher p n h).1 in
        Reveals (last_seen h.continuity p) p n h (cross_check sc publisher p n h)
        × (cross_check sc publisher p n h' ≡ (ok tt, h'))
        × (h'.books ≡ h.books)
        × (h'.publisher_state ≡ h.publisher_state)
  unfolding cross_check last_seen observe
  cross_check_lem p n h = elim (Option-cases (Dict.get p h.continuity.last)) [
    | inl unseen ↦ rw unseen (refl, ground (arith, unseen), refl, refl)
    | inr (seen, known) ↦
        let put = get-put p p n h.continuity.last in
        let self = str_eq_refl p in
        rw known (
          (
            ground arith,
            ground arith,
            ground arith,
            ground (arith, known, put, self),
            ground arith,
          ),
          ground (arith, known, put, self),
          ground arith,
          ground arith,
        )
  ]

  -- The answer of the check for a crossed book, by what the book says of its quote.
  abbrev pub Checked :
      Option (OrderBook sc)
      → MessageHandler sc publisher
      → Result (Unit {0}) × MessageHandler sc publisher
      → Type 0
  Checked none h (r, h') = (r ≡ raise key_error) × (h' ≡ h)
  Checked (some b) h (r, h') =
      (r ≡ ok tt)
      × (h'.books ≡ h.books)
      × (h'.publisher_state ≡ h.publisher_state)
      × (h'.metrics.counters.crossed_books_total
          ≡ h.metrics.counters.crossed_books_total
            + elim (Book.quote sc b) [ ok q ↦ 0 | raise e ↦ 1 ])

  -- An update's check for a crossed book raises only for an unknown product, and then nothing
  -- changes; otherwise it counts one crossed book exactly if the quote of the product's book
  -- raises, swallows that exception, and changes no book and publishes nothing.
  pub check_crossed-Checked :
      (p : String) (h : MessageHandler sc publisher)
      → Checked (Dict.get p h.books) h (check_crossed sc publisher p h)
  unfolding check_crossed with_book
  check_crossed-Checked p h = elim (Option-cases (Dict.get p h.books)) [
    | inl unknown ↦ rw unknown (refl, refl)
    | inr (b, known) ↦
        let same = put-same p b h.books known in
        elim (Result-cases (Book.quote sc b)) [
          | inl (q, answered) ↦ rw (known, answered, same) (refl, refl, refl, omega arith)
          | inr (e, raised) ↦
              let crossed = raised ∙ ap raise ((quote_raises sc b e).0 raised).1 in
              rw (known, crossed, same) (refl, refl, refl, refl)
        ]
  ]
