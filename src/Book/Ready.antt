-- ===== src/Book/Ready.antt =====
-- book.py over a life of the book: when it is usable, and that it never serves a stale one.
use crypto_market_platform.Base.{
  ◌≡◌, ◌∙◌, refl, ap, map, String, Bool, true, false, ◌&&◌, none, List, [], ◌∷◌, inl, inr, arith,
  if◌then◌else◌, All,
}
use crypto_market_platform.Base.Result.{Result, ok, raise, Result-cases}
use crypto_market_platform.SortedContainers.{SortedContainers}
use crypto_market_platform.Decimal.Context.{opposite}
use crypto_market_platform.Decimal.{zero_decimal}
use crypto_market_platform.Book.{
  OrderBook, itself, apply_snapshot, apply_updates, reset, quote, len,
}
use crypto_market_platform.Book.Levels.{rows_read, set_levels-level}
use crypto_market_platform.Book.Deltas.{apply_changes-Untouched}
use crypto_market_platform.Book.Top.{quote-none}
use crypto_market_platform.Book.Nonzero.{
  HasNoZero, apply_snapshot-HasNoZero, apply_updates-HasNoZero, reset-HasNoZero,
}

-- The calls that change a book.
pub data Operation : Type 0 where
  snapshot : List (String × String) → List (String × String) → Operation
  updates : List (String × String × String) → Operation
  disconnect : Operation

abbrev pub finished : Result (Unit {0}) → Bool
finished (ok _) = true
finished (raise _) = false

-- Whether a book is usable after the calls: since the last reset a snapshot has been read whole.
abbrev pub usable : Bool → List Operation → Bool
usable now [] = now
usable now (snapshot bids asks ∷ ops) =
    usable (if finished (rows_read bids).1 && finished (rows_read asks).1 then true else now) ops
usable now (updates rows ∷ ops) = usable now ops
usable now (disconnect ∷ ops) = usable false ops

module _ (sc : SortedContainers) where
  -- The book after a call, also after one that raises.
  pub perform : Operation → OrderBook sc → OrderBook sc
  perform (snapshot bids asks) b = (apply_snapshot sc bids asks b).1
  perform (updates rows) b = (apply_updates sc rows b).1
  perform disconnect b = reset sc b

  pub perform_all : List Operation → OrderBook sc → OrderBook sc
  perform_all [] b = b
  perform_all (op ∷ ops) b = perform_all ops (perform op b)

  ready-apply_snapshot :
      (bids asks : List (String × String)) (b : OrderBook sc)
      → (apply_snapshot sc bids asks b).1.ready
        ≡ (if finished (rows_read bids).1 && finished (rows_read asks).1 then true else b.ready)
  unfolding apply_snapshot
  ready-apply_snapshot bids asks b =
      let (rb, _) = set_levels-level sc opposite bids (sc.clear opposite b.bids) zero_decimal in
      let (ra, _) = set_levels-level sc itself asks (sc.clear itself b.asks) zero_decimal in
      elim (Result-cases (rows_read bids).1) [
        | inr (e, bad) ↦ rw (rb ∙ bad, bad)
        | inl (_, good) ↦ elim (Result-cases (rows_read asks).1) [
          | inr (e, bad) ↦ rw (rb ∙ good, ra ∙ bad, good, bad)
          | inl (_, good') ↦ rw (rb ∙ good, ra ∙ good', good, good')
        ]
      ]

  ready-apply_updates :
      (rows : List (String × String × String)) (b : OrderBook sc)
      → (apply_updates sc rows b).1.ready ≡ b.ready
  unfolding apply_updates
  ready-apply_updates rows b = ground (arith, apply_changes-Untouched sc rows b)

  -- After any calls a book is ready exactly when, since its last reset, some snapshot has been
  -- read whole.
  pub ready-perform_all :
      (ops : List Operation) (b : OrderBook sc) → (perform_all ops b).ready ≡ usable b.ready ops
  unfolding perform perform_all reset
  ready-perform_all [] b = refl
  ready-perform_all (snapshot bids asks ∷ ops) b =
      ready-perform_all ops _ ∙ ap (λ now. usable now ops) (ready-apply_snapshot bids asks b)
  ready-perform_all (updates rows ∷ ops) b =
      ready-perform_all ops _ ∙ ap (λ now. usable now ops) (ready-apply_updates rows b)
  ready-perform_all (disconnect ∷ ops) b = ready-perform_all ops (reset sc b)

  -- From the start, whatever snapshots, deltas and resets come and whether they raise or not, no
  -- level is ever stored with size zero.
  pub perform_all-HasNoZero :
      (ops : List Operation) (b : OrderBook sc) → HasNoZero sc b → HasNoZero sc (perform_all ops b)
  unfolding perform perform_all
  perform_all-HasNoZero [] b h = h
  perform_all-HasNoZero (snapshot bids asks ∷ ops) b h =
      perform_all-HasNoZero ops _ (apply_snapshot-HasNoZero sc bids asks b)
  perform_all-HasNoZero (updates rows ∷ ops) b h =
      perform_all-HasNoZero ops _ (apply_updates-HasNoZero sc rows b h)
  perform_all-HasNoZero (disconnect ∷ ops) b h = perform_all-HasNoZero ops _ (reset-HasNoZero sc b)

  updates_after_reset :
      (rows : List (String × String × String)) (b : OrderBook sc)
      → apply_updates sc rows (reset sc b) ≡ (ok tt, reset sc b)
  unfolding apply_updates reset
  updates_after_reset rows b = refl

  stays :
      (batches : List (List (String × String × String))) (b : OrderBook sc)
      → perform_all (map updates batches) (reset sc b) ≡ reset sc b
  unfolding perform perform_all
  stays [] b = refl
  stays (rows ∷ batches) b =
      ap (λ (r : Result (Unit {0}) × OrderBook sc). perform_all (map updates batches) r.1)
        (updates_after_reset rows b)
      ∙ stays batches b

  each_ignored :
      (batches : List (List (String × String × String))) (b : OrderBook sc)
      → All (λ rows. apply_updates sc rows (reset sc b) ≡ (ok tt, reset sc b)) batches
  each_ignored [] b = tt
  each_ignored (rows ∷ batches) b = (updates_after_reset rows b, each_ignored batches b)

  len-reset : (b : OrderBook sc) → len sc (reset sc b) ≡ 0
  unfolding reset len
  len-reset b = rw (sc.size-items, sc.items-clear, sc.size-items, sc.items-clear) refl

  -- Batches of deltas, well formed or not, that come between a reset and the next snapshot do
  -- nothing at all: none raises, the book stays empty, and it serves no quote.
  pub deltas_after_reset :
      (batches : List (List (String × String × String))) (b : OrderBook sc)
      → let b' = perform_all (map updates batches) (reset sc b) in
        (b' ≡ reset sc b)
        × All (λ rows. apply_updates sc rows (reset sc b) ≡ (ok tt, reset sc b)) batches
        × (len sc b' ≡ 0)
        × (quote sc b' ≡ ok none)
  deltas_after_reset batches b = (
    stays batches b,
    each_ignored batches b,
    rw stays (len-reset b),
    rw stays ((quote-none sc _).1 (unfold reset in inl refl)),
  )
