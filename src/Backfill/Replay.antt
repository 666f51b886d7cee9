-- ===== src/Backfill/Replay.antt =====
-- scripts/backfill_trades.py: what a run of `main` publishes, by the messages that the
-- Pub/Sub client took.
use crypto_market_platform.Base.{
  ℕ, ◌≡◌, ◌∙◌, ◌⊎◌, refl, sym, inl, inr, Bool, true, false, Option, none, some, List, [], ◌∷◌, ◌++◌,
  if◌then◌else◌, All, arith, Bool-cases,
}
use mathlib.Core.Path.{subst}
use crypto_market_platform.Base.Result.{Exception, Result, ok, raise, Result-cases}
use crypto_market_platform.Base.Exec.{pure, continue, ◌>>◌}
use crypto_market_platform.Publisher.{Published}
use crypto_market_platform.Backfill.{RestTrade, Collected, lookup, wanted, mem, collect, read_page}
use crypto_market_platform.Backfill.Collecting.{Once, in_range}
use crypto_market_platform.Backfill.Complete.{Paginates, Filled, Ends, collect-Ends}
use crypto_market_platform.Backfill.Script.{
  Args, Services, sorted_ids, await_all, finish, unless_empty, main,
}
use crypto_market_platform.Backfill.Recorder.{World, open_page, recorded, collect-quiet}
use crypto_market_platform.Backfill.Rows.{
  Rows, Broken, Known, Adds, ResultRaises, Waits, publish_all-Adds, await_all-Waits,
}
use crypto_market_platform.Base.{append_nil}
use crypto_market_platform.Backfill.Ascending.{is_some, held, mem_self, mem-sorted, sorted_ids-held}

All-mem : (P : ℕ → Type 0) (ids : List ℕ) → ((i : ℕ) → mem i ids ≡ true → P i) → All P ids
unfolding mem
All-mem P [] f = tt
All-mem P (i ∷ ids) f = (f i (mem_self i ids), All-mem P ids (λ j m. f j (ground (arith, m))))

module _ {V : Type 0} (s : Services V) where
  module _ (args : Args) (history : ℕ → Option RestTrade) where
    abbrev pub planned : List ℕ
    planned = if args.dry_run then [] else held history (wanted args.after args.before)

    -- A page, or the decoding of one, raised the exception.
    abbrev pub PageRaises : Exception → Type 0
    PageRaises e =
        (cursor : ℕ) × (w : World s) × ((read_page (open_page s) args.product args.after args.before
            cursor w).0
          ≡ raise e)

    -- Making the Pub/Sub client raised the exception.
    abbrev pub ConnectRaises : Exception → Type 0
    ConnectRaises e = (v : V) × ((s.make_client v).0 ≡ raise e)

    -- What may have raised, by the messages that were published till then.
    abbrev pub Fails : List ℕ → List Published → Exception → Type 0
    Fails plan new e =
        ((new ≡ []) × (PageRaises e ⊎ ConnectRaises e))
        ⊎ Broken s args history plan new e
        ⊎ (Rows s args history plan new × ResultRaises s args history e)

    -- What a run has added to the messages when it ends.
    abbrev pub Replays : List ℕ → List Published → Result (Option ℕ) × World s → Type 0
    Replays plan before (ok code, w) =
        (code ≡ some 0)
        × (new : List Published) × (w.1 ≡ before ++ new)
        × Rows s args history plan new
    Replays plan before (raise e, w) =
        (new : List Published) × (w.1 ≡ before ++ new) × Fails plan new e

    waited-Replays :
        (ids : List ℕ) (before new : List Published) (w : World s)
        (outcome : Result (Unit {0}) × World s)
        → w.1 ≡ before ++ new
        → Rows s args history ids new
        → Waits s args history w.1 outcome
        → Replays ids before (continue outcome.0 (λ done. pure (some 0)) outcome.1)
    waited-Replays ids before new w (ok done, w') grown rows same = (refl, new, same ∙ grown, rows)
    waited-Replays ids before new w (raise e, w') grown rows (same, raised) =
        (new, same ∙ grown, inr (inr (rows, raised)))

    awaited-Replays :
        (ids : List ℕ) (before : List Published) (outcome : Result (List s.client.Future) × World s)
        → Adds s args history ids before outcome
        → Replays ids before (
            continue outcome.0
              (λ futures. await_all (recorded s) args futures >> pure (some 0))
              outcome.1)
    awaited-Replays ids before (ok futures, w) (new, grown, rows) =
        waited-Replays ids before new w (await_all (recorded s) args futures w) grown rows
          (await_all-Waits s args history futures w)
    awaited-Replays ids before (raise e, w) (new, grown, broken) = (new, grown, inr (inl broken))

    module _ (api : Paginates (open_page s) args.product args.after args.before history) where
      known_id :
          (within : Bool) (i : ℕ) (seen : Option RestTrade)
          → seen ≡ (if within then history i else none)
          → is_some seen ≡ true
          → (t : RestTrade) × (seen ≡ some t) × (history i ≡ some t)
      known_id within i none e some_seen = cc
      known_id false i (some t) e some_seen = cc
      known_id true i (some t) e some_seen = (t, refl, sym e)

      Filled-Known :
          (c : Collected)
          → Filled (open_page s) args.product args.after args.before history c
          → All (Known s args history c) (sorted_ids c)
      Filled-Known c filled = All-mem (Known s args history c) (sorted_ids c) (λ i among.
          known_id (in_range args.after args.before i) i (lookup i c) (filled i)
            (sym (mem-sorted i c) ∙ among))

      finish-Replays :
          (c : Collected) (w : World s)
          → Filled (open_page s) args.product args.after args.before history c
          → Once c
          → Replays planned w.1 (finish (recorded s) args (some c) w)
      finish-Replays c w filled once = elim (Bool-cases args.dry_run) [
        | inl dry ↦ rw dry (refl, [], sym (append_nil w.1), tt)
        | inr wet ↦
            let ids = sorted_ids-held history args.after args.before c filled once in
            elim (Result-cases (s.make_client w.0).0) [
              | inr (e, no_client) ↦
                  simp (wet, no_client) ([], sym (append_nil w.1), inl (refl, inr (w.0, no_client)))
              | inl (done, connected) ↦
                  simp (wet, connected, ← ids)
                    (awaited-Replays (sorted_ids c) w.1 _ (
                      publish_all-Adds s args history c (sorted_ids c) ((s.make_client w.0).1, w.1)
                        (Filled-Known c filled)))
            ]
      ]

      collected-Replays :
          (before : List Published) (outcome : Result (Option Collected) × World s)
          → outcome.1.1 ≡ before
          → Ends (open_page s) args.product args.after args.before history outcome.0
          → Replays planned before (continue outcome.0 (finish (recorded s) args) outcome.1)
      collected-Replays before (ok none, w) same ends = absurd ends
      collected-Replays before (ok (some c), w) same (filled, once) =
          subst (λ b. Replays planned b (finish (recorded s) args (some c) w)) same
            (finish-Replays c w filled once)
      collected-Replays before (raise e, w) same bad =
          ([], same ∙ sym (append_nil before), inl (refl, inl bad))

      unless_empty-Replays :
          (ids : List ℕ) (w : World s)
          → wanted args.after args.before ≡ ids
          → Replays planned w.1 (unless_empty (recorded s) args ids w)
      unfolding held
      unless_empty-Replays [] w empty = rw empty (elim (Bool-cases args.dry_run) [
        | inl dry ↦ rw dry (refl, [], sym (append_nil w.1), tt)
        | inr wet ↦ rw wet (refl, [], sym (append_nil w.1), tt)
      ])
      unless_empty-Replays (i ∷ ids) w some_ids =
          collected-Replays w.1 (collect (open_page s) args.product args.after args.before w)
            (collect-quiet s args w)
            (collect-Ends (open_page s) args.product args.after args.before history api w)

      -- If the API paginates the exchange's history as it documents, then a run of the backfill
      -- always ends, whatever the Pub/Sub client does. It returns 0 with the client having taken
      -- exactly one message for each trade that the exchange has strictly between `after` and
      -- `before`, in ascending order of ids, each with the payload of that trade, on the raw trades
      -- topic of the project and under the product's ordering key, and none if it is a dry run. Or it
      -- raises: what a page or the making of the client raised, with nothing published; what the
      -- payload of a trade or the call of `publish` for it raised, with the messages of the ids
      -- before that trade; or what a future raised, with all messages taken by the client.
      pub main-Replays : (w : World s) → Replays planned w.1 (main (recorded s) args w)
      unfolding main
      main-Replays w = unless_empty-Replays (wanted args.after args.before) w refl
