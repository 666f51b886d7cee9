-- ===== src/Backfill/Rows.antt =====
-- scripts/backfill_trades.py: the messages that the loop over the collected ids publishes.
use crypto_market_platform.Base.{
  ℕ, ◌≡◌, ◌∙◌, refl, sym, ap, inl, inr, String, Option, some, List, [], ◌∷◌, ◌++◌, All, ◌⊎◌,
}
use crypto_market_platform.Base.{append_assoc, append_nil}
use crypto_market_platform.Base.Result.{Exception, Result, ok, raise, Result-cases}
use crypto_market_platform.Base.Exec.{pure, continue}
use crypto_market_platform.Publisher.{Payload, Published}
use crypto_market_platform.Backfill.{RestTrade, Collected, lookup}
use crypto_market_platform.Backfill.Payload.{to_topic_payload}
use crypto_market_platform.Backfill.Script.{Args, Services, publish_all, await_all}
use crypto_market_platform.Backfill.Recorder.{World, recorded}

module _ {V : Type 0} (s : Services V) (args : Args) (history : ℕ → Option RestTrade) where
  abbrev pub topic : String
  topic = s.client.topic_path args.project "market.raw.trades"

  -- The message of an id: the payload of the exchange's trade, at some time.
  pub record Row (i : ℕ) (m : Published) : Type 0 where
    pub trade : RestTrade
    pub payload : Payload
    pub now : ℕ
    pub traded : history i ≡ some trade
    pub made : to_topic_payload trade args.product now ≡ ok payload
    pub sent : m ≡ (topic, payload, args.product)

  -- One message for each id, in the order of the ids.
  abbrev pub Rows : List ℕ → List Published → Type 0
  Rows [] [] = Unit
  Rows [] (m ∷ ms) = ⊥
  Rows (i ∷ ids) [] = ⊥
  Rows (i ∷ ids) (m ∷ ms) = Row i m × Rows ids ms

  -- The trade of an id has no payload.
  pub record Unfit (i : ℕ) (e : Exception) : Type 0 where
    pub trade : RestTrade
    pub now : ℕ
    pub traded : history i ≡ some trade
    pub raised : to_topic_payload trade args.product now ≡ raise e

  -- The client raised at the message of an id.
  pub record Refused (i : ℕ) (e : Exception) : Type 0 where
    pub message : Published
    pub proper : Row i message
    pub world : V
    pub refused : (s.client.publish message.0 message.1 message.2 world).0 ≡ raise e

  -- The messages for the ids up to one whose trade has no payload, or whose message the client
  -- refused.
  pub record Broken (ids : List ℕ) (ms : List Published) (e : Exception) : Type 0 where
    pub done : List ℕ
    pub bad : ℕ
    pub rest : List ℕ
    pub parts : ids ≡ done ++ bad ∷ rest
    pub rows : Rows done ms
    pub cause : Unfit bad e ⊎ Refused bad e

  abbrev pub Known : Collected → ℕ → Type 0
  Known c i = (t : RestTrade) × (lookup i c ≡ some t) × (history i ≡ some t)

  -- What a call of `publish_all` adds to the messages.
  abbrev pub Adds : {A : Type 0} → List ℕ → List Published → Result A × World s → Type 0
  Adds ids before (ok a, w) = (new : List Published) × (w.1 ≡ before ++ new) × Rows ids new
  Adds ids before (raise e, w) = (new : List Published) × (w.1 ≡ before ++ new) × Broken ids new e

  Row-Adds :
      {A : Type 0} (i : ℕ) (ids : List ℕ) (m : Published) (before : List Published) (f : A → A)
      (outcome : Result A × World s)
      → Row i m
      → Adds ids (before ++ m ∷ []) outcome
      → Adds (i ∷ ids) before (continue outcome.0 (λ a. pure (f a)) outcome.1)
  Row-Adds i ids m before f (ok a, w) row (new, grown, rows) =
      (m ∷ new, grown ∙ append_assoc before (m ∷ []) new, (row, rows))
  Row-Adds i ids m before f (raise e, w) row (new, grown, broken) = (
    m ∷ new,
    grown ∙ append_assoc before (m ∷ []) new,
    record {
      done = i ∷ broken.done;
      bad = broken.bad;
      rest = broken.rest;
      parts = ap (λ l. i ∷ l) broken.parts;
      rows = (row, broken.rows);
      cause = broken.cause;
    },
  )

  first-Broken :
      (i : ℕ) (ids : List ℕ) (e : Exception) → Unfit i e ⊎ Refused i e → Broken (i ∷ ids) [] e
  first-Broken i ids e cause = record {
    done = [];
    bad = i;
    rest = ids;
    parts = refl;
    rows = tt;
    cause = cause;
  }

  pub publish_all-Adds :
      (c : Collected) (ids : List ℕ) (w : World s)
      → All (Known c) ids
      → Adds ids w.1 (publish_all (recorded s) args topic c ids w)
  unfolding publish_all
  publish_all-Adds c [] w known = ([], sym (append_nil w.1), tt)
  publish_all-Adds c (i ∷ ids) w ((t, out, in_history), known) =
      let (now, v) = s.clock w.0 in
      elim (Result-cases (to_topic_payload t args.product now)) [
        | inr (e, bad) ↦
            rw (out, bad)
              (
                [],
                sym (append_nil w.1),
                first-Broken i ids e
                    (inl (record { trade = t; now = now; traded = in_history; raised = bad })),
              )
        | inl (p, good) ↦
            let row : Row i (topic, p, args.product) = record {
              trade = t;
              payload = p;
              now = now;
              traded = in_history;
              made = good;
              sent = refl;
            } in
            elim (Result-cases (s.client.publish topic p args.product v).0) [
              | inr (e, refused) ↦
                  rw (out, good, refused)
                    (
                      [],
                      sym (append_nil w.1),
                      first-Broken i ids e (
                          inr (record {
                            message = (topic, p, args.product);
                            proper = row;
                            world = v;
                            refused = refused;
                          })),
                    )
              | inl (future, accepted) ↦
                  rw (out, good, accepted)
                    (Row-Adds i ids _ w.1 (λ futures. future ∷ futures)
                      (publish_all (recorded s) args topic c ids _) row
                      (publish_all-Adds c ids _ known))
            ]
      ]

  -- A future raised, in some state of the world.
  abbrev pub ResultRaises : Exception → Type 0
  ResultRaises e = (future : s.client.Future) × (v : V) × ((s.result future v).0 ≡ raise e)

  -- Waiting for the futures publishes nothing, and raises only what a future raises.
  abbrev pub Waits : List Published → Result (Unit {0}) × World s → Type 0
  Waits before (ok done, w) = w.1 ≡ before
  Waits before (raise e, w) = (w.1 ≡ before) × ResultRaises e

  pub await_all-Waits :
      (futures : List s.client.Future) (w : World s)
      → Waits w.1 (await_all (recorded s) args futures w)
  unfolding await_all
  await_all-Waits [] w = refl
  await_all-Waits (future ∷ futures) w = elim (Result-cases (s.result future w.0).0) [
    | inl (done, good) ↦ rw good (await_all-Waits futures _)
    | inr (e, bad) ↦ rw bad (refl, (future, w.0, bad))
  ]
