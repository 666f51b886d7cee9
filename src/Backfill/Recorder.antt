-- ===== src/Backfill/Recorder.antt =====
-- scripts/backfill_trades.py: the services with a record of the messages that the Pub/Sub client took,
-- whatever they do; and that the loop over the pages publishes nothing.
use crypto_market_platform.Base.{
  ℕ, zero, suc, ◌≡◌, ◌∙◌, refl, inl, inr, Option, some, List, [], ◌∷◌, ◌++◌, leb, Bool-cases,
}
use crypto_market_platform.Base.Result.{Result, ok, raise, Result-cases}
use crypto_market_platform.Base.Exec.{Exec}
use crypto_market_platform.Publisher.{Published}
use crypto_market_platform.Publisher.PubSub.{PubSubClient}
use crypto_market_platform.Backfill.{
  Url, RestTrade, Collected, wanted, min_of, page_url, collect, walk, read_page, missing, turn,
  unless_done, fetch_page,
}
use crypto_market_platform.Backfill.Script.{Args, Services}

module _ {V : Type 0} (s : Services V) where
  -- The world with the messages that the client took.
  abbrev pub World : Type 0
  World = V × List Published

  abbrev pub lifted : {A : Type 0} → Exec V A → Exec World A
  lifted m w = let (r, v) = m w.0 in (r, (v, w.1))

  -- A message that the client took is the last of the messages; one that it refused is not.
  abbrev pub taken :
      Published → List Published → Result s.client.Future × V → Result s.client.Future × World
  taken m messages (ok future, v) = (ok future, (v, messages ++ m ∷ []))
  taken m messages (raise e, v) = (raise e, (v, messages))

  abbrev pub client : PubSubClient World
  client = record {
    Future = s.client.Future;
    topic_path = s.client.topic_path;
    publish = λ topic payload key w.
        taken (topic, payload, key) w.1 (s.client.publish topic payload key w.0);
    resume_publish = λ topic key. lifted (s.client.resume_publish topic key);
    stop = lifted s.client.stop;
  }

  abbrev pub open_page : Url → Exec World (List RestTrade)
  open_page url = lifted (s.urlopen url)

  -- The services, with a record of what the client took.
  abbrev pub recorded : Services World
  recorded = record {
    urlopen = open_page;
    clock = λ w. let (t, v) = s.clock w.0 in (t, (v, w.1));
    client = client;
    make_client = lifted s.make_client;
    result = λ future. lifted (s.result future);
  }

  module _ (args : Args) where
    unless_done-quiet :
        (ids : List ℕ) (c : Collected) (more : Exec World (Option Collected)) (w : World)
        → (more w).1.1 ≡ w.1
        → (unless_done open_page args.product args.after args.before ids c more w).1.1 ≡ w.1
    unless_done-quiet [] c more w quiet = refl
    unless_done-quiet (i ∷ ids) c more w quiet = quiet

    read_page-quiet :
        (cursor : ℕ) (w : World)
        → (read_page open_page args.product args.after args.before cursor w).1.1 ≡ w.1
    unfolding read_page fetch_page
    read_page-quiet cursor w =
        elim (Result-cases (s.urlopen (page_url args.product (some cursor)) w.0).0) [
          | inl (page, good) ↦ rw good refl
          | inr (e, bad) ↦ rw bad refl
        ]

    turn-quiet :
        (next : ℕ → Collected → Exec World (Option Collected)) (c : Collected)
        (page : List (ℕ × RestTrade)) (w : World)
        → ((cursor : ℕ) (c' : Collected) → (next cursor c' w).1.1 ≡ w.1)
        → (turn open_page args.product args.after args.before next c page w).1.1 ≡ w.1
    turn-quiet next c [] w later = refl
    turn-quiet next c ((i, t) ∷ page) w later = elim (Bool-cases (leb (min_of i page) args.after)) [
      | inl passed ↦ rw passed refl
      | inr more ↦ rw more (later (min_of i page) _)
    ]

    walk-quiet :
        (fuel cursor : ℕ) (c : Collected) (w : World)
        → (walk open_page args.product args.after args.before fuel cursor c w).1.1 ≡ w.1
    unfolding walk
    walk-quiet zero cursor c w = refl
    walk-quiet (suc fuel) cursor c w =
        let quiet = read_page-quiet cursor w in
        unless_done-quiet (missing (wanted args.after args.before) c) c _ w
          (elim (Result-cases
            (read_page open_page args.product args.after args.before cursor w).0) [
              | inl (page, good) ↦ rw good (
                  turn-quiet (walk open_page args.product args.after args.before fuel) c page _
                    (λ next c'. walk-quiet fuel next c' _)
                  ∙ quiet)
              | inr (e, bad) ↦ rw bad quiet
            ])

    pub collect-quiet :
        (w : World) → (collect open_page args.product args.after args.before w).1.1 ≡ w.1
    unfolding collect
    collect-quiet w = walk-quiet _ _ [] w
