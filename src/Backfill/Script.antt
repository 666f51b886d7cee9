-- ===== src/Backfill/Script.antt =====
-- scripts/backfill_trades.py, `main`: from the arguments to the exit code. The API, the clock and the
-- Pub/Sub client are parameters over the state of the world; what is printed is left out.
use crypto_market_platform.Base.{
  ℕ, String, Bool, Option, none, some, List, [], ◌∷◌, map, leb, if◌then◌else◌,
}
use crypto_market_platform.Base.Result.{Result, ok, raise, key_error}
use crypto_market_platform.Base.Exec.{Exec, pure, lift, ◌>>=◌, ◌>>◌}
use crypto_market_platform.Base.Sort.{sorted}
use crypto_market_platform.Publisher.PubSub.{PubSubClient}
use crypto_market_platform.Backfill.{Url, RestTrade, Collected, lookup, wanted, collect}
use crypto_market_platform.Backfill.Payload.{to_topic_payload}

pub record Args : Type 0 where
  pub product : String
  pub after : ℕ
  pub before : ℕ
  pub project : String
  pub dry_run : Bool

pub record Services (W : Type 0) : Type 1 where
  pub urlopen : Url → Exec W (List RestTrade)
  -- `datetime.now(UTC)`
  pub clock : W → ℕ × W
  pub client : PubSubClient W
  -- `pubsub_v1.PublisherClient(…)`
  pub make_client : Exec W (Unit {0})
  -- `future.result(timeout=60)`
  pub result : client.Future → Exec W (Unit {0})

abbrev pub found : Option RestTrade → Result RestTrade
found none = raise key_error
found (some t) = ok t

-- `sorted(collected)`
abbrev pub sorted_ids : Collected → List ℕ
sorted_ids c = sorted leb (map (λ (e : ℕ × RestTrade). e.0) c)

module _ {W : Type 0} (s : Services W) (args : Args) where
  abbrev pub tick : Exec W ℕ
  tick w = let (t, w') = s.clock w in (ok t, w')

  abbrev pub publish_one : String → Collected → ℕ → Exec W s.client.Future
  publish_one topic c tid = do
    trade ← lift (found (lookup tid c))
    now ← tick
    payload ← lift (to_topic_payload trade args.product now)
    s.client.publish topic payload args.product

  -- The loop over `sorted(collected)`.
  unfoldable pub publish_all : String → Collected → List ℕ → Exec W (List s.client.Future)
  publish_all topic c [] = pure []
  publish_all topic c (tid ∷ tids) = do
    future ← publish_one topic c tid
    futures ← publish_all topic c tids
    pure (future ∷ futures)

  unfoldable pub await_all : List s.client.Future → Exec W (Unit {0})
  await_all [] = pure tt
  await_all (future ∷ futures) = s.result future >> await_all futures

  -- After the loop over the pages; `none` if that ran out of fuel.
  abbrev pub finish : Option Collected → Exec W (Option ℕ)
  finish none = pure none
  finish (some c) = if args.dry_run then pure (some 0) else (do
    s.make_client
    futures ← publish_all (s.client.topic_path args.project "market.raw.trades") c (sorted_ids c)
    await_all futures
    pure (some 0))

  abbrev pub unless_empty : List ℕ → Exec W (Option ℕ)
  unless_empty [] = pure (some 0)
  unless_empty (tid ∷ tids) = do
    collected ← collect s.urlopen args.product args.after args.before
    finish collected

  -- The exit code of `main`.
  unfoldable pub main : Exec W (Option ℕ)
  main = unless_empty (wanted args.after args.before)
