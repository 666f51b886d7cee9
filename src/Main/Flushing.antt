-- ===== src/Main/Flushing.antt =====
-- __main__.py, `build_publisher`: the publisher that the settings ask for, and its flush.
use crypto_market_platform.Base.{◌≡◌, refl, String, true, false, arith, inl, inr, Bool-cases}
use crypto_market_platform.Base.Result.{Exception, Result, ok, raise}
use crypto_market_platform.Config.{Config}
use crypto_market_platform.Publisher.{Payload}
use crypto_market_platform.Publisher.PubSub
use crypto_market_platform.Publisher.PubSub.{PubSubClient, new_pubsub}
use crypto_market_platform.Main.{
  AnyPublisher, discarding, sending, publish, flush, with_client, build_publisher,
}

module _ {C : Type 0} (client : PubSubClient C) (settings : Config) where
  -- The publisher that the settings ask for.
  abbrev pub Fits : AnyPublisher client → Type 0
  Fits (discarding p) = settings.publish_enabled ≡ false
  Fits (sending p) = (settings.publish_enabled ≡ true) × (p.project_id ≡ settings.project_id)

  pub publish-Fits :
      (channel : String) (payload : Payload) (key : String) (p : AnyPublisher client)
      → Fits p
      → Fits (publish client channel payload key p).1
  unfolding PubSub.publish
  publish-Fits channel payload key (discarding p) f = f
  publish-Fits channel payload key (sending p) f = ground (arith, f)

  -- The publisher that was built, or what making its client raised.
  abbrev pub Builds : Result C → Result (AnyPublisher client) → Type 0
  Builds new_client (ok p) = Fits p
  Builds new_client (raise e) = (settings.publish_enabled ≡ true) × (new_client ≡ raise e)

  with_client-Builds :
      (new_client : Result C)
      → settings.publish_enabled ≡ true
      → Builds new_client (with_client client settings new_client)
  unfolding new_pubsub
  with_client-Builds (ok c) enabled = (enabled, refl)
  with_client-Builds (raise e) enabled = (enabled, refl)

  pub build_publisher-Builds :
      (new_client : Result C) → Builds new_client (build_publisher client settings new_client)
  unfolding build_publisher
  build_publisher-Builds new_client = elim (Bool-cases settings.publish_enabled) [
    | inl enabled ↦ simp enabled (with_client-Builds new_client enabled)
    | inr disabled ↦ simp disabled refl
  ]

  -- After the flush: a discarding publisher is flushed, and Pub/Sub's client has stopped, with
  -- nothing done to it since.
  abbrev pub IsFlushed : AnyPublisher client → Type 0
  IsFlushed (discarding p) = (settings.publish_enabled ≡ false) × (p.flushed ≡ true)
  IsFlushed (sending p) =
      (settings.publish_enabled ≡ true)
      × (p.project_id ≡ settings.project_id)
      × ((c : C) × (client.stop c ≡ (ok tt, p.client_state)))

  abbrev pub StopRaises : Exception → AnyPublisher client → Type 0
  StopRaises e (discarding p) = ⊥
  StopRaises e (sending p) = (c : C) × (client.stop c ≡ (raise e, p.client_state))

  abbrev pub After : Result (Unit {0}) × AnyPublisher client → Type 0
  After (ok _, p) = IsFlushed p
  After (raise e, p) = StopRaises e p

  pub flush-After : (p : AnyPublisher client) → Fits p → After (flush client p)
  unfolding PubSub.flush
  flush-After (discarding p) f = (f, refl)
  flush-After (sending p) f = stopped_client (client.stop p.client_state) refl
    where
      stopped_client :
          (outcome : Result (Unit {0}) × C)
          → client.stop p.client_state ≡ outcome
          → After (flush client (sending p))
      stopped_client (ok done, c) e = rw e (f.0, f.1, (p.client_state, e))
      stopped_client (raise x, c) e = rw e (p.client_state, e)
