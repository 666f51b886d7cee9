-- ===== src/Publisher/PubSub.antt =====
-- publisher.py, `PubSubPublisher`
use crypto_market_platform.Base.{ℕ, ◌+◌, ◌≡◌, String, Option, none, some, List, [], ◌∷◌, arith}
use crypto_market_platform.Base.Result.{Exception, ok, raise}
use crypto_market_platform.Base.Exec.{Exec, ◌>>=◌, modify}
use crypto_market_platform.Publisher.{Payload, Publisher}

-- The Pub/Sub client: `topic_path`, and the calls that change its state. A publish returns a
-- future, or raises. (google-cloud-pubsub is not part of the repository.)
pub record PubSubClient (C : Type 0) : Type 1 where
  pub Future : Type 0
  pub topic_path : String → String → String
  pub publish : String → Payload → String → Exec C Future
  pub resume_publish : String → String → Exec C (Unit {0})
  pub stop : Exec C (Unit {0})

module _ {C : Type 0} (client : PubSubClient C) where
  -- A call whose callback is still to come: its future, channel and ordering key.
  abbrev pub Pending : Type 0
  Pending = client.Future × String × String

  pub record PubSubPublisher : Type 0 where
    pub client_state : C
    pub project_id : String
    pub topic_for : String → String
    pub published_total : ℕ
    pub errors_total : ℕ
    pub callbacks : List Pending

  -- `PubSubPublisher(project_id, topic_for)`, with the client that it makes.
  unfoldable pub new_pubsub : C → String → (String → String) → PubSubPublisher
  new_pubsub c project_id topic_for = record {
    client_state = c;
    project_id = project_id;
    topic_for = topic_for;
    published_total = 0;
    errors_total = 0;
    callbacks = [];
  }

  abbrev pub topic_path : PubSubPublisher → String → String
  topic_path p channel = client.topic_path p.project_id (p.topic_for channel)

  abbrev pub on_client : {A : Type 0} → (PubSubPublisher → Exec C A) → Exec PubSubPublisher A
  on_client call p = let (r, c) = call p p.client_state in (r, record p { client_state = c })

  unfoldable pub publish : String → Payload → String → Exec PubSubPublisher (Unit {0})
  publish channel payload ordering_key = do
    future ← on_client (λ p. client.publish (topic_path p channel) payload ordering_key)
    modify (λ p. record p {
      published_total = p.published_total + 1;
      callbacks = (future, channel, ordering_key) ∷ p.callbacks;
    })

  -- `_on_done`, with the exception of the future, if it has one.
  unfoldable pub on_done : Option Exception → String → String → Exec PubSubPublisher (Unit {0})
  on_done none channel ordering_key p = (ok tt, p)
  on_done (some exc) channel ordering_key p =
      on_client (λ q. client.resume_publish (topic_path q channel) ordering_key)
        (record p { errors_total = p.errors_total + 1 })

  unfoldable pub flush : Exec PubSubPublisher (Unit {0})
  flush = on_client (λ p. client.stop)

  abbrev pub pubsub : Publisher PubSubPublisher
  pubsub = record { publish = publish; flush = flush }

  -- A publish hands the client the topic of the channel and the ordering key, counts the message
  -- exactly when the client takes it, and touches no error count.
  pub publish_lem :
      (channel : String) (payload : Payload) (key : String) (p : PubSubPublisher)
      → let (r, p') = publish channel payload key p in
        let (sent, c) =
          client.publish
            (client.topic_path p.project_id (p.topic_for channel))
            payload
            key
            p.client_state in
        (p'.client_state ≡ c)
        × (p'.errors_total ≡ p.errors_total)
        × (p'.published_total
            ≡ elim sent [ ok _ ↦ p.published_total + 1 | raise _ ↦ p.published_total ])
  unfolding publish
  publish_lem channel payload key p = ground arith

  -- Whatever the callbacks report, each failure is counted once and resumes its ordering key on
  -- the topic of its channel, and a success changes nothing.
  pub on_done_lem :
      (outcome : Option Exception) (channel key : String) (p : PubSubPublisher)
      → let p' = (on_done outcome channel key p).1 in
        (p'.published_total ≡ p.published_total)
        × (p'.errors_total ≡ elim outcome [ none ↦ p.errors_total | some _ ↦ p.errors_total + 1 ])
        × (p'.client_state ≡ elim outcome [
          | none ↦ p.client_state
          | some _ ↦
              (client.resume_publish
                (client.topic_path p.project_id (p.topic_for channel))
                key
                p.client_state).1
        ])
  unfolding on_done
  on_done_lem none channel key p = ground arith
  on_done_lem (some exc) channel key p = ground arith
