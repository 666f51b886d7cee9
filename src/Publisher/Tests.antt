-- ===== src/Publisher/Tests.antt =====
-- The publisher on a client that records its calls and refuses one topic.
use crypto_market_platform.Base.{◌≡◌, refl, String, some, List, [], ◌∷◌, str_eq, if◌then◌else◌}
use crypto_market_platform.Base.Result.{ok, raise, connection_error}
use crypto_market_platform.Publisher.{Payload, text}
use crypto_market_platform.Publisher.PubSub.{PubSubClient, PubSubPublisher, publish, on_done}

abbrev client : PubSubClient (List String)
client = record {
  Future = Unit;
  topic_path = λ project topic. topic;
  publish = λ topic payload key calls.
      if str_eq topic "market.raw.l2"
      then (raise connection_error, calls)
      else (ok tt, topic ∷ calls);
  resume_publish = λ topic key calls. (ok tt, key ∷ calls);
  stop = λ calls. (ok tt, calls);
}

abbrev start : PubSubPublisher client
start = record {
  client_state = [];
  project_id = "market";
  topic_for = λ channel. if str_eq channel "trades" then "market.raw.trades" else "market.raw.l2";
  published_total = 0;
  errors_total = 0;
  callbacks = [];
}

abbrev payload : Payload
payload = ("product_id", text "BTC-USD") ∷ []

-- A failed publish is counted, and its ordering key resumed.
resumed :
    (on_done client (some connection_error) "trades" "BTC-USD" start).1
    ≡ record start { errors_total = 1; client_state = "BTC-USD" ∷ [] }
unfolding on_done
resumed = refl

refused : (publish client "l2" payload "BTC-USD" start).0 ≡ raise connection_error
unfolding publish
refused = refl
