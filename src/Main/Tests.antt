-- ===== src/Main/Tests.antt =====
-- Starts of the consumer, with a Pub/Sub client that counts its publishes.
use crypto_market_platform.Base.{ℕ, ◌+◌, ◌≡◌, refl, false, none, [], ◌∷◌}
use crypto_market_platform.Base.Dict.{get}
use crypto_market_platform.Base.Result.{ok, raise, connection_error}
use crypto_market_platform.SortedContainers.Reference.{reference}
use crypto_market_platform.Config.{Environ, config, env_list, is_true, float_of, int_setting}
use crypto_market_platform.Config.Items.{is_space, strip, split}
use crypto_market_platform.Config.{stripped}
use crypto_market_platform.Decimal.Text.{decimal}
use crypto_market_platform.Publisher.PubSub.{PubSubClient}
use crypto_market_platform.Consumer.{Attempt}
use crypto_market_platform.Main.{World, stopped, main, main_with}
use crypto_market_platform.Main.Drain.{Outcome, main-Exits}

abbrev client : PubSubClient ℕ
client = record {
  Future = Unit {0};
  topic_path = λ project topic. topic;
  publish = λ topic payload key c. (ok tt, c + 1);
  resume_publish = λ topic key c. (ok tt, c);
  stop = λ c. (ok tt, c);
}

abbrev refused : Attempt
refused = record {
  opened = λ subscription. raise connection_error;
  incoming = [];
  stalled = false;
  signalled = false;
  signalled_asleep = false;
  random = 250;
}

abbrev world : World client reference
world = record {
  new_client = ok 0;
  write = λ snapshot. ok tt;
  attempts = refused ∷ refused ∷ [];
  wakes = stopped 1000 ∷ [];
  now = 2000;
}

abbrev local : Environ
local = ("PUBLISH_ENABLED", "false") ∷ ("METRICS_ENABLED", "false") ∷ []

no_project : main client reference world [] ≡ (ok 2, none)
unfolding main main_with config get env_list is_true float_of int_setting is_space stripped strip
    split decimal
no_project = refl

main-Exits_example :
    Outcome client reference (ok 0) (config local) (main client reference world local)
main-Exits_example = main-Exits client reference world local
