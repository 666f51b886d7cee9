-- ===== src/Config/Tests.antt =====
-- Runs of the settings.
use crypto_market_platform.Base.Int.{negsuc}
use crypto_market_platform.Base.Result.{ok, raise, value_error}
use crypto_market_platform.Base.{◌≡◌, refl, true, [], ◌∷◌}
use crypto_market_platform.Base.Dict
use crypto_market_platform.Config.Items.{is_space, strip}
use crypto_market_platform.Config.Products.{Clean, join, env_list-join}
use crypto_market_platform.Config.{env_list, default_products, is_true, int_setting}

two :
    env_list (("PRODUCTS", " BTC-USD, ,ETH-USD ") ∷ []) "PRODUCTS" default_products
    ≡ "BTC-USD" ∷ "ETH-USD" ∷ []
unfolding env_list Dict.get is_space
two = refl

blank : env_list (("PRODUCTS", " , ") ∷ []) "PRODUCTS" default_products ≡ default_products
unfolding env_list Dict.get is_space
blank = refl

capitals : is_true "True" ≡ true
unfolding is_true
capitals = refl

btc-Clean : Clean "BTC-USD"
unfolding strip is_space
btc-Clean = record { filled = refl; whole = refl; trimmed = refl }

eth-Clean : Clean "ETH-USD"
unfolding strip is_space
eth-Clean = record { filled = refl; whole = refl; trimmed = refl }

env_list-join_example :
    env_list
      (Dict.put "PRODUCTS" (join ("BTC-USD" ∷ "ETH-USD" ∷ [])) [])
      "PRODUCTS"
      default_products
    ≡ "BTC-USD" ∷ "ETH-USD" ∷ []
env_list-join_example =
    env_list-join "BTC-USD" ("ETH-USD" ∷ []) default_products [] "PRODUCTS"
      (btc-Clean, (eth-Clean, tt))

-- What `int` takes beside bare digits, and what it does not.
signed_setting : int_setting " -1_000 " ≡ ok (negsuc 999)
unfolding int_setting is_space
signed_setting = refl

doubled_underscore : int_setting "1__0" ≡ raise value_error
unfolding int_setting is_space
doubled_underscore = refl
