-- ===== src/Tests/ConfigTests.antt =====
-- The configuration and the networks that are made of it.
use pricefeeding.Prelude.{ℕ, ◌≡◌, refl, false, List, [], ◌∷◌, none, some, arith, All}
use pricefeeding.Prelude.Key.{GoString, bytes, string_key}
use pricefeeding.Prelude.Dict.{Dict, get, Distinct}
use pricefeeding.Registry.Js.{JsValue, text, object, end_fields, ◌∶◌, ◌⨾◌}
use pricefeeding.Rpcscan.Config.{ExtendedConfig, no_port, validate_config, get_network_rpcs}
use pricefeeding.Rpcscan.Config.KnownRpcs.{get_network_rpcs-known}
use pricefeeding.Rpcscan.NetworkConfig.{create_network_config}
use pricefeeding.Rpcscan.NetworkConfig.Usable.{IsUsable, create_network_config-IsUsable}
use pricefeeding.Rpcscan.Config.Validate.{
  HasRequired, HasDefaults, validate_config-valid, validate_config-error,
}
use pricefeeding.Rpcscan.FeedManager.{PriceFeedConfig, PriceFeedManager, manager_networks}
use pricefeeding.Rpcscan.FeedManager.Approval.{CarriesFeeds, manager_networks-CarriesFeeds}

-- Every default is taken.
abbrev given : ExtendedConfig
given = record {
  port = 80;
  secret_hash = bytes "s";
  db_conn = bytes "db";
  db_conn_pool = 1;
  arbitrum_urls = bytes "arb" ∷ [];
  ethereum_urls = bytes "eth" ∷ [];
  monitoring = record {
    rpc_check_interval = 0;
    price_fetch_interval = 0;
    rpc_timeout = 0;
    max_concurrent_calls = 0;
  };
  price_feeds = [];
  cache = record { enabled = false; expiration = 0; max_size = 0 };
}

passes : (validate_config given).1 ≡ none
unfolding validate_config
passes = refl

validate_config-valid_example :
    HasRequired (validate_config given).0
    × HasDefaults (validate_config given).0
    × (validate_config (validate_config given).0 ≡ ((validate_config given).0, none))
validate_config-valid_example = validate_config-valid given passes

abbrev without_port : ExtendedConfig
without_port = record given { port = 0 }

fails_port : (validate_config without_port).1 ≡ some no_port
unfolding validate_config
fails_port = refl

validate_config-error_example :
    ((validate_config without_port).0 ≡ without_port) × ¬ HasRequired without_port
validate_config-error_example = validate_config-error without_port no_port fails_port

abbrev file : Dict GoString (List JsValue)
file =
    (bytes "1", text "https://a" ∷ object ("url" ∶ text "https://b" ⨾ end_fields) ∷ [])
    ∷ (bytes "x", text "https://c" ∷ [])
    ∷ []

create_network_config-IsUsable_example :
    All IsUsable (create_network_config {C = ℕ} given (some file)).networks
create_network_config-IsUsable_example = create_network_config-IsUsable ℕ given (some file)

get_network_rpcs-known_example : get_network_rpcs given 10 ≡ []
get_network_rpcs-known_example = get_network_rpcs-known given 10

abbrev feed_config : PriceFeedConfig
feed_config = record { symbol = bytes "BTC"; proxy = bytes "0xcd"; decimals = 8 }

abbrev manager : PriceFeedManager
manager = record {
  crypto_feeds = (bytes "btc", feed_config) ∷ [];
  stock_feeds = [];
  network_id = 1;
}

one_name : Distinct manager.crypto_feeds
unfolding get
one_name = (refl, tt)

manager_networks-CarriesFeeds_example :
    All (CarriesFeeds manager (bytes "btc")) (manager_networks manager (some file))
manager_networks-CarriesFeeds_example =
    manager_networks-CarriesFeeds manager (bytes "btc") one_name tt (omega arith) (some file)
