-- ===== src/Rpcscan/FeedManager.antt =====
-- rpcscan/pricefeed_config.go: `PriceFeedManager`. The fields of a feed that nothing reads are left out.
pub mod Approval
use pricefeeding.Prelude.{ℕ, List, [], ◌∷◌, ◌++◌, Option, none, some, eqb, if◌then◌else◌}
use pricefeeding.Prelude.Key.{GoString, bytes, nat_key, string_key}
use pricefeeding.Prelude.Dict.{Dict, get, put}
use pricefeeding.Registry.Js.{JsValue}
use pricefeeding.Rpcscan.Config.{PriceFeedInfo}
use pricefeeding.Rpcscan.NetworkConfig.{extra_networks, or_fallback}
use pricefeeding.Rpcscan.Types.{RpcConfig, NetworkConfiguration}
use pricefeeding.Strconv.{itoa}

pub record PriceFeedConfig : Type 0 where
  pub symbol : GoString
  pub proxy : GoString
  pub decimals : ℕ

pub record PriceFeedManager : Type 0 where
  pub crypto_feeds : Dict GoString PriceFeedConfig
  pub stock_feeds : Dict GoString PriceFeedConfig
  pub network_id : ℕ

pub new_price_feed_manager : ℕ → PriceFeedManager
new_price_feed_manager network_id = record {
  crypto_feeds = [];
  stock_feeds = [];
  network_id = network_id;
}

pub data LoadError : Type 0 where
  no_crypto_feeds no_stock_feeds : LoadError

-- `LoadConfig`, given the feeds of the two files, or `none` where a file cannot be loaded.
pub load_config :
    Option (Dict GoString PriceFeedConfig)
    → Option (Dict GoString PriceFeedConfig)
    → PriceFeedManager
    → PriceFeedManager × Option LoadError
load_config none stocks pfm = (pfm, some no_crypto_feeds)
load_config (some cryptos) none pfm = (record pfm { crypto_feeds = cryptos }, some no_stock_feeds)
load_config (some cryptos) (some stocks) pfm =
    (record pfm { crypto_feeds = cryptos; stock_feeds = stocks }, none)

feed_list : GoString → Dict GoString PriceFeedConfig → List PriceFeedInfo
feed_list network [] = []
feed_list network ((name, config) ∷ rest) =
    record {
      name = name;
      address = config.proxy;
      decimals = config.decimals;
      network = network;
      symbol = config.symbol;
    }
    ∷ feed_list network rest

pub get_crypto_feeds : PriceFeedManager → List PriceFeedInfo
unfolding feed_list
get_crypto_feeds pfm = feed_list (bytes "crypto") pfm.crypto_feeds

pub get_stock_feeds : PriceFeedManager → List PriceFeedInfo
unfolding feed_list
get_stock_feeds pfm = feed_list (bytes "stocks") pfm.stock_feeds

unfoldable pub get_all_feeds : PriceFeedManager → List PriceFeedInfo
unfolding feed_list
get_all_feeds pfm =
    feed_list (bytes "crypto") pfm.crypto_feeds ++ feed_list (bytes "stocks") pfm.stock_feeds

unfoldable pub get_feeds_for_network : PriceFeedManager → ℕ → List PriceFeedInfo
get_feeds_for_network pfm network_id =
    if eqb network_id pfm.network_id then get_all_feeds pfm else []

-- `feeds[name] = config.Proxy` for each feed.
unfoldable pub add_proxies :
    Dict GoString GoString → Dict GoString PriceFeedConfig → Dict GoString GoString
add_proxies feeds [] = feeds
add_proxies feeds ((name, config) ∷ rest) = add_proxies (put name config.proxy feeds) rest

unfoldable pub approval_feeds : PriceFeedManager → Dict GoString GoString
unfolding add_proxies
approval_feeds pfm = add_proxies (add_proxies [] pfm.crypto_feeds) pfm.stock_feeds

-- `createNetworkConfigFromFeeds`
unfoldable pub feeds_network : PriceFeedManager → RpcConfig
unfolding approval_feeds
feeds_network pfm = record {
  network_id = itoa pfm.network_id;
  name_std = bytes "Arbitrum Mainnet";
  name_coinr = bytes "ARB";
  wrapped_token = bytes "0x82aF49447D8a07e3bd95BD0d56f35241523fBab1";
  endpoints =
      bytes "https://arb1.arbitrum.io/rpc"
      ∷ bytes "https://arbitrum.publicnode.com"
      ∷ bytes "https://arbitrum-one.public.blastapi.io"
      ∷ [];
  approval_src = approval_feeds pfm;
}

-- The feeds of a network of extraRpcs.json: only that of the manager has any.
unfoldable pub feeds_of_network : PriceFeedManager → ℕ → Dict GoString GoString
unfolding approval_feeds
feeds_of_network pfm id = if eqb id pfm.network_id then approval_feeds pfm else []

-- The networks of `CreateNetworkConfig`; `none` for the file is the error that it cannot be read.
unfoldable pub manager_networks :
    PriceFeedManager → Option (Dict GoString (List JsValue)) → List RpcConfig
unfolding feeds_network feeds_of_network extra_networks or_fallback
manager_networks pfm none = feeds_network pfm ∷ []
manager_networks pfm (some file) =
    or_fallback (feeds_network pfm ∷ []) (extra_networks (feeds_of_network pfm) file)

abbrev pub manager_network_config :
    {C : Type 0} → PriceFeedManager → Option (Dict GoString (List JsValue)) → NetworkConfiguration C
manager_network_config pfm file = record { networks = manager_networks pfm file; client_use = [] }
