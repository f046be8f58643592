-- ===== src/Rpcscan/Config.antt =====
-- rpcscan/config.go: the configuration, its validation and its feeds. An `int` is kept as its 64 bits.
pub mod Validate
pub mod KnownRpcs
use mathlib.Core.Bool.{not}
use pricefeeding.Prelude.{
  ℕ, ◌*◌, ◌%◌, ◌^◌, Bool, true, false, List, [], ◌∷◌, ◌++◌, Option, none, some, String, map, eqb,
  or_else, if◌then◌else◌,
}
use pricefeeding.Prelude.Key.{GoString, bytes, nat_key, string_key, string_beq, ◌==◌}
use pricefeeding.Prelude.Dict.{Dict, get, put}

pub record MonitoringConfig : Type 0 where
  pub rpc_check_interval : ℕ
  pub price_fetch_interval : ℕ
  pub rpc_timeout : ℕ
  pub max_concurrent_calls : ℕ

pub record CacheConfig : Type 0 where
  pub enabled : Bool
  pub expiration : ℕ
  pub max_size : ℕ

pub record FeedConfig : Type 0 where
  pub name : GoString
  pub address : GoString
  pub decimals : ℕ

pub record NetworkFeeds : Type 0 where
  pub chain_id : ℕ
  pub feeds : List FeedConfig

-- `ExtendedConfig`, with the fields of `shared.Configuration` that rpcscan reads.
pub record ExtendedConfig : Type 0 where
  pub port : ℕ
  pub secret_hash : GoString
  pub db_conn : GoString
  pub db_conn_pool : ℕ
  pub arbitrum_urls : List GoString
  pub ethereum_urls : List GoString
  pub monitoring : MonitoringConfig
  pub price_feeds : Dict GoString NetworkFeeds
  pub cache : CacheConfig

pub data ConfigError : Type 0 where
  no_port no_secret_hash no_db_conn no_db_conn_pool no_arbitrum_rpcs no_ethereum_rpcs : ConfigError

-- `if n == 0 { n = d }`
unfoldable pub default_to : ℕ → ℕ → ℕ
default_to d n = if eqb n 0 then d else n

unfoldable pub set_defaults : ExtendedConfig → ExtendedConfig
unfolding default_to
set_defaults c = record c {
  monitoring = record {
    rpc_check_interval = default_to 30 c.monitoring.rpc_check_interval;
    price_fetch_interval = default_to 30 c.monitoring.price_fetch_interval;
    rpc_timeout = default_to 10 c.monitoring.rpc_timeout;
    max_concurrent_calls = default_to 10 c.monitoring.max_concurrent_calls;
  };
  cache = record {
    enabled = if not c.cache.enabled then true else c.cache.enabled;
    expiration = default_to 300 c.cache.expiration;
    max_size = default_to 1000 c.cache.max_size;
  };
}

unfoldable pub is_empty : {A : Type 0} → List A → Bool
is_empty [] = true
is_empty (x ∷ xs) = false

-- `validateConfig`: the configuration after it, and its error.
unfoldable pub validate_config : ExtendedConfig → ExtendedConfig × Option ConfigError
unfolding set_defaults is_empty
validate_config c =
    if eqb c.port 0
    then (c, some no_port)
    else if is_empty c.secret_hash
    then (c, some no_secret_hash)
    else if is_empty c.db_conn
    then (c, some no_db_conn)
    else if eqb c.db_conn_pool 0
    then (c, some no_db_conn_pool)
    else if is_empty c.arbitrum_urls
    then (c, some no_arbitrum_rpcs)
    else if is_empty c.ethereum_urls
    then (c, some no_ethereum_rpcs)
    else (set_defaults c, none)

-- `PriceFeedInfo`
pub record PriceFeedInfo : Type 0 where
  pub name : GoString
  pub address : GoString
  pub decimals : ℕ
  pub network : GoString
  pub symbol : GoString

feed_infos : GoString → List FeedConfig → List PriceFeedInfo
feed_infos network [] = []
feed_infos network (feed ∷ rest) =
    record {
      name = feed.name;
      address = feed.address;
      decimals = feed.decimals;
      network = network;
      symbol = [];
    }
    ∷ feed_infos network rest

-- The loop of `GetPriceFeedsForNetwork`, up to the first network with the id.
feeds_for : ℕ → Dict GoString NetworkFeeds → List PriceFeedInfo
unfolding feed_infos
feeds_for network_id [] = []
feeds_for network_id ((name, network) ∷ rest) =
    if eqb network.chain_id (network_id % 2 ^ 64)
    then feed_infos name network.feeds
    else feeds_for network_id rest

unfoldable pub get_price_feeds_for_network : ExtendedConfig → ℕ → List PriceFeedInfo
unfolding feeds_for
get_price_feeds_for_network c network_id = feeds_for network_id c.price_feeds

-- `feeds[feed.Name] = feed.Address` for each feed.
unfoldable pub name_feeds : Dict GoString GoString → List PriceFeedInfo → Dict GoString GoString
name_feeds feeds [] = feeds
name_feeds feeds (feed ∷ rest) = name_feeds (put feed.name feed.address feeds) rest

pub rpcs_for : ℕ → ExtendedConfig → Dict GoString NetworkFeeds → List GoString
rpcs_for network_id c [] = []
rpcs_for network_id c ((name, network) ∷ rest) =
    let others = rpcs_for network_id c rest in
    if eqb network.chain_id (network_id % 2 ^ 64)
    then (if eqb network_id 1
        then c.ethereum_urls
        else if eqb network_id 42161
        then c.arbitrum_urls
        else others)
    else others

-- `GetNetworkRPCs`
unfoldable pub get_network_rpcs : ExtendedConfig → ℕ → List GoString
unfolding rpcs_for
get_network_rpcs c network_id =
    if eqb network_id 1
    then c.ethereum_urls
    else if eqb network_id 42161
    then c.arbitrum_urls
    else rpcs_for network_id c c.price_feeds
