-- ===== src/Main.antt =====
-- main.go: the choice of the service, and what the two services do with their parts. Printing, signals
-- and the goroutines that only print are left out.
pub mod WriteBack
use pricefeeding.Prelude.{
  if◌then◌else◌, ℕ, zero, suc, ◌+◌, ◌&&◌, ◌||◌, Bool, true, false, List, [], ◌∷◌, ◌++◌, Option,
  none, some, leb,
}
use mathlib.Core.Bool.{not}
use pricefeeding.Prelude.Key.{GoString, bytes, nat_key, string_key, string_beq}
use pricefeeding.Prelude.Dict.{Dict, get, put}
use pricefeeding.Pricefeed.PriceCache.{PriceCache, add_feed, new_price_cache}
use pricefeeding.Pricefeed.Sizes.{Estimators}
use pricefeeding.Pricefeed.Update.{update_price}
use pricefeeding.Pricefeed.Monitor.{
  ClPriceMonitor, add_client, add_price_feed_with_symbol, cl_get_all_prices, new_cl_price_monitor,
  set_network_config,
}
use pricefeeding.Pricefeed.PythMonitor.{PythPriceMonitor, add_pyth_feed}
use pricefeeding.Rpcscan.Config.{PriceFeedInfo}
use pricefeeding.Rpcscan.FeedManager.{PriceFeedManager, get_feeds_for_network}
use pricefeeding.Rpcscan.Types.{EthereumClient, NetworkConfiguration}
use pricefeeding.Rpcscan.RpcSwitcher.{get_all_clients}
use pricefeeding.Types.Morpher.{ChainlinkPrice, chainlink, source_chainlink}

pub data Service : Type 0 where
  usage both_chosen chainlink_service pyth_service : Service

-- `main`, on the two flags.
unfoldable pub service_of : Bool → Bool → Service
service_of chainlink_flag pyth_flag =
    if not chainlink_flag && not pyth_flag
    then usage
    else if chainlink_flag && pyth_flag
    then both_chosen
    else if chainlink_flag
    then chainlink_service
    else pyth_service

-- The wait for clients, given how many there are at each look, with fuel: `false` is the fatal error
-- after `max_retries` looks. The fuel is the number of looks that are left before it.
abbrev pub max_retries : ℕ
max_retries = 10

unfoldable pub await_clients : (ℕ → ℕ) → ℕ → ℕ → Bool
await_clients count zero retry_count = false
await_clients count (suc fuel) retry_count =
    let rest = await_clients count fuel (retry_count + 1) in
    if leb 1 (count retry_count)
    then true
    else if leb max_retries (retry_count + 1)
    then false
    else rest

module _ {C : Type 0} where
  -- The feeds of a network, unless their address is missing.
  add_feeds : ℕ → List PriceFeedInfo → ClPriceMonitor C → ClPriceMonitor C
  add_feeds network_id [] pm = pm
  add_feeds network_id (feed ∷ feeds) pm = add_feeds network_id feeds (
      if string_beq feed.address [] || string_beq feed.address (bytes "0x")
      then pm
      else let added = add_price_feed_with_symbol network_id feed.address feed.symbol pm in
        record added { cache = add_feed network_id feed.address source_chainlink added.cache })

  -- The loop over the clients.
  pub add_clients :
      PriceFeedManager → Dict ℕ (EthereumClient C) → ClPriceMonitor C → ClPriceMonitor C
  unfolding add_feeds
  add_clients pfm [] pm = pm
  add_clients pfm ((network_id, client) ∷ clients) pm = add_clients pfm clients (
      add_feeds network_id (get_feeds_for_network pfm network_id)
        (add_client network_id client.eth_client pm))

  -- The monitor as `chainlink_start` starts it.
  pub chainlink_monitor : PriceFeedManager → NetworkConfiguration C → ClPriceMonitor C
  unfolding add_clients
  chainlink_monitor pfm conf =
      add_clients pfm (get_all_clients conf)
        (set_network_config (some conf) (new_cl_price_monitor new_price_cache true))

  -- A round of the goroutine that refreshes the clients.
  pub refresh_clients : Dict ℕ (EthereumClient C) → ClPriceMonitor C → ClPriceMonitor C
  refresh_clients [] pm = pm
  refresh_clients ((network_id, client) ∷ clients) pm =
      refresh_clients clients (add_client network_id client.eth_client pm)

-- The goroutine that updates the cache, for one network: the prices that `GetAllPrices` gave it are
-- written back one by one.
unfoldable pub write_back : Estimators → ℕ → Dict GoString ChainlinkPrice → PriceCache → PriceCache
write_back estimators network_id [] pc = pc
write_back estimators network_id ((feed_address, price) ∷ prices) pc =
    write_back estimators network_id prices
      (update_price estimators network_id feed_address source_chainlink (chainlink price) pc)

-- `PythTicker`, with the fields that are read.
pub record PythTicker : Type 0 where
  pub symbol : GoString
  pub price_id : GoString

-- The loop of `loadPythTickers`.
unfoldable pub load_pyth_tickers :
    Dict GoString PythTicker → Dict GoString GoString → Dict GoString GoString
load_pyth_tickers [] price_feeds = price_feeds
load_pyth_tickers ((name, ticker) ∷ config) price_feeds = load_pyth_tickers config (
    if not (string_beq ticker.price_id []) && not (string_beq ticker.symbol [])
    then put ticker.price_id ticker.symbol price_feeds
    else price_feeds)

-- The feeds of `pyth_start` where the tickers cannot be read.
abbrev pub default_price_feeds : Dict GoString GoString
default_price_feeds =
    (bytes "e62df6c8b4a85fe1a67db44dc12de5db330f7ac66b72dc658afedf0f4a415b43", bytes "BTC/USD")
    ∷ (bytes "ff61491a931112ddf1bd8147cd1b641375f79f5825126d665480874634fd0ace", bytes "ETH/USD")
    ∷ (bytes "47a156470288850a440df3a6ce85a55917b813a19bb5b31128a33a986566a362", bytes "TSLAX/USD")
    ∷ (bytes "4244d07890e4610f46bbde67de8f43a4bf8b569eebe904f136b469f148503b7f", bytes "NVDAX/USD")
    ∷ (
      bytes "8132e3eb1dac3e56939a16ff83848d194345f6688bff97eb1c8bd462d558802b",
      bytes "VIRTUAL/USD",
    )
    ∷ (
      bytes "58cd29ef0e714c5affc44f269b2c1899a52da4169d7acc147b9da692e6953608",
      bytes "FARTCOIN/USD",
    )
    ∷ (bytes "4279e31cc369bbcc2faf022b382b080e32a8e689ff20fbc530d2a603eb6cd98b", bytes "HYPE/USD")
    ∷ (bytes "752f22bbcdd24a1c5e0b0149e0196c076b8e1f088cdb60b6d7d7cd41787e7631", bytes "HYPER/USD")
    ∷ (bytes "ec5d399846a9209f3fe5881d70aae9268c94339ff9817e8d18ff19fa05eea1c8", bytes "XRP/USD")
    ∷ (bytes "78d185a741d07edb3412b09008b7c5cfb9bbbd7d568bf00ba737b456ba171501", bytes "UNI/USD")
    ∷ []

-- `loadPythTickers` and the fall back, on what is read of the file.
pub pyth_price_feeds : Option (Dict GoString PythTicker) → Dict GoString GoString
unfolding load_pyth_tickers
pyth_price_feeds none = default_price_feeds
pyth_price_feeds (some config) = load_pyth_tickers config []

-- The loop of `pyth_start` over the feeds.
pub add_pyth_feeds : Dict GoString GoString → PythPriceMonitor → PythPriceMonitor
add_pyth_feeds [] monitor = monitor
add_pyth_feeds ((price_id, symbol) ∷ rest) monitor =
    add_pyth_feeds rest (add_pyth_feed price_id symbol monitor)
