-- ===== src/Pricefeed/Monitor.antt =====
-- pricefeed/chainlink_monitor.go: `CLPriceMonitor`. A goroutine of `updateAllPrices` is taken as run
-- through; the goroutines come in any order.
pub mod Update
pub mod Consistent
pub mod Reads
use mathlib.Core.Option
use pricefeeding.Prelude.{
  if◌then◌else◌, ℕ, Bool, true, false, List, [], ◌∷◌, ◌++◌, Option, none, some, map, or_else,
  is_some,
}
use pricefeeding.Prelude.Key.{GoString, bytes, nat_key, string_key}
use pricefeeding.Prelude.Dict.{Dict, get, put}
use pricefeeding.Chainlink.Client.{
  RpcSwitcher, Contract, FetchOptions, Fetched, price, failed, fetch_price_data,
}
use pricefeeding.Pricefeed.PriceCache.{
  PriceCache, Result, ok, err, not_chainlink, new_price_cache, add_feed, cut_prefix, get_price,
  get_all_prices_by_source,
}
use pricefeeding.Pricefeed.Sizes.{Estimators}
use pricefeeding.Pricefeed.Ticker.{Signal, start_ticker}
use pricefeeding.Pricefeed.Update.{as_chainlink, update_price}
use pricefeeding.Rpcscan.RpcSwitcher.{
  Network, SwitchError, get_best_client, switch_rpc_endpoint_immediately,
}
use pricefeeding.Rpcscan.Types.{EthereumClient, NetworkConfiguration}
use pricefeeding.Types.Morpher.{ChainlinkPrice, PriceInfo, chainlink, source_chainlink}

pub record ClPriceMonitor (C : Type 0) : Type 0 where
  pub cache : PriceCache
  pub clients : Dict ℕ C
  pub network_config : Option (NetworkConfiguration C)
  pub feed_symbols : Dict ℕ (Dict GoString GoString)
  pub immediate_mode : Bool

-- What a goroutine meets outside: the endpoints, the contracts, the clock and the estimators.
pub record World (C : Type 0) : Type 0 where
  pub net : Network C
  pub contract : Contract C
  pub now : ℕ
  pub estimators : Estimators

-- strings.TrimPrefix
unfoldable pub trim_prefix : GoString → GoString → GoString
trim_prefix p s = or_else s (cut_prefix p s)

unfoldable pub cl_price : Result PriceInfo → Result ChainlinkPrice
cl_price (err e) = err e
cl_price (ok info) = elim (as_chainlink info) [ none ↦ err not_chainlink | some p ↦ ok p ]

unfoldable pub cl_prices :
    Dict GoString ChainlinkPrice → Dict GoString PriceInfo → Dict GoString ChainlinkPrice
cl_prices result [] = result
cl_prices result ((identifier, info) ∷ rest) =
    cl_prices (elim (as_chainlink info) [ none ↦ result | some p ↦ put identifier p result ]) rest

no_error : Option SwitchError → Bool
no_error none = true
no_error (some e) = false

module _ {C : Type 0} where
  unfoldable pub new_cl_price_monitor : PriceCache → Bool → ClPriceMonitor C
  new_cl_price_monitor cache immediate = record {
    cache = cache;
    clients = [];
    network_config = none;
    feed_symbols = [];
    immediate_mode = immediate;
  }

  -- `AddClient`, and `UpdateClient` after a switch.
  unfoldable pub add_client : ℕ → C → ClPriceMonitor C → ClPriceMonitor C
  add_client network_id client pm = record pm { clients = put network_id client pm.clients }

  unfoldable pub add_price_feed : ℕ → GoString → ClPriceMonitor C → ClPriceMonitor C
  add_price_feed network_id feed_address pm = record pm {
    cache = add_feed network_id feed_address source_chainlink pm.cache;
  }

  pub add_price_feed_with_symbol : ℕ → GoString → GoString → ClPriceMonitor C → ClPriceMonitor C
  unfolding add_price_feed
  add_price_feed_with_symbol network_id feed_address symbol pm =
      let symbols = put feed_address symbol (or_else [] (get network_id pm.feed_symbols)) in
      record (add_price_feed network_id feed_address pm) {
        feed_symbols = put network_id symbols pm.feed_symbols;
      }

  unfoldable pub cl_get_price : ℕ → GoString → ClPriceMonitor C → Result ChainlinkPrice
  unfolding cl_price
  cl_get_price network_id feed_address pm =
      cl_price (get_price network_id feed_address source_chainlink pm.cache)

  unfoldable pub cl_get_all_prices : ℕ → ClPriceMonitor C → Dict GoString ChainlinkPrice
  unfolding cl_prices
  cl_get_all_prices network_id pm =
      cl_prices [] (get_all_prices_by_source network_id source_chainlink pm.cache)

  pub get_feed_symbol : ℕ → GoString → ClPriceMonitor C → GoString
  get_feed_symbol network_id feed_address pm = elim (get network_id pm.feed_symbols) [
    | none ↦ bytes "Unknown"
    | some symbols ↦ or_else (bytes "Unknown") (get feed_address symbols)
  ]

  -- `rpcSwitcherAdapter`: it is made only where there is a network configuration.
  unfoldable pub switch_adapted : World C → ℕ → ClPriceMonitor C → ClPriceMonitor C × Bool
  unfolding no_error
  switch_adapted w id pm = elim pm.network_config [
    | none ↦ (pm, false)
    | some conf ↦
        let result = switch_rpc_endpoint_immediately w.net w.now id conf in
        (record pm { network_config = some result.0 }, no_error result.1)
  ]

  unfoldable pub best_client_adapted : ℕ → ClPriceMonitor C → ClPriceMonitor C × Option C
  unfolding add_client
  best_client_adapted id pm = elim pm.network_config [
    | none ↦ (pm, none)
    | some conf ↦ elim (get_best_client conf id) [
      | none ↦ (pm, none)
      | some client ↦ (add_client id client.eth_client pm, some client.eth_client)
    ]
  ]

  abbrev pub adapter : World C → RpcSwitcher C (ClPriceMonitor C)
  adapter w = record { switch = switch_adapted w; best_client = best_client_adapted }

  abbrev pub fetch_options :
      World C → ℕ → GoString → C → ClPriceMonitor C → FetchOptions C (ClPriceMonitor C)
  fetch_options w network_id feed_address client pm = record {
    network_id = network_id;
    feed_address = feed_address;
    client = some client;
    rpc_switcher = Option.map (λ conf. adapter w) pm.network_config;
    max_retries = 1;
  }

  -- `none` is the error that the network has no client.
  unfoldable pub fetch_feed :
      World C → ℕ → GoString → ClPriceMonitor C → ClPriceMonitor C × Option Fetched
  fetch_feed w network_id feed_address pm = elim (get network_id pm.clients) [
    | none ↦ (pm, none)
    | some client ↦
        let result =
          fetch_price_data w.contract (fetch_options w network_id feed_address client pm) pm in
        (result.0, some result.1)
  ]

  -- What was fetched goes to the cache.
  unfoldable pub store_fetched :
      World C → ℕ → GoString → ClPriceMonitor C × Option Fetched → ClPriceMonitor C
  store_fetched w network_id feed_address (pm, none) = pm
  store_fetched w network_id feed_address (pm, some (failed e)) = pm
  store_fetched w network_id feed_address (pm, some (price p)) = record pm {
    cache =
        update_price w.estimators network_id feed_address source_chainlink (chainlink p) pm.cache;
  }

  -- The goroutine of a feed.
  unfoldable pub update_feed : World C → ℕ → GoString → ClPriceMonitor C → ClPriceMonitor C
  unfolding fetch_feed store_fetched trim_prefix
  update_feed w network_id prefixed pm =
      let feed_address = trim_prefix (source_chainlink ++ bytes ":") prefixed in
      store_fetched w network_id feed_address (fetch_feed w network_id feed_address pm)

  -- The feeds of the networks that have a client, as they are when `updateAllPrices` begins.
  pub feed_tasks : Dict ℕ C → Dict ℕ (List GoString) → List (ℕ × GoString)
  feed_tasks clients [] = []
  feed_tasks clients ((network_id, feeds) ∷ rest) =
      let tasks = feed_tasks clients rest in
      if is_some (get network_id clients)
      then map (λ prefixed. (network_id, prefixed)) feeds ++ tasks
      else tasks

  unfoldable pub run_tasks :
      (ℕ → GoString → World C) → List (ℕ × GoString) → ClPriceMonitor C → ClPriceMonitor C
  unfolding update_feed
  run_tasks world [] pm = pm
  run_tasks world ((network_id, prefixed) ∷ rest) pm =
      run_tasks world rest (update_feed (world network_id prefixed) network_id prefixed pm)

  -- `updateAllPrices`, given the order in which the goroutines come.
  unfoldable pub update_all_prices :
      (ℕ → GoString → World C)
      → (List (ℕ × GoString) → List (ℕ × GoString))
      → ClPriceMonitor C
      → ClPriceMonitor C
  unfolding feed_tasks run_tasks
  update_all_prices world order pm =
      run_tasks world (order (feed_tasks pm.clients pm.cache.feeds)) pm

  pub set_network_config : Option (NetworkConfiguration C) → ClPriceMonitor C → ClPriceMonitor C
  set_network_config conf pm = record pm { network_config = conf }

  pub cl_set_immediate_mode : Bool → ClPriceMonitor C → ClPriceMonitor C
  cl_set_immediate_mode immediate pm = record pm { immediate_mode = immediate }

  -- `Start`, given what each round meets and the order of its goroutines.
  unfoldable pub cl_start :
      (ℕ → ℕ → GoString → World C)
      → (ℕ → List (ℕ × GoString) → List (ℕ × GoString))
      → List Signal
      → ClPriceMonitor C
      → ClPriceMonitor C
  unfolding update_all_prices start_ticker
  cl_start world order = start_ticker (λ round. update_all_prices (world round) (order round))
