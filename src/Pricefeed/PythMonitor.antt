-- ===== src/Pricefeed/PythMonitor.antt =====
-- pricefeed/pyth_monitor.go: `PythPriceMonitor`. What the client of the Hermes API answers is an
-- argument.
pub mod Latest
use pricefeeding.Prelude.{ℕ, Bool, List, [], ◌∷◌, Option, none, some, or_else}
use pricefeeding.Prelude.Int.{ℤ}
use pricefeeding.Prelude.Key.{GoString, string_key}
use pricefeeding.Prelude.Dict.{Dict, get, put}
use pricefeeding.Pricefeed.PriceCache.{
  PriceCache, PriceError, add_feed, get_price, get_all_prices_by_source, ok, err,
}
use pricefeeding.Pricefeed.Sizes.{Estimators}
use pricefeeding.Pricefeed.Ticker.{Signal, start_ticker}
use pricefeeding.Pricefeed.Update.{update_price}
use pricefeeding.Strconv.{set_string}
use pricefeeding.Types.Morpher.{PythPrice, PriceInfo, chainlink, pyth, custom, source_pyth}

abbrev pub oracle_network_id_pyth : ℕ
oracle_network_id_pyth = 0

-- `pyth.PriceFeed`, with the fields that the monitor reads.
pub record PythFeed : Type 0 where
  pub id : GoString
  pub price : GoString
  pub conf : GoString
  pub expo : ℤ
  pub publish_time : ℤ
  pub slot : ℤ
  pub ema_price : GoString
  pub ema_conf : GoString

-- `last_saved` is that of the cache manager.
pub record PythPriceMonitor : Type 0 where
  pub cache : PriceCache
  pub last_saved : ℕ
  pub price_feeds : Dict GoString GoString
  pub immediate_mode : Bool

unfoldable pub add_pyth_feed : GoString → GoString → PythPriceMonitor → PythPriceMonitor
add_pyth_feed price_id symbol ppm = record ppm {
  price_feeds = put price_id symbol ppm.price_feeds;
  cache = add_feed oracle_network_id_pyth price_id source_pyth ppm.cache;
}

pub data PythResult : Type 0 where
  pyth_ok : PythPrice → PythResult
  not_cached : PriceError → PythResult
  not_pyth : PythResult

unfoldable pub as_pyth : PriceInfo → Option PythPrice
as_pyth (chainlink p) = none
as_pyth (pyth p) = some p
as_pyth (custom p) = none

unfoldable pub pyth_get_price : GoString → PythPriceMonitor → PythResult
unfolding as_pyth
pyth_get_price price_id ppm =
    elim (get_price oracle_network_id_pyth price_id source_pyth ppm.cache) [
      | err e ↦ not_cached e
      | ok info ↦ elim (as_pyth info) [ none ↦ not_pyth | some p ↦ pyth_ok p ]
    ]

pyth_prices : Dict GoString PythPrice → Dict GoString PriceInfo → Dict GoString PythPrice
unfolding as_pyth
pyth_prices results [] = results
pyth_prices results ((price_id, info) ∷ rest) =
    pyth_prices (elim (as_pyth info) [ none ↦ results | some p ↦ put price_id p results ]) rest

pub pyth_get_all_prices : PythPriceMonitor → Dict GoString PythPrice
unfolding pyth_prices
pyth_get_all_prices ppm =
    pyth_prices [] (get_all_prices_by_source oracle_network_id_pyth source_pyth ppm.cache)

-- The averages are set where their price is not empty.
ema_of : GoString → GoString → Option ℤ × Option ℤ
ema_of [] conf = (none, none)
ema_of (c ∷ s) conf = (set_string (c ∷ s), set_string conf)

-- `convertPythFeedToPriceData`
unfoldable pub convert_pyth_feed : ℕ → Dict GoString GoString → PythFeed → PythPrice
unfolding ema_of
convert_pyth_feed now price_feeds feed =
    let ema = ema_of feed.ema_price feed.ema_conf in
    record {
      id = feed.id;
      symbol = or_else [] (get feed.id price_feeds);
      price = set_string feed.price;
      confidence = set_string feed.conf;
      exponent = feed.expo;
      publish_time = feed.publish_time;
      slot = feed.slot;
      timestamp = now;
      network_id = oracle_network_id_pyth;
      ema = ema.0;
      ema_confidence = ema.1;
    }

-- The loop over the parsed feeds.
unfoldable pub store_feeds : Estimators → ℕ → List PythFeed → PythPriceMonitor → PythPriceMonitor
unfolding convert_pyth_feed
store_feeds estimators now [] ppm = ppm
store_feeds estimators now (feed ∷ feeds) ppm = store_feeds estimators now feeds (record ppm {
  cache =
      update_price estimators oracle_network_id_pyth feed.id source_pyth
        (pyth (convert_pyth_feed now ppm.price_feeds feed)) ppm.cache;
  last_saved = now;
})

pub data PythError : Type 0 where
  no_feeds no_updates : PythError

-- `fetchPriceData`: `client` gives the parsed feeds for the ids that it is asked for, or fails.
unfoldable pub fetch_pyth_prices :
    Estimators
    → ℕ
    → (Dict GoString GoString → Option (List PythFeed))
    → PythPriceMonitor
    → PythPriceMonitor × Option PythError
unfolding store_feeds
fetch_pyth_prices estimators now client ppm = elim ppm.price_feeds [
  | [] ↦ (ppm, some no_feeds)
  | feed ∷ feeds ↦ elim (client (feed ∷ feeds)) [
    | none ↦ (ppm, some no_updates)
    | some parsed ↦ (store_feeds estimators now parsed ppm, none)
  ]
]

pub pyth_set_immediate_mode : Bool → PythPriceMonitor → PythPriceMonitor
pyth_set_immediate_mode immediate ppm = record ppm { immediate_mode = immediate }

-- `Start`, given what the clock and the client give in each round; an error of a round is only logged.
pub pyth_start :
    Estimators
    → (ℕ → ℕ)
    → (ℕ → Dict GoString GoString → Option (List PythFeed))
    → List Signal
    → PythPriceMonitor
    → PythPriceMonitor
unfolding fetch_pyth_prices start_ticker
pyth_start estimators now client =
    start_ticker (λ round ppm. (fetch_pyth_prices estimators (now round) (client round) ppm).0)
