-- ===== src/Tests/PythTests.antt =====
-- The monitor of the Pyth feeds.
use pricefeeding.Prelude.{◌≡◌, ◌⊎◌, refl, false, List, [], ◌∷◌, Option, none, some}
use pricefeeding.Prelude.Int.{pos, negsuc}
use pricefeeding.Prelude.Key.{GoString, bytes, string_key}
use pricefeeding.Prelude.Dict.{Dict, get, put}
use pricefeeding.Pricefeed.PriceCache.{
  new_price_cache, get_price, list_feed, contains, make_prefixed_identifier,
}
use pricefeeding.Pricefeed.Prune.{estimate_size}
use pricefeeding.Pricefeed.PythMonitor.{
  PythFeed, PythPriceMonitor, PythError, pyth_ok, as_pyth, convert_pyth_feed, store_feeds,
  fetch_pyth_prices, pyth_get_price,
}
use pricefeeding.Pricefeed.PythMonitor.Latest.{read_after, fetch_pyth_prices-reads}
use pricefeeding.Pricefeed.Sizes.{estimate_price_info_size}
use pricefeeding.Pricefeed.Update.{store_price, update_price}
use pricefeeding.Pricefeed.Update.Invariant.{WellFormed, new_price_cache-WellFormed}
use pricefeeding.Pricefeed.Update.Reads.{found}
use pricefeeding.Strconv.{set_string}
use pricefeeding.Strconv.Separator.{NoColon}
use pricefeeding.Types.Morpher.{source_pyth}

abbrev btc : GoString → PythFeed
btc price = record {
  id = bytes "e62d";
  price = price;
  conf = bytes "12";
  expo = negsuc 7;
  publish_time = pos 90;
  slot = pos 4;
  ema_price = [];
  ema_conf = [];
}

abbrev hermes : Dict GoString GoString → Option (List PythFeed)
hermes ids = some (btc (bytes "500") ∷ btc (bytes "-7") ∷ [])

abbrev monitor : PythPriceMonitor
monitor = record {
  cache = new_price_cache;
  last_saved = 0;
  price_feeds = (bytes "e62d", bytes "BTC") ∷ [];
  immediate_mode = false;
}

pyth-NoColon : NoColon source_pyth
pyth-NoColon = (refl, (refl, (refl, (refl, tt))))

fetch_pyth_prices-reads_example :
    ((e : PythError) × (fetch_pyth_prices [] 100 hermes monitor ≡ (monitor, some e)))
    ⊎ ((parsed : List PythFeed) × (hermes monitor.price_feeds ≡ some parsed)
        × WellFormed (fetch_pyth_prices [] 100 hermes monitor).0.cache
        × (found (
              get_price 0
                (bytes "e62d")
                source_pyth
                (fetch_pyth_prices [] 100 hermes monitor).0.cache)
            ≡ read_after 100 monitor.price_feeds parsed 0 source_pyth
                (bytes "e62d")
                (found (get_price 0 (bytes "e62d") source_pyth monitor.cache))))
fetch_pyth_prices-reads_example =
    fetch_pyth_prices-reads [] 100 hermes monitor 0 source_pyth (bytes "e62d")
      new_price_cache-WellFormed pyth-NoColon

-- The last feed with the id wins.
pyth_reads :
    pyth_get_price (bytes "e62d") (fetch_pyth_prices [] 100 hermes monitor).0
    ≡ pyth_ok (record {
      id = bytes "e62d";
      symbol = bytes "BTC";
      price = some (negsuc 6);
      confidence = some (pos 12);
      exponent = negsuc 7;
      publish_time = pos 90;
      slot = pos 4;
      timestamp = 100;
      network_id = 0;
      ema = none;
      ema_confidence = none;
    })
unfolding get put get_price list_feed contains make_prefixed_identifier estimate_size as_pyth
    convert_pyth_feed store_feeds fetch_pyth_prices pyth_get_price estimate_price_info_size
    store_price update_price set_string
pyth_reads = refl
