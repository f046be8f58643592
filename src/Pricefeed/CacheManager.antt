-- ===== src/Pricefeed/CacheManager.antt =====
-- pricefeed/price_cache.go, pricefeed/legacy.go: `PriceCacheManager`, whose calls go on to its cache; and
-- the interleaving of the writes and the pruning of several calls of `UpdatePrice`.
pub mod Interleaved
use pricefeeding.Prelude.{ℕ, ◌+◌, List, [], ◌∷◌, length}
use pricefeeding.Prelude.Key.{GoString}
use pricefeeding.Prelude.Dict.{Dict}
use pricefeeding.Pricefeed.PriceCache.{
  PriceCache, Result, new_price_cache, add_feed, get_price, get_all_prices,
  get_all_prices_by_source,
}
use pricefeeding.Pricefeed.Prune.{estimate_size, prune}
use pricefeeding.Pricefeed.Sizes.{Estimators}
use pricefeeding.Pricefeed.Update.{
  PriceData, update_price, update_price_legacy, get_price_legacy, get_all_prices_legacy,
  add_feed_legacy,
}
use pricefeeding.Types.Morpher.{PriceInfo}

pub record PriceCacheManager : Type 0 where
  pub cache : PriceCache
  pub last_saved : ℕ

unfoldable pub new_price_cache_manager : ℕ → PriceCacheManager
new_price_cache_manager now = record { cache = new_price_cache; last_saved = now }

unfoldable pub manager_update_price :
    Estimators → ℕ → GoString → GoString → PriceInfo → PriceCacheManager → PriceCacheManager
manager_update_price estimators network_id identifier source price pcm = record pcm {
  cache = update_price estimators network_id identifier source price pcm.cache;
}

unfoldable pub manager_get_price : ℕ → GoString → GoString → PriceCacheManager → Result PriceInfo
manager_get_price network_id identifier source pcm =
    get_price network_id identifier source pcm.cache

pub manager_get_all_prices : ℕ → PriceCacheManager → Dict GoString PriceInfo
manager_get_all_prices network_id pcm = get_all_prices network_id pcm.cache

pub manager_get_all_prices_by_source : ℕ → GoString → PriceCacheManager → Dict GoString PriceInfo
manager_get_all_prices_by_source network_id source pcm =
    get_all_prices_by_source network_id source pcm.cache

pub manager_add_feed : ℕ → GoString → GoString → PriceCacheManager → PriceCacheManager
manager_add_feed network_id identifier source pcm = record pcm {
  cache = add_feed network_id identifier source pcm.cache;
}

pub update_last_saved : ℕ → PriceCacheManager → PriceCacheManager
update_last_saved now pcm = record pcm { last_saved = now }

pub get_last_saved : PriceCacheManager → ℕ
get_last_saved pcm = pcm.last_saved

-- The size as an int64.
pub get_cache_size : Estimators → PriceCacheManager → ℕ
get_cache_size estimators pcm = estimate_size estimators pcm.cache

pub prune_cache : Estimators → PriceCacheManager → PriceCacheManager
prune_cache estimators pcm = record pcm { cache = prune estimators pcm.cache }

pub get_cache : PriceCacheManager → PriceCache
get_cache pcm = pcm.cache

-- The number of feeds that `PrintStatus` prints.
pub total_feeds : Dict ℕ (List GoString) → ℕ
total_feeds [] = 0
total_feeds ((network_id, feeds) ∷ rest) = length feeds + total_feeds rest

pub manager_update_price_legacy :
    Estimators → ℕ → GoString → PriceData → PriceCacheManager → PriceCacheManager
manager_update_price_legacy estimators network_id feed_address d pcm = record pcm {
  cache = update_price_legacy estimators network_id feed_address d pcm.cache;
}

pub manager_get_price_legacy : ℕ → GoString → PriceCacheManager → Result PriceData
manager_get_price_legacy network_id feed_address pcm =
    get_price_legacy network_id feed_address pcm.cache

pub manager_get_all_prices_legacy : ℕ → PriceCacheManager → Dict GoString PriceData
manager_get_all_prices_legacy network_id pcm = get_all_prices_legacy network_id pcm.cache

pub manager_add_feed_legacy : ℕ → GoString → PriceCacheManager → PriceCacheManager
manager_add_feed_legacy network_id feed_address pcm = record pcm {
  cache = add_feed_legacy network_id feed_address pcm.cache;
}
