-- ===== src/Pricefeed/Update.antt =====
-- pricefeed/price_cache.go: `UpdatePrice`, and the methods in the old format with the `PriceData` of
-- pricefeed/legacy.go.
pub mod Invariant
pub mod Reads
pub mod Spec
pub mod BySource
pub mod Legacy
use pricefeeding.Prelude.{
  ℕ, zero, suc, List, [], ◌∷◌, ◌++◌, Option, none, some, or_else, if◌then◌else◌,
}
use pricefeeding.Prelude.Int.{ℤ, pos, negsuc}
use pricefeeding.Prelude.Key.{GoString, nat_key, string_key}
use pricefeeding.Prelude.Dict.{Dict, get, put}
use pricefeeding.Pricefeed.PriceCache.{
  PriceCache, Result, ok, err, not_chainlink, max_cache_size_bytes, make_prefixed_identifier,
  list_feed, get_price, get_all_prices_by_source, add_feed, new_price_cache,
}
use pricefeeding.Pricefeed.Prune.{estimate_size, prune}
use pricefeeding.Pricefeed.Sizes.{Estimators, lt64}
use pricefeeding.Types.Morpher.{
  ChainlinkPrice, PriceInfo, chainlink, pyth, custom, source_chainlink,
}

-- The price and the feed in their maps, before the size is looked at.
unfoldable pub store_price : ℕ → GoString → PriceInfo → PriceCache → PriceCache
store_price network_id prefixed price pc = record {
  prices = put network_id (put prefixed price (or_else [] (get network_id pc.prices))) pc.prices;
  feeds = list_feed network_id prefixed pc.feeds;
}

unfoldable pub update_price :
    Estimators → ℕ → GoString → GoString → PriceInfo → PriceCache → PriceCache
update_price estimators network_id identifier source price pc =
    let stored = store_price network_id (make_prefixed_identifier source identifier) price pc in
    if lt64 max_cache_size_bytes (estimate_size estimators stored)
    then prune estimators stored
    else stored

-- `PriceData` of legacy.go.
pub record PriceData : Type 0 where
  pub round_id : Option ℤ
  pub answer : Option ℤ
  pub exponent : ℤ
  pub started_at : Option ℤ
  pub updated_at : Option ℤ
  pub answered_in_round : Option ℤ
  pub timestamp : ℕ
  pub network_id : ℕ

unfoldable pub to_price_data : ChainlinkPrice → PriceData
to_price_data p = record {
  round_id = p.round_id;
  answer = p.answer;
  exponent = p.exponent;
  started_at = p.started_at;
  updated_at = p.updated_at;
  answered_in_round = p.answered_in_round;
  timestamp = p.timestamp;
  network_id = p.network_id;
}

-- An exponent of 0 counts as not set, and becomes -8.
unfoldable pub default_exponent : ℤ → ℤ
default_exponent (pos zero) = negsuc 7
default_exponent (pos (suc n)) = pos (suc n)
default_exponent (negsuc n) = negsuc n

unfoldable pub to_chainlink : GoString → PriceData → ChainlinkPrice
to_chainlink feed_address d = record {
  round_id = d.round_id;
  answer = d.answer;
  started_at = d.started_at;
  updated_at = d.updated_at;
  answered_in_round = d.answered_in_round;
  timestamp = d.timestamp;
  exponent = default_exponent d.exponent;
  network_id = d.network_id;
  feed_address = feed_address;
}

unfoldable pub add_feed_legacy : ℕ → GoString → PriceCache → PriceCache
add_feed_legacy network_id feed_address = add_feed network_id feed_address source_chainlink

unfoldable pub as_chainlink : PriceInfo → Option ChainlinkPrice
as_chainlink (chainlink p) = some p
as_chainlink (pyth p) = none
as_chainlink (custom p) = none

-- The type assertion on what was read.
pub legacy_result : Result PriceInfo → Result PriceData
unfolding as_chainlink
legacy_result (err e) = err e
legacy_result (ok price) = elim (as_chainlink price) [
  | none ↦ err not_chainlink
  | some p ↦ ok (to_price_data p)
]

unfoldable pub get_price_legacy : ℕ → GoString → PriceCache → Result PriceData
unfolding legacy_result
get_price_legacy network_id feed_address pc =
    legacy_result (get_price network_id feed_address source_chainlink pc)

-- The loop over the Chainlink prices.
legacy_prices : Dict GoString PriceData → Dict GoString PriceInfo → Dict GoString PriceData
unfolding as_chainlink
legacy_prices result [] = result
legacy_prices result ((identifier, price) ∷ rest) =
    legacy_prices
      (elim (as_chainlink price) [
        | none ↦ result
        | some p ↦ put identifier (to_price_data p) result
      ])
      rest

unfoldable pub get_all_prices_legacy : ℕ → PriceCache → Dict GoString PriceData
unfolding legacy_prices
get_all_prices_legacy network_id pc =
    legacy_prices [] (get_all_prices_by_source network_id source_chainlink pc)

unfoldable pub update_price_legacy : Estimators → ℕ → GoString → PriceData → PriceCache → PriceCache
update_price_legacy estimators network_id feed_address d =
    update_price estimators network_id feed_address source_chainlink
      (chainlink (to_chainlink feed_address d))
