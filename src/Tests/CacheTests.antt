-- ===== src/Tests/CacheTests.antt =====
-- The price cache, the sizes and the conversion to satoshi.
use pricefeeding.Prelude.{ℕ, ◌*◌, ◌+◌, ◌^◌, ◌≡◌, ◌≢◌, refl, List, [], ◌∷◌, none, some, arith}
use pricefeeding.Prelude.Int.{pos, negsuc}
use pricefeeding.Prelude.Key.{bytes, string_key}
use pricefeeding.Prelude.Dict.{get, put}
use pricefeeding.Pricefeed.PriceCache.{
  PriceCache, ok, err, no_data, no_price_data, new_price_cache, make_prefixed_identifier, contains,
  with_network, list_feed, add_feed, get_price, get_all_prices_by_source, cut_prefix,
  collect_by_prefix,
}
use pricefeeding.Pricefeed.Prune.{estimate_size, prune}
use pricefeeding.Pricefeed.Prune.NoEffect.{prune-same}
use pricefeeding.Pricefeed.Sizes.{Estimators, estimate_price_info_size}
use pricefeeding.Pricefeed.Update.{
  PriceData, store_price, update_price, get_price_legacy, update_price_legacy,
}
use pricefeeding.Pricefeed.Update.BySource.{get-by_source}
use pricefeeding.Pricefeed.Update.Invariant.{WellFormed, new_price_cache-WellFormed, feeds_of}
use pricefeeding.Pricefeed.Update.Legacy.{legacy_round_trip}
use pricefeeding.Pricefeed.Update.Reads.{found, in_known_network, get_price-update_price}
use pricefeeding.Pricefeed.Update.Spec.{
  Call, feed, update, run, spec_run, run-WellFormed, run_refines_spec,
}
use pricefeeding.Strconv.Separator.{NoColon}
use pricefeeding.Types.Morpher.{ChainlinkPrice, chainlink, source_chainlink, source_pyth, type_of}
use pricefeeding.Types.Morpher.Satoshi.{chainlink_in_satoshi, satoshi_ignores_negative_exponent}

abbrev link_price : ℕ → ChainlinkPrice
link_price n = record {
  round_id = some (pos 1);
  answer = some (pos n);
  started_at = none;
  updated_at = none;
  answered_in_round = none;
  timestamp = n;
  exponent = negsuc 7;
  network_id = 1;
  feed_address = bytes "0xab";
}

abbrev calls : List Call
calls =
    feed 1 (bytes "0xab") source_chainlink
    ∷ update [] 1 (bytes "0xab") source_chainlink (chainlink (link_price 5))
    ∷ update [] 1 (bytes "0xab") source_chainlink (chainlink (link_price 7))
    ∷ []

abbrev filled : PriceCache
filled = run calls new_price_cache

filled-WellFormed : WellFormed filled
filled-WellFormed = run-WellFormed calls new_price_cache new_price_cache-WellFormed

chainlink-NoColon : NoColon source_chainlink
chainlink-NoColon = (refl, (refl, (refl, (refl, (refl, (refl, (refl, (refl, (refl, tt)))))))))

pyth-NoColon : NoColon source_pyth
pyth-NoColon = (refl, (refl, (refl, (refl, tt))))

program : Unit {0}
unfolding run get put list_feed with_network add_feed update_price store_price
    make_prefixed_identifier contains get_price spec_run estimate_size estimate_price_info_size
    collect_by_prefix get_all_prices_by_source cut_prefix type_of
program = tt

filled_reads :
    (get_price 1 (bytes "0xab") source_chainlink filled ≡ ok (chainlink (link_price 7)))
    × (get_price 1 (bytes "0xab") source_pyth filled ≡ err no_price_data)
    × (get_price 2 (bytes "0xab") source_chainlink filled ≡ err no_data)
unfolding program
filled_reads = (refl, refl, refl)

by_source :
    get_all_prices_by_source 1 source_chainlink filled
    ≡ (bytes "0xab", chainlink (link_price 7)) ∷ []
unfolding program
by_source = refl

filled_feeds : feeds_of 1 filled ≡ bytes "chainlink:0xab" ∷ []
unfolding program
filled_feeds = refl

run_refines_spec_example :
    found (get_price 1 (bytes "0xab") source_chainlink (run calls new_price_cache))
    ≡ some (chainlink (link_price 7))
unfolding spec_run
run_refines_spec_example =
    run_refines_spec calls 1 (bytes "0xab") source_chainlink
      (tt, (chainlink-NoColon, (chainlink-NoColon, tt))) chainlink-NoColon

run-WellFormed_example : WellFormed (run calls new_price_cache)
run-WellFormed_example = run-WellFormed calls new_price_cache new_price_cache-WellFormed

-- With an estimator that gives a price 20 MB the cache is over its limit.
abbrev huge : Estimators
huge = (0, λ price. 20 * 1024 * 1024) ∷ []

prune-same_example : prune huge filled ≡ filled
prune-same_example = prune-same huge filled filled-WellFormed.is_map

huge_size : estimate_size huge filled ≡ 20971580
unfolding program
huge_size = refl

-- The price is that of another feed of the network, which is there before.
get_price-update_price_example :
    get_price 1
      (bytes "0xab")
      source_chainlink
      (update_price huge 1 (bytes "cd") source_pyth (chainlink (link_price 9)) filled)
    ≡ in_known_network (get_price 1 (bytes "0xab") source_chainlink filled)
unfolding make_prefixed_identifier
get_price-update_price_example =
    get_price-update_price huge 1 1 (bytes "cd") source_pyth (bytes "0xab") source_chainlink
      (chainlink (link_price 9)) filled filled-WellFormed

-- On an empty cache the error of another feed changes.
error_before : get_price 1 (bytes "0xab") source_chainlink new_price_cache ≡ err no_data
unfolding program get_price
error_before = refl

error_after :
    get_price 1
      (bytes "0xab")
      source_chainlink
      (update_price [] 1 (bytes "cd") source_pyth (chainlink (link_price 9)) new_price_cache)
    ≡ err no_price_data
unfolding program get_price
error_after = refl

get-by_source_example :
    get (bytes "0xab") (get_all_prices_by_source 1 source_chainlink filled)
    ≡ found (get_price 1 (bytes "0xab") source_chainlink filled)
get-by_source_example = get-by_source 1 source_chainlink (bytes "0xab") filled filled-WellFormed

abbrev old_data : PriceData
old_data = record {
  round_id = some (pos 3);
  answer = some (pos 11);
  exponent = pos 0;
  started_at = none;
  updated_at = none;
  answered_in_round = none;
  timestamp = 9;
  network_id = 1;
}

legacy_round_trip_example :
    get_price_legacy 1 (bytes "0xcd") (update_price_legacy huge 1 (bytes "0xcd") old_data filled)
    ≡ ok (record old_data { exponent = negsuc 7 })
legacy_round_trip_example =
    legacy_round_trip huge 1 (bytes "0xcd") old_data filled filled-WellFormed

-- A price of 50 with the exponent -8 of Chainlink, and the scale 10 ^ 8.
satoshi_example :
    (r : ℕ) × (chainlink_in_satoshi (10 ^ 8) (link_price 5000000000) ≡ some (pos r))
    × (r ≡ 5000000000 * 10 ^ 8)
    × (r * 10 ^ (7 + 1) ≢ 5000000000 * 10 ^ 8)
satoshi_example =
    satoshi_ignores_negative_exponent (10 ^ 8) 5000000000 7 (link_price 5000000000) (omega arith)
      (omega arith) refl refl
