-- ===== src/Tests/ServiceTests.antt =====
-- Runs of the services: the configuration of a vault, the writes of several goroutines, the clients and the
-- prices that are written back.
use pricefeeding.Prelude.{
  ℕ, ◌+◌, ◌≡◌, refl, true, false, List, [], ◌∷◌, none, some, eqb, if◌then◌else◌,
}
use pricefeeding.Prelude.Int.{pos}
use pricefeeding.Prelude.Key.{bytes, string_key}
use pricefeeding.Prelude.Dict.{get, put}
use pricefeeding.Main.{
  chainlink_service, both_chosen, usage, service_of, await_clients, write_back, load_pyth_tickers,
}
use pricefeeding.Main.WriteBack.{write_back-stale}
use pricefeeding.Pricefeed.CacheManager.{
  new_price_cache_manager, manager_update_price, manager_get_price,
}
use pricefeeding.Pricefeed.CacheManager.Interleaved.{
  Update, Part, write, pruning, run_parts, run_updates, run_parts-run_updates,
}
use pricefeeding.Pricefeed.Monitor.{ClPriceMonitor, cl_get_all_prices, cl_prices}
use pricefeeding.Pricefeed.PriceCache.{
  PriceCache, ok, new_price_cache, get_price, get_all_prices_by_source, make_prefixed_identifier,
  list_feed, with_network, contains, cut_prefix,
}
use pricefeeding.Pricefeed.Prune.{prune, estimate_size}
use pricefeeding.Pricefeed.Sizes.{estimate_price_info_size}
use pricefeeding.Pricefeed.Update.{update_price, store_price, as_chainlink}
use pricefeeding.Pricefeed.Update.Invariant.{
  WellFormed, new_price_cache-WellFormed, update_price-WellFormed,
}
use pricefeeding.Pricefeed.Update.Reads.{found}
use pricefeeding.Shared.{
  Configuration, Files, err, file_not_found, no_db_conn, is_zero, is_empty, check_fields,
  read_config, load_yaml_conf, load_yaml_conf-nil,
}
use pricefeeding.Types.Morpher.{ChainlinkPrice, chainlink, source_chainlink}

reading : Unit {0}
unfolding get put read_config check_fields is_zero is_empty load_yaml_conf run_parts run_updates
    update_price store_price prune estimate_size estimate_price_info_size make_prefixed_identifier
    get_price list_feed with_network contains cut_prefix get_all_prices_by_source cl_prices
    cl_get_all_prices as_chainlink write_back service_of await_clients load_pyth_tickers
    manager_update_price manager_get_price new_price_cache_manager
reading = tt

abbrev complete : Configuration
complete = record {
  port = pos 80;
  secret_hash = bytes "s";
  db_conn = bytes "d";
  db_conn_pool = pos 4;
  arbitrum_urls = bytes "a" ∷ [];
  ethereum_urls = bytes "e" ∷ [];
}

-- The file appears at the second try.
abbrev files : ℕ → Files
files n = record {
  is_dir = λ path. false;
  read_file = λ path. if eqb n 1 then some (bytes "yaml") else none;
  unmarshal = λ content. some complete;
}

not_there : read_config (files 0) (bytes "v.yaml") ≡ err file_not_found
unfolding reading
not_there = refl

incomplete : check_fields (record complete { db_conn = [] }) ≡ err no_db_conn
unfolding reading
incomplete = refl

second_try : read_config (files 1) (bytes "v.yaml") ≡ pricefeeding.Shared.ok complete
unfolding reading
second_try = refl

load_yaml_conf-nil_example : load_yaml_conf files (bytes "v.yaml") (1 + 1) ≡ some none
load_yaml_conf-nil_example = load_yaml_conf-nil files (bytes "v.yaml") 1 complete second_try

abbrev price : ℕ → ℕ → ChainlinkPrice
price value time = record {
  round_id = none;
  answer = some (pos value);
  started_at = none;
  updated_at = none;
  answered_in_round = none;
  timestamp = time;
  exponent = pos 8;
  network_id = 1;
  feed_address = bytes "0xab";
}

abbrev update : ℕ → Update
update value = record {
  network_id = 1;
  identifier = bytes "0xab";
  source = source_chainlink;
  price = chainlink (price value value);
}

-- Two goroutines write before either of them prunes.
abbrev parts : List Part
parts = write (update 1) ∷ write (update 2) ∷ pruning ∷ pruning ∷ []

run_parts-run_updates_example :
    run_parts [] parts new_price_cache ≡ run_updates [] (update 1 ∷ update 2 ∷ []) new_price_cache
run_parts-run_updates_example =
    run_parts-run_updates [] parts new_price_cache new_price_cache-WellFormed

-- The cache when the goroutine reads it, and when it writes.
abbrev older : PriceCache
older = update_price [] 1 (bytes "0xab") source_chainlink (chainlink (price 1 100)) new_price_cache

abbrev newer : PriceCache
newer = update_price [] 1 (bytes "0xab") source_chainlink (chainlink (price 2 200)) older

abbrev monitor : ClPriceMonitor ℕ
monitor = record {
  cache = older;
  clients = [];
  network_config = none;
  feed_symbols = [];
  immediate_mode = false;
}

newer-WellFormed : WellFormed newer
newer-WellFormed =
    update_price-WellFormed [] 1 (bytes "0xab") source_chainlink (chainlink (price 2 200)) older (
      update_price-WellFormed [] 1 (bytes "0xab") source_chainlink (chainlink (price 1 100))
        new_price_cache new_price_cache-WellFormed)

reads_older : get (bytes "0xab") (cl_get_all_prices 1 monitor) ≡ some (price 1 100)
unfolding reading
reads_older = refl

write_back-stale_example :
    found (
      get_price 1
        (bytes "0xab")
        source_chainlink
        (write_back [] 1 (cl_get_all_prices 1 monitor) newer))
    ≡ some (chainlink (price 1 100))
write_back-stale_example =
    write_back-stale [] 1 monitor newer (bytes "0xab") (price 1 100) newer-WellFormed reads_older

-- The manager reads what was written through it.
manager_reads :
    manager_get_price 1 (bytes "0xab") source_chainlink (
      manager_update_price [] 1
        (bytes "0xab")
        source_chainlink
        (chainlink (price 2 200))
        (new_price_cache_manager 7))
    ≡ ok (chainlink (price 2 200))
unfolding reading
manager_reads = refl

-- A client is there at the tenth look, or the service gives up.
client_in_time : await_clients (λ n. if eqb n 9 then 1 else 0) 10 0 ≡ true
unfolding reading
client_in_time = refl

client_too_late : await_clients (λ n. if eqb n 10 then 1 else 0) 11 0 ≡ false
unfolding reading
client_too_late = refl

one_service :
    (service_of true false ≡ chainlink_service)
    × (service_of true true ≡ both_chosen)
    × (service_of false false ≡ usage)
unfolding reading
one_service = (refl, refl, refl)

-- A ticker without an id is left out.
tickers :
    load_pyth_tickers
      ((bytes "a", record { symbol = bytes "A"; price_id = bytes "1" })
        ∷ (bytes "b", record { symbol = bytes "B"; price_id = [] })
        ∷ [])
      []
    ≡ (bytes "1", bytes "A") ∷ []
unfolding reading
tickers = refl
