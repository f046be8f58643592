-- ===== src/Tests/ChainlinkTests.antt =====
-- The reading of a feed and the monitor of the Chainlink feeds.
use pricefeeding.Prelude.{
  ℕ, sym, ap, subst, ◌∙◌, ◌+◌, ◌≡◌, ◌≢◌, refl, true, false, List, [], ◌∷◌, none, some, eqb,
  if◌then◌else◌,
}
use pricefeeding.Prelude.Int.{pos}
use pricefeeding.Prelude.Key.{GoString, bytes, string_key}
use pricefeeding.Prelude.Dict.{get, put}
use pricefeeding.Chainlink.Client.{
  RpcSwitcher, Contract, RoundData, RoundAnswer, round, failure, FetchOptions, out_of_fuel, price,
  failed, has_prefix, has_infix, is_error_code_32097, make_price, fetch_price_data_with_retry,
  fetch_price_data,
}
use pricefeeding.Chainlink.Client.Fetch.{
  ReadFrom, with_default_retries, fetch_terminates, fetch_reads, fetch_untouched,
}
use pricefeeding.Pricefeed.PriceCache.{
  PriceCache, ok, err, not_chainlink, new_price_cache, get_price, list_feed, cut_prefix, add_feed,
  contains, with_network, make_prefixed_identifier,
}
use pricefeeding.Pricefeed.Update.Invariant.{
  WellFormed, new_price_cache-WellFormed, add_feed-WellFormed,
}
use pricefeeding.Pricefeed.Update.Reads.{found, get_price-add_feed}
use pricefeeding.Pricefeed.Monitor.{
  ClPriceMonitor, World, cl_get_price, cl_start, update_all_prices, run_tasks, trim_prefix,
  update_feed,
}
use pricefeeding.Pricefeed.Monitor.Consistent.{IsChainlinkConsistent, cl_start-consistent}
use pricefeeding.Pricefeed.Monitor.Reads.{monitor_of, cl_get_price-started}
use pricefeeding.Pricefeed.Prune.{estimate_size}
use pricefeeding.Pricefeed.Sizes.{estimate_price_info_size}
use pricefeeding.Pricefeed.Update.{as_chainlink, store_price, update_price}
use pricefeeding.Pricefeed.Ticker.{Signal, tick, stop, ticker_loop, start_ticker}
use pricefeeding.Strconv.Separator.{NoColon}
use pricefeeding.Types.Morpher.{ChainlinkPrice, PriceInfo, source_pyth, source_chainlink}

abbrev answered : RoundData
answered = record {
  round_id = some (pos 1);
  answer = some (pos 5);
  started_at = none;
  updated_at = none;
  answered_in_round = none;
}

-- The first attempt is reverted, the second one answers.
abbrev reverts_once : Contract ℕ
reverts_once = record {
  binds = λ attempt client addr. true;
  latest_round_data = λ attempt client addr.
      if eqb attempt 1 then failure (bytes "execution reverted") else round answered;
  decimals = λ attempt client addr. none;
  now = λ attempt. 100;
}

-- A switcher that counts its switches.
abbrev counter : RpcSwitcher ℕ ℕ
counter = record { switch = λ id s. (s + 1, true); best_client = λ id s. (s, some 7) }

abbrev opts : FetchOptions ℕ ℕ
opts = record {
  network_id = 1;
  feed_address = bytes "0xab";
  client = some 3;
  rpc_switcher = some counter;
  max_retries = 0;
}

program : Unit {0}
unfolding fetch_price_data fetch_price_data_with_retry make_price is_error_code_32097 has_infix
    has_prefix
program = tt

abbrev fetched : ChainlinkPrice
fetched = make_price reverts_once opts 7 2 answered

fetches : fetch_price_data reverts_once opts 0 ≡ (1, price fetched)
unfolding program
fetches = refl

fetch_terminates_example : (fetch_price_data reverts_once opts 0).1 ≢ failed out_of_fuel
fetch_terminates_example = fetch_terminates reverts_once opts 0

fetched_price : (fetch_price_data reverts_once opts 0).1 ≡ price fetched
unfolding program
fetched_price = refl

fetch_reads_example :
    ReadFrom reverts_once (with_default_retries reverts_once opts) (some 3) fetched
fetch_reads_example = fetch_reads reverts_once opts 0 fetched fetched_price

-- A contract whose calls time out.
abbrev times_out : Contract ℕ
times_out = record reverts_once {
  latest_round_data = λ attempt client addr. failure (bytes "time");
}

text_of : RoundAnswer → GoString
text_of (round r) = []
text_of (failure text) = text

other_error :
    (client : ℕ) (text : GoString)
    → some 3 ≡ some client
    → failure (bytes "time") ≡ failure text
    → is_error_code_32097 text ≡ false
unfolding program text_of
other_error client text own e = subst (λ t. is_error_code_32097 t ≡ false) (ap text_of e) refl

fetch_untouched_example : (fetch_price_data times_out opts 0).0 ≡ 0
fetch_untouched_example = fetch_untouched times_out opts 0 other_error

abbrev empty : PriceCache
empty = new_price_cache

abbrev one_feed : PriceCache
one_feed = add_feed 1 (bytes "0xab") source_chainlink empty

one_feed-WellFormed : WellFormed one_feed
one_feed-WellFormed =
    add_feed-WellFormed 1 (bytes "0xab") source_chainlink empty new_price_cache-WellFormed

no_price :
    (n : ℕ) (addr : GoString) (info : PriceInfo)
    → found (get_price n addr source_chainlink empty) ≢ some info
unfolding get_price get
no_price n addr info = λ e. cc

one_feed-IsChainlinkConsistent : IsChainlinkConsistent one_feed
one_feed-IsChainlinkConsistent n addr info g = absurd (
    no_price n addr info (
      sym (get_price-add_feed 1 n (bytes "0xab") source_chainlink addr source_chainlink empty) ∙ g))

abbrev monitor : ClPriceMonitor ℕ
monitor = record {
  cache = one_feed;
  clients = (1, 3) ∷ [];
  network_config = none;
  feed_symbols = [];
  immediate_mode = false;
}

abbrev world : ℕ → GoString → World ℕ
world n feed = record {
  net = record {
    rpc_dial = λ ep. true;
    client_version = λ ep. true;
    elapsed = λ ep. 30;
    eth_dial = λ ep. some 5;
  };
  contract = record reverts_once { latest_round_data = λ attempt client addr. round answered };
  now = 100;
  estimators = [];
}

abbrev in_order : List (ℕ × GoString) → List (ℕ × GoString)
in_order tasks = tasks

pyth-NoColon : NoColon source_pyth
pyth-NoColon = (refl, (refl, (refl, (refl, tt))))

pyth-chainlink : source_pyth ≢ source_chainlink
pyth-chainlink = λ e. cc

abbrev signals : List Signal
signals = tick ∷ stop ∷ tick ∷ []

cl_start-consistent_example :
    WellFormed (cl_start (λ round. world) (λ round. in_order) signals monitor).cache
    × IsChainlinkConsistent (cl_start (λ round. world) (λ round. in_order) signals monitor).cache
    × (found (
          get_price 1
            (bytes "cd")
            source_pyth
            (cl_start (λ round. world) (λ round. in_order) signals monitor).cache)
        ≡ found (get_price 1 (bytes "cd") source_pyth monitor.cache))
cl_start-consistent_example =
    cl_start-consistent (λ round. world) (λ round. in_order) signals monitor 1 (bytes "cd")
      source_pyth one_feed-WellFormed one_feed-IsChainlinkConsistent pyth-NoColon pyth-chainlink

-- A first round and two ticks.
abbrev after_run : ClPriceMonitor ℕ
after_run = cl_start (λ round. world) (λ round. in_order) (tick ∷ tick ∷ []) monitor

-- The monitor of one feed, which is read after a first round and two ticks.
cl_get_price-started_example :
    (cl_get_price 1 (bytes "0xab") (
        cl_start
          (λ round. world)
          (λ round. in_order)
          (tick ∷ tick ∷ [])
          (monitor_of false ((1, 3) ∷ []) none ((1, bytes "0xab") ∷ [])))
      ≢ err not_chainlink)
    × ((p : ChainlinkPrice)
        → cl_get_price 1 (bytes "0xab") (
            cl_start
              (λ round. world)
              (λ round. in_order)
              (tick ∷ tick ∷ [])
              (monitor_of false ((1, 3) ∷ []) none ((1, bytes "0xab") ∷ [])))
          ≡ ok p
        → (p.feed_address ≡ bytes "0xab") × (p.network_id ≡ 1))
cl_get_price-started_example =
    cl_get_price-started false ((1, 3) ∷ []) none ((1, bytes "0xab") ∷ []) (λ round. world)
      (λ round. in_order) (tick ∷ tick ∷ []) 1 (bytes "0xab")

reading : Unit {0}
unfolding program get put get_price add_feed with_network list_feed contains update_price
    store_price estimate_size estimate_price_info_size make_prefixed_identifier cut_prefix run_tasks
    update_all_prices cl_start ticker_loop start_ticker cl_get_price trim_prefix update_feed
    as_chainlink
reading = tt

after_run_reads : cl_get_price 1 (bytes "0xab") after_run ≡ ok (record fetched { timestamp = 100 })
unfolding reading
after_run_reads = refl
