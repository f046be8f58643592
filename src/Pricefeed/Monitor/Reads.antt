-- ===== src/Pricefeed/Monitor/Reads.antt =====
-- pricefeed/chainlink_monitor.go: what `GetPrice` returns after a run of a new monitor.
use pricefeeding.Prelude.{ℕ, ◌≡◌, ◌≢◌, refl, sym, ◌∙◌, Bool, List, [], ◌∷◌, Option, some}
use pricefeeding.Prelude.Key.{GoString, nat_key}
use pricefeeding.Prelude.Dict.{Dict, get}
use pricefeeding.Pricefeed.PriceCache.{ok, err, not_chainlink, new_price_cache, get_price}
use pricefeeding.Pricefeed.Ticker.{Signal}
use pricefeeding.Pricefeed.Update.Invariant.{
  WellFormed, new_price_cache-WellFormed, add_feed-WellFormed,
}
use pricefeeding.Pricefeed.Update.Reads.{found, get_price-add_feed}
use pricefeeding.Pricefeed.Monitor.{
  ClPriceMonitor, World, new_cl_price_monitor, add_price_feed, cl_start, cl_get_price,
}
use pricefeeding.Pricefeed.Monitor.Consistent.{
  IsChainlinkConsistent, cl_start-consistent, cl_get_price-consistent,
}
use pricefeeding.Rpcscan.Types.{NetworkConfiguration}
use pricefeeding.Strconv.Separator.{NoColon}
use pricefeeding.Types.Morpher.{ChainlinkPrice, PriceInfo, source_chainlink, source_pyth}

no_price :
    (n : ℕ) (addr : GoString) (info : PriceInfo)
    → found (get_price n addr source_chainlink new_price_cache) ≢ some info
unfolding get_price get
no_price n addr info = λ e. cc

pyth-NoColon : NoColon source_pyth
pyth-NoColon = (refl, (refl, (refl, (refl, tt))))

pyth-chainlink : source_pyth ≢ source_chainlink
pyth-chainlink = λ e. cc

module _ {C : Type 0} where
  -- A monitor with the calls of `AddPriceFeed` for some feeds.
  abbrev pub with_feeds : List (ℕ × GoString) → ClPriceMonitor C → ClPriceMonitor C
  with_feeds [] pm = pm
  with_feeds ((n, addr) ∷ feeds) pm = with_feeds feeds (add_price_feed n addr pm)

  record Good (pm : ClPriceMonitor C) : Type 0 where
    well_formed : WellFormed pm.cache
    consistent : IsChainlinkConsistent pm.cache

  with_feeds-Good :
      (feeds : List (ℕ × GoString)) (pm : ClPriceMonitor C) → Good pm → Good (with_feeds feeds pm)
  unfolding add_price_feed
  with_feeds-Good [] pm g = g
  with_feeds-Good ((n, addr) ∷ feeds) pm g =
      with_feeds-Good feeds (add_price_feed n addr pm) (record {
        well_formed = add_feed-WellFormed n addr source_chainlink pm.cache g.well_formed;
        consistent = λ m other info e. g.consistent m other info (
            sym (get_price-add_feed n m addr source_chainlink other source_chainlink pm.cache) ∙ e);
      })

  -- A new monitor on an empty cache, with its clients, its network configuration and its feeds.
  abbrev pub monitor_of :
      Bool → Dict ℕ C → Option (NetworkConfiguration C) → List (ℕ × GoString) → ClPriceMonitor C
  monitor_of immediate clients conf feeds =
      with_feeds feeds (record (new_cl_price_monitor new_price_cache immediate) {
        clients = clients;
        network_config = conf;
      })

  -- A new monitor is given clients and feeds and started. Whatever the contracts and endpoints answer, in
  -- whatever order the goroutines of each round come, and whatever ticks come: its `GetPrice` never
  -- fails because the price is of another kind, and a price that it returns is that of the network and
  -- the feed which were asked for.
  pub cl_get_price-started :
      (immediate : Bool) (clients : Dict ℕ C) (conf : Option (NetworkConfiguration C))
      (feeds : List (ℕ × GoString)) (world : ℕ → ℕ → GoString → World C)
      (order : ℕ → List (ℕ × GoString) → List (ℕ × GoString)) (signals : List Signal) (n : ℕ)
      (addr : GoString)
      → (cl_get_price n addr
            (cl_start world order signals (monitor_of immediate clients conf feeds))
          ≢ err not_chainlink)
        × ((p : ChainlinkPrice)
            → cl_get_price n addr
                (cl_start world order signals (monitor_of immediate clients conf feeds))
              ≡ ok p
            → (p.feed_address ≡ addr) × (p.network_id ≡ n))
  unfolding new_cl_price_monitor
  cl_get_price-started immediate clients conf feeds world order signals n addr =
      let g =
        with_feeds-Good feeds
          (record (new_cl_price_monitor new_price_cache immediate) {
            clients = clients;
            network_config = conf;
          })
          (record {
            well_formed = new_price_cache-WellFormed;
            consistent = λ m other info e. absurd (no_price m other info e);
          }) in
      cl_get_price-consistent
        (cl_start world order signals (monitor_of immediate clients conf feeds)) n addr
        (cl_start-consistent world order signals (monitor_of immediate clients conf feeds) n addr
          source_pyth g.well_formed g.consistent pyth-NoColon pyth-chainlink).1
