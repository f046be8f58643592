-- ===== src/Pricefeed/Monitor/Consistent.antt =====
-- What `updateAllPrices` leaves in the cache.
use pricefeeding.Prelude.{
  ℕ, ◌≡◌, ◌≢◌, refl, sym, subst, ◌∙◌, inl, inr, true, ◌&&◌, List, Option, some, arith, Bool-cases,
  eqb,
}
use pricefeeding.Prelude.Key.{GoString, string_beq, string_beq_iff, eqb_iff}
use pricefeeding.Pricefeed.PriceCache.{
  PriceCache, Result, ok, err, not_chainlink, make_prefixed_identifier, get_price,
}
use pricefeeding.Pricefeed.Sizes.{Estimators}
use pricefeeding.Pricefeed.Ticker.{Signal, start_ticker-keeps}
use pricefeeding.Pricefeed.Update.{update_price, as_chainlink}
use pricefeeding.Pricefeed.Update.Invariant.{WellFormed, update_price-WellFormed}
use pricefeeding.Pricefeed.Update.Reads.{found, found-update_price}
use pricefeeding.Pricefeed.Update.Spec.{make_prefixed_identifier-injective}
use pricefeeding.Pricefeed.Monitor.{
  ClPriceMonitor, World, update_feed, update_all_prices, cl_start, cl_get_price, cl_price,
  feed_tasks,
}
use pricefeeding.Pricefeed.Monitor.Update.{update_feed-cache, run_tasks-keeps}
use pricefeeding.Strconv.Separator.{NoColon}
use pricefeeding.Types.Morpher.{ChainlinkPrice, PriceInfo, chainlink, source_chainlink}

-- The entries of the source Chainlink are Chainlink prices of their network and feed.
abbrev pub IsChainlinkConsistent : PriceCache → Type 0
IsChainlinkConsistent pc =
    (n : ℕ) (addr : GoString) (info : PriceInfo)
    → found (get_price n addr source_chainlink pc) ≡ some info
    → (p : ChainlinkPrice) × (info ≡ chainlink p) × (p.feed_address ≡ addr) × (p.network_id ≡ n)

pub chainlink-NoColon : NoColon source_chainlink
chainlink-NoColon = (refl, (refl, (refl, (refl, (refl, (refl, (refl, (refl, (refl, tt)))))))))

pub same_key :
    (s t id jd : GoString)
    → NoColon s
    → NoColon t
    → string_beq (make_prefixed_identifier s id) (make_prefixed_identifier t jd) ≡ true
    → (s ≡ t) × (id ≡ jd)
same_key s t id jd h k e =
    make_prefixed_identifier-injective s t id jd h k
      ((string_beq_iff (make_prefixed_identifier s id) (make_prefixed_identifier t jd)).0 e)

module _ (estimators : Estimators) (n : ℕ) (p : ChainlinkPrice) (pc : PriceCache)
    (h : WellFormed pc) where
  updated : PriceCache
  updated = update_price estimators n p.feed_address source_chainlink (chainlink p) pc

  update-consistent : IsChainlinkConsistent pc → p.network_id ≡ n → IsChainlinkConsistent updated
  unfolding updated
  update-consistent k e m addr info g =
      let read =
        found-update_price estimators n m p.feed_address source_chainlink addr source_chainlink
          (chainlink p) pc h in
      let same =
        string_beq (make_prefixed_identifier source_chainlink p.feed_address)
          (make_prefixed_identifier source_chainlink addr) in
      elim (Bool-cases (eqb n m && same)) [
        | inl hit ↦ (
          p,
          ground (arith, read, g),
          (same_key source_chainlink source_chainlink p.feed_address addr chainlink-NoColon
              chainlink-NoColon (ground arith)).1,
          ground (arith, eqb_iff n m),
        )
        | inr miss ↦ k m addr info (ground (arith, read, g))
      ]

  update-other :
      (m : ℕ) (jd source' : GoString)
      → NoColon source'
      → source' ≢ source_chainlink
      → found (get_price m jd source' updated) ≡ found (get_price m jd source' pc)
  unfolding updated
  update-other m jd source' c d =
      let read =
        found-update_price estimators n m p.feed_address source_chainlink jd source' (chainlink p)
          pc h in
      elim (Bool-cases (
        string_beq (make_prefixed_identifier source_chainlink p.feed_address)
          (make_prefixed_identifier source' jd))) [
            | inl hit ↦ absurd (
                d (
                  sym
                    (same_key source_chainlink source' p.feed_address jd chainlink-NoColon c
                      hit).0))
            | inr miss ↦ ground (arith, read)
          ]

-- Well formed and consistent, with the entry of another source as it was.
record Kept (m : ℕ) (jd source' : GoString) (before : Option PriceInfo) (pc : PriceCache)
    : Type 0 where
  well_formed : WellFormed pc
  consistent : IsChainlinkConsistent pc
  other : found (get_price m jd source' pc) ≡ before

module _ (m : ℕ) (jd source' : GoString) (c : NoColon source') (d : source' ≢ source_chainlink)
    (before : Option PriceInfo) where
  update_price-Kept :
      (estimators : Estimators) (n : ℕ) (p : ChainlinkPrice) (pc : PriceCache)
      → p.network_id ≡ n
      → Kept m jd source' before pc
      → Kept m jd source' before
          (update_price estimators n p.feed_address source_chainlink (chainlink p) pc)
  unfolding updated
  update_price-Kept estimators n p pc e h = record {
    well_formed =
        update_price-WellFormed estimators n p.feed_address source_chainlink (chainlink p) pc
          h.well_formed;
    consistent = update-consistent estimators n p pc h.well_formed h.consistent e;
    other = update-other estimators n p pc h.well_formed m jd source' c d ∙ h.other;
  }

  update_feed-Kept :
      {C : Type 0} (w : World C) (n : ℕ) (s : GoString) (pm : ClPriceMonitor C)
      → Kept m jd source' before pm.cache
      → Kept m jd source' before (update_feed w n s pm).cache
  update_feed-Kept w n s pm h = elim (update_feed-cache w n s pm) [
    | inl e ↦ subst (Kept m jd source' before) (sym e) h
    | inr (p, i, e) ↦
        subst (Kept m jd source' before) (sym e) (update_price-Kept w.estimators n p pm.cache i h)
  ]

-- A round of the monitor keeps what is kept by each goroutine.
update_all_prices-Kept :
    {C : Type 0} (world : ℕ → GoString → World C)
    (order : List (ℕ × GoString) → List (ℕ × GoString)) (m : ℕ) (jd source' : GoString)
    (before : Option PriceInfo) (pm : ClPriceMonitor C)
    → NoColon source'
    → source' ≢ source_chainlink
    → Kept m jd source' before pm.cache
    → Kept m jd source' before (update_all_prices world order pm).cache
unfolding update_all_prices
update_all_prices-Kept world order m jd source' before pm c d =
    run_tasks-keeps (Kept m jd source' before) (update_feed-Kept m jd source' c d before) world
      (order (feed_tasks pm.clients pm.cache.feeds)) pm

-- Whatever the contracts and endpoints answer, in whatever order the goroutines of each round come, and
-- whatever ticks come before it is stopped: a run of the monitor on a cache that is well formed and
-- consistent leaves it so: each entry of the source Chainlink is a Chainlink price of its network and
-- feed. It changes no price of another source whose name has no colon.
pub cl_start-consistent :
    {C : Type 0} (world : ℕ → ℕ → GoString → World C)
    (order : ℕ → List (ℕ × GoString) → List (ℕ × GoString)) (signals : List Signal)
    (pm : ClPriceMonitor C) (m : ℕ) (jd source' : GoString)
    → WellFormed pm.cache
    → IsChainlinkConsistent pm.cache
    → NoColon source'
    → source' ≢ source_chainlink
    → WellFormed (cl_start world order signals pm).cache
      × IsChainlinkConsistent (cl_start world order signals pm).cache
      × (found (get_price m jd source' (cl_start world order signals pm).cache)
          ≡ found (get_price m jd source' pm.cache))
unfolding cl_start
cl_start-consistent {C} world order signals pm m jd source' h k c d =
    let before = found (get_price m jd source' pm.cache) in
    let kept =
      start_ticker-keeps (λ (p : ClPriceMonitor C). Kept m jd source' before p.cache)
        (λ round. update_all_prices (world round) (order round))
        (λ n p l. update_all_prices-Kept (world n) (order n) m jd source' before p c d l) signals pm
        (record { well_formed = h; consistent = k; other = refl }) in
    (kept.well_formed, kept.consistent, kept.other)

get_price-kind :
    (n : ℕ) (addr : GoString) (pc : PriceCache)
    → get_price n addr source_chainlink pc ≢ err not_chainlink
unfolding get_price
get_price-kind n addr pc = λ e. ground arith

cl_price-consistent :
    (n : ℕ) (addr : GoString) (r : Result PriceInfo)
    → r ≢ err not_chainlink
    → ((info : PriceInfo)
        → found r ≡ some info
        → (p : ChainlinkPrice) × (info ≡ chainlink p)
          × (p.feed_address ≡ addr)
          × (p.network_id ≡ n))
    → (cl_price r ≢ err not_chainlink)
      × ((p : ChainlinkPrice) → cl_price r ≡ ok p → (p.feed_address ≡ addr) × (p.network_id ≡ n))
unfolding cl_price as_chainlink
cl_price-consistent n addr (err e) h k = (λ q. h (ground arith), λ p q. absurd (ground arith))
cl_price-consistent n addr (ok info) h k =
    let (p, is, a, b) = k info refl in
    rw is ((λ q. absurd (ground arith)), λ p' q. (ground arith, ground arith))

-- What `GetPrice` gives on a consistent cache.
pub cl_get_price-consistent :
    {C : Type 0} (pm : ClPriceMonitor C) (n : ℕ) (addr : GoString)
    → IsChainlinkConsistent pm.cache
    → (cl_get_price n addr pm ≢ err not_chainlink)
      × ((p : ChainlinkPrice)
          → cl_get_price n addr pm ≡ ok p
          → (p.feed_address ≡ addr) × (p.network_id ≡ n))
unfolding cl_get_price
cl_get_price-consistent pm n addr k =
    cl_price-consistent n addr (get_price n addr source_chainlink pm.cache)
      (get_price-kind n addr pm.cache) (k n addr)
