-- ===== src/Pricefeed/Update/Invariant.antt =====
-- The invariant of the cache: the maps have no repeated keys, every price has
-- its feed in the list, a listed network has its map, and no feed is listed twice.
use pricefeeding.Prelude.{
  ℕ, ◌≡◌, refl, eqb, true, ◌&&◌, List, [], none, some, arith, or_else, is_some, Option-cases, inl,
  inr, if◌then◌else◌,
}
use pricefeeding.Prelude.Key.{GoString, nat_key, string_key, string_beq, eqb_iff}
use pricefeeding.Prelude.Dict.{
  Dict, get, put, get-put, get-put_self, Distinct, put-Distinct, put-Values, get-Values,
}
use pricefeeding.Pricefeed.PriceCache.{
  PriceCache, new_price_cache, contains, with_network, list_feed, make_prefixed_identifier,
  add_feed,
}
use pricefeeding.Pricefeed.Prune.NoEffect.{IsMap, prune-same}
use pricefeeding.Pricefeed.Sizes.{Estimators}
use pricefeeding.Pricefeed.Update.{store_price, update_price}
use pricefeeding.Types.Morpher.{PriceInfo}
use pricefeeding.Pricefeed.Feeds.{
  once, list_feed-Distinct, contains-list_feed, once-list_feed, get-list_feed,
}

abbrev pub feeds_of : ℕ → PriceCache → List GoString
feeds_of n pc = or_else [] (get n pc.feeds)

abbrev pub prices_of : ℕ → PriceCache → Dict GoString PriceInfo
prices_of n pc = or_else [] (get n pc.prices)

pub record WellFormed (pc : PriceCache) : Type 0 where
  pub is_map : IsMap pc
  pub feed_networks : Distinct pc.feeds
  pub listed :
      (n : ℕ) (s : GoString) (price : PriceInfo)
      → get s (prices_of n pc) ≡ some price
      → contains s (feeds_of n pc) ≡ true
  pub known :
      (n : ℕ) (l : List GoString) → get n pc.feeds ≡ some l → is_some (get n pc.prices) ≡ true
  pub no_repeats : (n : ℕ) → once (feeds_of n pc) ≡ true

pub prices_of-Distinct : (n : ℕ) (pc : PriceCache) → IsMap pc → Distinct (prices_of n pc)
prices_of-Distinct n pc h = elim (Option-cases (get n pc.prices)) [
  | inl e ↦ rw e tt
  | inr (m, e) ↦ rw e (get-Values Distinct n pc.prices m h.identifiers e)
]

module _ (n : ℕ) (s : GoString) (price : PriceInfo) (pc : PriceCache) where
  pub price-store_price :
      (m : ℕ) (t : GoString)
      → get t (prices_of m (store_price n s price pc))
        ≡ (if eqb n m && string_beq s t then some price else get t (prices_of m pc))
  unfolding store_price
  price-store_price m t = ground (
    arith,
    get-put n m (put s price (or_else [] (get n pc.prices))) pc.prices,
    get-put s t price (or_else [] (get n pc.prices)),
    eqb_iff n m,
  )

  store_price-IsMap : IsMap pc → IsMap (store_price n s price pc)
  unfolding store_price
  store_price-IsMap h = record {
    networks = put-Distinct n (put s price (prices_of n pc)) pc.prices h.networks;
    identifiers =
        put-Values Distinct n (put s price (prices_of n pc)) pc.prices
          (put-Distinct s price (prices_of n pc) (prices_of-Distinct n pc h)) h.identifiers;
  }

  store_price-listed :
      WellFormed pc
      → (m : ℕ) (t : GoString) (p : PriceInfo)
      → get t (prices_of m (store_price n s price pc)) ≡ some p
      → contains t (feeds_of m (store_price n s price pc)) ≡ true
  unfolding store_price
  store_price-listed h m t p g = ground (
    arith,
    contains-list_feed n s pc.feeds m t,
    price-store_price m t,
    h.listed m t p,
    eqb_iff n m,
  )

  store_price-known :
      WellFormed pc
      → (m : ℕ) (l : List GoString) → get m (list_feed n s pc.feeds) ≡ some l
      → is_some (get m (put n (put s price (prices_of n pc)) pc.prices)) ≡ true
  store_price-known h m l g = ground (
    arith,
    get-put n m (put s price (prices_of n pc)) pc.prices,
    get-list_feed n s pc.feeds m l,
    h.known m l,
    eqb_iff n m,
  )

  store_price-WellFormed : WellFormed pc → WellFormed (store_price n s price pc)
  unfolding store_price
  store_price-WellFormed h = record {
    is_map = store_price-IsMap h.is_map;
    feed_networks = list_feed-Distinct n s pc.feeds h.feed_networks;
    listed = store_price-listed h;
    known = store_price-known h;
    no_repeats = λ m. once-list_feed n s pc.feeds m (h.no_repeats m);
  }

module _ (n : ℕ) (pc : PriceCache) where
  -- A network without prices has no feeds.
  feeds_unknown : WellFormed pc → get n pc.prices ≡ none → get n pc.feeds ≡ none
  feeds_unknown h e = elim (Option-cases (get n pc.feeds)) [
    | inl none_listed ↦ none_listed
    | inr (l, g) ↦ absurd (ground (arith, h.known n l g))
  ]

  -- So `AddFeed` drops no feed where it makes the maps of a network.
  pub with_network-feeds : WellFormed pc → (m : ℕ) → feeds_of m (with_network n pc) ≡ feeds_of m pc
  unfolding with_network
  with_network-feeds h m = ground (arith, feeds_unknown h, get-put n m [] pc.feeds, eqb_iff n m)

  pub with_network-prices : (m : ℕ) → prices_of m (with_network n pc) ≡ prices_of m pc
  unfolding with_network
  with_network-prices m = ground (arith, get-put n m [] pc.prices, eqb_iff n m)

  with_network-known :
      WellFormed pc
      → (m : ℕ) (l : List GoString) → get m (with_network n pc).feeds ≡ some l
      → is_some (get m (with_network n pc).prices) ≡ true
  unfolding with_network
  with_network-known h m l g =
      ground (arith, get-put n m [] pc.prices, get-put n m [] pc.feeds, eqb_iff n m, h.known m l)

  with_network-is_some : is_some (get n (with_network n pc).prices) ≡ true
  unfolding with_network
  with_network-is_some = ground (arith, get-put_self n [] pc.prices)

  with_network-IsMap : IsMap pc → IsMap (with_network n pc)
  unfolding with_network
  with_network-IsMap h = elim (Option-cases (get n pc.prices)) [
    | inl e ↦
        rw (e, with_network)
          (record {
            networks = put-Distinct n [] pc.prices h.networks;
            identifiers = put-Values Distinct n [] pc.prices tt h.identifiers;
          })
    | inr (m, e) ↦ rw (e, with_network) h
  ]

  with_network-Distinct : WellFormed pc → Distinct (with_network n pc).feeds
  unfolding with_network
  with_network-Distinct h = elim (Option-cases (get n pc.prices)) [
    | inl e ↦ rw (e, with_network) (put-Distinct n [] pc.feeds h.feed_networks)
    | inr (m, e) ↦ rw (e, with_network) h.feed_networks
  ]

  with_network-WellFormed : WellFormed pc → WellFormed (with_network n pc)
  with_network-WellFormed h = record {
    is_map = with_network-IsMap h.is_map;
    feed_networks = with_network-Distinct h;
    listed = λ m t p g. rw (with_network-feeds h m) (h.listed m t p (rw with_network-prices at g));
    known = with_network-known h;
    no_repeats = λ m. rw (with_network-feeds h m) (h.no_repeats m);
  }

pub new_price_cache-WellFormed : WellFormed new_price_cache
unfolding once get
new_price_cache-WellFormed = record {
  is_map = record { networks = tt; identifiers = tt };
  feed_networks = tt;
  listed = λ n s p g. cc;
  known = λ n l g. cc;
  no_repeats = λ n. refl;
}

pub add_feed-WellFormed :
    (n : ℕ) (identifier source : GoString) (pc : PriceCache)
    → WellFormed pc
    → WellFormed (add_feed n identifier source pc)
unfolding add_feed
add_feed-WellFormed n identifier source pc h =
    let w = with_network-WellFormed n pc h in
    let s = make_prefixed_identifier source identifier in
    let pc' = with_network n pc in
    record {
      is_map = record { networks = w.is_map.networks; identifiers = w.is_map.identifiers };
      feed_networks = list_feed-Distinct n s pc'.feeds w.feed_networks;
      listed = λ m t p g. ground (arith, contains-list_feed n s pc'.feeds m t, w.listed m t p g);
      known = λ m l g.
          ground (arith, get-list_feed n s pc'.feeds m l, w.known m l, with_network-is_some n pc);
      no_repeats = λ m. once-list_feed n s pc'.feeds m (w.no_repeats m);
    }

-- Pruning keeps the invariant, since it changes nothing.
pub update_price-store_price :
    (estimators : Estimators) (n : ℕ) (identifier source : GoString) (price : PriceInfo)
    (pc : PriceCache)
    → WellFormed pc
    → update_price estimators n identifier source price pc
      ≡ store_price n (make_prefixed_identifier source identifier) price pc
unfolding update_price
update_price-store_price estimators n identifier source price pc h = ground (
  arith,
  prune-same estimators (store_price n (make_prefixed_identifier source identifier) price pc)
      (store_price-IsMap n (make_prefixed_identifier source identifier) price pc h.is_map),
)

pub update_price-WellFormed :
    (estimators : Estimators) (n : ℕ) (identifier source : GoString) (price : PriceInfo)
    (pc : PriceCache)
    → WellFormed pc
    → WellFormed (update_price estimators n identifier source price pc)
update_price-WellFormed estimators n identifier source price pc h =
    rw (update_price-store_price estimators n identifier source price pc h)
      (store_price-WellFormed n (make_prefixed_identifier source identifier) price pc h)
