-- ===== src/Pricefeed/Update/Reads.antt =====
-- What a reader of the cache sees after a write.
use pricefeeding.Prelude.{
  ℕ, ◌≡◌, refl, ap, ◌∙◌, ◌&&◌, ◌||◌, Option, none, some, arith, eqb, if◌then◌else◌, or_else, [],
  Bool-cases, Option-cases, inl, inr,
}
use pricefeeding.Prelude.Key.{GoString, nat_key, string_key, string_beq, string_beq_iff, eqb_iff}
use pricefeeding.Prelude.Dict.{get, put, get-put}
use pricefeeding.Pricefeed.PriceCache.{
  contains, PriceCache, Result, ok, err, no_price_data, make_prefixed_identifier, add_feed,
  with_network, get_price,
}
use pricefeeding.Pricefeed.Feeds.{contains-list_feed}
use pricefeeding.Pricefeed.Sizes.{Estimators}
use pricefeeding.Pricefeed.Update.{store_price, update_price}
use pricefeeding.Pricefeed.Update.Invariant.{
  WellFormed, prices_of, feeds_of, price-store_price, with_network-prices, with_network-feeds,
  update_price-store_price,
}
use pricefeeding.Types.Morpher.{PriceInfo}

-- The price that is read, if one is.
abbrev pub found : Result PriceInfo → Option PriceInfo
found (ok price) = some price
found (err e) = none

pub found-get_price :
    (n : ℕ) (identifier source : GoString) (pc : PriceCache)
    → found (get_price n identifier source pc)
      ≡ get (make_prefixed_identifier source identifier) (prices_of n pc)
unfolding get_price get
found-get_price n identifier source pc = ground arith

-- The prices that are read after `UpdatePrice`.
pub found-update_price :
    (estimators : Estimators) (n m : ℕ) (id source jd source' : GoString) (price : PriceInfo)
    (pc : PriceCache)
    → WellFormed pc
    → found (get_price m jd source' (update_price estimators n id source price pc)) ≡ (
        if eqb n m
          && string_beq (make_prefixed_identifier source id) (make_prefixed_identifier source' jd)
        then some price
        else found (get_price m jd source' pc))
found-update_price estimators n m id source jd source' price pc h =
    rw
      (update_price-store_price estimators n id source price pc h, found-get_price, found-get_price)
      (price-store_price n (make_prefixed_identifier source id) price pc m
        (make_prefixed_identifier source' jd))

-- A read of a network that has a map: there is no price under the key where none was found.
abbrev pub in_known_network : Result PriceInfo → Result PriceInfo
in_known_network (ok price) = ok price
in_known_network (err e) = err no_price_data

get_price-store_price :
    (n m : ℕ) (prefixed jd source' : GoString) (price : PriceInfo) (pc : PriceCache)
    → get_price m jd source' (store_price n prefixed price pc) ≡ (
        if eqb n m
        then (if string_beq prefixed (make_prefixed_identifier source' jd)
            then ok price
            else in_known_network (get_price m jd source' pc))
        else get_price m jd source' pc)
unfolding store_price get_price get
get_price-store_price n m prefixed jd source' price pc =
    let prices = or_else [] (get n pc.prices) in
    let read = get-put n m (put prefixed price prices) pc.prices in
    let stored = get-put prefixed (make_prefixed_identifier source' jd) price prices in
    elim (Bool-cases (eqb n m)) [
      | inr other ↦ ground (arith, read)
      | inl same ↦
          let at : get n pc.prices ≡ get m pc.prices =
            ap (λ i. get i pc.prices) ((eqb_iff n m).0 same) in
          elim (Option-cases (get m pc.prices)) [
            | inl e ↦
                let none_there : get (make_prefixed_identifier source' jd) prices ≡ none =
                  rw (at ∙ e) refl in
                ground (arith, read, stored, none_there)
            | inr (l, e) ↦
                let there : prices ≡ l = rw (at ∙ e) refl in ground (arith, read, stored, there)
          ]
    ]

-- After `UpdatePrice` on a well-formed cache a read under the same network and prefixed identifier gives
-- the new price; every other read of the network gives the price that it gave before, and the error
-- that there is no price data where it gave none; and a read of another network gives what it gave
-- before, its error included.
pub get_price-update_price :
    (estimators : Estimators) (n m : ℕ) (id source jd source' : GoString) (price : PriceInfo)
    (pc : PriceCache)
    → WellFormed pc
    → get_price m jd source' (update_price estimators n id source price pc) ≡ (
        if eqb n m
        then (if string_beq
              (make_prefixed_identifier source id)
              (make_prefixed_identifier source' jd)
            then ok price
            else in_known_network (get_price m jd source' pc))
        else get_price m jd source' pc)
get_price-update_price estimators n m id source jd source' price pc h =
    rw (update_price-store_price estimators n id source price pc h)
      (get_price-store_price n m (make_prefixed_identifier source id) jd source' price pc)

-- `AddFeed` changes no price.
pub get_price-add_feed :
    (n m : ℕ) (id source jd source' : GoString) (pc : PriceCache)
    → found (get_price m jd source' (add_feed n id source pc)) ≡ found (get_price m jd source' pc)
unfolding add_feed
get_price-add_feed n m id source jd source' pc =
    rw (found-get_price, found-get_price)
      (ap (get (make_prefixed_identifier source' jd)) (with_network-prices n pc m))

pub get_price-update_price_self :
    (estimators : Estimators) (n : ℕ) (id source : GoString) (price : PriceInfo) (pc : PriceCache)
    → WellFormed pc
    → found (get_price n id source (update_price estimators n id source price pc)) ≡ some price
get_price-update_price_self estimators n id source price pc h = ground (
  arith,
  found-update_price estimators n n id source id source price pc h,
  eqb_iff n n,
  string_beq_iff (make_prefixed_identifier source id) (make_prefixed_identifier source id),
)

-- On a well-formed cache `AddFeed` lists the feed that it names, and keeps the other feeds of every
-- network.
contains-add_feed :
    (n m : ℕ) (id source t : GoString) (pc : PriceCache)
    → WellFormed pc
    → contains t (feeds_of m (add_feed n id source pc)) ≡ (
        contains t (feeds_of m pc)
        || (eqb n m && string_beq (make_prefixed_identifier source id) t))
unfolding add_feed
contains-add_feed n m id source t pc h =
    contains-list_feed n (make_prefixed_identifier source id) (with_network n pc).feeds m t
    ∙ ap (λ l. contains t l || (eqb n m && string_beq (make_prefixed_identifier source id) t))
        (with_network-feeds n pc h m)

-- `UpdatePrice` lists its feed too.
pub contains-update_price :
    (estimators : Estimators) (n m : ℕ) (id source t : GoString) (price : PriceInfo)
    (pc : PriceCache)
    → WellFormed pc
    → contains t (feeds_of m (update_price estimators n id source price pc)) ≡ (
        contains t (feeds_of m pc)
        || (eqb n m && string_beq (make_prefixed_identifier source id) t))
unfolding store_price
contains-update_price estimators n m id source t price pc h =
    rw (update_price-store_price estimators n id source price pc h)
      (contains-list_feed n (make_prefixed_identifier source id) pc.feeds m t)
