-- ===== src/Pricefeed/PythMonitor/Latest.antt =====
-- What a fetch of the Pyth monitor leaves in the cache.
use pricefeeding.Prelude.{
  ℕ, ◌≡◌, ◌⊎◌, refl, ap, ◌∙◌, ◌&&◌, List, [], ◌∷◌, Option, none, some, arith, Option-cases,
  List-cases, inl, inr, eqb, if◌then◌else◌,
}
use pricefeeding.Prelude.Key.{GoString, string_key, nat_key, string_beq}
use pricefeeding.Prelude.Dict.{Dict}
use pricefeeding.Pricefeed.PriceCache.{get_price}
use pricefeeding.Pricefeed.PythMonitor.{
  PythFeed, PythPriceMonitor, PythError, no_feeds, no_updates, oracle_network_id_pyth,
  convert_pyth_feed, store_feeds, fetch_pyth_prices,
}
use pricefeeding.Pricefeed.Sizes.{Estimators}
use pricefeeding.Pricefeed.Update.{update_price}
use pricefeeding.Pricefeed.Update.Invariant.{WellFormed, update_price-WellFormed}
use pricefeeding.Pricefeed.Update.Reads.{found, found-update_price}
use pricefeeding.Pricefeed.Update.Spec.{same_identifier}
use pricefeeding.Strconv.Separator.{NoColon}
use pricefeeding.Types.Morpher.{PriceInfo, pyth, source_pyth}

-- The price of the last feed with the id, or else what was there before.
pub latest :
    ℕ → Dict GoString GoString → List PythFeed → GoString → Option PriceInfo → Option PriceInfo
latest now symbols [] id before = before
latest now symbols (feed ∷ feeds) id before =
    latest now symbols feeds id
      (if string_beq feed.id id then some (pyth (convert_pyth_feed now symbols feed)) else before)

pyth-NoColon : NoColon source_pyth
pyth-NoColon = (refl, (refl, (refl, (refl, tt))))

-- What a read of a network, a source and an identifier gives after the loop.
abbrev pub read_after :
    ℕ
    → Dict GoString GoString
    → List PythFeed
    → ℕ
    → GoString
    → GoString
    → Option PriceInfo
    → Option PriceInfo
read_after now symbols feeds m source jd before =
    if eqb oracle_network_id_pyth m && string_beq source_pyth source
    then latest now symbols feeds jd before
    else before

read_after-step :
    (now : ℕ) (symbols : Dict GoString GoString) (feed : PythFeed) (feeds : List PythFeed) (m : ℕ)
    (source jd : GoString) (before : Option PriceInfo)
    → read_after now symbols feeds m source jd (
        if eqb oracle_network_id_pyth m && (string_beq source_pyth source && string_beq feed.id jd)
        then some (pyth (convert_pyth_feed now symbols feed))
        else before)
      ≡ read_after now symbols (feed ∷ feeds) m source jd before
unfolding latest
read_after-step now symbols feed feeds m source jd before = ground arith

module _ (estimators : Estimators) (now : ℕ) where
  store_feeds-reads :
      (feeds : List PythFeed) (ppm : PythPriceMonitor) (m : ℕ) (source jd : GoString)
      → WellFormed ppm.cache
      → NoColon source
      → found (get_price m jd source (store_feeds estimators now feeds ppm).cache)
        ≡ read_after now ppm.price_feeds feeds m source jd (found (get_price m jd source ppm.cache))
  unfolding store_feeds latest
  store_feeds-reads [] ppm m source jd h c = ground arith
  store_feeds-reads (feed ∷ feeds) ppm m source jd h c =
      let price = pyth (convert_pyth_feed now ppm.price_feeds feed) in
      let next : PythPriceMonitor = record ppm {
        cache = update_price estimators oracle_network_id_pyth feed.id source_pyth price ppm.cache;
        last_saved = now;
      } in
      store_feeds-reads feeds next m source jd
        (update_price-WellFormed estimators oracle_network_id_pyth feed.id source_pyth price
          ppm.cache h)
        c
      ∙ rw
          (
            found-update_price estimators oracle_network_id_pyth m feed.id source_pyth jd source
                price ppm.cache h,
            same_identifier source_pyth source feed.id jd pyth-NoColon c,
          )
          (read_after-step now ppm.price_feeds feed feeds m source jd
            (found (get_price m jd source ppm.cache)))

  store_feeds-WellFormed :
      (feeds : List PythFeed) (ppm : PythPriceMonitor)
      → WellFormed ppm.cache
      → WellFormed (store_feeds estimators now feeds ppm).cache
  unfolding store_feeds
  store_feeds-WellFormed [] ppm h = h
  store_feeds-WellFormed (feed ∷ feeds) ppm h =
      let price = pyth (convert_pyth_feed now ppm.price_feeds feed) in
      store_feeds-WellFormed feeds
        (record ppm {
          cache =
              update_price estimators oracle_network_id_pyth feed.id source_pyth price ppm.cache;
          last_saved = now;
        })
        (update_price-WellFormed estimators oracle_network_id_pyth feed.id source_pyth price
          ppm.cache h)

  module _ (client : Dict GoString GoString → Option (List PythFeed)) (ppm : PythPriceMonitor) where
    fetch_cases :
        ((e : PythError) × (fetch_pyth_prices estimators now client ppm ≡ (ppm, some e)))
        ⊎ ((parsed : List PythFeed) × (client ppm.price_feeds ≡ some parsed)
            × (fetch_pyth_prices estimators now client ppm
                ≡ (store_feeds estimators now parsed ppm, none)))
    unfolding fetch_pyth_prices
    fetch_cases = elim (List-cases ppm.price_feeds) [
      | inl e ↦ inl (no_feeds, simp (e, fetch_pyth_prices) refl)
      | inr (feed, feeds, e) ↦ elim (Option-cases (client (feed ∷ feeds))) [
        | inl f ↦ inl (no_updates, simp (e, f, fetch_pyth_prices) refl)
        | inr (parsed, f) ↦ inr (parsed, ap client e ∙ f, simp (e, f, fetch_pyth_prices) refl)
      ]
    ]

    -- A fetch on a well-formed cache that fails changes nothing. One that succeeds leaves the cache well
    -- formed, with the price of the last parsed feed for each id under the network and source of Pyth,
    -- and every other price of a source without a colon as it was.
    pub fetch_pyth_prices-reads :
        (m : ℕ) (source jd : GoString)
        → WellFormed ppm.cache
        → NoColon source
        → ((e : PythError) × (fetch_pyth_prices estimators now client ppm ≡ (ppm, some e)))
          ⊎ ((parsed : List PythFeed) × (client ppm.price_feeds ≡ some parsed)
              × WellFormed (fetch_pyth_prices estimators now client ppm).0.cache
              × (found (get_price m jd source (fetch_pyth_prices estimators now client ppm).0.cache)
                  ≡ read_after now ppm.price_feeds parsed m source jd
                      (found (get_price m jd source ppm.cache))))
    fetch_pyth_prices-reads m source jd h c = elim fetch_cases [
      | inl (e, q) ↦ inl (e, q)
      | inr (parsed, f, q) ↦ inr (
        parsed,
        f,
        rw q (store_feeds-WellFormed parsed ppm h),
        rw q (store_feeds-reads parsed ppm m source jd h c),
      )
    ]
