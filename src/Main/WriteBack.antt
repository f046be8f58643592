-- ===== src/Main/WriteBack.antt =====
-- main.go: the goroutine that updates the cache, and the prices that come between its reading and its
-- writing.
use pricefeeding.Prelude.{
  ℕ, ◌≡◌, refl, ap, ◌∙◌, [], ◌∷◌, Option, none, some, arith, inl, inr, Bool-cases, false, subst,
}
use pricefeeding.Prelude.Key.{GoString, string_key, string_beq, string_beq_iff}
use pricefeeding.Prelude.Dict.{Dict, get, put, Distinct, put-Distinct}
use pricefeeding.Pricefeed.PriceCache.{
  PriceCache, make_prefixed_identifier, get_price, get_all_prices_by_source,
}
use pricefeeding.Pricefeed.Sizes.{Estimators}
use pricefeeding.Pricefeed.Monitor.{ClPriceMonitor, cl_get_all_prices, cl_prices}
use pricefeeding.Pricefeed.Update.{update_price, as_chainlink}
use pricefeeding.Pricefeed.Update.Invariant.{WellFormed, update_price-WellFormed}
use pricefeeding.Pricefeed.Update.Reads.{found, found-update_price, get_price-update_price_self}
use pricefeeding.Pricefeed.Monitor.Consistent.{same_key, chainlink-NoColon}
use pricefeeding.Types.Morpher.{ChainlinkPrice, PriceInfo, chainlink, source_chainlink}
use pricefeeding.Main.{write_back}

module _ (estimators : Estimators) (n : ℕ) where
  -- A write of one feed leaves another as it is.
  update-other :
      (addr other : GoString) (p : PriceInfo) (pc : PriceCache)
      → WellFormed pc
      → string_beq addr other ≡ false
      → found (
          get_price n other source_chainlink (update_price estimators n addr source_chainlink p pc))
        ≡ found (get_price n other source_chainlink pc)
  update-other addr other p pc h d =
      elim (Bool-cases (
        string_beq (make_prefixed_identifier source_chainlink addr)
          (make_prefixed_identifier source_chainlink other))) [
            | inl e ↦
                let s =
                  same_key source_chainlink source_chainlink addr other chainlink-NoColon
                    chainlink-NoColon e in
                absurd (cc ((string_beq_iff addr other).1 s.1))
            | inr e ↦ ground (
              arith,
              found-update_price estimators n n addr source_chainlink other source_chainlink p pc h,
            )
          ]

  write_back-other :
      (prices : Dict GoString ChainlinkPrice) (addr : GoString) (pc : PriceCache)
      → WellFormed pc
      → get addr prices ≡ none
      → found (get_price n addr source_chainlink (write_back estimators n prices pc))
        ≡ found (get_price n addr source_chainlink pc)
  unfolding write_back get
  write_back-other [] addr pc h d = refl
  write_back-other ((other, p) ∷ prices) addr pc h d = elim (Bool-cases (string_beq other addr)) [
    | inl e ↦ absurd (ground arith)
    | inr e ↦
        write_back-other prices addr
          (update_price estimators n other source_chainlink (chainlink p) pc)
          (update_price-WellFormed estimators n other source_chainlink (chainlink p) pc h)
          (ground arith)
        ∙ update-other other addr (chainlink p) pc h e
  ]

  write_back-found :
      (prices : Dict GoString ChainlinkPrice) (addr : GoString) (p : ChainlinkPrice)
      (pc : PriceCache)
      → WellFormed pc
      → Distinct prices
      → get addr prices ≡ some p
      → found (get_price n addr source_chainlink (write_back estimators n prices pc))
        ≡ some (chainlink p)
  unfolding write_back get
  write_back-found [] addr p pc h d e = cc
  write_back-found ((other, q) ∷ prices) addr p pc h d e =
      let pc' = update_price estimators n other source_chainlink (chainlink q) pc in
      let h' = update_price-WellFormed estimators n other source_chainlink (chainlink q) pc h in
      elim (Bool-cases (string_beq other addr)) [
        | inl t ↦
            let s : other ≡ addr = (string_beq_iff other addr).0 t in
            let v : q ≡ p = ground arith in
            write_back-other prices addr pc' h' (subst (λ k. get k prices ≡ none) s d.0)
            ∙ subst (λ k. found (get_price n k source_chainlink pc') ≡ some (chainlink q)) s
                (get_price-update_price_self estimators n other source_chainlink (chainlink q) pc h)
            ∙ ap (λ x. some (chainlink x)) v
        | inr t ↦ write_back-found prices addr p pc' h' d.1 (ground arith)
      ]

kept-Distinct :
    (identifier : GoString) (result : Dict GoString ChainlinkPrice) (o : Option ChainlinkPrice)
    → Distinct result
    → Distinct (elim o [ none ↦ result | some p ↦ put identifier p result ])
kept-Distinct identifier result none h = h
kept-Distinct identifier result (some p) h = put-Distinct identifier p result h

cl_prices-Distinct :
    (result : Dict GoString ChainlinkPrice) (l : Dict GoString PriceInfo)
    → Distinct result
    → Distinct (cl_prices result l)
unfolding cl_prices
cl_prices-Distinct result [] h = h
cl_prices-Distinct result ((identifier, info) ∷ l) h =
    cl_prices-Distinct
      (elim (as_chainlink info) [ none ↦ result | some p ↦ put identifier p result ]) l
      (kept-Distinct identifier result (as_chainlink info) h)

-- Where `GetAllPrices` gave a price for a feed, the cache has this price for it after the goroutine wrote
-- its prices back, whatever calls have made of the cache in between, as long as it is well formed: a
-- newer price that came in between is lost.
pub write_back-stale :
    {C : Type 0} (estimators : Estimators) (n : ℕ) (pm : ClPriceMonitor C) (pc : PriceCache)
    (addr : GoString) (p : ChainlinkPrice)
    → WellFormed pc
    → get addr (cl_get_all_prices n pm) ≡ some p
    → found
        (get_price n addr source_chainlink (write_back estimators n (cl_get_all_prices n pm) pc))
      ≡ some (chainlink p)
unfolding cl_get_all_prices
write_back-stale estimators n pm pc addr p h e =
    write_back-found estimators n _ addr p pc h
      (cl_prices-Distinct [] (get_all_prices_by_source n source_chainlink pm.cache) tt) e
