-- ===== src/Pricefeed/Update/Legacy.antt =====
-- The methods in the old format, against those that they stand for.
use pricefeeding.Prelude.{ℕ, zero, suc, ◌≡◌, refl, ◌∙◌, ap, some, arith}
use pricefeeding.Prelude.Int.{ℤ, pos, negsuc}
use pricefeeding.Prelude.Key.{GoString}
use pricefeeding.Pricefeed.PriceCache.{PriceCache, Result, ok, err, get_price}
use pricefeeding.Pricefeed.Sizes.{Estimators}
use pricefeeding.Pricefeed.Update.{
  PriceData, to_price_data, to_chainlink, default_exponent, legacy_result, get_price_legacy,
  update_price, update_price_legacy,
}
use pricefeeding.Pricefeed.Update.Invariant.{WellFormed}
use pricefeeding.Pricefeed.Update.Reads.{found, get_price-update_price_self}
use pricefeeding.Types.Morpher.{PriceInfo, chainlink, source_chainlink}

found-ok : (r : Result PriceInfo) (p : PriceInfo) → found r ≡ some p → r ≡ ok p
found-ok (ok q) p h = ground arith
found-ok (err e) p h = cc

-- The exponent with which a price is read back.
abbrev pub exponent_read : ℤ → ℤ
exponent_read (pos zero) = negsuc 7
exponent_read (pos (suc n)) = pos (suc n)
exponent_read (negsuc n) = negsuc n

default_exponent-read : (e : ℤ) → default_exponent e ≡ exponent_read e
unfolding default_exponent
default_exponent-read (pos zero) = refl
default_exponent-read (pos (suc n)) = refl
default_exponent-read (negsuc n) = refl

-- On a well-formed cache, what is written in the old format is read back in it, but for an exponent of 0,
-- which is read as -8.
pub legacy_round_trip :
    (estimators : Estimators) (n : ℕ) (feed : GoString) (d : PriceData) (pc : PriceCache)
    → WellFormed pc
    → get_price_legacy n feed (update_price_legacy estimators n feed d pc)
      ≡ ok (record d { exponent = exponent_read d.exponent })
unfolding get_price_legacy update_price_legacy to_price_data to_chainlink
legacy_round_trip estimators n feed d pc h =
    let price = chainlink (to_chainlink feed d) in
    ap legacy_result (
      found-ok
        (get_price n feed source_chainlink
          (update_price estimators n feed source_chainlink price pc))
        price (get_price-update_price_self estimators n feed source_chainlink price pc h))
    ∙ ap (λ e. ok (record d { exponent = e })) (default_exponent-read d.exponent)
