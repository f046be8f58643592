-- ===== src/Pricefeed/PriceCache.antt =====
-- pricefeed/price_cache.go: `PriceCache`. Every method takes the lock for its whole run, so a method is
-- one step on the state; `UpdatePrice` lets go of it before `prune`, and is taken here as run through.
use pricefeeding.Prelude.{
  ℕ, ◌*◌, Bool, false, ◌||◌, List, [], ◌∷◌, ◌++◌, Option, none, some, eqb, or_else, if◌then◌else◌,
}
use pricefeeding.Prelude.Key.{GoString, bytes, nat_key, string_key, string_beq}
use pricefeeding.Prelude.Dict.{Dict, get, put}
use pricefeeding.Types.Morpher.{PriceInfo}

-- 10 * 1024 * 1024
abbrev pub max_cache_size_bytes : ℕ
max_cache_size_bytes = 10 * 1024 * 1024

pub record PriceCache : Type 0 where
  pub prices : Dict ℕ (Dict GoString PriceInfo)
  pub feeds : Dict ℕ (List GoString)

abbrev pub new_price_cache : PriceCache
new_price_cache = record { prices = []; feeds = [] }

unfoldable pub make_prefixed_identifier : GoString → GoString → GoString
make_prefixed_identifier source identifier = (source ++ bytes ":") ++ identifier

-- `for _, existing := range list { if existing == s … }`
unfoldable pub contains : GoString → List GoString → Bool
contains s [] = false
contains s (existing ∷ rest) = string_beq existing s || contains s rest

-- A network that has no map yet gets an empty one, and an empty list of feeds.
unfoldable pub with_network : ℕ → PriceCache → PriceCache
with_network network_id pc = elim (get network_id pc.prices) [
  | some _ ↦ pc
  | none ↦ record { prices = put network_id [] pc.prices; feeds = put network_id [] pc.feeds }
]

-- Appends the feed, unless it is in the list.
unfoldable pub list_feed : ℕ → GoString → Dict ℕ (List GoString) → Dict ℕ (List GoString)
list_feed network_id prefixed feeds =
    let listed = or_else [] (get network_id feeds) in
    if contains prefixed listed then feeds else put network_id (listed ++ prefixed ∷ []) feeds

unfoldable pub add_feed : ℕ → GoString → GoString → PriceCache → PriceCache
add_feed network_id identifier source pc =
    let pc' = with_network network_id pc in
    record pc' {
      feeds = list_feed network_id (make_prefixed_identifier source identifier) pc'.feeds;
    }

pub data PriceError : Type 0 where
  no_data no_price_data not_chainlink : PriceError

pub data Result (A : Type 0) : Type 0 where
  ok : A → Result A
  err : PriceError → Result A

unfoldable pub get_price : ℕ → GoString → GoString → PriceCache → Result PriceInfo
get_price network_id identifier source pc = elim (get network_id pc.prices) [
  | none ↦ err no_data
  | some prices ↦ elim (get (make_prefixed_identifier source identifier) prices) [
    | none ↦ err no_price_data
    | some price ↦ ok price
  ]
]

-- The loop that copies a map.
unfoldable pub copy_prices :
    Dict GoString PriceInfo → Dict GoString PriceInfo → Dict GoString PriceInfo
copy_prices result [] = result
copy_prices result ((prefixed, price) ∷ rest) = copy_prices (put prefixed price result) rest

unfoldable pub get_all_prices : ℕ → PriceCache → Dict GoString PriceInfo
unfolding copy_prices
get_all_prices network_id pc = copy_prices [] (or_else [] (get network_id pc.prices))

-- strings.HasPrefix with strings.TrimPrefix: what follows the prefix, if it is there.
unfoldable pub cut_prefix : GoString → GoString → Option GoString
cut_prefix [] s = some s
cut_prefix (c ∷ p) [] = none
cut_prefix (c ∷ p) (d ∷ s) = if eqb c d then cut_prefix p s else none

unfoldable pub collect_by_prefix :
    GoString → Dict GoString PriceInfo → Dict GoString PriceInfo → Dict GoString PriceInfo
collect_by_prefix prefix result [] = result
collect_by_prefix prefix result ((prefixed, price) ∷ rest) =
    collect_by_prefix prefix
      (elim (cut_prefix prefix prefixed) [
        | none ↦ result
        | some identifier ↦ put identifier price result
      ])
      rest

unfoldable pub get_all_prices_by_source : ℕ → GoString → PriceCache → Dict GoString PriceInfo
unfolding collect_by_prefix
get_all_prices_by_source network_id source pc =
    collect_by_prefix (source ++ bytes ":") [] (or_else [] (get network_id pc.prices))
