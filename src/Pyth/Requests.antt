-- ===== src/Pyth/Requests.antt =====
-- pyth/client.go, pyth/streaming.go: the URLs that the requests of `HermesClient` ask for.
pub mod Asked
use pricefeeding.Prelude.{
  if◌then◌else◌, ℕ, suc, Bool, true, false, ◌&&◌, List, [], ◌∷◌, ◌++◌, Option, none, some, or_else,
  eqb, is_some,
}
use mathlib.Core.Bool.{not}
use mathlib.Core.Option
use pricefeeding.Prelude.Int.{ℤ, pos, negsuc}
use pricefeeding.Prelude.Key.{GoString, bytes, string_key}
use pricefeeding.Prelude.Dict.{Dict, get, put}
use pricefeeding.Pricefeed.PriceCache.{cut_prefix}
use pricefeeding.Pyth.Hermes.{HermesClient}
use pricefeeding.Pyth.Url.{Url, parse_url, add_value}
use pricefeeding.Strconv.{itoa}

-- strings.HasSuffix(s, "/")
unfoldable pub ends_in_slash : GoString → Bool
ends_in_slash [] = false
ends_in_slash (c ∷ []) = eqb c b'/'
ends_in_slash (c ∷ d ∷ s) = ends_in_slash (d ∷ s)

-- strings.TrimSuffix(s, "/")
unfoldable pub trim_slash : GoString → GoString
trim_slash [] = []
trim_slash (c ∷ []) = if eqb c b'/' then [] else c ∷ []
trim_slash (c ∷ d ∷ s) = c ∷ trim_slash (d ∷ s)

unfoldable pub build_url : HermesClient → GoString → Url
unfolding ends_in_slash trim_slash parse_url
build_url c endpoint =
    let base_url = if ends_in_slash c.base_url then c.base_url else c.base_url ++ bytes "/" in
    let u = parse_url base_url in record u { path = trim_slash u.path ++ endpoint }

starts_with_slash : GoString → Bool
starts_with_slash [] = false
starts_with_slash (c ∷ s) = eqb c b'/'

-- `u.String()` before the query: a path behind a host is given a slash where it has none.
unfoldable pub url_text : Url → GoString
unfolding starts_with_slash
url_text u = elim u.path [
  | [] ↦ u.origin
  | c ∷ s ↦ elim u.origin [
    | [] ↦ c ∷ s
    | o ∷ t ↦ if starts_with_slash (c ∷ s) then o ∷ t ++ c ∷ s else o ∷ t ++ b'/' ∷ c ∷ s
  ]
]

-- A value of the map that `appendURLSearchParams` ranges over; a `float64` is left out.
pub data Param : Type 0 where
  nil : Param
  text : GoString → Param
  flag : Bool → Param
  int : ℤ → Param
  texts : List GoString → Param

-- strconv.FormatBool
unfoldable pub format_bool : Bool → GoString
format_bool true = bytes "true"
format_bool false = bytes "false"

-- strconv.FormatInt in base 10
unfoldable pub format_int : ℤ → GoString
format_int (pos n) = itoa n
format_int (negsuc n) = b'-' ∷ itoa (suc n)

unfoldable pub add_values :
    GoString → List GoString → Dict GoString (List GoString) → Dict GoString (List GoString)
unfolding add_value
add_values key [] query = query
add_values key (item ∷ v) query = add_values key v (add_value key item query)

unfoldable pub append_param :
    GoString → Param → Dict GoString (List GoString) → Dict GoString (List GoString)
unfolding add_value add_values format_bool format_int
append_param key nil query = query
append_param key (text []) query = query
append_param key (text (c ∷ s)) query = add_value key (c ∷ s) query
append_param key (flag b) query = add_value key (format_bool b) query
append_param key (int n) query = add_value key (format_int n) query
append_param key (texts v) query = add_values (key ++ bytes "[]") v query

-- The loop of `appendURLSearchParams`.
unfoldable pub append_params :
    Dict GoString Param → Dict GoString (List GoString) → Dict GoString (List GoString)
unfolding append_param
append_params [] query = query
append_params ((key, value) ∷ params) query = append_params params (append_param key value query)

unfoldable pub append_url_search_params : Dict GoString Param → Url → Url
unfolding append_params
append_url_search_params params u = record u { query = append_params params u.query }

-- An option that is set.
unfoldable pub given :
    {A : Type 0} → GoString → (A → Param) → Option A → Dict GoString Param → Dict GoString Param
given key param none params = params
given key param (some a) params = put key (param a) params

pub record GetPriceFeedsOptions : Type 0 where
  pub query : Option GoString
  pub asset_type : Option GoString

-- The options of the latest updates, of those at a timestamp and of averages.
pub record UpdateOptions : Type 0 where
  pub encoding : Option GoString
  pub parsed : Option Bool
  pub ignore_invalid_price_ids : Option Bool

pub record GetPriceUpdatesStreamOptions : Type 0 where
  pub encoding : Option GoString
  pub parsed : Option Bool
  pub allow_unordered : Option Bool
  pub benchmarks_only : Option Bool
  pub ignore_invalid_price_ids : Option Bool

pub record GetLatestPublisherCapsOptions : Type 0 where
  pub encoding : Option GoString
  pub parsed : Option Bool

price_feeds_params : Option GetPriceFeedsOptions → Dict GoString Param
unfolding given
price_feeds_params none = []
price_feeds_params (some o) =
    given (bytes "assetType") text o.asset_type (given (bytes "query") text o.query [])

unfoldable pub update_params : Option UpdateOptions → Dict GoString Param
unfolding given
update_params none = []
update_params (some o) =
    given (bytes "ignore_invalidPriceIds") flag o.ignore_invalid_price_ids
      (given (bytes "parsed") flag o.parsed (given (bytes "encoding") text o.encoding []))

stream_params : Option GetPriceUpdatesStreamOptions → Dict GoString Param
unfolding given
stream_params none = []
stream_params (some o) = given (bytes "ignore_invalidPriceIds") flag o.ignore_invalid_price_ids (
    given (bytes "benchmarks_only") flag o.benchmarks_only (
      given (bytes "allow_unordered") flag o.allow_unordered
        (given (bytes "parsed") flag o.parsed (given (bytes "encoding") text o.encoding []))))

caps_params : Option GetLatestPublisherCapsOptions → Dict GoString Param
unfolding given
caps_params none = []
caps_params (some o) =
    given (bytes "parsed") flag o.parsed (given (bytes "encoding") text o.encoding [])

-- The URL with the ids, then the options.
unfoldable pub with_ids : List GoString → Dict GoString Param → Url → Url
unfolding add_values append_url_search_params
with_ids ids params u =
    append_url_search_params params (record u { query = add_values (bytes "ids[]") ids u.query })

pub price_feeds_url : Option GetPriceFeedsOptions → HermesClient → Url
unfolding build_url price_feeds_params append_url_search_params
price_feeds_url options c =
    append_url_search_params (price_feeds_params options) (build_url c (bytes "v2/priceFeeds"))

unfoldable pub latest_price_updates_url : List GoString → Option UpdateOptions → HermesClient → Url
unfolding build_url with_ids update_params
latest_price_updates_url ids options c =
    with_ids ids (update_params options) (build_url c (bytes "v2/updates/price/latest"))

unfoldable pub price_updates_at_timestamp_url :
    ℤ → List GoString → Option UpdateOptions → HermesClient → Url
unfolding build_url with_ids update_params format_int
price_updates_at_timestamp_url publish_time ids options c =
    with_ids ids (update_params options)
      (build_url c (bytes "v2/updates/price/" ++ format_int publish_time))

unfoldable pub latest_twaps_url : List GoString → ℤ → Option UpdateOptions → HermesClient → Url
unfolding build_url with_ids update_params format_int
latest_twaps_url ids window_seconds options c =
    with_ids ids (update_params options)
      (build_url c (bytes "v2/updates/twap/" ++ format_int window_seconds ++ bytes "/latest"))

pub latest_publisher_caps_url : Option GetLatestPublisherCapsOptions → HermesClient → Url
unfolding build_url caps_params append_url_search_params
latest_publisher_caps_url options c =
    append_url_search_params (caps_params options)
      (build_url c (bytes "v2/updates/publisher_stake_caps/latest"))

pub price_updates_stream_url :
    List GoString → Option GetPriceUpdatesStreamOptions → HermesClient → Url
unfolding build_url with_ids stream_params
price_updates_stream_url ids options c =
    with_ids ids (stream_params options) (build_url c (bytes "v2/updates/price/stream"))
