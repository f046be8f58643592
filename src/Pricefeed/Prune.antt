-- ===== src/Pricefeed/Prune.antt =====
-- pricefeed/price_cache.go: the size of the cache, and `prune`.
pub mod Entries
pub mod NoEffect
use mathlib.Core.Bool.{not}
use pricefeeding.Prelude.{
  ℕ, ◌+◌, ◌%◌, ◌^◌, Bool, true, false, ◌||◌, List, [], ◌∷◌, ◌++◌, Option, none, some, eqb, ltb,
  length, or_else, if◌then◌else◌,
}
use pricefeeding.Prelude.Key.{GoString, bytes, nat_key, string_key}
use pricefeeding.Prelude.Dict.{Dict, get, put, delete}
use pricefeeding.Pricefeed.PriceCache.{PriceCache, max_cache_size_bytes}
use pricefeeding.Pricefeed.Sizes.{Estimators, estimate_price_info_size, ◌⊕◌, sub64, lt64}
use pricefeeding.Strconv.{itoa}
use pricefeeding.Types.Morpher.{PriceInfo, get_timestamp}

key_size : GoString → ℕ
key_size s = (length s % 2 ^ 64) ⊕ 8

module _ (estimators : Estimators) where
  network_size : ℕ → Dict GoString PriceInfo → ℕ
  unfolding key_size
  network_size size [] = size
  network_size size ((prefixed, price) ∷ rest) =
      network_size (size ⊕ key_size prefixed ⊕ estimate_price_info_size estimators (some price))
        rest

  prices_size : ℕ → Dict ℕ (Dict GoString PriceInfo) → ℕ
  unfolding network_size
  prices_size size [] = size
  prices_size size ((_, prices) ∷ rest) = prices_size (network_size (size ⊕ 8) prices) rest

feed_list_size : ℕ → List GoString → ℕ
unfolding key_size
feed_list_size size [] = size
feed_list_size size (feed ∷ rest) = feed_list_size (size ⊕ key_size feed) rest

feeds_size : ℕ → Dict ℕ (List GoString) → ℕ
unfolding feed_list_size
feeds_size size [] = size
feeds_size size ((_, list) ∷ rest) = feeds_size (feed_list_size (size ⊕ 8) list) rest

-- `estimateSizeUnlocked`
unfoldable pub estimate_size : Estimators → PriceCache → ℕ
unfolding prices_size feeds_size
estimate_size estimators pc = feeds_size (prices_size estimators 0 pc.prices) pc.feeds

pub record CacheEntry : Type 0 where
  pub network_id : ℕ
  pub prefixed : GoString
  pub price_info : PriceInfo
  pub timestamp : ℕ
  pub entry_size : ℕ

module _ (estimators : Estimators) where
  collect_network : ℕ → Dict GoString PriceInfo → List CacheEntry
  unfolding key_size
  collect_network network_id [] = []
  collect_network network_id ((prefixed, price) ∷ rest) =
      record {
        network_id = network_id;
        prefixed = prefixed;
        price_info = price;
        timestamp = get_timestamp price;
        entry_size = key_size prefixed ⊕ estimate_price_info_size estimators (some price);
      }
      ∷ collect_network network_id rest

  -- The loop that collects all entries.
  pub collect : Dict ℕ (Dict GoString PriceInfo) → List CacheEntry
  unfolding collect_network
  collect [] = []
  collect ((network_id, prices) ∷ rest) = collect_network network_id prices ++ collect rest

pub total_size : ℕ → List CacheEntry → ℕ
total_size size [] = size
total_size size (entry ∷ rest) = total_size (size ⊕ entry.entry_size) rest

-- sort.Slice by the timestamps, the oldest first.
insert_entry : CacheEntry → List CacheEntry → List CacheEntry
insert_entry entry [] = entry ∷ []
insert_entry entry (other ∷ rest) =
    if ltb other.timestamp entry.timestamp
    then other ∷ insert_entry entry rest
    else entry ∷ other ∷ rest

pub sort_entries : List CacheEntry → List CacheEntry
unfolding insert_entry
sort_entries [] = []
sort_entries (entry ∷ rest) = insert_entry entry (sort_entries rest)

-- fmt.Sprintf("%d:%s", entry.networkID, entry.prefixed)
pub entry_key : CacheEntry → GoString
entry_key entry = itoa entry.network_id ++ 58 ∷ entry.prefixed

-- The loop that keeps the most recent entry of each key.
pub latest_entries : Dict GoString CacheEntry → List CacheEntry → Dict GoString CacheEntry
latest_entries latest [] = latest
latest_entries latest (entry ∷ rest) =
    latest_entries
      (elim (get (entry_key entry) latest) [
        | none ↦ put (entry_key entry) entry latest
        | some existing ↦
            if ltb existing.timestamp entry.timestamp
            then put (entry_key entry) entry latest
            else latest
      ])
      rest

-- delete(networkData, prefixed), and the network too where nothing is left; the size counts only
-- where the network is there.
pub remove_entry :
    CacheEntry → Dict ℕ (Dict GoString PriceInfo) × ℕ → Dict ℕ (Dict GoString PriceInfo) × ℕ
remove_entry entry (prices, removed) = elim (get entry.network_id prices) [
  | none ↦ (prices, removed)
  | some network ↦
      let left = delete entry.prefixed network in
      elim left [
        | [] ↦ (delete entry.network_id prices, removed ⊕ entry.entry_size)
        | other ↦ (put entry.network_id other prices, removed ⊕ entry.entry_size)
      ]
]

-- latest.timestamp; a key that is not there gives the zero time.
pub newest_timestamp : Dict GoString CacheEntry → CacheEntry → ℕ
newest_timestamp latest entry = elim (get (entry_key entry) latest) [
  | none ↦ 0
  | some e ↦ e.timestamp
]

-- The loop that removes the oldest entries. An entry that is the latest of its key stays.
pub remove_oldest :
    Dict GoString CacheEntry
    → ℕ
    → List CacheEntry
    → Dict ℕ (Dict GoString PriceInfo) × ℕ
    → Dict ℕ (Dict GoString PriceInfo) × ℕ
unfolding remove_entry
remove_oldest latest total [] state = state
remove_oldest latest total (entry ∷ rest) state =
    let newest = newest_timestamp latest entry in
    let keep = remove_oldest latest total rest state in
    let remove = remove_oldest latest total rest (remove_entry entry state) in
    if not (lt64 max_cache_size_bytes (sub64 total state.1))
    then state
    else if eqb entry.timestamp newest || ltb newest entry.timestamp
    then keep
    else remove

unfoldable pub prune : Estimators → PriceCache → PriceCache
unfolding entry_key newest_timestamp collect total_size sort_entries latest_entries remove_oldest
prune estimators pc =
    let entries = collect estimators pc.prices in
    let total = total_size 0 entries in
    if not (lt64 max_cache_size_bytes total)
    then pc
    else let sorted = sort_entries entries in
      let left = remove_oldest (latest_entries [] sorted) total sorted (pc.prices, 0) in
      record pc { prices = left.0 }
