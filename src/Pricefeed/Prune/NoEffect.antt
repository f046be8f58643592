-- ===== src/Pricefeed/Prune/NoEffect.antt =====
-- What the loop of `prune` does to the entries that it collects.
use mathlib.Core.Bool.{not}
use pricefeeding.Prelude.{
  ℕ, ◌≡◌, refl, Bool, true, false, ◌||◌, List, [], ◌∷◌, arith, All, eqb, ltb, Option-cases,
  Bool-cases, inl, inr, if◌then◌else◌,
}
use pricefeeding.Prelude.Key.{GoString, nat_key, string_key}
use pricefeeding.Prelude.Dict.{Dict, get, Distinct, Values, get-entries}
use pricefeeding.Pricefeed.PriceCache.{PriceCache, max_cache_size_bytes}
use pricefeeding.Pricefeed.Prune.{
  CacheEntry, entry_key, collect, sort_entries, latest_entries, newest_timestamp, remove_entry,
  remove_oldest, total_size, prune,
}
use pricefeeding.Pricefeed.Prune.Entries.{
  Recorded, Recorded-timestamp, IsLatest, IsLatest-nil, collect-Recorded, sort_entries-Recorded,
  latest_entries-IsLatest,
}
use pricefeeding.Pricefeed.Sizes.{Estimators, lt64, sub64}
use pricefeeding.Types.Morpher.{PriceInfo}

-- The networks are distinct, and so are the identifiers of each network.
pub record IsMap (pc : PriceCache) : Type 0 where
  pub networks : Distinct pc.prices
  pub identifiers : Values Distinct pc.prices

module _ (prices : Dict ℕ (Dict GoString PriceInfo)) where
  keep_state :
      {S : Type 0} (stop keep : Bool) (state kept removed : S)
      → keep ≡ true
      → kept ≡ state
      → (if stop then state else if keep then kept else removed) ≡ state
  keep_state true keep state kept removed k e = refl
  keep_state false keep state kept removed k e = rw k e

  -- No entry is older than the latest of its key.
  newest-kept :
      (latest : Dict GoString CacheEntry) (entry : CacheEntry)
      → IsLatest prices latest
      → Recorded prices entry
      → (eqb entry.timestamp (newest_timestamp latest entry)
          || ltb (newest_timestamp latest entry) entry.timestamp)
        ≡ true
  unfolding newest_timestamp
  newest-kept latest entry h r = elim (Option-cases (get (entry_key entry) latest)) [
    | inl e ↦ rw (e, newest_timestamp) (ground arith)
    | inr (last, e) ↦
        let (rl, k) = h (entry_key entry) last e in
        let t = Recorded-timestamp prices last entry rl r k in
        rw (e, newest_timestamp, t) (ground arith)
  ]

  remove_oldest-same :
      (latest : Dict GoString CacheEntry) (total : ℕ) (l : List CacheEntry)
      (state : Dict ℕ (Dict GoString PriceInfo) × ℕ)
      → IsLatest prices latest
      → All (Recorded prices) l
      → remove_oldest latest total l state ≡ state
  unfolding remove_oldest
  remove_oldest-same latest total [] state h a = refl
  remove_oldest-same latest total (entry ∷ l) state h a =
      let kept = newest-kept latest entry h a.0 in
      let rest = remove_oldest-same latest total l state h a.1 in
      keep_state (not (lt64 max_cache_size_bytes (sub64 total state.1)))
        (eqb entry.timestamp (newest_timestamp latest entry)
          || ltb (newest_timestamp latest entry) entry.timestamp)
        state (remove_oldest latest total l state)
        (remove_oldest latest total l (remove_entry entry state)) kept rest

-- Whatever the estimators and the size, `prune` leaves a cache without repeated keys as it is.
pub prune-same : (estimators : Estimators) (pc : PriceCache) → IsMap pc → prune estimators pc ≡ pc
unfolding prune
prune-same estimators pc h =
    let entries = collect estimators pc.prices in
    let recorded = sort_entries-Recorded pc.prices entries (
      collect-Recorded pc.prices estimators pc.prices (get-entries pc.prices h.networks)
        h.identifiers) in
    let latest = latest_entries [] (sort_entries entries) in
    let same =
      remove_oldest-same pc.prices latest (total_size 0 entries) (sort_entries entries)
        (pc.prices, 0)
        (latest_entries-IsLatest pc.prices (sort_entries entries) [] recorded
          (IsLatest-nil pc.prices))
        recorded in
    elim (Bool-cases (not (lt64 max_cache_size_bytes (total_size 0 entries)))) [
      | inl under ↦ rw under
      | inr over ↦ rw (over, same)
    ]
