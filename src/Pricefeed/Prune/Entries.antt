-- ===== src/Pricefeed/Prune/Entries.antt =====
-- What `prune` collects: each entry is the price that the cache has under its network and identifier.
use pricefeeding.Prelude.{
  ℕ, ◌≡◌, refl, List, [], ◌∷◌, some, arith, All, All-append, ltb, Option-cases, Bool-cases, inl,
  inr,
}
use pricefeeding.Prelude.Key.{GoString, nat_key, string_key, string_beq_iff}
use pricefeeding.Prelude.Dict.{Dict, get, put, get-nil, get-put, Distinct, Values, get-entries}
use pricefeeding.Pricefeed.Prune.{
  CacheEntry, collect_network, collect, insert_entry, sort_entries, entry_key, latest_entries,
}
use pricefeeding.Pricefeed.Sizes.{Estimators}
use pricefeeding.Strconv.Separator.{tagged_injective}
use pricefeeding.Types.Morpher.{PriceInfo, get_timestamp}

module _ (prices : Dict ℕ (Dict GoString PriceInfo)) where
  pub record Recorded (entry : CacheEntry) : Type 0 where
    pub network : Dict GoString PriceInfo
    pub in_network : get entry.network_id prices ≡ some network
    pub in_prices : get entry.prefixed network ≡ some entry.price_info
    pub dated : entry.timestamp ≡ get_timestamp entry.price_info

  -- Entries with one key have one timestamp.
  pub Recorded-timestamp :
      (a b : CacheEntry)
      → Recorded a
      → Recorded b
      → entry_key a ≡ entry_key b
      → a.timestamp ≡ b.timestamp
  unfolding entry_key
  Recorded-timestamp a b ra rb e =
      let (same_id, same_text) =
        tagged_injective a.network_id b.network_id a.prefixed b.prefixed e in
      cc (
        ra.in_network, rb.in_network, ra.in_prices, rb.in_prices, ra.dated, rb.dated, same_id,
        same_text,
      )

  module _ (estimators : Estimators) where
    collect_network-Recorded :
        (id : ℕ) (network l : Dict GoString PriceInfo)
        → get id prices ≡ some network
        → All (λ e. get e.0 network ≡ some e.1) l
        → All Recorded (collect_network estimators id l)
    unfolding collect_network
    collect_network-Recorded id network [] g a = tt
    collect_network-Recorded id network ((prefixed, price) ∷ l) g a = (
      record { network = network; in_network = g; in_prices = a.0; dated = refl },
      collect_network-Recorded id network l g a.1,
    )

    pub collect-Recorded :
        (l : Dict ℕ (Dict GoString PriceInfo))
        → All (λ e. get e.0 prices ≡ some e.1) l
        → Values Distinct l
        → All Recorded (collect estimators l)
    unfolding collect
    collect-Recorded [] a d = tt
    collect-Recorded ((id, network) ∷ l) a d =
        All-append Recorded (collect_network estimators id network) (collect estimators l)
          (collect_network-Recorded id network network a.0 (get-entries network d.0))
          (collect-Recorded l a.1 d.1)

  insert_entry-Recorded :
      (entry : CacheEntry) (l : List CacheEntry)
      → Recorded entry
      → All Recorded l
      → All Recorded (insert_entry entry l)
  unfolding insert_entry
  insert_entry-Recorded entry [] h a = (h, tt)
  insert_entry-Recorded entry (other ∷ l) h a =
      elim (Bool-cases (ltb other.timestamp entry.timestamp)) [
        | inl e ↦ rw e (a.0, insert_entry-Recorded entry l h a.1)
        | inr e ↦ rw e (h, a)
      ]

  pub sort_entries-Recorded : (l : List CacheEntry) → All Recorded l → All Recorded (sort_entries l)
  unfolding sort_entries
  sort_entries-Recorded [] a = tt
  sort_entries-Recorded (entry ∷ l) a =
      insert_entry-Recorded entry (sort_entries l) a.0 (sort_entries-Recorded l a.1)

  -- What stands in the map of latest entries is recorded, under its own key.
  abbrev pub IsLatest : Dict GoString CacheEntry → Type 0
  IsLatest latest =
      (k : GoString) (entry : CacheEntry)
      → get k latest ≡ some entry
      → Recorded entry × (entry_key entry ≡ k)

  pub IsLatest-nil : IsLatest []
  IsLatest-nil k entry e = cc (get-nil {V = CacheEntry} k)

  put-IsLatest :
      (entry : CacheEntry) (latest : Dict GoString CacheEntry)
      → Recorded entry
      → IsLatest latest
      → IsLatest (put (entry_key entry) entry latest)
  put-IsLatest entry latest r h k found g = ground (
    arith,
    get-put (entry_key entry) k entry latest,
    h k found,
    string_beq_iff (entry_key entry) k,
  )

  pub latest_entries-IsLatest :
      (l : List CacheEntry) (latest : Dict GoString CacheEntry)
      → All Recorded l
      → IsLatest latest
      → IsLatest (latest_entries latest l)
  unfolding latest_entries
  latest_entries-IsLatest [] latest a h = h
  latest_entries-IsLatest (entry ∷ l) latest a h =
      elim (Option-cases (get (entry_key entry) latest)) [
        | inl e ↦ rw e (
            latest_entries-IsLatest l (put (entry_key entry) entry latest) a.1
              (put-IsLatest entry latest a.0 h))
        | inr (existing, e) ↦ elim (Bool-cases (ltb existing.timestamp entry.timestamp)) [
          | inl newer ↦
              rw (e, newer)
                (latest_entries-IsLatest l (put (entry_key entry) entry latest) a.1
                  (put-IsLatest entry latest a.0 h))
          | inr older ↦ rw (e, older) (latest_entries-IsLatest l latest a.1 h)
        ]
      ]
