-- ===== src/Pricefeed/Monitor/Update.antt =====
-- What the goroutines of `updateAllPrices` do to the cache.
use pricefeeding.Prelude.{
  ℕ, ◌≡◌, refl, sym, subst, ◌⊎◌, inl, inr, List, [], ◌∷◌, ◌++◌, Option, none, some, arith,
  Option-cases,
}
use mathlib.Core.Option
use pricefeeding.Prelude.Key.{GoString, bytes, nat_key, string_key}
use pricefeeding.Prelude.Dict.{get}
use pricefeeding.Chainlink.Client.{Fetched, price, failed}
use pricefeeding.Chainlink.Client.Fetch.{fetch_reads, fetch_keeps, Keeps, with_default_retries}
use pricefeeding.Pricefeed.PriceCache.{PriceCache}
use pricefeeding.Pricefeed.Update.{update_price}
use pricefeeding.Pricefeed.Monitor.{
  ClPriceMonitor, World, adapter, switch_adapted, best_client_adapted, fetch_options, fetch_feed,
  store_fetched, update_feed, run_tasks, trim_prefix,
}
use pricefeeding.Types.Morpher.{ChainlinkPrice, chainlink, source_chainlink}

map-some : {A B : Type 0} (o : Option A) (b c : B) → Option.map (λ a. b) o ≡ some c → c ≡ b
map-some none b c h = cc
map-some (some a) b c h = cc

fetched-price : (r : Fetched) (p : ChainlinkPrice) → some r ≡ some (price p) → r ≡ price p
fetched-price r p h = ground arith

module _ {C : Type 0} where
  module _ (c : PriceCache) where
    abbrev HasCache : ClPriceMonitor C → Type 0
    HasCache pm = pm.cache ≡ c

    switch-HasCache :
        (w : World C) (id : ℕ) (pm : ClPriceMonitor C)
        → HasCache pm
        → HasCache (switch_adapted w id pm).0
    unfolding switch_adapted
    switch-HasCache w id pm h = ground arith

    best_client-HasCache :
        (id : ℕ) (pm : ClPriceMonitor C) → HasCache pm → HasCache (best_client_adapted id pm).0
    unfolding best_client_adapted
    best_client-HasCache id pm h = ground arith

  -- A fetch keeps what the adapter's operations keep.
  fetch_feed-keeps :
      (P : ClPriceMonitor C → Type 0) (w : World C)
      → ((id : ℕ) (pm : ClPriceMonitor C) → P pm → P (switch_adapted w id pm).0)
      → ((id : ℕ) (pm : ClPriceMonitor C) → P pm → P (best_client_adapted id pm).0)
      → (n : ℕ) (addr : GoString) (pm : ClPriceMonitor C) → P pm
      → P (fetch_feed w n addr pm).0
  unfolding fetch_feed
  fetch_feed-keeps P w f g n addr pm h = elim (Option-cases (get n pm.clients)) [
    | inl e ↦ rw (e, fetch_feed) h
    | inr (client, e) ↦
        let opts = fetch_options w n addr client pm in
        rw (e, fetch_feed)
          (fetch_keeps w.contract P opts
            (λ switcher given.
              subst (Keeps w.contract (with_default_retries w.contract opts) P)
                (sym (map-some pm.network_config (adapter w) switcher given))
                (record { switch = f n; best_client = g n }))
            pm h)
  ]

  fetch_feed-cache :
      (w : World C) (n : ℕ) (addr : GoString) (pm : ClPriceMonitor C)
      → (fetch_feed w n addr pm).0.cache ≡ pm.cache
  fetch_feed-cache w n addr pm =
      fetch_feed-keeps (HasCache pm.cache) w (switch-HasCache pm.cache w)
        (best_client-HasCache pm.cache) n addr pm refl

  -- A fetched price is that of the feed.
  fetch_feed-price :
      (w : World C) (n : ℕ) (addr : GoString) (pm : ClPriceMonitor C) (p : ChainlinkPrice)
      → (fetch_feed w n addr pm).1 ≡ some (price p)
      → (p.feed_address ≡ addr) × (p.network_id ≡ n)
  unfolding fetch_feed
  fetch_feed-price w n addr pm p h = elim (Option-cases (get n pm.clients)) [
    | inl e ↦ absurd (ground arith)
    | inr (client, e) ↦
        let opts = fetch_options w n addr client pm in
        let r = fetch_reads w.contract opts pm p (fetched-price _ p (rw (e, fetch_feed) at h)) in
        (r.feed_address, r.network_id)
  ]

  store_fetched-cache :
      (w : World C) (n : ℕ) (addr : GoString) (pm : ClPriceMonitor C)
      (result : ClPriceMonitor C × Option Fetched)
      → result.0.cache ≡ pm.cache
      → ((p : ChainlinkPrice)
          → result.1 ≡ some (price p)
          → (p.feed_address ≡ addr) × (p.network_id ≡ n))
      → ((store_fetched w n addr result).cache ≡ pm.cache)
        ⊎ ((p : ChainlinkPrice) × (p.network_id ≡ n)
            × ((store_fetched w n addr result).cache
                ≡ update_price w.estimators n p.feed_address source_chainlink
                    (chainlink p)
                    pm.cache))
  unfolding store_fetched
  store_fetched-cache w n addr pm (pm', none) c f = inl c
  store_fetched-cache w n addr pm (pm', some (failed e)) c f = inl c
  store_fetched-cache w n addr pm (pm', some (price p)) c f =
      inr (p, (f p refl).1, rw (c, (f p refl).0) refl)

  -- A goroutine leaves the cache as it is, or updates it by a price of its feed.
  pub update_feed-cache :
      (w : World C) (n : ℕ) (s : GoString) (pm : ClPriceMonitor C)
      → ((update_feed w n s pm).cache ≡ pm.cache)
        ⊎ ((p : ChainlinkPrice) × (p.network_id ≡ n)
            × ((update_feed w n s pm).cache
                ≡ update_price w.estimators n p.feed_address source_chainlink
                    (chainlink p)
                    pm.cache))
  unfolding update_feed
  update_feed-cache w n s pm =
      store_fetched-cache w n (trim_prefix (source_chainlink ++ bytes ":") s) pm
        (fetch_feed w n (trim_prefix (source_chainlink ++ bytes ":") s) pm)
        (fetch_feed-cache w n (trim_prefix (source_chainlink ++ bytes ":") s) pm)
        (fetch_feed-price w n (trim_prefix (source_chainlink ++ bytes ":") s) pm)

  pub run_tasks-keeps :
      (P : PriceCache → Type 0)
      → ((w : World C) (n : ℕ) (s : GoString) (pm : ClPriceMonitor C)
          → P pm.cache
          → P (update_feed w n s pm).cache)
      → (world : ℕ → GoString → World C) (l : List (ℕ × GoString)) (pm : ClPriceMonitor C)
      → P pm.cache
      → P (run_tasks world l pm).cache
  unfolding run_tasks
  run_tasks-keeps P f world [] pm h = h
  run_tasks-keeps P f world ((n, s) ∷ l) pm h =
      run_tasks-keeps P f world l (update_feed (world n s) n s pm) (f (world n s) n s pm h)
