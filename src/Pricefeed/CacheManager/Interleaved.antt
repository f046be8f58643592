-- ===== src/Pricefeed/CacheManager/Interleaved.antt =====
-- pricefeed/price_cache.go: `UpdatePrice` gives the lock back between its write and the pruning, so that
-- the writes and prunings of several goroutines come in any order.
use pricefeeding.Prelude.{ℕ, ◌≡◌, refl, ap, ◌∙◌, sym, List, [], ◌∷◌}
use pricefeeding.Prelude.Key.{GoString}
use pricefeeding.Pricefeed.PriceCache.{PriceCache, make_prefixed_identifier}
use pricefeeding.Pricefeed.Prune.{prune}
use pricefeeding.Pricefeed.Prune.NoEffect.{prune-same}
use pricefeeding.Pricefeed.Sizes.{Estimators}
use pricefeeding.Pricefeed.Update.{store_price, update_price}
use pricefeeding.Pricefeed.Update.Invariant.{
  WellFormed, update_price-store_price, update_price-WellFormed,
}
use pricefeeding.Types.Morpher.{PriceInfo}

-- A call of `UpdatePrice`.
pub record Update : Type 0 where
  pub network_id : ℕ
  pub identifier : GoString
  pub source : GoString
  pub price : PriceInfo

pub data Part : Type 0 where
  write : Update → Part
  pruning : Part

module _ (estimators : Estimators) where
  -- What a goroutine does while it holds the lock.
  unfoldable pub run_part : Part → PriceCache → PriceCache
  run_part (write u) pc =
      store_price u.network_id (make_prefixed_identifier u.source u.identifier) u.price pc
  run_part pruning pc = prune estimators pc

  unfoldable pub run_parts : List Part → PriceCache → PriceCache
  unfolding run_part
  run_parts [] pc = pc
  run_parts (part ∷ parts) pc = run_parts parts (run_part part pc)

  -- The calls one after the other.
  unfoldable pub run_updates : List Update → PriceCache → PriceCache
  run_updates [] pc = pc
  run_updates (u ∷ us) pc =
      run_updates us (update_price estimators u.network_id u.identifier u.source u.price pc)

  -- The calls in the order of their writes.
  abbrev pub updates_of : List Part → List Update
  updates_of [] = []
  updates_of (write u ∷ parts) = u ∷ updates_of parts
  updates_of (pruning ∷ parts) = updates_of parts

  -- However the writes and prunings of calls of UpdatePrice interleave on a well-formed cache, it is in
  -- the end as after the calls one after the other, in the order of their writes.
  pub run_parts-run_updates :
      (parts : List Part) (pc : PriceCache)
      → WellFormed pc
      → run_parts parts pc ≡ run_updates (updates_of parts) pc
  unfolding run_parts run_updates
  run_parts-run_updates [] pc h = refl
  run_parts-run_updates (write u ∷ parts) pc h =
      let e = update_price-store_price estimators u.network_id u.identifier u.source u.price pc h in
      ap (run_parts parts) (sym e)
      ∙ run_parts-run_updates parts _
          (update_price-WellFormed estimators u.network_id u.identifier u.source u.price pc h)
  run_parts-run_updates (pruning ∷ parts) pc h =
      ap (run_parts parts) (prune-same estimators pc h.is_map) ∙ run_parts-run_updates parts pc h
