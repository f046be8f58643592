-- ===== src/Pricefeed/Feeds.antt =====
-- The lists of feeds, and what `list_feed` does to them.
use mathlib.Core.Bool.{not}
use pricefeeding.Prelude.{
  ℕ, ◌≡◌, refl, ◌⊎◌, eqb, Bool, true, false, ◌||◌, ◌&&◌, List, [], ◌∷◌, ◌++◌, some, arith, or_else,
}
use pricefeeding.Prelude.Key.{GoString, nat_key, string_key, string_beq, string_beq_iff, eqb_iff}
use pricefeeding.Prelude.Dict.{Dict, get, get-put, Distinct, put-Distinct}
use pricefeeding.Pricefeed.PriceCache.{contains, list_feed}

-- No feed stands twice.
unfoldable pub once : List GoString → Bool
unfolding contains
once [] = true
once (s ∷ rest) = not (contains s rest) && once rest

contains-snoc :
    (s t : GoString) (l : List GoString)
    → contains s (l ++ t ∷ []) ≡ (contains s l || string_beq t s)
unfolding contains
contains-snoc s t [] = ground arith
contains-snoc s t (u ∷ l) = ground (arith, contains-snoc s t l)

once-snoc :
    (t : GoString) (l : List GoString)
    → contains t l ≡ false
    → once l ≡ true
    → once (l ++ t ∷ []) ≡ true
unfolding once
once-snoc t [] h k = refl
once-snoc t (u ∷ l) h k =
    ground (arith, contains-snoc u t l, once-snoc t l, string_beq_iff t u, string_beq_iff u t)

module _ (n : ℕ) (s : GoString) (feeds : Dict ℕ (List GoString)) where
  pub list_feed-Distinct : Distinct feeds → Distinct (list_feed n s feeds)
  unfolding list_feed
  list_feed-Distinct d = ground (arith, put-Distinct n (or_else [] (get n feeds) ++ s ∷ []) feeds d)

  pub contains-list_feed :
      (m : ℕ) (t : GoString)
      → contains t (or_else [] (get m (list_feed n s feeds)))
        ≡ (contains t (or_else [] (get m feeds)) || (eqb n m && string_beq s t))
  unfolding list_feed
  contains-list_feed m t = ground (
    arith,
    get-put n m (or_else [] (get n feeds) ++ s ∷ []) feeds,
    contains-snoc t s (or_else [] (get n feeds)),
    string_beq_iff s t,
    eqb_iff n m,
  )

  pub once-list_feed :
      (m : ℕ)
      → once (or_else [] (get m feeds)) ≡ true
      → once (or_else [] (get m (list_feed n s feeds))) ≡ true
  unfolding list_feed
  once-list_feed m h = ground (
    arith,
    get-put n m (or_else [] (get n feeds) ++ s ∷ []) feeds,
    once-snoc s (or_else [] (get n feeds)),
    eqb_iff n m,
  )

  pub get-list_feed :
      (m : ℕ) (l : List GoString)
      → get m (list_feed n s feeds) ≡ some l
      → (n ≡ m) ⊎ (get m feeds ≡ some l)
  unfolding list_feed
  get-list_feed m l h =
      ground (arith, get-put n m (or_else [] (get n feeds) ++ s ∷ []) feeds, eqb_iff n m)
