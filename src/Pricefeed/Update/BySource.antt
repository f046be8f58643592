-- ===== src/Pricefeed/Update/BySource.antt =====
-- The maps that `GetAllPrices` and `GetAllPricesBySource` return.
use pricefeeding.Prelude.{
  ℕ, ◌≡◌, refl, sym, ap, ◌∙◌, Bool, true, false, [], ◌∷◌, ◌++◌, Option, none, some, arith,
  Option-cases, Bool-cases, inl, inr,
}
use pricefeeding.Prelude.Key.{GoString, bytes, nat_key, string_key, string_beq, string_beq_iff}
use pricefeeding.Prelude.Dict.{Dict, get, put, get-put, get-nil, Distinct}
use pricefeeding.Pricefeed.PriceCache.{
  PriceCache, make_prefixed_identifier, get_price, copy_prices, get_all_prices, cut_prefix,
  collect_by_prefix, get_all_prices_by_source,
}
use pricefeeding.Pricefeed.Update.Invariant.{WellFormed, prices_of, prices_of-Distinct}
use pricefeeding.Pricefeed.Update.Reads.{found, found-get_price}
use pricefeeding.Types.Morpher.{PriceInfo}

-- A value of the left, or else of the right.
abbrev pub first_of_two : Option PriceInfo → Option PriceInfo → Option PriceInfo
first_of_two (some v) o = some v
first_of_two none o = o

cut_prefix-append : (p t : GoString) → cut_prefix p (p ++ t) ≡ some t
unfolding cut_prefix
cut_prefix-append [] t = refl
cut_prefix-append (c ∷ p) t = ground (arith, cut_prefix-append p t)

cut_prefix_sound : (p s t : GoString) → cut_prefix p s ≡ some t → s ≡ p ++ t
unfolding cut_prefix
cut_prefix_sound [] s t h = ground arith
cut_prefix_sound (c ∷ p) [] t h = cc
cut_prefix_sound (c ∷ p) (d ∷ s) t h = ground (arith, cut_prefix_sound p s t)

true_ne_false : {b : Bool} → b ≡ true → b ≡ false → ⊥
true_ne_false h k = cc

first_of_two-none : (o p : Option PriceInfo) → p ≡ none → first_of_two o p ≡ o
first_of_two-none o p h = ground arith

cut-none : (p s id : GoString) → cut_prefix p s ≡ none → string_beq s (p ++ id) ≡ false
cut-none p s id h = elim (Bool-cases (string_beq s (p ++ id))) [
  | inl e ↦
      let q = (string_beq_iff s (p ++ id)).0 e in
      cc (h, ap (cut_prefix p) q, cut_prefix-append p id)
  | inr e ↦ e
]

cut_same : (p s j id : GoString) → cut_prefix p s ≡ some j → s ≡ p ++ id → j ≡ id
cut_same p s j id h q = ground (arith, ap (cut_prefix p) q, cut_prefix-append p id)

cut-some :
    (p s j id : GoString) → cut_prefix p s ≡ some j → string_beq s (p ++ id) ≡ string_beq j id
cut-some p s j id h =
    let q = cut_prefix_sound p s j h in
    elim (Bool-cases (string_beq j id)) [
      | inl e ↦ (string_beq_iff s (p ++ id)).1 (q ∙ ap (◌++◌ p) ((string_beq_iff j id).0 e)) ∙ sym e
      | inr e ↦ elim (Bool-cases (string_beq s (p ++ id))) [
        | inl f ↦ absurd (
            true_ne_false
              ((string_beq_iff j id).1 (cut_same p s j id h ((string_beq_iff s (p ++ id)).0 f))) e)
        | inr f ↦ f ∙ sym e
      ]
    ]

get-collect :
    (p id : GoString) (result l : Dict GoString PriceInfo)
    → Distinct l
    → get id (collect_by_prefix p result l) ≡ first_of_two (get (p ++ id) l) (get id result)
unfolding collect_by_prefix get
get-collect p id result [] d = refl
get-collect p id result ((s, v) ∷ l) d = elim (Option-cases (cut_prefix p s)) [
  | inl e ↦ ground (arith, cut-none p s id e, get-collect p id result l d.1)
  | inr (j, e) ↦ ground (
    arith,
    cut-some p s j id e,
    get-collect p id (put j v result) l d.1,
    get-put j id v result,
    string_beq_iff s (p ++ id),
    string_beq_iff j id,
  )
]

copy-get :
    (k : GoString) (result l : Dict GoString PriceInfo)
    → Distinct l
    → get k (copy_prices result l) ≡ first_of_two (get k l) (get k result)
unfolding copy_prices get
copy-get k result [] d = refl
copy-get k result ((s, v) ∷ l) d =
    ground (arith, copy-get k (put s v result) l d.1, get-put s k v result, string_beq_iff s k)

-- `GetAllPrices` returns a copy of the network's map.
pub get-get_all_prices :
    (n : ℕ) (k : GoString) (pc : PriceCache)
    → WellFormed pc
    → get k (get_all_prices n pc) ≡ get k (prices_of n pc)
unfolding get_all_prices
get-get_all_prices n k pc h =
    copy-get k [] (prices_of n pc) (prices_of-Distinct n pc h.is_map)
    ∙ first_of_two-none (get k (prices_of n pc)) (get k []) (get-nil k)

-- In a well-formed cache the entry of `GetAllPricesBySource` for an identifier is what `GetPrice` reads for it.
pub get-by_source :
    (n : ℕ) (source id : GoString) (pc : PriceCache)
    → WellFormed pc
    → get id (get_all_prices_by_source n source pc) ≡ found (get_price n id source pc)
unfolding get_all_prices_by_source make_prefixed_identifier
get-by_source n source id pc h =
    get-collect (source ++ bytes ":") id [] (prices_of n pc) (prices_of-Distinct n pc h.is_map)
    ∙ first_of_two-none (get ((source ++ bytes ":") ++ id) (prices_of n pc)) (get id [])
        (get-nil id)
    ∙ sym (found-get_price n id source pc)
