-- ===== src/Pricefeed/Update/Spec.antt =====
-- The cache against an abstract one: a function from network, source and identifier to the price that
-- was written last.
use pricefeeding.Prelude.{
  ℕ, ◌≡◌, refl, sym, ◌∙◌, Bool, true, ◌&&◌, List, [], ◌∷◌, Option, none, some, arith, eqb, All,
  Bool-eq, if◌then◌else◌,
}
use mathlib.Core.List.{append_assoc}
use pricefeeding.Prelude.Key.{GoString, bytes, nat_key, string_key, string_beq, string_beq_iff}
use pricefeeding.Prelude.Dict.{get}
use pricefeeding.Pricefeed.PriceCache.{
  PriceCache, new_price_cache, make_prefixed_identifier, add_feed, get_price,
}
use pricefeeding.Pricefeed.Sizes.{Estimators}
use pricefeeding.Pricefeed.Update.{update_price}
use pricefeeding.Pricefeed.Update.Invariant.{
  WellFormed, new_price_cache-WellFormed, add_feed-WellFormed, update_price-WellFormed,
}
use pricefeeding.Pricefeed.Update.Reads.{found, found-update_price, get_price-add_feed}
use pricefeeding.Strconv.Separator.{NoColon, colon_injective}
use pricefeeding.Types.Morpher.{PriceInfo}

-- Two sources without a colon share a prefixed identifier only where they and their identifiers agree.
pub make_prefixed_identifier-injective :
    (source source' id jd : GoString)
    → NoColon source
    → NoColon source'
    → make_prefixed_identifier source id ≡ make_prefixed_identifier source' jd
    → (source ≡ source') × (id ≡ jd)
unfolding make_prefixed_identifier
make_prefixed_identifier-injective source source' id jd h k e =
    colon_injective source source' id jd h k
      (sym (append_assoc source (bytes ":") id) ∙ e ∙ append_assoc source' (bytes ":") jd)

-- The calls that change the cache.
pub data Call : Type 0 where
  feed : ℕ → GoString → GoString → Call
  update : Estimators → ℕ → GoString → GoString → PriceInfo → Call

unfoldable pub step : Call → PriceCache → PriceCache
step (feed n id source) pc = add_feed n id source pc
step (update estimators n id source price) pc = update_price estimators n id source price pc

unfoldable pub run : List Call → PriceCache → PriceCache
unfolding step
run [] pc = pc
run (c ∷ cs) pc = run cs (step c pc)

abbrev pub Spec : Type 0
Spec = ℕ → GoString → GoString → Option PriceInfo

unfoldable pub spec_step : Call → Spec → Spec
spec_step (feed n id source) f m jd source' = f m jd source'
spec_step (update estimators n id source price) f m jd source' =
    if eqb n m && (string_beq source source' && string_beq id jd)
    then some price
    else f m jd source'

unfoldable pub spec_run : List Call → Spec → Spec
unfolding spec_step
spec_run [] f = f
spec_run (c ∷ cs) f = spec_run cs (spec_step c f)

-- The source of an update has no colon, as the two that the program declares.
abbrev pub PlainSource : Call → Type 0
PlainSource (feed n id source) = Unit
PlainSource (update estimators n id source price) = NoColon source

step-WellFormed : (c : Call) (pc : PriceCache) → WellFormed pc → WellFormed (step c pc)
unfolding step
step-WellFormed (feed n id source) pc h = add_feed-WellFormed n id source pc h
step-WellFormed (update estimators n id source price) pc h =
    update_price-WellFormed estimators n id source price pc h

-- Calls of `AddFeed` and `UpdatePrice` keep the cache well formed.
pub run-WellFormed : (cs : List Call) (pc : PriceCache) → WellFormed pc → WellFormed (run cs pc)
unfolding run
run-WellFormed [] pc h = h
run-WellFormed (c ∷ cs) pc h = run-WellFormed cs (step c pc) (step-WellFormed c pc h)

both-true : (a b : Bool) → a ≡ true → b ≡ true → (a && b) ≡ true
both-true a b h k = ground arith

pub same_identifier :
    (source source' id jd : GoString)
    → NoColon source
    → NoColon source'
    → string_beq (make_prefixed_identifier source id) (make_prefixed_identifier source' jd)
      ≡ (string_beq source source' && string_beq id jd)
same_identifier source source' id jd h k =
    let p = make_prefixed_identifier source id in
    let q = make_prefixed_identifier source' jd in
    Bool-eq (string_beq p q) (string_beq source source' && string_beq id jd)
      (λ e.
        let (s, t) =
          make_prefixed_identifier-injective source source' id jd h k ((string_beq_iff p q).0 e) in
        both-true (string_beq source source') (string_beq id jd)
          ((string_beq_iff source source').1 s) ((string_beq_iff id jd).1 t))
      (λ e. (string_beq_iff p q).1 (
        cc (
          (string_beq_iff source source').0 (ground arith),
          (string_beq_iff id jd).0 (ground arith),
        )))

step-spec :
    (c : Call) (pc : PriceCache) (f : Spec) (m : ℕ) (jd source' : GoString)
    → WellFormed pc
    → PlainSource c
    → NoColon source'
    → found (get_price m jd source' pc) ≡ f m jd source'
    → found (get_price m jd source' (step c pc)) ≡ spec_step c f m jd source'
unfolding step spec_step
step-spec (feed n id source) pc f m jd source' h p k e =
    get_price-add_feed n m id source jd source' pc ∙ e
step-spec (update estimators n id source price) pc f m jd source' h p k e = rw (
  found-update_price estimators n m id source jd source' price pc h,
  same_identifier source source' id jd p k,
  e,
)

run-spec :
    (cs : List Call) (pc : PriceCache) (f : Spec) (m : ℕ) (jd source' : GoString)
    → WellFormed pc
    → All PlainSource cs
    → NoColon source'
    → found (get_price m jd source' pc) ≡ f m jd source'
    → found (get_price m jd source' (run cs pc)) ≡ spec_run cs f m jd source'
unfolding run spec_run
run-spec [] pc f m jd source' h p k e = e
run-spec (c ∷ cs) pc f m jd source' h p k e =
    run-spec cs (step c pc) (spec_step c f) m jd source' (step-WellFormed c pc h) p.1 k
      (step-spec c pc f m jd source' h p.0 k e)

get_price-empty :
    (m : ℕ) (jd source' : GoString) → found (get_price m jd source' new_price_cache) ≡ none
unfolding get_price get
get_price-empty m jd source' = refl

-- After any calls on an empty cache whose sources have no colon, `GetPrice` returns the price that was written last under the
-- network, the source and the identifier, and an error where none was.
pub run_refines_spec :
    (cs : List Call) (m : ℕ) (jd source' : GoString)
    → All PlainSource cs
    → NoColon source'
    → found (get_price m jd source' (run cs new_price_cache))
      ≡ spec_run cs (λ _ _ _. none) m jd source'
run_refines_spec cs m jd source' p k =
    run-spec cs new_price_cache (λ _ _ _. none) m jd source' new_price_cache-WellFormed p k
      (get_price-empty m jd source')
