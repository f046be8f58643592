-- ===== src/Pricefeed/Sizes.antt =====
-- pricefeed/price_size_estimator.go: how much memory a price takes, by the type's own method, a
-- registered estimator or the built-in sums. A size is an int64, kept as its 64 bits.
use pricefeeding.Prelude.{
  ℕ, ◌+◌, ◌-◌, ◌*◌, ◌%◌, ◌^◌, ◌≡◌, Bool, Option, none, some, arith, eqb, ltb, length, if◌then◌else◌,
}
use pricefeeding.Prelude.Key.{GoString, nat_key}
use pricefeeding.Prelude.Dict.{Dict, get, put, get-put}
use pricefeeding.Types.Morpher.{PriceInfo, chainlink, pyth, custom, type_of}

infixl 65 ◌⊕◌
-- `+` on int64.
abbrev pub ◌⊕◌ : ℕ → ℕ → ℕ
a ⊕ b = (a + b) % 2 ^ 64

-- `-` on int64.
abbrev pub sub64 : ℕ → ℕ → ℕ
sub64 a b = (a + (2 ^ 64 - b % 2 ^ 64)) % 2 ^ 64

-- `a < b` on int64: with the sign bit flipped the order is that of the bits.
abbrev pub lt64 : ℕ → ℕ → Bool
lt64 a b = ltb ((a + 2 ^ 63) % 2 ^ 64) ((b + 2 ^ 63) % 2 ^ 64)

-- `customSizeEstimators`, by the dynamic type.
abbrev pub Estimators : Type 0
Estimators = Dict ℕ (PriceInfo → ℕ)

-- `RegisterSizeEstimator[T]`: the estimator is wrapped in a test of the type.
unfoldable pub register_size_estimator : ℕ → (PriceInfo → ℕ) → Estimators → Estimators
register_size_estimator kind estimator estimators =
    put kind (λ price. if eqb (type_of price) kind then estimator price else 100) estimators

pub own_estimate : PriceInfo → Option ℕ
own_estimate (chainlink p) = none
own_estimate (pyth p) = none
own_estimate (custom p) = p.own_size

-- int64(len(s))
text_size : GoString → ℕ
text_size s = length s % 2 ^ 64

built_in : PriceInfo → ℕ
unfolding text_size
built_in (chainlink p) = (5 * 32 + 15 + 8 + 8) ⊕ text_size p.feed_address ⊕ 8
built_in (pyth p) =
    text_size p.id ⊕ 8 ⊕ text_size p.symbol ⊕ 8 ⊕ 32 ⊕ 32 ⊕ 32 ⊕ 32 ⊕ 8 ⊕ 8 ⊕ 8 ⊕ 15 ⊕ 8
built_in (custom p) = 100

-- `none` is the nil interface.
unfoldable pub estimate_price_info_size : Estimators → Option PriceInfo → ℕ
unfolding own_estimate built_in
estimate_price_info_size estimators none = 0
estimate_price_info_size estimators (some price) = elim (own_estimate price) [
  | some size ↦ size
  | none ↦ elim (get (type_of price) estimators) [
    | some estimator ↦ estimator price
    | none ↦ built_in price
  ]
]

-- The priority order: a type's own method wins, then the estimator that was registered last for the
-- type, and the registration for one type has no effect on the others.
estimate-register :
    (estimators : Estimators) (kind : ℕ) (f : PriceInfo → ℕ) (price : PriceInfo)
    → estimate_price_info_size (register_size_estimator kind f estimators) (some price) ≡ (
        if eqb kind (type_of price)
        then elim (own_estimate price) [ some size ↦ size | none ↦ f price ]
        else estimate_price_info_size estimators (some price))
unfolding estimate_price_info_size register_size_estimator
estimate-register estimators kind f price = ground (
  arith,
  get-put kind (type_of price) (λ q. if eqb (type_of q) kind then f q else 100) estimators,
)
