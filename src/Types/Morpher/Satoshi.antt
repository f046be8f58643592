-- ===== src/Types/Morpher/Satoshi.antt =====
-- The conversion to satoshi of types/morpher.go. `safem.SatoshiScale` is a constant of another
-- module, taken as the argument `scale`.
use native.Mathlib.Nat.{mul-pos, pow-suc}
use native.Mathlib.Numerals.{add-one}
use pricefeeding.Prelude.{
  ℕ, zero, suc, ◌+◌, ◌*◌, ◌%◌, ◌^◌, ◌<◌, ◌≤◌, ◌≡◌, ◌≢◌, refl, Option, none, some, arith,
}
use pricefeeding.Prelude.Int.{ℤ, pos, negsuc, pos_part, neg_part, ◌*ℤ◌}
use pricefeeding.Types.Morpher.{ChainlinkPrice, PythPrice}

-- `new(big.Int).Exp(big.NewInt(10), y, nil)`: without a modulus it is 10 ** y, and 1 if y <= 0.
exp_ten : ℤ → ℤ
exp_ten (pos y) = pos (10 ^ y)
exp_ten (negsuc y) = pos 1

-- The body of `GetPriceInSatoshi`, the same in its implementations; `none` is the error of a nil price.
price_in_satoshi : ℕ → Option ℤ → ℤ → Option ℤ
unfolding exp_ten ◌*ℤ◌
price_in_satoshi scale none exponent = none
price_in_satoshi scale (some price) exponent =
    let adjustment = exp_ten exponent *ℤ pos scale in some (price *ℤ adjustment)

unfoldable pub chainlink_in_satoshi : ℕ → ChainlinkPrice → Option ℤ
unfolding price_in_satoshi
chainlink_in_satoshi scale p = price_in_satoshi scale p.answer p.exponent

unfoldable pub pyth_in_satoshi : ℕ → PythPrice → Option ℤ
unfolding price_in_satoshi
pyth_in_satoshi scale p = price_in_satoshi scale p.price p.exponent

-- `Uint64` gives the low 64 bits of the absolute value; `none` is the panic on a nil pointer.
low64 : Option ℤ → Option ℕ
low64 none = none
low64 (some z) = some ((pos_part z + neg_part z) % 2 ^ 64)

unfoldable pub chainlink_uint64_satoshi : ℕ → ChainlinkPrice → Option ℕ
unfolding chainlink_in_satoshi low64
chainlink_uint64_satoshi scale p = low64 (chainlink_in_satoshi scale p)

unfoldable pub pyth_uint64_satoshi : ℕ → PythPrice → Option ℕ
unfolding pyth_in_satoshi low64
pyth_uint64_satoshi scale p = low64 (pyth_in_satoshi scale p)

pow-one : (n : ℕ) → 1 ≤ 10 ^ n
pow-one zero = omega arith
pow-one (suc n) = rw pow-suc (omega (arith, pow-one n))

-- An exponent below zero has no effect: the result is the price times the scale.
price_in_satoshi-negsuc :
    (scale k : ℕ) (price : ℤ)
    → price_in_satoshi scale (some price) (negsuc k) ≡ some (price *ℤ pos scale)
unfolding price_in_satoshi
price_in_satoshi-negsuc scale k price = ground arith

times-ten-ne : (x m : ℕ) → 0 < x → 1 ≤ m → x * (m * 10) ≢ x
times-ten-ne x m h k = λ e. grind arith

product-pos : (x y : ℕ) → 0 < x → 0 < y → 0 < x * y
product-pos x y h k = mul-pos h k

-- With a scale above zero, a Chainlink price above zero with an exponent -(k + 1) below zero is
-- converted to price * scale, which is not the documented price * 10 ^ -(k + 1) * scale.
pub satoshi_ignores_negative_exponent :
    (scale price k : ℕ) (p : ChainlinkPrice)
    → 0 < scale
    → 0 < price
    → p.answer ≡ some (pos price)
    → p.exponent ≡ negsuc k
    → (r : ℕ) × (chainlink_in_satoshi scale p ≡ some (pos r))
      × (r ≡ price * scale)
      × (r * 10 ^ (k + 1) ≢ price * scale)
unfolding chainlink_in_satoshi price_in_satoshi
satoshi_ignores_negative_exponent scale price k p h h' a e = (
  price * scale,
  ground arith,
  refl,
  rw (add-one, pow-suc)
      (times-ten-ne (price * scale) (10 ^ k) (product-pos price scale h' h) (pow-one k)),
)
