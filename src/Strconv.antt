-- ===== src/Strconv.antt =====
-- strconv.Itoa, strconv.ParseUint with 64 bits and SetString of math/big, in base 10, as the program uses
-- them: network ids are numbers in some tables and decimal texts in others.
pub mod RoundTrip
pub mod Separator
use mathlib.Core.Option
use pricefeeding.Prelude.Int.{ℤ, pos, negsuc}
use pricefeeding.Prelude.Key.{GoString}
use pricefeeding.Prelude.{
  ℕ, zero, suc, ◌+◌, ◌-◌, ◌*◌, ◌/◌, ◌%◌, ◌^◌, Bool, ◌&&◌, Option, none, some, List, [], ◌∷◌, ◌++◌,
  eqb, ltb, leb, if◌then◌else◌, ◌>>=◌,
}

-- The decimal digits of `n`, the most significant first. Fuel `n + 1` suffices.
digits : ℕ → ℕ → GoString
digits zero n = []
digits (suc f) n =
    let rest = digits f (n / 10) in if ltb n 10 then (48 + n) ∷ [] else rest ++ (48 + n % 10) ∷ []

unfoldable pub itoa : ℕ → GoString
unfolding digits
itoa n = digits (suc n) n

is_digit : ℕ → Bool
is_digit c = leb 48 c && leb c 57

-- One round of the loop of `ParseUint`: the cutoff test, the product, the sum and its overflow test.
parse_step : ℕ → ℕ → Option ℕ
unfolding is_digit
parse_step n c =
    if is_digit c
    then (if leb ((2 ^ 64 - 1) / 10 + 1) n
        then none
        else let n1 = (n * 10 + (c - 48)) % 2 ^ 64 in if ltb n1 (n * 10) then none else some n1)
    else none

parse_digits : ℕ → GoString → Option ℕ
parse_digits n [] = some n
parse_digits n (c ∷ s) = parse_step n c >>= λ m. parse_digits m s

-- The empty text is a syntax error.
unfoldable pub parse_uint : GoString → Option ℕ
unfolding parse_step parse_digits
parse_uint [] = none
parse_uint (c ∷ s) = parse_digits 0 (c ∷ s)

-- The number that `ParseUint` returns beside an error: 0 for a text that is no number, the greatest
-- number for one that is out of range.
value_from : ℕ → GoString → ℕ
unfolding is_digit parse_step
value_from n [] = n
value_from n (c ∷ s) = elim (parse_step n c) [
  | none ↦ if is_digit c then 2 ^ 64 - 1 else 0
  | some m ↦ value_from m s
]

pub parse_value : GoString → ℕ
unfolding value_from
parse_value [] = 0
parse_value (c ∷ s) = value_from 0 (c ∷ s)

digits_value : ℕ → GoString → Option ℕ
unfolding is_digit
digits_value n [] = some n
digits_value n (c ∷ s) = if is_digit c then digits_value (n * 10 + (c - 48)) s else none

number_of : GoString → Option ℕ
unfolding digits_value
number_of [] = none
number_of (c ∷ s) = digits_value 0 (c ∷ s)

negated : ℕ → ℤ
negated zero = pos 0
negated (suc n) = negsuc n

-- `SetString(s, 10)` of math/big: digits after a sign that may be left out; `none` is the nil that a
-- failure gives.
unfoldable pub set_string : GoString → Option ℤ
unfolding number_of negated
set_string [] = none
set_string (c ∷ s) =
    if eqb c 45
    then Option.map negated (number_of s)
    else if eqb c 43
    then Option.map pos (number_of s)
    else Option.map pos (number_of (c ∷ s))
