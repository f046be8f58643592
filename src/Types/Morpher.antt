-- ===== src/Types/Morpher.antt =====
-- types/morpher.go: `PriceInfo` and its implementations. A `*big.Int` that may be nil is an
-- `Option ℤ`; a time is the number of nanoseconds since Go's zero time; a number of type `int` or
-- `int64` that is only stored is an integer.
pub mod Satoshi
use pricefeeding.Prelude.{ℕ, suc, ◌+◌, Option, String}
use pricefeeding.Prelude.Int.{ℤ}
use pricefeeding.Prelude.Key.{GoString, bytes}

-- `PriceSource` is a text; these are the two that the program declares.
abbrev pub source_chainlink : GoString
source_chainlink = bytes "chainlink"

abbrev pub source_pyth : GoString
source_pyth = bytes "pyth"

pub record ChainlinkPrice : Type 0 where
  pub round_id : Option ℤ
  pub answer : Option ℤ
  pub started_at : Option ℤ
  pub updated_at : Option ℤ
  pub answered_in_round : Option ℤ
  pub timestamp : ℕ
  pub exponent : ℤ
  pub network_id : ℕ
  pub feed_address : GoString

pub record PythPrice : Type 0 where
  pub id : GoString
  pub symbol : GoString
  pub price : Option ℤ
  pub confidence : Option ℤ
  pub exponent : ℤ
  pub publish_time : ℤ
  pub slot : ℤ
  pub timestamp : ℕ
  pub network_id : ℕ
  pub ema : Option ℤ
  pub ema_confidence : Option ℤ

-- An implementation that another package brings, told apart by its dynamic type `kind`. `own_size` is
-- what its method `EstimateSize` returns, the bits of an int64, if it has that method.
pub record CustomPrice : Type 0 where
  pub kind : ℕ
  pub source : GoString
  pub network_id : ℕ
  pub timestamp : ℕ
  pub identifier : GoString
  pub own_size : Option ℕ

pub data PriceInfo : Type 0 where
  chainlink : ChainlinkPrice → PriceInfo
  pyth : PythPrice → PriceInfo
  custom : CustomPrice → PriceInfo

pub get_source : PriceInfo → GoString
get_source (chainlink p) = source_chainlink
get_source (pyth p) = source_pyth
get_source (custom p) = p.source

unfoldable pub get_timestamp : PriceInfo → ℕ
get_timestamp (chainlink p) = p.timestamp
get_timestamp (pyth p) = p.timestamp
get_timestamp (custom p) = p.timestamp

pub get_identifier : PriceInfo → GoString
get_identifier (chainlink p) = p.feed_address
get_identifier (pyth p) = p.id
get_identifier (custom p) = p.identifier

-- `reflect.TypeOf`, as a number.
unfoldable pub type_of : PriceInfo → ℕ
type_of (chainlink p) = 0
type_of (pyth p) = 1
type_of (custom p) = p.kind + 2
