-- ===== src/Rpcscan/Config/Validate.antt =====
-- What `validateConfig` ensures.
use mathlib.Core.Bool.{not}
use pricefeeding.Prelude.{
  ℕ, ◌≡◌, ◌≢◌, refl, ap, ◌∙◌, Bool, true, false, Option, none, some, arith, if◌then◌else◌,
}
use pricefeeding.Rpcscan.Config.{
  ExtendedConfig, ConfigError, default_to, set_defaults, is_empty, validate_config,
}

-- The fields that a configuration must give.
pub record HasRequired (c : ExtendedConfig) : Type 0 where
  pub port : c.port ≢ 0
  pub secret_hash : is_empty c.secret_hash ≡ false
  pub db_conn : is_empty c.db_conn ≡ false
  pub db_conn_pool : c.db_conn_pool ≢ 0
  pub arbitrum_urls : is_empty c.arbitrum_urls ≡ false
  pub ethereum_urls : is_empty c.ethereum_urls ≡ false

-- No interval and no limit is 0, and the cache is on.
pub record HasDefaults (c : ExtendedConfig) : Type 0 where
  pub rpc_check_interval : c.monitoring.rpc_check_interval ≢ 0
  pub price_fetch_interval : c.monitoring.price_fetch_interval ≢ 0
  pub rpc_timeout : c.monitoring.rpc_timeout ≢ 0
  pub max_concurrent_calls : c.monitoring.max_concurrent_calls ≢ 0
  pub enabled : c.cache.enabled ≡ true
  pub expiration : c.cache.expiration ≢ 0
  pub max_size : c.cache.max_size ≢ 0

default_to-ne_zero : (d n : ℕ) → d ≢ 0 → default_to d n ≢ 0
unfolding default_to
default_to-ne_zero d n h = λ e. ground arith

turned_on : (b : Bool) → (if not b then true else b) ≡ true
turned_on true = refl
turned_on false = refl

set_defaults-HasDefaults : (c : ExtendedConfig) → HasDefaults (set_defaults c)
unfolding set_defaults
set_defaults-HasDefaults c = record {
  rpc_check_interval = default_to-ne_zero 30 c.monitoring.rpc_check_interval (omega arith);
  price_fetch_interval = default_to-ne_zero 30 c.monitoring.price_fetch_interval (omega arith);
  rpc_timeout = default_to-ne_zero 10 c.monitoring.rpc_timeout (omega arith);
  max_concurrent_calls = default_to-ne_zero 10 c.monitoring.max_concurrent_calls (omega arith);
  enabled = turned_on c.cache.enabled;
  expiration = default_to-ne_zero 300 c.cache.expiration (omega arith);
  max_size = default_to-ne_zero 1000 c.cache.max_size (omega arith);
}

validate_config-required : (c : ExtendedConfig) → (validate_config c).1 ≡ none → HasRequired c
unfolding validate_config
validate_config-required c h = record {
  port = λ e. ground arith;
  secret_hash = ground arith;
  db_conn = ground arith;
  db_conn_pool = λ e. ground arith;
  arbitrum_urls = ground arith;
  ethereum_urls = ground arith;
}

validate_config-HasRequired :
    (c : ExtendedConfig) → HasRequired c → validate_config c ≡ (set_defaults c, none)
unfolding validate_config
validate_config-HasRequired c h = ground (arith, h.port, h.db_conn_pool)

default_to_again : (d n : ℕ) → d ≢ 0 → default_to d (default_to d n) ≡ default_to d n
unfolding default_to
default_to_again d n h = ground arith

set_defaults_again : (c : ExtendedConfig) → set_defaults (set_defaults c) ≡ set_defaults c
unfolding set_defaults
set_defaults_again c = ground arith

set_defaults-HasRequired : (c : ExtendedConfig) → HasRequired c → HasRequired (set_defaults c)
unfolding set_defaults
set_defaults-HasRequired c r = record {
  port = r.port;
  secret_hash = r.secret_hash;
  db_conn = r.db_conn;
  db_conn_pool = r.db_conn_pool;
  arbitrum_urls = r.arbitrum_urls;
  ethereum_urls = r.ethereum_urls;
}

-- A configuration that passes `validateConfig` gives every required field, and has a cache that is on
-- and no interval or limit of 0 after it; to validate it again changes nothing.
pub validate_config-valid :
    (c : ExtendedConfig)
    → (validate_config c).1 ≡ none
    → HasRequired (validate_config c).0
      × HasDefaults (validate_config c).0
      × (validate_config (validate_config c).0 ≡ ((validate_config c).0, none))
validate_config-valid c h =
    let required = validate_config-required c h in
    let again = set_defaults-HasRequired c required in
    rw (validate_config-HasRequired c required) (
      again,
      set_defaults-HasDefaults c,
      validate_config-HasRequired (set_defaults c) again
          ∙ ap (λ (d : ExtendedConfig). (d, none)) (set_defaults_again c),
    )

-- A configuration that does not pass is left as it was, and lacks a required field.
pub validate_config-error :
    (c : ExtendedConfig) (e : ConfigError)
    → (validate_config c).1 ≡ some e
    → ((validate_config c).0 ≡ c) × ¬ HasRequired c
unfolding validate_config
validate_config-error c e h = (
  ground arith,
  λ r. ground (
    arith,
    ap (λ (q : ExtendedConfig × Option ConfigError). q.1) (validate_config-HasRequired c r),
  ),
)
