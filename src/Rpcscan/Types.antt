-- ===== src/Rpcscan/Types.antt =====
-- The types of rpcscan/rpcswitcher.go. Go's `int` is written as ℕ where the program never makes a
-- negative one; a text is the list of its bytes.
use pricefeeding.Prelude.{ℕ, Bool, List, Option}
use pricefeeding.Prelude.Key.{GoString}
use pricefeeding.Prelude.Dict.{Dict}
use pricefeeding.Registry.Js.{JsValue}

pub record NativeCurrency : Type 0 where
  pub name : GoString
  pub symbol : GoString
  pub decimals : ℕ

pub record Explorer : Type 0 where
  pub name : GoString
  pub url : GoString
  pub icon : GoString
  pub standard : GoString

-- `faucets` is an `interface{}`: any value, or `none` for nil.
pub record ChainRegistryData : Type 0 where
  pub name : GoString
  pub chain : GoString
  pub icon : GoString
  pub rpc : List GoString
  pub features : List GoString
  pub faucets : Option JsValue
  pub native_currency : NativeCurrency
  pub info_url : GoString
  pub short_name : GoString
  pub chain_id : ℕ
  pub network_id : ℕ
  pub explorers : List Explorer
  pub testnet : Bool

pub record RpcConfig : Type 0 where
  pub network_id : GoString
  pub name_std : GoString
  pub name_coinr : GoString
  pub wrapped_token : GoString
  pub endpoints : List GoString
  pub approval_src : Dict GoString GoString

-- `C` is the type of the connections that the package ethclient hands out.
pub record EthereumClient (C : Type 0) : Type 0 where
  pub network_id : ℕ
  pub eth_client : C
  pub last_updated : ℕ

pub record NetworkConfiguration (C : Type 0) : Type 0 where
  pub networks : List RpcConfig
  pub client_use : Dict ℕ (EthereumClient C)
