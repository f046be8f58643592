-- ===== src/Rpcscan/NetworkConfig/Usable.antt =====
-- The networks that `CreateNetworkConfig` makes.
use pricefeeding.Prelude.{
  ℕ, ◌≡◌, refl, true, false, String, List, [], ◌∷◌, Option, none, some, arith, All, All-append,
  is_some,
}
use pricefeeding.Prelude.Key.{GoString, bytes, string_key}
use pricefeeding.Prelude.Dict.{Dict}
use pricefeeding.Registry.Js.{JsValue}
use pricefeeding.Rpcscan.Config.{ExtendedConfig, is_empty}
use pricefeeding.Rpcscan.NetworkConfig.{
  NetworkInfo, yaml_network, yaml_networks, extra_network, extra_networks, or_fallback,
  create_network_config,
}
use pricefeeding.Rpcscan.Types.{RpcConfig}
use pricefeeding.Strconv.{parse_uint}

-- The network has an endpoint to try, and an id that the lookups can read.
abbrev pub IsUsable : RpcConfig → Type 0
IsUsable n = (is_empty n.endpoints ≡ false) × (is_some (parse_uint n.network_id) ≡ true)

extra_network-IsUsable :
    (feeds : ℕ → Dict GoString GoString) (chain_id : GoString) (rpcs : List JsValue) (n : RpcConfig)
    → extra_network feeds chain_id rpcs ≡ some n
    → IsUsable n
unfolding extra_network
extra_network-IsUsable feeds chain_id rpcs n h = (ground arith, ground arith)

add-IsUsable :
    (o : Option RpcConfig) (l : List RpcConfig)
    → ((n : RpcConfig) → o ≡ some n → IsUsable n)
    → All IsUsable l
    → All IsUsable (elim o [ none ↦ l | some n ↦ n ∷ l ])
add-IsUsable none l f h = h
add-IsUsable (some n) l f h = (f n refl, h)

extra_networks-IsUsable :
    (feeds : ℕ → Dict GoString GoString) (file : Dict GoString (List JsValue))
    → All IsUsable (extra_networks feeds file)
unfolding extra_networks
extra_networks-IsUsable feeds [] = tt
extra_networks-IsUsable feeds ((chain_id, rpcs) ∷ rest) =
    add-IsUsable (extra_network feeds chain_id rpcs) (extra_networks feeds rest)
      (extra_network-IsUsable feeds chain_id rpcs) (extra_networks-IsUsable feeds rest)

yaml_network-IsUsable :
    (id : String) (n : ℕ) (info : NetworkInfo) (urls : List GoString) (c : ExtendedConfig)
    → is_some (parse_uint (bytes id)) ≡ true
    → All IsUsable (yaml_network id n info urls c)
unfolding yaml_network is_empty
yaml_network-IsUsable id n info [] c h = tt
yaml_network-IsUsable id n info (url ∷ urls) c h = ((refl, h), tt)

known_ids :
    (is_some (parse_uint (bytes "1")) ≡ true) × (is_some (parse_uint (bytes "42161")) ≡ true)
unfolding parse_uint
known_ids = (refl, refl)

yaml_networks-IsUsable : (c : ExtendedConfig) → All IsUsable (yaml_networks c)
unfolding yaml_networks
yaml_networks-IsUsable c =
    All-append IsUsable _ _ (yaml_network-IsUsable "1" 1 _ c.ethereum_urls c known_ids.0)
      (yaml_network-IsUsable "42161" 42161 _ c.arbitrum_urls c known_ids.1)

or_fallback-All :
    (P : RpcConfig → Type 0) (l m : List RpcConfig) → All P l → All P m → All P (or_fallback l m)
unfolding or_fallback
or_fallback-All P l [] h k = h
or_fallback-All P l (n ∷ ns) h k = k

-- Every network that `CreateNetworkConfig` makes, of the file or of the configuration, has an endpoint
-- and an id that is a number.
pub create_network_config-IsUsable :
    (C : Type 0) (c : ExtendedConfig) (extra_rpcs : Option (Dict GoString (List JsValue)))
    → All IsUsable (create_network_config {C = C} c extra_rpcs).networks
unfolding create_network_config
create_network_config-IsUsable C c none = yaml_networks-IsUsable c
create_network_config-IsUsable C c (some file) =
    or_fallback-All IsUsable (yaml_networks c) _ (yaml_networks-IsUsable c)
      (extra_networks-IsUsable _ file)
