-- ===== src/Rpcscan/NetworkConfig.antt =====
-- rpcscan/config.go: the networks that are made of the configuration and of conf/extraRpcs.json.
pub mod Usable
use pricefeeding.Prelude.{
  ℕ, Bool, true, false, List, [], ◌∷◌, ◌++◌, Option, none, some, String, if◌then◌else◌,
}
use pricefeeding.Prelude.Key.{GoString, bytes, string_key, string_beq}
use pricefeeding.Prelude.Dict.{Dict, get, put}
use pricefeeding.Registry.Js.{
  JsValue, text, number, bool, array, object, Fields, end_fields, ◌∶◌, ◌⨾◌,
}
use pricefeeding.Rpcscan.Config.{ExtendedConfig, is_empty, get_price_feeds_for_network, name_feeds}
use pricefeeding.Rpcscan.Types.{RpcConfig, NetworkConfiguration}
use pricefeeding.Strconv.{parse_uint}

pub record NetworkInfo : Type 0 where
  pub name_std : GoString
  pub name_coinr : GoString
  pub wrapped_token : GoString

network_info : String → String → String → NetworkInfo
network_info name coin token = record {
  name_std = bytes name;
  name_coinr = bytes coin;
  wrapped_token = bytes token;
}

network_map : Dict GoString NetworkInfo
unfolding network_info
network_map =
    (bytes "1", network_info "Ethereum Mainnet" "ETH" "0xC02aaA39b223FE8D0A0e5C4F27eAD9083C756Cc2")
    ∷ (
      bytes "42161",
      network_info "Arbitrum Mainnet" "ARB" "0x82aF49447D8a07e3bd95BD0d56f35241523fBab1",
    )
    ∷ (
      bytes "137",
      network_info "Polygon Mainnet" "MATIC" "0x0d500B1d8E8eF31E21C99d1Db9A6444d3ADf1270",
    )
    ∷ (bytes "56", network_info "BSC Mainnet" "BNB" "0xbb4CdB9CBd36B01bD1cBaEBF2De08d9173bc095c")
    ∷ (
      bytes "10",
      network_info "Optimism Mainnet" "ETH" "0x4200000000000000000000000000000000000006",
    )
    ∷ (
      bytes "250",
      network_info "Fantom Mainnet" "FTM" "0x21be370D5312f44cB42ce377BC9b8a0cEF1A4C83",
    )
    ∷ (
      bytes "43114",
      network_info "Avalanche Mainnet" "AVAX" "0xB31f66AA3C1e785363F0875A1B74E27b85FD66c7",
    )
    ∷ []

-- `getNetworkInfo`
unfoldable pub get_network_info : GoString → NetworkInfo
unfolding network_map
get_network_info chain_id = elim (get chain_id network_map) [
  | some info ↦ info
  | none ↦ record {
    name_std = bytes "Network " ++ chain_id;
    name_coinr = bytes "UNKNOWN";
    wrapped_token = [];
  }
]

-- The field `url` of an object, the last one where it stands twice.
url_field : Option JsValue → Fields → Option JsValue
url_field found end_fields = found
url_field found (name ∶ v ⨾ rest) =
    url_field (if string_beq (bytes name) (bytes "url") then some v else found) rest

url_text : Option JsValue → Option GoString
url_text none = none
url_text (some (text s)) = some (bytes s)
url_text (some (number n)) = none
url_text (some (bool b)) = none
url_text (some (array vs)) = none
url_text (some (object fs)) = none

-- The URL of an entry: a text, or an object with a text `url`.
url_of : JsValue → Option GoString
unfolding url_field url_text
url_of (text s) = some (bytes s)
url_of (object fields) = url_text (url_field none fields)
url_of (number n) = none
url_of (bool b) = none
url_of (array vs) = none

-- `extractRPCURLs`
unfoldable pub extract_rpc_urls : List JsValue → List GoString
unfolding url_of
extract_rpc_urls [] = []
extract_rpc_urls (rpc ∷ rpcs) =
    let urls = extract_rpc_urls rpcs in elim (url_of rpc) [ none ↦ urls | some url ↦ url ∷ urls ]

-- A network of `createNetworkConfigFromYAML`, unless it has no URLs.
pub yaml_network : String → ℕ → NetworkInfo → List GoString → ExtendedConfig → List RpcConfig
unfolding name_feeds
yaml_network id network_id info [] c = []
yaml_network id network_id info (url ∷ urls) c =
    record {
      network_id = bytes id;
      name_std = info.name_std;
      name_coinr = info.name_coinr;
      wrapped_token = info.wrapped_token;
      endpoints = url ∷ urls;
      approval_src = name_feeds [] (get_price_feeds_for_network c network_id);
    }
    ∷ []

unfoldable pub yaml_networks : ExtendedConfig → List RpcConfig
unfolding yaml_network network_info
yaml_networks c =
    yaml_network "1" 1
      (network_info "Ethereum Mainnet" "ETH" "0xC02aaA39b223FE8D0A0e5C4F27eAD9083C756Cc2")
      c.ethereum_urls c
    ++ yaml_network "42161" 42161
        (network_info "Arbitrum Mainnet" "ARB" "0x82aF49447D8a07e3bd95BD0d56f35241523fBab1")
        c.arbitrum_urls c

-- The network of an entry of extraRpcs.json, given the feeds of its id.
unfoldable pub extra_network :
    (ℕ → Dict GoString GoString) → GoString → List JsValue → Option RpcConfig
unfolding extract_rpc_urls get_network_info
extra_network feeds chain_id rpcs =
    if is_empty rpcs
    then none
    else let endpoints = extract_rpc_urls rpcs in
      if is_empty endpoints
      then none
      else let info = get_network_info chain_id in
        elim (parse_uint chain_id) [
          | none ↦ none
          | some id ↦ some (record {
            network_id = chain_id;
            name_std = info.name_std;
            name_coinr = info.name_coinr;
            wrapped_token = info.wrapped_token;
            endpoints = endpoints;
            approval_src = feeds id;
          })
        ]

-- The loop over extraRpcs.json.
unfoldable pub extra_networks :
    (ℕ → Dict GoString GoString) → Dict GoString (List JsValue) → List RpcConfig
unfolding extra_network
extra_networks feeds [] = []
extra_networks feeds ((chain_id, rpcs) ∷ rest) =
    let networks = extra_networks feeds rest in
    elim (extra_network feeds chain_id rpcs) [ none ↦ networks | some n ↦ n ∷ networks ]

-- The networks of the file, or else those of the fallback: where the file is missing, and where it
-- gives no network.
unfoldable pub or_fallback : List RpcConfig → List RpcConfig → List RpcConfig
or_fallback fallback [] = fallback
or_fallback fallback (n ∷ ns) = n ∷ ns

module _ {C : Type 0} where
  -- `CreateNetworkConfig`; `none` for the file is the error that it cannot be read.
  unfoldable pub create_network_config :
      ExtendedConfig → Option (Dict GoString (List JsValue)) → NetworkConfiguration C
  unfolding yaml_networks extra_networks or_fallback
  create_network_config c extra_rpcs = record {
    networks = elim extra_rpcs [
      | none ↦ yaml_networks c
      | some file ↦
          or_fallback (yaml_networks c)
            (extra_networks (λ id. name_feeds [] (get_price_feeds_for_network c id)) file)
    ];
    client_use = [];
  }
