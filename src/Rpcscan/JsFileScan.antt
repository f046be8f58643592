-- ===== src/Rpcscan/JsFileScan.antt =====
-- rpcscan/jsfilescan.go: the text of each file of the registry is rewritten to JSON, decoded,
-- unmarshalled and converted; a file with which one of these fails is skipped. A file is its text, or
-- `none` where it cannot be read. What encoding/json makes of a text is the parameter `decode`.
pub mod Found
pub mod Loads
pub mod Merge
use pricefeeding.Prelude.{ℕ, List, [], ◌∷◌, ◌++◌, Option, none, some, eqb, if◌then◌else◌, ◌>>=◌}
use pricefeeding.Prelude.Key.{GoString, nat_key, bytes}
use pricefeeding.Prelude.Dict.{Dict, put}
use pricefeeding.Registry.Js.{JsValue}
use pricefeeding.Rpcscan.Types.{ChainRegistryData, RpcConfig, EthereumClient, NetworkConfiguration}
use pricefeeding.Rpcscan.JsText.{convert_js_to_json}
use pricefeeding.Rpcscan.Unmarshal.{unmarshal_chain}
use pricefeeding.Strconv.{itoa}

unfoldable pub wrapped_token_of : ℕ → GoString
wrapped_token_of chain_id =
    if eqb chain_id 1
    then bytes "0xC02aaA39b223FE8D0A0e5C4F27eAD9083C756Cc2"
    else if eqb chain_id 42161
    then bytes "0x82aF49447D8a07e3bd95BD0d56f35241523fBab1"
    else bytes "0x0000000000000000000000000000000000000000"

unfoldable pub convert_to_rpc_config : ChainRegistryData → RpcConfig
unfolding wrapped_token_of
convert_to_rpc_config d = record {
  network_id = itoa d.chain_id;
  name_std = d.name;
  name_coinr = d.native_currency.symbol;
  wrapped_token = wrapped_token_of d.chain_id;
  endpoints = d.rpc;
  approval_src = [];
}

module _ (decode : GoString → Option JsValue) where
  unfoldable pub parse_chain_registry_file : Option GoString → Option ChainRegistryData
  parse_chain_registry_file file = do
    content ← file
    v ← decode (convert_js_to_json content)
    unmarshal_chain v

  -- The loop over the files.
  unfoldable pub convert_files : List (Option GoString) → List RpcConfig
  unfolding parse_chain_registry_file
  convert_files [] = []
  convert_files (file ∷ files) =
      let rest = convert_files files in
      elim (parse_chain_registry_file file) [
        | none ↦ rest
        | some d ↦ convert_to_rpc_config d ∷ rest
      ]

module _ {C : Type 0} where
  -- `none` for the directory is the error that it does not exist.
  unfoldable pub read_chain_registry_from_js :
      (GoString → Option JsValue)
      → Option (List (Option GoString))
      → Option (NetworkConfiguration C)
  unfolding convert_files
  read_chain_registry_from_js decode none = none
  read_chain_registry_from_js decode (some files) =
      some (record { networks = convert_files decode files; client_use = [] })

  merge_clients : Dict ℕ (EthereumClient C) → Dict ℕ (EthereumClient C) → Dict ℕ (EthereumClient C)
  merge_clients into [] = into
  merge_clients into ((k, v) ∷ rest) = merge_clients (put k v into) rest

  -- `Readendpts` of rpcswitcher.go: `none` is its `log.Fatalf`, which ends the program.
  unfoldable pub readendpts : Option (List RpcConfig) → Option (NetworkConfiguration C)
  readendpts none = none
  readendpts (some networks) = some (record { networks = networks; client_use = [] })

  unfoldable pub load_chain_registry_config :
      (GoString → Option JsValue)
      → Option (List (Option GoString))
      → Option (List RpcConfig)
      → Option (NetworkConfiguration C)
  unfolding read_chain_registry_from_js readendpts merge_clients
  load_chain_registry_config decode directory json =
      elim (read_chain_registry_from_js decode directory) [
        | none ↦ readendpts json
        | some js_config ↦ do
          json_config ← readendpts json
          some (record {
            networks = js_config.networks ++ json_config.networks;
            client_use =
                merge_clients (merge_clients [] js_config.client_use) json_config.client_use;
          })
      ]
