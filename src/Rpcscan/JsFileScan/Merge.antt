-- ===== src/Rpcscan/JsFileScan/Merge.antt =====
-- The networks that `LoadChainRegistryConfig` makes of the registry and of the JSON file.
use mathlib.Core.List.{Memᴰ}
use pricefeeding.Prelude.{
  ℕ, ◌≡◌, List, [], ◌∷◌, ◌++◌, map, Option, none, some, arith, Option-cases, inl, inr,
}
use pricefeeding.Prelude.Key.{GoString}
use pricefeeding.Rpcscan.JsText.{convert_js_to_json}
use pricefeeding.Registry.Chains.{registry}
use pricefeeding.Registry.Js.{JsValue}
use pricefeeding.Rpcscan.JsFileScan.{
  convert_files, convert_to_rpc_config, load_chain_registry_config,
}
use pricefeeding.Rpcscan.JsFileScan.Loads.{registry_file_found}
use pricefeeding.Rpcscan.RpcSwitcher.{find_network}
use pricefeeding.Rpcscan.Types.{ChainRegistryData, RpcConfig, NetworkConfiguration}
use pricefeeding.Rpcscan.Unmarshal.{unmarshal_chain}
use pricefeeding.Strconv.{parse_uint}

find_network-append :
    (id : ℕ) (l m : List RpcConfig) (n : RpcConfig)
    → find_network id l ≡ some n
    → find_network id (l ++ m) ≡ some n
unfolding find_network
find_network-append id [] m n h = cc
find_network-append id (network ∷ l) m n h = elim (Option-cases (parse_uint network.network_id)) [
  | inl e ↦ ground (arith, find_network-append id l m n)
  | inr (i, e) ↦ ground (arith, find_network-append id l m n)
]

loaded_parts :
    (C : Type 0) (decode : GoString → Option JsValue) (files : List (Option GoString))
    (json : Option (List RpcConfig)) (conf : NetworkConfiguration C)
    → load_chain_registry_config decode (some files) json ≡ some conf
    → (networks : List RpcConfig) × (conf.networks ≡ convert_files decode files ++ networks)
      × (conf.client_use ≡ [])
unfolding load_chain_registry_config
loaded_parts C decode files none conf h = absurd (ground arith)
loaded_parts C decode files (some networks) conf h = (networks, ground arith, ground arith)

module _ (C : Type 0) (decode : GoString → Option JsValue) (texts : List GoString)
    (json : Option (List RpcConfig)) (conf : NetworkConfiguration C) where
  -- Where the texts of the directory, each rewritten to JSON, decode to the values of the registry's
  -- object literals, and the configuration loads from them and from a JSON file: every file of the
  -- registry has a chain id whose lookup among all networks finds the network of this file, whatever
  -- networks the JSON file has; and no network has a client yet.
  pub registry_first :
      map (λ s. decode (convert_js_to_json s)) texts ≡ map some registry
      → load_chain_registry_config decode (some (map some texts)) json ≡ some conf
      → (v : JsValue) → Memᴰ v registry
      → (d : ChainRegistryData) × (unmarshal_chain v ≡ some d)
        × (find_network d.chain_id conf.networks ≡ some (convert_to_rpc_config d))
        × (conf.client_use ≡ [])
  registry_first reads h v m =
      let (d, e, f) = registry_file_found decode texts v reads m in
      let (networks, all, no_clients) = loaded_parts C decode (map some texts) json conf h in
      (
        d,
        e,
        rw all (
            find_network-append d.chain_id (convert_files decode (map some texts)) networks
              (convert_to_rpc_config d) f),
        no_clients,
      )
