-- ===== src/Tests/RpcTests.antt =====
-- The registry, the choice of an endpoint and the switch.
use mathlib.Core.List.{Memᴰ, Permᴰ}
use pricefeeding.Prelude.{
  ◌++◌, ℕ, zero, suc, List, Option, ◌>>=◌, ◌≤◌, ◌<◌, ◌≡◌, ◌⊎◌, refl, true, ◌||◌, [], ◌∷◌, none,
  some, map, if◌then◌else◌,
}
use pricefeeding.Prelude.Key.{GoString, bytes, string_key, ◌==◌}
use pricefeeding.Prelude.Dict.{get, put}
use pricefeeding.Registry.Js.{JsValue}
use pricefeeding.Pricefeed.PriceCache.{cut_prefix}
use pricefeeding.Rpcscan.JsText.{convert_js_to_json}
use pricefeeding.Registry.Chains.{registry}
use pricefeeding.Registry.Chains.From10001.{chainid_10001}
use pricefeeding.Rpcscan.JsFileScan.{
  convert_files, convert_to_rpc_config, load_chain_registry_config,
}
use pricefeeding.Rpcscan.JsFileScan.Merge.{registry_first}
use pricefeeding.Rpcscan.RpcSwitcher.{
  Network, LatencyBox, network_not_found, no_best, better, best_of, check_latency_con,
  scan_endpoints, find_network, new_ethereum_client, switch_rpc_endpoint_immediately,
  get_best_client,
}
use pricefeeding.Rpcscan.RpcSwitcher.Selection.{chosen, best_of-best, best_of-perm}
use pricefeeding.Rpcscan.RpcSwitcher.Switch.{Switched, switch_error_unchanged, switch-Switched}
use pricefeeding.Rpcscan.RpcSwitcher.IgnoredClients.{with_clients, switch_ignores_clients}
use pricefeeding.Rpcscan.Types.{ChainRegistryData, RpcConfig, EthereumClient, NetworkConfiguration}
use pricefeeding.Rpcscan.Unmarshal.{unmarshal_chain}
use pricefeeding.Strconv.{parse_uint, itoa}

-- Two endpoints answer, the second one sooner; any other fails.
abbrev two_endpoints : Network ℕ
two_endpoints = record {
  rpc_dial = λ ep. ep == bytes "a" || ep == bytes "b";
  client_version = λ ep. true;
  elapsed = λ ep. if ep == bytes "a" then 30 else 20;
  eth_dial = λ ep. some 5;
}

abbrev mainnet : RpcConfig
mainnet = record {
  network_id = bytes "1";
  name_std = bytes "main";
  name_coinr = bytes "ETH";
  wrapped_token = [];
  endpoints = bytes "a" ∷ bytes "c" ∷ bytes "b" ∷ [];
  approval_src = [];
}

abbrev conf : NetworkConfiguration ℕ
conf = record { networks = mainnet ∷ []; client_use = [] }

program : Unit {0}
unfolding get put better best_of check_latency_con scan_endpoints find_network new_ethereum_client
    switch_rpc_endpoint_immediately get_best_client parse_uint
program = tt

switches : (switch_rpc_endpoint_immediately two_endpoints 100 1 conf).1 ≡ none
unfolding program
switches = refl

switch-Switched_example :
    (target : RpcConfig) × (ep : GoString) × (c : ℕ) × Switched two_endpoints 100 1 conf
      (switch_rpc_endpoint_immediately two_endpoints 100 1 conf).0
      target
      ep
      c
switch-Switched_example = switch-Switched two_endpoints 100 1 conf switches

fails : (switch_rpc_endpoint_immediately two_endpoints 100 7 conf).1 ≡ some network_not_found
unfolding program
fails = refl

switch_error_unchanged_example : (switch_rpc_endpoint_immediately two_endpoints 100 7 conf).0 ≡ conf
switch_error_unchanged_example =
    switch_error_unchanged two_endpoints 100 7 conf network_not_found fails

abbrev failing_client : EthereumClient ℕ
failing_client = record { network_id = 1; eth_client = 9; last_updated = 50 }

switch_ignores_clients_example :
    ((switch_rpc_endpoint_immediately two_endpoints 100 1
        (with_clients two_endpoints 100 1 conf ((1, failing_client) ∷ []))).1
      ≡ (switch_rpc_endpoint_immediately two_endpoints 100 1 conf).1)
    × ((switch_rpc_endpoint_immediately two_endpoints 100 1 conf).1 ≡ none
        → get_best_client
            (switch_rpc_endpoint_immediately two_endpoints 100 1
              (with_clients two_endpoints 100 1 conf ((1, failing_client) ∷ []))).0
            1
          ≡ get_best_client (switch_rpc_endpoint_immediately two_endpoints 100 1 conf).0 1)
switch_ignores_clients_example =
    switch_ignores_clients two_endpoints 100 1 conf ((1, failing_client) ∷ [])

abbrev box : ℕ → LatencyBox
box n = record { endpoint = bytes "a"; latency = n; network_id = 1 }

best_of-best_example :
    ((best_of no_best (box 30 ∷ box 20 ∷ []) ≡ no_best)
      ⊎ ((r : LatencyBox) × Memᴰ r (box 30 ∷ box 20 ∷ [])
          × (best_of no_best (box 30 ∷ box 20 ∷ []) ≡ chosen r)
          × (0 < r.latency)
          × (r.latency < no_best.latency)))
    × ((0 < 30 → (best_of no_best (box 30 ∷ box 20 ∷ [])).latency ≤ 30)
        × ((0 < 20 → (best_of no_best (box 30 ∷ box 20 ∷ [])).latency ≤ 20) × Unit {0}))
best_of-best_example = best_of-best no_best (box 30 ∷ box 20 ∷ [])

best_of-perm_example :
    (best_of no_best (box 30 ∷ box 20 ∷ [])).latency
    ≡ (best_of no_best (box 20 ∷ box 30 ∷ [])).latency
best_of-perm_example = best_of-perm no_best (Permᴰ.swap refl refl)

first_file : Memᴰ chainid_10001 registry
unfolding registry
first_file = Memᴰ.head refl

item : ℕ → List JsValue → Option JsValue
item n [] = none
item zero (v ∷ vs) = some v
item (suc n) (v ∷ vs) = item n vs

-- Files that stand for those of the registry: the text of each has its place.
file_texts : ℕ → List JsValue → List GoString
file_texts n [] = []
file_texts n (v ∷ vs) =
    (bytes "export const data = " ++ itoa n ++ bytes ";\n") ∷ file_texts (suc n) vs

abbrev registry_texts : List GoString
registry_texts = file_texts 0 registry

abbrev numbered : GoString → Option JsValue
numbered s = parse_uint s >>= λ n. item n registry

texts_are_read : map (λ s. numbered (convert_js_to_json s)) registry_texts ≡ map some registry
unfolding item file_texts registry convert_js_to_json parse_uint itoa cut_prefix
texts_are_read = refl

abbrev merged : NetworkConfiguration ℕ
merged = record {
  networks = convert_files numbered (map some registry_texts) ++ mainnet ∷ [];
  client_use = [];
}

loads_merged :
    load_chain_registry_config numbered (some (map some registry_texts)) (some (mainnet ∷ []))
    ≡ some merged
unfolding load_chain_registry_config
loads_merged = refl

registry_first_example :
    (d : ChainRegistryData) × (unmarshal_chain chainid_10001 ≡ some d)
    × (find_network d.chain_id merged.networks ≡ some (convert_to_rpc_config d))
    × (merged.client_use ≡ [])
registry_first_example =
    registry_first ℕ numbered registry_texts (some (mainnet ∷ [])) merged texts_are_read
      loads_merged chainid_10001 first_file
