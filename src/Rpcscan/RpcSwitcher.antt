-- ===== src/Rpcscan/RpcSwitcher.antt =====
-- rpcscan/rpcswitcher.go: latency tests, the choice of the best endpoint of a network, the clients in
-- use, and the switch to another endpoint.
pub mod Selection
pub mod Switch
pub mod IgnoredClients
use pricefeeding.Prelude.{
  ℕ, suc, ◌-◌, ◌^◌, Bool, ◌&&◌, List, [], ◌∷◌, Option, none, some, ltb, eqb, if◌then◌else◌, map,
}
use pricefeeding.Prelude.Key.{GoString, nat_key, string_key, ◌==◌}
use pricefeeding.Prelude.Dict.{Dict, get, put}
use mathlib.Core.Bool.{not}
use mathlib.Core.Option
use pricefeeding.Rpcscan.Types.{RpcConfig, EthereumClient, NetworkConfiguration}
use pricefeeding.Strconv.{parse_uint, parse_value}

-- The network as the packages rpc and ethclient show it: whether an endpoint can be dialled and
-- answers `web3_clientVersion`, how long that took, and the connection that dialling gives.
pub record Network (C : Type 0) : Type 0 where
  pub rpc_dial : GoString → Bool
  pub client_version : GoString → Bool
  pub elapsed : GoString → ℕ
  pub eth_dial : GoString → Option C

pub record LatencyBox : Type 0 where
  pub endpoint : GoString
  pub latency : ℕ
  pub network_id : ℕ

module _ {C : Type 0} (net : Network C) where
  -- A latency of 0 says that the endpoint failed.
  unfoldable pub check_latency_con : GoString → GoString → LatencyBox
  check_latency_con net_id endpoint_rpc =
      let value = parse_value net_id in
      let failed : LatencyBox = record {
        endpoint = endpoint_rpc;
        latency = 0;
        network_id = value;
      } in
      if net.rpc_dial endpoint_rpc
      then (if net.client_version endpoint_rpc
          then record failed { latency = net.elapsed endpoint_rpc }
          else failed)
      else failed

-- `time.Duration(1<<63 - 1)`
abbrev pub max_duration : ℕ
max_duration = 2 ^ 63 - 1

pub record Best : Type 0 where
  pub endpoint : GoString
  pub latency : ℕ

abbrev pub no_best : Best
no_best = record { endpoint = []; latency = max_duration }

-- The body of the loops that look for the best endpoint.
unfoldable pub better : Best → LatencyBox → Best
better best result =
    if ltb 0 result.latency && ltb result.latency best.latency
    then record { endpoint = result.endpoint; latency = result.latency }
    else best

-- The loop over the results, in the order in which they come.
unfoldable pub best_of : Best → List LatencyBox → Best
unfolding better
best_of best [] = best
best_of best (result ∷ results) = best_of (better best result) results

unfoldable pub find_network : ℕ → List RpcConfig → Option RpcConfig
find_network id [] = none
find_network id (network ∷ rest) = elim (parse_uint network.network_id) [
  | none ↦ find_network id rest
  | some i ↦ if eqb i id then some network else find_network id rest
]

pub data SwitchError : Type 0 where
  network_not_found no_alternative client_failed : SwitchError

module _ {C : Type 0} (net : Network C) where
  -- `NewEthereumClient`: the other fields have their zero values.
  unfoldable pub new_ethereum_client : GoString → Option (EthereumClient C)
  new_ethereum_client endpoint =
      Option.map (λ c. record { network_id = 0; eth_client = c; last_updated = 0 })
        (net.eth_dial endpoint)

  -- The loop of the switch. `current` is the endpoint to skip, if it is not empty.
  unfoldable pub scan_endpoints : GoString → GoString → Best → List GoString → Best
  unfolding better check_latency_con
  scan_endpoints current net_id best [] = best
  scan_endpoints current net_id best (endpoint ∷ rest) =
      scan_endpoints current net_id
        (if not (current == []) && endpoint == current
          then best
          else better best (check_latency_con net net_id endpoint))
        rest

  install :
      ℕ
      → ℕ
      → NetworkConfiguration C
      → Option (EthereumClient C)
      → NetworkConfiguration C × Option SwitchError
  install now id conf none = (conf, some client_failed)
  install now id conf (some client) = (
    record conf {
      client_use = put id (record client { network_id = id; last_updated = now }) conf.client_use;
    },
    none,
  )

  -- The endpoint that the client in use has is not known to the code: `current` stays empty.
  pub switch_network :
      ℕ
      → ℕ
      → NetworkConfiguration C
      → Option RpcConfig
      → NetworkConfiguration C × Option SwitchError
  unfolding scan_endpoints install new_ethereum_client
  switch_network now id conf none = (conf, some network_not_found)
  switch_network now id conf (some target) =
      let best = scan_endpoints [] target.network_id no_best target.endpoints in
      if best.endpoint == []
      then (conf, some no_alternative)
      else install now id conf (new_ethereum_client best.endpoint)

  -- `none` is the nil error.
  unfoldable pub switch_rpc_endpoint_immediately :
      ℕ → ℕ → NetworkConfiguration C → NetworkConfiguration C × Option SwitchError
  unfolding switch_network find_network
  switch_rpc_endpoint_immediately now id conf =
      switch_network now id conf (find_network id conf.networks)

-- A network whose id is no number is left out.
network_ids : List RpcConfig → List ℕ
network_ids [] = []
network_ids (network ∷ rest) =
    let ids = network_ids rest in
    elim (parse_uint network.network_id) [ none ↦ ids | some id ↦ id ∷ ids ]

module _ {C : Type 0} where
  -- `none` is the error that there is no client for the network.
  unfoldable pub get_best_client : NetworkConfiguration C → ℕ → Option (EthereumClient C)
  get_best_client conf id = get id conf.client_use

  unfoldable pub get_all_network_ids : NetworkConfiguration C → List ℕ
  unfolding network_ids
  get_all_network_ids conf = network_ids conf.networks

  -- The loop that copies the map of clients.
  copy_clients : Dict ℕ (EthereumClient C) → Dict ℕ (EthereumClient C) → Dict ℕ (EthereumClient C)
  copy_clients into [] = into
  copy_clients into ((id, client) ∷ rest) = copy_clients (put id client into) rest

  unfoldable pub get_all_clients : NetworkConfiguration C → Dict ℕ (EthereumClient C)
  unfolding copy_clients
  get_all_clients conf = copy_clients [] conf.client_use
