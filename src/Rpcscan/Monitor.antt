-- ===== src/Rpcscan/Monitor.antt =====
-- rpcscan/rpcswitcher.go: the search for the best endpoints, one network after the other and in
-- parallel, and the round of `MonitorAllRPCEndpoints` that puts clients in their place.
pub mod Race
pub mod Tick
use mathlib.Core.Bool.{not}
use pricefeeding.Prelude.{
  ℕ, ◌+◌, ◌≡◌, Bool, List, [], ◌∷◌, ◌++◌, Option, none, some, if◌then◌else◌, map,
}
use pricefeeding.Prelude.Key.{GoString, nat_key, string_key, ◌==◌}
use pricefeeding.Prelude.Dict.{Dict, get, put}
use pricefeeding.Rpcscan.Types.{RpcConfig, EthereumClient, NetworkConfiguration}
use pricefeeding.Rpcscan.RpcSwitcher.{
  Network, LatencyBox, Best, no_best, better, check_latency_con, new_ethereum_client,
}
use pricefeeding.Strconv.{parse_uint}

module _ {C : Type 0} (net : Network C) where
  -- The loop over the endpoints of a network.
  unfoldable pub best_in : GoString → Best → List GoString → Best
  unfolding check_latency_con
  best_in network_id best [] = best
  best_in network_id best (endpoint ∷ rest) =
      best_in network_id (better best (check_latency_con net network_id endpoint)) rest

  -- `getBestRPCEndpoints`: the best endpoints by the text of the network id.
  unfoldable pub get_best_rpc_endpoints :
      List RpcConfig → Dict GoString GoString → Dict GoString GoString
  unfolding best_in
  get_best_rpc_endpoints [] best_endpoints = best_endpoints
  get_best_rpc_endpoints (network ∷ rest) best_endpoints =
      let best = best_in network.network_id no_best network.endpoints in
      get_best_rpc_endpoints rest (
        if best.endpoint == []
        then best_endpoints
        else put network.network_id best.endpoint best_endpoints)

  module _ (late : GoString → Bool) where
    -- What the goroutine of an endpoint sends: the latency, or a failure where the timeout comes first
    -- (`late`).
    unfoldable pub test_endpoint : RpcConfig → ℕ → GoString → LatencyBox
    test_endpoint network id endpoint =
        if late endpoint
        then record { endpoint = endpoint; latency = 0; network_id = id }
        else check_latency_con net network.network_id endpoint

    -- The search for one network: the endpoints whose goroutines have not sent yet, what is in
    -- `latencyChan`, and the best so far.
    pub record Search : Type 0 where
      pub pending : List GoString
      pub latency_chan : List LatencyBox
      pub best : Best

    unfoldable pub start_search : RpcConfig → Search
    start_search network = record { pending = network.endpoints; latency_chan = []; best = no_best }

    -- A goroutine sends its result, or the loop receives one.
    pub data Step (network : RpcConfig) (id : ℕ) : Search → Search → Type 0 where
      send :
          {s : Search} (before : List GoString) (endpoint : GoString) (after : List GoString)
          → s.pending ≡ before ++ endpoint ∷ after
          → Step network id s (record s {
            pending = before ++ after;
            latency_chan = s.latency_chan ++ test_endpoint network id endpoint ∷ [];
          })
      receive :
          {s : Search} (result : LatencyBox) (rest : List LatencyBox)
          → s.latency_chan ≡ result ∷ rest
          → Step network id s (record s { latency_chan = rest; best = better s.best result })

    -- The states after a number of steps.
    pub data Reach (network : RpcConfig) (id : ℕ) (s : Search) : ℕ → Search → Type 0 where
      here : Reach network id s 0 s
      next :
          {n : ℕ} {t u : Search}
          → Reach network id s n t
          → Step network id t u
          → Reach network id s (n + 1) u

    -- The channel is closed once every goroutine has sent, and the loop ends once it is empty.
    abbrev pub IsFinished : Search → Type 0
    IsFinished s = (s.pending ≡ []) × (s.latency_chan ≡ [])

-- `bestEndpoints`, with the networks in the order in which their searches end.
unfoldable pub store_best : List (RpcConfig × Best) → Dict ℕ GoString → Dict ℕ GoString
store_best [] best_endpoints = best_endpoints
store_best ((network, best) ∷ rest) best_endpoints =
    store_best rest (elim (parse_uint network.network_id) [
      | none ↦ best_endpoints
      | some id ↦
          if best.endpoint == [] then best_endpoints else put id best.endpoint best_endpoints
    ])

module _ {C : Type 0} (net : Network C) where
  -- The loop of the monitor over the best endpoints.
  unfoldable pub update_clients :
      ℕ → Dict ℕ GoString → Dict ℕ (EthereumClient C) → Dict ℕ (EthereumClient C)
  update_clients now [] clients = clients
  update_clients now ((id, endpoint) ∷ rest) clients =
      update_clients now rest (elim (new_ethereum_client net endpoint) [
        | none ↦ clients
        | some client ↦ put id (record client { network_id = id; last_updated = now }) clients
      ])

  -- A round of the monitor.
  unfoldable pub monitor_tick :
      ℕ → List (RpcConfig × Best) → NetworkConfiguration C → NetworkConfiguration C
  unfolding store_best update_clients
  monitor_tick now searches conf = record conf {
    client_use = update_clients now (store_best searches []) conf.client_use;
  }
