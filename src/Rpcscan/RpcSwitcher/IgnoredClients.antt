-- ===== src/Rpcscan/RpcSwitcher/IgnoredClients.antt =====
-- `SwitchRPCEndpointImmediately` under different clients in use.
use pricefeeding.Prelude.{ℕ, ◌≡◌, refl, inl, inr, Option, none, some, arith, Option-cases}
use pricefeeding.Prelude.Key.{nat_key, string_key}
use pricefeeding.Prelude.Dict.{Dict, get-put_self}
use pricefeeding.Rpcscan.Types.{RpcConfig, EthereumClient, NetworkConfiguration}
use pricefeeding.Rpcscan.RpcSwitcher.{
  Network, find_network, switch_network, switch_rpc_endpoint_immediately, get_best_client,
}
use pricefeeding.Rpcscan.RpcSwitcher.Switch.{
  installed, switch_network-dials, switch_network-installed,
}

module _ {C : Type 0} (net : Network C) (now id : ℕ) where
  abbrev pub with_clients :
      NetworkConfiguration C → Dict ℕ (EthereumClient C) → NetworkConfiguration C
  with_clients conf clients = record conf { client_use = clients }

  switch_network_ignores :
      (conf : NetworkConfiguration C) (clients : Dict ℕ (EthereumClient C))
      (found : Option RpcConfig)
      → (switch_network net now id (with_clients conf clients) found).1
        ≡ (switch_network net now id conf found).1
  unfolding switch_network
  switch_network_ignores conf clients none = refl
  switch_network_ignores conf clients (some target) = ground arith

  switch_network_same :
      (conf : NetworkConfiguration C) (clients : Dict ℕ (EthereumClient C)) (target : RpcConfig)
      → (switch_network net now id conf (some target)).1 ≡ none
      → get_best_client (switch_network net now id (with_clients conf clients) (some target)).0 id
        ≡ get_best_client (switch_network net now id conf (some target)).0 id
  unfolding get_best_client installed
  switch_network_same conf clients target h =
      let (e, (c, d)) = switch_network-dials net now id conf target h in
      rw
        (
          switch_network-installed net now id conf target c e d,
          switch_network-installed net now id (with_clients conf clients) target c e d,
          get-put_self,
          get-put_self,
        )
        refl

  -- The clients in use have no influence on a switch: whether it succeeds, and the client that it
  -- then gives the network, are the same with any other clients, the failing one included.
  pub switch_ignores_clients :
      (conf : NetworkConfiguration C) (clients : Dict ℕ (EthereumClient C))
      → ((switch_rpc_endpoint_immediately net now id (with_clients conf clients)).1
          ≡ (switch_rpc_endpoint_immediately net now id conf).1)
        × ((switch_rpc_endpoint_immediately net now id conf).1 ≡ none
            → get_best_client
                (switch_rpc_endpoint_immediately net now id (with_clients conf clients)).0
                id
              ≡ get_best_client (switch_rpc_endpoint_immediately net now id conf).0 id)
  unfolding switch_rpc_endpoint_immediately
  switch_ignores_clients conf clients = (
    switch_network_ignores conf clients (find_network id conf.networks),
    λ h. elim (Option-cases (find_network id conf.networks)) [
      | inl e ↦ absurd (ground arith)
      | inr (target, e) ↦ rw e (switch_network_same conf clients target (rw e at h))
    ],
  )
