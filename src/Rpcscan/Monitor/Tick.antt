-- ===== src/Rpcscan/Monitor/Tick.antt =====
-- What a round of the monitor does to the clients in use.
use pricefeeding.Prelude.{
  ℕ, ◌≡◌, refl, ap, ◌∙◌, inl, inr, List, [], ◌∷◌, Option, none, some, arith, Option-cases,
  Bool-cases, eqb, if◌then◌else◌,
}
use pricefeeding.Prelude.Key.{GoString, nat_key, string_key, eqb_iff, string_beq}
use pricefeeding.Prelude.Dict.{Dict, get, put, get-put, get-nil, Distinct, put-Distinct}
use pricefeeding.Rpcscan.Types.{RpcConfig, EthereumClient, NetworkConfiguration}
use pricefeeding.Rpcscan.RpcSwitcher.{Network, Best, new_ethereum_client, get_best_client}
use pricefeeding.Rpcscan.Monitor.{store_best, update_clients, monitor_tick}
use pricefeeding.Strconv.{parse_uint}

store_best-Distinct :
    (l : List (RpcConfig × Best)) (m : Dict ℕ GoString) → Distinct m → Distinct (store_best l m)
unfolding store_best
store_best-Distinct [] m d = d
store_best-Distinct ((network, best) ∷ l) m d =
    elim (Option-cases (parse_uint network.network_id)) [
      | inl e ↦ rw e (store_best-Distinct l m d)
      | inr (id, e) ↦ elim (Bool-cases (string_beq best.endpoint [])) [
        | inl none_found ↦ rw (e, none_found) (store_best-Distinct l m d)
        | inr found ↦
            rw (e, found)
              (store_best-Distinct l (put id best.endpoint m) (put-Distinct id best.endpoint m d))
      ]
    ]

-- The last search with a best endpoint, among the networks with the id.
pub found_for : ℕ → List (RpcConfig × Best) → Option GoString → Option GoString
found_for id [] found = found
found_for id ((network, best) ∷ rest) found =
    found_for id rest (elim (parse_uint network.network_id) [
      | none ↦ found
      | some i ↦
          if eqb i id
          then (if string_beq best.endpoint [] then found else some best.endpoint)
          else found
    ])

get-store_best :
    (id : ℕ) (l : List (RpcConfig × Best)) (m : Dict ℕ GoString)
    → get id (store_best l m) ≡ found_for id l (get id m)
unfolding store_best found_for
get-store_best id [] m = refl
get-store_best id ((network, best) ∷ l) m = elim (Option-cases (parse_uint network.network_id)) [
  | inl e ↦ rw e (get-store_best id l m)
  | inr (i, e) ↦ ground (
    arith,
    get-store_best id l m,
    get-store_best id l (put i best.endpoint m),
    get-put i id best.endpoint m,
    eqb_iff i id,
  )
]

module _ {C : Type 0} (net : Network C) where
  -- The client that the round makes for a network, or else the one that it had.
  abbrev pub renewed :
      ℕ → ℕ → Option GoString → Option (EthereumClient C) → Option (EthereumClient C)
  renewed now id none old = old
  renewed now id (some endpoint) old = elim (new_ethereum_client net endpoint) [
    | none ↦ old
    | some client ↦ some (record client { network_id = id; last_updated = now })
  ]

  get-update_clients :
      (now id : ℕ) (m : Dict ℕ GoString) (clients : Dict ℕ (EthereumClient C))
      → Distinct m
      → get id (update_clients net now m clients) ≡ renewed now id (get id m) (get id clients)
  unfolding update_clients get
  get-update_clients now id [] clients d = refl
  get-update_clients now id ((k, ep) ∷ m) clients d =
      elim (Option-cases (new_ethereum_client net ep)) [
        | inl e ↦ ground (arith, get-update_clients now id m clients d.1, eqb_iff k id)
        | inr (client, e) ↦
            let fresh : EthereumClient C = record client { network_id = k; last_updated = now } in
            ground (
              arith,
              get-update_clients now id m (put k fresh clients) d.1,
              get-put k id fresh clients,
              eqb_iff k id,
            )
      ]

  -- After a round of the monitor a network has a client for the best endpoint of the last search that
  -- found one for its id, if this endpoint can be dialled, and the client that it had otherwise; the
  -- configured networks are as they were.
  pub get_best_client-monitor_tick :
      (now id : ℕ) (searches : List (RpcConfig × Best)) (conf : NetworkConfiguration C)
      → (get_best_client (monitor_tick net now searches conf) id
          ≡ renewed now id (found_for id searches none) (get_best_client conf id))
        × ((monitor_tick net now searches conf).networks ≡ conf.networks)
  unfolding monitor_tick get_best_client
  get_best_client-monitor_tick now id searches conf = (
    get-update_clients now id (store_best searches []) conf.client_use
          (store_best-Distinct searches [] tt)
        ∙ ap (λ o. renewed now id o (get id conf.client_use))
            (get-store_best id searches [] ∙ ap (found_for id searches) (get-nil id)),
    refl,
  )
