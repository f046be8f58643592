-- ===== src/Rpcscan/RpcSwitcher/Switch.antt =====
-- What `SwitchRPCEndpointImmediately` does to the clients in use.
use mathlib.Core.List.Memᴰ
use mathlib.Core.List.{Memᴰ}
use pricefeeding.Prelude.{
  ℕ, ◌<◌, ◌≤◌, ◌≡◌, ◌≢◌, refl, sym, ap, subst, ◌∙◌, inl, inr, true, false, List, [], ◌∷◌, map,
  Option, none, some, arith, All, Option-cases,
}
use pricefeeding.Prelude.Key.{GoString, nat_key, string_key, string_beq, string_beq_iff}
use pricefeeding.Prelude.Dict.{put, get-put}
use pricefeeding.Rpcscan.Types.{RpcConfig, NetworkConfiguration}
use pricefeeding.Rpcscan.RpcSwitcher.{
  Network, LatencyBox, Best, no_best, better, check_latency_con, best_of, scan_endpoints,
  find_network, switch_network, switch_rpc_endpoint_immediately, SwitchError, get_best_client,
}
use pricefeeding.Rpcscan.RpcSwitcher.Selection.{chosen, best_of-cases, best_of-minimal}

module _ {C : Type 0} (net : Network C) where
  pub endpoint-check : (id ep : GoString) → (check_latency_con net id ep).endpoint ≡ ep
  unfolding check_latency_con
  endpoint-check id ep = ground arith

  -- With no endpoint to skip, the loop is that over the latency results.
  scan-best_of :
      (id : GoString) (b : Best) (l : List GoString)
      → scan_endpoints net [] id b l ≡ best_of b (map (check_latency_con net id) l)
  unfolding scan_endpoints best_of
  scan-best_of id b [] = refl
  scan-best_of id b (ep ∷ l) = scan-best_of id (better b (check_latency_con net id ep)) l

  -- The endpoint can be dialled and answers `web3_clientVersion`, after some time.
  pub record Answers (ep : GoString) : Type 0 where
    pub dialled : net.rpc_dial ep ≡ true
    pub version : net.client_version ep ≡ true
    pub late : 0 < net.elapsed ep

  -- The best endpoint of a network: one of its own that answers, and none that answers is faster.
  pub record Fastest (target : RpcConfig) (ep : GoString) : Type 0 where
    pub own : Memᴰ ep target.endpoints
    pub answers : Answers ep
    pub minimal : All (λ other. Answers other → net.elapsed ep ≤ net.elapsed other) target.endpoints

  -- A test with a latency above 0 is that of an endpoint that answers.
  pub check-Answers :
      (id ep : GoString)
      → 0 < (check_latency_con net id ep).latency
      → Answers ep × ((check_latency_con net id ep).latency ≡ net.elapsed ep)
  unfolding check_latency_con
  check-Answers id ep h =
      (record { dialled = ground arith; version = ground arith; late = ground arith }, ground arith)

  pub check-elapsed :
      (id ep : GoString) → Answers ep → (check_latency_con net id ep).latency ≡ net.elapsed ep
  unfolding check_latency_con
  check-elapsed id ep a = ground (arith, a.dialled, a.version)

  -- What is minimal among the tests is minimal among the endpoints that answer.
  pub elapsed-minimal :
      (id : GoString) (m : ℕ) (l : List GoString)
      → All (λ (q : LatencyBox). 0 < q.latency → m ≤ q.latency) (map (check_latency_con net id) l)
      → All (λ ep. Answers ep → m ≤ net.elapsed ep) l
  elapsed-minimal id m [] h = tt
  elapsed-minimal id m (ep ∷ l) h = (
    λ a. let e = check-elapsed id ep a in omega (arith, e, a.late, h.0 (omega (arith, e, a.late))),
    elapsed-minimal id m l h.1,
  )

  result-endpoint :
      (id : GoString) (l : List GoString) (r : LatencyBox)
      → Memᴰ r (map (check_latency_con net id) l)
      → Memᴰ r.endpoint l × (r ≡ check_latency_con net id r.endpoint)
  result-endpoint id l r m =
      let (ep, own, e) = Memᴰ.of_map (check_latency_con net id) l m in
      let at : r.endpoint ≡ ep =
        ap (λ (q : LatencyBox). q.endpoint) (sym e) ∙ endpoint-check id ep in
      (Memᴰ.cast at own, sym e ∙ ap (check_latency_con net id) (sym at))

  Fastest-result :
      (target : RpcConfig) (r : LatencyBox)
      → Memᴰ r (map (check_latency_con net target.network_id) target.endpoints)
      → best_of no_best (map (check_latency_con net target.network_id) target.endpoints) ≡ chosen r
      → 0 < r.latency
      → Fastest target r.endpoint
  Fastest-result target r m is pos =
      let check = check_latency_con net target.network_id in
      let results = map check target.endpoints in
      let (own, at) = result-endpoint target.network_id target.endpoints r m in
      let (answers, time) =
        check-Answers target.network_id r.endpoint
          (subst (λ (q : LatencyBox). 0 < q.latency) at pos) in
      let latency : (best_of no_best results).latency ≡ net.elapsed r.endpoint =
        ap (λ (b : Best). b.latency) is ∙ ap (λ (q : LatencyBox). q.latency) at ∙ time in
      record {
        own = own;
        answers = answers;
        minimal = elapsed-minimal target.network_id (net.elapsed r.endpoint) target.endpoints (
            subst (λ n. All (λ (q : LatencyBox). 0 < q.latency → n ≤ q.latency) results) latency
              (best_of-minimal no_best results));
      }

  -- A best endpoint that is not empty is the fastest of the network.
  scan-Fastest :
      (target : RpcConfig) (best : Best)
      → scan_endpoints net [] target.network_id no_best target.endpoints ≡ best
      → best.endpoint ≢ []
      → Fastest target best.endpoint
  scan-Fastest target best e h =
      let results = map (check_latency_con net target.network_id) target.endpoints in
      let found = sym (scan-best_of target.network_id no_best target.endpoints) ∙ e in
      elim (best_of-cases no_best results) [
        | inl same ↦ absurd (h (ap (λ (b : Best). b.endpoint) (sym found ∙ same)))
        | inr (r, m, is, pos, lt) ↦
            subst (λ (b : Best). Fastest target b.endpoint) (sym is ∙ found)
              (Fastest-result target r m is pos)
      ]

  module _ (now id : ℕ) (conf : NetworkConfiguration C) where
    switch_network-error :
        (found : Option RpcConfig) (e : SwitchError)
        → (switch_network net now id conf found).1 ≡ some e
        → (switch_network net now id conf found).0 ≡ conf
    unfolding switch_network
    switch_network-error none e h = refl
    switch_network-error (some target) e h = ground arith

    -- A switch that fails leaves the configuration as it was.
    pub switch_error_unchanged :
        (e : SwitchError)
        → (switch_rpc_endpoint_immediately net now id conf).1 ≡ some e
        → (switch_rpc_endpoint_immediately net now id conf).0 ≡ conf
    unfolding switch_rpc_endpoint_immediately
    switch_error_unchanged e h = switch_network-error (find_network id conf.networks) e h

    pub record Switched (conf' : NetworkConfiguration C) (target : RpcConfig) (ep : GoString)
        (c : C) : Type 0 where
      pub found : find_network id conf.networks ≡ some target
      pub fastest : Fastest target ep
      pub dialled : net.eth_dial ep ≡ some c
      pub client :
          get_best_client conf' id
          ≡ some (record { network_id = id; eth_client = c; last_updated = now })
      pub others : (j : ℕ) → id ≢ j → get_best_client conf' j ≡ get_best_client conf j
      pub networks : conf'.networks ≡ conf.networks

    unfoldable pub installed : C → NetworkConfiguration C
    installed c = record conf {
      client_use =
          put id (record { network_id = id; eth_client = c; last_updated = now }) conf.client_use;
    }

    Switched-installed :
        (target : RpcConfig) (ep : GoString) (c : C)
        → find_network id conf.networks ≡ some target
        → Fastest target ep
        → net.eth_dial ep ≡ some c
        → Switched (installed c) target ep c
    unfolding installed get_best_client
    Switched-installed target ep c f fast d = record {
      found = f;
      fastest = fast;
      dialled = d;
      client = ground (
        arith,
        get-put id id (record { network_id = id; eth_client = c; last_updated = now })
            conf.client_use,
      );
      others = λ j h. ground (
        arith,
        get-put id j (record { network_id = id; eth_client = c; last_updated = now })
            conf.client_use,
      );
      networks = refl;
    }

    abbrev found_best : RpcConfig → Best
    found_best target = scan_endpoints net [] target.network_id no_best target.endpoints

    pub switch_network-installed :
        (target : RpcConfig) (c : C)
        → string_beq (found_best target).endpoint [] ≡ false
        → net.eth_dial (found_best target).endpoint ≡ some c
        → switch_network net now id conf (some target) ≡ (installed c, none)
    unfolding switch_network installed
    switch_network-installed target c e d = ground arith

    pub switch_network-dials :
        (target : RpcConfig)
        → (switch_network net now id conf (some target)).1 ≡ none
        → (string_beq (found_best target).endpoint [] ≡ false)
          × ((c : C) × (net.eth_dial (found_best target).endpoint ≡ some c))
    unfolding switch_network
    switch_network-dials target h = ground arith

    switch_network-Switched :
        (target : RpcConfig)
        → find_network id conf.networks ≡ some target
        → (switch_network net now id conf (some target)).1 ≡ none
        → (ep : GoString) × (c : C) × Switched
            (switch_network net now id conf (some target)).0
            target
            ep
            c
    switch_network-Switched target f h =
        let (e, (c, d)) = switch_network-dials target h in
        (
          (found_best target).endpoint,
          c,
          rw (switch_network-installed target c e d) (
              Switched-installed target (found_best target).endpoint c f
                (scan-Fastest target (found_best target) refl
                  (λ n. ground (arith, string_beq_iff (found_best target).endpoint [])))
                d),
        )

    -- A switch that succeeds gives the network a client for the fastest of its endpoints that can be
    -- dialled and answer, and leaves the other networks' clients and the configured networks as they
    -- were.
    pub switch-Switched :
        (switch_rpc_endpoint_immediately net now id conf).1 ≡ none
        → (target : RpcConfig) × (ep : GoString) × (c : C) × Switched
            (switch_rpc_endpoint_immediately net now id conf).0
            target
            ep
            c
    unfolding switch_rpc_endpoint_immediately
    switch-Switched h = elim (Option-cases (find_network id conf.networks)) [
      | inl e ↦ absurd (ground arith)
      | inr (target, e) ↦
          let (ep, c, s) = switch_network-Switched target e (rw e at h) in (target, ep, c, rw e s)
    ]
