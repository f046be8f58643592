-- ===== src/Tests/SearchTests.antt =====
-- The search of the best endpoint by goroutines, and the monitor of the endpoints.
use pricefeeding.Prelude.{
  ℕ, ◌*◌, ◌≤◌, ◌≡◌, ◌⊎◌, refl, Bool, true, false, [], ◌∷◌, none, some, All, length, if◌then◌else◌,
}
use pricefeeding.Prelude.Key.{GoString, bytes, string_key, ◌==◌}
use pricefeeding.Rpcscan.Types.{RpcConfig, NetworkConfiguration}
use pricefeeding.Rpcscan.RpcSwitcher.{Network, LatencyBox, no_best, better, get_best_client}
use pricefeeding.Rpcscan.Monitor.{
  test_endpoint, best_in, Search, start_search, Step, send, receive, Reach, here, next, IsFinished,
  monitor_tick,
}
use pricefeeding.Rpcscan.Monitor.Race.{
  AnswersInTime, IsFound, search_result, search_terminates, search_agrees,
}
use pricefeeding.Rpcscan.Monitor.Tick.{renewed, found_for, get_best_client-monitor_tick}

-- Both endpoints answer, the second one sooner.
abbrev two : Network ℕ
two = record {
  rpc_dial = λ ep. true;
  client_version = λ ep. true;
  elapsed = λ ep. if ep == bytes "a" then 30 else 20;
  eth_dial = λ ep. some 5;
}

abbrev in_time : GoString → Bool
in_time ep = false

abbrev two_endpoints : RpcConfig
two_endpoints = record {
  network_id = bytes "1";
  name_std = bytes "main";
  name_coinr = bytes "ETH";
  wrapped_token = [];
  endpoints = bytes "a" ∷ bytes "b" ∷ [];
  approval_src = [];
}

abbrev box : GoString → LatencyBox
box = test_endpoint two in_time two_endpoints 1

abbrev last : Search two in_time
last = record {
  pending = [];
  latency_chan = [];
  best = better (better no_best (box (bytes "b"))) (box (bytes "a"));
}

-- The second endpoint sends before the first.
reached : Reach two in_time two_endpoints 1 (start_search two in_time two_endpoints) 4 last
unfolding start_search
reached =
    next
      (next
        (next (next here (send (bytes "a" ∷ []) (bytes "b") [] refl)) (send [] (bytes "a") [] refl))
        (receive (box (bytes "b")) (box (bytes "a") ∷ []) refl))
      (receive (box (bytes "a")) [] refl)

search_result_example :
    IsFound two in_time two_endpoints 1 last.best
    × All
        (λ ep. AnswersInTime two in_time two_endpoints 1 ep → last.best.latency ≤ two.elapsed ep)
        two_endpoints.endpoints
search_result_example = search_result two in_time two_endpoints 1 4 last reached (refl, refl)

search_terminates_example :
    (4 ≤ 2 * length two_endpoints.endpoints)
    × (IsFinished two in_time last
        ⊎ ((t : Search two in_time) × Step two in_time two_endpoints 1 last t))
search_terminates_example = search_terminates two in_time two_endpoints 1 4 last reached

search_agrees_example :
    last.best.latency ≡ (best_in two (bytes "1") no_best two_endpoints.endpoints).latency
search_agrees_example =
    search_agrees two in_time two_endpoints 1 4 last (refl, (refl, tt)) reached (refl, refl)

abbrev conf : NetworkConfiguration ℕ
conf = record { networks = two_endpoints ∷ []; client_use = [] }

get_best_client-monitor_tick_example :
    (get_best_client (monitor_tick two 100 ((two_endpoints, last.best) ∷ []) conf) 1
      ≡ renewed two 100 1
          (found_for 1 ((two_endpoints, last.best) ∷ []) none)
          (get_best_client conf 1))
    × ((monitor_tick two 100 ((two_endpoints, last.best) ∷ []) conf).networks ≡ conf.networks)
get_best_client-monitor_tick_example =
    get_best_client-monitor_tick two 100 1 ((two_endpoints, last.best) ∷ []) conf
