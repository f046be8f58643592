-- ===== src/Rpcscan/Config/KnownRpcs.antt =====
-- The endpoints that `GetNetworkRPCs` knows.
use pricefeeding.Prelude.{ℕ, ◌≡◌, refl, false, [], ◌∷◌, arith, eqb, if◌then◌else◌}
use pricefeeding.Prelude.Key.{GoString, string_key}
use pricefeeding.Prelude.Dict.{Dict}
use pricefeeding.Rpcscan.Config.{ExtendedConfig, NetworkFeeds, rpcs_for, get_network_rpcs}

rpcs_for-other :
    (n : ℕ) (c : ExtendedConfig) (l : Dict GoString NetworkFeeds)
    → eqb n 1 ≡ false
    → eqb n 42161 ≡ false
    → rpcs_for n c l ≡ []
unfolding rpcs_for
rpcs_for-other n c [] h k = refl
rpcs_for-other n c ((name, network) ∷ l) h k = ground (arith, rpcs_for-other n c l h k)

-- `GetNetworkRPCs` gives the Ethereum endpoints for the network 1, the Arbitrum endpoints for 42161, and
-- nothing for every other network, whatever feeds the configuration has for it.
pub get_network_rpcs-known :
    (c : ExtendedConfig) (n : ℕ)
    → get_network_rpcs c n
      ≡ (if eqb n 1 then c.ethereum_urls else if eqb n 42161 then c.arbitrum_urls else [])
unfolding get_network_rpcs
get_network_rpcs-known c n = ground (arith, rpcs_for-other n c c.price_feeds)
