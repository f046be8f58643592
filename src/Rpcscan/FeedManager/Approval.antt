-- ===== src/Rpcscan/FeedManager/Approval.antt =====
-- The feeds that the networks of the manager carry.
use pricefeeding.Prelude.{
  ℕ, ◌^◌, ◌<◌, ◌≡◌, refl, ap, ◌∙◌, List, [], ◌∷◌, Option, none, some, arith, All, Option-cases, inl,
  inr, eqb, if◌then◌else◌,
}
use pricefeeding.Prelude.Key.{GoString, string_key, nat_key, string_beq_iff, eqb_iff}
use pricefeeding.Prelude.Dict.{Dict, get, put, get-put, get-nil, Distinct}
use pricefeeding.Registry.Js.{JsValue}
use pricefeeding.Rpcscan.NetworkConfig.{extra_network, extra_networks, or_fallback}
use pricefeeding.Rpcscan.FeedManager.{
  PriceFeedConfig, PriceFeedManager, add_proxies, approval_feeds, feeds_network, feeds_of_network,
  manager_networks,
}
use pricefeeding.Rpcscan.Types.{RpcConfig}
use pricefeeding.Strconv.{parse_uint}
use pricefeeding.Strconv.RoundTrip.{parse_uint-itoa}

-- The proxy of a feed, or else what was there before.
abbrev pub proxy_or : Option PriceFeedConfig → Option GoString → Option GoString
proxy_or none before = before
proxy_or (some config) before = some config.proxy

get-add_proxies :
    (name : GoString) (feeds : Dict GoString GoString) (l : Dict GoString PriceFeedConfig)
    → Distinct l
    → get name (add_proxies feeds l) ≡ proxy_or (get name l) (get name feeds)
unfolding add_proxies get
get-add_proxies name feeds [] d = refl
get-add_proxies name feeds ((k, config) ∷ l) d = ground (
  arith,
  get-add_proxies name (put k config.proxy feeds) l d.1,
  get-put k name config.proxy feeds,
  string_beq_iff k name,
)

-- The address that a feed's name stands for: that of the stock feed, or else of the crypto feed.
abbrev pub approved : PriceFeedManager → GoString → Option GoString
approved pfm name = proxy_or (get name pfm.stock_feeds) (proxy_or (get name pfm.crypto_feeds) none)

get-approval_feeds :
    (pfm : PriceFeedManager) (name : GoString)
    → Distinct pfm.crypto_feeds
    → Distinct pfm.stock_feeds
    → get name (approval_feeds pfm) ≡ approved pfm name
unfolding approval_feeds
get-approval_feeds pfm name h k =
    get-add_proxies name (add_proxies [] pfm.crypto_feeds) pfm.stock_feeds k
    ∙ ap (proxy_or (get name pfm.stock_feeds)) (
        get-add_proxies name [] pfm.crypto_feeds h
        ∙ ap (proxy_or (get name pfm.crypto_feeds)) (get-nil name))

-- A network of the manager carries the manager's feeds, and every other network none.
abbrev pub CarriesFeeds : PriceFeedManager → GoString → RpcConfig → Type 0
CarriesFeeds pfm name n =
    (id : ℕ) × (parse_uint n.network_id ≡ some id)
    × (get name n.approval_src ≡ (if eqb id pfm.network_id then approved pfm name else none))

module _ (pfm : PriceFeedManager) (name : GoString) (h : Distinct pfm.crypto_feeds)
    (k : Distinct pfm.stock_feeds) where
  get-feeds_of_network :
      (id : ℕ)
      → get name (feeds_of_network pfm id)
        ≡ (if eqb id pfm.network_id then approved pfm name else none)
  unfolding feeds_of_network
  get-feeds_of_network id =
      ground (arith, get-approval_feeds pfm name h k, get-nil {V = GoString} name)

  extra_network-CarriesFeeds :
      (chain_id : GoString) (rpcs : List JsValue) (n : RpcConfig)
      → extra_network (feeds_of_network pfm) chain_id rpcs ≡ some n
      → CarriesFeeds pfm name n
  unfolding extra_network
  extra_network-CarriesFeeds chain_id rpcs n e = elim (Option-cases (parse_uint chain_id)) [
    | inl p ↦ absurd (ground arith)
    | inr (id, p) ↦
        let carried : n.approval_src ≡ feeds_of_network pfm id = ground arith in
        (id, ground arith, ap (get name) carried ∙ get-feeds_of_network id)
  ]

  add-CarriesFeeds :
      (o : Option RpcConfig) (l : List RpcConfig)
      → ((n : RpcConfig) → o ≡ some n → CarriesFeeds pfm name n)
      → All (CarriesFeeds pfm name) l
      → All (CarriesFeeds pfm name) (elim o [ none ↦ l | some n ↦ n ∷ l ])
  add-CarriesFeeds none l f a = a
  add-CarriesFeeds (some n) l f a = (f n refl, a)

  extra_networks-CarriesFeeds :
      (file : Dict GoString (List JsValue))
      → All (CarriesFeeds pfm name) (extra_networks (feeds_of_network pfm) file)
  unfolding extra_networks
  extra_networks-CarriesFeeds [] = tt
  extra_networks-CarriesFeeds ((chain_id, rpcs) ∷ rest) =
      add-CarriesFeeds (extra_network (feeds_of_network pfm) chain_id rpcs)
        (extra_networks (feeds_of_network pfm) rest) (extra_network-CarriesFeeds chain_id rpcs)
        (extra_networks-CarriesFeeds rest)

  module _ (small : pfm.network_id < 2 ^ 64) where
    feeds_network-CarriesFeeds : CarriesFeeds pfm name (feeds_network pfm)
    unfolding feeds_network
    feeds_network-CarriesFeeds = (
      pfm.network_id,
      parse_uint-itoa pfm.network_id small,
      ground (arith, get-approval_feeds pfm name h k, eqb_iff pfm.network_id pfm.network_id),
    )

    or_fallback-CarriesFeeds :
        (l : List RpcConfig)
        → All (CarriesFeeds pfm name) l
        → All (CarriesFeeds pfm name) (or_fallback (feeds_network pfm ∷ []) l)
    unfolding or_fallback
    or_fallback-CarriesFeeds [] a = (feeds_network-CarriesFeeds, tt)
    or_fallback-CarriesFeeds (n ∷ l) a = a

    -- Where the maps of the manager have no repeated names and its network id is a 64-bit number, every
    -- network that its `CreateNetworkConfig` makes has an id that is a number; under a name the network
    -- of the manager has the address of the stock feed, or else of the crypto feed, with that name, and
    -- every other network has none.
    pub manager_networks-CarriesFeeds :
        (file : Option (Dict GoString (List JsValue)))
        → All (CarriesFeeds pfm name) (manager_networks pfm file)
    unfolding manager_networks
    manager_networks-CarriesFeeds none = (feeds_network-CarriesFeeds, tt)
    manager_networks-CarriesFeeds (some file) =
        or_fallback-CarriesFeeds (extra_networks (feeds_of_network pfm) file)
          (extra_networks-CarriesFeeds file)
