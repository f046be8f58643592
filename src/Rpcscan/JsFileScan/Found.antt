-- ===== src/Rpcscan/JsFileScan/Found.antt =====
-- rpcscan/jsfilescan.go: the network that a file of the registry becomes.
use pricefeeding.Prelude.{
  ℕ, ◌^◌, ◌<◌, ◌≡◌, ◌≢◌, ◌⊎◌, refl, ap, ◌∙◌, List, [], ◌∷◌, ◌++◌, Option, none, some, eqb, arith,
  inl, inr, Option-cases, Bool-cases, ◌>>=◌,
}
use pricefeeding.Prelude.Key.{GoString, bytes}
use pricefeeding.Registry.Js.{JsValue}
use pricefeeding.Rpcscan.Types.{ChainRegistryData, RpcConfig}
use pricefeeding.Rpcscan.Unmarshal.{unmarshal_chain}
use pricefeeding.Rpcscan.JsText.{convert_js_to_json}
use pricefeeding.Rpcscan.JsFileScan.{
  wrapped_token_of, convert_to_rpc_config, parse_chain_registry_file, convert_files,
}
use pricefeeding.Rpcscan.RpcSwitcher.{find_network}
use pricefeeding.Strconv.{itoa, parse_uint}
use pricefeeding.Strconv.RoundTrip.{parse_uint-itoa}

-- The wrapped token of a chain: that of the Ethereum mainnet, that of Arbitrum, or the address 0.
abbrev pub IsWrappedToken : ℕ → GoString → Type 0
IsWrappedToken id token =
    ((id ≡ 1) × (token ≡ bytes "0xC02aaA39b223FE8D0A0e5C4F27eAD9083C756Cc2"))
    ⊎ ((id ≡ 42161) × (token ≡ bytes "0x82aF49447D8a07e3bd95BD0d56f35241523fBab1"))
    ⊎ ((id ≢ 1) × (id ≢ 42161) × (token ≡ bytes "0x0000000000000000000000000000000000000000"))

-- The network has the id, the name, the currency and the endpoints of the file, and its wrapped token.
pub record IsNetworkOf (d : ChainRegistryData) (network : RpcConfig) : Type 0 where
  pub id : network.network_id ≡ itoa d.chain_id
  pub name : network.name_std ≡ d.name
  pub coin : network.name_coinr ≡ d.native_currency.symbol
  pub endpoints : network.endpoints ≡ d.rpc
  pub token : IsWrappedToken d.chain_id network.wrapped_token
  pub no_approvals : network.approval_src ≡ []

wrapped_token_of-cases : (id : ℕ) → IsWrappedToken id (wrapped_token_of id)
unfolding wrapped_token_of
wrapped_token_of-cases id = elim (Bool-cases (eqb id 1)) [
  | inl e ↦ rw e (inl (ground arith, refl))
  | inr e ↦ elim (Bool-cases (eqb id 42161)) [
    | inl f ↦ rw (e, f) (inr (inl (ground arith, refl)))
    | inr f ↦ rw (e, f) (inr (inr (λ h. ground arith, λ h. ground arith, refl)))
  ]
]

convert_to_rpc_config-IsNetworkOf :
    (d : ChainRegistryData) → IsNetworkOf d (convert_to_rpc_config d)
unfolding convert_to_rpc_config
convert_to_rpc_config-IsNetworkOf d = record {
  id = refl;
  name = refl;
  coin = refl;
  endpoints = refl;
  token = wrapped_token_of-cases d.chain_id;
  no_approvals = refl;
}

module _ (decode : GoString → Option JsValue) where
  convert_files-append :
      (before after : List (Option GoString))
      → convert_files decode (before ++ after)
        ≡ convert_files decode before ++ convert_files decode after
  unfolding convert_files
  convert_files-append [] after = refl
  convert_files-append (file ∷ before) after =
      elim (Option-cases (parse_chain_registry_file decode file)) [
        | inl e ↦ rw (e, convert_files) (convert_files-append before after)
        | inr (d, e) ↦
            rw (e, convert_files)
              (ap (λ l. convert_to_rpc_config d ∷ l) (convert_files-append before after))
      ]

  pub parse_chain_registry_file-decoded :
      (content : GoString) (v : JsValue)
      → decode (convert_js_to_json content) ≡ some v
      → parse_chain_registry_file decode (some content) ≡ unmarshal_chain v
  unfolding parse_chain_registry_file
  parse_chain_registry_file-decoded content v e = ap (λ o. o >>= unmarshal_chain) e

  convert_files-loaded :
      (content : GoString) (after : List (Option GoString)) (v : JsValue) (d : ChainRegistryData)
      → decode (convert_js_to_json content) ≡ some v
      → unmarshal_chain v ≡ some d
      → convert_files decode (some content ∷ after)
        ≡ convert_to_rpc_config d ∷ convert_files decode after
  unfolding convert_files
  convert_files-loaded content after v d e f =
      rw (parse_chain_registry_file-decoded content v e, f, convert_files) refl

  find_network-skip :
      (id : ℕ) (l m : List RpcConfig)
      → find_network id l ≡ none
      → find_network id (l ++ m) ≡ find_network id m
  unfolding find_network
  find_network-skip id [] m h = refl
  find_network-skip id (network ∷ l) m h = elim (Option-cases (parse_uint network.network_id)) [
    | inl e ↦ ground (arith, find_network-skip id l m)
    | inr (i, e) ↦ ground (arith, find_network-skip id l m)
  ]

  find_network-first :
      (d : ChainRegistryData) (m : List RpcConfig)
      → d.chain_id < 2 ^ 64
      → find_network d.chain_id (convert_to_rpc_config d ∷ m) ≡ some (convert_to_rpc_config d)
  unfolding find_network convert_to_rpc_config
  find_network-first d m h = ground (arith, parse_uint-itoa d.chain_id)

  -- Where the text of a file, rewritten to JSON, decodes to a value that unmarshals, to data with a chain
  -- id below 2^64, and none of the files before it gives a network with this id: the first network
  -- with the id, of those that the directory is converted to, has the id, the name, the currency symbol
  -- and the endpoints of the data, the wrapped token of its chain, and no approvals; whatever files
  -- come behind, and whichever files cannot be read, decoded or unmarshalled.
  pub convert_files-finds :
      (before after : List (Option GoString)) (content : GoString) (v : JsValue)
      (d : ChainRegistryData)
      → decode (convert_js_to_json content) ≡ some v
      → unmarshal_chain v ≡ some d
      → d.chain_id < 2 ^ 64
      → find_network d.chain_id (convert_files decode before) ≡ none
      → (network : RpcConfig) × (find_network d.chain_id
            (convert_files decode (before ++ some content ∷ after))
          ≡ some network)
        × IsNetworkOf d network
  convert_files-finds before after content v d e f small first = (
    convert_to_rpc_config d,
    ap (find_network d.chain_id) (
          convert_files-append before (some content ∷ after)
          ∙ ap (λ l. convert_files decode before ++ l) (convert_files-loaded content after v d e f))
        ∙ find_network-skip d.chain_id (convert_files decode before)
            (convert_to_rpc_config d ∷ convert_files decode after) first
        ∙ find_network-first d (convert_files decode after) small,
    convert_to_rpc_config-IsNetworkOf d,
  )
