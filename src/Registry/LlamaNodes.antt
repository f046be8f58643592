-- ===== src/Registry/LlamaNodes.antt =====
-- constants/llamaNodesRpcs.js: the endpoints of LlamaNodes, and the loop that finds a chain by its URL.
use pricefeeding.Prelude.{Bool, true, String, List, [], ◌∷◌, Option, none, some, ◌>>=◌}
use pricefeeding.Prelude.Key.{GoString, bytes, string_key}
use pricefeeding.Prelude.Dict.{Dict, put}

pub record LlamaRpc : Type 0 where
  pub url : GoString
  pub tracking : GoString
  pub tracking_details : GoString
  pub is_open_source : Bool

pub record LlamaChain : Type 0 where
  pub name : GoString
  pub rpcs : List LlamaRpc

abbrev pub privacy_statement : GoString
privacy_statement =
    bytes
      "LlamaNodes is open-source and does not track or store user information that transits through our RPCs (location, IP, wallet, etc). To learn more, have a look at the public Privacy Policy in our docs: https://llamanodes.notion.site/Privacy-Practices-f20fd8fdd02a469d9d4f42a5989bb936"

abbrev pub llama_chain : String → String → LlamaChain
llama_chain name url = record {
  name = bytes name;
  rpcs =
      record {
        url = bytes url;
        tracking = bytes "none";
        tracking_details = privacy_statement;
        is_open_source = true;
      }
      ∷ [];
}

-- In the order of a loop over the keys, which are numbers.
abbrev pub llama_nodes_rpcs : Dict GoString LlamaChain
llama_nodes_rpcs =
    (bytes "1", llama_chain "Ethereum LlamaNodes" "https://eth.llamarpc.com")
    ∷ (bytes "56", llama_chain "BNB Chain LlamaNodes" "https://binance.llamarpc.com")
    ∷ (bytes "8453", llama_chain "Base LlamaNodes" "https://base.llamarpc.com")
    ∷ []

-- The body of the loop; `none` is the exception where a chain has no endpoint.
unfoldable pub index_chain :
    LlamaChain → Dict GoString LlamaChain → Option (Dict GoString LlamaChain)
index_chain chain by_url = elim chain.rpcs [
  | [] ↦ none
  | rpc ∷ rest ↦ some (put rpc.url chain by_url)
]

unfoldable pub llama_nodes_rpc_by_url :
    Dict GoString LlamaChain → Dict GoString LlamaChain → Option (Dict GoString LlamaChain)
unfolding index_chain
llama_nodes_rpc_by_url [] by_url = some by_url
llama_nodes_rpc_by_url ((chain_id, chain) ∷ chains) by_url =
    index_chain chain by_url >>= llama_nodes_rpc_by_url chains
