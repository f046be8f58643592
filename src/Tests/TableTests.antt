-- ===== src/Tests/TableTests.antt =====
-- Runs on the tables of constants/.
use pricefeeding.Prelude.{◌≡◌, refl, String, [], ◌∷◌, some, length, ◌>>=◌}
use pricefeeding.Prelude.Key.{bytes, string_key}
use pricefeeding.Prelude.Dict.{get, put}
use pricefeeding.Registry.ExtraRpcs.{chain}
use pricefeeding.Registry.ExtraRpcs.Table.{
  first_chains, entries_of, endpoints_of, rpcs_of, chains_of,
}
use pricefeeding.Registry.Js.{text}
use pricefeeding.Registry.LlamaNodes.{
  llama_chain, llama_nodes_rpcs, index_chain, llama_nodes_rpc_by_url,
}

reading : Unit {0}
unfolding get put entries_of endpoints_of rpcs_of chains_of index_chain llama_nodes_rpc_by_url
reading = tt

-- The texts of the privacy statements, left as they are named in conf/extraRpcs.json.
abbrev names : String → String
names name = name

found_by_url :
    (llama_nodes_rpc_by_url llama_nodes_rpcs [] >>= get (bytes "https://base.llamarpc.com"))
    ≡ some (llama_chain "Base LlamaNodes" "https://base.llamarpc.com")
unfolding reading
found_by_url = refl

-- Of a key that stands twice the second field counts.
second_counts :
    chains_of [] (
      chain "195" (text "https://a" ∷ text "https://b" ∷ [])
      ∷ chain "1" []
      ∷ chain "195" (text "https://c" ∷ [])
      ∷ [])
    ≡ (bytes "195", text "https://c" ∷ []) ∷ (bytes "1", []) ∷ []
unfolding reading
second_counts = refl

-- No key stands twice among the first chains.
all_differ : length (chains_of [] (first_chains names)) ≡ length (first_chains names)
unfolding reading
all_differ = refl
