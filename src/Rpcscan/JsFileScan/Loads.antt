-- ===== src/Rpcscan/JsFileScan/Loads.antt =====
-- What the reader makes of the directory constants/additionalChainRegistry.
use mathlib.Core.Bool.{not}
use mathlib.Core.List.{Memᴰ}
use pricefeeding.Prelude.{
  ℕ, ◌^◌, ◌<◌, ◌≡◌, refl, sym, ap, Bool, true, false, ◌&&◌, List, [], ◌∷◌, map, Option, none, some,
  arith, eqb, ltb, Option-cases, inl, inr, ◌∙◌,
}
use pricefeeding.Prelude.Key.{GoString}
use pricefeeding.Registry.Js.{JsValue}
use pricefeeding.Registry.Chains.{registry}
use pricefeeding.Rpcscan.Types.{ChainRegistryData}
use pricefeeding.Rpcscan.Unmarshal.{unmarshal_chain}
use pricefeeding.Rpcscan.JsText.{convert_js_to_json}
use pricefeeding.Rpcscan.JsFileScan.{convert_files, convert_to_rpc_config}
use pricefeeding.Rpcscan.JsFileScan.Found.{parse_chain_registry_file-decoded}
use pricefeeding.Rpcscan.RpcSwitcher.{find_network}
use pricefeeding.Strconv.RoundTrip.{parse_uint-itoa}

-- The data of the files that load.
decoded : List JsValue → List ChainRegistryData
decoded [] = []
decoded (v ∷ vs) =
    let rest = decoded vs in elim (unmarshal_chain v) [ none ↦ rest | some d ↦ d ∷ rest ]

convert_files-decoded :
    (decode : GoString → Option JsValue) (texts : List GoString) (vs : List JsValue)
    → map (λ s. decode (convert_js_to_json s)) texts ≡ map some vs
    → convert_files decode (map some texts) ≡ map convert_to_rpc_config (decoded vs)
unfolding convert_files decoded
convert_files-decoded decode [] [] h = refl
convert_files-decoded decode [] (v ∷ vs) h = absurd (cc)
convert_files-decoded decode (s ∷ texts) [] h = absurd (cc)
convert_files-decoded decode (s ∷ texts) (v ∷ vs) h =
    let e : decode (convert_js_to_json s) ≡ some v = cc in
    let rest : map (λ s. decode (convert_js_to_json s)) texts ≡ map some vs = cc in
    ground (
      arith,
      parse_chain_registry_file-decoded decode s v e,
      convert_files-decoded decode texts vs rest,
    )

decoded-some :
    (v : JsValue) (vs : List JsValue) (d : ChainRegistryData)
    → unmarshal_chain v ≡ some d
    → decoded (v ∷ vs) ≡ d ∷ decoded vs
unfolding decoded
decoded-some v vs d e = ground arith

decoded-none :
    (v : JsValue) (vs : List JsValue) → unmarshal_chain v ≡ none → decoded (v ∷ vs) ≡ decoded vs
unfolding decoded
decoded-none v vs e = ground arith

mem-decoded :
    (vs : List JsValue) (v : JsValue) (d : ChainRegistryData)
    → unmarshal_chain v ≡ some d
    → Memᴰ v vs
    → Memᴰ d (decoded vs)
mem-decoded [] v d e m = elim m [ ]
mem-decoded (w ∷ vs) v d e (Memᴰ.head p) =
    rw (decoded-some w vs d (ap unmarshal_chain (sym p) ∙ e)) (Memᴰ.head refl)
mem-decoded (w ∷ vs) v d e (Memᴰ.tail m) = elim (Option-cases (unmarshal_chain w)) [
  | inl q ↦ rw (decoded-none w vs q) (mem-decoded vs v d e m)
  | inr (c, q) ↦ rw (decoded-some w vs c q) (Memᴰ.tail (mem-decoded vs v d e m))
]

fresh : ℕ → List ChainRegistryData → Bool
fresh id [] = true
fresh id (d ∷ ds) = not (eqb id d.chain_id) && fresh id ds

-- The ids are 64-bit numbers, and no id stands twice.
distinct : List ChainRegistryData → Bool
unfolding fresh
distinct [] = true
distinct (d ∷ ds) = ltb d.chain_id (2 ^ 64) && fresh d.chain_id ds && distinct ds

fresh-mem :
    (id : ℕ) (ds : List ChainRegistryData) (d : ChainRegistryData)
    → fresh id ds ≡ true
    → Memᴰ d ds
    → eqb id d.chain_id ≡ false
unfolding fresh
fresh-mem id [] d h m = elim m [ ]
fresh-mem id (c ∷ ds) d h (Memᴰ.head p) = rw p (ground arith)
fresh-mem id (c ∷ ds) d h (Memᴰ.tail m) = fresh-mem id ds d (ground arith) m

find-own :
    (ds : List ChainRegistryData) (d : ChainRegistryData)
    → distinct ds ≡ true
    → Memᴰ d ds
    → find_network d.chain_id (map convert_to_rpc_config ds) ≡ some (convert_to_rpc_config d)
unfolding find_network distinct convert_to_rpc_config
find-own [] d h m = elim m [ ]
find-own (c ∷ ds) d h (Memᴰ.head p) = rw p (ground (arith, parse_uint-itoa c.chain_id))
find-own (c ∷ ds) d h (Memᴰ.tail m) =
    ground
      (arith, parse_uint-itoa c.chain_id, fresh-mem c.chain_id ds d, find-own ds d (ground arith) m)

all_load : List JsValue → Bool
all_load [] = true
all_load (v ∷ vs) =
    elim (unmarshal_chain v) [ none ↦ false | some d ↦ ltb 0 d.chain_id ] && all_load vs

all_load-mem :
    (vs : List JsValue) (v : JsValue)
    → all_load vs ≡ true
    → Memᴰ v vs
    → (d : ChainRegistryData) × (unmarshal_chain v ≡ some d) × (0 < d.chain_id)
unfolding all_load
all_load-mem [] v h m = elim m [ ]
all_load-mem (w ∷ vs) v h (Memᴰ.head p) = rw p (ground arith)
all_load-mem (w ∷ vs) v h (Memᴰ.tail m) = all_load-mem vs v (ground arith) m

registry-all_load : all_load registry ≡ true
unfolding all_load registry unmarshal_chain
registry-all_load = refl

registry-distinct : distinct (decoded registry) ≡ true
unfolding decoded distinct registry unmarshal_chain
registry-distinct = refl

-- The first network of a file's id, where the texts decode to the values of the registry.
pub registry_file_found :
    (decode : GoString → Option JsValue) (texts : List GoString) (v : JsValue)
    → map (λ s. decode (convert_js_to_json s)) texts ≡ map some registry
    → Memᴰ v registry
    → (d : ChainRegistryData) × (unmarshal_chain v ≡ some d)
      × (find_network d.chain_id (convert_files decode (map some texts))
          ≡ some (convert_to_rpc_config d))
registry_file_found decode texts v h m =
    let (d, e, pos) = all_load-mem registry v registry-all_load m in
    (
      d,
      e,
      rw (convert_files-decoded decode texts registry h)
          (find-own (decoded registry) d registry-distinct (mem-decoded registry v d e m)),
    )
