-- ===== src/Rpcscan/Unmarshal.antt =====
-- `json.Unmarshal` into `ChainRegistryData`: a field is found by its name without regard to case, an
-- unknown field is ignored, a later field overwrites an earlier one, and a value of the wrong kind
-- or an integer out of range is an error.
use pricefeeding.Prelude.{
  ℕ, ◌+◌, ◌^◌, Bool, false, ◌&&◌, List, [], ◌∷◌, Option, none, some, String, map, leb, ltb,
  if◌then◌else◌, ◌>>=◌,
}
use pricefeeding.Prelude.Key.{GoString, bytes, string_beq}
use pricefeeding.Registry.Js.{
  JsValue, text, number, bool, array, object, Items, end_items, ◌⨟◌, ◌∶◌, Fields, end_fields, ◌⨾◌,
}
use pricefeeding.Rpcscan.Types.{NativeCurrency, Explorer, ChainRegistryData}

to_lower : ℕ → ℕ
to_lower c = if leb b'A' c && leb c b'Z' then c + 32 else c

names : String → String → Bool
unfolding to_lower
names k field = string_beq (map to_lower (bytes k)) (map to_lower (bytes field))

decode_text : JsValue → Option GoString
decode_text (text s) = some (bytes s)
decode_text _ = none

decode_int : JsValue → Option ℕ
decode_int (number n) = if ltb n (2 ^ 63) then some n else none
decode_int _ = none

decode_bool : JsValue → Option Bool
decode_bool (bool b) = some b
decode_bool _ = none

-- A slice, given how its elements are decoded.
decode_items : {A : Type 0} → (JsValue → Option A) → Items → Option (List A)
decode_items f end_items = some []
decode_items f (v ⨟ vs) = f v >>= λ a. decode_items f vs >>= λ rest. some (a ∷ rest)

decode_slice : {A : Type 0} → (JsValue → Option A) → JsValue → Option (List A)
unfolding decode_items
decode_slice f (array vs) = decode_items f vs
decode_slice f _ = none

-- A struct, given how a field is stored.
decode_fields : {A : Type 0} → (A → String → JsValue → Option A) → A → Fields → Option A
decode_fields f a end_fields = some a
decode_fields f a (k ∶ v ⨾ fs) = f a k v >>= λ b. decode_fields f b fs

decode_struct : {A : Type 0} → (A → String → JsValue → Option A) → A → JsValue → Option A
unfolding decode_fields
decode_struct f a (object fs) = decode_fields f a fs
decode_struct f a _ = none

currency_field : NativeCurrency → String → JsValue → Option NativeCurrency
unfolding names decode_text decode_int
currency_field c k v =
    if names k "name"
    then (do s ← decode_text v; some (record c { name = s }))
    else if names k "symbol"
    then (do s ← decode_text v; some (record c { symbol = s }))
    else if names k "decimals"
    then (do n ← decode_int v; some (record c { decimals = n }))
    else some c

-- A feature is a struct with the one field `name`.
feature_field : GoString → String → JsValue → Option GoString
unfolding names decode_text
feature_field f k v = if names k "name" then decode_text v else some f

explorer_field : Explorer → String → JsValue → Option Explorer
unfolding names decode_text
explorer_field x k v =
    if names k "name"
    then (do s ← decode_text v; some (record x { name = s }))
    else if names k "url"
    then (do s ← decode_text v; some (record x { url = s }))
    else if names k "icon"
    then (do s ← decode_text v; some (record x { icon = s }))
    else if names k "standard"
    then (do s ← decode_text v; some (record x { standard = s }))
    else some x

abbrev no_explorer : Explorer
no_explorer = record { name = []; url = []; icon = []; standard = [] }

chain_field : ChainRegistryData → String → JsValue → Option ChainRegistryData
unfolding names decode_text decode_int decode_bool decode_slice decode_struct currency_field
    feature_field explorer_field
chain_field d k v =
    if names k "name"
    then (do s ← decode_text v; some (record d { name = s }))
    else if names k "chain"
    then (do s ← decode_text v; some (record d { chain = s }))
    else if names k "icon"
    then (do s ← decode_text v; some (record d { icon = s }))
    else if names k "rpc"
    then (do l ← decode_slice decode_text v; some (record d { rpc = l }))
    else if names k "features"
    then (do l ← decode_slice (decode_struct feature_field []) v; some (record d { features = l }))
    else if names k "faucets"
    then some (record d { faucets = some v })
    else if names k "nativeCurrency"
    then (do
      c ← decode_struct currency_field d.native_currency v
      some (record d { native_currency = c }))
    else if names k "infoURL"
    then (do s ← decode_text v; some (record d { info_url = s }))
    else if names k "shortName"
    then (do s ← decode_text v; some (record d { short_name = s }))
    else if names k "chainId"
    then (do n ← decode_int v; some (record d { chain_id = n }))
    else if names k "networkId"
    then (do n ← decode_int v; some (record d { network_id = n }))
    else if names k "explorers"
    then (do
      l ← decode_slice (decode_struct explorer_field no_explorer) v
      some (record d { explorers = l }))
    else if names k "testnet"
    then (do b ← decode_bool v; some (record d { testnet = b }))
    else some d

-- The zero value of the struct.
abbrev pub no_data : ChainRegistryData
no_data = record {
  name = [];
  chain = [];
  icon = [];
  rpc = [];
  features = [];
  faucets = none;
  native_currency = record { name = []; symbol = []; decimals = 0 };
  info_url = [];
  short_name = [];
  chain_id = 0;
  network_id = 0;
  explorers = [];
  testnet = false;
}

unfoldable pub unmarshal_chain : JsValue → Option ChainRegistryData
unfolding decode_struct chain_field
unmarshal_chain v = decode_struct chain_field no_data v
