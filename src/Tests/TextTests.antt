-- ===== src/Tests/TextTests.antt =====
-- Runs of the rewriting of chain registry files, and of the building of URLs.
use pricefeeding.Prelude.{
  ◌≡◌, ◌≢◌, refl, ◌∷◌, [], ◌++◌, true, List, Option, some, if◌then◌else◌, arith, none, All,
}
use pricefeeding.Prelude.Key.{GoString, bytes, string_key, ◌==◌}
use pricefeeding.Pricefeed.PriceCache.{cut_prefix}
use pricefeeding.Pyth.Hermes.{new_hermes_client}
use pricefeeding.Pyth.Requests.{build_url, url_text}
use pricefeeding.Strings.{trim_space}
use pricefeeding.Rpcscan.JsText.{convert_js_to_json}
use pricefeeding.Registry.Js.{
  JsValue, text, number, bool, array, object, end_items, ◌⨟◌, ◌∶◌, end_fields, ◌⨾◌,
}
use pricefeeding.Rpcscan.Types.{ChainRegistryData, RpcConfig}
use pricefeeding.Rpcscan.Unmarshal.{unmarshal_chain}
use pricefeeding.Rpcscan.JsFileScan.{convert_files}
use pricefeeding.Rpcscan.JsFileScan.Found.{IsNetworkOf, convert_files-finds}
use pricefeeding.Rpcscan.RpcSwitcher.{find_network}
use pricefeeding.Rpcscan.JsText.Clean.{convert_js_to_json-All}

abbrev js_text : GoString
js_text =
    bytes "export const data = {\n  name: 'Plasma',\n  rpc: ['https://a.b/c', ],\n"
    ++ bytes "  nativeCurrency: { symbol: 'XPL' },\n  chainId: 9745,\n"
    ++ bytes "  \"explorers\": [{ name: \"x\", url: \"https://x\", },],\n  testnet: true,\n};\n"

abbrev json_text : GoString
json_text =
    bytes "{\n  \"name\": \"Plasma\",\n  \"rpc\": [\"https://a.b/c\" ],\n"
    ++ bytes "  \"nativeCurrency\": { \"symbol\": \"XPL\" },\n  \"chainId\": 9745,\n"
    ++ bytes
        "  \"explorers\": [{ \"name\": \"x\", \"url\": \"https://x\" }],\n  \"testnet\": true\n}"

reading : Unit {0}
unfolding convert_js_to_json trim_space build_url url_text new_hermes_client cut_prefix
reading = tt

-- A space that is no byte of ASCII is trimmed, and half of one is not.
unicode_spaces :
    (trim_space (194 ∷ 160 ∷ 32 ∷ bytes "a b" ++ 226 ∷ 128 ∷ 131 ∷ 10 ∷ []) ≡ bytes "a b")
    × (trim_space (194 ∷ bytes "a" ++ 128 ∷ 131 ∷ []) ≡ 194 ∷ bytes "a" ++ 128 ∷ 131 ∷ [])
unfolding reading
unicode_spaces = (refl, refl)

js_text_is_rewritten : convert_js_to_json js_text ≡ json_text
unfolding reading
js_text_is_rewritten = refl

abbrev plasma_value : JsValue
plasma_value = object (
    "name" ∶ text "Plasma"
    ⨾ "rpc" ∶ array (text "https://a.b/c" ⨟ end_items)
    ⨾ "nativeCurrency" ∶ object ("symbol" ∶ text "XPL" ⨾ end_fields)
    ⨾ "chainId" ∶ number 9745
    ⨾ "explorers"
      ∶ array (object ("name" ∶ text "x" ⨾ "url" ∶ text "https://x" ⨾ end_fields) ⨟ end_items)
    ⨾ "testnet" ∶ bool true
    ⨾ end_fields)

-- Of JSON texts, the one above is read.
abbrev read_json : GoString → Option JsValue
read_json s = if s == json_text then some plasma_value else none

abbrev plasma : ChainRegistryData
plasma = record {
  name = bytes "Plasma";
  chain = [];
  icon = [];
  rpc = bytes "https://a.b/c" ∷ [];
  features = [];
  faucets = none;
  native_currency = record { name = []; symbol = bytes "XPL"; decimals = 0 };
  info_url = [];
  short_name = [];
  chain_id = 9745;
  network_id = 0;
  explorers = record { name = bytes "x"; url = bytes "https://x"; icon = []; standard = [] } ∷ [];
  testnet = true;
}

plasma_decodes : read_json (convert_js_to_json js_text) ≡ some plasma_value
unfolding reading
plasma_decodes = refl

plasma_unmarshals : unmarshal_chain plasma_value ≡ some plasma
unfolding unmarshal_chain
plasma_unmarshals = refl

-- A file that cannot be read, and one that is no JSON.
abbrev other_files : List (Option GoString)
other_files = none ∷ some (bytes "// nothing") ∷ []

others_give_nothing : find_network 9745 (convert_files read_json other_files) ≡ none
unfolding reading convert_files find_network
others_give_nothing = refl

convert_files-finds_example :
    (network : RpcConfig) × (find_network 9745
        (convert_files read_json (other_files ++ some js_text ∷ none ∷ []))
      ≡ some network)
    × IsNetworkOf plasma network
convert_files-finds_example =
    convert_files-finds read_json other_files (none ∷ []) js_text plasma_value plasma plasma_decodes
      plasma_unmarshals (omega arith) others_give_nothing

-- An apostrophe inside a text becomes a quote, which ends the text, and a semicolon is lost.
apostrophe :
    convert_js_to_json (bytes "export const data = { name: \"a's;b\" }")
    ≡ bytes "{ \"name\": \"a\"sb\" }"
unfolding reading
apostrophe = refl

convert_js_to_json-All_example :
    All (λ c. c ≢ b'\'') (convert_js_to_json js_text)
    × All (λ c. c ≢ b';') (convert_js_to_json js_text)
convert_js_to_json-All_example = convert_js_to_json-All js_text

abbrev asked : GoString → GoString
asked base = url_text (build_url (new_hermes_client base none) (bytes "v2/priceFeeds"))

url_of_host :
    asked (bytes "https://hermes.pyth.network") ≡ bytes "https://hermes.pyth.network/v2/priceFeeds"
unfolding reading
url_of_host = refl

-- A base with a path is joined to the endpoint without a slash.
url_of_path : asked (bytes "https://h/api") ≡ bytes "https://h/apiv2/priceFeeds"
unfolding reading
url_of_path = refl
