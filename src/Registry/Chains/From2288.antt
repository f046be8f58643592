-- ===== src/Registry/Chains/From2288.antt =====
-- constants/additionalChainRegistry/chainid-2288.js to chainid-286022981.js, in the order of the directory.
use pricefeeding.Registry.Js.{
  JsValue, text, number, array, object, end_items, ◌⨟◌, end_fields, ◌⨾◌, ◌∶◌,
}

-- chainid-2288.js
abbrev pub chainid_2288 : JsValue
chainid_2288 = object (
    "name" ∶ text "Moca Chain Mainnet"
    ⨾ "chain" ∶ text "Moca Chain"
    ⨾ "rpc" ∶ array (text "https://rpc.mocachain.org" ⨟ end_items)
    ⨾ "faucets" ∶ array (text "https://scan.mocachain.org/faucet" ⨟ end_items)
    ⨾ "nativeCurrency"
      ∶ object ("name" ∶ text "MOCA" ⨾ "symbol" ∶ text "MOCA" ⨾ "decimals" ∶ number 18 ⨾ end_fields)
    ⨾ "features"
      ∶ array (
          object ("name" ∶ text "EIP155" ⨾ end_fields)
          ⨟ object ("name" ∶ text "EIP1559" ⨾ end_fields)
          ⨟ end_items)
    ⨾ "infoURL" ∶ text "https://mocachain.org"
    ⨾ "shortName" ∶ text "moca"
    ⨾ "chainId" ∶ number 2288
    ⨾ "networkId" ∶ number 2288
    ⨾ "icon" ∶ text "moca"
    ⨾ "explorers"
      ∶ array (
          object (
            "name" ∶ text "Moca Chain Scan"
            ⨾ "url" ∶ text "https://scan.mocachain.org"
            ⨾ "icon" ∶ text "moca"
            ⨾ "standard" ∶ text "EIP3091"
            ⨾ end_fields)
          ⨟ end_items)
    ⨾ end_fields)

-- chainid-2372.js
abbrev pub chainid_2372 : JsValue
chainid_2372 = object (
    "name" ∶ text "BESC HYPERCHAIN"
    ⨾ "chain" ∶ text "BESC"
    ⨾ "rpc"
      ∶ array (
          text "https://rpc.beschyperchain.com"
          ⨟ text "wss://rpc.beschyperchain.com/ws"
          ⨟ end_items)
    ⨾ "faucets" ∶ text "https://faucet.beschyperchain.com"
    ⨾ "nativeCurrency"
      ∶ object (
          "name" ∶ text "BESC HyperChain"
          ⨾ "symbol" ∶ text "BESC"
          ⨾ "decimals" ∶ number 18
          ⨾ end_fields)
    ⨾ "features"
      ∶ array (
          object ("name" ∶ text "EIP155" ⨾ end_fields)
          ⨟ object ("name" ∶ text "EIP1559" ⨾ end_fields)
          ⨟ end_items)
    ⨾ "infoURL" ∶ text "https://beschyperchain.com"
    ⨾ "shortName" ∶ text "besc"
    ⨾ "chainId" ∶ number 2372
    ⨾ "networkId" ∶ number 2372
    ⨾ "icon" ∶ text "beschyperchain"
    ⨾ "explorers"
      ∶ array (
          object (
            "name" ∶ text "BESC Explorer"
            ⨾ "url" ∶ text "https://explorer.beschyperchain.com"
            ⨾ "icon" ∶ text "beschyperchain"
            ⨾ "standard" ∶ text "EIP3091"
            ⨾ end_fields)
          ⨟ end_items)
    ⨾ end_fields)

-- chainid-239.js
abbrev pub chainid_239 : JsValue
chainid_239 = object (
    "name" ∶ text "TAC Mainnet"
    ⨾ "title" ∶ text "TAC Mainnet"
    ⨾ "chain" ∶ text "TAC"
    ⨾ "icon" ∶ text "tac"
    ⨾ "rpc"
      ∶ array (
          text "https://rpc.tac.build"
          ⨟ text "https://rpc.ankr.com/tac"
          ⨟ text "https://ws.rpc.tac.build"
          ⨟ end_items)
    ⨾ "faucets" ∶ array end_items
    ⨾ "nativeCurrency"
      ∶ object ("name" ∶ text "TAC" ⨾ "symbol" ∶ text "TAC" ⨾ "decimals" ∶ number 18 ⨾ end_fields)
    ⨾ "infoURL" ∶ text "https://tac.build/"
    ⨾ "shortName" ∶ text "tacchain"
    ⨾ "slip44" ∶ number 60
    ⨾ "chainId" ∶ number 239
    ⨾ "networkId" ∶ number 239
    ⨾ "explorers"
      ∶ array (
          object (
            "name" ∶ text "TAC Explorer"
            ⨾ "url" ∶ text "https://explorer.tac.build"
            ⨾ "standard" ∶ text "EIP3091"
            ⨾ end_fields)
          ⨟ object (
              "name" ∶ text "Blockscout"
              ⨾ "url" ∶ text "https://tac.blockscout.com"
              ⨾ "standard" ∶ text "EIP3091"
              ⨾ end_fields)
          ⨟ end_items)
    ⨾ end_fields)

-- chainid-259251.js
abbrev pub chainid_259251 : JsValue
chainid_259251 = object (
    "name" ∶ text "KUB Layer 2 Testnet"
    ⨾ "chain" ∶ text "KUB"
    ⨾ "rpc" ∶ array (text "https://kublayer2.testnet.kubchain.io" ⨟ end_items)
    ⨾ "faucets" ∶ array end_items
    ⨾ "nativeCurrency"
      ∶ object ("name" ∶ text "tKUB" ⨾ "symbol" ∶ text "tKUB" ⨾ "decimals" ∶ number 18 ⨾ end_fields)
    ⨾ "features" ∶ array (object ("name" ∶ text "EIP155" ⨾ end_fields) ⨟ end_items)
    ⨾ "infoURL" ∶ text ""
    ⨾ "shortName" ∶ text "kub"
    ⨾ "chainId" ∶ number 259251
    ⨾ "networkId" ∶ number 259251
    ⨾ "icon" ∶ text "kub"
    ⨾ "explorers"
      ∶ array (
          object (
            "name" ∶ text "KUB Layer2 Testnet Explorer"
            ⨾ "url" ∶ text "https://kublayer2.testnet.kubscan.com"
            ⨾ "icon" ∶ text "kub"
            ⨾ "standard" ∶ text "EIP3091"
            ⨾ end_fields)
          ⨟ end_items)
    ⨾ end_fields)

-- chainid-2691.js
abbrev pub chainid_2691 : JsValue
chainid_2691 = object (
    "name" ∶ text "Splendor Mainnet"
    ⨾ "chain" ∶ text "SPLENDOR"
    ⨾ "rpc" ∶ array (text "https://mainnet-rpc.splendor.org" ⨟ end_items)
    ⨾ "faucets" ∶ array end_items
    ⨾ "nativeCurrency"
      ∶ object (
          "name" ∶ text "Splendor Token"
          ⨾ "symbol" ∶ text "SPLD"
          ⨾ "decimals" ∶ number 18
          ⨾ end_fields)
    ⨾ "features" ∶ array (object ("name" ∶ text "EIP155" ⨾ end_fields) ⨟ end_items)
    ⨾ "infoURL" ∶ text "https://splendor.org"
    ⨾ "shortName" ∶ text "spld"
    ⨾ "chainId" ∶ number 2691
    ⨾ "networkId" ∶ number 2691
    ⨾ "icon" ∶ text "splendor"
    ⨾ "explorers"
      ∶ array (
          object (
            "name" ∶ text "Splendor Explorer"
            ⨾ "url" ∶ text "https://explorer.splendor.org"
            ⨾ "icon" ∶ text "splendor"
            ⨾ "standard" ∶ text "EIP3091"
            ⨾ end_fields)
          ⨟ end_items)
    ⨾ end_fields)

-- chainid-2692.js
abbrev pub chainid_2692 : JsValue
chainid_2692 = object (
    "name" ∶ text "Splendor Testnet"
    ⨾ "chain" ∶ text "SPLD-TESTNET"
    ⨾ "rpc" ∶ array (text "https://testnet-rpc.splendor.org" ⨟ end_items)
    ⨾ "faucets" ∶ array end_items
    ⨾ "nativeCurrency"
      ∶ object (
          "name" ∶ text "Splendor Test Token"
          ⨾ "symbol" ∶ text "SPLDT"
          ⨾ "decimals" ∶ number 18
          ⨾ end_fields)
    ⨾ "features" ∶ array (object ("name" ∶ text "EIP155" ⨾ end_fields) ⨟ end_items)
    ⨾ "infoURL" ∶ text "https://splendor.org"
    ⨾ "shortName" ∶ text "spldt"
    ⨾ "chainId" ∶ number 2692
    ⨾ "networkId" ∶ number 2692
    ⨾ "icon" ∶ text "spld-testnet"
    ⨾ "explorers"
      ∶ array (
          object (
            "name" ∶ text "Splendor Testnet Explorer"
            ⨾ "url" ∶ text "https://testnet-explorer.splendor.org"
            ⨾ "icon" ∶ text "splendor"
            ⨾ "standard" ∶ text "EIP3091"
            ⨾ end_fields)
          ⨟ end_items)
    ⨾ end_fields)

-- chainid-286022981.js
abbrev pub chainid_286022981 : JsValue
chainid_286022981 = object (
    "name" ∶ text "ISTChain Mainnet"
    ⨾ "chain" ∶ text "Openverse"
    ⨾ "rpc"
      ∶ array (
          text "https://rpc1.istchain.org"
          ⨟ text "https://rpc2.istchain.org"
          ⨟ text "https://rpc3.istchain.org"
          ⨟ text "https://rpc4.istchain.org"
          ⨟ text "https://rpc5.istchain.org"
          ⨟ text "https://rpc6.istchain.org"
          ⨟ end_items)
    ⨾ "faucets" ∶ array end_items
    ⨾ "nativeCurrency"
      ∶ object ("name" ∶ text "IST" ⨾ "symbol" ∶ text "IST" ⨾ "decimals" ∶ number 18 ⨾ end_fields)
    ⨾ "infoURL" ∶ text "https://istchain.org"
    ⨾ "shortName" ∶ text "istchain-mainnet"
    ⨾ "chainId" ∶ number 286022981
    ⨾ "networkId" ∶ number 286022981
    ⨾ "icon" ∶ text "ist"
    ⨾ "explorers"
      ∶ array (
          object (
            "name" ∶ text "istscan"
            ⨾ "url" ∶ text "https://scan.istchain.org"
            ⨾ "standard" ∶ text "EIP3091"
            ⨾ end_fields)
          ⨟ end_items)
    ⨾ end_fields)
