-- ===== src/Registry/Chains/From1098.antt =====
-- constants/additionalChainRegistry/chainid-1098.js to chainid-12343.js, in the order of the directory.
use pricefeeding.Registry.Js.{
  JsValue, text, number, array, object, end_items, ◌⨟◌, end_fields, ◌⨾◌, ◌∶◌,
}

-- chainid-1098.js
abbrev pub chainid_1098 : JsValue
chainid_1098 = object (
    "name" ∶ text "RealChain Mainnet"
    ⨾ "chain" ∶ text "RealChain"
    ⨾ "icon" ∶ text "realchain"
    ⨾ "rpc" ∶ array (text "https://rpc.realchain.io" ⨟ end_items)
    ⨾ "features"
      ∶ array (
          object ("name" ∶ text "EIP155" ⨾ end_fields)
          ⨟ object ("name" ∶ text "EIP1559" ⨾ end_fields)
          ⨟ end_items)
    ⨾ "faucets" ∶ array end_items
    ⨾ "nativeCurrency"
      ∶ object
          ("name" ∶ text "RealCoin" ⨾ "symbol" ∶ text "R" ⨾ "decimals" ∶ number 18 ⨾ end_fields)
    ⨾ "infoURL" ∶ text "https://www.realchain.io/"
    ⨾ "shortName" ∶ text "realchain"
    ⨾ "chainId" ∶ number 1098
    ⨾ "networkId" ∶ number 1098
    ⨾ "explorers"
      ∶ array (
          object (
            "name" ∶ text "RealChain explorer"
            ⨾ "url" ∶ text "https://scan.realchain.io/"
            ⨾ end_fields)
          ⨟ end_items)
    ⨾ end_fields)

-- chainid-11142220.js
abbrev pub chainid_11142220 : JsValue
chainid_11142220 = object (
    "name" ∶ text "Celo Sepolia Testnet"
    ⨾ "chain" ∶ text "CELO"
    ⨾ "rpc" ∶ array (text "https://forno.celo-sepolia.celo-testnet.org" ⨟ end_items)
    ⨾ "features"
      ∶ array (
          object ("name" ∶ text "EIP155" ⨾ end_fields)
          ⨟ object ("name" ∶ text "EIP1559" ⨾ end_fields)
          ⨟ end_items)
    ⨾ "faucets" ∶ array (text "https://faucet.celo.org" ⨟ end_items)
    ⨾ "nativeCurrency"
      ∶ object
          ("name" ∶ text "CELO-S" ⨾ "symbol" ∶ text "CELO" ⨾ "decimals" ∶ number 18 ⨾ end_fields)
    ⨾ "infoURL" ∶ text "https://docs.celo.org/"
    ⨾ "shortName" ∶ text "celo-sep"
    ⨾ "chainId" ∶ number 11142220
    ⨾ "networkId" ∶ number 11142220
    ⨾ end_fields)

-- chainid-1124.js
abbrev pub chainid_1124 : JsValue
chainid_1124 = object (
    "name" ∶ text "ECM Chain Testnet"
    ⨾ "chain" ∶ text "ECM Chain"
    ⨾ "rpc" ∶ array (text "https://rpc.testnet.ecmscan.io" ⨟ end_items)
    ⨾ "faucets" ∶ array (text "https://faucet.testnet.ecmscan.io/" ⨟ end_items)
    ⨾ "nativeCurrency"
      ∶ object ("name" ∶ text "ECM" ⨾ "symbol" ∶ text "ECM" ⨾ "decimals" ∶ number 18 ⨾ end_fields)
    ⨾ "features"
      ∶ array (
          object ("name" ∶ text "EIP155" ⨾ end_fields)
          ⨟ object ("name" ∶ text "EIP1559" ⨾ end_fields)
          ⨟ end_items)
    ⨾ "infoURL" ∶ text "https://ecmcoin.com"
    ⨾ "shortName" ∶ text "ecm"
    ⨾ "chainId" ∶ number 1124
    ⨾ "networkId" ∶ number 1124
    ⨾ "icon" ∶ text "ecmchain"
    ⨾ "explorers"
      ∶ array (
          object (
            "name" ∶ text "ecmscan"
            ⨾ "url" ∶ text "https://explorer.testnet.ecmscan.io/"
            ⨾ "icon" ∶ text "ecmchain"
            ⨾ "standard" ∶ text "EIP3091"
            ⨾ end_fields)
          ⨟ end_items)
    ⨾ end_fields)

-- chainid-1125.js
abbrev pub chainid_1125 : JsValue
chainid_1125 = object (
    "name" ∶ text "Taker Chain Mainnet"
    ⨾ "chain" ∶ text "Taker"
    ⨾ "rpc" ∶ array (text "https://rpc-mainnet.taker.xyz" ⨟ end_items)
    ⨾ "faucets" ∶ array end_items
    ⨾ "nativeCurrency"
      ∶ object
          ("name" ∶ text "Taker" ⨾ "symbol" ∶ text "TAKER" ⨾ "decimals" ∶ number 18 ⨾ end_fields)
    ⨾ "features"
      ∶ array (
          object ("name" ∶ text "EIP155" ⨾ end_fields)
          ⨟ object ("name" ∶ text "EIP1559" ⨾ end_fields)
          ⨟ end_items)
    ⨾ "infoURL" ∶ text "https://www.taker.xyz"
    ⨾ "shortName" ∶ text "taker"
    ⨾ "chainId" ∶ number 1125
    ⨾ "networkId" ∶ number 1125
    ⨾ "icon" ∶ text "taker"
    ⨾ "explorers"
      ∶ array (
          object (
            "name" ∶ text "TakerScan"
            ⨾ "url" ∶ text "https://explorer.taker.xyz"
            ⨾ "icon" ∶ text "taker"
            ⨾ "standard" ∶ text "none"
            ⨾ end_fields)
          ⨟ end_items)
    ⨾ end_fields)

-- chainid-12000.js
abbrev pub chainid_12000 : JsValue
chainid_12000 = object (
    "name" ∶ text "Kudora Mainnet"
    ⨾ "chain" ∶ text "KUD"
    ⨾ "icon" ∶ text "kudora"
    ⨾ "rpc" ∶ array (text "https://rpc.kudora.org" ⨟ end_items)
    ⨾ "features"
      ∶ array (
          object ("name" ∶ text "EIP155" ⨾ end_fields)
          ⨟ object ("name" ∶ text "EIP1559" ⨾ end_fields)
          ⨟ end_items)
    ⨾ "faucets" ∶ array end_items
    ⨾ "nativeCurrency"
      ∶ object ("name" ∶ text "Kudo" ⨾ "symbol" ∶ text "KUD" ⨾ "decimals" ∶ number 18 ⨾ end_fields)
    ⨾ "infoURL" ∶ text "https://kudora.org/"
    ⨾ "shortName" ∶ text "kudora"
    ⨾ "chainId" ∶ number 12000
    ⨾ "networkId" ∶ number 12000
    ⨾ "explorers"
      ∶ array (
          object (
            "name" ∶ text "Kudora Explorer"
            ⨾ "url" ∶ text "https://blockscout.kudora.org"
            ⨾ end_fields)
          ⨟ end_items)
    ⨾ end_fields)

-- chainid-1233.js
abbrev pub chainid_1233 : JsValue
chainid_1233 = object (
    "name" ∶ text "Fitochain"
    ⨾ "chain" ∶ text "FITO"
    ⨾ "rpc" ∶ array (text "https://rpc.fitochain.com" ⨟ end_items)
    ⨾ "faucets" ∶ array end_items
    ⨾ "nativeCurrency"
      ∶ object ("name" ∶ text "FITO" ⨾ "symbol" ∶ text "FITO" ⨾ "decimals" ∶ number 18 ⨾ end_fields)
    ⨾ "features"
      ∶ array (
          object ("name" ∶ text "EIP155" ⨾ end_fields)
          ⨟ object ("name" ∶ text "EIP1559" ⨾ end_fields)
          ⨟ end_items)
    ⨾ "infoURL" ∶ text "https://fitochain.com"
    ⨾ "shortName" ∶ text "fitochain"
    ⨾ "chainId" ∶ number 1233
    ⨾ "networkId" ∶ number 1233
    ⨾ "icon" ∶ text "https://fitotechnology.com/wp-content/uploads/2025/08/fito.svg"
    ⨾ "explorers"
      ∶ array (
          object (
            "name" ∶ text "Fitochain Explorer"
            ⨾ "url" ∶ text "https://explorer.fitochain.com"
            ⨾ "standard" ∶ text "EIP3091"
            ⨾ end_fields)
          ⨟ end_items)
    ⨾ end_fields)

-- chainid-12343.js
abbrev pub chainid_12343 : JsValue
chainid_12343 = object (
    "name" ∶ text "ECO Mainnet"
    ⨾ "chain" ∶ text "ECO"
    ⨾ "icon" ∶ text "ela"
    ⨾ "rpc" ∶ array (text "https://api.elastos.io/eco" ⨟ end_items)
    ⨾ "features" ∶ array (object ("name" ∶ text "EIP155" ⨾ end_fields) ⨟ end_items)
    ⨾ "faucets" ∶ array end_items
    ⨾ "nativeCurrency"
      ∶ object ("name" ∶ text "ELA" ⨾ "symbol" ∶ text "ELA" ⨾ "decimals" ∶ number 18 ⨾ end_fields)
    ⨾ "infoURL" ∶ text "https://eco.elastos.io/"
    ⨾ "shortName" ∶ text "ela"
    ⨾ "chainId" ∶ number 12343
    ⨾ "networkId" ∶ number 12343
    ⨾ "explorers"
      ∶ array (
          object
            ("name" ∶ text "ECO Explorer" ⨾ "url" ∶ text "https://eco.elastos.io/" ⨾ end_fields)
          ⨟ end_items)
    ⨾ end_fields)
