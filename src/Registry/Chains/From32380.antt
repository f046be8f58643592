-- ===== src/Registry/Chains/From32380.antt =====
-- constants/additionalChainRegistry/chainid-32380.js to chainid-4048.js, in the order of the directory.
use pricefeeding.Registry.Js.{
  JsValue, text, number, array, object, end_items, ◌⨟◌, end_fields, ◌⨾◌, ◌∶◌,
}

-- chainid-32380.js
abbrev pub chainid_32380 : JsValue
chainid_32380 = object (
    "name" ∶ text "PAIX Development Network"
    ⨾ "chain" ∶ text "PAIX"
    ⨾ "rpc" ∶ array (text "https://devnet.ppaix.com" ⨟ end_items)
    ⨾ "faucets" ∶ array end_items
    ⨾ "nativeCurrency"
      ∶ object (
          "name" ∶ text "PAIX Token" ⨾ "symbol" ∶ text "PAIX" ⨾ "decimals" ∶ number 18 ⨾ end_fields)
    ⨾ "features"
      ∶ array (
          object ("name" ∶ text "EIP155" ⨾ end_fields)
          ⨟ object ("name" ∶ text "EIP1559" ⨾ end_fields)
          ⨟ end_items)
    ⨾ "infoURL" ∶ text "https://ppaix.com"
    ⨾ "shortName" ∶ text "paix"
    ⨾ "chainId" ∶ number 32380
    ⨾ "networkId" ∶ number 32380
    ⨾ "icon" ∶ text "paix"
    ⨾ "explorers"
      ∶ array (
          object (
            "name" ∶ text "PAIX BlockScout"
            ⨾ "url" ∶ text "https://blockscout.ppaix.com"
            ⨾ "icon" ∶ text "blockscout"
            ⨾ "standard" ∶ text "EIP3091"
            ⨾ end_fields)
          ⨟ end_items)
    ⨾ end_fields)

-- chainid-32769.js
abbrev pub chainid_32769 : JsValue
chainid_32769 = object (
    "name" ∶ text "Zilliqa 2"
    ⨾ "chain" ∶ text "ZIL"
    ⨾ "rpc" ∶ array (text "https://api.zilliqa.com" ⨟ end_items)
    ⨾ "faucets" ∶ array end_items
    ⨾ "nativeCurrency"
      ∶ object
          ("name" ∶ text "Zilliqa" ⨾ "symbol" ∶ text "ZIL" ⨾ "decimals" ∶ number 18 ⨾ end_fields)
    ⨾ "infoURL" ∶ text "https://www.zilliqa.com/"
    ⨾ "shortName" ∶ text "zil"
    ⨾ "features" ∶ array (object ("name" ∶ text "EIP155" ⨾ end_fields) ⨟ end_items)
    ⨾ "chainId" ∶ number 32769
    ⨾ "networkId" ∶ number 32769
    ⨾ "icon" ∶ text "zilliqa"
    ⨾ "explorers"
      ∶ array (
          object (
            "name" ∶ text "Zilliqa 2 Mainnet Explorer"
            ⨾ "url" ∶ text "https://zilliqa.blockscout.com/"
            ⨾ "standard" ∶ text "EIP3091"
            ⨾ end_fields)
          ⨟ end_items)
    ⨾ end_fields)

-- chainid-33101.js
abbrev pub chainid_33101 : JsValue
chainid_33101 = object (
    "name" ∶ text "Zilliqa 2 Testnet"
    ⨾ "chain" ∶ text "ZIL"
    ⨾ "rpc" ∶ array (text "https://api.testnet.zilliqa.com" ⨟ end_items)
    ⨾ "faucets" ∶ array (text "https://faucet.testnet.zilliqa.com" ⨟ end_items)
    ⨾ "nativeCurrency"
      ∶ object
          ("name" ∶ text "Zilliqa" ⨾ "symbol" ∶ text "ZIL" ⨾ "decimals" ∶ number 18 ⨾ end_fields)
    ⨾ "infoURL" ∶ text "https://www.zilliqa.com/"
    ⨾ "shortName" ∶ text "zil-testnet"
    ⨾ "features" ∶ array (object ("name" ∶ text "EIP155" ⨾ end_fields) ⨟ end_items)
    ⨾ "chainId" ∶ number 33101
    ⨾ "networkId" ∶ number 33101
    ⨾ "slip44" ∶ number 1
    ⨾ "explorers"
      ∶ array (
          object (
            "name" ∶ text "Zilliqa 2 Testnet Explorer"
            ⨾ "url" ∶ text "https://testnet.zilliqa.blockscout.com/"
            ⨾ "standard" ∶ text "EIP3091"
            ⨾ end_fields)
          ⨟ end_items)
    ⨾ end_fields)

-- chainid-33469.js
abbrev pub chainid_33469 : JsValue
chainid_33469 = object (
    "name" ∶ text "Zilliqa 2 Devnet"
    ⨾ "chain" ∶ text "ZIL"
    ⨾ "rpc" ∶ array (text "https://api.zq2-devnet.zilliqa.com" ⨟ end_items)
    ⨾ "faucets" ∶ array (text "https://faucet.zq2-devnet.zilliqa.com" ⨟ end_items)
    ⨾ "nativeCurrency"
      ∶ object
          ("name" ∶ text "Zilliqa" ⨾ "symbol" ∶ text "ZIL" ⨾ "decimals" ∶ number 18 ⨾ end_fields)
    ⨾ "infoURL" ∶ text "https://www.zilliqa.com/"
    ⨾ "shortName" ∶ text "zq2-devnet"
    ⨾ "features" ∶ array (object ("name" ∶ text "EIP155" ⨾ end_fields) ⨟ end_items)
    ⨾ "chainId" ∶ number 33469
    ⨾ "networkId" ∶ number 33469
    ⨾ "icon" ∶ text "zilliqa"
    ⨾ "explorers"
      ∶ array (
          object (
            "name" ∶ text "Zilliqa 2 Devnet Explorer"
            ⨾ "url" ∶ text "https://otterscan.zq2-devnet.zilliqa.com"
            ⨾ "standard" ∶ text "EIP3091"
            ⨾ end_fields)
          ⨟ end_items)
    ⨾ end_fields)

-- chainid-347.js
abbrev pub chainid_347 : JsValue
chainid_347 = object (
    "name" ∶ text "Kross Network Mainnet"
    ⨾ "chain" ∶ text "KSS"
    ⨾ "rpc" ∶ array (text "https://rpc-v1.kross.network" ⨟ end_items)
    ⨾ "faucets" ∶ array end_items
    ⨾ "nativeCurrency"
      ∶ object ("name" ∶ text "Kross" ⨾ "symbol" ∶ text "KSS" ⨾ "decimals" ∶ number 18 ⨾ end_fields)
    ⨾ "features"
      ∶ array (
          object ("name" ∶ text "EIP155" ⨾ end_fields)
          ⨟ object ("name" ∶ text "EIP1559" ⨾ end_fields)
          ⨟ end_items)
    ⨾ "infoURL" ∶ text "https://kross.network"
    ⨾ "shortName" ∶ text "kss"
    ⨾ "chainId" ∶ number 347
    ⨾ "networkId" ∶ number 347
    ⨾ "icon" ∶ text "kross"
    ⨾ "explorers"
      ∶ array (
          object (
            "name" ∶ text "Kross Network Explorer"
            ⨾ "url" ∶ text "https://explorer.kross.network"
            ⨾ "icon" ∶ text "kross"
            ⨾ "standard" ∶ text "EIP3091"
            ⨾ end_fields)
          ⨟ end_items)
    ⨾ end_fields)

-- chainid-37771.js
abbrev pub chainid_37771 : JsValue
chainid_37771 = object (
    "name" ∶ text "Weichain net"
    ⨾ "chain" ∶ text "Weichain"
    ⨾ "rpc" ∶ array (text "http://1.15.137.12:8545" ⨟ end_items)
    ⨾ "faucets" ∶ array end_items
    ⨾ "nativeCurrency"
      ∶ object
          ("name" ∶ text "Weichain" ⨾ "symbol" ∶ text "WeiC" ⨾ "decimals" ∶ number 18 ⨾ end_fields)
    ⨾ "features"
      ∶ array (
          object ("name" ∶ text "EIP155" ⨾ end_fields)
          ⨟ object ("name" ∶ text "EIP1559" ⨾ end_fields)
          ⨟ end_items)
    ⨾ "infoURL" ∶ text ""
    ⨾ "shortName" ∶ text "weichain"
    ⨾ "chainId" ∶ number 37771
    ⨾ "networkId" ∶ number 37771
    ⨾ "icon" ∶ text "weichain"
    ⨾ "explorers"
      ∶ array (
          object (
            "name" ∶ text "weichainscan"
            ⨾ "url" ∶ text "http://1.15.137.12:5200/"
            ⨾ "icon" ∶ text "weichainscan"
            ⨾ "standard" ∶ text "EIP3091"
            ⨾ end_fields)
          ⨟ end_items)
    ⨾ end_fields)

-- chainid-4048.js
abbrev pub chainid_4048 : JsValue
chainid_4048 = object (
    "name" ∶ text "GANchain L1"
    ⨾ "chain" ∶ text "GAN"
    ⨾ "rpc" ∶ array (text "https://rpc.gpu.net" ⨟ end_items)
    ⨾ "faucets" ∶ array end_items
    ⨾ "nativeCurrency"
      ∶ object
          ("name" ∶ text "GPUnet" ⨾ "symbol" ∶ text "GPU" ⨾ "decimals" ∶ number 18 ⨾ end_fields)
    ⨾ "features"
      ∶ array (
          object ("name" ∶ text "EIP155" ⨾ end_fields)
          ⨟ object ("name" ∶ text "EIP1559" ⨾ end_fields)
          ⨟ end_items)
    ⨾ "infoURL" ∶ text "https://gpu.net"
    ⨾ "shortName" ∶ text "gan"
    ⨾ "chainId" ∶ number 4048
    ⨾ "networkId" ∶ number 4048
    ⨾ "icon" ∶ text "gpu"
    ⨾ "explorers"
      ∶ array (
          object (
            "name" ∶ text "ganscan"
            ⨾ "url" ∶ text "https://ganscan.gpu.net"
            ⨾ "icon" ∶ text "gpu"
            ⨾ "standard" ∶ text "EIP3091"
            ⨾ end_fields)
          ⨟ end_items)
    ⨾ end_fields)
