-- ===== src/Registry/Chains/From41295.antt =====
-- constants/additionalChainRegistry/chainid-41295.js to chainid-510.js, in the order of the directory.
use pricefeeding.Registry.Js.{
  JsValue, text, number, array, object, end_items, ◌⨟◌, end_fields, ◌⨾◌, ◌∶◌,
}

-- chainid-41295.js
abbrev pub chainid_41295 : JsValue
chainid_41295 = object (
    "name" ∶ text "rootVX testnet"
    ⨾ "chain" ∶ text "rootVX"
    ⨾ "rpc" ∶ array (text "http://34.60.253.118:9545" ⨟ end_items)
    ⨾ "faucets" ∶ array end_items
    ⨾ "nativeCurrency"
      ∶ object ("name" ∶ text "Ether" ⨾ "symbol" ∶ text "ETH" ⨾ "decimals" ∶ number 18 ⨾ end_fields)
    ⨾ "features"
      ∶ array (
          object ("name" ∶ text "EIP155" ⨾ end_fields)
          ⨟ object ("name" ∶ text "EIP1559" ⨾ end_fields)
          ⨟ end_items)
    ⨾ "infoURL" ∶ text "https://rootvx.com"
    ⨾ "shortName" ∶ text "rootVX"
    ⨾ "chainId" ∶ number 41295
    ⨾ "networkId" ∶ number 42079
    ⨾ "icon" ∶ text "rootVX"
    ⨾ "explorers"
      ∶ array (
          object (
            "name" ∶ text "rootVXscan"
            ⨾ "url" ∶ text "https://explorer.rootvx.com"
            ⨾ "icon" ∶ text "rootVXscan"
            ⨾ "standard" ∶ text "EIP3091"
            ⨾ end_fields)
          ⨟ end_items)
    ⨾ end_fields)

-- chainid-4227.js
abbrev pub chainid_4227 : JsValue
chainid_4227 = object (
    "name" ∶ text "Hashfire Testnet"
    ⨾ "chain" ∶ text "Hashfire Testnet"
    ⨾ "icon" ∶ text "hashfire"
    ⨾ "rpc" ∶ array (text "https://subnets.avax.network/hashfire/testnet/rpc" ⨟ end_items)
    ⨾ "features"
      ∶ array (
          object ("name" ∶ text "EIP155" ⨾ end_fields)
          ⨟ object ("name" ∶ text "EIP1559" ⨾ end_fields)
          ⨟ end_items)
    ⨾ "faucets" ∶ array end_items
    ⨾ "nativeCurrency"
      ∶ object
          ("name" ∶ text "HASHD" ⨾ "symbol" ∶ text "HASHD" ⨾ "decimals" ∶ number 18 ⨾ end_fields)
    ⨾ "infoURL" ∶ text "https://hashfire.xyz/"
    ⨾ "shortName" ∶ text "hashfire"
    ⨾ "chainId" ∶ number 4227
    ⨾ "networkId" ∶ number 4227
    ⨾ "explorers"
      ∶ array (
          object (
            "name" ∶ text "Avalanche L1 Explorer"
            ⨾ "url" ∶ text "https://subnets-test.avax.network/hashfire/"
            ⨾ "standard" ∶ text "EIP3091"
            ⨾ end_fields)
          ⨟ end_items)
    ⨾ end_fields)

-- chainid-463.js
abbrev pub chainid_463 : JsValue
chainid_463 = object (
    "name" ∶ text "Areum Mainnet"
    ⨾ "chain" ∶ text "AREUM"
    ⨾ "rpc"
      ∶ array (
          text "https://mainnet-rpc.areum.network"
          ⨟ text "https://mainnet-rpc2.areum.network"
          ⨟ text "https://mainnet-rpc3.areum.network"
          ⨟ text "https://mainnet-rpc4.areum.network"
          ⨟ text "https://mainnet-rpc5.areum.network"
          ⨟ end_items)
    ⨾ "faucets" ∶ array end_items
    ⨾ "nativeCurrency"
      ∶ object
          ("name" ∶ text "Areum" ⨾ "symbol" ∶ text "AREA" ⨾ "decimals" ∶ number 18 ⨾ end_fields)
    ⨾ "features" ∶ array (object ("name" ∶ text "EIP155" ⨾ end_fields) ⨟ end_items)
    ⨾ "infoURL" ∶ text "https://areum.network"
    ⨾ "shortName" ∶ text "areum"
    ⨾ "chainId" ∶ number 463
    ⨾ "networkId" ∶ number 463
    ⨾ "icon" ∶ text "areum"
    ⨾ "explorers"
      ∶ array (
          object (
            "name" ∶ text "Areum Explorer"
            ⨾ "url" ∶ text "https://explorer.areum.network"
            ⨾ "icon" ∶ text "areum"
            ⨾ "standard" ∶ text "EIP3091"
            ⨾ end_fields)
          ⨟ end_items)
    ⨾ end_fields)

-- chainid-484.js
abbrev pub chainid_484 : JsValue
chainid_484 = object (
    "name" ∶ text "Camp Network Mainnet"
    ⨾ "chain" ∶ text "CAMP"
    ⨾ "rpc" ∶ array (text "https://rpc.camp.raas.gelato.cloud" ⨟ end_items)
    ⨾ "faucets" ∶ array end_items
    ⨾ "nativeCurrency"
      ∶ object ("name" ∶ text "CAMP" ⨾ "symbol" ∶ text "CAMP" ⨾ "decimals" ∶ number 18 ⨾ end_fields)
    ⨾ "features"
      ∶ array (
          object ("name" ∶ text "EIP155" ⨾ end_fields)
          ⨟ object ("name" ∶ text "EIP1559" ⨾ end_fields)
          ⨟ end_items)
    ⨾ "infoURL" ∶ text "https://docs.campnetwork.xyz"
    ⨾ "shortName" ∶ text "campmainnet"
    ⨾ "chainId" ∶ number 484
    ⨾ "networkId" ∶ number 484
    ⨾ "icon" ∶ text "camp"
    ⨾ "explorers"
      ∶ array (
          object (
            "name" ∶ text "blockscout"
            ⨾ "url" ∶ text "https://camp.cloud.blockscout.com"
            ⨾ "icon" ∶ text "blockscout"
            ⨾ "standard" ∶ text "EIP3091"
            ⨾ end_fields)
          ⨟ end_items)
    ⨾ end_fields)

-- chainid-5031.js
abbrev pub chainid_5031 : JsValue
chainid_5031 = object (
    "name" ∶ text "Somnia Mainnet"
    ⨾ "chain" ∶ text "SOMNIA"
    ⨾ "rpc"
      ∶ array (
          text "https://api.infra.mainnet.somnia.network"
          ⨟ text "https://somnia-json-rpc.stakely.io"
          ⨟ end_items)
    ⨾ "faucets" ∶ array end_items
    ⨾ "nativeCurrency"
      ∶ object ("name" ∶ text "SOMI" ⨾ "symbol" ∶ text "SOMI" ⨾ "decimals" ∶ number 18 ⨾ end_fields)
    ⨾ "features"
      ∶ array (
          object ("name" ∶ text "EIP155" ⨾ end_fields)
          ⨟ object ("name" ∶ text "EIP1559" ⨾ end_fields)
          ⨟ end_items)
    ⨾ "infoURL" ∶ text "https://somnia.network"
    ⨾ "shortName" ∶ text "Somnia"
    ⨾ "chainId" ∶ number 5031
    ⨾ "networkId" ∶ number 5031
    ⨾ "icon" ∶ text "somnia"
    ⨾ "explorers"
      ∶ array (
          object (
            "name" ∶ text "Somnia Explorer"
            ⨾ "url" ∶ text "https://explorer.somnia.network"
            ⨾ "icon" ∶ text "somnia explorer"
            ⨾ "standard" ∶ text "EIP3091"
            ⨾ end_fields)
          ⨟ end_items)
    ⨾ end_fields)

-- chainid-504.js
abbrev pub chainid_504 : JsValue
chainid_504 = object (
    "name" ∶ text "LightchainAI Testnet"
    ⨾ "chain" ∶ text "LCAI"
    ⨾ "rpc" ∶ array (text "https://light-testnet-rpc.lightchain.ai" ⨟ end_items)
    ⨾ "faucets" ∶ array end_items
    ⨾ "nativeCurrency"
      ∶ object (
          "name" ∶ text "LightchainAI"
          ⨾ "symbol" ∶ text "LCAI"
          ⨾ "decimals" ∶ number 18
          ⨾ end_fields)
    ⨾ "features"
      ∶ array (
          object ("name" ∶ text "EIP155" ⨾ end_fields)
          ⨟ object ("name" ∶ text "EIP1559" ⨾ end_fields)
          ⨟ end_items)
    ⨾ "infoURL" ∶ text "https://lightchain.ai"
    ⨾ "shortName" ∶ text "lcai"
    ⨾ "chainId" ∶ number 504
    ⨾ "networkId" ∶ number 504
    ⨾ "icon" ∶ text "lcai"
    ⨾ "explorers"
      ∶ array (
          object (
            "name" ∶ text "lightchain explorer"
            ⨾ "url" ∶ text "https://testnet.lightscan.app"
            ⨾ "icon" ∶ text "lcai"
            ⨾ "standard" ∶ text "EIP3091"
            ⨾ end_fields)
          ⨟ end_items)
    ⨾ end_fields)

-- chainid-510.js
abbrev pub chainid_510 : JsValue
chainid_510 = object (
    "name" ∶ text "Syndicate Mainnet"
    ⨾ "chain" ∶ text "Syndicate"
    ⨾ "shortName" ∶ text "syndicate"
    ⨾ "infoURL" ∶ text "https://syndicate.io"
    ⨾ "icon" ∶ text "syndicate"
    ⨾ "chainId" ∶ number 510
    ⨾ "networkId" ∶ number 510
    ⨾ "features"
      ∶ array (
          object ("name" ∶ text "EIP155" ⨾ end_fields)
          ⨟ object ("name" ∶ text "EIP1559" ⨾ end_fields)
          ⨟ end_items)
    ⨾ "nativeCurrency"
      ∶ object
          ("name" ∶ text "Syndicate" ⨾ "symbol" ∶ text "SYND" ⨾ "decimals" ∶ number 18 ⨾ end_fields)
    ⨾ "rpc" ∶ array (text "https://rpc.syndicate.io" ⨟ end_items)
    ⨾ "faucets" ∶ array end_items
    ⨾ "explorers"
      ∶ array (
          object (
            "name" ∶ text "Syndicate Explorer"
            ⨾ "url" ∶ text "https://explorer.syndicate.io"
            ⨾ "logo" ∶ text "blockscout"
            ⨾ "standard" ∶ text "EIP3091"
            ⨾ end_fields)
          ⨟ end_items)
    ⨾ end_fields)
