-- ===== src/Registry/Chains/From2098.antt =====
-- constants/additionalChainRegistry/chainid-2098.js to chainid-222888.js, in the order of the directory.
use pricefeeding.Registry.Js.{
  JsValue, text, number, array, object, end_items, ◌⨟◌, end_fields, ◌⨾◌, ◌∶◌,
}

-- chainid-2098.js
abbrev pub chainid_2098 : JsValue
chainid_2098 = object (
    "name" ∶ text "RealChain Testnet"
    ⨾ "chain" ∶ text "RealChainTest"
    ⨾ "icon" ∶ text "realchain"
    ⨾ "rpc" ∶ array (text "https://rlc.devlab.vip/rpc" ⨟ end_items)
    ⨾ "features"
      ∶ array (
          object ("name" ∶ text "EIP155" ⨾ end_fields)
          ⨟ object ("name" ∶ text "EIP1559" ⨾ end_fields)
          ⨟ end_items)
    ⨾ "faucets" ∶ array end_items
    ⨾ "nativeCurrency"
      ∶ object (
          "name" ∶ text "RealCoinTest" ⨾ "symbol" ∶ text "RT" ⨾ "decimals" ∶ number 18 ⨾ end_fields)
    ⨾ "infoURL" ∶ text "https://www.realchain.io/"
    ⨾ "shortName" ∶ text "realchaintest"
    ⨾ "chainId" ∶ number 2098
    ⨾ "networkId" ∶ number 2098
    ⨾ "explorers"
      ∶ array (
          object (
            "name" ∶ text "RealChainTest explorer"
            ⨾ "url" ∶ text "https://rlc.devlab.vip/"
            ⨾ end_fields)
          ⨟ end_items)
    ⨾ end_fields)

-- chainid-210000.js
abbrev pub chainid_210000 : JsValue
chainid_210000 = object (
    "name" ∶ text "JuChain Mainnet"
    ⨾ "chain" ∶ text "JU"
    ⨾ "rpc" ∶ array (text "https://rpc.juchain.org" ⨟ end_items)
    ⨾ "faucets" ∶ array end_items
    ⨾ "nativeCurrency"
      ∶ object ("name" ∶ text "JUcoin" ⨾ "symbol" ∶ text "JU" ⨾ "decimals" ∶ number 18 ⨾ end_fields)
    ⨾ "features"
      ∶ array (
          object ("name" ∶ text "EIP155" ⨾ end_fields)
          ⨟ object ("name" ∶ text "EIP1559" ⨾ end_fields)
          ⨟ end_items)
    ⨾ "infoURL" ∶ text "https://juchain.org"
    ⨾ "shortName" ∶ text "juchain"
    ⨾ "chainId" ∶ number 210000
    ⨾ "icon" ∶ text "juchain"
    ⨾ "explorers"
      ∶ array (
          object (
            "name" ∶ text "juscan"
            ⨾ "url" ∶ text "https://juscan.io"
            ⨾ "icon" ∶ text "juscan"
            ⨾ "standard" ∶ text "EIP3091"
            ⨾ end_fields)
          ⨟ end_items)
    ⨾ end_fields)

-- chainid-2105.js
abbrev pub chainid_2105 : JsValue
chainid_2105 = object (
    "name" ∶ text "IBVM Mainnet"
    ⨾ "chain" ∶ text "IBVM Mainnet"
    ⨾ "icon" ∶ text "ibvm"
    ⨾ "rpc" ∶ array (text "https://rpc-mainnet.ibvm.io/" ⨟ end_items)
    ⨾ "nativeCurrency"
      ∶ object (
          "name" ∶ text "IBVM Bitcoin"
          ⨾ "symbol" ∶ text "BTC"
          ⨾ "decimals" ∶ number 18
          ⨾ end_fields)
    ⨾ "infoURL" ∶ text "https://ibvm.io/"
    ⨾ "shortName" ∶ text "IBVM"
    ⨾ "chainId" ∶ number 2105
    ⨾ "networkId" ∶ number 2105
    ⨾ "explorers"
      ∶ array (
          object (
            "name" ∶ text "IBVM explorer"
            ⨾ "url" ∶ text "https://ibvmscan.io"
            ⨾ "standard" ∶ text "EIP3091"
            ⨾ end_fields)
          ⨟ end_items)
    ⨾ "status" ∶ text "active"
    ⨾ end_fields)

-- chainid-2107.js
abbrev pub chainid_2107 : JsValue
chainid_2107 = object (
    "name" ∶ text "IBVM Testnet"
    ⨾ "chain" ∶ text "IBVM Testnet"
    ⨾ "icon" ∶ text "ibvmtest"
    ⨾ "rpc" ∶ array (text "https://rpc-testnet.ibvm.io/" ⨟ end_items)
    ⨾ "faucets" ∶ array (text "https://faucet.ibvm.io" ⨟ end_items)
    ⨾ "nativeCurrency"
      ∶ object (
          "name" ∶ text "IBVM Bitcoin"
          ⨾ "symbol" ∶ text "BTC"
          ⨾ "decimals" ∶ number 18
          ⨾ end_fields)
    ⨾ "infoURL" ∶ text "https://ibvm.io/"
    ⨾ "shortName" ∶ text "IBVMT"
    ⨾ "chainId" ∶ number 2107
    ⨾ "networkId" ∶ number 2107
    ⨾ "explorers"
      ∶ array (
          object (
            "name" ∶ text "IBVM Testnet explorer"
            ⨾ "url" ∶ text "https://testnet-explorer.ibvm.io"
            ⨾ "standard" ∶ text "EIP3091"
            ⨾ end_fields)
          ⨟ end_items)
    ⨾ "status" ∶ text "active"
    ⨾ end_fields)

-- chainid-2201.js
abbrev pub chainid_2201 : JsValue
chainid_2201 = object (
    "name" ∶ text "Stable Testnet"
    ⨾ "chain" ∶ text "stabletestnet_2201-1"
    ⨾ "rpc" ∶ array (text "https://stable-jsonrpc.testnet.chain0.dev" ⨟ end_items)
    ⨾ "icon" ∶ text "stable"
    ⨾ "faucets" ∶ array (text "https://demo.testnet.chain0.dev/faucet" ⨟ end_items)
    ⨾ "nativeCurrency"
      ∶ object ("name" ∶ text "USDT" ⨾ "symbol" ∶ text "USDT" ⨾ "decimals" ∶ number 18 ⨾ end_fields)
    ⨾ "features" ∶ array (object ("name" ∶ text "EIP1559" ⨾ end_fields) ⨟ end_items)
    ⨾ "infoURL" ∶ text "https://docs.partners.stable.xyz/testnet/testnet-information"
    ⨾ "shortName" ∶ text "stable"
    ⨾ "chainId" ∶ number 2201
    ⨾ "networkId" ∶ number 2201
    ⨾ "explorers"
      ∶ array (
          object (
            "name" ∶ text "Stable Explorer"
            ⨾ "url" ∶ text "https://stable-explorer.testnet.chain0.dev"
            ⨾ "standard" ∶ text "EIP3091"
            ⨾ end_fields)
          ⨟ end_items)
    ⨾ end_fields)

-- chainid-220312.js
abbrev pub chainid_220312 : JsValue
chainid_220312 = object (
    "name" ∶ text "KultChain"
    ⨾ "chain" ∶ text "KLT"
    ⨾ "rpc"
      ∶ array (text "https://rpc.kultchain.com" ⨟ text "http://217.154.10.57:8545" ⨟ end_items)
    ⨾ "faucets" ∶ array end_items
    ⨾ "nativeCurrency"
      ∶ object
          ("name" ∶ text "KultCoin" ⨾ "symbol" ∶ text "KLT" ⨾ "decimals" ∶ number 18 ⨾ end_fields)
    ⨾ "features"
      ∶ array (
          object ("name" ∶ text "EIP155" ⨾ end_fields)
          ⨟ object ("name" ∶ text "EIP1559" ⨾ end_fields)
          ⨟ end_items)
    ⨾ "infoURL" ∶ text "https://kultchain.com"
    ⨾ "shortName" ∶ text "klt"
    ⨾ "chainId" ∶ number 220312
    ⨾ "networkId" ∶ number 220312
    ⨾ "icon" ∶ text "kultchain"
    ⨾ "explorers"
      ∶ array (
          object (
            "name" ∶ text "KultChain Explorer"
            ⨾ "url" ∶ text "https://explorer.kultchain.com"
            ⨾ "icon" ∶ text "blockscout"
            ⨾ "standard" ∶ text "EIP3091"
            ⨾ end_fields)
          ⨟ end_items)
    ⨾ end_fields)

-- chainid-222888.js
abbrev pub chainid_222888 : JsValue
chainid_222888 = object (
    "name" ∶ text "Moca Chain Testnet"
    ⨾ "chain" ∶ text "Moca Chain"
    ⨾ "rpc" ∶ array (text "https://testnet-rpc.mocachain.org" ⨟ end_items)
    ⨾ "faucets" ∶ array (text "https://testnet-scan.mocachain.org/faucet" ⨟ end_items)
    ⨾ "nativeCurrency"
      ∶ object ("name" ∶ text "MOCA" ⨾ "symbol" ∶ text "MOCA" ⨾ "decimals" ∶ number 18 ⨾ end_fields)
    ⨾ "features"
      ∶ array (
          object ("name" ∶ text "EIP155" ⨾ end_fields)
          ⨟ object ("name" ∶ text "EIP1559" ⨾ end_fields)
          ⨟ end_items)
    ⨾ "infoURL" ∶ text "https://mocachain.org"
    ⨾ "shortName" ∶ text "mocat"
    ⨾ "chainId" ∶ number 222888
    ⨾ "networkId" ∶ number 222888
    ⨾ "icon" ∶ text "moca"
    ⨾ "explorers"
      ∶ array (
          object (
            "name" ∶ text "Moca Chain Scan"
            ⨾ "url" ∶ text "https://testnet-scan.mocachain.org"
            ⨾ "icon" ∶ text "moca"
            ⨾ "standard" ∶ text "EIP3091"
            ⨾ end_fields)
          ⨟ end_items)
    ⨾ end_fields)
