-- ===== src/Registry/Chains/From124816.antt =====
-- constants/additionalChainRegistry/chainid-124816.js to chainid-13441.js, in the order of the directory.
use pricefeeding.Registry.Js.{
  JsValue, text, number, array, object, end_items, ◌⨟◌, end_fields, ◌⨾◌, ◌∶◌,
}

-- chainid-124816.js
abbrev pub chainid_124816 : JsValue
chainid_124816 = object (
    "name" ∶ text "Mitosis"
    ⨾ "chain" ∶ text "MITO"
    ⨾ "rpc" ∶ array (text "https://rpc.mitosis.org" ⨟ end_items)
    ⨾ "faucets" ∶ array end_items
    ⨾ "nativeCurrency"
      ∶ object
          ("name" ∶ text "Mitosis" ⨾ "symbol" ∶ text "MITO" ⨾ "decimals" ∶ number 18 ⨾ end_fields)
    ⨾ "features"
      ∶ array (
          object ("name" ∶ text "EIP155" ⨾ end_fields)
          ⨟ object ("name" ∶ text "EIP1559" ⨾ end_fields)
          ⨟ end_items)
    ⨾ "infoURL" ∶ text "https://mitosis.org"
    ⨾ "shortName" ∶ text "mitosis"
    ⨾ "chainId" ∶ number 124816
    ⨾ "networkId" ∶ number 124816
    ⨾ "icon"
      ∶ text "https://storage.googleapis.com/mitosis-statics/logos/mitosis_logo_symbol_basic.png"
    ⨾ "explorers"
      ∶ array (
          object (
            "name" ∶ text "Mitoscan"
            ⨾ "url" ∶ text "https://mitoscan.io/"
            ⨾ "standard" ∶ text "EIP3091"
            ⨾ end_fields)
          ⨟ end_items)
    ⨾ end_fields)

-- chainid-12865.js
abbrev pub chainid_12865 : JsValue
chainid_12865 = object (
    "name" ∶ text "Liberland testnet"
    ⨾ "chain" ∶ text "LLT"
    ⨾ "rpc" ∶ array (text "https://testnet.liberland.org:9944" ⨟ end_items)
    ⨾ "faucets" ∶ array end_items
    ⨾ "nativeCurrency"
      ∶ object (
          "name" ∶ text "Liberland Dollar"
          ⨾ "symbol" ∶ text "LDN"
          ⨾ "decimals" ∶ number 18
          ⨾ end_fields)
    ⨾ "features"
      ∶ array (
          object ("name" ∶ text "EIP155" ⨾ end_fields)
          ⨟ object ("name" ∶ text "EIP1559" ⨾ end_fields)
          ⨟ end_items)
    ⨾ "infoURL" ∶ text "https://testnet.liberland.org"
    ⨾ "shortName" ∶ text "liberland-testnet"
    ⨾ "chainId" ∶ number 12865
    ⨾ "networkId" ∶ number 12865
    ⨾ "icon" ∶ text "liberland"
    ⨾ "explorers" ∶ array end_items
    ⨾ end_fields)

-- chainid-129514.js
abbrev pub chainid_129514 : JsValue
chainid_129514 = object (
    "name" ∶ text "Fuel Sepolia Testnet"
    ⨾ "chain" ∶ text "ETH"
    ⨾ "icon" ∶ text "fuel"
    ⨾ "rpc" ∶ array (text "https://fuel-testnet.zappayment.org" ⨟ end_items)
    ⨾ "features"
      ∶ array (
          object ("name" ∶ text "EIP155" ⨾ end_fields)
          ⨟ object ("name" ∶ text "EIP1559" ⨾ end_fields)
          ⨟ end_items)
    ⨾ "faucets" ∶ array (text "https://faucet-testnet.fuel.network/" ⨟ end_items)
    ⨾ "nativeCurrency"
      ∶ object
          ("name" ∶ text "Ethereum" ⨾ "symbol" ∶ text "ETH" ⨾ "decimals" ∶ number 18 ⨾ end_fields)
    ⨾ "infoURL" ∶ text "https://fuel.network/"
    ⨾ "shortName" ∶ text "fuel-sepolia"
    ⨾ "chainId" ∶ number 129514
    ⨾ "networkId" ∶ number 129514
    ⨾ "explorers"
      ∶ array (
          object (
            "name" ∶ text "Fuel Sepolia Testnet Explorer"
            ⨾ "url" ∶ text "https://app-testnet.fuel.network"
            ⨾ "standard" ∶ text "none"
            ⨾ end_fields)
          ⨟ end_items)
    ⨾ "parent"
      ∶ object (
          "type" ∶ text "L2"
          ⨾ "chain" ∶ text "eip155-11155111"
          ⨾ "bridges"
            ∶ array (
                object ("url" ∶ text "https://app-testnet.fuel.network/bridge" ⨾ end_fields)
                ⨟ end_items)
          ⨾ end_fields)
    ⨾ end_fields)

-- chainid-1314520.js
abbrev pub chainid_1314520 : JsValue
chainid_1314520 = object (
    "name" ∶ text "RoonChain Mainnet"
    ⨾ "chain" ∶ text "ROON"
    ⨾ "icon" ∶ text "roonchain"
    ⨾ "rpc" ∶ array (text "https://mainnet-rpc.roonchain.com" ⨟ end_items)
    ⨾ "faucets" ∶ array end_items
    ⨾ "nativeCurrency"
      ∶ object ("name" ∶ text "ROON" ⨾ "symbol" ∶ text "ROON" ⨾ "decimals" ∶ number 18 ⨾ end_fields)
    ⨾ "features"
      ∶ array (
          object ("name" ∶ text "EIP155" ⨾ end_fields)
          ⨟ object ("name" ∶ text "EIP1559" ⨾ end_fields)
          ⨟ end_items)
    ⨾ "infoURL" ∶ text "https://roonchain.com"
    ⨾ "shortName" ∶ text "roonchain"
    ⨾ "chainId" ∶ number 1314520
    ⨾ "networkId" ∶ number 1314520
    ⨾ "explorers"
      ∶ array (
          object (
            "name" ∶ text "RoonChain Mainnet explorer"
            ⨾ "url" ∶ text "https://mainnet.roonchain.com"
            ⨾ "icon" ∶ text "roonchain"
            ⨾ "standard" ∶ text "EIP3091"
            ⨾ end_fields)
          ⨟ end_items)
    ⨾ end_fields)

-- chainid-13145201.js
abbrev pub chainid_13145201 : JsValue
chainid_13145201 = object (
    "name" ∶ text "RoonChain Testnet"
    ⨾ "chain" ∶ text "ROON"
    ⨾ "icon" ∶ text "roonchain"
    ⨾ "rpc" ∶ array (text "https://testnet-rpc.roonchain.com" ⨟ end_items)
    ⨾ "faucets" ∶ array end_items
    ⨾ "nativeCurrency"
      ∶ object ("name" ∶ text "ROON" ⨾ "symbol" ∶ text "ROON" ⨾ "decimals" ∶ number 18 ⨾ end_fields)
    ⨾ "features"
      ∶ array (
          object ("name" ∶ text "EIP155" ⨾ end_fields)
          ⨟ object ("name" ∶ text "EIP1559" ⨾ end_fields)
          ⨟ end_items)
    ⨾ "infoURL" ∶ text "https://roonchain.com"
    ⨾ "shortName" ∶ text "roonchain"
    ⨾ "chainId" ∶ number 13145201
    ⨾ "networkId" ∶ number 13145201
    ⨾ "explorers"
      ∶ array (
          object (
            "name" ∶ text "RoonChain Testnet explorer"
            ⨾ "url" ∶ text "https://testnets.roonchain.com"
            ⨾ "icon" ∶ text "roonchain"
            ⨾ "standard" ∶ text "EIP3091"
            ⨾ end_fields)
          ⨟ end_items)
    ⨾ end_fields)

-- chainid-13374202.js
abbrev pub chainid_13374202 : JsValue
chainid_13374202 = object (
    "name" ∶ text "Ethereal Testnet"
    ⨾ "title" ∶ text "Ethereal Testnet"
    ⨾ "chain" ∶ text "Ethereal"
    ⨾ "rpc"
      ∶ array (
          text "https://rpc.etherealtest.net"
          ⨟ text "https://rpc-ethereal-testnet-0.t.conduit.xyz"
          ⨟ end_items)
    ⨾ "icon" ∶ text "etherealtestnet"
    ⨾ "faucets" ∶ array end_items
    ⨾ "nativeCurrency"
      ∶ object ("name" ∶ text "USDe" ⨾ "symbol" ∶ text "USDe" ⨾ "decimals" ∶ number 18 ⨾ end_fields)
    ⨾ "infoURL" ∶ text "https://www.ethereal.trade/"
    ⨾ "shortName" ∶ text "ethereal-testnet-0"
    ⨾ "chainId" ∶ number 13374202
    ⨾ "networkId" ∶ number 13374202
    ⨾ "explorers"
      ∶ array (
          object (
            "name" ∶ text "blockscout"
            ⨾ "url" ∶ text "https://explorer.etherealtest.net"
            ⨾ "icon" ∶ text "blockscout"
            ⨾ "standard" ∶ text "EIP3091"
            ⨾ end_fields)
          ⨟ end_items)
    ⨾ end_fields)

-- chainid-13441.js
abbrev pub chainid_13441 : JsValue
chainid_13441 = object (
    "name" ∶ text "Bridgeless Mainnet"
    ⨾ "chain" ∶ text "BRIDGELESS"
    ⨾ "rpc" ∶ array (text "https://eth-rpc.node0.mainnet.bridgeless.com" ⨟ end_items)
    ⨾ "features"
      ∶ array (
          object ("name" ∶ text "EIP155" ⨾ end_fields)
          ⨟ object ("name" ∶ text "EIP1559" ⨾ end_fields)
          ⨟ end_items)
    ⨾ "faucets" ∶ array end_items
    ⨾ "nativeCurrency"
      ∶ object
          ("name" ∶ text "Bridge" ⨾ "symbol" ∶ text "BRIDGE" ⨾ "decimals" ∶ number 18 ⨾ end_fields)
    ⨾ "infoURL" ∶ text "https://bridgeless.com"
    ⨾ "shortName" ∶ text "bridgeless"
    ⨾ "chainId" ∶ number 13441
    ⨾ "networkId" ∶ number 13441
    ⨾ "explorers"
      ∶ array (
          object (
            "name" ∶ text "bridgeless"
            ⨾ "url" ∶ text "https://explorer.mainnet.bridgeless.com/"
            ⨾ end_fields)
          ⨟ end_items)
    ⨾ end_fields)
