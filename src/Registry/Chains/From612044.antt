-- ===== src/Registry/Chains/From612044.antt =====
-- constants/additionalChainRegistry/chainid-612044.js to chainid-688688.js, in the order of the directory.
use pricefeeding.Registry.Js.{
  JsValue, text, number, array, object, end_items, ◌⨟◌, end_fields, ◌⨾◌, ◌∶◌,
}

-- chainid-612044.js
abbrev pub chainid_612044 : JsValue
chainid_612044 = object (
    "name" ∶ text "CROSS Testnet"
    ⨾ "chain" ∶ text "TCROSS"
    ⨾ "rpc"
      ∶ array (
          text "https://testnet.crosstoken.io:22001"
          ⨟ text "wss://testnet.crosstoken.io:32001"
          ⨟ end_items)
    ⨾ "faucets" ∶ array end_items
    ⨾ "nativeCurrency"
      ∶ object (
          "name" ∶ text "TestnetCROSS"
          ⨾ "symbol" ∶ text "tCROSS"
          ⨾ "decimals" ∶ number 18
          ⨾ end_fields)
    ⨾ "infoURL" ∶ text "https://to.nexus"
    ⨾ "shortName" ∶ text "tcross"
    ⨾ "chainId" ∶ number 612044
    ⨾ "networkId" ∶ number 612044
    ⨾ "icon" ∶ text "cross"
    ⨾ "slip44" ∶ number 1
    ⨾ "explorers"
      ∶ array (
          object (
            "name" ∶ text "CROSS Testnet Explorer"
            ⨾ "url" ∶ text "https://testnet.crossscan.io"
            ⨾ "icon" ∶ text "cross"
            ⨾ "standard" ∶ text "EIP3091"
            ⨾ end_fields)
          ⨟ end_items)
    ⨾ end_fields)

-- chainid-612055.js
abbrev pub chainid_612055 : JsValue
chainid_612055 = object (
    "name" ∶ text "CROSS Mainnet"
    ⨾ "chain" ∶ text "CROSS"
    ⨾ "rpc"
      ∶ array (
          text "https://mainnet.crosstoken.io:22001"
          ⨟ text "wss://mainnet.crosstoken.io:32001"
          ⨟ end_items)
    ⨾ "faucets" ∶ array end_items
    ⨾ "nativeCurrency"
      ∶ object
          ("name" ∶ text "CROSS" ⨾ "symbol" ∶ text "CROSS" ⨾ "decimals" ∶ number 18 ⨾ end_fields)
    ⨾ "infoURL" ∶ text "https://to.nexus"
    ⨾ "shortName" ∶ text "cross"
    ⨾ "chainId" ∶ number 612055
    ⨾ "networkId" ∶ number 612055
    ⨾ "icon" ∶ text "cross"
    ⨾ "slip44" ∶ number 1100
    ⨾ "explorers"
      ∶ array (
          object (
            "name" ∶ text "CROSS Explorer"
            ⨾ "url" ∶ text "https://www.crossscan.io"
            ⨾ "icon" ∶ text "cross"
            ⨾ "standard" ∶ text "EIP3091"
            ⨾ end_fields)
          ⨟ end_items)
    ⨾ end_fields)

-- chainid-61900.js
abbrev pub chainid_61900 : JsValue
chainid_61900 = object (
    "name" ∶ text "Mova Mainnet"
    ⨾ "chain" ∶ text "MOVA"
    ⨾ "rpc" ∶ array (text "https://rpc.movachain.com" ⨟ end_items)
    ⨾ "faucets" ∶ array end_items
    ⨾ "nativeCurrency"
      ∶ object (
          "name" ∶ text "MOVA Mainnet GasCoin"
          ⨾ "symbol" ∶ text "MOVA"
          ⨾ "decimals" ∶ number 18
          ⨾ end_fields)
    ⨾ "infoURL" ∶ text "https://movachain.com"
    ⨾ "shortName" ∶ text "mova"
    ⨾ "chainId" ∶ number 61900
    ⨾ "networkId" ∶ number 61900
    ⨾ "icon" ∶ text "mova"
    ⨾ "explorers"
      ∶ array (
          object (
            "name" ∶ text "movascan"
            ⨾ "url" ∶ text "https://scan.movachain.com"
            ⨾ "standard" ∶ text "EIP3091"
            ⨾ end_fields)
          ⨟ end_items)
    ⨾ end_fields)

-- chainid-65000000.js
abbrev pub chainid_65000000 : JsValue
chainid_65000000 = object (
    "name" ∶ text "Autonity Mainnet"
    ⨾ "chain" ∶ text "AUT"
    ⨾ "icon" ∶ text "aut"
    ⨾ "rpc"
      ∶ array (
          text "https://autonity.rpc.web3cdn.network"
          ⨟ text "wss://autonity.rpc.web3cdn.network"
          ⨟ text "https://autonity.rpc.subquery.network/public"
          ⨟ text "wss://autonity.rpc.subquery.network/public"
          ⨟ text "https://rpc.autonity-apis.com"
          ⨟ text "wss://rpc.autonity-apis.com"
          ⨟ end_items)
    ⨾ "faucets" ∶ array end_items
    ⨾ "nativeCurrency"
      ∶ object ("name" ∶ text "Auton" ⨾ "symbol" ∶ text "ATN" ⨾ "decimals" ∶ number 18 ⨾ end_fields)
    ⨾ "infoURL" ∶ text "https://autonity.org/"
    ⨾ "shortName" ∶ text "aut"
    ⨾ "chainId" ∶ number 65000000
    ⨾ "networkId" ∶ number 65000000
    ⨾ "explorers"
      ∶ array (
          object
            ("name" ∶ text "autonityscan" ⨾ "url" ∶ text "https://autonityscan.org" ⨾ end_fields)
          ⨟ end_items)
    ⨾ end_fields)

-- chainid-65010004.js
abbrev pub chainid_65010004 : JsValue
chainid_65010004 = object (
    "name" ∶ text "Autonity Bakerloo (Nile) Testnet"
    ⨾ "chain" ∶ text "AUT"
    ⨾ "icon" ∶ text "aut"
    ⨾ "rpc"
      ∶ array (
          text "https://autonity.rpc.web3cdn.network/testnet"
          ⨟ text "wss://autonity.rpc.web3cdn.network/testnet/ws"
          ⨟ text "https://bakerloo.autonity-apis.com"
          ⨟ text "wss://bakerloo.autonity-apis.com"
          ⨟ end_items)
    ⨾ "faucets" ∶ array (text "https://autonity.faucetme.pro" ⨟ end_items)
    ⨾ "nativeCurrency"
      ∶ object (
          "name" ∶ text "Bakerloo Auton"
          ⨾ "symbol" ∶ text "ATN"
          ⨾ "decimals" ∶ number 18
          ⨾ end_fields)
    ⨾ "infoURL" ∶ text "https://autonity.org/"
    ⨾ "shortName" ∶ text "aut-bakerloo"
    ⨾ "chainId" ∶ number 65010004
    ⨾ "networkId" ∶ number 65010004
    ⨾ "explorers"
      ∶ array (
          object (
            "name" ∶ text "autonity-bakerloo-explorer"
            ⨾ "url" ∶ text "https://bakerloo.autonity.org"
            ⨾ end_fields)
          ⨟ end_items)
    ⨾ end_fields)

-- chainid-65536001.js
abbrev pub chainid_65536001 : JsValue
chainid_65536001 = object (
    "name" ∶ text "Sovra"
    ⨾ "chain" ∶ text "Sovra"
    ⨾ "rpc" ∶ array (text "https://rpc.sovra.io" ⨟ end_items)
    ⨾ "faucets" ∶ array end_items
    ⨾ "nativeCurrency"
      ∶ object ("name" ∶ text "Ether" ⨾ "symbol" ∶ text "ETH" ⨾ "decimals" ∶ number 18 ⨾ end_fields)
    ⨾ "features"
      ∶ array (
          object ("name" ∶ text "EIP155" ⨾ end_fields)
          ⨟ object ("name" ∶ text "EIP1559" ⨾ end_fields)
          ⨟ end_items)
    ⨾ "infoURL" ∶ text "https://sovra.io"
    ⨾ "shortName" ∶ text "sovra"
    ⨾ "chainId" ∶ number 65536001
    ⨾ "networkId" ∶ number 65536001
    ⨾ "icon" ∶ text "sovra"
    ⨾ "explorers"
      ∶ array (
          object (
            "name" ∶ text "Sovra Explorer"
            ⨾ "url" ∶ text "https://explorer.sovra.io"
            ⨾ "icon" ∶ text "blockscout"
            ⨾ "standard" ∶ text "EIP3091"
            ⨾ end_fields)
          ⨟ end_items)
    ⨾ end_fields)

-- chainid-688688.js
abbrev pub chainid_688688 : JsValue
chainid_688688 = object (
    "name" ∶ text "Pharos Testnet"
    ⨾ "title" ∶ text "Pharos Testnet"
    ⨾ "chain" ∶ text "Pharos"
    ⨾ "icon" ∶ text "pharostestnet"
    ⨾ "rpc" ∶ array (text "https://testnet.dplabs-internal.com" ⨟ end_items)
    ⨾ "faucets" ∶ array end_items
    ⨾ "nativeCurrency"
      ∶ object ("name" ∶ text "PHRS" ⨾ "symbol" ∶ text "PHRS" ⨾ "decimals" ∶ number 18 ⨾ end_fields)
    ⨾ "infoURL" ∶ text "https://testnet.pharosnetwork.xyz/"
    ⨾ "shortName" ∶ text "pharos-testnet"
    ⨾ "chainId" ∶ number 688688
    ⨾ "networkId" ∶ number 688688
    ⨾ "explorers"
      ∶ array (
          object (
            "name" ∶ text "Pharos Testnet Explorer"
            ⨾ "url" ∶ text "https://testnet.pharosscan.xyz"
            ⨾ "standard" ∶ text "EIP3091"
            ⨾ end_fields)
          ⨟ end_items)
    ⨾ end_fields)
