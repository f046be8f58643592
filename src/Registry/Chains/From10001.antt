-- ===== src/Registry/Chains/From10001.antt =====
-- constants/additionalChainRegistry/chainid-10001.js to chainid-10323.js, in the order of the directory.
use pricefeeding.Registry.Js.{
  JsValue, text, number, array, object, end_items, ◌⨟◌, end_fields, ◌⨾◌, ◌∶◌,
}

-- chainid-10001.js
abbrev pub chainid_10001 : JsValue
chainid_10001 = object (
    "name" ∶ text "ETHW-mainnet"
    ⨾ "chain" ∶ text "ETHW"
    ⨾ "icon" ∶ text "ethpow"
    ⨾ "rpc" ∶ array (text "https://mainnet.ethereumpow.org/" ⨟ end_items)
    ⨾ "features" ∶ array (object ("name" ∶ text "EIP155" ⨾ end_fields) ⨟ end_items)
    ⨾ "faucets" ∶ array end_items
    ⨾ "nativeCurrency"
      ∶ object (
          "name" ∶ text "EthereumPoW"
          ⨾ "symbol" ∶ text "ETHW"
          ⨾ "decimals" ∶ number 18
          ⨾ end_fields)
    ⨾ "infoURL" ∶ text "https://ethereumpow.org/"
    ⨾ "shortName" ∶ text "ethw"
    ⨾ "chainId" ∶ number 10001
    ⨾ "networkId" ∶ number 10001
    ⨾ "explorers"
      ∶ array (
          object ("name" ∶ text "Oklink" ⨾ "url" ∶ text "https://www.oklink.com/ethw/" ⨾ end_fields)
          ⨟ end_items)
    ⨾ end_fields)

-- chainid-10120.js
abbrev pub chainid_10120 : JsValue
chainid_10120 = object (
    "name" ∶ text "Ozone Testnet"
    ⨾ "chain" ∶ text "OZONE"
    ⨾ "icon" ∶ text "ozone"
    ⨾ "rpc" ∶ array (text "https://rpc-testnet.ozonescan.com" ⨟ end_items)
    ⨾ "features"
      ∶ array (
          object ("name" ∶ text "EIP155" ⨾ end_fields)
          ⨟ object ("name" ∶ text "EIP1559" ⨾ end_fields)
          ⨟ end_items)
    ⨾ "faucets" ∶ array end_items
    ⨾ "nativeCurrency"
      ∶ object (
          "name" ∶ text "TestOzone"
          ⨾ "symbol" ∶ text "tOZONE"
          ⨾ "decimals" ∶ number 18
          ⨾ end_fields)
    ⨾ "infoURL" ∶ text "https://ozonechain.com"
    ⨾ "shortName" ∶ text "ozone"
    ⨾ "chainId" ∶ number 10120
    ⨾ "networkId" ∶ number 10120
    ⨾ "explorers"
      ∶ array (
          object (
            "name" ∶ text "Ozone Chain Explorer"
            ⨾ "url" ∶ text "https://testnet.ozonescan.com"
            ⨾ end_fields)
          ⨟ end_items)
    ⨾ end_fields)

-- chainid-10121.js
abbrev pub chainid_10121 : JsValue
chainid_10121 = object (
    "name" ∶ text "Ozone Mainnet"
    ⨾ "chain" ∶ text "OZONE"
    ⨾ "icon" ∶ text "ozone"
    ⨾ "rpc" ∶ array (text "https://chain.ozonescan.com" ⨟ end_items)
    ⨾ "features"
      ∶ array (
          object ("name" ∶ text "EIP155" ⨾ end_fields)
          ⨟ object ("name" ∶ text "EIP1559" ⨾ end_fields)
          ⨟ end_items)
    ⨾ "faucets" ∶ array end_items
    ⨾ "nativeCurrency"
      ∶ object
          ("name" ∶ text "Ozone" ⨾ "symbol" ∶ text "OZONE" ⨾ "decimals" ∶ number 18 ⨾ end_fields)
    ⨾ "infoURL" ∶ text "https://ozonechain.com"
    ⨾ "shortName" ∶ text "ozone"
    ⨾ "chainId" ∶ number 10121
    ⨾ "networkId" ∶ number 10121
    ⨾ "explorers"
      ∶ array (
          object (
            "name" ∶ text "Ozone Chain Explorer"
            ⨾ "url" ∶ text "https://ozonescan.com"
            ⨾ end_fields)
          ⨟ end_items)
    ⨾ end_fields)

-- chainid-102030.js
abbrev pub chainid_102030 : JsValue
chainid_102030 = object (
    "name" ∶ text "Creditcoin"
    ⨾ "chain" ∶ text "CTC"
    ⨾ "rpc" ∶ array (text "https://mainnet3.creditcoin.network" ⨟ end_items)
    ⨾ "faucets" ∶ array end_items
    ⨾ "nativeCurrency"
      ∶ object ("name" ∶ text "CTC" ⨾ "symbol" ∶ text "CTC" ⨾ "decimals" ∶ number 18 ⨾ end_fields)
    ⨾ "features"
      ∶ array (
          object ("name" ∶ text "EIP155" ⨾ end_fields)
          ⨟ object ("name" ∶ text "EIP1559" ⨾ end_fields)
          ⨟ end_items)
    ⨾ "infoURL" ∶ text "https://creditcoin.org"
    ⨾ "shortName" ∶ text "ctc"
    ⨾ "chainId" ∶ number 102030
    ⨾ "networkId" ∶ number 102030
    ⨾ "icon" ∶ text "creditcoin"
    ⨾ "explorers"
      ∶ array (
          object (
            "name" ∶ text "blockscout"
            ⨾ "url" ∶ text "https://creditcoin.blockscout.com"
            ⨾ "icon" ∶ text "blockscout"
            ⨾ "standard" ∶ text "EIP3091"
            ⨾ end_fields)
          ⨟ end_items)
    ⨾ end_fields)

-- chainid-102031.js
abbrev pub chainid_102031 : JsValue
chainid_102031 = object (
    "name" ∶ text "Creditcoin Testnet"
    ⨾ "chain" ∶ text "CTC"
    ⨾ "rpc" ∶ array (text "https://rpc.cc3-testnet.creditcoin.network" ⨟ end_items)
    ⨾ "faucets" ∶ array end_items
    ⨾ "nativeCurrency"
      ∶ object (
          "name" ∶ text "Testnet CTC"
          ⨾ "symbol" ∶ text "tCTC"
          ⨾ "decimals" ∶ number 18
          ⨾ end_fields)
    ⨾ "features"
      ∶ array (
          object ("name" ∶ text "EIP155" ⨾ end_fields)
          ⨟ object ("name" ∶ text "EIP1559" ⨾ end_fields)
          ⨟ end_items)
    ⨾ "infoURL" ∶ text "https://creditcoin.org"
    ⨾ "shortName" ∶ text "ctctest"
    ⨾ "chainId" ∶ number 102031
    ⨾ "networkId" ∶ number 102031
    ⨾ "icon" ∶ text "creditcoin"
    ⨾ "explorers"
      ∶ array (
          object (
            "name" ∶ text "blockscout"
            ⨾ "url" ∶ text "https://creditcoin-testnet.blockscout.com"
            ⨾ "icon" ∶ text "blockscout"
            ⨾ "standard" ∶ text "EIP3091"
            ⨾ end_fields)
          ⨟ end_items)
    ⨾ end_fields)

-- chainid-102032.js
abbrev pub chainid_102032 : JsValue
chainid_102032 = object (
    "name" ∶ text "Creditcoin Devnet"
    ⨾ "chain" ∶ text "CTC"
    ⨾ "rpc" ∶ array (text "https://rpc.cc3-devnet.creditcoin.network" ⨟ end_items)
    ⨾ "faucets" ∶ array end_items
    ⨾ "nativeCurrency"
      ∶ object (
          "name" ∶ text "Devnet CTC"
          ⨾ "symbol" ∶ text "devCTC"
          ⨾ "decimals" ∶ number 18
          ⨾ end_fields)
    ⨾ "features"
      ∶ array (
          object ("name" ∶ text "EIP155" ⨾ end_fields)
          ⨟ object ("name" ∶ text "EIP1559" ⨾ end_fields)
          ⨟ end_items)
    ⨾ "infoURL" ∶ text "https://creditcoin.org"
    ⨾ "shortName" ∶ text "ctcdev"
    ⨾ "chainId" ∶ number 102032
    ⨾ "networkId" ∶ number 102032
    ⨾ "icon" ∶ text "creditcoin"
    ⨾ "explorers"
      ∶ array (
          object (
            "name" ∶ text "blockscout"
            ⨾ "url" ∶ text "https://creditcoin-devnet.blockscout.com"
            ⨾ "icon" ∶ text "blockscout"
            ⨾ "standard" ∶ text "EIP3091"
            ⨾ end_fields)
          ⨟ end_items)
    ⨾ end_fields)

-- chainid-10323.js
abbrev pub chainid_10323 : JsValue
chainid_10323 = object (
    "name" ∶ text "Mova Beta"
    ⨾ "chain" ∶ text "MOVA"
    ⨾ "rpc" ∶ array (text "https://mars.rpc.movachain.com" ⨟ end_items)
    ⨾ "faucets" ∶ array (text "https://faucet.mars.movachain.com" ⨟ end_items)
    ⨾ "nativeCurrency"
      ∶ object (
          "name" ∶ text "MARS Testnet GasCoin"
          ⨾ "symbol" ∶ text "MARS"
          ⨾ "decimals" ∶ number 18
          ⨾ end_fields)
    ⨾ "infoURL" ∶ text "https://movachain.com"
    ⨾ "shortName" ∶ text "mova"
    ⨾ "chainId" ∶ number 10323
    ⨾ "networkId" ∶ number 10323
    ⨾ "icon" ∶ text "mova"
    ⨾ "explorers"
      ∶ array (
          object (
            "name" ∶ text "marsscan"
            ⨾ "url" ∶ text "https://scan.mars.movachain.com"
            ⨾ "standard" ∶ text "EIP3091"
            ⨾ end_fields)
          ⨟ end_items)
    ⨾ end_fields)
