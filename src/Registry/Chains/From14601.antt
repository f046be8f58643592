-- ===== src/Registry/Chains/From14601.antt =====
-- constants/additionalChainRegistry/chainid-14601.js to chainid-1776.js, in the order of the directory.
use pricefeeding.Registry.Js.{
  JsValue, text, number, bool, array, object, end_items, ◌⨟◌, end_fields, ◌⨾◌, ◌∶◌,
}
use pricefeeding.Prelude.{true, false}

-- chainid-14601.js
abbrev pub chainid_14601 : JsValue
chainid_14601 = object (
    "name" ∶ text "Sonic Testnet"
    ⨾ "chain" ∶ text "sonic-testnet"
    ⨾ "rpc" ∶ array (text "https://rpc.testnet.soniclabs.com" ⨟ end_items)
    ⨾ "faucets" ∶ array (text "https://testnet.soniclabs.com/account" ⨟ end_items)
    ⨾ "nativeCurrency"
      ∶ object ("name" ∶ text "Sonic" ⨾ "symbol" ∶ text "S" ⨾ "decimals" ∶ number 18 ⨾ end_fields)
    ⨾ "features" ∶ array (object ("name" ∶ text "EIP155" ⨾ end_fields) ⨟ end_items)
    ⨾ "infoURL" ∶ text "https://testnet.soniclabs.com"
    ⨾ "shortName" ∶ text "sonic-testnet"
    ⨾ "chainId" ∶ number 14601
    ⨾ "networkId" ∶ number 14601
    ⨾ "icon" ∶ text "sonic"
    ⨾ "explorers"
      ∶ array (
          object (
            "name" ∶ text "Sonic Testnet Explorer"
            ⨾ "url" ∶ text "https://explorer.testnet.soniclabs.com"
            ⨾ "icon" ∶ text "sonic"
            ⨾ "standard" ∶ text "none"
            ⨾ end_fields)
          ⨟ end_items)
    ⨾ end_fields)

-- chainid-15000.js
abbrev pub chainid_15000 : JsValue
chainid_15000 = object (
    "name" ∶ text "Quai Orchard Testnet"
    ⨾ "chain" ∶ text "QUAI"
    ⨾ "rpc" ∶ array (text "https://orchard.rpc.quai.network/cyprus1" ⨟ end_items)
    ⨾ "faucets" ∶ array (text "https://orchard.faucet.quai.network" ⨟ end_items)
    ⨾ "nativeCurrency"
      ∶ object ("name" ∶ text "Quai" ⨾ "symbol" ∶ text "QUAI" ⨾ "decimals" ∶ number 18 ⨾ end_fields)
    ⨾ "features" ∶ array (object ("name" ∶ text "EIP155" ⨾ end_fields) ⨟ end_items)
    ⨾ "infoURL" ∶ text "https://qu.ai"
    ⨾ "shortName" ∶ text "quait"
    ⨾ "chainId" ∶ number 15000
    ⨾ "networkId" ∶ number 15000
    ⨾ "icon" ∶ text "quai"
    ⨾ "explorers"
      ∶ array (
          object (
            "name" ∶ text "Orchard Quaiscan"
            ⨾ "url" ∶ text "https://orchard.quaiscan.io"
            ⨾ "icon" ∶ text "quaiscan"
            ⨾ "standard" ∶ text "EIP3091"
            ⨾ end_fields)
          ⨟ end_items)
    ⨾ end_fields)

-- chainid-1628.js
abbrev pub chainid_1628 : JsValue
chainid_1628 = object (
    "name" ∶ text "T-Rex"
    ⨾ "chain" ∶ text "T-Rex"
    ⨾ "rpc" ∶ array (text "https://rpc.trex.xyz" ⨟ end_items)
    ⨾ "faucets" ∶ array end_items
    ⨾ "nativeCurrency"
      ∶ object ("name" ∶ text "Ether" ⨾ "symbol" ∶ text "ETH" ⨾ "decimals" ∶ number 18 ⨾ end_fields)
    ⨾ "infoURL" ∶ text "https://trex.xyz/"
    ⨾ "shortName" ∶ text "TREX"
    ⨾ "chainId" ∶ number 1628
    ⨾ "networkId" ∶ number 1628
    ⨾ "icon" ∶ text "trex"
    ⨾ "explorers"
      ∶ array (
          object (
            "name" ∶ text "T-REX blockchain explorer"
            ⨾ "url" ∶ text "https://explorer.trex.xyz"
            ⨾ "standard" ∶ text "none"
            ⨾ end_fields)
          ⨟ end_items)
    ⨾ end_fields)

-- chainid-16601.js
abbrev pub chainid_16601 : JsValue
chainid_16601 = object (
    "name" ∶ text "0G-Galileo-Testnet"
    ⨾ "chain" ∶ text "0G"
    ⨾ "rpc" ∶ array (text "https://evmrpc-testnet.0g.ai" ⨟ end_items)
    ⨾ "faucets" ∶ array (text "https://faucet.0g.ai" ⨟ end_items)
    ⨾ "nativeCurrency"
      ∶ object ("name" ∶ text "OG" ⨾ "symbol" ∶ text "OG" ⨾ "decimals" ∶ number 18 ⨾ end_fields)
    ⨾ "features"
      ∶ array (
          object ("name" ∶ text "EIP155" ⨾ end_fields)
          ⨟ object ("name" ∶ text "EIP1559" ⨾ end_fields)
          ⨟ end_items)
    ⨾ "infoURL" ∶ text "https://0g.ai"
    ⨾ "shortName" ∶ text "0g-galileo"
    ⨾ "chainId" ∶ number 16601
    ⨾ "networkId" ∶ number 16601
    ⨾ "testnet" ∶ bool true
    ⨾ "explorers"
      ∶ array (
          object (
            "name" ∶ text "0G Chain Explorer"
            ⨾ "url" ∶ text "https://chainscan-galileo.0g.ai"
            ⨾ "standard" ∶ text "EIP3091"
            ⨾ end_fields)
          ⨟ end_items)
    ⨾ end_fields)

-- chainid-16661.js
abbrev pub chainid_16661 : JsValue
chainid_16661 = object (
    "name" ∶ text "0G Mainnet"
    ⨾ "chain" ∶ text "0G"
    ⨾ "rpc" ∶ array (text "https://evmrpc.0g.ai" ⨟ end_items)
    ⨾ "faucets" ∶ array end_items
    ⨾ "nativeCurrency"
      ∶ object ("name" ∶ text "0G" ⨾ "symbol" ∶ text "0G" ⨾ "decimals" ∶ number 18 ⨾ end_fields)
    ⨾ "features"
      ∶ array (
          object ("name" ∶ text "EIP155" ⨾ end_fields)
          ⨟ object ("name" ∶ text "EIP1559" ⨾ end_fields)
          ⨟ end_items)
    ⨾ "infoURL" ∶ text "https://0g.ai"
    ⨾ "shortName" ∶ text "0g"
    ⨾ "chainId" ∶ number 16661
    ⨾ "networkId" ∶ number 16661
    ⨾ "testnet" ∶ bool false
    ⨾ "explorers"
      ∶ array (
          object (
            "name" ∶ text "0G Chain Explorer"
            ⨾ "url" ∶ text "https://chainscan.0g.ai"
            ⨾ "standard" ∶ text "EIP3091"
            ⨾ end_fields)
          ⨟ end_items)
    ⨾ end_fields)

-- chainid-167012.js
abbrev pub chainid_167012 : JsValue
chainid_167012 = object (
    "name" ∶ text "Kasplex zkEVM Testnet"
    ⨾ "chain" ∶ text "KASPLEX"
    ⨾ "icon" ∶ text "kasplex"
    ⨾ "rpc" ∶ array (text "https://rpc.kasplextest.xyz/" ⨟ end_items)
    ⨾ "features"
      ∶ array (
          object ("name" ∶ text "EIP155" ⨾ end_fields)
          ⨟ object ("name" ∶ text "EIP1559" ⨾ end_fields)
          ⨟ end_items)
    ⨾ "faucets" ∶ array end_items
    ⨾ "nativeCurrency"
      ∶ object ("name" ∶ text "KAS" ⨾ "symbol" ∶ text "KAS" ⨾ "decimals" ∶ number 18 ⨾ end_fields)
    ⨾ "infoURL" ∶ text "https://kasplex.org/"
    ⨾ "shortName" ∶ text "kasplex"
    ⨾ "chainId" ∶ number 167012
    ⨾ "networkId" ∶ number 167012
    ⨾ "explorers"
      ∶ array (
          object (
            "name" ∶ text "Kasplex Explorer"
            ⨾ "url" ∶ text "https://explorer.testnet.kasplextest.xyz/"
            ⨾ end_fields)
          ⨟ end_items)
    ⨾ end_fields)

-- chainid-1776.js
abbrev pub chainid_1776 : JsValue
chainid_1776 = object (
    "name" ∶ text "Injective"
    ⨾ "chain" ∶ text "Injective"
    ⨾ "icon" ∶ text "injective"
    ⨾ "rpc"
      ∶ array (
          text "https://sentry.evm-rpc.injective.network"
          ⨟ text "wss://sentry.evm-ws.injective.network"
          ⨟ text "https://injectiveevm-rpc.polkachu.com"
          ⨟ text "wss://injectiveevm-ws.polkachu.com"
          ⨟ end_items)
    ⨾ "features"
      ∶ array (
          object ("name" ∶ text "EIP155" ⨾ end_fields)
          ⨟ object ("name" ∶ text "EIP1559" ⨾ end_fields)
          ⨟ end_items)
    ⨾ "faucets" ∶ array (text "https://injective.com/getinj" ⨟ end_items)
    ⨾ "nativeCurrency"
      ∶ object
          ("name" ∶ text "Injective" ⨾ "symbol" ∶ text "INJ" ⨾ "decimals" ∶ number 18 ⨾ end_fields)
    ⨾ "infoURL" ∶ text "https://injective.com"
    ⨾ "shortName" ∶ text "injective"
    ⨾ "chainId" ∶ number 1776
    ⨾ "networkId" ∶ number 1776
    ⨾ "explorers"
      ∶ array (
          object (
            "name" ∶ text "blockscout"
            ⨾ "url" ∶ text "https://blockscout.injective.network"
            ⨾ "icon" ∶ text "blockscout"
            ⨾ "standard" ∶ text "EIP3091"
            ⨾ end_fields)
          ⨟ end_items)
    ⨾ end_fields)
