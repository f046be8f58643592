-- ===== src/Registry/Chains/From92870.antt =====
-- constants/additionalChainRegistry/chainid-92870.js to chainid-999.js, in the order of the directory.
use pricefeeding.Registry.Js.{
  JsValue, text, number, bool, array, object, end_items, ◌⨟◌, end_fields, ◌⨾◌, ◌∶◌,
}
use pricefeeding.Prelude.{true}

-- chainid-92870.js
abbrev pub chainid_92870 : JsValue
chainid_92870 = object (
    "name" ∶ text "Watr Testnet"
    ⨾ "chain" ∶ text "WATR"
    ⨾ "icon" ∶ text "watr"
    ⨾ "rpc"
      ∶ array (
          text
            "https://rpc.testnet.watr.org/ext/bc/2ZZiR6T2sJjebQguABb53rRpzme8zfK4R9zt5vMM8MX1oUm3g/rpc"
          ⨟ end_items)
    ⨾ "faucets" ∶ array end_items
    ⨾ "nativeCurrency"
      ∶ object ("name" ∶ text "Watr" ⨾ "symbol" ∶ text "WATR" ⨾ "decimals" ∶ number 18 ⨾ end_fields)
    ⨾ "infoURL" ∶ text "https://www.watr.org"
    ⨾ "shortName" ∶ text "watr-testnet"
    ⨾ "chainId" ∶ number 92870
    ⨾ "networkId" ∶ number 92870
    ⨾ "explorers"
      ∶ array (
          object (
            "name" ∶ text "Watr Explorer"
            ⨾ "url" ∶ text "https://explorer.testnet.watr.org"
            ⨾ "icon" ∶ text "watr"
            ⨾ "standard" ∶ text "EIP3091"
            ⨾ end_fields)
          ⨟ end_items)
    ⨾ end_fields)

-- chainid-9601.js
abbrev pub chainid_9601 : JsValue
chainid_9601 = object (
    "name" ∶ text "KUB Layer 2 Mainnet"
    ⨾ "chain" ∶ text "KUB"
    ⨾ "rpc" ∶ array (text "https://kublayer2.kubchain.io" ⨟ end_items)
    ⨾ "faucets" ∶ array end_items
    ⨾ "nativeCurrency"
      ∶ object ("name" ∶ text "KUB" ⨾ "symbol" ∶ text "KUB" ⨾ "decimals" ∶ number 18 ⨾ end_fields)
    ⨾ "features" ∶ array (object ("name" ∶ text "EIP155" ⨾ end_fields) ⨟ end_items)
    ⨾ "infoURL" ∶ text ""
    ⨾ "shortName" ∶ text "kub"
    ⨾ "chainId" ∶ number 9601
    ⨾ "networkId" ∶ number 9601
    ⨾ "icon" ∶ text "kub"
    ⨾ "explorers"
      ∶ array (
          object (
            "name" ∶ text "KUB Layer 2 Mainnet Explorer"
            ⨾ "url" ∶ text "https://kublayer2.kubscan.com"
            ⨾ "icon" ∶ text "kub"
            ⨾ "standard" ∶ text "EIP3091"
            ⨾ end_fields)
          ⨟ end_items)
    ⨾ end_fields)

-- chainid-9745.js
abbrev pub chainid_9745 : JsValue
chainid_9745 = object (
    "name" ∶ text "Plasma Mainnet"
    ⨾ "chain" ∶ text "Plasma"
    ⨾ "rpc" ∶ array (text "https://rpc.plasma.to" ⨟ end_items)
    ⨾ "faucets" ∶ array end_items
    ⨾ "nativeCurrency"
      ∶ object
          ("name" ∶ text "Plasma" ⨾ "symbol" ∶ text "XPL" ⨾ "decimals" ∶ number 18 ⨾ end_fields)
    ⨾ "infoURL" ∶ text "https://plasma.to"
    ⨾ "shortName" ∶ text "plasma"
    ⨾ "chainId" ∶ number 9745
    ⨾ "networkId" ∶ number 9745
    ⨾ "icon" ∶ text "plasma"
    ⨾ "explorers"
      ∶ array (
          object (
            "name" ∶ text "Routescan"
            ⨾ "url" ∶ text "https://plasmascan.to"
            ⨾ "standard" ∶ text "EIP3091"
            ⨾ end_fields)
          ⨟ end_items)
    ⨾ end_fields)

-- chainid-9746.js
abbrev pub chainid_9746 : JsValue
chainid_9746 = object (
    "name" ∶ text "Plasma Testnet"
    ⨾ "chain" ∶ text "Plasma"
    ⨾ "rpc" ∶ array (text "https://testnet-rpc.plasma.to" ⨟ end_items)
    ⨾ "faucets" ∶ array end_items
    ⨾ "nativeCurrency"
      ∶ object
          ("name" ∶ text "Plasma" ⨾ "symbol" ∶ text "XPL" ⨾ "decimals" ∶ number 18 ⨾ end_fields)
    ⨾ "infoURL" ∶ text "https://plasma.to"
    ⨾ "shortName" ∶ text "plasma-testnet"
    ⨾ "chainId" ∶ number 9746
    ⨾ "networkId" ∶ number 9746
    ⨾ "icon" ∶ text "plasma"
    ⨾ "explorers"
      ∶ array (
          object (
            "name" ∶ text "Routescan"
            ⨾ "url" ∶ text "https://testnet.plasmascan.to"
            ⨾ "standard" ∶ text "EIP3091"
            ⨾ end_fields)
          ⨟ end_items)
    ⨾ "testnet" ∶ bool true
    ⨾ end_fields)

-- chainid-9747.js
abbrev pub chainid_9747 : JsValue
chainid_9747 = object (
    "name" ∶ text "Plasma Devnet"
    ⨾ "chain" ∶ text "Plasma"
    ⨾ "rpc" ∶ array (text "https://devnet-rpc.plasma.to" ⨟ end_items)
    ⨾ "faucets" ∶ array end_items
    ⨾ "nativeCurrency"
      ∶ object
          ("name" ∶ text "Plasma" ⨾ "symbol" ∶ text "XPL" ⨾ "decimals" ∶ number 18 ⨾ end_fields)
    ⨾ "infoURL" ∶ text "https://plasma.to"
    ⨾ "shortName" ∶ text "plasma-devnet"
    ⨾ "chainId" ∶ number 9747
    ⨾ "networkId" ∶ number 9747
    ⨾ "icon" ∶ text "plasma"
    ⨾ "explorers" ∶ array end_items
    ⨾ "testnet" ∶ bool true
    ⨾ end_fields)

-- chainid-97741.js
abbrev pub chainid_97741 : JsValue
chainid_97741 = object (
    "name" ∶ text "PEPE Unchained"
    ⨾ "chain" ∶ text "PEPU"
    ⨾ "icon" ∶ text "pepu"
    ⨾ "rpc" ∶ array (text "https://rpc-pepu-v2-mainnet-0.t.conduit.xyz" ⨟ end_items)
    ⨾ "features"
      ∶ array (
          object ("name" ∶ text "EIP155" ⨾ end_fields)
          ⨟ object ("name" ∶ text "EIP1559" ⨾ end_fields)
          ⨟ end_items)
    ⨾ "faucets" ∶ array end_items
    ⨾ "nativeCurrency"
      ∶ object (
          "name" ∶ text "Pepe Unchained"
          ⨾ "symbol" ∶ text "PEPU"
          ⨾ "decimals" ∶ number 18
          ⨾ end_fields)
    ⨾ "infoURL" ∶ text "https://pepeunchained.com/"
    ⨾ "shortName" ∶ text "pepu"
    ⨾ "chainId" ∶ number 97741
    ⨾ "networkId" ∶ number 97741
    ⨾ "explorers"
      ∶ array (
          object ("name" ∶ text "PEPUScan" ⨾ "url" ∶ text "https://pepuscan.com/" ⨾ end_fields)
          ⨟ end_items)
    ⨾ end_fields)

-- chainid-999.js
abbrev pub chainid_999 : JsValue
chainid_999 = object (
    "name" ∶ text "HyperEVM"
    ⨾ "chain" ∶ text "HYPE"
    ⨾ "icon" ∶ text "hyperliquid"
    ⨾ "rpc"
      ∶ array (
          text "https://rpc.hyperliquid.xyz/evm"
          ⨟ text "https://rpc.hypurrscan.io"
          ⨟ text "https://hyperliquid-json-rpc.stakely.io"
          ⨟ text "https://hyperliquid.drpc.org"
          ⨟ text "wss://hyperliquid.drpc.org"
          ⨟ text "https://rpc.hyperlend.finance"
          ⨟ end_items)
    ⨾ "features"
      ∶ array (
          object ("name" ∶ text "EIP155" ⨾ end_fields)
          ⨟ object ("name" ∶ text "EIP1559" ⨾ end_fields)
          ⨟ end_items)
    ⨾ "faucets" ∶ array end_items
    ⨾ "nativeCurrency"
      ∶ object ("name" ∶ text "HYPE" ⨾ "symbol" ∶ text "HYPE" ⨾ "decimals" ∶ number 18 ⨾ end_fields)
    ⨾ "infoURL" ∶ text "https://hyperfoundation.org/"
    ⨾ "shortName" ∶ text "hyper_evm"
    ⨾ "chainId" ∶ number 999
    ⨾ "networkId" ∶ number 999
    ⨾ "explorers"
      ∶ array (
          object ("name" ∶ text "Purrsec" ⨾ "url" ∶ text "https://purrsec.com/" ⨾ end_fields)
          ⨟ end_items)
    ⨾ end_fields)
