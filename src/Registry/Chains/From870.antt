-- ===== src/Registry/Chains/From870.antt =====
-- constants/additionalChainRegistry/chainid-870.js to chainid-9030.js, in the order of the directory.
use pricefeeding.Registry.Js.{
  JsValue, text, number, array, object, end_items, ◌⨟◌, end_fields, ◌⨾◌, ◌∶◌,
}

-- chainid-870.js
abbrev pub chainid_870 : JsValue
chainid_870 = object (
    "name" ∶ text "Autonomys Mainnet"
    ⨾ "chain" ∶ text "autonomys-mainnet"
    ⨾ "rpc" ∶ array (text "https://auto-evm.mainnet.autonomys.xyz/ws" ⨟ end_items)
    ⨾ "icon" ∶ text "autonomys"
    ⨾ "faucets" ∶ array end_items
    ⨾ "nativeCurrency"
      ∶ object ("name" ∶ text "AI3" ⨾ "symbol" ∶ text "AI3" ⨾ "decimals" ∶ number 18 ⨾ end_fields)
    ⨾ "features"
      ∶ array (
          object ("name" ∶ text "EIP155" ⨾ end_fields)
          ⨟ object ("name" ∶ text "EIP1559" ⨾ end_fields)
          ⨟ end_items)
    ⨾ "infoURL" ∶ text "https://www.autonomys.xyz"
    ⨾ "shortName" ∶ text "AMN"
    ⨾ "chainId" ∶ number 870
    ⨾ "networkId" ∶ number 870
    ⨾ "explorers" ∶ array end_items
    ⨾ end_fields)

-- chainid-8700.js
abbrev pub chainid_8700 : JsValue
chainid_8700 = object (
    "name" ∶ text "Autonomys Chronos Testnet"
    ⨾ "title" ∶ text "Autonomys Chronos Testnet"
    ⨾ "chain" ∶ text "Autonomys EVM Chronos"
    ⨾ "icon" ∶ text "autonomys"
    ⨾ "rpc" ∶ array (text "https://auto-evm.chronos.autonomys.xyz/ws" ⨟ end_items)
    ⨾ "faucets" ∶ array (text "https://autonomysfaucet.xyz" ⨟ end_items)
    ⨾ "nativeCurrency"
      ∶ object ("name" ∶ text "tAI3" ⨾ "symbol" ∶ text "tAI3" ⨾ "decimals" ∶ number 18 ⨾ end_fields)
    ⨾ "infoURL" ∶ text "https://www.autonomys.xyz"
    ⨾ "shortName" ∶ text "ACN"
    ⨾ "chainId" ∶ number 8700
    ⨾ "networkId" ∶ number 8700
    ⨾ "explorers"
      ∶ array (
          object (
            "name" ∶ text "Autonomys Chronos Testnet Explorer"
            ⨾ "url" ∶ text "https://explorer.auto-evm.chronos.autonomys.xyz"
            ⨾ "icon" ∶ text "blockscout"
            ⨾ "standard" ∶ text "EIP3091"
            ⨾ end_fields)
          ⨟ end_items)
    ⨾ end_fields)

-- chainid-8721.js
abbrev pub chainid_8721 : JsValue
chainid_8721 = object (
    "name" ∶ text "EB-Chain"
    ⨾ "chain" ∶ text "EBC"
    ⨾ "rpc" ∶ array (text "https://rpc.ebcscan.net" ⨟ end_items)
    ⨾ "faucets" ∶ array end_items
    ⨾ "nativeCurrency"
      ∶ object
          ("name" ∶ text "EBC Token" ⨾ "symbol" ∶ text "EBC" ⨾ "decimals" ∶ number 18 ⨾ end_fields)
    ⨾ "features"
      ∶ array (
          object ("name" ∶ text "EIP155" ⨾ end_fields)
          ⨟ object ("name" ∶ text "EIP1559" ⨾ end_fields)
          ⨟ end_items)
    ⨾ "infoURL" ∶ text "https://ebcscan.net"
    ⨾ "shortName" ∶ text "ebc"
    ⨾ "chainId" ∶ number 8721
    ⨾ "networkId" ∶ number 8721
    ⨾ "icon" ∶ text "ebc"
    ⨾ "explorers"
      ∶ array (
          object (
            "name" ∶ text "EBC Scan"
            ⨾ "url" ∶ text "https://ebcscan.net"
            ⨾ "icon" ∶ text "ebc"
            ⨾ "standard" ∶ text "EIP3091"
            ⨾ end_fields)
          ⨟ end_items)
    ⨾ end_fields)

-- chainid-88888.js
abbrev pub chainid_88888 : JsValue
chainid_88888 = object (
    "name" ∶ text "Chiliz Chain"
    ⨾ "chain" ∶ text "CHZ"
    ⨾ "icon" ∶ text "chiliz"
    ⨾ "rpc"
      ∶ array (
          text "https://rpc.chiliz.com"
          ⨟ text "https://rpc.ankr.com/chiliz/"
          ⨟ text "https://chiliz.publicnode.com"
          ⨟ end_items)
    ⨾ "features"
      ∶ array (
          object ("name" ∶ text "EIP155" ⨾ end_fields)
          ⨟ object ("name" ∶ text "EIP1559" ⨾ end_fields)
          ⨟ end_items)
    ⨾ "faucets" ∶ array end_items
    ⨾ "nativeCurrency"
      ∶ object
          ("name" ∶ text "Chiliz" ⨾ "symbol" ∶ text "CHZ" ⨾ "decimals" ∶ number 18 ⨾ end_fields)
    ⨾ "infoURL" ∶ text "https://www.chiliz.com/"
    ⨾ "shortName" ∶ text "chiliz"
    ⨾ "chainId" ∶ number 88888
    ⨾ "networkId" ∶ number 88888
    ⨾ "explorers"
      ∶ array (
          object (
            "name" ∶ text "Chiliscan"
            ⨾ "url" ∶ text "https://chiliscan.com/"
            ⨾ "standard" ∶ text "EIP3091"
            ⨾ end_fields)
          ⨟ object
              ("name" ∶ text "Scan Chiliz" ⨾ "url" ∶ text "https://scan.chiliz.com" ⨾ end_fields)
          ⨟ end_items)
    ⨾ end_fields)

-- chainid-9.js
abbrev pub chainid_9 : JsValue
chainid_9 = object (
    "name" ∶ text "Quai Mainnet"
    ⨾ "chain" ∶ text "QUAI"
    ⨾ "rpc" ∶ array (text "https://rpc.quai.network/cyprus1" ⨟ end_items)
    ⨾ "faucets" ∶ array end_items
    ⨾ "nativeCurrency"
      ∶ object ("name" ∶ text "Quai" ⨾ "symbol" ∶ text "QUAI" ⨾ "decimals" ∶ number 18 ⨾ end_fields)
    ⨾ "features" ∶ array (object ("name" ∶ text "EIP155" ⨾ end_fields) ⨟ end_items)
    ⨾ "infoURL" ∶ text "https://qu.ai"
    ⨾ "shortName" ∶ text "quai"
    ⨾ "chainId" ∶ number 9
    ⨾ "networkId" ∶ number 9
    ⨾ "icon" ∶ text "quai"
    ⨾ "explorers"
      ∶ array (
          object (
            "name" ∶ text "Quaiscan"
            ⨾ "url" ∶ text "https://quaiscan.io"
            ⨾ "icon" ∶ text "quaiscan"
            ⨾ "standard" ∶ text "EIP3091"
            ⨾ end_fields)
          ⨟ end_items)
    ⨾ end_fields)

-- chainid-90025.js
abbrev pub chainid_90025 : JsValue
chainid_90025 = object (
    "name" ∶ text "AIPaw Mainnet"
    ⨾ "chain" ∶ text "aipaw"
    ⨾ "rpc" ∶ array (text "https://rpc.aipaw.xyz" ⨟ end_items)
    ⨾ "faucets" ∶ array end_items
    ⨾ "nativeCurrency"
      ∶ object
          ("name" ∶ text "Aipaw" ⨾ "symbol" ∶ text "AIPAW" ⨾ "decimals" ∶ number 18 ⨾ end_fields)
    ⨾ "features" ∶ array (object ("name" ∶ text "EIP155" ⨾ end_fields) ⨟ end_items)
    ⨾ "infoURL" ∶ text "https://aipaw.top"
    ⨾ "shortName" ∶ text "apaw"
    ⨾ "chainId" ∶ number 90025
    ⨾ "networkId" ∶ number 90025
    ⨾ "icon" ∶ text "aipaw"
    ⨾ "explorers" ∶ array end_items
    ⨾ end_fields)

-- chainid-9030.js
abbrev pub chainid_9030 : JsValue
chainid_9030 = object (
    "name" ∶ text "Qubetics Mainnet"
    ⨾ "chain" ∶ text "QUBETICS"
    ⨾ "rpc" ∶ array (text "https://rpc.qubetics.com" ⨟ end_items)
    ⨾ "faucets" ∶ array end_items
    ⨾ "nativeCurrency"
      ∶ object ("name" ∶ text "TICS" ⨾ "symbol" ∶ text "TICS" ⨾ "decimals" ∶ number 18 ⨾ end_fields)
    ⨾ "features"
      ∶ array (
          object ("name" ∶ text "EIP155" ⨾ end_fields)
          ⨟ object ("name" ∶ text "EIP1559" ⨾ end_fields)
          ⨟ end_items)
    ⨾ "infoURL" ∶ text "https://www.qubetics.com"
    ⨾ "shortName" ∶ text "TICS"
    ⨾ "chainId" ∶ number 9030
    ⨾ "networkId" ∶ number 9030
    ⨾ "icon" ∶ text "TICS"
    ⨾ "explorers"
      ∶ array (
          object (
            "name" ∶ text "QUBETICS mainnet explorer"
            ⨾ "url" ∶ text "https://ticsscan.com"
            ⨾ end_fields)
          ⨟ end_items)
    ⨾ end_fields)
