-- ===== src/Registry/Chains/From510003.antt =====
-- constants/additionalChainRegistry/chainid-510003.js to chainid-5887.js, in the order of the directory.
use pricefeeding.Registry.Js.{
  JsValue, text, number, array, object, end_items, ◌⨟◌, end_fields, ◌⨾◌, ◌∶◌,
}

-- chainid-510003.js
abbrev pub chainid_510003 : JsValue
chainid_510003 = object (
    "name" ∶ text "Syndicate Commons"
    ⨾ "chain" ∶ text "Commons"
    ⨾ "shortName" ∶ text "commons"
    ⨾ "infoURL" ∶ text "https://syndicate.io"
    ⨾ "icon" ∶ text "syndicate"
    ⨾ "chainId" ∶ number 510003
    ⨾ "networkId" ∶ number 510003
    ⨾ "features"
      ∶ array (
          object ("name" ∶ text "EIP155" ⨾ end_fields)
          ⨟ object ("name" ∶ text "EIP1559" ⨾ end_fields)
          ⨟ end_items)
    ⨾ "nativeCurrency"
      ∶ object
          ("name" ∶ text "Syndicate" ⨾ "symbol" ∶ text "SYND" ⨾ "decimals" ∶ number 18 ⨾ end_fields)
    ⨾ "rpc" ∶ array (text "https://rpc.commons.syndicate.io" ⨟ end_items)
    ⨾ "faucets" ∶ array end_items
    ⨾ "explorers"
      ∶ array (
          object (
            "name" ∶ text "Commons Explorer"
            ⨾ "url" ∶ text "https://explorer.commons.syndicate.io"
            ⨾ "logo" ∶ text "blockscout"
            ⨾ "standard" ∶ text "EIP3091"
            ⨾ end_fields)
          ⨟ end_items)
    ⨾ end_fields)

-- chainid-51014.js
abbrev pub chainid_51014 : JsValue
chainid_51014 = object (
    "name" ∶ text "Risa Testnet"
    ⨾ "chain" ∶ text "Risa Testnet"
    ⨾ "shortName" ∶ text "risa"
    ⨾ "infoURL" ∶ text "https://syndicate.io"
    ⨾ "icon" ∶ text "syndicate"
    ⨾ "features"
      ∶ array (
          object ("name" ∶ text "EIP155" ⨾ end_fields)
          ⨟ object ("name" ∶ text "EIP1559" ⨾ end_fields)
          ⨟ end_items)
    ⨾ "chainId" ∶ number 51014
    ⨾ "networkId" ∶ number 51014
    ⨾ "nativeCurrency"
      ∶ object (
          "name" ∶ text "Testnet Syndicate"
          ⨾ "symbol" ∶ text "SYND"
          ⨾ "decimals" ∶ number 18
          ⨾ end_fields)
    ⨾ "rpc" ∶ array (text "https://rpc.testnet.syndicate.io" ⨟ end_items)
    ⨾ "faucets" ∶ array end_items
    ⨾ "explorers"
      ∶ array (
          object (
            "name" ∶ text "Risa Testnet Explorer"
            ⨾ "url" ∶ text "https://explorer.testnet.syndicate.io"
            ⨾ "logo" ∶ text "blockscout"
            ⨾ "standard" ∶ text "EIP3091"
            ⨾ end_fields)
          ⨟ end_items)
    ⨾ end_fields)

-- chainid-5151.js
abbrev pub chainid_5151 : JsValue
chainid_5151 = object (
    "name" ∶ text "Moca Chain Devnet"
    ⨾ "chain" ∶ text "Moca Chain"
    ⨾ "rpc" ∶ array (text "https://devnet-rpc.mocachain.org" ⨟ end_items)
    ⨾ "faucets" ∶ array (text "https://devnet-scan.mocachain.org/faucet" ⨟ end_items)
    ⨾ "nativeCurrency"
      ∶ object ("name" ∶ text "MOCA" ⨾ "symbol" ∶ text "MOCA" ⨾ "decimals" ∶ number 18 ⨾ end_fields)
    ⨾ "features"
      ∶ array (
          object ("name" ∶ text "EIP155" ⨾ end_fields)
          ⨟ object ("name" ∶ text "EIP1559" ⨾ end_fields)
          ⨟ end_items)
    ⨾ "infoURL" ∶ text "https://mocachain.org"
    ⨾ "shortName" ∶ text "mocat"
    ⨾ "chainId" ∶ number 5151
    ⨾ "networkId" ∶ number 5151
    ⨾ "icon" ∶ text "moca"
    ⨾ "explorers"
      ∶ array (
          object (
            "name" ∶ text "Moca Chain Scan"
            ⨾ "url" ∶ text "https://devnet-scan.mocachain.org"
            ⨾ "icon" ∶ text "moca"
            ⨾ "standard" ∶ text "EIP3091"
            ⨾ end_fields)
          ⨟ end_items)
    ⨾ end_fields)

-- chainid-5151706.js
abbrev pub chainid_5151706 : JsValue
chainid_5151706 = object (
    "name" ∶ text "Loot Mainnet"
    ⨾ "chain" ∶ text "LOOT"
    ⨾ "icon" ∶ text "loot"
    ⨾ "rpc"
      ∶ array
          (text "https://rpc.lootchain.com/http/" ⨟ text "wss://rpc.lootchain.com/ws" ⨟ end_items)
    ⨾ "features"
      ∶ array (
          object ("name" ∶ text "EIP155" ⨾ end_fields)
          ⨟ object ("name" ∶ text "EIP1559" ⨾ end_fields)
          ⨟ end_items)
    ⨾ "faucets" ∶ array end_items
    ⨾ "nativeCurrency"
      ∶ object (
          "name" ∶ text "Adventure Gold"
          ⨾ "symbol" ∶ text "AGLD"
          ⨾ "decimals" ∶ number 18
          ⨾ end_fields)
    ⨾ "infoURL" ∶ text "https://adventuregold.org/"
    ⨾ "shortName" ∶ text "loot"
    ⨾ "chainId" ∶ number 5151706
    ⨾ "networkId" ∶ number 5151706
    ⨾ "explorers"
      ∶ array (
          object
            ("name" ∶ text "Lootscan" ⨾ "url" ∶ text "https://explorer.lootchain.com/" ⨾ end_fields)
          ⨟ end_items)
    ⨾ end_fields)

-- chainid-5432.js
abbrev pub chainid_5432 : JsValue
chainid_5432 = object (
    "name" ∶ text "YeYing Network"
    ⨾ "chain" ∶ text "YeYing"
    ⨾ "rpc" ∶ array (text "https://blockchain.yeying.pub" ⨟ end_items)
    ⨾ "faucets" ∶ array end_items
    ⨾ "nativeCurrency"
      ∶ object (
          "name" ∶ text "YeYing Token"
          ⨾ "symbol" ∶ text "YYT"
          ⨾ "decimals" ∶ number 18
          ⨾ end_fields)
    ⨾ "features"
      ∶ array (
          object ("name" ∶ text "EIP155" ⨾ end_fields)
          ⨟ object ("name" ∶ text "EIP1559" ⨾ end_fields)
          ⨟ end_items)
    ⨾ "infoURL" ∶ text "https://yeying.pub"
    ⨾ "shortName" ∶ text "YeYing"
    ⨾ "chainId" ∶ number 5432
    ⨾ "networkId" ∶ number 5432
    ⨾ "icon" ∶ text "yeying"
    ⨾ "explorers"
      ∶ array (
          object (
            "name" ∶ text "YeYing Blockscout"
            ⨾ "url" ∶ text "https://blockscout.yeying.pub"
            ⨾ "icon" ∶ text "blockscout"
            ⨾ "standard" ∶ text "EIP3091"
            ⨾ end_fields)
          ⨟ end_items)
    ⨾ end_fields)

-- chainid-586.js
abbrev pub chainid_586 : JsValue
chainid_586 = object (
    "name" ∶ text "MarketCapy TestNet 1"
    ⨾ "chain" ∶ text "CAPY"
    ⨾ "rpc" ∶ array (text "https://fraa-flashbox-4646-rpc.a.stagenet.tanssi.network" ⨟ end_items)
    ⨾ "features"
      ∶ array (
          object ("name" ∶ text "EIP155" ⨾ end_fields)
          ⨟ object ("name" ∶ text "EIP1559" ⨾ end_fields)
          ⨟ end_items)
    ⨾ "faucets" ∶ array end_items
    ⨾ "nativeCurrency"
      ∶ object ("name" ∶ text "CAPY" ⨾ "symbol" ∶ text "CAPY" ⨾ "decimals" ∶ number 18 ⨾ end_fields)
    ⨾ "infoURL" ∶ text "https://marketcapy.xyz/"
    ⨾ "shortName" ∶ text "capy"
    ⨾ "chainId" ∶ number 586
    ⨾ "networkId" ∶ number 586
    ⨾ "explorers"
      ∶ array (
          object (
            "name" ∶ text "Capy Explorer"
            ⨾ "url" ∶ text "https://explorer.marketcapy.xyz/"
            ⨾ end_fields)
          ⨟ end_items)
    ⨾ end_fields)

-- chainid-5887.js
abbrev pub chainid_5887 : JsValue
chainid_5887 = object (
    "name" ∶ text "MANTRACHAIN Testnet"
    ⨾ "chain" ∶ text "Dukong"
    ⨾ "icon" ∶ text "om"
    ⨾ "rpc"
      ∶ array (
          text "https://evm.dukong.mantrachain.io"
          ⨟ text "wss://evm.dukong.mantrachain.io/ws"
          ⨟ end_items)
    ⨾ "faucets" ∶ array (text "https://faucet.dukong.mantrachain.io" ⨟ end_items)
    ⨾ "nativeCurrency"
      ∶ object ("name" ∶ text "OM" ⨾ "symbol" ∶ text "OM" ⨾ "decimals" ∶ number 18 ⨾ end_fields)
    ⨾ "infoURL" ∶ text "https://mantrachain.io"
    ⨾ "shortName" ∶ text "dukong"
    ⨾ "chainId" ∶ number 5887
    ⨾ "networkId" ∶ number 5887
    ⨾ "explorers"
      ∶ array (
          object (
            "name" ∶ text "Dukong Explorer"
            ⨾ "url" ∶ text "http://mantrascan.io"
            ⨾ "standard" ∶ text "none"
            ⨾ "icon" ∶ text "om"
            ⨾ end_fields)
          ⨟ end_items)
    ⨾ end_fields)
