-- ===== src/Registry/Chains/From7000700.antt =====
-- constants/additionalChainRegistry/chainid-7000700.js to chainid-843843.js, in the order of the directory.
use pricefeeding.Registry.Js.{
  JsValue, text, number, array, object, end_items, ◌⨟◌, end_fields, ◌⨾◌, ◌∶◌,
}

-- chainid-7000700.js
abbrev pub chainid_7000700 : JsValue
chainid_7000700 = object (
    "name" ∶ text "JMDT Mainnet"
    ⨾ "chain" ∶ text "JMDT"
    ⨾ "rpc" ∶ array (text "https://rpc.jmdt.io" ⨟ end_items)
    ⨾ "faucets" ∶ array end_items
    ⨾ "nativeCurrency"
      ∶ object ("name" ∶ text "JMDT" ⨾ "symbol" ∶ text "JMDT" ⨾ "decimals" ∶ number 18 ⨾ end_fields)
    ⨾ "infoURL" ∶ text "https://jmdt.io"
    ⨾ "shortName" ∶ text "jmdt"
    ⨾ "chainId" ∶ number 7000700
    ⨾ "networkId" ∶ number 7000700
    ⨾ "icon" ∶ text "jmdt"
    ⨾ "explorers"
      ∶ array (
          object (
            "name" ∶ text "JMDT Explorer"
            ⨾ "url" ∶ text "https://explorer.jmdt.io"
            ⨾ "icon" ∶ text "jmdt"
            ⨾ "standard" ∶ text "EIP3091"
            ⨾ end_fields)
          ⨟ end_items)
    ⨾ end_fields)

-- chainid-7131.js
abbrev pub chainid_7131 : JsValue
chainid_7131 = object (
    "name" ∶ text "VRCN Chain Mainnet"
    ⨾ "chain" ∶ text "VRCN"
    ⨾ "icon" ∶ text "VRCNChain"
    ⨾ "rpc" ∶ array (text "https://rpc-mainnet-4.vrcchain.com/" ⨟ end_items)
    ⨾ "features" ∶ array (object ("name" ∶ text "EIP155" ⨾ end_fields) ⨟ end_items)
    ⨾ "faucets" ∶ array end_items
    ⨾ "nativeCurrency"
      ∶ object (
          "name" ∶ text "VRCN Chain" ⨾ "symbol" ∶ text "VRCN" ⨾ "decimals" ∶ number 18 ⨾ end_fields)
    ⨾ "infoURL" ∶ text "https://vrccoin.com"
    ⨾ "shortName" ∶ text "vrcn"
    ⨾ "chainId" ∶ number 7131
    ⨾ "networkId" ∶ number 7131
    ⨾ "explorers"
      ∶ array (
          object (
            "name" ∶ text "VRC Explorer"
            ⨾ "url" ∶ text "https://explorer.vrcchain.com"
            ⨾ "standard" ∶ text "EIP3091"
            ⨾ end_fields)
          ⨟ object (
              "name" ∶ text "VRCNChain"
              ⨾ "url" ∶ text "https://vrcchain.com"
              ⨾ "standard" ∶ text "EIP3091"
              ⨾ end_fields)
          ⨟ object (
              "name" ∶ text "dxbchain"
              ⨾ "url" ∶ text "https://dxb.vrcchain.com"
              ⨾ "standard" ∶ text "EIP3091"
              ⨾ end_fields)
          ⨟ end_items)
    ⨾ end_fields)

-- chainid-7890.js
abbrev pub chainid_7890 : JsValue
chainid_7890 = object (
    "name" ∶ text "Panchain Mainnet"
    ⨾ "chain" ∶ text "PC"
    ⨾ "rpc" ∶ array (text "https://publicrpc.panchain.io" ⨟ end_items)
    ⨾ "faucets" ∶ array end_items
    ⨾ "nativeCurrency"
      ∶ object
          ("name" ∶ text "Pan Coin" ⨾ "symbol" ∶ text "PC" ⨾ "decimals" ∶ number 18 ⨾ end_fields)
    ⨾ "features"
      ∶ array (
          object ("name" ∶ text "EIP155" ⨾ end_fields)
          ⨟ object ("name" ∶ text "EIP1559" ⨾ end_fields)
          ⨟ end_items)
    ⨾ "infoURL" ∶ text "https://panchain.io"
    ⨾ "shortName" ∶ text "pcn"
    ⨾ "chainId" ∶ number 7890
    ⨾ "networkId" ∶ number 7890
    ⨾ "explorers"
      ∶ array (
          object (
            "name" ∶ text "Blockscout"
            ⨾ "url" ∶ text "https://scan.panchain.io"
            ⨾ "icon" ∶ text "blockscout"
            ⨾ "standard" ∶ text "EIP3091"
            ⨾ end_fields)
          ⨟ end_items)
    ⨾ end_fields)

-- chainid-8006.js
abbrev pub chainid_8006 : JsValue
chainid_8006 = object (
    "name" ∶ text "BMN Smart Chain"
    ⨾ "chain" ∶ text "BMN"
    ⨾ "rpc" ∶ array (text "https://connect.bmnscan.com" ⨟ end_items)
    ⨾ "faucets" ∶ array end_items
    ⨾ "nativeCurrency"
      ∶ object
          ("name" ∶ text "BMN Coin" ⨾ "symbol" ∶ text "BMN" ⨾ "decimals" ∶ number 18 ⨾ end_fields)
    ⨾ "features"
      ∶ array (
          object ("name" ∶ text "EIP155" ⨾ end_fields)
          ⨟ object ("name" ∶ text "EIP1559" ⨾ end_fields)
          ⨟ end_items)
    ⨾ "infoURL" ∶ text "https://bmncoin.com"
    ⨾ "shortName" ∶ text "bmn"
    ⨾ "chainId" ∶ number 8006
    ⨾ "networkId" ∶ number 8006
    ⨾ "icon" ∶ text "bmn"
    ⨾ "explorers"
      ∶ array (
          object (
            "name" ∶ text "bmnscan"
            ⨾ "url" ∶ text "https://bmnscan.com"
            ⨾ "icon" ∶ text "bmnscan"
            ⨾ "standard" ∶ text "EIP3091"
            ⨾ end_fields)
          ⨟ end_items)
    ⨾ end_fields)

-- chainid-8125.js
abbrev pub chainid_8125 : JsValue
chainid_8125 = object (
    "name" ∶ text "Lerax Chain Testnet"
    ⨾ "chain" ∶ text "LERAX"
    ⨾ "rpc" ∶ array (text "https://rpc-testnet-dataseed.lerax.org" ⨟ end_items)
    ⨾ "faucets" ∶ array end_items
    ⨾ "nativeCurrency"
      ∶ object
          ("name" ∶ text "Lerax" ⨾ "symbol" ∶ text "tLRX" ⨾ "decimals" ∶ number 18 ⨾ end_fields)
    ⨾ "features" ∶ array (object ("name" ∶ text "EIP155" ⨾ end_fields) ⨟ end_items)
    ⨾ "infoURL" ∶ text "https://lerax.org/"
    ⨾ "shortName" ∶ text "lerax"
    ⨾ "chainId" ∶ number 8125
    ⨾ "networkId" ∶ number 8125
    ⨾ "icon" ∶ text "https://testnet.leraxscan.com/assets/configs/network_icon.svg"
    ⨾ "explorers"
      ∶ array (
          object (
            "name" ∶ text "Leraxscan Testnet"
            ⨾ "url" ∶ text "https://testnet.leraxscan.com/"
            ⨾ "icon" ∶ text "https://testnet.leraxscan.com/assets/configs/network_icon.svg"
            ⨾ "standard" ∶ text "EIP3091"
            ⨾ end_fields)
          ⨟ end_items)
    ⨾ end_fields)

-- chainid-8338.js
abbrev pub chainid_8338 : JsValue
chainid_8338 = object (
    "name" ∶ text "Forknet"
    ⨾ "chain" ∶ text "Forknet"
    ⨾ "rpc"
      ∶ array (
          text "https://rpc-forknet.t.conduit.xyz"
          ⨟ text "wss://rpc-forknet.t.conduit.xyz"
          ⨟ end_items)
    ⨾ "faucets" ∶ array end_items
    ⨾ "nativeCurrency"
      ∶ object ("name" ∶ text "Ether" ⨾ "symbol" ∶ text "ETH" ⨾ "decimals" ∶ number 18 ⨾ end_fields)
    ⨾ "features"
      ∶ array (
          object ("name" ∶ text "EIP155" ⨾ end_fields)
          ⨟ object ("name" ∶ text "EIP1559" ⨾ end_fields)
          ⨟ end_items)
    ⨾ "infoURL" ∶ text "https://forknet.io"
    ⨾ "shortName" ∶ text "forknet"
    ⨾ "chainId" ∶ number 8338
    ⨾ "networkId" ∶ number 8338
    ⨾ "icon" ∶ text "forknet"
    ⨾ "explorers"
      ∶ array (
          object ("name" ∶ text "forkscan" ⨾ "url" ∶ text "https://forkscan.org" ⨾ end_fields)
          ⨟ end_items)
    ⨾ end_fields)

-- chainid-843843.js
abbrev pub chainid_843843 : JsValue
chainid_843843 = object (
    "name" ∶ text "Galactica Testnet"
    ⨾ "chain" ∶ text "GNET"
    ⨾ "rpc" ∶ array (text "https://galactica-cassiopeia.g.alchemy.com/public" ⨟ end_items)
    ⨾ "faucets" ∶ array (text "https://faucet-cassiopeia.galactica.com" ⨟ end_items)
    ⨾ "nativeCurrency"
      ∶ object ("name" ∶ text "Gnet" ⨾ "symbol" ∶ text "GNET" ⨾ "decimals" ∶ number 18 ⨾ end_fields)
    ⨾ "features"
      ∶ array (
          object ("name" ∶ text "EIP155" ⨾ end_fields)
          ⨟ object ("name" ∶ text "EIP1559" ⨾ end_fields)
          ⨟ end_items)
    ⨾ "infoURL" ∶ text "https://galactica.com"
    ⨾ "shortName" ∶ text "galactica-testnet"
    ⨾ "chainId" ∶ number 843843
    ⨾ "networkId" ∶ number 843843
    ⨾ "icon" ∶ text "https://galactica-com.s3.eu-central-1.amazonaws.com/icon_galactica.png"
    ⨾ "explorers"
      ∶ array (
          object (
            "name" ∶ text "Blockscout"
            ⨾ "url" ∶ text "https://galactica-cassiopeia.explorer.alchemy.com"
            ⨾ "icon" ∶ text "blockscout"
            ⨾ "standard" ∶ text "EIP3091"
            ⨾ end_fields)
          ⨟ end_items)
    ⨾ end_fields)
