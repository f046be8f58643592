-- ===== src/Registry/Chains/From181228.antt =====
-- constants/additionalChainRegistry/chainid-181228.js to chainid-1990.js, in the order of the directory.
use pricefeeding.Registry.Js.{
  JsValue, text, number, array, object, end_items, ◌⨟◌, end_fields, ◌⨾◌, ◌∶◌,
}

-- chainid-181228.js
abbrev pub chainid_181228 : JsValue
chainid_181228 = object (
    "name" ∶ text "HPP Sepolia"
    ⨾ "chain" ∶ text "HPP"
    ⨾ "rpc" ∶ array (text "https://sepolia.hpp.io" ⨟ end_items)
    ⨾ "faucets" ∶ array end_items
    ⨾ "nativeCurrency"
      ∶ object ("name" ∶ text "Ether" ⨾ "symbol" ∶ text "ETH" ⨾ "decimals" ∶ number 18 ⨾ end_fields)
    ⨾ "features"
      ∶ array (
          object ("name" ∶ text "EIP155" ⨾ end_fields)
          ⨟ object ("name" ∶ text "EIP1559" ⨾ end_fields)
          ⨟ end_items)
    ⨾ "infoURL" ∶ text "https://www.hpp.io"
    ⨾ "shortName" ∶ text "hpp-sepolia"
    ⨾ "chainId" ∶ number 181228
    ⨾ "networkId" ∶ number 181228
    ⨾ "icon" ∶ text "ethereum"
    ⨾ "explorers"
      ∶ array (
          object (
            "name" ∶ text "HPP Sepolia Explorer"
            ⨾ "url" ∶ text "https://sepolia-explorer.hpp.io"
            ⨾ "icon" ∶ text "blockscout"
            ⨾ "standard" ∶ text "EIP3091"
            ⨾ end_fields)
          ⨟ end_items)
    ⨾ end_fields)

-- chainid-190278.js
abbrev pub chainid_190278 : JsValue
chainid_190278 = object (
    "name" ∶ text "GomChain Mainnet"
    ⨾ "chain" ∶ text "GomChain"
    ⨾ "rpc" ∶ array (text "https://rpc.gomchain.com" ⨟ end_items)
    ⨾ "faucets" ∶ array end_items
    ⨾ "nativeCurrency"
      ∶ object ("name" ∶ text "GOM" ⨾ "symbol" ∶ text "GOM" ⨾ "decimals" ∶ number 18 ⨾ end_fields)
    ⨾ "infoURL" ∶ text "https://gomchain.com"
    ⨾ "shortName" ∶ text "gomchain-mainnet"
    ⨾ "chainId" ∶ number 190278
    ⨾ "networkId" ∶ number 190278
    ⨾ "icon" ∶ text "gom"
    ⨾ "explorers"
      ∶ array (
          object (
            "name" ∶ text "gomscan"
            ⨾ "url" ∶ text "https://scan.gomchain.com"
            ⨾ "standard" ∶ text "EIP3091"
            ⨾ end_fields)
          ⨟ end_items)
    ⨾ end_fields)

-- chainid-190415.js
abbrev pub chainid_190415 : JsValue
chainid_190415 = object (
    "name" ∶ text "HPP Mainnet"
    ⨾ "chain" ∶ text "HPP"
    ⨾ "rpc" ∶ array (text "https://mainnet.hpp.io" ⨟ end_items)
    ⨾ "faucets" ∶ array end_items
    ⨾ "nativeCurrency"
      ∶ object ("name" ∶ text "Ether" ⨾ "symbol" ∶ text "ETH" ⨾ "decimals" ∶ number 18 ⨾ end_fields)
    ⨾ "features"
      ∶ array (
          object ("name" ∶ text "EIP155" ⨾ end_fields)
          ⨟ object ("name" ∶ text "EIP1559" ⨾ end_fields)
          ⨟ end_items)
    ⨾ "infoURL" ∶ text "https://www.hpp.io"
    ⨾ "shortName" ∶ text "hpp-mainnet"
    ⨾ "chainId" ∶ number 190415
    ⨾ "networkId" ∶ number 190415
    ⨾ "icon" ∶ text "ethereum"
    ⨾ "explorers"
      ∶ array (
          object (
            "name" ∶ text "HPP Mainnet Explorer"
            ⨾ "url" ∶ text "https://explorer.hpp.io"
            ⨾ "icon" ∶ text "blockscout"
            ⨾ "standard" ∶ text "EIP3091"
            ⨾ end_fields)
          ⨟ end_items)
    ⨾ end_fields)

-- chainid-192.js
abbrev pub chainid_192 : JsValue
chainid_192 = object (
    "name" ∶ text "Watr Mainnet"
    ⨾ "chain" ∶ text "WATR"
    ⨾ "icon" ∶ text "watr"
    ⨾ "rpc"
      ∶ array (
          text "https://rpc.watr.org/ext/bc/EypLFUSzC2wdbFJovYS3Af1E7ch1DJf7KxKoGR5QFPErxQkG1/rpc"
          ⨟ end_items)
    ⨾ "faucets" ∶ array end_items
    ⨾ "nativeCurrency"
      ∶ object ("name" ∶ text "WAT" ⨾ "symbol" ∶ text "WAT" ⨾ "decimals" ∶ number 18 ⨾ end_fields)
    ⨾ "infoURL" ∶ text "https://www.watr.org"
    ⨾ "shortName" ∶ text "watr-mainnet"
    ⨾ "chainId" ∶ number 192
    ⨾ "networkId" ∶ number 192
    ⨾ "explorers"
      ∶ array (
          object (
            "name" ∶ text "Watr Explorer"
            ⨾ "url" ∶ text "https://explorer.watr.org"
            ⨾ "icon" ∶ text "watr"
            ⨾ "standard" ∶ text "EIP3091"
            ⨾ end_fields)
          ⨟ end_items)
    ⨾ end_fields)

-- chainid-19416.js
abbrev pub chainid_19416 : JsValue
chainid_19416 = object (
    "name" ∶ text "Igra Caravel Testnet"
    ⨾ "chain" ∶ text "IGRA"
    ⨾ "rpc" ∶ array (text "https://caravel.igralabs.com:8545" ⨟ end_items)
    ⨾ "faucets" ∶ array (text "https://igra-faucet-ec24dbd67d05.herokuapp.com" ⨟ end_items)
    ⨾ "nativeCurrency"
      ∶ object ("name" ∶ text "Igra" ⨾ "symbol" ∶ text "IGRA" ⨾ "decimals" ∶ number 18 ⨾ end_fields)
    ⨾ "infoURL" ∶ text "https://docs.igralabs.com/"
    ⨾ "shortName" ∶ text "igra-caravel-testnet"
    ⨾ "chainId" ∶ number 19416
    ⨾ "networkId" ∶ number 19416
    ⨾ "explorers"
      ∶ array (
          object (
            "name" ∶ text "Igra Explorer"
            ⨾ "url" ∶ text "https://explorer.caravel.igralabs.com/"
            ⨾ "standard" ∶ text "EIP3091"
            ⨾ end_fields)
          ⨟ end_items)
    ⨾ end_fields)

-- chainid-198724.js
abbrev pub chainid_198724 : JsValue
chainid_198724 = object (
    "name" ∶ text "EADX Network"
    ⨾ "chain" ∶ text "EADX"
    ⨾ "rpc" ∶ array (text "https://rpc.eadx.network" ⨟ end_items)
    ⨾ "faucets" ∶ array end_items
    ⨾ "nativeCurrency"
      ∶ object ("name" ∶ text "EADX" ⨾ "symbol" ∶ text "EDX" ⨾ "decimals" ∶ number 18 ⨾ end_fields)
    ⨾ "features" ∶ array (object ("name" ∶ text "EIP155" ⨾ end_fields) ⨟ end_items)
    ⨾ "infoURL" ∶ text "https://eadxexchange.com"
    ⨾ "shortName" ∶ text "eadx"
    ⨾ "chainId" ∶ number 198724
    ⨾ "networkId" ∶ number 198724
    ⨾ "explorers"
      ∶ array (
          object (
            "name" ∶ text "EADX Explorer"
            ⨾ "url" ∶ text "https://explorer.eadx.network"
            ⨾ "standard" ∶ text "EIP3091"
            ⨾ end_fields)
          ⨟ end_items)
    ⨾ end_fields)

-- chainid-1990.js
abbrev pub chainid_1990 : JsValue
chainid_1990 = object (
    "name" ∶ text "QIEMainnet"
    ⨾ "chain" ∶ text "QIEV3"
    ⨾ "rpc"
      ∶ array (
          text "https://rpc1mainnet.qie.digital"
          ⨟ text "https://rpc5mainnet.qie.digital"
          ⨟ end_items)
    ⨾ "faucets" ∶ array end_items
    ⨾ "nativeCurrency"
      ∶ object ("name" ∶ text "QIE" ⨾ "symbol" ∶ text "QIE" ⨾ "decimals" ∶ number 18 ⨾ end_fields)
    ⨾ "features"
      ∶ array (
          object ("name" ∶ text "EIP155" ⨾ end_fields)
          ⨟ object ("name" ∶ text "EIP1559" ⨾ end_fields)
          ⨟ end_items)
    ⨾ "infoURL" ∶ text "https://www.qie.digital/"
    ⨾ "shortName" ∶ text "QIEV3"
    ⨾ "chainId" ∶ number 1990
    ⨾ "networkId" ∶ number 1990
    ⨾ "icon" ∶ text "qiev3"
    ⨾ "explorers"
      ∶ array (
          object (
            "name" ∶ text "QIE mainnet explorer"
            ⨾ "url" ∶ text "https://mainnet.qie.digital/"
            ⨾ end_fields)
          ⨟ end_items)
    ⨾ end_fields)
